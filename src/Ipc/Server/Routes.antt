-- ===== src/Ipc/Server/Routes.antt =====
-- Which session answers a request, and how many sessions there are.
use test_ai_agent.Prelude.{
  ◌+◌, ◌≤◌, ◌%◌, ◌^◌, Bool, List, [], ◌∷◌, Option, none, some, value_or, ◌==◌, ◌≡◌, ◌≢◌, refl,
  arith, ◌∙◌, ap, sym, subst, Option-cases, Bool-cases, inl, inr, ◌⊎◌, nat_eq, leb,
}
use test_ai_agent.Prelude.Int.{ℤ, pos, to_int32, int_eq}
use test_ai_agent.Prelude.Maps.{lookup, insert, insert_cases, length-insert, length-erase}
use test_ai_agent.Json.{JsonLib}
use test_ai_agent.Ipc.Protocol.Request.{RequestMessage}
use test_ai_agent.Prelude.Outcome.{Outcome, returns, throws}
use test_ai_agent.Ipc.Framing.Scan.{Bytes}
use test_ai_agent.Ipc.Protocol.Response.{ResponseMessage}
use test_ai_agent.Ipc.Session.Write.{enqueue, schedule_send, schedule_send_error}
use test_ai_agent.Ipc.Session.Defs.{Session, initialize, open_session}
use test_ai_agent.Ipc.Connections.Manager.{
  Connections, get_session_by_fd, get_session, session_count, add_session, remove_session_by_fd,
}
use test_ai_agent.Ipc.Connections.Linked.{Linked, get_session_by_fd_iff}
use test_ai_agent.Ipc.Server.Defs.{Server, CommandHandler, reply, on_message, message_handler}
use test_ai_agent.Ipc.Server.Events.{Accept, accepted, refused, register_client, accept_loop}

session_id-enqueue : (json : Bytes) (s : Session) → (enqueue json s).session_id ≡ s.session_id
unfolding enqueue
session_id-enqueue json s = ground arith

session_id-reply :
    {Json : Type 0} (J : JsonLib Json) (msg : RequestMessage Json)
    (outcome : Outcome (ResponseMessage Json)) (s : Session)
    → (reply J msg outcome s).session_id ≡ s.session_id
unfolding reply schedule_send schedule_send_error
session_id-reply J msg (returns response) s = session_id-enqueue _ s
session_id-reply J msg (throws what) s = session_id-enqueue _ s

module _ {Json D : Type 0} (J : JsonLib Json) (command_handler : CommandHandler Json D) where
  -- Where the two maps of the connections agree, a request changes no registered session whose
  -- descriptor is not the id of the request cut to a 32-bit signed integer, with 0 for no id,
  -- neither in the map nor, if it is that one, the session that read the request.
  pub message_handler_others :
      (msg : RequestMessage Json) (current other : Session) (server : Server D)
      → Linked server.connections
      → get_session other.session_id server.connections ≡ some other
      → other.client_fd ≢ to_int32 (value_or msg.id (pos 0))
      → let after = (message_handler J command_handler msg (current, server)).0 in
        (get_session other.session_id after.1.connections ≡ some other)
        × ((other.session_id ≢ current.session_id) ⊎ (after.0 ≡ current))
  unfolding message_handler get_session on_message
  message_handler_others msg current other server l here differs =
      let fd = to_int32 (value_or msg.id (pos 0)) in
      elim (Option-cases (get_session_by_fd fd server.connections)) [
        | inl absent ↦ rw (absent, message_handler) (here, inr refl)
        | inr (found, at) ↦
            let (registered, has_fd) = (get_session_by_fd_iff server.connections fd found l).0 at in
            let distinct : found.session_id ≢ other.session_id =
              λ e. differs (same_fd found registered e ∙ has_fd) in
            elim (Bool-cases (found.session_id == current.session_id)) [
              | inl same ↦
                  rw (at, message_handler, same)
                    (here, inl (λ e. distinct (ground (arith, same, e))))
              | inr different ↦
                  rw (at, message_handler, different)
                    (
                      kept found (reply J msg (command_handler msg server.world).1 found) distinct
                          (session_id-reply J msg (command_handler msg server.world).1 found),
                      inr refl,
                    )
            ]
      ]
    where
      same_fd :
          (found : Session)
          → lookup found.session_id server.connections.sessions_by_id ≡ some found
          → found.session_id ≡ other.session_id
          → other.client_fd ≡ found.client_fd
      same_fd found registered e =
          let both : some other ≡ some found =
            sym here ∙ ap (λ i. lookup i server.connections.sessions_by_id) (sym e) ∙ registered in
          ap (λ (o : Option Session). elim o [ none ↦ other.client_fd | some t ↦ t.client_fd ]) both

      kept :
          (found answered : Session)
          → found.session_id ≢ other.session_id
          → answered.session_id ≡ found.session_id
          → lookup other.session_id
              (insert answered.session_id answered server.connections.sessions_by_id)
            ≡ some other
      kept found answered distinct e =
          elim (insert_cases answered.session_id other.session_id answered
            server.connections.sessions_by_id) [
              | inl (same, _) ↦ absurd (distinct (sym e ∙ same))
              | inr (_, before) ↦ before ∙ here
            ]

pub add_session_count :
    (s : Session) (c : Connections) → session_count (add_session (some s) c) ≤ session_count c + 1
unfolding session_count add_session
add_session_count s c = length-insert s.session_id s c.sessions_by_id

pub remove_session_by_fd_count :
    (fd : ℤ) (c : Connections) → session_count (remove_session_by_fd fd c) ≤ session_count c
unfolding session_count remove_session_by_fd
remove_session_by_fd_count fd c = elim (Option-cases (lookup fd c.fd_to_id)) [
  | inl absent ↦ rw (absent, remove_session_by_fd) (omega arith)
  | inr (id, found) ↦ rw (found, remove_session_by_fd) (length-erase id c.sessions_by_id)
]

module _ {D : Type 0} where
  register_client_count :
      (fd : ℤ) (flags_read flags_set watches : Bool) (server : Server D)
      → let after = register_client fd flags_read flags_set watches server in
        (session_count after.connections ≤ session_count server.connections + 1)
        × (after.max_connections ≡ server.max_connections)
  unfolding register_client
  register_client_count fd flags_read flags_set watches server =
      let session =
        (initialize flags_read flags_set
          (open_session fd ((server.next_session_id + 1) % 2 ^ 64))).0 in
      let more = add_session_count session server.connections in
      let less = remove_session_by_fd_count fd (add_session (some session) server.connections) in
      ground (arith, more, less)

  -- If the number of sessions is within the limit, accepting any number of pending connections
  -- keeps it there.
  pub accept_loop_limit :
      (accepts : List Accept) (server : Server D)
      → session_count server.connections ≤ server.max_connections
      → session_count (accept_loop accepts server).connections ≤ server.max_connections
  unfolding accept_loop
  accept_loop_limit [] server h = h
  accept_loop_limit (refused ∷ more) server h = h
  accept_loop_limit (accepted fd flags_read flags_set watches ∷ more) server h =
      elim (Bool-cases (leb server.max_connections (session_count server.connections))) [
        | inl full ↦ rw (full, accept_loop) h
        | inr room ↦
            let next = register_client fd flags_read flags_set watches server in
            let (count, limit) = register_client_count fd flags_read flags_set watches server in
            rw (room, accept_loop)
              (subst (λ max. session_count (accept_loop more next).connections ≤ max) limit
                (accept_loop_limit more next (ground (arith, room, count, limit))))
      ]
