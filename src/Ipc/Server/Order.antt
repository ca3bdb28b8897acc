-- ===== src/Ipc/Server/Order.antt =====
-- The connections of the server of src/ipc/unix_socket_server.cpp under the events of its clients.
use test_ai_agent.Prelude.{
  ℕ, ◌≤◌, Bool, not, ◌||◌, some, value_or, ◌==◌, ◌≡◌, refl, arith, ◌∙◌, sym, nat_eq, Option-cases,
  Bool-cases, inl, inr,
}
use test_ai_agent.Prelude.Int.{ℤ, pos, to_int32, int_eq}
use test_ai_agent.Prelude.Maps.{lookup, erase_cases}
use test_ai_agent.Json.{JsonLib}
use test_ai_agent.Ipc.Protocol.Request.{RequestMessage}
use test_ai_agent.Ipc.Session.Defs.{Session, handle_message, after_message, is_closed}
use test_ai_agent.Ipc.Session.World.{About}
use test_ai_agent.Ipc.Connections.Manager.{
  Connections, get_session, get_session_by_fd, remove_session_by_fd, session_count,
}
use test_ai_agent.Ipc.Connections.Linked.{
  Linked, remove_session_by_fd-Linked, get_session_by_fd_iff,
}
use test_ai_agent.Ipc.Server.Defs.{
  Server, CommandHandler, on_message, message_handler, server_handlers, replace_session,
}
use test_ai_agent.Ipc.Server.Events.{ClientEvent, settle, client_event}
use test_ai_agent.Ipc.Server.Routes.{remove_session_by_fd_count}
use test_ai_agent.Ipc.Server.Around.{event-About}
use test_ai_agent.Ipc.Server.Holding.{Holding, replace-Holding, reply-Holding}

-- What holds of a server between two events: the maps agree, the limit is kept, and the numbers of the
-- sessions have been given out.
pub record InOrder {D : Type 0} (server : Server D) : Type 0 where
  pub linked : Linked server.connections
  pub limit : session_count server.connections ≤ server.max_connections
  pub numbered :
      (i : ℕ) (t : Session)
      → lookup i server.connections.sessions_by_id ≡ some t
      → i ≤ server.next_session_id

pub removed_numbered :
    (m : ℕ) (fd : ℤ) (c : Connections)
    → ((i : ℕ) (t : Session) → lookup i c.sessions_by_id ≡ some t → i ≤ m)
    → (i : ℕ) (t : Session) → lookup i (remove_session_by_fd fd c).sessions_by_id ≡ some t
    → i ≤ m
unfolding remove_session_by_fd
removed_numbered m fd c h i t = elim (Option-cases (lookup fd c.fd_to_id)) [
  | inl absent ↦ rw (absent, remove_session_by_fd) (h i t)
  | inr (id, found) ↦
      rw (found, remove_session_by_fd)
        (λ e. elim (erase_cases id i c.sessions_by_id) [
          | inl (_, gone) ↦ cc (e, gone)
          | inr (_, kept) ↦ h i t (sym kept ∙ e)
        ])
]

module _ {D : Type 0} (n m : ℕ) where
  abbrev Kept : ℕ → ℤ → Server D → Type 0
  Kept id fd server =
      Holding n m id fd server.connections
      × (server.max_connections ≡ n)
      × (server.next_session_id ≡ m)

  settled :
      (fd : ℤ) (session_active : Bool) (s : Session) (server : Server D)
      → About Kept (s, server)
      → InOrder (settle fd session_active (s, server))
  unfolding settle
  settled fd session_active s server (h, max, next) =
      let c = replace_session s server.connections in
      let kept : Holding n m s.session_id s.client_fd c =
        replace-Holding n m s.session_id s.client_fd server.connections s h h in
      elim (Bool-cases (not session_active || is_closed s)) [
        | inl ended ↦
            rw (ended, settle)
              (record {
                linked = remove_session_by_fd-Linked fd c kept.linked;
                limit = omega (arith, remove_session_by_fd_count fd c, kept.limit, max);
                numbered =
                    λ i t e. omega (arith, removed_numbered m fd c kept.numbered i t e, next);
              })
        | inr going ↦
            rw (going, settle)
              (record {
                linked = kept.linked;
                limit = omega (arith, kept.limit, max);
                numbered = λ i t e. omega (arith, kept.numbered i t e, next);
              })
      ]

module _ {Json D : Type 0} (J : JsonLib Json) (command_handler : CommandHandler Json D)
    (n m : ℕ) where
  handled-About :
      (msg : RequestMessage Json) (sw : Session × Server D)
      → About (Kept n m) sw
      → About (Kept n m) (handle_message J (server_handlers J command_handler) msg sw)
  unfolding handle_message after_message message_handler on_message get_session
  handled-About msg (s, server) (h, max, next) =
      let fd = to_int32 (value_or msg.id (pos 0)) in
      let outcome = (command_handler msg server.world).1 in
      elim (Option-cases (get_session_by_fd fd server.connections)) [
        | inl absent ↦ rw (absent, message_handler) (h, max, next)
        | inr (found, at) ↦
            let (registered, has_fd) =
              (get_session_by_fd_iff server.connections fd found h.linked).0 at in
            elim (Bool-cases (found.session_id == s.session_id)) [
              | inl same ↦
                  rw (at, message_handler, same)
                    (reply-Holding J msg outcome s n m server.connections h, max, next)
              | inr different ↦
                  let own : Holding n m found.session_id found.client_fd server.connections =
                    record {
                      linked = h.linked;
                      limit = h.limit;
                      numbered = h.numbered;
                      here = (found, registered, refl);
                    } in
                  rw (at, message_handler, different)
                    (
                      replace-Holding n m s.session_id s.client_fd server.connections _ h
                          (reply-Holding J msg outcome found n m server.connections own),
                      max,
                      next,
                    )
            ]
      ]

module _ {Json D : Type 0} (J : JsonLib Json) (command_handler : CommandHandler Json D) where
  pub client_event-InOrder :
      (e : ClientEvent) (server : Server D)
      → InOrder server
      → InOrder (client_event J command_handler e server)
  unfolding client_event get_session
  client_event-InOrder e server o =
      elim (Option-cases (get_session_by_fd e.client_fd server.connections)) [
        | inl absent ↦
            rw (absent, client_event)
              (record { linked = o.linked; limit = o.limit; numbered = o.numbered })
        | inr (s, at) ↦
            let n = server.max_connections in
            let m = server.next_session_id in
            let (registered, has_fd) =
              (get_session_by_fd_iff server.connections e.client_fd s o.linked).0 at in
            let own : Holding n m s.session_id s.client_fd server.connections = record {
              linked = o.linked;
              limit = o.limit;
              numbered = o.numbered;
              here = (s, registered, refl);
            } in
            let after =
              event-About J command_handler (Kept n m) (handled-About J command_handler n m) e s
                server (own, refl, refl) in
            rw (at, client_event) (settled n m e.client_fd _ _ _ after)
      ]
