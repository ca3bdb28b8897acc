-- ===== src/Ipc/Server/History.antt =====
-- The states that the server of src/ipc/unix_socket_server.cpp reaches.
use test_ai_agent.Prelude.{
  ℕ, ◌+◌, ◌%◌, ◌^◌, ◌<◌, ◌≤◌, Bool, true, false, not, leb, none, some, ◌≡◌, refl, arith, ◌∙◌, sym,
  subst, nat_eq, Option-cases, Bool-cases, inl, inr,
}
use test_ai_agent.Prelude.Int.{ℤ, int_eq}
use test_ai_agent.Prelude.Maps.{lookup, insert_cases}
use test_ai_agent.Json.{JsonLib}
use test_ai_agent.Ipc.Session.Defs.{Session, initialize, open_session}
use test_ai_agent.Ipc.Connections.Manager.{Connections, add_session, session_count, close_all}
use test_ai_agent.Ipc.Connections.Linked.{
  Linked, IsFresh, no_connections-Linked, add_session-Linked, remove_session_by_fd-Linked,
}
use test_ai_agent.Ipc.Server.Defs.{Server, CommandHandler}
use test_ai_agent.Ipc.Server.Events.{ClientEvent, register_client, client_event, stop}
use test_ai_agent.Ipc.Server.Routes.{add_session_count, remove_session_by_fd_count}
use test_ai_agent.Ipc.Server.Order.{InOrder, removed_numbered, client_event-InOrder}

-- What `accept_connection` registers below the limit: the kernel gives a descriptor that no session
-- has open, and the counter of 64 bits does not come back to zero.
pub record CanAccept {D : Type 0} (fd : ℤ) (server : Server D) : Type 0 where
  pub room : leb server.max_connections (session_count server.connections) ≡ false
  pub unused : lookup fd server.connections.fd_to_id ≡ none
  pub counts : server.next_session_id + 1 < 2 ^ 64

module _ {Json D : Type 0} (J : JsonLib Json) (command_handler : CommandHandler Json D) where
  -- One step of the server: it serves a client, accepts one, or is stopped.
  pub data Step : Server D → Server D → Type 0 where
    serves :
        (e : ClientEvent) (server : Server D)
        → Step server (client_event J command_handler e server)
    accepts :
        (fd : ℤ) (flags_read flags_set watches : Bool) (server : Server D)
        → CanAccept fd server
        → Step server (register_client fd flags_read flags_set watches server)
    stops : (server : Server D) → Step server (stop server)

  pub data Steps : Server D → Server D → Type 0 where
    done : (server : Server D) → Steps server server
    more : (s t u : Server D) → Step s t → Steps t u → Steps s u

accepted_session :
    (fd : ℤ) (id : ℕ) (flags_read flags_set : Bool)
    → ((initialize flags_read flags_set (open_session fd id)).0.session_id ≡ id)
      × ((initialize flags_read flags_set (open_session fd id)).0.client_fd ≡ fd)
unfolding initialize open_session
accepted_session fd id true true = (refl, refl)
accepted_session fd id true false = (refl, refl)
accepted_session fd id false flags_set = (refl, refl)

added_numbered :
    (m : ℕ) (s : Session) (c : Connections)
    → ((i : ℕ) (t : Session) → lookup i c.sessions_by_id ≡ some t → i ≤ m)
    → s.session_id ≡ m + 1
    → (i : ℕ) (t : Session) → lookup i (add_session (some s) c).sessions_by_id ≡ some t
    → i ≤ m + 1
unfolding add_session
added_numbered m s c h next i t e = elim (insert_cases s.session_id i s c.sessions_by_id) [
  | inl (same, _) ↦ omega (arith, same, next)
  | inr (_, kept) ↦ omega (arith, h i t (sym kept ∙ e))
]

module _ {D : Type 0} where
  fresh :
      (fd : ℤ) (s : Session) (server : Server D)
      → InOrder server
      → CanAccept fd server
      → s.session_id ≡ server.next_session_id + 1
      → s.client_fd ≡ fd
      → IsFresh s server.connections
  fresh fd s server o can next at = record {
    id_fresh = elim (Option-cases (lookup s.session_id server.connections.sessions_by_id)) [
      | inl absent ↦ absent
      | inr (t, found) ↦ absurd (omega (arith, o.numbered s.session_id t found, next))
    ];
    fd_fresh = subst (λ f. lookup f server.connections.fd_to_id ≡ none) (sym at) can.unused;
  }

  register_client-InOrder :
      (fd : ℤ) (flags_read flags_set watches : Bool) (server : Server D)
      → CanAccept fd server
      → InOrder server
      → InOrder (register_client fd flags_read flags_set watches server)
  unfolding register_client
  register_client-InOrder fd flags_read flags_set watches server can o =
      let id = (server.next_session_id + 1) % 2 ^ 64 in
      let counted : id ≡ server.next_session_id + 1 = omega (arith, can.counts) in
      let (session, ready) = initialize flags_read flags_set (open_session fd id) in
      let (own_id, own_fd) = accepted_session fd id flags_read flags_set in
      let c = add_session (some session) server.connections in
      let linked : Linked c =
        add_session-Linked session server.connections o.linked
          (fresh fd session server o can (own_id ∙ counted) own_fd) in
      let numbered =
        added_numbered server.next_session_id session server.connections o.numbered
          (own_id ∙ counted) in
      let limit : session_count c ≤ server.max_connections =
        ground (arith, can.room, add_session_count session server.connections) in
      elim (Bool-cases (not ready)) [
        | inl unready ↦
            rw (unready, register_client)
              (record {
                linked = o.linked;
                limit = o.limit;
                numbered = λ i t e. omega (arith, o.numbered i t e, counted);
              })
        | inr fine ↦ elim (Bool-cases watches) [
          | inl watched ↦
              rw (fine, watched, register_client)
                (record {
                  linked = linked;
                  limit = limit;
                  numbered = λ i t e. omega (arith, numbered i t e, counted);
                })
          | inr failed ↦
              rw (fine, failed, register_client)
                (record {
                  linked = remove_session_by_fd-Linked fd c linked;
                  limit = omega (arith, remove_session_by_fd_count fd c, limit);
                  numbered = λ i t e. omega (
                    arith,
                    removed_numbered (server.next_session_id + 1) fd c numbered i t e,
                    counted,
                  );
                })
        ]
      ]

  stop-InOrder : (server : Server D) → InOrder server → InOrder (stop server)
  unfolding stop close_all session_count lookup
  stop-InOrder server o = record {
    linked = no_connections-Linked;
    limit = omega arith;
    numbered = λ i t e. cc e;
  }

module _ {Json D : Type 0} (J : JsonLib Json) (command_handler : CommandHandler Json D) where
  Step-InOrder :
      (server next : Server D) → Step J command_handler server next → InOrder server → InOrder next
  Step-InOrder _ _ (serves e server) o = client_event-InOrder J command_handler e server o
  Step-InOrder _ _ (accepts fd flags_read flags_set watches server can) o =
      register_client-InOrder fd flags_read flags_set watches server can o
  Step-InOrder _ _ (stops server) o = stop-InOrder server o

  -- If the two maps of the connections agree, the number of sessions is within the limit and no
  -- session id is above the counter, this is so again after any sequence of steps of the server:
  -- events of clients, whatever arrives and whatever the command handler answers, accepted
  -- clients, and calls of `stop`. A client is accepted below the limit, on a descriptor that no
  -- session has, while the counter of session ids does not wrap.
  pub Steps-InOrder :
      (server last : Server D) → Steps J command_handler server last → InOrder server → InOrder last
  Steps-InOrder _ _ (done server) o = o
  Steps-InOrder _ _ (more s t u step steps) o = Steps-InOrder t u steps (Step-InOrder s t step o)
