-- ===== src/Ipc/Server/Idle.antt =====
-- The sessions that the server of src/ipc/unix_socket_server.cpp has registered, and what it sends when it
-- serves an event.
use test_ai_agent.Prelude.{
  ℕ, ◌+◌, ◌%◌, ◌^◌, Bool, true, false, not, ◌&&◌, ◌||◌, [], none, some, value_or, ◌==◌,
  if◌then◌else◌, ◌≡◌, refl, ◌∙◌, sym, subst, nat_eq, Option-cases, Bool-cases, inl, inr,
}
use test_ai_agent.Prelude.Int.{ℤ, pos, to_int32, int_eq}
use test_ai_agent.Prelude.Maps.{lookup, insert_cases, erase_cases}
use test_ai_agent.Json.{JsonLib}
use test_ai_agent.Ipc.Protocol.Request.{RequestMessage}
use test_ai_agent.Ipc.Framing.Scan.{Bytes}
use test_ai_agent.Ipc.Session.Defs.{
  Session, handle_message, after_message, is_closed, initialize, open_session,
}
use test_ai_agent.Ipc.Session.Write.{on_writable}
use test_ai_agent.Ipc.Session.Silent.{NotWriting, on_readable-NotWriting, on_writable-NotWriting}
use test_ai_agent.Ipc.Session.World.{About}
use test_ai_agent.Ipc.Connections.Manager.{
  Connections, add_session, get_session_by_fd, remove_session_by_fd, close_all,
}
use test_ai_agent.Ipc.Server.Defs.{
  Server, CommandHandler, reply, on_message, message_handler, server_handlers, replace_session,
}
use test_ai_agent.Ipc.Server.Events.{
  ClientEvent, read_event, write_event, settle, client_event, register_client, stop,
}
use test_ai_agent.Ipc.Server.Answers.{reply_lem, server_handlers-LeavesState}
use test_ai_agent.Ipc.Server.Around.{event-About}
use test_ai_agent.Ipc.Server.History.{Step, serves, accepts, stops, Steps, done, more}

-- No registered session is in the state `writing`.
abbrev pub AllIdle : Connections → Type 0
AllIdle c = (i : ℕ) (t : Session) → lookup i c.sessions_by_id ≡ some t → NotWriting t

replace-AllIdle :
    (s : Session) (c : Connections) → NotWriting s → AllIdle c → AllIdle (replace_session s c)
replace-AllIdle s c idle h i t e = elim (insert_cases s.session_id i s c.sessions_by_id) [
  | inl (_, found) ↦ let is_t : s ≡ t = cc (found, e) in subst NotWriting is_t idle
  | inr (_, kept) ↦ h i t (sym kept ∙ e)
]

add-AllIdle :
    (s : Session) (c : Connections) → NotWriting s → AllIdle c → AllIdle (add_session (some s) c)
unfolding add_session
add-AllIdle s c idle h i t e = elim (insert_cases s.session_id i s c.sessions_by_id) [
  | inl (_, found) ↦ let is_t : s ≡ t = cc (found, e) in subst NotWriting is_t idle
  | inr (_, kept) ↦ h i t (sym kept ∙ e)
]

removed-AllIdle : (fd : ℤ) (c : Connections) → AllIdle c → AllIdle (remove_session_by_fd fd c)
unfolding remove_session_by_fd
removed-AllIdle fd c h i t = elim (Option-cases (lookup fd c.fd_to_id)) [
  | inl absent ↦ rw (absent, remove_session_by_fd) (h i t)
  | inr (id, found) ↦
      rw (found, remove_session_by_fd)
        (λ e. elim (erase_cases id i c.sessions_by_id) [
          | inl (_, gone) ↦ cc (e, gone)
          | inr (_, kept) ↦ h i t (sym kept ∙ e)
        ])
]

found-NotWriting :
    (fd : ℤ) (c : Connections) (s : Session)
    → AllIdle c
    → get_session_by_fd fd c ≡ some s
    → NotWriting s
unfolding get_session_by_fd
found-NotWriting fd c s h e = elim (Option-cases (lookup fd c.fd_to_id)) [
  | inl absent ↦ cc (e, absent)
  | inr (id, found) ↦ h id s (sym (rw (found, get_session_by_fd) refl) ∙ e)
]

opened-NotWriting :
    (fd : ℤ) (id : ℕ) (flags_read flags_set : Bool)
    → NotWriting (initialize flags_read flags_set (open_session fd id)).0
unfolding initialize open_session
opened-NotWriting fd id true true = refl
opened-NotWriting fd id true false = refl
opened-NotWriting fd id false flags_set = refl

module _ {Json D : Type 0} (J : JsonLib Json) (command_handler : CommandHandler Json D) where
  -- What an event hands to the kernel for its client.
  abbrev pub event_sends : ClientEvent → Server D → Bytes
  event_sends e server = elim (get_session_by_fd e.client_fd server.connections) [
    | none ↦ []
    | some session ↦
        let ((session', server'), session_active) =
          read_event J command_handler e (session, server) in
        let (_, _, sent) = on_writable e.departures e.write_errno session' in
        if session_active && e.writable then sent else []
  ]

  abbrev Idle : ℕ → ℤ → Server D → Type 0
  Idle id fd server = AllIdle server.connections

  handled-Idle :
      (msg : RequestMessage Json) (sw : Session × Server D)
      → About Idle sw
      → About Idle (handle_message J (server_handlers J command_handler) msg sw)
  unfolding handle_message after_message message_handler on_message
  handled-Idle msg (s, server) h =
      let fd = to_int32 (value_or msg.id (pos 0)) in
      let outcome = (command_handler msg server.world).1 in
      elim (Option-cases (get_session_by_fd fd server.connections)) [
        | inl absent ↦ rw (absent, message_handler) h
        | inr (found, at) ↦
            let idle = found-NotWriting fd server.connections found h at in
            let state = (reply_lem J msg outcome found found.read_buffer).0 in
            elim (Bool-cases (found.session_id == s.session_id)) [
              | inl same ↦ rw (at, message_handler, same) h
              | inr different ↦
                  rw (at, message_handler, different)
                    (replace-AllIdle (reply J msg outcome found) server.connections (rw state idle)
                      h)
            ]
      ]

  read_event-NotWriting :
      (e : ClientEvent) (s : Session) (server : Server D)
      → NotWriting s
      → NotWriting (read_event J command_handler e (s, server)).0.0
  unfolding read_event
  read_event-NotWriting e s server idle = elim (Bool-cases e.readable) [
    | inl reads ↦
        rw (reads, read_event)
          (on_readable-NotWriting J (server_handlers J command_handler)
            (server_handlers-LeavesState J command_handler) e.arrivals e.read_errno s server idle)
    | inr waits ↦ rw (waits, read_event) idle
  ]

  write-NotWriting :
      (e : ClientEvent) (s : Session)
      → NotWriting s
      → NotWriting (on_writable e.departures e.write_errno s).0
        × ((on_writable e.departures e.write_errno s).2 ≡ [])
  write-NotWriting e s idle =
      on_writable-NotWriting J (server_handlers J command_handler)
        (server_handlers-LeavesState J command_handler) e.departures e.write_errno s idle

  write_event-NotWriting :
      (e : ClientEvent) (s : Session) (server : Server D) (session_active : Bool)
      → NotWriting s
      → NotWriting (write_event J command_handler e ((s, server), session_active)).0.0
  unfolding write_event
  write_event-NotWriting e s server session_active idle =
      elim (Bool-cases (session_active && e.writable)) [
        | inl writes ↦ rw (writes, write_event) (write-NotWriting e s idle).0
        | inr waits ↦ rw (waits, write_event) idle
      ]

  settle-AllIdle :
      (fd : ℤ) (session_active : Bool) (s : Session) (server : Server D)
      → NotWriting s
      → AllIdle server.connections
      → AllIdle (settle fd session_active (s, server)).connections
  unfolding settle
  settle-AllIdle fd session_active s server idle h =
      let kept = replace-AllIdle s server.connections idle h in
      elim (Bool-cases (not session_active || is_closed s)) [
        | inl ended ↦
            rw (ended, settle) (removed-AllIdle fd (replace_session s server.connections) kept)
        | inr going ↦ rw (going, settle) kept
      ]

  client_event-AllIdle :
      (e : ClientEvent) (server : Server D)
      → AllIdle server.connections
      → AllIdle (client_event J command_handler e server).connections
  unfolding client_event
  client_event-AllIdle e server h =
      elim (Option-cases (get_session_by_fd e.client_fd server.connections)) [
        | inl absent ↦ rw (absent, client_event) h
        | inr (s, at) ↦
            let idle = found-NotWriting e.client_fd server.connections s h at in
            rw (at, client_event)
              (settle-AllIdle e.client_fd _ _ _
                (write_event-NotWriting e _ _ _ (read_event-NotWriting e s server idle))
                (event-About J command_handler Idle handled-Idle e s server h))
      ]

  register_client-AllIdle :
      (fd : ℤ) (flags_read flags_set watches : Bool) (server : Server D)
      → AllIdle server.connections
      → AllIdle (register_client fd flags_read flags_set watches server).connections
  unfolding register_client
  register_client-AllIdle fd flags_read flags_set watches server h =
      let id = (server.next_session_id + 1) % 2 ^ 64 in
      let (session, ready) = initialize flags_read flags_set (open_session fd id) in
      let added =
        add-AllIdle session server.connections (opened-NotWriting fd id flags_read flags_set) h in
      elim (Bool-cases (not ready)) [
        | inl unready ↦ rw (unready, register_client) h
        | inr fine ↦ elim (Bool-cases watches) [
          | inl watched ↦ rw (fine, watched, register_client) added
          | inr failed ↦
              rw (fine, failed, register_client)
                (removed-AllIdle fd (add_session (some session) server.connections) added)
        ]
      ]

  Step-AllIdle :
      (server next : Server D)
      → Step J command_handler server next
      → AllIdle server.connections
      → AllIdle next.connections
  unfolding stop close_all lookup
  Step-AllIdle _ _ (serves e server) h = client_event-AllIdle e server h
  Step-AllIdle _ _ (accepts fd flags_read flags_set watches server can) h =
      register_client-AllIdle fd flags_read flags_set watches server h
  Step-AllIdle _ _ (stops server) h = λ i t e. cc e

  Steps-AllIdle :
      (server last : Server D)
      → Steps J command_handler server last
      → AllIdle server.connections
      → AllIdle last.connections
  Steps-AllIdle _ _ (done server) h = h
  Steps-AllIdle _ _ (more s t u step steps) h = Steps-AllIdle t u steps (Step-AllIdle s t step h)

  -- If no registered session is in the state `writing`, as when there is none, then after any
  -- sequence of steps of the server, which serve clients, accept them, or stop it, whatever
  -- arrives and whatever the command handler answers, an event hands no byte to the kernel for its
  -- client.
  pub event_sends-Steps :
      (server last : Server D) (e : ClientEvent)
      → AllIdle server.connections
      → Steps J command_handler server last
      → event_sends e last ≡ []
  event_sends-Steps server last e h steps =
      let h' = Steps-AllIdle server last steps h in
      elim (Option-cases (get_session_by_fd e.client_fd last.connections)) [
        | inl absent ↦ rw (absent, event_sends) refl
        | inr (s, at) ↦
            let idle = found-NotWriting e.client_fd last.connections s h' at in
            let (sw, session_active) = read_event J command_handler e (s, last) in
            let silent = (write-NotWriting e sw.0 (read_event-NotWriting e s last idle)).1 in
            elim (Bool-cases (session_active && e.writable)) [
              | inl writes ↦ rw (at, event_sends, writes) silent
              | inr waits ↦ rw (at, event_sends, waits) refl
            ]
      ]
