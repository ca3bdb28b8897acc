-- ===== src/Ipc/Server/Ending.antt =====
-- How the thread of `run` of src/ipc/unix_socket_server.cpp ends once a stop was requested.
use test_ai_agent.Prelude.{
  ℕ, suc, ◌+◌, ◌≤◌, Bool, true, List, [], ◌∷◌, value_or, ◌==◌, ◌≡◌, ◌≢◌, ◌⊎◌, refl, arith, ◌∙◌, ap,
  inl, inr, Bool-cases, Option-cases,
}
use test_ai_agent.Prelude.Int.{ℤ, pos, to_int32}
use test_ai_agent.Json.{JsonLib}
use test_ai_agent.Ipc.Protocol.Request.{RequestMessage}
use test_ai_agent.Ipc.Session.Defs.{Session, handle_message, after_message}
use test_ai_agent.Ipc.Session.World.{About}
use test_ai_agent.Ipc.Connections.Manager.{get_session_by_fd}
use test_ai_agent.Ipc.Server.Defs.{
  Server, CommandHandler, on_message, message_handler, server_handlers,
}
use test_ai_agent.Ipc.Server.Events.{
  Accept, accepted, refused, ClientEvent, Event, connecting, client, register_client, accept_loop,
  settle, client_event, handle_epoll_event, handle_all, stop,
}
use test_ai_agent.Ipc.Server.Around.{event-About}
use test_ai_agent.Ipc.Server.Threads.{
  Phase, starting, testing, waiting, ended, Threads, test, Wake, handles, fails,
}

module _ {D : Type 0} where
  abbrev Requested : Bool → ℕ → ℤ → Server D → Type 0
  Requested b id fd server = server.stop_requested ≡ b

  register_client-requested :
      (fd : ℤ) (flags_read flags_set watches : Bool) (server : Server D)
      → (register_client fd flags_read flags_set watches server).stop_requested
        ≡ server.stop_requested
  unfolding register_client
  register_client-requested fd flags_read flags_set watches server = ground arith

  accept_loop-requested :
      (accepts : List Accept) (server : Server D)
      → (accept_loop accepts server).stop_requested ≡ server.stop_requested
  unfolding accept_loop
  accept_loop-requested [] server = refl
  accept_loop-requested (refused ∷ more) server = refl
  accept_loop-requested (accepted fd a b c ∷ more) server = ground (
    arith,
    accept_loop-requested more (register_client fd a b c server),
    register_client-requested fd a b c server,
  )

module _ {Json D : Type 0} (J : JsonLib Json) (command_handler : CommandHandler Json D)
    (b : Bool) where
  handled-Requested :
      (msg : RequestMessage Json) (sw : Session × Server D)
      → About (Requested b) sw
      → About (Requested b) (handle_message J (server_handlers J command_handler) msg sw)
  unfolding handle_message after_message message_handler on_message
  handled-Requested msg (s, server) h =
      elim (Option-cases
        (get_session_by_fd (to_int32 (value_or msg.id (pos 0))) server.connections)) [
          | inl absent ↦ rw (absent, message_handler) h
          | inr (found, at) ↦ elim (Bool-cases (found.session_id == s.session_id)) [
            | inl same ↦ rw (at, message_handler, same) h
            | inr different ↦ rw (at, message_handler, different) h
          ]
        ]

  settle-requested :
      (fd : ℤ) (session_active : Bool) (s : Session) (server : Server D)
      → (settle fd session_active (s, server)).stop_requested ≡ server.stop_requested
  unfolding settle
  settle-requested fd session_active s server = ground arith

  client_event-requested :
      (e : ClientEvent) (server : Server D)
      → server.stop_requested ≡ b
      → (client_event J command_handler e server).stop_requested ≡ b
  unfolding client_event
  client_event-requested e server h =
      elim (Option-cases (get_session_by_fd e.client_fd server.connections)) [
        | inl absent ↦ rw (absent, client_event) h
        | inr (s, at) ↦
            rw (at, client_event)
              (settle-requested e.client_fd _ _ _
                ∙ event-About J command_handler (Requested b) handled-Requested e s server h)
      ]

  handle_all-requested :
      (es : List Event) (server : Server D)
      → server.stop_requested ≡ b
      → (handle_all J command_handler es server).stop_requested ≡ b
  unfolding handle_epoll_event
  handle_all-requested [] server h = h
  handle_all-requested (connecting accepts ∷ es) server h =
      handle_all-requested es _ (accept_loop-requested accepts server ∙ h)
  handle_all-requested (client e ∷ es) server h =
      handle_all-requested es _ (client_event-requested e server h)

-- The steps that the thread still makes after a stop was requested.
abbrev pub steps_left : Phase → ℕ
steps_left starting = 3
steps_left waiting = 2
steps_left testing = 1
steps_left ended = 0

few_left : (p : Phase) → p ≢ starting → steps_left p ≤ 2
few_left starting h = absurd (h refl)
few_left testing h = omega arith
few_left waiting h = omega arith
few_left ended h = omega arith

none_left : (p : Phase) → steps_left p ≤ 0 → p ≡ ended
none_left starting h = absurd (omega arith)
none_left testing h = absurd (omega arith)
none_left waiting h = absurd (omega arith)
none_left ended h = refl

module _ {Json D : Type 0} (J : JsonLib Json) (command_handler : CommandHandler Json D) where
  -- A step of the thread: its own, or one that the kernel brings it.
  pub data Move (s : Threads D) : Threads D → Type 0 where
    tested : s.phase ≡ testing → Move s (test J command_handler s.server)
    woke : {t : Threads D} → Wake J command_handler s t → Move s t

  -- Steps of the thread, counted, between calls of `stop`.
  pub data Moves (s : Threads D) : ℕ → Threads D → Type 0 where
    start : Moves s 0 s
    moved : {n : ℕ} {t u : Threads D} → Moves s n t → Move t u → Moves s (suc n) u
    stopped_again :
        {n : ℕ} {t : Threads D} → Moves s n t → Moves s n (record t { server = stop t.server })

  Move-left :
      {s t : Threads D}
      → Move s t
      → s.server.stop_requested ≡ true
      → (t.server.stop_requested ≡ true) × (steps_left t.phase + 1 ≤ steps_left s.phase)
  unfolding test
  Move-left (tested e) h = rw (h, e) (refl, omega arith)
  Move-left (woke (handles es e)) h =
      (handle_all-requested J command_handler true es _ h, rw e (omega arith))
  Move-left (woke (fails e)) h = (h, rw e (omega arith))

  -- What is left after some steps, of two.
  Moves-left :
      {s : Threads D} {n : ℕ} {t : Threads D}
      → Moves s n t
      → s.server.stop_requested ≡ true
      → steps_left s.phase ≤ 2
      → (t.server.stop_requested ≡ true) × (n + steps_left t.phase ≤ 2)
  unfolding stop
  Moves-left start h few = (h, omega arith)
  Moves-left (moved moves move) h few =
      let (asked, left) = Moves-left moves h few in
      let (asked', less) = Move-left move asked in (asked', omega arith)
  Moves-left (stopped_again moves) h few = (refl, (Moves-left moves h few).1)

  -- The thread has ended, or has a step left, which it makes once the kernel wakes it.
  goes_on :
      (n : ℕ) (t : Threads D)
      → n + steps_left t.phase ≤ 2
      → (t.phase ≡ ended) ⊎ ((n ≤ 1) × (u : Threads D) × Move t u)
  goes_on n t few = by_phase t.phase refl
    where
      by_phase :
          (p : Phase) → t.phase ≡ p → (t.phase ≡ ended) ⊎ ((n ≤ 1) × (u : Threads D) × Move t u)
      by_phase starting e = absurd (omega (arith, ap steps_left e))
      by_phase testing e = inr (omega (arith, ap steps_left e), _, tested e)
      by_phase waiting e = inr (omega (arith, ap steps_left e), _, woke (fails e))
      by_phase ended e = inl e

  -- Once a stop is requested and the thread of `run` has begun, the thread makes at most two more
  -- steps, whatever the steps bring and however often `stop` is called again: as long as it has
  -- not ended it has a next step, which the kernel must bring if the thread waits in `epoll_wait`.
  pub stop_ends :
      (n : ℕ) (s t : Threads D)
      → s.server.stop_requested ≡ true
      → s.phase ≢ starting
      → Moves s n t
      → (n ≤ 2) × ((t.phase ≡ ended) ⊎ ((n ≤ 1) × (u : Threads D) × Move t u))
  stop_ends n s t h begun moves =
      let (_, left) = Moves-left moves h (few_left s.phase begun) in (omega arith, goes_on n t left)
