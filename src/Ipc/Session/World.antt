-- ===== src/Ipc/Session/World.antt =====
-- What `on_readable` and `on_writable` of src/ipc/session_manager.cpp keep, besides the buffers: the
-- identity of the session, and what the handlers keep.
use test_ai_agent.Prelude.{
  ℕ, zero, suc, List, [], ◌∷◌, Bool, true, Option-cases, Bool-cases, inl, inr, length, leb, ltb,
  take, ◌++◌,
}
use test_ai_agent.Prelude.Int.{ℤ}
use test_ai_agent.Json.{JsonLib}
use test_ai_agent.Ipc.Protocol.Request.{RequestMessage}
use test_ai_agent.Ipc.Protocol.Message.{JsonMessage, is_request}
use test_ai_agent.Ipc.Framing.Parser.{try_parse, default_max_message_size}
use test_ai_agent.Ipc.Framing.Scan.{Bytes}
use test_ai_agent.Ipc.Buffer.Ops.{get_read_view, available_for_read, compact, advance_read}
use test_ai_agent.Ipc.Session.Defs.{
  Session, Errno, again, other, Handlers, active, reading, writing, handle_message, dispatch, close,
  close_cases, closed_session, max_buffer_size,
}
use test_ai_agent.Ipc.Session.Read.{
  Arrival, failing, ReadReturn, positive, eof, error, read_from_socket, consume, parse_loop,
  try_parse_messages, stop_reading, read_loop, on_readable, accepts_reads,
}
use test_ai_agent.Ipc.Session.Write.{
  Departure, taken, refused, Written, stop_writing, write_loop, on_writable,
}

-- A property of the identity of a session and of the rest of the daemon.
abbrev pub About : {W : Type 0} → (ℕ → ℤ → W → Type 0) → Session × W → Type 0
About Q (s, w) = Q s.session_id s.client_fd w

module _ {W : Type 0} (Q : ℕ → ℤ → W → Type 0) where
  close-About : (s : Session) (w : W) → About Q (s, w) → About Q (close s, w)
  unfolding closed_session
  close-About s w h = close_cases (λ t. About Q (t, w)) s h h

  stop_writing-About :
      (e : Errno) (s : Session) (sent : Bytes) (w : W)
      → About Q (s, w)
      → About Q ((stop_writing e s sent).0, w)
  unfolding stop_writing
  stop_writing-About again s sent w h = h
  stop_writing-About (other e) s sent w h = close-About s w h

  write_loop-About :
      (ds : List Departure) (errno : Errno) (s : Session) (sent : Bytes) (w : W)
      → About Q (s, w)
      → About Q ((write_loop ds errno s sent).0, w)
  unfolding write_loop
  write_loop-About [] errno s sent w h =
      elim (Bool-cases (ltb 0 (available_for_read s.write_buffer))) [
        | inl pending ↦ rw (pending, write_loop) (stop_writing-About again s sent w h)
        | inr empty ↦ rw (empty, write_loop) h
      ]
  write_loop-About (refused e ∷ rest) errno s sent w h =
      elim (Bool-cases (ltb 0 (available_for_read s.write_buffer))) [
        | inl pending ↦ rw (pending, write_loop) (stop_writing-About e s sent w h)
        | inr empty ↦ rw (empty, write_loop) h
      ]
  write_loop-About (taken n ∷ rest) errno s sent w h =
      elim (Bool-cases (ltb 0 (available_for_read s.write_buffer))) [
        | inl pending ↦
            rw (pending, write_loop)
              (counted (write_loop-About rest errno) (take n (get_read_view s.write_buffer)))
        | inr empty ↦ rw (empty, write_loop) h
      ]
    where
      counted :
          ((s' : Session) (out : Bytes) (w' : W)
            → About Q (s', w')
            → About Q ((write_loop rest errno s' out).0, w'))
          → (got : Bytes)
          → About Q (
            (elim got as (λ _. Written) [
              | [] ↦ stop_writing errno s sent
              | c ∷ cs ↦
                  write_loop rest errno
                    (record s {
                      write_buffer = compact (advance_read (suc (length cs)) s.write_buffer);
                    })
                    (sent ++ (c ∷ cs))
            ]).0,
            w,
          )
      counted ih [] = stop_writing-About errno s sent w h
      counted ih (c ∷ cs) = ih _ (sent ++ (c ∷ cs)) w h

  pub on_writable-About :
      (ds : List Departure) (errno : Errno) (s : Session) (w : W)
      → About Q (s, w)
      → About Q ((on_writable ds errno s).0, w)
  unfolding on_writable
  on_writable-About ds errno s w h =
      elim s.state
        as (λ st. About Q (
          (elim st as (λ _. Written) [
            | writing ↦ write_loop ds errno s []
            | _ ↦ (record s { state = active }, true, [])
          ]).0,
          w,
        )) [ writing ↦ write_loop-About ds errno s [] w h | _ ↦ h ]

module _ {Json W : Type 0} (J : JsonLib Json) (H : Handlers Json W) (Q : ℕ → ℤ → W → Type 0)
    (keeps : (m : RequestMessage Json) (sw : Session × W)
      → About Q sw
      → About Q (handle_message J H m sw)) where
  dispatch-About :
      (m : JsonMessage Json) (sw : Session × W) → About Q sw → About Q (dispatch J H m sw)
  unfolding dispatch
  dispatch-About m sw h = elim (Bool-cases (is_request m)) [
    | inl request ↦ rw (request, dispatch) (keeps _ sw h)
    | inr response ↦ rw (response, dispatch) h
  ]

  parse_loop-About : (fuel : ℕ) (sw : Session × W) → About Q sw → About Q (parse_loop J H fuel sw)
  unfolding parse_loop consume
  parse_loop-About zero sw h = h
  parse_loop-About (suc fuel) sw h =
      elim (Option-cases
        (try_parse J default_max_message_size (get_read_view sw.0.read_buffer)).0) [
          | inl absent ↦ rw (absent, parse_loop) h
          | inr (m, found) ↦
              rw (found, parse_loop) (parse_loop-About fuel _ (dispatch-About m sw h))
        ]

  try_parse_messages-About : (sw : Session × W) → About Q sw → About Q (try_parse_messages J H sw)
  unfolding try_parse_messages
  try_parse_messages-About sw h = parse_loop-About _ sw h

  read_from_socket-About :
      (a : Arrival) (errno : Errno) (s : Session) (w : W)
      → About Q (s, w)
      → About Q ((read_from_socket a errno s).0, w)
  unfolding read_from_socket
  read_from_socket-About a errno s w h =
      elim (Bool-cases (leb max_buffer_size (length s.read_buffer.bytes))) [
        | inl full ↦ rw (full, read_from_socket) h
        | inr below ↦ rw (below, read_from_socket) h
      ]

  stop_reading-About :
      (r : ReadReturn) (s : Session) (w : W)
      → About Q (s, w)
      → About Q (stop_reading J H r (s, w)).0
  unfolding stop_reading
  stop_reading-About (error again) s w h = h
  stop_reading-About _ s w h = close-About Q s w h

  read_loop-About :
      (arrivals : List Arrival) (errno : Errno) (s : Session) (w : W)
      → About Q (s, w)
      → About Q (read_loop J H arrivals errno (s, w)).0
  unfolding read_loop
  read_loop-About [] errno s w h =
      stop_reading-About _ _ w (read_from_socket-About (failing again) errno s w h)
  read_loop-About (a ∷ rest) errno s w h =
      let s' = (read_from_socket a errno s).0 in
      let h' = read_from_socket-About a errno s w h in
      let parsed = try_parse_messages J H (s', w) in
      elim (read_from_socket a errno s).1
        as (λ r.
          About Q
            (elim r as (λ _. (Session × W) × Bool) [
              | positive ↦ read_loop J H rest errno parsed
              | eof ↦ stop_reading J H eof (s', w)
              | error e ↦ stop_reading J H (error e) (s', w)
            ]).0) [
              | positive ↦
                  read_loop-About rest errno parsed.0 parsed.1 (try_parse_messages-About (s', w) h')
              | eof ↦ stop_reading-About eof s' w h'
              | error e ↦ stop_reading-About (error e) s' w h'
            ]

  -- What the handlers keep of the identity of the session and of the daemon, reading keeps.
  pub on_readable-About :
      (arrivals : List Arrival) (errno : Errno) (s : Session) (w : W)
      → About Q (s, w)
      → About Q (on_readable J H arrivals errno (s, w)).0
  unfolding on_readable
  on_readable-About arrivals errno s w h = elim (Bool-cases (accepts_reads s.state)) [
    | inl accepting ↦
        rw (accepting, on_readable)
          (read_loop-About arrivals errno (record s { state = reading }) w h)
    | inr shut ↦ rw (shut, on_readable) h
  ]
