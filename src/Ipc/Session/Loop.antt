-- ===== src/Ipc/Session/Loop.antt =====
-- The loops of `on_readable` and `try_parse_messages` of src/ipc/session_manager.cpp: how they end.
use test_ai_agent.Prelude.{
  ℕ, zero, suc, ◌<◌, ◌≤◌, List, [], ◌∷◌, Bool, Option, none, ◌≡◌, ◌≢◌, arith, ap, sym, subst,
  length, drop, length-drop, Option-cases, Bool-cases, inl, inr,
}
use test_ai_agent.Json.{JsonLib}
use test_ai_agent.Ipc.Protocol.Message.{JsonMessage}
use test_ai_agent.Ipc.Framing.Scan.{Bytes}
use test_ai_agent.Ipc.Framing.Parser.{try_parse, try_parse_bounds, default_max_message_size}
use test_ai_agent.Ipc.Buffer.Ops.{IoBuffer, get_read_view, advance_read, compact, clear}
use test_ai_agent.Ipc.Buffer.View.{advance_read-Holds, length-view, clear-Holds}
use test_ai_agent.Ipc.Session.Defs.{
  Session, Errno, again, Handlers, reading, dispatch, close, close_cases, closed_session,
}
use test_ai_agent.Ipc.Session.Read.{
  Arrival, failing, ReadReturn, positive, eof, error, read_from_socket, consume, parse_loop,
  try_parse_messages, stop_reading, read_loop, on_readable, accepts_reads,
}
use test_ai_agent.Ipc.Session.Deliver.{LeavesInput, consume-dispatch}
use test_ai_agent.Ipc.Session.Room.{Ready, compacted-Ready, read_from_socket-Ready}

module _ {Json W : Type 0} (J : JsonLib Json) where
  -- What the parser makes of the readable bytes of a session.
  abbrev pub next_message : Session × W → Option (JsonMessage Json) × ℕ
  next_message sw = try_parse J default_max_message_size (get_read_view sw.0.read_buffer)

module _ {W : Type 0} where
  -- The read buffer is well formed, within its limit.
  abbrev pub IsReady : Session × W → Type 0
  IsReady sw = (q : Bytes) × Ready sw.0.read_buffer q

module _ {Json W : Type 0} (J : JsonLib Json) (H : Handlers Json W) (leaves : LeavesInput J H) where
  advanced-Ready :
      (k : ℕ) (b : IoBuffer) (q : Bytes)
      → Ready b q
      → k ≤ length q
      → Ready (compact (advance_read k b)) (drop k q)
  unfolding advance_read
  advanced-Ready k b q r le =
      compacted-Ready _ (drop k q)
        (record { holds = advance_read-Holds k b q r.holds le; sized = r.sized; limit = r.limit })

  pub consumed-le :
      (sw : Session × W) (q : Bytes) → Ready sw.0.read_buffer q → (next_message J sw).1 ≤ length q
  consumed-le sw q r =
      subst (λ v. (next_message J sw).1 ≤ length v) r.holds.view
        (try_parse_bounds J default_max_message_size (get_read_view sw.0.read_buffer)).0

  pub round-Ready :
      (m : JsonMessage Json) (sw : Session × W) (q : Bytes)
      → Ready sw.0.read_buffer q
      → Ready
          (consume J H (next_message J sw).1 (dispatch J H m sw)).0.read_buffer
          (drop (next_message J sw).1 q)
  round-Ready m sw q r =
      let k = (next_message J sw).1 in
      let e = ap (λ (x : Session × W). x.0.read_buffer) (consume-dispatch J H leaves k m sw) in
      subst (λ b. Ready b (drop k q)) (sym e)
        (advanced-Ready k sw.0.read_buffer q r (consumed-le sw q r))

  parse_loop_ends :
      (fuel : ℕ) (sw : Session × W) (q : Bytes)
      → Ready sw.0.read_buffer q
      → length q < fuel
      → ((next_message J (parse_loop J H fuel sw)).0 ≡ none)
        × ((rest : Bytes) × Ready (parse_loop J H fuel sw).0.read_buffer rest)
  unfolding parse_loop
  parse_loop_ends zero sw q r lt = absurd (omega arith)
  parse_loop_ends (suc fuel) sw q r lt = elim (Option-cases (next_message J sw).0) [
    | inl absent ↦ rw (absent, parse_loop) (absent, (q, r))
    | inr (m, found) ↦
        let k = (next_message J sw).1 in
        let present : (next_message J sw).0 ≢ none = λ e. ground (arith, e, found) in
        let progress : 0 < k =
          (try_parse_bounds J default_max_message_size (get_read_view sw.0.read_buffer)).1
            present in
        rw (found, parse_loop)
          (parse_loop_ends fuel (consume J H k (dispatch J H m sw)) (drop k q)
            (round-Ready m sw q r) (omega (arith, length-drop k q, progress, consumed-le sw q r)))
  ]

  -- If the handlers leave the read buffer alone and the buffer is well formed,
  -- `try_parse_messages` ends because the parser finds no further message, never for want of
  -- rounds, and leaves the buffer well formed.
  pub try_parse_messages_ends :
      (sw : Session × W) (q : Bytes)
      → Ready sw.0.read_buffer q
      → ((next_message J (try_parse_messages J H sw)).0 ≡ none)
        × ((rest : Bytes) × Ready (try_parse_messages J H sw).0.read_buffer rest)
  unfolding try_parse_messages
  try_parse_messages_ends sw q r =
      parse_loop_ends _ sw q r
        (omega (arith, length-view sw.0.read_buffer r.holds.valid, ap length r.holds.view))

  close-IsReady : (s : Session) (w : W) → IsReady (s, w) → IsReady (close s, w)
  unfolding closed_session
  close-IsReady s w (q, r) =
      close_cases (λ s'. IsReady (s', w)) s (q, r)
        (
          [],
          unfold clear in
              record {
                holds = clear-Holds s.read_buffer r.holds.valid;
                sized = r.sized;
                limit = r.limit;
              },
        )

  stop_reading-IsReady :
      (r : ReadReturn) (s : Session) (w : W)
      → IsReady (s, w)
      → IsReady (stop_reading J H r (s, w)).0
  unfolding stop_reading
  stop_reading-IsReady (error again) s w h = h
  stop_reading-IsReady _ s w h = close-IsReady s w h

  read_loop-IsReady :
      (arrivals : List Arrival) (errno : Errno) (s : Session) (w : W)
      → IsReady (s, w)
      → IsReady (read_loop J H arrivals errno (s, w)).0
  unfolding read_loop
  read_loop-IsReady [] errno s w (q, r) =
      stop_reading-IsReady _ _ w (_, (read_from_socket-Ready (failing again) errno s q r).1)
  read_loop-IsReady (a ∷ rest) errno s w (q, r) =
      let s' = (read_from_socket a errno s).0 in
      let h : IsReady (s', w) = (_, (read_from_socket-Ready a errno s q r).1) in
      let parsed = try_parse_messages J H (s', w) in
      elim (read_from_socket a errno s).1
        as (λ ret.
          IsReady
            (elim ret as (λ _. (Session × W) × Bool) [
              | positive ↦ read_loop J H rest errno parsed
              | eof ↦ stop_reading J H eof (s', w)
              | error e ↦ stop_reading J H (error e) (s', w)
            ]).0) [
              | positive ↦
                  read_loop-IsReady rest errno parsed.0 parsed.1
                    (try_parse_messages_ends (s', w) h.0 h.1).1
              | eof ↦ stop_reading-IsReady eof s' w h
              | error e ↦ stop_reading-IsReady (error e) s' w h
            ]

  -- If the handlers leave the read buffer alone and the buffer is well formed, not empty in size
  -- and within its limit, it is so again after `on_readable`, whatever arrives.
  pub on_readable-IsReady :
      (arrivals : List Arrival) (errno : Errno) (s : Session) (w : W)
      → IsReady (s, w)
      → IsReady (on_readable J H arrivals errno (s, w)).0
  unfolding on_readable
  on_readable-IsReady arrivals errno s w h = elim (Bool-cases (accepts_reads s.state)) [
    | inl open_ ↦ rw open_ (read_loop-IsReady arrivals errno (record s { state = reading }) w h)
    | inr shut ↦ rw shut h
  ]
