-- ===== src/Ipc/Session/Stall.antt =====
-- `try_parse_messages` of src/ipc/session_manager.cpp at a complete line that is no message. Its loop
-- takes the line for an incomplete one, and does not drop what `try_parse` said was consumed.
use mathlib.Core.List.{append_assoc}
use test_ai_agent.Prelude.{
  ℕ, zero, suc, ◌+◌, ◌<◌, List, [], ◌∷◌, ◌++◌, Bool, none, ◌≡◌, refl, arith, ◌∙◌, ap, subst, length,
}
use test_ai_agent.Json.{JsonLib, newline}
use test_ai_agent.Ipc.Framing.Scan.{Bytes, OneLine}
use test_ai_agent.Ipc.Framing.Parser.{parse_line, try_parse, default_max_message_size}
use test_ai_agent.Ipc.Framing.Lines.{try_parse-line}
use test_ai_agent.Ipc.Buffer.Ops.{get_read_view}
use test_ai_agent.Ipc.Session.Defs.{Session, Errno, Handlers, reading}
use test_ai_agent.Ipc.Session.Read.{
  Arrival, ReadReturn, positive, eof, error, read_from_socket, parse_loop, try_parse_messages,
  stop_reading, read_loop, on_readable,
}
use test_ai_agent.Ipc.Session.Room.{Ready, read_from_socket-Ready}

module _ {Json : Type 0} (J : JsonLib Json) where
  -- A complete line within the limit that is no message: blank, or JSON of another shape.
  pub record NoMessage (line : Bytes) : Type 0 where
    pub one_line : OneLine line
    pub short : length line < default_max_message_size
    pub unread : parse_line J line ≡ none

-- The read buffer begins with that line.
pub record BeginsWith (line : Bytes) (s : Session) : Type 0 where
  pub rest : Bytes
  pub ready : Ready s.read_buffer (line ++ newline ∷ rest)

module _ {Json W : Type 0} (J : JsonLib Json) (H : Handlers Json W) (line : Bytes)
    (bad : NoMessage J line) where
  not_found :
      (s : Session)
      → BeginsWith line s
      → try_parse J default_max_message_size (get_read_view s.read_buffer) ≡ (none, length line + 1)
  not_found s b =
      ap (try_parse J default_max_message_size) b.ready.holds.view
      ∙ try_parse-line J default_max_message_size line b.rest bad.one_line
      ∙ ground (arith, bad.unread)

  parse_loop-stalled :
      (fuel : ℕ) (s : Session) (w : W) → BeginsWith line s → parse_loop J H fuel (s, w) ≡ (s, w)
  unfolding parse_loop
  parse_loop-stalled zero s w b = refl
  parse_loop-stalled (suc fuel) s w b = rw (not_found s b, parse_loop)

  try_parse_messages-stalled :
      (s : Session) (w : W) → BeginsWith line s → try_parse_messages J H (s, w) ≡ (s, w)
  unfolding try_parse_messages
  try_parse_messages-stalled s w b = parse_loop-stalled _ s w b

  read_from_socket-stalled :
      (a : Arrival) (errno : Errno) (s : Session)
      → BeginsWith line s
      → BeginsWith line (read_from_socket a errno s).0
  read_from_socket-stalled a errno s b =
      let (extra, r) = read_from_socket-Ready a errno s (line ++ newline ∷ b.rest) b.ready in
      record {
        rest = b.rest ++ extra;
        ready = subst (Ready _) (append_assoc line (newline ∷ b.rest) extra) r;
      }

  stop_reading-world : (r : ReadReturn) (s : Session) (w : W) → (stop_reading J H r (s, w)).0.1 ≡ w
  unfolding stop_reading
  stop_reading-world r s w = ground arith

  read_loop-stalled :
      (arrivals : List Arrival) (errno : Errno) (s : Session) (w : W)
      → BeginsWith line s
      → (read_loop J H arrivals errno (s, w)).0.1 ≡ w
  unfolding read_loop
  read_loop-stalled [] errno s w b = stop_reading-world _ _ w
  read_loop-stalled (a ∷ rest) errno s w b =
      let s' = (read_from_socket a errno s).0 in
      let b' = read_from_socket-stalled a errno s b in
      elim (read_from_socket a errno s).1
        as (λ r.
          (elim r as (λ _. (Session × W) × Bool) [
            | positive ↦ read_loop J H rest errno (try_parse_messages J H (s', w))
            | eof ↦ stop_reading J H eof (s', w)
            | error e ↦ stop_reading J H (error e) (s', w)
          ]).0.1
          ≡ w) [
            | positive ↦
                rw (try_parse_messages-stalled s' w b') (read_loop-stalled rest errno s' w b')
            | eof ↦ stop_reading-world eof s' w
            | error e ↦ stop_reading-world (error e) s' w
          ]

  -- If the read buffer begins with a complete line of which the parser makes no message, then
  -- nothing that arrives at the session changes the rest of the daemon on which the handlers act.
  pub on_readable-stalled :
      (arrivals : List Arrival) (errno : Errno) (s : Session) (w : W)
      → BeginsWith line s
      → (on_readable J H arrivals errno (s, w)).0.1 ≡ w
  unfolding on_readable
  on_readable-stalled arrivals errno s w b = ground (
    arith,
    read_loop-stalled arrivals errno (record s { state = reading }) w
        (record { rest = b.rest; ready = b.ready }),
  )
