-- ===== src/Ipc/Session/Read.antt =====
-- Reading: `on_readable`, `read_from_socket` and `try_parse_messages`.
use test_ai_agent.Prelude.{
  ℕ, zero, suc, ◌*◌, min, List, [], ◌∷◌, Bool, true, false, ◌&&◌, none, some, ltb, leb,
  if◌then◌else◌, length, take,
}
use test_ai_agent.Json.{JsonLib}
use test_ai_agent.Ipc.Framing.Scan.{Bytes}
use test_ai_agent.Ipc.Framing.Parser.{try_parse, default_max_message_size}
use test_ai_agent.Ipc.Buffer.Ops.{
  IoBuffer, available_for_read, available_for_write, compact, get_read_view, advance_read,
  advance_write, resize, store,
}
use test_ai_agent.Ipc.Session.Defs.{
  SessionState, active, reading, Errno, again, Session, Handlers, max_buffer_size, close, dispatch,
}

-- What the socket has for one call of `read`.
pub data Arrival : Type 0 where
  arrived : Bytes → Arrival
  hung_up : Arrival
  failing : Errno → Arrival

-- What `read_from_socket` returns: a positive count, 0, or -1 with the `errno` that is then seen.
pub data ReadReturn : Type 0 where
  positive : ReadReturn
  eof : ReadReturn
  error : Errno → ReadReturn

-- Room for at least 1024 bytes, by doubling, up to the limit.
unfoldable pub grow : IoBuffer → IoBuffer
grow b =
    let new_size = min (length b.bytes * 2) max_buffer_size in
    if ltb (available_for_write b) 1024 && ltb (length b.bytes) new_size
    then resize new_size b
    else b

-- What `read_from_socket` does to the buffer before the call of `read`.
unfoldable pub make_room : IoBuffer → IoBuffer
make_room b = grow (if ltb 0 b.read_pos && ltb 0 (available_for_read b) then compact b else b)

-- The kernel copies at most as many bytes as it was asked for.
unfoldable pub receive : Bytes → IoBuffer → IoBuffer × ReadReturn
receive bytes b = elim (take (available_for_write b) bytes) [
  | [] ↦ (b, eof)
  | c ∷ cs ↦ (advance_write (suc (length cs)) (store (c ∷ cs) b), positive)
]

unfoldable pub read_into : Arrival → IoBuffer → IoBuffer × ReadReturn
unfolding receive
read_into (arrived bytes) b = receive bytes b
read_into hung_up b = (b, eof)
read_into (failing e) b = (b, error e)

-- A buffer of the full size returns -1, and leaves `errno` as it was.
unfoldable pub read_from_socket : Arrival → Errno → Session → Session × ReadReturn
read_from_socket arrival errno s =
    let (b, r) = read_into arrival (make_room s.read_buffer) in
    if leb max_buffer_size (length s.read_buffer.bytes)
    then (s, error errno)
    else (record s { read_buffer = b }, r)

abbrev pub accepts_reads : SessionState → Bool
accepts_reads active = true
accepts_reads reading = true
accepts_reads _ = false

module _ {Json W : Type 0} (J : JsonLib Json) (H : Handlers Json W) where
  unfoldable pub consume : ℕ → Session × W → Session × W
  consume n (s, w) = (record s { read_buffer = compact (advance_read n s.read_buffer) }, w)

  -- The loop of `try_parse_messages`, on fuel.
  unfoldable pub parse_loop : ℕ → Session × W → Session × W
  parse_loop zero sw = sw
  parse_loop (suc fuel) sw =
      let (found, bytes_consumed) =
        try_parse J default_max_message_size (get_read_view sw.0.read_buffer) in
      elim found [
        | none ↦ sw
        | some msg ↦ parse_loop fuel (consume bytes_consumed (dispatch J H msg sw))
      ]

  -- Each round takes a byte or more, so there are no more rounds than bytes.
  unfoldable pub try_parse_messages : Session × W → Session × W
  try_parse_messages sw = parse_loop (suc (available_for_read sw.0.read_buffer)) sw

  -- The ways out of the loop of `on_readable`.
  unfoldable pub stop_reading : ReadReturn → Session × W → (Session × W) × Bool
  stop_reading (error again) (s, w) = ((record s { state = active }, w), true)
  stop_reading _ (s, w) = ((close s, w), false)

  -- The loop of `on_readable` over what the socket has; after that it would block.
  unfoldable pub read_loop : List Arrival → Errno → Session × W → (Session × W) × Bool
  read_loop [] errno (s, w) =
      let (s', r) = read_from_socket (failing again) errno s in stop_reading r (s', w)
  read_loop (a ∷ rest) errno (s, w) =
      let (s', r) = read_from_socket a errno s in
      elim r [
        | positive ↦ read_loop rest errno (try_parse_messages (s', w))
        | eof ↦ stop_reading eof (s', w)
        | error e ↦ stop_reading (error e) (s', w)
      ]

  unfoldable pub on_readable : List Arrival → Errno → Session × W → (Session × W) × Bool
  on_readable arrivals errno (s, w) =
      if accepts_reads s.state
      then read_loop arrivals errno (record s { state = reading }, w)
      else ((s, w), false)
