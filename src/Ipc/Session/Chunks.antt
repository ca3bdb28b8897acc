-- ===== src/Ipc/Session/Chunks.antt =====
-- `on_readable` of src/ipc/session_manager.cpp on a stream of messages that arrives in pieces.
use mathlib.Core.List.{append_assoc, append-nil}
use test_ai_agent.Prelude.{
  ◌≤◌, ◌<◌, List, [], ◌∷◌, ◌++◌, map, true, false, ◌≡◌, refl, arith, ◌∙◌, ap, sym, subst, length,
  take, take-all, leb, All,
}
use test_ai_agent.Json.{JsonLib, JsonLaws, newline}
use test_ai_agent.Ipc.Protocol.Message
use test_ai_agent.Ipc.Protocol.Message.{JsonMessage}
use test_ai_agent.Ipc.Framing.Scan.{Bytes, OneLine}
use test_ai_agent.Ipc.Framing.Parser.{serialize, default_max_message_size}
use test_ai_agent.Ipc.Framing.Lines.{try_parse_partial}
use test_ai_agent.Ipc.Buffer.View.{Holds}
use test_ai_agent.Ipc.Buffer.Ops.{IoBuffer, available_for_write}
use test_ai_agent.Ipc.Session.Defs.{
  Session, Errno, again, active, reading, Handlers, max_buffer_size,
}
use test_ai_agent.Ipc.Session.Read.{
  Arrival, arrived, failing, positive, error, make_room, receive, read_into, read_from_socket,
  try_parse_messages, stop_reading, read_loop, accepts_reads, on_readable,
}
use test_ai_agent.Ipc.Session.Deliver.{
  with_buffer, LeavesInput, dispatch_all, stream, Deliverable, dispatch_all-with_buffer,
  try_parse_messages-stream,
}
use test_ai_agent.Ipc.Session.Room.{Ready, make_room-Ready, receive-Ready}
use test_ai_agent.Ipc.Session.Loop.{try_parse_messages_ends}
use test_ai_agent.Ipc.Session.Cuts.{Waits, split, two_lines}

abbrev pub joined : List Bytes → Bytes
joined [] = []
joined (chunk ∷ more) = chunk ++ joined more

-- The session after the reads: active, with a read buffer.
abbrev pub settled : {W : Type 0} → IoBuffer → Session × W → Session × W
settled b sw = (record (sw.0) { read_buffer = b; state = active }, sw.1)

module _ {Json W : Type 0} (J : JsonLib Json) (H : Handlers Json W) (errno : Errno) where
  -- Each read gives a byte or more and no more than it is asked for, and the buffer does not grow to
  -- its limit.
  abbrev pub AllFit : List Bytes → Session × W → Type 0
  AllFit [] sw = length sw.0.read_buffer.bytes < max_buffer_size
  AllFit (chunk ∷ more) sw =
      (length sw.0.read_buffer.bytes < max_buffer_size)
      × ((0 < length chunk) × (length chunk ≤ available_for_write (make_room sw.0.read_buffer)))
      × AllFit more (try_parse_messages J H ((read_from_socket (arrived chunk) errno sw.0).0, sw.1))

-- One read of a piece that fits.
pub read_chunk :
    (chunk : Bytes) (errno : Errno) (s : Session) (q : Bytes)
    → Ready s.read_buffer q
    → length s.read_buffer.bytes < max_buffer_size
    → 0 < length chunk
    → length chunk ≤ available_for_write (make_room s.read_buffer)
    → Ready (receive chunk (make_room s.read_buffer)).0 (q ++ chunk)
      × (read_from_socket (arrived chunk) errno s
          ≡ (record s { read_buffer = (receive chunk (make_room s.read_buffer)).0 }, positive))
unfolding read_from_socket read_into receive
read_chunk [] errno s q r below some_bytes fits = absurd (omega arith)
read_chunk (c ∷ cs) errno s q r below some_bytes fits =
    let room = make_room s.read_buffer in
    let whole : take (available_for_write room) (c ∷ cs) ≡ c ∷ cs = take-all _ (c ∷ cs) fits in
    let ready = receive-Ready (c ∷ cs) room q (make_room-Ready s.read_buffer q r below).0 in
    let not_full : leb max_buffer_size (length s.read_buffer.bytes) ≡ false =
      ground (arith, below) in
    (
      subst (λ z. Ready (receive (c ∷ cs) room).0 (q ++ z)) whole ready,
      rw (not_full, read_into, receive, whole) refl,
    )

-- The read that would block.
read_nothing :
    (errno : Errno) (s : Session) (q : Bytes)
    → Ready s.read_buffer q
    → length s.read_buffer.bytes < max_buffer_size
    → (b : IoBuffer) × Ready b q
      × (read_from_socket (failing again) errno s ≡ (record s { read_buffer = b }, error again))
unfolding read_from_socket read_into
read_nothing errno s q r below =
    let not_full : leb max_buffer_size (length s.read_buffer.bytes) ≡ false =
      ground (arith, below) in
    (make_room s.read_buffer, (make_room-Ready s.read_buffer q r below).0, rw not_full refl)

module _ {Json W : Type 0} (J : JsonLib Json) (H : Handlers Json W) (leaves : LeavesInput J H)
    (L : JsonLaws J) (errno : Errno) where
  dispatch_all-append :
      (ms more : List (JsonMessage Json)) (sw : Session × W)
      → dispatch_all J H (ms ++ more) sw ≡ dispatch_all J H more (dispatch_all J H ms sw)
  dispatch_all-append [] more sw = refl
  dispatch_all-append (m ∷ ms) more sw = dispatch_all-append ms more _

  -- A waiting line holds no whole message.
  none_whole :
      (q partial : Bytes) (ms : List (JsonMessage Json))
      → Waits q
      → q ≡ stream J ms ++ partial
      → ms ≡ []
  unfolding serialize
  none_whole q partial [] w e = refl
  none_whole q partial (m ∷ ms) w e =
      let text = J.dump (Message.to_json J m) in
      absurd (
        two_lines text (stream J ms ++ partial) (
          subst OneLine
            (e
              ∙ append_assoc (text ++ newline ∷ []) (stream J ms) partial
              ∙ append_assoc text (newline ∷ []) (stream J ms ++ partial))
            w.one_line))

  -- The messages that a read completes.
  pub parsed :
      (ms : List (JsonMessage Json)) (b : IoBuffer) (p q : Bytes) (sw : Session × W)
      → All (Deliverable J) ms
      → Waits p
      → Ready b q
      → q ≡ stream J ms ++ p
      → (b' : IoBuffer) × Ready b' p
        × (try_parse_messages J H (with_buffer b sw) ≡ with_buffer b' (dispatch_all J H ms sw))
  parsed ms b p q sw fine w r e =
      let waiting = try_parse_partial J default_max_message_size p w.one_line w.short in
      let holds = subst (λ z. Holds b z) e r.holds in
      let (b', h, at) =
        try_parse_messages-stream J H leaves L p ms (with_buffer b sw) waiting fine holds in
      let (_, (rest, after)) = try_parse_messages_ends J H leaves (with_buffer b sw) q r in
      let after' = subst (λ (x : Session × W). Ready x.0.read_buffer rest) at after in
      (
        b',
        record { holds = h; sized = after'.sized; limit = after'.limit },
        at ∙ ap (with_buffer b') (dispatch_all-with_buffer J H leaves ms b sw),
      )

  read_loop_step :
      (a : Arrival) (more : List Arrival) (s s' : Session) (w : W) (next : Session × W)
      → read_from_socket a errno s ≡ (s', positive)
      → try_parse_messages J H (s', w) ≡ next
      → read_loop J H (a ∷ more) errno (s, w) ≡ read_loop J H more errno next
  unfolding read_loop
  read_loop_step a more s s' w next at took =
      rw (read_loop, at)
        (ap (λ (x : Session). read_loop J H more errno (try_parse_messages J H (x, w)))
            (ap (λ p. p.0) at)
          ∙ ap (read_loop J H more errno) took)

  read_loop_end :
      (s s' : Session) (w : W)
      → read_from_socket (failing again) errno s ≡ (s', error again)
      → read_loop J H [] errno (s, w) ≡ ((record s' { state = active }, w), true)
  unfolding read_loop stop_reading
  read_loop_end s s' w at = rw at refl

  -- What one read and the later ones dispatch is what they dispatch together.
  dispatched :
      (before after ms : List (JsonMessage Json)) (b b' : IoBuffer) (sw : Session × W)
      → ms ≡ before ++ after
      → settled b (dispatch_all J H after (with_buffer b' (dispatch_all J H before sw)))
        ≡ settled b (dispatch_all J H ms sw)
  dispatched before after ms b b' sw parts =
      ap (settled b) (dispatch_all-with_buffer J H leaves after b' (dispatch_all J H before sw))
      ∙ ap (settled b) (
          sym (dispatch_all-append before after sw)
          ∙ ap (λ (l : List (JsonMessage Json)). dispatch_all J H l sw) (sym parts))

  read_loop-chunks :
      (chunks : List Bytes) (s : Session) (w : W) (q partial : Bytes) (ms : List (JsonMessage Json))
      → Ready s.read_buffer q
      → Waits q
      → Waits partial
      → All (Deliverable J) ms
      → q ++ joined chunks ≡ stream J ms ++ partial
      → AllFit J H errno chunks (s, w)
      → (b : IoBuffer) × Ready b partial
        × (read_loop J H (map arrived chunks) errno (s, w)
            ≡ (settled b (dispatch_all J H ms (s, w)), true))
  read_loop-chunks [] s w q partial ms r wq wp fine e below =
      let whole = sym (append-nil q) ∙ e in
      let empty = none_whole q partial ms wq whole in
      let same : q ≡ partial = whole ∙ ap (λ more. stream J more ++ partial) empty in
      let (b, r', at) = read_nothing errno s q r below in
      (
        b,
        subst (Ready b) same r',
        read_loop_end s _ w at
            ∙ ap (λ l. (settled b (dispatch_all J H l (s, w)), true)) (sym empty),
      )
  read_loop-chunks (chunk ∷ more) s w q partial ms r wq wp fine e
        (below, (some_bytes, fits), rest) =
      let b = (receive chunk (make_room s.read_buffer)).0 in
      let (r', at) = read_chunk chunk errno s q r below some_bytes fits in
      let parts =
        split J L partial (q ++ chunk) (joined more) ms wp fine
          (append_assoc q chunk (joined more) ∙ e) in
      let (b', r2, took) =
        parsed parts.before b parts.open_line (q ++ chunk) (s, w) parts.deliverable.0 parts.waits r'
          parts.front_parts in
      let next = with_buffer b' (dispatch_all J H parts.before (s, w)) in
      let moved : try_parse_messages J H ((read_from_socket (arrived chunk) errno s).0, w) ≡ next =
        ap (λ (x : Session). try_parse_messages J H (x, w)) (ap (λ p. p.0) at) ∙ took in
      let (b2, r3, ends) =
        read_loop-chunks more next.0 next.1 parts.open_line partial parts.after r2 parts.waits wp
          parts.deliverable.1 parts.back_parts (subst (AllFit J H errno more) moved rest) in
      (
        b2,
        r3,
        read_loop_step (arrived chunk) (map arrived more) s _ w next at took
            ∙ ends
            ∙ ap (λ x. (x, true)) (dispatched parts.before parts.after ms b2 b' (s, w) parts.parts),
      )

  -- If a session accepts reads, its read buffer is well formed and holds the beginning of a line,
  -- and the socket gives, in pieces of any length, bytes that make of it serialised messages that
  -- fit in the limit and that the JSON library parses back, followed by the beginning of a line,
  -- then `on_readable` dispatches each message once and in order, wherever the pieces are cut,
  -- keeps just the beginning of the last line, and leaves the session active. The handlers leave
  -- the read buffer alone, a beginning of a line has no line feed and is shorter than the limit,
  -- and each piece is not empty, is no longer than what the read asks for, and finds a buffer
  -- below its limit.
  pub on_readable-chunks :
      (chunks : List Bytes) (s : Session) (w : W) (q partial : Bytes) (ms : List (JsonMessage Json))
      → accepts_reads s.state ≡ true
      → Ready s.read_buffer q
      → Waits q
      → Waits partial
      → All (Deliverable J) ms
      → q ++ joined chunks ≡ stream J ms ++ partial
      → AllFit J H errno chunks (record s { state = reading }, w)
      → (b : IoBuffer) × Ready b partial
        × (on_readable J H (map arrived chunks) errno (s, w)
            ≡ (settled b (dispatch_all J H ms (record s { state = reading }, w)), true))
  unfolding on_readable
  on_readable-chunks chunks s w q partial ms open_ r wq wp fine e fits =
      rw open_
        (read_loop-chunks chunks (record s { state = reading }) w q partial ms r wq wp fine e fits)
