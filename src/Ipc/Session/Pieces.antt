-- ===== src/Ipc/Session/Pieces.antt =====
-- `on_readable` of src/ipc/session_manager.cpp on a stream of messages that arrives in pieces of at most
-- 1024 bytes: the read buffer has room for each, and stays below its limit.
use mathlib.Core.List.{append_assoc}
use test_ai_agent.Prelude.{
  ℕ, ◌≤◌, ◌<◌, List, [], ◌∷◌, ◌++◌, map, true, ◌≡◌, arith, ◌∙◌, ap, sym, subst, length,
  length-append, All,
}
use test_ai_agent.Json.{JsonLib, JsonLaws, newline}
use test_ai_agent.Ipc.Protocol.Message
use test_ai_agent.Ipc.Protocol.Message.{JsonMessage}
use test_ai_agent.Ipc.Framing.Scan.{Bytes, OneLine}
use test_ai_agent.Ipc.Framing.Parser.{serialize}
use test_ai_agent.Ipc.Buffer.Ops.{IoBuffer}
use test_ai_agent.Ipc.Session.Defs.{reading, Session, Errno, Handlers, max_buffer_size}
use test_ai_agent.Ipc.Session.Read.{
  accepts_reads, on_readable, arrived, make_room, receive, read_from_socket, try_parse_messages,
}
use test_ai_agent.Ipc.Session.Deliver.{with_buffer, LeavesInput, dispatch_all, stream, Deliverable}
use test_ai_agent.Ipc.Session.Room.{Ready}
use test_ai_agent.Ipc.Session.Cuts.{Waits, split}
use test_ai_agent.Ipc.Session.Chunks.{
  joined, settled, AllFit, read_chunk, parsed, on_readable-chunks,
}
use test_ai_agent.Ipc.Session.Growth.{most, read_chunk-HasRoom, try_parse_messages_keeps}

line_short :
    (p back text rest : Bytes)
    → OneLine p
    → p ++ back ≡ text ++ newline ∷ rest
    → length p ≤ length text
line_short [] back text rest h e = omega arith
line_short (x ∷ p) back [] rest h e = absurd (h.0 (cc e))
line_short (x ∷ p) back (y ∷ text) rest h e = omega (arith, line_short p back text rest h.1 (cc e))

All-after :
    {A : Type 0} (P : A → Type 0) (before after : List A) → All P (before ++ after) → All P after
All-after P [] after h = h
All-after P (x ∷ before) after h = All-after P before after h.1

abbrev pub IsPiece : Bytes → Type 0
IsPiece chunk = (0 < length chunk) × (length chunk ≤ 1024)

module _ {Json W : Type 0} (J : JsonLib Json) (H : Handlers Json W) (leaves : LeavesInput J H)
    (L : JsonLaws J) (errno : Errno) (limit : ℕ) (partial : Bytes) (waits : Waits partial)
    (small : most limit < max_buffer_size) (partial_short : length partial ≤ limit) where
  abbrev pub IsShort : JsonMessage Json → Type 0
  IsShort m = length (serialize J m) ≤ limit

  -- The beginning of a line is no longer than the line.
  open_short :
      (p back : Bytes) (ms : List (JsonMessage Json))
      → OneLine p
      → All IsShort ms
      → p ++ back ≡ stream J ms ++ partial
      → length p ≤ limit
  unfolding serialize
  open_short p back [] h short e = omega (arith, length-append p back, ap length e, partial_short)
  open_short p back (m ∷ ms) h short e =
      let text = J.dump (Message.to_json J m) in
      let shorter = line_short p back text (stream J ms ++ partial) h (
        e
        ∙ append_assoc (text ++ newline ∷ []) (stream J ms) partial
        ∙ append_assoc text (newline ∷ []) (stream J ms ++ partial)) in
      omega (arith, shorter, short.0, length-append text (newline ∷ []))

  pieces-AllFit :
      (chunks : List Bytes) (s : Session) (w : W) (q : Bytes) (ms : List (JsonMessage Json))
      → Ready s.read_buffer q
      → s.read_buffer.read_pos ≡ 0
      → length q ≤ limit
      → 1024 ≤ length s.read_buffer.bytes
      → length s.read_buffer.bytes ≤ most limit
      → All (Deliverable J) ms
      → All IsShort ms
      → All IsPiece chunks
      → q ++ joined chunks ≡ stream J ms ++ partial
      → AllFit J H errno chunks (s, w)
  pieces-AllFit [] s w q ms r front q_short some_size below fine short pieces e =
      omega (arith, below, small)
  pieces-AllFit (chunk ∷ more) s w q ms r front q_short some_size below fine short
        ((some_bytes, few), pieces) e =
      let b = (receive chunk (make_room s.read_buffer)).0 in
      let not_full : length s.read_buffer.bytes < max_buffer_size = omega (arith, below, small) in
      let (fits, front1, size1, below1) =
        read_chunk-HasRoom limit chunk s q r front q_short some_size below small few in
      let (r1, at) = read_chunk chunk errno s q r not_full some_bytes fits in
      let parts =
        split J L partial (q ++ chunk) (joined more) ms waits fine
          (append_assoc q chunk (joined more) ∙ e) in
      let (b2, r2, took) =
        parsed J H leaves L errno parts.before b parts.open_line (q ++ chunk) (s, w)
          parts.deliverable.0 parts.waits r1 parts.front_parts in
      let (front2, size2) =
        try_parse_messages_keeps J H leaves (with_buffer b (s, w)) (q ++ chunk) r1 front1 in
      let next = with_buffer b2 (dispatch_all J H parts.before (s, w)) in
      let front3 : b2.read_pos ≡ 0 =
        sym (ap (λ (x : Session × W). x.0.read_buffer.read_pos) took) ∙ front2 in
      let size3 : length b2.bytes ≡ length b.bytes =
        sym (ap (λ (x : Session × W). length x.0.read_buffer.bytes) took) ∙ size2 in
      let later =
        All-after IsShort parts.before parts.after (subst (All IsShort) parts.parts short) in
      let open_is_short =
        open_short parts.open_line (joined more) parts.after parts.waits.one_line later
          parts.back_parts in
      let rest =
        pieces-AllFit more next.0 next.1 parts.open_line parts.after r2 front3 open_is_short
          (omega (arith, size3, size1)) (omega (arith, size3, below1)) parts.deliverable.1 later
          pieces parts.back_parts in
      let moved : try_parse_messages J H ((read_from_socket (arrived chunk) errno s).0, w) ≡ next =
        ap (λ (x : Session). try_parse_messages J H (x, w)) (ap (λ p. p.0) at) ∙ took in
      (not_full, (some_bytes, fits), subst (AllFit J H errno more) (sym moved) rest)

  -- If a session accepts reads, its read buffer is well formed with the beginning of a line at its
  -- front, and the socket gives, in pieces of 1 to 1024 bytes, bytes that make of it serialised
  -- messages that the JSON library parses back, followed by the beginning of a line, then
  -- `on_readable` dispatches each message once and in order, wherever the pieces are cut, keeps
  -- just the beginning of the last line, and leaves the session active. No message and no
  -- beginning of a line is longer than a limit, twice of which and of 1024 stays below the limit
  -- of the buffer, the size of the buffer lies between 1024 and this sum, and the handlers leave
  -- the read buffer alone.
  pub on_readable-pieces :
      (chunks : List Bytes) (s : Session) (w : W) (q : Bytes) (ms : List (JsonMessage Json))
      → accepts_reads s.state ≡ true
      → Ready s.read_buffer q
      → s.read_buffer.read_pos ≡ 0
      → Waits q
      → length q ≤ limit
      → 1024 ≤ length s.read_buffer.bytes
      → length s.read_buffer.bytes ≤ most limit
      → All (Deliverable J) ms
      → All IsShort ms
      → All IsPiece chunks
      → q ++ joined chunks ≡ stream J ms ++ partial
      → (b : IoBuffer) × Ready b partial
        × (on_readable J H (map arrived chunks) errno (s, w)
            ≡ (settled b (dispatch_all J H ms (record s { state = reading }, w)), true))
  on_readable-pieces chunks s w q ms open_ r front wq q_short some_size below fine short pieces e =
      on_readable-chunks J H leaves L errno chunks s w q partial ms open_ r wq waits fine e (
        pieces-AllFit chunks (record s { state = reading }) w q ms r front q_short some_size below
          fine short pieces e)
