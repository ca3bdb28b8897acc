-- ===== src/Ipc/Session/Deliver.antt =====
-- `try_parse_messages` of src/ipc/session_manager.cpp on a stream of messages.
use mathlib.Core.List.{append_assoc}
use test_ai_agent.Prelude.{
  ℕ, zero, suc, ◌≤◌, ◌<◌, List, [], ◌∷◌, ◌++◌, Option, none, some, ◌≡◌, refl, arith, ◌∙◌, ap,
  length, All, drop-append, length-append, Bool-cases, inl, inr,
}
use test_ai_agent.Json.{JsonLib, JsonLaws, newline}
use test_ai_agent.Ipc.Protocol.Request.{RequestMessage}
use test_ai_agent.Ipc.Protocol.Message
use test_ai_agent.Ipc.Protocol.Message.{JsonMessage, IsMessage, Fits, is_request}
use test_ai_agent.Ipc.Framing.Scan.{Bytes}
use test_ai_agent.Ipc.Framing.Parser.{try_parse, serialize, default_max_message_size}
use test_ai_agent.Ipc.Framing.Lines.{try_parse-serialize}
use test_ai_agent.Ipc.Buffer.Ops.{IoBuffer, compact, advance_read, get_read_view}
use test_ai_agent.Ipc.Buffer.View.{Holds, compact-Holds, advance_read-Holds, length-view}
use test_ai_agent.Ipc.Session.Defs.{Session, Handlers, handle_message, dispatch}
use test_ai_agent.Ipc.Session.Read.{consume, parse_loop, try_parse_messages}

module _ {W : Type 0} where
  abbrev pub with_buffer : IoBuffer → Session × W → Session × W
  with_buffer b sw = (record (sw.0) { read_buffer = b }, sw.1)

module _ {Json W : Type 0} (J : JsonLib Json) (H : Handlers Json W) where
  -- The handlers neither read nor change the read buffer of the session that calls them.
  pub record LeavesInput : Type 0 where
    pub commutes :
        (m : RequestMessage Json) (b : IoBuffer) (sw : Session × W)
        → handle_message J H m (with_buffer b sw) ≡ with_buffer b (handle_message J H m sw)

  abbrev pub dispatch_all : List (JsonMessage Json) → Session × W → Session × W
  dispatch_all [] sw = sw
  dispatch_all (m ∷ ms) sw = dispatch_all ms (dispatch J H m sw)

module _ {Json : Type 0} (J : JsonLib Json) where
  -- The messages one after the other, as `serialize` writes them.
  abbrev pub stream : List (JsonMessage Json) → Bytes
  stream [] = []
  stream (m ∷ ms) = serialize J m ++ stream ms

  -- A message that the parser can give back.
  pub record Deliverable (m : JsonMessage Json) : Type 0 where
    pub message : IsMessage m
    pub numbers : Fits m
    pub parsed : J.parse (J.dump (Message.to_json J m)) ≡ some (Message.to_json J m)
    pub size : length (serialize J m) ≤ default_max_message_size

  -- Every message has a byte, its line feed.
  length-stream : (ms : List (JsonMessage Json)) → length ms ≤ length (stream ms)
  unfolding serialize
  length-stream [] = omega arith
  length-stream (m ∷ ms) = omega (
    arith,
    length-stream ms,
    length-append (serialize J m) (stream ms),
    length-append (J.dump (Message.to_json J m)) (newline ∷ []),
  )

module _ {Json W : Type 0} (J : JsonLib Json) (H : Handlers Json W) (leaves : LeavesInput J H) where
  dispatch-with_buffer :
      (m : JsonMessage Json) (b : IoBuffer) (sw : Session × W)
      → dispatch J H m (with_buffer b sw) ≡ with_buffer b (dispatch J H m sw)
  unfolding dispatch
  dispatch-with_buffer m b sw = elim (Bool-cases (is_request m)) [
    | inl request ↦ rw (request, dispatch) (leaves.commutes _ b sw)
    | inr response ↦ rw (response, dispatch)
  ]

  pub dispatch_all-with_buffer :
      (ms : List (JsonMessage Json)) (b : IoBuffer) (sw : Session × W)
      → dispatch_all J H ms (with_buffer b sw) ≡ with_buffer b (dispatch_all J H ms sw)
  dispatch_all-with_buffer [] b sw = refl
  dispatch_all-with_buffer (m ∷ ms) b sw =
      ap (dispatch_all J H ms) (dispatch-with_buffer m b sw)
      ∙ dispatch_all-with_buffer ms b (dispatch J H m sw)

  pub read_buffer-dispatch :
      (m : JsonMessage Json) (sw : Session × W)
      → (dispatch J H m sw).0.read_buffer ≡ sw.0.read_buffer
  read_buffer-dispatch m sw =
      ap (λ (x : Session × W). x.0.read_buffer) (dispatch-with_buffer m sw.0.read_buffer sw)

  pub consume-dispatch :
      (k : ℕ) (m : JsonMessage Json) (sw : Session × W)
      → consume J H k (dispatch J H m sw)
        ≡ with_buffer (compact (advance_read k sw.0.read_buffer)) (dispatch J H m sw)
  unfolding consume
  consume-dispatch k m sw =
      ap (λ b. with_buffer (compact (advance_read k b)) (dispatch J H m sw))
        (read_buffer-dispatch m sw)

  module _ (L : JsonLaws J) (partial : Bytes) where
    -- One round of the loop.
    parse_loop_step :
        (fuel : ℕ) (m : JsonMessage Json) (rest : Bytes) (sw : Session × W)
        → Deliverable J m
        → Holds sw.0.read_buffer (serialize J m ++ rest)
        → (b : IoBuffer) × Holds b rest
          × (parse_loop J H (suc fuel) sw ≡ parse_loop J H fuel (with_buffer b (dispatch J H m sw)))
    unfolding parse_loop
    parse_loop_step fuel m rest sw d h =
        let text = serialize J m in
        let buffer = sw.0.read_buffer in
        let found : try_parse J default_max_message_size (get_read_view buffer)
            ≡ (some m, length text) =
          ap (try_parse J default_max_message_size) h.view
          ∙ try_parse-serialize J L _ m rest d.message d.numbers d.parsed d.size in
        let room : length text ≤ length (text ++ rest) = omega (arith, length-append text rest) in
        let left = advance_read-Holds (length text) buffer (text ++ rest) h room in
        let dropped : Holds (advance_read (length text) buffer) rest = record {
          valid = left.valid;
          view = left.view ∙ drop-append text rest;
        } in
        (
          compact (advance_read (length text) buffer),
          compact-Holds _ rest dropped,
          rw (found, parse_loop)
              (ap
                  (λ (p : Option (JsonMessage Json) × ℕ).
                    parse_loop J H fuel (consume J H p.1 (dispatch J H m sw)))
                  found
                ∙ ap (parse_loop J H fuel) (consume-dispatch (length text) m sw)),
        )

    -- With a round for each message the loop dispatches them all and stops at what is left.
    parse_loop-stream :
        try_parse J default_max_message_size partial ≡ (none, 0)
        → (fuel : ℕ) (ms : List (JsonMessage Json)) (sw : Session × W) → All (Deliverable J) ms
        → length ms < fuel
        → Holds sw.0.read_buffer (stream J ms ++ partial)
        → (b : IoBuffer) × Holds b partial
          × (parse_loop J H fuel sw ≡ with_buffer b (dispatch_all J H ms sw))
    unfolding parse_loop
    parse_loop-stream waits zero ms sw d lt h = absurd (omega arith)
    parse_loop-stream waits (suc fuel) [] sw d lt h = (
      sw.0.read_buffer,
      h,
      rw (ap (try_parse J default_max_message_size) h.view ∙ waits, parse_loop),
    )
    parse_loop-stream waits (suc fuel) (m ∷ ms) sw d lt h =
        let regrouped : Holds sw.0.read_buffer (serialize J m ++ (stream J ms ++ partial)) =
          record {
            valid = h.valid;
            view = h.view ∙ append_assoc (serialize J m) (stream J ms) partial;
          } in
        let (b, hb, e) = parse_loop_step fuel m (stream J ms ++ partial) sw d.0 regrouped in
        let next = with_buffer b (dispatch J H m sw) in
        let (c, hc, f) = parse_loop-stream waits fuel ms next d.1 (omega arith) hb in
        (c, hc, e ∙ f ∙ ap (with_buffer c) (dispatch_all-with_buffer ms b (dispatch J H m sw)))

    -- If the read buffer holds serialised messages that fit in the limit and that the JSON library
    -- parses back, followed by bytes in which the parser finds nothing and consumes nothing, and
    -- the handlers leave the read buffer alone, then `try_parse_messages` dispatches each message
    -- once and in order and leaves just those bytes.
    pub try_parse_messages-stream :
        (ms : List (JsonMessage Json)) (sw : Session × W)
        → try_parse J default_max_message_size partial ≡ (none, 0)
        → All (Deliverable J) ms
        → Holds sw.0.read_buffer (stream J ms ++ partial)
        → (b : IoBuffer) × Holds b partial
          × (try_parse_messages J H sw ≡ with_buffer b (dispatch_all J H ms sw))
    unfolding try_parse_messages
    try_parse_messages-stream ms sw waits d h =
        parse_loop-stream waits _ ms sw d
          (omega (
            arith,
            length-stream J ms,
            length-append (stream J ms) partial,
            length-view sw.0.read_buffer h.valid,
            ap length h.view,
          ))
          h
