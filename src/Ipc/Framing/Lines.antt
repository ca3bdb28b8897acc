-- ===== src/Ipc/Framing/Lines.antt =====
-- What the parser makes of one line, whatever comes after it, and of a message that it serialised.
use test_ai_agent.Prelude.{
  ℕ, suc, ◌+◌, ◌-◌, ◌≤◌, ◌<◌, [], ◌∷◌, ◌++◌, Option, none, some, leb, if◌then◌else◌, true, length,
  take, arith, ◌≡◌, refl, ap, take-append, take-all, length-append, ◌∙◌,
}
use mathlib.Core.List.{append_assoc}
use test_ai_agent.Json.{JsonLib, JsonLaws, newline}
use test_ai_agent.Ipc.Protocol.Message
use test_ai_agent.Ipc.Protocol.Message.{JsonMessage, IsMessage, Fits}
use test_ai_agent.Ipc.Protocol.RoundTrip.{from_json-to_json, to_json_is_object}
use test_ai_agent.Ipc.Framing.Errors.{make_parse_error}
use test_ai_agent.Ipc.Framing.Scan.{
  Bytes, OneLine, find-line, find-OneLine, find_first_not_of, find_last_not_of-append,
}
use test_ai_agent.Ipc.Framing.Parser.{substr, parse_json, parse_line, try_parse, serialize}

module _ {Json : Type 0} (J : JsonLib Json) where
  open J use {is_object, parse, dump}

  -- The meaning of one line: too long, or parsed after trimming.
  abbrev pub read_line : ℕ → Bytes → Option (JsonMessage Json)
  read_line max line = if leb max (length line) then some make_parse_error else parse_line J line

  -- A line with no line feed in it, followed by one, is read alone: what comes after does not
  -- matter, and exactly the line and its line feed are consumed.
  pub try_parse-line :
      (max : ℕ) (line rest : Bytes)
      → OneLine line
      → try_parse J max (line ++ newline ∷ rest) ≡ (read_line max line, length line + 1)
  unfolding try_parse
  try_parse-line max [] rest h = rw (find-line [] rest h, try_parse) (ground arith)
  try_parse-line max (c ∷ line) rest h =
      let found = find-line (c ∷ line) rest h in
      let cut = take-append (c ∷ line) (newline ∷ rest) in
      rw (found, try_parse) (ground (arith, cut))

  -- Bytes with no line feed wait for more, up to the limit on the size of a message.
  pub try_parse_partial :
      (max : ℕ) (bytes : Bytes)
      → OneLine bytes
      → length bytes < max
      → try_parse J max bytes ≡ (none, 0)
  unfolding try_parse
  try_parse_partial max [] h lt = refl
  try_parse_partial max (c ∷ rest) h lt = rw (find-OneLine (c ∷ rest) h, try_parse) (ground arith)

  -- Past the limit they are dropped with a parse error.
  pub try_parse_overlong :
      (max : ℕ) (c : ℕ) (rest : Bytes)
      → OneLine (c ∷ rest)
      → max ≤ length (c ∷ rest)
      → try_parse J max (c ∷ rest) ≡ (some make_parse_error, length (c ∷ rest))
  unfolding try_parse
  try_parse_overlong max c rest h le = rw (find-OneLine (c ∷ rest) h, try_parse) (ground arith)

  -- Nothing is trimmed from a text in braces.
  parse_line_braces :
      (inner : Bytes)
      → parse_line J (b'{' ∷ (inner ++ b'}' ∷ [])) ≡ parse_json J (b'{' ∷ (inner ++ b'}' ∷ []))
  unfolding parse_line find_first_not_of substr
  parse_line_braces inner =
      let line = b'{' ∷ (inner ++ b'}' ∷ []) in
      let last = find_last_not_of-append (b'{' ∷ inner) b'}' refl in
      let whole : take (suc (length inner) - 0 + 1) line ≡ line =
        take-all _ line (omega (arith, length-append inner (b'}' ∷ []))) in
      rw last (ap (parse_json J) whole)

  module _ (L : JsonLaws J) where
    parse_line-dump :
        (j : Json) → is_object j ≡ true → parse_line J (dump j) ≡ parse_json J (dump j)
    parse_line-dump j h = let (inner, e) = L.dump_object j h in rw e (parse_line_braces inner)

    parse_line-written :
        (m : JsonMessage Json)
        → IsMessage m
        → Fits m
        → parse (dump (Message.to_json J m)) ≡ some (Message.to_json J m)
        → parse_line J (dump (Message.to_json J m)) ≡ some m
    unfolding parse_json
    parse_line-written m v f p =
        parse_line-dump (Message.to_json J m) (to_json_is_object J L m v)
        ∙ rw (p, parse_json) (rw (from_json-to_json J L m v f))

    -- A message that is a request or a response, whose numbers fit their types, whose printed text
    -- the JSON library parses back and whose size is allowed, is parsed from its serialised bytes
    -- whatever follows them, and just these bytes are consumed.
    pub try_parse-serialize :
        (max : ℕ) (m : JsonMessage Json) (rest : Bytes)
        → IsMessage m
        → Fits m
        → parse (dump (Message.to_json J m)) ≡ some (Message.to_json J m)
        → length (serialize J m) ≤ max
        → try_parse J max (serialize J m ++ rest) ≡ (some m, length (serialize J m))
    unfolding serialize
    try_parse-serialize max m rest v f p fits =
        let text = dump (Message.to_json J m) in
        let size = length-append text (newline ∷ []) in
        ap (try_parse J max) (append_assoc text (newline ∷ []) rest)
        ∙ try_parse-line max text rest (L.dump_one_line (Message.to_json J m))
        ∙ ground (arith, size, parse_line-written m v f p)
