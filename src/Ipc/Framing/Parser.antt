-- ===== src/Ipc/Framing/Parser.antt =====
-- `try_parse` and `serialize`.
use test_ai_agent.Prelude.{
  ℕ, ◌+◌, ◌-◌, ◌*◌, ◌^◌, ◌≢◌, ◌≤◌, ◌<◌, [], ◌∷◌, ◌++◌, Option, none, some, leb, if◌then◌else◌,
  value_or, length, take, drop, arith, inl, inr, Option-cases,
}
use test_ai_agent.Prelude.Outcome.{catch}
use test_ai_agent.Json.{JsonLib, newline}
use test_ai_agent.Ipc.Protocol.Message
use test_ai_agent.Ipc.Protocol.Message.{JsonMessage}
use test_ai_agent.Ipc.Framing.Errors.{make_parse_error}
use test_ai_agent.Ipc.Framing.Scan.{Bytes, find, find-lt, find_first_not_of, find_last_not_of}

abbrev pub default_max_message_size : ℕ
default_max_message_size = 1024 * 1024

abbrev npos : ℕ
npos = 2 ^ 64 - 1

-- `line.substr(start, end - start + 1)`
unfoldable pub substr : ℕ → ℕ → Bytes → Bytes
substr first last line = take (last - first + 1) (drop first line)

module _ {Json : Type 0} (J : JsonLib Json) where
  open J use {parse, dump}

  -- The `try` block: any exception becomes the message of a parse error.
  unfoldable pub parse_json : Bytes → Option (JsonMessage Json)
  parse_json line = elim (parse line) [
    | none ↦ some make_parse_error
    | some json ↦ catch (Message.from_json J json) (λ _. some make_parse_error)
  ]

  -- What is left of a line after its blanks are trimmed is parsed; a blank line is skipped.
  unfoldable pub parse_line : Bytes → Option (JsonMessage Json)
  parse_line line = elim (find_first_not_of line) [
    | none ↦ none
    | some first ↦ parse_json (substr first (value_or (find_last_not_of line) npos) line)
  ]

  -- The message, if there is one, and the count of the bytes that were consumed.
  unfoldable pub try_parse : ℕ → Bytes → Option (JsonMessage Json) × ℕ
  try_parse max_message_size [] = (none, 0)
  try_parse max_message_size (c ∷ rest) =
      let bytes = c ∷ rest in
      elim (find newline bytes) [
        | none ↦
            if leb max_message_size (length bytes)
            then (some make_parse_error, length bytes)
            else (none, 0)
        | some newline_pos ↦
            if leb max_message_size newline_pos
            then (some make_parse_error, newline_pos + 1)
            else (parse_line (take newline_pos bytes), newline_pos + 1)
      ]

  unfoldable pub serialize : JsonMessage Json → Bytes
  serialize msg = dump (Message.to_json J msg) ++ newline ∷ []

  -- Never more is consumed than there is, and a message consumes at least one byte.
  pub try_parse_bounds :
      (max : ℕ) (bytes : Bytes)
      → ((try_parse max bytes).1 ≤ length bytes)
        × ((try_parse max bytes).0 ≢ none → 0 < (try_parse max bytes).1)
  unfolding try_parse
  try_parse_bounds max [] = ground arith
  try_parse_bounds max (c ∷ rest) = elim (Option-cases (find newline (c ∷ rest))) [
    | inl absent ↦ rw (absent, try_parse) (ground arith)
    | inr (i, found) ↦ rw (found, try_parse) (ground (arith, find-lt newline (c ∷ rest) i found))
  ]
