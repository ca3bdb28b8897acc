-- ===== src/Cli/Settings.antt =====
-- `parseTaskArgs` of src/cli/main.cpp on a list of settings.
use Prim.Native.Char.{Char, code}
use Prim.Native.String.{[] as empty, ◌∷◌ as put_char, ◌++◌ as append}
use test_ai_agent.Prelude.{
  ℕ, ◌<◌, ◌^◌, String, false, List, [], ◌∷◌, ◌++◌, none, some, ◌==◌, ◌≡◌, refl, arith, ap, sym, ◌∙◌,
  str_eq, eq_iff, All, Bool-cases, inl, inr,
}
use text.Mathlib.TextLemmas.{nil-append, cons-append}
use mathlib.Core.List.{append-nil}
use test_ai_agent.Prelude.Decimal.{to_string}
use test_ai_agent.Prelude.Int.{pos}
use test_ai_agent.Prelude.Exec.{returns, crashes}
use test_ai_agent.Json.{JsonLib}
use test_ai_agent.Cli.Numbers.{NoDigit, NoNumber, stoi-to_string, stoi-number, stoi-NoNumber}
use test_ai_agent.Cli.TaskArgs.{
  split_equals, put_number_or_text, put_assignment, task_args_loop, parse_task_args,
}

-- `--interval N`, `--duration N`, `--type T`, `KEY=VALUE`, or a word that is neither.
pub data Setting : Type 0 where
  interval duration : ℕ → Setting
  task_type : String → Setting
  assign : String → String → Setting
  word : String → Setting

abbrev pub shown : Setting → List String
shown (interval n) = "--interval" ∷ to_string n ∷ []
shown (duration n) = "--duration" ∷ to_string n ∷ []
shown (task_type t) = "--type" ∷ t ∷ []
shown (assign key value) = append key (append "=" value) ∷ []
shown (word w) = w ∷ []

abbrev pub arguments : List Setting → List String
arguments [] = []
arguments (s ∷ more) = shown s ++ arguments more

-- The numbers fit `int`, no key has an equals sign, and a word is no option and has none.
abbrev pub IsFine : Setting → Type 0
IsFine (interval n) = n < 2 ^ 31
IsFine (duration n) = n < 2 ^ 31
IsFine (task_type t) = Unit
IsFine (assign key value) = split_equals key ≡ none
IsFine (word w) =
    (split_equals w ≡ none)
    × (str_eq w "--interval" ≡ false)
    × (str_eq w "--duration" ≡ false)
    × (str_eq w "--type" ≡ false)

split_equals-none :
    (c : Char) (s : String)
    → split_equals (put_char c s) ≡ none
    → ((code c == b'=') ≡ false) × (split_equals s ≡ none)
unfolding split_equals
split_equals-none c s h = ground arith

split_equals-append :
    (key value : String)
    → split_equals key ≡ none
    → split_equals (append key (append "=" value)) ≡ some (key, value)
unfolding split_equals
split_equals-append empty value h =
    rw (nil-append (append "=" value), cons-append "=" empty value, nil-append value) refl
split_equals-append (put_char c key) value h =
    let (other, rest) = split_equals-none c key h in
    rw (cons-append c key (append "=" value), other, split_equals-append key value rest) refl

-- An assignment is spelled like no option.
assign-option :
    (key value option : String)
    → split_equals key ≡ none
    → split_equals option ≡ none
    → str_eq (append key (append "=" value)) option ≡ false
assign-option key value option plain no_equals =
    elim (Bool-cases (str_eq (append key (append "=" value)) option)) [
      | inl same ↦ cc (
        split_equals-append key value plain,
        no_equals,
        (eq_iff (append key (append "=" value)) option).0 same,
      )
      | inr differ ↦ differ
    ]

module _ {Json : Type 0} (J : JsonLib Json) where
  open J use {of_string, of_int, put, object}

  -- What a setting makes of an object: a value of an assignment that starts with a number that an
  -- `int` holds is stored as that number, and one that starts with no blank, sign or digit as it is.
  pub data Sets : Setting → Json → Json → Type 0 where
    sets_interval :
        {n : ℕ} {j : Json} → n < 2 ^ 31 → Sets (interval n) j (put j "interval" (of_int (pos n)))
    sets_duration :
        {n : ℕ} {j : Json} → n < 2 ^ 31 → Sets (duration n) j (put j "duration" (of_int (pos n)))
    sets_type : {t : String} {j : Json} → Sets (task_type t) j (put j "type" (of_string t))
    sets_number :
        {key value : String} {j : Json} (n : ℕ) (rest : String)
        → split_equals key ≡ none
        → value ≡ append (to_string n) rest
        → n < 2 ^ 31
        → NoDigit rest
        → Sets (assign key value) j (put j key (of_int (pos n)))
    sets_text :
        {key value : String} {j : Json}
        → split_equals key ≡ none
        → NoNumber value
        → Sets (assign key value) j (put j key (of_string value))
    passes_over : {w : String} {j : Json} → IsFine (word w) → Sets (word w) j j

  -- The settings one after the other.
  pub data SetsAll : List Setting → Json → Json → Type 0 where
    no_settings : {j : Json} → SetsAll [] j j
    setting :
        {s : Setting} {more : List Setting} {i j k : Json}
        → Sets s i j
        → SetsAll more j k
        → SetsAll (s ∷ more) i k

  abbrev set : Setting → Json → Json
  set (interval n) j = put j "interval" (of_int (pos n))
  set (duration n) j = put j "duration" (of_int (pos n))
  set (task_type t) j = put j "type" (of_string t)
  set (assign key value) j = put_number_or_text J key value j
  set (word w) j = j

  abbrev set_all : List Setting → Json → Json
  set_all [] j = j
  set_all (s ∷ more) j = set_all more (set s j)

  set-Sets : {s : Setting} {j k : Json} → Sets s j k → IsFine s × (set s j ≡ k)
  unfolding put_number_or_text
  set-Sets (sets_interval small) = (small, refl)
  set-Sets (sets_duration small) = (small, refl)
  set-Sets sets_type = (tt, refl)
  set-Sets (sets_number n rest plain spelled small other) =
      (plain, rw (spelled, put_number_or_text, stoi-number n rest small other) refl)
  set-Sets (sets_text {key} {value} plain other) =
      (plain, rw (put_number_or_text, stoi-NoNumber value other) refl)
  set-Sets (passes_over fine) = (fine, refl)

  set_all-SetsAll :
      {settings : List Setting} {j k : Json}
      → SetsAll settings j k
      → All IsFine settings × (set_all settings j ≡ k)
  set_all-SetsAll no_settings = (tt, refl)
  set_all-SetsAll (setting {s} {more} one rest) =
      let (fine, first) = set-Sets one in
      let (all_fine, others) = set_all-SetsAll rest in
      ((fine, all_fine), ap (set_all more) first ∙ others)

  -- One argument that is no option.
  loop_other :
      (arg : String) (rest : List String) (j : Json)
      → str_eq arg "--interval" ≡ false
      → str_eq arg "--duration" ≡ false
      → str_eq arg "--type" ≡ false
      → task_args_loop J (arg ∷ rest) j ≡ task_args_loop J rest (put_assignment J arg j)
  unfolding task_args_loop
  loop_other arg [] j a b c = rw c refl
  loop_other arg (next ∷ rest) j a b c = rw (a, b, c) refl

  loop-arguments :
      (settings : List Setting) (rest : List String) (j : Json)
      → All IsFine settings
      → task_args_loop J (arguments settings ++ rest) j ≡ task_args_loop J rest (set_all settings j)
  unfolding task_args_loop split_equals put_assignment
  loop-arguments [] rest j h = refl
  loop-arguments (interval n ∷ more) rest j (small, h) =
      rw (stoi-to_string n small) (loop-arguments more rest _ h)
  loop-arguments (duration n ∷ more) rest j (small, h) =
      rw (stoi-to_string n small) (loop-arguments more rest _ h)
  loop-arguments (task_type t ∷ more) rest j (_, h) = loop-arguments more rest _ h
  loop-arguments (assign key value ∷ more) rest j (plain, h) =
      let arg = append key (append "=" value) in
      loop_other arg (arguments more ++ rest) j (assign-option key value "--interval" plain refl)
        (assign-option key value "--duration" plain refl)
        (assign-option key value "--type" plain refl)
      ∙ rw (put_assignment, split_equals-append key value plain) (loop-arguments more rest _ h)
  loop-arguments (word w ∷ more) rest j ((plain, a, b, c), h) =
      loop_other w (arguments more ++ rest) j a b c
      ∙ rw (put_assignment, plain) (loop-arguments more rest j h)

  -- Options with numbers below 2^31, options with a type, assignments whose key has no equals sign
  -- and whose value starts with a number below 2^31 or with no blank, sign or digit, and words
  -- that are no option and no assignment, in any order, are read from their arguments into the
  -- object in which they are set one after the other: a value that starts with a number as this
  -- number, without the text behind it, and any other value as the text.
  pub parse_task_args-arguments :
      (settings : List Setting) (params : Json)
      → SetsAll settings object params
      → parse_task_args J (arguments settings) ≡ returns params
  unfolding parse_task_args
  parse_task_args-arguments settings params h =
      let (fine, set) = set_all-SetsAll h in
      ap (λ (args : List String). task_args_loop J args object)
        (sym (append-nil (arguments settings)))
      ∙ (loop-arguments settings [] object fine ∙ ap returns set)

  -- If `--type` is the last argument, behind settings that are read without complaint, the client
  -- reads past the end of its arguments.
  pub parse_task_args_crashes :
      (settings : List Setting)
      → All IsFine settings
      → parse_task_args J (arguments settings ++ "--type" ∷ []) ≡ crashes
  unfolding parse_task_args task_args_loop
  parse_task_args_crashes settings h = loop-arguments settings ("--type" ∷ []) object h
