-- ===== src/Cli/Numbers.antt =====
-- `std::stoi` of src/cli/main.cpp on what `std::to_string` writes.
use Prim.Native.Char.{code}
use Prim.Native.String.{[] as empty, ◌∷◌ as put, ◌++◌ as append}
use text.Mathlib.TextLemmas.{nil-append, cons-append, append-nil}
use test_ai_agent.Prelude.{
  ℕ, zero, suc, ◌+◌, ◌-◌, ◌*◌, ◌/◌, ◌%◌, ◌<◌, ◌≤◌, ◌^◌, min, String, true, false, none, some, ◌==◌,
  ◌≡◌, refl, arith, ap, ◌∙◌, sym, ◌≢◌, ◌⊎◌, ltb, Bool-cases, inl, inr, lt→ltb,
}
use test_ai_agent.Prelude.Decimal.{to_string, emit, digit, value, value-to_string, code-digit}
use test_ai_agent.Prelude.Int.{pos}
use test_ai_agent.Prelude.Outcome.{returns, throws}
use test_ai_agent.Cli.Strtol.{is_digit, is_space, digits_from, digits, signed, strtol, stoi}

-- Every character is a digit.
abbrev AllDigits : String → Type 0
AllDigits empty = Unit
AllDigits (put c s) = (48 ≤ code c) × (code c < 58) × AllDigits s

-- A text that starts with no digit.
abbrev pub NoDigit : String → Type 0
NoDigit empty = Unit
NoDigit (put c s) = is_digit (code c) ≡ false

digits_from-NoDigit : (n : ℕ) (rest : String) → NoDigit rest → digits_from n rest ≡ n
unfolding digits_from
digits_from-NoDigit n empty h = refl
digits_from-NoDigit n (put c s) h = rw h refl

-- The digits end where the rest begins.
digits_from-value :
    (s rest : String) (n : ℕ)
    → AllDigits s
    → NoDigit rest
    → digits_from n (append s rest) ≡ value s n
unfolding digits_from value
digits_from-value empty rest n h other =
    ap (digits_from n) (nil-append rest) ∙ digits_from-NoDigit n rest other
digits_from-value (put c s) rest n (low, high, h) other =
    let d : is_digit (code c) ≡ true = ground arith in
    rw (cons-append c s rest, d) (digits_from-value s rest (n * 10 + (code c - 48)) h other)

AllDigits-emit : (fuel n : ℕ) (out : String) → AllDigits out → AllDigits (emit fuel n out)
unfolding emit
AllDigits-emit zero n out h = h
AllDigits-emit (suc fuel) n out h =
    let c = code-digit (n % 10) (omega arith) in
    let more : AllDigits (put (digit (n % 10)) out) = (omega arith, omega arith, h) in
    elim (Bool-cases (n / 10 == 0)) [
      | inl last ↦ rw last more
      | inr going ↦ rw going (AllDigits-emit fuel (n / 10) (put (digit (n % 10)) out) more)
    ]

-- A text that starts with a digit.
abbrev Starts : String → Type 0
Starts empty = ⊥
Starts (put c s) = Unit

emit-Starts : (fuel n : ℕ) (out : String) → Starts out → Starts (emit fuel n out)
unfolding emit
emit-Starts zero n out h = h
emit-Starts (suc fuel) n out h = elim (Bool-cases (n / 10 == 0)) [
  | inl last ↦ rw last tt
  | inr going ↦ rw going (emit-Starts fuel (n / 10) (put (digit (n % 10)) out) tt)
]

to_string-Starts : (n : ℕ) → Starts (to_string n)
unfolding to_string emit
to_string-Starts n = elim (Bool-cases (n / 10 == 0)) [
  | inl last ↦ rw last tt
  | inr going ↦ rw going (emit-Starts n (n / 10) (put (digit (n % 10)) "") tt)
]

to_string-AllDigits : (n : ℕ) → AllDigits (to_string n)
unfolding to_string
to_string-AllDigits n = AllDigits-emit (suc n) n "" tt

strtol-digits :
    (s rest : String)
    → AllDigits s
    → Starts s
    → NoDigit rest
    → strtol (append s rest) ≡ some (pos (min (value s 0) (2 ^ 63 - 1)))
unfolding strtol signed digits value
strtol-digits empty rest h starts other = absurd starts
strtol-digits (put c s) rest (low, high, h) starts other =
    let no_space : is_space (code c) ≡ false = ground arith in
    let no_minus : (code c == b'-') ≡ false = ground arith in
    let no_plus : (code c == b'+') ≡ false = ground arith in
    let a_digit : is_digit (code c) ≡ true = ground arith in
    let start : zero * 10 + (code c - 48) ≡ code c - 48 = omega arith in
    rw
      (
        cons-append c s rest,
        no_space,
        no_minus,
        no_plus,
        a_digit,
        digits_from-value s rest (code c - 48) h other,
        start,
      )
      refl

-- A number that an `int` holds is read whatever other text stands behind it.
pub stoi-number :
    (n : ℕ) (rest : String)
    → n < 2 ^ 31
    → NoDigit rest
    → stoi (append (to_string n) rest) ≡ returns (pos n)
unfolding stoi
stoi-number n rest h other =
    let read : strtol (append (to_string n) rest) ≡ some (pos n) =
      strtol-digits (to_string n) rest (to_string-AllDigits n) (to_string-Starts n) other
      ∙ rw (value-to_string n) (ap (λ k. some (pos k)) (omega arith)) in
    let small : ltb n (2 ^ 31) ≡ true = lt→ltb n (2 ^ 31) h in rw (stoi, read, small) refl

pub stoi-to_string : (n : ℕ) → n < 2 ^ 31 → stoi (to_string n) ≡ returns (pos n)
stoi-to_string n h = ap stoi (sym (append-nil (to_string n))) ∙ stoi-number n "" h tt

-- A text that starts with no blank, sign or digit.
abbrev pub NoNumber : String → Type 0
NoNumber empty = Unit
NoNumber (put c s) = (32 < code c) × (code c ≢ 43) × (code c ≢ 45) × ((code c < 48) ⊎ (57 < code c))

strtol-NoNumber : (s : String) → NoNumber s → strtol s ≡ none
unfolding strtol signed digits
strtol-NoNumber empty h = refl
strtol-NoNumber (put c s) (visible, no_plus, no_minus, other) =
    let no_space : is_space (code c) ≡ false = ground arith in
    let minus : (code c == b'-') ≡ false = ground arith in
    let plus : (code c == b'+') ≡ false = ground arith in
    let no_digit : is_digit (code c) ≡ false = ground arith in
    rw (no_space, minus, plus, no_digit) refl

pub stoi-NoNumber : (s : String) → NoNumber s → stoi s ≡ throws "stoi"
unfolding stoi
stoi-NoNumber s h = rw (strtol-NoNumber s h, stoi) refl
