-- ===== src/Core/Logging/Prefix.antt =====
-- The prefix of a line of src/core/logger.cpp, spelled out: the time, three digits of milliseconds, and
-- the name of the level.
use Prim.Native.String.{◌∷◌ as put, ◌++◌ as append}
use test_ai_agent.Prelude.{
  ℕ, suc, ◌-◌, ◌/◌, ◌%◌, ◌<◌, ◌≤◌, String, true, false, ◌≡◌, refl, ap, ◌∙◌, arith, ltb, ◌==◌,
  Bool-cases, inl, inr,
}
use text.Mathlib.TextLemmas.{nil-append, cons-append}
use test_ai_agent.Prelude.Decimal.{digit, emit, to_string}
use test_ai_agent.Core.Logging.Level.{
  LogLevel, trace, debug, info, warn, error, log_level_to_string,
}
use test_ai_agent.Core.Logging.Logger.{Now, padded, format_prefix}

abbrev name : LogLevel → String
name trace = "TRACE"
name debug = "DEBUG"
name info = "INFO"
name warn = "WARN"
name error = "ERROR"

-- The last three digits.
abbrev thousandths : ℕ → String
thousandths n = put (digit (n / 100 % 10)) (put (digit (n / 10 % 10)) (put (digit (n % 10)) ""))

-- `[TIME.MMM] [LEVEL] `
abbrev pub prefix : Now → LogLevel → String
prefix now level = append "[" (
    append now.time
      (append "." (append (thousandths now.epoch_ms) (append "] [" (append (name level) "] ")))))

emit_last : (fuel n : ℕ) (out : String) → n < 10 → emit (suc fuel) n out ≡ put (digit (n % 10)) out
unfolding emit
emit_last fuel n out h = let e : (n / 10 == 0) ≡ true = ground arith in rw e refl

emit_more :
    (fuel n : ℕ) (out : String)
    → 10 ≤ n
    → emit (suc fuel) n out ≡ emit fuel (n / 10) (put (digit (n % 10)) out)
unfolding emit
emit_more fuel n out h = let e : (n / 10 == 0) ≡ false = ground arith in rw e refl

to_string_one : (n : ℕ) → n < 10 → to_string n ≡ put (digit (n % 10)) ""
unfolding to_string
to_string_one n h = emit_last n n "" h

to_string_two :
    (n : ℕ) → 10 ≤ n → n < 100 → to_string n ≡ put (digit (n / 10 % 10)) (put (digit (n % 10)) "")
unfolding to_string
to_string_two n low high =
    let fuel : n ≡ suc (n - 1) = omega arith in
    emit_more n n "" low
    ∙ (ap (λ f. emit f (n / 10) (put (digit (n % 10)) "")) fuel
        ∙ emit_last (n - 1) (n / 10) (put (digit (n % 10)) "") (omega arith))

to_string_three : (n : ℕ) → 100 ≤ n → n < 1000 → to_string n ≡ thousandths n
unfolding to_string
to_string_three n low high =
    let fuel : n ≡ suc (suc (n - 2)) = omega arith in
    let units : String = put (digit (n % 10)) "" in
    let tens : String = put (digit (n / 10 % 10)) units in
    emit_more n n "" (omega arith)
    ∙ (ap (λ f. emit f (n / 10) units) fuel
        ∙ (emit_more (suc (n - 2)) (n / 10) units (omega arith)
            ∙ (emit_last (n - 2) (n / 10 / 10) tens (omega arith)
                ∙ ap (λ d. put (digit d) tens) (omega arith))))

one_zero : (s : String) → append "0" s ≡ put (digit 0) s
unfolding digit
one_zero s = cons-append "0" "" s ∙ ap (put "0") (nil-append s)

two_zeros : (s : String) → append "00" s ≡ put (digit 0) (put (digit 0) s)
unfolding digit
two_zeros s = cons-append "0" "0" s ∙ ap (put "0") (one_zero s)

padded-thousandths : (n : ℕ) → n < 1000 → padded n ≡ thousandths n
padded-thousandths n h = elim (Bool-cases (ltb n 10)) [
  | inl one ↦
      let small : n < 10 = ground (arith, one) in
      let hundreds : n / 100 % 10 ≡ 0 = omega (arith, small) in
      let tens : n / 10 % 10 ≡ 0 = omega (arith, small) in
      rw (one, to_string_one n small, hundreds, tens) (two_zeros (put (digit (n % 10)) ""))
  | inr more ↦ elim (Bool-cases (ltb n 100)) [
    | inl two ↦
        let low : 10 ≤ n = ground (arith, more) in
        let high : n < 100 = ground (arith, two) in
        let hundreds : n / 100 % 10 ≡ 0 = omega (arith, high) in
        rw (more, two, to_string_two n low high, hundreds)
          (one_zero (put (digit (n / 10 % 10)) (put (digit (n % 10)) "")))
    | inr three ↦
        let low : 100 ≤ n = ground (arith, three) in rw (more, three) (to_string_three n low h)
  ]
]

name_lem : (level : LogLevel) → log_level_to_string level ≡ name level
unfolding log_level_to_string
name_lem trace = refl
name_lem debug = refl
name_lem info = refl
name_lem warn = refl
name_lem error = refl

thousandths_rest : (n : ℕ) → thousandths (n % 1000) ≡ thousandths n
thousandths_rest n =
    let hundreds : n % 1000 / 100 % 10 ≡ n / 100 % 10 = omega arith in
    let tens : n % 1000 / 10 % 10 ≡ n / 10 % 10 = omega arith in
    let units : n % 1000 % 10 ≡ n % 10 = omega arith in rw (hundreds, tens, units) refl

pub format_prefix-prefix :
    (now : Now) (level : LogLevel) → format_prefix now level ≡ prefix now level
unfolding format_prefix
format_prefix-prefix now level =
    rw
      (
        padded-thousandths (now.epoch_ms % 1000) (omega arith),
        thousandths_rest now.epoch_ms,
        name_lem level,
      )
      refl
