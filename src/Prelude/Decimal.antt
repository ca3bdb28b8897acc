-- ===== src/Prelude/Decimal.antt =====
-- `std::to_string` of an unsigned number.
use Prim.Native.Char.{Char, code}
use Prim.Native.String.{[] as empty, ◌∷◌ as put}
use Prim.Native.Nat.{ℕ, zero, suc, ◌+◌, ◌-◌, ◌*◌, ◌/◌, ◌%◌, ◌<◌}
use Prim.Native.String.{String}
use mathlib.Core.Path.{◌≡◌, refl, ap, sym, ◌∙◌}
use mathlib.Core.Bool.{true}
use mathlib.Core.Logic.{inl, inr}
use native.Mathlib.Omega.{arith}
use test_ai_agent.Prelude.Tests.{◌==◌, if◌then◌else◌, Bool-cases}

unfoldable pub digit : ℕ → Char
digit zero = "0"
digit (suc zero) = "1"
digit (suc (suc zero)) = "2"
digit (suc (suc (suc zero))) = "3"
digit (suc (suc (suc (suc zero)))) = "4"
digit (suc (suc (suc (suc (suc zero))))) = "5"
digit (suc (suc (suc (suc (suc (suc zero)))))) = "6"
digit (suc (suc (suc (suc (suc (suc (suc zero))))))) = "7"
digit (suc (suc (suc (suc (suc (suc (suc (suc zero)))))))) = "8"
digit _ = "9"

pub code-digit : (d : ℕ) → d < 10 → code (digit d) ≡ 48 + d
unfolding digit
code-digit zero h = refl
code-digit (suc zero) h = refl
code-digit (suc (suc zero)) h = refl
code-digit (suc (suc (suc zero))) h = refl
code-digit (suc (suc (suc (suc zero)))) h = refl
code-digit (suc (suc (suc (suc (suc zero))))) h = refl
code-digit (suc (suc (suc (suc (suc (suc zero)))))) h = refl
code-digit (suc (suc (suc (suc (suc (suc (suc zero))))))) h = refl
code-digit (suc (suc (suc (suc (suc (suc (suc (suc zero)))))))) h = refl
code-digit (suc (suc (suc (suc (suc (suc (suc (suc (suc zero))))))))) h = refl
code-digit (suc (suc (suc (suc (suc (suc (suc (suc (suc (suc n)))))))))) h = absurd (omega arith)

-- The digits of `n`, before `out`; on fuel.
unfoldable pub emit : ℕ → ℕ → String → String
emit zero n out = out
emit (suc fuel) n out =
    let rest = emit fuel (n / 10) (put (digit (n % 10)) out) in
    if n / 10 == 0 then put (digit (n % 10)) out else rest

-- A number has no more digits than its successor counts.
unfoldable pub to_string : ℕ → String
unfolding emit digit
to_string n = emit (suc n) n ""

-- The value of a text of digits, after a prefix of value `n`.
unfoldable pub value : String → ℕ → ℕ
value empty n = n
value (put c s) n = value s (n * 10 + (code c - 48))

value-emit : (fuel n : ℕ) (out : String) → n < fuel → value (emit fuel n out) 0 ≡ value out n
unfolding value emit
value-emit zero n out h = absurd (omega arith)
value-emit (suc fuel) n out h = elim (Bool-cases (n / 10 == 0)) [
  | inl last ↦ rw last (ap (value out) (omega (arith, code-digit (n % 10), small last)))
  | inr more ↦ rw more (
      value-emit fuel (n / 10) (put (digit (n % 10)) out) (ground arith)
      ∙ ap (value out) (omega (arith, code-digit (n % 10))))
]
  where
    small : (n / 10 == 0) ≡ true → n / 10 ≡ 0
    small e = ground arith

pub value-to_string : (n : ℕ) → value (to_string n) 0 ≡ n
unfolding to_string value
value-to_string n = value-emit (suc n) n "" (omega arith)

pub to_string-injective : (a b : ℕ) → to_string a ≡ to_string b → a ≡ b
to_string-injective a b e = sym (value-to_string a) ∙ ap (λ s. value s 0) e ∙ value-to_string b

pub to_string_zero : to_string 0 ≡ "0"
unfolding to_string
to_string_zero = refl
