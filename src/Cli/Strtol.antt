-- ===== src/Cli/Strtol.antt =====
-- `std::stoi` and `std::atoi`, which src/cli/main.cpp reads numbers with, over `strtol`.
use Prim.Native.Char.{code}
use Prim.Native.String.{[] as empty, ◌∷◌ as put}
use test_ai_agent.Prelude.{
  ℕ, ◌+◌, ◌-◌, ◌*◌, ◌^◌, min, String, Bool, ◌&&◌, ◌||◌, Option, none, some, leb, ltb, ◌==◌,
  if◌then◌else◌, option_map, value_or,
}
use test_ai_agent.Prelude.Int.{ℤ, pos, negsuc, neg, to_int32}
use test_ai_agent.Prelude.Outcome.{Outcome, returns, throws}

abbrev pub is_space : ℕ → Bool
is_space c = c == 32 || (leb 9 c && leb c 13)

abbrev pub is_digit : ℕ → Bool
is_digit c = leb b'0' c && leb c b'9'

-- The digits in front, after digits of the value `n`.
unfoldable pub digits_from : ℕ → String → ℕ
digits_from n empty = n
digits_from n (put c s) =
    let rest = digits_from (n * 10 + (code c - b'0')) s in if is_digit (code c) then rest else n

-- The number in front of a text, if there is a digit.
unfoldable pub digits : String → Option ℕ
unfolding digits_from
digits empty = none
digits (put c s) = if is_digit (code c) then some (digits_from (code c - b'0') s) else none

-- A value that `long` does not hold becomes the nearest that it holds.
abbrev clamp_negative : ℕ → ℤ
clamp_negative n = neg (min n (2 ^ 63))

abbrev clamp_positive : ℕ → ℤ
clamp_positive n = pos (min n (2 ^ 63 - 1))

unfoldable pub signed : String → Option ℤ
unfolding digits
signed empty = none
signed (put c s) =
    if code c == b'-'
    then option_map clamp_negative (digits s)
    else if code c == b'+'
    then option_map clamp_positive (digits s)
    else option_map clamp_positive (digits (put c s))

-- `strtol` in base ten; `none` if it converts nothing.
unfoldable pub strtol : String → Option ℤ
unfolding signed
strtol empty = none
strtol (put c s) = let rest = strtol s in if is_space (code c) then rest else signed (put c s)

abbrev pub in_int : ℤ → Bool
in_int (pos n) = ltb n (2 ^ 31)
in_int (negsuc n) = ltb n (2 ^ 31)

-- What follows the number is not looked at.
unfoldable pub stoi : String → Outcome ℤ
unfolding strtol
stoi s = elim (strtol s) [
  | none ↦ throws "stoi"
  | some n ↦ if in_int n then returns n else throws "stoi"
]

-- The cast of glibc; a text with no number is 0.
unfoldable pub atoi : String → ℤ
unfolding strtol
atoi s = to_int32 (value_or (strtol s) (pos 0))
