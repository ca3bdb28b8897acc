-- ===== src/Ipc/Framing/Scan.antt =====
-- The searches of `std::string_view` that the parser makes, over bytes.
use test_ai_agent.Prelude.{
  ℕ, zero, suc, ◌<◌, Bool, ◌||◌, List, [], ◌∷◌, ◌++◌, Option, none, some, ◌≡◌, ◌≢◌, refl, arith,
  ◌==◌, if◌then◌else◌, option_map, length, All, false,
}
use test_ai_agent.Json.{newline}

abbrev pub Bytes : Type 0
Bytes = List ℕ

-- `find(c)`
unfoldable pub find : ℕ → Bytes → Option ℕ
find c [] = none
find c (x ∷ xs) = if x == c then some 0 else option_map suc (find c xs)

-- One of " \t\r".
abbrev pub is_blank : ℕ → Bool
is_blank c = c == 32 || (c == 9 || c == 13)

-- `find_first_not_of(" \t\r")`
unfoldable pub find_first_not_of : Bytes → Option ℕ
find_first_not_of [] = none
find_first_not_of (x ∷ xs) = if is_blank x then option_map suc (find_first_not_of xs) else some 0

-- `find_last_not_of(" \t\r")`
unfoldable pub find_last_not_of : Bytes → Option ℕ
find_last_not_of [] = none
find_last_not_of (x ∷ xs) = elim (find_last_not_of xs) [
  | some i ↦ some (suc i)
  | none ↦ if is_blank x then none else some 0
]

abbrev pub OneLine : Bytes → Type 0
OneLine = All (λ c. c ≢ newline)

pub find-line :
    (line rest : Bytes) → OneLine line → find newline (line ++ newline ∷ rest) ≡ some (length line)
unfolding find
find-line [] rest h = refl
find-line (x ∷ xs) rest h = ground (arith, find-line xs rest h.1)

pub find-lt : (c : ℕ) (xs : Bytes) (i : ℕ) → find c xs ≡ some i → i < length xs
unfolding find
find-lt c [] i h = cc
find-lt c (x ∷ xs) zero h = omega arith
find-lt c (x ∷ xs) (suc i) h = ground (arith, find-lt c xs i)

pub find-OneLine : (line : Bytes) → OneLine line → find newline line ≡ none
unfolding find
find-OneLine [] h = refl
find-OneLine (x ∷ xs) h = ground (arith, find-OneLine xs h.1)

-- A text that ends in a byte that is no blank is trimmed at no place after it.
pub find_last_not_of-append :
    (xs : Bytes) (c : ℕ) → is_blank c ≡ false → find_last_not_of (xs ++ c ∷ []) ≡ some (length xs)
unfolding find_last_not_of
find_last_not_of-append [] c h = rw h
find_last_not_of-append (x ∷ xs) c h = rw (find_last_not_of-append xs c h)
