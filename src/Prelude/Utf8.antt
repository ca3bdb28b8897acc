-- ===== src/Prelude/Utf8.antt =====
-- The bytes of a text in UTF-8.
use Prim.Native.Char.{code}
use Prim.Native.Nat.{ℕ, ◌+◌, ◌/◌, ◌%◌, ◌^◌}
use Prim.Native.String.{String, [] as empty, ◌∷◌ as put_char}
use mathlib.Core.List.{List, [], ◌∷◌, ◌++◌}
use test_ai_agent.Prelude.Tests.{ltb, if◌then◌else◌}

abbrev utf8_char : ℕ → List ℕ
utf8_char c =
    if ltb c (2 ^ 7)
    then c ∷ []
    else if ltb c (2 ^ 11)
    then (192 + c / 2 ^ 6) ∷ (128 + c % 2 ^ 6) ∷ []
    else if ltb c (2 ^ 16)
    then (224 + c / 2 ^ 12) ∷ (128 + c / 2 ^ 6 % 2 ^ 6) ∷ (128 + c % 2 ^ 6) ∷ []
    else (240 + c / 2 ^ 18)
      ∷ (128 + c / 2 ^ 12 % 2 ^ 6)
      ∷ (128 + c / 2 ^ 6 % 2 ^ 6)
      ∷ (128 + c % 2 ^ 6)
      ∷ []

abbrev pub utf8 : String → List ℕ
utf8 empty = []
utf8 (put_char c s) = utf8_char (code c) ++ utf8 s
