-- ===== src/Prelude/Outcome.antt =====
-- What a C++ call does that may throw: it returns a value, or it throws an exception of which the
-- program reads `what()`.
use mathlib.Core.Option.{Option, none, some}
use mathlib.Core.Path.{◌≡◌, refl, ap}
use Prim.Native.String.{String}

pub data Outcome {ℓ} (A : Type ℓ) : Type ℓ where
  returns : A → Outcome A
  throws : String → Outcome A

infixl 5 ◌>>=◌
abbrev pub ◌>>=◌ {ℓ κ} : {A : Type ℓ} {B : Type κ} → Outcome A → (A → Outcome B) → Outcome B
returns a >>= f = f a
throws e >>= f = throws e

-- `try { return m; } catch (const std::exception& e) { return handler(e.what()); }`
abbrev pub catch {ℓ} : {A : Type ℓ} → Outcome A → (String → A) → A
catch (returns a) handler = a
catch (throws e) handler = handler e

-- `if (!o) return std::nullopt;` in a function that may also throw.
abbrev pub early {ℓ κ} :
    {A : Type ℓ} {B : Type κ} → Option A → (A → Outcome (Option B)) → Outcome (Option B)
early none k = returns none
early (some a) k = k a

-- Inversion of a chain that ended with a value.
pub early-eq-some {ℓ κ} :
    {A : Type ℓ} {B : Type κ} (o : Option A) (k : A → Outcome (Option B)) {b : B}
    → early o k ≡ returns (some b)
    → (a : A) × (o ≡ some a) × (k a ≡ returns (some b))
early-eq-some none k h = cc
early-eq-some (some a) k h = (a, refl, h)

pub >>=-eq-returns {ℓ κ} :
    {A : Type ℓ} {B : Type κ} (m : Outcome A) (f : A → Outcome B) {b : B}
    → (m >>= f) ≡ returns b
    → (a : A) × (m ≡ returns a) × (f a ≡ returns b)
>>=-eq-returns (returns a) f h = (a, refl, h)
>>=-eq-returns (throws e) f h = cc

abbrev value_of {ℓ} : {A : Type ℓ} → A → Outcome A → A
value_of d (returns a) = a
value_of d (throws e) = d

pub returns-injective {ℓ} : {A : Type ℓ} {a b : A} → returns a ≡ returns b → a ≡ b
returns-injective {a = a} e = ap (value_of a) e
