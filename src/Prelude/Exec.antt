-- ===== src/Prelude/Exec.antt =====
-- What a call of the tasks and the commands does: it returns, it throws, or it follows a null pointer,
-- which no handler catches.
use Prim.Native.String.{String}
use mathlib.Core.Path.{◌≡◌, ap}

pub data Exec {ℓ} (A : Type ℓ) : Type ℓ where
  returns : A → Exec A
  throws : String → Exec A
  crashes : Exec A

infixl 5 ◌>>=◌
abbrev pub ◌>>=◌ {ℓ κ} : {A : Type ℓ} {B : Type κ} → Exec A → (A → Exec B) → Exec B
returns a >>= f = f a
throws e >>= f = throws e
crashes >>= f = crashes

-- `try { return m; } catch (const std::exception& e) { return handler(e.what()); }`
abbrev pub catch {ℓ} : {A : Type ℓ} → Exec A → (String → A) → Exec A
catch (returns a) handler = returns a
catch (throws e) handler = returns (handler e)
catch crashes handler = crashes

abbrev value_of {ℓ} : {A : Type ℓ} → A → Exec A → A
value_of d (returns a) = a
value_of d _ = d

pub returns-injective {ℓ} : {A : Type ℓ} {a b : A} → returns a ≡ returns b → a ≡ b
returns-injective {a = a} e = ap (value_of a) e
