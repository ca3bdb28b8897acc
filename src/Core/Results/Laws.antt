-- ===== src/Core/Results/Laws.antt =====
-- What `Result` of include/demo_daemon/core/result.hpp promises to its users.
use Prim.Native.String.{◌++◌ as append}
use test_ai_agent.Prelude.{String, true, false, ◌≡◌, refl, ◌⊎◌, inl, inr}
use test_ai_agent.Prelude.Outcome.{returns, throws}
use test_ai_agent.Core.Results.{
  ErrorCode, Error, Result, holds_value, holds_error, ok, err, is_ok, has_error, get_error,
  get_value, value_or, value_or_invoke, VoidResult, void_ok, void_err_of, void_err, is_success,
  void_has_error, void_error,
}

-- A result with a value, as every operation shows it.
pub record HasValue {T : Type 0} (value : T) (r : Result T) : Type 0 where
  pub is_ok : is_ok r ≡ true
  pub has_no_error : has_error r ≡ false
  pub gives : get_value r ≡ returns value
  pub no_error : get_error r ≡ throws "Result does not contain error"
  pub or_value : (d : T) → value_or r d ≡ value
  pub invokes_nothing : (func : Error → T) → value_or_invoke r func ≡ value

-- A result with an error, as every operation shows it.
pub record HasError {T : Type 0} (e : Error) (r : Result T) : Type 0 where
  pub not_ok : is_ok r ≡ false
  pub has_error : has_error r ≡ true
  pub no_value : get_value r ≡ throws (append "Result does not contain value: " e.message)
  pub gives_error : get_error r ≡ returns e
  pub or_default : (d : T) → value_or r d ≡ d
  pub invokes : (func : Error → T) → value_or_invoke r func ≡ func e

module _ {T : Type 0} where
  pub Result-cases :
      (r : Result T)
      → ((value : T) × (r ≡ ok value) × HasValue value r)
        ⊎ ((e : Error) × (r ≡ err e.code e.message) × HasError e r)
  unfolding ok err is_ok has_error get_error get_value value_or value_or_invoke
  Result-cases (holds_value value) = inl (
    value,
    refl,
    record {
      is_ok = refl;
      has_no_error = refl;
      gives = refl;
      no_error = refl;
      or_value = λ d. refl;
      invokes_nothing = λ func. refl;
    },
  )
  Result-cases (holds_error e) = inr (
    e,
    refl,
    record {
      not_ok = refl;
      has_error = refl;
      no_value = refl;
      gives_error = refl;
      or_default = λ d. refl;
      invokes = λ func. refl;
    },
  )

-- What the public constructors make.
pub data Makes : VoidResult → Type 0 where
  makes_ok : Makes void_ok
  makes_err : (code : ErrorCode) (message : String) → Makes (void_err code message)
  makes_err_of : (e : Error) → Makes (void_err_of e)

-- Every `Result<void>` that its constructors make counts as a success, has no error and throws
-- when it is asked for it, one made of an error included.
pub void_err_is_success :
    (r : VoidResult)
    → Makes r
    → (is_success r ≡ true)
      × (void_has_error r ≡ false)
      × (void_error r ≡ throws "Result does not contain error")
unfolding void_ok void_err void_err_of is_success void_has_error void_error
void_err_is_success _ makes_ok = (refl, refl, refl)
void_err_is_success _ (makes_err code message) = (refl, refl, refl)
void_err_is_success _ (makes_err_of e) = (refl, refl, refl)
