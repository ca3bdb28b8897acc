-- ===== src/Core/Results.antt =====
-- `Result`, `Error` and `ErrorCode` of include/demo_daemon/core/result.hpp.
pub mod Laws
use Prim.Native.String.{◌++◌ as append}
use test_ai_agent.Prelude.{
  String, Bool, true, false, not, ◌≡◌, refl, ◌⊎◌, inl, inr, ap, ◌∙◌, sym, if◌then◌else◌,
}
use test_ai_agent.Prelude.Outcome.{Outcome, returns, throws}

pub data ErrorCode : Type 0 where
  success : ErrorCode
  invalid_argument : ErrorCode
  not_found : ErrorCode
  already_exists : ErrorCode
  permission_denied : ErrorCode
  timeout : ErrorCode
  internal_error : ErrorCode
  not_initialized : ErrorCode
  cancelled : ErrorCode

unfoldable pub error_code_to_string : ErrorCode → String
error_code_to_string success = "Success"
error_code_to_string invalid_argument = "InvalidArgument"
error_code_to_string not_found = "NotFound"
error_code_to_string already_exists = "AlreadyExists"
error_code_to_string permission_denied = "PermissionDenied"
error_code_to_string timeout = "Timeout"
error_code_to_string internal_error = "InternalError"
error_code_to_string not_initialized = "NotInitialized"
error_code_to_string cancelled = "Cancelled"

pub record Error : Type 0 where
  pub code : ErrorCode
  pub message : String

-- `Error::ok`, and its negation, the conversion to `bool`.
unfoldable pub error_ok : Error → Bool
error_ok e = elim e.code [ success ↦ true | _ ↦ false ]

unfoldable pub error_bool : Error → Bool
unfolding error_ok
error_bool e = not (error_ok e)

-- `std::variant<T, Error>`
pub data Result (T : Type 0) : Type 0 where
  holds_value : T → Result T
  holds_error : Error → Result T

module _ {T : Type 0} where
  unfoldable pub ok : T → Result T
  ok value = holds_value value

  unfoldable pub err : ErrorCode → String → Result T
  err code message = holds_error (record { code = code; message = message })

  -- `ok()`, which is also the conversion to `bool`, and `hasError()`.
  unfoldable pub is_ok : Result T → Bool
  is_ok (holds_value value) = true
  is_ok (holds_error e) = false

  unfoldable pub has_error : Result T → Bool
  unfolding is_ok
  has_error r = not (is_ok r)

  unfoldable pub get_error : Result T → Outcome Error
  get_error (holds_value value) = throws "Result does not contain error"
  get_error (holds_error e) = returns e

  unfoldable pub get_value : Result T → Outcome T
  get_value (holds_value value) = returns value
  get_value (holds_error e) = throws (append "Result does not contain value: " e.message)

  unfoldable pub value_or : Result T → T → T
  value_or (holds_value value) default_value = value
  value_or (holds_error e) default_value = default_value

  unfoldable pub value_or_invoke : Result T → (Error → T) → T
  value_or_invoke (holds_value value) func = value
  value_or_invoke (holds_error e) func = func e

-- `Result<void>`
pub record VoidResult : Type 0 where
  pub error : Error
  pub has_value : Bool

abbrev pub no_error : Error
no_error = record { code = success; message = "" }

unfoldable pub void_ok : VoidResult
void_ok = record { error = no_error; has_value = true }

-- The constructor from an error sets `has_value_` to true.
unfoldable pub void_err_of : Error → VoidResult
void_err_of e = record { error = e; has_value = true }

unfoldable pub void_err : ErrorCode → String → VoidResult
unfolding void_err_of
void_err code message = void_err_of (record { code = code; message = message })

unfoldable pub is_success : VoidResult → Bool
is_success r = r.has_value

unfoldable pub void_has_error : VoidResult → Bool
void_has_error r = not r.has_value

unfoldable pub void_error : VoidResult → Outcome Error
void_error r = if r.has_value then throws "Result does not contain error" else returns r.error
