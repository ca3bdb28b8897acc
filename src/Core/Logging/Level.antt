-- ===== src/Core/Logging/Level.antt =====
-- `LogLevel` of include/demo_daemon/core/types.hpp, and the version.
use Prim.Native.String.{◌++◌ as append}
use test_ai_agent.Prelude.{ℕ, String, Bool, ◌||◌, leb, str_eq, if◌then◌else◌, ◌≡◌, refl}
use test_ai_agent.Prelude.Decimal.{to_string}

pub data LogLevel : Type 0 where
  trace debug info warn error : LogLevel

-- The numbers of the enumeration, by which `>=` compares.
abbrev pub number : LogLevel → ℕ
number trace = 0
number debug = 1
number info = 2
number warn = 3
number error = 4

abbrev pub at_least : LogLevel → LogLevel → Bool
at_least level min_level = leb (number min_level) (number level)

unfoldable pub log_level_to_string : LogLevel → String
log_level_to_string trace = "TRACE"
log_level_to_string debug = "DEBUG"
log_level_to_string info = "INFO"
log_level_to_string warn = "WARN"
log_level_to_string error = "ERROR"

-- Any other text is read as `info`.
unfoldable pub string_to_log_level : String → LogLevel
string_to_log_level str =
    if str_eq str "trace" || str_eq str "TRACE"
    then trace
    else if str_eq str "debug" || str_eq str "DEBUG"
    then debug
    else if str_eq str "info" || str_eq str "INFO"
    then info
    else if str_eq str "warn" || str_eq str "WARN"
    then warn
    else if str_eq str "error" || str_eq str "ERROR"
    then error
    else info

pub record Version : Type 0 where
  pub major : ℕ
  pub minor : ℕ
  pub patch : ℕ
  pub suffix : String

-- The result, with the suffix behind a dash if there is one.
unfoldable pub version_to_string : Version → String
version_to_string v =
    let result =
      append (to_string v.major)
        (append "." (append (to_string v.minor) (append "." (to_string v.patch)))) in
    if str_eq v.suffix "" then result else append result (append "-" v.suffix)

abbrev pub current_version : Version
current_version = record { major = 0; minor = 1; patch = 0; suffix = "dev" }

pub string_to_log_level-log_level_to_string :
    (level : LogLevel) → string_to_log_level (log_level_to_string level) ≡ level
unfolding string_to_log_level log_level_to_string
string_to_log_level-log_level_to_string trace = refl
string_to_log_level-log_level_to_string debug = refl
string_to_log_level-log_level_to_string info = refl
string_to_log_level-log_level_to_string warn = refl
string_to_log_level-log_level_to_string error = refl
