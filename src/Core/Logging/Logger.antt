-- ===== src/Core/Logging/Logger.antt =====
-- `Logger` of src/core/logger.cpp and include/demo_daemon/core/logger.hpp.
use Prim.Native.String.{◌++◌ as append}
use test_ai_agent.Prelude.{ℕ, ◌%◌, String, List, [], ◌∷◌, ◌++◌, ltb, if◌then◌else◌}
use test_ai_agent.Prelude.Decimal.{to_string}
use test_ai_agent.Core.Logging.Level.{LogLevel, at_least, log_level_to_string}

-- `output_` by the lines that were written to it.
pub record Logger : Type 0 where
  pub min_level : LogLevel
  pub output : List String

abbrev pub new_logger : LogLevel → Logger
new_logger min_level = record { min_level = min_level; output = [] }

-- What the clock shows: the local time as `put_time` prints it, and the milliseconds of the epoch.
pub record Now : Type 0 where
  pub time : String
  pub epoch_ms : ℕ

-- `std::setfill('0') << std::setw(3)`
abbrev pub padded : ℕ → String
padded n =
    if ltb n 10
    then append "00" (to_string n)
    else if ltb n 100
    then append "0" (to_string n)
    else to_string n

unfoldable pub format_prefix : Now → LogLevel → String
format_prefix now level = append "[" (
    append now.time (
      append "." (
        append (padded (now.epoch_ms % 1000))
          (append "] [" (append (log_level_to_string level) "] ")))))

unfoldable pub set_min_level : LogLevel → Logger → Logger
set_min_level level l = record l { min_level = level }

unfoldable pub write : String → Logger → Logger
write formatted_message l = record l { output = l.output ++ formatted_message ∷ [] }

-- `log` with a message.
unfoldable pub log : Now → LogLevel → String → Logger → Logger
unfolding write format_prefix
log now level message l =
    if at_least level l.min_level then write (append (format_prefix now level) message) l else l

-- `((oss << " " << args), ...)`, each argument as the stream prints it.
unfoldable pub joined : String → List String → String
joined text [] = text
joined text (arg ∷ args) = joined (append text (append " " arg)) args

-- `log` with a format, which is not searched for places to put the arguments.
unfoldable pub log_format : Now → LogLevel → String → List String → Logger → Logger
unfolding log joined
log_format now level format args l =
    if at_least level l.min_level
    then log now level (joined (append "[DEMON] " format) args) l
    else l

-- The methods of the levels, with a message and with a format.
pub data Method : Type 0 where
  says : LogLevel → String → Method
  formats : LogLevel → String → List String → Method

-- `trace`, `debug`, `info`, `warn` and `error`.
unfoldable pub call : Now → Method → Logger → Logger
unfolding log log_format
call now (says level message) l = log now level message l
call now (formats level format args) l = log_format now level format args l
