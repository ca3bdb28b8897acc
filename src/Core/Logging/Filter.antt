-- ===== src/Core/Logging/Filter.antt =====
-- What a run of calls of the logger of src/core/logger.cpp writes.
use Prim.Native.String.{◌++◌ as append}
use test_ai_agent.Prelude.{
  String, Bool, true, false, List, [], ◌∷◌, ◌++◌, ◌≡◌, refl, sym, ap, ◌∙◌, Bool-cases, inl, inr,
  if◌then◌else◌,
}
use text.Mathlib.TextLemmas.{append-nil as text_append-nil, append_assoc as text_append_assoc}
use mathlib.Core.List.{append-nil, append_assoc}
use test_ai_agent.Core.Logging.Level.{LogLevel, trace, debug, info, warn, error, at_least}
use test_ai_agent.Core.Logging.Prefix.{prefix, format_prefix-prefix}
use test_ai_agent.Core.Logging.Logger.{
  Logger, Now, Method, says, formats, set_min_level, write, log, joined, log_format, call,
}

-- A call of the logger, at a time.
pub data Call : Type 0 where
  sets : LogLevel → Call
  calls : Now → Method → Call

unfoldable pub run : List Call → Logger → Logger
run [] l = l
run (sets level ∷ more) l = run more (set_min_level level l)
run (calls now method ∷ more) l = run more (call now method l)

-- Whether a call passes, by the least level and the level of the call.
abbrev pub passes : LogLevel → LogLevel → Bool
passes trace _ = true
passes debug trace = false
passes debug _ = true
passes info trace = false
passes info debug = false
passes info _ = true
passes warn warn = true
passes warn error = true
passes warn _ = false
passes error error = true
passes error _ = false

each_level :
    (P : LogLevel → Type 0)
    → P trace
    → P debug
    → P info
    → P warn
    → P error
    → (level : LogLevel) → P level
each_level P a b c d e trace = a
each_level P a b c d e debug = b
each_level P a b c d e info = c
each_level P a b c d e warn = d
each_level P a b c d e error = e

abbrev Same : LogLevel → LogLevel → Type 0
Same min_level level = at_least level min_level ≡ passes min_level level

passes-at_least : (min_level level : LogLevel) → Same min_level level
passes-at_least =
    each_level (λ min_level. (level : LogLevel) → Same min_level level)
      (each_level (Same trace) refl refl refl refl refl)
      (each_level (Same debug) refl refl refl refl refl)
      (each_level (Same info) refl refl refl refl refl)
      (each_level (Same warn) refl refl refl refl refl)
      (each_level (Same error) refl refl refl refl refl)

-- Each argument behind a blank.
abbrev pub spaced : List String → String
spaced [] = ""
spaced (arg ∷ args) = append " " (append arg (spaced args))

joined-spaced : (text : String) (args : List String) → joined text args ≡ append text (spaced args)
unfolding joined
joined-spaced text [] = sym (text_append-nil text)
joined-spaced text (arg ∷ args) =
    joined-spaced (append text (append " " arg)) args
    ∙ (text_append_assoc text (append " " arg) (spaced args)
        ∙ ap (append text) (text_append_assoc " " arg (spaced args)))

-- The level of a call, and the line that it is about.
abbrev pub level_of : Method → LogLevel
level_of (says level message) = level
level_of (formats level format args) = level

abbrev pub line_of : Now → Method → String
line_of now (says level message) = append (prefix now level) message
line_of now (formats level format args) =
    append (prefix now level) (append (append "[DEMON] " format) (spaced args))

-- The lines of the calls that pass the level that was set last.
pub passing : LogLevel → List Call → List String
passing min_level [] = []
passing min_level (sets level ∷ more) = passing level more
passing min_level (calls now method ∷ more) =
    let rest = passing min_level more in
    if passes min_level (level_of method) then line_of now method ∷ rest else rest

-- One call writes its line, or nothing.
call_lem :
    (now : Now) (method : Method) (l : Logger)
    → call now method l ≡ (
        if passes l.min_level (level_of method)
        then record l { output = l.output ++ line_of now method ∷ [] }
        else l)
unfolding call log log_format write
call_lem now (says level message) l =
    rw (passes-at_least l.min_level level, format_prefix-prefix now level) refl
call_lem now (formats level format args) l =
    rw (passes-at_least l.min_level level) (elim (Bool-cases (passes l.min_level level)) [
      | inl written ↦ rw (written, joined-spaced, format_prefix-prefix now level) refl
      | inr dropped ↦ rw dropped refl
    ])

-- After any sequence of changes of the level and calls of the methods of the logger, it has
-- written the lines of just the calls whose level was the least level of their time or one above
-- it, in order, behind what it had written before. A line is the time, three digits of
-- milliseconds, the name of the level, and the message, or `[DEMON]` and the format with the
-- arguments behind it, a blank before each.
pub run-passing :
    (more : List Call) (l : Logger) → (run more l).output ≡ l.output ++ passing l.min_level more
unfolding run passing set_min_level
run-passing [] l = sym (append-nil l.output)
run-passing (sets level ∷ more) l = run-passing more (record l { min_level = level })
run-passing (calls now method ∷ more) l = elim (Bool-cases (passes l.min_level (level_of method))) [
  | inl written ↦
      rw (run, call_lem now method l, written)
        (run-passing more (record l { output = l.output ++ line_of now method ∷ [] })
          ∙ append_assoc l.output (line_of now method ∷ []) (passing l.min_level more))
  | inr dropped ↦ rw (run, call_lem now method l, dropped) (run-passing more l)
]
