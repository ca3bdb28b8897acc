-- ===== src/Cli/TaskArgs.antt =====
-- `parseTaskArgs` of src/cli/main.cpp.
use Prim.Native.Char.{code}
use Prim.Native.String.{[] as empty, ◌∷◌ as put_char}
use test_ai_agent.Prelude.{
  String, List, [], ◌∷◌, Option, none, some, str_eq, ◌==◌, if◌then◌else◌, option_map,
}
use test_ai_agent.Prelude.Outcome.{Outcome}
use test_ai_agent.Prelude.Exec.{Exec, returns, crashes, ◌>>=◌}
use test_ai_agent.Json.{JsonLib}
use test_ai_agent.Commands.Builtin.{lift}
use test_ai_agent.Cli.Strtol.{stoi}

-- `find('=')`, with the two calls of `substr`: what is before the first sign, and what is after it.
unfoldable pub split_equals : String → Option (String × String)
split_equals empty = none
split_equals (put_char c s) =
    let rest = option_map (λ (p : String × String). (put_char c p.0, p.1)) (split_equals s) in
    if code c == b'=' then some ("", s) else rest

module _ {Json : Type 0} (J : JsonLib Json) where
  open J use {object, of_string, of_int, put}

  -- `params[key] = std::stoi(value)`, and the text where that throws.
  unfoldable pub put_number_or_text : String → String → Json → Json
  put_number_or_text key value params = elim (stoi value) [
    | Outcome.returns n ↦ put params key (of_int n)
    | Outcome.throws what ↦ put params key (of_string value)
  ]

  -- The last branch: an assignment, or an argument that is passed over.
  unfoldable pub put_assignment : String → Json → Json
  unfolding split_equals put_number_or_text
  put_assignment arg params = elim (split_equals arg) [
    | none ↦ params
    | some (key, value) ↦ put_number_or_text key value params
  ]

  -- The loop. An option that is the last argument is tested for an assignment; `--type` then reads
  -- past the end of the vector.
  unfoldable pub task_args_loop : List String → Json → Exec Json
  unfolding put_assignment
  task_args_loop [] params = returns params
  task_args_loop (arg ∷ []) params =
      if str_eq arg "--type" then crashes else returns (put_assignment arg params)
  task_args_loop (arg ∷ next ∷ more) params =
      let interval =
        lift (stoi next) >>= λ n. task_args_loop more (put params "interval" (of_int n)) in
      let duration =
        lift (stoi next) >>= λ n. task_args_loop more (put params "duration" (of_int n)) in
      let type = task_args_loop more (put params "type" (of_string next)) in
      let rest = task_args_loop (next ∷ more) (put_assignment arg params) in
      if str_eq arg "--interval"
      then interval
      else if str_eq arg "--duration"
      then duration
      else if str_eq arg "--type"
      then type
      else rest

  unfoldable pub parse_task_args : List String → Exec Json
  unfolding task_args_loop
  parse_task_args args = task_args_loop args object
