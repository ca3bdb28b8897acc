-- ===== src/Commands/Registry.antt =====
-- `ICommand`, `CommandResult` and `CommandRegistry`. A command acts on the state `M` of the daemon.
use test_ai_agent.Prelude.{
  ℕ, String, Bool, true, false, List, map, Option, none, some, text_key, ◌≡◌, arith, if◌then◌else◌,
  str_eq,
}
use test_ai_agent.Prelude.Int.{ℤ, pos}
use test_ai_agent.Prelude.Exec.{Exec, returns, throws}
use test_ai_agent.Prelude.Maps.{Map, lookup, insert, lookup-insert}

pub record CommandResult (Json : Type 0) : Type 0 where
  pub success : Bool
  pub error_code : ℤ
  pub message : String
  pub payload : Json  -- `data`

abbrev pub ok : {Json : Type 0} → Json → CommandResult Json
ok result_data = record {
  success = true;
  error_code = pos 0;
  message = "OK";
  payload = result_data;
}

-- The second argument is `Json::object()`.
abbrev pub err : {Json : Type 0} → Json → ℤ → String → CommandResult Json
err object code msg = record { success = false; error_code = code; message = msg; payload = object }

-- Whether the context has a task manager, which is then the one of the state.
pub record CommandContext : Type 0 where
  pub client_id : String
  pub has_task_manager : Bool

-- What the clocks show during a call: `std::time` and `steady_clock`.
pub record Moment : Type 0 where
  pub wall : ℤ
  pub ticks : ℕ

pub record Command (Json M : Type 0) : Type 0 where
  pub name : String
  pub description : String
  pub execute : CommandContext → Moment → Json → M → M × Exec (CommandResult Json)

abbrev pub CommandRegistry : Type 0 → Type 0 → Type 0
CommandRegistry Json M = Map String (Command Json M)

module _ {Json M : Type 0} where
  -- A command of the same name is replaced; a null pointer is refused.
  unfoldable pub register_command :
      Option (Command Json M) → CommandRegistry Json M → Exec (CommandRegistry Json M)
  register_command none r = throws "Cannot register null command"
  register_command (some cmd) r = returns (insert cmd.name cmd r)

  unfoldable pub get_command : String → CommandRegistry Json M → Option (Command Json M)
  get_command name r = lookup name r

  unfoldable pub list_commands : CommandRegistry Json M → List String
  list_commands r = map (λ (e : String × Command Json M). e.0) r

  -- If a command was registered, its name leads to it, and any other name leads where it led
  -- before.
  pub get_command-register_command :
      (cmd : Command Json M) (r r' : CommandRegistry Json M) (name : String)
      → register_command (some cmd) r ≡ returns r'
      → get_command name r' ≡ (if str_eq cmd.name name then some cmd else get_command name r)
  unfolding register_command get_command
  get_command-register_command cmd r r' name e = ground (arith, lookup-insert cmd.name name cmd r)
