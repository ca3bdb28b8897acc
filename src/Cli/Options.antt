-- ===== src/Cli/Options.antt =====
-- `parseOptions` of src/cli/main.cpp. `getopt_long`, with the table of the options, is an argument:
-- the options that it finds, and the arguments that are left behind them.
use Prim.Native.String.{◌++◌ as append}
use test_ai_agent.Prelude.{
  String, Bool, true, false, not, List, [], ◌∷◌, Option, none, some, str_eq, if◌then◌else◌,
}
use test_ai_agent.Prelude.Int.{ℤ, pos}
use test_ai_agent.Cli.Strtol.{atoi}

pub record CliOptions (Json : Type 0) : Type 0 where
  pub socket_path : String
  pub timeout_ms : ℤ
  pub raw_json : Bool
  pub help : Bool
  pub command : String
  pub args : List String
  pub params : Json

-- The environment: `DEMO_DAEMON_SOCKET` and `XDG_RUNTIME_DIR`.
pub record Environment : Type 0 where
  pub demo_daemon_socket : Option String
  pub xdg_runtime_dir : Option String

abbrev is_set : Option String → Bool
is_set none = false
is_set (some s) = not (str_eq s "")

abbrev text : Option String → String
text none = ""
text (some s) = s

unfoldable pub get_default_socket_path : Environment → String
get_default_socket_path env =
    if is_set env.demo_daemon_socket
    then text env.demo_daemon_socket
    else if is_set env.xdg_runtime_dir
    then append (text env.xdg_runtime_dir) "/demo_daemon.sock"
    else "/run/demo_daemon/demo_daemon.sock"

-- What a call of `getopt_long` returns: `'s'` and `'t'` come with `optarg`, and `other` is the
-- question mark of an option that is not in the table, or has no argument.
pub data Opt : Type 0 where
  socket_path_opt : String → Opt
  timeout_opt : String → Opt
  raw_json_opt : Opt
  help_opt : Opt
  other_opt : Opt

module _ {Json : Type 0} where
  unfoldable pub apply_option : Opt → CliOptions Json → CliOptions Json
  apply_option (socket_path_opt optarg) opts = record opts { socket_path = optarg }
  apply_option (timeout_opt optarg) opts = record opts { timeout_ms = atoi optarg }
  apply_option raw_json_opt opts = record opts { raw_json = true }
  apply_option help_opt opts = record opts { help = true }
  apply_option other_opt opts = opts

  -- The loop over the options.
  unfoldable pub apply_options : List Opt → CliOptions Json → CliOptions Json
  unfolding apply_option
  apply_options [] opts = opts
  apply_options (o ∷ os) opts = apply_options os (apply_option o opts)

  -- The arguments from `optind` on.
  unfoldable pub take_operands : List String → CliOptions Json → CliOptions Json
  take_operands [] opts = opts
  take_operands (command ∷ args) opts = record opts { command = command; args = args }

  -- `null` is the JSON value of `params`, which nothing here sets.
  unfoldable pub parse_options : Json → Environment → List Opt → List String → CliOptions Json
  unfolding apply_options take_operands get_default_socket_path
  parse_options null env options operands = take_operands operands (
      apply_options options (record {
        socket_path = get_default_socket_path env;
        timeout_ms = pos 5000;
        raw_json = false;
        help = false;
        command = "";
        args = [];
        params = null;
      }))
