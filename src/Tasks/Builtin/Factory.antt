-- ===== src/Tasks/Builtin/Factory.antt =====
-- `TaskFactory` of src/tasks/builtin/task_factory.cpp, and the creators that it starts with.
use Prim.Native.String.{◌++◌ as append}
use test_ai_agent.Prelude.{
  ℕ, ◌+◌, ◌*◌, ◌%◌, ◌^◌, String, Bool, true, false, List, [], map, Option, none, some, is_some,
  text_key, if◌then◌else◌, str_eq, ◌≡◌, arith,
}
use test_ai_agent.Prelude.Int.{ℤ, pos, negsuc}
use test_ai_agent.Prelude.Decimal.{to_string}
use test_ai_agent.Prelude.Outcome.{Outcome, returns, ◌>>=◌}
use test_ai_agent.Prelude.Maps.{Map, lookup, insert}
use test_ai_agent.Json.{JsonLib}
use test_ai_agent.Tasks.Builtin.Worker.{BuiltinTask, new_task}

-- A task of either class, with the interval or the duration of its loop in milliseconds.
pub data Made : Type 0 where
  heartbeat_task : BuiltinTask → ℤ → Made
  sleep_task : BuiltinTask → ℤ → Made

-- The counters of `generate_id`, one for each class.
pub record Counters : Type 0 where
  pub heartbeats : ℕ
  pub sleeps : ℕ

-- A creator may throw; the counters are static.
abbrev pub Creator : Type 0 → Type 0
Creator Json = Json → Counters → Outcome (Option Made × Counters)

abbrev pub TaskFactory : Type 0 → Type 0
TaskFactory Json = Map String (Creator Json)

module _ {Json : Type 0} where
  unfoldable pub register_task : String → Creator Json → TaskFactory Json → TaskFactory Json × Bool
  register_task type_name creator f =
      if is_some (lookup type_name f) then (f, false) else (insert type_name creator f, true)

  unfoldable pub create_task :
      String → Json → TaskFactory Json → Counters → Outcome (Option Made × Counters)
  create_task type_name params f counters = elim (lookup type_name f) [
    | none ↦ returns (none, counters)
    | some creator ↦ creator params counters
  ]

  unfoldable pub get_registered_types : TaskFactory Json → List String
  get_registered_types f = map (λ (e : String × Creator Json). e.0) f

-- `fetch_add(1)` of a 64-bit counter.
abbrev pub next_count : ℕ → ℕ
next_count n = (n + 1) % 2 ^ 64

unfoldable pub new_heartbeat : ℤ → Counters → Made × Counters
new_heartbeat interval_ms c = (
  heartbeat_task (new_task (append "heartbeat_" (to_string c.heartbeats))) interval_ms,
  record c { heartbeats = next_count c.heartbeats },
)

unfoldable pub new_sleep : ℤ → Counters → Made × Counters
new_sleep duration_ms c = (
  sleep_task (new_task (append "sleep_" (to_string c.sleeps))) duration_ms,
  record c { sleeps = next_count c.sleeps },
)

-- `std::chrono::seconds(n)`, as milliseconds.
abbrev pub seconds : ℤ → ℤ
seconds (pos n) = pos (n * 1000)
seconds (negsuc n) = negsuc (n * 1000 + 999)

module _ {Json : Type 0} (J : JsonLib Json) where
  open J use {member, as_int}

  -- A number of seconds that the parameters may give.
  abbrev pub seconds_param : Json → String → ℤ → Outcome ℤ
  seconds_param params key default = elim (member params key) [
    | none ↦ returns default
    | some v ↦ as_int v
  ]

  unfoldable pub create_heartbeat : Creator Json
  create_heartbeat params counters = do
    interval_sec ← seconds_param params "interval" (pos 5)
    let (task, counted) = new_heartbeat (seconds interval_sec) counters
    returns (some task, counted)

  unfoldable pub create_sleep : Creator Json
  create_sleep params counters = do
    duration_sec ← seconds_param params "duration" (pos 10)
    let (task, counted) = new_sleep (seconds duration_sec) counters
    returns (some task, counted)

  -- What the static registrar leaves.
  unfoldable pub builtin_factory : TaskFactory Json
  builtin_factory =
      let (f, first) = register_task "heartbeat" create_heartbeat [] in
      let (g, second) = register_task "sleep" create_sleep f in g

  -- The factory that the static registrar fills creates a heartbeat and a sleep under their names,
  -- each by its own creator, and no task under any other name.
  pub builtin_factory_creates :
      (type : String) (params : Json) (c : Counters)
      → create_task type params builtin_factory c ≡ (
          if str_eq "heartbeat" type
          then create_heartbeat params c
          else if str_eq "sleep" type
          then create_sleep params c
          else returns (none, c))
  unfolding builtin_factory create_task register_task lookup insert
  builtin_factory_creates type params c = ground arith
