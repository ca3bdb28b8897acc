-- ===== src/Examples/Tasks.antt =====
-- Examples for the tasks, the commands and the signals.
use Prim.Native.String.{◌++◌ as append}
use test_ai_agent.Prelude.{
  Bool, ◌*◌, ◌≤◌, ◌==◌, not, ℕ, zero, suc, ◌+◌, ◌<◌, ◌≤◌, true, false, ◌||◌, List, [], ◌∷◌, none,
  some, ◌≡◌, ◌≢◌, refl, arith, ◌∙◌, sym, ap, text_key,
}
use test_ai_agent.Prelude.Decimal.{to_string_zero}
use test_ai_agent.Prelude.Int.{pos}
use test_ai_agent.Prelude.Exec.{returns, crashes}
use test_ai_agent.Prelude.Maps.{lookup, insert}
use test_ai_agent.Json.Sample.{Value, nul, text, obj, end, field}
use test_ai_agent.Ipc.Protocol.Request.{RequestMessage}
use test_ai_agent.Core.Signals.Handler.{new_handler, sighup, sigint}
use test_ai_agent.Core.Signals.Loop.{Round, asked, main_loop, main_loop-asked}
use test_ai_agent.Tasks.State.{stopping, ITask}
use test_ai_agent.Tasks.Registry.{TaskFactory, TaskRegistry, create_task}
use test_ai_agent.Tasks.Builtin.Worker.{
  BuiltinTask, new_task, start, request_stop, finish, Steps, starts, done, more, request_stop_idle,
}
use test_ai_agent.Tasks.Builtin.Loops.{
  before, sleep_duration, Sleeps, sleep_loop, Ended, sleep_loop_ends,
}
use test_ai_agent.Tasks.Manager.Waiting
use test_ai_agent.Tasks.Manager.Waiting.{wait_all, wait_all_ends}
use test_ai_agent.Tasks.Manager.Defs.{TaskManager, task_id, insert_task, add_task}
use test_ai_agent.Tasks.Manager.Calls.{is_active}
use test_ai_agent.Tasks.Manager.Null.{Unusable, add_task-Unusable}
use test_ai_agent.Tasks.Manager.Ids.{Numbered, add_task_accepts}
use test_ai_agent.Commands.Registry.{Moment, CommandRegistry, register_command}
use test_ai_agent.Commands.Builtin.{object_of}
use test_ai_agent.Commands.Main.{ping_command, builtin_commands, register_all}
use test_ai_agent.Commands.Handler.{Answered, command_handler, command_handler-Answered}
use test_ai_agent.Commands.Crash.{IsMain, asks_status, tasks_add_crashes}
use test_ai_agent.Examples.Data.{lib}

-- A `SIGHUP`, and then a `SIGINT` while the loop handles it.
abbrev rounds : List Round
rounds = record { early = sighup ∷ []; late = sigint ∷ [] } ∷ record { early = []; late = [] } ∷ []

main_loop-asked_example :
    (main_loop rounds new_handler).1 ≡ (asked rounds || new_handler.shutdown_requested)
main_loop-asked_example = main_loop-asked rounds new_handler (λ e. cc e)

abbrev pub ops : ITask BuiltinTask
ops = record {
  id = λ t. t.id;
  type = λ t. "heartbeat";
  description = λ t. "";
  state = λ t. t.state;
  last_error = λ t. t.last_error;
  start = λ t. let (t', started) = start none t in (t', returns started);
  request_stop = request_stop;
  wait_stopped = λ t. (finish t, returns true);
}

abbrev make : TaskFactory BuiltinTask Value
make id params = returns (some (new_task id))

abbrev pub task_registry : TaskRegistry BuiltinTask Value
task_registry = ("heartbeat", make) ∷ []

abbrev pub manager : TaskManager BuiltinTask Value
manager = record {
  registry = task_registry;
  tasks = [];
  next_task_id = 0;
  shutdown_requested = false;
}

made : create_task "heartbeat" (task_id 0) nul task_registry ≡ returns (some (new_task (task_id 0)))
unfolding create_task lookup
made = refl

manager-Numbered : Numbered manager
unfolding lookup
manager-Numbered id e found = cc found

pub id_there : task_id 0 ≢ ""
unfolding task_id
id_there e = cc (sym (ap (append "task_") to_string_zero) ∙ e)

no_id : "" ≢ task_id 0
no_id e = id_there (sym e)

add_task_accepts_example :
    ((add_task "heartbeat" nul 5 manager).1 ≡ returns (task_id 0))
    × (lookup (task_id 0) manager.tasks ≡ none)
    × (lookup "" (add_task "heartbeat" nul 5 manager).0.tasks ≡ lookup "" manager.tasks)
add_task_accepts_example =
    add_task_accepts "heartbeat" nul 5 (new_task (task_id 0)) manager "" (omega arith)
      manager-Numbered refl made no_id

added : (params : Value) → (add_task "heartbeat" params 5 manager).1 ≡ returns (task_id 0)
unfolding add_task insert_task create_task lookup
added params = refl

add_task-Unusable_example : Unusable ops (task_id 0) (add_task "heartbeat" nul 5 manager).0
add_task-Unusable_example =
    add_task-Unusable ops "heartbeat" (task_id 0) nul 5 manager (added nul) id_there

abbrev pub clocks : Moment
clocks = record { wall = pos 1000; ticks = 5 }

abbrev add_params : Value
add_params = obj (field "type" (text "heartbeat") end)

abbrev add_request : RequestMessage Value
add_request = record { id = some (pos 1); method = "tasks.add"; params = add_params }

abbrev status_request : RequestMessage Value
status_request = record { id = some (pos 2); method = "status"; params = obj end }

-- The registry that `main` makes.
unfoldable pub startup :
    (r : CommandRegistry Value (TaskManager BuiltinTask Value)) × (register_all
        (builtin_commands lib ops)
        []
      ≡ returns r)
unfolding register_command insert
startup = (_, refl)

pub startup-IsMain : IsMain lib ops startup.0
startup-IsMain = record { filled = startup.1 }

tasks_add_crashes_example :
    let (m', answered) = command_handler lib startup.0 clocks add_request manager in
    (answered
      ≡ returns (record {
        id = some (pos 1);
        result = object_of lib (
            ("id", text (task_id 0))
            ∷ ("type", text "heartbeat")
            ∷ ("status", text "started")
            ∷ []);
      }))
    × ((command_handler lib startup.0 clocks status_request m').1 ≡ crashes)
tasks_add_crashes_example =
    tasks_add_crashes lib ops startup.0 clocks clocks add_request status_request (text "heartbeat")
      "heartbeat" (task_id 0) manager startup-IsMain refl refl refl (added add_params) id_there
      (asks_status refl)

command_handler-Answered_example :
    Answered status_request (command_handler lib startup.0 clocks status_request manager).1
command_handler-Answered_example =
    command_handler-Answered lib startup.0 clocks status_request manager

pinging :
    register_command {M = ℕ} (some (ping_command lib)) []
    ≡ returns (("ping", ping_command lib) ∷ [])
unfolding register_command insert
pinging = refl

-- A request to stop a task before its thread has started it.
abbrev asked_early : BuiltinTask
asked_early = record (new_task "heartbeat_0") {
  state = stopping;
  last_error = "Task already started";
}

early-Steps : Steps (request_stop (new_task "heartbeat_0")) asked_early
unfolding request_stop start
early-Steps = more _ asked_early _ (starts none _) (done asked_early)

request_stop_idle_example : (asked_early.state ≡ stopping) × (is_active asked_early.state ≡ true)
request_stop_idle_example = request_stop_idle (new_task "heartbeat_0") asked_early refl early-Steps

-- A clock that shows 130 milliseconds more after each sleep.
abbrev slow : ℕ → ℕ
slow zero = 130
slow (suc i) = slow i + 130

slow-Sleeps : Sleeps 250 slow
unfolding sleep_duration
slow-Sleeps = record { slept = slept }
  where
    slept :
        (i : ℕ) → before slow i < 250 → before slow i + sleep_duration 250 (before slow i) ≤ slow i
    slept zero lt = omega arith
    slept (suc i) lt = omega arith

sleep_loop_ends_example : Ended 250 (λ i. false) (sleep_loop 250 slow (λ i. false) 251 0 0)
sleep_loop_ends_example = sleep_loop_ends 250 slow (λ i. false) slow-Sleeps

-- The first thread is seen at an end at the fourth look, the third one never, and the second one has
-- ended before.
abbrev seen_running : ℕ → Bool
seen_running k = not (k == 3)

abbrev steady : ℕ → ℕ
steady k = 7 + 50 * k

steady-Sleeps : Waiting.Sleeps 10007 seen_running steady
steady-Sleeps = record { goes_on = λ k. omega arith; slept = λ k runs early. omega arith }

wait_all_ends_example :
    (k : ℕ) × (wait_all 10007 seen_running steady 201 (true ∷ false ∷ true ∷ []) 0 0 ≡ some (k, 3))
    × (k + 3 ≤ 206)
wait_all_ends_example =
    wait_all_ends 10007 seen_running steady (true ∷ false ∷ true ∷ []) steady-Sleeps (omega arith)
