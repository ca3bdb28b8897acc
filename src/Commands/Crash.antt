-- ===== src/Commands/Crash.antt =====
-- What a task that was added does to the requests that follow.
use test_ai_agent.Prelude.{
  String, true, false, [], ◌∷◌, some, ◌≡◌, ◌≢◌, refl, arith, ap, ◌∙◌, sym, str_eq, eq_iff, text_key,
}
use test_ai_agent.Prelude.Outcome
use test_ai_agent.Prelude.Exec.{Exec, returns, throws, crashes, returns-injective}
use test_ai_agent.Prelude.Maps.{lookup, insert}
use test_ai_agent.Json.{JsonLib}
use test_ai_agent.Ipc.Protocol.Request.{RequestMessage}
use test_ai_agent.Ipc.Protocol.Response.{ResponseMessage}
use test_ai_agent.Tasks.State.{ITask}
use test_ai_agent.Tasks.Manager.Defs.{TaskManager, add_task}
use test_ai_agent.Tasks.Manager.Null.{Unusable, add_task-Unusable}
use test_ai_agent.Commands.Registry.{
  ok, CommandContext, Moment, Command, CommandRegistry, get_command, register_command,
}
use test_ai_agent.Commands.Builtin.{
  object_of, execute_tasks_add, execute_status, execute_tasks_list, execute_tasks_stop, after,
}
use test_ai_agent.Commands.Main.{
  builtin_commands, register_all, status_command, tasks_list_command, tasks_add_command,
  tasks_stop_command,
}
use test_ai_agent.Commands.Handler.{
  command_handler, command_handler_found, respond, respond-crashes, answer,
}

module _ {Json T : Type 0} (J : JsonLib Json) (ops : ITask T) where
  open J use {of_string, member, as_string}

  -- The registry that `main` fills.
  pub record IsMain (registry : CommandRegistry Json (TaskManager T Json)) : Type 0 where
    pub filled : register_all (builtin_commands J ops) [] ≡ returns registry

  -- A request of one of the commands that read the tasks.
  pub data ReadsTasks (id : String) (request : RequestMessage Json) : Type 0 where
    asks_status : request.method ≡ "status" → ReadsTasks id request
    asks_list : request.method ≡ "tasks.list" → ReadsTasks id request
    asks_stop :
        (value : Json)
        → request.method ≡ "tasks.stop"
        → member request.params "id" ≡ some value
        → as_string value ≡ Outcome.returns id
        → ReadsTasks id request

  after-crashes :
      {A B : Type 0} (p : TaskManager T Json × Exec A)
      (next : A → TaskManager T Json → TaskManager T Json × Exec B)
      → p.1 ≡ crashes
      → (after p next).1 ≡ crashes
  after-crashes (m, returns a) next e = cc e
  after-crashes (m, throws what) next e = cc e
  after-crashes (m, crashes) next e = refl

  after-returns :
      {A B : Type 0} (p : TaskManager T Json × Exec A) (a : A)
      (next : A → TaskManager T Json → TaskManager T Json × Exec B)
      → p.1 ≡ returns a
      → after p next ≡ next a p.0
  after-returns (m, returns b) a next e = ap (λ c. next c m) (returns-injective e)
  after-returns (m, throws what) a next e = cc e
  after-returns (m, crashes) a next e = cc e

  pub main_commands :
      (registry : CommandRegistry Json (TaskManager T Json))
      → IsMain registry
      → (get_command "status" registry ≡ some (status_command J ops))
        × (get_command "tasks.list" registry ≡ some (tasks_list_command J ops))
        × (get_command "tasks.add" registry ≡ some (tasks_add_command J ops))
        × (get_command "tasks.stop" registry ≡ some (tasks_stop_command J ops))
  unfolding register_command get_command insert lookup
  main_commands registry main =
      let e = returns-injective main.filled in
      (
        sym (ap (get_command "status") e),
        sym (ap (get_command "tasks.list") e),
        sym (ap (get_command "tasks.add") e),
        sym (ap (get_command "tasks.stop") e),
      )

  -- The command of a method is executed, and crashes.
  crashed :
      (registry : CommandRegistry Json (TaskManager T Json)) (clocks : Moment)
      (request : RequestMessage Json) (m : TaskManager T Json) (name : String)
      (cmd : Command Json (TaskManager T Json))
      → request.method ≡ name
      → get_command name registry ≡ some cmd
      → (cmd.execute (record { client_id = ""; has_task_manager = true }) clocks request.params m).1
        ≡ crashes
      → (command_handler J registry clocks request m).1 ≡ crashes
  crashed registry clocks request m name cmd e found crash =
      ap (λ (x : TaskManager T Json × Exec (ResponseMessage Json)). x.1)
        (command_handler_found J registry clocks request m cmd
          (ap (λ n. get_command n registry) e ∙ found))
      ∙ respond-crashes J request _ crash

  request_crashes :
      (registry : CommandRegistry Json (TaskManager T Json)) (clocks : Moment) (id : String)
      (request : RequestMessage Json) (m : TaskManager T Json)
      → IsMain registry
      → Unusable ops id m
      → ReadsTasks id request
      → (command_handler J registry clocks request m).1 ≡ crashes
  unfolding execute_status execute_tasks_list execute_tasks_stop
  request_crashes registry clocks id request m main u (asks_status e) =
      let (status, _, _, _) = main_commands registry main in
      crashed registry clocks request m "status" _ e status (rw u.4 refl)
  request_crashes registry clocks id request m main u (asks_list e) =
      let (_, listing, _, _) = main_commands registry main in
      crashed registry clocks request m "tasks.list" _ e listing (rw u.3 refl)
  request_crashes registry clocks id request m main u (asks_stop value e p s) =
      let (_, _, _, stop) = main_commands registry main in
      crashed registry clocks request m "tasks.stop" _ e stop
        (rw (execute_tasks_stop, p, s) (after-crashes _ _ u.1))

  added :
      (context : CommandContext) (clocks : Moment) (params value : Json) (type id : String)
      (m : TaskManager T Json)
      → member params "type" ≡ some value
      → as_string value ≡ Outcome.returns type
      → (add_task type params clocks.ticks m).1 ≡ returns id
      → id ≢ ""
      → execute_tasks_add J ops context clocks params m ≡ (
        (add_task type params clocks.ticks m).0,
        returns (
            ok (
              object_of J (
                ("id", of_string id)
                ∷ ("type", of_string type)
                ∷ ("status", of_string "started")
                ∷ []))),
      )
  unfolding execute_tasks_add
  added context clocks params value type id m typed text made ne =
      let named : str_eq id "" ≡ false = ground (arith, eq_iff id "") in
      rw (execute_tasks_add, typed, text)
        (after-returns (add_task type params clocks.ticks m) id _ made ∙ rw named refl)

  -- In the registry that `main` fills, if `tasks.add` is asked for a type that `add_task` gives an
  -- id for, it answers that the task was started, and the next `status`, `tasks.list`, or
  -- `tasks.stop` of that id crashes the daemon.
  pub tasks_add_crashes :
      (registry : CommandRegistry Json (TaskManager T Json)) (clocks later : Moment)
      (add request : RequestMessage Json) (value : Json) (type id : String) (m : TaskManager T Json)
      → IsMain registry
      → add.method ≡ "tasks.add"
      → member add.params "type" ≡ some value
      → as_string value ≡ Outcome.returns type
      → (add_task type add.params clocks.ticks m).1 ≡ returns id
      → id ≢ ""
      → ReadsTasks id request
      → let (m', answered) = command_handler J registry clocks add m in
        (answered
          ≡ returns (record {
            id = add.id;
            result = object_of J (
                ("id", of_string id)
                ∷ ("type", of_string type)
                ∷ ("status", of_string "started")
                ∷ []);
          }))
        × ((command_handler J registry later request m').1 ≡ crashes)
  unfolding respond answer
  tasks_add_crashes registry clocks later add request value type id m main e typed text made ne
        reads =
      let (_, _, adding, _) = main_commands registry main in
      let context : CommandContext = record { client_id = ""; has_task_manager = true } in
      let done = added context clocks add.params value type id m typed text made ne in
      let answered =
        command_handler_found J registry clocks add m _
          (ap (λ n. get_command n registry) e ∙ adding)
        ∙ ap (respond J add) done in
      (
        ap (λ (x : TaskManager T Json × Exec (ResponseMessage Json)). x.1) answered,
        ap
              (λ (x : TaskManager T Json × Exec (ResponseMessage Json)).
                (command_handler J registry later request x.0).1)
              answered
            ∙ request_crashes registry later id request _ main
                (add_task-Unusable ops type id add.params clocks.ticks m made ne) reads,
      )
