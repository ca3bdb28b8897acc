-- ===== src/Cli/Plain.antt =====
-- The shape of the answers of the commands that list and add: src/commands, as src/daemon/main.cpp
-- answers with them.
use test_ai_agent.Prelude.{
  String, true, false, List, none, ◌≡◌, refl, ◌∙◌, str_eq, inl, inr, Option-cases, Bool-cases,
  text_key,
}
use test_ai_agent.Prelude.Int.{ℤ}
use test_ai_agent.Prelude.Exec.{Exec, returns, throws, crashes, ◌>>=◌}
use test_ai_agent.Json.{JsonLib, JsonLaws}
use test_ai_agent.Ipc.Protocol.Request.{RequestMessage}
use test_ai_agent.Ipc.Protocol.Response.{ResponseMessage}
use test_ai_agent.Tasks.State.{ITask}
use test_ai_agent.Tasks.Manager.Defs.{TaskManager, add_task}
use test_ai_agent.Tasks.Manager.Calls.{TaskInfo, list_tasks}
use test_ai_agent.Commands.Registry.{CommandResult, CommandContext, Moment}
use test_ai_agent.Commands.Builtin.{
  after, add_result, tasks_result, lift, execute_tasks_add, execute_tasks_list,
  execute_commands_list,
}
use test_ai_agent.Commands.Handler.{respond, answer, error_answer}

module _ {Json : Type 0} (J : JsonLib Json) where
  open J use {is_object, elements, member, object, of_string, of_int, put, as_string}

  -- An object that is no array and has no `task_id`.
  pub record IsPlain (j : Json) : Type 0 where
    pub plain : is_object j ≡ true
    pub no_task_id : member j "task_id" ≡ none

  module _ (L : JsonLaws J) where
    put-IsPlain :
        (j : Json) (k : String) (v : Json)
        → IsPlain j
        → str_eq k "task_id" ≡ false
        → IsPlain (put j k v)
    put-IsPlain j k v h other = record {
      plain = L.put_is_object j k v h.plain;
      no_task_id = L.member_put j k v "task_id" h.plain ∙ rw other h.no_task_id;
    }

    object-IsPlain : IsPlain object
    object-IsPlain = record { plain = L.object_is_object; no_task_id = L.member_object "task_id" }

    abbrev pub PlainResult : Exec (CommandResult Json) → Type 0
    PlainResult (returns r) = r.success ≡ true → IsPlain r.payload
    PlainResult _ = Unit

    abbrev pub PlainResponse : Exec (ResponseMessage Json) → Type 0
    PlainResponse (returns response) = IsPlain response.result
    PlainResponse _ = Unit

    error_answer-IsPlain :
        (request : RequestMessage Json) (code : ℤ) (message : String)
        → IsPlain (error_answer J request code message).result
    unfolding error_answer
    error_answer-IsPlain request code message =
        put-IsPlain _ "message" _ (put-IsPlain _ "code" _ object-IsPlain refl) refl

    pub respond-PlainResponse :
        {M : Type 0} (request : RequestMessage Json) (p : M × Exec (CommandResult Json))
        → PlainResult p.1
        → PlainResponse (respond J request p).1
    unfolding respond answer
    respond-PlainResponse request (n, returns r) h = elim (Bool-cases r.success) [
      | inl good ↦ rw good (h good)
      | inr bad ↦ rw bad (error_answer-IsPlain request r.error_code r.message)
    ]
    respond-PlainResponse request (n, throws what) h = error_answer-IsPlain request _ _
    respond-PlainResponse request (n, crashes) h = tt

    after-PlainResult :
        {M A : Type 0} (p : M × Exec A) (next : A → M → M × Exec (CommandResult Json))
        → ((a : A) (m : M) → PlainResult (next a m).1)
        → PlainResult (after p next).1
    after-PlainResult (m, returns a) next h = h a m
    after-PlainResult (m, throws what) next h = tt
    after-PlainResult (m, crashes) next h = tt

    add_result-IsPlain :
        (type id : String)
        → (add_result J type id).success ≡ true
        → IsPlain (add_result J type id).payload
    add_result-IsPlain type id h = elim (Bool-cases (str_eq id "")) [
      | inl empty ↦ cc (h, empty)
      | inr named ↦ rw named (
          put-IsPlain _ "status" _
            (put-IsPlain _ "type" _ (put-IsPlain _ "id" _ object-IsPlain refl) refl) refl)
    ]

    module _ {T : Type 0} (ops : ITask T) (context : CommandContext) (clocks : Moment)
        (params : Json) (m : TaskManager T Json) where
      pub tasks_add-PlainResult : PlainResult (execute_tasks_add J ops context clocks params m).1
      unfolding execute_tasks_add
      tasks_add-PlainResult =
          let result : String
              → String
              → TaskManager T Json
              → TaskManager T Json × Exec (CommandResult Json) =
            λ type id m₂. (m₂, returns (add_result J type id)) in
          elim (Option-cases (member params "type")) [
            | inl absent ↦ rw (absent, execute_tasks_add) (λ e. cc e)
            | inr (value, given) ↦
                rw (given, execute_tasks_add)
                  (after-PlainResult (m, lift (as_string value))
                    (λ type m₁. after (add_task type params clocks.ticks m₁) (result type))
                    (λ type m₁.
                      after-PlainResult (add_task type params clocks.ticks m₁) (result type)
                        (λ id m₂. add_result-IsPlain type id)))
          ]

      pub tasks_list-PlainResult : PlainResult (execute_tasks_list J ops context clocks params m).1
      unfolding execute_tasks_list
      tasks_list-PlainResult = listed (list_tasks ops m)
        where
          listed :
              (found : Exec (List TaskInfo))
              → PlainResult (found >>= λ tasks. returns (tasks_result J tasks))
          listed (returns tasks) =
              λ h. put-IsPlain _ "count" _ (put-IsPlain _ "tasks" _ object-IsPlain refl) refl
          listed (throws what) = tt
          listed crashes = tt

      pub commands_list-PlainResult :
          PlainResult (execute_commands_list J context clocks params m).1
      unfolding execute_commands_list
      commands_list-PlainResult h = put-IsPlain _ "commands" _ object-IsPlain refl
