-- ===== src/Commands/Handler.antt =====
-- `commandHandler` of src/daemon/main.cpp: what the daemon answers to a request.
use Prim.Native.String.{◌++◌ as append}
use test_ai_agent.Prelude.{
  String, true, [], ◌∷◌, none, some, ◌≡◌, refl, arith, ◌⊎◌, inl, inr, if◌then◌else◌, Option-cases,
}
use test_ai_agent.Prelude.Int.{ℤ, neg}
use test_ai_agent.Prelude.Exec.{Exec, returns, throws, crashes}
use test_ai_agent.Json.{JsonLib}
use test_ai_agent.Ipc.Protocol.Request.{RequestMessage}
use test_ai_agent.Ipc.Protocol.Response.{ResponseMessage}
use test_ai_agent.Commands.Registry.{CommandResult, Moment, Command, CommandRegistry, get_command}
use test_ai_agent.Commands.Builtin.{object_of}

module _ {Json : Type 0} where
  -- A response under the id of the request, or a crash.
  abbrev pub Answered : RequestMessage Json → Exec (ResponseMessage Json) → Type 0
  Answered request r =
      ((response : ResponseMessage Json) × (r ≡ returns response) × (response.id ≡ request.id))
      ⊎ (r ≡ crashes)

module _ {Json : Type 0} (J : JsonLib Json) where
  open J use {of_string, of_int}

  -- `{{"code", code}, {"message", message}}`, in the place of a result.
  unfoldable pub error_answer : RequestMessage Json → ℤ → String → ResponseMessage Json
  error_answer request code message = record {
    id = request.id;
    result = object_of J (("code", of_int code) ∷ ("message", of_string message) ∷ []);
  }

  unfoldable pub answer : RequestMessage Json → CommandResult Json → ResponseMessage Json
  answer request result =
      if result.success
      then record { id = request.id; result = result.payload }
      else error_answer request result.error_code result.message

module _ {Json M : Type 0} (J : JsonLib Json) where
  -- The result of the call in the `try` block, and the `catch` block.
  unfoldable pub respond :
      RequestMessage Json → M × Exec (CommandResult Json) → M × Exec (ResponseMessage Json)
  respond request (m, returns result) = (m, returns (answer J request result))
  respond request (m, throws what) =
      (m, returns (error_answer J request (neg 32603) (append "Internal error: " what)))
  respond request (m, crashes) = (m, crashes)

  -- The task manager of the context is the daemon's.
  unfoldable pub command_handler :
      CommandRegistry Json M → Moment → RequestMessage Json → M → M × Exec (ResponseMessage Json)
  command_handler registry clocks request m = elim (get_command request.method registry) [
    | none ↦ (
      m,
      returns (error_answer J request (neg 32601) (append "Method not found: " request.method)),
    )
    | some cmd ↦
        respond request
          (cmd.execute (record { client_id = ""; has_task_manager = true }) clocks request.params m)
  ]

  respond-Answered :
      (request : RequestMessage Json) (p : M × Exec (CommandResult Json))
      → Answered request (respond request p).1
  unfolding respond answer error_answer
  respond-Answered request (m, returns result) = inl (_, refl, ground arith)
  respond-Answered request (m, throws what) = inl (_, refl, refl)
  respond-Answered request (m, crashes) = inr refl

  pub respond-crashes :
      (request : RequestMessage Json) (p : M × Exec (CommandResult Json))
      → p.1 ≡ crashes
      → (respond request p).1 ≡ crashes
  unfolding respond
  respond-crashes request (m, returns result) e = cc e
  respond-crashes request (m, throws what) e = cc e
  respond-crashes request (m, crashes) e = refl

  -- The command of the method is executed.
  pub command_handler_found :
      (registry : CommandRegistry Json M) (clocks : Moment) (request : RequestMessage Json) (m : M)
      (cmd : Command Json M)
      → get_command request.method registry ≡ some cmd
      → command_handler registry clocks request m
        ≡ respond request (
            cmd.execute
              (record { client_id = ""; has_task_manager = true })
              clocks
              request.params
              m)
  unfolding command_handler
  command_handler_found registry clocks request m cmd found = rw (found, command_handler) refl

  -- A request is answered under its own id, or without an id where it has none, whatever command
  -- it names and whatever the command does, exceptions included, unless the daemon crashes.
  pub command_handler-Answered :
      (registry : CommandRegistry Json M) (clocks : Moment) (request : RequestMessage Json) (m : M)
      → Answered request (command_handler registry clocks request m).1
  unfolding command_handler error_answer
  command_handler-Answered registry clocks request m =
      elim (Option-cases (get_command request.method registry)) [
        | inl absent ↦ rw (absent, command_handler) (inl (_, refl, refl))
        | inr (cmd, found) ↦ rw (found, command_handler) (respond-Answered request _)
      ]
