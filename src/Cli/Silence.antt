-- ===== src/Cli/Silence.antt =====
-- The client of src/cli/main.cpp connected to a session of the server of src/ipc/unix_socket_server.cpp.
use Prim.Native.String.{◌++◌ as append}
use test_ai_agent.Prelude.Int.{neg}
use test_ai_agent.Prelude.{
  ℕ, String, false, List, [], ◌∷◌, ◌++◌, Option, none, some, ◌≡◌, ◌≢◌, refl, ◌∙◌,
}
use test_ai_agent.Prelude.Outcome.{Outcome, returns, throws, catch}
use test_ai_agent.Prelude.Exec
use test_ai_agent.Json.{JsonLib, newline}
use test_ai_agent.Ipc.Framing.Scan.{Bytes}
use test_ai_agent.Ipc.Session.Defs.{Session}
use test_ai_agent.Ipc.Session.Silent.{Call, NotWriting, sent_by}
use test_ai_agent.Ipc.Server.Defs.{Server, CommandHandler, server_handlers}
use test_ai_agent.Ipc.Server.Answers.{server_silent}
use test_ai_agent.Cli.Socket.{
  Client, Sent, Received, received, recv_interrupted, recv_timeout, recv_failed, send_loop,
  recv_loop,
}
use test_ai_agent.Cli.Client.{
  CommandResponse, send_message, finish_request, send_request, build_request,
}
use test_ai_agent.Cli.Options.{CliOptions}
use test_ai_agent.Cli.Report.{Report}
use test_ai_agent.Cli.Main.{Calls, main}
use test_ai_agent.Cli.Status.{main-Succeeds}

-- The bytes that the calls of `recv` give.
abbrev pub taken_in : List Received → Bytes
taken_in [] = []
taken_in (received bytes ∷ calls) = bytes ++ taken_in calls
taken_in (_ ∷ calls) = taken_in calls

-- No text comes of the calls.
abbrev Fails : {A : Type 0} → Option (Outcome A) → Type 0
Fails none = Unit
Fails (some (returns _)) = ⊥
Fails (some (throws what)) = Unit

no_front : (front rest : Bytes) → front ++ rest ≡ [] → front ≡ []
no_front [] rest e = refl
no_front (x ∷ front) rest e = cc e

recv_loop-Fails : (calls : List Received) → taken_in calls ≡ [] → Fails (recv_loop calls [])
unfolding recv_loop
recv_loop-Fails [] e = tt
recv_loop-Fails (received [] ∷ calls) e = tt
recv_loop-Fails (received (c ∷ cs) ∷ calls) e = cc e
recv_loop-Fails (recv_interrupted ∷ calls) e = recv_loop-Fails calls e
recv_loop-Fails (recv_timeout ∷ calls) e = tt
recv_loop-Fails (recv_failed what ∷ calls) e = tt

module _ {Json : Type 0} (J : JsonLib Json) where
  send_message-Fails :
      (sending : List Sent) (receiving : List Received) (message : Json)
      → taken_in receiving ≡ []
      → Fails (send_message J sending receiving message)
  unfolding send_message
  send_message-Fails sending receiving message e =
      elim (send_loop sending (J.dump message ++ newline ∷ []) []).0
        as (λ r. Fails (elim r as (λ _. Option (Outcome Bytes)) [
          | none ↦ none
          | some (throws what) ↦ some (throws what)
          | some (returns _) ↦ recv_loop receiving []
        ])) [ none ↦ tt | some (throws what) ↦ tt | some (returns _) ↦ recv_loop-Fails receiving e ]

  -- A request without an answer is no success.
  send_request_fails :
      (sending : List Sent) (receiving : List Received) (what : String) (duration : ℕ)
      (method : String) (params : Json) (c : Client) (response : CommandResponse Json)
      → taken_in receiving ≡ []
      → (send_request J sending receiving what duration method params c).1 ≡ some response
      → response.success ≡ false
  unfolding send_request finish_request
  send_request_fails sending receiving what duration method params c response e came =
      judged (send_message J sending receiving (build_request J _ method params))
        (send_message-Fails sending receiving _ e) came
    where
      judged :
          (r : Option (Outcome Bytes))
          → Fails r
          → (elim r as (λ _. Option (CommandResponse Json)) [
            | none ↦ none
            | some response_str ↦ some (
                catch (finish_request J what duration response_str) (λ e. record {
                  success = false;
                  error_code = some (neg 1);
                  message = append "Communication error: " e;
                  payload = J.object;
                  response_time = duration;
                }))
          ])
            ≡ some response
          → response.success ≡ false
      judged none f e = cc e
      judged (some (throws why)) f e = cc e
      judged (some (returns bytes)) f e = absurd f

module _ {Json D : Type 0} (J : JsonLib Json) (command_handler : CommandHandler Json D) where
  -- If all that the client has received is the front of what a session of the server sends that is
  -- not in the state `writing`, in whatever sequence of calls and whatever the command handler
  -- answers, then the client does not end with the status 0, unless it was asked for help.
  pub main-silent :
      (server_calls : List (Call Json)) (s : Session) (server : Server D) (calls : Calls)
      (opts : CliOptions Json) (report : Report Json) (rest : Bytes)
      → NotWriting s
      → taken_in calls.receiving ++ rest
        ≡ sent_by J (server_handlers J command_handler) server_calls (s, server)
      → main J calls opts ≡ some report
      → opts.help ≡ false
      → report.status ≢ Exec.returns 0
  main-silent server_calls s server calls opts report rest idle connected ran no_help zero =
      let nothing =
        no_front (taken_in calls.receiving) rest
          (connected ∙ server_silent J command_handler server_calls s server idle) in
      let (_, (method, params, response, _, came, good)) =
        main-Succeeds J calls opts report ran zero no_help in
      let bad =
        send_request_fails J calls.sending calls.receiving calls.what calls.duration method params _
          response nothing came in
      cc (good, bad)
