-- ===== src/Cli/Errors.antt =====
-- What the client makes of the daemon's answers.
use test_ai_agent.Prelude.{
  ℕ, ◌<◌, ◌^◌, String, true, false, [], ◌∷◌, none, some, ◌≡◌, refl, ◌∙◌, ap, inl, inr, arith,
}
use test_ai_agent.Prelude.Int.{pos}
use test_ai_agent.Prelude.Outcome.{returns}
use test_ai_agent.Json.{JsonLib, JsonLaws}
use test_ai_agent.Ipc.Protocol.Fields.{read_id-written}
use test_ai_agent.Ipc.Protocol.Message
use test_ai_agent.Ipc.Protocol.Message.{JsonMessage, validate-IsMessage'}
use test_ai_agent.Ipc.Protocol.Request.{RequestMessage}
use test_ai_agent.Ipc.Protocol.Response.{ResponseMessage}
use test_ai_agent.Ipc.Protocol.RoundTrip.{
  to_json-fill, fill_members, read_method-written, read_error-written,
}
use test_ai_agent.Ipc.Session.Write.{response_message}
use test_ai_agent.Commands.Registry.{CommandResult}
use test_ai_agent.Commands.Builtin.{object_of}
use test_ai_agent.Commands.Handler.{answer, error_answer}
use test_ai_agent.Cli.Client.{build_request, read_response}

-- The message of a request with a number, a method and parameters.
abbrev pub asking_message : {Json : Type 0} → ℕ → String → Json → JsonMessage Json
asking_message id method params = record {
  id = some (pos id);
  method = some method;
  params = some params;
  result = none;
  error = none;
}

module _ {Json : Type 0} (J : JsonLib Json) (L : JsonLaws J) where
  open J use {object, of_string, of_int, member, put}

  -- The message of a response is read as a success, with the result of the response.
  pub read_response-to_json :
      (r : ResponseMessage Json) (duration : ℕ)
      → read_response J duration (Message.to_json J (response_message r))
        ≡ returns (record {
          success = true;
          error_code = none;
          message = "OK";
          payload = r.result;
          response_time = duration;
        })
  unfolding read_response
  read_response-to_json r duration =
      let m = response_message r in
      let (_, _, _, _, result, no_error) = fill_members J L m in
      rw (to_json-fill J L m (record { one = inr refl; not_both = λ e. ground arith }))
        (rw (read_response, no_error, result) refl)

  -- The message that a session makes of the answer to a command that failed is read by the client
  -- as a success with the message "OK": the code and the message of the failure are its data.
  pub failure_reads_as_success :
      (request : RequestMessage Json) (result : CommandResult Json) (duration : ℕ)
      → result.success ≡ false
      → read_response J duration (Message.to_json J (response_message (answer J request result)))
        ≡ returns (record {
          success = true;
          error_code = none;
          message = "OK";
          payload =
              object_of J
                (("code", of_int result.error_code) ∷ ("message", of_string result.message) ∷ []);
          response_time = duration;
        })
  unfolding answer error_answer
  failure_reads_as_success request result duration failed =
      read_response-to_json (answer J request result) duration ∙ rw failed refl

  -- For a number below 2^63, the request that the client builds is read by the daemon as a
  -- message with that number, method and parameters.
  pub from_json-build_request :
      (id : ℕ) (method : String) (params : Json)
      → id < 2 ^ 63
      → Message.from_json J (build_request J id method params)
        ≡ returns (some (asking_message id method params))
  unfolding build_request Message.from_json
  from_json-build_request id method params small =
      let a = put object "id" (of_int (pos id)) in
      let b = put a "method" (of_string method) in
      let oa = L.put_is_object object "id" (of_int (pos id)) L.object_is_object in
      let ob = L.put_is_object a "method" (of_string method) oa in
      let oc = L.put_is_object b "params" params ob in
      let built = build_request J id method params in
      let number : member built "id" ≡ some (of_int (pos id)) =
        simp (L.member_put, L.object_is_object, oa, ob) in
      let named : member built "method" ≡ some (of_string method) = simp (L.member_put, oa, ob) in
      let given : member built "params" ≡ some params = simp (L.member_put, ob) in
      let no_result : member built "result" ≡ none =
        simp (L.member_put, L.object_is_object, oa, ob, L.member_object) in
      let no_error : member built "error" ≡ none =
        simp (L.member_put, L.object_is_object, oa, ob, L.member_object) in
      simp
        (
          oc,
          read_id-written J L built (some (pos id)) number small,
          read_method-written J L built (some method) named,
          read_error-written J L built none no_error (λ _ e. ground arith),
          given,
          no_result,
        )
        (ap returns (
          validate-IsMessage' (asking_message id method params)
            (record { one = inl refl; not_both = λ _. refl })))
