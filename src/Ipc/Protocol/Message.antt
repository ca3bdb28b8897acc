-- ===== src/Ipc/Protocol/Message.antt =====
-- `JsonMessage`: a message that is a request or a response.
use test_ai_agent.Prelude.{
  String, Bool, true, false, not, ◌&&◌, ◌||◌, Option, none, some, ◌≡◌, arith, ◌⊎◌, is_some,
  if◌then◌else◌,
}
use test_ai_agent.Prelude.Chain.{guard}
use test_ai_agent.Prelude.Outcome.{
  Outcome, returns, ◌>>=◌, early, early-eq-some, >>=-eq-returns, returns-injective,
}
use test_ai_agent.Prelude.Int.{ℤ, InInt32}
use test_ai_agent.Json.{JsonLib}
use test_ai_agent.Ipc.Protocol.Error
use test_ai_agent.Ipc.Protocol.Error.{ProtocolError}
use test_ai_agent.Ipc.Protocol.Fields.{InRange, read_id, put_if}

pub record JsonMessage (Json : Type 0) : Type 0 where
  pub id : Option ℤ
  pub method : Option String
  pub params : Option Json
  pub result : Option Json
  pub error : Option (ProtocolError Json)

module _ {Json : Type 0} where
  abbrev pub is_request : JsonMessage Json → Bool
  is_request m = is_some m.method

  abbrev pub is_response : JsonMessage Json → Bool
  is_response m = is_some m.result || is_some m.error

  abbrev pub is_notification : JsonMessage Json → Bool
  is_notification m = not (is_some m.id) && is_some m.method

  abbrev pub is_error_response : JsonMessage Json → Bool
  is_error_response m = is_some m.error

  -- A request or a response, and not both.
  pub record IsMessage (m : JsonMessage Json) : Type 0 where
    pub one : (is_request m ≡ true) ⊎ (is_response m ≡ true)
    pub not_both : is_request m ≡ true → is_response m ≡ false

  -- The last checks of `from_json`.
  unfoldable pub validate : JsonMessage Json → Option (JsonMessage Json)
  validate m =
      let has_method = is_some m.method in
      let has_result = is_some m.result in
      let has_error = is_some m.error in
      if has_method && (has_result || has_error)
      then none
      else if not has_method && (not has_result && not has_error)
      then none
      else some m

  pub validate-IsMessage : (m n : JsonMessage Json) → validate m ≡ some n → IsMessage n
  unfolding validate
  validate-IsMessage m n e = ground arith

  pub validate-IsMessage' : (m : JsonMessage Json) → IsMessage m → validate m ≡ some m
  unfolding validate
  validate-IsMessage' m v = ground arith

-- The numbers of the message fit the types that the program gives them.
pub record Fits {Json : Type 0} (m : JsonMessage Json) : Type 0 where
  pub id_fits : InRange m.id
  pub code_fits : (e : ProtocolError Json) → m.error ≡ some e → InInt32 e.code

module _ {Json : Type 0} (J : JsonLib Json) where
  open J use {null, object, of_string, of_int, is_object, member, put, get_string}

  -- The assignments of `to_json`, on the value that `j` is at first.
  unfoldable pub fill : Json → JsonMessage Json → Json
  fill j m =
      let a = put_if J j "id" of_int m.id in
      let b = put_if J a "method" of_string m.method in
      let c = put_if J b "params" (λ p. p) m.params in
      let d = put_if J c "result" (λ r. r) m.result in put_if J d "error" (Error.to_json J) m.error

  unfoldable pub to_json : JsonMessage Json → Json
  to_json m = fill null m

  -- An optional member; one of the wrong type ends the reading.
  unfoldable pub read_method : Json → Option (Option String)
  read_method j = elim (member j "method") [
    | none ↦ some none
    | some v ↦ elim (get_string v) [ none ↦ none | some s ↦ some (some s) ]
  ]

  unfoldable pub read_error : Json → Outcome (Option (Option (ProtocolError Json)))
  read_error j = elim (member j "error") [
    | none ↦ returns (some none)
    | some v ↦ early (guard (is_object v)) λ _. do e ← Error.from_json J v; returns (some (some e))
  ]

  unfoldable pub from_json : Json → Outcome (Option (JsonMessage Json))
  from_json j = early (guard (is_object j)) λ _. early (read_id J j) λ id.
      early (read_method j) λ method. do
        read ← read_error j
        early read λ error. returns (
            validate (record {
              id = id;
              method = method;
              params = member j "params";
              result = member j "result";
              error = error;
            }))

  -- A message that `from_json` reads, from whatever JSON, is a request or a response, and not
  -- both.
  pub from_json-IsMessage :
      (j : Json) (m : JsonMessage Json) → from_json j ≡ returns (some m) → IsMessage m
  unfolding from_json
  from_json-IsMessage j m e =
      let (_, _, e₁) = early-eq-some (guard (is_object j)) _ e in
      let (id, _, e₂) = early-eq-some (read_id J j) _ e₁ in
      let (method, _, e₃) = early-eq-some (read_method j) _ e₂ in
      let (read, _, e₄) = >>=-eq-returns (read_error j) _ e₃ in
      let (error, _, e₅) = early-eq-some read _ e₄ in validate-IsMessage _ m (returns-injective e₅)
