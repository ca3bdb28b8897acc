-- ===== src/Ipc/Protocol/ErrorResponse.antt =====
-- `ErrorResponseMessage` of src/ipc/json_protocol.cpp: `to_json` and `from_json`.
use test_ai_agent.Prelude.{Option, none, some, ◌≡◌, refl}
use test_ai_agent.Prelude.Chain.{guard}
use test_ai_agent.Prelude.Outcome.{Outcome, returns, ◌>>=◌, early}
use test_ai_agent.Prelude.Int.{ℤ, InInt32}
use test_ai_agent.Json.{JsonLib, JsonLaws}
use test_ai_agent.Ipc.Protocol.Error
use test_ai_agent.Ipc.Protocol.Error.{ProtocolError}
use test_ai_agent.Ipc.Protocol.Fields.{
  InRange, read_id, put_id, put_id_is_object, member-put_id, read_id-put_id,
}

pub record ErrorResponseMessage (Json : Type 0) : Type 0 where
  pub id : Option ℤ
  pub error : ProtocolError Json

module _ {Json : Type 0} (J : JsonLib Json) where
  open J use {object, is_object, member, put}

  unfoldable pub to_json : ErrorResponseMessage Json → Json
  to_json m = put_id J (put object "error" (Error.to_json J m.error)) m.id

  unfoldable pub from_json : Json → Outcome (Option (ErrorResponseMessage Json))
  from_json j = early (guard (is_object j)) λ _. early (member j "error") λ value.
      early (guard (is_object value)) λ _. do
        error ← Error.from_json J value
        early (read_id J j) λ id. returns (some (record { id = id; error = error }))

  module _ (L : JsonLaws J) where
    -- An error response whose id and code fit their types is read back as it was written.
    pub from_json-to_json_error_response :
        (m : ErrorResponseMessage Json)
        → InRange m.id
        → InInt32 m.error.code
        → from_json (to_json m) ≡ returns (some m)
    unfolding to_json from_json
    from_json-to_json_error_response m r c =
        let error = Error.to_json J m.error in
        let base = put object "error" error in
        let p = L.put_is_object object "error" error L.object_is_object in
        let absent : member base "id" ≡ none =
          simp (L.member_put, L.object_is_object, L.member_object) in
        let found : member base "error" ≡ some error = simp (L.member_put, L.object_is_object) in
        simp (
          put_id_is_object J L base m.id p,
          member-put_id J L base m.id "error" p refl,
          read_id-put_id J L base m.id p absent r,
          found,
          Error.to_json_is_object J L m.error,
          Error.from_json-to_json_error J L m.error c,
        )
