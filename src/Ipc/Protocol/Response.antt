-- ===== src/Ipc/Protocol/Response.antt =====
-- `ResponseMessage` of src/ipc/json_protocol.cpp: `to_json` and `from_json`.
use test_ai_agent.Prelude.{Option, none, some, ◌≡◌, refl}
use test_ai_agent.Prelude.Chain.{◌>>=◌, ◌>>◌, guard}
use test_ai_agent.Prelude.Int.{ℤ}
use test_ai_agent.Json.{JsonLib, JsonLaws}
use test_ai_agent.Ipc.Protocol.Fields.{
  InRange, read_id, put_id, put_id_is_object, member-put_id, read_id-put_id,
}

pub record ResponseMessage (Json : Type 0) : Type 0 where
  pub id : Option ℤ
  pub result : Json

module _ {Json : Type 0} (J : JsonLib Json) where
  open J use {object, is_object, member, put}

  unfoldable pub to_json : ResponseMessage Json → Json
  to_json m = put_id J (put object "result" m.result) m.id

  unfoldable pub from_json : Json → Option (ResponseMessage Json)
  from_json j = do
    guard (is_object j)
    result ← member j "result"
    id ← read_id J j
    some (record { id = id; result = result })

  module _ (L : JsonLaws J) where
    -- A response whose id is absent or fits its type is read back as it was written.
    pub from_json-to_json_response :
        (m : ResponseMessage Json) → InRange m.id → from_json (to_json m) ≡ some m
    unfolding to_json from_json
    from_json-to_json_response m r =
        let base = put object "result" m.result in
        let p = L.put_is_object object "result" m.result L.object_is_object in
        let absent : member base "id" ≡ none =
          simp (L.member_put, L.object_is_object, L.member_object) in
        let found : member base "result" ≡ some m.result =
          simp (L.member_put, L.object_is_object) in
        simp (
          put_id_is_object J L base m.id p,
          member-put_id J L base m.id "result" p refl,
          read_id-put_id J L base m.id p absent r,
          found,
        )
