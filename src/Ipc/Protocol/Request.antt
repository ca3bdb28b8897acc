-- ===== src/Ipc/Protocol/Request.antt =====
-- `RequestMessage` of src/ipc/json_protocol.cpp: `to_json` and `from_json`.
use test_ai_agent.Prelude.{String, Option, none, some, ◌≡◌, refl, value_or}
use test_ai_agent.Prelude.Chain.{◌>>=◌, ◌>>◌, guard}
use test_ai_agent.Prelude.Int.{ℤ}
use test_ai_agent.Json.{JsonLib, JsonLaws}
use test_ai_agent.Ipc.Protocol.Fields.{
  InRange, read_id, put_id, put_id_is_object, member-put_id, read_id-put_id,
}

pub record RequestMessage (Json : Type 0) : Type 0 where
  pub id : Option ℤ
  pub method : String
  pub params : Json

module _ {Json : Type 0} (J : JsonLib Json) where
  open J use {object, of_string, is_object, member, put, get_string}

  unfoldable pub to_json : RequestMessage Json → Json
  to_json m = put_id J (put (put object "method" (of_string m.method)) "params" m.params) m.id

  -- An absent `params` is an empty object.
  abbrev read_params : Json → Json
  read_params j = value_or (member j "params") object

  unfoldable pub from_json : Json → Option (RequestMessage Json)
  from_json j = do
    guard (is_object j)
    value ← member j "method"
    method ← get_string value
    id ← read_id J j
    some (record { id = id; method = method; params = read_params j })

  module _ (L : JsonLaws J) where
    -- A request whose id is absent or fits its type is read back as it was written.
    pub from_json-to_json_request :
        (m : RequestMessage Json) → InRange m.id → from_json (to_json m) ≡ some m
    unfolding to_json from_json
    from_json-to_json_request m r =
        let named = put object "method" (of_string m.method) in
        let base = put named "params" m.params in
        let o = L.put_is_object object "method" (of_string m.method) L.object_is_object in
        let p = L.put_is_object named "params" m.params o in
        let absent : member base "id" ≡ none =
          simp (L.member_put, L.object_is_object, o, L.member_object) in
        let found : member base "method" ≡ some (of_string m.method) =
          simp (L.member_put, L.object_is_object, o) in
        let given : member base "params" ≡ some m.params = simp (L.member_put, o) in
        simp (
          put_id_is_object J L base m.id p,
          member-put_id J L base m.id "method" p refl,
          member-put_id J L base m.id "params" p refl,
          read_id-put_id J L base m.id p absent r,
          found,
          given,
          L.string_is_string,
        )
