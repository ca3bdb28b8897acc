-- ===== src/Ipc/Protocol/Error.antt =====
-- `ProtocolError` of src/ipc/json_protocol.cpp: `to_json` and `from_json`.
use test_ai_agent.Prelude.{
  String, true, Option, some, ◌≡◌, option_map, or_else-none, option_map_self,
}
use test_ai_agent.Prelude.Outcome.{Outcome, returns, ◌>>=◌}
use test_ai_agent.Prelude.Int.{InInt32}
use test_ai_agent.Json.{JsonLib, JsonLaws}
use test_ai_agent.Ipc.Protocol.Code.{ProtocolErrorCode, internal_error}
use test_ai_agent.Ipc.Protocol.Fields.{put_if, put_if_is_object, member-put_if}

pub record ProtocolError (Json : Type 0) : Type 0 where
  pub code : ProtocolErrorCode
  pub message : String
  pub payload : Option Json  -- `data`

module _ {Json : Type 0} (J : JsonLib Json) where
  open J use {object, of_string, of_int, is_object, member, put, value_int, value_string}

  unfoldable pub to_json : ProtocolError Json → Json
  to_json e =
      put_if J (put (put object "code" (of_int e.code)) "message" (of_string e.message)) "data"
        (λ d. d) e.payload

  -- `value` throws at a member of another type.
  unfoldable pub from_json : Json → Outcome (ProtocolError Json)
  from_json j = do
    code ← value_int j "code" internal_error
    message ← value_string j "message" "Unknown error"
    returns (record { code = code; message = message; payload = member j "data" })

  module _ (L : JsonLaws J) where
    pub to_json_is_object : (e : ProtocolError Json) → is_object (to_json e) ≡ true
    unfolding to_json
    to_json_is_object e =
        put_if_is_object J L _ "data" (λ d. d) e.payload
          (L.put_is_object _ "message" (of_string e.message)
            (L.put_is_object object "code" (of_int e.code) L.object_is_object))

    -- What is read back is the error that was written.
    pub from_json-to_json_error :
        (e : ProtocolError Json) → InInt32 e.code → from_json (to_json e) ≡ returns e
    unfolding to_json from_json
    from_json-to_json_error e r =
        let coded = put object "code" (of_int e.code) in
        let base = put coded "message" (of_string e.message) in
        let o = L.put_is_object object "code" (of_int e.code) L.object_is_object in
        let p = L.put_is_object coded "message" (of_string e.message) o in
        let code : member (to_json e) "code" ≡ some (of_int e.code) =
          simp (member-put_if J L, L.member_put, L.object_is_object, o, p) in
        let message : member (to_json e) "message" ≡ some (of_string e.message) =
          simp (member-put_if J L, L.member_put, o, p) in
        let payload : member (to_json e) "data" ≡ option_map (λ d. d) e.payload = simp (
          member-put_if J L,
          L.member_put,
          L.member_object,
          L.object_is_object,
          o,
          p,
          or_else-none,
        ) in
        simp (
          L.value_int_found (to_json e) "code" internal_error e.code code r,
          L.value_string_found (to_json e) "message" "Unknown error" e.message message,
          payload,
          option_map_self e.payload,
        )
