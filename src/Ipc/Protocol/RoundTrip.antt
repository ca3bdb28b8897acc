-- ===== src/Ipc/Protocol/RoundTrip.antt =====
-- `JsonMessage::from_json` on what `JsonMessage::to_json` wrote.
use test_ai_agent.Prelude.{
  String, true, false, Option, none, some, ◌≡◌, refl, arith, inl, inr, ap, ◌⊎◌, is_some, option_map,
  or_else-none, option_map_self,
}
use test_ai_agent.Prelude.Outcome.{returns}
use test_ai_agent.Prelude.Int.{InInt32}
use test_ai_agent.Json.{JsonLib, JsonLaws}
use test_ai_agent.Ipc.Protocol.Error
use test_ai_agent.Ipc.Protocol.Error.{ProtocolError}
use test_ai_agent.Ipc.Protocol.Fields.{read_id-written, put_if, put_if_is_object, member-put_if}
use test_ai_agent.Ipc.Protocol.Message.{
  JsonMessage, IsMessage, Fits, validate-IsMessage', fill, to_json, read_method, read_error,
  from_json,
}

module _ {Json : Type 0} (J : JsonLib Json) (L : JsonLaws J) where
  open J use {null, object, of_string, of_int, is_object, member, put, get_string}

  -- One assignment of `to_json`, from a null value and from an empty object.
  put_if_null :
      {A : Type 0} (k : String) (convert : A → Json) (o : Option A)
      → ((is_some o ≡ true) × (put_if J null k convert o ≡ put_if J object k convert o))
        ⊎ ((is_some o ≡ false)
            × (put_if J null k convert o ≡ null)
            × (put_if J object k convert o ≡ object))
  unfolding put_if
  put_if_null k convert none = inr (refl, refl, refl)
  put_if_null k convert (some a) = inl (refl, L.put_null k (convert a))

  -- A message has a member, so the null value that `to_json` starts from becomes an object.
  pub to_json-fill : (m : JsonMessage Json) → IsMessage m → to_json J m ≡ fill J object m
  unfolding to_json fill
  to_json-fill m v = ground (
    arith,
    put_if_null "id" of_int m.id,
    put_if_null "method" of_string m.method,
    put_if_null "params" (λ p. p) m.params,
    put_if_null "result" (λ r. r) m.result,
    put_if_null "error" (Error.to_json J) m.error,
  )

  -- Each member of what `fill` wrote is the field that it was written from.
  pub fill_members :
      (m : JsonMessage Json)
      → (is_object (fill J object m) ≡ true)
        × (member (fill J object m) "id" ≡ option_map of_int m.id)
        × (member (fill J object m) "method" ≡ option_map of_string m.method)
        × (member (fill J object m) "params" ≡ m.params)
        × (member (fill J object m) "result" ≡ m.result)
        × (member (fill J object m) "error" ≡ option_map (Error.to_json J) m.error)
  unfolding fill
  fill_members m =
      let a = put_if J object "id" of_int m.id in
      let b = put_if J a "method" of_string m.method in
      let c = put_if J b "params" (λ p. p) m.params in
      let d = put_if J c "result" (λ r. r) m.result in
      let o = L.object_is_object in
      let oa = put_if_is_object J L object "id" of_int m.id o in
      let ob = put_if_is_object J L a "method" of_string m.method oa in
      let oc = put_if_is_object J L b "params" (λ p. p) m.params ob in
      let od = put_if_is_object J L c "result" (λ r. r) m.result oc in
      (
        put_if_is_object J L d "error" (Error.to_json J) m.error od,
        simp (member-put_if J L, o, oa, ob, oc, od, or_else-none, L.member_object),
        simp (member-put_if J L, o, oa, ob, oc, od, or_else-none, L.member_object),
        simp (member-put_if J L, o, oa, ob, oc, od, or_else-none, L.member_object, option_map_self),
        simp (member-put_if J L, o, oa, ob, oc, od, or_else-none, L.member_object, option_map_self),
        simp (member-put_if J L, o, oa, ob, oc, od, or_else-none, L.member_object),
      )

  -- A message is written as an object.
  pub to_json_is_object : (m : JsonMessage Json) → IsMessage m → is_object (to_json J m) ≡ true
  to_json_is_object m v = rw (to_json-fill m v) (fill_members m).0

  pub read_method-written :
      (j : Json) (method : Option String)
      → member j "method" ≡ option_map of_string method
      → read_method J j ≡ some method
  unfolding read_method
  read_method-written j none h = ground arith
  read_method-written j (some s) h = ground (arith, L.string_is_string s)

  pub read_error-written :
      (j : Json) (error : Option (ProtocolError Json))
      → member j "error" ≡ option_map (Error.to_json J) error
      → ((e : ProtocolError Json) → error ≡ some e → InInt32 e.code)
      → read_error J j ≡ returns (some error)
  unfolding read_error
  read_error-written j none h r = rw (h, read_error)
  read_error-written j (some e) h r =
      rw (h, read_error)
        (simp (Error.to_json_is_object J L e, Error.from_json-to_json_error J L e (r e refl)))

  -- A message that is a request or a response and whose numbers fit their types is read back from
  -- its JSON as it was written.
  pub from_json-to_json :
      (m : JsonMessage Json) → IsMessage m → Fits m → from_json J (to_json J m) ≡ returns (some m)
  unfolding from_json
  from_json-to_json m v f =
      let (o, id, method, params, result, error) = fill_members m in
      rw (to_json-fill m v) (
        simp
          (
            o,
            read_id-written J L (fill J object m) m.id id f.id_fits,
            read_method-written (fill J object m) m.method method,
            read_error-written (fill J object m) m.error error f.code_fits,
            params,
            result,
          )
          (ap returns (validate-IsMessage' m v)))
