-- ===== src/Ipc/Protocol/Fields.antt =====
-- The parts that the readers and the printers of all messages share.
use test_ai_agent.Prelude.{
  String, true, false, Option, none, some, ◌≡◌, refl, arith, str_eq, or_else, option_map,
  if◌then◌else◌,
}
use test_ai_agent.Prelude.Int.{ℤ, InInt64}
use test_ai_agent.Json.{JsonLib, JsonLaws}

-- An id is absent, or an `int64_t`.
abbrev pub InRange : Option ℤ → Type 0
InRange none = Unit
InRange (some i) = InInt64 i

module _ {Json : Type 0} (J : JsonLib Json) where
  open J use {of_int, is_null, is_object, member, put, get_int64}

  -- `if (j.contains("id")) { if integer … else if (!null) return nullopt; }`
  unfoldable pub read_id : Json → Option (Option ℤ)
  read_id j = elim (member j "id") [
    | none ↦ some none
    | some v ↦ elim (get_int64 v) [
      | some i ↦ some (some i)
      | none ↦ if is_null v then some none else none
    ]
  ]

  -- `if (field.has_value()) j[key] = field.value();`
  unfoldable pub put_if : {A : Type 0} → Json → String → (A → Json) → Option A → Json
  put_if j k convert none = j
  put_if j k convert (some a) = put j k (convert a)

  -- `if (id.has_value()) j["id"] = id.value();`
  unfoldable pub put_id : Json → Option ℤ → Json
  unfolding put_if
  put_id j id = put_if j "id" of_int id

  module _ (L : JsonLaws J) where
    pub put_if_is_object :
        {A : Type 0} (j : Json) (k : String) (convert : A → Json) (o : Option A)
        → is_object j ≡ true
        → is_object (put_if j k convert o) ≡ true
    unfolding put_if
    put_if_is_object j k convert none h = h
    put_if_is_object j k convert (some a) h = L.put_is_object j k (convert a) h

    -- A member of what was written: the new value, or what was there.
    pub member-put_if :
        {A : Type 0} (j : Json) (k : String) (convert : A → Json) (o : Option A) (l : String)
        → is_object j ≡ true
        → member (put_if j k convert o) l
          ≡ (if str_eq k l then or_else (option_map convert o) (member j l) else member j l)
    unfolding put_if
    member-put_if j k convert none l h = ground arith
    member-put_if j k convert (some a) l h = L.member_put j k (convert a) l h

    pub put_id_is_object :
        (j : Json) (id : Option ℤ) → is_object j ≡ true → is_object (put_id j id) ≡ true
    unfolding put_id
    put_id_is_object j id h = put_if_is_object j "id" of_int id h

    -- The other members are as they were.
    pub member-put_id :
        (j : Json) (id : Option ℤ) (l : String)
        → is_object j ≡ true
        → str_eq "id" l ≡ false
        → member (put_id j id) l ≡ member j l
    unfolding put_id
    member-put_id j none l h e = refl
    member-put_id j (some i) l h e = ground (arith, L.member_put j "id" (of_int i) l)

    -- The id that was written is the id that is read.
    pub read_id-written :
        (j : Json) (id : Option ℤ)
        → member j "id" ≡ option_map of_int id
        → InRange id
        → read_id j ≡ some id
    unfolding read_id
    read_id-written j none e r = rw (e, read_id)
    read_id-written j (some i) e r = ground (arith, L.int64_is_int i r)

    -- The id that was written is the id that is read.
    pub read_id-put_id :
        (j : Json) (id : Option ℤ)
        → is_object j ≡ true
        → member j "id" ≡ none
        → InRange id
        → read_id (put_id j id) ≡ some id
    unfolding read_id put_id
    read_id-put_id j none h e r = rw (e, read_id)
    read_id-put_id j (some i) h e r =
        ground (arith, L.member_put j "id" (of_int i) "id", L.int64_is_int i r)
