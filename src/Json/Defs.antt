-- ===== src/Json/Defs.antt =====
-- nlohmann::json, which is not part of the repository: the operations that the program calls, and
-- the documented behaviour that its correctness rests on.
use test_ai_agent.Prelude.{
  ℕ, String, Bool, true, Option, none, some, List, ◌∷◌, [], ◌++◌, ◌≡◌, ◌≢◌, All, str_eq,
  if◌then◌else◌,
}
use test_ai_agent.Prelude.Int.{ℤ, InInt32, InInt64}
use test_ai_agent.Prelude.Outcome.{Outcome, returns}

abbrev pub newline : ℕ
newline = 10

pub record JsonLib (Json : Type 0) : Type 0 where
  pub null : Json
  -- `json::object()`
  pub object : Json
  pub array : List Json → Json
  pub of_string : String → Json
  pub of_int : ℤ → Json
  pub of_bool : Bool → Json
  pub is_object : Json → Bool
  pub is_null : Json → Bool
  -- `size()`, and the elements where `is_array()` holds
  pub size : Json → ℕ
  pub elements : Json → Option (List Json)
  -- `contains(key)`, and `operator[]` for a key that is there
  pub member : Json → String → Option Json
  -- `j[key] = value`
  pub put : Json → String → Json → Json
  -- `is_string()`, and `get<std::string>()` where it holds
  pub get_string : Json → Option String
  -- `is_number_integer()`, and `get<int64_t>()` where it holds
  pub get_int64 : Json → Option ℤ
  -- the calls that throw a `type_error` at a value of another type
  pub as_string : Json → Outcome String
  pub as_int : Json → Outcome ℤ
  -- `j.value(key, default)`
  pub value_int : Json → String → ℤ → Outcome ℤ
  pub value_string : Json → String → String → Outcome String
  pub value_json : Json → String → Json → Outcome Json
  -- `json::parse(line)`: `none` is the exception of a malformed text
  pub parse : List ℕ → Option Json
  pub dump : Json → List ℕ

module _ {Json : Type 0} (J : JsonLib Json) where
  open J use {
    null, object, of_string, of_int, is_object, is_null, elements, member, put, get_string,
    get_int64, as_string, as_int, value_int, value_string, dump,
  }

  pub record JsonLaws : Type 0 where
    pub object_is_object : is_object object ≡ true
    pub put_is_object :
        (j : Json) (k : String) (v : Json) → is_object j ≡ true → is_object (put j k v) ≡ true
    -- an assignment to a key of a null value makes it an object
    pub put_null : (k : String) (v : Json) → put null k v ≡ put object k v
    pub member_object : (k : String) → member object k ≡ none
    pub member_put :
        (j : Json) (k : String) (v : Json) (l : String)
        → is_object j ≡ true
        → member (put j k v) l ≡ (if str_eq k l then some v else member j l)
    pub object_is_no_array : (j : Json) → is_object j ≡ true → elements j ≡ none
    pub string_is_string : (s : String) → get_string (of_string s) ≡ some s
    pub int64_is_int : (i : ℤ) → InInt64 i → get_int64 (of_int i) ≡ some i
    pub value_int_found :
        (j : Json) (k : String) (d i : ℤ)
        → member j k ≡ some (of_int i)
        → InInt32 i
        → value_int j k d ≡ returns i
    pub value_int_missing :
        (j : Json) (k : String) (d : ℤ)
        → is_object j ≡ true
        → member j k ≡ none
        → value_int j k d ≡ returns d
    pub value_string_found :
        (j : Json) (k d s : String)
        → member j k ≡ some (of_string s)
        → value_string j k d ≡ returns s
    -- `dump()` writes one line: a line feed in a text is escaped
    pub dump_one_line : (j : Json) → All (λ c. c ≢ newline) (dump j)
    pub dump_object :
        (j : Json) → is_object j ≡ true → (inner : List ℕ) × (dump j ≡ b'{' ∷ (inner ++ b'}' ∷ []))
