-- ===== src/Json/Sample.antt =====
-- A small value type that meets the assumptions on the JSON library, at which the theorems are
-- applied. Its parser is given; its printer shows only whether a value is an object.
use test_ai_agent.Prelude.{
  ℕ, suc, String, Bool, true, false, Option, none, some, List, ◌∷◌, [], ◌≡◌, refl, arith, str_eq,
  if◌then◌else◌, All, ◌≢◌, ◌++◌,
}
use test_ai_agent.Prelude.Int.{ℤ}
use test_ai_agent.Prelude.Outcome.{Outcome, returns, throws}
use test_ai_agent.Json.Defs.{JsonLib, JsonLaws, newline}

mutual
  pub data Fields : Type 0 where
    field : String → Value → Fields → Fields
    end : Fields

  pub data Items : Type 0 where
    cons : Value → Items → Items
    nil : Items

  pub data Value : Type 0 where
    obj : Fields → Value
    arr : Items → Value
    text : String → Value
    num : ℤ → Value
    bool : Bool → Value
    nul : Value

abbrev items : List Value → Items
items [] = nil
items (x ∷ xs) = cons x (items xs)

abbrev length : Items → ℕ
length nil = 0
length (cons x xs) = suc (length xs)

abbrev count : Fields → ℕ
count end = 0
count (field k v fs) = suc (count fs)

abbrev size : Value → ℕ
size (obj fs) = count fs
size (arr xs) = length xs
size nul = 0
size _ = 1

abbrev list_of : Items → List Value
list_of nil = []
list_of (cons x xs) = x ∷ list_of xs

abbrev elements : Value → Option (List Value)
elements (arr xs) = some (list_of xs)
elements _ = none

abbrev find : String → Fields → Option Value
find k end = none
find k (field j v fs) = if str_eq j k then some v else find k fs

abbrev member : Value → String → Option Value
member (obj fs) k = find k fs
member _ k = none

abbrev put : Value → String → Value → Value
put nul k v = obj (field k v end)
put (obj fs) k v = obj (field k v fs)
put j k v = j

abbrev is_object : Value → Bool
is_object (obj fs) = true
is_object _ = false

abbrev is_null : Value → Bool
is_null nul = true
is_null _ = false

abbrev get_string : Value → Option String
get_string (text s) = some s
get_string _ = none

abbrev get_int : Value → Option ℤ
get_int (num i) = some i
get_int _ = none

abbrev or_throw {ℓ} : {A : Type ℓ} → Option A → Outcome A
or_throw none = throws "type_error"
or_throw (some a) = returns a

abbrev value {ℓ} : {A : Type ℓ} → (Value → Outcome A) → Option Value → A → Outcome A
value convert none d = returns d
value convert (some v) d = convert v

abbrev dump : Value → List ℕ
dump (obj fs) = b'{' ∷ b'}' ∷ []
dump _ = b'0' ∷ []

abbrev pub sample_json : (List ℕ → Option Value) → JsonLib Value
sample_json parse = record {
  null = nul;
  object = obj end;
  array = λ xs. arr (items xs);
  of_string = text;
  of_int = num;
  of_bool = bool;
  size = size;
  elements = elements;
  is_object = is_object;
  is_null = is_null;
  member = member;
  put = put;
  get_string = get_string;
  get_int64 = get_int;
  as_string = λ j. or_throw (get_string j);
  as_int = λ j. or_throw (get_int j);
  value_int = λ j k d. value (λ v. or_throw (get_int v)) (member j k) d;
  value_string = λ j k d. value (λ v. or_throw (get_string v)) (member j k) d;
  value_json = λ j k d. value returns (member j k) d;
  parse = parse;
  dump = dump;
}

put_is_object :
    (j : Value) (k : String) (v : Value) → is_object j ≡ true → is_object (put j k v) ≡ true
put_is_object nul k v h = refl
put_is_object (obj fs) k v h = refl
put_is_object _ k v h = h

member_put :
    (j : Value) (k : String) (v : Value) (l : String)
    → is_object j ≡ true
    → member (put j k v) l ≡ (if str_eq k l then some v else member j l)
member_put (obj fs) k v l h = refl
member_put _ k v l h = ground arith

object_is_no_array : (j : Value) → is_object j ≡ true → elements j ≡ none
object_is_no_array (obj fs) h = refl
object_is_no_array (arr xs) h = cc
object_is_no_array (text t) h = cc
object_is_no_array (num i) h = cc
object_is_no_array (bool b) h = cc
object_is_no_array nul h = cc

dump_one_line : (j : Value) → All (λ c. c ≢ newline) (dump j)
dump_one_line (obj fs) = omega arith
dump_one_line _ = omega arith

dump_object :
    (j : Value) → is_object j ≡ true → (inner : List ℕ) × (dump j ≡ b'{' ∷ (inner ++ b'}' ∷ []))
dump_object (obj fs) h = ([], refl)
dump_object _ h = ground arith

pub sample_laws : (parse : List ℕ → Option Value) → JsonLaws (sample_json parse)
sample_laws parse = record {
  object_is_object = refl;
  put_is_object = put_is_object;
  put_null = λ k v. refl;
  member_object = λ k. refl;
  member_put = member_put;
  object_is_no_array = object_is_no_array;
  string_is_string = λ s. refl;
  int64_is_int = λ i h. refl;
  value_int_found = λ j k d i e h. rw e;
  value_int_missing = λ j k d h e. rw e;
  value_string_found = λ j k d s e. rw e;
  dump_one_line = dump_one_line;
  dump_object = dump_object;
}
