-- ===== src/Tasks/Registry.antt =====
-- `TaskRegistry` of src/tasks/task_registry.cpp: factories by the name of a type.
use Prim.Native.String.{compare}
use Prim.Native.Nat.{Ordering}
use test_ai_agent.Prelude.{
  List, [], ◌∷◌, map, String, Bool, true, false, not, ◌&&◌, Option, none, some, is_some, text_key,
  if◌then◌else◌, ◌≡◌, arith, str_eq, eq_iff,
}
use test_ai_agent.Prelude.Exec.{Exec, returns}
use test_ai_agent.Prelude.Maps.{Map, lookup, insert, lookup-insert}

-- A factory takes the id and the parameters; it may return null, or throw.
abbrev pub TaskFactory : Type 0 → Type 0 → Type 0
TaskFactory T Json = String → Json → Exec (Option T)

abbrev pub TaskRegistry : Type 0 → Type 0 → Type 0
TaskRegistry T Json = Map String (TaskFactory T Json)

abbrev pub insert_text : String → List String → List String
insert_text a [] = a ∷ []
insert_text a (b ∷ bs) =
    let rest = insert_text a bs in elim (compare b a) [ Ordering.lt ↦ b ∷ rest | _ ↦ a ∷ b ∷ bs ]

abbrev pub sort_texts : List String → List String
sort_texts [] = []
sort_texts (a ∷ more) = insert_text a (sort_texts more)

module _ {T Json : Type 0} where
  unfoldable pub has_type : String → TaskRegistry T Json → Bool
  has_type type r = is_some (lookup type r)

  -- A name that is taken keeps its factory.
  unfoldable pub register_task_type :
      String → TaskFactory T Json → TaskRegistry T Json → TaskRegistry T Json × Bool
  register_task_type type factory r =
      if is_some (lookup type r) then (r, false) else (insert type factory r, true)

  unfoldable pub create_task : String → String → Json → TaskRegistry T Json → Exec (Option T)
  create_task type id params r = elim (lookup type r) [
    | none ↦ returns none
    | some factory ↦ factory id params
  ]

  -- In the order of the texts, as `std::sort` leaves them.
  unfoldable pub get_registered_types : TaskRegistry T Json → List String
  get_registered_types r = sort_texts (map (λ (e : String × TaskFactory T Json). e.0) r)

  -- After a registration, a task of the registered name is created by the factory that was there
  -- first, or by the new one if there was none; any other name is created as before.
  pub create_task-register_task_type :
      (type name id : String) (params : Json) (f : TaskFactory T Json) (r : TaskRegistry T Json)
      → create_task name id params (register_task_type type f r).0 ≡ (
          if str_eq type name && not (has_type name r)
          then f id params
          else create_task name id params r)
  unfolding create_task register_task_type has_type
  create_task-register_task_type type name id params f r =
      ground (arith, lookup-insert type name f r, eq_iff type name)
