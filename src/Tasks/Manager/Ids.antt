-- ===== src/Tasks/Manager/Ids.antt =====
-- The ids that `add_task` of src/tasks/task_manager.cpp makes from its counter.
use Prim.Native.Nat.{◌%◌, ◌+◌, ◌^◌, ◌<◌}
use text.Mathlib.TextLemmas.{append_cancel_left}
use test_ai_agent.Prelude.{
  ℕ, String, false, none, some, ◌≡◌, ◌≢◌, refl, arith, ◌∙◌, sym, text_key, Option-cases, Bool-cases,
  inl, inr, Option,
}
use test_ai_agent.Prelude.Decimal.{to_string, to_string-injective}
use test_ai_agent.Prelude.Exec.{Exec, returns, throws, crashes}
use test_ai_agent.Prelude.Maps.{Map, lookup, insert, insert_cases}
use test_ai_agent.Tasks.Registry.{create_task}
use test_ai_agent.Tasks.Manager.Defs.{TaskEntry, TaskManager, task_id, insert_task, add_task}

task_id-injective : (a b : ℕ) → task_id a ≡ task_id b → a ≡ b
unfolding task_id
task_id-injective a b e =
    to_string-injective a b (append_cancel_left "task_" (to_string a) (to_string b) e)

-- Every id in the map came from a number below `n`.
abbrev pub IsNumbered : {T : Type 0} → ℕ → Map String (TaskEntry T) → Type 0
IsNumbered {T} n m =
    (id : String) (e : TaskEntry T) → lookup id m ≡ some e → (k : ℕ) × (k < n) × (id ≡ task_id k)

module _ {T : Type 0} where
  next_id_fresh :
      (n : ℕ) (m : Map String (TaskEntry T)) → IsNumbered n m → lookup (task_id n) m ≡ none
  next_id_fresh n m h = elim (Option-cases (lookup (task_id n) m)) [
    | inl fresh ↦ fresh
    | inr (e, found) ↦
        let (k, below, same) = h (task_id n) e found in
        absurd (omega (arith, below, task_id-injective n k same))
  ]

  later-IsNumbered : (n : ℕ) (m : Map String (TaskEntry T)) → IsNumbered n m → IsNumbered (n + 1) m
  later-IsNumbered n m h id e found =
      let (k, below, same) = h id e found in (k, omega (arith, below), same)

  insert-IsNumbered :
      (n : ℕ) (e : TaskEntry T) (m : Map String (TaskEntry T))
      → IsNumbered n m
      → IsNumbered (n + 1) (insert (task_id n) e m)
  insert-IsNumbered n e m h id f found = elim (insert_cases (task_id n) id e m) [
    | inl (same, there) ↦ (n, omega arith, sym same)
    | inr (differ, before) ↦ later-IsNumbered n m h id f (sym before ∙ found)
  ]

module _ {T Json : Type 0} where
  abbrev pub Numbered : TaskManager T Json → Type 0
  Numbered m = IsNumbered m.next_task_id m.tasks

  insert_task-Numbered :
      (p : Option T) (now : ℕ) (m : TaskManager T Json) (n : ℕ)
      → m.next_task_id ≡ n + 1
      → IsNumbered n m.tasks
      → Numbered (insert_task (task_id n) p now m).0
  unfolding insert_task
  insert_task-Numbered p now m n next h = elim (Option-cases (lookup (task_id n) m.tasks)) [
    | inl fresh ↦ rw (insert_task, fresh, next) (insert-IsNumbered n _ m.tasks h)
    | inr (e, present) ↦ rw (insert_task, present, next) (later-IsNumbered n m.tasks h)
  ]

  -- If the counter does not wrap, `add_task` keeps all ids in the map below the counter, whatever
  -- its outcome.
  pub add_task-Numbered :
      (type : String) (params : Json) (now : ℕ) (m : TaskManager T Json)
      → m.next_task_id + 1 < 2 ^ 64
      → Numbered m
      → Numbered (add_task type params now m).0
  unfolding add_task
  add_task-Numbered type params now m small h = elim (Bool-cases m.shutdown_requested) [
    | inl down ↦ rw down h
    | inr up ↦
        let name = task_id m.next_task_id in
        let counted : TaskManager T Json = record m {
          next_task_id = (m.next_task_id + 1) % 2 ^ 64;
        } in
        let next : (m.next_task_id + 1) % 2 ^ 64 ≡ m.next_task_id + 1 = omega (arith, small) in
        let later : Numbered counted = rw next (later-IsNumbered m.next_task_id m.tasks h) in
        rw up
          (elim (create_task type name params m.registry)
            as (λ r.
              Numbered
                (elim r as (λ x. TaskManager T Json × Exec String) [
                  | returns none ↦ (counted, returns "")
                  | returns (some task) ↦ insert_task name (some task) now counted
                  | throws e ↦ (counted, throws e)
                  | crashes ↦ (counted, crashes)
                ]).0) [
                  | returns none ↦ later
                  | returns (some task) ↦
                      insert_task-Numbered (some task) now counted m.next_task_id next h
                  | throws e ↦ later
                  | crashes ↦ later
                ])
  ]

  -- If the ids in the map come from numbers below the counter, the counter does not wrap, no
  -- shutdown was asked for and the factory makes a task, `add_task` returns the id of the counter,
  -- which no entry had, and any other id is looked up as before.
  pub add_task_accepts :
      (type : String) (params : Json) (now : ℕ) (task : T) (m : TaskManager T Json) (other : String)
      → m.next_task_id + 1 < 2 ^ 64
      → Numbered m
      → m.shutdown_requested ≡ false
      → create_task type (task_id m.next_task_id) params m.registry ≡ returns (some task)
      → other ≢ task_id m.next_task_id
      → ((add_task type params now m).1 ≡ returns (task_id m.next_task_id))
        × (lookup (task_id m.next_task_id) m.tasks ≡ none)
        × (lookup other (add_task type params now m).0.tasks ≡ lookup other m.tasks)
  unfolding add_task insert_task
  add_task_accepts type params now task m other small h up made differ =
      let entry : TaskEntry T = record {
        task = none;
        stop_requested = false;
        is_running = false;
        created_at = now;
        started_at = 0;
        stopped_at = 0;
      } in
      let fresh = next_id_fresh m.next_task_id m.tasks h in
      let kept : lookup other (insert (task_id m.next_task_id) entry m.tasks)
          ≡ lookup other m.tasks =
        elim (insert_cases (task_id m.next_task_id) other entry m.tasks) [
          | inl (same, there) ↦ absurd (differ (sym same))
          | inr (apart, before) ↦ before
        ] in
      (rw (up, made, insert_task, fresh) refl, fresh, rw (up, made, insert_task, fresh) kept)
