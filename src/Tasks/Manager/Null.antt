-- ===== src/Tasks/Manager/Null.antt =====
-- `add_task` of src/tasks/task_manager.cpp moves its pointer twice: what its callers find.
use Prim.Native.Nat.{◌%◌, ◌+◌, ◌^◌}
use test_ai_agent.Prelude.{
  ℕ, String, true, false, [], ◌∷◌, Option, none, some, ◌≡◌, ◌≢◌, refl, arith, ◌∙◌, text_key,
  Option-cases, Bool-cases, inl, inr, str_eq, eq_iff,
}
use test_ai_agent.Prelude.Exec.{Exec, returns, throws, crashes}
use test_ai_agent.Prelude.Maps.{Map, lookup, lookup-insert}
use test_ai_agent.Tasks.State.{ITask}
use test_ai_agent.Tasks.Registry.{create_task}
use test_ai_agent.Tasks.Manager.Defs.{TaskEntry, TaskManager, task_id, insert_task, add_task}
use test_ai_agent.Tasks.Manager.Calls.{
  run_task, stop_entry, stop_task, info_of, get_task_info, infos, list_tasks, count_active,
  active_count,
}

-- The entry of the id is there and points to no task.
abbrev pub IsNull : {T : Type 0} → String → Map String (TaskEntry T) → Type 0
IsNull {T} id m = (e : TaskEntry T) × (lookup id m ≡ some e) × (e.task ≡ none)

module _ {T : Type 0} (ops : ITask T) where
  infos-IsNull :
      (id : String) (m : Map String (TaskEntry T))
      → IsNull id m
      → (infos ops m ≡ crashes) × (count_active ops m ≡ crashes)
  unfolding lookup infos info_of count_active
  infos-IsNull id [] (e, found, n) = cc found
  infos-IsNull id ((j, f) ∷ m) (e, found, n) = elim (Option-cases f.task) [
    | inl null ↦ (rw null, rw null)
    | inr (t, points) ↦ elim (Bool-cases (str_eq j id)) [
      | inl same ↦ absurd (ground (arith, found, same, points, n))
      | inr differ ↦
          let rest = infos-IsNull id m (e, ground (arith, found, differ), n) in
          (rw (points, rest.0), rw (points, rest.1))
    ]
  ]

module _ {T Json : Type 0} where
  -- What a call that returned an id left under it.
  abbrev Leaves : String → TaskManager T Json × Exec String → Type 0
  Leaves id (m, r) = r ≡ returns id → id ≢ "" → IsNull id m.tasks

  insert_task-Leaves :
      (id name : String) (p : Option T) (now : ℕ) (m : TaskManager T Json)
      → Leaves id (insert_task name p now m)
  unfolding insert_task
  insert_task-Leaves id name p now m = elim (Option-cases (lookup name m.tasks)) [
    | inl fresh ↦
        let entry : TaskEntry T = record {
          task = none;
          stop_requested = false;
          is_running = false;
          created_at = now;
          started_at = 0;
          stopped_at = 0;
        } in
        rw (insert_task, fresh)
          (λ h ne.
            let same : str_eq name id ≡ true = (eq_iff name id).1 (cc h) in
            (entry, lookup-insert name id entry m.tasks ∙ rw same refl, refl))
    | inr (e, present) ↦ rw (insert_task, present) (λ h ne. absurd (ne (cc h)))
  ]

  add_task-Leaves :
      (id type : String) (params : Json) (now : ℕ) (m : TaskManager T Json)
      → Leaves id (add_task type params now m)
  unfolding add_task
  add_task-Leaves id type params now m = elim (Bool-cases m.shutdown_requested) [
    | inl down ↦ rw down (λ h ne. absurd (ne (cc h)))
    | inr up ↦
        let name = task_id m.next_task_id in
        let counted = record m { next_task_id = (m.next_task_id + 1) % 2 ^ 64 } in
        rw up
          (elim (create_task type name params m.registry)
            as (λ r. Leaves id (elim r [
              | returns none ↦ (counted, returns "")
              | returns (some task) ↦ insert_task name (some task) now counted
              | throws e ↦ (counted, throws e)
              | crashes ↦ (counted, crashes)
            ])) [
              | returns none ↦ λ h ne. absurd (ne (cc h))
              | returns (some task) ↦ insert_task-Leaves id name (some task) now counted
              | throws e ↦ λ h ne. cc h
              | crashes ↦ λ h ne. cc h
            ])
  ]

  -- What follows the null pointer of an entry: its thread, a request to stop it, and the calls that
  -- read the tasks.
  abbrev pub Unusable : ITask T → String → TaskManager T Json → Type 0
  Unusable ops id m =
      ((e : TaskEntry T) × (lookup id m.tasks ≡ some e)
        × ((started ended : ℕ) → run_task ops started ended e ≡ crashes))
      × ((stop_task ops id m).1 ≡ crashes)
      × (get_task_info ops id m ≡ crashes)
      × (list_tasks ops m ≡ crashes)
      × (active_count ops m ≡ crashes)

  IsNull-Unusable :
      (ops : ITask T) (id : String) (m : TaskManager T Json) → IsNull id m.tasks → Unusable ops id m
  unfolding run_task stop_task stop_entry get_task_info info_of list_tasks active_count
  IsNull-Unusable ops id m (e, found, null) =
      let (listed, counted) = infos-IsNull ops id m.tasks (e, found, null) in
      (
        (e, found, λ started ended. rw (run_task, null) refl),
        rw (stop_task, found, stop_entry, null) refl,
        rw (get_task_info, found, info_of, null) refl,
        rw listed refl,
        counted,
      )

  -- If `add_task` returns an id that is not empty, the entry of that id has no task: its thread, a
  -- request to stop it, and the calls that read the tasks all follow a null pointer.
  pub add_task-Unusable :
      (ops : ITask T) (type id : String) (params : Json) (now : ℕ) (m : TaskManager T Json)
      → (add_task type params now m).1 ≡ returns id
      → id ≢ ""
      → Unusable ops id (add_task type params now m).0
  add_task-Unusable ops type id params now m added ne =
      IsNull-Unusable ops id (add_task type params now m).0
        (add_task-Leaves id type params now m added ne)
