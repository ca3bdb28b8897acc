-- ===== src/Tasks/Manager/Shutdown.antt =====
-- `stop_all_tasks` of src/tasks/task_manager.cpp at an entry without a task.
use test_ai_agent.Prelude.{
  String, Bool, true, false, List, [], ◌∷◌, map, some, ◌≡◌, refl, arith, ◌∙◌, ap, ◌⊎◌, inl, inr,
  Option-cases, Bool-cases, str_eq, eq_iff, text_key,
}
use test_ai_agent.Prelude.Exec.{returns, crashes}
use test_ai_agent.Prelude.Maps.{Map, lookup, lookup-insert}
use test_ai_agent.Tasks.State.{ITask}
use test_ai_agent.Tasks.Manager.Defs.{TaskEntry, TaskManager}
use test_ai_agent.Tasks.Manager.Calls.{stop_entry, stop_task, stop_each, stop_all_tasks}
use test_ai_agent.Tasks.Manager.Null.{IsNull}

-- The id is one of those that are stopped.
abbrev Listed : String → List String → Type 0
Listed id [] = ⊥
Listed id (j ∷ js) = (str_eq j id ≡ true) ⊎ Listed id js

lookup-Listed :
    {T : Type 0} (id : String) (m : Map String (TaskEntry T)) (e : TaskEntry T)
    → lookup id m ≡ some e
    → Listed id (map (λ (p : String × TaskEntry T). p.0) m)
unfolding lookup
lookup-Listed id [] e found = cc found
lookup-Listed id ((j, f) ∷ m) e found = elim (Bool-cases (str_eq j id)) [
  | inl same ↦ inl same
  | inr differ ↦ inr (lookup-Listed id m e (ground (arith, found, differ)))
]

module _ {T Json : Type 0} (ops : ITask T) where
  -- A call for another id returns or crashes, and leaves the entry as it is.
  stop_task-IsNull :
      (j id : String) (m : TaskManager T Json)
      → IsNull id m.tasks
      → ((stop_task ops j m).1 ≡ crashes)
        ⊎ ((str_eq j id ≡ false)
            × ((b : Bool) × ((stop_task ops j m).1 ≡ returns b))
            × IsNull id (stop_task ops j m).0.tasks)
  unfolding stop_task stop_entry
  stop_task-IsNull j id m (e, found, null) = elim (Bool-cases (str_eq j id)) [
    | inl same ↦
        let at : lookup j m.tasks ≡ some e =
          ap (λ k. lookup k m.tasks) ((eq_iff j id).0 same) ∙ found in
        inl (rw (stop_task, at, stop_entry, null) refl)
    | inr differ ↦ elim (Option-cases (lookup j m.tasks)) [
      | inl absent ↦ rw (stop_task, absent) (inr (differ, (false, refl), (e, found, null)))
      | inr (f, at) ↦ elim (Option-cases f.task) [
        | inl none_there ↦ inl (rw (stop_task, at, stop_entry, none_there) refl)
        | inr (t, there) ↦
            rw (stop_task, at, stop_entry, there)
              (inr
                (differ, (true, refl), (e, lookup-insert j id _ m.tasks ∙ rw differ found, null)))
      ]
    ]
  ]

  stop_each-crashes :
      (ids : List String) (id : String) (m : TaskManager T Json)
      → Listed id ids
      → IsNull id m.tasks
      → (stop_each ops ids m).1 ≡ crashes
  unfolding stop_each
  stop_each-crashes [] id m listed h = absurd listed
  stop_each-crashes (j ∷ ids) id m listed h = elim (stop_task-IsNull j id m h) [
    | inl crash ↦ rw (crash, stop_each) refl
    | inr (differ, (b, went_on), h') ↦
        rw (went_on, stop_each)
          (stop_each-crashes ids id (stop_task ops j m).0 (rest listed differ) h')
  ]
    where
      rest : Listed id (j ∷ ids) → str_eq j id ≡ false → Listed id ids
      rest (inl same) differ = cc (same, differ)
      rest (inr later) differ = later

  -- If some entry has no task, stopping all tasks follows a null pointer.
  pub stop_all_tasks-crashes :
      (id : String) (m : TaskManager T Json)
      → IsNull id m.tasks
      → (stop_all_tasks ops m).1 ≡ crashes
  unfolding stop_all_tasks
  stop_all_tasks-crashes id m (e, found, null) =
      stop_each-crashes _ id (record m { shutdown_requested = true })
        (lookup-Listed id m.tasks e found) (e, found, null)
