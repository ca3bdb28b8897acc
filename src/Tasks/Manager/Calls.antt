-- ===== src/Tasks/Manager/Calls.antt =====
-- The other operations of the manager: the thread of a task, stopping, and what is listed.
use Prim.Native.String.{compare}
use Prim.Native.Nat.{Ordering}
use test_ai_agent.Prelude.{
  ℕ, suc, String, Bool, true, false, List, [], ◌∷◌, map, Option, none, some, text_key,
  if◌then◌else◌,
}
use test_ai_agent.Prelude.Exec.{Exec, returns, throws, crashes, ◌>>=◌}
use test_ai_agent.Prelude.Maps.{Map, lookup, insert}
use test_ai_agent.Tasks.State.{TaskState, running, stopping, ITask}
use test_ai_agent.Tasks.Manager.Defs.{TaskEntry, TaskManager}

pub record TaskInfo : Type 0 where
  pub id : String
  pub type : String
  pub description : String
  pub state : TaskState
  pub last_error : String
  pub created_at : ℕ
  pub started_at : ℕ
  pub stopped_at : ℕ

-- In the order of the texts' code points, as `std::sort` by `a.id < b.id` leaves them.
unfoldable pub insert_by_id : TaskInfo → List TaskInfo → List TaskInfo
insert_by_id a [] = a ∷ []
insert_by_id a (b ∷ bs) =
    let rest = insert_by_id a bs in
    elim (compare b.id a.id) [ Ordering.lt ↦ b ∷ rest | _ ↦ a ∷ b ∷ bs ]

unfoldable pub sort_by_id : List TaskInfo → List TaskInfo
sort_by_id [] = []
sort_by_id (a ∷ more) = insert_by_id a (sort_by_id more)

-- Of a running or stopping task.
abbrev pub is_active : TaskState → Bool
is_active running = true
is_active stopping = true
is_active _ = false

module _ {T : Type 0} (ops : ITask T) where
  -- The task is started, which may fail, and waited for, unless an exception ends that.
  unfoldable pub run_until_stopped : T → T × Exec Bool
  run_until_stopped t =
      let (t', r) = ops.start t in
      elim r [
        | returns started ↦ ops.wait_stopped t'
        | throws e ↦ (t', throws e)
        | crashes ↦ (t', crashes)
      ]

  -- The end is noted, after an exception too.
  unfoldable pub noted : ℕ → ℕ → TaskEntry T → T × Exec Bool → Exec (TaskEntry T)
  noted started ended e (t, r) =
      let over = record e {
        task = some t;
        is_running = false;
        started_at = started;
        stopped_at = ended;
      } in
      elim r [ returns done ↦ returns over | throws what ↦ returns over | crashes ↦ crashes ]

  -- The thread of an entry, from its start to its end.
  unfoldable pub run_task : ℕ → ℕ → TaskEntry T → Exec (TaskEntry T)
  run_task started ended e = elim e.task [
    | none ↦ crashes
    | some t ↦ noted started ended e (run_until_stopped t)
  ]

  unfoldable pub info_of : TaskEntry T → Exec TaskInfo
  info_of e = elim e.task [
    | none ↦ crashes
    | some t ↦ returns (record {
      id = ops.id t;
      type = ops.type t;
      description = ops.description t;
      state = ops.state t;
      last_error = ops.last_error t;
      created_at = e.created_at;
      started_at = e.started_at;
      stopped_at = e.stopped_at;
    })
  ]

  unfoldable pub infos : Map String (TaskEntry T) → Exec (List TaskInfo)
  infos [] = returns []
  infos ((id, e) ∷ rest) = do info ← info_of e; others ← infos rest; returns (info ∷ others)

  unfoldable pub count_active : Map String (TaskEntry T) → Exec ℕ
  count_active [] = returns 0
  count_active ((id, e) ∷ rest) = elim e.task [
    | none ↦ crashes
    | some t ↦ do n ← count_active rest; returns (if is_active (ops.state t) then suc n else n)
  ]

module _ {T Json : Type 0} (ops : ITask T) where
  -- The stop source is set before the task is told.
  unfoldable pub stop_entry :
      String → TaskEntry T → TaskManager T Json → TaskManager T Json × Exec Bool
  stop_entry id e m =
      let stopped_entry = record e { stop_requested = true } in
      elim e.task [
        | none ↦ (record m { tasks = insert id stopped_entry m.tasks }, crashes)
        | some t ↦ (
          record m {
            tasks = insert id (record stopped_entry { task = some (ops.request_stop t) }) m.tasks;
          },
          returns true,
        )
      ]

  unfoldable pub stop_task : String → TaskManager T Json → TaskManager T Json × Exec Bool
  stop_task id m = elim (lookup id m.tasks) [
    | none ↦ (m, returns false)
    | some e ↦ stop_entry id e m
  ]

  -- The requests of `stop_all_tasks`, in turn; a crash ends them.
  unfoldable pub stop_each : List String → TaskManager T Json → TaskManager T Json × Exec (Unit {0})
  stop_each [] m = (m, returns tt)
  stop_each (id ∷ ids) m =
      let (m', r) = stop_task id m in
      elim r [ returns _ ↦ stop_each ids m' | throws e ↦ (m', throws e) | crashes ↦ (m', crashes) ]

  -- Without the waiting for the threads, which changes no field of the manager (Waiting).
  unfoldable pub stop_all_tasks : TaskManager T Json → TaskManager T Json × Exec (Unit {0})
  stop_all_tasks m =
      stop_each (map (λ (e : String × TaskEntry T). e.0) m.tasks)
        (record m { shutdown_requested = true })

  unfoldable pub get_task_info : String → TaskManager T Json → Exec (Option TaskInfo)
  get_task_info id m = elim (lookup id m.tasks) [
    | none ↦ returns none
    | some e ↦ do info ← info_of ops e; returns (some info)
  ]

  unfoldable pub list_tasks : TaskManager T Json → Exec (List TaskInfo)
  list_tasks m = do found ← infos ops m.tasks; returns (sort_by_id found)

  unfoldable pub active_count : TaskManager T Json → Exec ℕ
  active_count m = count_active ops m.tasks
