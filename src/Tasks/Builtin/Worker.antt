-- ===== src/Tasks/Builtin/Worker.antt =====
-- What the two classes share: the state of a task, and the thread that runs its loop.
use test_ai_agent.Prelude.{
  String, Bool, true, false, not, ◌&&◌, Option, none, some, ◌≡◌, refl, arith, ◌∙◌, if◌then◌else◌,
  ◌==◌,
}
use test_ai_agent.Prelude.Int.{ℤ, pos, negsuc}
use test_ai_agent.Tasks.State.{TaskState, pending, running, stopping, stopped, failed}
use test_ai_agent.Tasks.Manager.Calls.{is_active}

-- `joinable` is that of `worker_thread_`; `has_stopped` is `stopped_`.
pub record BuiltinTask : Type 0 where
  pub id : String
  pub state : TaskState
  pub has_stopped : Bool
  pub last_error : String
  pub joinable : Bool

abbrev pub new_task : String → BuiltinTask
new_task id = record {
  id = id;
  state = pending;
  has_stopped = false;
  last_error = "";
  joinable = false;
}

abbrev pub is_pending : TaskState → Bool
is_pending pending = true
is_pending _ = false

-- With what the constructor of `std::thread` throws, if it does.
unfoldable pub start : Option String → BuiltinTask → BuiltinTask × Bool
start thrown t =
    if not (is_pending t.state)
    then (record t { last_error = "Task already started" }, false)
    else elim thrown [
      | none ↦ (record t { state = running; joinable = true }, true)
      | some what ↦ (record t { state = failed; last_error = what }, false)
    ]

unfoldable pub request_stop : BuiltinTask → BuiltinTask
request_stop t = record t { state = stopping }

-- The end of `run_loop`.
unfoldable pub finish : BuiltinTask → BuiltinTask
finish t = record t { state = stopped; has_stopped = true }

-- `wait_stopped`, once the thread has ended: it is joined.
unfoldable pub wait_stopped : ℤ → BuiltinTask → BuiltinTask × Bool
wait_stopped timeout t =
    let joined = record t { joinable = false } in
    if not t.joinable then (t, true) else elim timeout [
      | negsuc n ↦ (joined, true)
      | pos n ↦ if n == 0 then (joined, true) else (joined, t.has_stopped)
    ]

-- The thread is in its loop.
abbrev pub is_looping : BuiltinTask → Bool
is_looping t = t.joinable && not t.has_stopped

-- What can happen to a task, in any order: calls of the manager, and the end of the loop.
pub data Step : BuiltinTask → BuiltinTask → Type 0 where
  starts : (thrown : Option String) (t : BuiltinTask) → Step t (start thrown t).0
  asked : (t : BuiltinTask) → Step t (request_stop t)
  ends : (t : BuiltinTask) → is_looping t ≡ true → Step t (finish t)
  waited :
      (timeout : ℤ) (t : BuiltinTask) → is_looping t ≡ false → Step t (wait_stopped timeout t).0

pub data Steps : BuiltinTask → BuiltinTask → Type 0 where
  done : (t : BuiltinTask) → Steps t t
  more : (t u v : BuiltinTask) → Step t u → Steps u v → Steps t v

-- A task that is stopping although no loop of its runs.
pub record IsStuck (t : BuiltinTask) : Type 0 where
  pub stopping_state : t.state ≡ stopping
  pub idle : is_looping t ≡ false

wait_stopped_lem :
    (timeout : ℤ) (t : BuiltinTask)
    → ((wait_stopped timeout t).0.state ≡ t.state)
      × (is_looping t ≡ false → is_looping (wait_stopped timeout t).0 ≡ false)
unfolding wait_stopped
wait_stopped_lem (pos n) t = ground arith
wait_stopped_lem (negsuc n) t = ground arith

Step-IsStuck : (t u : BuiltinTask) → Step t u → IsStuck t → IsStuck u
unfolding start request_stop finish wait_stopped
Step-IsStuck t _ (starts thrown _) i =
    rw i.stopping_state (record { stopping_state = refl; idle = i.idle })
Step-IsStuck t _ (asked _) i = record { stopping_state = refl; idle = i.idle }
Step-IsStuck t _ (ends _ looping) i = cc (looping, i.idle)
Step-IsStuck t _ (waited timeout _ ended) i = record {
  stopping_state = (wait_stopped_lem timeout t).0 ∙ i.stopping_state;
  idle = (wait_stopped_lem timeout t).1 ended;
}

Steps-IsStuck : (t u : BuiltinTask) → Steps t u → IsStuck t → IsStuck u
Steps-IsStuck t _ (done _) i = i
Steps-IsStuck t v (more _ u _ s rest) i = Steps-IsStuck u v rest (Step-IsStuck t u s i)

-- A request to stop a task whose loop is not running leaves it `stopping`, and counted as active,
-- whatever is called of it and whatever happens from then on.
pub request_stop_idle :
    (t u : BuiltinTask)
    → is_looping t ≡ false
    → Steps (request_stop t) u
    → (u.state ≡ stopping) × (is_active u.state ≡ true)
unfolding request_stop
request_stop_idle t u idle steps =
    let stuck : IsStuck (request_stop t) = record { stopping_state = refl; idle = idle } in
    let i = Steps-IsStuck (request_stop t) u steps stuck in
    (i.stopping_state, rw i.stopping_state refl)
