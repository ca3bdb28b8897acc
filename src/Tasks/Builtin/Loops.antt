-- ===== src/Tasks/Builtin/Loops.antt =====
-- `run_loop` of the two tasks. What the loop sees of the stop token and of the clock is given.
use test_ai_agent.Prelude.{
  ℕ, zero, suc, ◌+◌, ◌-◌, ◌*◌, ◌<◌, ◌≤◌, min, List, [], ◌∷◌, Bool, true, not, ◌&&◌, Option, none,
  some, ltb, if◌then◌else◌, ◌≡◌, ◌⊎◌, inl, inr, refl, arith, Bool-cases,
}
use test_ai_agent.Prelude.Int.{ℤ, pos, negsuc}
use test_ai_agent.Tasks.Builtin.Worker.{BuiltinTask, finish}

-- The loop of a heartbeat over what `stop_requested()` gives in each round: the count of the beats,
-- or `none` while it goes on.
unfoldable pub beats : List Bool → ℕ → Option ℕ
beats [] count = none
beats (stop ∷ more) count = let rest = beats more (count + 1) in if stop then some count else rest

unfoldable pub run_heartbeat : List Bool → BuiltinTask → Option BuiltinTask
run_heartbeat stops t = elim (beats stops 0) [ none ↦ none | some count ↦ some (finish t) ]

-- The number of milliseconds of one sleep.
abbrev pub check_interval : ℕ
check_interval = 100

unfoldable pub sleep_duration : ℕ → ℕ → ℕ
sleep_duration duration elapsed = min (duration - elapsed) check_interval

-- The loop of a sleep, on fuel: `clock i` is what has elapsed after the sleep of round `i`. It gives
-- what had elapsed at the end, and the count of the rounds.
unfoldable pub sleep_loop : ℕ → (ℕ → ℕ) → (ℕ → Bool) → ℕ → ℕ → ℕ → Option (ℕ × ℕ)
sleep_loop duration clock stop zero i elapsed = none
sleep_loop duration clock stop (suc fuel) i elapsed =
    let rest = sleep_loop duration clock stop fuel (suc i) (clock i) in
    if ltb elapsed duration && not (stop i) then rest else some (elapsed, i)

-- A negative duration has elapsed at once. Both branches after the loop end the task.
unfoldable pub run_sleep : ℤ → (ℕ → ℕ) → (ℕ → Bool) → BuiltinTask → Option BuiltinTask
run_sleep (negsuc n) clock stop t = some (finish t)
run_sleep (pos duration) clock stop t = elim (sleep_loop duration clock stop (suc duration) 0 0) [
  | none ↦ none
  | some (elapsed, rounds) ↦ some (finish t)
]

-- A clock that shows after each sleep at least what was slept.
abbrev pub before : (ℕ → ℕ) → ℕ → ℕ
before clock zero = 0
before clock (suc i) = clock i

pub record Sleeps (duration : ℕ) (clock : ℕ → ℕ) : Type 0 where
  pub slept :
      (i : ℕ)
      → before clock i < duration
      → before clock i + sleep_duration duration (before clock i) ≤ clock i

-- How the loop ended: the time was over or a stop was seen, and in no more rounds than there are
-- intervals in the duration, the last one counted whole.
pub record Ended (duration : ℕ) (stop : ℕ → Bool) (r : Option (ℕ × ℕ)) : Type 0 where
  pub elapsed : ℕ
  pub rounds : ℕ
  pub result : r ≡ some (elapsed, rounds)
  pub cause : (duration ≤ elapsed) ⊎ (stop rounds ≡ true)
  pub bound : rounds * check_interval < duration + check_interval

sleep_loop_lem :
    (duration : ℕ) (clock : ℕ → ℕ) (stop : ℕ → Bool) (fuel i : ℕ)
    → Sleeps duration clock
    → duration - before clock i < fuel
    → i * check_interval < duration + check_interval
    → (before clock i < duration → i * check_interval ≤ before clock i)
    → Ended duration stop (sleep_loop duration clock stop fuel i (before clock i))
unfolding sleep_loop sleep_duration
sleep_loop_lem duration clock stop zero i s enough b inv = absurd (omega arith)
sleep_loop_lem duration clock stop (suc fuel) i s enough b inv =
    elim (Bool-cases (ltb (before clock i) duration && not (stop i))) [
      | inl on ↦
          let lt : before clock i < duration = ground arith in
          let progress = s.slept i lt in
          rw (sleep_loop, on)
            (sleep_loop_lem duration clock stop fuel (suc i) s (omega (arith, progress))
              (omega (arith, inv lt)) (λ l. omega (arith, progress, inv lt)))
      | inr off ↦
          rw (sleep_loop, off)
            (record {
              elapsed = before clock i;
              rounds = i;
              result = refl;
              cause = ground arith;
              bound = b;
            })
    ]

-- If the clock shows after each sleep at least what was slept, the loop of a sleep ends within one
-- round for each millisecond of the duration: because the duration is over or a stop was seen, and
-- after at most one sleep for each 100 milliseconds begun.
pub sleep_loop_ends :
    (duration : ℕ) (clock : ℕ → ℕ) (stop : ℕ → Bool)
    → Sleeps duration clock
    → Ended duration stop (sleep_loop duration clock stop (suc duration) 0 0)
sleep_loop_ends duration clock stop s =
    sleep_loop_lem duration clock stop (suc duration) 0 s (omega arith) (omega arith)
      (λ l. omega arith)
