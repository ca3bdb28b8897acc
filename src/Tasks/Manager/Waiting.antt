-- ===== src/Tasks/Manager/Waiting.antt =====
-- The waiting of `stop_all_tasks` of src/tasks/task_manager.cpp for the threads of the tasks. What each
-- look at `running` and at the clock gives is an argument, in milliseconds and counted over all looks.
use test_ai_agent.Prelude.{
  ℕ, zero, suc, ◌+◌, ◌*◌, ◌<◌, ◌≤◌, List, [], ◌∷◌, length, Bool, true, false, not, Option, none,
  some, leb, if◌then◌else◌, ◌≡◌, refl, arith, inl, inr, Bool-cases, ap, ◌∙◌,
}

module _ (deadline : ℕ) (is_running : ℕ → Bool) (clock : ℕ → ℕ) where
  -- The loop for one entry, on fuel, from look `k` on: the look that comes after its last one.
  unfoldable pub wait_entry : ℕ → ℕ → Option ℕ
  wait_entry zero k = none
  wait_entry (suc fuel) k =
      let rest = wait_entry fuel (suc k) in
      if not (is_running k)
      then some (suc k)
      else if leb deadline (clock k)
      then some (suc k)
      else rest

  -- The entries in turn, with whether each is running when its turn comes, and the count of these
  -- first looks: the look of the loops that comes after the last one, and the count.
  unfoldable pub wait_all : ℕ → List Bool → ℕ → ℕ → Option (ℕ × ℕ)
  wait_all fuel [] k first = some (k, first)
  wait_all fuel (runs ∷ more) k first =
      let next = wait_all fuel more k (suc first) in
      if runs
      then elim (wait_entry fuel k) [ none ↦ none | some k' ↦ wait_all fuel more k' (suc first) ]
      else next

  -- The clock does not go back, and goes on by 50 over the sleep after a look that found the thread
  -- running and the time not over.
  pub record Sleeps : Type 0 where
    pub goes_on : (k : ℕ) → clock k ≤ clock (suc k)
    pub slept : (k : ℕ) → is_running k ≡ true → clock k < deadline → clock k + 50 ≤ clock (suc k)

  -- Before look `k`, which is no later than the time and the entries that are done allow.
  record Behind (start done k : ℕ) : Type 0 where
    sleeps : ℕ
    looks : k ≤ done + sleeps
    time : start + sleeps * 50 ≤ clock k
    few : sleeps ≤ 200

  counted : {start done done' k : ℕ} → done ≤ done' → Behind start done k → Behind start done' k
  counted more b = record {
    sleeps = b.sleeps;
    looks = omega (arith, more, b.looks);
    time = b.time;
    few = b.few;
  }

  over :
      (start done k : ℕ)
      → Behind start done k
      → clock k ≤ clock (suc k)
      → Behind start (done + 1) (suc k)
  over start done k b later = record {
    sleeps = b.sleeps;
    looks = omega (arith, b.looks);
    time = omega (arith, later, b.time);
    few = b.few;
  }

  -- One entry: enough fuel is what the time allows.
  wait_entry_lem :
      (start done fuel k : ℕ) (b : Behind start done k)
      → Sleeps
      → deadline ≤ start + 10000
      → 200 < fuel + b.sleeps
      → (k' : ℕ) × (wait_entry fuel k ≡ some k') × Behind start (done + 1) k'
  unfolding wait_entry
  wait_entry_lem start done zero k b s at enough = absurd (omega (arith, b.few))
  wait_entry_lem start done (suc fuel) k b s at enough = elim (Bool-cases (is_running k)) [
    | inr idle ↦ (suc k, rw idle refl, over start done k b (s.goes_on k))
    | inl runs ↦ elim (Bool-cases (leb deadline (clock k))) [
      | inl late ↦ (suc k, rw (runs, late) refl, over start done k b (s.goes_on k))
      | inr early ↦
          let before : clock k < deadline = ground (arith, early) in
          let slept = s.slept k runs before in
          let b' : Behind start done (suc k) = record {
            sleeps = b.sleeps + 1;
            looks = omega (arith, b.looks);
            time = omega (arith, slept, b.time);
            few = omega (arith, before, b.time, at);
          } in
          let (k', ends, after) =
            wait_entry_lem start done fuel (suc k) b' s at (omega (arith, enough)) in
          (k', rw (runs, early) ends, after)
    ]
  ]

  wait_all_lem :
      (start done k first : ℕ) (entries : List Bool)
      → Behind start done k
      → Sleeps
      → deadline ≤ start + 10000
      → (k' : ℕ) × (wait_all 201 entries k first ≡ some (k', first + length entries))
        × Behind start (done + length entries) k'
  unfolding wait_all
  wait_all_lem start done k first [] b s at =
      (k, ap (λ n. some (k, n)) (omega arith), counted (omega arith) b)
  wait_all_lem start done k first (true ∷ more) b s at =
      let (k', ends, b') = wait_entry_lem start done 201 k b s at (omega arith) in
      let (k'', all_end, b'') = wait_all_lem start (done + 1) k' (suc first) more b' s at in
      (
        k'',
        rw (wait_all, ends) (all_end ∙ ap (λ n. some (k'', n)) (omega arith)),
        counted (omega arith) b'',
      )
  wait_all_lem start done k first (false ∷ more) b s at =
      let (k', all_end, b') = wait_all_lem start done k (suc first) more b s at in
      (k', all_end ∙ ap (λ n. some (k', n)) (omega arith), counted (omega arith) b')

  -- If the clock does not go back and shows each sleep of 50 milliseconds, and the deadline is no
  -- more than ten seconds after it, the waiting of `stop_all_tasks` ends, whatever the threads do
  -- and also where tasks still run: it has a first look at `running` for each task, and with the
  -- looks of its loops no more than 200 and two for each task.
  pub wait_all_ends :
      (entries : List Bool)
      → Sleeps
      → deadline ≤ clock 0 + 10000
      → (k : ℕ) × (wait_all 201 entries 0 0 ≡ some (k, length entries))
        × (k + length entries ≤ 2 * length entries + 200)
  wait_all_ends entries s at =
      let first : Behind (clock 0) 0 0 = record {
        sleeps = 0;
        looks = omega arith;
        time = omega arith;
        few = omega arith;
      } in
      let (k, ends, b) = wait_all_lem (clock 0) 0 0 0 entries first s at in
      (k, ends ∙ ap (λ n. some (k, n)) (omega arith), omega (arith, b.looks, b.few))
