-- ===== src/Core/Signals/Loop.antt =====
-- The loop of `main` that waits for a signal, with the signals that arrive between its steps.
use test_ai_agent.Prelude.{
  ℕ, List, [], ◌∷◌, Bool, true, false, ◌||◌, ◌==◌, if◌then◌else◌, ◌≡◌, refl, arith, Bool-cases, inl,
  inr, ◌∙◌, sym, ◌⊎◌,
}
use test_ai_agent.Core.Signals.Handler.{
  SignalType, no_signal, interrupt, terminate, hangup, broken_pipe, SignalHandler, sigint, sigterm,
  write_signal_to_pipe, handle_signal, check_signal, reset, deliver,
}

-- What arrives in one round: before the pending signal is taken, and after.
pub record Round : Type 0 where
  pub early : List ℕ
  pub late : List ℕ

-- What a round makes of the handler, and whether it leaves the loop. After a `SIGHUP` or a `SIGPIPE`
-- the handler is reset; after no signal the loop sleeps.
unfoldable pub round : Round → SignalHandler → SignalHandler × Bool
round r h =
    let (taken, signal) = check_signal (deliver r.early h) in
    let after = deliver r.late taken in
    elim signal [
      | no_signal ↦ (after, false)
      | hangup ↦ (reset after, false)
      | broken_pipe ↦ (reset after, false)
      | interrupt ↦ (taken, true)
      | terminate ↦ (taken, true)
    ]

-- The loop over the rounds that come; `true` when it has been left.
unfoldable pub main_loop : List Round → SignalHandler → SignalHandler × Bool
main_loop [] h = (h, h.shutdown_requested)
main_loop (r ∷ rs) h =
    let (h', left) = round r h in
    let rest = main_loop rs h' in
    if h.shutdown_requested then (h, true) else if left then (h', true) else rest

-- The signals that ask for a shutdown.
abbrev pub asks : List ℕ → Bool
asks [] = false
asks (signum ∷ more) = signum == sigint || (signum == sigterm || asks more)

abbrev pub asked : List Round → Bool
asked [] = false
asked (r ∷ rs) = asks r.early || (asks r.late || asked rs)

shutdown-handle_signal :
    (signum : ℕ) (h : SignalHandler)
    → (handle_signal signum h).shutdown_requested
      ≡ (signum == sigint || (signum == sigterm || h.shutdown_requested))
unfolding handle_signal write_signal_to_pipe
shutdown-handle_signal signum h = ground arith

shutdown-deliver :
    (signals : List ℕ) (h : SignalHandler)
    → (deliver signals h).shutdown_requested ≡ (asks signals || h.shutdown_requested)
unfolding deliver
shutdown-deliver [] h = refl
shutdown-deliver (signum ∷ more) h =
    ground (arith, shutdown-deliver more (handle_signal signum h), shutdown-handle_signal signum h)

shutdown-check_signal :
    (h : SignalHandler) → (check_signal h).0.shutdown_requested ≡ h.shutdown_requested
unfolding check_signal
shutdown-check_signal h = ground arith

-- A pending signal that ends the loop has set the flag too.
abbrev pub is_ending : SignalType → Bool
is_ending interrupt = true
is_ending terminate = true
is_ending _ = false

abbrev pub IsFlagged : SignalHandler → Type 0
IsFlagged h = is_ending h.pending_signal ≡ true → h.shutdown_requested ≡ true

handle_signal-IsFlagged :
    (signum : ℕ) (h : SignalHandler) → IsFlagged h → IsFlagged (handle_signal signum h)
unfolding handle_signal write_signal_to_pipe
handle_signal-IsFlagged signum h f = ground arith

deliver-IsFlagged :
    (signals : List ℕ) (h : SignalHandler) → IsFlagged h → IsFlagged (deliver signals h)
unfolding deliver
deliver-IsFlagged [] h f = f
deliver-IsFlagged (signum ∷ more) h f =
    deliver-IsFlagged more (handle_signal signum h) (handle_signal-IsFlagged signum h f)

-- The signal that is taken is no longer pending.
check_signal-IsFlagged :
    (h : SignalHandler)
    → IsFlagged h
    → IsFlagged (check_signal h).0
      × (is_ending (check_signal h).1 ≡ true → h.shutdown_requested ≡ true)
unfolding check_signal
check_signal-IsFlagged h f = ground arith

-- A round that stays in the loop has set the flag if it was asked to; one that leaves it was asked.
round_lem :
    (r : Round) (h : SignalHandler)
    → IsFlagged h
    → let wanted = asks r.early || h.shutdown_requested in
      (((round r h).1 ≡ true) × (wanted ≡ true))
      ⊎ (((round r h).1 ≡ false)
          × IsFlagged (round r h).0
          × ((round r h).0.shutdown_requested ≡ (asks r.late || wanted)))
unfolding round reset
round_lem r h f =
    elim (check_signal given).1
        as (λ s.
          (is_ending s ≡ true → given.shutdown_requested ≡ true)
          → Result (elim s as (λ _. SignalHandler × Bool) [
            | no_signal ↦ (after, false)
            | hangup ↦ (reset after, false)
            | broken_pipe ↦ (reset after, false)
            | interrupt ↦ (taken, true)
            | terminate ↦ (taken, true)
          ])) [
            | no_signal ↦ λ e. inr (refl, after_flagged, after_shutdown)
            | hangup ↦ λ e. inr (refl, λ x. cc x, after_shutdown)
            | broken_pipe ↦ λ e. inr (refl, λ x. cc x, after_shutdown)
            | interrupt ↦ λ e. inl (refl, sym (shutdown-deliver r.early h) ∙ e refl)
            | terminate ↦ λ e. inl (refl, sym (shutdown-deliver r.early h) ∙ e refl)
          ]
      flagged.1
  where
    given : SignalHandler
    given = deliver r.early h

    taken : SignalHandler
    taken = (check_signal given).0

    after : SignalHandler
    after = deliver r.late taken

    flagged :
        IsFlagged taken
        × (is_ending (check_signal given).1 ≡ true → given.shutdown_requested ≡ true)
    flagged = check_signal-IsFlagged given (deliver-IsFlagged r.early h f)

    after_flagged : IsFlagged after
    after_flagged = deliver-IsFlagged r.late taken flagged.0

    after_shutdown :
        after.shutdown_requested ≡ (asks r.late || (asks r.early || h.shutdown_requested))
    after_shutdown = ground (
      arith,
      shutdown-deliver r.late taken,
      shutdown-check_signal given,
      shutdown-deliver r.early h,
    )

    Result : SignalHandler × Bool → Type 0
    Result p =
        let wanted = asks r.early || h.shutdown_requested in
        ((p.1 ≡ true) × (wanted ≡ true))
        ⊎ ((p.1 ≡ false) × IsFlagged p.0 × (p.0.shutdown_requested ≡ (asks r.late || wanted)))

-- For a handler whose pending SIGINT or SIGTERM has set the shutdown flag, the main loop is left
-- exactly when the flag was set or a SIGINT or SIGTERM arrives in some round, before or after the
-- pending signal is taken.
pub main_loop-asked :
    (rs : List Round) (h : SignalHandler)
    → IsFlagged h
    → (main_loop rs h).1 ≡ (asked rs || h.shutdown_requested)
unfolding main_loop
main_loop-asked [] h f = refl
main_loop-asked (r ∷ rs) h f = elim (Bool-cases h.shutdown_requested) [
  | inl down ↦ ground arith
  | inr up ↦ elim (round_lem r h f) [
    | inl (left, wanted) ↦ ground (arith, left, wanted)
    | inr (stays, flagged, kept) ↦
        ground (arith, stays, kept, main_loop-asked rs (round r h).0 flagged)
  ]
]
