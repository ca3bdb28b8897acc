-- ===== src/Ipc/Connections/Keys.antt =====
-- Lists of sessions that differ in their ids and descriptors, and the two maps of such a list.
use test_ai_agent.Prelude.{
  ℕ, false, List, [], ◌∷◌, ◌++◌, map, Option, none, some, ◌==◌, if◌then◌else◌, ◌≡◌, ◌≢◌, refl,
  arith, ap, All, nat_eq, Bool-cases, inl, inr,
}
use test_ai_agent.Prelude.Int.{ℤ, int_eq, int_beq, int_beq_iff}
use test_ai_agent.Prelude.Maps.{Map, lookup, erase}
use test_ai_agent.Ipc.Session.Defs.{Session}

abbrev pub find_id : ℕ → List Session → Option Session
find_id id [] = none
find_id id (s ∷ pool) = if s.session_id == id then some s else find_id id pool

abbrev pub find_fd : ℤ → List Session → Option Session
find_fd fd [] = none
find_fd fd (s ∷ pool) = if int_beq s.client_fd fd then some s else find_fd fd pool

abbrev pub without_id : ℕ → List Session → List Session
without_id id [] = []
without_id id (s ∷ pool) =
    let rest = without_id id pool in if s.session_id == id then rest else s ∷ rest

abbrev pub without_fd : ℤ → List Session → List Session
without_fd fd [] = []
without_fd fd (s ∷ pool) =
    let rest = without_fd fd pool in if int_beq s.client_fd fd then rest else s ∷ rest

-- The two maps of a list, and sessions that differ in both keys.
abbrev pub ids : List Session → Map ℕ Session
ids = map (λ (s : Session). (s.session_id, s))

abbrev pub fds : List Session → Map ℤ ℕ
fds = map (λ (s : Session). (s.client_fd, s.session_id))

abbrev pub Differs : Session → Session → Type 0
Differs s t = (s.session_id ≢ t.session_id) × (s.client_fd ≢ t.client_fd)

abbrev pub AllDiffer : List Session → Type 0
AllDiffer [] = Unit
AllDiffer (s ∷ pool) = All (Differs s) pool × AllDiffer pool

pub lookup-ids : (id : ℕ) (pool : List Session) → lookup id (ids pool) ≡ find_id id pool
unfolding lookup
lookup-ids id [] = refl
lookup-ids id (s ∷ pool) = ground (arith, lookup-ids id pool)

pub erase-ids : (id : ℕ) (pool : List Session) → erase id (ids pool) ≡ ids (without_id id pool)
unfolding erase
erase-ids id [] = refl
erase-ids id (s ∷ pool) = ground (arith, erase-ids id pool)

pub erase-fds : (fd : ℤ) (pool : List Session) → erase fd (fds pool) ≡ fds (without_fd fd pool)
unfolding erase
erase-fds fd [] = refl
erase-fds fd (s ∷ pool) = ground (arith, erase-fds fd pool)

pub ids-append :
    (pool : List Session) (s : Session) → ids (pool ++ s ∷ []) ≡ ids pool ++ (s.session_id, s) ∷ []
ids-append [] s = refl
ids-append (t ∷ pool) s = ap (λ m. (t.session_id, t) ∷ m) (ids-append pool s)

pub fds-append :
    (pool : List Session) (s : Session)
    → fds (pool ++ s ∷ []) ≡ fds pool ++ (s.client_fd, s.session_id) ∷ []
fds-append [] s = refl
fds-append (t ∷ pool) s = ap (λ m. (t.client_fd, t.session_id) ∷ m) (fds-append pool s)

pub id_differs : (a b : ℕ) → a ≢ b → (a == b) ≡ false
id_differs a b h = ground arith

pub fd_differs : (a b : ℤ) → a ≢ b → int_beq a b ≡ false
fd_differs a b h = elim (Bool-cases (int_beq a b)) [
  | inl same ↦ absurd (h ((int_beq_iff a b).0 same))
  | inr differ ↦ differ
]

pub All-append :
    (P : Session → Type 0) (pool : List Session) (s : Session)
    → All P pool
    → P s
    → All P (pool ++ s ∷ [])
All-append P [] s h p = (p, tt)
All-append P (t ∷ pool) s h p = (h.0, All-append P pool s h.1 p)

pub All-without_id :
    (P : Session → Type 0) (id : ℕ) (pool : List Session) → All P pool → All P (without_id id pool)
All-without_id P id [] h = tt
All-without_id P id (t ∷ pool) h = elim (Bool-cases (t.session_id == id)) [
  | inl same ↦ rw same (All-without_id P id pool h.1)
  | inr differ ↦ rw differ (h.0, All-without_id P id pool h.1)
]

pub without_id-AllDiffer :
    (id : ℕ) (pool : List Session) → AllDiffer pool → AllDiffer (without_id id pool)
without_id-AllDiffer id [] h = tt
without_id-AllDiffer id (t ∷ pool) h = elim (Bool-cases (t.session_id == id)) [
  | inl same ↦ rw same (without_id-AllDiffer id pool h.1)
  | inr differ ↦
      rw differ (All-without_id (Differs t) id pool h.0, without_id-AllDiffer id pool h.1)
]

pub absent-AllDiffer :
    (s : Session) (pool : List Session)
    → AllDiffer pool
    → lookup s.session_id (ids pool) ≡ none
    → lookup s.client_fd (fds pool) ≡ none
    → AllDiffer (pool ++ s ∷ [])
unfolding lookup
absent-AllDiffer s [] h a b = (tt, tt)
absent-AllDiffer s (t ∷ pool) h a b = elim (Bool-cases (t.session_id == s.session_id)) [
  | inl same ↦ absurd (ground (arith, a, same))
  | inr id_apart ↦ elim (Bool-cases (int_beq t.client_fd s.client_fd)) [
    | inl same ↦ absurd (ground (arith, b, same))
    | inr fd_apart ↦ (
      All-append (Differs t) pool s h.0 (
        (λ e. ground (arith, id_apart, e)),
        λ e. cc ((int_beq_iff t.client_fd s.client_fd).1 e, fd_apart),
      ),
      absent-AllDiffer s pool h.1 (ground (arith, a, id_apart)) (ground (arith, b, fd_apart)),
    )
  ]
]
