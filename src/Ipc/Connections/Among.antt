-- ===== src/Ipc/Connections/Among.antt =====
-- The sessions of a list whose keys differ: how they are found and taken out.
use test_ai_agent.Prelude.{
  ℕ, suc, List, [], ◌∷◌, none, some, length, ◌==◌, ◌≡◌, refl, arith, ◌∙◌, ap, sym, subst, ◌⊎◌, All,
  nat_eq, ==_iff, Bool-cases, inl, inr,
}
use test_ai_agent.Prelude.Int.{ℤ, int_eq, int_beq, int_beq_iff}
use test_ai_agent.Prelude.Maps.{lookup}
use test_ai_agent.Ipc.Session.Defs.{Session}
use test_ai_agent.Ipc.Connections.Keys.{
  find_id, find_fd, without_id, without_fd, ids, fds, Differs, AllDiffer, id_differs, fd_differs,
}

abbrev pub Among : Session → List Session → Type 0
Among s [] = ⊥
Among s (t ∷ pool) = (t ≡ s) ⊎ Among s pool

pub Among-Differs :
    (s t : Session) (pool : List Session) → All (Differs t) pool → Among s pool → Differs t s
Among-Differs s t [] h among = absurd among
Among-Differs s t (u ∷ pool) h (inl same) = subst (Differs t) same h.0
Among-Differs s t (u ∷ pool) h (inr later) = Among-Differs s t pool h.1 later

pub lookup-ids-Among :
    (id : ℕ) (s : Session) (pool : List Session)
    → lookup id (ids pool) ≡ some s
    → Among s pool × (s.session_id ≡ id)
unfolding lookup
lookup-ids-Among id s [] e = cc e
lookup-ids-Among id s (t ∷ pool) e = elim (Bool-cases (t.session_id == id)) [
  | inl same ↦
      let found : lookup id (ids (t ∷ pool)) ≡ some t = rw same refl in
      let is_t : t ≡ s = cc (found, e) in
      (inl is_t, ap (λ (u : Session). u.session_id) (sym is_t) ∙ (==_iff t.session_id id).0 same)
  | inr differ ↦
      let (among, at) = lookup-ids-Among id s pool (ground (arith, e, differ)) in (inr among, at)
]

pub lookup-fds-Among :
    (fd : ℤ) (id : ℕ) (pool : List Session)
    → lookup fd (fds pool) ≡ some id
    → (s : Session) × Among s pool × (s.session_id ≡ id) × (s.client_fd ≡ fd)
unfolding lookup
lookup-fds-Among fd id [] e = cc e
lookup-fds-Among fd id (t ∷ pool) e = elim (Bool-cases (int_beq t.client_fd fd)) [
  | inl same ↦
      let found : lookup fd (fds (t ∷ pool)) ≡ some t.session_id = rw same refl in
      (t, inl refl, cc (found, e), (int_beq_iff t.client_fd fd).0 same)
  | inr differ ↦
      let (s, among, at, at') = lookup-fds-Among fd id pool (ground (arith, e, differ)) in
      (s, inr among, at, at')
]

pub others_stay :
    (s : Session) (pool : List Session)
    → All (Differs s) pool
    → (without_id s.session_id pool ≡ pool) × (without_fd s.client_fd pool ≡ pool)
others_stay s [] h = (refl, refl)
others_stay s (t ∷ pool) h =
    let (a, b) = others_stay s pool h.1 in
    let id_apart = id_differs t.session_id s.session_id (λ e. h.0.0 (sym e)) in
    let fd_apart = fd_differs t.client_fd s.client_fd (λ e. h.0.1 (sym e)) in
    (rw (id_apart, a) refl, rw (fd_apart, b) refl)

-- Where the keys differ, both keys of a session take out the same one.
pub one_removed :
    (s : Session) (pool : List Session)
    → AllDiffer pool
    → Among s pool
    → without_fd s.client_fd pool ≡ without_id s.session_id pool
one_removed s [] h among = absurd among
one_removed s (t ∷ pool) h (inl same) =
    subst (λ u. without_fd u.client_fd (t ∷ pool) ≡ without_id u.session_id (t ∷ pool)) same
      (let (a, b) = others_stay t pool h.0 in
        rw ((int_beq_iff t.client_fd t.client_fd).1 refl, (==_iff t.session_id t.session_id).1 refl)
          (b ∙ sym a))
one_removed s (t ∷ pool) h (inr later) =
    let apart = Among-Differs s t pool h.0 later in
    let id_apart = id_differs t.session_id s.session_id apart.0 in
    let fd_apart = fd_differs t.client_fd s.client_fd apart.1 in
    rw (id_apart, fd_apart) (ap (λ more. t ∷ more) (one_removed s pool h.1 later))

pub absent_id :
    (id : ℕ) (pool : List Session) → lookup id (ids pool) ≡ none → without_id id pool ≡ pool
unfolding lookup
absent_id id [] h = refl
absent_id id (t ∷ pool) h = ground (arith, absent_id id pool)

pub absent_fd :
    (fd : ℤ) (pool : List Session) → lookup fd (fds pool) ≡ none → without_fd fd pool ≡ pool
unfolding lookup
absent_fd fd [] h = refl
absent_fd fd (t ∷ pool) h = ground (arith, absent_fd fd pool)

pub same_removed :
    (s : Session) (id : ℕ) (fd : ℤ) (pool : List Session)
    → AllDiffer pool
    → Among s pool
    → s.session_id ≡ id
    → s.client_fd ≡ fd
    → without_fd fd pool ≡ without_id id pool
same_removed s id fd pool h among at at' =
    ap (λ k. without_fd k pool) (sym at')
    ∙ one_removed s pool h among
    ∙ ap (λ k. without_id k pool) at

pub length-ids : (pool : List Session) → length (ids pool) ≡ length pool
length-ids [] = refl
length-ids (s ∷ pool) = ap suc (length-ids pool)

pub found_by_id :
    (s : Session) (pool : List Session)
    → AllDiffer pool
    → Among s pool
    → find_id s.session_id pool ≡ some s
found_by_id s [] h among = absurd among
found_by_id s (t ∷ pool) h (inl same) =
    subst (λ u. find_id u.session_id (t ∷ pool) ≡ some u) same
      (rw ((==_iff t.session_id t.session_id).1 refl) refl)
found_by_id s (t ∷ pool) h (inr later) =
    rw (id_differs t.session_id s.session_id (Among-Differs s t pool h.0 later).0)
      (found_by_id s pool h.1 later)

pub found_by_fd :
    (s : Session) (pool : List Session)
    → AllDiffer pool
    → Among s pool
    → find_fd s.client_fd pool ≡ some s
found_by_fd s [] h among = absurd among
found_by_fd s (t ∷ pool) h (inl same) =
    subst (λ u. find_fd u.client_fd (t ∷ pool) ≡ some u) same
      (rw ((int_beq_iff t.client_fd t.client_fd).1 refl) refl)
found_by_fd s (t ∷ pool) h (inr later) =
    rw (fd_differs t.client_fd s.client_fd (Among-Differs s t pool h.0 later).1)
      (found_by_fd s pool h.1 later)

pub none_by_fd :
    (fd : ℤ) (pool : List Session) → lookup fd (fds pool) ≡ none → find_fd fd pool ≡ none
unfolding lookup
none_by_fd fd [] h = refl
none_by_fd fd (t ∷ pool) h = ground (arith, none_by_fd fd pool)
