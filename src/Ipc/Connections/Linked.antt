-- ===== src/Ipc/Connections/Linked.antt =====
-- The agreement of the two maps of `ConnectionManager` of src/ipc/connection_manager.cpp.
use test_ai_agent.Prelude.{
  ℕ, none, some, ◌≡◌, arith, ◌∙◌, sym, subst, ◌↔◌, nat_eq, Option-cases, inl, inr,
}
use test_ai_agent.Prelude.Int.{ℤ, int_eq}
use test_ai_agent.Prelude.Maps.{lookup, insert, erase, insert_cases, erase_cases}
use test_ai_agent.Ipc.Session.Defs.{Session}
use test_ai_agent.Ipc.Connections.Manager.{
  Connections, no_connections, add_session, remove_session, remove_session_by_fd, get_session,
  get_session_by_fd,
}

pub record Linked (c : Connections) : Type 0 where
  pub fd_known :
      (fd : ℤ) (id : ℕ)
      → lookup fd c.fd_to_id ≡ some id
      → (s : Session) × (lookup id c.sessions_by_id ≡ some s) × (s.client_fd ≡ fd)
  pub id_known :
      (id : ℕ) (s : Session)
      → lookup id c.sessions_by_id ≡ some s
      → (s.session_id ≡ id) × (lookup s.client_fd c.fd_to_id ≡ some id)

-- An id and a descriptor that no registered session has: the ids count up, and the kernel gives out
-- no descriptor that is open.
pub record IsFresh (s : Session) (c : Connections) : Type 0 where
  pub id_fresh : lookup s.session_id c.sessions_by_id ≡ none
  pub fd_fresh : lookup s.client_fd c.fd_to_id ≡ none

pub no_connections-Linked : Linked no_connections
unfolding lookup
no_connections-Linked = record { fd_known = λ fd id e. cc e; id_known = λ id s e. cc e }

-- If the two maps of the connections agree, and the id and the descriptor of a session are not in
-- them, they agree after the session is added.
pub add_session-Linked :
    (s : Session) (c : Connections) → Linked c → IsFresh s c → Linked (add_session (some s) c)
unfolding add_session
add_session-Linked s c l f = record { fd_known = by_fd; id_known = by_id }
  where
    open c use {sessions_by_id, fd_to_id}

    by_fd :
        (fd : ℤ) (id : ℕ)
        → lookup fd (insert s.client_fd s.session_id fd_to_id) ≡ some id
        → (t : Session) × (lookup id (insert s.session_id s sessions_by_id) ≡ some t)
          × (t.client_fd ≡ fd)
    by_fd fd id e = elim (insert_cases s.client_fd fd s.session_id fd_to_id) [
      | inl (same, found) ↦
          (s, ground (arith, found, insert_cases s.session_id id s sessions_by_id), same)
      | inr (_, kept) ↦
          let (t, known, at) = l.fd_known fd id (sym kept ∙ e) in
          (t, ground (arith, insert_cases s.session_id id s sessions_by_id), at)
    ]

    by_id :
        (id : ℕ) (t : Session)
        → lookup id (insert s.session_id s sessions_by_id) ≡ some t
        → (t.session_id ≡ id)
          × (lookup t.client_fd (insert s.client_fd s.session_id fd_to_id) ≡ some id)
    by_id id t e = elim (insert_cases s.session_id id s sessions_by_id) [
      | inl (same, found) ↦
          ground (arith, found, insert_cases s.client_fd t.client_fd s.session_id fd_to_id)
      | inr (_, kept) ↦
          let (at, known) = l.id_known id t (sym kept ∙ e) in
          ground (arith, insert_cases s.client_fd t.client_fd s.session_id fd_to_id)
    ]

-- Both entries of a session are taken out, whichever key the caller has.
erased-Linked :
    (c : Connections) (id : ℕ) (s : Session)
    → Linked c
    → lookup id c.sessions_by_id ≡ some s
    → Linked (record {
      sessions_by_id = erase id c.sessions_by_id;
      fd_to_id = erase s.client_fd c.fd_to_id;
    })
erased-Linked c id s l here = record { fd_known = by_fd; id_known = by_id }
  where
    open c use {sessions_by_id, fd_to_id}

    by_fd :
        (fd : ℤ) (j : ℕ)
        → lookup fd (erase s.client_fd fd_to_id) ≡ some j
        → (t : Session) × (lookup j (erase id sessions_by_id) ≡ some t) × (t.client_fd ≡ fd)
    by_fd fd j e = elim (erase_cases s.client_fd fd fd_to_id) [
      | inl (_, gone) ↦ cc (e, gone)
      | inr (differ, kept) ↦
          let (t, known, at) = l.fd_known fd j (sym kept ∙ e) in
          (t, ground (arith, erase_cases id j sessions_by_id, differ), at)
    ]

    by_id :
        (j : ℕ) (t : Session)
        → lookup j (erase id sessions_by_id) ≡ some t
        → (t.session_id ≡ j) × (lookup t.client_fd (erase s.client_fd fd_to_id) ≡ some j)
    by_id j t e = elim (erase_cases id j sessions_by_id) [
      | inl (_, gone) ↦ cc (e, gone)
      | inr (differ, kept) ↦
          let (at, known) = l.id_known j t (sym kept ∙ e) in
          let (_, mine) = l.id_known id s here in
          ground (arith, erase_cases s.client_fd t.client_fd fd_to_id, differ)
    ]

pub remove_session-Linked : (id : ℕ) (c : Connections) → Linked c → Linked (remove_session id c)
unfolding remove_session
remove_session-Linked id c l = elim (Option-cases (lookup id c.sessions_by_id)) [
  | inl absent ↦ rw (absent, remove_session) l
  | inr (s, here) ↦ rw (here, remove_session) (erased-Linked c id s l here)
]

-- If the two maps of the connections agree, they agree after the session of a descriptor is
-- removed, also when there is none.
pub remove_session_by_fd-Linked :
    (fd : ℤ) (c : Connections) → Linked c → Linked (remove_session_by_fd fd c)
unfolding remove_session_by_fd
remove_session_by_fd-Linked fd c l = elim (Option-cases (lookup fd c.fd_to_id)) [
  | inl absent ↦ rw (absent, remove_session_by_fd) l
  | inr (id, found) ↦
      let (s, here, at) = l.fd_known fd id found in
      rw (found, remove_session_by_fd)
        (subst
          (λ k.
            Linked (record {
              sessions_by_id = erase id c.sessions_by_id;
              fd_to_id = erase k c.fd_to_id;
            }))
          at (erased-Linked c id s l here))
]

-- If the two maps of the connections agree, a descriptor leads to a session exactly when that
-- session is registered under its id and has the descriptor.
pub get_session_by_fd_iff :
    (c : Connections) (fd : ℤ) (s : Session)
    → Linked c
    → (get_session_by_fd fd c ≡ some s)
      ↔ ((get_session s.session_id c ≡ some s) × (s.client_fd ≡ fd))
unfolding get_session_by_fd get_session
get_session_by_fd_iff c fd s l = (found, registered)
  where
    found :
        get_session_by_fd fd c ≡ some s
        → (lookup s.session_id c.sessions_by_id ≡ some s) × (s.client_fd ≡ fd)
    found e = elim (Option-cases (lookup fd c.fd_to_id)) [
      | inl absent ↦ ground arith
      | inr (id, at) ↦ ground (arith, l.fd_known fd id at, l.id_known id s)
    ]

    registered :
        (lookup s.session_id c.sessions_by_id ≡ some s) × (s.client_fd ≡ fd)
        → get_session_by_fd fd c ≡ some s
    registered (here, at) = ground (arith, l.id_known s.session_id s here)
