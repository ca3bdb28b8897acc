-- ===== src/Ipc/Connections/Pool.antt =====
-- `ConnectionManager` of src/ipc/connection_manager.cpp under any sequence of its operations, against
-- one list of sessions.
use test_ai_agent.Prelude.{
  ℕ, List, [], ◌∷◌, ◌++◌, none, some, length, ◌≡◌, refl, ◌∙◌, ap, sym, subst, nat_eq, Option-cases,
  inl, inr,
}
use test_ai_agent.Prelude.Int.{ℤ, int_eq}
use test_ai_agent.Prelude.Maps.{lookup, insert, erase, insert_absent}
use test_ai_agent.Ipc.Session.Defs.{Session}
use test_ai_agent.Ipc.Connections.Manager.{
  Connections, no_connections, add_session, remove_session, remove_session_by_fd, get_session,
  get_session_by_fd, session_count,
}
use test_ai_agent.Ipc.Connections.Linked.{IsFresh}
use test_ai_agent.Ipc.Connections.Keys.{
  find_id, find_fd, without_id, without_fd, ids, fds, AllDiffer, lookup-ids, erase-ids, erase-fds,
  ids-append, fds-append, without_id-AllDiffer, absent-AllDiffer,
}
use test_ai_agent.Ipc.Connections.Among.{
  Among, lookup-ids-Among, lookup-fds-Among, absent_id, absent_fd, same_removed, length-ids,
  found_by_id, found_by_fd, none_by_fd,
}

pub data Op : Type 0 where
  adds : Session → Op
  removes : ℕ → Op
  removes_by_fd : ℤ → Op

abbrev pub act : Op → Connections → Connections
act (adds s) c = add_session (some s) c
act (removes id) c = remove_session id c
act (removes_by_fd fd) c = remove_session_by_fd fd c

abbrev pub act_all : List Op → Connections → Connections
act_all [] c = c
act_all (op ∷ ops) c = act_all ops (act op c)

-- A session is added under an id and a descriptor that no other one has then.
abbrev pub IsAllowed : Op → Connections → Type 0
IsAllowed (adds s) c = IsFresh s c
IsAllowed _ c = Unit

abbrev pub AllAllowed : List Op → Connections → Type 0
AllAllowed [] c = Unit
AllAllowed (op ∷ ops) c = IsAllowed op c × AllAllowed ops (act op c)

-- The same operations on the list.
abbrev pub replay : List Op → List Session → List Session
replay [] pool = pool
replay (adds s ∷ ops) pool = replay ops (pool ++ s ∷ [])
replay (removes id ∷ ops) pool = replay ops (without_id id pool)
replay (removes_by_fd fd ∷ ops) pool = replay ops (without_fd fd pool)

record Holds (c : Connections) (pool : List Session) : Type 0 where
  by_id : c.sessions_by_id ≡ ids pool
  by_fd : c.fd_to_id ≡ fds pool
  differ : AllDiffer pool

-- What the erasing of both keys of a session leaves.
erased-Holds :
    (s : Session) (id : ℕ) (fd : ℤ) (c : Connections) (pool : List Session)
    → Holds c pool
    → Among s pool
    → s.session_id ≡ id
    → s.client_fd ≡ fd
    → Holds
        (record { sessions_by_id = erase id c.sessions_by_id; fd_to_id = erase fd c.fd_to_id })
        (without_id id pool)
erased-Holds s id fd c pool h among at at' = record {
  by_id = ap (erase id) h.by_id ∙ erase-ids id pool;
  by_fd =
      ap (erase fd) h.by_fd
      ∙ erase-fds fd pool
      ∙ ap fds (same_removed s id fd pool h.differ among at at');
  differ = without_id-AllDiffer id pool h.differ;
}

-- The two lookups that follow one another.
by_fd_lem :
    (fd : ℤ) (pool : List Session)
    → AllDiffer pool
    → get_session_by_fd fd (record { sessions_by_id = ids pool; fd_to_id = fds pool })
      ≡ find_fd fd pool
unfolding get_session_by_fd
by_fd_lem fd pool h = elim (Option-cases (lookup fd (fds pool))) [
  | inl absent ↦ rw (get_session_by_fd, absent) (sym (none_by_fd fd pool absent))
  | inr (id, found) ↦
      let (s, among, at, at') = lookup-fds-Among fd id pool found in
      rw (get_session_by_fd, found)
        (ap (λ k. lookup k (ids pool)) (sym at)
          ∙ lookup-ids s.session_id pool
          ∙ found_by_id s pool h among
          ∙ sym (found_by_fd s pool h among)
          ∙ ap (λ k. find_fd k pool) at')
]

-- Every operation that is allowed does the same to the maps and to the list.
act-Holds :
    (op : Op) (c : Connections) (pool : List Session)
    → IsAllowed op c
    → Holds c pool
    → Holds (act op c) (replay (op ∷ []) pool)
unfolding add_session remove_session remove_session_by_fd
act-Holds (adds s) c pool fresh h =
    let absent_id : lookup s.session_id (ids pool) ≡ none =
      ap (lookup s.session_id) (sym h.by_id) ∙ fresh.id_fresh in
    let absent_fd : lookup s.client_fd (fds pool) ≡ none =
      ap (lookup s.client_fd) (sym h.by_fd) ∙ fresh.fd_fresh in
    record {
      by_id =
          ap (insert s.session_id s) h.by_id
          ∙ insert_absent s.session_id s (ids pool) absent_id
          ∙ sym (ids-append pool s);
      by_fd =
          ap (insert s.client_fd s.session_id) h.by_fd
          ∙ insert_absent s.client_fd s.session_id (fds pool) absent_fd
          ∙ sym (fds-append pool s);
      differ = absent-AllDiffer s pool h.differ absent_id absent_fd;
    }
act-Holds (removes id) c pool _ h = elim (Option-cases (lookup id c.sessions_by_id)) [
  | inl absent ↦
      let kept = absent_id id pool (ap (lookup id) (sym h.by_id) ∙ absent) in
      rw (remove_session, absent) (subst (Holds c) (sym kept) h)
  | inr (s, found) ↦
      let (among, at) = lookup-ids-Among id s pool (ap (lookup id) (sym h.by_id) ∙ found) in
      rw (remove_session, found) (erased-Holds s id s.client_fd c pool h among at refl)
]
act-Holds (removes_by_fd fd) c pool _ h = elim (Option-cases (lookup fd c.fd_to_id)) [
  | inl absent ↦
      let kept = absent_fd fd pool (ap (lookup fd) (sym h.by_fd) ∙ absent) in
      rw (remove_session_by_fd, absent) (subst (Holds c) (sym kept) h)
  | inr (id, found) ↦
      let (s, among, at, at') =
        lookup-fds-Among fd id pool (ap (lookup fd) (sym h.by_fd) ∙ found) in
      rw (remove_session_by_fd, found)
        (subst
          (Holds
            (record { sessions_by_id = erase id c.sessions_by_id; fd_to_id = erase fd c.fd_to_id }))
          (sym (same_removed s id fd pool h.differ among at at'))
          (erased-Holds s id fd c pool h among at at'))
]

replay-Holds :
    (ops : List Op) (c : Connections) (pool : List Session)
    → AllAllowed ops c
    → Holds c pool
    → Holds (act_all ops c) (replay ops pool)
replay-Holds [] c pool allowed h = h
replay-Holds (adds s ∷ ops) c pool (fresh, allowed) h =
    replay-Holds ops _ _ allowed (act-Holds (adds s) c pool fresh h)
replay-Holds (removes id ∷ ops) c pool (fresh, allowed) h =
    replay-Holds ops _ _ allowed (act-Holds (removes id) c pool fresh h)
replay-Holds (removes_by_fd fd ∷ ops) c pool (fresh, allowed) h =
    replay-Holds ops _ _ allowed (act-Holds (removes_by_fd fd) c pool fresh h)

-- After any sequence of operations on an empty manager of connections, in which a session is added
-- only under an id and a descriptor that no other one has then, what the manager finds under an id
-- or a descriptor, and how many sessions it counts, is what one list of sessions gives on which
-- the same additions and removals were done.
pub get_session-act_all :
    (ops : List Op) (id : ℕ) (fd : ℤ)
    → AllAllowed ops no_connections
    → (get_session id (act_all ops no_connections) ≡ find_id id (replay ops []))
      × (get_session_by_fd fd (act_all ops no_connections) ≡ find_fd fd (replay ops []))
      × (session_count (act_all ops no_connections) ≡ length (replay ops []))
unfolding get_session get_session_by_fd session_count
get_session-act_all ops id fd allowed =
    let start : Holds no_connections [] = record { by_id = refl; by_fd = refl; differ = tt } in
    let h = replay-Holds ops no_connections [] allowed start in
    let pool = replay ops [] in
    (
      ap (lookup id) h.by_id ∙ lookup-ids id pool,
      ap (λ (c : Connections). get_session_by_fd fd c)
            (λ i. record { sessions_by_id = h.by_id i; fd_to_id = h.by_fd i })
          ∙ by_fd_lem fd pool h.differ,
      ap length h.by_id ∙ length-ids pool,
    )
