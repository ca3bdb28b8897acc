-- ===== src/Ipc/Server/Holding.antt =====
-- What the server of src/ipc/unix_socket_server.cpp keeps of its connections while it serves a client.
use test_ai_agent.Prelude.{
  ℕ, ◌≤◌, [], ◌∷◌, Option, none, some, ◌≡◌, arith, ◌∙◌, sym, ap, subst, nat_eq, inl, inr, length,
}
use test_ai_agent.Prelude.Int.{ℤ, int_eq}
use test_ai_agent.Prelude.Outcome.{Outcome, returns, throws}
use test_ai_agent.Prelude.Maps.{Map, lookup, insert, insert_cases}
use test_ai_agent.Json.{JsonLib}
use test_ai_agent.Ipc.Protocol.Request.{RequestMessage}
use test_ai_agent.Ipc.Protocol.Response.{ResponseMessage}
use test_ai_agent.Ipc.Session.Defs.{Session}
use test_ai_agent.Ipc.Session.Write.{enqueue, schedule_send, schedule_send_error}
use test_ai_agent.Ipc.Connections.Manager.{Connections, session_count}
use test_ai_agent.Ipc.Connections.Linked.{Linked}
use test_ai_agent.Ipc.Server.Defs.{reply, replace_session}

-- The maps agree, there are at most `n` sessions with numbers up to `m`, and the id leads to a
-- session of the descriptor.
pub record Holding (n m id : ℕ) (fd : ℤ) (c : Connections) : Type 0 where
  pub linked : Linked c
  pub limit : session_count c ≤ n
  pub numbered : (i : ℕ) (t : Session) → lookup i c.sessions_by_id ≡ some t → i ≤ m
  pub here : (t : Session) × (lookup id c.sessions_by_id ≡ some t) × (t.client_fd ≡ fd)

length-insert_there :
    (k : ℕ) (v w : Session) (m : Map ℕ Session)
    → lookup k m ≡ some w
    → length (insert k v m) ≡ length m
unfolding lookup insert
length-insert_there k v w [] found = cc found
length-insert_there k v w ((j, u) ∷ m) found = ground (arith, length-insert_there k v w m)

-- A registered session that changes but for its id and its descriptor.
pub replace-Holding :
    (n m id : ℕ) (fd : ℤ) (c : Connections) (s : Session)
    → Holding n m id fd c
    → Holding n m s.session_id s.client_fd c
    → Holding n m id fd (replace_session s c)
unfolding session_count
replace-Holding n m id fd c s h g = record {
  linked = record { fd_known = by_fd; id_known = by_id };
  limit =
      subst (λ k. k ≤ n)
        (sym (length-insert_there s.session_id s g.here.0 c.sessions_by_id g.here.1)) h.limit;
  numbered = by_number;
  here = still id fd h.here;
}
  where
    -- The session that was there has the same descriptor.
    same_fd :
        (i : ℕ) (t : Session)
        → s.session_id ≡ i
        → lookup i c.sessions_by_id ≡ some t
        → t.client_fd ≡ s.client_fd
    same_fd i t same found =
        let (u, there, at) = g.here in
        let both : some t ≡ some u =
          sym found ∙ ap (λ k. lookup k c.sessions_by_id) (sym same) ∙ there in
        ap (λ (o : Option Session). elim o [ none ↦ t.client_fd | some v ↦ v.client_fd ]) both ∙ at

    still :
        (i : ℕ) (f : ℤ)
        → (t : Session) × (lookup i c.sessions_by_id ≡ some t) × (t.client_fd ≡ f)
        → (t : Session) × (lookup i (insert s.session_id s c.sessions_by_id) ≡ some t)
          × (t.client_fd ≡ f)
    still i f (t, found, at) = elim (insert_cases s.session_id i s c.sessions_by_id) [
      | inl (same, now) ↦ (s, now, sym (same_fd i t same found) ∙ at)
      | inr (differ, kept) ↦ (t, kept ∙ found, at)
    ]

    by_number :
        (i : ℕ) (t : Session) → lookup i (insert s.session_id s c.sessions_by_id) ≡ some t → i ≤ m
    by_number i t e = elim (insert_cases s.session_id i s c.sessions_by_id) [
      | inl (same, now) ↦ subst (λ k. k ≤ m) same (g.numbered s.session_id g.here.0 g.here.1)
      | inr (differ, kept) ↦ h.numbered i t (sym kept ∙ e)
    ]

    by_fd :
        (f : ℤ) (i : ℕ)
        → lookup f c.fd_to_id ≡ some i
        → (t : Session) × (lookup i (insert s.session_id s c.sessions_by_id) ≡ some t)
          × (t.client_fd ≡ f)
    by_fd f i e = still i f (h.linked.fd_known f i e)

    by_id :
        (i : ℕ) (t : Session)
        → lookup i (insert s.session_id s c.sessions_by_id) ≡ some t
        → (t.session_id ≡ i) × (lookup t.client_fd c.fd_to_id ≡ some i)
    by_id i t e = elim (insert_cases s.session_id i s c.sessions_by_id) [
      | inl (same, now) ↦
          let (u, there, at) = g.here in
          let (_, known) = g.linked.id_known s.session_id u there in
          ground (arith, now, e, same, known, at)
      | inr (differ, kept) ↦ h.linked.id_known i t (sym kept ∙ e)
    ]

reply_identity :
    {Json : Type 0} (J : JsonLib Json) (msg : RequestMessage Json)
    (outcome : Outcome (ResponseMessage Json)) (s : Session)
    → ((reply J msg outcome s).session_id ≡ s.session_id)
      × ((reply J msg outcome s).client_fd ≡ s.client_fd)
unfolding reply schedule_send schedule_send_error enqueue
reply_identity J msg (returns response) s = ground arith
reply_identity J msg (throws what) s = ground arith

-- A session that answers keeps its place.
pub reply-Holding :
    {Json : Type 0} (J : JsonLib Json) (msg : RequestMessage Json)
    (outcome : Outcome (ResponseMessage Json)) (s : Session) (n m : ℕ) (c : Connections)
    → Holding n m s.session_id s.client_fd c
    → Holding n m (reply J msg outcome s).session_id (reply J msg outcome s).client_fd c
reply-Holding J msg outcome s n m c h =
    let (id, fd) = reply_identity J msg outcome s in
    subst (λ k. Holding n m k (reply J msg outcome s).client_fd c) (sym id)
      (subst (λ f. Holding n m s.session_id f c) (sym fd) h)
