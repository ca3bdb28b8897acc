-- ===== src/Ipc/Server/Lifecycle.antt =====
-- The descriptors of the server of src/ipc/unix_socket_server.cpp, from `initialize` to the destructor.
use test_ai_agent.Prelude.{
  Bool, true, false, not, ◌&&◌, [], ◌∷◌, All, ltb, length, ◌≡◌, refl, arith, ◌∙◌, ap, Bool-cases,
  inl, inr,
}
use test_ai_agent.Prelude.Int.{ℤ, pos, negsuc, neg, int_beq, int_beq_iff}
use test_ai_agent.Cli.Socket.{is_negative}
use test_ai_agent.Ipc.Framing.Scan.{Bytes}
use test_ai_agent.Ipc.Server.Defs.{Server}
use test_ai_agent.Ipc.Server.Events.{without}
use test_ai_agent.Ipc.Server.Setup.{
  SocketCalls, EpollCalls, Open, sun_path_size, create_server_socket, initialize, destroy,
  close_if_open,
}

-- A descriptor that is not open.
abbrev pub IsFreshFd : ℤ → Open → Type 0
IsFreshFd fd fds = All (λ x. int_beq x fd ≡ false) fds

without_fresh : (fd : ℤ) (fds : Open) → IsFreshFd fd fds → without fd fds ≡ fds
without_fresh fd [] h = refl
without_fresh fd (x ∷ xs) (differ, h) = rw (differ, without_fresh fd xs h) refl

without_opened : (fd : ℤ) (fds : Open) → IsFreshFd fd fds → without fd (fd ∷ fds) ≡ fds
without_opened fd fds h = rw ((int_beq_iff fd fd).1 refl) (without_fresh fd fds h)

-- The socket is made, and the path has room in the address.
abbrev pub makes : SocketCalls → Bytes → Bool
makes socket path =
    not (is_negative socket.made)
    && (ltb (length path) sun_path_size && (socket.binds && socket.listens))

-- Every call succeeds.
abbrev pub succeeds : SocketCalls → EpollCalls → Bytes → Bool
succeeds socket epoll path = makes socket path && (not (is_negative epoll.made) && epoll.adds)

made :
    (socket : SocketCalls) (path : Bytes) (fds : Open)
    → makes socket path ≡ true
    → (create_server_socket socket path fds ≡ (socket.made ∷ fds, socket.made))
      × (is_negative socket.made ≡ false)
unfolding create_server_socket
made socket path fds h = ground arith

unmade :
    (socket : SocketCalls) (path : Bytes) (fds : Open)
    → IsFreshFd socket.made fds
    → makes socket path ≡ false
    → create_server_socket socket path fds ≡ (fds, neg 1)
unfolding create_server_socket
unmade socket path fds fresh h = ground (arith, without_opened socket.made fds fresh)

closed_negative : (fd : ℤ) (fds : Open) → is_negative fd ≡ true → close_if_open fd fds ≡ fds
closed_negative (pos n) fds h = cc h
closed_negative (negsuc n) fds h = refl

-- The two descriptors of the server are closed, and no other.
closed_both :
    (a b : ℤ) (fds : Open)
    → is_negative a ≡ false
    → is_negative b ≡ false
    → IsFreshFd a fds
    → IsFreshFd b (a ∷ fds)
    → close_if_open b (close_if_open a (b ∷ a ∷ fds)) ≡ fds
closed_both (pos m) (pos n) fds ha hb fresh (differ, fresh') =
    let other : int_beq (pos n) (pos m) ≡ false = ground arith in
    rw (other, without_opened (pos m) fds fresh) (without_opened (pos n) fds fresh')
closed_both (negsuc m) b fds ha hb fresh fresh' = cc ha
closed_both (pos m) (negsuc n) fds ha hb fresh fresh' = cc hb

module _ {D : Type 0} where
  -- The descriptors after a call of `initialize`, by its result.
  abbrev pub Kept : SocketCalls → EpollCalls → Open → (Server D × Open) × Bool → Type 0
  Kept socket epoll fds ((server, fds'), true) =
      (is_negative socket.made ≡ false)
      × (is_negative epoll.made ≡ false)
      × (server.server_fd ≡ socket.made)
      × (server.epoll_fd ≡ epoll.made)
      × (fds' ≡ epoll.made ∷ socket.made ∷ fds)
  Kept socket epoll fds ((server, fds'), false) =
      (is_negative server.server_fd ≡ true) × (is_negative server.epoll_fd ≡ true) × (fds' ≡ fds)

  pub initialize-Kept :
      (socket : SocketCalls) (epoll : EpollCalls) (path : Bytes) (server : Server D) (fds : Open)
      → IsFreshFd socket.made fds
      → IsFreshFd epoll.made (socket.made ∷ fds)
      → is_negative server.epoll_fd ≡ true
      → ((initialize socket epoll path (server, fds)).1 ≡ succeeds socket epoll path)
        × Kept socket epoll fds (initialize socket epoll path (server, fds))
  unfolding initialize
  initialize-Kept socket epoll path server fds fresh fresh' no_epoll =
      let closed = without_opened socket.made fds fresh in
      let closed_epoll = without_opened epoll.made (socket.made ∷ fds) fresh' in
      elim (Bool-cases (makes socket path)) [
        | inl good ↦
            let (created, positive) = made socket path fds good in
            elim (Bool-cases (is_negative epoll.made)) [
              | inl none_made ↦
                  rw (good, none_made, initialize, created, positive)
                    (refl, (refl, none_made, closed))
              | inr epoll_made ↦ elim (Bool-cases epoll.adds) [
                | inl added ↦
                    rw (good, epoll_made, added, initialize, created, positive)
                      (refl, (positive, epoll_made, refl, refl, refl))
                | inr refused ↦
                    rw (good, epoll_made, refused, initialize, created, positive)
                      (refl, (refl, refl, ap (without socket.made) closed_epoll ∙ closed))
              ]
            ]
        | inr bad ↦
            let none_made = unmade socket path fds fresh bad in
            rw (bad, initialize, none_made) (refl, (refl, no_epoll, refl))
      ]

  destroy-Kept :
      (socket : SocketCalls) (epoll : EpollCalls) (fds : Open) (p : (Server D × Open) × Bool)
      → IsFreshFd socket.made fds
      → IsFreshFd epoll.made (socket.made ∷ fds)
      → Kept socket epoll fds p
      → (destroy p.0).1 ≡ fds
  unfolding destroy
  destroy-Kept socket epoll fds ((server, fds'), true) fresh fresh' (a, b, at, epoll_at, opened) =
      rw (at, epoll_at, opened) (closed_both socket.made epoll.made fds a b fresh fresh')
  destroy-Kept socket epoll fds ((server, fds'), false) fresh fresh' (a, b, same) =
      rw (closed_negative server.server_fd fds' a, closed_negative server.epoll_fd fds' b) same

  -- If the descriptors that the kernel gives are not in use and the server has no epoll instance
  -- yet, then what is open after `initialize`, on every path, and the destructor is what was open
  -- before.
  pub destroy-initialize :
      (socket : SocketCalls) (epoll : EpollCalls) (path : Bytes) (server : Server D) (fds : Open)
      → IsFreshFd socket.made fds
      → IsFreshFd epoll.made (socket.made ∷ fds)
      → is_negative server.epoll_fd ≡ true
      → (destroy (initialize socket epoll path (server, fds)).0).1 ≡ fds
  destroy-initialize socket epoll path server fds fresh fresh' no_epoll =
      destroy-Kept socket epoll fds (initialize socket epoll path (server, fds)) fresh fresh'
        (initialize-Kept socket epoll path server fds fresh fresh' no_epoll).1
