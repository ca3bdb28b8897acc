-- ===== src/Ipc/Session/Overflow.antt =====
-- A read buffer of the full size: `read_from_socket` says that it closes the session, and returns -1
-- without a call that would set `errno`.
use test_ai_agent.Prelude.{ℕ, ◌≤◌, List, [], ◌∷◌, true, false, ◌≡◌, arith, length, ap}
use test_ai_agent.Json.{JsonLib}
use test_ai_agent.Ipc.Session.Defs.{
  Session, active, reading, Errno, again, other, Handlers, max_buffer_size, close,
}
use test_ai_agent.Ipc.Session.Read.{
  Arrival, failing, ReadReturn, error, read_from_socket, stop_reading, read_loop, on_readable,
  accepts_reads,
}

read_from_socket_full :
    (a : Arrival) (errno : Errno) (s : Session)
    → max_buffer_size ≤ length s.read_buffer.bytes
    → read_from_socket a errno s ≡ (s, error errno)
unfolding read_from_socket
read_from_socket_full a errno s le = ground arith

module _ {Json W : Type 0} (J : JsonLib Json) (H : Handlers Json W) where
  read_loop_full :
      (arrivals : List Arrival) (errno : Errno) (s : Session) (w : W)
      → max_buffer_size ≤ length s.read_buffer.bytes
      → read_loop J H arrivals errno (s, w) ≡ stop_reading J H (error errno) (s, w)
  unfolding read_loop
  read_loop_full [] errno s w le =
      ap (λ (p : Session × ReadReturn). stop_reading J H p.1 (p.0, w))
        (read_from_socket_full (failing again) errno s le)
  read_loop_full (a ∷ rest) errno s w le =
      let full = read_from_socket_full a errno s le in
      rw (full, read_loop)
        (ap (λ (p : Session × ReadReturn). stop_reading J H (error errno) (p.0, w)) full)

  -- For a session that accepts reads and whose read buffer has the full size, the value that an
  -- earlier call left in `errno` decides: after a call that would have blocked the session stays
  -- active and reads nothing, after any other error it is closed.
  pub on_readable_full :
      (arrivals : List Arrival) (s : Session) (w : W) (e : ℕ)
      → accepts_reads s.state ≡ true
      → max_buffer_size ≤ length s.read_buffer.bytes
      → (on_readable J H arrivals again (s, w) ≡ ((record s { state = active }, w), true))
        × (on_readable J H arrivals (other e) (s, w)
            ≡ ((close (record s { state = reading }), w), false))
  unfolding on_readable stop_reading
  on_readable_full arrivals s w e open_ le = (
    rw (open_, on_readable) (read_loop_full arrivals again (record s { state = reading }) w le),
    rw (open_, on_readable) (read_loop_full arrivals (other e) (record s { state = reading }) w le),
  )
