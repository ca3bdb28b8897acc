-- ===== src/Ipc/Session/Room.antt =====
-- The read buffer across a call of `read_from_socket` of src/ipc/session_manager.cpp.
use mathlib.Core.List.{append-nil}
use test_ai_agent.Prelude.{
  ℕ, suc, ◌+◌, ◌*◌, ◌≤◌, ◌<◌, min, [], ◌∷◌, ◌++◌, ◌&&◌, ◌≡◌, arith, ◌∙◌, ap, sym, subst, ltb, leb,
  length, take, length-take, Bool-cases, inl, inr,
}
use test_ai_agent.Ipc.Framing.Scan.{Bytes}
use test_ai_agent.Ipc.Buffer.Ops.{
  IoBuffer, available_for_read, available_for_write, compact, advance_write, resize, store,
}
use test_ai_agent.Ipc.Buffer.View.{Holds, compact-Holds, resize-Holds, write-Holds}
use test_ai_agent.Ipc.Buffer.Sizes.{
  length-compact, length-store, length-resize, room-view, write_pos-resize, bytes-advance_write,
}
use test_ai_agent.Ipc.Session.Defs.{Errno, Session, max_buffer_size}
use test_ai_agent.Ipc.Session.Read.{
  Arrival, arrived, hung_up, failing, ReadReturn, positive, eof, grow, make_room, receive,
  read_into, read_from_socket,
}

-- The buffer holds `q`, and its size lies in the limits.
pub record Ready (b : IoBuffer) (q : Bytes) : Type 0 where
  pub holds : Holds b q
  pub sized : 0 < length b.bytes
  pub limit : length b.bytes ≤ max_buffer_size

grow-Ready :
    (c : IoBuffer) (q : Bytes)
    → Ready c q
    → length c.bytes < max_buffer_size
    → Ready (grow c) q × (0 < available_for_write (grow c))
unfolding grow
grow-Ready c q r lt =
    elim (Bool-cases (ltb (available_for_write c) 1024 && ltb (length c.bytes) new_size)) [
      | inl small ↦ rw small (larger (ground arith))
      | inr large ↦ rw large (r, ground (arith, room-view c r.holds.valid))
    ]
  where
    new_size : ℕ
    new_size = min (length c.bytes * 2) max_buffer_size

    size : length (resize new_size c).bytes ≡ new_size
    size = length-resize new_size c

    larger :
        length c.bytes < new_size
        → Ready (resize new_size c) q × (0 < available_for_write (resize new_size c))
    larger more =
        let h = resize-Holds new_size c q r.holds (omega arith) (omega arith) in
        (
          record { holds = h; sized = omega (arith, size); limit = omega (arith, size) },
          omega (arith, size, room-view (resize new_size c) h.valid, write_pos-resize new_size c),
        )

pub compacted-Ready : (b : IoBuffer) (q : Bytes) → Ready b q → Ready (compact b) q
compacted-Ready b q r =
    let size = length-compact b r.holds.valid in
    record {
      holds = compact-Holds b q r.holds;
      sized = omega (arith, size);
      limit = omega (arith, size);
    }

-- If the read buffer is ready and smaller than the limit, making room keeps what it holds and its
-- limits, and leaves room for at least one byte.
pub make_room-Ready :
    (b : IoBuffer) (q : Bytes)
    → Ready b q
    → length b.bytes < max_buffer_size
    → Ready (make_room b) q × (0 < available_for_write (make_room b))
unfolding make_room
make_room-Ready b q r lt = elim (Bool-cases (ltb 0 b.read_pos && ltb 0 (available_for_read b))) [
  | inl front ↦ rw front (
      grow-Ready (compact b) q (compacted-Ready b q r)
        (omega (arith, length-compact b r.holds.valid)))
  | inr none_read ↦ rw none_read (grow-Ready b q r lt)
]

-- What arrives is added at the end, as much of it as there is room for.
pub receive-Ready :
    (bytes : Bytes) (b : IoBuffer) (q : Bytes)
    → Ready b q
    → Ready (receive bytes b).0 (q ++ take (available_for_write b) bytes)
unfolding receive
receive-Ready bytes b q r =
    added (take (available_for_write b) bytes)
      (omega (arith, length-take (available_for_write b) bytes))
  where
    added :
        (got : Bytes)
        → length got ≤ available_for_write b
        → Ready
            (elim got as (λ _. IoBuffer × ReadReturn) [
              | [] ↦ (b, eof)
              | c ∷ cs ↦ (advance_write (suc (length cs)) (store (c ∷ cs) b), positive)
            ]).0
            (q ++ got)
    added [] le = subst (Ready b) (sym (append-nil q)) r
    added (c ∷ cs) le =
        let room : b.write_pos + suc (length cs) ≤ length b.bytes =
          omega (arith, room-view b r.holds.valid) in
        let size =
          ap length (bytes-advance_write (suc (length cs)) (store (c ∷ cs) b))
          ∙ length-store (c ∷ cs) b room in
        record {
          holds = write-Holds (c ∷ cs) b q r.holds room;
          sized = omega (arith, size);
          limit = omega (arith, size);
        }

-- If the read buffer is ready, then after `read_from_socket`, whatever it meets, the buffer is
-- ready and holds what it held followed by what was added.
pub read_from_socket-Ready :
    (a : Arrival) (errno : Errno) (s : Session) (q : Bytes)
    → Ready s.read_buffer q
    → (extra : Bytes) × Ready (read_from_socket a errno s).0.read_buffer (q ++ extra)
unfolding read_from_socket read_into
read_from_socket-Ready a errno s q r =
    elim (Bool-cases (leb max_buffer_size (length s.read_buffer.bytes))) [
      | inl full ↦ ([], rw full (subst (Ready s.read_buffer) (sym (append-nil q)) r))
      | inr below ↦ rw below (read a (make_room-Ready s.read_buffer q r (ground arith)).0)
    ]
  where
    kept :
        Ready (make_room s.read_buffer) q
        → (extra : Bytes) × Ready (make_room s.read_buffer) (q ++ extra)
    kept ready = ([], subst (Ready (make_room s.read_buffer)) (sym (append-nil q)) ready)

    read :
        (a : Arrival)
        → Ready (make_room s.read_buffer) q
        → (extra : Bytes) × Ready (read_into a (make_room s.read_buffer)).0 (q ++ extra)
    read (arrived bytes) ready = (_, receive-Ready bytes (make_room s.read_buffer) q ready)
    read hung_up ready = kept ready
    read (failing e) ready = kept ready
