-- ===== src/Ipc/Buffer/Queue.antt =====
-- `IOBuffer` of include/demo_daemon/ipc/session.hpp under any sequence of its operations, against a
-- queue of bytes that has no positions.
use test_ai_agent.Prelude.{
  ℕ, ◌+◌, ◌≤◌, ◌<◌, ◌^◌, List, [], ◌∷◌, ◌++◌, drop, length, ◌≡◌, arith, ap, sym, ◌∙◌,
}
use test_ai_agent.Ipc.Framing.Scan.{Bytes}
use test_ai_agent.Ipc.Buffer.Ops.{
  IoBuffer, IsBuffer, new, available_for_read, available_for_write, compact, clear, get_read_view,
  advance_write, advance_read, resize, store,
}
use test_ai_agent.Ipc.Buffer.View.{
  Holds, length-view, new-Holds, compact-Holds, clear-Holds, advance_read-Holds, resize-Holds,
  write-Holds,
}

-- `writes` stores bytes at the write position and counts them.
pub data Op : Type 0 where
  writes : Bytes → Op
  reads resizes : ℕ → Op
  compacts clears : Op

abbrev pub act : Op → IoBuffer → IoBuffer
act (writes src) b = advance_write (length src) (store src b)
act (reads n) b = advance_read n b
act (resizes n) b = resize n b
act compacts b = compact b
act clears b = clear b

abbrev pub act_all : List Op → IoBuffer → IoBuffer
act_all [] b = b
act_all (op ∷ ops) b = act_all ops (act op b)

-- The callers write into the room that there is, read what is there, and resize to what keeps the
-- written bytes.
abbrev pub IsAllowed : Op → IoBuffer → Type 0
IsAllowed (writes src) b = length src ≤ available_for_write b
IsAllowed (reads n) b = n ≤ available_for_read b
IsAllowed (resizes n) b = (b.write_pos ≤ n) × (n < 2 ^ 63)
IsAllowed compacts b = Unit
IsAllowed clears b = Unit

abbrev pub AllAllowed : List Op → IoBuffer → Type 0
AllAllowed [] b = Unit
AllAllowed (op ∷ ops) b = IsAllowed op b × AllAllowed ops (act op b)

-- The queue: bytes are put behind and taken in front, and the size plays no part.
abbrev pub replay : List Op → Bytes → Bytes
replay [] q = q
replay (writes src ∷ ops) q = replay ops (q ++ src)
replay (reads n ∷ ops) q = replay ops (drop n q)
replay (resizes n ∷ ops) q = replay ops q
replay (compacts ∷ ops) q = replay ops q
replay (clears ∷ ops) q = replay ops []

room_lem :
    (n : ℕ) (b : IoBuffer)
    → IsBuffer b
    → n ≤ available_for_write b
    → b.write_pos + n ≤ length b.bytes
unfolding available_for_write
room_lem n b v h = omega arith

length-queue : (b : IoBuffer) (q : Bytes) → Holds b q → available_for_read b ≡ length q
length-queue b q h = sym (length-view b h.valid) ∙ ap length h.view

replay-Holds :
    (ops : List Op) (b : IoBuffer) (q : Bytes)
    → Holds b q
    → AllAllowed ops b
    → Holds (act_all ops b) (replay ops q)
replay-Holds [] b q h allowed = h
replay-Holds (writes src ∷ ops) b q h (room, allowed) =
    replay-Holds ops _ _ (write-Holds src b q h (room_lem (length src) b h.valid room)) allowed
replay-Holds (reads n ∷ ops) b q h (there, allowed) =
    replay-Holds ops _ _ (advance_read-Holds n b q h (omega (arith, length-queue b q h))) allowed
replay-Holds (resizes n ∷ ops) b q h ((le, lt), allowed) =
    replay-Holds ops _ _ (resize-Holds n b q h le lt) allowed
replay-Holds (compacts ∷ ops) b q h (_, allowed) =
    replay-Holds ops _ _ (compact-Holds b q h) allowed
replay-Holds (clears ∷ ops) b q h (_, allowed) =
    replay-Holds ops _ _ (clear-Holds b h.valid) allowed

-- After any sequence of operations on a new buffer of less than 2^63 bytes, each of which writes
-- into the room that there is, reads what is there, or resizes to what keeps the written bytes,
-- the readable bytes and their number are those of a queue on which the same writes, reads and
-- clears were done.
pub act_all-replay :
    (ops : List Op) (initial_size : ℕ)
    → initial_size < 2 ^ 63
    → AllAllowed ops (new initial_size)
    → (get_read_view (act_all ops (new initial_size)) ≡ replay ops [])
      × (available_for_read (act_all ops (new initial_size)) ≡ length (replay ops []))
act_all-replay ops initial_size small allowed =
    let h = replay-Holds ops (new initial_size) [] (new-Holds initial_size small) allowed in
    (h.view, length-queue _ _ h)
