-- ===== src/Ipc/Buffer/Sizes.antt =====
-- What the operations of a buffer do to its size and to its positions.
use test_ai_agent.Prelude.{
  ℕ, ◌+◌, ◌-◌, ◌%◌, ◌^◌, ◌≤◌, ◌++◌, take, drop, replicate, length, arith, ◌≡◌, refl, length-take,
  length-drop, length-append, length-replicate,
}
use test_ai_agent.Ipc.Framing.Scan.{Bytes}
use test_ai_agent.Ipc.Buffer.Ops.{
  IoBuffer, IsBuffer, available_for_write, compact, advance_write, resize, store,
}
use test_ai_agent.Ipc.Buffer.View.{length-move_front}

-- Compacting and writing keep the size.
pub length-compact : (b : IoBuffer) → IsBuffer b → length (compact b).bytes ≡ length b.bytes
unfolding compact
length-compact b v =
    let n = b.write_pos - b.read_pos in
    let exact : (b.write_pos + 2 ^ 64 - b.read_pos) % 2 ^ 64 ≡ n = omega arith in
    let room : b.read_pos + n ≤ length b.bytes = omega arith in
    ground (arith, exact, length-move_front b.read_pos n b.bytes room)

pub length-store :
    (src : Bytes) (b : IoBuffer)
    → b.write_pos + length src ≤ length b.bytes
    → length (store src b).bytes ≡ length b.bytes
unfolding store
length-store src b room = omega (
  arith,
  length-append (take b.write_pos b.bytes) (src ++ drop (b.write_pos + length src) b.bytes),
  length-append src (drop (b.write_pos + length src) b.bytes),
  length-take b.write_pos b.bytes,
  length-drop (b.write_pos + length src) b.bytes,
)

pub length-resize : (n : ℕ) (b : IoBuffer) → length (resize n b).bytes ≡ n
unfolding resize
length-resize n b = omega (
  arith,
  length-append (take n b.bytes) (replicate (n - length b.bytes) 0),
  length-replicate {A = ℕ} (n - length b.bytes) 0,
  length-take n b.bytes,
)

pub room-view : (b : IoBuffer) → IsBuffer b → available_for_write b ≡ length b.bytes - b.write_pos
unfolding available_for_write
room-view b v = omega arith

pub write_pos-resize : (n : ℕ) (b : IoBuffer) → (resize n b).write_pos ≡ b.write_pos
unfolding resize
write_pos-resize n b = refl

pub bytes-advance_write : (n : ℕ) (b : IoBuffer) → (advance_write n b).bytes ≡ b.bytes
unfolding advance_write
bytes-advance_write n b = refl
