-- ===== src/Ipc/Buffer/View.antt =====
-- `IOBuffer` of include/demo_daemon/ipc/session.hpp as a queue of bytes.
use test_ai_agent.Prelude.{
  ℕ, ◌+◌, ◌-◌, ◌%◌, ◌^◌, ◌≤◌, ◌<◌, [], ◌++◌, ltb, take, drop, replicate, length, arith, ◌≡◌, refl,
  ◌∙◌, ap, sym, length-take, length-drop, length-append, length-replicate, take-append,
  take-append_le, take-append_add, drop-append_le, drop-drop, take-drop, take-take, Bool-cases, inl,
  inr,
}
use test_ai_agent.Ipc.Framing.Scan.{Bytes}
use test_ai_agent.Ipc.Buffer.Ops.{
  IoBuffer, IsBuffer, new, available_for_read, move_front, compact, clear, get_read_view,
  advance_write, advance_read, resize, store,
}

-- `b` is well formed and holds the bytes `q`.
pub record Holds (b : IoBuffer) (q : Bytes) : Type 0 where
  pub valid : IsBuffer b
  pub view : get_read_view b ≡ q

pub available-view : (b : IoBuffer) → IsBuffer b → available_for_read b ≡ b.write_pos - b.read_pos
unfolding available_for_read
available-view b v = omega arith

-- The readable bytes are those between the two positions.
view_slice :
    (b : IoBuffer) → IsBuffer b → get_read_view b ≡ drop b.read_pos (take b.write_pos b.bytes)
unfolding get_read_view
view_slice b v =
    let e : b.read_pos + (b.write_pos - b.read_pos) ≡ b.write_pos = omega arith in
    rw (available-view b v) (take-drop _ b.read_pos b.bytes ∙ rw e)

pub length-view : (b : IoBuffer) → IsBuffer b → length (get_read_view b) ≡ available_for_read b
length-view b v = rw (view_slice b v) (
    omega (
      arith,
      available-view b v,
      length-drop b.read_pos (take b.write_pos b.bytes),
      length-take b.write_pos b.bytes,
    ))

-- A buffer that is read up to where it is written is empty.
empty-Holds : (b : IoBuffer) → IsBuffer b → b.read_pos ≡ 0 → b.write_pos ≡ 0 → Holds b []
empty-Holds b v r w = record { valid = v; view = view_slice b v ∙ rw (r, w) }

pub new-Holds : (n : ℕ) → n < 2 ^ 63 → Holds (new n) []
unfolding new
new-Holds n h =
    let v : IsBuffer (new n) = omega (arith, length-replicate {A = ℕ} n 0) in
    empty-Holds _ v refl refl

pub clear-Holds : (b : IoBuffer) → IsBuffer b → Holds (clear b) []
unfolding clear
clear-Holds b v = let w : IsBuffer (clear b) = omega arith in empty-Holds _ w refl refl

pub length-move_front :
    (from n : ℕ) (bytes : Bytes)
    → from + n ≤ length bytes
    → length (move_front from n bytes) ≡ length bytes
unfolding move_front
length-move_front from n bytes h = omega (
  arith,
  length-append (take n (drop from bytes)) (drop n bytes),
  length-take n (drop from bytes),
  length-drop from bytes,
  length-drop n bytes,
)

take-move_front :
    (from n : ℕ) (bytes : Bytes)
    → from + n ≤ length bytes
    → take n (move_front from n bytes) ≡ take n (drop from bytes)
unfolding move_front
take-move_front from n bytes h =
    let full : n ≤ length (take n (drop from bytes)) =
      omega (arith, length-take n (drop from bytes), length-drop from bytes) in
    take-append_le n (take n (drop from bytes)) (drop n bytes) full
    ∙ take-take n n (drop from bytes) (omega arith)

-- If a buffer holds some bytes it holds the same bytes after `compact`.
pub compact-Holds : (b : IoBuffer) (q : Bytes) → Holds b q → Holds (compact b) q
unfolding compact
compact-Holds b q h = elim (Bool-cases (ltb 0 b.read_pos)) [
  | inl moved ↦ rw moved (rw exact moved_holds)
  | inr still ↦ rw still h
]
  where
    n : ℕ
    n = b.write_pos - b.read_pos

    room : b.read_pos + n ≤ length b.bytes
    room = omega arith

    exact : (b.write_pos + 2 ^ 64 - b.read_pos) % 2 ^ 64 ≡ n
    exact = omega arith

    moved_valid :
        IsBuffer (record { bytes = move_front b.read_pos n b.bytes; read_pos = 0; write_pos = n })
    moved_valid = omega (arith, length-move_front b.read_pos n b.bytes room)

    moved_holds :
        Holds (record { bytes = move_front b.read_pos n b.bytes; read_pos = 0; write_pos = n }) q
    moved_holds = record {
      valid = moved_valid;
      view =
          view_slice _ moved_valid
          ∙ take-move_front b.read_pos n b.bytes room
          ∙ sym (ap (λ k. take k (drop b.read_pos b.bytes)) (available-view b h.valid))
          ∙ unfold get_read_view in h.view;
    }

-- If a buffer holds some bytes, and as many of them as are read, `advance_read` leaves the bytes
-- after those.
pub advance_read-Holds :
    (n : ℕ) (b : IoBuffer) (q : Bytes)
    → Holds b q
    → n ≤ length q
    → Holds (advance_read n b) (drop n q)
unfolding advance_read
advance_read-Holds n b q h le = record {
  valid = v;
  view =
      view_slice _ v
      ∙ ap (λ m. drop m (take b.write_pos b.bytes)) exact
      ∙ sym (drop-drop n b.read_pos (take b.write_pos b.bytes))
      ∙ ap (drop n) (sym (view_slice b h.valid) ∙ h.view);
}
  where
    room : b.read_pos + n ≤ b.write_pos
    room = omega (arith, available-view b h.valid, length-view b h.valid, ap length h.view)

    exact : (b.read_pos + n) % 2 ^ 64 ≡ b.read_pos + n
    exact = omega (arith, room)

    v : IsBuffer (record b { read_pos = (b.read_pos + n) % 2 ^ 64 })
    v = omega (arith, room)

-- A change of the size that keeps what was written keeps the readable bytes.
pub resize-Holds :
    (n : ℕ) (b : IoBuffer) (q : Bytes)
    → Holds b q
    → b.write_pos ≤ n
    → n < 2 ^ 63
    → Holds (resize n b) q
unfolding resize
resize-Holds n b q h le lt = record {
  valid = v;
  view =
      view_slice _ v
      ∙ ap (drop b.read_pos) (
          take-append_le b.write_pos kept _ (omega (arith, length-take n b.bytes))
          ∙ take-take b.write_pos n b.bytes le)
      ∙ sym (view_slice b h.valid)
      ∙ h.view;
}
  where
    kept : Bytes
    kept = take n b.bytes

    size : length (kept ++ replicate (n - length b.bytes) 0) ≡ n
    size = omega (
      arith,
      length-append kept (replicate (n - length b.bytes) 0),
      length-replicate {A = ℕ} (n - length b.bytes) 0,
      length-take n b.bytes,
    )

    v : IsBuffer (record b { bytes = kept ++ replicate (n - length b.bytes) 0 })
    v = omega (arith, size)

-- If a buffer holds some bytes and has room for more, storing these and counting them puts them
-- behind the ones it holds.
pub write-Holds :
    (src : Bytes) (b : IoBuffer) (q : Bytes)
    → Holds b q
    → b.write_pos + length src ≤ length b.bytes
    → Holds (advance_write (length src) (store src b)) (q ++ src)
unfolding advance_write store
write-Holds src b q h room = record { valid = v; view = view_slice _ v ∙ shown }
  where
    t : Bytes
    t = take b.write_pos b.bytes

    rest : Bytes
    rest = drop (b.write_pos + length src) b.bytes

    t_size : length t ≡ b.write_pos
    t_size = omega (arith, length-take b.write_pos b.bytes)

    size : length (t ++ (src ++ rest)) ≡ length b.bytes
    size = omega (
      arith,
      t_size,
      length-append t (src ++ rest),
      length-append src rest,
      length-drop (b.write_pos + length src) b.bytes,
    )

    exact : (b.write_pos + length src) % 2 ^ 64 ≡ length t + length src
    exact = omega (arith, t_size)

    v :
        IsBuffer
          (record b { bytes = t ++ (src ++ rest); write_pos = (b.write_pos + length src) % 2 ^ 64 })
    v = omega (arith, size)

    shown :
        drop b.read_pos (take ((b.write_pos + length src) % 2 ^ 64) (t ++ (src ++ rest))) ≡ q ++ src
    shown =
        ap (λ m. drop b.read_pos (take m (t ++ (src ++ rest)))) exact
        ∙ ap (drop b.read_pos)
            (take-append_add t (src ++ rest) (length src) ∙ ap (λ z. t ++ z) (take-append src rest))
        ∙ drop-append_le b.read_pos t src (omega (arith, t_size))
        ∙ ap (λ z. z ++ src) (sym (view_slice b h.valid) ∙ h.view)
