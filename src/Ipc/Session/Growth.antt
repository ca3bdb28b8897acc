-- ===== src/Ipc/Session/Growth.antt =====
-- The size of the read buffer of src/ipc/session_manager.cpp while pieces of at most 1024 bytes are read.
use test_ai_agent.Prelude.{
  ℕ, zero, suc, ◌+◌, ◌*◌, min, ◌≤◌, ◌<◌, [], ◌∷◌, true, false, ◌≡◌, refl, arith, ◌∙◌, ap, sym,
  subst, length, take-all, drop, ltb, Bool-cases, Option-cases, inl, inr,
}
use test_ai_agent.Json.{JsonLib}
use test_ai_agent.Ipc.Framing.Scan.{Bytes}
use test_ai_agent.Ipc.Buffer.Ops.{
  IoBuffer, IsBuffer, available_for_write, compact, advance_read, advance_write, resize, store,
}
use test_ai_agent.Ipc.Buffer.View.{Holds, length-view, available-view, advance_read-Holds}
use test_ai_agent.Ipc.Buffer.Sizes.{
  length-compact, length-store, length-resize, room-view, write_pos-resize, bytes-advance_write,
}
use test_ai_agent.Ipc.Session.Defs.{Session, Handlers, max_buffer_size, dispatch}
use test_ai_agent.Ipc.Session.Read.{
  grow, make_room, receive, consume, parse_loop, try_parse_messages,
}
use test_ai_agent.Ipc.Session.Deliver.{LeavesInput, consume-dispatch}
use test_ai_agent.Ipc.Session.Room.{Ready, make_room-Ready}
use test_ai_agent.Ipc.Session.Loop.{next_message, round-Ready, consumed-le}

read_pos-compact : (b : IoBuffer) → (compact b).read_pos ≡ 0
unfolding compact
read_pos-compact b = elim (Bool-cases (ltb 0 b.read_pos)) [
  | inl moved ↦ rw moved refl
  | inr still ↦ rw still (ground (arith, still))
]

write_pos-queue : (b : IoBuffer) (q : Bytes) → Holds b q → b.read_pos ≡ 0 → b.write_pos ≡ length q
write_pos-queue b q h front =
    omega (arith, length-view b h.valid, ap length h.view, available-view b h.valid)

-- The most that the buffer holds when it grows, and its size then.
abbrev pub most : ℕ → ℕ
most limit = 2 * (limit + 1024)

read_pos-resize : (n : ℕ) (b : IoBuffer) → (resize n b).read_pos ≡ b.read_pos
unfolding resize
read_pos-resize n b = refl

-- What making room leaves.
pub record HasRoom (limit : ℕ) (b : IoBuffer) : Type 0 where
  pub front : b.read_pos ≡ 0
  pub some_size : 1024 ≤ length b.bytes
  pub below : length b.bytes ≤ most limit
  pub room : b.write_pos + 1024 ≤ length b.bytes

resized-HasRoom :
    (limit : ℕ) (b : IoBuffer) (q : Bytes)
    → Holds b q
    → b.read_pos ≡ 0
    → length q ≤ limit
    → 1024 ≤ length b.bytes
    → length b.bytes < b.write_pos + 1024
    → HasRoom limit (resize (length b.bytes * 2) b)
resized-HasRoom limit b q h front short some_size tight =
    let size = length-resize (length b.bytes * 2) b in
    let at = write_pos-resize (length b.bytes * 2) b in
    let stands = write_pos-queue b q h front in
    record {
      front = read_pos-resize (length b.bytes * 2) b ∙ front;
      some_size = omega (arith, size, some_size);
      below = omega (arith, size, stands, short, tight);
      room = omega (arith, size, at, some_size, h.valid.inside);
    }

grow-HasRoom :
    (limit : ℕ) (b : IoBuffer) (q : Bytes)
    → Holds b q
    → b.read_pos ≡ 0
    → length q ≤ limit
    → 1024 ≤ length b.bytes
    → length b.bytes ≤ most limit
    → most limit < max_buffer_size
    → HasRoom limit (grow b)
unfolding grow
grow-HasRoom limit b q h front short some_size below small =
    let view = room-view b h.valid in
    elim (Bool-cases (ltb (available_for_write b) 1024)) [
      | inl tight ↦
          let close : length b.bytes < b.write_pos + 1024 =
            ground (arith, tight, view, h.valid.inside) in
          let stands = write_pos-queue b q h front in
          let doubled : min (length b.bytes * 2) max_buffer_size ≡ length b.bytes * 2 =
            omega (arith, stands, close, short, small) in
          let larger : ltb (length b.bytes) (length b.bytes * 2) ≡ true =
            ground (arith, some_size) in
          rw (tight, doubled, larger) (resized-HasRoom limit b q h front short some_size close)
      | inr free ↦
          let far : 1024 ≤ available_for_write b = ground (arith, free) in
          rw free (record {
            front = front;
            some_size = some_size;
            below = below;
            room = omega (arith, view, far, h.valid.inside);
          })
    ]

read_pos_lem :
    (n : ℕ) (src : Bytes) (b : IoBuffer) → (advance_write n (store src b)).read_pos ≡ b.read_pos
unfolding advance_write store
read_pos_lem n src b = refl

bytes_lem : (k : ℕ) (b : IoBuffer) → length (advance_read k b).bytes ≡ length b.bytes
unfolding advance_read
bytes_lem k b = refl

receive_keeps :
    (chunk : Bytes) (b : IoBuffer)
    → IsBuffer b
    → length chunk ≤ available_for_write b
    → ((receive chunk b).0.read_pos ≡ b.read_pos)
      × (length (receive chunk b).0.bytes ≡ length b.bytes)
unfolding receive
receive_keeps [] b v fits = rw (receive, take-all (available_for_write b) [] fits) (refl, refl)
receive_keeps (c ∷ cs) b v fits =
    let room : b.write_pos + suc (length cs) ≤ length b.bytes =
      omega (arith, fits, room-view b v) in
    let size =
      ap length (bytes-advance_write (suc (length cs)) (store (c ∷ cs) b))
      ∙ length-store (c ∷ cs) b room in
    rw (receive, take-all (available_for_write b) (c ∷ cs) fits)
      (read_pos_lem (suc (length cs)) (c ∷ cs) b, size)

-- A read of a piece keeps the size.
pub read_chunk-HasRoom :
    (limit : ℕ) (chunk : Bytes) (s : Session) (q : Bytes)
    → Ready s.read_buffer q
    → s.read_buffer.read_pos ≡ 0
    → length q ≤ limit
    → 1024 ≤ length s.read_buffer.bytes
    → length s.read_buffer.bytes ≤ most limit
    → most limit < max_buffer_size
    → length chunk ≤ 1024
    → let b = (receive chunk (make_room s.read_buffer)).0 in
      (length chunk ≤ available_for_write (make_room s.read_buffer))
      × (b.read_pos ≡ 0)
      × (1024 ≤ length b.bytes)
      × (length b.bytes ≤ most limit)
unfolding make_room
read_chunk-HasRoom limit chunk s q r front some_short some_size below small few =
    let at_front : ltb 0 s.read_buffer.read_pos ≡ false = ground (arith, front) in
    let plain : make_room s.read_buffer ≡ grow s.read_buffer = rw (make_room, at_front) refl in
    let roomy =
      subst (HasRoom limit) (sym plain)
        (grow-HasRoom limit s.read_buffer q r.holds front some_short some_size below small) in
    let ready = (make_room-Ready s.read_buffer q r (omega (arith, below, small))).0 in
    let fits : length chunk ≤ available_for_write (make_room s.read_buffer) =
      omega (arith, room-view (make_room s.read_buffer) ready.holds.valid, roomy.room, few) in
    let (kept, size) = receive_keeps chunk (make_room s.read_buffer) ready.holds.valid fits in
    (
      fits,
      kept ∙ roomy.front,
      omega (arith, size, roomy.some_size),
      omega (arith, size, roomy.below),
    )

module _ {Json W : Type 0} (J : JsonLib Json) (H : Handlers Json W) (leaves : LeavesInput J H) where
  -- Parsing keeps the size, and what is left stands at the front.
  parse_loop_keeps :
      (fuel : ℕ) (sw : Session × W) (q : Bytes)
      → Ready sw.0.read_buffer q
      → sw.0.read_buffer.read_pos ≡ 0
      → ((parse_loop J H fuel sw).0.read_buffer.read_pos ≡ 0)
        × (length (parse_loop J H fuel sw).0.read_buffer.bytes ≡ length sw.0.read_buffer.bytes)
  unfolding parse_loop
  parse_loop_keeps zero sw q r front = (front, refl)
  parse_loop_keeps (suc fuel) sw q r front = elim (Option-cases (next_message J sw).0) [
    | inl absent ↦ rw (absent, parse_loop) (front, refl)
    | inr (m, found) ↦
        let k = (next_message J sw).1 in
        let b = advance_read k sw.0.read_buffer in
        let at = ap (λ (x : Session × W). x.0.read_buffer) (consume-dispatch J H leaves k m sw) in
        let valid =
          (advance_read-Holds k sw.0.read_buffer q r.holds (consumed-le J H leaves sw q r)).valid in
        let size =
          ap (λ (x : IoBuffer). length x.bytes) at
          ∙ length-compact b valid
          ∙ bytes_lem k sw.0.read_buffer in
        let (front', size') =
          parse_loop_keeps fuel (consume J H k (dispatch J H m sw)) (drop k q)
            (round-Ready J H leaves m sw q r)
            (ap (λ (x : IoBuffer). x.read_pos) at ∙ read_pos-compact b) in
        rw (found, parse_loop) (front', size' ∙ size)
  ]

module _ {Json W : Type 0} (J : JsonLib Json) (H : Handlers Json W) (leaves : LeavesInput J H) where
  pub try_parse_messages_keeps :
      (sw : Session × W) (q : Bytes)
      → Ready sw.0.read_buffer q
      → sw.0.read_buffer.read_pos ≡ 0
      → ((try_parse_messages J H sw).0.read_buffer.read_pos ≡ 0)
        × (length (try_parse_messages J H sw).0.read_buffer.bytes ≡ length sw.0.read_buffer.bytes)
  unfolding try_parse_messages
  try_parse_messages_keeps sw q r front = parse_loop_keeps J H leaves _ sw q r front
