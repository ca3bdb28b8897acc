-- ===== src/Ipc/Buffer/Ops.antt =====
-- The buffer and its operations. A `std::vector<char>` is a list, and `size_t` has 64 bits.
use test_ai_agent.Prelude.{
  ℕ, ◌+◌, ◌-◌, ◌%◌, ◌^◌, ◌≤◌, ◌<◌, ◌++◌, ltb, if◌then◌else◌, take, drop, replicate, length,
}
use test_ai_agent.Ipc.Framing.Scan.{Bytes}

-- Sums and differences of `size_t` wrap.
abbrev pub add_size : ℕ → ℕ → ℕ
add_size a b = (a + b) % 2 ^ 64

abbrev pub sub_size : ℕ → ℕ → ℕ
sub_size a b = (a + 2 ^ 64 - b) % 2 ^ 64

pub record IoBuffer : Type 0 where
  pub bytes : Bytes  -- `data`
  pub read_pos : ℕ
  pub write_pos : ℕ

-- `IOBuffer(initial_size)`; the default is 4096
unfoldable pub new : ℕ → IoBuffer
new initial_size = record { bytes = replicate initial_size 0; read_pos = 0; write_pos = 0 }

unfoldable pub available_for_read : IoBuffer → ℕ
available_for_read b = sub_size b.write_pos b.read_pos

unfoldable pub available_for_write : IoBuffer → ℕ
available_for_write b = sub_size (length b.bytes) b.write_pos

-- `memmove(data, data + from, n)`
unfoldable pub move_front : ℕ → ℕ → Bytes → Bytes
move_front from n bytes = take n (drop from bytes) ++ drop n bytes

unfoldable pub compact : IoBuffer → IoBuffer
compact b =
    if ltb 0 b.read_pos
    then record {
      bytes = move_front b.read_pos (sub_size b.write_pos b.read_pos) b.bytes;
      read_pos = 0;
      write_pos = sub_size b.write_pos b.read_pos;
    }
    else b

unfoldable pub clear : IoBuffer → IoBuffer
clear b = record b { read_pos = 0; write_pos = 0 }

unfoldable pub get_read_view : IoBuffer → Bytes
get_read_view b = take (available_for_read b) (drop b.read_pos b.bytes)

unfoldable pub advance_write : ℕ → IoBuffer → IoBuffer
advance_write n b = record b { write_pos = add_size b.write_pos n }

unfoldable pub advance_read : ℕ → IoBuffer → IoBuffer
advance_read n b = record b { read_pos = add_size b.read_pos n }

-- `data.resize(n)`: new bytes are zero
unfoldable pub resize : ℕ → IoBuffer → IoBuffer
resize n b = record b { bytes = take n b.bytes ++ replicate (n - length b.bytes) 0 }

-- A copy of `src` to `get_write_ptr()`, by `memcpy` or by the kernel.
unfoldable pub store : Bytes → IoBuffer → IoBuffer
store src b = record b {
  bytes = take b.write_pos b.bytes ++ (src ++ drop (b.write_pos + length src) b.bytes);
}

-- What holds of a buffer between two calls.
pub record IsBuffer (b : IoBuffer) : Type 0 where
  pub ordered : b.read_pos ≤ b.write_pos
  pub inside : b.write_pos ≤ length b.bytes
  pub fits : length b.bytes < 2 ^ 63
