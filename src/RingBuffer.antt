-- ===== src/RingBuffer.antt =====
-- include/async/buffer.h: the byte ring of a stream. The pointers `rpos` and `wpos` are kept as
-- offsets from `base`; a byte is a number, since bytes are only moved.
pub mod Inv
pub mod Reading
pub mod Writing
use ext_async.Prelude.{
  ℕ, zero, suc, ◌+◌, ◌-◌, ◌%◌, ◌^◌, min, List, [], ◌++◌, Option, none, some, ltb, ◌==◌,
  if◌then◌else◌, ◌&&◌, take, drop,
}

-- `async_ring_buffer`
pub record RingBuffer : Type 0 where
  pub base : List ℕ
  pub rpos : ℕ
  pub wpos : ℕ
  pub size : ℕ
  pub len : ℕ

abbrev pub size_mod : ℕ
size_mod = 2 ^ 64

pub read_len : RingBuffer → ℕ
read_len b = if b.len == 0 then 0 else if ltb b.wpos b.rpos then b.size - b.rpos else b.len

pub write_len : RingBuffer → ℕ
write_len b =
    if b.len == b.size then 0 else if ltb b.wpos b.rpos then b.rpos - b.wpos else b.size - b.wpos

-- How many bytes one round of the loop in `async_ring_buffer_read` copies.
pub chunk : RingBuffer → ℕ → ℕ
chunk b len =
    let count = b.size - b.rpos in if ltb b.len count then min len b.len else min len count

-- `rpos += count; len -= count`, and back to `base` at the end.
pub advance : RingBuffer → ℕ → RingBuffer
advance b count =
    let rpos = b.rpos + count in
    record b { rpos = if rpos == b.size then 0 else rpos; len = b.len - count }

-- What a round copied goes in front of what the rounds after it copy.
abbrev pub add_round :
    List ℕ → ℕ → Option (List ℕ × ℕ × RingBuffer) → Option (List ℕ × ℕ × RingBuffer)
add_round bytes count none = none
add_round bytes count (some (out, consumed, b)) = some (bytes ++ out, count + consumed, b)

-- The loop of `async_ring_buffer_read`: what it copied, how much that is, and the buffer after it.
-- The fuel bounds the rounds; `none` means that it ran out.
pub read_loop : ℕ → RingBuffer → ℕ → Option (List ℕ × ℕ × RingBuffer)
read_loop zero b len = none
read_loop (suc fuel) b len =
    let count = chunk b len in
    let round =
      add_round (take count (drop b.rpos b.base)) count
        (read_loop fuel (advance b count) (len - count)) in
    if ltb 0 len && ltb 0 b.len then round else some ([], 0, b)

-- Each round copies a byte at least, so `len + 1` rounds are enough.
pub read : RingBuffer → ℕ → Option (List ℕ × ℕ × RingBuffer)
read b len = read_loop (suc len) b len

-- `*str` is `none` for NULL.
pub read_string : RingBuffer → ℕ → Option (Option (List ℕ) × ℕ × RingBuffer)
read_string b len =
    let n = min b.len len in
    if n == 0
    then some (none, 0, b)
    else elim (read b n) [ none ↦ none | some (out, _, b') ↦ some (some out, n, b') ]

pub write_move : RingBuffer → ℕ → RingBuffer
write_move b offset = record b {
  wpos = (b.wpos + offset) % b.size;
  len = (b.len + offset) % size_mod;
}

pub consume : RingBuffer → ℕ → RingBuffer
consume b len = record b {
  rpos = (b.rpos + len) % b.size;
  len = (b.len + size_mod - len) % size_mod;
}
