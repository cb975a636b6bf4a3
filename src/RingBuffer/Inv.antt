-- ===== src/RingBuffer/Inv.antt =====
-- The representation invariant of `async_ring_buffer`, its contents, and the two lengths that hand
-- out memory to the caller.
use native.Mathlib.Nat.{mod-eq_of_lt, mod-eq-sub-mod}
use native.Mathlib.Decide.{dec_lt}
use ext_async.Prelude.{
  ◌⊎◌, inl, inr, ◌∙◌, ℕ, ◌+◌, ◌-◌, ◌%◌, ◌≤◌, ◌<◌, ◌≡◌, ◌≢◌, min, List, length, arith,
}
use ext_async.Ring.{cells, length-cells}
use ext_async.RingBuffer.{RingBuffer, size_mod, read_len, write_len}

pub record IsValid (b : RingBuffer) : Type 0 where
  pub nonempty : 0 < b.size
  pub allocated : b.size ≤ length b.base
  pub small : b.size < size_mod
  pub rpos_in : b.rpos < b.size
  pub len_in : b.len ≤ b.size
  pub wpos_at : b.wpos ≡ (b.rpos + b.len) % b.size

-- The buffered bytes, oldest first.
abbrev pub contents : RingBuffer → List ℕ
contents b = cells 0 b.size b.base b.rpos b.len

pub length-contents : (b : RingBuffer) → length (contents b) ≡ b.len
length-contents b = length-cells 0 b.size b.base b.rpos b.len

-- Where the write position is: the ring goes round at most once.
pub wpos_cases :
    (b : RingBuffer)
    → IsValid b
    → ((b.rpos + b.len < b.size) × (b.wpos ≡ b.rpos + b.len))
      ⊎ ((b.size ≤ b.rpos + b.len) × (b.wpos + b.size ≡ b.rpos + b.len))
wpos_cases b v = elim (dec_lt (b.rpos + b.len) b.size) [
  | yes h ↦ inl (h, v.wpos_at ∙ mod-eq_of_lt h)
  | no h ↦ inr (
    omega arith,
    omega (
      arith,
      v,
      mod-eq-sub-mod {n = b.rpos + b.len} {m = b.size} (omega arith),
      mod-eq_of_lt {n = b.rpos + b.len - b.size} {m = b.size} (omega arith),
    ),
  )
]

-- On a valid buffer, what `async_ring_buffer_write_len` offers at the write position is free and
-- ends within the memory, and it offers something unless the buffer is full.
pub write_len_bounds :
    (b : RingBuffer)
    → IsValid b
    → (b.wpos + write_len b ≤ b.size)
      × (b.len + write_len b ≤ b.size)
      × (b.len < b.size → 0 < write_len b)
unfolding write_len
write_len_bounds b v = ground (arith, wpos_cases b v)

-- Unless a valid buffer is full, `async_ring_buffer_read_len` is the number of buffered bytes that
-- can be read from the read position on without going round the end.
pub read_len_contiguous :
    (b : RingBuffer) → IsValid b → b.len ≢ b.size → read_len b ≡ min b.len (b.size - b.rpos)
unfolding read_len
read_len_contiguous b v ne = ground (arith, wpos_cases b v)

-- On a valid, full buffer whose read position is not at its start, `async_ring_buffer_read_len`
-- reaches beyond the end of the memory.
pub read_len_overrun :
    (b : RingBuffer) → IsValid b → b.len ≡ b.size → 0 < b.rpos → b.size < b.rpos + read_len b
unfolding read_len
read_len_overrun b v full pos = ground (arith, wpos_cases b v)

-- On a valid buffer, `async_ring_buffer_read_len` is the number of buffered bytes that can be read from
-- the read position on without going round the end, unless the buffer is full; on a full one whose read
-- position is not at its start, it reaches beyond the end of the memory.
pub read_len_lem :
    (b : RingBuffer)
    → IsValid b
    → (b.len ≢ b.size → read_len b ≡ min b.len (b.size - b.rpos))
      × (b.len ≡ b.size → 0 < b.rpos → b.size < b.rpos + read_len b)
read_len_lem b v = (read_len_contiguous b v, read_len_overrun b v)
