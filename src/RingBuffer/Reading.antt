-- ===== src/RingBuffer/Reading.antt =====
-- `async_ring_buffer_read`, `async_ring_buffer_read_string` and `async_ring_buffer_consume` take
-- bytes from the front.
use native.Mathlib.Nat.{
  mod-eq_of_lt, mod_self, zero-mod, mod-add-mod, mod-lt, mod-mod, add-mod_right,
}
use ext_async.Prelude.{
  ℕ, zero, suc, ◌+◌, ◌-◌, ◌%◌, ◌≤◌, ◌<◌, ◌≡◌, refl, sym, ap, subst, ◌∙◌, ap₂, ◌⊎◌, inl, inr, min,
  List, [], ◌∷◌, ◌++◌, Option, some, arith, ltb, ◌&&◌, length, Bool-cases, none, ◌==◌,
  if◌then◌else◌, take, drop, take-append_length, drop-append_length, take_split, drop-drop,
}
use ext_async.Ring.{cells, length-cells, cells-append, cells-mod, cells-slice}
use ext_async.RingBuffer.{
  RingBuffer, chunk, advance, size_mod, add_round, read_loop, read, read_string, consume,
}
use ext_async.RingBuffer.Inv.{IsValid, contents, length-contents}

module _ (b : RingBuffer) (v : IsValid b) (count : ℕ) (few : count ≤ b.len) where
  abbrev front : List ℕ
  front = cells 0 b.size b.base b.rpos count

  abbrev rest : List ℕ
  rest = cells 0 b.size b.base (b.rpos + count) (b.len - count)

  split_contents :
      contents b
      ≡ cells 0 b.size b.base b.rpos count ++ cells 0 b.size b.base (b.rpos + count) (b.len - count)
  split_contents =
      ap (cells 0 b.size b.base b.rpos) (omega arith)
      ∙ cells-append 0 b.size b.base b.rpos count (b.len - count)

  front_contents : take count (contents b) ≡ cells 0 b.size b.base b.rpos count
  front_contents =
      ap (take count) split_contents
      ∙ subst (λ k. take k (front ++ rest) ≡ front) (length-cells 0 b.size b.base b.rpos count)
          (take-append_length front rest)

  rest_contents : drop count (contents b) ≡ cells 0 b.size b.base (b.rpos + count) (b.len - count)
  rest_contents =
      ap (drop count) split_contents
      ∙ subst (λ k. drop k (front ++ rest) ≡ rest) (length-cells 0 b.size b.base b.rpos count)
          (drop-append_length front rest)

  chunk_contents :
      b.rpos + count ≤ b.size → take count (drop b.rpos b.base) ≡ take count (contents b)
  chunk_contents h =
      sym (cells-slice 0 b.size b.base b.rpos count h v.allocated) ∙ sym front_contents

  advance-len :
      ((advance b count).size ≡ b.size)
      × ((advance b count).base ≡ b.base)
      × ((advance b count).len ≡ b.len - count)
  unfolding advance
  advance-len = (refl, refl, refl)

  advance-rpos : (advance b count).rpos % b.size ≡ (b.rpos + count) % b.size
  unfolding advance
  advance-rpos = ground (arith, mod_self b.size, zero-mod b.size)

  advance-contents : contents (advance b count) ≡ drop count (contents b)
  unfolding advance
  advance-contents =
      cells-mod 0 b.size b.base (advance b count).rpos (b.rpos + count) (b.len - count) advance-rpos
      ∙ sym rest_contents

  advance-wpos : b.wpos ≡ ((advance b count).rpos + (b.len - count)) % b.size
  advance-wpos =
      v.wpos_at
      ∙ ap (λ t. t % b.size) (omega arith)
      ∙ sym (mod-add-mod (b.rpos + count) b.size (b.len - count))
      ∙ ap (λ t. (t + (b.len - count)) % b.size) (sym advance-rpos)
      ∙ mod-add-mod (advance b count).rpos b.size (b.len - count)

  advance-IsValid : b.rpos + count ≤ b.size → IsValid (advance b count)
  unfolding advance
  advance-IsValid h = record {
    nonempty = v.nonempty;
    allocated = v.allocated;
    small = v.small;
    rpos_in = ground arith;
    len_in = omega arith;
    wpos_at = advance-wpos;
  }

-- A round copies at least a byte, no more than is asked for or buffered, and stays in the memory.
chunk_bounds :
    (b : RingBuffer) (n : ℕ)
    → IsValid b
    → 0 < n
    → 0 < b.len
    → (0 < chunk b n) × (chunk b n ≤ n) × (chunk b n ≤ b.len) × (b.rpos + chunk b n ≤ b.size)
unfolding chunk
chunk_bounds b n v p q = ground (arith, v)

-- What the read loop has done when it ends: the front of the contents is copied, the rest is kept.
pub record Took (b : RingBuffer) (n : ℕ) (r : Option (List ℕ × ℕ × RingBuffer)) : Type 0 where
  pub after : RingBuffer
  pub result : r ≡ some (take n (contents b), min n b.len, after)
  pub valid : IsValid after
  pub kept : contents after ≡ drop n (contents b)
  pub same : (after.size ≡ b.size) × (after.base ≡ b.base) × (after.len ≡ b.len - n)

nothing_taken :
    (n : ℕ) (xs : List ℕ) → (n ≡ 0) ⊎ (length xs ≡ 0) → (take n xs ≡ []) × (drop n xs ≡ xs)
nothing_taken zero xs h = (refl, refl)
nothing_taken (suc n) [] h = (refl, refl)
nothing_taken (suc n) (x ∷ xs) h = absurd (omega arith)

stop-Took :
    (b : RingBuffer) (n : ℕ) → IsValid b → (n ≡ 0) ⊎ (b.len ≡ 0) → Took b n (some ([], 0, b))
stop-Took b n v h =
    let (none_taken, all_kept) = nothing_taken n (contents b) (omega (arith, length-contents b)) in
    record {
      after = b;
      result = ground (arith, none_taken);
      valid = v;
      kept = sym all_kept;
      same = (refl, refl, omega arith);
    }

-- A round and the rounds after it.
round-Took :
    (b : RingBuffer) (n k : ℕ) (r : Option (List ℕ × ℕ × RingBuffer))
    → IsValid b
    → k ≤ n
    → k ≤ b.len
    → b.rpos + k ≤ b.size
    → Took (advance b k) (n - k) r
    → Took b n (add_round (take k (drop b.rpos b.base)) k r)
round-Took b n k r v kn kl kr t = record {
  after = t.after;
  result = rw t.result (ap some (ground (arith, bytes, advance-len b v k kl)));
  valid = t.valid;
  kept = t.kept ∙ ap (drop (n - k)) (advance-contents b v k kl) ∙ drop-drop k n (contents b) kn;
  same = let (p, q, r) = advance-len b v k kl in (t.same.0 ∙ p, t.same.1 ∙ q, omega arith);
}
  where
    bytes :
        take k (drop b.rpos b.base) ++ take (n - k) (contents (advance b k)) ≡ take n (contents b)
    bytes =
        ap₂ ◌++◌ (chunk_contents b v k kl kr) (ap (take (n - k)) (advance-contents b v k kl))
        ∙ sym (take_split k n (contents b) kn)

read_loop-Took :
    (fuel : ℕ) (b : RingBuffer) (n : ℕ) → n < fuel → IsValid b → Took b n (read_loop fuel b n)
unfolding read_loop
read_loop-Took zero b n h v = elim h [ ]
read_loop-Took (suc fuel) b n h v = elim (Bool-cases (ltb 0 n && ltb 0 b.len)) [
  | inl go ↦
      let (pos, kn, kl, kr) = chunk_bounds b n v (ground arith) (ground arith) in
      rw go (
        round-Took b n (chunk b n) _ v kn kl kr (
          read_loop-Took fuel (advance b (chunk b n)) (n - chunk b n) (omega arith)
            (advance-IsValid b v (chunk b n) kl kr)))
  | inr stop ↦ rw stop (stop-Took b n v (ground arith))
]

-- On a valid buffer `async_ring_buffer_read` ends, copies the oldest bytes in order, as many as are
-- asked for or buffered, and leaves a valid buffer that holds the others.
pub read_lem :
    (b : RingBuffer) (n : ℕ)
    → IsValid b
    → (b' : RingBuffer) × (read b n ≡ some (take n (contents b), min n b.len, b'))
      × IsValid b'
      × (contents b' ≡ drop n (contents b))
unfolding read
read_lem b n v =
    let t = read_loop-Took (suc n) b n (omega arith) v in (t.after, t.result, t.valid, t.kept)

-- On a valid buffer `async_ring_buffer_read_string` leaves `*str` at NULL if there is nothing to
-- read or nothing is asked for; otherwise the string is the front of the contents, and the others
-- stay.
pub read_string_lem :
    (b : RingBuffer) (n : ℕ)
    → IsValid b
    → let m = min b.len n in
      (b' : RingBuffer) × (read_string b n
        ≡ some (if m == 0 then none else some (take m (contents b)), m, b'))
      × IsValid b'
      × (contents b' ≡ drop m (contents b))
unfolding read_string
read_string_lem b n v =
    let m = min b.len n in
    let (b', e, v', c) = read_lem b m v in
    elim (Bool-cases (m == 0)) [
      | inl z ↦ (b, ground arith, v, sym (nothing_taken m (contents b) (inl (ground arith))).1)
      | inr z ↦ (b', ground (arith, e), v', c)
    ]

-- On a valid buffer `async_ring_buffer_consume` drops the oldest bytes, for a number of bytes
-- within its assertions.
pub consume_lem :
    (b : RingBuffer) (n : ℕ)
    → IsValid b
    → n ≤ b.len
    → IsValid (consume b n) × (contents (consume b n) ≡ drop n (contents b))
unfolding consume
consume_lem b n v h =
    let len' : (b.len + size_mod - n) % size_mod ≡ b.len - n =
      ap (λ t. t % size_mod) (omega arith)
      ∙ add-mod_right (b.len - n) size_mod
      ∙ mod-eq_of_lt (omega (arith, v.small)) in
    (
      record {
        nonempty = v.nonempty;
        allocated = v.allocated;
        small = v.small;
        rpos_in = mod-lt (b.rpos + n) v.nonempty;
        len_in = omega (arith, len');
        wpos_at =
            v.wpos_at
            ∙ ap (λ t. t % b.size) (omega (arith, len'))
            ∙ sym (mod-add-mod (b.rpos + n) b.size ((b.len + size_mod - n) % size_mod));
      },
      ap (cells 0 b.size b.base ((b.rpos + n) % b.size)) len'
          ∙ cells-mod 0 b.size b.base ((b.rpos + n) % b.size) (b.rpos + n) (b.len - n)
              (mod-mod (b.rpos + n) b.size)
          ∙ sym (rest_contents b v n h),
    )
