-- ===== src/RingBuffer/Writing.antt =====
-- `async_ring_buffer_write_move` takes over the bytes that the caller stored at the write position.
use native.Mathlib.Nat.{mod-eq_of_lt, mod-add-mod, suc-mod}
use ext_async.Prelude.{
  ℕ, suc, ◌+◌, ◌%◌, ◌≤◌, ◌<◌, ◌≡◌, refl, sym, ap, ◌∙◌, List, [], ◌∷◌, ◌++◌, arith, length, set,
  length-set, append_assoc, append-nil,
}
use ext_async.Ring.{cells, cells-set}
use ext_async.RingBuffer.{RingBuffer, size_mod, write_len, write_move}
use ext_async.RingBuffer.Inv.{IsValid, contents, write_len_bounds}

-- What the caller does with the memory at the write position before the call.
abbrev pub store : List ℕ → ℕ → List ℕ → List ℕ
store buf i [] = buf
store buf i (x ∷ xs) = store (set buf i x) (suc i) xs

pub length-store : (buf : List ℕ) (i : ℕ) (xs : List ℕ) → length (store buf i xs) ≡ length buf
length-store buf i [] = refl
length-store buf i (x ∷ xs) = length-store (set buf i x) (suc i) xs ∙ length-set buf i x

next_mod : (w i n cap : ℕ) → w ≡ (i + n) % cap → suc w < cap → suc w ≡ (i + suc n) % cap
next_mod w i n cap e h =
    sym (mod-eq_of_lt h)
    ∙ ap (λ t. suc t % cap) e
    ∙ sym (suc-mod (i + n) cap)
    ∙ ap (λ t. t % cap) (omega arith)

cells-store :
    (cap : ℕ) (buf : List ℕ) (w i n : ℕ) (xs : List ℕ)
    → cap ≤ length buf
    → (0 < length xs → w ≡ (i + n) % cap)
    → w + length xs ≤ cap
    → n + length xs ≤ cap
    → cells 0 cap (store buf w xs) i (n + length xs) ≡ cells 0 cap buf i n ++ xs
cells-store cap buf w i n [] s e a b =
    ap (cells 0 cap buf i) (omega arith) ∙ sym (append-nil (cells 0 cap buf i n))
cells-store cap buf w i n (x ∷ xs) s e a b =
    let here : w ≡ (i + n) % cap = e (omega arith) in
    let put =
      ap (λ k. cells 0 cap (set buf k x) i (suc n)) here
      ∙ cells-set 0 cap buf x i n s (omega arith) in
    ap (cells 0 cap (store (set buf w x) (suc w) xs) i) (omega arith)
    ∙ cells-store cap (set buf w x) (suc w) i (suc n) xs (omega (arith, length-set buf w x))
        (λ h. next_mod w i n cap here (omega arith)) (omega arith) (omega arith)
    ∙ ap (λ t. t ++ xs) put
    ∙ append_assoc (cells 0 cap buf i n) (x ∷ []) xs

-- On a valid buffer, bytes that fit into what `async_ring_buffer_write_len` offers are appended to
-- the contents, in order, and the buffer stays valid.
pub write_move_lem :
    (b : RingBuffer) (bytes : List ℕ)
    → IsValid b
    → length bytes ≤ write_len b
    → let b' = write_move (record b { base = store b.base b.wpos bytes }) (length bytes) in
      IsValid b' × (contents b' ≡ contents b ++ bytes)
unfolding write_move
write_move_lem b bytes v h =
    let n = length bytes in
    let (fits, free, _) = write_len_bounds b v in
    let len' : (b.len + n) % size_mod ≡ b.len + n = mod-eq_of_lt (omega (arith, v.small)) in
    (
      record {
        nonempty = v.nonempty;
        allocated = omega (arith, length-store b.base b.wpos bytes, v.allocated);
        small = v.small;
        rpos_in = v.rpos_in;
        len_in = omega (arith, len');
        wpos_at =
            ap (λ t. (t + n) % b.size) v.wpos_at
            ∙ mod-add-mod (b.rpos + b.len) b.size n
            ∙ ap (λ t. t % b.size) (omega (arith, len'));
      },
      ap (cells 0 b.size (store b.base b.wpos bytes) b.rpos) len'
          ∙ cells-store b.size b.base b.wpos b.rpos b.len bytes v.allocated (λ _. v.wpos_at)
              (omega arith) (omega arith),
    )
