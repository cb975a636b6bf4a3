-- ===== src/Ring.antt =====
-- The cells of an array used as a ring: shared by the byte buffer of include/async/buffer.h and by
-- the message buffer of src/channel.c.
use native.Mathlib.Nat.{mod-lt, mod-eq_of_lt, suc-mod, add-zero}
use ext_async.Prelude.{
  ℕ, zero, suc, ◌+◌, ◌%◌, ◌≤◌, ◌<◌, ◌≡◌, refl, sym, ap, ap₂, ◌∙◌, ◌≢◌, List, [], ◌∷◌, ◌++◌, arith,
  length, get_or, set, take, drop, get_or-set_self, get_or-set_ne,
}

suc_add : (a b : ℕ) → suc a + b ≡ suc (a + b)
suc_add a b = omega arith

one_more : (n : ℕ) → suc n ≡ n + 1
one_more n = omega arith

suc_shift : (a b : ℕ) → a + suc b ≡ suc a + b
suc_shift a b = omega arith

module _ {A : Type 0} (d : A) (cap : ℕ) where
  -- `n` cells from index `i` on, every index taken modulo the capacity.
  abbrev pub cells : List A → ℕ → ℕ → List A
  cells buf i zero = []
  cells buf i (suc n) = get_or buf (i % cap) d ∷ cells buf (suc i) n

  pub length-cells : (buf : List A) (i n : ℕ) → length (cells buf i n) ≡ n
  length-cells buf i zero = refl
  length-cells buf i (suc n) = ap suc (length-cells buf (suc i) n)

  pub cells-mod : (buf : List A) (i j n : ℕ) → i % cap ≡ j % cap → cells buf i n ≡ cells buf j n
  cells-mod buf i j zero e = refl
  cells-mod buf i j (suc n) e = ap₂ ◌∷◌ (ap (λ k. get_or buf k d) e) (
      cells-mod buf (suc i) (suc j) n
        (suc-mod i cap ∙ ap (λ k. suc k % cap) e ∙ sym (suc-mod j cap)))

  pub cells-append :
      (buf : List A) (i n m : ℕ) → cells buf i (n + m) ≡ cells buf i n ++ cells buf (i + n) m
  cells-append buf i zero m = ap₂ (cells buf) (omega arith) (omega arith)
  cells-append buf i (suc n) m =
      rw (suc_add n m, suc_shift i n)
        (ap (◌∷◌ (get_or buf (i % cap) d)) (cells-append buf (suc i) n m))

  pub cells-set_outside :
      (buf : List A) (k : ℕ) (v : A) (i n : ℕ)
      → ((m : ℕ) → m < n → (i + m) % cap ≢ k)
      → cells (set buf k v) i n ≡ cells buf i n
  cells-set_outside buf k v i zero h = refl
  cells-set_outside buf k v i (suc n) h =
      ap₂ ◌∷◌
        (get_or-set_ne buf k (i % cap) v d
          (λ e. h 0 (omega arith) (ap (λ t. t % cap) (add-zero i) ∙ sym e)))
        (cells-set_outside buf k v (suc i) n
          (λ m lt e. h (suc m) (omega arith) (ap (λ t. t % cap) (suc_shift i m) ∙ e)))

  mod_ne : (i m n : ℕ) → m < n → n < cap → (i + m) % cap ≢ (i + n) % cap
  mod_ne i m n h k = grind arith

  -- A write just behind `n` cells adds its value to them.
  pub cells-set :
      (buf : List A) (v : A) (i n : ℕ)
      → cap ≤ length buf
      → n < cap
      → cells (set buf ((i + n) % cap) v) i (suc n) ≡ cells buf i n ++ v ∷ []
  cells-set buf v i n s h =
      let k = (i + n) % cap in
      let out = cells-set_outside buf k v i n (λ m lt. mod_ne i m n lt h) in
      let self = get_or-set_self buf k v d (omega (arith, mod-lt (i + n) {m = cap})) in
      ap (cells (set buf k v) i) (one_more n)
      ∙ cells-append (set buf k v) i n 1
      ∙ ap₂ ◌++◌ out (ap (λ t. t ∷ []) self)

  get_or-drop :
      (buf : List A) (i n : ℕ)
      → i < length buf
      → get_or buf i d ∷ take n (drop (suc i) buf) ≡ take (suc n) (drop i buf)
  get_or-drop [] i n h = elim h [ ]
  get_or-drop (x ∷ xs) zero n h = refl
  get_or-drop (x ∷ xs) (suc i) n h = get_or-drop xs i n (omega arith)

  -- Cells that do not reach the end of the array are a slice of it.
  pub cells-slice :
      (buf : List A) (i n : ℕ)
      → i + n ≤ cap
      → cap ≤ length buf
      → cells buf i n ≡ take n (drop i buf)
  cells-slice buf i zero h s = refl
  cells-slice buf i (suc n) h s =
      rw (mod-eq_of_lt {n = i} {m = cap} (omega arith), cells-slice buf (suc i) n (omega arith) s)
        (get_or-drop buf i n (omega arith))
