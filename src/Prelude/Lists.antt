-- ===== src/Prelude/Lists.antt =====
-- Lists measured and indexed by native numbers, under the library's names.
use Prim.Native.Nat.{ℕ, zero, suc, ◌+◌, ◌-◌, ◌<◌, ◌≤◌}
use mathlib.Core.Path.{◌≡◌, refl, ap, ◌∙◌}
use mathlib.Core.Logic.{◌≢◌}
use mathlib.Core.List.{List, [], ◌∷◌, ◌++◌}
use mathlib.Core.Option.{Option, none, some}
use native.Mathlib.Omega.{arith}

module _ {ℓ} {A : Type ℓ} where
  abbrev pub length : List A → ℕ
  length [] = 0
  length (x ∷ xs) = suc (length xs)

  abbrev pub get_elem? : List A → ℕ → Option A
  get_elem? [] i = none
  get_elem? (x ∷ xs) zero = some x
  get_elem? (x ∷ xs) (suc i) = get_elem? xs i

  abbrev pub get_or : List A → ℕ → A → A
  get_or [] i d = d
  get_or (x ∷ xs) zero d = x
  get_or (x ∷ xs) (suc i) d = get_or xs i d

  -- A write out of bounds changes nothing.
  abbrev pub set : List A → ℕ → A → List A
  set [] i v = []
  set (x ∷ xs) zero v = v ∷ xs
  set (x ∷ xs) (suc i) v = x ∷ set xs i v

  abbrev pub take : ℕ → List A → List A
  take zero xs = []
  take (suc n) [] = []
  take (suc n) (x ∷ xs) = x ∷ take n xs

  abbrev pub drop : ℕ → List A → List A
  drop zero xs = xs
  drop (suc n) [] = []
  drop (suc n) (x ∷ xs) = drop n xs

  abbrev pub replicate : ℕ → A → List A
  replicate zero a = []
  replicate (suc n) a = a ∷ replicate n a

  pub length-append : (xs ys : List A) → length (xs ++ ys) ≡ length xs + length ys
  length-append [] ys = omega arith
  length-append (x ∷ xs) ys = omega (arith, length-append xs ys)

  pub length-set : (xs : List A) (i : ℕ) (v : A) → length (set xs i v) ≡ length xs
  length-set [] i v = refl
  length-set (x ∷ xs) zero v = refl
  length-set (x ∷ xs) (suc i) v = ap suc (length-set xs i v)

  pub length-replicate : (n : ℕ) (a : A) → length (replicate n a) ≡ n
  length-replicate zero a = refl
  length-replicate (suc n) a = ap suc (length-replicate n a)

  pub get_or-set_self :
      (xs : List A) (i : ℕ) (v d : A) → i < length xs → get_or (set xs i v) i d ≡ v
  get_or-set_self [] i v d h = elim h [ ]
  get_or-set_self (x ∷ xs) zero v d h = refl
  get_or-set_self (x ∷ xs) (suc i) v d h = get_or-set_self xs i v d (omega arith)

  pub get_or-set_ne :
      (xs : List A) (i j : ℕ) (v d : A) → i ≢ j → get_or (set xs i v) j d ≡ get_or xs j d
  get_or-set_ne [] i j v d h = refl
  get_or-set_ne (x ∷ xs) zero zero v d h = absurd (h refl)
  get_or-set_ne (x ∷ xs) zero (suc j) v d h = refl
  get_or-set_ne (x ∷ xs) (suc i) zero v d h = refl
  get_or-set_ne (x ∷ xs) (suc i) (suc j) v d h = get_or-set_ne xs i j v d (λ e. h (ap suc e))

  pub take-append_length : (xs ys : List A) → take (length xs) (xs ++ ys) ≡ xs
  take-append_length [] ys = refl
  take-append_length (x ∷ xs) ys = ap (◌∷◌ x) (take-append_length xs ys)

  pub drop-append_length : (xs ys : List A) → drop (length xs) (xs ++ ys) ≡ ys
  drop-append_length [] ys = refl
  drop-append_length (x ∷ xs) ys = drop-append_length xs ys

  pub take-append_more :
      (n m : ℕ) (xs ys : List A) → n ≡ length xs → take (n + m) (xs ++ ys) ≡ xs ++ take m ys
  take-append_more n m [] ys e = ap (λ k. take k ys) (omega arith)
  take-append_more zero m (x ∷ xs) ys e = absurd (omega arith)
  take-append_more (suc n) m (x ∷ xs) ys e =
      rw (suc_add n m) (ap (◌∷◌ x) (take-append_more n m xs ys (omega arith)))
    where
      suc_add : (a b : ℕ) → suc a + b ≡ suc (a + b)
      suc_add a b = omega arith

  pub drop-append_more :
      (n m : ℕ) (xs ys : List A) → n ≡ length xs → drop (n + m) (xs ++ ys) ≡ drop m ys
  drop-append_more n m [] ys e = ap (λ k. drop k ys) (omega arith)
  drop-append_more zero m (x ∷ xs) ys e = absurd (omega arith)
  drop-append_more (suc n) m (x ∷ xs) ys e =
      rw (suc_add n m) (drop-append_more n m xs ys (omega arith))
    where
      suc_add : (a b : ℕ) → suc a + b ≡ suc (a + b)
      suc_add a b = omega arith

  -- A longer prefix is a shorter one and a prefix of what is left.
  pub take_split :
      (k n : ℕ) (xs : List A) → k ≤ n → take n xs ≡ take k xs ++ take (n - k) (drop k xs)
  take_split zero n xs h = ap (λ m. take m xs) (omega arith)
  take_split (suc k) zero xs h = elim h [ ]
  take_split (suc k) (suc n) [] h = take-nil (suc n - suc k)
    where
      take-nil : (m : ℕ) → [] ≡ take m []
      take-nil zero = refl
      take-nil (suc m) = refl
  take_split (suc k) (suc n) (x ∷ xs) h =
      ap (◌∷◌ x)
        (take_split k n xs (omega arith) ∙ ap (λ m. take k xs ++ take m (drop k xs)) (omega arith))

  pub drop-drop : (k n : ℕ) (xs : List A) → k ≤ n → drop (n - k) (drop k xs) ≡ drop n xs
  drop-drop zero n xs h = ap (λ m. drop m xs) (omega arith)
  drop-drop (suc k) zero xs h = elim h [ ]
  drop-drop (suc k) (suc n) [] h = drop-nil (suc n - suc k)
    where
      drop-nil : (m : ℕ) → drop m [] ≡ []
      drop-nil zero = refl
      drop-nil (suc m) = refl
  drop-drop (suc k) (suc n) (x ∷ xs) h =
      ap (λ m. drop m (drop k xs)) (omega arith) ∙ drop-drop k n xs (omega arith)

  pub length-take_le : (n : ℕ) (xs : List A) → n ≤ length xs → length (take n xs) ≡ n
  length-take_le zero xs h = refl
  length-take_le (suc n) [] h = elim h [ ]
  length-take_le (suc n) (x ∷ xs) h = ap suc (length-take_le n xs (omega arith))

  pub length-take_min : (n : ℕ) (xs : List A) → length (take n xs) ≤ n
  length-take_min zero xs = omega arith
  length-take_min (suc n) [] = omega arith
  length-take_min (suc n) (x ∷ xs) = omega (arith, length-take_min n xs)
