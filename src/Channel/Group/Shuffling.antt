-- ===== src/Channel/Group/Shuffling.antt =====
-- `shuffle_group` stays inside the array, unless the group is empty.
use ext_async.Prelude.{
  ℕ, zero, suc, ◌+◌, ◌-◌, ◌%◌, ◌^◌, ◌≤◌, ◌<◌, ◌≡◌, refl, ap, ◌∙◌, List, [], ◌∷◌, none, some, arith,
  length, get_elem?, set, length-set,
}
use ext_async.Channel.Group.{swap, shuffle_loop, shuffle_group}

module _ {ℓ} {A : Type ℓ} where
  get_elem?_of_lt : (xs : List A) (i : ℕ) → i < length xs → (a : A) × (get_elem? xs i ≡ some a)
  get_elem?_of_lt [] i h = elim h [ ]
  get_elem?_of_lt (x ∷ xs) zero h = (x, refl)
  get_elem?_of_lt (x ∷ xs) (suc i) h = get_elem?_of_lt xs i (omega arith)

  swap_total :
      (xs : List A) (i j : ℕ)
      → i < length xs
      → j < length xs
      → (ys : List A) × (swap xs i j ≡ some ys) × (length ys ≡ length xs)
  unfolding swap
  swap_total xs i j h k =
      let (a, e) = get_elem?_of_lt xs i h in
      let (b, f) = get_elem?_of_lt xs j k in
      (set (set xs i b) j a, rw (e, f, swap) refl, length-set (set xs i b) j a ∙ length-set xs i b)

  shuffle_loop_total :
      (rand : ℕ → ℕ) (i : ℕ) (xs : List A)
      → ((k : ℕ) → rand k ≤ k)
      → i < length xs
      → (ys : List A) × (shuffle_loop rand i xs ≡ some ys) × (length ys ≡ length xs)
  unfolding shuffle_loop
  shuffle_loop_total rand zero xs r h = (xs, refl, refl)
  shuffle_loop_total rand (suc i) xs r h =
      let (ys, e, l) = swap_total xs (suc i) (rand (suc i)) h (omega (arith, r (suc i))) in
      let (zs, f, m) = shuffle_loop_total rand i ys r (omega (arith, l)) in
      (zs, rw (e, shuffle_loop) f, m ∙ l)

  -- With random numbers in their range `shuffle_group` makes no access outside the array of a group
  -- that is not empty and has fewer than 2 ^ 32 entries, and keeps its length.
  pub shuffle_group_total :
      (rand : ℕ → ℕ) (xs : List A)
      → ((k : ℕ) → rand k ≤ k)
      → 0 < length xs
      → length xs < 2 ^ 32
      → (ys : List A) × (shuffle_group rand xs ≡ some ys) × (length ys ≡ length xs)
  unfolding shuffle_group
  shuffle_group_total rand xs r h k =
      rw last (shuffle_loop_total rand (length xs - 1) xs r (omega arith))
    where
      last : (length xs + 2 ^ 32 - 1) % 2 ^ 32 ≡ length xs - 1
      last = omega arith

-- On an empty group the loop starts at the largest uint32_t and leaves the array at once, whatever
-- the random numbers are.
pub shuffle_group_empty : (rand : ℕ → ℕ) → shuffle_group {A = ℕ} rand [] ≡ none
unfolding shuffle_group shuffle_loop swap
shuffle_group_empty rand = refl

-- With random numbers in their range `shuffle_group` makes no access outside the array of a group that
-- is not empty and has fewer than 2 ^ 32 entries, and keeps its length; the array of an empty group it
-- leaves.
pub shuffle_group_lem :
    (rand : ℕ → ℕ) (xs : List ℕ)
    → ((k : ℕ) → rand k ≤ k)
    → length xs < 2 ^ 32
    → (0 < length xs → (ys : List ℕ) × (shuffle_group rand xs ≡ some ys) × (length ys ≡ length xs))
      × (xs ≡ [] → shuffle_group rand xs ≡ none)
shuffle_group_lem rand xs r h = (
  (λ k. shuffle_group_total rand xs r k h),
  (λ e. ap (shuffle_group rand) e ∙ shuffle_group_empty rand),
)
