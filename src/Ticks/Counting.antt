-- ===== src/Ticks/Counting.antt =====
-- How often an event stands in a list, and how many of a list's events are referenced.
use ext_async.Prelude.{
  ℕ, ◌+◌, ◌-◌, ◌<◌, ◌≡◌, refl, Bool, List, [], ◌∷◌, ◌++◌, arith, ◌==◌, if◌then◌else◌,
}
use ext_async.Scheduler.{erase}
use ext_async.Ticks.{Event, Events, update}

abbrev pub count : ℕ → List ℕ → ℕ
count j [] = 0
count j (x ∷ xs) = (if x == j then 1 else 0) + count j xs

abbrev pub unit : Bool → ℕ
unit b = if b then 1 else 0

abbrev pub weight : Events → List ℕ → ℕ
weight f [] = 0
weight f (x ∷ xs) = unit (f x).referenced + weight f xs

pub count-append_one :
    (j i : ℕ) (xs : List ℕ) → count j (xs ++ i ∷ []) ≡ count j xs + (if i == j then 1 else 0)
count-append_one j i [] = ground arith
count-append_one j i (x ∷ xs) = ground (arith, count-append_one j i xs)

pub count-erase :
    (j i : ℕ) (xs : List ℕ) → count j (erase i xs) ≡ (if i == j then count j xs - 1 else count j xs)
count-erase j i [] = ground arith
count-erase j i (x ∷ xs) = ground (arith, count-erase j i xs)

pub weight-append_one :
    (f : Events) (i : ℕ) (xs : List ℕ)
    → weight f (xs ++ i ∷ []) ≡ weight f xs + unit (f i).referenced
weight-append_one f i [] = ground arith
weight-append_one f i (x ∷ xs) = omega (arith, weight-append_one f i xs)

pub weight-erase :
    (f : Events) (i : ℕ) (xs : List ℕ)
    → 0 < count i xs
    → weight f (erase i xs) + unit (f i).referenced ≡ weight f xs
weight-erase f i [] h = absurd (omega arith)
weight-erase f i (x ∷ xs) h = ground (arith, weight-erase f i xs)

pub weight-update_absent :
    (f : Events) (i : ℕ) (e : Event) (xs : List ℕ)
    → count i xs ≡ 0
    → weight (update f i e) xs ≡ weight f xs
weight-update_absent f i e [] h = refl
weight-update_absent f i e (x ∷ xs) h = ground (arith, weight-update_absent f i e xs)

pub weight-update_once :
    (f : Events) (i : ℕ) (e : Event) (xs : List ℕ)
    → count i xs ≡ 1
    → weight (update f i e) xs + unit (f i).referenced ≡ weight f xs + unit e.referenced
weight-update_once f i e [] h = absurd (omega arith)
weight-update_once f i e (x ∷ xs) h =
    ground (arith, weight-update_once f i e xs, weight-update_absent f i e xs)

-- Where only the place of an event changes.
pub weight-update_same :
    (f : Events) (i : ℕ) (e : Event) (xs : List ℕ)
    → e.referenced ≡ (f i).referenced
    → weight (update f i e) xs ≡ weight f xs
weight-update_same f i e [] h = refl
weight-update_same f i e (x ∷ xs) h = ground (arith, weight-update_same f i e xs h)
