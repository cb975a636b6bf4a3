-- ===== src/IntrusiveList/Linked.antt =====
-- When the pointers in a heap make up a list of addresses, and which writes keep it so.
use ext_async.Prelude.{ℕ, ◌≡◌, ◌∙◌, ◌≢◌, List, [], ◌∷◌, ◌++◌, Option, none, some, arith}
use ext_async.IntrusiveList.{Heap, Ends, set_prev, set_next}

abbrev pub head_or : List ℕ → Option ℕ → Option ℕ
head_or [] n = n
head_or (x ∷ xs) n = some x

abbrev pub last_or : Option ℕ → List ℕ → Option ℕ
last_or p [] = p
last_or p (x ∷ xs) = last_or (some x) xs

-- The addresses `xs` are linked in this order, between the pointers `p` and `n`.
abbrev pub Linked : Heap → Option ℕ → List ℕ → Option ℕ → Type 0
Linked h p [] n = Unit {0}
Linked h p (x ∷ xs) n = ((h x).prev ≡ p) × ((h x).next ≡ head_or xs n) × Linked h (some x) xs n

abbrev pub Fresh : ℕ → List ℕ → Type 0
Fresh v [] = Unit {0}
Fresh v (x ∷ xs) = (x ≢ v) × Fresh v xs

abbrev pub Distinct : List ℕ → Type 0
Distinct [] = Unit {0}
Distinct (x ∷ xs) = Fresh x xs × Distinct xs

-- The heap and the two ends hold the list `xs`.
pub record Holds (h : Heap) (q : Ends) (xs : List ℕ) : Type 0 where
  pub first : q.first ≡ head_or xs none
  pub last : q.last ≡ last_or none xs
  pub links : Linked h none xs none
  pub distinct : Distinct xs

-- Both pointers of a member that is in no list are NULL.
abbrev pub IsDetached : Heap → ℕ → Type 0
IsDetached h v = ((h v).prev ≡ none) × ((h v).next ≡ none)

-- Two heaps agree on a list of addresses.
abbrev pub Same : Heap → Heap → List ℕ → Type 0
Same h h' [] = Unit {0}
Same h h' (x ∷ xs) = (h' x ≡ h x) × Same h h' xs

pub Linked-Same :
    (h h' : Heap) (p : Option ℕ) (xs : List ℕ) (n : Option ℕ)
    → Same h h' xs
    → Linked h p xs n
    → Linked h' p xs n
Linked-Same h h' p [] n s l = tt
Linked-Same h h' p (x ∷ xs) n (e, s) (a, b, l) =
    (ap_prev e a, ap_next e b, Linked-Same h h' (some x) xs n s l)
  where
    ap_prev : h' x ≡ h x → (h x).prev ≡ p → (h' x).prev ≡ p
    ap_prev e a = rw e a

    ap_next : h' x ≡ h x → (h x).next ≡ head_or xs n → (h' x).next ≡ head_or xs n
    ap_next e b = rw e b

pub Same-set_prev :
    (h : Heap) (v : ℕ) (k : Option ℕ) (xs : List ℕ) → Fresh v xs → Same h (set_prev h v k) xs
Same-set_prev h v k [] f = tt
Same-set_prev h v k (x ∷ xs) f = (ground arith, Same-set_prev h v k xs f.1)

pub Same-set_next :
    (h : Heap) (v : ℕ) (k : Option ℕ) (xs : List ℕ) → Fresh v xs → Same h (set_next h v k) xs
Same-set_next h v k [] f = tt
Same-set_next h v k (x ∷ xs) f = (ground arith, Same-set_next h v k xs f.1)

pub Same-trans : (h h' h'' : Heap) (xs : List ℕ) → Same h h' xs → Same h' h'' xs → Same h h'' xs
Same-trans h h' h'' [] s t = tt
Same-trans h h' h'' (x ∷ xs) s t = (t.0 ∙ s.0, Same-trans h h' h'' xs s.1 t.1)

pub Linked-set_prev :
    (h : Heap) (v : ℕ) (k p : Option ℕ) (xs : List ℕ) (n : Option ℕ)
    → Fresh v xs
    → Linked h p xs n
    → Linked (set_prev h v k) p xs n
Linked-set_prev h v k p xs n f = Linked-Same h (set_prev h v k) p xs n (Same-set_prev h v k xs f)

pub Linked-set_next :
    (h : Heap) (v : ℕ) (k p : Option ℕ) (xs : List ℕ) (n : Option ℕ)
    → Fresh v xs
    → Linked h p xs n
    → Linked (set_next h v k) p xs n
Linked-set_next h v k p xs n f = Linked-Same h (set_next h v k) p xs n (Same-set_next h v k xs f)

-- A new pointer in front of the list is stored in its first member.
pub relink_first :
    (h : Heap) (x : ℕ) (xs : List ℕ) (p q n : Option ℕ)
    → Fresh x xs
    → Linked h p (x ∷ xs) n
    → Linked (set_prev h x q) q (x ∷ xs) n
relink_first h x xs p q n f (a, b, l) =
    (ground arith, ground arith, Linked-set_prev h x q (some x) xs n f l)

pub last-Fresh : (v x l : ℕ) (xs : List ℕ) → Fresh v (x ∷ xs) → last_or (some x) xs ≡ some l → l ≢ v
last-Fresh v x l [] f e = ground arith
last-Fresh v x l (y ∷ ys) f e = last-Fresh v y l ys f.1 e

-- A new pointer behind the list is stored in its last member.
pub relink_last :
    (h : Heap) (x l : ℕ) (xs : List ℕ) (p n m : Option ℕ)
    → Distinct (x ∷ xs)
    → last_or (some x) xs ≡ some l
    → Linked h p (x ∷ xs) n
    → Linked (set_next h l m) p (x ∷ xs) m
relink_last h x l [] p n m d e (a, b, u) = (ground arith, ground arith, tt)
relink_last h x l (y ∷ ys) p n m d e (a, b, u) =
    let ne = last-Fresh x y l ys d.0 e in
    (ground arith, ground arith, relink_last h y l ys (some x) n m d.1 e u)

pub Linked-append :
    (h : Heap) (p : Option ℕ) (xs ys : List ℕ) (n : Option ℕ)
    → Linked h p xs (head_or ys n)
    → Linked h (last_or p xs) ys n
    → Linked h p (xs ++ ys) n
Linked-append h p [] ys n l r = r
Linked-append h p (x ∷ []) ys n l r = (l.0, l.1, r)
Linked-append h p (x ∷ y ∷ xs) ys n l r = (l.0, l.1, Linked-append h (some x) (y ∷ xs) ys n l.2 r)

pub Linked-split_left :
    (h : Heap) (p : Option ℕ) (xs ys : List ℕ) (n : Option ℕ)
    → Linked h p (xs ++ ys) n
    → Linked h p xs (head_or ys n)
Linked-split_left h p [] ys n l = tt
Linked-split_left h p (x ∷ []) ys n l = (l.0, l.1, tt)
Linked-split_left h p (x ∷ y ∷ xs) ys n l =
    (l.0, l.1, Linked-split_left h (some x) (y ∷ xs) ys n l.2)

pub Linked-split_right :
    (h : Heap) (p : Option ℕ) (xs ys : List ℕ) (n : Option ℕ)
    → Linked h p (xs ++ ys) n
    → Linked h (last_or p xs) ys n
Linked-split_right h p [] ys n l = l
Linked-split_right h p (x ∷ xs) ys n l = Linked-split_right h (some x) xs ys n l.2
