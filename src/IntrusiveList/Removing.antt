-- ===== src/IntrusiveList/Removing.antt =====
-- ASYNC_LIST_REMOVE takes a member out of the list that the pointers hold, wherever it stands.
use ext_async.Prelude.{
  ℕ, ◌≡◌, refl, sym, ap, subst, ◌∙◌, List, [], ◌∷◌, ◌++◌, Option, none, some, arith, append-nil,
  if◌then◌else◌,
}
use mathlib.Core.Option.{some-injective}
use ext_async.IntrusiveList.{Heap, Ends, remove, bypass_next, bypass_prev, points_to}
use ext_async.IntrusiveList.Linked.{
  Holds, Linked, Fresh, Distinct, IsDetached, head_or, last_or, Linked-set_prev, Linked-set_next,
  Linked-append, Linked-split_left, Linked-split_right, relink_first, relink_last, last-Fresh,
}
use ext_async.IntrusiveList.Laws.{
  Fresh-append, last_or-append, last_exists, detach_links, detach-IsDetached,
}

-- No member of one list is a member of the other.
abbrev pub Apart : List ℕ → List ℕ → Type 0
Apart [] ys = Unit {0}
Apart (x ∷ xs) ys = Fresh x ys × Apart xs ys

Fresh-split : (v : ℕ) (xs ys : List ℕ) → Fresh v (xs ++ ys) → Fresh v xs × Fresh v ys
Fresh-split v [] ys f = (tt, f)
Fresh-split v (x ∷ xs) ys f = let (a, b) = Fresh-split v xs ys f.1 in ((f.0, a), b)

record Cut (xs : List ℕ) (v : ℕ) (ys : List ℕ) : Type 0 where
  left : Distinct xs
  right : Distinct ys
  left_fresh : Fresh v xs
  right_fresh : Fresh v ys
  apart : Apart xs ys
  joined : Distinct (xs ++ ys)

cut : (xs : List ℕ) (v : ℕ) (ys : List ℕ) → Distinct (xs ++ v ∷ ys) → Cut xs v ys
cut [] v ys d = record {
  left = tt;
  right = d.1;
  left_fresh = tt;
  right_fresh = d.0;
  apart = tt;
  joined = d.1;
}
cut (x ∷ xs) v ys d =
    let c = cut xs v ys d.1 in
    let (a, b) = Fresh-split x xs (v ∷ ys) d.0 in
    record {
      left = (a, c.left);
      right = c.right;
      left_fresh = (λ e. b.0 (sym e), c.left_fresh);
      right_fresh = c.right_fresh;
      apart = (b.1, c.apart);
      joined = (Fresh-append x xs ys a b.1, c.joined);
    }

Apart-last :
    (x l : ℕ) (xs ys : List ℕ) → Apart (x ∷ xs) ys → last_or (some x) xs ≡ some l → Fresh l ys
Apart-last x l [] ys a e = subst (λ k. Fresh k ys) (some-injective x l e) a.0
Apart-last x l (y ∷ xs) ys a e = Apart-last y l xs ys a.1 e

Apart-first : (y : ℕ) (xs ys : List ℕ) → Apart xs (y ∷ ys) → Fresh y xs
Apart-first y [] ys a = tt
Apart-first y (x ∷ xs) ys a = (λ e. a.0.0 (sym e), Apart-first y xs ys a.1)

-- What holds around `v` while it is taken out from between `xs` and `ys`.
record Around (h : Heap) (xs : List ℕ) (v : ℕ) (ys : List ℕ) (n p : Option ℕ) : Type 0 where
  left : Linked h none xs n
  right : Linked h p ys none
  prev : (h v).prev ≡ last_or none xs
  next : (h v).next ≡ head_or ys none

bypass_next-Around :
    (h : Heap) (xs : List ℕ) (v : ℕ) (ys : List ℕ)
    → Cut xs v ys
    → Around h xs v ys (some v) (some v)
    → Around (bypass_next h v) xs v ys (head_or ys none) (some v)
bypass_next-Around h [] v ys c a = ground arith
bypass_next-Around h (x ∷ xs) v ys c a =
    let (l, e) = last_exists x xs in
    ground (
      arith,
      relink_last h x l xs none (some v) (head_or ys none) c.left e a.left,
      Linked-set_next h l (head_or ys none) (some v) ys none (Apart-last x l xs ys c.apart e)
          a.right,
      a.prev ∙ e,
      last-Fresh v x l xs c.left_fresh e,
    )

bypass_prev-Around :
    (h : Heap) (xs : List ℕ) (v : ℕ) (ys : List ℕ)
    → Cut xs v ys
    → Around h xs v ys (head_or ys none) (some v)
    → Around (bypass_prev h v) xs v ys (head_or ys none) (last_or none xs)
bypass_prev-Around h xs v [] c a = ground arith
bypass_prev-Around h xs v (y ∷ ys) c a = ground (
  arith,
  relink_first h y ys (some v) (h v).prev none c.right.0 a.right,
  Linked-set_prev h y (h v).prev none xs (some y) (Apart-first y xs ys c.apart) a.left,
)

Around-start :
    (h : Heap) (xs : List ℕ) (v : ℕ) (ys : List ℕ)
    → Linked h none (xs ++ v ∷ ys) none
    → Around h xs v ys (some v) (some v)
Around-start h xs v ys l =
    let r = Linked-split_right h none xs (v ∷ ys) none l in
    record {
      left = Linked-split_left h none xs (v ∷ ys) none l;
      right = r.2;
      prev = r.0;
      next = r.1;
    }

first-append : (xs ys : List ℕ) (n : Option ℕ) → head_or (xs ++ ys) n ≡ head_or xs (head_or ys n)
first-append [] ys n = refl
first-append (x ∷ xs) ys n = refl

last-append : (p : Option ℕ) (xs ys : List ℕ) → last_or p (xs ++ ys) ≡ last_or (last_or p xs) ys
last-append p [] ys = refl
last-append p (x ∷ xs) ys = last-append (some x) xs ys

first_after :
    (f k : Option ℕ) (xs : List ℕ) (v : ℕ) (ys : List ℕ)
    → f ≡ head_or (xs ++ v ∷ ys) none
    → k ≡ head_or ys none
    → Fresh v xs
    → (if points_to f v then k else f) ≡ head_or (xs ++ ys) none
first_after f k [] v ys a b c = ground arith
first_after f k (x ∷ xs) v ys a b c = ground arith

last_after :
    (f k : Option ℕ) (xs : List ℕ) (v : ℕ) (ys : List ℕ)
    → f ≡ last_or none (xs ++ v ∷ ys)
    → k ≡ last_or none xs
    → Fresh v ys
    → (if points_to f v then k else f) ≡ last_or none (xs ++ ys)
last_after f k xs v [] a b c =
    ground (arith, last_or-append none xs v, ap (last_or none) (append-nil xs))
last_after f k xs v (y ∷ ys) a b c =
    let (l, e) = last_exists y ys in
    ground (
      arith,
      last-append none xs (v ∷ y ∷ ys),
      last-append none xs (y ∷ ys),
      last-Fresh v y l ys c e,
    )

-- ASYNC_LIST_REMOVE takes a member out of the list wherever it stands; it is left with no pointers,
-- and the ends and pointers hold the others in their order.
pub remove-Holds :
    (h : Heap) (q : Ends) (xs : List ℕ) (v : ℕ) (ys : List ℕ)
    → Holds h q (xs ++ v ∷ ys)
    → let (h', q') = remove h q v in Holds h' q' (xs ++ ys) × IsDetached h' v
unfolding remove
remove-Holds h q xs v ys r = (
  record {
    first = first_after q.first (h₂ v).next xs v ys r.first a.next c.left_fresh;
    last = last_after q.last (h₂ v).prev xs v ys r.last a.prev c.right_fresh;
    links =
        detach_links h₂ v none (xs ++ ys) none (Fresh-append v xs ys c.left_fresh c.right_fresh)
          (Linked-append h₂ none xs ys none a.left a.right);
    distinct = c.joined;
  },
  detach-IsDetached h₂ v,
)
  where
    c : Cut xs v ys
    c = cut xs v ys r.distinct

    h₂ : Heap
    h₂ = bypass_prev (bypass_next h v) v

    a : Around h₂ xs v ys (head_or ys none) (last_or none xs)
    a =
        bypass_prev-Around (bypass_next h v) xs v ys c
          (bypass_next-Around h xs v ys c (Around-start h xs v ys r.links))
