-- ===== src/IntrusiveList/Laws.antt =====
-- What the macros that append, prepend and extract do to the list that the pointers hold.
use ext_async.Prelude.{ℕ, ◌≡◌, refl, sym, ◌∙◌, ◌≢◌, List, [], ◌∷◌, ◌++◌, Option, none, some, arith}
use ext_async.IntrusiveList.{Heap, Ends, set_prev, set_next, detach, append, prepend, extract_first}
use ext_async.IntrusiveList.Linked.{
  Holds, Linked, Fresh, Distinct, IsDetached, head_or, last_or, Linked-set_prev, Linked-set_next,
  Linked-append, relink_first, relink_last, last-Fresh,
}

pub last_or-append : (p : Option ℕ) (xs : List ℕ) (v : ℕ) → last_or p (xs ++ v ∷ []) ≡ some v
last_or-append p [] v = refl
last_or-append p (x ∷ xs) v = last_or-append (some x) xs v

head_or-append :
    (xs : List ℕ) (v : ℕ) (n : Option ℕ) → head_or (xs ++ v ∷ []) n ≡ head_or xs (some v)
head_or-append [] v n = refl
head_or-append (x ∷ xs) v n = refl

pub Fresh-append : (v : ℕ) (xs ys : List ℕ) → Fresh v xs → Fresh v ys → Fresh v (xs ++ ys)
Fresh-append v [] ys f g = g
Fresh-append v (x ∷ xs) ys f g = (f.0, Fresh-append v xs ys f.1 g)

Distinct-snoc : (xs : List ℕ) (v : ℕ) → Distinct xs → Fresh v xs → Distinct (xs ++ v ∷ [])
Distinct-snoc [] v d f = (tt, tt)
Distinct-snoc (x ∷ xs) v d f =
    (Fresh-append x xs (v ∷ []) d.0 (λ e. f.0 (sym e), tt), Distinct-snoc xs v d.1 f.1)

-- Writing both pointers of a fresh address links it in front of nothing.
link_one :
    (h : Heap) (v : ℕ) (p : Option ℕ) → Linked (set_prev (set_next h v none) v p) p (v ∷ []) none
link_one h v p = (ground arith, ground arith, tt)

append_nonempty :
    (h : Heap) (q : Ends) (x l v : ℕ) (xs : List ℕ)
    → Holds h q (x ∷ xs)
    → q.last ≡ some l
    → Fresh v (x ∷ xs)
    → Linked
        (set_next (set_prev (set_next h v none) v (some l)) l (some v))
        none
        ((x ∷ xs) ++ v ∷ [])
        none
append_nonempty h q x l v xs r e f = Linked-append h₂ none (x ∷ xs) (v ∷ []) none left right
  where
    h₁ : Heap
    h₁ = set_prev (set_next h v none) v (some l)

    h₂ : Heap
    h₂ = set_next h₁ l (some v)

    lst : last_or (some x) xs ≡ some l
    lst = sym r.last ∙ e

    kept : Linked h₁ none (x ∷ xs) none
    kept =
        Linked-set_prev (set_next h v none) v (some l) none (x ∷ xs) none f
          (Linked-set_next h v none none (x ∷ xs) none f r.links)

    left : Linked h₂ none (x ∷ xs) (some v)
    left = relink_last h₁ x l xs none none (some v) r.distinct lst kept

    apart : l ≢ v
    apart = last-Fresh v x l xs f lst

    right : Linked h₂ (last_or (some x) xs) (v ∷ []) none
    right = (ground (arith, lst, apart), ground (arith, apart), tt)

pub last_exists : (x : ℕ) (xs : List ℕ) → (l : ℕ) × (last_or (some x) xs ≡ some l)
last_exists x [] = (x, refl)
last_exists x (y ∷ ys) = last_exists y ys

-- ASYNC_LIST_APPEND of an address that is not in the list puts it at the end.
pub append-Holds :
    (h : Heap) (q : Ends) (v : ℕ) (xs : List ℕ)
    → Holds h q xs
    → Fresh v xs
    → let (h', q') = append h q v in Holds h' q' (xs ++ v ∷ [])
unfolding append
append-Holds h q v [] r f = ground (arith, link_one h v none)
append-Holds h q v (x ∷ xs) r f =
    let (l, e) = last_exists x xs in
    ground (
      arith,
      append_nonempty h q x l v xs r (r.last ∙ e) f,
      last_or-append none (x ∷ xs) v,
      Distinct-snoc (x ∷ xs) v r.distinct f,
      r.last ∙ e,
    )

prepend_nonempty :
    (h : Heap) (x v : ℕ) (xs : List ℕ)
    → Linked h none (x ∷ xs) none
    → Fresh x xs
    → Fresh v (x ∷ xs)
    → Linked (set_prev (set_next (set_prev h v none) v (some x)) x (some v)) none (v ∷ x ∷ xs) none
prepend_nonempty h x v xs l d f =
    (ground (arith, f.0), ground (arith, f.0), relink_first h₁ x xs none (some v) none d kept)
  where
    h₁ : Heap
    h₁ = set_next (set_prev h v none) v (some x)

    kept : Linked h₁ none (x ∷ xs) none
    kept =
        Linked-set_next (set_prev h v none) v (some x) none (x ∷ xs) none f
          (Linked-set_prev h v none none (x ∷ xs) none f l)

-- ASYNC_LIST_PREPEND of an address that is not in the list puts it at the front.
pub prepend-Holds :
    (h : Heap) (q : Ends) (v : ℕ) (xs : List ℕ)
    → Holds h q xs
    → Fresh v xs
    → let (h', q') = prepend h q v in Holds h' q' (v ∷ xs)
unfolding prepend
prepend-Holds h q v [] r f = ground arith
prepend-Holds h q v (x ∷ xs) r f = ground (arith, prepend_nonempty h x v xs r.links r.distinct.0 f)

pub detach_links :
    (h : Heap) (v : ℕ) (p : Option ℕ) (xs : List ℕ) (n : Option ℕ)
    → Fresh v xs
    → Linked h p xs n
    → Linked (detach h v) p xs n
detach_links h v p xs n f l =
    Linked-set_next (set_prev h v none) v none p xs n f (Linked-set_prev h v none p xs n f l)

pub detach-IsDetached : (h : Heap) (v : ℕ) → IsDetached (detach h v) v
detach-IsDetached h v = ground arith

extract_first_two :
    (h : Heap) (q : Ends) (v x l : ℕ)
    → q.first ≡ some v
    → (h v).next ≡ some x
    → q.last ≡ some l
    → l ≢ v
    → extract_first h q
      ≡ (some v, detach (set_prev h x none) v, record { first = some x; last = some l })
unfolding extract_first
extract_first_two h q v x l a b c d = rw (a, c) (rw b (ground (arith, d)))

-- ASYNC_LIST_EXTRACT_FIRST on a list that is not empty splits off its first member, which is left
-- with no pointers, and the ends and pointers hold the others.
pub extract_first-Holds :
    (h : Heap) (q : Ends) (v : ℕ) (xs : List ℕ)
    → Holds h q (v ∷ xs)
    → let (out, h', q') = extract_first h q in (out ≡ some v) × Holds h' q' xs × IsDetached h' v
unfolding extract_first
extract_first-Holds h q v [] r = ground arith
extract_first-Holds h q v (x ∷ xs) r =
    let (l, e) = last_exists x xs in
    rw
      (extract_first_two h q v x l r.first r.links.1 (r.last ∙ e)
        (last-Fresh v x l xs r.distinct.0 e))
      (
        refl,
        record {
          first = refl;
          last = sym e;
          links =
              detach_links (set_prev h x none) v none (x ∷ xs) none r.distinct.0
                (relink_first h x xs (some v) none none r.distinct.1.0 r.links.2);
          distinct = r.distinct.1;
        },
        detach-IsDetached (set_prev h x none) v,
      )

-- Nothing is extracted from the empty list.
pub extract_first_nil : (h : Heap) (q : Ends) → Holds h q [] → extract_first h q ≡ (none, h, q)
unfolding extract_first
extract_first_nil h q r = ground arith
