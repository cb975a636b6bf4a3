-- ===== src/IntrusiveList/Running.antt =====
-- Programs of list macros: on the heap they do what they do to a list of addresses.
use ext_async.Prelude.{ℕ, ◌≡◌, refl, sym, ap, ap₂, subst, List, [], ◌∷◌, ◌++◌, Option, none, some}
use ext_async.IntrusiveList.{Heap, Ends, append, prepend, extract_first, remove}
use ext_async.IntrusiveList.Linked.{Holds, Fresh}
use ext_async.IntrusiveList.Laws.{append-Holds, prepend-Holds, extract_first-Holds}
use ext_async.IntrusiveList.Removing.{remove-Holds}

pub data Action : Type 0 where
  appends : ℕ → Action
  prepends : ℕ → Action
  extracts : Action
  removes : ℕ → Action

-- What a program of macros extracts, and the heap and the ends after it.
pub run : Heap → Ends → List Action → List (Option ℕ) × Heap × Ends
run h q [] = ([], h, q)
run h q (appends v ∷ as') = let (h', q') = append h q v in run h' q' as'
run h q (prepends v ∷ as') = let (h', q') = prepend h q v in run h' q' as'
run h q (extracts ∷ as') =
    let (out, h', q') = extract_first h q in
    let (outs, h'', q'') = run h' q' as' in (out ∷ outs, h'', q'')
run h q (removes v ∷ as') = let (h', q') = remove h q v in run h' q' as'

-- The same program on a list: only new members are added, and only members are removed.
pub data Acts : List ℕ → List Action → List (Option ℕ) → List ℕ → Type 0 where
  stops : (xs : List ℕ) → Acts xs [] [] xs
  adds_last :
      (xs ys : List ℕ) (v : ℕ) (as' : List Action) (outs : List (Option ℕ))
      → Fresh v xs
      → Acts (xs ++ v ∷ []) as' outs ys
      → Acts xs (appends v ∷ as') outs ys
  adds_first :
      (xs ys : List ℕ) (v : ℕ) (as' : List Action) (outs : List (Option ℕ))
      → Fresh v xs
      → Acts (v ∷ xs) as' outs ys
      → Acts xs (prepends v ∷ as') outs ys
  takes_first :
      (xs ys : List ℕ) (v : ℕ) (as' : List Action) (outs : List (Option ℕ))
      → Acts xs as' outs ys
      → Acts (v ∷ xs) (extracts ∷ as') (some v ∷ outs) ys
  takes_none :
      (ys : List ℕ) (as' : List Action) (outs : List (Option ℕ))
      → Acts [] as' outs ys
      → Acts [] (extracts ∷ as') (none ∷ outs) ys
  takes_out :
      (xs left right ys : List ℕ) (v : ℕ) (as' : List Action) (outs : List (Option ℕ))
      → xs ≡ left ++ v ∷ right
      → Acts (left ++ right) as' outs ys
      → Acts xs (removes v ∷ as') outs ys

extract_first-none : (h : Heap) (q : Ends) → Holds h q [] → extract_first h q ≡ (none, h, q)
unfolding extract_first
extract_first-none h q r = rw r.first

-- Where a program of append, prepend, extract and remove macros adds only new members and removes only
-- members: on a heap and ends that hold a list, it extracts what it does from the list, and the heap
-- and the ends then hold the list that is left.
pub run-Holds :
    (h : Heap) (q : Ends) (xs ys : List ℕ) (as' : List Action) (outs : List (Option ℕ))
    → Acts xs as' outs ys
    → Holds h q xs
    → let (outs', h', q') = run h q as' in (outs' ≡ outs) × Holds h' q' ys
unfolding run
run-Holds h q _ _ _ _ (stops xs) r = (refl, r)
run-Holds h q _ _ _ _ (adds_last xs ys v as' outs f a) r =
    let (h', q') = append h q v in
    run-Holds h' q' (xs ++ v ∷ []) ys as' outs a (append-Holds h q v xs r f)
run-Holds h q _ _ _ _ (adds_first xs ys v as' outs f a) r =
    let (h', q') = prepend h q v in
    run-Holds h' q' (v ∷ xs) ys as' outs a (prepend-Holds h q v xs r f)
run-Holds h q _ _ _ _ (takes_first xs ys v as' outs a) r =
    let (e, r', d) = extract_first-Holds h q v xs r in
    let (out, h', q') = extract_first h q in
    let (es, s) = run-Holds h' q' xs ys as' outs a r' in (ap₂ (◌∷◌) e es, s)
run-Holds h q _ _ _ _ (takes_none ys as' outs a) r =
    let e = extract_first-none h q r in
    let (es, s) = run-Holds h q [] ys as' outs a r in
    subst
      (λ t.
        let (outs', h', q') = run t.1 t.2 as' in ((t.0 ∷ outs') ≡ (none ∷ outs)) × Holds h' q' ys)
      (sym e) (ap (◌∷◌ none) es, s)
run-Holds h q _ _ _ _ (takes_out xs left right ys v as' outs e a) r =
    let (h', q') = remove h q v in
    run-Holds h' q' (left ++ right) ys as' outs a
      (remove-Holds h q left v right (subst (Holds h q) e r)).0
