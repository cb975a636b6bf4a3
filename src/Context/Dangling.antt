-- ===== src/Context/Dangling.antt =====
-- What becomes of a context that is dropped.
use ext_async.Prelude.{
  ℕ, zero, suc, ◌<◌, ◌≡◌, refl, ap, sym, subst, ◌∙◌, true, false, [], ◌∷◌, none, some, arith,
  if◌then◌else◌, ◌==◌,
}
use ext_async.Context.{
  chain, Contexts, init_cancellation, create_cancellable_context, with_cancel, drain, invoke,
  release_cancellation, fuel_for, mark, connect, store, add_ref, make, fresh,
}

-- The loop finds the chain, and then what was freed.
drain_freed :
    (fuel err : ℕ) (s : Contexts) (c d : ℕ)
    → (s.cancels c).freed ≡ false
    → (s.cancels c).callbacks ≡ chain d ∷ []
    → (s.cancels d).freed ≡ true
    → (d == c) ≡ false
    → drain fuel err s c ≡ none
unfolding drain
drain_freed zero err s c d f e g n = refl
drain_freed (suc zero) err s c d f e g n = ground (arith, f, e, n)
drain_freed (suc (suc fuel)) err s c d f e g n = ground (arith, f, e, g, n)

-- The handler of the cancellation `c`, and the context that it was made with, are dropped.
abbrev dropped : Contexts → ℕ → Contexts
unfolding release_cancellation
dropped s c = release_cancellation (release_cancellation s c) c

-- A cancellation that is held twice, and the one that it is chained to.
record Linked (s : Contexts) (p c : ℕ) : Type 0 where
  untriggered : (s.cancels p).triggered ≡ false
  kept : (s.cancels p).freed ≡ false
  linked : (s.cancels p).callbacks ≡ chain c ∷ []
  held : (s.cancels c).refcount ≡ 2
  other : (c == p) ≡ false

abbrev handled : Contexts → ℕ → Contexts
handled s c = store s c (add_ref (s.cancels c))

connect-Linked :
    (t : Contexts) (p c : ℕ)
    → (c == p) ≡ false
    → (t.cancels p).triggered ≡ false
    → (t.cancels p).freed ≡ false
    → (t.cancels p).callbacks ≡ []
    → (t.cancels c).refcount ≡ 1
    → Linked (handled (connect (some p) c t) c) p c
connect-Linked t p c n u f b r = ground (arith, n, u, f, b, r)

with_cancel-Linked :
    (s : Contexts) (x p : ℕ)
    → (s.contexts x).cancel ≡ some p
    → p < s.cancels_made
    → (s.cancels p).triggered ≡ false
    → (s.cancels p).freed ≡ false
    → (s.cancels p).callbacks ≡ []
    → Linked (with_cancel s x) p s.cancels_made
unfolding with_cancel init_cancellation create_cancellable_context
with_cancel-Linked s x p e n u f b =
    let c = s.cancels_made in
    let made = make (fresh s init_cancellation) (record {
      parent = some x;
      background = (s.contexts x).background;
      variable = none;
      value = none;
      cancel = some c;
      output = (s.contexts x).output;
    }) in
    let t = store made c (add_ref ((fresh s init_cancellation).cancels c)) in
    subst (λ o. Linked (handled (connect o c t) c) p c) (sym e)
      (connect-Linked t p c (ground (arith, n)) (ground (arith, n, u)) (ground (arith, n, f))
        (ground (arith, n, b)) (ground arith))

released :
    (s : Contexts) (p c err : ℕ)
    → Linked s p c
    → let s' = mark (dropped s c) p err in
      ((s'.cancels p).callbacks ≡ chain c ∷ [])
      × ((s'.cancels p).freed ≡ false)
      × ((s'.cancels c).freed ≡ true)
      × (((dropped s c).cancels p).triggered ≡ false)
unfolding release_cancellation
released s p c err v = ground (arith, v)

-- A context that `withCancel` makes is dropped with its handler: calling the handler of the cancellation
-- that it was chained to follows the chain to what was freed.
with_cancel-dangles :
    (s : Contexts) (x p err : ℕ)
    → (s.contexts x).cancel ≡ some p
    → p < s.cancels_made
    → (s.cancels p).triggered ≡ false
    → (s.cancels p).freed ≡ false
    → (s.cancels p).callbacks ≡ []
    → invoke (dropped (with_cancel s x) s.cancels_made) p err ≡ none
unfolding invoke
with_cancel-dangles s x p err e n t f b =
    let c = s.cancels_made in
    let s' = dropped (with_cancel s x) c in
    let v = with_cancel-Linked s x p e n t f b in
    let (l, k, g, u) = released (with_cancel s x) p c err v in
    ap (λ b. if b then some s' else drain (fuel_for s') err (mark s' p err) p) u
    ∙ drain_freed (fuel_for s') err (mark s' p err) p c k l g v.other
