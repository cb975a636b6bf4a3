-- ===== src/Context/Descending.antt =====
-- The cancellation of a context and of those that are made of it.
use ext_async.Prelude.{
  ℕ, ◌+◌, ◌<◌, ◌≡◌, ◌≢◌, refl, sym, subst, ◌∙◌, ap, true, false, List, [], ◌∷◌, ◌++◌, none, some,
  arith, if◌then◌else◌, is_nil, Bool-cases, inl, inr, ◌==◌,
}
use ext_async.Context.{
  Callback, chain, operation, Contexts, store, init_cancellation, create_cancellable_context,
  with_cancel, is_cancelled, connect, make, fresh, add_ref, is_triggered, invoke,
}
use ext_async.Context.Draining.{IsMade, IsLive, chained}
use ext_async.Context.Cancelling.{here, there, cancel-Reaches}

chained-append_one : (d : ℕ) (xs : List Callback) → chained d (xs ++ chain d ∷ []) ≡ true
chained-append_one d [] = ground arith
chained-append_one d (operation o ∷ xs) = chained-append_one d xs
chained-append_one d (chain e ∷ xs) = ground (arith, chained-append_one d xs)

chained-append_other :
    (c d : ℕ) (xs : List Callback)
    → (d == c) ≡ false
    → chained d (xs ++ chain c ∷ []) ≡ chained d xs
chained-append_other c d [] h = ground (arith, h)
chained-append_other c d (operation o ∷ xs) h = chained-append_other c d xs h
chained-append_other c d (chain e ∷ xs) h = ground (arith, h, chained-append_other c d xs h)

-- A context that `withCancel` makes is chained to the cancellation of the one that it is made of.
record Chains (s s' : Contexts) (p : ℕ) : Type 0 where
  made : IsMade s'
  live : IsLive s'
  kept : (s'.cancels p).freed ≡ false
  untriggered : (s'.cancels p).triggered ≡ false
  linked : chained s.cancels_made (s'.cancels p).callbacks ≡ true
  its_own : (s'.contexts s.contexts_made).cancel ≡ some s.cancels_made

-- The cancellation of the new context gets the reference of its handler.
abbrev handled : Contexts → ℕ → Contexts
handled s c = store s c (add_ref (s.cancels c))

connect-Chains :
    (s t : Contexts) (p : ℕ)
    → IsMade s
    → IsLive s
    → (s.cancels p).freed ≡ false
    → p < s.cancels_made
    → (s.cancels p).triggered ≡ false
    → t.cancels_made ≡ s.cancels_made + 1
    → (t.contexts s.contexts_made).cancel ≡ some s.cancels_made
    → ((c : ℕ) → c ≢ s.cancels_made → t.cancels c ≡ s.cancels c)
    → (t.cancels s.cancels_made).callbacks ≡ []
    → (t.cancels s.cancels_made).freed ≡ false
    → Chains s (handled (connect (some p) s.cancels_made t) s.cancels_made) p
unfolding IsMade IsLive
connect-Chains s t p m l f n h made its old new unfreed =
    let c = s.cancels_made in
    let p_old : t.cancels p ≡ s.cancels p = old p (ground (arith, n)) in
    let untriggered : (t.cancels p).triggered ≡ false = ap (λ k. k.triggered) p_old ∙ h in
    subst
      (λ b.
        Chains s
          (handled
            (if b
              then store t c
                  (record (t.cancels c) { triggered = true; error = (t.cancels p).error })
              else store t p
                  (record (t.cancels p) { callbacks = (t.cancels p).callbacks ++ chain c ∷ [] }))
            c)
          p)
      (sym untriggered)
      (record {
        made = λ d k. ground (
          arith,
          n,
          k,
          made,
          m d (omega (arith, k, made)),
          ap (λ q. is_nil q.callbacks) (old d (ground (arith, k, made))),
        );
        live = λ b d k. elim (Bool-cases (d == c)) [
          | inl e ↦ ground (arith, n, unfreed, e)
          | inr e ↦ elim (Bool-cases (b == c)) [
            | inl g ↦ absurd (ground (arith, n, k, e, g, ap (chained d) new))
            | inr g ↦ ground (
              arith,
              n,
              k,
              e,
              g,
              chained-append_other c d (t.cancels p).callbacks,
              l b d,
              ap (λ q. chained d q.callbacks) (old b (ground (arith, g))),
              ap (λ q. chained d q.callbacks) p_old,
              ap (λ q. q.freed) (old d (ground (arith, e))),
            )
          ]
        ];
        kept = ground (arith, n, f, ap (λ q. q.freed) p_old);
        untriggered = ground (arith, n, untriggered);
        linked = ground (arith, n, chained-append_one c (t.cancels p).callbacks);
        its_own = its;
      })

with_cancel-Chains :
    (s : Contexts) (x p : ℕ)
    → IsMade s
    → IsLive s
    → (s.cancels p).freed ≡ false
    → (s.contexts x).cancel ≡ some p
    → p < s.cancels_made
    → (s.cancels p).triggered ≡ false
    → Chains s (with_cancel s x) p
unfolding with_cancel init_cancellation create_cancellable_context
with_cancel-Chains s x p m l f e n h =
    let c = s.cancels_made in
    let made = make (fresh s init_cancellation) (record {
      parent = some x;
      background = (s.contexts x).background;
      variable = none;
      value = none;
      cancel = some c;
      output = (s.contexts x).output;
    }) in
    let t = store made c (add_ref ((fresh s init_cancellation).cancels c)) in
    subst (λ o. Chains s (handled (connect o c t) c) p) (sym e)
      (connect-Chains s t p m l f n h refl (ground arith) (λ d k. ground (arith, k)) (ground arith)
        (ground arith))

-- Where a context has a cancellation that is neither triggered nor freed, and no chain leads to one that
-- was freed: a context that `withCancel` makes of it is
-- cancelled when the handler of that cancellation is called.
pub with_cancel-descends :
    (s : Contexts) (x p err : ℕ)
    → IsMade s
    → IsLive s
    → (s.cancels p).freed ≡ false
    → (s.contexts x).cancel ≡ some p
    → p < s.cancels_made
    → (s.cancels p).triggered ≡ false
    → (s' : Contexts) × (invoke (with_cancel s x) p err ≡ some s')
      × (is_cancelled s' s.contexts_made ≡ some true)
unfolding is_cancelled
with_cancel-descends s x p err m l f e n h =
    let s1 = with_cancel s x in
    let v = with_cancel-Chains s x p m l f e n h in
    let (s', r, reached, told, same) =
      (cancel-Reaches s1 p err v.made v.live v.kept v.untriggered).0 in
    let (now, unfreed) = reached s.cancels_made (there p s.cancels_made here v.linked) in
    let live = unfreed refl in
    let done = now live in
    (
      s',
      r,
      ap (λ f. is_triggered s' (f s.contexts_made).cancel) same
          ∙ ap (is_triggered s') v.its_own
          ∙ ground (arith, live, done),
    )
