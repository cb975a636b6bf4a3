-- ===== src/Context/Draining.antt =====
-- What the loop over the callbacks of a cancellation keeps, step by step.
use ext_async.Prelude.{
  ℕ, zero, suc, ◌+◌, ◌≤◌, ◌<◌, ◌≡◌, refl, subst, ◌∙◌, ap, Bool, true, false, ◌&&◌, ◌||◌, List, [],
  ◌∷◌, ◌++◌, some, arith, ◌==◌, if◌then◌else◌, length, is_nil,
}
use ext_async.Context.{
  Callback, chain, operation, Cancellation, Contexts, put, pop, mark, notify, sum,
}

-- No callbacks are registered with a cancellation that is not made yet.
unfoldable pub IsMade : Contexts → Type 0
IsMade s = (c : ℕ) → s.cancels_made ≤ c → is_nil (s.cancels c).callbacks ≡ true

-- Whether a list holds the chain of a cancellation.
abbrev pub chained : ℕ → List Callback → Bool
chained d [] = false
chained d (operation o ∷ rest) = chained d rest
chained d (chain e ∷ rest) = e == d || chained d rest

abbrev pub settled : Contexts → ℕ → Bool
settled s d = (s.cancels d).triggered && is_nil (s.cancels d).callbacks

-- No chain leads to a cancellation that was freed.
unfoldable pub IsLive : Contexts → Type 0
IsLive s = (b d : ℕ) → chained d (s.cancels b).callbacks ≡ true → (s.cancels d).freed ≡ false

-- How often an operation is registered, and how often it was notified.
abbrev pub registered : ℕ → List Callback → ℕ
registered o [] = 0
registered o (operation p ∷ rest) = (if p == o then 1 else 0) + registered o rest
registered o (chain d ∷ rest) = registered o rest

abbrev pub told : ℕ → List (ℕ × ℕ) → ℕ
told o [] = 0
told o ((p, err) ∷ rest) = (if p == o then 1 else 0) + told o rest

-- What a loop over callbacks promises.
pub record Drained (s : Contexts) (s' : Contexts) : Type 0 where
  pub triggered_kept : (d : ℕ) → (s.cancels d).triggered ≡ true → (s'.cancels d).triggered ≡ true
  pub empty_kept :
      (d : ℕ) → is_nil (s.cancels d).callbacks ≡ true → is_nil (s'.cancels d).callbacks ≡ true
  pub chains :
      (c d : ℕ)
      → chained d (s.cancels c).callbacks ≡ true
      → (chained d (s'.cancels c).callbacks || settled s' d) ≡ true
  pub chained_before :
      (c d : ℕ)
      → chained d (s'.cancels c).callbacks ≡ true
      → chained d (s.cancels c).callbacks ≡ true
  pub freed_same : (d : ℕ) → (s'.cancels d).freed ≡ (s.cancels d).freed
  pub made_same : s'.cancels_made ≡ s.cancels_made
  pub contexts_same : s'.contexts ≡ s.contexts
  pub fewer : sum length s'.cancels s.cancels_made ≤ sum length s.cancels s.cancels_made
  pub once :
      (o : ℕ)
      → sum (registered o) s'.cancels s.cancels_made + told o s'.notified
        ≡ sum (registered o) s.cancels s.cancels_made + told o s.notified

sum-put_outside :
    (g : List Callback → ℕ) (f : ℕ → Cancellation) (i : ℕ) (k : Cancellation) (n : ℕ)
    → n ≤ i
    → sum g (put f i k) n ≡ sum g f n
sum-put_outside g f i k zero h = refl
sum-put_outside g f i k (suc n) h = ground (arith, h, sum-put_outside g f i k n)

pub sum-put :
    (g : List Callback → ℕ) (f : ℕ → Cancellation) (i : ℕ) (k : Cancellation) (n : ℕ)
    → i < n
    → sum g (put f i k) n + g (f i).callbacks ≡ sum g f n + g k.callbacks
sum-put g f i k zero h = absurd (omega (arith, h))
sum-put g f i k (suc n) h = ground (arith, h, sum-put g f i k n, sum-put_outside g f i k n)

pub sum-put_same :
    (g : List Callback → ℕ) (f : ℕ → Cancellation) (i : ℕ) (k : Cancellation) (n : ℕ)
    → k.callbacks ≡ (f i).callbacks
    → sum g (put f i k) n ≡ sum g f n
sum-put_same g f i k zero h = refl
sum-put_same g f i k (suc n) h = ground (arith, ap g h, sum-put_same g f i k n h)

told-append_one :
    (o p err : ℕ) (xs : List (ℕ × ℕ))
    → told o (xs ++ (p, err) ∷ []) ≡ told o xs + (if p == o then 1 else 0)
told-append_one o p err [] = ground arith
told-append_one o p err ((q, e) ∷ xs) = ground (arith, told-append_one o p err xs)

pub Drained-refl : (s : Contexts) → Drained s s
Drained-refl s = record {
  triggered_kept = λ d h. h;
  empty_kept = λ d h. h;
  chains = λ c d h. ground (arith, h);
  chained_before = λ c d h. h;
  freed_same = λ d. refl;
  made_same = refl;
  contexts_same = refl;
  fewer = omega arith;
  once = λ o. refl;
}

settled_kept : (s s' : Contexts) (d : ℕ) → Drained s s' → settled s d ≡ true → settled s' d ≡ true
settled_kept s s' d v h = ground (arith, h, v.triggered_kept d, v.empty_kept d)

pub Drained-trans : (s s' s'' : Contexts) → Drained s s' → Drained s' s'' → Drained s s''
Drained-trans s s' s'' v w = record {
  triggered_kept = λ d h. w.triggered_kept d (v.triggered_kept d h);
  empty_kept = λ d h. w.empty_kept d (v.empty_kept d h);
  chains = λ c d h. ground (arith, v.chains c d h, w.chains c d, settled_kept s' s'' d w);
  chained_before = λ c d h. v.chained_before c d (w.chained_before c d h);
  freed_same = λ d. w.freed_same d ∙ v.freed_same d;
  made_same = w.made_same ∙ v.made_same;
  contexts_same = w.contexts_same ∙ v.contexts_same;
  fewer = omega (
    arith,
    v.fewer,
    subst (λ n. sum length s''.cancels n ≤ sum length s'.cancels n) v.made_same w.fewer,
  );
  once = λ o. omega (
    arith,
    v.once o,
    subst
        (λ n.
          sum (registered o) s''.cancels n + told o s''.notified
          ≡ sum (registered o) s'.cancels n + told o s'.notified)
        v.made_same (w.once o),
  );
}

pub IsMade-Drained : (s s' : Contexts) → Drained s s' → IsMade s → IsMade s'
unfolding IsMade
IsMade-Drained s s' v m c h = v.empty_kept c (m c (subst (λ n. n ≤ c) v.made_same h))

pub IsLive-Drained : (s s' : Contexts) → Drained s s' → IsLive s → IsLive s'
unfolding IsLive
IsLive-Drained s s' v l b d h = v.freed_same d ∙ l b d (v.chained_before b d h)

pub pop-IsLive :
    (s : Contexts) (c d : ℕ) (rest : List Callback)
    → IsLive s
    → (s.cancels c).callbacks ≡ chain d ∷ rest
    → IsLive (pop s c rest) × ((s.cancels d).freed ≡ false)
unfolding IsLive
pop-IsLive s c d rest l e =
    (λ b x t. ground (arith, t, l b x, ap (chained x) e), l c d (ground (arith, ap (chained d) e)))

-- A cancellation with callbacks is one that was made.
pub made_lem :
    (s : Contexts) (c : ℕ) (cb : Callback) (rest : List Callback)
    → IsMade s
    → (s.cancels c).callbacks ≡ cb ∷ rest
    → c < s.cancels_made
unfolding IsMade
made_lem s c cb rest m e = ground (arith, m c, ap is_nil e)

pub mark-Drained : (s : Contexts) (d err : ℕ) → Drained s (mark s d err)
mark-Drained s d err =
    let k = record (s.cancels d) { triggered = true; error = some err } in
    record {
      triggered_kept = λ e h. ground (arith, h);
      empty_kept = λ e h. ground (arith, h);
      chains = λ c e h. ground (arith, h);
      chained_before = λ c e h. ground (arith, h);
      freed_same = λ e. ground arith;
      made_same = refl;
      contexts_same = refl;
      fewer = omega (arith, sum-put_same length s.cancels d k s.cancels_made refl);
      once = λ o. omega (arith, sum-put_same (registered o) s.cancels d k s.cancels_made refl);
    }

pub pop_operation-Drained :
    (s : Contexts) (c o err : ℕ) (rest : List Callback)
    → IsMade s
    → (s.cancels c).callbacks ≡ operation o ∷ rest
    → Drained s (notify (pop s c rest) o err)
pop_operation-Drained s c o err rest m e =
    let k = record (s.cancels c) { callbacks = rest } in
    let h = made_lem s c (operation o) rest m e in
    record {
      triggered_kept = λ d t. ground (arith, t);
      empty_kept = λ d t. ground (arith, t, ap is_nil e);
      chains = λ b d t. ground (arith, t, ap (chained d) e);
      chained_before = λ b d t. ground (arith, t, ap (chained d) e);
      freed_same = λ d. ground arith;
      made_same = refl;
      contexts_same = refl;
      fewer = omega (arith, sum-put length s.cancels c k s.cancels_made h, ap length e);
      once = λ p. ground (
        arith,
        sum-put (registered p) s.cancels c k s.cancels_made h,
        ap (registered p) e,
        told-append_one p o err s.notified,
      );
    }

-- A chain that was popped counts as handled once its cancellation is settled.
pub pop_chain-Drained :
    (s s' : Contexts) (c d : ℕ) (rest : List Callback)
    → IsMade s
    → (s.cancels c).callbacks ≡ chain d ∷ rest
    → Drained (pop s c rest) s'
    → settled s' d ≡ true
    → Drained s s'
pop_chain-Drained s s' c d rest m e v done =
    let k = record (s.cancels c) { callbacks = rest } in
    let h = made_lem s c (chain d) rest m e in
    record {
      triggered_kept = λ b t. ground (arith, t, v.triggered_kept b);
      empty_kept = λ b t. ground (arith, t, v.empty_kept b, ap is_nil e);
      chains = λ b b' t. ground (arith, t, done, v.chains b b', ap (chained b') e);
      chained_before = λ b b' t. ground (arith, v.chained_before b b' t, ap (chained b') e);
      freed_same = λ b. v.freed_same b ∙ ground arith;
      made_same = v.made_same;
      contexts_same = v.contexts_same;
      fewer = omega (arith, v.fewer, sum-put length s.cancels c k s.cancels_made h, ap length e);
      once = λ o. omega (
        arith,
        v.once o,
        sum-put (registered o) s.cancels c k s.cancels_made h,
        ap (registered o) e,
      );
    }

pub pop-IsMade :
    (s : Contexts) (c : ℕ) (cb : Callback) (rest : List Callback)
    → IsMade s
    → (s.cancels c).callbacks ≡ cb ∷ rest
    → IsMade (pop s c rest)
unfolding IsMade
pop-IsMade s c cb rest m e b h = ground (arith, m b h, made_lem s c cb rest m e, h)
