-- ===== src/Deferred/Combining/Counting.antt =====
-- How `combine_cb` counts, also where its calls are nested.
use ext_async.Prelude.{
  ℕ, zero, suc, ◌+◌, ◌-◌, ◌^◌, ◌<◌, ◌≡◌, refl, sym, subst, ap, ◌∙◌, Bool, true, false, List, [],
  ◌∷◌, ◌++◌, append_assoc, append-nil, Option, none, arith, ◌==◌,
}
use ext_async.Php.{Throwable, fresh, awaitable_disposed}
use ext_async.Deferred.{Deferred, is_pending, trigger_ops}
use ext_async.Deferred.Combining.{
  Combine, Arrival, arguments, fail_pending, fail_thrown, decrement, begin_cb, end_cb, Event,
  begins, returns, exits, Run, step, run,
}

-- One callback for each awaitable that is left, and what ends is a continuation that runs.
abbrev pub possible : ℕ → ℕ → List Event → Bool
possible left running [] = true
possible zero running (begins a ∷ es) = false
possible (suc left) running (begins a ∷ es) = possible left (suc running) es
possible left zero (returns f thrown ∷ es) = false
possible left (suc running) (returns f thrown ∷ es) = possible left running es
possible left zero (exits f ∷ es) = false
possible left (suc running) (exits f ∷ es) = possible left running es

abbrev pub exited : List Event → ℕ
exited [] = 0
exited (begins a ∷ es) = exited es
exited (returns f thrown ∷ es) = exited es
exited (exits f ∷ es) = suc (exited es)

-- What is left after a history.
abbrev pub left_after : ℕ → List Event → ℕ
left_after left [] = left
left_after left (begins a ∷ es) = left_after (left - 1) es
left_after left (returns f thrown ∷ es) = left_after left es
left_after left (exits f ∷ es) = left_after left es

-- Only the call for the last awaitable is told so.
abbrev pub told : ℕ → List Event → List Bool
told left [] = []
told left (begins a ∷ es) = (left == 1) ∷ told (left - 1) es
told left (returns f thrown ∷ es) = told left es
told left (exits f ∷ es) = told left es

-- `left` awaitables have not called back, and `gone` continuations have exited.
pub record Counts (r : Run) (left gone : ℕ) : Type 0 where
  pub started : r.combine.started ≡ left
  pub counter : r.combine.counter ≡ (left + r.running) + gone
  pub small : (left + r.running) + gone < 2 ^ 32
  pub freed : r.combine.released ≡ ((left + r.running) + gone == 0)
  pub settled : (left + r.running) + gone ≡ 0 → is_pending r.combine.deferred.state.status ≡ false

decrement_of_pos : (n : ℕ) → 0 < n → n < 2 ^ 32 → decrement n ≡ n - 1
decrement_of_pos n p h = omega (arith, p, h)

fail_pending_lem :
    (d : Deferred) (e : Throwable) → is_pending (fail_pending d e).0.state.status ≡ false
unfolding fail_pending trigger_ops
fail_pending_lem d e = ground arith

last-arguments : (b : Bool) (a : Arrival) → (arguments b a).last ≡ b
last-arguments b a = ground arith

begins-Counts :
    (r : Run) (a : Arrival) (left gone : ℕ)
    → Counts r (suc left) gone
    → Counts (step r (begins a)) left gone
      × ((step r (begins a)).flags ≡ r.flags ++ (left == 0) ∷ [])
unfolding step begin_cb
begins-Counts r a left gone v =
    let counted : decrement r.combine.started ≡ left =
      ground (arith, v, decrement_of_pos r.combine.started) in
    (
      ground (arith, v, counted),
      ap (λ b. r.flags ++ b ∷ []) (last-arguments (decrement r.combine.started == 0) a)
          ∙ ap (λ n. r.flags ++ (n == 0) ∷ []) counted,
    )

returns-Counts :
    (r : Run) (f : Deferred → Deferred) (thrown : Option Throwable) (left gone : ℕ)
    → Counts r left gone
    → 0 < r.running
    → Counts (step r (returns f thrown)) left gone
unfolding step end_cb
returns-Counts r f thrown left gone v p =
    let d = f r.combine.deferred in
    let counted : decrement r.combine.counter ≡ r.combine.counter - 1 =
      ground (arith, v, p, decrement_of_pos r.combine.counter) in
    ground
      (arith, v, p, counted, fail_pending_lem (fail_thrown d thrown).0 (fresh awaitable_disposed))

exits-Counts :
    (r : Run) (f : Deferred → Deferred) (left gone : ℕ)
    → Counts r left gone
    → 0 < r.running
    → Counts (step r (exits f)) left (suc gone)
unfolding step
exits-Counts r f left gone v p = ground (arith, v, p)

begun :
    (r : Run) (a : Arrival) (running : ℕ)
    → r.running ≡ running
    → (step r (begins a)).running ≡ suc running
unfolding step
begun r a running s = omega (arith, s)

ended :
    (r : Run) (f : Deferred → Deferred) (thrown : Option Throwable) (running : ℕ)
    → r.running ≡ suc running
    → ((step r (returns f thrown)).running ≡ running)
      × ((step r (returns f thrown)).flags ≡ r.flags)
      × ((step r (exits f)).running ≡ running)
      × ((step r (exits f)).flags ≡ r.flags)
unfolding step
ended r f thrown running s = (omega (arith, s), refl, omega (arith, s), refl)

abbrev Follows : Run → Run → ℕ → ℕ → List Bool → Type 0
Follows r r' left gone flags = Counts r' left gone × (r'.flags ≡ r.flags ++ flags)

run-Follows :
    (r : Run) (es : List Event) (left gone running : ℕ)
    → r.running ≡ running
    → Counts r left gone
    → possible left running es ≡ true
    → Follows r (run r es) (left_after left es) (gone + exited es) (told left es)
unfolding run
run-Follows r [] left gone running s v p =
    (subst (Counts r left) (omega arith) v, sym (append-nil r.flags))
run-Follows r (begins a ∷ es) zero gone running s v p = absurd (ground (arith, p))
run-Follows r (begins a ∷ es) (suc left) gone running s v p =
    let (w, told_one) = begins-Counts r a left gone v in
    let r' = step r (begins a) in
    let (x, flags) = run-Follows r' es left gone (suc running) (begun r a running s) w p in
    let same : suc left - 1 ≡ left = omega arith in
    let last : (left == 0) ≡ (suc left == 1) = ground arith in
    rw same (
      x,
      flags
          ∙ ap (λ t. t ++ told left es) (told_one ∙ ap (λ b. r.flags ++ b ∷ []) last)
          ∙ append_assoc r.flags ((suc left == 1) ∷ []) (told left es),
    )
run-Follows r (returns f thrown ∷ es) left gone zero s v p = absurd (ground (arith, p))
run-Follows r (returns f thrown ∷ es) left gone (suc running) s v p =
    let (now, same, _, _) = ended r f thrown running s in
    let (x, flags) =
      run-Follows (step r (returns f thrown)) es left gone running now
        (returns-Counts r f thrown left gone v (omega (arith, s))) p in
    (x, flags ∙ ap (λ t. t ++ told left es) same)
run-Follows r (exits f ∷ es) left gone zero s v p = absurd (ground (arith, p))
run-Follows r (exits f ∷ es) left gone (suc running) s v p =
    let (_, _, now, same) = ended r f none running s in
    let (x, flags) =
      run-Follows (step r (exits f)) es left (suc gone) running now
        (exits-Counts r f left gone v (omega (arith, s))) p in
    (
      subst (Counts (run (step r (exits f)) es) (left_after left es)) (omega arith) x,
      flags ∙ ap (λ t. t ++ told left es) same,
    )

-- Where `combine` counts so many awaitables, at least one, over every history in which each calls back at
-- most once, also while the continuation of another one runs: of the calls of the continuation only
-- that for the last awaitable is told that it is the last one; and the structure is freed exactly when
-- all have called back, no continuation runs any more and none has exited the program, and then the
-- deferred is settled, whatever the continuations do to it.
pub combine_counts :
    (c : Combine) (n : ℕ) (es : List Event)
    → c.started ≡ n
    → c.counter ≡ n
    → c.released ≡ false
    → 0 < n
    → n < 2 ^ 32
    → possible n 0 es ≡ true
    → let r = run (record { combine = c; running = 0; flags = [] }) es in
      let pending_calls = (left_after n es + r.running) + exited es in
      (r.flags ≡ told n es)
      × (r.combine.released ≡ (pending_calls == 0))
      × (pending_calls ≡ 0 → is_pending r.combine.deferred.state.status ≡ false)
combine_counts c n es s k f p small h =
    let (v, flags) =
      run-Follows (record { combine = c; running = 0; flags = [] }) es n 0 0 refl
        (ground (arith, s, k, f, p, small)) h in
    let gone : 0 + exited es ≡ exited es = omega arith in
    let last = run (record { combine = c; running = 0; flags = [] }) es in
    (
      flags,
      v.freed ∙ ap (λ g. (left_after n es + last.running) + g == 0) gone,
      λ o. v.settled (omega (arith, o)),
    )
