-- ===== src/Watcher/Triggering.antt =====
-- A trigger finishes those that wait, and whoever waits will be triggered.
use ext_async.Prelude.{
  ℕ, ◌≡◌, refl, sym, subst, ap, ◌∙◌, true, false, ◌||◌, List, [], ◌∷◌, ◌++◌, Option, none, some,
  arith, ◌==◌, is_nil, length, append-nil, append_assoc, if_cases,
}
use ext_async.Php.{Throwable}
use ext_async.IntrusiveList.Linked.{Fresh}
use ext_async.Watcher.{
  Watcher, is_none, await, resumed, trigger_loop, last_of, trigger, shutdown, close, Event, awaits,
  triggers, closes, aborts, step, run,
}

-- What the tasks of some operations await next.
abbrev pub all_again : (ℕ → List ℕ) → List ℕ → List ℕ
all_again again [] = []
all_again again (x ∷ xs) = again x ++ all_again again xs

last_of-append_one : (xs : List ℕ) (l d : ℕ) → last_of (xs ++ l ∷ []) d ≡ l
last_of-append_one [] l d = refl
last_of-append_one (x ∷ xs) l d = last_of-append_one xs l x

trigger_loop_lem :
    (again : ℕ → List ℕ) (xs ys : List ℕ) (l : ℕ)
    → Fresh l xs
    → trigger_loop (length (xs ++ l ∷ [])) again l (xs ++ l ∷ ys)
      ≡ (xs ++ l ∷ [], ys ++ all_again again (xs ++ l ∷ []))
unfolding trigger_loop
trigger_loop_lem again [] ys l f =
    if_cases (λ t. t ≡ (l ∷ [], ys ++ (again l ++ []))) (l == l) _ _
      (λ h. ap (λ t. (l ∷ [], ys ++ t)) (sym (append-nil (again l))))
      (λ h. absurd (ground (arith, h)))
trigger_loop_lem again (x ∷ xs) ys l f =
    let rest = trigger_loop_lem again xs (ys ++ again x) l f.1 in
    let moved = append_assoc xs (l ∷ ys) (again x) in
    let tail = ap (trigger_loop (length (xs ++ l ∷ [])) again l) moved ∙ rest in
    if_cases (λ t. t ≡ (x ∷ (xs ++ l ∷ []), ys ++ (again x ++ all_again again (xs ++ l ∷ []))))
      (x == l) _ _ (λ h. absurd (ground (arith, h, f.0)))
      (λ h.
        ap (λ t. (x ∷ t.0, t.1)) tail
        ∙ ap (λ t. (x ∷ (xs ++ l ∷ []), t))
            (append_assoc ys (again x) (all_again again (xs ++ l ∷ []))))

-- Where a watcher is not closed and tasks wait for it, each with an operation of its own: a trigger
-- finishes their operations, each once and in order, and none of those that the resumed tasks await
-- then; these wait for the next trigger.
pub trigger_lem :
    (w : Watcher) (again : ℕ → List ℕ) (xs : List ℕ) (l : ℕ)
    → w.error ≡ none
    → w.waiting ≡ xs ++ l ∷ []
    → Fresh l xs
    → let (done, w') = trigger w again in
      (done ≡ w.waiting) × (w'.waiting ≡ all_again again w.waiting)
unfolding trigger
trigger_lem w again xs l e h f =
    let r =
      subst (λ t. trigger_loop (length t) again (last_of t 0) t ≡ (t, all_again again t)) (sym h)
        (ap (λ d. trigger_loop (length (xs ++ l ∷ [])) again d (xs ++ l ∷ []))
            (last_of-append_one xs l 0)
          ∙ trigger_loop_lem again xs [] l f) in
    (ground (arith, e, ap (λ t. t.0) r), ground (arith, e, ap (λ t. t.1) r))

-- Whoever waits is waiting for a watcher that libuv will trigger.
pub record IsLive (w : Watcher) : Type 0 where
  pub served : (is_nil w.waiting || w.active) ≡ true
  pub failed : is_none w.error ≡ false → is_nil w.waiting ≡ true
  pub unclosed : w.closing ≡ true → is_none w.error ≡ false

step-IsLive : (w : Watcher) (e : Event) → IsLive w → IsLive (step w e)
unfolding step await resumed trigger close shutdown
step-IsLive w (awaits background op) v = ground (arith, v)
step-IsLive w (triggers again) v = ground (arith, v)
step-IsLive w (closes e) v = ground (arith, v)
step-IsLive w (aborts background op) v = ground (arith, v)

pub run-IsLive : (w : Watcher) (es : List Event) → IsLive w → IsLive (run w es)
unfolding run
run-IsLive w [] v = v
run-IsLive w (e ∷ es) v = run-IsLive (step w e) es (step-IsLive w e v)

none_lem : (o : Option Throwable) → is_none o ≡ true → o ≡ none
none_lem none h = refl
none_lem (some e) h = absurd (ground (arith, h))

nil-append_one : (xs : List ℕ) (l : ℕ) → is_nil (xs ++ l ∷ []) ≡ false
nil-append_one [] l = refl
nil-append_one (x ∷ xs) l = refl

-- Over every history of waits, triggers, cancellations and closes of a watcher, for a timer with a
-- positive delay, for which it held before that nobody waits in vain: where tasks wait, each with an operation of its own, libuv has the watcher
-- active, and its next trigger finishes the operations that wait, each once and in order, and none of
-- those that the resumed tasks await then; these wait for the trigger after it.
pub run-triggers :
    (w : Watcher) (es : List Event) (again : ℕ → List ℕ) (xs : List ℕ) (l : ℕ)
    → IsLive w
    → (run w es).waiting ≡ xs ++ l ∷ []
    → Fresh l xs
    → let u = run w es in
      let (done, u') = trigger u again in
      (u.active ≡ true) × (done ≡ u.waiting) × (u'.waiting ≡ all_again again u.waiting)
run-triggers w es again xs l v h f =
    let u = run w es in
    let live = run-IsLive w es v in
    let some_wait : is_nil u.waiting ≡ false = ap is_nil h ∙ nil-append_one xs l in
    let no_error : u.error ≡ none = none_lem u.error (ground (arith, live.failed, some_wait)) in
    let (a, b) = trigger_lem u again xs l no_error h f in
    (ground (arith, live.served, some_wait), a, b)
