-- ===== src/Ticks/Running.antt =====
-- How the loops of src/task.c take events off the lists, and that they end.
use ext_async.Prelude.{
  if_cases, ℕ, zero, suc, ◌+◌, ◌≤◌, ◌≡◌, refl, subst, ◌∙◌, ap, Bool, true, false, List, [], ◌∷◌,
  Option, some, arith, ◌==◌, if◌then◌else◌, length, is_nil,
}
use ext_async.Scheduler.{erase}
use ext_async.Ticks.{
  Ticks, Events, nowhere, running, update, release, dispose_running, dispose_ticking, dispose_ticks,
  handle_error, End, returns, throws, exits, Callback, mark_running, after_call, run_loop,
  run_ticks, Run, caught, turn, Call, step, steps, activate_tick, deactivate_tick, object_create,
  close, start, stop, ref, unref, creates, closes, starts, stops, refs, unrefs,
}
use ext_async.Ticks.Counting.{count, unit, weight, weight-update_same}
use ext_async.Ticks.Invariant.{IsCounted, steps-IsCounted}

release_running-IsCounted :
    (s : Ticks) (i : ℕ) (is' : List ℕ)
    → s.running ≡ i ∷ is'
    → IsCounted s
    → IsCounted (release (record s { running = is' }) i)
release_running-IsCounted s i is' h v =
    let e = record (s.events i) { place = nowhere } in
    let total : weight s.events s.running ≡ unit (s.events i).referenced + weight s.events is' =
      ap (weight s.events) h in
    let counts : (j : ℕ) → count j s.running ≡ (if i == j then 1 else 0) + count j is' =
      λ j. ap (count j) h in
    record {
      refs_counted = ground (
        arith,
        v.refs_counted,
        total,
        weight-update_same s.events i e s.ticks refl,
        weight-update_same s.events i e is' refl,
      );
      in_ticks = λ j. ground (arith, v.in_ticks j, v.in_running j, counts j);
      in_running = λ j. ground (arith, v.in_running j, counts j);
    }

release_ticking-IsCounted :
    (s : Ticks) (i : ℕ) (is' : List ℕ)
    → s.ticks ≡ i ∷ is'
    → IsCounted s
    → IsCounted (release (record s { ticks = is' }) i)
release_ticking-IsCounted s i is' h v =
    let e = record (s.events i) { place = nowhere } in
    let total : weight s.events s.ticks ≡ unit (s.events i).referenced + weight s.events is' =
      ap (weight s.events) h in
    let counts : (j : ℕ) → count j s.ticks ≡ (if i == j then 1 else 0) + count j is' =
      λ j. ap (count j) h in
    record {
      refs_counted = ground (
        arith,
        v.refs_counted,
        total,
        weight-update_same s.events i e s.running refl,
        weight-update_same s.events i e is' refl,
      );
      in_ticks = λ j. ground (arith, v.in_ticks j, counts j);
      in_running = λ j. ground (arith, v.in_running j, v.in_ticks j, counts j);
    }

dispose_running-IsCounted :
    (s : Ticks) (xs : List ℕ) → s.running ≡ xs → IsCounted s → IsCounted (dispose_running s xs)
unfolding dispose_running
dispose_running-IsCounted s [] h v = subst (λ xs. IsCounted (record s { running = xs })) h v
dispose_running-IsCounted s (i ∷ is') h v =
    dispose_running-IsCounted (release (record s { running = is' }) i) is' refl
      (release_running-IsCounted s i is' h v)

dispose_ticking-IsCounted :
    (s : Ticks) (xs : List ℕ) → s.ticks ≡ xs → IsCounted s → IsCounted (dispose_ticking s xs)
unfolding dispose_ticking
dispose_ticking-IsCounted s [] h v = subst (λ xs. IsCounted (record s { ticks = xs })) h v
dispose_ticking-IsCounted s (i ∷ is') h v =
    dispose_ticking-IsCounted (release (record s { ticks = is' }) i) is' refl
      (release_ticking-IsCounted s i is' h v)

dispose_running-nil : (s : Ticks) (xs : List ℕ) → (dispose_running s xs).running ≡ []
unfolding dispose_running
dispose_running-nil s [] = refl
dispose_running-nil s (i ∷ is') = dispose_running-nil (release (record s { running = is' }) i) is'

dispose_ticking-nil :
    (s : Ticks) (xs : List ℕ)
    → ((dispose_ticking s xs).ticks ≡ []) × ((dispose_ticking s xs).running ≡ s.running)
unfolding dispose_ticking
dispose_ticking-nil s [] = (refl, refl)
dispose_ticking-nil s (i ∷ is') = dispose_ticking-nil (release (record s { ticks = is' }) i) is'

handle_error-IsCounted :
    (s : Ticks) → IsCounted s → IsCounted (handle_error s) × ((handle_error s).running ≡ [])
unfolding handle_error dispose_ticks
handle_error-IsCounted s v =
    let s0 = record s { failed = true; stopped = if s.active then true else s.stopped } in
    let v0 : IsCounted s0 = record {
      refs_counted = v.refs_counted;
      in_ticks = v.in_ticks;
      in_running = v.in_running;
    } in
    let s1 = dispose_running s0 s.running in
    (
      dispose_ticking-IsCounted s1 s1.ticks refl (dispose_running-IsCounted s0 s.running refl v0),
      (dispose_ticking-nil s1 s1.ticks).1 ∙ dispose_running-nil s0 s.running,
    )

length-erase : (i : ℕ) (xs : List ℕ) → length (erase i xs) ≤ length xs
length-erase i [] = omega arith
length-erase i (x ∷ xs) = ground (arith, length-erase i xs)

step-length : (s : Ticks) (c : Call) → length (step s c).running ≤ length s.running
unfolding step object_create close start stop ref unref activate_tick deactivate_tick
step-length s (creates i) = ground arith
step-length s (closes i) = ground (arith, length-erase i s.running)
step-length s (starts i) = ground arith
step-length s (stops i) = ground (arith, length-erase i s.running)
step-length s (refs i) = ground arith
step-length s (unrefs i) = ground arith

steps-length : (s : Ticks) (cs : List Call) → length (steps s cs).running ≤ length s.running
unfolding steps
steps-length s [] = omega arith
steps-length s (c ∷ cs) = omega (arith, step-length s c, steps-length (step s c) cs)

-- The loop ends, after `fuel` callbacks or fewer, with nothing left to run unless one has thrown.
abbrev pub Ends : ℕ → Option Run → Type 0
Ends fuel o =
    (called : List ℕ) × (threw : Bool) × (s' : Ticks) × (o ≡ some (called, threw, s'))
    × (length called ≤ fuel)
    × (threw ≡ false → s'.running ≡ [])
    × IsCounted s'

after_call-Ends :
    (fuel i : ℕ) (s : Ticks) (end : End) (o : Option Run)
    → IsCounted s
    → Ends fuel o
    → Ends (suc fuel) (after_call i s end o)
after_call-Ends fuel i s returns o v (called, threw, s', e, n, h, w) =
    (i ∷ called, threw, s', ap (after_call i s returns) e, omega (arith, n), h, w)
after_call-Ends fuel i s throws o v d =
    (i ∷ [], true, s, refl, omega arith, (λ h. absurd (ground (arith, h))), v)
after_call-Ends fuel i s exits o v d =
    let (w, h) = handle_error-IsCounted s v in
    (i ∷ [], false, handle_error s, refl, omega arith, (λ e. h), w)

run_loop-Ends :
    (fuel : ℕ) (call : Callback) (s : Ticks) (xs : List ℕ)
    → IsCounted (record s { running = xs })
    → length xs ≤ fuel
    → Ends fuel (run_loop fuel call (record s { running = xs }))
unfolding run_loop
run_loop-Ends zero call s [] v n =
    ([], false, record s { running = [] }, refl, omega arith, (λ h. refl), v)
run_loop-Ends zero call s (i ∷ is') v n = absurd (omega (arith, n))
run_loop-Ends (suc fuel) call s [] v n =
    ([], false, record s { running = [] }, refl, omega arith, (λ h. refl), v)
run_loop-Ends (suc fuel) call s (i ∷ is') v n =
    let s1 = release (record s { running = is' }) i in
    let v1 = release_running-IsCounted (record s { running = i ∷ is' }) i is' refl v in
    let (cs, end) = call s1 i in
    let s2 = steps s1 cs in
    let v2 = steps-IsCounted s1 cs v1 in
    after_call-Ends fuel i s2 end (run_loop fuel call s2) v2
      (run_loop-Ends fuel call s2 s2.running v2 (omega (arith, n, steps-length s1 cs)))

-- Where no event is left of an earlier run: the counts hold after the first loop.
mark :
    (f : Events) (xs : List ℕ) (j : ℕ)
    → ((mark_running f xs j).referenced ≡ (f j).referenced)
      × ((mark_running f xs j).place ≡ (if count j xs == 0 then (f j).place else running))
unfolding mark_running
mark f [] j = (refl, refl)
mark f (i ∷ is') j = ground (arith, mark (update f i (record (f i) { place = running })) is' j)

weight-mark : (f : Events) (xs ys : List ℕ) → weight (mark_running f ys) xs ≡ weight f xs
weight-mark f [] ys = refl
weight-mark f (x ∷ xs) ys = ground (arith, (mark f ys x).0, weight-mark f xs ys)

mark_running-IsCounted :
    (s : Ticks)
    → s.running ≡ []
    → IsCounted s
    → IsCounted (record s { running = s.ticks; ticks = []; events = mark_running s.events s.ticks })
mark_running-IsCounted s h v = record {
  refs_counted =
      ground (arith, v.refs_counted, ap (weight s.events) h, weight-mark s.events s.ticks s.ticks);
  in_ticks =
      λ j. ground (arith, v.in_ticks j, v.in_running j, ap (count j) h, mark s.events s.ticks j);
  in_running =
      λ j. ground (arith, v.in_ticks j, v.in_running j, ap (count j) h, mark s.events s.ticks j);
}

run_ticks-Ends :
    (call : Callback) (s : Ticks)
    → s.running ≡ []
    → IsCounted s
    → Ends (length s.ticks) (run_ticks call s)
unfolding run_ticks
run_ticks-Ends call s h v =
    let s' = record s { events = mark_running s.events s.ticks; ticks = [] } in
    run_loop-Ends (length s.ticks) call s' s.ticks (mark_running-IsCounted s h v) (omega arith)

-- The turn ends, after `n` callbacks or fewer, with nothing left to run.
abbrev pub Settles : ℕ → Option (List ℕ × Ticks) → Type 0
Settles n o =
    (called : List ℕ) × (s' : Ticks) × (o ≡ some (called, s'))
    × (length called ≤ n)
    × (s'.running ≡ [])
    × IsCounted s'

caught-Settles : (n : ℕ) (o : Option Run) → Ends n o → Settles n (caught o)
caught-Settles n o (called, false, s', e, m, h, w) = (called, s', ap caught e, m, h refl, w)
caught-Settles n o (called, true, s', e, m, h, w) =
    let (w', h') = handle_error-IsCounted s' w in (called, handle_error s', ap caught e, m, h', w')

-- Where the counts hold and no event of an earlier turn is left to run, a turn of the scheduler over
-- the ticks ends whatever the callbacks do: start, stop, create, close, ref or unref any event, throw
-- or exit. It makes at most as many calls as events were scheduled, leaves no event to run, and the
-- counts hold again.
pub turn_lem :
    (call : Callback) (s : Ticks)
    → s.running ≡ []
    → IsCounted s
    → Settles (length s.ticks) (turn call s)
unfolding turn
turn_lem call s h v =
    if_cases (Settles (length s.ticks)) (is_nil s.ticks) _ _ (λ e. ([], s, refl, omega arith, h, v))
      (λ e. caught-Settles (length s.ticks) (run_ticks call s) (run_ticks-Ends call s h v))
