-- ===== src/Await/Waking.antt =====
-- An awaited operation wakes its task once.
use ext_async.Prelude.{
  ℕ, ◌≡◌, refl, sym, subst, ◌∙◌, ap, Bool, true, false, not, ◌&&◌, ◌||◌, List, [], ◌∷◌, Option,
  none, some, arith, if◌then◌else◌,
}
use ext_async.Await.{
  is_running, is_active, Wait, cancellable, arm, await_with, await_op, resume, enqueue,
  reschedule_task, continue_op_task, complete_op, cancel_op, Event, resolves, fails, cancels, stops,
  dispatches, dispatch, is_some, occur, step, run,
}
use ext_async.Await.Invariant.{IsWaiting, step-IsWaiting, run-IsWaiting}

-- Whether an event wakes a task whose wait can be cancelled, or cannot.
abbrev pub wakes_one : Bool → Event → Bool
wakes_one c (resolves v) = true
wakes_one c (fails v) = true
wakes_one c (cancels err) = c
wakes_one c stops = false
wakes_one c dispatches = false

abbrev pub wakes : Bool → List Event → Bool
wakes c [] = false
wakes c (e ∷ es) = wakes_one c e || wakes c es

-- What an event does to the status, and that it leaves the cancellation alone.
step-status :
    (s : Wait) (e : Event)
    → IsWaiting s
    → (is_running (step s e).op.status
        ≡ (is_running s.op.status && not (wakes_one (cancellable s) e)))
      × (cancellable (step s e) ≡ cancellable s)
unfolding step occur complete_op continue_op_task reschedule_task enqueue resume cancel_op dispatch
step-status s (resolves v) w = ground (arith, w.waits, w.sleeps)
step-status s (fails v) w = ground (arith, w.waits, w.sleeps)
step-status s (cancels err) w = ground (arith, w.waits, w.sleeps, w.kept)
step-status s stops w = ground (arith, w.waits, w.sleeps)
step-status s dispatches w = ground (arith, w.waits, w.sleeps)

run-status :
    (s : Wait) (es : List Event)
    → IsWaiting s
    → is_running (run s es).op.status ≡ (is_running s.op.status && not (wakes (cancellable s) es))
unfolding run
run-status s [] w = ground arith
run-status s (e ∷ es) w =
    let (a, b) = step-status s e w in
    ground (
      arith,
      run-status (step s e) es (step-IsWaiting s e w)
          ∙ ap (λ c. is_running (step s e).op.status && not (wakes c es)) b,
      a,
    )

-- Once the scheduler has dispatched the tasks that are ready.
dispatched :
    (s : Wait)
    → IsWaiting s
    → ((step s dispatches).resumed ≡ (if is_running s.op.status then 0 else 1))
      × (is_some (step s dispatches).outcome ≡ not (is_running s.op.status))
      × ((step s dispatches).ready ≡ 0)
unfolding step occur dispatch resume
dispatched s w = ground (arith, w.waits, w.woken, w.sleeps, w.returned)

-- A task may await: it runs, its operation and the scheduler are as a new await finds them.
pub record IsFree (s : Wait) : Type 0 where
  pub runs : is_active s.task_status ≡ true
  pub lives : (s.task_disposed || s.disposed || s.stopped) ≡ false
  pub clean : s.op.cancelled ≡ false
  pub alone : (s.ready ≡ 0) × (s.resumed ≡ 0)
  pub ready_to_start : is_some s.outcome ≡ false

abbrev pub is_triggered : Option (Bool × ℕ) → Bool
is_triggered none = false
is_triggered (some (triggered, err)) = triggered

arm-IsWaiting : (s : Wait) → IsFree s → IsWaiting (arm s)
arm-IsWaiting s f = record {
  waits = λ h. (f.alone.0, f.alone.1, refl, f.clean);
  woken = λ h. absurd (ground (arith, h));
  sleeps = λ h. (refl, f.ready_to_start);
  returned = λ h. absurd (omega (arith, f.alone.1, h));
  kept = λ h. refl;
  quiet = λ h k. absurd (ground (arith, k));
}

await_op-arm :
    (s : Wait) (c : Option (Bool × ℕ))
    → IsFree s
    → (not s.op.atomic && is_triggered c) ≡ false
    → await_with s.op.atomic c s ≡ arm s
await_op-arm s none f h = ground (arith, f.runs, f.lives)
await_op-arm s (some (triggered, err)) f h = ground (arith, f.runs, f.lives, h)

-- Where a running task awaits an operation whose context was not cancelled before, whatever happens
-- then and in whatever order, after the next dispatch: the task was resumed once if the operation was
-- completed, or its context cancelled and the operation is not atomic, and otherwise never; and
-- `async_await_op` has returned exactly if the task was resumed, and the task is not queued again.
pub await_wakes :
    (s : Wait) (es : List Event)
    → IsFree s
    → (not s.op.atomic && is_triggered s.cancel) ≡ false
    → let t = step (run (await_op s) es) dispatches in
      (t.resumed ≡ (if wakes (cancellable s) es then 1 else 0))
      × (is_some t.outcome ≡ wakes (cancellable s) es)
      × (t.ready ≡ 0)
unfolding await_op
await_wakes s es f h =
    let e = await_op-arm s s.cancel f h in
    let w = arm-IsWaiting s f in
    let (a, b, c) = dispatched (run (arm s) es) (run-IsWaiting (arm s) es w) in
    let r = run-status (arm s) es w in
    subst
      (λ u.
        let t = step (run u es) dispatches in
        (t.resumed ≡ (if wakes (cancellable s) es then 1 else 0))
        × (is_some t.outcome ≡ wakes (cancellable s) es)
        × (t.ready ≡ 0))
      (sym e) (ground (arith, a, r), ground (arith, b, r), c)
