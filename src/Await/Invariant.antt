-- ===== src/Await/Invariant.antt =====
-- The states of a task that awaits, whatever happens.
use ext_async.Prelude.{
  if_cases, ℕ, ◌+◌, ◌-◌, ◌≡◌, refl, true, false, List, [], ◌∷◌, some, arith, ◌==◌,
}
use ext_async.Await.{
  OpStatus, resolved, failed, is_running, is_queueable, Wait, cancellable, resume, enqueue,
  reschedule_task, continue_op_task, complete_op, cancel_op, Event, resolves, fails, cancels, stops,
  dispatches, on_cancel, dispatch, is_some, occur, step, run,
}

-- A task that waits: while its operation runs, it is suspended and not ready; afterwards it is ready
-- once, or was resumed once, and then the wait has an outcome.
pub record IsWaiting (s : Wait) : Type 0 where
  pub waits :
      is_running s.op.status ≡ true
      → (s.ready ≡ 0) × (s.resumed ≡ 0) × (s.op.listed ≡ true) × (s.op.cancelled ≡ false)
  pub woken : is_running s.op.status ≡ false → s.ready + s.resumed ≡ 1
  pub sleeps : s.resumed ≡ 0 → (is_queueable s.task_status ≡ true) × (is_some s.outcome ≡ false)
  pub returned : s.resumed ≡ 1 → is_some s.outcome ≡ true
  pub kept : is_running s.op.status ≡ true → s.registered ≡ cancellable s
  -- A completion that comes after a cancellation wakes nobody.
  pub quiet : s.op.listed ≡ true → is_running s.op.status ≡ false → s.op.cancelled ≡ true

resume-IsWaiting :
    (s : Wait)
    → is_running s.op.status ≡ false
    → (s.op.listed ≡ true → s.op.cancelled ≡ true)
    → s.ready ≡ 0
    → s.resumed ≡ 0
    → IsWaiting (resume s)
unfolding resume
resume-IsWaiting s r l a b = record {
  waits = λ h. absurd (ground (arith, h, r));
  woken = λ h. omega (arith, a, b);
  sleeps = λ h. absurd (omega (arith, b, h));
  returned = λ h. refl;
  kept = λ h. absurd (ground (arith, h, r));
  quiet = λ h k. ground (arith, l, h);
}

reschedule_task-IsWaiting :
    (s : Wait)
    → is_running s.op.status ≡ false
    → (s.op.listed ≡ true → s.op.cancelled ≡ true)
    → s.ready ≡ 0
    → s.resumed ≡ 0
    → is_queueable s.task_status ≡ true
    → is_some s.outcome ≡ false
    → IsWaiting (reschedule_task s)
unfolding reschedule_task enqueue
reschedule_task-IsWaiting s r l a b q o =
    if_cases IsWaiting s.op.defer _ _
      (λ d.
        if_cases IsWaiting (is_queueable s.task_status) _ _
          (λ k. record {
            waits = λ h. absurd (ground (arith, h, r));
            woken = λ h. omega (arith, a, b);
            sleeps = λ h. (q, o);
            returned = λ h. absurd (omega (arith, b, h));
            kept = λ h. absurd (ground (arith, h, r));
            quiet = λ h k. ground (arith, l, h);
          })
          (λ k. absurd (ground (arith, k, q))))
      (λ d. resume-IsWaiting s r l a b)

complete_op-IsWaiting :
    (s : Wait) (status : OpStatus) (value : ℕ)
    → is_running status ≡ false
    → is_some s.outcome ≡ false
    → s.op.listed ≡ true
    → IsWaiting s
    → IsWaiting (complete_op s status value)
unfolding complete_op continue_op_task
complete_op-IsWaiting s status value r o l w =
    let s' = record s {
      op = record s.op { listed = false; result = some value; status = status };
    } in
    let idle : (s.op.cancelled ≡ false) → (s.ready ≡ 0) × (s.resumed ≡ 0) =
      λ c. ground (arith, w.waits, w.quiet l, c) in
    if_cases IsWaiting s.op.cancelled _ _
      (λ c. record {
        waits = λ h. absurd (ground (arith, h, r));
        woken = λ h. ground (arith, w.woken, w.waits, c);
        sleeps = w.sleeps;
        returned = w.returned;
        kept = λ h. absurd (ground (arith, h, r));
        quiet = λ h k. c;
      })
      (λ c.
        let (a, b) = idle c in
        reschedule_task-IsWaiting s' r (λ h. absurd (ground (arith, h))) a b (w.sleeps b).0 o)

on_cancel-IsWaiting :
    (s : Wait) (err : ℕ) → is_some s.outcome ≡ false → IsWaiting s → IsWaiting (on_cancel s err)
unfolding cancel_op
on_cancel-IsWaiting s err o w =
    let s' = record s { registered = false } in
    let s'' = record s' {
      op = record s.op { result = some err; status = failed; cancelled = true; object = false };
    } in
    if_cases IsWaiting s.registered _ _
      (λ h.
        if_cases IsWaiting (is_running s.op.status) _ _
          (λ r.
            let (a, b, listed, uncancelled) = w.waits r in
            reschedule_task-IsWaiting s'' refl (λ h. refl) a b (w.sleeps b).0 o)
          (λ r. record {
            waits = w.waits;
            woken = w.woken;
            sleeps = w.sleeps;
            returned = w.returned;
            kept = λ h. absurd (ground (arith, h, r));
            quiet = w.quiet;
          }))
      (λ h. w)

dispatch-IsWaiting : (s : Wait) → is_some s.outcome ≡ false → IsWaiting s → IsWaiting (dispatch s)
unfolding dispatch
dispatch-IsWaiting s o w =
    if_cases IsWaiting (0 == s.ready) _ _ (λ z. w)
      (λ z.
        resume-IsWaiting (record s { ready = s.ready - 1 }) (ground (arith, w.waits, z))
          (λ h. w.quiet h (ground (arith, w.waits, z))) (ground (arith, w.waits, w.woken, z))
          (ground (arith, w.waits, w.woken, z)))

occur-IsWaiting :
    (s : Wait) (e : Event) → is_some s.outcome ≡ false → IsWaiting s → IsWaiting (occur s e)
unfolding occur
occur-IsWaiting s (resolves v) o w =
    if_cases IsWaiting s.op.listed _ _ (λ l. complete_op-IsWaiting s resolved v refl o l w) (λ l. w)
occur-IsWaiting s (fails v) o w =
    if_cases IsWaiting s.op.listed _ _ (λ l. complete_op-IsWaiting s failed v refl o l w) (λ l. w)
occur-IsWaiting s (cancels err) o w = on_cancel-IsWaiting s err o w
occur-IsWaiting s stops o w = record {
  waits = w.waits;
  woken = w.woken;
  sleeps = w.sleeps;
  returned = w.returned;
  kept = w.kept;
  quiet = w.quiet;
}
occur-IsWaiting s dispatches o w = dispatch-IsWaiting s o w

pub step-IsWaiting : (s : Wait) (e : Event) → IsWaiting s → IsWaiting (step s e)
unfolding step
step-IsWaiting s e w =
    if_cases IsWaiting (is_some s.outcome) _ _ (λ o. w) (λ o. occur-IsWaiting s e o w)

pub run-IsWaiting : (s : Wait) (es : List Event) → IsWaiting s → IsWaiting (run s es)
unfolding run
run-IsWaiting s [] w = w
run-IsWaiting s (e ∷ es) w = run-IsWaiting (step s e) es (step-IsWaiting s e w)
