-- ===== src/Tasks/Once.antt =====
-- A task that nobody executes again runs its function once, and answers everybody who awaits it.
use ext_async.Prelude.{
  ℕ, ◌+◌, ◌≡◌, refl, sym, ap, true, false, not, ◌&&◌, ◌||◌, Bool, List, [], ◌∷◌, ◌++◌, append-nil,
  append_assoc, arith, ◌==◌, if◌then◌else◌, if_cases, ◌≤◌, Bool-cases, inl, inr,
}
use ext_async.Await.{TaskStatus, init, suspended, active, ended, is_queueable}
use ext_async.Tasks.{
  Ending, answer_all, answer, Task, has_ended, enqueue, object_create, trigger_ops, dispose, finish,
  Part, ends, awaits_op, awaits_val, run_part, dispose_ended, dispatch, reschedule, begin_inline,
  end_inline, await_now, executes, Event, dispatches, continues, awaits, begins, returns,
  is_waiting, step, run,
}

abbrev pub is_init : TaskStatus → Bool
is_init init = true
is_init suspended = false
is_init active = false
is_init ended = false

-- The operations that await the task, in order.
abbrev pub awaited_by : Task → Event → List ℕ
awaited_by t (dispatches part) = []
awaited_by t (continues defer part) = []
awaited_by t (awaits op) = op ∷ []
awaited_by t (begins fits) = []
awaited_by t (returns op e) = if t.inlined == 0 then [] else op ∷ []

abbrev pub awaited : Task → List Event → List ℕ
unfolding step
awaited t [] = []
awaited t (e ∷ es) = awaited_by t e ++ awaited (step t e) es

-- The function of the task is executed inline only where it was not begun before.
abbrev pub careful : Task → Event → Bool
careful t (dispatches part) = true
careful t (continues defer part) = true
careful t (awaits op) = true
careful t (begins fits) = not (executes t fits) || is_init t.status
careful t (returns op e) = true

abbrev pub Careful : Task → List Event → Type 0
unfolding step
Careful t [] = Unit {0}
Careful t (e ∷ es) = (careful t e ≡ true) × Careful (step t e) es

-- `ops` are the operations that have awaited the task.
pub record IsOnce (t : Task) (ops : List ℕ) : Type 0 where
  pub fresh : is_init t.status ≡ true → (t.runs ≡ 0) × (t.fiber ≡ false) × (t.inlined ≡ 0)
  pub begun : is_init t.status ≡ false → t.runs ≡ 1
  pub inline_once : t.inlined ≤ 1
  pub inline :
      (t.inlined == 0) ≡ false
      → (has_ended t.status ≡ false)
        × (t.fiber ≡ false)
        × (t.ready ≡ false)
        × (is_init t.status ≡ false)
  pub over :
      has_ended t.status ≡ true
      → (t.operations ≡ []) × (t.answers ≡ answer_all t.result ops) × (t.ready ≡ false)
  pub going :
      has_ended t.status ≡ false → (t.operations ≡ ops) × (t.answers ≡ []) × (t.disposed ≡ false)
  pub queued : t.ready ≡ true → t.fiber ≡ not (is_init t.status)

object_create-IsOnce : IsOnce object_create []
unfolding object_create enqueue answer_all
object_create-IsOnce = ground arith

answer_all-append :
    (e : Ending) (xs ys : List ℕ) → answer_all e (xs ++ ys) ≡ answer_all e xs ++ answer_all e ys
unfolding answer_all
answer_all-append e [] ys = refl
answer_all-append e (x ∷ xs) ys = ap (λ t. answer e x ∷ t) (answer_all-append e xs ys)

-- The statuses at which nothing has begun, or all has ended.
init_not_ended : (s : TaskStatus) → is_init s ≡ true → has_ended s ≡ false
init_not_ended init i = refl
init_not_ended suspended i = refl
init_not_ended active i = refl
init_not_ended ended i = sym i

queueable_cases : (s : TaskStatus) → is_queueable s ≡ not (has_ended s) && is_queueable s
queueable_cases init = refl
queueable_cases suspended = refl
queueable_cases active = refl
queueable_cases ended = refl

-- A task that runs a part of its function in its own fiber.
run_part-IsOnce :
    (t : Task) (ops : List ℕ) (part : Part)
    → IsOnce t ops
    → t.status ≡ active
    → t.fiber ≡ true
    → t.ready ≡ false
    → IsOnce (dispose_ended (run_part t part)) ops
unfolding finish dispose trigger_ops answer_all
run_part-IsOnce t ops (ends e) v a f r =
    ground (arith, v, a, f, r, append-nil (answer_all e t.operations))
run_part-IsOnce t ops awaits_op v a f r = ground (arith, v, a, f, r)
run_part-IsOnce t ops awaits_val v a f r = ground (arith, v, a, f, r)

dispatch-IsOnce :
    (t : Task) (ops : List ℕ) (part : Part)
    → IsOnce t ops
    → t.ready ≡ true
    → IsOnce (dispatch t part) ops
unfolding dispatch
dispatch-IsOnce t ops part v r =
    if_cases (λ u. IsOnce (dispose_ended u) ops) t.fiber _ _
      (λ f.
        run_part-IsOnce (record t { ready = false; status = active }) ops part
          (ground (arith, v, r, f)) refl f refl)
      (λ f.
        run_part-IsOnce
          (record t { ready = false; fiber = true; status = active; runs = t.runs + 1 }) ops part
          (ground (arith, v, r, f)) refl refl refl)

reschedule-IsOnce :
    (t : Task) (ops : List ℕ) (defer : Bool) (part : Part)
    → IsOnce t ops
    → is_waiting t ≡ true
    → IsOnce (reschedule t defer part) ops
unfolding reschedule enqueue
reschedule-IsOnce t ops true part v w = ground (arith, v, w, queueable_cases t.status)
reschedule-IsOnce t ops false part v w =
    run_part-IsOnce (record t { status = active }) ops part (ground (arith, v, w)) refl
      (ground (arith, w)) (ground (arith, w))

begin_inline-IsOnce :
    (t : Task) (ops : List ℕ) → IsOnce t ops → is_init t.status ≡ true → IsOnce (begin_inline t) ops
unfolding begin_inline
begin_inline-IsOnce t ops v i = ground (arith, v, i, init_not_ended t.status i)

end_inline-IsOnce :
    (t : Task) (ops : List ℕ) (e : Ending)
    → IsOnce t ops
    → (t.inlined == 0) ≡ false
    → IsOnce (end_inline t e) ops
unfolding end_inline dispose trigger_ops
end_inline-IsOnce t ops e v i = ground (arith, v, i)

await_now-IsOnce :
    (t : Task) (ops : List ℕ) (op : ℕ) → IsOnce t ops → IsOnce (await_now t op) (ops ++ op ∷ [])
unfolding await_now
await_now-IsOnce t ops op v = ground (arith, v, answer_all-append t.result ops (op ∷ []))

step-IsOnce :
    (t : Task) (e : Event) (ops : List ℕ)
    → IsOnce t ops
    → careful t e ≡ true
    → IsOnce (step t e) (ops ++ awaited_by t e)
unfolding step
step-IsOnce t (dispatches part) ops v c =
    rw (append-nil ops)
      (if_cases (λ u. IsOnce u ops) t.ready _ _ (dispatch-IsOnce t ops part v) (λ _. v))
step-IsOnce t (continues defer part) ops v c = rw (append-nil ops) (
    if_cases (λ u. IsOnce u ops) (is_waiting t) _ _ (reschedule-IsOnce t ops defer part v) (λ _. v))
step-IsOnce t (awaits op) ops v c = await_now-IsOnce t ops op v
step-IsOnce t (begins fits) ops v c = rw (append-nil ops) (
    if_cases (λ u. IsOnce u ops) (executes t fits) _ _
      (λ x. begin_inline-IsOnce t ops v (ground (arith, x, c))) (λ _. v))
step-IsOnce t (returns op e) ops v c = elim (Bool-cases (t.inlined == 0)) [
  | inl i ↦ rw i (rw (append-nil ops) v)
  | inr i ↦ rw i (await_now-IsOnce (end_inline t e) ops op (end_inline-IsOnce t ops e v i))
]

run-IsOnce :
    (t : Task) (es : List Event) (ops : List ℕ)
    → IsOnce t ops
    → Careful t es
    → IsOnce (run t es) (ops ++ awaited t es)
unfolding run
run-IsOnce t [] ops v c = rw (append-nil ops) v
run-IsOnce t (e ∷ es) ops v c =
    rw (sym (append_assoc ops (awaited_by t e) (awaited (step t e) es)))
      (run-IsOnce (step t e) es (ops ++ awaited_by t e) (step-IsOnce t e ops v c.0) c.1)

runs_by : (t : Task) (ops : List ℕ) → IsOnce t ops → t.runs ≤ 1
runs_by t ops v = elim (Bool-cases (is_init t.status)) [
  | inl i ↦ ground (arith, v, i)
  | inr i ↦ ground (arith, v, i)
]

-- Over every history of a task in which its function is executed inline only where it was not begun: the
-- function is called at most once; while it has not ended, nobody who awaits the task was answered, and
-- all are listed; once it has ended, each was answered once, in order, with what the function returned or
-- threw, and nobody is listed.
pub run_answers :
    (es : List Event)
    → Careful object_create es
    → let t = run object_create es in
      let ops = awaited object_create es in
      (t.runs ≤ 1)
      × (has_ended t.status ≡ false → (t.answers ≡ []) × (t.operations ≡ ops))
      × (has_ended t.status ≡ true → (t.answers ≡ answer_all t.result ops) × (t.operations ≡ []))
run_answers es c =
    let v = run-IsOnce object_create es [] object_create-IsOnce c in
    (
      runs_by (run object_create es) (awaited object_create es) v,
      λ g. let (a, b, _) = v.going g in (b, a),
      λ o. let (a, b, _) = v.over o in (b, a),
    )
