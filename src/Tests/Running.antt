-- ===== src/Tests/Running.antt =====
-- Tasks at concrete inputs.
use ext_async.Prelude.{ℕ, ◌+◌, ◌≡◌, refl, true, false, List, [], ◌∷◌, ◌++◌, ◌≤◌}
use ext_async.Php.{opaque}
use ext_async.Tasks
use ext_async.Tasks.{
  Task, object_create, returned, dispatches, continues, awaits, begins, returns, awaits_op,
  awaits_val, ends, has_ended, answer_all,
}
use ext_async.Tasks.Once.{Careful, awaited, run_answers}
use ext_async.Tasks.Again.{IsInlined, inlined_again}

-- The task waits twice in its fiber, ends, and is awaited before, meanwhile and after.
abbrev in_fiber : List Tasks.Event
in_fiber =
    awaits 1
    ∷ dispatches awaits_op
    ∷ awaits 2
    ∷ continues true awaits_val
    ∷ dispatches awaits_val
    ∷ continues false (ends (returned (opaque 7)))
    ∷ awaits 3
    ∷ []

-- The first who awaits the task executes it; another one awaits it meanwhile.
abbrev executed_inline : List Tasks.Event
executed_inline =
    begins true ∷ awaits 1 ∷ returns 2 (returned (opaque 7)) ∷ begins false ∷ awaits 3 ∷ []

answers_all :
    (Tasks.run object_create in_fiber).answers ≡ answer_all (returned (opaque 7)) (1 ∷ 2 ∷ 3 ∷ [])
unfolding Tasks.run Tasks.step Tasks.dispatch Tasks.reschedule Tasks.await_now Tasks.enqueue
    Tasks.finish Tasks.dispose Tasks.trigger_ops object_create answer_all
answers_all = refl

executed_inline-Careful : Careful object_create executed_inline
unfolding Tasks.step Tasks.begin_inline Tasks.end_inline Tasks.await_now Tasks.dispose
    Tasks.trigger_ops object_create Tasks.enqueue
executed_inline-Careful = (refl, (refl, (refl, (refl, (refl, tt)))))

run_answers_example :
    let t = Tasks.run object_create executed_inline in
    let ops = awaited object_create executed_inline in
    (t.runs ≤ 1)
    × (has_ended t.status ≡ false → (t.answers ≡ []) × (t.operations ≡ ops))
    × (has_ended t.status ≡ true → (t.answers ≡ answer_all t.result ops) × (t.operations ≡ []))
run_answers_example = run_answers executed_inline executed_inline-Careful

abbrev inlined : Task
unfolding Tasks.run Tasks.step
inlined = Tasks.run object_create executed_inline

inlined-IsInlined : IsInlined inlined
unfolding Tasks.run Tasks.step Tasks.begin_inline Tasks.end_inline Tasks.await_now Tasks.dispose
    Tasks.trigger_ops object_create Tasks.enqueue
inlined-IsInlined = record { fiber = refl; disposed = refl; ready = refl }

inlined_again_example :
    let t' = Tasks.run inlined (begins true ∷ awaits 5 ∷ returns 4 (returned (opaque 8)) ∷ []) in
    (t'.runs ≡ inlined.runs + 1)
    × (t'.result ≡ returned (opaque 8))
    × (t'.answers ≡ inlined.answers ++ answer_all (returned (opaque 8)) (4 ∷ []))
    × (ops : List ℕ) × ((Tasks.run t' in_fiber).operations ≡ 5 ∷ ops)
unfolding Tasks.run Tasks.step Tasks.begin_inline Tasks.end_inline Tasks.await_now Tasks.dispose
    Tasks.trigger_ops object_create Tasks.enqueue
inlined_again_example =
    inlined_again inlined 4 5 (returned (opaque 8)) in_fiber inlined-IsInlined refl refl refl
