-- ===== src/Tasks.antt =====
-- src/task.c: one task from its creation to its end, as the ready queue, the tasks that await it and its
-- own fiber see it. Running a part of its function is one step, whose outcome is a parameter: it ends the
-- function, or the function waits for something. `runs` counts how often the function was called,
-- `inlined` the calls of `async_task_execute_inline` that have not returned, and `answers` are the
-- operations that were completed.
pub mod Once
pub mod Again
use ext_async.Prelude.{
  ℕ, zero, suc, ◌+◌, ◌-◌, ◌==◌, Bool, true, false, not, ◌&&◌, ◌||◌, List, [], ◌∷◌, ◌++◌, map,
  Option, none, some, if◌then◌else◌,
}
use ext_async.Php.{Value, null, Completion, resolve, fail, Throwable}
use ext_async.Await.{TaskStatus, init, suspended, active, ended, is_queueable}

pub data Ending : Type 0 where
  returned : Value → Ending
  raised : Throwable → Ending

-- What `ASYNC_RESOLVE_OP` and `ASYNC_FAIL_OP` do with the result of a task.
abbrev pub answer : Ending → ℕ → Completion
answer (returned v) op = resolve op v
answer (raised e) op = fail op e

unfoldable pub answer_all : Ending → List ℕ → List Completion
answer_all e [] = []
answer_all e (op ∷ ops) = answer e op ∷ answer_all e ops

-- `async_task`; `fiber` says whether it has one, `ready` whether the task stands in the ready queue.
-- The status is `ended` with what the function returned, or threw.
pub record Task : Type 0 where
  pub status : TaskStatus
  pub result : Ending
  pub fiber : Bool
  pub disposed : Bool
  pub ready : Bool
  pub operations : List ℕ
  pub runs : ℕ
  pub inlined : ℕ
  pub answers : List Completion

abbrev pub has_ended : TaskStatus → Bool
has_ended init = false
has_ended suspended = false
has_ended active = false
has_ended ended = true

-- `async_task_scheduler_enqueue` for a task that is not the root.
unfoldable pub enqueue : Task → Task
enqueue t = if is_queueable t.status then record t { ready = true } else t

-- `async_task_object_create`
unfoldable pub object_create : Task
unfolding enqueue
object_create = enqueue (record {
  status = init;
  result = returned null;
  fiber = false;
  disposed = false;
  ready = false;
  operations = [];
  runs = 0;
  inlined = 0;
  answers = [];
})

-- `trigger_ops`, for a task that has ended.
unfoldable pub trigger_ops : Task → Task
trigger_ops t = record t {
  operations = [];
  answers = t.answers ++ answer_all t.result t.operations;
}

-- `async_task_dispose`
unfoldable pub dispose : Task → Task
unfolding trigger_ops
dispose t = if t.disposed then t else trigger_ops (record t { disposed = true })

-- The end of `task_run_opcode_handler`: the function has returned or thrown.
unfoldable pub finish : Task → Ending → Task
unfolding trigger_ops
finish t e = trigger_ops (record t { status = ended; result = e })

-- A part of the function runs in the task's fiber: it ends, or waits by `async_await_op`, which marks
-- the task as suspended, or by `await_val`, which does not.
pub data Part : Type 0 where
  ends : Ending → Part
  awaits_op : Part
  awaits_val : Part

abbrev pub run_part : Task → Part → Task
unfolding finish
run_part t (ends e) = finish t e
run_part t awaits_op = record t { status = suspended }
run_part t awaits_val = t

abbrev pub dispose_ended : Task → Task
unfolding dispose
dispose_ended t = if has_ended t.status then dispose t else t

-- The round of `dispatch_tasks` for the task, while the scheduler has no error.
unfoldable pub dispatch : Task → Part → Task
unfolding dispose_ended
dispatch t part = dispose_ended (
    if t.fiber
    then run_part (record t { ready = false; status = active }) part
    else run_part (record t { ready = false; fiber = true; status = active; runs = t.runs + 1 })
        part)

-- `reschedule_task`, when an operation that the task awaits is completed: `defer` is its flag
-- ASYNC_OP_FLAG_DEFER.
unfoldable pub reschedule : Task → Bool → Part → Task
unfolding enqueue dispose_ended
reschedule t defer part =
    if defer then enqueue t else dispose_ended (run_part (record t { status = active }) part)

-- `async_task_execute_inline`, up to the call of the function, and from its return on.
unfoldable pub begin_inline : Task → Task
begin_inline t = record t {
  ready = false;
  status = active;
  runs = t.runs + 1;
  inlined = t.inlined + 1;
}

unfoldable pub end_inline : Task → Ending → Task
unfolding dispose
end_inline t e = dispose (record t { status = ended; result = e; inlined = t.inlined - 1 })

-- `await_val` for the task: `task_await_delegate`, after the function was executed inline if it was, and
-- `task_await_schedule`.
unfoldable pub await_now : Task → ℕ → Task
await_now t op =
    if has_ended t.status
    then record t { answers = t.answers ++ answer_all t.result (op ∷ []) }
    else record t { operations = t.operations ++ op ∷ [] }

-- Whether `task_await_delegate` executes the function; `fits` says that the stack of the caller is large
-- enough.
abbrev pub executes : Task → Bool → Bool
executes t fits = not t.fiber && fits

pub data Event : Type 0 where
  dispatches : Part → Event
  continues : Bool → Part → Event
  awaits : ℕ → Event
  begins : Bool → Event
  returns : ℕ → Ending → Event

-- Whether the fiber of the task waits, between two parts of its function.
abbrev pub is_waiting : Task → Bool
is_waiting t = t.fiber && (not (has_ended t.status) && not t.ready)

-- `awaits` is an `await_val` that does not execute the function. One that does is two events, since the
-- function may wait in between: it begins, and returns to the caller, which awaits by an operation.
unfoldable pub step : Task → Event → Task
unfolding dispatch reschedule begin_inline end_inline await_now
step t (dispatches part) = if t.ready then dispatch t part else t
step t (continues defer part) = if is_waiting t then reschedule t defer part else t
step t (awaits op) = await_now t op
step t (begins fits) = if executes t fits then begin_inline t else t
step t (returns op e) = if t.inlined == 0 then t else await_now (end_inline t e) op

unfoldable pub run : Task → List Event → Task
unfolding step
run t [] = t
run t (e ∷ es) = run (step t e) es
