-- ===== src/Await.antt =====
-- src/task.c, `async_await_op` in a task and the callbacks that continue it; php_async.h, `async_op`
-- and the macros that complete it. The model follows one operation, the task that awaits it and the
-- flags of the scheduler. A completion comes from the holder of the operation, which completes it
-- while it is in a list, and so once; after the return the operation is its owner's again.
pub mod Invariant
pub mod Waking
use ext_async.Prelude.{
  ℕ, zero, suc, ◌+◌, ◌-◌, Bool, true, false, not, ◌&&◌, ◌||◌, List, [], ◌∷◌, ◌++◌, Option, none,
  some, ◌==◌, if◌then◌else◌,
}

-- `async_status`
pub data OpStatus : Type 0 where
  pending : OpStatus
  running : OpStatus
  resolved : OpStatus
  failed : OpStatus

-- `task->status`
pub data TaskStatus : Type 0 where
  init : TaskStatus
  suspended : TaskStatus
  active : TaskStatus
  ended : TaskStatus

abbrev pub is_running : OpStatus → Bool
is_running pending = false
is_running running = true
is_running resolved = false
is_running failed = false

abbrev pub is_resolved : OpStatus → Bool
is_resolved pending = false
is_resolved running = false
is_resolved resolved = true
is_resolved failed = false

abbrev pub is_active : TaskStatus → Bool
is_active init = false
is_active suspended = false
is_active active = true
is_active ended = false

-- Whether `async_task_scheduler_enqueue` queues a task of this status.
abbrev pub is_queueable : TaskStatus → Bool
is_queueable init = true
is_queueable suspended = true
is_queueable active = false
is_queueable ended = false

-- `async_op`. A result is a number; `listed` says whether `list` is set, `object` whether
-- `cancel.object` is.
pub record Op : Type 0 where
  pub status : OpStatus
  pub result : Option ℕ
  pub cancelled : Bool
  pub defer : Bool
  pub atomic : Bool
  pub listed : Bool
  pub object : Bool

-- The errors of ASYNC_OP_CHECK_ERROR, and the one that the context was cancelled with.
pub data Refusal : Type 0 where
  context_cancelled : ℕ → Refusal
  not_running : Refusal
  task_destroyed : Refusal
  scheduler_disposed : Refusal
  scheduler_stopped : Refusal

-- How `async_await_op` ends: SUCCESS or FAILURE with the result of the operation, a refusal, which is
-- a FAILURE, too, or `zend_bailout`.
pub data Outcome : Type 0 where
  success : Option ℕ → Outcome
  failure : Option ℕ → Outcome
  refused : Refusal → Outcome
  bailout : Outcome

-- The cancellation of the context: none, or whether it was triggered, and its error. `registered` says
-- whether the callback of the operation is in its list, `ready` how often the task is in
-- `scheduler->ready`, and `resumed` how often its fiber was switched to.
pub record Wait : Type 0 where
  pub op : Op
  pub cancel : Option (Bool × ℕ)
  pub registered : Bool
  pub task_status : TaskStatus
  pub task_disposed : Bool
  pub disposed : Bool
  pub stopped : Bool
  pub ready : ℕ
  pub resumed : ℕ
  pub outcome : Option Outcome

abbrev pub has : Option (Bool × ℕ) → Bool
has none = false
has (some c) = true

abbrev pub cancellable : Wait → Bool
cancellable s = not s.op.atomic && has s.cancel

abbrev pub refuse : Wait → Refusal → Wait
refuse s r = record s { op = record s.op { status = failed }; outcome = some (refused r) }

-- `async_await_op` in a task, up to the point where the fiber suspends itself.
abbrev pub arm : Wait → Wait
arm s = record s {
  registered = cancellable s;
  op = record s.op { status = running; result = none; object = cancellable s; listed = true };
  task_status = suspended;
}

abbrev pub checked : Wait → Wait
checked s =
    if not (is_active s.task_status)
    then refuse s not_running
    else if s.task_disposed
    then refuse s task_destroyed
    else if s.disposed
    then refuse s scheduler_disposed
    else if s.stopped
    then refuse s scheduler_stopped
    else arm s

abbrev pub await_with : Bool → Option (Bool × ℕ) → Wait → Wait
await_with atomic none s = checked s
await_with atomic (some (triggered, err)) s =
    if not atomic && triggered then refuse s (context_cancelled err) else checked s

pub await_op : Wait → Wait
await_op s = await_with s.op.atomic s.cancel s

-- The rest of `async_await_op`, which runs when the fiber is switched to.
pub resume : Wait → Wait
resume s = record s {
  task_status = active;
  resumed = s.resumed + 1;
  registered = if s.op.object then false else s.registered;
  op = record s.op { object = false };
  outcome = some (
      if s.stopped
      then bailout
      else if is_resolved s.op.status
      then success s.op.result
      else failure s.op.result);
}

-- `async_task_scheduler_enqueue` for a task that is not the root.
pub enqueue : Wait → Wait
enqueue s = if is_queueable s.task_status then record s { ready = s.ready + 1 } else s

-- `reschedule_task`
pub reschedule_task : Wait → Wait
unfolding enqueue resume
reschedule_task s = if s.op.defer then enqueue s else resume s

-- `continue_op_task`
pub continue_op_task : Wait → Wait
unfolding reschedule_task
continue_op_task s = if s.op.cancelled then s else reschedule_task s

-- ASYNC_RESOLVE_OP and ASYNC_FAIL_OP, by the status that they set.
pub complete_op : Wait → OpStatus → ℕ → Wait
unfolding continue_op_task
complete_op s status value =
    continue_op_task
      (record s { op = record s.op { listed = false; result = some value; status = status } })

-- `cancel_op`
pub cancel_op : Wait → ℕ → Wait
unfolding reschedule_task
cancel_op s err =
    if is_running s.op.status
    then reschedule_task (record s {
      op = record s.op { result = some err; status = failed; cancelled = true; object = false };
    })
    else s

-- What may happen to a task that awaits: the operation succeeds or fails, its context is cancelled,
-- the scheduler is stopped by an error, or it runs the tasks that are ready.
pub data Event : Type 0 where
  resolves : ℕ → Event
  fails : ℕ → Event
  cancels : ℕ → Event
  stops : Event
  dispatches : Event

-- The loop over the callbacks of a cancellation takes one off the list and calls it.
abbrev pub on_cancel : Wait → ℕ → Wait
on_cancel s err = if s.registered then cancel_op (record s { registered = false }) err else s

-- `dispatch_tasks` for the one task, which has a fiber.
pub dispatch : Wait → Wait
unfolding resume
dispatch s = if 0 == s.ready then s else resume (record s { ready = s.ready - 1 })

abbrev pub is_some : Option Outcome → Bool
is_some none = false
is_some (some a) = true

pub occur : Wait → Event → Wait
unfolding complete_op cancel_op dispatch
occur s (resolves v) = if s.op.listed then complete_op s resolved v else s
occur s (fails v) = if s.op.listed then complete_op s failed v else s
occur s (cancels err) = on_cancel s err
occur s stops = record s { stopped = true }
occur s dispatches = dispatch s

-- After the return nothing happens to the wait any more.
pub step : Wait → Event → Wait
unfolding occur
step s e = if is_some s.outcome then s else occur s e

pub run : Wait → List Event → Wait
unfolding step
run s [] = s
run s (e ∷ es) = run (step s e) es
