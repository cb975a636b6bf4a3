-- ===== src/Deferred.antt =====
-- src/deferred.c: the state that a deferred and its awaitables share, and the ways to settle it.
pub mod Settling
pub mod Combining
pub mod Awaitable
use ext_async.Prelude.{
  ℕ, ◌+◌, ◌-◌, ◌%◌, ◌^◌, Bool, true, false, ◌&&◌, List, [], ◌∷◌, ◌++◌, Option, none, some, ◌==◌,
  if◌then◌else◌,
}
use ext_async.Php.{Throwable, fresh, awaitable_disposed, Value, null, error}
use ext_async.Scheduler.{Scheduler, register, unregister, erase}

-- ASYNC_DEFERRED_STATUS_PENDING, …_RESOLVED and …_FAILED
pub data Status : Type 0 where
  pending : Status
  resolved : Status
  failed : Status

abbrev pub is_pending : Status → Bool
is_pending pending = true
is_pending resolved = false
is_pending failed = false

-- `async_deferred_state`, at its address. `cancel` says whether `cancel.object` is set. `context`
-- is the address of the context, and `context_refs` the references that the state holds on it.
pub record State : Type 0 where
  pub address : ℕ
  pub status : Status
  pub refcount : ℕ
  pub file : Option ℕ
  pub line : ℕ
  pub result : Value
  pub scheduler : Scheduler
  pub context : ℕ
  pub context_refs : ℕ
  pub operations : List ℕ
  pub cancel : Bool

-- An operation that was completed, with the status and the result that it was given.
pub record Settled : Type 0 where
  pub op : ℕ
  pub status : Status
  pub result : Value

-- The loop of `trigger_ops`.
pub settle : Status → Value → List ℕ → List Settled
settle status result [] = []
settle resolved result (op ∷ rest) =
    record { op = op; status = resolved; result = result } ∷ settle resolved result rest
settle pending result (op ∷ rest) =
    record { op = op; status = failed; result = result } ∷ settle pending result rest
settle failed result (op ∷ rest) =
    record { op = op; status = failed; result = result } ∷ settle failed result rest

abbrev pub disarm : State → State
disarm st =
    if st.cancel
    then record st { scheduler = unregister st.address st.scheduler; cancel = false }
    else st

pub trigger_ops : State → State × List Settled
unfolding settle
trigger_ops st =
    let st' = disarm st in
    (record st' { operations = [] }, settle st.status st.result st.operations)

-- Called when the scheduler is disposed; `e` is the scheduler's error.
pub shutdown_state : State → Value → State × List Settled
unfolding trigger_ops
shutdown_state st e = trigger_ops (record st { cancel = false; status = failed; result = e })

pub create_state : ℕ → Scheduler → ℕ → State
create_state address scheduler context = record {
  address = address;
  status = pending;
  refcount = 1;
  file = none;
  line = 0;
  result = null;
  scheduler = register address scheduler;
  context = context;
  context_refs = 1;
  operations = [];
  cancel = true;
}

-- A call of user code, with the line it is at and its file's name, if there is one.
pub capture_call_context : State → Option (ℕ × Option ℕ) → State
capture_call_context st none = st
capture_call_context st (some (line, none)) = record st { line = line }
capture_call_context st (some (line, some file)) = record st { file = some file; line = line }

-- The state that lives on, or the scheduler and the completed operations when it is freed.
pub data Released : Type 0 where
  kept : State → Released
  freed : Scheduler → List Settled → Released

-- The branch of `release_state` for a pending state fails the operations without setting the
-- status, which stays pending.
pub release_state : State → Released
unfolding settle
release_state st =
    let refcount = (st.refcount + 2 ^ 32 - 1) % 2 ^ 32 in
    if refcount == 0
    then freed (disarm st).scheduler (
        if is_pending st.status && not_empty st.operations
        then settle failed (error (fresh awaitable_disposed)) st.operations
        else [])
    else kept (record st { refcount = refcount })
  where
    not_empty : List ℕ → Bool
    not_empty [] = false
    not_empty (op ∷ ops) = true

-- `deferred_await_delegate`: the status and the result for the caller, unless it has to wait.
pub await_delegate : State → Option (Status × Value)
await_delegate st = if is_pending st.status then none else some (st.status, st.result)

-- `deferred_await_schedule`
pub await_schedule : State → ℕ → State
await_schedule st op = record st { operations = st.operations ++ op ∷ [] }

-- `async_deferred_awaitable_object_create` and `Deferred::awaitable`
pub awaitable_object_create : State → State
awaitable_object_create st = record st { refcount = (st.refcount + 1) % 2 ^ 32 }

-- `async_deferred` with its state. `cancel` says whether `cancel.object` is set, `has_callback`
-- whether the constructor got a cancel callback, and `callbacks` is the list of the context's
-- cancellation, by address.
pub record Deferred : Type 0 where
  pub address : ℕ
  pub state : State
  pub cancel : Bool
  pub has_callback : Bool
  pub callbacks : List ℕ

pub cleanup_cancel : Deferred → Deferred
cleanup_cancel d =
    if d.cancel && d.has_callback
    then record d { callbacks = erase d.address d.callbacks; cancel = false }
    else d

-- The end of `resolve` and of `fail`, which differ in the status.
abbrev pub settle_as : Deferred → Status → Value → Deferred × List Settled
settle_as d status result =
    let d' =
      cleanup_cancel (record d { state = record (d.state) { status = status; result = result } }) in
    let (st, done) = trigger_ops d'.state in (record d' { state = st }, done)

-- The argument of `resolve`; `awaitable` is an object that implements Awaitable.
pub data Argument : Type 0 where
  absent : Argument
  awaitable : ℕ → Argument
  given : Value → Argument

-- What `resolve` does when its argument is no awaitable.
abbrev pub resolve_pending : Deferred → Value → Deferred × List Settled
resolve_pending d v = if is_pending d.state.status then settle_as d resolved v else (d, [])

-- `Deferred::resolve`: whether it throws, the deferred and the completed operations. Without an
-- argument the result stays the one of `create_state`.
pub resolve : Deferred → Argument → Bool × (Deferred × List Settled)
unfolding cleanup_cancel trigger_ops
resolve d (awaitable a) = (true, (d, []))
resolve d absent = (false, resolve_pending d d.state.result)
resolve d (given v) = (false, resolve_pending d v)

-- `Deferred::fail`
pub fail : Deferred → Throwable → Deferred × List Settled
unfolding cleanup_cancel trigger_ops
fail d e = if is_pending d.state.status then settle_as d failed (error e) else (d, [])

-- `async_deferred_object_destroy`
pub object_destroy : Deferred → List Settled × Released
unfolding cleanup_cancel trigger_ops release_state
object_destroy d =
    let d' = cleanup_cancel d in
    if is_pending d'.state.status
    then (let (st, done) =
          trigger_ops
            (record (d'.state) { status = failed; result = error (fresh awaitable_disposed) }) in
        (done, release_state st))
    else ([], release_state d'.state)
