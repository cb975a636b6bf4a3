-- ===== src/Deferred/Combining.antt =====
-- src/deferred.c, `combine_cb`: the callback of `Deferred::combine`, once for each awaitable. The
-- user's continuation is a parameter: what it does to the deferred, and what it throws; the callbacks of
-- further awaitables may run inside it.
pub mod Counting
use ext_async.Prelude.{
  ℕ, suc, ◌+◌, ◌-◌, ◌%◌, ◌^◌, Bool, true, false, List, [], ◌∷◌, ◌++◌, Option, none, some, ◌==◌,
  if◌then◌else◌,
}
use ext_async.Php.{Throwable, fresh, awaitable_disposed, Value, null, error}
use ext_async.Deferred.{Deferred, Settled, Status, resolved, failed, is_pending, trigger_ops}

-- `async_defer_combine`. `released` says whether the structure has been freed.
pub record Combine : Type 0 where
  pub deferred : Deferred
  pub counter : ℕ
  pub started : ℕ
  pub released : Bool

-- What the continuation gets beside the deferred: whether it is the last call, the key, and the
-- error and the result of the awaitable, one of them NULL.
pub record Arguments : Type 0 where
  pub last : Bool
  pub key : Value
  pub failure : Value
  pub result : Value

-- An awaitable that was resolved or failed, under its key.
pub record Arrival : Type 0 where
  pub key : Value
  pub status : Status
  pub result : Value

abbrev pub arguments : Bool → Arrival → Arguments
arguments last a = elim a.status [
  | resolved ↦ record { last = last; key = a.key; failure = null; result = a.result }
  | _ ↦ record { last = last; key = a.key; failure = a.result; result = null }
]

-- Fail the deferred if it is pending; here the cancel callback stays where it is.
pub fail_pending : Deferred → Throwable → Deferred × List Settled
unfolding trigger_ops
fail_pending d e =
    let (st, done) = trigger_ops (record (d.state) { status = failed; result = error e }) in
    if is_pending d.state.status then (record d { state = st }, done) else (d, [])

abbrev pub fail_thrown : Deferred → Option Throwable → Deferred × List Settled
fail_thrown d none = (d, [])
fail_thrown d (some e) = fail_pending d e

abbrev pub decrement : ℕ → ℕ
decrement n = (n + 2 ^ 32 - 1) % 2 ^ 32

-- `combine_cb` up to the call of the continuation, whose arguments it returns.
pub begin_cb : Combine → Arrival → Arguments × Combine
begin_cb c a =
    let started = decrement c.started in
    (arguments (started == 0) a, record c { started = started })

-- `combine_cb` from the return of the continuation on, which did to the deferred what `returned` has and
-- may have thrown: the structure, and the operations that are completed.
pub end_cb : Combine → Deferred → Option Throwable → Combine × List Settled
unfolding fail_pending
end_cb c returned thrown =
    let (d, done) = fail_thrown returned thrown in
    let counter = decrement c.counter in
    let (d', done') = fail_pending d (fresh awaitable_disposed) in
    if counter == 0
    then (record c { deferred = d'; counter = counter; released = true }, done ++ done')
    else (record c { deferred = d; counter = counter }, done)

-- What happens at a combined awaitable. A continuation may settle further awaitables, whose callbacks
-- begin before it returns; and where it exits the program, `combine_cb` returns at once, after what it
-- did to the deferred.
pub data Event : Type 0 where
  begins : Arrival → Event
  returns : (Deferred → Deferred) → Option Throwable → Event
  exits : (Deferred → Deferred) → Event

-- The structure, how many continuations run, and what the calls were told about being the last one.
pub record Run : Type 0 where
  pub combine : Combine
  pub running : ℕ
  pub flags : List Bool

pub step : Run → Event → Run
unfolding begin_cb end_cb
step r (begins a) =
    let (args, c) = begin_cb r.combine a in
    record { combine = c; running = r.running + 1; flags = r.flags ++ args.last ∷ [] }
step r (returns f thrown) = record r {
  combine = (end_cb r.combine (f r.combine.deferred) thrown).0;
  running = r.running - 1;
}
step r (exits f) = record r {
  combine = record (r.combine) { deferred = f r.combine.deferred };
  running = r.running - 1;
}

unfoldable pub run : Run → List Event → Run
unfolding step
run r [] = r
run r (e ∷ es) = run (step r e) es
