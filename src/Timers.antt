-- ===== src/Timers.antt =====
-- src/event.c, `TimerEvent`. The model counts the references that the extension itself holds on the
-- object. `active` and `repeats` say what libuv knows of the timer, `closing` that `uv_close` was called
-- and `close_timer` not yet, `released` that it was.
pub mod Holding
use ext_async.Prelude.{
  ℕ, ◌+◌, ◌-◌, Bool, true, false, not, ◌&&◌, ◌||◌, List, [], ◌∷◌, Option, none, some, ◌==◌,
  if◌then◌else◌,
}
use ext_async.Php.{ℤ, pos, negsuc}

-- `async_timer_event`; `registered` says whether `shutdown.func` is set.
pub record Timer : Type 0 where
  pub scheduled : Bool
  pub periodic : Bool
  pub closed : Bool
  pub registered : Bool
  pub delay : ℕ
  pub active : Bool
  pub repeats : Bool
  pub closing : Bool
  pub released : Bool
  pub refs : ℕ

-- `async_timer_event_object_create`
pub object_create : Timer
object_create = record {
  scheduled = false;
  periodic = false;
  closed = false;
  registered = true;
  delay = 0;
  active = false;
  repeats = false;
  closing = false;
  released = false;
  refs = 0;
}

abbrev pub unschedule : Timer → Timer
unschedule t = if t.scheduled then record t { scheduled = false; refs = t.refs - 1 } else t

-- ASYNC_UV_TRY_CLOSE_REF
abbrev pub try_close : Timer → Timer
try_close t =
    if t.closing || t.released
    then t
    else record t { closing = true; active = false; refs = t.refs + 1 }

pub shutdown_timer : Timer → Timer
shutdown_timer t = unschedule (try_close (record t { registered = false; closed = true }))

-- `TimerEvent::close`
pub close : Timer → Timer
unfolding shutdown_timer
close t =
    if t.closed
    then t
    else if t.registered
    then shutdown_timer (record t { closed = true })
    else record t { closed = true }

abbrev pub schedule : Timer → Timer
schedule t = if t.scheduled then t else record t { scheduled = true; refs = t.refs + 1 }

-- `TimerEvent::start`, which throws on a negative delay and on a closed timer.
pub start : Timer → ℤ → Bool → Timer
start t (negsuc n) periodic = t
start t (pos delay) periodic =
    if t.closed
    then t
    else schedule (record t {
      delay = delay;
      periodic = periodic;
      active = true;
      repeats = periodic && not (delay == 0);
    })

-- `TimerEvent::stop`, which throws on a closed timer.
pub stop : Timer → Timer
stop t = if t.closed then t else unschedule (record t { active = false })

-- The methods that the callback of a timer or others may call, and the disposal of the scheduler, which
-- calls `shutdown_timer` while it is registered.
pub data Call : Type 0 where
  starts : ℤ → Bool → Call
  stops : Call
  closes : Call
  disposes : Call

pub call : Timer → Call → Timer
unfolding start stop close shutdown_timer
call t (starts delay periodic) = start t delay periodic
call t stops = stop t
call t closes = close t
call t disposes = if t.registered then shutdown_timer t else t

pub calls : Timer → List Call → Timer
unfolding call
calls t [] = t
calls t (c ∷ cs) = calls (call t c) cs

-- `timer_cb`, which libuv calls of an active timer. The timer of libuv stays active if it repeats.
pub timer_cb : Timer → List Call → Timer
unfolding calls
timer_cb t cs =
    let held = record t { active = t.repeats; refs = t.refs + 1 } in
    let once = record held { scheduled = false; refs = held.refs - 1 } in
    let after = calls (if held.periodic then held else once) cs in
    record after { refs = after.refs - 1 }

-- `close_timer`
pub close_timer : Timer → Timer
close_timer t = record t { closing = false; released = true; refs = t.refs - 1 }

pub data Event : Type 0 where
  calls_method : Call → Event
  fires : List Call → Event
  closed_by_uv : Event

pub step : Timer → Event → Timer
unfolding call timer_cb close_timer
step t (calls_method c) = call t c
step t (fires cs) = if t.active then timer_cb t cs else t
step t closed_by_uv = if t.closing then close_timer t else t

pub run : Timer → List Event → Timer
unfolding step
run t [] = t
run t (e ∷ es) = run (step t e) es
