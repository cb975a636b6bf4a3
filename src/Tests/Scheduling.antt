-- ===== src/Tests/Scheduling.antt =====
-- Tick events, fibers, awaiting tasks and the busy count at concrete inputs.
use ext_async.Prelude.{
  ℕ, ◌+◌, ◌≡◌, refl, true, false, List, [], ◌∷◌, none, some, arith, ◌==◌, if◌then◌else◌,
}
use ext_async.Scheduler.{Scheduler, enters, exits, turns, balance, turns-IsBalanced, IsBalanced}
use ext_async.Ticks.{
  Ticks, nowhere, ticking, Call, creates, closes, starts, unrefs, steps, Callback, returns, turn,
}
use ext_async.Ticks.Invariant.{IsCounted, steps-IsCounted}
use ext_async.Ticks.Running.{Settles, turn_lem}
use ext_async.Php.{pos}
use ext_async.Timers
use ext_async.Timers.{Timer, fires, closed_by_uv}
use ext_async.Timers.Holding.{IsHeld, run-IsHeld}
use ext_async.Watcher
use ext_async.Watcher.{Watcher, trigger}
use ext_async.Watcher.Triggering.{all_again, run-triggers}
use ext_async.Fibers.{Fibers, Nested, done, calls}
use ext_async.Await.{
  Wait, pending, active, resolves, cancels, dispatches, await_op, run, step, is_some,
}
use ext_async.Await.Waking.{IsFree, await_wakes}

-- The events 1 and 2 are scheduled, and 2 is not referenced.
abbrev ticks : Ticks
ticks = record {
  events = λ i. record {
    referenced = if i == 2 then false else true;
    closed = false;
    place = if i == 1 then ticking else if i == 2 then ticking else nowhere;
  };
  ticks = 1 ∷ 2 ∷ [];
  running = [];
  refticks = 1;
  active = false;
  stopped = false;
  failed = false;
}

ticks-IsCounted : IsCounted ticks
ticks-IsCounted = record {
  refs_counted = refl;
  in_ticks = λ i. ground arith;
  in_running = λ i. ground arith;
}

abbrev tick_calls : List Call
tick_calls = creates 3 ∷ unrefs 1 ∷ closes 2 ∷ starts 2 ∷ []

steps-IsCounted_example : IsCounted (steps ticks tick_calls)
steps-IsCounted_example = steps-IsCounted ticks tick_calls ticks-IsCounted

-- Every callback starts its own event again and closes the second one.
abbrev callback : Callback
callback s i = (starts i ∷ closes 2 ∷ [], returns)

turn_lem_example : Settles 2 (turn callback ticks)
turn_lem_example = turn_lem callback ticks refl ticks-IsCounted

-- A timer that was started, and whose callback starts and closes it.
abbrev timer : Timer
timer = record {
  scheduled = true;
  periodic = false;
  closed = false;
  registered = true;
  delay = 5;
  active = true;
  repeats = false;
  closing = false;
  released = false;
  refs = 1;
}

abbrev timer_history : List Timers.Event
timer_history =
    fires (Timers.starts (pos 3) true ∷ Timers.closes ∷ []) ∷ closed_by_uv ∷ fires [] ∷ []

run-IsHeld_example : IsHeld 0 (Timers.run timer timer_history)
run-IsHeld_example = run-IsHeld timer timer_history (ground arith)

-- Two tasks wait for a timer.
abbrev watcher : Watcher
watcher = record {
  error = none;
  waiting = 1 ∷ 2 ∷ [];
  active = true;
  closing = false;
  registered = true;
  ref_count = 2;
}

abbrev again : ℕ → List ℕ
again op = (op + 10) ∷ []

waiting_three : (Watcher.run watcher (Watcher.awaits false 3 ∷ [])).waiting ≡ 1 ∷ 2 ∷ 3 ∷ []
unfolding Watcher.run Watcher.step Watcher.await
waiting_three = refl

run-triggers_example :
    let u = Watcher.run watcher (Watcher.awaits false 3 ∷ []) in
    let (woken, u') = trigger u again in
    (u.active ≡ true) × (woken ≡ u.waiting) × (u'.waiting ≡ all_again again u.waiting)
run-triggers_example =
    run-triggers watcher (Watcher.awaits false 3 ∷ []) again (1 ∷ 2 ∷ []) 3 (ground arith)
      waiting_three (ground arith)

-- The fiber 1 runs, and 9 waits.
abbrev fibers : Fibers
fibers = record {
  current = 1;
  runner = 0;
  fibers = 9 ∷ [];
  queued = λ i. if i == 9 then true else false;
}

abbrev switches_inside : Nested
switches_inside = calls 2 (calls 3 done done) (calls 2 done done)

abbrev task : Wait
task = record {
  op = record {
    status = pending;
    result = none;
    cancelled = false;
    defer = true;
    atomic = false;
    listed = false;
    object = false;
  };
  cancel = some (false, 7);
  registered = false;
  task_status = active;
  task_disposed = false;
  disposed = false;
  stopped = false;
  ready = 0;
  resumed = 0;
  outcome = none;
}

task-IsFree : IsFree task
task-IsFree = record {
  runs = refl;
  lives = refl;
  clean = refl;
  alone = (refl, refl);
  ready_to_start = refl;
}

await_wakes_example :
    let t = step (run (await_op task) (cancels 7 ∷ resolves 4 ∷ [])) dispatches in
    (t.resumed ≡ 1) × (is_some t.outcome ≡ true) × (t.ready ≡ 0)
await_wakes_example = await_wakes task (cancels 7 ∷ resolves 4 ∷ []) task-IsFree refl

abbrev idle : Scheduler
idle = record { busy_count = 0; busy_ref = false; shutdown = [] }

idle-IsBalanced : IsBalanced idle
idle-IsBalanced = ground arith

balance_idle : balance 0 (enters ∷ enters ∷ exits ∷ []) ≡ some 1
unfolding balance
balance_idle = refl

turns-IsBalanced_example :
    let s = turns idle (enters ∷ enters ∷ exits ∷ []) in IsBalanced s × (s.busy_count ≡ 1)
turns-IsBalanced_example =
    turns-IsBalanced idle (enters ∷ enters ∷ exits ∷ []) 1 balance_idle idle-IsBalanced
