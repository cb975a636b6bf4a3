-- ===== src/Watcher.antt =====
-- src/watcher/timer.c, `Timer`, and src/watcher/signal.c, `Signal`: tasks wait in a list until libuv
-- triggers the watcher. A task that is resumed by a trigger may wait again at once; that it cancels
-- others that wait is not modelled. `again op` are the operations that the task of `op` then awaits.
-- A timer has a positive delay: libuv repeats it until it is stopped.
pub mod Triggering
use ext_async.Prelude.{
  ℕ, zero, suc, ◌+◌, ◌-◌, ◌%◌, ◌^◌, Bool, true, false, not, ◌&&◌, ◌||◌, List, [], ◌∷◌, ◌++◌, map,
  Option, none, some, ◌==◌, if◌then◌else◌, is_nil, length,
}
use ext_async.Php.{Value, error, Completion, finish, fail, Throwable}

-- `async_timer` and `async_signal`; `active` says whether libuv will trigger the handle, `closing`
-- whether `uv_close` was called, `registered` whether `cancel.func` is set.
pub record Watcher : Type 0 where
  pub error : Option Throwable
  pub waiting : List ℕ
  pub active : Bool
  pub closing : Bool
  pub registered : Bool
  pub ref_count : ℕ

-- `async_timer_object_create`, and `Signal::__construct` for a valid number.
pub create : Watcher
create = record {
  error = none;
  waiting = [];
  active = false;
  closing = false;
  registered = true;
  ref_count = 0;
}

abbrev pub is_none : Option Throwable → Bool
is_none none = true
is_none (some e) = false

-- `Timer::awaitTimeout` and `Signal::awaitSignal` up to the suspension; a closed watcher throws.
unfoldable pub await : Watcher → Bool → ℕ → Watcher
await w background op =
    if is_none w.error
    then record w {
      active = if is_nil w.waiting && not w.active then true else w.active;
      waiting = w.waiting ++ op ∷ [];
      ref_count = if background then w.ref_count else (w.ref_count + 1) % 2 ^ 8;
    }
    else w

-- ASYNC_UNREF_EXIT, which follows the suspension.
pub resumed : Watcher → Bool → Watcher
resumed w background = record w {
  ref_count = if background then w.ref_count else (w.ref_count + 2 ^ 8 - 1) % 2 ^ 8;
}

-- The loop of `trigger_timer` and of `trigger_signal` up to the operation that was the last one at its
-- start, with fuel for its rounds: what it finished, and what waits afterwards.
pub trigger_loop : ℕ → (ℕ → List ℕ) → ℕ → List ℕ → List ℕ × List ℕ
trigger_loop zero again last ops = ([], ops)
trigger_loop (suc fuel) again last [] = ([], [])
trigger_loop (suc fuel) again last (op ∷ ops) =
    let (done, left) = trigger_loop fuel again last (ops ++ again op) in
    if op == last then (op ∷ [], ops ++ again op) else (op ∷ done, left)

abbrev pub last_of : List ℕ → ℕ → ℕ
last_of [] d = d
last_of (x ∷ xs) d = last_of xs x

abbrev pub stop_idle : Watcher → Watcher
stop_idle w = if is_nil w.waiting && not w.closing then record w { active = false } else w

-- `trigger_timer`, and `trigger_signal` while there is no error: after an error no task waits.
pub trigger : Watcher → (ℕ → List ℕ) → List ℕ × Watcher
unfolding trigger_loop
trigger w again =
    let (done, left) = trigger_loop (length w.waiting) again (last_of w.waiting 0) w.waiting in
    if is_none w.error then (done, stop_idle (record w { waiting = left })) else ([], stop_idle w)

-- `shutdown_timer` and `shutdown_signal` with an error: the operations that fail, and the watcher.
pub shutdown : Watcher → Throwable → List ℕ × Watcher
shutdown w e = (
  w.waiting,
  record w {
    registered = false;
    error = if is_none w.error then some e else w.error;
    closing = true;
    active = false;
    waiting = [];
  },
)

-- `Timer::close` and `Signal::close`, and the disposal of the scheduler.
pub close : Watcher → Throwable → List ℕ × Watcher
unfolding shutdown
close w e = if w.registered then shutdown w e else ([], w)

-- An operation whose wait was cancelled is taken off the list when it is freed.
abbrev pub without : ℕ → List ℕ → List ℕ
without op [] = []
without op (x ∷ xs) = let rest = without op xs in if x == op then xs else x ∷ rest

pub data Event : Type 0 where
  awaits : Bool → ℕ → Event
  triggers : (ℕ → List ℕ) → Event
  closes : Throwable → Event
  aborts : Bool → ℕ → Event

-- libuv triggers an active watcher only.
unfoldable pub step : Watcher → Event → Watcher
unfolding await resumed trigger close
step w (awaits background op) = await w background op
step w (triggers again) = let (done, w') = trigger w again in if w.active then w' else w
step w (closes e) = let (done, w') = close w e in w'
step w (aborts background op) = resumed (record w { waiting = without op w.waiting }) background

unfoldable pub run : Watcher → List Event → Watcher
unfolding step
run w [] = w
run w (e ∷ es) = run (step w e) es
