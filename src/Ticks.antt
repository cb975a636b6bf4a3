-- ===== src/Ticks.antt =====
-- src/event.c, tick events, and the functions of src/task.c that run and dispose them. An event is
-- its address; a callback is a parameter: the methods that it calls and how it ends.
pub mod Counting
pub mod Invariant
pub mod Running
use ext_async.Prelude.{
  ◌||◌, ℕ, zero, suc, ◌+◌, ◌-◌, ◌%◌, ◌^◌, Bool, true, false, not, ◌&&◌, List, [], ◌∷◌, ◌++◌, Option,
  none, some, ◌==◌, if◌then◌else◌, is_nil, length,
}
use ext_async.Scheduler.{erase}

-- The `list` of an event: NULL, `scheduler->ticks` or `scheduler->running`.
pub data Place : Type 0 where
  nowhere : Place
  ticking : Place
  running : Place

-- `async_tick_event`
pub record Event : Type 0 where
  pub referenced : Bool
  pub closed : Bool
  pub place : Place

abbrev pub Events : Type 0
Events = ℕ → Event

abbrev pub update : Events → ℕ → Event → Events
update f i e j = if i == j then e else f j

abbrev pub is_placed : Place → Bool
is_placed nowhere = false
is_placed ticking = true
is_placed running = true

-- The fields of `async_task_scheduler` for ticks. `stopped` says whether `uv_stop` was called since
-- the loop was entered.
pub record Ticks : Type 0 where
  pub events : Events
  pub ticks : List ℕ
  pub running : List ℕ
  pub refticks : ℕ
  pub active : Bool
  pub stopped : Bool
  pub failed : Bool

abbrev pub ref_mod : ℕ
ref_mod = 2 ^ 32

abbrev pub take_ref : Bool → ℕ → ℕ
take_ref referenced n = if referenced then (n + 1) % ref_mod else n

abbrev pub drop_ref : Bool → ℕ → ℕ
drop_ref referenced n = if referenced then (n + ref_mod - 1) % ref_mod else n

pub activate_tick : Ticks → ℕ → Ticks
activate_tick s i =
    let e = s.events i in
    record s {
      stopped = if is_nil s.ticks && s.active then true else s.stopped;
      events = update s.events i (record e { place = ticking });
      ticks = s.ticks ++ i ∷ [];
      refticks = take_ref e.referenced s.refticks;
    }

abbrev pub erase_ticking : Place → ℕ → List ℕ → List ℕ
erase_ticking ticking i xs = erase i xs
erase_ticking nowhere i xs = xs
erase_ticking running i xs = xs

abbrev pub erase_running : Place → ℕ → List ℕ → List ℕ
erase_running running i xs = erase i xs
erase_running nowhere i xs = xs
erase_running ticking i xs = xs

pub deactivate_tick : Ticks → ℕ → Ticks
deactivate_tick s i =
    let e = s.events i in
    record s {
      ticks = erase_ticking e.place i s.ticks;
      running = erase_running e.place i s.running;
      events = update s.events i (record e { place = nowhere });
      refticks = drop_ref e.referenced s.refticks;
    }

-- `async_tick_event_object_create`; the memory that it allocates is that of no placed event.
pub object_create : Ticks → ℕ → Ticks
unfolding activate_tick
object_create s i =
    let e : Event = record { referenced = true; closed = false; place = nowhere } in
    if is_placed (s.events i).place
    then s
    else activate_tick (record s { events = update s.events i e }) i

-- `TickEvent::close`
pub close : Ticks → ℕ → Ticks
unfolding deactivate_tick
close s i =
    let s' = record s { events = update s.events i (record (s.events i) { closed = true }) } in
    if is_placed (s.events i).place then deactivate_tick s' i else s'

-- The other methods throw on a closed event and change nothing.
pub start : Ticks → ℕ → Ticks
unfolding activate_tick
start s i = if (s.events i).closed || is_placed (s.events i).place then s else activate_tick s i

pub stop : Ticks → ℕ → Ticks
unfolding deactivate_tick
stop s i =
    if not (s.events i).closed && is_placed (s.events i).place then deactivate_tick s i else s

pub ref : Ticks → ℕ → Ticks
ref s i =
    let e = s.events i in
    if e.closed || e.referenced then s else record s {
      events = update s.events i (record e { referenced = true });
      refticks = take_ref (is_placed e.place) s.refticks;
    }

pub unref : Ticks → ℕ → Ticks
unref s i =
    let e = s.events i in
    if not e.closed && e.referenced
    then record s {
      events = update s.events i (record e { referenced = false });
      refticks = drop_ref (is_placed e.place) s.refticks;
    }
    else s

-- What a program may do with ticks.
pub data Call : Type 0 where
  creates : ℕ → Call
  closes : ℕ → Call
  starts : ℕ → Call
  stops : ℕ → Call
  refs : ℕ → Call
  unrefs : ℕ → Call

pub step : Ticks → Call → Ticks
unfolding object_create close start stop ref unref
step s (creates i) = object_create s i
step s (closes i) = close s i
step s (starts i) = start s i
step s (stops i) = stop s i
step s (refs i) = ref s i
step s (unrefs i) = unref s i

pub steps : Ticks → List Call → Ticks
steps s [] = s
steps s (c ∷ cs) = steps (step s c) cs

-- What the loops do with an event that they took off the front of its list.
abbrev pub release : Ticks → ℕ → Ticks
release s i =
    let e = s.events i in
    record s {
      events = update s.events i (record e { place = nowhere });
      refticks = drop_ref e.referenced s.refticks;
    }

pub dispose_running : Ticks → List ℕ → Ticks
dispose_running s [] = record s { running = [] }
dispose_running s (i ∷ is') = dispose_running (release (record s { running = is' }) i) is'

pub dispose_ticking : Ticks → List ℕ → Ticks
dispose_ticking s [] = record s { ticks = [] }
dispose_ticking s (i ∷ is') = dispose_ticking (release (record s { ticks = is' }) i) is'

pub dispose_ticks : Ticks → Ticks
unfolding dispose_running dispose_ticking
dispose_ticks s = let s' = dispose_running s s.running in dispose_ticking s' s'.ticks

-- `async_task_scheduler_handle_exit` and `async_task_scheduler_handle_error`, as far as ticks go.
pub handle_error : Ticks → Ticks
unfolding dispose_ticks
handle_error s =
    dispose_ticks (record s { failed = true; stopped = if s.active then true else s.stopped })

-- How a callback ends.
pub data End : Type 0 where
  returns : End
  throws : End
  exits : End

-- What a callback does, by the state that it finds and its event.
abbrev pub Callback : Type 0
Callback = Ticks → ℕ → List Call × End

-- The first loop of `run_ticks` sets the `list` of every event.
pub mark_running : Events → List ℕ → Events
mark_running f [] = f
mark_running f (i ∷ is') = mark_running (update f i (record (f i) { place = running })) is'

-- What `run_ticks` leaves: the events that were called, whether the last callback has thrown, and the
-- state.
abbrev pub Run : Type 0
Run = List ℕ × Bool × Ticks

-- How the second loop of `run_ticks` goes on after a callback: it returns where the callback throws
-- or exits.
abbrev pub after_call : ℕ → Ticks → End → Option Run → Option Run
after_call i s returns none = none
after_call i s returns (some (called, threw, s')) = some (i ∷ called, threw, s')
after_call i s throws rest = some (i ∷ [], true, s)
after_call i s exits rest = some (i ∷ [], false, handle_error s)

-- The second loop of `run_ticks`, with fuel for its rounds. `none` means that the fuel ran out.
pub run_loop : ℕ → Callback → Ticks → Option Run
unfolding steps handle_error
run_loop zero call s = elim s.running [ [] ↦ some ([], false, s) | i ∷ is' ↦ none ]
run_loop (suc fuel) call s = elim s.running [
  | [] ↦ some ([], false, s)
  | i ∷ is' ↦
      let s1 = release (record s { running = is' }) i in
      let (cs, end) = call s1 i in
      let s2 = steps s1 cs in after_call i s2 end (run_loop fuel call s2)
]

-- `run_ticks`. Callbacks put no event on the list that runs, so that there are as many rounds as
-- events, or fewer.
pub run_ticks : Callback → Ticks → Option Run
unfolding mark_running run_loop
run_ticks call s =
    run_loop (length s.ticks) call
      (record s { running = s.ticks; ticks = []; events = mark_running s.events s.ticks })

-- What `run_scheduler_fiber` does with ticks before it enters the event loop.
abbrev pub caught : Option Run → Option (List ℕ × Ticks)
caught none = none
caught (some (called, threw, s)) = some (called, if threw then handle_error s else s)

pub turn : Callback → Ticks → Option (List ℕ × Ticks)
unfolding run_ticks handle_error
turn call s = if is_nil s.ticks then some ([], s) else caught (run_ticks call s)
