-- ===== src/Ticks/Invariant.antt =====
-- `refticks` is the number of referenced events that are scheduled, whatever a program does.
use ext_async.Prelude.{ℕ, ◌+◌, ◌%◌, ◌≡◌, refl, true, false, List, [], ◌∷◌, arith}
use ext_async.Scheduler.{erase}
use ext_async.Ticks.{
  Ticks, Event, Place, nowhere, ticking, running, update, ref_mod, is_placed, take_ref, drop_ref,
  activate_tick, deactivate_tick, object_create, close, start, stop, ref, unref, Call, step, steps,
  creates, closes, starts, stops, refs, unrefs,
}
use ext_async.Ticks.Counting.{
  count, unit, weight, count-append_one, count-erase, weight-append_one, weight-erase,
  weight-update_absent, weight-update_once, weight-update_same,
}

-- An event stands once in the list that it names, and in no other.
abbrev pub stands : Place → ℕ
stands ticking = 1
stands nowhere = 0
stands running = 0

abbrev pub runs : Place → ℕ
runs running = 1
runs nowhere = 0
runs ticking = 0

pub record IsCounted (s : Ticks) : Type 0 where
  pub refs_counted : s.refticks ≡ (weight s.events s.ticks + weight s.events s.running) % ref_mod
  pub in_ticks : (i : ℕ) → count i s.ticks ≡ stands (s.events i).place
  pub in_running : (i : ℕ) → count i s.running ≡ runs (s.events i).place

activate_tick-IsCounted :
    (s : Ticks) (i : ℕ)
    → is_placed (s.events i).place ≡ false
    → IsCounted s
    → IsCounted (activate_tick s i)
unfolding activate_tick
activate_tick-IsCounted s i h v =
    let e = record (s.events i) { place = ticking } in
    record {
      refs_counted = ground (
        arith,
        v.refs_counted,
        weight-append_one (update s.events i e) i s.ticks,
        weight-update_same s.events i e s.ticks refl,
        weight-update_same s.events i e s.running refl,
      );
      in_ticks = λ j. ground (arith, v.in_ticks j, v.in_ticks i, count-append_one j i s.ticks);
      in_running = λ j. ground (arith, v.in_running j, v.in_running i);
    }

deactivate_tick-IsCounted :
    (s : Ticks) (i : ℕ)
    → is_placed (s.events i).place ≡ true
    → IsCounted s
    → IsCounted (deactivate_tick s i)
unfolding deactivate_tick
deactivate_tick-IsCounted s i h v =
    let e = record (s.events i) { place = nowhere } in
    record {
      refs_counted = ground (
        arith,
        v.refs_counted,
        v.in_ticks i,
        v.in_running i,
        weight-erase s.events i s.ticks,
        weight-erase s.events i s.running,
        weight-update_same s.events i e (erase i s.ticks) refl,
        weight-update_same s.events i e (erase i s.running) refl,
        weight-update_same s.events i e s.ticks refl,
        weight-update_same s.events i e s.running refl,
      );
      in_ticks = λ j. ground (arith, v.in_ticks j, v.in_ticks i, count-erase j i s.ticks);
      in_running = λ j. ground (arith, v.in_running j, v.in_running i, count-erase j i s.running);
    }

-- A change of an event that leaves its list alone, and counts its reference anew.
change-IsCounted :
    (s : Ticks) (i n : ℕ) (e : Event)
    → e.place ≡ (s.events i).place
    → (s.refticks ≡ (weight s.events s.ticks + weight s.events s.running) % ref_mod
        → n
          ≡ (weight (update s.events i e) s.ticks + weight (update s.events i e) s.running)
            % ref_mod)
    → IsCounted s
    → IsCounted (record s { events = update s.events i e; refticks = n })
change-IsCounted s i n e h w v = record {
  refs_counted = w v.refs_counted;
  in_ticks = λ j. ground (arith, v.in_ticks j, v.in_ticks i);
  in_running = λ j. ground (arith, v.in_running j, v.in_running i);
}

close-IsCounted : (s : Ticks) (i : ℕ) → IsCounted s → IsCounted (close s i)
unfolding close
close-IsCounted s i v =
    let e = record (s.events i) { closed = true } in
    let s' = record s { events = update s.events i e } in
    let v' : IsCounted s' =
      change-IsCounted s i s.refticks e refl
        (λ h. ground (
          arith,
          h,
          weight-update_same s.events i e s.ticks refl,
          weight-update_same s.events i e s.running refl,
        ))
        v in
    ground (arith, v', deactivate_tick-IsCounted s' i)

start-IsCounted : (s : Ticks) (i : ℕ) → IsCounted s → IsCounted (start s i)
unfolding start
start-IsCounted s i v = ground (arith, v, activate_tick-IsCounted s i)

stop-IsCounted : (s : Ticks) (i : ℕ) → IsCounted s → IsCounted (stop s i)
unfolding stop
stop-IsCounted s i v = ground (arith, v, deactivate_tick-IsCounted s i)

-- Where the event's own list counts it once, or not at all.
Relates : Ticks → ℕ → Event → Type 0
Relates s i e =
    let total = weight s.events s.ticks + weight s.events s.running in
    let total' = weight (update s.events i e) s.ticks + weight (update s.events i e) s.running in
    (is_placed (s.events i).place ≡ true
      → total' + unit (s.events i).referenced ≡ total + unit e.referenced)
    × (is_placed (s.events i).place ≡ false → total' ≡ total)

relates : (s : Ticks) (i : ℕ) (e : Event) → IsCounted s → Relates s i e
unfolding Relates
relates s i e v = ground (
  arith,
  v.in_ticks i,
  v.in_running i,
  weight-update_once s.events i e s.ticks,
  weight-update_once s.events i e s.running,
  weight-update_absent s.events i e s.ticks,
  weight-update_absent s.events i e s.running,
)

ref-IsCounted : (s : Ticks) (i : ℕ) → IsCounted s → IsCounted (ref s i)
unfolding ref Relates
ref-IsCounted s i v =
    let e = record (s.events i) { referenced = true } in
    let w = relates s i e v in
    ground (
      arith,
      v,
      w,
      change-IsCounted s i (take_ref (is_placed (s.events i).place) s.refticks) e refl,
    )

unref-IsCounted : (s : Ticks) (i : ℕ) → IsCounted s → IsCounted (unref s i)
unfolding unref Relates
unref-IsCounted s i v =
    let e = record (s.events i) { referenced = false } in
    let w = relates s i e v in
    ground (
      arith,
      v,
      w,
      change-IsCounted s i (drop_ref (is_placed (s.events i).place) s.refticks) e refl,
    )

object_create-IsCounted : (s : Ticks) (i : ℕ) → IsCounted s → IsCounted (object_create s i)
unfolding object_create
object_create-IsCounted s i v =
    let e : Event = record { referenced = true; closed = false; place = nowhere } in
    let s' = record s { events = update s.events i e } in
    let created : (is_placed (s.events i).place ≡ false) → IsCounted s' = λ h. record {
      refs_counted = ground (
        arith,
        v.refs_counted,
        v.in_ticks i,
        v.in_running i,
        weight-update_absent s.events i e s.ticks,
        weight-update_absent s.events i e s.running,
      );
      in_ticks = λ j. ground (arith, v.in_ticks j, v.in_ticks i);
      in_running = λ j. ground (arith, v.in_running j, v.in_running i);
    } in
    ground (arith, v, created, activate_tick-IsCounted s' i)

pub step-IsCounted : (s : Ticks) (c : Call) → IsCounted s → IsCounted (step s c)
unfolding step
step-IsCounted s (creates i) v = object_create-IsCounted s i v
step-IsCounted s (closes i) v = close-IsCounted s i v
step-IsCounted s (starts i) v = start-IsCounted s i v
step-IsCounted s (stops i) v = stop-IsCounted s i v
step-IsCounted s (refs i) v = ref-IsCounted s i v
step-IsCounted s (unrefs i) v = unref-IsCounted s i v

-- Whatever calls a program makes on tick events, of any addresses and in any order, where `refticks`
-- is the number of scheduled referenced events modulo 2 ^ 32, and every event stands once in the list
-- that its `list` names and in no other, it stays so.
pub steps-IsCounted : (s : Ticks) (cs : List Call) → IsCounted s → IsCounted (steps s cs)
unfolding steps
steps-IsCounted s [] v = v
steps-IsCounted s (c ∷ cs) v = steps-IsCounted (step s c) cs (step-IsCounted s c v)
