-- ===== src/Timers/Holding.antt =====
-- A timer that may still fire is held by the extension.
use ext_async.Prelude.{
  ℕ, ◌+◌, ◌-◌, ◌≡◌, Bool, true, false, not, ◌&&◌, ◌||◌, List, [], ◌∷◌, arith, if◌then◌else◌,
  if_cases,
}
use ext_async.Php.{pos, negsuc}
use ext_async.Timers.{
  Timer, object_create, shutdown_timer, close, start, stop, Call, starts, stops, closes, disposes,
  call, calls, timer_cb, close_timer, Event, calls_method, fires, closed_by_uv, step, run,
}

abbrev pub unit : Bool → ℕ
unit b = if b then 1 else 0

-- The references, `extra` among them that a running callback holds.
pub record IsHeld (extra : ℕ) (t : Timer) : Type 0 where
  pub counted : t.refs ≡ unit t.scheduled + unit t.closing + extra
  pub asserted : t.active ≡ true → t.scheduled ≡ true
  pub ends : (t.closing || t.released) ≡ true → (t.scheduled || not t.closed) ≡ false
  pub once : (t.closing && t.released) ≡ false
  pub repeating : t.active ≡ true → t.repeats ≡ true → t.periodic ≡ true

call-IsHeld : (n : ℕ) (t : Timer) (c : Call) → IsHeld n t → IsHeld n (call t c)
unfolding call start stop close shutdown_timer
call-IsHeld n t (starts (pos d) p) v = ground (arith, v)
call-IsHeld n t (starts (negsuc d) p) v = v
call-IsHeld n t stops v = ground (arith, v)
call-IsHeld n t closes v = ground (arith, v)
call-IsHeld n t disposes v = ground (arith, v)

calls-IsHeld : (n : ℕ) (t : Timer) (cs : List Call) → IsHeld n t → IsHeld n (calls t cs)
unfolding calls
calls-IsHeld n t [] v = v
calls-IsHeld n t (c ∷ cs) v = calls-IsHeld n (call t c) cs (call-IsHeld n t c v)

-- A running callback adds its reference, and takes it away.
released-IsHeld : (t : Timer) → IsHeld 1 t → IsHeld 0 (record t { refs = t.refs - 1 })
released-IsHeld t v = record {
  counted = omega (arith, v.counted);
  asserted = v.asserted;
  ends = v.ends;
  once = v.once;
  repeating = v.repeating;
}

timer_cb-IsHeld :
    (t : Timer) (cs : List Call) → t.active ≡ true → IsHeld 0 t → IsHeld 0 (timer_cb t cs)
unfolding timer_cb
timer_cb-IsHeld t cs a v =
    let held = record t { active = t.repeats; refs = t.refs + 1 } in
    let once = record held { scheduled = false; refs = held.refs - 1 } in
    let now = if held.periodic then held else once in
    released-IsHeld (calls now cs) (
      calls-IsHeld 1 now cs (
        if_cases (IsHeld 1) t.periodic _ _ (λ p. ground (arith, v, a, p))
          (λ p. ground (arith, v, a, p))))

step-IsHeld : (t : Timer) (e : Event) → IsHeld 0 t → IsHeld 0 (step t e)
unfolding step close_timer
step-IsHeld t (calls_method c) v = call-IsHeld 0 t c v
step-IsHeld t (fires cs) v =
    if_cases (IsHeld 0) t.active _ _ (λ a. timer_cb-IsHeld t cs a v) (λ a. v)
step-IsHeld t closed_by_uv v = ground (arith, v)

-- Over every history of a timer's methods, its firing, whatever its callback calls, the disposal of the
-- scheduler and the end of its handle: a timer that libuv may fire is flagged as scheduled, as `timer_cb`
-- asserts; the extension holds one reference for that flag and one while the handle is being closed, and
-- no other; and a timer whose handle is being closed, or was, is neither scheduled nor open.
pub run-IsHeld : (t : Timer) (es : List Event) → IsHeld 0 t → IsHeld 0 (run t es)
unfolding run
run-IsHeld t [] v = v
run-IsHeld t (e ∷ es) v = run-IsHeld (step t e) es (step-IsHeld t e v)

pub object_create-IsHeld : IsHeld 0 object_create
unfolding object_create
object_create-IsHeld = ground arith
