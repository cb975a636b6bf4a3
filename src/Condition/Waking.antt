-- ===== src/Condition/Waking.antt =====
-- Who is woken by signals, broadcasts and the close of a condition, and what `broadcast` counts.
use native.Mathlib.Nat.{mod-eq_of_lt}
use ext_async.Prelude.{
  ℕ, ◌+◌, ◌^◌, ◌≤◌, ◌<◌, ◌≡◌, refl, ap, inl, inr, Bool, true, false, List, [], ◌∷◌, ◌++◌, map,
  Option, none, arith, length, length-append, ltb, if◌then◌else◌, append-nil, List-cases,
  Bool-cases,
}
use ext_async.Php.{Throwable, finish, fail, completed}
use ext_async.Condition.{
  Condition, Woken, close, close_error, wait, waits, Waited, threw, wait_resume, drop_op, signal,
  broadcast, broadcast_loop, bump, Count, woke, throws,
}

abbrev pub woken_finish : ℕ → Woken
woken_finish op = record { completion = finish op; deferred = true }

broadcast_loop_lem :
    (count deferred : ℕ) (ops : List ℕ)
    → deferred + length ops < 2 ^ 32
    → broadcast_loop count deferred ops
      ≡ (count + length ops, deferred + length ops, map woken_finish ops)
unfolding broadcast_loop
broadcast_loop_lem count deferred [] h = ground arith
broadcast_loop_lem count deferred (op ∷ ops) h =
    let next : bump deferred ≡ deferred + 1 = mod-eq_of_lt (omega arith) in
    ground (arith, next, broadcast_loop_lem (count + 1) (deferred + 1) ops (omega arith))

-- On an open condition, if the number of pending resumptions stays below 2 ^ 32,
-- `Condition::broadcast` finishes every waiting operation, in its order and for a later resumption,
-- returns their number, adds it to the number of pending resumptions, and leaves none waiting.
pub broadcast_lem :
    (c : Condition)
    → c.error ≡ none
    → c.broadcast + length c.waiting < 2 ^ 32
    → broadcast c ≡ (
      woke (length c.waiting),
      record c { waiting = []; broadcast = c.broadcast + length c.waiting },
      map woken_finish c.waiting,
    )
unfolding broadcast
broadcast_lem c e h = rw e (rw (broadcast_loop_lem 0 c.broadcast c.waiting h) (ground arith))

-- The operations that wait, and those that were woken and whose tasks have not been resumed yet.
pub record System : Type 0 where
  pub condition : Condition
  pub queued : List ℕ

-- A call of a method, or the resumption of the task that was queued first.
pub data Call : Type 0 where
  waits_for : ℕ → Bool → Call
  signals : Call
  broadcasts : Call
  resumes : Bool → Call

abbrev pub deferred_ops : List Woken → List ℕ
deferred_ops [] = []
deferred_ops (w ∷ ws) =
    let rest = deferred_ops ws in if w.deferred then completed w.completion ∷ rest else rest

abbrev after_wait : System → Waited → System
after_wait s (waits c) = record s { condition = c }
after_wait s (threw e) = s

abbrev after_wake : System → Count × Condition × List Woken → System
after_wake s (_, c, woken) = record s { condition = c; queued = s.queued ++ deferred_ops woken }

abbrev resume_first : System → List ℕ → Bool → System
resume_first s [] bg = s
resume_first s (op ∷ rest) bg = record {
  condition = (wait_resume s.condition op (woken_finish op) bg).1;
  queued = rest;
}

pub step : System → Call → System
step s (waits_for op bg) = after_wait s (wait s.condition op bg)
step s signals = after_wake s (signal s.condition)
step s broadcasts = after_wake s (broadcast s.condition)
step s (resumes bg) = resume_first s s.queued bg

pub run : System → List Call → System
run s [] = s
run s (c ∷ cs) = run (step s c) cs

abbrev pub load : System → ℕ
load s = length s.condition.waiting + length s.queued

-- The number of pending resumptions is what `broadcast` counts.
pub record IsCounted (s : System) : Type 0 where
  pub counted : s.condition.broadcast ≡ length s.queued
  pub open_condition : s.condition.error ≡ none

drop_op-le : (op : ℕ) (xs : List ℕ) → length (drop_op op xs) ≤ length xs
drop_op-le op [] = omega arith
drop_op-le op (x ∷ xs) = ground (arith, drop_op-le op xs)

waits-IsCounted :
    (s : System) (op : ℕ) (bg : Bool)
    → IsCounted s
    → IsCounted (step s (waits_for op bg)) × (load (step s (waits_for op bg)) ≤ load s + 1)
unfolding step wait
waits-IsCounted s op bg v = ground (arith, v, length-append s.condition.waiting (op ∷ []))

signals-IsCounted :
    (s : System)
    → load s + 1 < 2 ^ 32
    → IsCounted s
    → IsCounted (step s signals) × (load (step s signals) ≤ load s + 1)
unfolding step signal completed
signals-IsCounted s h v = elim (List-cases s.condition.waiting) [
  | inl e ↦ ground (arith, v, length-append s.queued [], append-nil s.queued)
  | inr (op, rest, e) ↦ elim (Bool-cases (ltb 0 s.condition.broadcast)) [
    | inl busy ↦ ground (
      arith,
      v,
      length-append s.queued (op ∷ []),
      mod-eq_of_lt {n = s.condition.broadcast + 1} {m = 2 ^ 32},
    )
    | inr idle ↦ ground (arith, v, append-nil s.queued)
  ]
]

deferred_ops-finish : (ops : List ℕ) → deferred_ops (map woken_finish ops) ≡ ops
unfolding completed
deferred_ops-finish [] = refl
deferred_ops-finish (op ∷ ops) = ap (◌∷◌ op) (deferred_ops-finish ops)

broadcasts-IsCounted :
    (s : System)
    → load s + 1 < 2 ^ 32
    → IsCounted s
    → IsCounted (step s broadcasts) × (load (step s broadcasts) ≤ load s + 1)
unfolding step
broadcasts-IsCounted s h v =
    let c = s.condition in
    let fits : c.broadcast + length c.waiting < 2 ^ 32 = omega (arith, v.counted) in
    rw (broadcast_lem c v.open_condition fits) (
      ground (
        arith,
        v,
        length-append s.queued (deferred_ops (map woken_finish c.waiting)),
        deferred_ops-finish c.waiting,
      ))

resumes-IsCounted :
    (s : System) (bg : Bool)
    → load s + 1 < 2 ^ 32
    → IsCounted s
    → IsCounted (step s (resumes bg)) × (load (step s (resumes bg)) ≤ load s + 1)
unfolding step wait_resume
resumes-IsCounted s bg h v = elim (List-cases s.queued) [
  | inl e ↦ ground (arith, v)
  | inr (op, rest, e) ↦ ground (arith, v, drop_op-le op s.condition.waiting)
]

step-IsCounted :
    (s : System) (c : Call)
    → load s + 1 < 2 ^ 32
    → IsCounted s
    → IsCounted (step s c) × (load (step s c) ≤ load s + 1)
step-IsCounted s (waits_for op bg) h v = waits-IsCounted s op bg v
step-IsCounted s signals h v = signals-IsCounted s h v
step-IsCounted s broadcasts h v = broadcasts-IsCounted s h v
step-IsCounted s (resumes bg) h v = resumes-IsCounted s bg h v

-- Where it is so at the start, over every history without a close, and with fewer than 2 ^ 32
-- operations, `broadcast` is the number of woken tasks that have not been resumed yet: it does not
-- wrap, and no resumption is counted twice or forgotten.
pub run-IsCounted :
    (s : System) (cs : List Call) → load s + length cs < 2 ^ 32 → IsCounted s → IsCounted (run s cs)
unfolding run
run-IsCounted s [] h v = v
run-IsCounted s (c ∷ cs) h v =
    let (v', l) = step-IsCounted s c (omega arith) v in run-IsCounted (step s c) cs (omega arith) v'

-- Closing an open condition fails every waiting operation, in its order, with one error, which has
-- the given error as its cause; from then on a wait, a signal and a broadcast throw it, and closing
-- again does nothing.
pub close_lem :
    (c : Condition) (previous p : Option Throwable) (op : ℕ) (bg : Bool)
    → c.shutdown ≡ true
    → c.error ≡ none
    → let e = close_error previous in
      let (c', woken) = close c previous in
      (woken ≡ map (λ (o : ℕ). record { completion = fail o e; deferred = false }) c.waiting)
      × (wait c' op bg ≡ threw e)
      × (signal c' ≡ (throws e, c', []))
      × (broadcast c' ≡ (throws e, c', []))
      × (close c' p ≡ (c', []))
unfolding close wait signal broadcast
close_lem c previous p op bg on quiet = rw (on, quiet) (refl, refl, refl, refl, refl)
