-- ===== src/Deferred/Settling.antt =====
-- A deferred is settled at most once, and every task that waits for it is completed with the
-- result.
use ext_async.Prelude.{
  ℕ, ◌≡◌, refl, ap, ◌∙◌, ◌⊎◌, inl, inr, true, false, List, [], ◌∷◌, ◌++◌, Option, none, some, arith,
  if◌then◌else◌, append-nil, append_assoc, Bool-cases,
}
use ext_async.Php.{Throwable, Value}
use ext_async.Deferred.{
  Deferred, State, Settled, Status, pending, resolved, failed, is_pending, settle, trigger_ops,
  shutdown_state, await_delegate, await_schedule, cleanup_cancel, Argument, resolve, fail,
}

-- A task that awaits the deferred, the methods that settle it, and the disposal of the scheduler.
pub data Call : Type 0 where
  awaits : ℕ → Call
  resolves : Argument → Call
  fails : Throwable → Call
  disposes : Value → Call

-- A task gets the result at once, or waits.
abbrev pub await : Deferred → ℕ → Option (Status × Value) → Deferred × List Settled
await d op (some (s, v)) = (d, record { op = op; status = s; result = v } ∷ [])
await d op none = (record d { state = await_schedule d.state op }, [])

-- The scheduler calls `shutdown_state` while the callback is in its list.
abbrev pub dispose : Deferred → Value → Deferred × List Settled
dispose d v =
    let (st, done) = shutdown_state d.state v in
    if d.state.cancel then (record d { state = st }, done) else (d, [])

unfoldable pub step : Deferred → Call → Deferred × List Settled
step d (awaits op) = await d op (await_delegate d.state)
step d (resolves a) = (resolve d a).1
step d (fails e) = fail d e
step d (disposes v) = dispose d v

unfoldable pub run : Deferred → List Call → Deferred × List Settled
run d [] = (d, [])
run d (c ∷ cs) = let (d', out) = step d c in let (d'', outs) = run d' cs in (d'', out ++ outs)

abbrev pub awaiting : Call → List ℕ
awaiting (awaits op) = op ∷ []
awaiting (resolves a) = []
awaiting (fails e) = []
awaiting (disposes v) = []

-- The operations that a history starts to await.
abbrev pub awaited : List Call → List ℕ
awaited [] = []
awaited (c ∷ cs) = awaiting c ++ awaited cs

-- What has been told to the tasks that awaited, and those that were told nothing.
abbrev pub answers : State → List ℕ → List Settled
answers st ops = if is_pending st.status then [] else settle st.status st.result ops

abbrev pub unanswered : State → List ℕ → List ℕ
unanswered st ops = if is_pending st.status then ops else []

-- A settled state has no waiting operations and is no longer told of the scheduler's disposal.
pub record IsConsistent (st : State) : Type 0 where
  pub emptied : (is_pending st.status ≡ true) ⊎ (st.operations ≡ [])
  pub disarmed : (is_pending st.status ≡ true) ⊎ (st.cancel ≡ false)

settle-append :
    (s : Status) (v : Value) (xs ys : List ℕ)
    → settle s v (xs ++ ys) ≡ settle s v xs ++ settle s v ys
unfolding settle
settle-append s v [] ys = refl
settle-append pending v (x ∷ xs) ys =
    ap (◌∷◌ (record { op = x; status = failed; result = v })) (settle-append pending v xs ys)
settle-append resolved v (x ∷ xs) ys =
    ap (◌∷◌ (record { op = x; status = resolved; result = v })) (settle-append resolved v xs ys)
settle-append failed v (x ∷ xs) ys =
    ap (◌∷◌ (record { op = x; status = failed; result = v })) (settle-append failed v xs ys)

-- A settled, consistent deferred keeps its status and its result.
step_keeps :
    (d : Deferred) (c : Call)
    → IsConsistent d.state
    → is_pending d.state.status ≡ false
    → ((step d c).0.state.status ≡ d.state.status) × ((step d c).0.state.result ≡ d.state.result)
unfolding step resolve fail await_delegate
step_keeps d c v settled = ground (arith, v)

step_answers :
    (d : Deferred) (c : Call)
    → IsConsistent d.state
    → let (d', out) = step d c in
      let ops = d.state.operations ++ awaiting c in
      IsConsistent d'.state
      × (out ≡ answers d'.state ops)
      × (d'.state.operations ≡ unanswered d'.state ops)
unfolding step resolve fail await_delegate await_schedule trigger_ops shutdown_state cleanup_cancel
    settle
step_answers d c v = ground (arith, v, append-nil d.state.operations)

-- A settled, consistent deferred keeps its status and its result over every history.
pub run_keeps :
    (d : Deferred) (cs : List Call)
    → IsConsistent d.state
    → is_pending d.state.status ≡ false
    → ((run d cs).0.state.status ≡ d.state.status) × ((run d cs).0.state.result ≡ d.state.result)
unfolding run
run_keeps d [] v settled = (refl, refl)
run_keeps d (c ∷ cs) v settled =
    let (s, r) = step_keeps d c v settled in
    let (s', r') = run_keeps (step d c).0 cs (step_answers d c v).0 (ap is_pending s ∙ settled) in
    (s' ∙ s, r' ∙ r)

settled_ops :
    (st : State)
    → IsConsistent st
    → ([] ≡ answers st st.operations) × (st.operations ≡ unanswered st st.operations)
unfolding settle
settled_ops st v = ground (arith, v)

-- A consistent deferred stays consistent over every history of awaits, of attempts to resolve and
-- to fail, and of the scheduler's disposal, and answers each task that awaits once: while the
-- deferred is pending, nobody is told anything and those that await wait in their order; once it is
-- settled, each operation that awaited, before or after, has been completed exactly once, in their
-- order, with the status and the result of the deferred.
pub run-answers :
    (d : Deferred) (cs : List Call)
    → IsConsistent d.state
    → let (d', out) = run d cs in
      let ops = d.state.operations ++ awaited cs in
      IsConsistent d'.state
      × (out ≡ answers d'.state ops)
      × (d'.state.operations ≡ unanswered d'.state ops)
unfolding run
run-answers d [] v = ground (arith, v, settled_ops d.state v, append-nil d.state.operations)
run-answers d (c ∷ cs) v =
    let (v1, e1, o1) = step_answers d c v in
    let d1 = (step d c).0 in
    let ops = d.state.operations in
    let (v', e', o') = run-answers d1 cs v1 in
    elim (Bool-cases (is_pending d1.state.status)) [
      | inl on ↦ ground (arith, v', e1, o1, e', o', append_assoc ops (awaiting c) (awaited cs))
      | inr off ↦
          let (s, r) = run_keeps d1 cs v1 off in
          ground (
            arith,
            v',
            e1,
            o1,
            e',
            o',
            s,
            r,
            append_assoc ops (awaiting c) (awaited cs),
            settle-append d1.state.status d1.state.result (ops ++ awaiting c) (awaited cs),
          )
    ]
