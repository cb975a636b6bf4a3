-- ===== src/Deferred/Awaitable.antt =====
-- src/task.c, `async_awaitable_impl`: the awaitable that the extension's own operations return. It
-- does what a deferred does, without its shutdown callback, context and reference count.
use ext_async.Prelude.{
  if_cases, ℕ, ◌≡◌, refl, sym, subst, ap, ap₂, ◌∙◌, false, List, [], ◌∷◌, ◌++◌, map, Option, none,
  some, arith, if◌then◌else◌,
}
use ext_async.Php.{Throwable, Value, undef, null, error}
use ext_async.Deferred.{
  Deferred, State, Settled, Status, pending, resolved, failed, is_pending, settle, trigger_ops,
  await_delegate, await_schedule, cleanup_cancel, given, resolve, fail, settle_as,
}
use ext_async.Deferred.Settling

-- `async_awaitable_impl`
pub record Awaitable : Type 0 where
  pub status : Status
  pub result : Value
  pub operations : List ℕ

abbrev pub or_null : Option Value → Value
or_null none = null
or_null (some v) = v

-- `async_create_awaitable`, `async_create_resolved_awaitable` and `async_create_failed_awaitable`
unfoldable pub create_awaitable : Awaitable
create_awaitable = record { status = pending; result = undef; operations = [] }

pub create_resolved_awaitable : Option Value → Awaitable
unfolding create_awaitable
create_resolved_awaitable v = record create_awaitable { status = resolved; result = or_null v }

pub create_failed_awaitable : Throwable → Awaitable
unfolding create_awaitable
create_failed_awaitable e = record create_awaitable { status = failed; result = error e }

-- `async_awaitable_resolve` and `async_awaitable_fail`, with the operations that they complete.
pub awaitable_resolve : Awaitable → Option Value → Awaitable × List Settled
awaitable_resolve a v =
    if is_pending a.status
    then (
      record { status = resolved; result = or_null v; operations = [] },
      settle resolved (or_null v) a.operations,
    )
    else (a, [])

pub awaitable_fail : Awaitable → Throwable → Awaitable × List Settled
awaitable_fail a e =
    if is_pending a.status
    then (
      record { status = failed; result = error e; operations = [] },
      settle failed (error e) a.operations,
    )
    else (a, [])

-- `awaitable_impl_delegate` and `awaitable_impl_schedule`
pub awaitable_delegate : Awaitable → Option (Status × Value)
awaitable_delegate a = if is_pending a.status then none else some (a.status, a.result)

pub awaitable_schedule : Awaitable → ℕ → Awaitable
awaitable_schedule a op = record a { operations = a.operations ++ op ∷ [] }

pub data Call : Type 0 where
  awaits : ℕ → Call
  resolves : Option Value → Call
  fails : Throwable → Call

abbrev await : Awaitable → ℕ → Option (Status × Value) → Awaitable × List Settled
await a op (some (s, v)) = (a, record { op = op; status = s; result = v } ∷ [])
await a op none = (awaitable_schedule a op, [])

pub step : Awaitable → Call → Awaitable × List Settled
unfolding awaitable_resolve awaitable_fail awaitable_delegate awaitable_schedule
step a (awaits op) = await a op (awaitable_delegate a)
step a (resolves v) = awaitable_resolve a v
step a (fails e) = awaitable_fail a e

pub run : Awaitable → List Call → Awaitable × List Settled
unfolding step
run a [] = (a, [])
run a (c ∷ cs) = let (a', out) = step a c in let (a'', outs) = run a' cs in (a'', out ++ outs)

-- The same call of a deferred.
abbrev pub of_deferred : Call → Settling.Call
of_deferred (awaits op) = Settling.awaits op
of_deferred (resolves v) = Settling.resolves (given (or_null v))
of_deferred (fails e) = Settling.fails e

-- They look the same to whoever awaits; the result matters once there is one.
pub record Same (a : Awaitable) (d : Deferred) : Type 0 where
  pub same_status : a.status ≡ d.state.status
  pub same_operations : a.operations ≡ d.state.operations
  pub same_result : is_pending a.status ≡ false → a.result ≡ d.state.result

-- What a deferred keeps of its state where it is settled.
cleanup_cancel-state : (d : Deferred) → (cleanup_cancel d).state ≡ d.state
unfolding cleanup_cancel
cleanup_cancel-state d = ground arith

-- The operations are taken off and completed, whatever else is undone.
trigger_ops-fields :
    (st : State)
    → ((trigger_ops st).0.status ≡ st.status)
      × ((trigger_ops st).0.result ≡ st.result)
      × ((trigger_ops st).0.operations ≡ [])
      × ((trigger_ops st).1 ≡ settle st.status st.result st.operations)
unfolding trigger_ops
trigger_ops-fields st = (ground arith, ground arith, refl, refl)

settle_as-fields :
    (d : Deferred) (status : Status) (r : Value)
    → let (d', out) = settle_as d status r in
      (d'.state.status ≡ status)
      × (d'.state.result ≡ r)
      × (d'.state.operations ≡ [])
      × (out ≡ settle status r d.state.operations)
settle_as-fields d status r =
    let d0 = record d { state = record (d.state) { status = status; result = r } } in
    subst
      (λ st.
        ((trigger_ops st).0.status ≡ status)
        × ((trigger_ops st).0.result ≡ r)
        × ((trigger_ops st).0.operations ≡ [])
        × ((trigger_ops st).1 ≡ settle status r d.state.operations))
      (sym (cleanup_cancel-state d0)) (trigger_ops-fields d0.state)

abbrev Agrees : Awaitable × List Settled → Deferred × List Settled → Type 0
Agrees (a, out) (d, out') = (out ≡ out') × Same a d

settle_as-Same :
    (a : Awaitable) (d : Deferred) (status : Status) (r : Value)
    → is_pending status ≡ false
    → Same a d
    → Agrees
        (if is_pending a.status
          then (
            record { status = status; result = r; operations = [] },
            settle status r a.operations,
          )
          else (a, []))
        (if is_pending d.state.status then settle_as d status r else (d, []))
settle_as-Same a d status r h v =
    let (f, g, o, out) = settle_as-fields d status r in
    let same = ap is_pending v.same_status in
    if_cases (λ x. Agrees x (if is_pending d.state.status then settle_as d status r else (d, [])))
      (is_pending a.status) _ _
      (λ p.
        if_cases (Agrees _) (is_pending d.state.status) _ _
          (λ q. (
            ap (settle status r) v.same_operations ∙ sym out,
            record { same_status = sym f; same_operations = sym o; same_result = λ k. sym g },
          ))
          (λ q. absurd (ground (arith, p, q, same))))
      (λ p.
        if_cases (Agrees _) (is_pending d.state.status) _ _
          (λ q. absurd (ground (arith, p, q, same))) (λ q. (refl, v)))

await-Same :
    (a : Awaitable) (d : Deferred) (op : ℕ)
    → Same a d
    → Agrees (await a op (awaitable_delegate a)) (Settling.await d op (await_delegate d.state))
unfolding awaitable_delegate awaitable_schedule await_delegate await_schedule
await-Same a d op v =
    let same = ap is_pending v.same_status in
    if_cases (λ x. Agrees (await a op x) (Settling.await d op (await_delegate d.state)))
      (is_pending a.status) _ _
      (λ p.
        if_cases (λ y. Agrees (await a op none) (Settling.await d op y)) (is_pending d.state.status)
          _ _
          (λ q. (
            refl,
            record {
              same_status = v.same_status;
              same_operations = ap (λ ops. ops ++ op ∷ []) v.same_operations;
              same_result = v.same_result;
            },
          ))
          (λ q. absurd (ground (arith, p, q, same))))
      (λ p.
        if_cases (λ y. Agrees (await a op (some (a.status, a.result))) (Settling.await d op y))
          (is_pending d.state.status) _ _ (λ q. absurd (ground (arith, p, q, same)))
          (λ q. (
            ap₂ (λ s r. record { op = op; status = s; result = r } ∷ []) v.same_status
                (v.same_result p),
            v,
          )))

step-Same :
    (a : Awaitable) (d : Deferred) (c : Call)
    → Same a d
    → Agrees (step a c) (Settling.step d (of_deferred c))
unfolding step Settling.step awaitable_resolve awaitable_fail resolve fail
step-Same a d (awaits op) v = await-Same a d op v
step-Same a d (resolves r) v = settle_as-Same a d resolved (or_null r) refl v
step-Same a d (fails e) v = settle_as-Same a d failed (error e) refl v

-- Where an awaitable of the extension and a deferred have the same status, waiting operations and, once
-- settled, result: over every history of awaits, resolves and fails they complete the same operations
-- with the same results, in the same order, and agree again at the end.
pub run-Same :
    (a : Awaitable) (d : Deferred) (cs : List Call)
    → Same a d
    → Agrees (run a cs) (Settling.run d (map of_deferred cs))
unfolding run Settling.run
run-Same a d [] v = (refl, v)
run-Same a d (c ∷ cs) v =
    let (out, w) = step-Same a d c v in
    let (outs, u) = run-Same (step a c).0 (Settling.step d (of_deferred c)).0 cs w in
    (ap₂ (◌++◌) out outs, u)
