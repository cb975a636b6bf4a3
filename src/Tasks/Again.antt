-- ===== src/Tasks/Again.antt =====
-- Awaiting a task that was executed inline: `task_await_delegate` only looks at `fiber`, which such a
-- task does not have.
use ext_async.Prelude.{
  ℕ, ◌+◌, ◌≡◌, sym, ap, ◌∙◌, true, false, List, [], ◌∷◌, ◌++◌, append-nil, append_assoc, arith,
  Bool-cases, inl, inr,
}
use ext_async.Tasks.{
  Ending, answer_all, Task, has_ended, dispose, begin_inline, end_inline, await_now, Event,
  dispatches, continues, awaits, begins, returns, step, run,
}

-- A task that was executed inline and ended.
pub record IsInlined (t : Task) : Type 0 where
  pub fiber : t.fiber ≡ false
  pub disposed : t.disposed ≡ true
  pub ready : t.ready ≡ false

step-keeps :
    (t : Task) (e : Event)
    → IsInlined t
    → IsInlined (step t e) × (ops : List ℕ) × ((step t e).operations ≡ t.operations ++ ops)
unfolding step begin_inline end_inline await_now dispose
step-keeps t (dispatches part) v =
    (ground (arith, v), [], ground (arith, v, append-nil t.operations))
step-keeps t (continues defer part) v =
    (ground (arith, v), [], ground (arith, v, append-nil t.operations))
step-keeps t (awaits op) v = elim (Bool-cases (has_ended t.status)) [
  | inl h ↦ (ground (arith, v, h), [], ground (arith, v, h, append-nil t.operations))
  | inr h ↦ (ground (arith, v, h), op ∷ [], ground (arith, v, h))
]
step-keeps t (begins fits) v = (ground (arith, v), [], ground (arith, v, append-nil t.operations))
step-keeps t (returns op e) v = (ground (arith, v), [], ground (arith, v, append-nil t.operations))

run-keeps :
    (t : Task) (es : List Event)
    → IsInlined t
    → (ops : List ℕ) × ((run t es).operations ≡ t.operations ++ ops)
unfolding run
run-keeps t [] v = ([], sym (append-nil t.operations))
run-keeps t (e ∷ es) v =
    let (w, ops, first) = step-keeps t e v in
    let (more, rest) = run-keeps (step t e) es w in
    (ops ++ more, rest ∙ ap (λ o. o ++ more) first ∙ append_assoc t.operations ops more)

run_lists :
    (t : Task) (es : List Event) (listed : List ℕ)
    → IsInlined t
    → t.operations ≡ listed
    → (ops : List ℕ) × ((run t es).operations ≡ listed ++ ops)
run_lists t es listed v o = let (ops, rest) = run-keeps t es v in (ops, rest ∙ ap (λ q. q ++ ops) o)

-- The function returns again, to an await that executed it, while another one waits.
again :
    (t : Task) (op other : ℕ) (e : Ending)
    → IsInlined t
    → has_ended t.status ≡ true
    → t.operations ≡ []
    → t.inlined ≡ 0
    → let t' = run t (begins true ∷ awaits other ∷ returns op e ∷ []) in
      ((t'.runs ≡ t.runs + 1)
        × (t'.result ≡ e)
        × (t'.answers ≡ t.answers ++ answer_all e (op ∷ [])))
      × IsInlined t'
      × (t'.operations ≡ other ∷ [])
unfolding run step begin_inline end_inline await_now dispose
again t op other e v h o i = ground (arith, v, h, o, i)

-- A task that was executed inline and ended is awaited again: its function is called once more, and its
-- result is the new one. Who awaits it while the function runs is not answered when it returns, and is
-- still listed after every history that follows.
pub inlined_again :
    (t : Task) (op other : ℕ) (e : Ending) (es : List Event)
    → IsInlined t
    → has_ended t.status ≡ true
    → t.operations ≡ []
    → t.inlined ≡ 0
    → let t' = run t (begins true ∷ awaits other ∷ returns op e ∷ []) in
      (t'.runs ≡ t.runs + 1)
      × (t'.result ≡ e)
      × (t'.answers ≡ t.answers ++ answer_all e (op ∷ []))
      × (ops : List ℕ) × ((run t' es).operations ≡ other ∷ ops)
inlined_again t op other e es v h o i =
    let ((a, b, c), ok, listed) = again t op other e v h o i in
    let (ops, rest) =
      run_lists (run t (begins true ∷ awaits other ∷ returns op e ∷ [])) es (other ∷ []) ok
        listed in
    (a, b, c, ops, rest)
