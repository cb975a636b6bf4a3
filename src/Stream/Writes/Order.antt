-- ===== src/Stream/Writes/Order.antt =====
-- What is written to a stream arrives at libuv in order.
use ext_async.Prelude.{
  if_cases, ℕ, ◌≡◌, refl, sym, ap, ◌∙◌, Bool, true, ◌&&◌, List, [], ◌∷◌, ◌++◌, Option, none, some,
  arith, ◌==◌, is_nil, append-nil, Bool-cases, inl, inr,
}
use ext_async.Stream.Writes.{
  WriteOp, Writer, Request, writes_all, process_first, settle, write_cb, without, find, cancel_op,
  cancel, shut_down, flush, Event, writes, completes, cancels, shuts_down, flushes, step, run,
}
use ext_async.Stream.Writes.Accepting.{
  waiting, stream_of, is_clean, Accepts, nil_lem, Accepts-refl, Accepts-trans, write-Accepts,
  writes_all-Accepts, process_first-Accepts, settle-Accepts,
}

started-empty :
    (op : WriteOp) (ops : List WriteOp)
    → is_clean (op ∷ ops) ≡ true
    → op.started ≡ true
    → waiting (op ∷ ops) ≡ waiting ops
started-empty op ops c h = ap (λ t. t ++ waiting ops) (nil_lem op.bytes (ground (arith, c, h)))

write_cb-Accepts :
    (w : Writer) (ops : List WriteOp) (rs fs : List Request)
    → is_clean ops ≡ true
    → Accepts (record w { writes = ops }) (write_cb (record w { writes = ops }) rs fs)
unfolding write_cb
write_cb-Accepts w [] rs fs c = Accepts-refl (record w { writes = [] }) c
write_cb-Accepts w (op ∷ ops) rs fs c =
    let w0 = record w { writes = op ∷ ops } in
    let w1 = record w { writing = true; writes = ops } in
    let (bs, w2) = writes_all w1 rs in
    let v = writes_all-Accepts w1 rs (ground (arith, c)) in
    let w3 = process_first w2 w2.writes in
    let p = process_first-Accepts w2 w2.writes v.0 in
    let (cs, w4) = settle w3 fs in
    let (d, e) =
      Accepts-trans w1 w2 w4 bs cs v (Accepts-trans w2 w3 w4 [] cs p (settle-Accepts w3 fs p.0)) in
    if_cases (Accepts w0) op.started _ _
      (λ h. (d, e ∙ ap (λ t. (w.handed ++ t) ++ (bs ++ cs)) (sym (started-empty op ops c h))))
      (λ h. Accepts-refl w0 c)

abbrev pub spared : Option WriteOp → Bool
spared none = true
spared (some op) = op.started

-- Whether no operation is cancelled before it is started.
abbrev pub spares : Writer → Event → Bool
spares w (writes r) = true
spares w (completes rs fs) = true
spares w (cancels i) = spared (find i w.writes)
spares w shuts_down = true
spares w (flushes op) = true

unfoldable pub all_spared : Writer → List Event → Bool
all_spared w [] = true
all_spared w (e ∷ es) = let rest = all_spared (step w e).1 es in spares w e && rest

without-waiting :
    (i : ℕ) (ops : List WriteOp)
    → is_clean ops ≡ true
    → spared (find i ops) ≡ true
    → (waiting (without i ops) ≡ waiting ops) × (is_clean (without i ops) ≡ true)
without-waiting i [] c h = (refl, refl)
without-waiting i (op ∷ ops) c h = elim (Bool-cases (op.id == i)) [
  | inl e ↦
      let s : op.started ≡ true = ground (arith, h, e) in
      (ground (arith, e, started-empty op ops c s), ground (arith, e, c))
  | inr e ↦
      let (a, b) = without-waiting i ops (ground (arith, c)) (ground (arith, h, e)) in
      (ground (arith, e, ap (◌++◌ op.bytes) a), ground (arith, e, b, c))
]

abbrev bytes_of : Option WriteOp → List ℕ
bytes_of none = []
bytes_of (some op) = op.bytes

found_clean :
    (i : ℕ) (ops : List WriteOp)
    → is_clean ops ≡ true
    → spared (find i ops) ≡ true
    → is_nil (bytes_of (find i ops)) ≡ true
found_clean i [] c h = refl
found_clean i (op ∷ ops) c h = elim (Bool-cases (op.id == i)) [
  | inl e ↦ ground (arith, e, c, h)
  | inr e ↦ ground (arith, e, found_clean i ops (ground (arith, c)) (ground (arith, e, h)))
]

cancel_op-Accepts :
    (w : Writer) (i : ℕ) (o : Option WriteOp)
    → find i w.writes ≡ o
    → spared o ≡ true
    → is_clean w.writes ≡ true
    → Accepts w ([], cancel_op w i o)
cancel_op-Accepts w i none f h c = Accepts-refl w c
cancel_op-Accepts w i (some op) f h c =
    let spare : spared (find i w.writes) ≡ true = ap spared f ∙ h in
    let (same, clean) = without-waiting i w.writes c spare in
    let bare : is_nil op.bytes ≡ true =
      ap (λ o. is_nil (bytes_of o)) (sym f) ∙ found_clean i w.writes c spare in
    if_cases (λ t. Accepts w ([], t)) op.started _ _
      (λ k. (
        ground (arith, clean, bare),
        ap (λ t. w.handed ++ (t ++ waiting (without i w.writes))) (nil_lem op.bytes bare)
            ∙ ap (◌++◌ w.handed) same
            ∙ sym (append-nil (stream_of w)),
      ))
      (λ k. absurd (ground (arith, h, k)))

pub step-Accepts :
    (w : Writer) (e : Event) → spares w e ≡ true → is_clean w.writes ≡ true → Accepts w (step w e)
unfolding step cancel shut_down flush
step-Accepts w (writes r) h c = write-Accepts w r c
step-Accepts w (completes rs fs) h c = write_cb-Accepts w w.writes rs fs c
step-Accepts w (cancels i) h c = cancel_op-Accepts w i (find i w.writes) refl h c
step-Accepts w shuts_down h c =
    if_cases (λ t. Accepts w ([], t)) w.shut_wr _ _ (λ k. Accepts-refl w c)
      (λ k.
        if_cases (λ t. Accepts w ([], t)) (is_nil w.writes) _ _ (λ l. Accepts-refl w c)
          (λ l. Accepts-refl w c))
step-Accepts w (flushes op) h c =
    if_cases (λ t. Accepts w ([], t)) (is_nil w.writes) _ _ (λ k. Accepts-refl w c)
      (λ k. Accepts-refl w c)

-- Where nothing is left of the operations that are started, over every history of writes, completions,
-- cancellations, shutdowns and flushes in which no write is cancelled before it is started: the bytes
-- that libuv was given, and then those that wait, are those of the start and then the accepted ones, in
-- the order of the writes; none is lost, repeated or overtaken.
pub run-Accepts :
    (w : Writer) (es : List Event)
    → all_spared w es ≡ true
    → is_clean w.writes ≡ true
    → Accepts w (run w es)
unfolding run all_spared
run-Accepts w [] h c = Accepts-refl w c
run-Accepts w (e ∷ es) h c =
    let (bs, w') = step w e in
    let v = step-Accepts w e (ground (arith, h)) c in
    let (cs, w'') = run w' es in
    Accepts-trans w w' w'' bs cs v (run-Accepts w' es (ground (arith, h)) v.0)
