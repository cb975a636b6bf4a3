-- ===== src/Stream/Writes/Delivering.antt =====
-- What is written to a stream reaches libuv.
use ext_async.Prelude.{
  if_cases, ℕ, zero, suc, ◌-◌, ◌≡◌, refl, sym, ap, ◌∙◌, Bool, true, false, not, ◌&&◌, List, [], ◌∷◌,
  ◌++◌, Option, none, some, arith, is_nil, length, append-nil, List-cases, inl, inr, replicate,
}
use ext_async.Stream.Writes.{
  WriteOp, Writer, Request, Sent, Reply, try_write, started_now, write, writes_all, process_first,
  settle, of_flush, write_cb, find, cancel_op, cancel, shut_down, flush, Event, writes, completes,
  cancels, shuts_down, flushes, step, run,
}
use ext_async.Stream.Writes.Accepting.{stream_of, waiting, is_clean}
use ext_async.Stream.Writes.Order.{spared, spares, all_spared, step-Accepts, run-Accepts}

abbrev pub first_started : List WriteOp → Bool
first_started [] = true
first_started (op ∷ ops) = op.started

-- libuv has the first write, and no callback runs.
abbrev pub is_going : Writer → Bool
is_going w = first_started w.writes && not w.writing

-- Whether the tasks that a completion resumes from their flush write nothing.
abbrev pub is_quiet : Event → Bool
is_quiet (writes r) = true
is_quiet (completes rs fs) = is_nil fs
is_quiet (cancels i) = true
is_quiet shuts_down = true
is_quiet (flushes op) = true

abbrev pub all_quiet : List Event → Bool
all_quiet [] = true
all_quiet (e ∷ es) = is_quiet e && all_quiet es

started_now-going :
    (w : Writer) (r : Request) (s : Sent) (o : Option ℕ)
    → is_nil w.writes ≡ true
    → w.writing ≡ false
    → is_going (started_now w r s o).2 ≡ true
started_now-going w r s o n g = elim (List-cases w.writes) [
  | inl e ↦ go o e
  | inr (op, ops, e) ↦ absurd (ground (arith, n, e))
]
  where
    go : (o : Option ℕ) → w.writes ≡ [] → is_going (started_now w r s o).2 ≡ true
    go none e = ground (arith, e, g)
    go (some code) e = ground (arith, e, g)

first_started-append :
    (ops : List WriteOp) (op : WriteOp)
    → is_nil ops ≡ false
    → first_started ops ≡ true
    → first_started (ops ++ op ∷ []) ≡ true
first_started-append [] op n h = absurd (ground (arith, n))
first_started-append (x ∷ xs) op n h = h

write-going : (w : Writer) (r : Request) → is_going w ≡ true → is_going (write w r).2 ≡ true
unfolding write
write-going w r g =
    let op : WriteOp = record { id = r.id; bytes = r.bytes; started = false; async = r.async } in
    let s = try_write r.bytes r.tries in
    let P = λ (t : Reply × List ℕ × Writer). is_going t.2 ≡ true in
    if_cases P w.shut_wr _ _ (λ h. g)
      (λ h.
        if_cases P (is_nil w.writes && not w.writing) _ _
          (λ k. started_now-going w r s s.error (ground (arith, k)) (ground (arith, k)))
          (λ k. ground (arith, k, g, first_started-append w.writes op)))

process_first_started :
    (w : Writer) (ops : List WriteOp) → first_started (process_first w ops).writes ≡ true
unfolding process_first
process_first_started w [] = refl
process_first_started w (op ∷ ops) = ground arith

of_flush-nil : (ops : List ℕ) → of_flush ops [] ≡ []
of_flush-nil [] = refl
of_flush-nil (op ∷ ops) = refl

-- Nobody writes at the end of `write_cb`.
settle_quiet :
    (w : Writer)
    → ((settle w []).0 ≡ [])
      × ((settle w []).1.writes ≡ w.writes)
      × ((settle w []).1.writing ≡ false)
unfolding settle writes_all
settle_quiet w = ground (arith, of_flush-nil w.flush)

write_cb-going :
    (w : Writer) (ops : List WriteOp) (rs : List Request)
    → is_going (record w { writes = ops }) ≡ true
    → is_going (write_cb (record w { writes = ops }) rs []).1 ≡ true
unfolding write_cb
write_cb-going w [] rs g = g
write_cb-going w (op ∷ ops) rs g =
    let w2 = (writes_all (record w { writing = true; writes = ops }) rs).1 in
    let w3 = process_first w2 w2.writes in
    let (_, same, idle) = settle_quiet w3 in
    if_cases {A = List ℕ × Writer} (λ t. is_going t.1 ≡ true) op.started _ _
      (λ h. ground (arith, ap first_started same, idle, process_first_started w2 w2.writes))
      (λ h. g)

cancel-going :
    (w : Writer) (i : ℕ) (o : Option WriteOp)
    → spared o ≡ true
    → is_going w ≡ true
    → is_going (cancel_op w i o) ≡ true
cancel-going w i none h g = g
cancel-going w i (some op) h g = ground (arith, h, g)

step-going :
    (w : Writer) (e : Event)
    → spares w e ≡ true
    → is_quiet e ≡ true
    → is_going w ≡ true
    → is_going (step w e).1 ≡ true
unfolding step cancel shut_down flush
step-going w (writes r) h q g = write-going w r g
step-going w (completes rs []) h q g = write_cb-going w w.writes rs g
step-going w (completes rs (f ∷ fs)) h q g = absurd (ground (arith, q))
step-going w (cancels i) h q g = cancel-going w i (find i w.writes) h g
step-going w shuts_down h q g = ground (arith, g)
step-going w (flushes op) h q g = ground (arith, g)

run-going :
    (w : Writer) (es : List Event)
    → all_spared w es ≡ true
    → all_quiet es ≡ true
    → is_going w ≡ true
    → is_going (run w es).1 ≡ true
unfolding run all_spared
run-going w [] h q g = g
run-going w (e ∷ es) h q g =
    run-going (step w e).1 es (ground (arith, h)) (ground (arith, q))
      (step-going w e (ground (arith, h)) (ground (arith, q)) g)

-- libuv completes so many writes, and no task writes any more.
abbrev pub completions : ℕ → List Event
completions n = replicate n (completes [] [])

process_first-length :
    (w : Writer) (ops : List WriteOp) → length (process_first w ops).writes ≡ length ops
unfolding process_first
process_first-length w [] = refl
process_first-length w (op ∷ ops) = ground arith

write_cb_one :
    (w : Writer) (ops : List WriteOp)
    → first_started ops ≡ true
    → let (bs, w') = write_cb (record w { writes = ops }) [] [] in
      (bs ≡ []) × (length w'.writes ≡ length ops - 1)
unfolding write_cb writes_all
write_cb_one w [] g = (refl, omega arith)
write_cb_one w (op ∷ ops) g =
    let w2 = record w { writing = true; writes = ops } in
    let w3 = process_first w2 ops in
    let (nothing, same, _) = settle_quiet w3 in
    if_cases {A = List ℕ × Writer} (λ t. (t.0 ≡ []) × (length t.1.writes ≡ length (op ∷ ops) - 1))
      op.started _ _ (λ h. (nothing, omega (arith, ap length same, process_first-length w2 ops)))
      (λ h. absurd (ground (arith, g, h)))

nil_of_length : (ops : List WriteOp) → length ops ≡ 0 → ops ≡ []
nil_of_length [] h = refl
nil_of_length (x ∷ xs) h = absurd (omega (arith, h))

waiting_nil : (w : Writer) → w.writes ≡ [] → w.handed ≡ stream_of w
waiting_nil w e = sym (ap (λ ops. w.handed ++ waiting ops) e ∙ append-nil w.handed)

completed :
    (w : Writer)
    → is_going w ≡ true
    → ((step w (completes [] [])).0 ≡ [])
      × (length (step w (completes [] [])).1.writes ≡ length w.writes - 1)
unfolding step
completed w g = write_cb_one w w.writes (ground (arith, g))

-- As many completions as writes are listed hand all bytes over.
completions-handed :
    (n : ℕ) (w : Writer)
    → length w.writes ≡ n
    → is_clean w.writes ≡ true
    → is_going w ≡ true
    → let w' = (run w (completions n)).1 in (w'.writes ≡ []) × (w'.handed ≡ stream_of w)
unfolding run
completions-handed zero w l c g =
    (nil_of_length w.writes l, waiting_nil w (nil_of_length w.writes l))
completions-handed (suc n) w l c g =
    let e = completes [] [] in
    let w1 = (step w e).1 in
    let (nothing, fewer) = completed w g in
    let (c1, same) = step-Accepts w e refl c in
    let (a, b) =
      completions-handed n w1 (fewer ∙ omega (arith, l)) c1 (step-going w e refl refl g) in
    (a, b ∙ same ∙ ap (λ t. stream_of w ++ t) nothing ∙ append-nil (stream_of w))

-- Where nothing is left of the operations that are started, libuv has the first one, and no callback runs:
-- over every history of writes, completions, cancellations, shutdowns and flushes in which no write is
-- cancelled before it is started and no task writes that is resumed from a flush, the bytes that libuv was
-- given and then those that wait are those of the start and then the accepted ones, in the order of
-- the writes; and once libuv has completed as many writes as are listed, without further ones, no write is
-- listed and it was given them all, none lost, repeated or overtaken.
pub run-delivers :
    (w : Writer) (es : List Event)
    → all_spared w es ≡ true
    → all_quiet es ≡ true
    → is_clean w.writes ≡ true
    → is_going w ≡ true
    → let (bs, w') = run w es in
      let last = (run w' (completions (length w'.writes))).1 in
      (stream_of w' ≡ stream_of w ++ bs) × (last.writes ≡ []) × (last.handed ≡ stream_of w ++ bs)
run-delivers w es h q c g =
    let (bs, w') = run w es in
    let (clean, same) = run-Accepts w es h c in
    let (a, b) = completions-handed (length w'.writes) w' refl clean (run-going w es h q g) in
    (same, a, b ∙ same)
