-- ===== src/Udp/Events/Sending.antt =====
-- The requests of libuv and the list of senders, and whoever flushes a socket.
use ext_async.Prelude.{
  ℕ, zero, suc, ◌≡◌, refl, subst, ap, ◌∙◌, true, false, not, ◌&&◌, ◌||◌, List, [], ◌∷◌, Option,
  none, some, arith, is_nil, if_cases, if_both, List-cases, Option-cases, inl, inr, Bool, Ends,
}
use ext_async.Php.{ℤ}
use ext_async.Udp.{Sender, Socket, cancel_receive, cancel_send, Call, leave, note, flushed, mark}
use ext_async.Udp.Events.{
  alloc_buffer, stop_idle, is_zero, delivered, socket_received, finish_flush, find, done, sent_by,
  map_calls, sent_op, socket_sent, Event, runs, arrives, sends_done, cancels_send, cancels_receive,
  arrive, step, run, received_by,
}
use ext_async.Udp.Events.Receiving.{arrive_lem}
use ext_async.Udp.Events.Queued.{ops_of, IsQueued, IsSending, calls-IsQueued, calls-IsSending}

-- The loop over `flush` leaves nobody behind.
finish_flush-Ends :
    (c : Bool) (fuel : ℕ) (again : ℕ → List Call) (s : Socket)
    → IsQueued c s
    → Ends (IsSending c) (finish_flush fuel again s)
unfolding finish_flush
finish_flush-Ends c zero again s v = tt
finish_flush-Ends c (suc fuel) again s v = elim (List-cases s.flush) [
  | inl e ↦ rw (e, Ends, finish_flush) (record { queued = v; flushing = λ o. ground (arith, e) })
  | inr (op, ops, e) ↦
      rw (e, finish_flush)
        (finish_flush-Ends c fuel again _ (
          calls-IsQueued c (note (record s { flush = ops }) (flushed op)) (again op)
            (ground (arith, v, e))))
]

map_calls-Ends :
    (c : Bool) (o : Option Socket) (op : ℕ) (ks : List Call)
    → Ends (IsSending c) o
    → Ends (IsSending c) (map_calls o op ks)
unfolding map_calls
map_calls-Ends c none op ks v = tt
map_calls-Ends c (some s) op ks v =
    calls-IsSending c _ ks
      (record { queued = ground (arith, v.queued); flushing = ground (arith, v.flushing) })

-- The first sender is the one whose request libuv has done.
done-IsQueued :
    (c : Bool) (s : Socket) (d : Sender) (ds : List Sender) (ops : List ℕ) (background : Bool)
    → s.closing ≡ false
    → s.senders ≡ d ∷ ds
    → s.queued ≡ d.op ∷ ops
    → IsQueued c s
    → IsQueued c (leave (done (record s { queued = ops }) d.op) background)
done-IsQueued c s d ds ops background o h q v = ground (arith, v, h, q, o)

sent_op-Ends :
    (c : Bool) (fuel : ℕ) (s : Socket) (d : Sender) (ds : List Sender) (ops : List ℕ)
    (again : ℕ → List Call)
    → s.closing ≡ false
    → s.senders ≡ d ∷ ds
    → s.queued ≡ d.op ∷ ops
    → IsSending c s
    → Ends (IsSending c) (sent_op fuel (record s { queued = ops }) (some d) d.op again)
unfolding sent_op sent_by
sent_op-Ends c fuel s d ds ops again o h q v =
    let s' = done (record s { queued = ops }) d.op in
    let w = λ (b : Bool). done-IsQueued c s d ds ops b o h q v.queued in
    if_cases (Ends (IsSending c)) (d.cancelled && not d.intercepted) (some s') _
      (λ t. record { queued = w true; flushing = λ _. ground (arith, t, v.queued, o, h) })
      (λ _. map_calls-Ends c _ d.op (again d.op) (
        if_cases (Ends (IsSending c)) (is_nil s'.senders) _ _
          (λ _. finish_flush-Ends c fuel again _ (w d.background))
          (λ t. record { queued = w d.background; flushing = λ _. ground (arith, t) })))

find_first : (d : Sender) (ds : List Sender) → find d.op (d ∷ ds) ≡ some d
find_first d ds = ground arith

socket_sent-Ends :
    (c : Bool) (fuel : ℕ) (s : Socket) (again : ℕ → List Call)
    → s.closing ≡ false
    → IsSending c s
    → Ends (IsSending c) (socket_sent fuel s again)
unfolding socket_sent
socket_sent-Ends c fuel s again o v = elim (List-cases s.senders) [
  | inl e ↦ rw (v.queued.requests o ∙ ap ops_of e, Ends, socket_sent) v
  | inr (d, ds, e) ↦
      let q : s.queued ≡ d.op ∷ ops_of ds = v.queued.requests o ∙ ap ops_of e in
      let f : find d.op s.senders ≡ some d = ap (find d.op) e ∙ find_first d ds in
      rw (q, socket_sent, f) (sent_op-Ends c fuel s d ds (ops_of ds) again o e q v)
]

stop_idle-IsSending : (c : Bool) (s : Socket) → IsSending c s → IsSending c (stop_idle s)
stop_idle-IsSending c s v =
    if_both (IsSending c) (is_nil s.receivers) _ _
      (record { queued = ground (arith, v.queued); flushing = ground (arith, v.flushing) }) v

arrive-Ends :
    (c : Bool) (s : Socket) (nread : ℤ) (again : ℕ → List Call)
    → IsSending c s
    → Ends (IsSending c) (arrive s nread again)
unfolding arrive alloc_buffer socket_received received_by
arrive-Ends c s nread again v = elim (List-cases s.receivers) [
  | inl e ↦ rw (e, Ends, arrive, alloc_buffer) tt
  | inr (r, rs, e) ↦ rw (arrive_lem s r rs nread again e) (
      if_both (Ends (IsSending c)) (is_zero nread) _ _ v (
        stop_idle-IsSending c _ (
          calls-IsSending c (delivered s r rs nread) (again r.op)
            (record { queued = ground (arith, v.queued); flushing = ground (arith, v.flushing) }))))
]

-- Sends are cancelled only where the flag says so.
abbrev pub Cancels : Bool → Event → Type 0
Cancels true e = Unit {0}
Cancels false (cancels_send op background e) = ⊥
Cancels false e = Unit {0}

abbrev pub AllCancels : Bool → List Event → Type 0
AllCancels c [] = Unit {0}
AllCancels c (e ∷ es) = Cancels c e × AllCancels c es

ops-mark : (op : ℕ) (ds : List Sender) → ops_of (mark op ds) ≡ ops_of ds
ops-mark op [] = refl
ops-mark op (d ∷ ds) = ground (arith, ops-mark op ds)

nil-mark : (op : ℕ) (ds : List Sender) → is_nil (mark op ds) ≡ is_nil ds
nil-mark op [] = refl
nil-mark op (d ∷ ds) = ground arith

step-Ends :
    (c : Bool) (s : Socket) (e : Event)
    → Cancels c e
    → IsSending c s
    → Ends (IsSending c) (step s e)
unfolding step cancel_send cancel_receive
step-Ends c s (runs ks) k v = calls-IsSending c s ks v
step-Ends c s (arrives nread again) k v =
    if_both (Ends (IsSending c)) s.listening _ _ (arrive-Ends c s nread again v) v
step-Ends c s (sends_done fuel again) k v =
    if_cases (Ends (IsSending c)) s.closing _ _ (λ _. v) (λ o. socket_sent-Ends c fuel s again o v)
step-Ends true s (cancels_send op background e) k v = record {
  queued = ground (arith, v.queued, ops-mark op s.senders, nil-mark op s.senders);
  flushing = λ _. refl;
}
step-Ends false s (cancels_send op background e) k v = absurd k
step-Ends c s (cancels_receive op background e) k v = record {
  queued = ground (arith, v.queued);
  flushing = ground (arith, v.flushing);
}

run-Ends :
    (c : Bool) (s : Socket) (es : List Event)
    → AllCancels c es
    → IsSending c s
    → Ends (IsSending c) (run s es)
unfolding run
run-Ends c s [] k v = v
run-Ends c s (e ∷ es) k v = elim (Option-cases (step s e)) [
  | inl h ↦ rw h tt
  | inr (s', h) ↦ rw h (run-Ends c s' es k.1 (subst (Ends (IsSending c)) h (step-Ends c s e k.0 v)))
]

-- Over every history, in which each callback ended, of a socket for which it held before: while the
-- socket is open, the requests that libuv holds are exactly the operations in the list of senders, in
-- the same order, so that none of them was freed; and unless sends were cancelled, whoever flushes
-- the socket waits for a datagram that is still to be sent.
pub run-sends :
    (cancels : Bool) (s : Socket) (es : List Event) (u : Socket)
    → AllCancels cancels es
    → IsSending cancels s
    → run s es ≡ some u
    → u.closing ≡ false
    → (u.queued ≡ ops_of u.senders)
      × ((cancels || (is_nil u.flush || not (is_nil u.senders))) ≡ true)
run-sends c s es u k v r o =
    let w : IsSending c u = subst (Ends (IsSending c)) r (run-Ends c s es k v) in
    (w.queued.requests o, w.flushing o)
