-- ===== src/Udp/Events/Receiving.antt =====
-- Whoever receives from a socket is received for, and the other way round.
use ext_async.Prelude.{
  Ends, ℕ, zero, suc, ◌≡◌, refl, subst, true, false, not, ◌&&◌, ◌||◌, List, [], ◌∷◌, ◌++◌, Option,
  none, some, arith, if◌then◌else◌, is_nil, if_both, List-cases, Option-cases, inl, inr,
}
use ext_async.Php.{ℤ}
use ext_async.Udp.{
  Receiver, Sender, Socket, is_none, receive, send, flush, close, shutdown, cancel_send, Call,
  receives, sends, flushes, closes, call, calls, accepted, busy, refused, leave,
}
use ext_async.Udp.Events.{
  alloc_buffer, stop_idle, is_zero, delivered, socket_received, finish_flush, find, done, sent_by,
  map_calls, sent_op, socket_sent, Event, runs, arrives, sends_done, cancels_send, cancels_receive,
  arrive, step, run, received_by,
}

-- While a socket is open, libuv receives exactly while somebody waits for a datagram; after an error
-- nobody waits.
pub record IsReceiving (s : Socket) : Type 0 where
  pub served : s.closing ≡ false → s.listening ≡ not (is_nil s.receivers)
  pub flagged : s.closing ≡ false → s.receiving ≡ s.listening
  pub closed : s.closing ≡ true → (is_nil s.receivers && not s.listening) ≡ true
  pub failed : is_none s.error ≡ not s.closing

nil-append_one {ℓ} : {A : Type ℓ} (xs : List A) (x : A) → is_nil (xs ++ x ∷ []) ≡ false
nil-append_one [] x = refl
nil-append_one (y ∷ xs) x = refl

call-IsReceiving : (s : Socket) (c : Call) → IsReceiving s → IsReceiving (call s c)
unfolding call receive send flush close shutdown
call-IsReceiving s (receives op size background code) v =
    ground (arith, v, nil-append_one s.receivers)
call-IsReceiving s (sends d addressed accepted code) v = ground (arith, v)
call-IsReceiving s (sends d addressed busy code) v = ground (arith, v)
call-IsReceiving s (sends d addressed (refused e) code) v = ground (arith, v)
call-IsReceiving s (flushes op) v = ground (arith, v)
call-IsReceiving s (closes e) v = ground (arith, v)

pub calls-IsReceiving : (s : Socket) (cs : List Call) → IsReceiving s → IsReceiving (calls s cs)
unfolding calls
calls-IsReceiving s [] v = v
calls-IsReceiving s (c ∷ cs) v = calls-IsReceiving (call s c) cs (call-IsReceiving s c v)

-- While a task that received runs, libuv still receives, also where nobody else waits.
record IsServing (s : Socket) : Type 0 where
  served : s.closing ≡ false → (is_nil s.receivers || s.listening) ≡ true
  flagged : s.closing ≡ false → s.receiving ≡ s.listening
  closed : s.closing ≡ true → (is_nil s.receivers && not s.listening) ≡ true
  failed : is_none s.error ≡ not s.closing

call-IsServing : (s : Socket) (c : Call) → IsServing s → IsServing (call s c)
unfolding call receive send flush close shutdown
call-IsServing s (receives op size background code) v =
    ground (arith, v, nil-append_one s.receivers)
call-IsServing s (sends d addressed accepted code) v = ground (arith, v)
call-IsServing s (sends d addressed busy code) v = ground (arith, v)
call-IsServing s (sends d addressed (refused e) code) v = ground (arith, v)
call-IsServing s (flushes op) v = ground (arith, v)
call-IsServing s (closes e) v = ground (arith, v)

calls-IsServing : (s : Socket) (cs : List Call) → IsServing s → IsServing (calls s cs)
unfolding calls
calls-IsServing s [] v = v
calls-IsServing s (c ∷ cs) v = calls-IsServing (call s c) cs (call-IsServing s c v)

delivered-IsServing :
    (s : Socket) (r : Receiver) (rs : List Receiver) (nread : ℤ)
    → s.receivers ≡ r ∷ rs
    → IsReceiving s
    → IsServing (delivered s r rs nread)
delivered-IsServing s r rs nread h v = ground (arith, v, h)

stop_idle-IsReceiving : (s : Socket) → IsServing s → IsReceiving (stop_idle s)
stop_idle-IsReceiving s v = ground (arith, v)

arrived-IsReceiving :
    (s : Socket) (r : Receiver) (rs : List Receiver) (nread : ℤ) (again : ℕ → List Call)
    → s.receivers ≡ r ∷ rs
    → IsReceiving s
    → IsReceiving (stop_idle (calls (delivered s r rs nread) (again r.op)))
arrived-IsReceiving s r rs nread again h v =
    stop_idle-IsReceiving _ (calls-IsServing _ (again r.op) (delivered-IsServing s r rs nread h v))

-- Datagrams that arrive while somebody waits.
pub arrive_lem :
    (s : Socket) (r : Receiver) (rs : List Receiver) (nread : ℤ) (again : ℕ → List Call)
    → s.receivers ≡ r ∷ rs
    → arrive s nread again ≡ (
        if is_zero nread
        then some s
        else some (stop_idle (calls (delivered s r rs nread) (again r.op))))
unfolding arrive alloc_buffer socket_received received_by
arrive_lem s r rs nread again h = ground (arith, h)

arrive-Ends :
    (s : Socket) (r : Receiver) (rs : List Receiver) (nread : ℤ) (again : ℕ → List Call)
    → s.receivers ≡ r ∷ rs
    → IsReceiving s
    → Ends IsReceiving (arrive s nread again)
arrive-Ends s r rs nread again h v =
    rw (arrive_lem s r rs nread again h) (
      if_both (Ends IsReceiving) (is_zero nread) _ _ v (arrived-IsReceiving s r rs nread again h v))

finish_flush-Ends :
    (fuel : ℕ) (again : ℕ → List Call) (s : Socket)
    → IsReceiving s
    → Ends IsReceiving (finish_flush fuel again s)
unfolding finish_flush
finish_flush-Ends zero again s v = tt
finish_flush-Ends (suc fuel) again s v = elim (List-cases s.flush) [
  | inl e ↦ rw (e, Ends, finish_flush) v
  | inr (op, ops, e) ↦
      rw (e, finish_flush)
        (finish_flush-Ends fuel again _ (calls-IsReceiving _ (again op) (ground (arith, v))))
]

map_calls-Ends :
    (o : Option Socket) (op : ℕ) (cs : List Call)
    → Ends IsReceiving o
    → Ends IsReceiving (map_calls o op cs)
unfolding map_calls
map_calls-Ends none op cs v = tt
map_calls-Ends (some s) op cs v = calls-IsReceiving _ cs (ground (arith, v))

sent_op-Ends :
    (fuel : ℕ) (s : Socket) (o : Option Sender) (op : ℕ) (again : ℕ → List Call)
    → IsReceiving s
    → Ends IsReceiving (sent_op fuel s o op again)
unfolding sent_op sent_by
sent_op-Ends fuel s none op again v = tt
sent_op-Ends fuel s (some d) op again v =
    let s' = leave (done s d.op) d.background in
    let w : IsReceiving s' = ground (arith, v) in
    let drained =
      if_both (Ends IsReceiving) (is_nil s'.senders) (finish_flush fuel again s') (some s')
        (finish_flush-Ends fuel again s' w) w in
    if_both (Ends IsReceiving) (d.cancelled && not d.intercepted) (some (done s op)) _
      (ground (arith, v)) (map_calls-Ends _ d.op (again d.op) drained)

socket_sent-Ends :
    (fuel : ℕ) (s : Socket) (again : ℕ → List Call)
    → IsReceiving s
    → Ends IsReceiving (socket_sent fuel s again)
unfolding socket_sent
socket_sent-Ends fuel s again v = elim (List-cases s.queued) [
  | inl e ↦ rw (e, Ends, socket_sent) v
  | inr (op, ops, e) ↦
      rw (e, socket_sent)
        (sent_op-Ends fuel (record s { queued = ops }) (find op s.senders) op again
          (ground (arith, v)))
]

-- No receive is cancelled.
abbrev pub Receives : List Event → Type 0
Receives [] = Unit {0}
Receives (cancels_receive op background e ∷ es) = ⊥
Receives (e ∷ es) = Receives es

arrives-Ends :
    (s : Socket) (nread : ℤ) (again : ℕ → List Call)
    → IsReceiving s
    → Ends IsReceiving (step s (arrives nread again))
unfolding step
arrives-Ends s nread again v = elim (List-cases s.receivers) [
  | inl e ↦ ground (arith, v, e)
  | inr (r, rs, e) ↦
      if_both (Ends IsReceiving) s.listening _ _ (arrive-Ends s r rs nread again e v) v
]

step-Ends :
    (s : Socket) (e : Event) → IsReceiving s → Receives (e ∷ []) → Ends IsReceiving (step s e)
unfolding step cancel_send
step-Ends s (runs cs) v k = calls-IsReceiving s cs v
step-Ends s (arrives nread again) v k = arrives-Ends s nread again v
step-Ends s (sends_done fuel again) v k =
    if_both (Ends IsReceiving) s.closing _ _ v (socket_sent-Ends fuel s again v)
step-Ends s (cancels_send op background e) v k = ground (arith, v)
step-Ends s (cancels_receive op background e) v k = absurd k

Receives-first : (e : Event) (es : List Event) → Receives (e ∷ es) → Receives (e ∷ []) × Receives es
Receives-first (runs cs) es k = (tt, k)
Receives-first (arrives nread again) es k = (tt, k)
Receives-first (sends_done fuel again) es k = (tt, k)
Receives-first (cancels_send op background e) es k = (tt, k)
Receives-first (cancels_receive op background e) es k = absurd k

run-Ends :
    (s : Socket) (es : List Event) → IsReceiving s → Receives es → Ends IsReceiving (run s es)
unfolding run
run-Ends s [] v k = v
run-Ends s (e ∷ es) v k =
    let (one, more) = Receives-first e es k in
    elim (Option-cases (step s e)) [
      | inl h ↦ rw h tt
      | inr (s', h) ↦ rw h (run-Ends s' es (subst (Ends IsReceiving) h (step-Ends s e v one)) more)
    ]

-- What a datagram, or an error, should do: it goes to the task that waits longest.
abbrev pub served_first : Socket → List Receiver → ℤ → (ℕ → List Call) → Socket
served_first s [] nread again = s
served_first s (r ∷ rs) nread again =
    if is_zero nread then s else stop_idle (calls (delivered s r rs nread) (again r.op))

arrives_lem :
    (s : Socket) (nread : ℤ) (again : ℕ → List Call)
    → IsReceiving s
    → s.closing ≡ false
    → step s (arrives nread again) ≡ some (served_first s s.receivers nread again)
unfolding step
arrives_lem s nread again v o = elim (List-cases s.receivers) [
  | inl e ↦ ground (arith, v, e, o)
  | inr (r, rs, e) ↦ ground (arith, v, e, o, arrive_lem s r rs nread again e)
]

-- Over every history of a socket without a cancelled receive, for which it held before: while the socket
-- is open, libuv receives exactly while somebody waits, and what arrives never finds nobody; it is
-- handed to the task that waits longest and to no other one, whose task then runs, and afterwards libuv
-- receives exactly while somebody waits.
pub run-Receives :
    (s : Socket) (es : List Event) (u : Socket) (nread : ℤ) (again : ℕ → List Call)
    → IsReceiving s
    → Receives es
    → run s es ≡ some u
    → u.closing ≡ false
    → let u' = served_first u u.receivers nread again in
      (u.listening ≡ not (is_nil u.receivers))
      × (step u (arrives nread again) ≡ some u')
      × IsReceiving u'
run-Receives s es u nread again v k r o =
    let w : IsReceiving u = subst (Ends IsReceiving) r (run-Ends s es v k) in
    let h = arrives_lem u nread again w o in
    (w.served o, h, subst (Ends IsReceiving) h (arrives-Ends u nread again w))
