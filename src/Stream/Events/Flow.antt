-- ===== src/Stream/Events/Flow.antt =====
-- What comes in through the network goes out to the readers, in order.
use ext_async.Prelude.{
  if_both, length-take_min, inl, inr, ℕ, ◌≡◌, refl, sym, ap, ◌∙◌, min, Bool, true, false, List, [],
  ◌∷◌, ◌++◌, arith, length, take, drop, append_assoc, Option-cases, ◌==◌,
}
use ext_async.RingBuffer.{write_len, write_move}
use ext_async.RingBuffer.Writing.{store, write_move_lem}
use ext_async.Stream.{
  cancelled, timed_out, system, Stream, Request, Answer, bytes, error, Error, finish, reads, serve,
  finish_all, stream_read, answer_list,
}
use ext_async.Stream.Events.{
  on_stream, arrives, hangs_up, fails, asks, times_out, aborts, closes, shuts_down, Link, Requests,
  read_tail, arrive, interrupt, close, shut_down, Event, step, run,
}
use ext_async.Stream.Serving.{serve-Flows, finish_all-Flows}
use ext_async.Stream.Buffering.{
  take-drop, given-append, IsSound, given, held, Flows, Flows-append, finish-IsSound, reads-Flows,
  stream_read-Flows,
}

stopped-IsSound : (st : Stream) → IsSound st → IsSound (record st { reading = false })
stopped-IsSound st v = ground (arith, v)

read_tail-Flows :
    (st : Stream) (ended : Bool) (env last : Requests)
    → IsSound st
    → Flows st (read_tail st ended env last)
unfolding read_tail
read_tail-Flows st ended env last v =
    let f = serve-Flows st env v in
    let (out, st') = serve st env in
    let idle = record st' { reading = false } in
    let (rest, end) = finish_all (bytes []) idle last in
    let g =
      Flows-append st st' end out rest f
        (finish_all-Flows (bytes []) idle last refl (stopped-IsSound st' f.0)) in
    ground (arith, f, g, stopped-IsSound st' f.0)

interrupt-Flows :
    (e : Error) (st : Stream) (rs : List Request) → IsSound st → Flows st (interrupt e st rs)
unfolding interrupt
interrupt-Flows e st rs v = elim (Option-cases st.running) [
  | inl q ↦ rw (q, interrupt) (v, refl)
  | inr (r, q) ↦
      let f = finish-IsSound st r v in
      rw (q, interrupt)
        (Flows-append st (finish st r) (reads (finish st r) rs).1 (error e ∷ [])
          (reads (finish st r) rs).0 f (reads-Flows (finish st r) rs f.0))
]

abbrev pub Preserves : Link → List Answer × Link → Type 0
Preserves l (out, l') =
    IsSound l'.stream × (given out ++ (held l'.stream ++ l'.network) ≡ held l.stream ++ l.network)

-- A function that leaves the network alone.
Preserves-Flows :
    (l : Link) (r : List Answer × Stream) → Flows l.stream r → Preserves l (on_stream l r)
Preserves-Flows l (out, st) f =
    (f.0, sym (append_assoc (given out) (held st) l.network) ∙ ap (λ t. t ++ l.network) f.1)

close-Flows : (st : Stream) (rs : List Request) → IsSound st → Flows st (close st rs)
unfolding close
close-Flows st rs v =
    if_both (Flows st) st.closed _ _ (v, refl) (interrupt-Flows cancelled _ rs (ground (arith, v)))

shut_down-Flows : (st : Stream) (rs : List Request) → IsSound st → Flows st (shut_down st rs)
unfolding shut_down
shut_down-Flows st rs v =
    if_both (Flows st) st.shut_rd _ _ (ground (arith, v), refl)
      (interrupt-Flows cancelled _ rs (ground (arith, v)))

-- The bytes that libuv hands over go behind the buffered ones.
arrive-Preserves :
    (l : Link) (n : ℕ) (env last : Requests) → IsSound l.stream → Preserves l (arrive l n env last)
unfolding arrive
arrive-Preserves l n env last v =
    let st = l.stream in
    let m = min n (write_len st.buffer) in
    let got = take m l.network in
    let stored = record (st.buffer) { base = store st.buffer.base st.buffer.wpos got } in
    let filled = write_move stored (length got) in
    let (ok, more) =
      write_move_lem st.buffer got v.ring (omega (arith, length-take_min m l.network)) in
    let st' = record st { buffer = filled } in
    let (sound, e) =
      read_tail-Flows st' false env last (record { allocated = v.allocated; ring = ok }) in
    if_both (Preserves l) (length got == 0) _ _ (v, refl)
      (
        sound,
        sym (append_assoc (given (read_tail st' false env last).0) _ (drop m l.network))
            ∙ ap (λ t. t ++ drop m l.network) (e ∙ more)
            ∙ append_assoc (held st) got (drop m l.network)
            ∙ ap (◌++◌ (held st)) (take-drop m l.network),
      )

step-Preserves : (l : Link) (e : Event) → IsSound l.stream → Preserves l (step l e)
unfolding step
step-Preserves l (arrives n env last) v =
    if_both (Preserves l) l.stream.reading _ _ (arrive-Preserves l n env last v) (v, refl)
step-Preserves l (hangs_up env last) v =
    let st = record (l.stream) { eof = true } in
    if_both (Preserves l) l.stream.reading _ _
      (Preserves-Flows l (read_tail st true env last)
        (read_tail-Flows st true env last (ground (arith, v))))
      (v, refl)
step-Preserves l (fails code env) v =
    let st = record (l.stream) { reading = false } in
    if_both (Preserves l) l.stream.reading _ _
      (Preserves-Flows l (finish_all (error (system code)) st env)
        (finish_all-Flows (error (system code)) st env refl (ground (arith, v))))
      (v, refl)
step-Preserves l (asks r) v =
    let (o, st) = stream_read l.stream r in
    Preserves-Flows l (answer_list o, st) (stream_read-Flows l.stream r v)
step-Preserves l (times_out rs) v =
    Preserves-Flows l (interrupt timed_out l.stream rs) (interrupt-Flows timed_out l.stream rs v)
step-Preserves l (aborts rs) v =
    Preserves-Flows l (interrupt cancelled l.stream rs) (interrupt-Flows cancelled l.stream rs v)
step-Preserves l (closes rs) v = Preserves-Flows l (close l.stream rs) (close-Flows l.stream rs v)
step-Preserves l (shuts_down rs) v =
    Preserves-Flows l (shut_down l.stream rs) (shut_down-Flows l.stream rs v)

-- On a stream whose buffer is sound, over every history of arrivals, ends, errors, reads, timeouts,
-- cancellations, closes and shutdowns: the bytes that the reads are answered with, then those that
-- the buffer holds, then those still in the network, are the ones that were in the buffer and in the
-- network at the start, in this order; and the buffer stays sound.
pub run-Preserves : (l : Link) (es : List Event) → IsSound l.stream → Preserves l (run l es)
unfolding run
run-Preserves l [] v = (v, refl)
run-Preserves l (e ∷ es) v =
    let (sound, f) = step-Preserves l e v in
    let (out, l') = step l e in
    let (sound', g) = run-Preserves l' es sound in
    let (rest, l'') = run l' es in
    (
      sound',
      ap (λ t. t ++ (held l''.stream ++ l''.network)) (given-append out rest)
          ∙ append_assoc (given out) (given rest) (held l''.stream ++ l''.network)
          ∙ ap (◌++◌ (given out)) g
          ∙ f,
    )
