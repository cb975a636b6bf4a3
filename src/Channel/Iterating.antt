-- ===== src/Channel/Iterating.antt =====
-- Iterating over a channel.
use ext_async.Prelude.{
  ◌≡◌, refl, ap, ap₂, ◌∙◌, ◌⊎◌, inl, inr, Bool, true, false, List, [], ◌∷◌, ◌++◌, arith, length,
  length-append, Bool-cases,
}
use ext_async.Ring
use ext_async.Php.{Value, undef, fresh, iterator_fetching, increment, Completion}
use ext_async.Channel.{State, readable}
use ext_async.Channel.Iterator.{
  Iterator, Step, done, suspended, thrown, fetch_or_wait, fetch_next_entry, next, at_end,
  after_fetch,
}
use ext_async.Channel.Inv.{IsValid}
use ext_async.Channel.Fifo.{
  pending, buffered, values, fetch_noblock-Takes, fetch_or_wait-some, fetch_or_wait-none,
}

-- An iterator that is already waiting for a message refuses to fetch another one, and changes
-- nothing.
fetch_next_entry_busy :
    (it : Iterator) (st : State) (bg : Bool)
    → it.fetching ≡ true
    → fetch_next_entry it st bg ≡ (thrown (fresh iterator_fetching), it, st, [])
unfolding fetch_next_entry
fetch_next_entry_busy it st bg h = rw h refl

-- Past the end of a closed channel: the iterator has no entry, and the close reason is thrown.
pub record Ended (it : Iterator) (st : State) (r : Step × Iterator × State × List Completion)
    : Type 0 where
  closed : st.closed ≡ true
  none_left : pending st ≡ []
  result : r ≡ at_end (record it { entry = undef }) st

-- No message is there: the task waits, and its operation is the last of the receivers.
pub record Waits (it : Iterator) (st : State) (r : Step × Iterator × State × List Completion)
    : Type 0 where
  open_channel : st.closed ≡ false
  none_left : pending st ≡ []
  step : r.0 ≡ suspended
  fetching : r.1.fetching ≡ true
  queued : r.2.receivers ≡ st.receivers ++ it.op ∷ []

-- The oldest message becomes the entry, under the next key, and the others stay.
pub record Arrives (it : Iterator) (st : State) (r : Step × Iterator × State × List Completion)
    : Type 0 where
  entry : Value
  rest : List Value
  was : pending st ≡ entry ∷ rest
  left : pending r.2 ≡ rest
  step : r.0 ≡ done
  iterator : r.1 ≡ record it { entry = entry; pos = increment it.pos }

not_readable :
    (st : State) → IsValid st → readable st ≡ false → (st.closed ≡ true) × (pending st ≡ [])
unfolding readable
not_readable st v h =
    let len0 : st.len ≡ 0 = ground (arith, h) in
    let shut : st.closed ≡ true = ground (arith, h) in
    (
      shut,
      ap₂ ◌++◌ (ap (Ring.cells undef st.size st.cells st.rpos) len0)
          (ap values (v.closed_quiet shut).0),
    )

next_fetches :
    (it : Iterator) (st : State) (bg : Bool)
    → it.fetching ≡ false
    → readable st ≡ true
    → next it st bg ≡ after_fetch (record it { entry = undef }) (fetch_or_wait st it.op bg)
unfolding next
next_fetches it st bg idle more = rw more (rw idle refl)

next_ends :
    (it : Iterator) (st : State) (bg : Bool)
    → readable st ≡ false
    → next it st bg ≡ at_end (record it { entry = undef }) st
unfolding next
next_ends it st bg end = rw end refl

open_of_readable :
    (st : State) → IsValid st → readable st ≡ true → pending st ≡ [] → st.closed ≡ false
unfolding readable
open_of_readable st v more e =
    let len0 : st.len ≡ 0 = omega (
      arith,
      ap length e,
      length-append (buffered st) (values st.senders),
      Ring.length-cells undef st.size st.cells st.rpos st.len,
    ) in
    ground (arith, v, len0, more)

-- On a valid channel `ChannelIterator::next` of an iterator that is not waiting already does one of
-- three things: the channel is closed and has no message left, and it ends, with the error that
-- closed the channel if there is one; the channel is open and has no message, and its operation is
-- queued behind the receivers; or the oldest message becomes its entry, under the next key.
pub next_lem :
    (it : Iterator) (st : State) (bg : Bool)
    → IsValid st
    → it.fetching ≡ false
    → Ended it st (next it st bg) ⊎ Waits it st (next it st bg) ⊎ Arrives it st (next it st bg)
next_lem it st bg v idle = elim (Bool-cases (readable st)) [
  | inr end ↦
      let (shut, nothing) = not_readable st v end in
      inl (record { closed = shut; none_left = nothing; result = next_ends it st bg end })
  | inl more ↦ elim (fetch_noblock-Takes st v) [
    | inl (e, r) ↦ inr (
        inl (
          rw
            (next_fetches it st bg idle more
              ∙ ap (after_fetch (record it { entry = undef })) (fetch_or_wait-none st it.op bg r))
            (record {
              open_channel = open_of_readable st v more e;
              none_left = e;
              step = refl;
              fetching = refl;
              queued = refl;
            })))
    | inr (x, rest, e, got, left, quiet) ↦ inr (
        inr (
          rw
            (next_fetches it st bg idle more
              ∙ ap (after_fetch (record it { entry = undef }))
                  (fetch_or_wait-some st it.op bg x got))
            (record {
              entry = x;
              rest = rest;
              was = e;
              left = left;
              step = refl;
              iterator = refl;
            })))
  ]
]
