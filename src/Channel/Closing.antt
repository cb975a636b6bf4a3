-- ===== src/Channel/Closing.antt =====
-- Closing and releasing a channel.
use native.Mathlib.Nat.{mod-mod, mod-zero, mod-eq_of_lt}
use mathlib.Core.List.{map-append}
use ext_async.Prelude.{
  ℕ, zero, suc, ◌+◌, ◌%◌, ◌≡◌, refl, sym, ap, ap₂, ◌∙◌, inl, inr, Bool, true, false, List, [], ◌∷◌,
  ◌++◌, map, Option, none, some, arith, append-nil, ltb, if◌then◌else◌, get_or, Bool-cases,
}
use ext_async.Ring
use ext_async.Php.{
  Value, undef, Throwable, fresh, caused, channel_closed, finish_or_fail, completed,
}
use ext_async.Scheduler.{unregister}
use ext_async.Channel.{
  State, Sender, dispose_state, close_with, drain, release_state, freed, send, thrown,
}
use ext_async.Channel.Inv.{IsValid}
use ext_async.Channel.Fifo.{buffered, pending}

abbrev pub ops : List Sender → List ℕ
ops = map (λ s. s.op)

completed-finish_or_fail : (r : Option Throwable) (op : ℕ) → completed (finish_or_fail r op) ≡ op
unfolding completed finish_or_fail
completed-finish_or_fail none op = refl
completed-finish_or_fail (some e) op = refl

completed-receivers :
    (r : Option Throwable) (xs : List ℕ) → map completed (map (finish_or_fail r) xs) ≡ xs
completed-receivers r [] = refl
completed-receivers r (x ∷ xs) = ap₂ ◌∷◌ (completed-finish_or_fail r x) (completed-receivers r xs)

completed-senders :
    (r : Option Throwable) (xs : List Sender)
    → map completed (map (λ (s : Sender). finish_or_fail r s.op) xs) ≡ ops xs
completed-senders r [] = refl
completed-senders r (x ∷ xs) = ap₂ ◌∷◌ (completed-finish_or_fail r x.op) (completed-senders r xs)

closed_state : State → Option Throwable → State
closed_state st e = record st {
  scheduler = unregister st.address st.scheduler;
  cancel = false;
  closed = true;
  error = e;
  receivers = [];
  senders = [];
}

close_with-open :
    (st : State) (e : Option Throwable)
    → IsValid st
    → st.cancel ≡ true
    → close_with st e ≡ (
      closed_state st e,
      map (finish_or_fail e) st.receivers ++ map (λ (s : Sender). finish_or_fail e s.op) st.senders,
    )
unfolding close_with dispose_state closed_state
close_with-open st e v on = let quiet : st.error ≡ none = ground (arith, v) in rw (on, quiet) refl

close_with_off :
    (st : State) (e : Option Throwable) → st.cancel ≡ false → close_with st e ≡ (st, [])
unfolding close_with
close_with_off st e off = rw off refl

-- Closing a valid, open channel completes every waiting receiver and then every blocked sender,
-- each once and in its order, keeps the buffered messages, drops those of the blocked senders,
-- keeps the error, and is done: closing once more completes nothing and changes nothing.
pub close_with_lem :
    (st : State) (e f : Option Throwable)
    → IsValid st
    → st.cancel ≡ true
    → let (st', done) = close_with st e in
      (map completed done ≡ st.receivers ++ ops st.senders)
      × (pending st' ≡ buffered st)
      × (st'.error ≡ e)
      × (st'.receivers ≡ [])
      × (close_with st' f ≡ (st', []))
unfolding closed_state
close_with_lem st e f v on = rw (close_with-open st e v on) (
  map-append completed (map (finish_or_fail e) st.receivers)
        (map (λ (s : Sender). finish_or_fail e s.op) st.senders)
      ∙ ap₂ ◌++◌ (completed-receivers e st.receivers) (completed-senders e st.senders),
  append-nil (buffered st),
  refl,
  refl,
  close_with_off (closed_state st e) f refl,
)

-- On a valid, closed channel `Channel::send` throws, and completes and changes nothing.
pub send_closed :
    (st : State) (x : Value) (op : ℕ) (bg : Bool)
    → IsValid st
    → st.cancel ≡ false
    → (t : Throwable) × (send st x op bg ≡ (thrown t, st, []))
unfolding send
send_closed st x op bg v off = send_closed_at st.error refl
  where
    send_closed_at :
        (e : Option Throwable)
        → st.error ≡ e
        → (t : Throwable) × (send st x op bg ≡ (thrown t, st, []))
    send_closed_at none h = (fresh channel_closed, ground (arith, v))
    send_closed_at (some t) h = (caused channel_closed t, ground arith)

drain_cells :
    (cells : List Value) (size rpos len : ℕ)
    → rpos % size ≡ rpos
    → drain cells size rpos len ≡ Ring.cells undef size cells rpos len
unfolding drain
drain_cells cells size rpos zero h = refl
drain_cells cells size rpos (suc len) h = ap₂ ◌∷◌ (ap (λ k. get_or cells k undef) (sym h)) (
    drain_cells cells size ((rpos + 1) % size) len (mod-mod (rpos + 1) size)
    ∙ Ring.cells-mod undef size cells ((rpos + 1) % size) (suc rpos) len
        (mod-mod (rpos + 1) size ∙ ap (λ t. t % size) (omega arith)))

drained :
    (st : State)
    → IsValid st
    → let st' = (close_with st none).0 in
      drain st'.cells st'.size st'.rpos (if ltb 0 st'.size then st'.len else 0) ≡ buffered st
unfolding close_with dispose_state
drained st v =
    let at_rpos : st.rpos % st.size ≡ st.rpos =
      ground (arith, v, mod-eq_of_lt {n = st.rpos} {m = st.size}, mod-zero st.rpos) in
    let count : (if ltb 0 st.size then st.len else 0) ≡ st.len = ground (arith, v) in
    elim (Bool-cases st.cancel) [
      | inl on ↦ rw (on, count) (drain_cells st.cells st.size st.rpos st.len at_rpos)
      | inr off ↦ rw (off, count) (drain_cells st.cells st.size st.rpos st.len at_rpos)
    ]

-- Releasing the last reference to a valid channel completes what waits, as closing does, destroys
-- exactly the buffered messages, each once, and frees the state.
pub release_state_last :
    (st : State)
    → IsValid st
    → st.refcount ≡ 1
    → release_state st ≡ freed (close_with st none).0.scheduler (buffered st) (close_with st none).1
unfolding release_state
release_state_last st v one = ground (arith, one, drained st v)
