-- ===== src/Channel/Exchange.antt =====
-- Histories of calls on one channel.
use ext_async.Prelude.{
  ℕ, ◌≡◌, refl, sym, ap, ap₂, ◌∙◌, Bool, true, false, List, [], ◌∷◌, ◌++◌, Option, none, some,
  arith, if◌then◌else◌, append-nil, append_assoc, inl, inr, ◌⊎◌, Bool-cases,
}
use ext_async.Php.{Value, Throwable}
use ext_async.Channel.{State, fetch_noblock, readable, close_with, dispose_state, send}
use ext_async.Channel.Iterator.{fetch_or_wait}
use ext_async.Channel.Inv.{IsValid, send-IsValid, close_with-IsValid, fetch_or_wait-IsValid}
use ext_async.Channel.Fifo.{
  pending, buffered, values, handed, fetch_noblock-Takes, fetch_or_wait-some, fetch_or_wait-none,
}
use ext_async.Channel.Adding.{send_adds}

-- A send, an advance of an iterator, and a close. The operation's number is the caller's.
pub data Call : Type 0 where
  sends : Value → ℕ → Bool → Call
  takes : ℕ → Bool → Call
  closes : Option Throwable → Call

abbrev pub to_list : Option Value → List Value
to_list none = []
to_list (some x) = x ∷ []

-- The messages that a call hands to receivers, and the channel after it. An iterator that finds the
-- channel at its end fetches nothing.
pub step : State → Call → List Value × State
step st (sends x op bg) = let (_, st', done) = send st x op bg in (handed done, st')
step st (takes op bg) =
    let (got, st', done) = fetch_or_wait st op bg in
    if readable st then (to_list got ++ handed done, st') else ([], st)
step st (closes e) = ([], (close_with st e).0)

pub run : State → List Call → List Value × State
run st [] = ([], st)
run st (c ∷ cs) = let (out, st') = step st c in let (outs, st'') = run st' cs in (out ++ outs, st'')

-- The messages that a history sends while the channel is open.
pub accepted : State → List Call → List Value
accepted st [] = []
accepted st (sends x op bg ∷ cs) =
    let rest = accepted (step st (sends x op bg)).1 cs in if st.closed then rest else x ∷ rest
accepted st (takes op bg ∷ cs) = accepted (step st (takes op bg)).1 cs
accepted st (closes e ∷ cs) = accepted (step st (closes e)).1 cs

pub step-IsValid : (st : State) (c : Call) → IsValid st → IsValid (step st c).1
unfolding step
step-IsValid st (sends x op bg) v = send-IsValid st x op bg v
step-IsValid st (takes op bg) v = ground (arith, v, fetch_or_wait-IsValid st op bg)
step-IsValid st (closes e) v = close_with-IsValid st e v

-- Every history of calls keeps the invariant of the channel.
pub run-IsValid : (st : State) (cs : List Call) → IsValid st → IsValid (run st cs).1
unfolding run
run-IsValid st [] v = v
run-IsValid st (c ∷ cs) v = run-IsValid (step st c).1 cs (step-IsValid st c v)

takes_step :
    (st : State) (op : ℕ) (bg : Bool)
    → IsValid st
    → let (out, st') = step st (takes op bg) in out ++ pending st' ≡ pending st
unfolding step
takes_step st op bg v = elim (Bool-cases (readable st)) [
  | inr end ↦ rw end refl
  | inl more ↦ elim (fetch_noblock-Takes st v) [
    | inl (e, r) ↦ rw (more, fetch_or_wait-none st op bg r) refl
    | inr (x, rest, e, got, left, quiet) ↦
        rw (more, fetch_or_wait-some st op bg x got) (ap₂ (λ h p. (x ∷ h) ++ p) quiet left ∙ sym e)
  ]
]

sends_closed :
    (st : State) (x : Value) (op : ℕ) (bg : Bool)
    → st.closed ≡ true
    → step st (sends x op bg) ≡ ([], st)
unfolding step send
sends_closed st x op bg h = ground arith

step_stays_closed : (st : State) (c : Call) → st.closed ≡ true → (step st c).1.closed ≡ true
unfolding step send fetch_or_wait fetch_noblock close_with
step_stays_closed st c h = ground arith

accepted_closed : (st : State) (cs : List Call) → st.closed ≡ true → accepted st cs ≡ []
unfolding accepted
accepted_closed st [] h = refl
accepted_closed st (sends x op bg ∷ cs) h =
    let rest = accepted (step st (sends x op bg)).1 cs in
    ap (λ b. if b then rest else x ∷ rest) h
    ∙ accepted_closed (step st (sends x op bg)).1 cs (step_stays_closed st (sends x op bg) h)
accepted_closed st (takes op bg ∷ cs) h =
    accepted_closed (step st (takes op bg)).1 cs (step_stays_closed st (takes op bg) h)
accepted_closed st (closes e ∷ cs) h =
    accepted_closed (step st (closes e)).1 cs (step_stays_closed st (closes e) h)

-- What a close leaves to be received, and what it drops.
closes_step :
    (st : State) (e : Option Throwable)
    → IsValid st
    → (lost : List Value) × (pending (step st (closes e)).1 ++ lost ≡ pending st)
      × ((step st (closes e)).1.closed ≡ true)
unfolding step close_with dispose_state
closes_step st e v = elim (Bool-cases st.cancel) [
  | inl on ↦
      rw on (values st.senders, ap (λ b. b ++ values st.senders) (append-nil (buffered st)), refl)
  | inr off ↦ rw off ([], append-nil (pending st), ground (arith, v))
]

then_rest :
    (out outs p q r acc : List Value)
    → out ++ p ≡ q
    → outs ++ r ≡ p ++ acc
    → (out ++ outs) ++ r ≡ q ++ acc
then_rest out outs p q r acc e f =
    append_assoc out outs r ∙ ap (◌++◌ out) f ∙ sym (append_assoc out p acc) ∙ ap (λ t. t ++ acc) e

sends_step :
    (st : State) (x : Value) (op : ℕ) (bg : Bool) (outs r acc : List Value)
    → IsValid st
    → let (out, st') = step st (sends x op bg) in
      outs ++ r ≡ pending st' ++ acc
      → (out ++ outs) ++ r ≡ pending st ++ (if st.closed then acc else x ∷ acc)
unfolding step
sends_step st x op bg outs r acc v e = elim (Bool-cases st.closed) [
  | inr o ↦
      then_rest (step st (sends x op bg)).0 outs _ _ _ _ (send_adds st v x op bg o) e
      ∙ append_assoc (pending st) (x ∷ []) acc
      ∙ sym (ap (λ b. pending st ++ (if b then acc else x ∷ acc)) o)
  | inl shut ↦
      then_rest (step st (sends x op bg)).0 outs _ _ _ _
        (ap (λ t. t.0 ++ pending t.1) (sends_closed st x op bg shut)) e
      ∙ sym (ap (λ b. pending st ++ (if b then acc else x ∷ acc)) shut)
]

closes_rest :
    (outs p lost dropped q r acc : List Value)
    → outs ++ (p ++ lost) ≡ r ++ acc
    → r ++ dropped ≡ q
    → acc ≡ []
    → outs ++ (p ++ (lost ++ dropped)) ≡ q ++ acc
closes_rest outs p lost dropped q r acc e f none_after =
    ap (◌++◌ outs) (sym (append_assoc p lost dropped))
    ∙ sym (append_assoc outs (p ++ lost) dropped)
    ∙ ap (λ t. t ++ dropped) (e ∙ ap (◌++◌ r) none_after ∙ append-nil r)
    ∙ f
    ∙ sym (ap (◌++◌ q) none_after ∙ append-nil q)

abbrev pub has_close : List Call → Bool
has_close [] = false
has_close (sends x op bg ∷ cs) = has_close cs
has_close (takes op bg ∷ cs) = has_close cs
has_close (closes e ∷ cs) = true

-- Over any history a valid channel neither makes up, doubles nor reorders messages: the received
-- ones, the ones that are still to be received, and some lost ones are, in this order, the ones
-- that were there and those sent while it was open. Nothing is lost unless the history closes the
-- channel.
pub run_exchange :
    (st : State) (cs : List Call)
    → IsValid st
    → let (out, st') = run st cs in
      (lost : List Value) × (out ++ (pending st' ++ lost) ≡ pending st ++ accepted st cs)
      × ((has_close cs ≡ true) ⊎ (lost ≡ []))
unfolding run accepted step
run_exchange st [] v = ([], refl, inr refl)
run_exchange st (sends x op bg ∷ cs) v =
    let (out, st') = step st (sends x op bg) in
    let (lost, e, l) = run_exchange st' cs (step-IsValid st (sends x op bg) v) in
    (lost, sends_step st x op bg (run st' cs).0 _ _ v e, l)
run_exchange st (takes op bg ∷ cs) v =
    let (out, st') = step st (takes op bg) in
    let (lost, e, l) = run_exchange st' cs (step-IsValid st (takes op bg) v) in
    (lost, then_rest out (run st' cs).0 _ _ _ _ (takes_step st op bg v) e, l)
run_exchange st (closes r ∷ cs) v =
    let st' = (step st (closes r)).1 in
    let (lost, e, _) = run_exchange st' cs (step-IsValid st (closes r) v) in
    let (dropped, f, c) = closes_step st r v in
    (
      lost ++ dropped,
      closes_rest (run st' cs).0 (pending (run st' cs).1) lost dropped (pending st) _ _ e f
          (accepted_closed st' cs c),
      inl refl,
    )
