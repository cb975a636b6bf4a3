-- ===== src/Channel/Inv.antt =====
-- The invariant of a channel state, and that the operations on channels keep it.
use native.Mathlib.Nat.{mod-lt, mod-add-mod, mod-eq_of_lt, zero-mod}
use ext_async.Prelude.{
  ℕ, ◌+◌, ◌-◌, ◌%◌, ◌^◌, ◌≤◌, ◌<◌, ◌≡◌, refl, sym, ap, ◌∙◌, ◌⊎◌, inl, inr, Bool, true, false, not,
  List, [], ◌∷◌, Option, none, arith, ltb, is_nil, length, length-set, length-replicate, List-cases,
  Bool-cases, ltb,
}
use ext_async.Php.{Value, undef, Throwable, ℤ, pos, negsuc, Completion}
use ext_async.Scheduler.{Scheduler}
use ext_async.Channel.Iterator.{Iterator, fetch_or_wait, fetch_next_resume, drop_op}
use ext_async.Channel.{
  readable, State, Sender, fetch_noblock, dispose_state, create_state, close_with, construct, built,
  deliver, put_buffer, send, send_resume, drop_sender,
}

pub record IsValid (st : State) : Type 0 where
  pub size_small : st.size < 2 ^ 16
  pub allocated : st.size ≤ length st.cells
  pub len_in : st.len ≤ st.size
  pub rpos_in : (st.size ≡ 0) ⊎ (st.rpos < st.size)
  pub wpos_at : st.wpos ≡ (st.rpos + st.len) % st.size
  pub senders_full : is_nil st.senders ≡ false → st.len ≡ st.size
  pub receivers_empty : is_nil st.receivers ≡ false → (st.senders ≡ []) × (st.len ≡ 0)
  pub closed_quiet : st.closed ≡ true → (st.senders ≡ []) × (st.receivers ≡ [])
  pub cancel_open : st.cancel ≡ not st.closed
  pub open_no_error : st.closed ≡ false → st.error ≡ none

pub wpos-fetch :
    (size rpos len : ℕ) → 0 < len → (rpos + len) % size ≡ ((rpos + 1) % size + (len - 1)) % size
wpos-fetch size rpos len h =
    ap (λ t. t % size) (omega arith) ∙ sym (mod-add-mod (rpos + 1) size (len - 1))

wpos-refill :
    (size rpos len wpos : ℕ)
    → wpos ≡ (rpos + len) % size
    → (wpos + 1) % size ≡ ((rpos + 1) % size + len) % size
wpos-refill size rpos len wpos e =
    ap (λ t. (t + 1) % size) e
    ∙ mod-add-mod (rpos + len) size 1
    ∙ ap (λ t. t % size) (omega arith)
    ∙ sym (mod-add-mod (rpos + 1) size len)

wpos-put :
    (size rpos len wpos : ℕ)
    → wpos ≡ (rpos + len) % size
    → (wpos + 1) % size ≡ (rpos + (len + 1)) % size
wpos-put size rpos len wpos e =
    ap (λ t. (t + 1) % size) e ∙ mod-add-mod (rpos + len) size 1 ∙ ap (λ t. t % size) (omega arith)

pub fetch_noblock-IsValid : (st : State) → IsValid st → IsValid (fetch_noblock st).1
unfolding fetch_noblock
fetch_noblock-IsValid st v = elim (List-cases st.senders) [
  | inl e ↦ ground (arith, v, wpos-fetch st.size st.rpos st.len, mod-lt (st.rpos + 1) {m = st.size})
  | inr (s, rest, e) ↦ ground (
    arith,
    v,
    wpos-refill st.size st.rpos st.len st.wpos v.wpos_at,
    mod-lt (st.rpos + 1) {m = st.size},
    length-set st.cells st.wpos s.value,
  )
]

pub dispose_state-IsValid :
    (st : State) (e : Option Throwable) → IsValid st → IsValid (dispose_state st e).0
unfolding dispose_state
dispose_state-IsValid st e v = ground (arith, v)

pub put_buffer-IsValid :
    (st : State) (x : Value)
    → st.len < st.size
    → st.receivers ≡ []
    → IsValid st
    → IsValid (put_buffer st x)
unfolding put_buffer
put_buffer-IsValid st x h e v = ground (
  arith,
  v,
  wpos-put st.size st.rpos st.len st.wpos v.wpos_at,
  mod-eq_of_lt {n = st.len + 1} {m = 2 ^ 16},
  length-set st.cells st.wpos x,
)

drop_sender_nil :
    (op : ℕ) (xs : List Sender) → is_nil (drop_sender op xs) ≡ false → is_nil xs ≡ false
drop_sender_nil op [] h = h
drop_sender_nil op (x ∷ xs) h = refl

drop_op_nil : (op : ℕ) (xs : List ℕ) → is_nil (drop_op op xs) ≡ false → is_nil xs ≡ false
drop_op_nil op [] h = h
drop_op_nil op (x ∷ xs) h = refl

pub deliver-IsValid :
    (st : State) (x : Value) (op : ℕ) (bg : Bool)
    → st.closed ≡ false
    → IsValid st
    → IsValid (deliver st x op bg).1
unfolding deliver
deliver-IsValid st x op bg o v = elim (List-cases st.receivers) [
  | inl e ↦ ground (arith, v, put_buffer-IsValid st x)
  | inr (r, rest, e) ↦ ground (arith, v)
]

pub send-IsValid :
    (st : State) (x : Value) (op : ℕ) (bg : Bool) → IsValid st → IsValid (send st x op bg).1
unfolding send
send-IsValid st x op bg v = ground (arith, v, deliver-IsValid st x op bg)

pub send_resume-IsValid :
    (st : State) (c : Completion) (op : ℕ) (bg : Bool)
    → IsValid st
    → IsValid (send_resume st c op bg).1
unfolding send_resume
send_resume-IsValid st c op bg v = ground (arith, v, drop_sender_nil op st.senders)

pub close_with-IsValid :
    (st : State) (e : Option Throwable) → IsValid st → IsValid (close_with st e).0
unfolding close_with
close_with-IsValid st e v = ground (arith, v)

-- A channel that `Channel::__construct` accepts is valid, whatever size it was given.
pub construct-IsValid :
    (a : ℕ) (s : Scheduler) (size : ℤ) (st : State)
    → construct (create_state a s) size ≡ built st
    → IsValid st
unfolding construct create_state
construct-IsValid a s (negsuc n) st e = cc
construct-IsValid a s (pos n) st e = ground (
  arith,
  mod-eq_of_lt {n = n} {m = 2 ^ 16},
  length-replicate {A = Value} (n % 2 ^ 16) undef,
  zero-mod (n % 2 ^ 16),
)

-- A receiver is queued on an open channel only, and only when there is no message.
pub fetch_or_wait-IsValid :
    (st : State) (op : ℕ) (bg : Bool)
    → readable st ≡ true
    → IsValid st
    → IsValid (fetch_or_wait st op bg).1
unfolding fetch_or_wait readable fetch_noblock
fetch_or_wait-IsValid st op bg r v = elim (List-cases st.senders) [
  | inl e ↦ elim (Bool-cases (ltb 0 st.len)) [
    | inl more ↦ ground (arith, fetch_noblock-IsValid st v)
    | inr empty ↦ ground (arith, v)
  ]
  | inr (s, rest, e) ↦ ground (arith, fetch_noblock-IsValid st v)
]

pub fetch_next_resume-IsValid :
    (c : Completion) (it : Iterator) (st : State) (bg : Bool)
    → IsValid st
    → IsValid (fetch_next_resume c it st bg).2
unfolding fetch_next_resume
fetch_next_resume-IsValid c it st bg v = ground (arith, v, drop_op_nil it.op st.receivers)
