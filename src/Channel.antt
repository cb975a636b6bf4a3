-- ===== src/Channel.antt =====
-- src/channel.c, channels: the state that a channel shares with its iterators, `Channel` and the
-- functions that both use. A waiting operation is known by its number; an operation of this file
-- returns what it completed, in order, beside the new state. `fetch_noblock` and `send` complete at
-- most one operation, as the last thing they do. `dispose_state` completes all that wait; a task
-- that it wakes is taken to use the channel again only after its loops.
pub mod Iterator
pub mod Group
pub mod Inv
pub mod Fifo
pub mod Adding
pub mod Closing
pub mod Exchange
pub mod Iterating
use ext_async.Prelude.{
  ℕ, zero, suc, ◌+◌, ◌-◌, ◌%◌, ◌^◌, Bool, true, false, not, ◌||◌, List, [], ◌∷◌, ◌++◌, map, Option,
  none, some, ltb, ◌==◌, if◌then◌else◌, is_nil, get_or, set, replicate,
}
use ext_async.Php.{
  Value, undef, Throwable, fresh, caused, channel_closed, negative_size, size_too_large, ℤ, pos,
  negsuc, Completion, finish, resolve, fail, finish_or_fail,
}
use ext_async.Scheduler.{Scheduler, register, unregister, enter_foreground, exit_foreground}

-- `async_channel_send_op`
pub record Sender : Type 0 where
  pub op : ℕ
  pub value : Value

-- `async_channel_state`. `cancel` says whether `cancel.func` is set, `address` names the callback
-- in the shutdown list; the buffer's fields are those of the anonymous struct.
pub record State : Type 0 where
  pub address : ℕ
  pub refcount : ℕ
  pub closed : Bool
  pub scheduler : Scheduler
  pub error : Option Throwable
  pub cancel : Bool
  pub senders : List Sender
  pub receivers : List ℕ
  pub size : ℕ
  pub len : ℕ
  pub rpos : ℕ
  pub wpos : ℕ
  pub cells : List Value

-- ASYNC_CHANNEL_READABLE_NONBLOCK and ASYNC_CHANNEL_READABLE
unfoldable pub readable_nonblock : State → Bool
readable_nonblock st = not (is_nil st.receivers) || ltb 0 st.len

unfoldable pub readable : State → Bool
unfolding readable_nonblock
readable st = not st.closed || readable_nonblock st

abbrev pub step_pos : State → ℕ → ℕ
step_pos st p = (p + 1) % st.size

-- The message, or `none` for FAILURE. A message that leaves the buffer makes room for the first
-- blocked sender.
pub fetch_noblock : State → Option Value × State × List Completion
fetch_noblock st =
    if ltb 0 st.len
    then elim st.senders [
      | [] ↦ (
        some (get_or st.cells st.rpos undef),
        record st { rpos = step_pos st st.rpos; len = st.len - 1 },
        [],
      )
      | s ∷ rest ↦ (
        some (get_or st.cells st.rpos undef),
        record st {
          rpos = step_pos st st.rpos;
          senders = rest;
          cells = set st.cells st.wpos s.value;
          wpos = step_pos st st.wpos;
        },
        finish s.op ∷ [],
      )
    ]
    else elim st.senders [
      | [] ↦ (none, st, [])
      | s ∷ rest ↦ (some s.value, record st { senders = rest }, finish s.op ∷ [])
    ]

abbrev pub close_reason : Option Throwable → Option Throwable → Option Throwable
close_reason none error = error
close_reason (some e) error = some e

pub dispose_state : State → Option Throwable → State × List Completion
dispose_state st error =
    let reason = close_reason st.error error in
    (
      record st { cancel = false; closed = true; error = reason; receivers = []; senders = [] },
      map (finish_or_fail reason) st.receivers
          ++ map (λ (s : Sender). finish_or_fail reason s.op) st.senders,
    )

unfoldable pub create_state : ℕ → Scheduler → State
create_state address scheduler = record {
  address = address;
  refcount = 1;
  closed = false;
  scheduler = register address scheduler;
  error = none;
  cancel = true;
  senders = [];
  receivers = [];
  size = 0;
  len = 0;
  rpos = 0;
  wpos = 0;
  cells = [];
}

-- What `async_channel_object_dtor` and `Channel::close` share.
pub close_with : State → Option Throwable → State × List Completion
unfolding dispose_state
close_with st error =
    if st.cancel
    then dispose_state (record st { scheduler = unregister st.address st.scheduler }) error
    else (st, [])

-- The loop of `release_state` over the buffer: the values that it destroys.
pub drain : List Value → ℕ → ℕ → ℕ → List Value
drain cells size rpos zero = []
drain cells size rpos (suc len) = get_or cells rpos undef ∷ drain cells size ((rpos + 1) % size) len

pub data Released : Type 0 where
  kept : State → Released
  -- The scheduler, the values destroyed and the operations completed.
  freed : Scheduler → List Value → List Completion → Released

pub release_state : State → Released
unfolding close_with drain
release_state st =
    let refcount = (st.refcount + 2 ^ 32 - 1) % 2 ^ 32 in
    let (st', done) = close_with st none in
    if refcount == 0
    then freed st'.scheduler
        (drain st'.cells st'.size st'.rpos (if ltb 0 st'.size then st'.len else 0)) done
    else kept (record st { refcount = refcount })

-- `Channel::__construct`: the error thrown, or the channel with its buffer.
pub data Constructed : Type 0 where
  built : State → Constructed
  refused : Throwable → Constructed

unfoldable pub construct : State → ℤ → Constructed
construct st (negsuc n) = refused (fresh negative_size)
construct st (pos size) =
    if ltb 0xFFFF size
    then refused (fresh size_too_large)
    else built (record st {
      size = size % 2 ^ 16;
      cells = if ltb 0 size then replicate (size % 2 ^ 16) undef else st.cells;
    })

pub is_closed : State → Bool
is_closed st = not st.cancel

-- How a call of `Channel::send` goes on.
pub data Sent : Type 0 where
  sent : Sent
  waiting : Sent
  thrown : Throwable → Sent

pub put_buffer : State → Value → State
put_buffer st v = record st {
  cells = set st.cells st.wpos v;
  wpos = step_pos st st.wpos;
  len = (st.len + 1) % 2 ^ 16;
}

-- Behind the checks: a waiting receiver, the buffer, or the queue of senders takes the message.
pub deliver : State → Value → ℕ → Bool → Sent × State × List Completion
unfolding put_buffer
deliver st v op background = elim st.receivers [
  | r ∷ rest ↦ (sent, record st { receivers = rest }, resolve r v ∷ [])
  | [] ↦ if ltb st.len st.size then (sent, put_buffer st v, []) else (
    waiting,
    record st {
      senders = st.senders ++ record { op = op; value = v } ∷ [];
      scheduler = enter_foreground background st.scheduler;
    },
    [],
  )
]

-- `Channel::send` up to the suspension of the calling task.
pub send : State → Value → ℕ → Bool → Sent × State × List Completion
unfolding deliver
send st v op background = elim st.error [
  | some e ↦ (thrown (caused channel_closed e), st, [])
  | none ↦ if st.closed then (thrown (fresh channel_closed), st, []) else deliver st v op background
]

abbrev pub drop_sender : ℕ → List Sender → List Sender
drop_sender op [] = []
drop_sender op (s ∷ rest) = let more = drop_sender op rest in if s.op == op then rest else s ∷ more

-- `Channel::send` from the resumption on; ASYNC_FREE_OP takes the operation off its list, where it
-- still is if the wait was cancelled.
pub send_resume : State → Completion → ℕ → Bool → Option Throwable × State
send_resume st c op background =
    let st' = record st {
      senders = drop_sender op st.senders;
      scheduler = exit_foreground background st.scheduler;
    } in
    elim c [ fail o e ↦ (some (caused channel_closed e), st') | _ ↦ (none, st') ]
