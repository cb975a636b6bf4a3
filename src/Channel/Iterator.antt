-- ===== src/Channel/Iterator.antt =====
-- src/channel.c, `async_channel_iterator`: the iterators over a channel. A call that suspends its
-- task is two functions, before and after the suspension.
use ext_async.Prelude.{
  ℕ, ◌+◌, ◌%◌, ◌^◌, Bool, true, false, not, ◌&&◌, List, [], ◌∷◌, ◌++◌, Option, none, some, ◌==◌,
  if◌then◌else◌,
}
use ext_async.Php.{
  Value, undef, null, is_undef, Throwable, fresh, caused, channel_closed, iterator_fetching, ℤ,
  negsuc, is_negative, increment, Completion, resolve, fail,
}
use ext_async.Scheduler.{enter_foreground, exit_foreground}
use ext_async.Channel.{State, fetch_noblock, readable}

-- `op` is the number of the iterator's receive operation, which it uses again and again.
pub record Iterator : Type 0 where
  pub fetching : Bool
  pub pos : ℤ
  pub entry : Value
  pub op : ℕ

unfoldable pub create : State → ℕ → Iterator × State
create st op = (
  record { fetching = false; pos = negsuc 0; entry = undef; op = op },
  record st { refcount = (st.refcount + 1) % 2 ^ 32 },
)

-- How a call goes on: it is done, its task is suspended, or it throws.
pub data Step : Type 0 where
  done : Step
  suspended : Step
  thrown : Throwable → Step

-- Where nothing was fetched, the receive operation is queued.
abbrev pub or_wait :
    ℕ → Bool → Option Value × State × List Completion → Option Value × State × List Completion
or_wait op background (some v, st, completed) = (some v, st, completed)
or_wait op background (none, st, completed) = (
  none,
  record st {
    receivers = st.receivers ++ op ∷ [];
    scheduler = enter_foreground background st.scheduler;
  },
  completed,
)

-- A message, or `none` where the receive operation was queued.
unfoldable pub fetch_or_wait : State → ℕ → Bool → Option Value × State × List Completion
fetch_or_wait st op background = or_wait op background (fetch_noblock st)

abbrev pub after_fetch :
    Iterator → Option Value × State × List Completion → Step × Iterator × State × List Completion
after_fetch it (some v, st, completed) =
    (done, record it { pos = increment it.pos; entry = v }, st, completed)
after_fetch it (none, st, completed) = (suspended, record it { fetching = true }, st, completed)

-- `fetch_next_entry` up to the suspension.
unfoldable pub fetch_next_entry :
    Iterator → State → Bool → Step × Iterator × State × List Completion
unfolding fetch_or_wait
fetch_next_entry it st background =
    if it.fetching
    then (thrown (fresh iterator_fetching), it, st, [])
    else after_fetch it (fetch_or_wait st it.op background)

abbrev pub drop_op : ℕ → List ℕ → List ℕ
drop_op op [] = []
drop_op op (x ∷ rest) = let more = drop_op op rest in if x == op then rest else x ∷ more

-- The operation's result: NULL, put there by `async_await_op`, unless it was resolved with a value.
abbrev pub op_result : Completion → Value
op_result (resolve o v) = v
op_result c = null

-- `fetch_next_entry` from the resumption on; ASYNC_RESET_OP takes the operation off its list.
unfoldable pub fetch_next_resume :
    Completion → Iterator → State → Bool → Option Throwable × Iterator × State
fetch_next_resume c it st background =
    let st' = record st {
      receivers = drop_op it.op st.receivers;
      scheduler = exit_foreground background st.scheduler;
    } in
    let idle = record it { fetching = false } in
    let arrived = record it { fetching = false; pos = increment it.pos; entry = op_result c } in
    elim c [
      | fail o e ↦ (some (caused channel_closed e), idle, st')
      | _ ↦ if st.closed then (none, idle, st') else (none, arrived, st')
    ]

-- What a call does when there is nothing to fetch: it throws the reason for which the channel was
-- closed, if there is one.
abbrev pub at_end : Iterator → State → Step × Iterator × State × List Completion
at_end it st = elim st.error [
  | none ↦ (done, it, st, [])
  | some e ↦ (thrown (caused channel_closed e), it, st, [])
]

unfoldable pub advance_iterator :
    Iterator → State → Bool → Step × Iterator × State × List Completion
unfolding fetch_next_entry
advance_iterator it st background =
    if is_undef it.entry
    then if is_negative it.pos && readable st
      then fetch_next_entry it st background
      else at_end it st
    else (done, it, st, [])

-- `ChannelIterator::next` up to the suspension.
unfoldable pub next : Iterator → State → Bool → Step × Iterator × State × List Completion
unfolding fetch_next_entry
next it st background =
    let it' = record it { entry = undef } in
    if readable st then fetch_next_entry it' st background else at_end it' st

-- What `valid`, `current` and `key` return once `advance_iterator` is through; `none` is NULL.
unfoldable pub valid : Iterator → Bool
valid it = not (is_undef it.entry)

unfoldable pub current : Iterator → Option Value
current it = if is_undef it.entry then none else some it.entry

unfoldable pub key : Iterator → Option ℤ
key it = if is_undef it.entry then none else some it.pos
