-- ===== src/Channel/Group/Sending.antt =====
-- src/channel.c, `ChannelGroup::send`, and the callbacks that continue a select or a send.
use ext_async.Prelude.{
  ℕ, ◌+◌, ◌-◌, ◌%◌, ◌^◌, Bool, true, false, not, ◌||◌, List, [], ◌∷◌, ◌++◌, Option, none, some, ltb,
  ◌==◌, if◌then◌else◌, is_nil,
}
use ext_async.Php.{
  Value, Throwable, fresh, caused, channel_closed, negative_timeout, ℤ, Completion, finish, resolve,
  fail,
}
use ext_async.Scheduler.{Scheduler, enter_foreground}
use ext_async.Channel.{Sender, deliver}
use ext_async.Channel.Group.{
  Entry, Store, update, Scan, Outcome, ready, nothing, threw, waits, timeout_of, is_zero,
  bad_timeout,
}

-- The operation of a group send that is queued with each channel, `async_channel_send_op`.
pub record GroupSender : Type 0 where
  pub channel : ℕ
  pub op : ℕ

-- What the first loop of `ChannelGroup::send` leaves: it throws at the first closed channel, which
-- it takes out.
pub send_scan : Store → List Entry → Scan
send_scan s [] = record { first = none; entries = []; thrown = none }
send_scan s (e ∷ es) =
    let st = s e.channel in
    let rest = send_scan s es in
    let stays = record rest { entries = e ∷ rest.entries } in
    let writable = record rest { first = some e; entries = e ∷ rest.entries } in
    let error = elim st.error as (λ _. Throwable) [
      | none ↦ fresh channel_closed
      | some r ↦ caused channel_closed r
    ] in
    if st.closed
    then record { first = none; entries = es; thrown = some error }
    else if not (is_nil st.receivers) || ltb st.len st.size
    then writable
    else stays

-- The loop that queues an operation with every channel; `ops` numbers the new operations.
pub queue_senders : Store → Value → ℕ → List Entry → Store × List GroupSender
queue_senders s v op [] = (s, [])
queue_senders s v op (e ∷ es) =
    let st = s e.channel in
    let sender : Sender = record { op = op; value = v } in
    let s' = update s e.channel (record st { senders = st.senders ++ sender ∷ [] }) in
    let (s'', ops) = queue_senders s' v (op + 1) es in
    (s'', record { channel = e.channel; op = op } ∷ ops)

-- Behind the scan: the first writable channel takes the message, and the send waits otherwise.
pub send_after :
    Store
    → Scheduler
    → Scan
    → Value
    → ℕ
    → Option ℤ
    → Bool
    → Outcome × Store × Scheduler × List Entry × List GroupSender × List Completion
unfolding queue_senders
send_after s sched scan v op timeout background = elim scan.first [
  | some e ↦
      let (_, st', done) = deliver (s e.channel) v op background in
      (ready e.key v, update s e.channel st', sched, scan.entries, [], done)
  | none ↦
      let (s', ops) = queue_senders s v op scan.entries in
      if is_nil scan.entries || is_zero (timeout_of timeout)
      then (nothing, s, sched, scan.entries, [], [])
      else (waits, s', enter_foreground background sched, scan.entries, ops, [])
]

-- `ChannelGroup::send` up to the suspension, on the entries as `shuffle_group` left them.
pub send :
    Store
    → Scheduler
    → List Entry
    → Value
    → ℕ
    → Option ℤ
    → Bool
    → Outcome × Store × Scheduler × List Entry × List GroupSender × List Completion
unfolding send_scan send_after
send s sched es v op timeout background =
    if bad_timeout timeout
    then (threw (fresh negative_timeout), s, sched, es, [], [])
    else let scan = send_scan s es in
      elim scan.thrown [
        | some t ↦ (threw t, s, sched, scan.entries, [], [])
        | none ↦ send_after s sched scan v op timeout background
      ]

-- `async_channel_group_select_op`, with the flag CHECK_CLOSED of its group. `entry` is a slot.
pub record Select : Type 0 where
  pub op : ℕ
  pub pending : ℕ
  pub entry : Option ℕ
  pub check_closed : Bool

-- `continue_select_cb` for the entry in a slot, whose operation was completed by `c`.
pub continue_select : Store → Select → ℕ → Entry → Completion → Select × Entry × List Completion
continue_select s sel slot e c =
    let shut = (s e.channel).closed in
    let pending = (sel.pending + 2 ^ 32 - 1) % 2 ^ 32 in
    let sel' = record sel {
      pending = pending;
      check_closed = if shut then true else sel.check_closed;
    } in
    let chosen = record sel' { entry = some slot } in
    let e' = record e { fetching = false; queued = false } in
    let ended = if pending == 0 then finish sel.op ∷ [] else [] in
    elim c [
      | fail o t ↦ (chosen, e', fail sel.op t ∷ [])
      | resolve o v ↦ if shut then (sel', e', ended) else (chosen, e', resolve sel.op v ∷ [])
      | finish o ↦ if shut then (sel', e', ended) else (chosen, e', finish sel.op ∷ [])
    ]
