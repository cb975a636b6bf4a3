-- ===== src/Channel/Group/Resuming.antt =====
-- src/channel.c, `ChannelGroup::select` and `ChannelGroup::send` from the resumption of their tasks
-- on, and the callback that continues a send.
use ext_async.Prelude.{ℕ, Bool, true, List, [], ◌∷◌, Option, none, some, get_elem?, if◌then◌else◌}
use ext_async.Php.{
  undef, Value, null, fresh, caused, channel_closed, Completion, finish, resolve, fail,
}
use ext_async.Scheduler.{Scheduler, exit_foreground}
use ext_async.Channel.{drop_sender}
use ext_async.Channel.Group.{
  Entry, Store, update, unqueue_receivers, compact_group, Outcome, ready, nothing, threw,
}
use ext_async.Channel.Group.Sending.{Select, GroupSender}

-- The key in the slot of the entry that won, with the message.
abbrev pub chosen : List Entry → Option ℕ → Value → Outcome
chosen es none v = nothing
chosen es (some slot) v = elim (get_elem? es slot) [ none ↦ nothing | some e ↦ ready e.key v ]

-- `ChannelGroup::select` after `async_await_op`, whose operation was completed by `c`. The timer
-- has no other effect than to complete the operation.
pub select_resume :
    Store
    → Scheduler
    → List Entry
    → Select
    → Completion
    → Bool
    → Outcome × Store × Scheduler × List Entry
unfolding unqueue_receivers compact_group
select_resume s sched es sel c background =
    let (s', es') = unqueue_receivers s es in
    let outcome = elim c as (λ _. Outcome) [
      | fail o e ↦ threw (caused channel_closed e)
      | resolve o v ↦ chosen es sel.entry v
      | finish o ↦ chosen es sel.entry null
    ] in
    (
      outcome,
      s',
      exit_foreground background sched,
      if sel.check_closed then compact_group s' sel.entry es' else es',
    )

-- `continue_send_cb` for the operation that stands for the entry in a slot.
pub continue_send : Store → Select → ℕ → GroupSender → Completion → Select × List Completion
continue_send s sel slot sender c =
    let shut = (s sender.channel).closed in
    let sel' = record sel { check_closed = if shut then true else sel.check_closed } in
    let won = record sel' { entry = some slot } in
    let disposed = fail sel.op (fresh channel_closed) ∷ [] in
    elim c [
      | fail o e ↦
          (won, (if shut then fail sel.op (caused channel_closed e) else fail sel.op e) ∷ [])
      | resolve o v ↦ if shut then (sel', disposed) else (won, resolve sel.op v ∷ [])
      | finish o ↦ if shut then (sel', disposed) else (won, resolve sel.op undef ∷ [])
    ]

-- The cleanup of `send`: operations that still wait are taken off their lists.
pub unqueue_senders : Store → List GroupSender → Store
unqueue_senders s [] = s
unqueue_senders s (o ∷ os) =
    let st = s o.channel in
    unqueue_senders (update s o.channel (record st { senders = drop_sender o.op st.senders })) os

-- `ChannelGroup::send` after `async_await_op`.
pub send_resume :
    Store
    → Scheduler
    → List Entry
    → List GroupSender
    → Select
    → Completion
    → Bool
    → Outcome × Store × Scheduler × List Entry
unfolding unqueue_senders compact_group
send_resume s sched es ops sel c background =
    let s' = unqueue_senders s ops in
    let outcome = elim c as (λ _. Outcome) [ fail o e ↦ threw e | _ ↦ chosen es sel.entry null ] in
    (
      outcome,
      s',
      exit_foreground background sched,
      if sel.check_closed then compact_group s' sel.entry es else es,
    )
