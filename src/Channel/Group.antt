-- ===== src/Channel/Group.antt =====
-- src/channel.c, `ChannelGroup`: select and send over several channels. Entries refer to channels
-- by their index in a store, so that two entries may share a channel. A slot of the entries array
-- is its index, as in the code, where a pointer to a slot keeps its place when entries move.
pub mod Sending
pub mod Resuming
pub mod Selecting
pub mod Shuffling
use ext_async.Prelude.{
  ℕ, zero, suc, ◌+◌, ◌-◌, ◌%◌, ◌^◌, Bool, true, false, not, ◌&&◌, ◌||◌, List, [], ◌∷◌, ◌++◌, Option,
  none, some, ltb, ◌==◌, if◌then◌else◌, is_nil, is_some, get_elem?, set, length,
}
use ext_async.Php.{
  Value, null, Throwable, fresh, caused, channel_closed, negative_timeout, ℤ, pos, negsuc,
  Completion,
}
use ext_async.Scheduler.{Scheduler, enter_foreground}
use ext_async.Channel.{State, Sender, fetch_noblock, readable_nonblock, deliver}
use ext_async.Channel.Iterator.{drop_op}

-- `async_channel_group_entry`: `op` is the entry's own operation, `queued` says whether its `list`
-- is set, `fetching` is the flag of its iterator.
pub record Entry : Type 0 where
  pub channel : ℕ
  pub key : Value
  pub op : ℕ
  pub fetching : Bool
  pub queued : Bool

abbrev pub Store : Type 0
Store = ℕ → State

abbrev pub update : Store → ℕ → State → Store
update s c st a = if a == c then st else s a

-- One step of `shuffle_group`: exchange two slots; `none` is an access outside the array.
pub swap {ℓ} : {A : Type ℓ} → List A → ℕ → ℕ → Option (List A)
swap xs i j = elim (get_elem? xs i) [
  | none ↦ none
  | some a ↦ elim (get_elem? xs j) [ none ↦ none | some b ↦ some (set (set xs i b) j a) ]
]

pub shuffle_loop {ℓ} : {A : Type ℓ} → (ℕ → ℕ) → ℕ → List A → Option (List A)
shuffle_loop rand zero xs = some xs
shuffle_loop rand (suc i) xs = elim (swap xs (suc i) (rand (suc i))) [
  | none ↦ none
  | some ys ↦ shuffle_loop rand i ys
]

-- `shuffle_group`: `rand i` is the result of `php_mt_rand_common(0, i)`. `count - 1` is a uint32_t.
pub shuffle_group {ℓ} : {A : Type ℓ} → (ℕ → ℕ) → List A → Option (List A)
unfolding shuffle_loop
shuffle_group rand xs = shuffle_loop rand ((length xs + 2 ^ 32 - 1) % 2 ^ 32) xs

-- `entry == selected`
abbrev pub is_slot : Option ℕ → ℕ → Bool
is_slot none i = false
is_slot (some k) i = k == i

-- The loop of `compact_group` from slot `i` on. A removed entry's slot is taken by the next one,
-- which is looked at under the same index.
pub compact_from : Store → Option ℕ → ℕ → List Entry → List Entry
compact_from s selected i [] = []
compact_from s selected i (e ∷ es) =
    let st = s e.channel in
    let here = is_slot selected i in
    let removed = compact_from s selected i es in
    let kept = e ∷ compact_from s selected (suc i) es in
    if st.closed && (not (is_some st.error) || here) then removed else kept

pub compact_group : Store → Option ℕ → List Entry → List Entry
unfolding compact_from
compact_group s selected es = compact_from s selected 0 es

-- What the first loop of `ChannelGroup::select` leaves: the entry to fetch from, the entries that
-- stay, and the reason for which it throws.
pub record Scan : Type 0 where
  pub first : Option Entry
  pub entries : List Entry
  pub thrown : Option Throwable

unfoldable pub select_scan : Store → List Entry → Scan
select_scan s [] = record { first = none; entries = []; thrown = none }
select_scan s (e ∷ es) =
    let st = s e.channel in
    let rest = select_scan s es in
    let ready = record rest { first = some e; entries = e ∷ rest.entries } in
    let stays = record rest { entries = e ∷ rest.entries } in
    let dropped = elim st.error as (λ _. Scan) [
      | none ↦ rest
      | some r ↦ record { first = none; entries = es; thrown = some (caused channel_closed r) }
    ] in
    if readable_nonblock st then ready else if st.closed then dropped else stays

-- The loop that queues an operation with every channel.
pub queue_receivers : Store → List Entry → Store × List Entry
queue_receivers s [] = (s, [])
queue_receivers s (e ∷ es) =
    let st = s e.channel in
    let s' = update s e.channel (record st { receivers = st.receivers ++ e.op ∷ [] }) in
    let (s'', es') = queue_receivers s' es in
    (s'', record e { fetching = true; queued = true } ∷ es')

-- How a call of `select` or `send` goes on.
pub data Outcome : Type 0 where
  -- The key of the channel, and the message where one is received.
  ready : Value → Value → Outcome
  nothing : Outcome
  threw : Throwable → Outcome
  waits : Outcome

-- `timeout` is -1 without an argument.
abbrev pub timeout_of : Option ℤ → ℤ
timeout_of none = negsuc 0
timeout_of (some t) = t

abbrev pub is_zero : ℤ → Bool
is_zero (pos n) = n == 0
is_zero (negsuc n) = false

abbrev pub bad_timeout : Option ℤ → Bool
bad_timeout (some (negsuc n)) = true
bad_timeout t = false

abbrev pub Selection : Type 0
Selection = Outcome × Store × Scheduler × List Entry × List Completion

-- The call returns if no entry is left or it must not wait; otherwise it waits on all entries.
pub select_block : Store → Scheduler → List Entry → Option ℤ → Bool → Selection
unfolding queue_receivers
select_block s sched es timeout background =
    let (s', es') = queue_receivers s es in
    if is_nil es || is_zero (timeout_of timeout)
    then (nothing, s, sched, es, [])
    else (waits, s', enter_foreground background sched, es', [])

-- What was fetched from an entry's channel is returned with the entry's key.
abbrev pub select_fetched :
    Store
    → Scheduler
    → List Entry
    → Selection
    → Entry
    → Option Value × State × List Completion
    → Selection
select_fetched s sched es block e (some v, st, done) =
    (ready e.key v, update s e.channel st, sched, es, done)
select_fetched s sched es block e (none, st, done) = block

-- Behind the scan: fetch from the first ready channel, and block if there is none or that fails.
pub select_after : Store → Scheduler → Option ℤ → Bool → Scan → Selection
unfolding select_block
select_after s sched timeout background scan =
    let block = select_block s sched scan.entries timeout background in
    elim scan.first [
      | none ↦ block
      | some e ↦ select_fetched s sched scan.entries block e (fetch_noblock (s e.channel))
    ]

pub select_scanned : Store → Scheduler → Option ℤ → Bool → Scan → Selection
unfolding select_after
select_scanned s sched timeout background scan = elim scan.thrown [
  | some t ↦ (threw t, s, sched, scan.entries, [])
  | none ↦ select_after s sched timeout background scan
]

-- `ChannelGroup::select` up to the suspension, on the entries as `shuffle_group` left them.
pub select : Store → Scheduler → List Entry → Option ℤ → Bool → Selection
unfolding select_scan select_scanned
select s sched es timeout background =
    if bad_timeout timeout
    then (threw (fresh negative_timeout), s, sched, es, [])
    else select_scanned s sched timeout background (select_scan s es)

-- The cleanup of `select` after the suspension: entries that still wait are taken off their lists.
pub unqueue_receivers : Store → List Entry → Store × List Entry
unqueue_receivers s [] = (s, [])
unqueue_receivers s (e ∷ es) =
    let st = s e.channel in
    let off = update s e.channel (record st { receivers = drop_op e.op st.receivers }) in
    let e' = if e.queued then record e { fetching = false } else e in
    let (s'', es') = unqueue_receivers (if e.queued then off else s) es in (s'', e' ∷ es')
