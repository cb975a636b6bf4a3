-- ===== src/Channel/Group/Selecting.antt =====
-- What `ChannelGroup::select` picks, and the blocked senders that it does not see.
use ext_async.Prelude.{
  ℕ, ◌<◌, ◌≡◌, ◌≢◌, refl, ap, ◌∙◌, inl, inr, Bool, true, false, not, ◌&&◌, ◌||◌, is_some,
  Option-cases, List, [], ◌∷◌, ◌++◌, Option, none, some, arith, length, length-append, ◌==◌,
}
use ext_async.Ring
use ext_async.Php.{Value, undef, ℤ, pos}
use ext_async.Scheduler.{Scheduler}
use ext_async.Channel.{State, readable_nonblock, fetch_noblock}
use ext_async.Channel.Inv.{IsValid}
use ext_async.Channel.Fifo.{pending, buffered, values, fetch_noblock-Takes}
use ext_async.Channel.Group.{
  Entry, Store, Scan, update, select_scan, select_scanned, select_block, select_fetched, select,
  ready, nothing, waits, bad_timeout,
}

-- Every channel of the entries is open, with an empty buffer and no waiting receiver. Whether
-- senders are blocked on it is left open.
abbrev pub AreQuiet : Store → List Entry → Type 0
AreQuiet s [] = Unit {0}
AreQuiet s (e ∷ es) =
    ((s e.channel).closed ≡ false)
    × ((s e.channel).receivers ≡ [])
    × ((s e.channel).len ≡ 0)
    × AreQuiet s es

select_scan_quiet :
    (s : Store) (es : List Entry)
    → AreQuiet s es
    → select_scan s es ≡ record { first = none; entries = es; thrown = none }
unfolding select_scan readable_nonblock
select_scan_quiet s [] q = refl
select_scan_quiet s (e ∷ es) q = ground (arith, select_scan_quiet s es q.3)

abbrev quiet_scan : List Entry → Scan
quiet_scan es = record { first = none; entries = es; thrown = none }

select_of_scan :
    (s : Store) (sched : Scheduler) (es : List Entry) (t : Option ℤ) (bg : Bool)
    → bad_timeout t ≡ false
    → select s sched es t bg ≡ select_scanned s sched t bg (select_scan s es)
unfolding select
select_of_scan s sched es t bg ok = rw ok refl

poll_quiet :
    (s : Store) (sched : Scheduler) (es : List Entry) (bg : Bool)
    → select_scanned s sched (some (pos 0)) bg (quiet_scan es) ≡ (nothing, s, sched, es, [])
unfolding select_scanned
poll_quiet s sched [] bg = refl
poll_quiet s sched (e ∷ es) bg = refl

-- `select` with a timeout of zero finds nothing where every channel is open, with an empty buffer
-- and no receivers, also where senders are blocked on a channel without a buffer: their messages
-- are not looked for.
pub select_misses_senders :
    (s : Store) (sched : Scheduler) (es : List Entry) (bg : Bool)
    → AreQuiet s es
    → select s sched es (some (pos 0)) bg ≡ (nothing, s, sched, es, [])
select_misses_senders s sched es bg q =
    select_of_scan s sched es (some (pos 0)) bg refl
    ∙ ap (select_scanned s sched (some (pos 0)) bg) (select_scan_quiet s es q)
    ∙ poll_quiet s sched es bg

wait_quiet :
    (s : Store) (sched : Scheduler) (e : Entry) (bg : Bool)
    → let r = select_scanned s sched none bg (quiet_scan (e ∷ [])) in
      (r.0 ≡ waits)
      × ((r.1 e.channel).receivers ≡ (s e.channel).receivers ++ e.op ∷ [])
      × ((r.1 e.channel).senders ≡ (s e.channel).senders)
unfolding select_scanned
wait_quiet s sched e bg = (refl, ground arith, ground arith)

-- A `select` without a timeout on one open channel with an empty buffer and no receivers waits: it
-- joins the receivers of the channel, and leaves senders that are blocked on it where they are, so
-- that a receiver and a sender wait for each other.
pub select_strands_senders :
    (s : Store) (sched : Scheduler) (e : Entry) (bg : Bool)
    → AreQuiet s (e ∷ [])
    → let r = select s sched (e ∷ []) none bg in
      (r.0 ≡ waits)
      × ((r.1 e.channel).receivers ≡ e.op ∷ [])
      × ((r.1 e.channel).senders ≡ (s e.channel).senders)
select_strands_senders s sched e bg q =
    let f =
      select_of_scan s sched (e ∷ []) none bg refl
      ∙ ap (select_scanned s sched none bg) (select_scan_quiet s (e ∷ []) q) in
    let (a, b, c) = wait_quiet s sched e bg in rw f (a, b ∙ ap (λ t. t ++ e.op ∷ []) q.1, c)

scanned :
    (s : Store) (sched : Scheduler) (scan : Scan) (e : Entry) (t : Option ℤ) (bg : Bool) (v : Value)
    → scan.first ≡ some e
    → scan.thrown ≡ none
    → (fetch_noblock (s e.channel)).0 ≡ some v
    → select_scanned s sched t bg scan ≡ (
      ready e.key v,
      update s e.channel (fetch_noblock (s e.channel)).1,
      sched,
      scan.entries,
      (fetch_noblock (s e.channel)).2,
    )
unfolding select_scanned
scanned s sched scan e t bg v first calm got = rw calm (
    rw first (
      ap
        (λ o.
          select_fetched s sched scan.entries (select_block s sched scan.entries t bg) e
            (o, (fetch_noblock (s e.channel)).1, (fetch_noblock (s e.channel)).2))
        got))

update_self : (s : Store) (c : ℕ) (st : State) → update s c st c ≡ st
update_self s c st = ground arith

pending-ne-nil : (st : State) → 0 < st.len → pending st ≢ []
pending-ne-nil st more e = omega (
  arith,
  ap length e,
  length-append (buffered st) (values st.senders),
  Ring.length-cells undef st.size st.cells st.rpos st.len,
)

-- Whether the first loop of `select` goes past an entry without a throw: its channel has something to
-- fetch, or is not closed with an error.
abbrev pub passes : Store → Entry → Bool
passes s e =
    readable_nonblock (s e.channel)
    || (not (s e.channel).closed || not (is_some (s e.channel).error))

abbrev pub all_pass : Store → List Entry → Bool
all_pass s [] = true
all_pass s (e ∷ es) = passes s e && all_pass s es

abbrev pub none_ready : Store → List Entry → Bool
none_ready s [] = true
none_ready s (e ∷ es) = not (readable_nonblock (s e.channel)) && none_ready s es

scan_calm : (s : Store) (es : List Entry) → all_pass s es ≡ true → (select_scan s es).thrown ≡ none
unfolding select_scan
scan_calm s [] a = refl
scan_calm s (e ∷ es) a = elim (Option-cases (s e.channel).error) [
  | inl h ↦ ground (arith, a, h, scan_calm s es)
  | inr (x, h) ↦ ground (arith, a, h, scan_calm s es)
]

-- The first entry that is ready, behind those that are not.
scan_first :
    (s : Store) (before after : List Entry) (e : Entry)
    → none_ready s before ≡ true
    → all_pass s before ≡ true
    → readable_nonblock (s e.channel) ≡ true
    → (select_scan s (before ++ e ∷ after)).first ≡ some e
unfolding select_scan
scan_first s [] after e n a h = ground (arith, h)
scan_first s (b ∷ bs) after e n a h = elim (Option-cases (s b.channel).error) [
  | inl k ↦
      ground (arith, n, a, k, scan_first s bs after e (ground (arith, n)) (ground (arith, a)) h)
  | inr (x, k) ↦
      ground (arith, n, a, k, scan_first s bs after e (ground (arith, n)) (ground (arith, a)) h)
]

all_pass-append :
    (s : Store) (before after : List Entry) (e : Entry)
    → all_pass s before ≡ true
    → passes s e ≡ true
    → all_pass s after ≡ true
    → all_pass s (before ++ e ∷ after) ≡ true
all_pass-append s [] after e b h a = ground (arith, h, a)
all_pass-append s (x ∷ xs) after e b h a =
    ground (arith, b, all_pass-append s xs after e (ground (arith, b)) h a)

buffered_ready : (st : State) → 0 < st.len → readable_nonblock st ≡ true
unfolding readable_nonblock
buffered_ready st more = ground (arith, more)

-- Where the timeout is not negative, an entry's channel is valid and has a message in its buffer, no
-- entry before it is ready, and none beside it is closed with an error while it is not ready: `select`
-- returns the key of that entry and the oldest message of its channel, which leaves the channel, and
-- touches no other channel.
pub select_fetches :
    (s : Store) (sched : Scheduler) (before after : List Entry) (e : Entry) (t : Option ℤ)
    (bg : Bool)
    → bad_timeout t ≡ false
    → none_ready s before ≡ true
    → all_pass s before ≡ true
    → all_pass s after ≡ true
    → IsValid (s e.channel)
    → 0 < (s e.channel).len
    → let r = select s sched (before ++ e ∷ after) t bg in
      (v : Value) × (rest : List Value) × (pending (s e.channel) ≡ v ∷ rest)
      × (r.0 ≡ ready e.key v)
      × (pending (r.1 e.channel) ≡ rest)
      × ((c : ℕ) → (c == e.channel) ≡ false → r.1 c ≡ s c)
select_fetches s sched before after e t bg ok unready b a valid more =
    let es = before ++ e ∷ after in
    let here = buffered_ready (s e.channel) more in
    let first = scan_first s before after e unready b here in
    let calm = scan_calm s es (all_pass-append s before after e b (ground (arith, here)) a) in
    elim (fetch_noblock-Takes (s e.channel) valid) [
      | inl (nothing_there, _) ↦ absurd (pending-ne-nil (s e.channel) more nothing_there)
      | inr (v, rest, was, got, left, _) ↦
          rw
            (select_of_scan s sched es t bg ok
              ∙ scanned s sched (select_scan s es) e t bg v first calm got)
            (
              v,
              rest,
              was,
              refl,
              ap pending (update_self s e.channel (fetch_noblock (s e.channel)).1) ∙ left,
              λ c h. rw h refl,
            )
    ]
