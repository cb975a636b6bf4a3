-- ===== src/Poll/Waking.antt =====
-- What a trigger of a poll does for the tasks that wait.
use ext_async.Prelude.{
  Option, Option-cases, Ends, List-cases, ℕ, zero, suc, ◌≡◌, refl, ap, true, false, List, [], ◌∷◌,
  ◌++◌, none, some, arith, subst, ◌∙◌, inl, inr, is_nil, Bool,
}
use ext_async.Poll.{
  Mask, Poll, sync_poll, Side, read, write, queue, await, resumed, Call, awaits, exits, call, calls,
  first_of, finished, finish_loop, settle, then_settle, finish_writes, trigger, Event, run,
}
use ext_async.Poll.Syncing.{
  all_whole, IsSynced, calls-IsSynced, pop-IsSynced, settle-IsSynced, run-Ends,
}

abbrev pub only : Side → Mask
only read = record { readable = true; writable = false; disconnect = false }
only write = record { readable = false; writable = true; disconnect = false }

abbrev pub watches : Side → Mask → Bool
watches read m = m.readable
watches write m = m.writable

finish_loop_first :
    (fuel : ℕ) (again : ℕ → List Call) (side : Side) (p : Poll) (op : ℕ) (ops : List ℕ)
    → queue side p ≡ op ∷ ops
    → finish_loop (suc fuel) again side (first_of (queue side p)) p
      ≡ some (calls (finished side op ops p) (again op))
unfolding finish_loop
finish_loop_first fuel again side p op ops h = ground (arith, h)

trigger-only :
    (fuel : ℕ) (again : ℕ → List Call) (side : Side) (p : Poll) (op : ℕ) (ops : List ℕ)
    → p.error ≡ none
    → queue side p ≡ op ∷ ops
    → trigger (suc fuel) p again (only side)
      ≡ some (settle (calls (finished side op ops p) (again op)))
unfolding trigger finish_writes then_settle
trigger-only fuel again read p op ops e h =
    ground (arith, e, finish_loop_first fuel again read p op ops h)
trigger-only fuel again write p op ops e h =
    ground (arith, e, finish_loop_first fuel again write p op ops h)

waiting_open :
    (p : Poll) (side : Side) (op : ℕ) (ops : List ℕ)
    → IsSynced p
    → queue side p ≡ op ∷ ops
    → (p.error ≡ none) × (p.polling ≡ some p.events) × (watches side p.events ≡ true)
waiting_open p read op ops v h = ground (arith, v, h)
waiting_open p write op ops v h = ground (arith, v, h)

abbrev pub IsSome : Option Poll → Type 0
IsSome o = (q : Poll) × (o ≡ some q)

only-ends :
    (fuel : ℕ) (again : ℕ → List Call) (side : Side) (p : Poll)
    → IsSome (trigger (suc fuel) p again (only side))
unfolding trigger finish_writes then_settle finish_loop
only-ends fuel again side p = elim (Option-cases p.error) [
  | inl e ↦ elim (List-cases (queue side p)) [
    | inl h ↦ ends_idle fuel again side p e h
    | inr (op, ops, h) ↦ (
      settle (calls (finished side op ops p) (again op)),
      trigger-only fuel again side p op ops e h,
    )
  ]
  | inr (x, e) ↦ (settle p, ground (arith, e))
]
  where
    ends_idle :
        (fuel : ℕ) (again : ℕ → List Call) (side : Side) (p : Poll)
        → p.error ≡ none
        → queue side p ≡ []
        → IsSome (trigger (suc fuel) p again (only side))
    ends_idle fuel again read p e h = (settle p, ground (arith, e, h))
    ends_idle fuel again write p e h = (settle p, ground (arith, e, h))

-- Over every history of what tasks call on a poll and of triggers, without an error that libuv reports,
-- and in which each trigger ended, for a poll for which it held before that whoever waits is watched for:
-- where tasks wait until it is readable, or writable, libuv watches for that, and a trigger for it, and
-- nothing else, ends; it finishes the operation that waits longest and no other one, whose task then runs,
-- and afterwards whoever waits is watched for again, and the next trigger for one direction ends, too.
pub run-wakes :
    (p : Poll) (es : List Event) (u : Poll) (side : Side) (op : ℕ) (ops : List ℕ) (fuel : ℕ)
    (again : ℕ → List Call)
    → all_whole es ≡ true
    → IsSynced p
    → run p es ≡ some u
    → queue side u ≡ op ∷ ops
    → let u' = settle (calls (finished side op ops u) (again op)) in
      (u.polling ≡ some u.events)
      × (watches side u.events ≡ true)
      × (trigger (suc fuel) u again (only side) ≡ some u')
      × IsSynced u'
      × ((next : Side) → IsSome (trigger (suc fuel) u' again (only next)))
run-wakes p es u side op ops fuel again whole v r h =
    let w : IsSynced u = subst (Ends IsSynced) r (run-Ends p es whole v) in
    let (e, a, b) = waiting_open u side op ops w h in
    (
      a,
      b,
      trigger-only fuel again side u op ops e h,
      settle-IsSynced _ (calls-IsSynced _ (again op) (pop-IsSynced u side op ops h w)),
      λ next. only-ends fuel again next _,
    )

-- What a task that waited does: it goes on, and waits for the poll to be writable again.
abbrev pub writes_again : (ℕ → Side × Bool) → (ℕ → ℕ) → ℕ → List Call
writes_again waited next op =
    exits (waited op).0 (waited op).1 op ∷ awaits write (waited op).1 (next op) ∷ []

nil-append_one : (xs : List ℕ) (l : ℕ) → is_nil (xs ++ l ∷ []) ≡ false
nil-append_one [] l = refl
nil-append_one (x ∷ xs) l = refl

resumed_error :
    (p : Poll) (side : Side) (background : Bool) (op : ℕ)
    → (resumed p side background op).error ≡ p.error
unfolding resumed
resumed_error p read b op = refl
resumed_error p write b op = refl

await-queue :
    (p : Poll) (side : Side) (background : Bool) (op : ℕ)
    → p.error ≡ none
    → (queue side (await p side background op) ≡ queue side p ++ op ∷ [])
      × ((await p side background op).error ≡ none)
unfolding await sync_poll
await-queue p read b op e = (ground (arith, e), ground (arith, e))
await-queue p write b op e = (ground (arith, e), ground (arith, e))

-- A task that goes on to wait for the other direction leaves somebody waiting, and no error.
again_waits :
    (p : Poll) (waited : ℕ → Side × Bool) (next : ℕ → ℕ) (op : ℕ)
    → p.error ≡ none
    → let p' = calls p (writes_again waited next op) in
      (p'.error ≡ none) × (is_nil p'.writes ≡ false)
unfolding calls call
again_waits p waited next op e =
    let q = resumed p (waited op).0 (waited op).1 op in
    let still : q.error ≡ none = resumed_error p (waited op).0 (waited op).1 op ∙ e in
    let (w, e') = await-queue q write (waited op).1 (next op) still in
    (e', ap is_nil w ∙ nil-append_one q.writes (next op))

loop_diverges :
    (fuel : ℕ) (p : Poll) (waited : ℕ → Side × Bool) (next : ℕ → ℕ)
    → p.error ≡ none
    → is_nil p.writes ≡ false
    → finish_loop fuel (writes_again waited next) write none p ≡ none
unfolding finish_loop
loop_diverges zero p waited next e h = refl
loop_diverges (suc fuel) p waited next e h = elim (List-cases p.writes) [
  | inl w ↦ absurd (ground (arith, h, w))
  | inr (op, ops, w) ↦
      let (e', h') = again_waits (finished write op ops p) waited next op e in
      rw (w, finish_loop) (loop_diverges fuel _ waited next e' h')
]

-- Where tasks wait for a poll to be readable and none for it to be writable, and whoever is resumed waits
-- for it to be writable next: a trigger because the peer disconnected never ends.
pub disconnect_diverges :
    (fuel : ℕ) (p : Poll) (mask : Mask) (op : ℕ) (ops : List ℕ) (waited : ℕ → Side × Bool)
    (next : ℕ → ℕ)
    → p.error ≡ none
    → p.reads ≡ op ∷ ops
    → p.writes ≡ []
    → mask.disconnect ≡ true
    → trigger fuel p (writes_again waited next) mask ≡ none
unfolding trigger finish_writes then_settle
disconnect_diverges zero p mask op ops waited next e r w d = ground (arith, e, d)
disconnect_diverges (suc fuel) p mask op ops waited next e r w d =
    let again = writes_again waited next in
    let (e', h') = again_waits (finished read op ops p) waited next op e in
    ground (
      arith,
      e,
      d,
      w,
      finish_loop_first fuel again read p op ops r,
      loop_diverges (suc fuel) (calls (finished read op ops p) (again op)) waited next e' h',
    )
