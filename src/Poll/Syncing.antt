-- ===== src/Poll/Syncing.antt =====
-- Whoever waits for a poll is watched for by libuv.
use ext_async.Prelude.{
  Bool, Ends, List-cases, Option-cases, if_cases, if_both, inl, inr, subst, ℕ, zero, suc, ◌≡◌, true,
  false, not, ◌&&◌, ◌||◌, List, [], ◌∷◌, Option, none, some, arith, if◌then◌else◌, is_nil,
}
use ext_async.Poll.{
  finished, if_watched, Mask, Poll, is_none, sync_poll, Side, read, write, queue, await, resumed,
  shutdown, close, Call, awaits, exits, closes, call, calls, first_of, is_op, finish_loop, settle,
  finish_writes, trigger, Event, runs, triggers, breaks, step, run, then_settle,
}

abbrev pub watched : Mask → Option Mask
watched m = if not m.readable && not m.writable then none else some m

-- Unless the poll is closed, what libuv watches is the mask, which covers both lists; after an error
-- nobody waits.
pub record IsSynced (p : Poll) : Type 0 where
  pub reads_covered : p.closing ≡ false → (is_nil p.reads || p.events.readable) ≡ true
  pub writes_covered : p.closing ≡ false → (is_nil p.writes || p.events.writable) ≡ true
  pub started : p.closing ≡ false → p.polling ≡ watched p.events
  pub failed : is_none p.error ≡ not p.closing
  pub idle : p.closing ≡ true → (is_nil p.reads && is_nil p.writes) ≡ true

sync_poll-IsSynced :
    (p : Poll)
    → (p.closing ≡ false → p.polling ≡ watched p.events)
    → is_none p.error ≡ not p.closing
    → (p.closing ≡ true → (is_nil p.reads && is_nil p.writes) ≡ true)
    → IsSynced (sync_poll p)
unfolding sync_poll
sync_poll-IsSynced p s f i = ground (arith, s, f, i)

call-IsSynced : (p : Poll) (c : Call) → IsSynced p → IsSynced (call p c)
unfolding call await resumed close shutdown sync_poll
call-IsSynced p (awaits read b op) v = ground (arith, v)
call-IsSynced p (awaits write b op) v = ground (arith, v)
call-IsSynced p (exits read b op) v = ground arith
call-IsSynced p (exits write b op) v = ground arith
call-IsSynced p (closes e) v = ground arith

pub calls-IsSynced : (p : Poll) (cs : List Call) → IsSynced p → IsSynced (calls p cs)
unfolding calls
calls-IsSynced p [] v = v
calls-IsSynced p (c ∷ cs) v = calls-IsSynced (call p c) cs (call-IsSynced p c v)

-- The poll without the first operation of a list, which is finished.
pub pop-IsSynced :
    (p : Poll) (side : Side) (op : ℕ) (ops : List ℕ)
    → queue side p ≡ op ∷ ops
    → IsSynced p
    → IsSynced (finished side op ops p)
pop-IsSynced p read op ops h v = ground (arith, v, h)
pop-IsSynced p write op ops h v = ground (arith, v, h)

pub settle-IsSynced : (p : Poll) → IsSynced p → IsSynced (settle p)
unfolding settle
settle-IsSynced p v =
    if_cases IsSynced p.closing p (sync_poll p) (λ h. v)
      (λ h. sync_poll-IsSynced p v.started v.failed v.idle)

finish_loop-Ends :
    (fuel : ℕ) (again : ℕ → List Call) (side : Side) (last : Option ℕ) (p : Poll)
    → IsSynced p
    → Ends IsSynced (finish_loop fuel again side last p)
unfolding finish_loop
finish_loop-Ends zero again side last p v = tt
finish_loop-Ends (suc fuel) again side last p v = elim (List-cases (queue side p)) [
  | inl e ↦ rw (e, Ends, finish_loop) v
  | inr (op, ops, e) ↦
      let q = finished side op ops p in
      let w = calls-IsSynced q (again op) (pop-IsSynced p side op ops e v) in
      rw (e, Ends, finish_loop)
        (elim (is_op last op)
          as (λ b. Ends IsSynced (elim b [
            | true ↦ some (calls q (again op))
            | false ↦ finish_loop fuel again side last (calls q (again op))
          ])) [ true ↦ w | false ↦ finish_loop-Ends fuel again side last (calls q (again op)) w ])
]

finish_writes-Ends :
    (fuel : ℕ) (again : ℕ → List Call) (mask : Mask) (last : Option ℕ) (o : Option Poll)
    → Ends IsSynced o
    → Ends IsSynced (finish_writes fuel again mask last o)
unfolding finish_writes
finish_writes-Ends fuel again mask last none v = tt
finish_writes-Ends fuel again mask last (some p) v =
    if_both (Ends IsSynced) (mask.writable || mask.disconnect) _ _
      (finish_loop-Ends fuel again write last p v) v

then_settle-Ends : (o : Option Poll) → Ends IsSynced o → Ends IsSynced (then_settle o)
unfolding then_settle
then_settle-Ends none v = tt
then_settle-Ends (some p) v = settle-IsSynced p v

pub trigger-Ends :
    (fuel : ℕ) (p : Poll) (again : ℕ → List Call) (mask : Mask)
    → IsSynced p
    → Ends IsSynced (trigger fuel p again mask)
unfolding trigger
trigger-Ends fuel p again mask v =
    let done =
      if_both (Ends IsSynced) (mask.readable || mask.disconnect)
        (finish_loop fuel again read (first_of p.reads) p) (some p)
        (finish_loop-Ends fuel again read (first_of p.reads) p v) v in
    if_both (Ends IsSynced) (is_none p.error) _ _
      (then_settle-Ends _ (finish_writes-Ends fuel again mask (first_of p.writes) _ done))
      (then_settle-Ends (some p) v)

if_watched-Ends :
    (m : Option Mask) (o : Option Poll) (p : Poll)
    → Ends IsSynced o
    → IsSynced p
    → Ends IsSynced (if_watched m o p)
if_watched-Ends none o p h v = v
if_watched-Ends (some m) o p h v = h

-- Whether libuv reports no error.
abbrev pub is_whole : Event → Bool
is_whole (runs cs) = true
is_whole (triggers fuel again mask) = true
is_whole (breaks fuel again) = false

abbrev pub all_whole : List Event → Bool
all_whole [] = true
all_whole (e ∷ es) = is_whole e && all_whole es

step-Ends : (p : Poll) (e : Event) → is_whole e ≡ true → IsSynced p → Ends IsSynced (step p e)
unfolding step
step-Ends p (runs cs) h v = calls-IsSynced p cs v
step-Ends p (breaks fuel again) h v = absurd (ground (arith, h))
step-Ends p (triggers fuel again mask) h v =
    if_watched-Ends p.polling _ p (trigger-Ends fuel p again mask v) v

pub run-Ends :
    (p : Poll) (es : List Event) → all_whole es ≡ true → IsSynced p → Ends IsSynced (run p es)
unfolding run
run-Ends p [] h v = v
run-Ends p (e ∷ es) whole v = elim (Option-cases (step p e)) [
  | inl h ↦ rw h tt
  | inr (q, h) ↦ rw h (
      run-Ends q es (ground (arith, whole))
        (subst (Ends IsSynced) h (step-Ends p e (ground (arith, whole)) v)))
]
