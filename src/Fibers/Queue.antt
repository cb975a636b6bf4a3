-- ===== src/Fibers/Queue.antt =====
-- The queue of fibers: its flags, and the return from a switch.
use ext_async.Prelude.{ℕ, ◌≡◌, refl, List, [], ◌∷◌, arith, if◌then◌else◌}
use ext_async.Ticks.Counting.{count, count-append_one}
use ext_async.Fibers.{
  Fibers, SuspendType, none, prepend, append, suspend, switch, Act, suspends, switches, act, acts,
}

-- The flag of a fiber says whether it stands in the queue, and it stands there once.
pub IsFlagged : Fibers → Type 0
IsFlagged s = (i : ℕ) → count i s.fibers ≡ (if s.queued i then 1 else 0)

suspend-IsFlagged :
    (s : Fibers) (xs : List ℕ)
    → s.fibers ≡ xs
    → IsFlagged (record s { fibers = xs })
    → IsFlagged (suspend (record s { fibers = xs }))
unfolding suspend IsFlagged
suspend-IsFlagged s [] e v i = v i
suspend-IsFlagged s (x ∷ xs) e v i = ground (arith, v i, v x)

switch-IsFlagged :
    (s : Fibers) (next : ℕ) (t : SuspendType) → IsFlagged s → IsFlagged (switch s next t)
unfolding switch IsFlagged
switch-IsFlagged s next none v i = ground (arith, v i)
switch-IsFlagged s next prepend v i = ground (arith, v i, v s.current)
switch-IsFlagged s next append v i =
    ground (arith, v i, v s.current, count-append_one i s.current s.fibers)

-- Whatever the fibers do, in any order: where the QUEUED flag of every fiber says whether it stands in
-- the queue, and none stands there twice, it stays so.
pub acts-IsFlagged : (s : Fibers) (as' : List Act) → IsFlagged s → IsFlagged (acts s as')
unfolding acts act
acts-IsFlagged s [] v = v
acts-IsFlagged s (suspends ∷ as') v =
    acts-IsFlagged (suspend s) as' (suspend-IsFlagged s s.fibers refl v)
acts-IsFlagged s (switches next t ∷ as') v =
    acts-IsFlagged (switch s next t) as' (switch-IsFlagged s next t v)
