-- ===== src/Fibers.antt =====
-- src/fiber/asm.c, and with the same code src/fiber/ucontext.c and src/fiber/winfib.c: which fiber of
-- a scheduler runs next. A fiber is its address; the switch of machine contexts is not modelled.
pub mod Queue
use ext_async.Prelude.{
  ℕ, Bool, true, false, not, ◌&&◌, ◌||◌, List, [], ◌∷◌, ◌++◌, ◌==◌, if◌then◌else◌,
}

-- `async_fiber_suspend_type`, without the prefix.
pub data SuspendType : Type 0 where
  none : SuspendType
  prepend : SuspendType
  append : SuspendType

-- `ASYNC_G(fiber)`, `scheduler->runner`, `scheduler->fibers` and the flags of the fibers.
pub record Fibers : Type 0 where
  pub current : ℕ
  pub runner : ℕ
  pub fibers : List ℕ
  pub queued : ℕ → Bool

abbrev pub flag : (ℕ → Bool) → ℕ → Bool → ℕ → Bool
flag f i b j = if i == j then b else f j

-- `async_fiber_suspend`
pub suspend : Fibers → Fibers
suspend s = elim s.fibers [
  | [] ↦ record s { current = s.runner }
  | next ∷ rest ↦ record s { current = next; fibers = rest; queued = flag s.queued next false }
]

abbrev pub put : SuspendType → ℕ → List ℕ → List ℕ
put none i xs = xs
put prepend i xs = i ∷ xs
put append i xs = xs ++ i ∷ []

abbrev pub marks : SuspendType → Bool
marks none = false
marks prepend = true
marks append = true

-- `async_fiber_switch`
unfoldable pub switch : Fibers → ℕ → SuspendType → Fibers
switch s next suspend_type = if s.queued s.current then record s { current = next } else record s {
  current = next;
  fibers = put suspend_type s.current s.fibers;
  queued = if marks suspend_type then flag s.queued s.current true else s.queued;
}

-- What the fibers of a scheduler do: the one that runs suspends itself, or switches to another.
pub data Act : Type 0 where
  suspends : Act
  switches : ℕ → SuspendType → Act

pub act : Fibers → Act → Fibers
unfolding suspend switch
act s suspends = suspend s
act s (switches next suspend_type) = switch s next suspend_type

pub acts : Fibers → List Act → Fibers
acts s [] = s
acts s (a ∷ as') = acts (act s a) as'

-- A fiber that is switched to, may in its turn switch to others, and suspends itself when they all
-- have: the acts between a switch and the suspension that answers it.
pub data Nested : Type 0 where
  done : Nested
  calls : ℕ → Nested → Nested → Nested

pub nested : Nested → List Act
nested done = []
nested (calls next inner rest) = switches next prepend ∷ (nested inner ++ suspends ∷ nested rest)

-- Whether every fiber that is switched to is another than the one that runs, and waits in no queue.
unfoldable pub opens : Fibers → Nested → Bool
unfolding switch
opens s done = true
opens s (calls next inner rest) =
    not (s.queued next || next == s.current)
    && (opens (switch s next prepend) inner && opens s rest)
