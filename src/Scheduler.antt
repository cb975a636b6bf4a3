-- ===== src/Scheduler.antt =====
-- The part of `async_task_scheduler` (php_async.h) that the components share: the busy count, which
-- keeps the event loop alive, and the list of shutdown callbacks, by the address of the structure
-- that holds the callback.
use ext_async.Prelude.{
  ℕ, ◌+◌, ◌-◌, ◌%◌, ◌^◌, ◌<◌, ◌≡◌, ◌↔◌, Bool, true, false, List, [], ◌∷◌, ◌++◌, arith, ◌==◌,
  if◌then◌else◌, Option, none, some, ltb, Bool-cases, inl, inr, ap, ◌∙◌,
}

pub record Scheduler : Type 0 where
  pub busy_count : ℕ
  -- Whether the busy timer is referenced, so that it keeps the loop alive.
  pub busy_ref : Bool
  pub shutdown : List ℕ

abbrev pub ulong_mod : ℕ
ulong_mod = 2 ^ 64

-- ASYNC_BUSY_ENTER
pub busy_enter : Scheduler → Scheduler
busy_enter s =
    let n = (s.busy_count + 1) % ulong_mod in
    record s { busy_count = n; busy_ref = if n == 1 then true else s.busy_ref }

-- ASYNC_BUSY_EXIT
pub busy_exit : Scheduler → Scheduler
busy_exit s =
    let n = (s.busy_count + ulong_mod - 1) % ulong_mod in
    record s { busy_count = n; busy_ref = if n == 0 then false else s.busy_ref }

-- `if (!async_context_is_background(context)) { ASYNC_BUSY_ENTER(scheduler); }`
pub enter_foreground : Bool → Scheduler → Scheduler
enter_foreground background s = if background then s else busy_enter s

pub exit_foreground : Bool → Scheduler → Scheduler
exit_foreground background s = if background then s else busy_exit s

abbrev pub erase : ℕ → List ℕ → List ℕ
erase a [] = []
erase a (x ∷ xs) = let rest = erase a xs in if x == a then xs else x ∷ rest

-- ASYNC_LIST_APPEND(&scheduler->shutdown, …)
abbrev pub register : ℕ → Scheduler → Scheduler
register a s = record s { shutdown = s.shutdown ++ a ∷ [] }

-- ASYNC_LIST_REMOVE(&scheduler->shutdown, …)
abbrev pub unregister : ℕ → Scheduler → Scheduler
unregister a s = record s { shutdown = erase a s.shutdown }

-- The busy timer is referenced exactly while something is busy, and the count does not wrap.
pub record IsBalanced (s : Scheduler) : Type 0 where
  pub counted : s.busy_count < ulong_mod
  pub referenced : (s.busy_ref ≡ true) ↔ (0 < s.busy_count)

-- ASYNC_BUSY_ENTER keeps the scheduler balanced while the count stays below its limit.
pub busy_enter-IsBalanced :
    (s : Scheduler) → s.busy_count + 1 < ulong_mod → IsBalanced s → IsBalanced (busy_enter s)
unfolding busy_enter
busy_enter-IsBalanced s h b = grind arith

-- ASYNC_BUSY_EXIT keeps the scheduler balanced while something is busy.
pub busy_exit-IsBalanced :
    (s : Scheduler) → 0 < s.busy_count → IsBalanced s → IsBalanced (busy_exit s)
unfolding busy_exit
busy_exit-IsBalanced s h b = grind arith

-- What a foreground task does with the busy count: it enters, and it exits.
pub data Turn : Type 0 where
  enters : Turn
  exits : Turn

pub turns : Scheduler → List Turn → Scheduler
unfolding busy_enter busy_exit
turns s [] = s
turns s (enters ∷ ts) = turns (busy_enter s) ts
turns s (exits ∷ ts) = turns (busy_exit s) ts

-- How many tasks are busy after some turns, unless there are too many, or one exits that has not
-- entered.
unfoldable pub balance : ℕ → List Turn → Option ℕ
balance n [] = some n
balance n (enters ∷ ts) =
    let rest = balance (n + 1) ts in if ltb (n + 1) ulong_mod then rest else none
balance n (exits ∷ ts) = let rest = balance (n - 1) ts in if ltb 0 n then rest else none

-- Over every sequence of ASYNC_BUSY_ENTER and ASYNC_BUSY_EXIT in which no exit lacks an enter and the
-- count does not reach its limit: the count is the number of enters that were not exited, and the busy
-- timer is referenced, so that the loop stays alive, exactly while it is positive.
pub turns-IsBalanced :
    (s : Scheduler) (ts : List Turn) (n : ℕ)
    → balance s.busy_count ts ≡ some n
    → IsBalanced s
    → IsBalanced (turns s ts) × ((turns s ts).busy_count ≡ n)
unfolding turns balance busy_enter busy_exit
turns-IsBalanced s [] n h b = (b, ground (arith, h))
turns-IsBalanced s (enters ∷ ts) n h b = elim (Bool-cases (ltb (s.busy_count + 1) ulong_mod)) [
  | inl t ↦
      let c : (busy_enter s).busy_count ≡ s.busy_count + 1 = ground (arith, t) in
      let h' : balance (s.busy_count + 1) ts ≡ some n = ground (arith, h, t) in
      turns-IsBalanced (busy_enter s) ts n (ap (λ m. balance m ts) c ∙ h')
        (busy_enter-IsBalanced s (ground (arith, t)) b)
  | inr t ↦ absurd (ground (arith, h, t))
]
turns-IsBalanced s (exits ∷ ts) n h b = elim (Bool-cases (ltb 0 s.busy_count)) [
  | inl t ↦
      let c : (busy_exit s).busy_count ≡ s.busy_count - 1 = ground (arith, t, b.counted) in
      let h' : balance (s.busy_count - 1) ts ≡ some n = ground (arith, h, t) in
      turns-IsBalanced (busy_exit s) ts n (ap (λ m. balance m ts) c ∙ h')
        (busy_exit-IsBalanced s (ground (arith, t)) b)
  | inr t ↦ absurd (ground (arith, h, t))
]
