-- ===== src/Condition.antt =====
-- src/sync.c: conditions, which tasks wait for until another one signals or broadcasts.
pub mod Waking
use ext_async.Prelude.{
  ℕ, zero, suc, ◌+◌, ◌-◌, ◌%◌, ◌^◌, Bool, true, false, not, List, [], ◌∷◌, ◌++◌, map, Option, none,
  some, ltb, ◌==◌, if◌then◌else◌,
}
use ext_async.Php.{Throwable, fresh, caused, condition_closed, Completion, finish, resolve, fail}
use ext_async.Scheduler.{Scheduler, register, unregister, enter_foreground, exit_foreground}

-- `async_sync_condition`. `shutdown` says whether `shutdown.func` is set.
pub record Condition : Type 0 where
  pub address : ℕ
  pub scheduler : Scheduler
  pub shutdown : Bool
  pub error : Option Throwable
  pub waiting : List ℕ
  pub broadcast : ℕ

-- A completed operation, and whether its task is only queued (ASYNC_OP_FLAG_DEFER) or resumed at
-- once.
pub record Woken : Type 0 where
  pub completion : Completion
  pub deferred : Bool

abbrev pub first_error : Option Throwable → Option Throwable → Throwable
first_error (some e) error = e
first_error none (some e) = e
first_error none none = fresh condition_closed

-- `shutdown_cond_cb`: every waiting operation fails.
pub shutdown_cond : Condition → Option Throwable → Condition × List Woken
shutdown_cond c error =
    let e = first_error c.error error in
    (
      record c { shutdown = false; error = some e; waiting = [] },
      map (λ (op : ℕ). record { completion = fail op e; deferred = false }) c.waiting,
    )

-- `async_sync_condition_object_create`
pub create : ℕ → Scheduler → Condition
create address scheduler = record {
  address = address;
  scheduler = register address scheduler;
  shutdown = true;
  error = none;
  waiting = [];
  broadcast = 0;
}

abbrev pub unregistered : Condition → Condition
unregistered c = record c { scheduler = unregister c.address c.scheduler }

-- `async_sync_condition_object_dtor`
pub object_dtor : Condition → Condition × List Woken
unfolding shutdown_cond
object_dtor c = if c.shutdown then shutdown_cond (unregistered c) none else (c, [])

abbrev pub close_error : Option Throwable → Throwable
close_error none = fresh condition_closed
close_error (some e) = caused condition_closed e

-- `Condition::close`
pub close : Condition → Option Throwable → Condition × List Woken
unfolding shutdown_cond
close c previous =
    if c.shutdown then shutdown_cond (unregistered c) (some (close_error previous)) else (c, [])

-- `Condition::wait` up to the suspension: the error thrown, or the condition with its new waiter.
pub data Waited : Type 0 where
  waits : Condition → Waited
  threw : Throwable → Waited

pub wait : Condition → ℕ → Bool → Waited
wait c op background = elim c.error [
  | some e ↦ threw e
  | none ↦ waits (record c {
    waiting = c.waiting ++ op ∷ [];
    scheduler = enter_foreground background c.scheduler;
  })
]

abbrev pub drop_op : ℕ → List ℕ → List ℕ
drop_op op [] = []
drop_op op (x ∷ rest) = let more = drop_op op rest in if x == op then rest else x ∷ more

-- `Condition::wait` from the resumption on; `broadcast` is a uint32_t. ASYNC_FREE_OP takes the
-- operation off the list, where it still is if the wait was cancelled.
pub wait_resume : Condition → ℕ → Woken → Bool → Option Throwable × Condition
wait_resume c op w background =
    let c' = record c {
      waiting = drop_op op c.waiting;
      scheduler = exit_foreground background c.scheduler;
      broadcast = if w.deferred then (c.broadcast + 2 ^ 32 - 1) % 2 ^ 32 else c.broadcast;
    } in
    elim w.completion [ fail o e ↦ (some e, c') | _ ↦ (none, c') ]

-- What `signal` and `broadcast` return: the number of tasks they woke, or the error thrown.
pub data Count : Type 0 where
  woke : ℕ → Count
  throws : Throwable → Count

abbrev pub bump : ℕ → ℕ
bump n = (n + 1) % 2 ^ 32

abbrev pub signal_first : Condition → List ℕ → Count × Condition × List Woken
signal_first c [] = (woke 0, c, [])
signal_first c (op ∷ rest) =
    let busy = ltb 0 c.broadcast in
    (
      woke 1,
      record c { waiting = rest; broadcast = if busy then bump c.broadcast else c.broadcast },
      record { completion = finish op; deferred = busy } ∷ [],
    )

-- `Condition::signal`
pub signal : Condition → Count × Condition × List Woken
signal c = elim c.error [ some e ↦ (throws e, c, []) | none ↦ signal_first c c.waiting ]

-- The loop of `Condition::broadcast`.
pub broadcast_loop : ℕ → ℕ → List ℕ → ℕ × ℕ × List Woken
broadcast_loop count deferred [] = (count, deferred, [])
broadcast_loop count deferred (op ∷ rest) =
    let (count', deferred', woken) = broadcast_loop (count + 1) (bump deferred) rest in
    (count', deferred', record { completion = finish op; deferred = true } ∷ woken)

-- `Condition::broadcast`
pub broadcast : Condition → Count × Condition × List Woken
unfolding broadcast_loop
broadcast c = elim c.error [
  | some e ↦ (throws e, c, [])
  | none ↦
      let (count, deferred, woken) = broadcast_loop 0 c.broadcast c.waiting in
      (woke count, record c { waiting = []; broadcast = deferred }, woken)
]
