-- ===== src/Tests/Tasks.antt =====
-- Conditions and deferreds that two tasks wait for.
use ext_async.Prelude.{
  ℕ, ◌≡◌, ◌+◌, ◌==◌, refl, inl, inr, true, false, List, [], ◌∷◌, map, none, some, arith,
}
use ext_async.Php.{null, opaque, user}
use ext_async.Scheduler.{Scheduler}
use ext_async.Condition.{Condition}
use ext_async.Condition.Waking.{
  System, Call, waits_for, signals, broadcasts, resumes, run, IsCounted, run-IsCounted,
}
use ext_async.Deferred.{Deferred, pending, resolved, given, is_pending}
use ext_async.Deferred.Combining
use ext_async.Deferred.Combining.Counting.{combine_counts, left_after, exited}
use ext_async.Deferred.Awaitable
use ext_async.Deferred.Awaitable.{create_awaitable, of_deferred, Same, run-Same}
use ext_async.Deferred.Settling
use ext_async.Deferred.Settling.{
  IsConsistent, awaits, resolves, fails, disposes, awaited, answers, unanswered, run-answers,
  run_keeps,
}

abbrev busy : Scheduler
busy = record { busy_count = 2; busy_ref = true; shutdown = 1 ∷ [] }

-- The operations 5 and 6 wait.
abbrev condition : Condition
condition = record {
  address = 1;
  scheduler = busy;
  shutdown = true;
  error = none;
  waiting = 5 ∷ 6 ∷ [];
  broadcast = 0;
}

abbrev system : System
system = record { condition = condition; queued = [] }

abbrev wakes : List Call
wakes = broadcasts ∷ waits_for 8 false ∷ signals ∷ resumes false ∷ []

run-IsCounted_example : IsCounted (run system wakes)
run-IsCounted_example = run-IsCounted system wakes (omega arith) (ground arith)

-- The operations 5 and 6 wait for the deferred.
abbrev deferred : Deferred
deferred = record {
  address = 2;
  state = record {
    address = 1;
    status = pending;
    refcount = 2;
    file = none;
    line = 0;
    result = null;
    scheduler = busy;
    context = 0;
    context_refs = 1;
    operations = 5 ∷ 6 ∷ [];
    cancel = true;
  };
  cancel = false;
  has_callback = false;
  callbacks = [];
}

abbrev settled : Deferred
settled = record deferred {
  state = record (deferred.state) {
    status = resolved;
    result = opaque 4;
    operations = [];
    cancel = false;
  };
}

deferred-IsConsistent : IsConsistent deferred.state
deferred-IsConsistent = record { emptied = inl refl; disarmed = inl refl }

settled-IsConsistent : IsConsistent settled.state
settled-IsConsistent = record { emptied = inr refl; disarmed = inr refl }

abbrev attempts : List Settling.Call
attempts = awaits 7 ∷ resolves (given (opaque 4)) ∷ fails (user 3) ∷ awaits 8 ∷ disposes null ∷ []

run-answers_example :
    let (d', out) = Settling.run deferred attempts in
    let ops : List ℕ = 5 ∷ 6 ∷ 7 ∷ 8 ∷ [] in
    IsConsistent d'.state
    × (out ≡ answers d'.state ops)
    × (d'.state.operations ≡ unanswered d'.state ops)
run-answers_example = run-answers deferred attempts deferred-IsConsistent

abbrev combine : Combining.Combine
combine = record { deferred = deferred; counter = 2; started = 2; released = false }

abbrev arrival : ℕ → Combining.Arrival
arrival n = record { key = opaque n; status = resolved; result = opaque n }

-- The first continuation settles the second awaitable and throws, the second one leaves the deferred.
abbrev nested : List Combining.Event
nested =
    Combining.begins (arrival 0)
    ∷ Combining.begins (arrival 1)
    ∷ Combining.returns (λ d. d) none
    ∷ Combining.returns (λ d. d) (some (user 9))
    ∷ []

combine_counts_example :
    let r = Combining.run (record { combine = combine; running = 0; flags = [] }) nested in
    let pending_calls = (left_after 2 nested + r.running) + exited nested in
    (r.flags ≡ false ∷ true ∷ [])
    × (r.combine.released ≡ (pending_calls == 0))
    × (pending_calls ≡ 0 → is_pending r.combine.deferred.state.status ≡ false)
combine_counts_example =
    combine_counts combine 2 nested refl refl refl (omega arith) (omega arith) refl

-- An awaitable that nobody waits for yet, and a deferred like it.
abbrev idle_deferred : Deferred
idle_deferred = record deferred { state = record (deferred.state) { operations = [] } }

created-Same : Same create_awaitable idle_deferred
unfolding create_awaitable
created-Same = record {
  same_status = refl;
  same_operations = refl;
  same_result = λ h. absurd (ground (arith, h));
}

abbrev uses : List Awaitable.Call
uses = Awaitable.awaits 7 ∷ Awaitable.resolves (some (opaque 4)) ∷ Awaitable.awaits 8 ∷ []

run-Same_example :
    let (a', out) = Awaitable.run create_awaitable uses in
    let (d', out') = Settling.run idle_deferred (map of_deferred uses) in (out ≡ out') × Same a' d'
run-Same_example = run-Same create_awaitable idle_deferred uses created-Same
