-- ===== src/Tests/Contexts.antt =====
-- A foreground context, a context with cancellation inside it, and one inside that.
use ext_async.Prelude.{
  ℕ, ◌<◌, ◌≡◌, ◌≢◌, refl, true, false, [], ◌∷◌, Option, none, some, arith, ◌==◌, if◌then◌else◌,
}
use ext_async.Context.{
  Contexts, chain, operation, invoke, timed_out, with_value, with_cancel, is_cancelled, get,
}
use ext_async.Context.Draining.{IsMade, IsLive}
use ext_async.Context.Cancelling.{Cancels, cancel-Reaches}
use ext_async.Context.Inheriting.{IsOrdered, get-with_value}
use ext_async.Context.Descending.{with_cancel-descends}

-- The context 1 is made of 0, and 2 of 1; the cancellation 1 is chained to 0, where an operation waits.
abbrev contexts : Contexts
contexts = record {
  contexts = λ i. record {
    parent = if i == 1 then some 0 else if i == 2 then some 1 else none;
    background = false;
    variable = if i == 1 then some 4 else none;
    value = if i == 1 then some 40 else none;
    cancel = if i == 1 then some 0 else if i == 2 then some 1 else none;
    output = 0;
  };
  contexts_made = 3;
  cancels = λ c. record {
    refcount = 1;
    triggered = false;
    timeout = false;
    error = none;
    callbacks = if c == 0 then operation 5 ∷ chain 1 ∷ [] else [];
    freed = false;
  };
  cancels_made = 2;
  notified = [];
}

contexts-IsMade : IsMade contexts
unfolding IsMade
contexts-IsMade c h = ground (arith, h)

contexts-IsLive : IsLive contexts
unfolding IsLive
contexts-IsLive b d h = refl

contexts-IsOrdered : IsOrdered contexts
unfolding IsOrdered
contexts-IsOrdered x p m e = ground (arith, e)

cancel-Reaches_example :
    Cancels false contexts 0 (invoke contexts 0 9)
    × Cancels true contexts 0 (timed_out contexts 0 9)
cancel-Reaches_example = cancel-Reaches contexts 0 9 contexts-IsMade contexts-IsLive refl refl

get-with_value_example :
    let s' = with_value contexts 2 6 60 in
    (get 4 s' 6 3 ≡ some (some 60))
    × ((w : ℕ)
        → w ≢ 6
        → (found : Option ℕ) × (get 4 s' w 3 ≡ some found) × (get 3 contexts w 2 ≡ some found))
    × ((fuel w x : ℕ) → x < 3 → get fuel s' w x ≡ get fuel contexts w x)
get-with_value_example = get-with_value contexts 2 6 60 contexts-IsOrdered (omega arith)

with_cancel-descends_example :
    (s' : Contexts) × (invoke (with_cancel contexts 2) 1 9 ≡ some s')
    × (is_cancelled s' 3 ≡ some true)
with_cancel-descends_example =
    with_cancel-descends contexts 2 1 9 contexts-IsMade contexts-IsLive refl refl (omega arith) refl
