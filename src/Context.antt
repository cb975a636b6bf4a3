-- ===== src/Context.antt =====
-- src/context.c and the structs of php_async.h that it keeps: contexts, context variables and their
-- cancellation. Contexts, cancellations, variables and values are numbers; those not made yet are the
-- ones from `contexts_made` and `cancels_made` on. The callbacks other than `chain_cancellation` are
-- those of operations, which the model records in the order of the calls.
pub mod Draining
pub mod Cancelling
pub mod Inheriting
pub mod Descending
mod Dangling
use ext_async.Prelude.{
  ℕ, zero, suc, ◌+◌, ◌-◌, ◌%◌, ◌^◌, Bool, true, false, not, ◌&&◌, ◌||◌, List, [], ◌∷◌, ◌++◌, Option,
  none, some, ◌==◌, if◌then◌else◌, length,
}

-- `async_cancel_cb`, by its function and object.
pub data Callback : Type 0 where
  chain : ℕ → Callback
  operation : ℕ → Callback

-- `async_context_cancellation`; `freed` says that its memory was given back.
pub record Cancellation : Type 0 where
  pub refcount : ℕ
  pub triggered : Bool
  pub timeout : Bool
  pub error : Option ℕ
  pub callbacks : List Callback
  pub freed : Bool

-- `async_context`
pub record Context : Type 0 where
  pub parent : Option ℕ
  pub background : Bool
  pub variable : Option ℕ
  pub value : Option ℕ
  pub cancel : Option ℕ
  pub output : ℕ

pub record Contexts : Type 0 where
  pub contexts : ℕ → Context
  pub contexts_made : ℕ
  pub cancels : ℕ → Cancellation
  pub cancels_made : ℕ
  -- The operations whose cancel callback was called, with the error that it got.
  pub notified : List (ℕ × ℕ)

abbrev pub ref_mod : ℕ
ref_mod = 2 ^ 32

module _ {ℓ} {A : Type ℓ} where
  abbrev pub put : (ℕ → A) → ℕ → A → ℕ → A
  put f i a j = if i == j then a else f j

abbrev pub store : Contexts → ℕ → Cancellation → Contexts
store s c k = record s { cancels = put s.cancels c k }

-- `init_cancellation` and `init_timeout_cancellation`
pub init_cancellation : Cancellation
init_cancellation = record {
  refcount = 0;
  triggered = false;
  timeout = false;
  error = none;
  callbacks = [];
  freed = false;
}

pub init_timeout_cancellation : Cancellation
unfolding init_cancellation
init_timeout_cancellation = record init_cancellation { timeout = true }

abbrev pub add_ref : Cancellation → Cancellation
add_ref k = record k { refcount = (k.refcount + 1) % ref_mod }

-- `release_cancellation`
pub release_cancellation : Contexts → ℕ → Contexts
release_cancellation s c =
    let k = s.cancels c in
    let n = (k.refcount + ref_mod - 1) % ref_mod in
    store s c (record k { refcount = n; freed = if n == 0 then true else k.freed })

-- A callback taken off a list, and what `chain_cancellation` writes before its loop.
abbrev pub pop : Contexts → ℕ → List Callback → Contexts
pop s c rest = store s c (record (s.cancels c) { callbacks = rest })

abbrev pub mark : Contexts → ℕ → ℕ → Contexts
mark s c err = store s c (record (s.cancels c) { triggered = true; error = some err })

abbrev pub notify : Contexts → ℕ → ℕ → Contexts
notify s o err = record s { notified = s.notified ++ (o, err) ∷ [] }

abbrev pub and_then : Option Contexts → (Contexts → Option Contexts) → Option Contexts
and_then none f = none
and_then (some s) f = f s

-- The loop of `chain_cancellation`, of `timed_out` and of `CancellationHandler::__invoke` over the
-- callbacks of a cancellation, with fuel for its rounds and for those of the loops inside. `none` means
-- that the fuel ran out, or that a chain led to a cancellation that was freed.
pub drain : ℕ → ℕ → Contexts → ℕ → Option Contexts
drain zero err s c = none
drain (suc fuel) err s c = elim (s.cancels c).freed [
  | true ↦ none
  | false ↦ elim (s.cancels c).callbacks [
    | [] ↦ some s
    | cb ∷ rest ↦ elim cb [
      | operation o ↦ drain fuel err (notify (pop s c rest) o err) c
      | chain d ↦
          and_then (drain fuel err (mark (pop s c rest) d err) d) (λ s'. drain fuel err s' c)
    ]
  ]
]

-- A sum over the callback lists of the first `n` cancellations.
abbrev pub sum : (List Callback → ℕ) → (ℕ → Cancellation) → ℕ → ℕ
sum g f zero = 0
sum g f (suc n) = g (f n).callbacks + sum g f n

-- As many rounds as callbacks are registered, and one.
abbrev pub fuel_for : Contexts → ℕ
fuel_for s = suc (sum length s.cancels s.cancels_made)

-- `CancellationHandler::__invoke`, whose handler holds a reference to the cancellation, where `err` is the CancellationException that it makes.
pub invoke : Contexts → ℕ → ℕ → Option Contexts
unfolding drain
invoke s c err = if (s.cancels c).triggered then some s else drain (fuel_for s) err (mark s c err) c

-- `timed_out`, likewise; its timer is closed before the cancellation is freed.
pub timed_out : Contexts → ℕ → ℕ → Option Contexts
unfolding drain release_cancellation
timed_out s c err =
    if (s.cancels c).triggered
    then some s
    else and_then (drain (fuel_for s) err (mark s c err) c) (λ s'. some (release_cancellation s' c))

abbrev pub make : Contexts → Context → Contexts
make s x = record s {
  contexts = put s.contexts s.contexts_made x;
  contexts_made = s.contexts_made + 1;
}

-- How `create_cancellable_context` connects a cancellation to that of the parent context.
abbrev pub connect : Option ℕ → ℕ → Contexts → Contexts
connect none c s = s
connect (some p) c s =
    if (s.cancels p).triggered
    then store s c (record (s.cancels c) { triggered = true; error = (s.cancels p).error })
    else store s p (record (s.cancels p) { callbacks = (s.cancels p).callbacks ++ chain c ∷ [] })

-- `create_cancellable_context`; the context is the one that is made next.
pub create_cancellable_context : Contexts → ℕ → ℕ → Contexts
create_cancellable_context s c parent =
    let x = s.contexts parent in
    connect x.cancel c (
      store
        (make s (record {
          parent = some parent;
          background = x.background;
          variable = none;
          value = none;
          cancel = some c;
          output = x.output;
        }))
        c (add_ref (s.cancels c)))

abbrev pub fresh : Contexts → Cancellation → Contexts
fresh s k = record s { cancels = put s.cancels s.cancels_made k; cancels_made = s.cancels_made + 1 }

-- `Context::withCancel`: the handler that it makes takes a reference, too.
pub with_cancel : Contexts → ℕ → Contexts
unfolding init_cancellation create_cancellable_context
with_cancel s parent =
    let c = s.cancels_made in
    let s' = create_cancellable_context (fresh s init_cancellation) c parent in
    store s' c (add_ref (s'.cancels c))

-- `Context::withTimeout`, without the timer.
pub with_timeout : Contexts → ℕ → Contexts
unfolding init_timeout_cancellation create_cancellable_context
with_timeout s parent =
    create_cancellable_context (fresh s init_timeout_cancellation) s.cancels_made parent

-- `propagate_cancellation`
abbrev pub propagate_cancellation : Option ℕ → Contexts → Contexts
propagate_cancellation none s = s
propagate_cancellation (some c) s = store s c (add_ref (s.cancels c))

-- `Context::with`, `Context::withIsolatedOutput` and `Context::shield`
pub with_value : Contexts → ℕ → ℕ → ℕ → Contexts
with_value s current variable value =
    let x = s.contexts current in
    propagate_cancellation x.cancel (
      make s (record {
        parent = some current;
        background = x.background;
        variable = some variable;
        value = some value;
        cancel = x.cancel;
        output = x.output;
      }))

pub with_isolated_output : Contexts → ℕ → Contexts
with_isolated_output s current =
    let x = s.contexts current in
    propagate_cancellation x.cancel (
      make s (record {
        parent = some current;
        background = x.background;
        variable = none;
        value = none;
        cancel = x.cancel;
        output = s.contexts_made;
      }))

pub shield : Contexts → ℕ → Contexts
shield s prev =
    let x = s.contexts prev in
    make s (record {
      parent = some prev;
      background = x.background;
      variable = none;
      value = none;
      cancel = none;
      output = x.output;
    })

-- `Context::isCancelled`, and the error that `Context::throwIfCancelled` throws. The outer `none` means
-- that a cancellation is read that was freed.
abbrev pub is_triggered : Contexts → Option ℕ → Option Bool
is_triggered s none = some false
is_triggered s (some c) = if (s.cancels c).freed then none else some (s.cancels c).triggered

pub is_cancelled : Contexts → ℕ → Option Bool
is_cancelled s x = is_triggered s (s.contexts x).cancel

abbrev pub error_of : Contexts → Option ℕ → Option (Option ℕ)
error_of s none = some none
error_of s (some c) =
    if (s.cancels c).freed
    then none
    else some (if (s.cancels c).triggered then (s.cancels c).error else none)

pub throw_if_cancelled : Contexts → ℕ → Option (Option ℕ)
throw_if_cancelled s x = error_of s (s.contexts x).cancel

abbrev pub is_var : Option ℕ → ℕ → Bool
is_var none variable = false
is_var (some v) variable = v == variable

-- `ContextVar::get` on a given context, with fuel for the contexts that it visits. The outer `none`
-- means that the fuel ran out, the inner one is PHP's null.
pub get : ℕ → Contexts → ℕ → ℕ → Option (Option ℕ)
get zero s variable x = none
get (suc fuel) s variable x =
    let above : Option (Option ℕ) = elim (s.contexts x).parent [
      | none ↦ some none
      | some p ↦ get fuel s variable p
    ] in
    if is_var (s.contexts x).variable variable then some (s.contexts x).value else above
