-- ===== src/Channel/Fifo.antt =====
-- A channel is a queue: its messages are those in the buffer and those of the blocked senders, and
-- the operations take the oldest and add at the end.
use ext_async.Prelude.{
  ℕ, zero, suc, ◌+◌, ◌-◌, ◌%◌, ◌≤◌, ◌<◌, ◌≡◌, refl, sym, ap, ap₂, ◌∙◌, ◌⊎◌, inl, inr, Bool, true,
  false, List, [], ◌∷◌, ◌++◌, map, Option, none, some, arith, ltb, length, get_or, set,
  append_assoc, List-cases, Bool-cases,
}
use native.Mathlib.Nat.{mod-eq_of_lt, mod-mod, mod-add-mod}
use ext_async.Ring
use ext_async.Php.{Value, undef, Completion, finish, resolve, fail}
use ext_async.Channel.{State, Sender, fetch_noblock}
use ext_async.Scheduler.{enter_foreground}
use ext_async.Channel.Iterator.{fetch_or_wait, or_wait}
use ext_async.Channel.Inv.{IsValid}

abbrev pub values : List Sender → List Value
values = map (λ s. s.value)

-- The messages in the buffer, oldest first.
abbrev pub buffered : State → List Value
buffered st = Ring.cells undef st.size st.cells st.rpos st.len

-- All messages that were sent and not yet received, oldest first.
abbrev pub pending : State → List Value
pending st = buffered st ++ values st.senders

-- The messages that a list of completions hands to receivers.
abbrev pub handed : List Completion → List Value
handed [] = []
handed (resolve r v ∷ cs) = v ∷ handed cs
handed (finish o ∷ cs) = handed cs
handed (fail o e ∷ cs) = handed cs

-- A ring with `n` cells, `n` positive, has a first cell and the others.
cells_of_pos :
    (size : ℕ) (buf : List Value) (i n : ℕ)
    → 0 < n
    → i < size
    → Ring.cells undef size buf i n
      ≡ get_or buf i undef ∷ Ring.cells undef size buf ((i + 1) % size) (n - 1)
cells_of_pos size buf i zero h k = elim h [ ]
cells_of_pos size buf i (suc n) h k = ap₂ ◌∷◌ (ap (λ t. get_or buf t undef) (mod-eq_of_lt k)) (
    Ring.cells-mod undef size buf (suc i) ((i + 1) % size) n
      (ap (λ t. t % size) (omega arith) ∙ sym (mod-mod (i + 1) size))
    ∙ ap (Ring.cells undef size buf ((i + 1) % size)) (omega arith))

-- A write behind a full ring whose first cell has been taken adds a value at the end.
cells_refill :
    (size : ℕ) (buf : List Value) (i n : ℕ) (x : Value)
    → 0 < n
    → n ≤ size
    → size ≤ length buf
    → Ring.cells undef size (set buf ((i + n) % size) x) ((i + 1) % size) n
      ≡ Ring.cells undef size buf ((i + 1) % size) (n - 1) ++ x ∷ []
cells_refill size buf i n x p m a =
    ap (λ t. Ring.cells undef size (set buf t x) ((i + 1) % size) n) there
    ∙ ap (Ring.cells undef size (set buf next x) ((i + 1) % size)) {y = suc (n - 1)} (omega arith)
    ∙ Ring.cells-set undef size buf x ((i + 1) % size) (n - 1) a (omega arith)
  where
    next : ℕ
    next = ((i + 1) % size + (n - 1)) % size

    there : (i + n) % size ≡ next
    there = ap (λ t. t % size) (omega arith) ∙ sym (mod-add-mod (i + 1) size (n - 1))

-- Either there is no message, and `fetch_noblock` fails and changes nothing, or it takes the
-- oldest.
abbrev pub Takes : State → Option Value × State × List Completion → Type 0
Takes st r =
    ((pending st ≡ []) × (r ≡ (none, st, [])))
    ⊎ ((x : Value) × (rest : List Value) × (pending st ≡ x ∷ rest)
        × (r.0 ≡ some x)
        × (pending r.1 ≡ rest)
        × (handed r.2 ≡ []))

module _ (st : State) (v : IsValid st) where
  empty_buffer : ltb 0 st.len ≡ false → buffered st ≡ []
  empty_buffer h = ap (Ring.cells undef st.size st.cells st.rpos) {y = 0} (ground arith)

  split_buffer :
      0 < st.len
      → buffered st
        ≡ get_or st.cells st.rpos undef
          ∷ Ring.cells undef st.size st.cells ((st.rpos + 1) % st.size) (st.len - 1)
  split_buffer h = cells_of_pos st.size st.cells st.rpos st.len h (ground (arith, v))

  Takes-none : ltb 0 st.len ≡ false → st.senders ≡ [] → Takes st (fetch_noblock st)
  unfolding fetch_noblock
  Takes-none h e = inl (ap₂ ◌++◌ (empty_buffer h) (ap values e), ground arith)

  Takes-sender :
      (s : Sender) (rest : List Sender)
      → ltb 0 st.len ≡ false
      → st.senders ≡ s ∷ rest
      → Takes st (fetch_noblock st)
  Takes-sender s rest h e =
      let r : fetch_noblock st ≡ (some s.value, record st { senders = rest }, finish s.op ∷ []) =
        unfold fetch_noblock in ground arith in
      rw r (
        inr (
          s.value,
          values rest,
          ap₂ ◌++◌ (empty_buffer h) (ap values e),
          refl,
          ap (λ b. b ++ values rest) (empty_buffer h),
          refl,
        ))

  Takes-buffer : ltb 0 st.len ≡ true → st.senders ≡ [] → Takes st (fetch_noblock st)
  Takes-buffer h e =
      let st' : State = record st { rpos = (st.rpos + 1) % st.size; len = st.len - 1 } in
      let r : fetch_noblock st ≡ (some (get_or st.cells st.rpos undef), st', []) =
        unfold fetch_noblock in ground arith in
      rw r (
        inr (
          get_or st.cells st.rpos undef,
          pending st',
          ap (λ b. b ++ values st.senders) (split_buffer (ground arith)),
          refl,
          refl,
          refl,
        ))

  Takes-refill :
      (s : Sender) (rest : List Sender)
      → ltb 0 st.len ≡ true
      → st.senders ≡ s ∷ rest
      → Takes st (fetch_noblock st)
  Takes-refill s rest h e =
      let st' : State = record st {
        rpos = (st.rpos + 1) % st.size;
        senders = rest;
        cells = set st.cells st.wpos s.value;
        wpos = (st.wpos + 1) % st.size;
      } in
      let tail = Ring.cells undef st.size st.cells ((st.rpos + 1) % st.size) (st.len - 1) in
      let full : st.len ≡ st.size = ground (arith, v) in
      let r : fetch_noblock st ≡ (some (get_or st.cells st.rpos undef), st', finish s.op ∷ []) =
        unfold fetch_noblock in ground arith in
      rw r (
        inr (
          get_or st.cells st.rpos undef,
          tail ++ s.value ∷ values rest,
          ap₂ ◌++◌ (split_buffer (ground arith)) (ap values e),
          refl,
          ap (λ b. b ++ values rest) (refilled s.value full)
              ∙ append_assoc tail (s.value ∷ []) (values rest),
          refl,
        ))
    where
      refilled :
          (x : Value)
          → st.len ≡ st.size
          → Ring.cells undef st.size (set st.cells st.wpos x) ((st.rpos + 1) % st.size) st.len
            ≡ Ring.cells undef st.size st.cells ((st.rpos + 1) % st.size) (st.len - 1) ++ x ∷ []
      refilled x full =
          ap (λ w. Ring.cells undef st.size (set st.cells w x) ((st.rpos + 1) % st.size) st.len)
            v.wpos_at
          ∙ cells_refill st.size st.cells st.rpos st.len x (ground arith) v.len_in v.allocated

  -- On a valid channel `fetch_noblock` fails and changes nothing if no message is pending;
  -- otherwise it returns the oldest pending message, leaves the others in their order, and hands
  -- nothing to a receiver.
  pub fetch_noblock-Takes : Takes st (fetch_noblock st)
  fetch_noblock-Takes = elim (Bool-cases (ltb 0 st.len)) [
    | inr empty ↦ elim (List-cases st.senders) [
      | inl e ↦ Takes-none empty e
      | inr (s, rest, e) ↦ Takes-sender s rest empty e
    ]
    | inl more ↦ elim (List-cases st.senders) [
      | inl e ↦ Takes-buffer more e
      | inr (s, rest, e) ↦ Takes-refill s rest more e
    ]
  ]

pub fetch_or_wait-some :
    (st : State) (op : ℕ) (bg : Bool) (x : Value)
    → (fetch_noblock st).0 ≡ some x
    → fetch_or_wait st op bg ≡ (some x, (fetch_noblock st).1, (fetch_noblock st).2)
unfolding fetch_or_wait
fetch_or_wait-some st op bg x e =
    ap (λ o. or_wait op bg (o, (fetch_noblock st).1, (fetch_noblock st).2)) e

pub fetch_or_wait-none :
    (st : State) (op : ℕ) (bg : Bool)
    → fetch_noblock st ≡ (none, st, [])
    → fetch_or_wait st op bg ≡ (
      none,
      record st {
        receivers = st.receivers ++ op ∷ [];
        scheduler = enter_foreground bg st.scheduler;
      },
      [],
    )
unfolding fetch_or_wait
fetch_or_wait-none st op bg e = ap (or_wait op bg) e
