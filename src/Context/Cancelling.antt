-- ===== src/Context/Cancelling.antt =====
-- A cancellation ends, and reaches every cancellation that is chained to it.
use ext_async.Prelude.{
  if_cases, ℕ, zero, suc, ◌+◌, ◌-◌, ◌%◌, ◌<◌, ◌≡◌, refl, sym, subst, ◌∙◌, ap, true, List, [], ◌∷◌,
  Option, none, some, Bool, false, ◌&&◌, arith, ◌==◌, if◌then◌else◌, length, is_nil, inl, inr,
  List-cases,
}
use ext_async.Context.{
  Callback, chain, operation, Contexts, pop, mark, notify, and_then, drain, sum, fuel_for, invoke,
  timed_out, release_cancellation, ref_mod,
}
use ext_async.Context.Draining.{
  IsMade, IsLive, IsLive-Drained, pop-IsLive, chained, settled, registered, told, Drained,
  IsMade-Drained, made_lem, mark-Drained, pop_operation-Drained, pop_chain-Drained, Drained-refl,
  Drained-trans, pop-IsMade, sum-put, sum-put_same,
}

-- One round of the loop, by the list of callbacks that it finds.
abbrev round : ℕ → ℕ → Contexts → ℕ → List Callback → Option Contexts
round fuel err s c l = elim l [
  | [] ↦ some s
  | cb ∷ rest ↦ elim cb [
    | operation o ↦ drain fuel err (notify (pop s c rest) o err) c
    | chain d ↦ and_then (drain fuel err (mark (pop s c rest) d err) d) (λ s'. drain fuel err s' c)
  ]
]

drain-round :
    (fuel err : ℕ) (s : Contexts) (c : ℕ)
    → (s.cancels c).freed ≡ false
    → drain (suc fuel) err s c ≡ round fuel err s c (s.cancels c).callbacks
unfolding drain
drain-round fuel err s c f =
    ap
      (λ b. elim b as (λ _. Option Contexts) [
        | true ↦ none
        | false ↦ round fuel err s c (s.cancels c).callbacks
      ])
      f

-- The loop ends, with the cancellation settled.
abbrev pub Ends : Contexts → ℕ → Option Contexts → Type 0
Ends s c o = (s' : Contexts) × (o ≡ some s') × Drained s s' × (settled s' c ≡ true)

Continues : ℕ → ℕ → Type 0
Continues fuel err =
    (s : Contexts) (c : ℕ)
    → IsMade s
    → IsLive s
    → (s.cancels c).freed ≡ false
    → sum length s.cancels s.cancels_made < fuel
    → (s.cancels c).triggered ≡ true
    → Ends s c (drain fuel err s c)

-- Taking a callback off makes the sum smaller.
pop_fewer :
    (s : Contexts) (c : ℕ) (cb : Callback) (rest : List Callback)
    → IsMade s
    → (s.cancels c).callbacks ≡ cb ∷ rest
    → suc (sum length (pop s c rest).cancels s.cancels_made) ≡ sum length s.cancels s.cancels_made
pop_fewer s c cb rest m e = omega (
  arith,
  sum-put length s.cancels c (record (s.cancels c) { callbacks = rest }) s.cancels_made
      (made_lem s c cb rest m e),
  ap length e,
)

round-Ends :
    (fuel err : ℕ) (s : Contexts) (c : ℕ) (l : List Callback)
    → Continues fuel err
    → IsMade s
    → IsLive s
    → (s.cancels c).freed ≡ false
    → sum length s.cancels s.cancels_made < suc fuel
    → (s.cancels c).triggered ≡ true
    → (s.cancels c).callbacks ≡ l
    → Ends s c (round fuel err s c l)
unfolding Continues
round-Ends fuel err s c [] next m l f n t e =
    (s, refl, Drained-refl s, ground (arith, t, ap is_nil e))
round-Ends fuel err s c (operation o ∷ rest) next m l f n t e =
    let s1 = notify (pop s c rest) o err in
    let v = pop_operation-Drained s c o err rest m e in
    let (s', r, w, d) =
      next s1 c (IsMade-Drained s s1 v m) (IsLive-Drained s s1 v l) (v.freed_same c ∙ f)
        (omega (arith, n, pop_fewer s c (operation o) rest m e)) (v.triggered_kept c t) in
    (s', r, Drained-trans s s1 s' v w, d)
round-Ends fuel err s c (chain d ∷ rest) next m l f n t e =
    let s0 = pop s c rest in
    let s1 = mark s0 d err in
    let m0 = pop-IsMade s c (chain d) rest m e in
    let v1 = mark-Drained s0 d err in
    let (l0, live) = pop-IsLive s c d rest l e in
    let (s2, r2, v2, d2) =
      next s1 d (IsMade-Drained s0 s1 v1 m0) (IsLive-Drained s0 s1 v1 l0) (ground (arith, live))
        (omega (arith, n, pop_fewer s c (chain d) rest m e, v1.fewer)) (ground arith) in
    let v02 = Drained-trans s0 s1 s2 v1 v2 in
    let v = pop_chain-Drained s s2 c d rest m e v02 d2 in
    let (s3, r3, v3, d3) =
      next s2 c (IsMade-Drained s s2 v m) (IsLive-Drained s s2 v l) (v.freed_same c ∙ f)
        (subst (λ k. sum length s2.cancels k < fuel) (sym v.made_same)
          (omega (arith, n, pop_fewer s c (chain d) rest m e, v02.fewer)))
        (v.triggered_kept c t) in
    (s3, ap (λ o. and_then o (λ s'. drain fuel err s' c)) r2 ∙ r3, Drained-trans s s2 s3 v v3, d3)

drain-Ends : (fuel err : ℕ) → Continues fuel err
unfolding Continues
drain-Ends zero err s c m l f n t = absurd (omega (arith, n))
drain-Ends (suc fuel) err s c m l f n t =
    subst (Ends s c) (sym (drain-round fuel err s c f))
      (round-Ends fuel err s c (s.cancels c).callbacks (drain-Ends fuel err) m l f n t refl)

-- The cancellations that are chained to one, or to one that is, and so on.
pub data Reaches (s : Contexts) (c : ℕ) : ℕ → Type 0 where
  here : Reaches s c c
  there : (b d : ℕ) → Reaches s c b → chained d (s.cancels b).callbacks ≡ true → Reaches s c d

reached-settled :
    (s s' : Contexts) (c d : ℕ)
    → Drained s s'
    → settled s' c ≡ true
    → Reaches s c d
    → settled s' d ≡ true
reached-settled s s' c _ v t here = t
reached-settled s s' c _ v t (there b d r h) =
    let u = reached-settled s s' c b v t r in
    elim (List-cases (s'.cancels b).callbacks) [
      | inl e ↦ ground (arith, v.chains b d h, ap (chained d) e)
      | inr (x, rest, e) ↦ absurd (ground (arith, u, ap is_nil e))
    ]

reached-live :
    (s : Contexts) (c d : ℕ)
    → IsLive s
    → (s.cancels c).freed ≡ false
    → Reaches s c d
    → (s.cancels d).freed ≡ false
unfolding IsLive
reached-live s c _ l f here = f
reached-live s c _ l f (there b d r h) = l b d h

-- Everything that is reached from a cancellation is triggered and has no callback left, unless it is
-- freed, which happens at most to the first one, where that is released; every operation is notified as
-- often as its callbacks went away, and no context changes.
abbrev pub Cancels : Bool → Contexts → ℕ → Option Contexts → Type 0
Cancels released s c o =
    (s' : Contexts) × (o ≡ some s')
    × ((d : ℕ)
        → Reaches s c d
        → ((s'.cancels d).freed ≡ false → settled s' d ≡ true)
          × ((released && c == d) ≡ false → (s'.cancels d).freed ≡ false))
    × ((p : ℕ)
        → sum (registered p) s'.cancels s.cancels_made + told p s'.notified
          ≡ sum (registered p) s.cancels s.cancels_made + told p s.notified)
    × (s'.contexts ≡ s.contexts)

drain-Cancels :
    (s : Contexts) (c err : ℕ)
    → IsMade s
    → IsLive s
    → (s.cancels c).freed ≡ false
    → Ends (mark s c err) c (drain (fuel_for s) err (mark s c err) c)
unfolding Continues
drain-Cancels s c err m l f =
    let s1 = mark s c err in
    let v = mark-Drained s c err in
    drain-Ends (fuel_for s) err s1 c (IsMade-Drained s s1 v m) (IsLive-Drained s s1 v l)
      (v.freed_same c ∙ f) (omega (arith, v.fewer)) (ground arith)

Ends-Cancels :
    (s : Contexts) (c err : ℕ) (o : Option Contexts)
    → IsLive s
    → (s.cancels c).freed ≡ false
    → Ends (mark s c err) c o
    → Cancels false s c o
Ends-Cancels s c err o l f (s', e, v, t) =
    let w = Drained-trans s (mark s c err) s' (mark-Drained s c err) v in
    (
      s',
      e,
      (λ d r.
          (λ _. reached-settled s s' c d w t r, λ _. w.freed_same d ∙ reached-live s c d l f r)),
      w.once,
      w.contexts_same,
    )

release-Cancels :
    (s : Contexts) (c : ℕ) (o : Option Contexts)
    → Cancels false s c o
    → Cancels true s c (and_then o (λ s'. some (release_cancellation s' c)))
unfolding release_cancellation
release-Cancels s c o (s', e, f, g, same) =
    let n = ((s'.cancels c).refcount + ref_mod - 1) % ref_mod in
    let k = record (s'.cancels c) {
      refcount = n;
      freed = if n == 0 then true else (s'.cancels c).freed;
    } in
    (
      release_cancellation s' c,
      ap (λ t. and_then t (λ s''. some (release_cancellation s'' c))) e,
      (λ d r.
          let (now, live) = f d r in
          let settled_now = now (live refl) in
          (λ _. ground (arith, settled_now), λ other. ground (arith, other, live refl))),
      (λ p. omega (arith, g p, sum-put_same (registered p) s'.cancels c k s.cancels_made refl)),
      same,
    )

-- Where a cancellation is not triggered yet nor freed, none that was not made has callbacks, and no
-- chain leads to a cancellation that was freed: calling its handler, and likewise its timeout, ends,
-- whatever the chains are (they may go in a circle). Then every cancellation that was chained to it,
-- directly or through others, is triggered and has no callbacks left and is not freed, and so is this one
-- itself, but that the timeout may have freed it; and what the callbacks of an operation count less than before, its notifications
-- count more: each was called once, and none was lost. No context changes.
pub cancel-Reaches :
    (s : Contexts) (c err : ℕ)
    → IsMade s
    → IsLive s
    → (s.cancels c).freed ≡ false
    → (s.cancels c).triggered ≡ false
    → Cancels false s c (invoke s c err) × Cancels true s c (timed_out s c err)
unfolding invoke timed_out
cancel-Reaches s c err m l f h =
    let o = drain (fuel_for s) err (mark s c err) c in
    let r = Ends-Cancels s c err o l f (drain-Cancels s c err m l f) in
    (
      if_cases (Cancels false s c) (s.cancels c).triggered _ _ (λ k. absurd (ground (arith, h, k)))
          (λ k. r),
      if_cases (Cancels true s c) (s.cancels c).triggered _ _ (λ k. absurd (ground (arith, h, k)))
          (λ k. release-Cancels s c o r),
    )
