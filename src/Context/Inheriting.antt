-- ===== src/Context/Inheriting.antt =====
-- What a new context takes from the one that it is made of.
use ext_async.Prelude.{
  ℕ, zero, suc, ◌<◌, ◌≡◌, ◌≢◌, refl, ◌∙◌, ap, Option, none, some, arith, if◌then◌else◌, inl, inr,
  Bool-cases,
}
use ext_async.Context.{Context, Contexts, with_value, propagate_cancellation, make, is_var, get}

-- A context that was made has a parent that was made before it.
unfoldable pub IsOrdered : Contexts → Type 0
IsOrdered s = (x p : ℕ) → x < s.contexts_made → (s.contexts x).parent ≡ some p → p < x

-- One round of the search.
abbrev search_in : (ℕ → Option (Option ℕ)) → ℕ → Context → Option (Option ℕ)
search_in above variable x =
    let rest : Option (Option ℕ) = elim x.parent [ none ↦ some none | some p ↦ above p ] in
    if is_var x.variable variable then some x.value else rest

get-search_in :
    (fuel : ℕ) (s : Contexts) (variable x : ℕ)
    → get (suc fuel) s variable x ≡ search_in (get fuel s variable) variable (s.contexts x)
unfolding get
get-search_in fuel s variable x = refl

search_in-parent :
    (f g : ℕ → Option (Option ℕ)) (variable : ℕ) (x : Context) (o : Option ℕ)
    → ((p : ℕ) → o ≡ some p → f p ≡ g p)
    → search_in f variable (record x { parent = o })
      ≡ search_in g variable (record x { parent = o })
search_in-parent f g variable x none h = refl
search_in-parent f g variable x (some p) h =
    ap (λ r. if is_var x.variable variable then some x.value else r) (h p refl)

-- The search depends on the contexts only that were made before.
get-agree :
    (fuel : ℕ) (s s' : Contexts) (variable x : ℕ)
    → IsOrdered s
    → ((y : ℕ) → y < s.contexts_made → s'.contexts y ≡ s.contexts y)
    → x < s.contexts_made
    → get fuel s' variable x ≡ get fuel s variable x
unfolding get IsOrdered
get-agree zero s s' variable x o a m = refl
get-agree (suc fuel) s s' variable x o a m =
    ap (search_in (get fuel s' variable) variable) (a x m)
    ∙ search_in-parent (get fuel s' variable) (get fuel s variable) variable (s.contexts x)
        (s.contexts x).parent
        (λ p e. get-agree fuel s s' variable p o a (omega (arith, o x p m e, m)))

contexts-propagate :
    (o : Option ℕ) (s : Contexts) → (propagate_cancellation o s).contexts ≡ s.contexts
contexts-propagate none s = refl
contexts-propagate (some c) s = refl

search_in-ends :
    (f : ℕ → Option (Option ℕ)) (variable : ℕ) (x : Context) (o : Option ℕ)
    → ((p : ℕ) → o ≡ some p → (found : Option ℕ) × (f p ≡ some found))
    → (found : Option ℕ) × (search_in f variable (record x { parent = o }) ≡ some found)
search_in-ends f variable x none h = elim (Bool-cases (is_var x.variable variable)) [
  | inl e ↦ (x.value, ground (arith, e))
  | inr e ↦ (none, ground (arith, e))
]
search_in-ends f variable x (some p) h = elim (Bool-cases (is_var x.variable variable)) [
  | inl e ↦ (x.value, ground (arith, e))
  | inr e ↦ let (found, r) = h p refl in (found, ground (arith, e, r))
]

-- The search ends with fuel for more rounds than the number of the context.
get-ends :
    (fuel : ℕ) (s : Contexts) (variable x : ℕ)
    → IsOrdered s
    → x < s.contexts_made
    → x < fuel
    → (found : Option ℕ) × (get fuel s variable x ≡ some found)
unfolding IsOrdered
get-ends zero s variable x o m h = absurd (omega (arith, h))
get-ends (suc fuel) s variable x o m h =
    let (found, r) =
      search_in-ends (get fuel s variable) variable (s.contexts x) (s.contexts x).parent (λ p e.
        get-ends fuel s variable p o (omega (arith, o x p m e, m)) (omega (arith, o x p m e, h))) in
    (found, get-search_in fuel s variable x ∙ r)

-- Where every context was made after its parent: in the context that `with` makes of a context, its
-- variable has the new value, and every other variable what it has in the old one; the search of it
-- ends within as many rounds as contexts were made; and no variable changes in an older context.
pub get-with_value :
    (s : Contexts) (current variable value : ℕ)
    → IsOrdered s
    → current < s.contexts_made
    → let s' = with_value s current variable value in
      let new = s.contexts_made in
      (get (suc new) s' variable new ≡ some (some value))
      × ((w : ℕ)
          → w ≢ variable
          → (found : Option ℕ) × (get (suc new) s' w new ≡ some found)
            × (get new s w current ≡ some found))
      × ((fuel w x : ℕ) → x < s.contexts_made → get fuel s' w x ≡ get fuel s w x)
unfolding with_value
get-with_value s current variable value o m =
    let old = s.contexts current in
    let x : Context = record {
      parent = some current;
      background = old.background;
      variable = some variable;
      value = some value;
      cancel = old.cancel;
      output = old.output;
    } in
    let s' = with_value s current variable value in
    let new = s.contexts_made in
    let same = contexts-propagate old.cancel (make s x) in
    let made : s'.contexts new ≡ x = ap (λ f. f new) same ∙ ground arith in
    let agree : (y : ℕ) → y < new → s'.contexts y ≡ s.contexts y =
      λ y h. ap (λ f. f y) same ∙ ground (arith, h) in
    let looks : (w : ℕ) → get (suc new) s' w new ≡ search_in (get new s' w) w x =
      λ w. get-search_in new s' w new ∙ ap (search_in (get new s' w) w) made in
    (
      looks variable ∙ ground arith,
      (λ w h.
          let (found, r) = get-ends new s w current o m m in
          (found, looks w ∙ ground (arith, h, get-agree new s s' w current o agree m, r), r)),
      (λ fuel w y h. get-agree fuel s s' w y o agree h),
    )
