-- ===== src/Dns/Query/Records.antt =====
-- The records of a query.
use ext_async.Prelude.{
  ℕ, ◌≡◌, refl, sym, ap, ap₂, ◌∙◌, true, false, [], ◌∷◌, Option, none, some, arith, if◌then◌else◌,
  if_cases, Bool-cases, inl, inr, is_some,
}
use ext_async.Dns.{Text, same, find, add}
use ext_async.Dns.Query.{
  Datum, text, number, Record, add_data, make_record, str_host, str_class, str_ttl, str_type,
  str_in,
}

abbrev pub first_some {ℓ} : {A : Type ℓ} → Option A → Option A → Option A
first_some none o = o
first_some (some x) o = some x

same_eq : (s t : Text) → same s t ≡ true → s ≡ t
same_eq [] [] h = refl
same_eq [] (y ∷ ys) h = absurd (ground (arith, h))
same_eq (x ∷ xs) [] h = absurd (ground (arith, h))
same_eq (x ∷ xs) (y ∷ ys) h =
    let head : x ≡ y = ground (arith, h) in
    ap₂ (λ a b. a ∷ b) head (same_eq xs ys (ground (arith, h)))

add_new :
    (j : Text) (v : Datum) (r : Record)
    → is_some (find j r) ≡ false
    → (k : Text) → find k (add j v r) ≡ first_some (find k r) (if same j k then some v else none)
add_new j v [] h k = refl
add_new j v ((i, w) ∷ r) h k = ground (arith, h, add_new j v r (ground (arith, h)) k)

first_some-none {ℓ} : {A : Type ℓ} (o : Option A) → first_some o none ≡ o
first_some-none none = refl
first_some-none (some x) = refl

add_data-find :
    (r given : Record) (k : Text) → find k (add_data r given) ≡ first_some (find k r) (find k given)
add_data-find r [] k = sym (first_some-none (find k r))
add_data-find r ((i, v) ∷ given) k =
    add_data-find (if is_some (find i r) then r else add i v r) given k
    ∙ if_cases
        (λ q.
          first_some (find k q) (find k given)
          ≡ first_some (find k r) (if same i k then some v else find k given))
        (is_some (find i r)) r (add i v r)
        (λ h. elim (Bool-cases (same i k)) [
          | inl e ↦ ground (arith, h, e, ap (λ t. find t r) (same_eq i k e))
          | inr e ↦ ground (arith, e)
        ])
        (λ h. ground (arith, add_new i v r h k))

-- A record has the host of the query, the class IN, and the given type and time to live, whatever else
-- its data says, and each other key is that of the data.
pub make_record-find :
    (host : Text) (kind ttl : ℕ) (given : Record) (k : Text)
    → find k (make_record host kind ttl given) ≡ (
        if same str_host k
        then some (text host)
        else if same str_class k
        then some (text str_in)
        else if same str_ttl k
        then some (number ttl)
        else if same str_type k
        then some (number kind)
        else find k given)
unfolding make_record
make_record-find host kind ttl given k = add_data-find _ given k ∙ ground arith
