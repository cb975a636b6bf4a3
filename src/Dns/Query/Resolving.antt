-- ===== src/Dns/Query/Resolving.antt =====
-- The address that the extension reads from a query, and what the resolver answered.
use ext_async.Prelude.{
  ◌≢◌, ℕ, ◌≡◌, refl, sym, ap, ◌∙◌, not, ◌&&◌, List, [], ◌∷◌, ◌++◌, arith, ◌==◌, if◌then◌else◌,
  if_cases, is_some, Bool, append-nil, append_assoc,
}
use ext_async.Dns.{Text, find}
use ext_async.Dns.Query.{
  Record, Query, type_a, type_aaaa, str_ip, str_ipv6, str_type, refusal, add_record, make_record,
  Lookup, no_result, fault, has_type, value_of, lookup_type, or_then, lookup_ip,
}
use ext_async.Dns.Query.Records.{make_record-find}

-- An answer of the resolver: the arguments of `addRecord`.
pub record Answer : Type 0 where
  pub kind : ℕ
  pub ttl : ℕ
  pub given : Record

unfoldable pub answer_all : Query → List Answer → Query
answer_all q [] = q
answer_all q (a ∷ answers) = answer_all (add_record q a.kind a.ttl a.given) answers

-- The address in the first answer of a type that is not refused.
abbrev pub first_answer : Query → ℕ → Text → List Answer → Lookup
first_answer q kind key [] = no_result
first_answer q kind key (a ∷ answers) =
    let rest = first_answer q kind key answers in
    if a.kind == kind && not (is_some (refusal q a.kind a.given))
    then value_of (find key a.given)
    else rest

-- The records of the answers that are not refused.
abbrev records_of : Query → List Answer → List Record
records_of q [] = []
records_of q (a ∷ answers) =
    let rest = records_of q answers in
    if is_some (refusal q a.kind a.given)
    then rest
    else make_record q.host a.kind a.ttl a.given ∷ rest

record_type :
    (host : Text) (kind ttl : ℕ) (given : Record) (k : ℕ)
    → has_type k (make_record host kind ttl given) ≡ (kind == k)
record_type host kind ttl given k = ground (arith, make_record-find host kind ttl given str_type)

record_ip :
    (host : Text) (kind ttl : ℕ) (given : Record)
    → find str_ip (make_record host kind ttl given) ≡ find str_ip given
record_ip host kind ttl given = make_record-find host kind ttl given str_ip

record_ipv6 :
    (host : Text) (kind ttl : ℕ) (given : Record)
    → find str_ipv6 (make_record host kind ttl given) ≡ find str_ipv6 given
record_ipv6 host kind ttl given = make_record-find host kind ttl given str_ipv6

records-answer_all :
    (q : Query) (answers : List Answer)
    → (answer_all q answers).records ≡ q.records ++ records_of q answers
unfolding answer_all add_record
records-answer_all q [] = sym (append-nil q.records)
records-answer_all q (a ∷ answers) =
    let r = make_record q.host a.kind a.ttl a.given in
    let q' : Query = record q { records = q.records ++ r ∷ [] } in
    if_cases
      (λ (t : Query). (answer_all t answers).records ≡ q.records ++ records_of q (a ∷ answers))
      (is_some (refusal q a.kind a.given)) q q'
      (λ h. records-answer_all q answers ∙ ground (arith, h))
      (λ h.
        records-answer_all q' answers
        ∙ append_assoc q.records (r ∷ []) (records_of q answers)
        ∙ ground (arith, h))

lookup_type-records :
    (q : Query) (kind : ℕ) (key : Text) (answers : List Answer)
    → ((host : Text) (k ttl : ℕ) (given : Record)
        → find key (make_record host k ttl given) ≡ find key given)
    → lookup_type kind key (records_of q answers) ≡ first_answer q kind key answers
unfolding lookup_type
lookup_type-records q kind key [] keeps = refl
lookup_type-records q kind key (a ∷ answers) keeps = ground (
  arith,
  record_type q.host a.kind a.ttl a.given kind,
  keeps q.host a.kind a.ttl a.given,
  lookup_type-records q kind key answers keeps,
)

first_answer-ne-fault :
    (q : Query) (answers : List Answer)
    → (first_answer q type_a str_ip answers ≢ fault)
      × (first_answer q type_aaaa str_ipv6 answers ≢ fault)
first_answer-ne-fault q [] = (λ h. ground (arith, h), λ h. ground (arith, h))
first_answer-ne-fault q (a ∷ answers) =
    let ih = first_answer-ne-fault q answers in
    (λ h. ground (arith, h, ih.0), λ h. ground (arith, h, ih.1))

-- Whatever a resolver answers to a query without records: the address that the extension reads is that of
-- the first answer of type A that was not refused, else, where IPv6 is asked for, that of the first one of
-- type AAAA, else there is none; and no record lacks the key that is read.
pub lookup_ip-answers :
    (q : Query) (answers : List Answer) (ipv6 : Bool)
    → q.records ≡ []
    → let l = lookup_ip (answer_all q answers).records ipv6 in
      (l
        ≡ or_then
            (first_answer q type_a str_ip answers)
            (if ipv6 then first_answer q type_aaaa str_ipv6 answers else no_result))
      × (l ≢ fault)
unfolding lookup_ip
lookup_ip-answers q answers ipv6 e =
    let rs = records_of q answers in
    let r = records-answer_all q answers ∙ ap (λ t. t ++ rs) e in
    let a =
      ap (lookup_type type_a str_ip) r ∙ lookup_type-records q type_a str_ip answers record_ip in
    let b =
      ap (lookup_type type_aaaa str_ipv6) r
      ∙ lookup_type-records q type_aaaa str_ipv6 answers record_ipv6 in
    let safe = first_answer-ne-fault q answers in
    (ground (arith, a, b), λ h. ground (arith, h, a, b, safe.0, safe.1))
