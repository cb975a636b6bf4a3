-- ===== src/Dns/Query.antt =====
-- src/dns.c, `Concurrent\DNS\Query`: a query that a resolver of the program answers by `addRecord`, and how
-- the extension reads an address from it. The keys of a record's data are texts.
pub mod Records
pub mod Resolving
use ext_async.Prelude.{
  ℕ, zero, suc, ◌+◌, ◌*◌, ◌/◌, ◌%◌, Bool, true, false, not, ◌&&◌, ◌||◌, List, [], ◌∷◌, ◌++◌, Option,
  none, some, ◌==◌, if◌then◌else◌, is_some,
}
use ext_async.Dns.{Text, find, add}

-- What is in the data of a record.
pub data Datum : Type 0 where
  text : Text → Datum
  number : ℕ → Datum
  other : ℕ → Datum

abbrev pub Record : Type 0
Record = List (Text × Datum)

-- `async_dns_query`; `any` is the flag ASYNC_DNS_QUERY_FLAG_ANY.
pub record Query : Type 0 where
  pub any : Bool
  pub host : Text
  pub types : List ℕ
  pub records : List Record

abbrev pub contains : ℕ → List ℕ → Bool
contains n [] = false
contains n (m ∷ ms) = m == n || contains n ms

-- `zend_hash_index_add` with the value true.
abbrev pub include : ℕ → List ℕ → List ℕ
include n ms = if contains n ms then ms else ms ++ n ∷ []

abbrev pub type_a : ℕ
type_a = 1

abbrev pub type_aaaa : ℕ
type_aaaa = 28

abbrev pub type_any : ℕ
type_any = 255

-- The type for a PHP_DNS constant; 0 for the bits that are none.
abbrev pub type_of_bit : ℕ → ℕ
type_of_bit i =
    if i == 0x1
    then 1
    else if i == 0x2
    then 2
    else if i == 0x10
    then 5
    else if i == 0x20
    then 6
    else if i == 0x800
    then 12
    else if i == 0x1000
    then 13
    else if i == 0x2000
    then 257
    else if i == 0x4000
    then 15
    else if i == 0x8000
    then 16
    else if i == 0x1000000
    then 38
    else if i == 0x2000000
    then 33
    else if i == 0x4000000
    then 35
    else if i == 0x8000000
    then 28
    else if i == 0x10000000
    then 255
    else 0

abbrev pub add_type : Query → ℕ → Query
add_type q j = record q {
  any = q.any || j == type_any;
  types = if j == 0 then q.types else include j q.types;
}

-- The loop of `create_dns_query`, with the rounds that are left: `i` runs through the 29 bits up to
-- PHP_DNS_ANY.
pub add_bits : ℕ → ℕ → ℕ → Query → Query
add_bits zero i mask q = q
add_bits (suc rounds) i mask q =
    add_bits rounds (i * 2) mask (if (mask / i) % 2 == 1 then add_type q (type_of_bit i) else q)

unfoldable pub create_query : Text → ℕ → Query
unfolding add_bits
create_query host mask =
    add_bits 29 1 mask (record { any = false; host = host; types = []; records = [] })

abbrev pub add_types : Query → List ℕ → Query
add_types q [] = q
add_types q (t ∷ ts) =
    add_types (record q { any = q.any || t == type_any; types = include t q.types }) ts

-- `Query::__construct`
unfoldable pub construct : Text → List ℕ → Query
construct host types =
    add_types (record { any = false; host = host; types = []; records = [] }) types

-- "host", "class", "ttl", "type", "ip", "ipv6" and "IN".
abbrev pub str_host : Text
str_host = 104 ∷ 111 ∷ 115 ∷ 116 ∷ []

abbrev pub str_class : Text
str_class = 99 ∷ 108 ∷ 97 ∷ 115 ∷ 115 ∷ []

abbrev pub str_ttl : Text
str_ttl = 116 ∷ 116 ∷ 108 ∷ []

abbrev pub str_type : Text
str_type = 116 ∷ 121 ∷ 112 ∷ 101 ∷ []

abbrev pub str_ip : Text
str_ip = 105 ∷ 112 ∷ []

abbrev pub str_ipv6 : Text
str_ipv6 = 105 ∷ 112 ∷ 118 ∷ 54 ∷ []

abbrev pub str_in : Text
str_in = 73 ∷ 78 ∷ []

-- The entries of the data whose keys are not there yet.
abbrev pub add_data : Record → Record → Record
add_data r [] = r
add_data r ((k, v) ∷ data_left) = add_data (if is_some (find k r) then r else add k v r) data_left

pub make_record : Text → ℕ → ℕ → Record → Record
make_record host kind ttl given =
    add_data
      ((str_host, text host)
        ∷ (str_class, text str_in)
        ∷ (str_ttl, number ttl)
        ∷ (str_type, number kind)
        ∷ [])
      given

pub data Refusal : Type 0 where
  unrequested : Refusal
  missing_ip : Refusal
  missing_ipv6 : Refusal

-- The checks of `addRecord`.
abbrev pub refusal : Query → ℕ → Record → Option Refusal
refusal q kind given =
    if not q.any && not (contains kind q.types)
    then some unrequested
    else if kind == type_a && not (is_some (find str_ip given))
    then some missing_ip
    else if kind == type_aaaa && not (is_some (find str_ipv6 given))
    then some missing_ipv6
    else none

-- `Query::addRecord`, which throws where it is refused.
unfoldable pub add_record : Query → ℕ → ℕ → Record → Query
unfolding make_record
add_record q kind ttl given =
    if is_some (refusal q kind given)
    then q
    else record q { records = q.records ++ make_record q.host kind ttl given ∷ [] }

-- What reading an address gives; `fault` means that a key is missing, whose value is then read.
pub data Lookup : Type 0 where
  no_result : Lookup
  resolved : Datum → Lookup
  fault : Lookup

abbrev pub has_type : ℕ → Record → Bool
has_type kind r = elim (find str_type r) as (λ _. Bool) [ some (number n) ↦ n == kind | _ ↦ false ]

abbrev pub value_of : Option Datum → Lookup
value_of none = fault
value_of (some d) = resolved d

-- One of the two loops of `lookup_ip_using_resolver`.
pub lookup_type : ℕ → Text → List Record → Lookup
lookup_type kind key [] = no_result
lookup_type kind key (r ∷ rs) =
    let rest = lookup_type kind key rs in if has_type kind r then value_of (find key r) else rest

abbrev pub or_then : Lookup → Lookup → Lookup
or_then no_result l = l
or_then (resolved d) l = resolved d
or_then fault l = fault

-- `lookup_ip_using_resolver` after the resolver has returned; `ipv6` says whether it was asked for.
unfoldable pub lookup_ip : List Record → Bool → Lookup
unfolding lookup_type
lookup_ip records ipv6 =
    or_then (lookup_type type_a str_ip records)
      (if ipv6 then lookup_type type_aaaa str_ipv6 records else no_result)
