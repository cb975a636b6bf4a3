-- ===== src/Tests/Names.antt =====
-- Names and addresses at concrete inputs.
use ext_async.Prelude.{◌≡◌, ◌≢◌, refl, true, false, List, [], ◌∷◌, ◌++◌, arith}
use ext_async.Dns.{Text, get_hosts}
use ext_async.Dns.Hosts.{Hosts, print_hosts, get_hosts-print}
use ext_async.Dns.Query.{Query, text, create_query, lookup_ip, resolved, fault, str_ip, str_ipv6}
use ext_async.Dns.Query.Resolving.{Answer, answer_all, lookup_ip-answers}

-- "::1", "a" and "b".
abbrev localhost : Text
localhost = 58 ∷ 58 ∷ 49 ∷ []

abbrev name_a : Text
name_a = 97 ∷ []

abbrev name_b : Text
name_b = 98 ∷ []

abbrev hosts : Hosts
hosts = (name_a, localhost ∷ name_b ∷ []) ∷ (name_b, localhost ∷ []) ∷ []

get_hosts-print_example : get_hosts (print_hosts hosts) ≡ hosts
get_hosts-print_example = get_hosts-print hosts (ground arith)

-- A line with two names and a comment.
two_names :
    get_hosts ((localhost ++ (32 ∷ 97 ∷ 9 ∷ 98 ∷ 32 ∷ 35 ∷ 98 ∷ 10 ∷ [])) ∷ [])
    ≡ (name_a, localhost ∷ []) ∷ (name_b, localhost ∷ []) ∷ []
unfolding get_hosts
two_names = refl

-- PHP_DNS_A and PHP_DNS_AAAA.
both_types :
    create_query name_a 0x8000001
    ≡ record { any = false; host = name_a; types = 1 ∷ 28 ∷ []; records = [] }
unfolding create_query
both_types = refl

abbrev query : Query
query = record { any = false; host = name_a; types = 1 ∷ 28 ∷ []; records = [] }

-- One of a type that was not asked for, an address of IPv6, and one of IPv4.
abbrev answers : List Answer
answers =
    record { kind = 16; ttl = 5; given = [] }
    ∷ record { kind = 28; ttl = 5; given = (str_ipv6, text localhost) ∷ [] }
    ∷ record { kind = 1; ttl = 5; given = (str_ip, text name_b) ∷ [] }
    ∷ []

abbrev found : Query
found = answer_all query answers

lookup_ip-answers_example :
    (lookup_ip found.records true ≡ resolved (text name_b)) × (lookup_ip found.records true ≢ fault)
lookup_ip-answers_example = lookup_ip-answers query answers true refl
