-- ===== src/Dns.antt =====
-- src/dns.c, `Concurrent\DNS\Config`: the tables that are read from the hosts file and from resolv.conf of
-- a Unix system. A text is the list of its bytes, without the NUL that ends it. The arguments are the
-- lines as `php_stream_gets` returns them, each with its line feed, as far as they fit into the buffer of
-- 1024 bytes. `Dns/Query.antt` has the queries.
pub mod Query
pub mod Hosts
pub mod Nameservers
use ext_async.Prelude.{
  ℕ, zero, suc, ◌+◌, ◌-◌, ◌*◌, Bool, true, false, ◌&&◌, ◌||◌, List, [], ◌∷◌, ◌++◌, Option, none,
  some, ◌==◌, if◌then◌else◌, ltb, is_nil,
}
use ext_async.Php.{ℤ, pos, negsuc}

-- A text of bytes.
abbrev pub Text : Type 0
Text = List ℕ

abbrev pub same : Text → Text → Bool
same [] [] = true
same [] (y ∷ ys) = false
same (x ∷ xs) [] = false
same (x ∷ xs) (y ∷ ys) = x == y && same xs ys

-- '#', ';', line feed and carriage return.
abbrev pub skip_line : ℕ → Bool
skip_line c = c == 35 || (c == 59 || (c == 10 || c == 13))

-- The first byte of a text, if any, decides; the NUL of an empty one does not.
abbrev pub skips : Text → Bool
skips [] = false
skips (c ∷ cs) = skip_line c

-- Space, tab, line feed and carriage return: the delimiters for `strtok`.
abbrev pub is_delim : ℕ → Bool
is_delim c = c == 32 || (c == 9 || (c == 10 || c == 13))

-- What `strtok` returns one after the other; `word` are the bytes of the token that was begun.
abbrev pub flush_word : Text → List Text → List Text
flush_word [] ts = ts
flush_word (c ∷ cs) ts = (c ∷ cs) ∷ ts

pub split : Text → Text → List Text
split word [] = flush_word word []
split word (c ∷ cs) =
    let next = split (if is_delim c then [] else word ++ c ∷ []) cs in
    if is_delim c then flush_word word next else next

unfoldable pub tokens : Text → List Text
unfolding split
tokens line = split [] line

-- The arrays that PHP keeps by name, in the order of insertion.
module _ {ℓ} {V : Type ℓ} where
  abbrev pub find : Text → List (Text × V) → Option V
  find k [] = none
  find k ((j, v) ∷ m) = let rest = find k m in if same j k then some v else rest

  -- `zend_hash_str_add` leaves an entry that is there.
  abbrev pub add : Text → V → List (Text × V) → List (Text × V)
  add k v [] = (k, v) ∷ []
  add k v ((j, w) ∷ m) = let rest = add k v m in if same j k then (j, w) ∷ m else (j, w) ∷ rest

-- An address for a host name: `zend_hash_find`, a new array if there is none, and
-- `zend_hash_next_index_insert`.
abbrev pub push : Text → Text → List (Text × List Text) → List (Text × List Text)
push name addr [] = (name, addr ∷ []) ∷ []
push name addr ((j, w) ∷ m) =
    let rest = push name addr m in if same j name then (j, w ++ addr ∷ []) ∷ m else (j, w) ∷ rest

-- The names of one line, up to a comment.
abbrev pub add_names : Text → List Text → List (Text × List Text) → List (Text × List Text)
add_names addr [] m = m
add_names addr (t ∷ ts) m =
    let rest = add_names addr ts (push t addr m) in if skips t then m else rest

abbrev pub host_tokens : List Text → List (Text × List Text) → List (Text × List Text)
host_tokens [] m = m
host_tokens (addr ∷ names) m = add_names addr names m

-- `Config::getHosts`
pub read_hosts : List Text → List (Text × List Text) → List (Text × List Text)
unfolding tokens
read_hosts [] m = m
read_hosts (line ∷ lines) m =
    read_hosts lines (if skips line then m else host_tokens (tokens line) m)

unfoldable pub get_hosts : List Text → List (Text × List Text)
unfolding read_hosts
get_hosts lines = read_hosts lines []

-- `strrchr(text, ':')`: what stands before and behind the last colon.
abbrev pub last_colon : Text → Option (Text × Text)
last_colon [] = none
last_colon (c ∷ cs) =
    let rest = last_colon cs in
    elim rest as (λ _. Option (Text × Text)) [
      | some r ↦ some (c ∷ r.0, r.1)
      | none ↦ if c == 58 then some ([], cs) else none
    ]

-- `atoi` on a number without a sign, without the bound of an int.
pub digits : ℕ → Text → ℕ
digits n [] = n
digits n (c ∷ cs) =
    let rest = digits (n * 10 + (c - 48)) cs in if ltb c 48 || ltb 57 c then n else rest

unfoldable pub atoi : Text → ℤ
unfolding digits
atoi [] = pos 0
atoi (c ∷ cs) =
    if c == 45
    then elim (digits 0 cs) [ zero ↦ pos 0 | suc n ↦ negsuc n ]
    else pos (digits 0 (if c == 43 then cs else c ∷ cs))

abbrev pub add_server : Text → List (Text × ℤ) → List (Text × ℤ)
unfolding atoi
add_server t m = elim (last_colon t) [
  | none ↦ add t (pos 53) m
  | some (host, port) ↦ add host (atoi port) m
]

abbrev pub add_servers : List Text → List (Text × ℤ) → List (Text × ℤ)
unfolding add_server
add_servers [] m = m
add_servers (t ∷ ts) m = let rest = add_servers ts (add_server t m) in if skips t then m else rest

-- "nameserver"
abbrev pub keyword : Text
keyword = 110 ∷ 97 ∷ 109 ∷ 101 ∷ 115 ∷ 101 ∷ 114 ∷ 118 ∷ 101 ∷ 114 ∷ []

abbrev pub server_tokens : List Text → List (Text × ℤ) → List (Text × ℤ)
unfolding add_servers
server_tokens [] m = m
server_tokens (word ∷ servers) m = if same word keyword then add_servers servers m else m

-- `Config::getNameservers`
pub read_servers : List Text → List (Text × ℤ) → List (Text × ℤ)
unfolding tokens server_tokens
read_servers [] m = m
read_servers (line ∷ lines) m =
    read_servers lines (if skips line then m else server_tokens (tokens line) m)

unfoldable pub get_nameservers : List Text → List (Text × ℤ)
unfolding read_servers
get_nameservers lines = read_servers lines []
