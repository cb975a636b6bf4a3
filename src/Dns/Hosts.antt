-- ===== src/Dns/Hosts.antt =====
-- A table of hosts that is written to a file is read back from it.
use ext_async.Prelude.{
  Bool, ℕ, ◌≡◌, refl, sym, ap, ◌∙◌, true, false, not, ◌&&◌, List, [], ◌∷◌, ◌++◌, append-nil,
  append_assoc, arith, is_nil,
}
use ext_async.Dns.{
  flush_word, Text, same, skips, is_delim, split, tokens, push, read_hosts, get_hosts,
}

abbrev pub no_delims : Text → Bool
no_delims [] = true
no_delims (c ∷ cs) = not (is_delim c) && no_delims cs

-- A word of a line: not empty, without a delimiter, and no comment.
abbrev pub IsWord : Text → Type 0
IsWord t = (is_nil t ≡ false) × (no_delims t ≡ true) × (skips t ≡ false)

abbrev pub AllWords : List Text → Type 0
AllWords [] = Unit {0}
AllWords (t ∷ ts) = IsWord t × AllWords ts

pub same_refl : (t : Text) → same t t ≡ true
same_refl [] = refl
same_refl (c ∷ cs) = ground (arith, same_refl cs)

split_letter :
    (w cs : Text) (c : ℕ) → is_delim c ≡ false → split w (c ∷ cs) ≡ split (w ++ c ∷ []) cs
unfolding split
split_letter w cs c h = ground (arith, h)

-- The bytes of a word are added to the token that was begun.
pub split_word : (w t rest : Text) → no_delims t ≡ true → split w (t ++ rest) ≡ split (w ++ t) rest
split_word w [] rest h = ap (λ x. split x rest) (sym (append-nil w))
split_word w (c ∷ cs) rest h =
    split_letter w (cs ++ rest) c (ground (arith, h))
    ∙ split_word (w ++ c ∷ []) cs rest (ground (arith, h))
    ∙ ap (λ x. split x rest) (append_assoc w (c ∷ []) cs)

-- A line of two words.
abbrev pub line_of : Text → Text → Text
line_of a n = a ++ (32 ∷ (n ++ 10 ∷ []))

pub flush_lem : (t : Text) (ts : List Text) → is_nil t ≡ false → flush_word t ts ≡ t ∷ ts
flush_lem [] ts h = absurd (ground (arith, h))
flush_lem (c ∷ cs) ts h = refl

pub tokens-line : (a n : Text) → IsWord a → IsWord n → tokens (line_of a n) ≡ a ∷ n ∷ []
unfolding tokens split
tokens-line a n v w =
    split_word [] a (32 ∷ (n ++ 10 ∷ [])) v.1
    ∙ flush_lem a (split [] (n ++ 10 ∷ [])) v.0
    ∙ ap (λ t. a ∷ t) (split_word [] n (10 ∷ []) w.1 ∙ flush_lem n [] w.0)

abbrev pub Hosts : Type 0
Hosts = List (Text × List Text)

-- A file with a line for each address of each name.
abbrev pub lines_of : Text → List Text → List Text
lines_of name [] = []
lines_of name (a ∷ addrs) = line_of a name ∷ lines_of name addrs

abbrev pub print_hosts : Hosts → List Text
print_hosts [] = []
print_hosts ((name, addrs) ∷ t) = lines_of name addrs ++ print_hosts t

-- No entry has the name.
abbrev pub Unlisted : Text → Hosts → Type 0
Unlisted name [] = Unit {0}
Unlisted name ((j, w) ∷ m) = (same j name ≡ false) × Unlisted name m

-- A name differs from those of a table.
abbrev pub Apart : Text → Hosts → Type 0
Apart name [] = Unit {0}
Apart name ((j, w) ∷ m) = (same name j ≡ false) × Apart name m

-- The names differ from one another; each is a word, with at least one address, and so is each of these.
abbrev pub IsTable : Hosts → Type 0
IsTable [] = Unit {0}
IsTable ((name, addrs) ∷ t) =
    IsWord name × (is_nil addrs ≡ false) × AllWords addrs × Apart name t × IsTable t

skips-append : (t rest : Text) → is_nil t ≡ false → skips (t ++ rest) ≡ skips t
skips-append [] rest h = absurd (ground (arith, h))
skips-append (c ∷ cs) rest h = refl

read_line :
    (a n : Text) (lines : List Text) (m : Hosts)
    → IsWord a
    → IsWord n
    → read_hosts (line_of a n ∷ lines) m ≡ read_hosts lines (push n a m)
unfolding read_hosts
read_line a n lines m v w =
    let open_line : skips (line_of a n) ≡ false = skips-append a (32 ∷ (n ++ 10 ∷ [])) v.0 ∙ v.2 in
    rw (open_line, read_hosts, tokens-line a n v w, w.2) refl

push_new : (n a : Text) (m : Hosts) → Unlisted n m → push n a m ≡ m ++ (n, a ∷ []) ∷ []
push_new n a [] h = refl
push_new n a ((j, w) ∷ m) h = ground (arith, h, push_new n a m h.1)

push_more :
    (n a : Text) (addrs : List Text) (m : Hosts)
    → Unlisted n m
    → push n a (m ++ (n, addrs) ∷ []) ≡ m ++ (n, addrs ++ a ∷ []) ∷ []
push_more n a addrs [] h = ground (arith, same_refl n)
push_more n a addrs ((j, w) ∷ m) h = ground (arith, h, push_more n a addrs m h.1)

read_lines :
    (n : Text) (addrs done : List Text) (lines : List Text) (m : Hosts)
    → IsWord n
    → AllWords addrs
    → Unlisted n m
    → read_hosts (lines_of n addrs ++ lines) (m ++ (n, done) ∷ [])
      ≡ read_hosts lines (m ++ (n, done ++ addrs) ∷ [])
read_lines n [] done lines m v w u =
    ap (λ t. read_hosts lines (m ++ (n, t) ∷ [])) (sym (append-nil done))
read_lines n (a ∷ addrs) done lines m v w u =
    read_line a n (lines_of n addrs ++ lines) (m ++ (n, done) ∷ []) w.0 v
    ∙ ap (read_hosts (lines_of n addrs ++ lines)) (push_more n a done m u)
    ∙ read_lines n addrs (done ++ a ∷ []) lines m v w.1 u
    ∙ ap (λ t. read_hosts lines (m ++ (n, t) ∷ [])) (append_assoc done (a ∷ []) addrs)

Unlisted-append :
    (k n : Text) (addrs : List Text) (m : Hosts)
    → Unlisted k m
    → same n k ≡ false
    → Unlisted k (m ++ (n, addrs) ∷ [])
Unlisted-append k n addrs [] u h = (h, tt)
Unlisted-append k n addrs ((j, w) ∷ m) u h = (u.0, Unlisted-append k n addrs m u.1 h)

-- No name of one table is in another.
abbrev AllUnlisted : Hosts → Hosts → Type 0
AllUnlisted [] m = Unit {0}
AllUnlisted ((k, w) ∷ t) m = Unlisted k m × AllUnlisted t m

AllUnlisted-append :
    (t : Hosts) (n : Text) (addrs : List Text) (m : Hosts)
    → AllUnlisted t m
    → Apart n t
    → AllUnlisted t (m ++ (n, addrs) ∷ [])
AllUnlisted-append [] n addrs m u h = tt
AllUnlisted-append ((k, w) ∷ t) n addrs m u h =
    (Unlisted-append k n addrs m u.0 h.0, AllUnlisted-append t n addrs m u.1 h.1)

AllUnlisted-nil : (t : Hosts) → AllUnlisted t []
AllUnlisted-nil [] = tt
AllUnlisted-nil ((k, w) ∷ t) = (tt, AllUnlisted-nil t)

read-print : (t m : Hosts) → IsTable t → AllUnlisted t m → read_hosts (print_hosts t) m ≡ m ++ t
unfolding read_hosts
read-print [] m v u = sym (append-nil m)
read-print ((n, []) ∷ t) m v u = absurd (ground (arith, v))
read-print ((n, a ∷ addrs) ∷ t) m v u =
    let rest = lines_of n addrs ++ print_hosts t in
    read_line a n rest m v.2.0 v.0
    ∙ ap (read_hosts rest) (push_new n a m u.0)
    ∙ read_lines n addrs (a ∷ []) (print_hosts t) m v.0 v.2.1 u.0
    ∙ read-print t (m ++ (n, a ∷ addrs) ∷ []) v.4 (AllUnlisted-append t n (a ∷ addrs) m u.1 v.3)
    ∙ append_assoc m ((n, a ∷ addrs) ∷ []) t

-- A table of hosts whose names are words and differ from one another, each with some addresses that are
-- words: read from a file with a line for each address of each name, it is the same, its order included.
pub get_hosts-print : (t : Hosts) → IsTable t → get_hosts (print_hosts t) ≡ t
unfolding get_hosts
get_hosts-print t v = read-print t [] v (AllUnlisted-nil t)
