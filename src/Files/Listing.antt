-- ===== src/Files/Listing.antt =====
-- What is read from a directory.
use ext_async.Prelude.{
  ℕ, zero, suc, ◌+◌, ◌≡◌, refl, sym, ap, ◌∙◌, true, false, List, [], ◌∷◌, Option, none, some, ltb,
  if◌then◌else◌, length, get_elem?, arith, Bool-cases, inl, inr,
}
use ext_async.Files.{seek_set}
use ext_async.Files.Directory.{
  Dir, opendir, next, forward, read_at, read_entry, rewind, Call, reads, seeks, run,
}

-- A list and a position in it: a read gives the name there, if there is one.
unfoldable pub listing : List (List ℕ) → ℕ → List Call → List (Option (List ℕ))
listing names p [] = []
listing names p (reads ∷ cs) =
    get_elem? names p ∷ listing names (if ltb p (length names) then suc p else p) cs
listing names p (seeks offset ∷ cs) = listing names offset cs

abbrev place : ℕ → ℕ → Option ℕ
place size p = if ltb p size then some p else none

next-place : (size p : ℕ) → next size (place size p) ≡ place size (suc p)
next-place size p = ground arith

forward-place : (size n p : ℕ) → forward size n (place size p) ≡ place size (p + n)
forward-place size zero p = ap (place size) (omega arith)
forward-place size (suc n) p =
    ap (forward size n) (next-place size p)
    ∙ forward-place size n (suc p)
    ∙ ap (place size) (omega arith)

get_elem?_beyond : (xs : List (List ℕ)) (p : ℕ) → ltb p (length xs) ≡ false → get_elem? xs p ≡ none
get_elem?_beyond [] p h = refl
get_elem?_beyond (x ∷ xs) zero h = absurd (ground (arith, h))
get_elem?_beyond (x ∷ xs) (suc p) h = get_elem?_beyond xs p (ground (arith, h))

run_from :
    (d : Dir) (p : ℕ) (cs : List Call)
    → d.entry ≡ place (length d.names) p
    → ltb 0 (length d.names) ≡ true
    → run d cs ≡ listing d.names p cs
unfolding run listing read_entry rewind
run_from d p [] e some_name = refl
run_from d p (seeks offset ∷ cs) e some_name =
    run_from (rewind d offset seek_set) offset cs
      (ap (forward (length d.names) offset) (sym (ap (λ b. if b then some 0 else none) some_name))
        ∙ forward-place (length d.names) offset 0
        ∙ ap (place (length d.names)) (omega arith))
      some_name
run_from d p (reads ∷ cs) e some_name = elim (Bool-cases (ltb p (length d.names))) [
  | inl h ↦ rw (ap (read_at d) (e ∙ ap (λ b. if b then some p else none) h)) (
      rw h (
        ap (◌∷◌ (get_elem? d.names p)) (
          run_from (record d { entry = next (length d.names) (some p); offset = d.offset + 1 })
            (suc p) cs (ground (arith, h)) some_name)))
  | inr h ↦
      rw (ap (read_at d) (e ∙ ap (λ b. if b then some p else none) h))
        (rw h (rw (get_elem?_beyond d.names p h) (ap (◌∷◌ none) (run_from d p cs e some_name))))
]

-- Over every sequence of reads and of seeks from the start, a directory stream gives what a list with a
-- position gives: the names "." and "..", and those that libuv found, each at its place, and none beyond
-- them.
pub opendir-listing :
    (found : List (List ℕ)) (cs : List Call)
    → run (opendir found) cs ≡ listing ((46 ∷ []) ∷ (46 ∷ 46 ∷ []) ∷ found) 0 cs
unfolding opendir
opendir-listing found cs = run_from (opendir found) 0 cs (ground arith) (ground arith)
