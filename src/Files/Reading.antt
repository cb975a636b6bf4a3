-- ===== src/Files/Reading.antt =====
-- A file is read from where a seek went to, up to its end.
use ext_async.Prelude.{
  ℕ, zero, suc, ◌+◌, ◌≡◌, ◌≤◌, ◌<◌, refl, sym, ap, subst, ◌∙◌, Bool, true, false, List, [], ◌∷◌,
  ◌++◌, append-nil, Option, none, some, ltb, if◌then◌else◌, length, take, drop, drop-drop,
  length-take_min, arith, Bool-cases, inl, inr,
}
use ext_async.Php.{ℤ}
use ext_async.Files.{File, read, received, Whence, target, moved, found, seek}

-- Reads of `count` bytes each, up to the end of the file.
abbrev pub reads : (ℕ → ℕ → Option (List ℕ)) → ℕ → ℕ → File → List ℕ × File
reads pread zero count t = ([], t)
reads pread (suc fuel) count t =
    if t.eof
    then ([], t)
    else let (bytes, t') = read pread t count in
      let (rest, last) = reads pread fuel count t' in (bytes ++ rest, last)

-- `pread` reads from a regular file that holds these bytes: a read is short only at the end.
abbrev pub Regular : (ℕ → ℕ → Option (List ℕ)) → List ℕ → Type 0
Regular pread content = (p n : ℕ) → pread p n ≡ some (take n (drop p content))

take-all : (n : ℕ) (xs : List ℕ) → length (take n xs) < n → take n xs ≡ xs
take-all zero xs h = absurd (omega (arith, h))
take-all (suc n) [] h = refl
take-all (suc n) (x ∷ xs) h = ap (◌∷◌ x) (take-all n xs (omega (arith, h)))

take-drop : (n : ℕ) (xs : List ℕ) → take n xs ++ drop n xs ≡ xs
take-drop zero xs = refl
take-drop (suc n) [] = refl
take-drop (suc n) (x ∷ xs) = ap (◌∷◌ x) (take-drop n xs)

length-drop : (n : ℕ) (xs : List ℕ) → length (take n xs) + length (drop n xs) ≡ length xs
length-drop zero xs = omega arith
length-drop (suc n) [] = omega arith
length-drop (suc n) (x ∷ xs) = omega (arith, length-drop n xs)

length-drop_le : (n : ℕ) (xs : List ℕ) → length (drop n xs) ≤ length xs
length-drop_le n xs = omega (arith, length-drop n xs)

drop-add : (p n : ℕ) (xs : List ℕ) → drop n (drop p xs) ≡ drop (p + n) xs
drop-add p n xs = ap (λ k. drop k (drop p xs)) (omega arith) ∙ drop-drop p (p + n) xs (omega arith)

-- What one read gives, and what is left for the next.
read-Regular :
    (pread : ℕ → ℕ → Option (List ℕ)) (content : List ℕ) (t : File) (count : ℕ)
    → Regular pread content
    → t.finished ≡ false
    → 8192 ≤ count
    → read pread t count ≡ received t count (some (take count (drop t.rpos content)))
unfolding read
read-Regular pread content t count r f c = rw (r t.rpos count) (rw f (rw (large c) refl))
  where
    large : {n : ℕ} → 8192 ≤ n → ltb n 8192 ≡ false
    large h = ground (arith, h)

reads_eof :
    (pread : ℕ → ℕ → Option (List ℕ)) (fuel count : ℕ) (t : File)
    → t.eof ≡ true
    → reads pread fuel count t ≡ ([], t)
reads_eof pread zero count t e = refl
reads_eof pread (suc fuel) count t e = rw e refl

abbrev after : List ℕ → File → ℕ → File
after content t count = (received t count (some (take count (drop t.rpos content)))).1

abbrev joined : (ℕ → ℕ → Option (List ℕ)) → ℕ → ℕ → List ℕ × File → List ℕ × File
joined pread fuel count x = let r = reads pread fuel count x.1 in (x.0 ++ r.0, r.1)

reads_first :
    (pread : ℕ → ℕ → Option (List ℕ)) (content : List ℕ) (fuel count : ℕ) (t : File)
    → Regular pread content
    → t.finished ≡ false
    → t.eof ≡ false
    → 8192 ≤ count
    → let r = reads pread fuel count (after content t count) in
      reads pread (suc fuel) count t ≡ (take count (drop t.rpos content) ++ r.0, r.1)
reads_first pread content fuel count t r f e c =
    let stop : List ℕ × File = ([], t) in
    ap (λ (b : Bool). if b then stop else joined pread fuel count (read pread t count)) e
    ∙ ap (joined pread fuel count) (read-Regular pread content t count r f c)

abbrev Reads : List ℕ → ℕ → List ℕ × File → Type 0
Reads bytes wpos (got, last) = (got ≡ bytes) × (last.eof ≡ true) × (last.wpos ≡ wpos)

-- The rest of the file is read, if the fuel is more than its length.
reads-Regular :
    (pread : ℕ → ℕ → Option (List ℕ)) (content : List ℕ) (fuel count : ℕ) (t : File)
    → Regular pread content
    → t.finished ≡ false
    → t.eof ≡ false
    → 8192 ≤ count
    → length (drop t.rpos content) < fuel
    → Reads (drop t.rpos content) t.wpos (reads pread fuel count t)
reads-Regular pread content zero count t r f e c enough = absurd (omega (arith, enough))
reads-Regular pread content (suc fuel) count t r f e c enough =
    let left = drop t.rpos content in
    let t' = after content t count in
    subst (Reads left t.wpos) (sym (reads_first pread content fuel count t r f e c))
      (elim (Bool-cases (ltb (length (take count left)) count)) [
        | inl h ↦
            let end : t'.eof ≡ true = ground (arith, h) in
            subst (λ (x : List ℕ × File). Reads left t.wpos (take count left ++ x.0, x.1))
              (sym (reads_eof pread fuel count t' end))
              (append-nil (take count left) ∙ take-all count left (ground (arith, h)), end, refl)
        | inr h ↦
            let size : length (take count left) ≡ count =
              ground (arith, h, length-take_min count left) in
            let rest : drop t'.rpos content ≡ drop count left =
              ap (λ k. drop (t.rpos + k) content) size ∙ sym (drop-add t.rpos count content) in
            let (a, b, w) =
              reads-Regular pread content fuel count t' r (ground (arith, f, h))
                (ground (arith, e, h)) c
                (omega (arith, ap length rest, length-drop count left, size, enough, c)) in
            (ap (λ x. take count left ++ x) (a ∙ rest) ∙ take-drop count left, b, w)
      ])

found_by :
    (t t' : File) (size p : ℕ) (o : Option ℕ) → found t size o ≡ some (p, t') → t' ≡ moved t size p
found_by t t' size p none e = absurd (ground (arith, e))
found_by t t' size p (some q) e = ground (arith, e)

-- After a seek that went to a position in the file, reads of at least 8192 bytes each, as long as the stream is
-- not at its end, give what the file holds from there on and come to the end; where the file is not only
-- appended to, what is written then goes to that position. This holds where a request for bytes of
-- the file gives fewer than were asked for only at its end.
pub seek-reads :
    (pread : ℕ → ℕ → Option (List ℕ)) (content : List ℕ) (fuel count : ℕ) (t t' : File)
    (whence : Whence) (offset : ℤ) (p : ℕ)
    → Regular pread content
    → seek (some (length content)) t whence offset ≡ some (p, t')
    → p < length content
    → 8192 ≤ count
    → length content < fuel
    → let (bytes, last) = reads pread fuel count t' in
      (bytes ≡ drop p content)
      × (last.eof ≡ true)
      × (last.wpos ≡ (if t.mode.append then t.wpos else p))
unfolding seek
seek-reads pread content fuel count t t' whence offset p r s inside c enough =
    let m = moved t (length content) p in
    let at : t' ≡ m =
      found_by t t' (length content) p (target t (length content) whence offset) s in
    subst
      (λ u. Reads (drop p content) (if t.mode.append then t.wpos else p) (reads pread fuel count u))
      (sym at)
      (reads-Regular pread content fuel count m r (ground (arith, inside)) (ground (arith, inside))
        c (omega (arith, enough, length-drop_le p content)))
