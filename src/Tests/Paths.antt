-- ===== src/Tests/Paths.antt =====
-- Streams of files and directories at concrete inputs.
use ext_async.Prelude.{
  ℕ, ◌≡◌, refl, true, false, List, [], ◌∷◌, Option, none, some, arith, take, drop,
}
use ext_async.Php.{negsuc}
use ext_async.Files.{File, flags, seek, seek_end, moved, parse_open_mode}
use ext_async.Files.Reading.{reads, seek-reads}
use ext_async.Files.Directory
use ext_async.Files.Directory.{opendir, seeks}
use ext_async.Files.Listing.{listing, opendir-listing}

-- "r+" and "q".
opens_r : parse_open_mode (114 ∷ 43 ∷ []) ≡ some (flags (114 ∷ 43 ∷ []) false false false false)
unfolding parse_open_mode
opens_r = refl

opens_q : parse_open_mode (113 ∷ []) ≡ none
unfolding parse_open_mode
opens_q = refl

-- A stream whose end was reached.
abbrev at_end : File
at_end = record {
  mode = flags (114 ∷ 43 ∷ []) false false false false;
  finished = true;
  eof = true;
  rpos = 4;
  wpos = 0;
}

abbrev pread : ℕ → ℕ → Option (List ℕ)
pread p n = some (take n (drop p (1 ∷ 2 ∷ 3 ∷ 4 ∷ [])))

seek-reads_example :
    let r = reads pread 5 8192 (moved at_end 4 2) in
    (r.0 ≡ 3 ∷ 4 ∷ []) × (r.1.eof ≡ true) × (r.1.wpos ≡ 2)
unfolding seek
seek-reads_example =
    seek-reads pread (1 ∷ 2 ∷ 3 ∷ 4 ∷ []) 5 8192 at_end (moved at_end 4 2) seek_end (negsuc 1) 2
      (λ p n. refl) refl (omega arith) (omega arith) (omega arith)

opendir-listing_example :
    Directory.run (opendir ((97 ∷ []) ∷ [])) (seeks 1 ∷ Directory.reads ∷ Directory.reads ∷ [])
    ≡ some (46 ∷ 46 ∷ []) ∷ some (97 ∷ []) ∷ []
unfolding listing
opendir-listing_example =
    opendir-listing ((97 ∷ []) ∷ []) (seeks 1 ∷ Directory.reads ∷ Directory.reads ∷ [])
