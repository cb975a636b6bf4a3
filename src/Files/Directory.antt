-- ===== src/Files/Directory.antt =====
-- src/filesystem.c: the streams of directories. An entry is known by its place in the list; offsets are
-- not negative, and those from the end not beyond the start.
use ext_async.Prelude.{
  ℕ, zero, suc, ◌+◌, ◌-◌, List, [], ◌∷◌, Option, none, some, ltb, if◌then◌else◌, length, get_elem?,
}
use ext_async.Files.{Whence, seek_set, seek_cur, seek_end}

-- `async_dirstream_data`
pub record Dir : Type 0 where
  pub names : List (List ℕ)
  pub entry : Option ℕ
  pub offset : ℕ

-- What `async_filestream_wrapper_opendir` makes of the names that libuv finds: "." and ".." come first.
unfoldable pub opendir : List (List ℕ) → Dir
opendir found = record { names = (46 ∷ []) ∷ (46 ∷ 46 ∷ []) ∷ found; entry = some 0; offset = 0 }

abbrev pub next : ℕ → Option ℕ → Option ℕ
next size none = none
next size (some i) = if ltb (suc i) size then some (suc i) else none

abbrev pub prev : Option ℕ → Option ℕ
prev none = none
prev (some zero) = none
prev (some (suc i)) = some i

abbrev pub forward : ℕ → ℕ → Option ℕ → Option ℕ
forward size zero e = e
forward size (suc n) e = forward size n (next size e)

abbrev pub backward : ℕ → Option ℕ → Option ℕ
backward zero e = e
backward (suc n) e = backward n (prev e)

abbrev pub read_at : Dir → Option ℕ → Option (List ℕ) × Dir
read_at d none = (none, d)
read_at d (some i) = (
  get_elem? d.names i,
  record d { entry = next (length d.names) (some i); offset = d.offset + 1 },
)

-- `async_dirstream_read`
unfoldable pub read_entry : Dir → Option (List ℕ) × Dir
read_entry d = read_at d d.entry

-- `async_dirstream_rewind`
unfoldable pub rewind : Dir → ℕ → Whence → Dir
rewind d offset seek_set = record d {
  entry = forward (length d.names) offset (some 0);
  offset = offset;
}
rewind d offset seek_cur = record d {
  entry = forward (length d.names) offset (some 0);
  offset = d.offset + offset;
}
rewind d offset seek_end = record d {
  entry = backward offset (some (length d.names - 1));
  offset = length d.names - offset;
}

pub data Call : Type 0 where
  reads : Call
  seeks : ℕ → Call

-- Reading and seeking from the start; the results are the names that are read.
unfoldable pub run : Dir → List Call → List (Option (List ℕ))
unfolding read_entry rewind
run d [] = []
run d (reads ∷ cs) = let (name, d') = read_entry d in name ∷ run d' cs
run d (seeks offset ∷ cs) = run (rewind d offset seek_set) cs
