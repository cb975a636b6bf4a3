-- ===== src/Files.antt =====
-- src/filesystem.c: the streams of files. What libuv answers to a request is an argument: `none` is an
-- error. Positions are without the bounds of int64_t.
pub mod Reading
pub mod Directory
pub mod Listing
use ext_async.Prelude.{
  ℕ, zero, suc, ◌+◌, ◌-◌, Bool, true, false, ◌&&◌, ◌||◌, not, List, [], ◌∷◌, Option, none, some,
  ltb, ◌==◌, if◌then◌else◌, length,
}
use ext_async.Php.{ℤ, pos, negsuc}

pub data Access : Type 0 where
  read_only : Access
  write_only : Access
  read_write : Access

-- The flags for `uv_fs_open`.
pub record Flags : Type 0 where
  pub trunc : Bool
  pub creat : Bool
  pub append : Bool
  pub excl : Bool
  pub access : Access
  pub cloexec : Bool
  pub nonblock : Bool

abbrev pub has : ℕ → List ℕ → Bool
has c [] = false
has c (x ∷ xs) = x == c || has c xs

abbrev pub flags : List ℕ → Bool → Bool → Bool → Bool → Flags
flags mode trunc creat append excl = record {
  trunc = trunc;
  creat = creat;
  append = append;
  excl = excl;
  access =
      if has 43 mode
      then read_write
      else if trunc || (creat || (append || excl))
      then write_only
      else read_only;
  cloexec = has 101 mode;
  nonblock = has 110 mode;
}

-- `parse_open_mode`; a mode is a list of bytes.
unfoldable pub parse_open_mode : List ℕ → Option Flags
parse_open_mode [] = none
parse_open_mode (c ∷ rest) =
    let mode = c ∷ rest in
    if c == 114
    then some (flags mode false false false false)
    else if c == 119
    then some (flags mode true true false false)
    else if c == 97
    then some (flags mode false true true false)
    else if c == 120
    then some (flags mode false true false true)
    else if c == 99
    then some (flags mode false true false false)
    else none

-- `async_filestream_data`, and `eof` of its stream.
pub record File : Type 0 where
  pub mode : Flags
  pub finished : Bool
  pub eof : Bool
  pub rpos : ℕ
  pub wpos : ℕ

-- What `async_filestream_wrapper_open` makes of an open file.
pub open_file : Flags → File
open_file mode = record { mode = mode; finished = false; eof = false; rpos = 0; wpos = 0 }

-- `async_filestream_write`; `result` is what libuv wrote at `wpos`.
pub write : File → Option ℕ → ℕ × File
write t none = (0, t)
write t (some result) = (result, record t { wpos = t.wpos + result })

abbrev pub received : File → ℕ → Option (List ℕ) → List ℕ × File
received t count none = ([], t)
received t count (some bytes) = (
  bytes,
  record t {
    finished = t.finished || ltb (length bytes) count;
    eof = t.eof || ltb (length bytes) count;
    rpos = t.rpos + length bytes;
  },
)

-- `async_filestream_read`; `pread` reads at a position.
pub read : (ℕ → ℕ → Option (List ℕ)) → File → ℕ → List ℕ × File
read pread t count =
    if t.finished || ltb count 8192 then ([], t) else received t count (pread t.rpos count)

pub data Whence : Type 0 where
  seek_set : Whence
  seek_cur : Whence
  seek_end : Whence

abbrev pub plus : ℕ → ℤ → Option ℕ
plus n (pos k) = some (n + k)
plus n (negsuc k) = if ltb n (suc k) then none else some (n - suc k)

abbrev pub target : File → ℕ → Whence → ℤ → Option ℕ
target t size seek_set offset = plus 0 offset
target t size seek_cur offset = plus t.rpos offset
target t size seek_end offset = plus size offset

abbrev pub moved : File → ℕ → ℕ → File
moved t size p = record t {
  rpos = p;
  wpos = if t.mode.append then t.wpos else p;
  finished = t.finished && not (ltb p size);
  eof = t.eof && not (ltb p size);
}

abbrev pub found : File → ℕ → Option ℕ → Option (ℕ × File)
found t size none = none
found t size (some p) = some (p, moved t size p)

-- `async_filestream_seek`, for the three ways that there are; the first argument is the size that
-- `async_filestream_stat` finds. Where it fails, the stream stays as it is.
unfoldable pub seek : Option ℕ → File → Whence → ℤ → Option (ℕ × File)
seek none t whence offset = none
seek (some size) t whence offset = found t size (target t size whence offset)
