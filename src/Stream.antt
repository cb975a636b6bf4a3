-- ===== src/Stream.antt =====
-- src/stream.c and include/async/stream.h: the reading side of a stream without TLS that does not
-- pass handles (neither `ssl.ssl` nor ASYNC_STREAM_IPC is set). libuv hands over bytes of the
-- network, at most as many as `read_alloc_cb` offers. Finishing a read resumes its task at once, and
-- the reads that the task makes before it suspends again are a list of requests.
pub mod Events
pub mod Writes
pub mod Buffering
pub mod Serving
use ext_async.Prelude.{
  ℕ, ◌+◌, ◌-◌, ◌%◌, ◌^◌, ◌≤◌, min, Bool, true, false, not, ◌&&◌, ◌||◌, List, [], ◌∷◌, ◌++◌, Option,
  none, some, ltb, ◌==◌, if◌then◌else◌, is_some, length, take, drop, replicate,
}
use ext_async.RingBuffer.{RingBuffer, read, read_string, write_len, write_move}
use ext_async.RingBuffer.Writing.{store}

-- The error codes of libuv that the reading side sets itself, and any other one.
pub data Error : Type 0 where
  end_of_file : Error
  already : Error
  cancelled : Error
  timed_out : Error
  no_buffer_space : Error
  system : ℕ → Error

-- The `in` part of `async_stream_read_req`. `into_buffer` says whether `buffer` is set, `import`
-- whether ASYNC_STREAM_READ_REQ_FLAG_IMPORT is.
pub record Request : Type 0 where
  pub len : ℕ
  pub into_buffer : Bool
  pub import : Bool
  pub background : Bool

-- `async_stream`: its flags, its buffer, the request of the read operation while that is running.
-- `other` stands for the flags SHUTDOWN, WANT_READ, DELAY_SHUTDOWN, WRITING and SSL_FATAL.
pub record Stream : Type 0 where
  pub eof : Bool
  pub closed : Bool
  pub shut_rd : Bool
  pub shut_wr : Bool
  pub reading : Bool
  pub other : Bool
  pub ref_count : ℕ
  pub allocated : Bool
  pub buffer : RingBuffer
  pub running : Option Request

-- The `out` part of a request: the bytes, or the error.
pub data Answer : Type 0 where
  bytes : List ℕ → Answer
  error : Error → Answer

-- How a call of `async_stream_read` goes on.
pub data Outcome : Type 0 where
  answered : Answer → Outcome
  waits : Outcome

-- `async_stream_init`
pub create : ℕ → Stream
create bufsize = record {
  eof = false;
  closed = false;
  shut_rd = false;
  shut_wr = false;
  reading = false;
  other = false;
  ref_count = 0;
  allocated = false;
  buffer = record {
    base = [];
    rpos = 0;
    wpos = 0;
    size = if ltb bufsize 0x8000 then 0x8000 else bufsize;
    len = 0;
  };
  running = none;
}

-- `init_buffer`, where the buffer has not been allocated. Fresh memory is taken to be zero; no byte
-- of it is read before it is written.
pub init_buffer : Stream → Stream
init_buffer st = if st.allocated then st else record st {
  allocated = true;
  buffer = record (st.buffer) { base = replicate st.buffer.size 0; rpos = 0; wpos = 0 };
}

-- The two ways to take bytes out of the buffer. `read` does not run out of fuel.
pub take_buffer : RingBuffer → ℕ → List ℕ × RingBuffer
take_buffer b n = elim (read b n) [ none ↦ ([], b) | some (out, _, b') ↦ (out, b') ]

abbrev pub bytes_of_string : Option (List ℕ) → List ℕ
bytes_of_string none = []
bytes_of_string (some s) = s

pub take_string : RingBuffer → ℕ → List ℕ × RingBuffer
take_string b n = elim (read_string b n) [
  | none ↦ ([], b)
  | some (str, _, b') ↦ (bytes_of_string str, b')
]

-- `MIN(req->in.len, blen)` bytes, as the request wants them.
pub take_bytes : Request → RingBuffer → List ℕ × RingBuffer
take_bytes r b =
    let n = min r.len b.len in if r.into_buffer then take_buffer b n else take_string b n

pub should_start_read : Stream → Bool
should_start_read st = not (ltb (st.buffer.size - st.buffer.len) 4096)

-- `stream->flags && ASYNC_STREAM_EOF` in `async_stream_read`: whether any flag is set.
pub flags_and_eof : Stream → Bool
flags_and_eof st = st.eof || st.closed || st.shut_rd || st.shut_wr || st.reading || st.other

pub restart : Stream → Stream
unfolding flags_and_eof should_start_read
restart st =
    if not (flags_and_eof st) && should_start_read st then record st { reading = true } else st

abbrev pub uchar : ℕ
uchar = 2 ^ 8

-- `async_stream_read` up to the suspension. No handle is pending, as the stream passes none.
pub stream_read : Stream → Request → Outcome × Stream
unfolding init_buffer restart
stream_read st r =
    let st' = init_buffer st in
    let (out, b) = take_bytes r st'.buffer in
    let blocked = record st' {
      reading = true;
      running = some r;
      ref_count = if r.background then st'.ref_count else (st'.ref_count + 1) % uchar;
    } in
    if st.shut_rd
    then (answered (error end_of_file), st)
    else if is_some st.running
    then (answered (error already), st)
    else if ltb 0 st'.buffer.len
    then (if r.import
        then (answered (error already), st')
        else (answered (bytes out), restart (record st' { buffer = b })))
    else if st'.eof
    then (answered (bytes []), st')
    else (waits, blocked)

-- ASYNC_FINISH_OP(&stream->read), and what `await_op` and ASYNC_RESET_OP do then.
pub finish : Stream → Request → Stream
finish st r = record st {
  running = none;
  ref_count = if r.background then st.ref_count else (st.ref_count + uchar - 1) % uchar;
}

abbrev pub answer_list : Outcome → List Answer
answer_list (answered a) = a ∷ []
answer_list waits = []

-- The reads that a resumed task makes.
pub reads : Stream → List Request → List Answer × Stream
unfolding stream_read
reads st [] = ([], st)
reads st (r ∷ rs) =
    let (o, st') = stream_read st r in
    let (out, st'') = reads st' rs in (answer_list o ++ out, st'')

-- What one round of the loop over the buffer in `read_cb` answers, and the stream after it.
pub answer_running : Stream → Request → Answer × Stream
unfolding finish
answer_running st r =
    let (out, b) = take_bytes r st.buffer in
    if r.import
    then (error no_buffer_space, finish st r)
    else (bytes out, finish (record st { buffer = b }) r)

-- The loop over the buffer in `read_cb`. Each list holds the reads of the task that the round
-- resumes; without one the task makes no more.
pub serve : Stream → List (List Request) → List Answer × Stream
unfolding answer_running reads
serve st [] = elim st.running [
  | none ↦ ([], st)
  | some r ↦
      let (a, st') = answer_running st r in if ltb 0 st.buffer.len then (a ∷ [], st') else ([], st)
]
serve st (rs ∷ env) = elim st.running [
  | none ↦ ([], st)
  | some r ↦
      let (a, st') = answer_running st r in
      let (out, st'') = reads st' rs in
      let (rest, st''') = serve st'' env in
      if ltb 0 st.buffer.len then (a ∷ out ++ rest, st''') else ([], st)
]

-- The loops that finish the running read with one answer, for as long as there is one.
pub finish_all : Answer → Stream → List (List Request) → List Answer × Stream
unfolding finish reads
finish_all a st [] = elim st.running [ none ↦ ([], st) | some r ↦ (a ∷ [], finish st r) ]
finish_all a st (rs ∷ env) = elim st.running [
  | none ↦ ([], st)
  | some r ↦
      let (out, st') = reads (finish st r) rs in
      let (rest, st'') = finish_all a st' env in (a ∷ out ++ rest, st'')
]
