-- ===== src/Stream/Events.antt =====
-- src/stream.c: what happens to a stream from outside: libuv calls `read_cb` while the stream is
-- reading, a timer calls `timeout_read`, a cancellation ends the wait of `async_stream_read`, and
-- others close the stream or shut down its reading side.
pub mod Flow
use ext_async.Prelude.{
  ℕ, ◌==◌, Bool, true, false, ◌||◌, List, [], ◌∷◌, ◌++◌, Option, none, some, if◌then◌else◌, length,
  take, drop, min,
}
use ext_async.RingBuffer.{write_len, write_move}
use ext_async.RingBuffer.Writing.{store}
use ext_async.Stream.{
  Stream, Request, Answer, bytes, error, Error, end_of_file, cancelled, timed_out, system, reads,
  finish, serve, finish_all, should_start_read, stream_read, answer_list,
}

-- A stream and what the peer has sent and libuv has not handed over yet.
pub record Link : Type 0 where
  pub stream : Stream
  pub network : List ℕ

abbrev pub Requests : Type 0
Requests = List (List Request)

-- What `read_cb` does behind the delivery of bytes: serve the reads, and stop reading at the end of
-- the file, or if the buffer is nearly full.
pub read_tail : Stream → Bool → Requests → Requests → List Answer × Stream
unfolding serve finish_all should_start_read
read_tail st ended env last =
    let (out, st') = serve st env in
    let (rest, st'') = finish_all (bytes []) (record st' { reading = false }) last in
    if ended || st'.eof
    then (out ++ rest, st'')
    else (out, if should_start_read st' then st' else record st' { reading = false })

-- `read_cb` with `n` bytes or fewer: those that libuv wrote to the memory that `read_alloc_cb` gave.
pub arrive : Link → ℕ → Requests → Requests → List Answer × Link
unfolding read_tail
arrive l n env last =
    let st = l.stream in
    let got = take (min n (write_len st.buffer)) l.network in
    let filled =
      write_move (record (st.buffer) { base = store st.buffer.base st.buffer.wpos got })
        (length got) in
    let (out, st') = read_tail (record st { buffer = filled }) false env last in
    if length got == 0
    then ([], l)
    else (out, record { stream = st'; network = drop (min n (write_len st.buffer)) l.network })

-- `read_cb` with UV_EOF or UV_ECONNRESET.
pub ends : Stream → Requests → Requests → List Answer × Stream
unfolding read_tail
ends st env last = read_tail (record st { eof = true }) true env last

-- `read_cb` with another error.
pub breaks : Stream → ℕ → Requests → List Answer × Stream
unfolding finish_all
breaks st code env = finish_all (error (system code)) (record st { reading = false }) env

-- The running read is finished once: `timeout_read`, and what a cancellation amounts to.
pub interrupt : Error → Stream → List Request → List Answer × Stream
unfolding finish reads
interrupt e st rs = elim st.running [
  | none ↦ ([], st)
  | some r ↦ let (out, st') = reads (finish st r) rs in (error e ∷ out, st')
]

-- `async_stream_close_cb`
pub close : Stream → List Request → List Answer × Stream
unfolding interrupt
close st rs =
    let st' = record st {
      closed = true;
      eof = true;
      shut_rd = true;
      shut_wr = true;
      reading = false;
    } in
    if st.closed then ([], st) else interrupt cancelled st' rs

-- `async_stream_shutdown` with ASYNC_STREAM_SHUT_RD alone, while the writing side is not shut down; if
-- it is, the stream is closed afterwards, which leaves no read to answer.
pub shut_down : Stream → List Request → List Answer × Stream
unfolding interrupt
shut_down st rs =
    let st' = record st { eof = true; shut_rd = true; reading = false } in
    if st.shut_rd then ([], record st { eof = true }) else interrupt cancelled st' rs

-- What may happen to a stream.
pub data Event : Type 0 where
  arrives : ℕ → Requests → Requests → Event
  hangs_up : Requests → Requests → Event
  fails : ℕ → Requests → Event
  asks : Request → Event
  times_out : List Request → Event
  aborts : List Request → Event
  closes : List Request → Event
  shuts_down : List Request → Event

abbrev pub on_stream : Link → List Answer × Stream → List Answer × Link
on_stream l (out, st) = (out, record l { stream = st })

-- libuv calls `read_cb` only while the stream is reading.
pub step : Link → Event → List Answer × Link
unfolding arrive ends breaks close shut_down interrupt
step l (arrives n env last) = if l.stream.reading then arrive l n env last else ([], l)
step l (hangs_up env last) =
    if l.stream.reading then on_stream l (ends l.stream env last) else ([], l)
step l (fails code env) =
    if l.stream.reading then on_stream l (breaks l.stream code env) else ([], l)
step l (asks r) = let (o, st) = stream_read l.stream r in (answer_list o, record l { stream = st })
step l (times_out rs) = on_stream l (interrupt timed_out l.stream rs)
step l (aborts rs) = on_stream l (interrupt cancelled l.stream rs)
step l (closes rs) = on_stream l (close l.stream rs)
step l (shuts_down rs) = on_stream l (shut_down l.stream rs)

pub run : Link → List Event → List Answer × Link
run l [] = ([], l)
run l (e ∷ es) = let (out, l') = step l e in let (rest, l'') = run l' es in (out ++ rest, l'')
