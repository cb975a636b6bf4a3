-- ===== src/Stream/Writes.antt =====
-- src/stream.c: the writing side of a stream without TLS that passes no handles. `handed` are the bytes
-- that libuv was given, in order; the result codes of `uv_try_write` are a parameter of each write.
-- Only writes with bytes are made (`encode_buffer` asserts so). Completing a write resumes its task at
-- once, and the writes that the task makes before it suspends again are a list.
pub mod Accepting
pub mod Order
pub mod Delivering
use ext_async.Prelude.{
  ℕ, zero, suc, ◌+◌, ◌-◌, ◌<◌, ◌≤◌, min, Bool, true, false, not, ◌&&◌, ◌||◌, List, [], ◌∷◌, ◌++◌,
  Option, none, some, ◌==◌, if◌then◌else◌, is_nil, length, take, drop,
}

-- `async_stream_write_op`: the bytes that are not handed over, and the flags STARTED and ASYNC. The
-- numbers of operations differ.
pub record WriteOp : Type 0 where
  pub id : ℕ
  pub bytes : List ℕ
  pub started : Bool
  pub async : Bool

-- `async_stream`, as far as it writes.
pub record Writer : Type 0 where
  pub shut_wr : Bool
  pub writing : Bool
  pub delay_shutdown : Bool
  pub shutdown : Bool
  pub writes : List WriteOp
  pub flush : List ℕ
  pub handed : List ℕ

-- The code of one `uv_try_write`: UV_EAGAIN, another error, or a number of bytes.
pub data Try : Type 0 where
  again : Try
  broken : ℕ → Try
  sent : ℕ → Try

-- `async_stream_write_req`, with what `uv_try_write` will say; after the last code it says UV_EAGAIN.
pub record Request : Type 0 where
  pub id : ℕ
  pub bytes : List ℕ
  pub async : Bool
  pub tries : List Try

-- How `async_stream_write` goes on: it returns, or the operation waits in `writes`.
pub data Reply : Type 0 where
  written : Reply
  refused : Reply
  failed : ℕ → Reply
  queued : Reply

-- What the loop over `uv_try_write` leaves: the bytes handed over, those left, and the error.
pub record Sent : Type 0 where
  pub out : List ℕ
  pub rest : List ℕ
  pub error : Option ℕ

abbrev pub after_sent : List ℕ → Sent → Sent
after_sent bs s = record s { out = bs ++ s.out }

pub try_write : List ℕ → List Try → Sent
try_write bs [] = record { out = []; rest = bs; error = none }
try_write bs (again ∷ ts) = record { out = []; rest = bs; error = none }
try_write bs (broken code ∷ ts) = record { out = []; rest = bs; error = some code }
try_write bs (sent n ∷ ts) =
    let more = after_sent (take n bs) (try_write (drop n bs) ts) in
    if is_nil (drop n bs) then record { out = take n bs; rest = []; error = none } else more

abbrev pub enqueue : Writer → WriteOp → Writer
enqueue w op = record w { writes = w.writes ++ op ∷ [] }

-- The bytes of a write on an idle stream go to libuv at once; what `uv_try_write` leaves, `uv_write`
-- takes.
abbrev pub started_now : Writer → Request → Sent → Option ℕ → Reply × List ℕ × Writer
started_now w r s (some code) = (failed code, s.out, record w { handed = w.handed ++ s.out })
started_now w r s none =
    if is_nil s.rest then (written, r.bytes, record w { handed = w.handed ++ s.out }) else (
      queued,
      r.bytes,
      enqueue (record w { handed = w.handed ++ (s.out ++ s.rest) })
          (record { id = r.id; bytes = []; started = true; async = r.async }),
    )

-- `async_stream_write` up to the suspension: the reply, the bytes that it accepts, and the writer.
pub write : Writer → Request → Reply × List ℕ × Writer
unfolding try_write
write w r =
    if w.shut_wr
    then (refused, [], w)
    else if is_nil w.writes && not w.writing
    then (let s = try_write r.bytes r.tries in started_now w r s s.error)
    else (
      queued,
      r.bytes,
      enqueue w (record { id = r.id; bytes = r.bytes; started = false; async = r.async }),
    )

-- The writes of a resumed task.
pub writes_all : Writer → List Request → List ℕ × Writer
unfolding write
writes_all w [] = ([], w)
writes_all w (r ∷ rs) =
    let (reply, bs, w') = write w r in let (rest, w'') = writes_all w' rs in (bs ++ rest, w'')

-- `process_write`, which hands over all bytes of the first operation, unless it is started.
pub process_first : Writer → List WriteOp → Writer
process_first w [] = record w { writes = [] }
process_first w (op ∷ ops) = if op.started then record w { writes = op ∷ ops } else record w {
  handed = w.handed ++ op.bytes;
  writes = record op { bytes = []; started = true } ∷ ops;
}

-- The writes of the tasks that wait in `async_stream_flush`, if there are any.
abbrev pub of_flush : List ℕ → List Request → List Request
of_flush [] rs = []
of_flush (op ∷ ops) rs = rs

-- The end of `write_cb`: where nothing is left to write, the flush operations are finished, whose tasks
-- may write, and a delayed shutdown is done.
pub settle : Writer → List Request → List ℕ × Writer
unfolding writes_all
settle w rs =
    if is_nil w.writes
    then (let (bs, w') = writes_all (record w { flush = [] }) (of_flush w.flush rs) in
        (bs, record w' { shutdown = w'.delay_shutdown || w'.shutdown; writing = false }))
    else ([], record w { writing = false })

-- `write_cb` of the operation that libuv has, which is the first one: it is finished, with whatever
-- status, and the next one is started. The first list are the writes of the task that it resumes; that of
-- a started write that was cancelled is resumed, too, although it does not wait for it any more.
pub write_cb : Writer → List Request → List Request → List ℕ × Writer
unfolding writes_all process_first settle
write_cb w rs fs = elim w.writes [
  | [] ↦ ([], w)
  | op ∷ ops ↦
      let (bs, w') = writes_all (record w { writing = true; writes = ops }) rs in
      let (more, w'') = settle (process_first w' w'.writes) fs in
      if op.started then (bs ++ more, w'') else ([], w)
]

abbrev pub without : ℕ → List WriteOp → List WriteOp
without i [] = []
without i (op ∷ ops) = let rest = without i ops in if op.id == i then ops else op ∷ rest

abbrev pub find : ℕ → List WriteOp → Option WriteOp
find i [] = none
find i (op ∷ ops) = let rest = find i ops in if op.id == i then some op else rest

-- `async_stream_write` where the wait for an operation ends with a cancellation: libuv keeps a started
-- one, which goes on at the front of the list, while its task returns; another one is freed.
abbrev pub cancel_op : Writer → ℕ → Option WriteOp → Writer
cancel_op w i none = w
cancel_op w i (some op) =
    let rest = without i w.writes in
    if op.started
    then record w { writes = record op { async = true } ∷ rest }
    else record w { writes = rest }

pub cancel : Writer → ℕ → Writer
cancel w i = cancel_op w i (find i w.writes)

-- `async_stream_shutdown` of the writing side, and `async_stream_flush` up to the suspension.
pub shut_down : Writer → Writer
shut_down w =
    if w.shut_wr
    then w
    else if is_nil w.writes
    then record w { shut_wr = true; shutdown = true }
    else record w { shut_wr = true; shutdown = true; delay_shutdown = true }

pub flush : Writer → ℕ → Writer
flush w op = if is_nil w.writes then w else record w { flush = w.flush ++ op ∷ [] }

pub data Event : Type 0 where
  writes : Request → Event
  completes : List Request → List Request → Event
  cancels : ℕ → Event
  shuts_down : Event
  flushes : ℕ → Event

pub step : Writer → Event → List ℕ × Writer
unfolding write write_cb cancel shut_down flush
step w (writes r) = let (reply, bs, w') = write w r in (bs, w')
step w (completes rs fs) = write_cb w rs fs
step w (cancels i) = ([], cancel w i)
step w shuts_down = ([], shut_down w)
step w (flushes op) = ([], flush w op)

-- The bytes that are accepted, and the writer after a history.
pub run : Writer → List Event → List ℕ × Writer
unfolding step
run w [] = ([], w)
run w (e ∷ es) = let (bs, w') = step w e in let (rest, w'') = run w' es in (bs ++ rest, w'')
