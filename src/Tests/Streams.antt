-- ===== src/Tests/Streams.antt =====
-- A stream of the least buffer, with a peer that has sent three bytes.
use ext_async.Prelude.{ℕ, ◌≡◌, ◌++◌, refl, true, false, List, [], ◌∷◌, arith, length}
use ext_async.Stream.{Stream, Request, create}
use ext_async.Stream.Buffering.{IsSound}
use ext_async.Stream.Events.{Link, Event, arrives, asks, run}
use ext_async.Stream.Writes
use ext_async.Stream.Writes.{Writer, Try, sent}
use ext_async.Stream.Writes.Accepting.{stream_of}
use ext_async.Stream.Writes.Order.{all_spared}
use ext_async.Stream.Writes.Delivering.{completions, run-delivers}
use ext_async.Stream.Events.Flow.{Preserves, run-Preserves}

-- Two of four bytes are held, and reading has been started.
abbrev stream : Stream
stream = record (create 0) {
  reading = true;
  allocated = true;
  buffer = record { base = 12 ∷ 13 ∷ 10 ∷ 11 ∷ []; rpos = 3; wpos = 1; size = 4; len = 2 };
}

stream-IsSound : IsSound stream
stream-IsSound = record { allocated = refl; ring = ground arith }

abbrev request : Request
request = record { len = 3; into_buffer = false; import = false; background = false }

abbrev link : Link
link = record { stream = stream; network = 20 ∷ 21 ∷ 22 ∷ [] }

abbrev history : List Event
history = asks request ∷ asks request ∷ arrives 1 ([] ∷ []) [] ∷ []

run-Preserves_example : Preserves link (run link history)
run-Preserves_example = run-Preserves link history stream-IsSound

-- The operation 1 is with libuv, and 2 waits.
abbrev writer : Writer
writer = record {
  shut_wr = false;
  writing = false;
  delay_shutdown = false;
  shutdown = false;
  writes =
      record { id = 1; bytes = []; started = true; async = false }
      ∷ record { id = 2; bytes = 40 ∷ 41 ∷ []; started = false; async = false }
      ∷ [];
  flush = [];
  handed = 30 ∷ [];
}

abbrev written_bytes : ℕ → List ℕ → Writes.Request
written_bytes i bs = record { id = i; bytes = bs; async = false; tries = sent 1 ∷ [] }

abbrev writing_history : List Writes.Event
writing_history =
    Writes.cancels 1
    ∷ Writes.writes (written_bytes 3 (50 ∷ 51 ∷ []))
    ∷ Writes.completes (written_bytes 4 (60 ∷ []) ∷ []) []
    ∷ Writes.completes [] []
    ∷ []

all_spared_history : all_spared writer writing_history ≡ true
unfolding all_spared
all_spared_history = refl

run-delivers_example :
    let (bs, w') = Writes.run writer writing_history in
    let last = (Writes.run w' (completions (length w'.writes))).1 in
    (stream_of w' ≡ stream_of writer ++ bs)
    × (last.writes ≡ [])
    × (last.handed ≡ stream_of writer ++ bs)
run-delivers_example = run-delivers writer writing_history all_spared_history refl refl refl
