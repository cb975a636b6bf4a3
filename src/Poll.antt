-- ===== src/Poll.antt =====
-- src/watcher/poll.c, `Poll`: tasks wait until a socket is readable or writable. A task that is resumed
-- runs at once, and what it calls on the same poll before it is suspended again is given by `again`.
-- Beside the fields of `async_poll` the model has what libuv polls for, and the completions so far.
pub mod Syncing
pub mod Waking
use ext_async.Prelude.{
  ℕ, zero, suc, ◌+◌, ◌-◌, ◌%◌, ◌^◌, Bool, true, false, not, ◌&&◌, ◌||◌, List, [], ◌∷◌, ◌++◌, map,
  Option, none, some, ◌==◌, if◌then◌else◌, is_nil,
}
use ext_async.Php.{Completion, finish, fail, Throwable}

-- The bits UV_READABLE, UV_WRITABLE and UV_DISCONNECT of a mask.
pub record Mask : Type 0 where
  pub readable : Bool
  pub writable : Bool
  pub disconnect : Bool

-- `async_poll`; `registered` says whether `cancel.func` is set, `closing` whether `uv_close` was called,
-- `polling` which events libuv was told to watch, if the handle is started.
pub record Poll : Type 0 where
  pub error : Option Throwable
  pub events : Mask
  pub reads : List ℕ
  pub writes : List ℕ
  pub ref_count : ℕ
  pub registered : Bool
  pub closing : Bool
  pub polling : Option Mask
  pub log : List Completion

-- `Poll::__construct` for a valid resource.
pub construct : Poll
construct = record {
  error = none;
  events = record { readable = false; writable = false; disconnect = false };
  reads = [];
  writes = [];
  ref_count = 0;
  registered = true;
  closing = false;
  polling = none;
  log = [];
}

abbrev pub is_none : Option Throwable → Bool
is_none none = true
is_none (some e) = false

abbrev pub same_bit : Bool → Bool → Bool
same_bit true b = b
same_bit false b = not b

abbrev pub same_mask : Mask → Mask → Bool
same_mask a b =
    same_bit a.readable b.readable
    && (same_bit a.writable b.writable && same_bit a.disconnect b.disconnect)

abbrev pub wanted : Poll → Mask
wanted p = record {
  readable = not (is_nil p.reads);
  writable = not (is_nil p.writes);
  disconnect = true;
}

-- `sync_poll`: what is watched follows from the lists.
unfoldable pub sync_poll : Poll → Poll
sync_poll p =
    let mask = wanted p in
    if same_mask mask p.events then p else record p {
      events = mask;
      polling = if not mask.readable && not mask.writable then none else some mask;
    }

pub data Side : Type 0 where
  read : Side
  write : Side

abbrev pub queue : Side → Poll → List ℕ
queue read p = p.reads
queue write p = p.writes

abbrev pub with_queue : Side → Poll → List ℕ → Poll
with_queue read p ops = record p { reads = ops }
with_queue write p ops = record p { writes = ops }

-- `Poll::awaitReadable` and `Poll::awaitWritable` with `suspend`, up to the suspension; after an error
-- they throw.
unfoldable pub await : Poll → Side → Bool → ℕ → Poll
unfolding sync_poll
await p side background op =
    let q = sync_poll (with_queue side p (queue side p ++ op ∷ [])) in
    if is_none p.error
    then record q { ref_count = if background then q.ref_count else (q.ref_count + 1) % 2 ^ 8 }
    else p

-- An operation that is freed leaves the list that it stands in.
abbrev pub without : ℕ → List ℕ → List ℕ
without op [] = []
without op (x ∷ xs) = let rest = without op xs in if x == op then xs else x ∷ rest

-- The rest of `suspend`: ASYNC_UNREF_EXIT and ASYNC_FREE_OP.
pub resumed : Poll → Side → Bool → ℕ → Poll
resumed p side background op =
    let q = with_queue side p (without op (queue side p)) in
    record q { ref_count = if background then q.ref_count else (q.ref_count + 2 ^ 8 - 1) % 2 ^ 8 }

abbrev pub or_else : Option Throwable → Throwable → Throwable
or_else none e = e
or_else (some first) e = first

-- `shutdown_poll` with an error.
pub shutdown : Poll → Throwable → Poll
shutdown p e =
    let reason = or_else p.error e in
    record p {
      registered = false;
      error = some reason;
      closing = true;
      polling = none;
      reads = [];
      writes = [];
      log = p.log ++ (map (λ op. fail op reason) p.reads ++ map (λ op. fail op reason) p.writes);
    }

-- `Poll::close`, and the disposal of the scheduler.
pub close : Poll → Throwable → Poll
unfolding shutdown
close p e = if p.registered then shutdown p e else p

-- What a task does with a poll while it runs.
pub data Call : Type 0 where
  awaits : Side → Bool → ℕ → Call
  exits : Side → Bool → ℕ → Call
  closes : Throwable → Call

unfoldable pub call : Poll → Call → Poll
unfolding await resumed close
call p (awaits side background op) = await p side background op
call p (exits side background op) = resumed p side background op
call p (closes e) = close p e

unfoldable pub calls : Poll → List Call → Poll
unfolding call
calls p [] = p
calls p (c ∷ cs) = calls (call p c) cs

abbrev pub first_of : List ℕ → Option ℕ
first_of [] = none
first_of (x ∷ xs) = some x

abbrev pub is_op : Option ℕ → ℕ → Bool
is_op none op = false
is_op (some x) op = x == op

-- ASYNC_NEXT_OP and ASYNC_FINISH_OP for the first operation of a list, before its task runs.
abbrev pub finished : Side → ℕ → List ℕ → Poll → Poll
finished side op ops p = let q = with_queue side p ops in record q { log = p.log ++ finish op ∷ [] }

-- One of the two loops of `trigger_poll`: up to the operation that was the first one of the list when
-- the callback began, if there was one. `none` means that the fuel ran out.
pub finish_loop : ℕ → (ℕ → List Call) → Side → Option ℕ → Poll → Option Poll
unfolding calls
finish_loop zero again side last p = none
finish_loop (suc fuel) again side last p = elim (queue side p) [
  | [] ↦ some p
  | op ∷ ops ↦
      let p' = calls (finished side op ops p) (again op) in
      elim (is_op last op) [ true ↦ some p' | false ↦ finish_loop fuel again side last p' ]
]

-- The end of `trigger_poll`.
pub settle : Poll → Poll
unfolding sync_poll
settle p = if p.closing then p else sync_poll p

abbrev pub then_settle : Option Poll → Option Poll
unfolding settle
then_settle none = none
then_settle (some p) = some (settle p)

abbrev pub finish_writes : ℕ → (ℕ → List Call) → Mask → Option ℕ → Option Poll → Option Poll
unfolding finish_loop
finish_writes fuel again mask last none = none
finish_writes fuel again mask last (some p) =
    if mask.writable || mask.disconnect then finish_loop fuel again write last p else some p

-- `trigger_poll`, whose status is not used, while there is no error: after one no task waits.
pub trigger : ℕ → Poll → (ℕ → List Call) → Mask → Option Poll
unfolding finish_loop finish_writes then_settle
trigger fuel p again mask =
    let done =
      if mask.readable || mask.disconnect
      then finish_loop fuel again read (first_of p.reads) p
      else some p in
    if is_none p.error
    then then_settle (finish_writes fuel again mask (first_of p.writes) done)
    else then_settle (some p)

-- libuv triggers a poll that it watches. Where the descriptor has an error, it stops watching and triggers
-- with a negative status and no event.
pub data Event : Type 0 where
  runs : List Call → Event
  triggers : ℕ → (ℕ → List Call) → Mask → Event
  breaks : ℕ → (ℕ → List Call) → Event

abbrev pub no_event : Mask
no_event = record { readable = false; writable = false; disconnect = false }

abbrev pub if_watched : Option Mask → Option Poll → Poll → Option Poll
if_watched none result p = some p
if_watched (some mask) result p = result

unfoldable pub step : Poll → Event → Option Poll
unfolding calls trigger
step p (runs cs) = some (calls p cs)
step p (triggers fuel again mask) = if_watched p.polling (trigger fuel p again mask) p
step p (breaks fuel again) =
    if_watched p.polling (trigger fuel (record p { polling = none }) again no_event) p

abbrev pub and_then : Option Poll → (Poll → Option Poll) → Option Poll
and_then none f = none
and_then (some p) f = f p

unfoldable pub run : Poll → List Event → Option Poll
unfolding step
run p [] = some p
run p (e ∷ es) = and_then (step p e) (λ q. run q es)
