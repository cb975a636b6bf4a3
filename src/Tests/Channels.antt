-- ===== src/Tests/Channels.antt =====
-- Channels with a full buffer of two messages and two blocked senders, and without a buffer.
use ext_async.Prelude.{
  ◌<◌, ℕ, ◌+◌, ◌≡◌, refl, ◌⊎◌, true, false, List, [], ◌∷◌, ◌++◌, map, none, some, arith, length,
  ◌==◌,
}
use ext_async.Php.{Value, undef, opaque, user, pos, completed}
use ext_async.Scheduler.{Scheduler}
use ext_async.Channel.{readable_nonblock, State, Sender, construct, create_state, built, close_with}
use ext_async.Channel.Iterator.{Iterator}
use ext_async.Channel.Inv.{IsValid}
use ext_async.Channel.Fifo.{pending}
use ext_async.Channel.Closing.{close_with_lem}
use ext_async.Channel.Exchange.{
  Call, sends, takes, closes, run, accepted, has_close, run-IsValid, run_exchange,
}
use ext_async.Channel.Group.{Entry, Store, select, select_scan, waits, ready, shuffle_group}
use ext_async.Channel.Group.Selecting.{
  AreQuiet, none_ready, all_pass, select_strands_senders, select_fetches,
}
use ext_async.Channel.Group.Shuffling.{shuffle_group_lem}

abbrev idle : Scheduler
idle = record { busy_count = 0; busy_ref = false; shutdown = [] }

abbrev sender : ℕ → ℕ → Sender
sender o x = record { op = o; value = opaque x }

-- The messages 10 and 11 are in the buffer, whose reading position is at its end; 12 and 13 wait.
abbrev crowded : State
crowded = record {
  address = 1;
  refcount = 1;
  closed = false;
  scheduler = record { busy_count = 2; busy_ref = true; shutdown = 1 ∷ [] };
  error = none;
  cancel = true;
  senders = sender 5 12 ∷ sender 6 13 ∷ [];
  receivers = [];
  size = 2;
  len = 2;
  rpos = 1;
  wpos = 1;
  cells = opaque 11 ∷ opaque 10 ∷ [];
}

-- No buffer, and one blocked sender.
abbrev unbuffered : State
unbuffered = record crowded {
  senders = sender 5 12 ∷ [];
  size = 0;
  len = 0;
  rpos = 0;
  wpos = 0;
  cells = [];
}

abbrev shut : State
shut = record unbuffered { senders = []; closed = true; cancel = false; error = some (user 4) }

crowded-IsValid : IsValid crowded
crowded-IsValid = ground arith

shut-IsValid : IsValid shut
shut-IsValid = ground arith

pending_crowded : pending crowded ≡ opaque 10 ∷ opaque 11 ∷ opaque 12 ∷ opaque 13 ∷ []
pending_crowded = refl

abbrev history : List Call
history =
    takes 7 false ∷ sends (opaque 14) 8 false ∷ takes 7 true ∷ closes none ∷ takes 7 false ∷ []

run-IsValid_example : IsValid (run crowded history).1
run-IsValid_example = run-IsValid crowded history crowded-IsValid

run_exchange_example :
    let (out, st') = run crowded history in
    (lost : List Value) × (out ++ (pending st' ++ lost)
      ≡ pending crowded ++ accepted crowded history)
    × ((has_close history ≡ true) ⊎ (lost ≡ []))
run_exchange_example = run_exchange crowded history crowded-IsValid

close_with_lem_example :
    let (st', done) = close_with crowded (some (user 3)) in
    (map completed done ≡ 5 ∷ 6 ∷ [])
    × (pending st' ≡ opaque 10 ∷ opaque 11 ∷ [])
    × (st'.error ≡ some (user 3))
    × (st'.receivers ≡ [])
    × (close_with st' none ≡ (st', []))
close_with_lem_example = close_with_lem crowded (some (user 3)) none crowded-IsValid refl

abbrev iterator : Iterator
iterator = record { fetching = false; pos = pos 3; entry = opaque 9; op = 7 }

abbrev channels : Store
channels a = elim (a == 0) [ true ↦ crowded | false ↦ unbuffered ]

abbrev entry : ℕ → Entry
entry c = record {
  channel = c;
  key = opaque (100 + c);
  op = 30 + c;
  fetching = false;
  queued = false;
}

quiet_entry : AreQuiet channels (entry 1 ∷ [])
quiet_entry = (refl, refl, refl, tt)

select_strands_senders_example :
    let r = select channels idle (entry 1 ∷ []) none false in
    (r.0 ≡ waits) × ((r.1 1).receivers ≡ 31 ∷ []) × ((r.1 1).senders ≡ sender 5 12 ∷ [])
select_strands_senders_example = select_strands_senders channels idle (entry 1) false quiet_entry

first_ready :
    ((select_scan channels (entry 1 ∷ entry 0 ∷ [])).first ≡ some (entry 0))
    × ((select_scan channels (entry 1 ∷ entry 0 ∷ [])).thrown ≡ none)
unfolding select_scan readable_nonblock
first_ready = (refl, refl)

unready_before :
    (none_ready channels (entry 1 ∷ []) ≡ true) × (all_pass channels (entry 1 ∷ []) ≡ true)
unfolding readable_nonblock
unready_before = (refl, refl)

select_fetches_example :
    let r = select channels idle (entry 1 ∷ entry 0 ∷ []) none false in
    (v : Value) × (rest : List Value) × (pending crowded ≡ v ∷ rest)
    × (r.0 ≡ ready (opaque 100) v)
    × (pending (r.1 0) ≡ rest)
    × ((c : ℕ) → (c == 0) ≡ false → r.1 c ≡ channels c)
select_fetches_example =
    select_fetches channels idle (entry 1 ∷ []) [] (entry 0) none false refl unready_before.0
      unready_before.1 refl crowded-IsValid (omega arith)

abbrev built_state : State
built_state = record crowded {
  scheduler = record idle { shutdown = 1 ∷ [] };
  senders = [];
  len = 0;
  rpos = 0;
  wpos = 0;
  cells = undef ∷ undef ∷ [];
}

accepts_two : construct (create_state 1 idle) (pos 2) ≡ built built_state
unfolding construct create_state
accepts_two = refl

shuffle_group_lem_example :
    let xs : List ℕ = 4 ∷ 5 ∷ 6 ∷ [] in
    (0 < 3 → (ys : List ℕ) × (shuffle_group (λ k. k) xs ≡ some ys) × (length ys ≡ 3))
    × (xs ≡ [] → shuffle_group (λ k. k) xs ≡ none)
shuffle_group_lem_example =
    shuffle_group_lem (λ k. k) (4 ∷ 5 ∷ 6 ∷ []) (λ k. omega arith) (omega arith)
