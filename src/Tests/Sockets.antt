-- ===== src/Tests/Sockets.antt =====
-- Polls and UDP sockets at concrete inputs.
use ext_async.Prelude.{
  Bool, ℕ, ◌+◌, ◌≡◌, refl, true, false, not, List, [], ◌∷◌, none, some, arith, ◌||◌, is_nil,
}
use ext_async.Php.{pos, user}
use ext_async.Poll.{
  Poll, Mask, Side, read, write, Call, awaits, exits, trigger, settle, calls, finished, await,
  wanted, queue,
}
use ext_async.Poll
use ext_async.Poll.Syncing.{IsSynced}
use ext_async.Poll.Waking.{only, watches, IsSome, run-wakes, writes_again, disconnect_diverges}
use ext_async.Udp
use ext_async.Udp.{Socket, receives, flushes, receive, flush, cancel_receive, cancel_send}
use ext_async.Udp.Events
use ext_async.Udp.Events.{arrives, sends_done}
use ext_async.Udp.Events.Receiving.{IsReceiving, served_first, run-Receives}
use ext_async.Udp.Events.Queued.{IsSending, ops_of}
use ext_async.Udp.Events.Sending.{run-sends}
use ext_async.Udp.Events.Cancelling.{cancel_receive_crashes, cancel_send_strands}

-- Two tasks wait for data, and one can write.
abbrev readers : Poll
readers = record {
  error = none;
  events = record { readable = true; writable = false; disconnect = true };
  reads = 1 ∷ 2 ∷ [];
  writes = [];
  ref_count = 2;
  registered = true;
  closing = false;
  polling = some (record { readable = true; writable = false; disconnect = true });
  log = [];
}

abbrev poll_history : List Poll.Event
poll_history = Poll.runs (awaits write false 3 ∷ []) ∷ []

abbrev read_again : ℕ → List Call
read_again op = exits read false op ∷ awaits read false (op + 10) ∷ []

readers_and_writer : Poll.run readers poll_history ≡ some (await readers write false 3)
unfolding Poll.run Poll.step calls Poll.call await
readers_and_writer = refl

waiting_one : queue read (await readers write false 3) ≡ 1 ∷ 2 ∷ []
unfolding await
waiting_one = refl

run-wakes_example :
    let u = await readers write false 3 in
    let u' = settle (calls (finished read 1 (2 ∷ []) u) (read_again 1)) in
    (u.polling ≡ some u.events)
    × (watches read u.events ≡ true)
    × (trigger 5 u read_again (only read) ≡ some u')
    × IsSynced u'
    × ((next : Side) → IsSome (trigger 5 u' read_again (only next)))
run-wakes_example =
    run-wakes readers poll_history (await readers write false 3) read 1 (2 ∷ []) 4 read_again refl
      (ground arith) readers_and_writer waiting_one

abbrev reading : ℕ → Side × Bool
reading op = (read, false)

abbrev hang_up : Mask
hang_up = record { readable = false; writable = false; disconnect = true }

disconnect_diverges_example : trigger 9 readers (writes_again reading (λ op. op + 1)) hang_up ≡ none
disconnect_diverges_example =
    disconnect_diverges 9 readers hang_up 1 (2 ∷ []) reading (λ op. op + 1) refl refl refl refl

abbrev broken : Poll
broken = record readers { polling = none }

-- One task receives, one sends and one flushes.
abbrev socket : Socket
socket = record {
  error = none;
  receiving = true;
  connected = false;
  receivers = record { op = 1; size = 100; background = false } ∷ [];
  senders =
      record { op = 2; background = false; intercepted = false; cancelled = false }
      ∷ record { op = 3; background = false; intercepted = true; cancelled = false }
      ∷ [];
  flush = 4 ∷ [];
  ref_count = 3;
  registered = true;
  closing = false;
  listening = true;
  queued = 2 ∷ 3 ∷ [];
  freed = [];
  log = [];
}

abbrev udp_history : List Events.Event
udp_history = Events.runs (receives 5 (pos 50) false 0 ∷ flushes 6 ∷ []) ∷ []

abbrev busy_socket : Socket
busy_socket = flush (receive socket 5 (pos 50) false 0) 6

receives_and_flushes : Events.run socket udp_history ≡ some busy_socket
unfolding Events.run Events.step Udp.calls Udp.call
receives_and_flushes = refl

abbrev receive_again : ℕ → List Udp.Call
receive_again op = receives (op + 10) (pos 0) false 0 ∷ []

still_open : busy_socket.closing ≡ false
unfolding flush receive
still_open = refl

socket-IsSending : IsSending false socket
socket-IsSending = record { queued = ground arith; flushing = λ o. refl }

run-Receives_example :
    let u' = served_first busy_socket busy_socket.receivers (pos 9) receive_again in
    (busy_socket.listening ≡ not (is_nil busy_socket.receivers))
    × (Events.step busy_socket (arrives (pos 9) receive_again) ≡ some u')
    × IsReceiving u'
run-Receives_example =
    run-Receives socket udp_history busy_socket (pos 9) receive_again (ground arith) tt
      receives_and_flushes still_open

run-sends_example :
    (busy_socket.queued ≡ ops_of busy_socket.senders)
    × ((false || (is_nil busy_socket.flush || not (is_nil busy_socket.senders))) ≡ true)
run-sends_example =
    run-sends false socket udp_history busy_socket (tt, tt) socket-IsSending receives_and_flushes
      still_open

cancel_receive_crashes_example :
    Events.step (cancel_receive socket 1 false (user 1)) (arrives (pos 9) receive_again) ≡ none
cancel_receive_crashes_example =
    cancel_receive_crashes socket (record { op = 1; size = 100; background = false }) (pos 9)
      receive_again (user 1) refl refl

abbrev sending : Socket
sending = record socket {
  senders = record { op = 2; background = false; intercepted = false; cancelled = false } ∷ [];
  queued = 2 ∷ [];
}

cancel_send_strands_example :
    (u : Socket) × (Events.step (cancel_send sending 2 false (user 1)) (sends_done 5 receive_again)
      ≡ some u)
    × (u.senders ≡ [])
    × (u.queued ≡ [])
    × (u.flush ≡ 4 ∷ [])
cancel_send_strands_example =
    cancel_send_strands sending
      (record { op = 2; background = false; intercepted = false; cancelled = false }) 5
      receive_again (user 1) false refl refl refl refl
