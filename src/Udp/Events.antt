-- ===== src/Udp/Events.antt =====
-- src/udp.c: the callbacks of libuv, and the tasks that they resume. A task that is resumed runs at once,
-- and `again op` are the calls that the task of `op` makes before it is suspended again. `none` means
-- that a NULL pointer is followed, or that the fuel of the loop over `flush` ran out.
pub mod Receiving
pub mod Queued
pub mod Sending
pub mod Cancelling
use ext_async.Prelude.{
  ℕ, zero, suc, ◌&&◌, ◌||◌, true, false, not, List, [], ◌∷◌, ◌++◌, Option, none, some, ◌==◌,
  if◌then◌else◌, is_nil, Bool,
}
use ext_async.Php.{ℤ, pos, negsuc, Throwable}
use ext_async.Udp.{
  Receiver, Sender, Socket, note, leave, received, sent, flushed, cancel_receive, cancel_send, Call,
  calls,
}

-- `socket_alloc_buffer`: the length of the buffer for the next datagram.
pub alloc_buffer : Socket → Option ℕ
alloc_buffer s = elim s.receivers [ [] ↦ none | r ∷ rs ↦ some r.size ]

-- The end of `socket_received`.
abbrev pub stop_idle : Socket → Socket
stop_idle s = if is_nil s.receivers then record s { receiving = false; listening = false } else s

abbrev pub is_zero : ℤ → Bool
is_zero (pos zero) = true
is_zero n = false

abbrev pub delivered : Socket → Receiver → List Receiver → ℤ → Socket
delivered s r rs nread =
    note (leave (record s { receivers = rs }) r.background) (received r.op nread)

abbrev pub received_by : Socket → List Receiver → ℤ → (ℕ → List Call) → Option Socket
unfolding calls
received_by s [] nread again = none
received_by s (r ∷ rs) nread again = some (stop_idle (calls (delivered s r rs nread) (again r.op)))

-- `socket_received`, after `nread` bytes or with an error.
pub socket_received : Socket → ℤ → (ℕ → List Call) → Option Socket
unfolding received_by
socket_received s nread again =
    if is_zero nread then some s else received_by s s.receivers nread again

-- The loop that ends `send` and `socket_sent_async`.
pub finish_flush : ℕ → (ℕ → List Call) → Socket → Option Socket
unfolding calls
finish_flush zero again s = none
finish_flush (suc fuel) again s = elim s.flush [
  | [] ↦ some s
  | op ∷ ops ↦
      finish_flush fuel again (calls (note (record s { flush = ops }) (flushed op)) (again op))
]

abbrev pub find : ℕ → List Sender → Option Sender
find op [] = none
find op (d ∷ ds) = let rest = find op ds in if d.op == op then some d else rest

abbrev pub remove : ℕ → List Sender → List Sender
remove op [] = []
remove op (d ∷ ds) = let rest = remove op ds in if d.op == op then ds else d ∷ rest

abbrev pub map_calls : Option Socket → ℕ → List Call → Option Socket
unfolding calls
map_calls none op cs = none
map_calls (some s) op cs = some (calls (note s (sent op)) cs)

-- The operation of a request that libuv has done leaves the list and is freed.
abbrev pub done : Socket → ℕ → Socket
done s op = record s { senders = remove op s.senders; freed = op ∷ s.freed }

-- What follows for a sender whose context was not cancelled: the rest of `send`, or of
-- `socket_sent_async`.
pub sent_by : ℕ → Socket → Sender → (ℕ → List Call) → Option Socket
unfolding finish_flush map_calls
sent_by fuel s d again =
    let s' = leave (done s d.op) d.background in
    map_calls (if is_nil s'.senders then finish_flush fuel again s' else some s') d.op (again d.op)

abbrev pub sent_op : ℕ → Socket → Option Sender → ℕ → (ℕ → List Call) → Option Socket
unfolding sent_by
sent_op fuel s none op again = none
sent_op fuel s (some d) op again =
    if d.cancelled && not d.intercepted then some (done s op) else sent_by fuel s d again

-- `socket_sent` and `socket_sent_async` on an open socket, for the request that libuv has queued longest.
pub socket_sent : ℕ → Socket → (ℕ → List Call) → Option Socket
unfolding sent_op
socket_sent fuel s again = elim s.queued [
  | [] ↦ some s
  | op ∷ ops ↦ sent_op fuel (record s { queued = ops }) (find op s.senders) op again
]

pub data Event : Type 0 where
  runs : List Call → Event
  arrives : ℤ → (ℕ → List Call) → Event
  sends_done : ℕ → (ℕ → List Call) → Event
  cancels_send : ℕ → Bool → Throwable → Event
  cancels_receive : ℕ → Bool → Throwable → Event

-- libuv asks for a buffer, and then receives.
abbrev pub arrive : Socket → ℤ → (ℕ → List Call) → Option Socket
unfolding alloc_buffer socket_received
arrive s nread again = elim (alloc_buffer s) [
  | none ↦ none
  | some size ↦ socket_received s nread again
]

unfoldable pub step : Socket → Event → Option Socket
unfolding calls arrive socket_sent cancel_receive cancel_send
step s (runs cs) = some (calls s cs)
step s (arrives nread again) = let r = arrive s nread again in if s.listening then r else some s
step s (sends_done fuel again) = let r = socket_sent fuel s again in if s.closing then some s else r
step s (cancels_send op background e) = some (cancel_send s op background e)
step s (cancels_receive op background e) = some (cancel_receive s op background e)

abbrev pub and_then : Option Socket → (Socket → Option Socket) → Option Socket
and_then none f = none
and_then (some s) f = f s

unfoldable pub run : Socket → List Event → Option Socket
unfolding step
run s [] = some s
run s (e ∷ es) = and_then (step s e) (λ s'. run s' es)
