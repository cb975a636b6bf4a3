-- ===== src/Udp.antt =====
-- src/udp.c, `UdpSocket`: the state and the methods up to the point where the calling task is suspended.
-- A datagram is not looked into; whether its address is set is an argument. What libuv answers is an
-- argument, too. Beside the fields of `async_udp_socket` the model has what libuv knows of the socket,
-- which operations were freed, and a log of what was done for whom.
pub mod Events
use ext_async.Prelude.{
  ◌||◌, ℕ, zero, suc, ◌+◌, ◌-◌, ◌%◌, ◌^◌, Bool, true, false, not, ◌&&◌, List, [], ◌∷◌, ◌++◌, map,
  Option, none, some, ◌==◌, if◌then◌else◌, is_nil,
}
use ext_async.Php.{ℤ, pos, negsuc, is_negative, Throwable}

-- Why a method throws; libuv's error code is a number here.
pub data Fault : Type 0 where
  socket_error : Throwable → Fault
  negative_size : Fault
  receive_failed : ℕ → Fault
  different_address : Fault
  missing_address : Fault
  send_failed : ℕ → Fault

pub data Effect : Type 0 where
  threw : ℕ → Fault → Effect
  received : ℕ → ℤ → Effect
  sent_now : ℕ → Effect
  sent : ℕ → Effect
  flushed : ℕ → Effect
  failed : ℕ → Throwable → Effect

-- `async_udp_recv_op`
pub record Receiver : Type 0 where
  pub op : ℕ
  pub size : ℕ
  pub background : Bool

-- `async_udp_send_op`; `intercepted` says that `intercept_send` made it, for which no task waits.
pub record Sender : Type 0 where
  pub op : ℕ
  pub background : Bool
  pub intercepted : Bool
  pub cancelled : Bool

-- `async_udp_socket`; `registered` says whether `cancel.func` is set, `closing` whether `uv_close` was
-- called, `listening` whether libuv receives, `queued` are the requests that libuv holds.
pub record Socket : Type 0 where
  pub error : Option Throwable
  pub receiving : Bool
  pub connected : Bool
  pub receivers : List Receiver
  pub senders : List Sender
  pub flush : List ℕ
  pub ref_count : ℕ
  pub registered : Bool
  pub closing : Bool
  pub listening : Bool
  pub queued : List ℕ
  pub freed : List ℕ
  pub log : List Effect

-- `async_udp_socket_object_create`, and `connect` if the flag is set.
pub object_create : Bool → Socket
object_create connected = record {
  error = none;
  receiving = false;
  connected = connected;
  receivers = [];
  senders = [];
  flush = [];
  ref_count = 0;
  registered = true;
  closing = false;
  listening = false;
  queued = [];
  freed = [];
  log = [];
}

abbrev pub is_none : Option Throwable → Bool
is_none none = true
is_none (some e) = false

abbrev pub or_else : Option Throwable → Throwable → Throwable
or_else none e = e
or_else (some first) e = first

abbrev pub note : Socket → Effect → Socket
note s e = record s { log = s.log ++ e ∷ [] }

-- ASYNC_UNREF_ENTER and ASYNC_UNREF_EXIT.
abbrev pub enter : Socket → Bool → Socket
enter s background = record s {
  ref_count = if background then s.ref_count else (s.ref_count + 1) % 2 ^ 8;
}

abbrev pub leave : Socket → Bool → Socket
leave s background = record s {
  ref_count = if background then s.ref_count else (s.ref_count + 2 ^ 8 - 1) % 2 ^ 8;
}

-- The size of the buffer; 8192 if none is given.
abbrev pub buffer_size : ℤ → ℕ
buffer_size (pos zero) = 8192
buffer_size (pos (suc n)) = suc n
buffer_size (negsuc n) = 0

abbrev pub append_receiver : Socket → Receiver → Socket
append_receiver s r = enter (record s { receivers = s.receivers ++ r ∷ [] }) r.background

-- `UdpSocket::receive` on a socket without an error; `code` is what `uv_udp_recv_start` returns.
abbrev pub start_receive : Socket → Receiver → ℕ → Socket
start_receive s r code =
    if s.receiving
    then append_receiver s r
    else if code == 0
    then append_receiver (record s { receiving = true; listening = not s.closing }) r
    else note s (threw r.op (receive_failed code))

abbrev pub fault_of : Option Throwable → ℕ → List Effect
fault_of none op = []
fault_of (some e) op = threw op (socket_error e) ∷ []

-- `UdpSocket::receive`, up to the suspension.
unfoldable pub receive : Socket → ℕ → ℤ → Bool → ℕ → Socket
unfolding is_negative
receive s op size background code =
    let r : Receiver = record { op = op; size = buffer_size size; background = background } in
    if is_negative size
    then note s (threw op negative_size)
    else if is_none s.error
    then start_receive s r code
    else record s { log = s.log ++ fault_of s.error op }

-- What `uv_udp_try_send` returns: a number of bytes, UV_EAGAIN or another error.
pub data Tried : Type 0 where
  accepted : Tried
  busy : Tried
  refused : ℕ → Tried

-- The rest of `send` and of `intercept_send`; `code` is what `uv_udp_send` returns.
abbrev pub queue_send : Socket → Sender → ℕ → Socket
queue_send s d code =
    if code == 0
    then enter
        (record s {
          senders = s.senders ++ record d { cancelled = false } ∷ [];
          queued = s.queued ++ d.op ∷ [];
        })
        d.background
    else note (record s { freed = d.op ∷ s.freed }) (threw d.op (send_failed code))

abbrev pub try_send : Socket → Sender → Tried → ℕ → Socket
try_send s d accepted code = note s (sent_now d.op)
try_send s d busy code = queue_send s d code
try_send s d (refused e) code = note s (threw d.op (send_failed e))

-- `UdpSocket::send` and `intercept_send`, up to the suspension.
unfoldable pub send : Socket → Sender → Bool → Tried → ℕ → Socket
send s d addressed tried code =
    if not (is_none s.error)
    then record s { log = s.log ++ fault_of s.error d.op }
    else if s.connected && addressed
    then note s (threw d.op different_address)
    else if not s.connected && not addressed
    then note s (threw d.op missing_address)
    else if is_nil s.senders
    then try_send s d tried code
    else queue_send s d code

-- `UdpSocket::flush`, up to the suspension: it waits only while there are senders.
unfoldable pub flush : Socket → ℕ → Socket
flush s op =
    if not (is_none s.error)
    then record s { log = s.log ++ fault_of s.error op }
    else if is_nil s.senders
    then note s (flushed op)
    else record s { flush = s.flush ++ op ∷ [] }

abbrev pub free_awaited : List Sender → List ℕ
free_awaited [] = []
free_awaited (d ∷ ds) =
    let rest = free_awaited ds in if d.intercepted || d.cancelled then rest else d.op ∷ rest

abbrev pub fail_senders : Throwable → List Sender → List Effect
fail_senders e [] = []
fail_senders e (d ∷ ds) =
    let rest = fail_senders e ds in
    if d.intercepted || d.cancelled then rest else failed d.op e ∷ rest

-- The operations that end with ASYNC_UNREF_EXIT when the socket is closed.
abbrev pub leavers : List Sender → List Bool
leavers [] = []
leavers (d ∷ ds) =
    let rest = leavers ds in if d.intercepted || d.cancelled then rest else d.background ∷ rest

abbrev pub leave_all : ℕ → List Bool → ℕ
leave_all count [] = count
leave_all count (b ∷ bs) = leave_all (if b then count else (count + 2 ^ 8 - 1) % 2 ^ 8) bs

-- `socket_shutdown` with an error, and what the tasks that it resumes do in `receive`, `send` and
-- `flush`: whoever sends frees the operation unless its context was cancelled.
pub shutdown : Socket → Throwable → Socket
shutdown s e =
    let reason = or_else s.error e in
    record s {
      registered = false;
      error = some reason;
      closing = true;
      listening = false;
      receivers = [];
      senders = [];
      flush = [];
      ref_count =
          leave_all s.ref_count
            (map (λ (r : Receiver). r.background) s.receivers ++ leavers s.senders);
      freed = s.freed ++ free_awaited s.senders;
      log =
          s.log
          ++ (map (λ (r : Receiver). failed r.op reason) s.receivers
              ++ (fail_senders reason s.senders ++ map (λ op. failed op reason) s.flush));
    }

-- `UdpSocket::close`, and the disposal of the scheduler.
pub close : Socket → Throwable → Socket
unfolding shutdown
close s e = if s.registered then shutdown s e else s

-- The rest of `receive` for an operation that was cancelled: ASYNC_UNREF_EXIT and ASYNC_FREE_OP.
abbrev pub without : ℕ → List Receiver → List Receiver
without op [] = []
without op (r ∷ rs) = let rest = without op rs in if r.op == op then rs else r ∷ rest

pub cancel_receive : Socket → ℕ → Bool → Throwable → Socket
cancel_receive s op background e =
    note (leave (record s { receivers = without op s.receivers }) background) (failed op e)

abbrev pub mark : ℕ → List Sender → List Sender
mark op [] = []
mark op (d ∷ ds) =
    let rest = mark op ds in if d.op == op then record d { cancelled = true } ∷ ds else d ∷ rest

-- The rest of `send` for an operation that was cancelled: it stays in the list and is not freed, so that
-- there still are senders.
pub cancel_send : Socket → ℕ → Bool → Throwable → Socket
cancel_send s op background e =
    note (leave (record s { senders = mark op s.senders }) background) (failed op e)

-- What a task does with a socket while it runs.
pub data Call : Type 0 where
  receives : ℕ → ℤ → Bool → ℕ → Call
  sends : Sender → Bool → Tried → ℕ → Call
  flushes : ℕ → Call
  closes : Throwable → Call

unfoldable pub call : Socket → Call → Socket
unfolding receive send flush close
call s (receives op size background code) = receive s op size background code
call s (sends d addressed tried code) = send s d addressed tried code
call s (flushes op) = flush s op
call s (closes e) = close s e

unfoldable pub calls : Socket → List Call → Socket
unfolding call
calls s [] = s
calls s (c ∷ cs) = calls (call s c) cs
