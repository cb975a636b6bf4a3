-- ===== src/Server.antt =====
-- src/tcp.c, `TcpServer`, and src/pipe.c, `PipeServer`, which has the same code: tasks accept connections.
-- libuv holds at most one connection that was not accepted yet, and takes the next one only when that one
-- is accepted. A task that is resumed runs at once; `again op` are the calls that the task of `op` makes
-- before it is suspended again. A connection is known by a number.
pub mod Accepting
pub mod Failing
use ext_async.Prelude.{
  ℕ, zero, suc, ◌+◌, ◌-◌, ◌%◌, ◌^◌, Bool, true, false, not, ◌&&◌, List, [], ◌∷◌, ◌++◌, map, Option,
  none, some, ◌==◌, if◌then◌else◌, is_some,
}
use ext_async.Php.{Throwable}

-- What `accept` throws; libuv's error code is a number here.
pub data Fault : Type 0 where
  listen_failed : ℕ → Fault
  server_error : Throwable → Fault
  accept_failed : ℕ → Fault
  nothing_held : Fault

pub data Outcome : Type 0 where
  accepted : ℕ → ℕ → Outcome
  threw : ℕ → Fault → Outcome

-- An operation in `accepts`.
pub record Waiting : Type 0 where
  pub op : ℕ
  pub background : Bool

-- `async_tcp_server`; `registered` says whether `cancel.func` is set, `held` is the connection that libuv
-- holds, `log` says how the calls of `accept` ended.
pub record Server : Type 0 where
  pub lazy : Bool
  pub pending : ℕ
  pub error : Option Throwable
  pub ref_count : ℕ
  pub accepts : List Waiting
  pub registered : Bool
  pub closing : Bool
  pub held : Option ℕ
  pub log : List Outcome

-- `async_tcp_server_object_create`; `bind` makes the server lazy, `listen` does not.
unfoldable pub object_create : Bool → Server
object_create lazy = record {
  lazy = lazy;
  pending = 0;
  error = none;
  ref_count = 0;
  accepts = [];
  registered = true;
  closing = false;
  held = none;
  log = [];
}

abbrev pub is_none : Option Throwable → Bool
is_none none = true
is_none (some e) = false

abbrev pub note : Server → Outcome → Server
note s o = record s { log = s.log ++ o ∷ [] }

-- ASYNC_UNREF_ENTER and ASYNC_UNREF_EXIT.
abbrev pub enter : Server → Bool → Server
enter s background = record s {
  ref_count = if background then s.ref_count else (s.ref_count + 1) % 2 ^ 8;
}

abbrev pub leave : Server → Bool → Server
leave s background = record s {
  ref_count = if background then s.ref_count else (s.ref_count + 2 ^ 8 - 1) % 2 ^ 8;
}

-- The end of `accept`: `uv_accept` gives the connection that libuv holds, or UV_EAGAIN.
abbrev pub take_held : Option ℕ → Server → ℕ → Server
take_held none s op = note s (threw op nothing_held)
take_held (some c) s op = note (record s { held = none }) (accepted op c)

abbrev pub throw_error : Option Throwable → Server → ℕ → Server
throw_error none s op = s
throw_error (some e) s op = note s (threw op (server_error e))

-- `accept` of a server that listens, up to the suspension if there is one.
unfoldable pub accept_now : Server → Waiting → Server
accept_now s w =
    if s.pending == 0
    then if is_none s.error
      then enter (record s { accepts = s.accepts ++ w ∷ [] }) w.background
      else throw_error s.error s w.op
    else take_held s.held (record s { pending = s.pending - 1 }) w.op

-- `TcpServer::accept` and `PipeServer::accept`; `code` is what `uv_listen` returns.
unfoldable pub accept : Server → Waiting → ℕ → Server
unfolding accept_now
accept s w code =
    if s.lazy
    then if code == 0
      then accept_now (record s { lazy = false }) w
      else note s (threw w.op (listen_failed code))
    else accept_now s w

abbrev pub or_else : Option Throwable → Throwable → Throwable
or_else none e = e
or_else (some first) e = first

abbrev pub leave_all : ℕ → List Waiting → ℕ
leave_all count [] = count
leave_all count (w ∷ ws) =
    leave_all (if w.background then count else (count + 2 ^ 8 - 1) % 2 ^ 8) ws

-- `shutdown_server` with an error, with what `accept` then does for the tasks that waited; `uv_close`
-- closes the connection that libuv holds.
pub shutdown : Server → Throwable → Server
shutdown s e =
    let reason = or_else s.error e in
    record s {
      registered = false;
      error = some reason;
      accepts = [];
      ref_count = leave_all s.ref_count s.accepts;
      closing = true;
      held = none;
      log = s.log ++ map (λ (w : Waiting). threw w.op (server_error reason)) s.accepts;
    }

-- `TcpServer::close`, and the disposal of the scheduler.
pub close : Server → Throwable → Server
unfolding shutdown
close s e = if s.registered then shutdown s e else s

abbrev pub without : ℕ → List Waiting → List Waiting
without op [] = []
without op (w ∷ ws) = let rest = without op ws in if w.op == op then ws else w ∷ rest

-- The rest of `accept` where the wait was cancelled.
unfoldable pub cancel : Server → ℕ → Bool → Throwable → Server
cancel s op background e =
    note (leave (record s { accepts = without op s.accepts }) background)
      (threw op (server_error e))

pub data Call : Type 0 where
  calls_accept : Waiting → ℕ → Call
  calls_close : Throwable → Call
  cancels : ℕ → Bool → Throwable → Call

unfoldable pub call : Server → Call → Server
unfolding accept close cancel
call s (calls_accept w code) = accept s w code
call s (calls_close e) = close s e
call s (cancels op background e) = cancel s op background e

unfoldable pub calls : Server → List Call → Server
unfolding call
calls s [] = s
calls s (c ∷ cs) = calls (call s c) cs

-- The rest of `accept` for a task that waited; `code` is the status of the connection, 0 or an error.
abbrev pub resumed : Server → Waiting → ℕ → Server
resumed s w code =
    let s' = leave s w.background in
    if code == 0 then take_held s'.held s' w.op else note s' (threw w.op (accept_failed code))

abbrev pub connected_to : Server → List Waiting → ℕ → (ℕ → List Call) → Server
unfolding calls
connected_to s [] code again = record s { pending = (s.pending + 1) % 2 ^ 8 }
connected_to s (w ∷ ws) code again = calls (resumed (record s { accepts = ws }) w code) (again w.op)

-- `server_connected`, and `listen_cb` of pipes.
unfoldable pub server_connected : Server → ℕ → (ℕ → List Call) → Server
unfolding connected_to
server_connected s code again = connected_to s s.accepts code again

pub data Event : Type 0 where
  runs : List Call → Event
  connects : ℕ → (ℕ → List Call) → Event
  fails : ℕ → (ℕ → List Call) → Event

-- libuv takes a connection while it listens and holds none.
abbrev pub can_take : Server → Bool
can_take s = not s.lazy && (not s.closing && not (is_some s.held))

unfoldable pub step : Server → Event → Server
unfolding calls server_connected
step s (runs cs) = calls s cs
step s (connects c again) =
    if can_take s then server_connected (record s { held = some c }) 0 again else s
step s (fails code again) = if can_take s then server_connected s (suc code) again else s

unfoldable pub run : Server → List Event → Server
unfolding step
run s [] = s
run s (e ∷ es) = run (step s e) es
