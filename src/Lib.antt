-- ===== src/Lib.antt =====
-- ext-async, an extension of PHP with tasks, channels and asynchronous input and output: the parts
-- that tasks use to wait for each other.
--
-- A task that waits allocates an operation (`async_op`), appends it to the list of what it waits
-- for, and suspends. Whoever completes the operation takes it off that list and resumes the task.
-- Channels, channel groups, conditions and deferreds each keep such lists, and register a callback
-- with the scheduler that ends all waiting when it is disposed. A task waits in a context, whose
-- cancellation ends the wait, too, and the waits in the contexts that are chained to it. Streams let a
-- task wait for bytes; the scheduler runs tick events between the rounds of libuv's loop.
--
-- The files and the code:
--   Prelude           shared names, Boolean tests and lemmas on lists
--   IntrusiveList     the ASYNC_LIST_* macros of php_async.h, on a heap of prev and next pointers
--   Php               PHP values and errors; the macros of php_async.h that complete an operation
--   Scheduler         ASYNC_BUSY_ENTER and ASYNC_BUSY_EXIT, and the list of shutdown callbacks
--   Ring              the cells of an array that is used as a ring
--   RingBuffer        include/async/buffer.h: async_ring_buffer_read and the other functions
--   Channel           src/channel.c: the state of a channel, `Channel`
--   Channel/Iterator  src/channel.c: `fetch_next_entry` and the methods of the iterator
--   Channel/Group     src/channel.c: `ChannelGroup`; Sending has its `send`, and Resuming what
--                     both methods do once their task is resumed
--   Condition         src/sync.c: `Condition`
--   Deferred          src/deferred.c: the state of a deferred, `Deferred::resolve` and `::fail`
--   Deferred/Combining  src/deferred.c: `combine_cb`; the user's continuation is a parameter, and the
--                     callbacks of further awaitables may run inside it
--   Deferred/Awaitable  src/task.c: `async_awaitable_impl`
--   Context           src/context.c: contexts, variables, cancellations and their chains
--   Await             src/task.c: `async_await_op` in a task, `continue_op_task`, `cancel_op`, the
--                     ready queue as far as it concerns that task
--   Tasks             src/task.c: one task from `async_task_object_create` to `async_task_dispose`, with
--                     `async_task_execute_inline` and what awaits it; running a part of its function
--                     is one step, and what that does is a parameter
--   Ticks             src/event.c: `TickEvent`; src/task.c: `run_ticks`, `dispose_ticks`
--   Timers            src/event.c: `TimerEvent`
--   Watcher           src/watcher/timer.c and src/watcher/signal.c: tasks that wait for a timer of a
--                     positive delay or a signal
--   Poll              src/watcher/poll.c: `Poll`
--   Udp               src/udp.c: the methods of `UdpSocket`; Udp/Events has the callbacks
--   Dns               src/dns.c: `Config::getHosts` and `::getNameservers`; Dns/Query has `Query` and
--                     what `lookup_ip_using_resolver` reads from it
--   Server            src/tcp.c: `TcpServer`; `PipeServer` of src/pipe.c has the same code
--   Files             src/filesystem.c: the streams of files; Files/Directory has those of directories
--   Fibers            src/fiber/asm.c: which fiber `async_fiber_suspend` and `_switch` go to
--   Stream            src/stream.c: `async_stream_read`; Stream/Events has `read_cb` and what else
--                     happens to a stream that is read; Stream/Writes has `async_stream_write`,
--                     `write_cb`, shutdown and flush
--   Tests             runs at concrete inputs
--
-- An operation is known by a number. Above IntrusiveList an operation list is the list of these
-- numbers, oldest first, and a function returns the operations that it completed, in order, beside
-- the new state. A method that suspends its task is two functions: the part before the suspension,
-- and the part from the resumption on, named `…_resume`. Completing an operation resumes its task
-- at once unless the operation is flagged ASYNC_OP_FLAG_DEFER. `fetch_noblock` and `send` complete
-- an operation as the last thing they do; of `dispose_state`, `broadcast` and `trigger_ops` it is
-- assumed that the tasks they resume use the same object again only after their loops.
--
-- Where the callbacks of a cancellation lead to one that was freed, or a context whose cancellation was
-- freed is asked, the functions of Context return nothing.
--
-- What a resumed task does to the contexts while a cancellation runs over its callbacks is not
-- modelled, nor what it does to the operation that it awaited after the return. A callback of a tick
-- event is a parameter; it may use all methods of tick events, throw and exit.
--
-- A started write is given to libuv as a whole, and libuv calls `write_cb` once for it; `uv_shutdown` is
-- taken to succeed.
--
-- In Poll, Udp and Server a task that is resumed by a callback runs at once, as in the code: what it calls on the
-- same object before it is suspended again is a parameter, and the loops of the callbacks return
-- nothing where their fuel runs out or a NULL pointer is followed. What libuv answers is an argument.
-- The texts of Dns and Files are lists of bytes, the lines those that `php_stream_gets` returns; the types and
-- times to live of its records are not negative.
--
-- Numbers: uint16_t, uint32_t and zend_ulong counters keep their wrap-around; the positions of an
-- iterator are without the bounds of zend_long. The loop of `async_ring_buffer_read` has one round
-- of fuel more than bytes are asked for, and each round copies a byte.
-- A loop over cancellation callbacks has fuel for one round more than callbacks are registered, and no
-- round registers one; the loop of a trigger has fuel
-- for as many rounds as operations wait; the second loop of `run_ticks` has fuel for as many rounds as events are
-- scheduled, and no callback adds to the list that runs. The search of a context variable visits each
-- parent once, and parents are made before their children. Random numbers are a
-- parameter of `shuffle_group`.
--
-- Not modelled: the switch of machine contexts, the fiber of a task and the calls of PHP functions,
-- the root task, the errors and the disposal of the scheduler, the options and the binding of sockets, `Context::run`, the timers of channel groups,
-- `Deferred::combine` but for its callback, `Deferred::transform`, the memory streams, TLS,
-- the requests of a UDP socket that libuv still holds when it is closed, getaddrinfo, and the rest
-- of input and output, which is glue to libuv. A scheduler's shutdown list is kept by
-- addresses, and so is the list of callbacks of a context's cancellation in Deferred.
pub mod Prelude
pub mod IntrusiveList
pub mod Php
pub mod Scheduler
pub mod Ring
pub mod RingBuffer
pub mod Stream
pub mod Await
pub mod Poll
pub mod Udp
pub mod Files
pub mod Server
pub mod Watcher
pub mod Tasks
pub mod Ticks
pub mod Timers
pub mod Context
pub mod Fibers
pub mod Channel
pub mod Condition
pub mod Dns
pub mod Deferred
pub mod Tests
