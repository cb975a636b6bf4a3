-- ===== src/Udp/Events/Cancelling.antt =====
-- What goes wrong where an operation is cancelled or its socket closed.
use ext_async.Prelude.{ℕ, ◌≡◌, refl, true, false, List, [], ◌∷◌, ◌++◌, none, some, arith, Bool}
use ext_async.Php.{ℤ, Throwable}
use ext_async.Udp.{
  Receiver, Sender, Socket, close, shutdown, cancel_receive, cancel_send, Call, free_awaited,
}
use ext_async.Udp.Events.{done, sent_op, socket_sent, arrives, sends_done, step}

-- Where somebody waits for a datagram and nobody else does, and that wait is cancelled: libuv goes on to
-- receive, and the next datagram makes it follow a NULL pointer.
pub cancel_receive_crashes :
    (s : Socket) (r : Receiver) (nread : ℤ) (again : ℕ → List Call) (e : Throwable)
    → s.receivers ≡ r ∷ []
    → s.listening ≡ true
    → step (cancel_receive s r.op r.background e) (arrives nread again) ≡ none
unfolding step cancel_receive
cancel_receive_crashes s r nread again e h l = ground (arith, h, l)

-- Where one send is queued on an open socket, tasks wait in `flush`, and the task of that send is
-- cancelled: when the datagram has been sent, no sender and no request is left, and the tasks still
-- wait.
pub cancel_send_strands :
    (s : Socket) (d : Sender) (fuel : ℕ) (again : ℕ → List Call) (e : Throwable) (background : Bool)
    → s.senders ≡ d ∷ []
    → s.queued ≡ d.op ∷ []
    → s.closing ≡ false
    → d.intercepted ≡ false
    → (u : Socket) × (step (cancel_send s d.op background e) (sends_done fuel again) ≡ some u)
      × (u.senders ≡ [])
      × (u.queued ≡ [])
      × (u.flush ≡ s.flush)
unfolding step cancel_send socket_sent sent_op
cancel_send_strands s d fuel again e b h q o i =
    let s' = cancel_send s d.op b e in
    (
      done (record s' { queued = [] }) d.op,
      ground (arith, h, q, o, i),
      ground (arith, h),
      refl,
      refl,
    )

-- Where a send is queued on an open socket, and its task was not cancelled: when the socket is closed, its
-- operation is freed, although libuv holds the request that is part of it.
pub close_frees_queued :
    (s : Socket) (d : Sender) (ds : List Sender) (e : Throwable)
    → s.registered ≡ true
    → s.senders ≡ d ∷ ds
    → d.intercepted ≡ false
    → d.cancelled ≡ false
    → ((close s e).queued ≡ s.queued) × ((close s e).freed ≡ s.freed ++ (d.op ∷ free_awaited ds))
unfolding close shutdown
close_frees_queued s d ds e r h i a = (ground (arith, r), ground (arith, r, h, i, a))
