-- ===== src/Udp/Events/Queued.antt =====
-- The invariant of the senders of a socket, and that every method keeps it.
use ext_async.Prelude.{
  ℕ, ◌≡◌, refl, ap, true, false, not, ◌&&◌, ◌||◌, List, [], ◌∷◌, ◌++◌, arith, is_nil, Bool,
}
use ext_async.Udp.{
  Sender, Socket, is_none, receive, send, flush, close, shutdown, Call, receives, sends, flushes,
  closes, call, calls, accepted, busy, refused,
}

abbrev pub ops_of : List Sender → List ℕ
ops_of [] = []
ops_of (d ∷ ds) = d.op ∷ ops_of ds

abbrev pub none_cancelled : List Sender → Bool
none_cancelled [] = true
none_cancelled (d ∷ ds) = not d.cancelled && none_cancelled ds

-- While a socket is open, the requests of libuv are the senders in their order. `cancels` says whether
-- sends may have been cancelled.
pub record IsQueued (cancels : Bool) (s : Socket) : Type 0 where
  pub requests : s.closing ≡ false → s.queued ≡ ops_of s.senders
  pub alive : s.closing ≡ false → (cancels || none_cancelled s.senders) ≡ true
  pub closed : s.closing ≡ true → (is_nil s.senders && is_nil s.flush) ≡ true
  pub failed : is_none s.error ≡ not s.closing

-- And unless sends were cancelled, whoever flushes it has a sender to wait for.
pub record IsSending (cancels : Bool) (s : Socket) : Type 0 where
  pub queued : IsQueued cancels s
  pub flushing : s.closing ≡ false → (cancels || (is_nil s.flush || not (is_nil s.senders))) ≡ true

ops-append_one : (ds : List Sender) (d : Sender) → ops_of (ds ++ d ∷ []) ≡ ops_of ds ++ d.op ∷ []
ops-append_one [] d = refl
ops-append_one (x ∷ ds) d = ap (λ t. x.op ∷ t) (ops-append_one ds d)

alive-append_one :
    (ds : List Sender) (d : Sender)
    → none_cancelled (ds ++ d ∷ []) ≡ (none_cancelled ds && not d.cancelled)
alive-append_one [] d = ground arith
alive-append_one (x ∷ ds) d = ground (arith, alive-append_one ds d)

nil-append_one : (ds : List Sender) (d : Sender) → is_nil (ds ++ d ∷ []) ≡ false
nil-append_one [] d = refl
nil-append_one (x ∷ ds) d = refl

call-IsQueued : (c : Bool) (s : Socket) (k : Call) → IsQueued c s → IsQueued c (call s k)
unfolding call receive send flush close shutdown
call-IsQueued c s (receives op size background code) v = ground (arith, v)
call-IsQueued c s (sends d addressed accepted code) v =
    let d' = record d { cancelled = false } in
    ground (arith, v, ops-append_one s.senders d', alive-append_one s.senders d')
call-IsQueued c s (sends d addressed busy code) v =
    let d' = record d { cancelled = false } in
    ground (arith, v, ops-append_one s.senders d', alive-append_one s.senders d')
call-IsQueued c s (sends d addressed (refused e) code) v =
    let d' = record d { cancelled = false } in
    ground (arith, v, ops-append_one s.senders d', alive-append_one s.senders d')
call-IsQueued c s (flushes op) v = ground (arith, v)
call-IsQueued c s (closes e) v = ground (arith, v)

call_flushing :
    (c : Bool) (s : Socket) (k : Call)
    → IsSending c s
    → (call s k).closing ≡ false
    → (c || (is_nil (call s k).flush || not (is_nil (call s k).senders))) ≡ true
unfolding call receive send flush close shutdown
call_flushing c s (receives op size background code) v = ground (arith, v.flushing)
call_flushing c s (sends d addressed accepted code) v =
    ground (arith, v.flushing, nil-append_one s.senders (record d { cancelled = false }))
call_flushing c s (sends d addressed busy code) v =
    ground (arith, v.flushing, nil-append_one s.senders (record d { cancelled = false }))
call_flushing c s (sends d addressed (refused e) code) v =
    ground (arith, v.flushing, nil-append_one s.senders (record d { cancelled = false }))
call_flushing c s (flushes op) v = ground (arith, v.flushing)
call_flushing c s (closes e) v = ground (arith, v.flushing)

pub calls-IsQueued :
    (c : Bool) (s : Socket) (ks : List Call) → IsQueued c s → IsQueued c (calls s ks)
unfolding calls
calls-IsQueued c s [] v = v
calls-IsQueued c s (k ∷ ks) v = calls-IsQueued c (call s k) ks (call-IsQueued c s k v)

pub calls-IsSending :
    (c : Bool) (s : Socket) (ks : List Call) → IsSending c s → IsSending c (calls s ks)
unfolding calls
calls-IsSending c s [] v = v
calls-IsSending c s (k ∷ ks) v =
    calls-IsSending c (call s k) ks
      (record { queued = call-IsQueued c s k v.queued; flushing = call_flushing c s k v })
