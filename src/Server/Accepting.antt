-- ===== src/Server/Accepting.antt =====
-- Every connection goes to one task that accepts, in the order of arrival.
use ext_async.Prelude.{
  Option-cases, ℕ, ◌≡◌, refl, sym, ap, ◌∙◌, true, false, not, ◌||◌, Bool, List, [], ◌∷◌, ◌++◌,
  append-nil, append_assoc, Option, none, some, arith, ◌==◌, if◌then◌else◌, is_nil, is_some,
  if_cases, Bool-cases, inl, inr,
}
use ext_async.Server.{
  nothing_held, server_error, listen_failed, accept_failed, Outcome, accepted, threw, Waiting,
  Server, is_none, accept_now, accept, shutdown, close, cancel, Call, calls_accept, calls_close,
  cancels, call, calls, resumed, connected_to, server_connected, Event, runs, connects, fails,
  can_take, step, run,
}

-- The connections that calls of `accept` returned.
abbrev pub accepted_of : List Outcome → List ℕ
accepted_of [] = []
accepted_of (accepted op c ∷ os) = c ∷ accepted_of os
accepted_of (threw op f ∷ os) = accepted_of os

abbrev pub held_list : Option ℕ → List ℕ
held_list none = []
held_list (some c) = c ∷ []

-- Those, and the one that is still to be accepted.
abbrev pub served : Server → List ℕ
served s = accepted_of s.log ++ held_list s.held

-- A call of `accept` had been let through although there was no connection.
abbrev pub spurious : List Outcome → Bool
spurious [] = false
spurious (threw op nothing_held ∷ os) = true
spurious (threw op f ∷ os) = spurious os
spurious (accepted op c ∷ os) = spurious os

-- While a server is open, `pending` counts the connection that libuv holds, nobody waits while it holds
-- one, and no `accept` was let through in vain.
pub record IsAccepting (s : Server) : Type 0 where
  pub counted : s.closing ≡ false → s.pending ≡ (if is_some s.held then 1 else 0)
  pub prompt : s.closing ≡ false → (is_nil s.accepts || not (is_some s.held)) ≡ true
  pub sound : s.closing ≡ false → spurious s.log ≡ false
  pub failed : is_none s.error ≡ not s.closing

accepted_of-append :
    (os ps : List Outcome) → accepted_of (os ++ ps) ≡ accepted_of os ++ accepted_of ps
accepted_of-append [] ps = refl
accepted_of-append (accepted op c ∷ os) ps = ap (λ t. c ∷ t) (accepted_of-append os ps)
accepted_of-append (threw op f ∷ os) ps = accepted_of-append os ps

spurious-append : (os ps : List Outcome) → spurious (os ++ ps) ≡ (spurious os || spurious ps)
spurious-append [] ps = refl
spurious-append (accepted op c ∷ os) ps = spurious-append os ps
spurious-append (threw op nothing_held ∷ os) ps = refl
spurious-append (threw op (server_error e) ∷ os) ps = spurious-append os ps
spurious-append (threw op (listen_failed e) ∷ os) ps = spurious-append os ps
spurious-append (threw op (accept_failed e) ∷ os) ps = spurious-append os ps

-- Both what a call keeps and what it serves are by the connection that libuv holds.
accept_now-IsAccepting : (s : Server) (w : Waiting) → IsAccepting s → IsAccepting (accept_now s w)
unfolding accept_now
accept_now-IsAccepting s w v = elim (Option-cases s.held) [
  | inl h ↦ ground (arith, v, h)
  | inr (c, h) ↦ ground (arith, v, h, spurious-append s.log (accepted w.op c ∷ []))
]

call-IsAccepting : (s : Server) (c : Call) → IsAccepting s → IsAccepting (call s c)
unfolding call accept close shutdown cancel
call-IsAccepting s (calls_accept w code) v =
    if_cases IsAccepting s.lazy _ _
      (λ _.
        if_cases IsAccepting (code == 0) _ _
          (λ _. accept_now-IsAccepting (record s { lazy = false }) w (ground (arith, v)))
          (λ _. ground (arith, v, spurious-append s.log (threw w.op (listen_failed code) ∷ []))))
      (λ _. accept_now-IsAccepting s w v)
call-IsAccepting s (calls_close e) v = ground (arith, v)
call-IsAccepting s (cancels op background e) v =
    ground (arith, v, spurious-append s.log (threw op (server_error e) ∷ []))

accept_now-served :
    (s : Server) (w : Waiting)
    → IsAccepting s
    → (accept_now s w).closing ≡ false
    → served (accept_now s w) ≡ served s
unfolding accept_now
accept_now-served s w v o = elim (Option-cases s.held) [
  | inl h ↦ ground (arith, v, h, o)
  | inr (c, h) ↦ ground (
    arith,
    v,
    h,
    o,
    accepted_of-append s.log (accepted w.op c ∷ []),
    append-nil (accepted_of s.log ++ c ∷ []),
  )
]

-- Only closing a server gives up the connection that libuv holds.
call-served :
    (s : Server) (c : Call)
    → IsAccepting s
    → (call s c).closing ≡ false
    → served (call s c) ≡ served s
unfolding call accept close shutdown cancel
call-served s (calls_accept w code) v o =
    let P = λ (t : Server). t.closing ≡ false → served t ≡ served s in
    let now = λ (_ : s.lazy ≡ false). accept_now-served s w v in
    if_cases P s.lazy _ _
      (λ _.
        if_cases P (code == 0) _ _
          (λ _. accept_now-served (record s { lazy = false }) w (ground (arith, v)))
          (λ _ _. ground (
            arith,
            accepted_of-append s.log (threw w.op (listen_failed code) ∷ []),
            append-nil (accepted_of s.log),
          )))
      now o
call-served s (calls_close e) v o = ground (arith, v, o)
call-served s (cancels op background e) v o = ground (
  arith,
  accepted_of-append s.log (threw op (server_error e) ∷ []),
  append-nil (accepted_of s.log),
)

-- A closed server stays closed.
call_open : (s : Server) (c : Call) → (call s c).closing ≡ false → s.closing ≡ false
unfolding call accept accept_now close shutdown cancel
call_open s (calls_accept w code) o = elim (Option-cases s.held) [
  | inl h ↦ elim (Option-cases s.error) [
    | inl e ↦ ground (arith, h, e, o)
    | inr (x, e) ↦ ground (arith, h, e, o)
  ]
  | inr (c, h) ↦ elim (Option-cases s.error) [
    | inl e ↦ ground (arith, h, e, o)
    | inr (x, e) ↦ ground (arith, h, e, o)
  ]
]
call_open s (calls_close e) o = ground (arith, o)
call_open s (cancels op background e) o = o

calls_open : (s : Server) (cs : List Call) → (calls s cs).closing ≡ false → s.closing ≡ false
unfolding calls
calls_open s [] o = o
calls_open s (c ∷ cs) o = call_open s c (calls_open (call s c) cs o)

calls-IsAccepting : (s : Server) (cs : List Call) → IsAccepting s → IsAccepting (calls s cs)
unfolding calls
calls-IsAccepting s [] v = v
calls-IsAccepting s (c ∷ cs) v = calls-IsAccepting (call s c) cs (call-IsAccepting s c v)

calls-served :
    (s : Server) (cs : List Call)
    → IsAccepting s
    → (calls s cs).closing ≡ false
    → served (calls s cs) ≡ served s
unfolding calls
calls-served s [] v o = refl
calls-served s (c ∷ cs) v o =
    calls-served (call s c) cs (call-IsAccepting s c v) o
    ∙ call-served s c v (calls_open (call s c) cs o)

served_none :
    (s : Server) (c : ℕ) → s.held ≡ none → served s ++ c ∷ [] ≡ accepted_of s.log ++ c ∷ []
served_none s c h =
    ap (λ o. (accepted_of s.log ++ held_list o) ++ c ∷ []) h
    ∙ ap (λ t. t ++ c ∷ []) (append-nil (accepted_of s.log))

connected_by :
    (s : Server) (ws : List Waiting) (c : ℕ) (again : ℕ → List Call)
    → IsAccepting s
    → s.accepts ≡ ws
    → s.held ≡ none
    → s.closing ≡ false
    → let s' = connected_to (record s { held = some c }) ws 0 again in
      IsAccepting s' × (s'.closing ≡ false → served s' ≡ served s ++ c ∷ [])
unfolding connected_to
connected_by s [] c again v a h o = (ground (arith, v, a, h, o), λ _. sym (served_none s c h))
connected_by s (w ∷ ws) c again v a h o =
    let taken : Server = record s { held = some c; accepts = ws } in
    let r = resumed taken w 0 in
    let ok : IsAccepting r =
      ground (arith, v, a, h, o, spurious-append s.log (accepted w.op c ∷ [])) in
    let same : served r ≡ served s ++ c ∷ [] =
      append-nil (accepted_of (s.log ++ accepted w.op c ∷ []))
      ∙ accepted_of-append s.log (accepted w.op c ∷ [])
      ∙ sym (served_none s c h) in
    (
      calls-IsAccepting r (again w.op) ok,
      λ open_after. calls-served r (again w.op) ok open_after ∙ same,
    )

-- libuv takes no connection that could not be accepted.
abbrev pub Connects : List Event → Type 0
Connects [] = Unit {0}
Connects (fails code again ∷ es) = ⊥
Connects (e ∷ es) = Connects es

-- The connections that libuv takes.
abbrev pub taken_by : Server → Event → List ℕ
taken_by s (connects c again) = if can_take s then c ∷ [] else []
taken_by s e = []

abbrev pub taken : Server → List Event → List ℕ
unfolding step
taken s [] = []
taken s (e ∷ es) = taken_by s e ++ taken (step s e) es

abbrev Serves : Server → List ℕ → Server → Type 0
Serves s cs s' =
    IsAccepting s'
    × (s'.closing ≡ false → served s' ≡ served s ++ cs)
    × (s'.closing ≡ false → s.closing ≡ false)

step-Serves :
    (s : Server) (e : Event)
    → IsAccepting s
    → Connects (e ∷ [])
    → Serves s (taken_by s e) (step s e)
unfolding step server_connected
step-Serves s (runs cs) v k = (
  calls-IsAccepting s cs v,
  λ o. calls-served s cs v o ∙ sym (append-nil (served s)),
  calls_open s cs,
)
step-Serves s (fails code again) v k = absurd k
step-Serves s (connects c again) v k = elim (Bool-cases (can_take s)) [
  | inl t ↦
      let (a, b) =
        connected_by s s.accepts c again v refl (ground (arith, t)) (ground (arith, t)) in
      rw t (a, b, λ _. ground (arith, t))
  | inr t ↦ rw t (v, λ _. sym (append-nil (served s)), λ o. o)
]

Connects-first : (e : Event) (es : List Event) → Connects (e ∷ es) → Connects (e ∷ []) × Connects es
Connects-first (runs cs) es k = (tt, k)
Connects-first (connects c again) es k = (tt, k)
Connects-first (fails code again) es k = absurd k

run-Serves :
    (s : Server) (es : List Event) → IsAccepting s → Connects es → Serves s (taken s es) (run s es)
unfolding run
run-Serves s [] v k = (v, λ _. sym (append-nil (served s)), λ o. o)
run-Serves s (e ∷ es) v k =
    let (first, rest) = Connects-first e es k in
    let (a, b, c) = step-Serves s e v first in
    let (x, y, z) = run-Serves (step s e) es a rest in
    (
      x,
      λ o.
          y o
          ∙ ap (λ t. t ++ taken (step s e) es) (b (z o))
          ∙ append_assoc (served s) (taken_by s e) (taken (step s e) es),
      λ o. c (z o),
    )

-- Over every history of a server for which it held before, in which libuv reports no failed connection: as
-- long as the server is open, the connections that `accept` returned and the one that libuv holds are, in
-- this order, those that there were and those that libuv took, so that none is lost, doubled or
-- overtaken; no `accept` failed for want of a connection; and nobody waits while libuv holds one.
pub run-serves :
    (s : Server) (es : List Event)
    → IsAccepting s
    → Connects es
    → (run s es).closing ≡ false
    → (served (run s es) ≡ served s ++ taken s es)
      × (spurious (run s es).log ≡ false)
      × ((is_nil (run s es).accepts || not (is_some (run s es).held)) ≡ true)
run-serves s es v k o = let (w, same, _) = run-Serves s es v k in (same o, w.sound o, w.prompt o)
