-- ===== src/Stream/Serving.antt =====
-- The loops of `read_cb` hand out the bytes of the buffer in order.
use ext_async.Prelude.{
  inl, inr, ◌≡◌, refl, ap, ◌∙◌, List, [], ◌∷◌, ◌++◌, Bool-cases, Option-cases, ltb,
}
use ext_async.Stream.{Stream, Request, Answer, finish, reads, answer_running, serve, finish_all}
use ext_async.Stream.Events.{Requests}
use ext_async.Stream.Buffering.{
  IsSound, given, held, Flows, Flows-append, finish-IsSound, reads-Flows, answer_running-Flows,
}

-- A round of a loop answers one read and then those of the resumed task.
pub round-Flows :
    (st st' : Stream) (a : Answer) (rs : List Request) (rest : List Answer) (end : Stream)
    → Flows st (a ∷ [], st')
    → (IsSound (reads st' rs).1 → Flows (reads st' rs).1 (rest, end))
    → Flows st (a ∷ (reads st' rs).0 ++ rest, end)
round-Flows st st' a rs rest end f g =
    let r = reads-Flows st' rs f.0 in
    Flows-append st st' end (a ∷ []) ((reads st' rs).0 ++ rest) f
      (Flows-append st' (reads st' rs).1 end (reads st' rs).0 rest r (g r.0))

pub serve-Flows : (st : Stream) (env : Requests) → IsSound st → Flows st (serve st env)
unfolding serve
serve-Flows st [] v = elim (Option-cases st.running) [
  | inl e ↦ rw (e, serve) (v, refl)
  | inr (r, e) ↦ elim (Bool-cases (ltb 0 st.buffer.len)) [
    | inl some_left ↦ rw (e, some_left, serve) (answer_running-Flows st r v)
    | inr empty ↦ rw (e, empty, serve) (v, refl)
  ]
]
serve-Flows st (rs ∷ env) v = elim (Option-cases st.running) [
  | inl e ↦ rw (e, serve) (v, refl)
  | inr (r, e) ↦ elim (Bool-cases (ltb 0 st.buffer.len)) [
    | inl some_left ↦
        let (a, st') = answer_running st r in
        rw (e, some_left, serve)
          (round-Flows st st' a rs (serve (reads st' rs).1 env).0 (serve (reads st' rs).1 env).1
            (answer_running-Flows st r v) (serve-Flows (reads st' rs).1 env))
    | inr empty ↦ rw (e, empty, serve) (v, refl)
  ]
]

-- Reads that are finished with no bytes.
pub finish_all-Flows :
    (a : Answer) (st : Stream) (env : Requests)
    → given (a ∷ []) ≡ []
    → IsSound st
    → Flows st (finish_all a st env)
unfolding finish_all
finish_all-Flows a st [] h v = elim (Option-cases st.running) [
  | inl e ↦ rw (e, finish_all) (v, refl)
  | inr (r, e) ↦
      let f = finish-IsSound st r v in
      rw (e, finish_all) (f.0, ap (λ t. t ++ held (finish st r)) h ∙ f.1)
]
finish_all-Flows a st (rs ∷ env) h v = elim (Option-cases st.running) [
  | inl e ↦ rw (e, finish_all) (v, refl)
  | inr (r, e) ↦
      let f = finish-IsSound st r v in
      let st' = finish st r in
      rw (e, finish_all)
        (round-Flows st st' a rs (finish_all a (reads st' rs).1 env).0
          (finish_all a (reads st' rs).1 env).1 (f.0, ap (λ t. t ++ held st') h ∙ f.1)
          (finish_all-Flows a (reads st' rs).1 env h))
]
