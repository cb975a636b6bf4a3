-- ===== src/Channel/Adding.antt =====
-- What `Channel::send` adds to the messages of a channel.
use native.Mathlib.Nat.{mod-eq_of_lt}
use mathlib.Core.List.{map-append}
use ext_async.Prelude.{
  ℕ, suc, ◌+◌, ◌^◌, ◌<◌, ◌≡◌, refl, sym, ap, ap₂, ◌∙◌, inl, inr, Bool, true, false, List, [], ◌∷◌,
  ◌++◌, none, arith, ltb, set, append-nil, append_assoc, List-cases, Bool-cases,
}
use ext_async.Ring
use ext_async.Php.{Value, undef, resolve}
use ext_async.Scheduler.{enter_foreground}
use ext_async.Channel.{State, Sender, deliver, put_buffer, send, sent, waiting}
use ext_async.Channel.Inv.{IsValid}
use ext_async.Channel.Fifo.{buffered, pending, values, handed}

module _ (st : State) (v : IsValid st) where
  put_senders : (x : Value) → (put_buffer st x).senders ≡ st.senders
  unfolding put_buffer
  put_senders x = refl

  buffered-put : (x : Value) → st.len < st.size → buffered (put_buffer st x) ≡ buffered st ++ x ∷ []
  unfolding put_buffer
  buffered-put x h =
      ap (Ring.cells undef st.size (set st.cells st.wpos x) st.rpos) {y = suc st.len}
        (mod-eq_of_lt {n = st.len + 1} {m = 2 ^ 16} (omega (arith, v.size_small)) ∙ omega arith)
      ∙ ap (λ w. Ring.cells undef st.size (set st.cells w x) st.rpos (suc st.len)) v.wpos_at
      ∙ Ring.cells-set undef st.size st.cells x st.rpos st.len v.allocated h

  -- What `deliver` hands out and keeps is what was pending and the new message, in this order.
  deliver_adds :
      (x : Value) (op : ℕ) (bg : Bool)
      → let (_, st', done) = deliver st x op bg in handed done ++ pending st' ≡ pending st ++ x ∷ []
  deliver_adds x op bg = elim (List-cases st.receivers) [
    | inr (r, rest, e) ↦ to_receiver r rest e
    | inl e ↦ elim (Bool-cases (ltb st.len st.size)) [
      | inl room ↦ to_buffer e room
      | inr full ↦ to_queue e full
    ]
  ]
    where
      to_receiver :
          (r : ℕ) (rest : List ℕ)
          → st.receivers ≡ r ∷ rest
          → handed (deliver st x op bg).2 ++ pending (deliver st x op bg).1 ≡ pending st ++ x ∷ []
      to_receiver r rest e =
          let idle : (st.senders ≡ []) × (st.len ≡ 0) = ground (arith, v) in
          let nothing : pending st ≡ [] =
            ap₂ ◌++◌ (ap (Ring.cells undef st.size st.cells st.rpos) idle.1) (ap values idle.0) in
          let f : deliver st x op bg ≡ (sent, record st { receivers = rest }, resolve r x ∷ []) =
            unfold deliver in ground arith in
          rw (f, nothing) refl

      to_buffer :
          st.receivers ≡ []
          → ltb st.len st.size ≡ true
          → handed (deliver st x op bg).2 ++ pending (deliver st x op bg).1 ≡ pending st ++ x ∷ []
      to_buffer e room =
          let idle : st.senders ≡ [] = ground (arith, v) in
          let f : deliver st x op bg ≡ (sent, put_buffer st x, []) =
            unfold deliver in ground arith in
          rw f (
            ap₂ ◌++◌ (buffered-put x (ground arith)) (ap values (put_senders x ∙ idle))
            ∙ append-nil (buffered st ++ x ∷ [])
            ∙ sym (
                ap (λ b. (b ++ x ∷ []))
                  (ap (λ t. buffered st ++ values t) idle ∙ append-nil (buffered st))))

      to_queue :
          st.receivers ≡ []
          → ltb st.len st.size ≡ false
          → handed (deliver st x op bg).2 ++ pending (deliver st x op bg).1 ≡ pending st ++ x ∷ []
      to_queue e full =
          let s : Sender = record { op = op; value = x } in
          let st' : State = record st {
            senders = st.senders ++ s ∷ [];
            scheduler = enter_foreground bg st.scheduler;
          } in
          let f : deliver st x op bg ≡ (waiting, st', []) = unfold deliver in ground arith in
          rw f (
            ap (◌++◌ (buffered st)) (map-append (λ (t : Sender). t.value) st.senders (s ∷ []))
            ∙ sym (append_assoc (buffered st) (values st.senders) (x ∷ [])))

  -- On a valid, open channel `Channel::send` hands out and keeps what was pending and, behind it,
  -- the new message.
  pub send_adds :
      (x : Value) (op : ℕ) (bg : Bool)
      → st.closed ≡ false
      → let (_, st', done) = send st x op bg in handed done ++ pending st' ≡ pending st ++ x ∷ []
  unfolding send
  send_adds x op bg o =
      let quiet : st.error ≡ none = v.open_no_error o in
      let f : send st x op bg ≡ deliver st x op bg = ground arith in rw f (deliver_adds x op bg)
