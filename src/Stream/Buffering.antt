-- ===== src/Stream/Buffering.antt =====
-- Every function of a stream that answers reads hands out the oldest bytes of the buffer.
use ext_async.Prelude.{
  ◌==◌, ℕ, zero, suc, ◌≡◌, refl, sym, ap, ◌∙◌, min, true, List, [], ◌∷◌, ◌++◌, none, some, arith,
  take, drop, append-nil, append_assoc, if◌then◌else◌,
}
use ext_async.RingBuffer.{RingBuffer}
use ext_async.RingBuffer.Inv
use ext_async.RingBuffer.Inv.{contents, length-contents}
use ext_async.RingBuffer.Reading.{read_lem, read_string_lem}
use ext_async.Stream.{
  Stream, Request, Answer, bytes, error, Outcome, answer_list, take_buffer, take_string, take_bytes,
  bytes_of_string, stream_read, init_buffer, restart, finish, reads, answer_running,
}

-- The buffer of a stream from its first read on.
pub record IsSound (st : Stream) : Type 0 where
  pub allocated : st.allocated ≡ true
  pub ring : Inv.IsValid st.buffer

-- The bytes that answers hand out.
abbrev pub given : List Answer → List ℕ
given [] = []
given (bytes bs ∷ as') = bs ++ given as'
given (error e ∷ as') = given as'

abbrev pub held : Stream → List ℕ
held st = contents st.buffer

-- Nothing is lost, doubled or reordered on the way from a stream to the answers.
abbrev pub Flows : Stream → List Answer × Stream → Type 0
Flows st (out, st') = IsSound st' × (given out ++ held st' ≡ held st)

pub take-drop : (n : ℕ) (xs : List ℕ) → take n xs ++ drop n xs ≡ xs
take-drop zero xs = refl
take-drop (suc n) [] = refl
take-drop (suc n) (x ∷ xs) = ap (◌∷◌ x) (take-drop n xs)

-- What a way of taking bytes out of a ring promises.
abbrev Takes : RingBuffer → List ℕ × RingBuffer → Type 0
Takes b (out, b') = Inv.IsValid b' × (out ++ contents b' ≡ contents b)

take_buffer-Takes : (b : RingBuffer) (n : ℕ) → Inv.IsValid b → Takes b (take_buffer b n)
unfolding take_buffer
take_buffer-Takes b n v =
    let (b', e, v', f) = read_lem b n v in
    rw (e, take_buffer) (v', ap (◌++◌ (take n (contents b))) f ∙ take-drop n (contents b))

-- The string, if there is one, is the front of the contents.
taken_string :
    (m : ℕ) (xs : List ℕ)
    → bytes_of_string (if m == 0 then none else some (take m xs)) ++ drop m xs ≡ xs
taken_string zero xs = refl
taken_string (suc m) xs = ground (arith, take-drop (suc m) xs)

take_string-Takes : (b : RingBuffer) (n : ℕ) → Inv.IsValid b → Takes b (take_string b n)
unfolding take_string
take_string-Takes b n v =
    let (b', e, v', f) = read_string_lem b n v in
    let m = min b.len n in
    rw (e, take_string)
      (
        v',
        ap (◌++◌ (bytes_of_string (if m == 0 then none else some (take m (contents b))))) f
            ∙ taken_string m (contents b),
      )

take_bytes-Takes : (r : Request) (b : RingBuffer) → Inv.IsValid b → Takes b (take_bytes r b)
unfolding take_bytes
take_bytes-Takes r b v =
    ground (arith, take_buffer-Takes b (min r.len b.len) v, take_string-Takes b (min r.len b.len) v)

abbrev pub OutcomeFlows : Stream → Outcome × Stream → Type 0
OutcomeFlows st (o, st') = Flows st (answer_list o, st')

-- A read gets the oldest bytes, or leaves the buffer alone.
pub stream_read-Flows :
    (st : Stream) (r : Request) → IsSound st → OutcomeFlows st (stream_read st r)
unfolding stream_read init_buffer restart
stream_read-Flows st r v =
    ground (arith, v, take_bytes-Takes r st.buffer v.ring, append-nil (take_bytes r st.buffer).0)

pub given-append : (xs ys : List Answer) → given (xs ++ ys) ≡ given xs ++ given ys
given-append [] ys = refl
given-append (bytes bs ∷ xs) ys =
    ap (◌++◌ bs) (given-append xs ys) ∙ sym (append_assoc bs (given xs) (given ys))
given-append (error e ∷ xs) ys = given-append xs ys

-- One after the other.
pub Flows-append :
    (st st' st'' : Stream) (out rest : List Answer)
    → Flows st (out, st')
    → Flows st' (rest, st'')
    → Flows st (out ++ rest, st'')
Flows-append st st' st'' out rest f g = (
  g.0,
  ap (λ t. t ++ held st'') (given-append out rest)
      ∙ append_assoc (given out) (given rest) (held st'')
      ∙ ap (◌++◌ (given out)) g.1
      ∙ f.1,
)

pub finish-IsSound : (st : Stream) (r : Request) → IsSound st → Flows st ([], finish st r)
unfolding finish
finish-IsSound st r v = (ground (arith, v), refl)

pub reads-Flows : (st : Stream) (rs : List Request) → IsSound st → Flows st (reads st rs)
unfolding reads
reads-Flows st [] v = (v, refl)
reads-Flows st (r ∷ rs) v =
    let f = stream_read-Flows st r v in
    Flows-append st (stream_read st r).1 (reads (stream_read st r).1 rs).1
      (answer_list (stream_read st r).0) (reads (stream_read st r).1 rs).0 f
      (reads-Flows (stream_read st r).1 rs f.0)

pub answer_running-Flows :
    (st : Stream) (r : Request)
    → IsSound st
    → let (a, st') = answer_running st r in Flows st (a ∷ [], st')
unfolding answer_running finish
answer_running-Flows st r v =
    ground (arith, v, take_bytes-Takes r st.buffer v.ring, append-nil (take_bytes r st.buffer).0)
