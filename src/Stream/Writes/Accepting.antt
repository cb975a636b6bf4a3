-- ===== src/Stream/Writes/Accepting.antt =====
-- What the functions of the writing side keep: the bytes that libuv got, then those that wait, grow only
-- at their end.
use ext_async.Prelude.{
  if_cases, ℕ, ◌≡◌, refl, sym, subst, ap, ◌∙◌, Bool, true, false, not, ◌&&◌, ◌||◌, List, [], ◌∷◌,
  ◌++◌, Option, none, some, arith, is_nil, take, drop, append-nil, append_assoc,
}
use ext_async.Stream.Buffering.{take-drop}
use ext_async.Stream.Writes.{
  WriteOp, Writer, Try, again, broken, sent, Request, Reply, Sent, try_write, started_now, write,
  writes_all, process_first, of_flush, settle,
}

-- The bytes that wait for libuv.
abbrev pub waiting : List WriteOp → List ℕ
waiting [] = []
waiting (op ∷ ops) = op.bytes ++ waiting ops

-- What libuv was given and will be given.
abbrev pub stream_of : Writer → List ℕ
stream_of w = w.handed ++ waiting w.writes

-- Nothing is left of an operation that is started.
abbrev pub is_clean : List WriteOp → Bool
is_clean [] = true
is_clean (op ∷ ops) = (not op.started || is_nil op.bytes) && is_clean ops

-- A step that accepts bytes puts them behind all others.
abbrev pub Accepts : Writer → List ℕ × Writer → Type 0
Accepts w (bs, w') = (is_clean w'.writes ≡ true) × (stream_of w' ≡ stream_of w ++ bs)

waiting-append_one :
    (ops : List WriteOp) (op : WriteOp) → waiting (ops ++ op ∷ []) ≡ waiting ops ++ op.bytes
waiting-append_one [] op = append-nil op.bytes
waiting-append_one (x ∷ xs) op =
    ap (◌++◌ x.bytes) (waiting-append_one xs op) ∙ sym (append_assoc x.bytes (waiting xs) op.bytes)

is_clean-append_one :
    (ops : List WriteOp) (op : WriteOp)
    → is_clean ops ≡ true
    → (not op.started || is_nil op.bytes) ≡ true
    → is_clean (ops ++ op ∷ []) ≡ true
is_clean-append_one [] op c h = ground (arith, h)
is_clean-append_one (x ∷ xs) op c h = ground (arith, c, h, is_clean-append_one xs op)

pub nil_lem : (xs : List ℕ) → is_nil xs ≡ true → xs ≡ []
nil_lem [] h = refl
nil_lem (x ∷ xs) h = absurd (ground (arith, h))

empty_lem : (ops : List WriteOp) → is_nil ops ≡ true → ops ≡ []
empty_lem [] h = refl
empty_lem (x ∷ xs) h = absurd (ground (arith, h))

-- The bytes that `uv_try_write` takes and leaves are the bytes of the write.
try_write-all : (bs : List ℕ) (ts : List Try) → (try_write bs ts).out ++ (try_write bs ts).rest ≡ bs
unfolding try_write
try_write-all bs [] = refl
try_write-all bs (again ∷ ts) = refl
try_write-all bs (broken code ∷ ts) = refl
try_write-all bs (sent n ∷ ts) =
    let more = try_write (drop n bs) ts in
    if_cases {A = Sent} (λ s. s.out ++ s.rest ≡ bs) (is_nil (drop n bs)) _ _
      (λ h. ap (◌++◌ (take n bs)) (sym (nil_lem (drop n bs) h)) ∙ take-drop n bs)
      (λ h.
        append_assoc (take n bs) more.out more.rest
        ∙ ap (◌++◌ (take n bs)) (try_write-all (drop n bs) ts)
        ∙ take-drop n bs)

pub Accepts-refl : (w : Writer) → is_clean w.writes ≡ true → Accepts w ([], w)
Accepts-refl w c = (c, sym (append-nil (stream_of w)))

pub Accepts-trans :
    (w w' w'' : Writer) (bs cs : List ℕ)
    → Accepts w (bs, w')
    → Accepts w' (cs, w'')
    → Accepts w (bs ++ cs, w'')
Accepts-trans w w' w'' bs cs (c, e) (c', e') =
    (c', e' ∙ ap (λ t. t ++ cs) e ∙ append_assoc (stream_of w) bs cs)

behind : (hs xs ws : List ℕ) → ws ≡ [] → (hs ++ xs) ++ ws ≡ (hs ++ ws) ++ xs
behind hs xs ws e =
    subst (λ t. (hs ++ xs) ++ t ≡ (hs ++ t) ++ xs) (sym e)
      (append-nil (hs ++ xs) ∙ ap (λ t. t ++ xs) (sym (append-nil hs)))

abbrev Answers : Writer → Reply × List ℕ × Writer → Type 0
Answers w (reply, bs, w') = Accepts w (bs, w')

started_now-Accepts :
    (w : Writer) (r : Request) (s : Sent) (o : Option ℕ)
    → w.writes ≡ []
    → is_clean w.writes ≡ true
    → s.out ++ s.rest ≡ r.bytes
    → Answers w (started_now w r s o)
started_now-Accepts w r s (some code) n c h =
    (c, behind w.handed s.out (waiting w.writes) (ap waiting n))
started_now-Accepts w r s none n c h =
    let op : WriteOp = record { id = r.id; bytes = []; started = true; async = r.async } in
    let all = ap (λ t. (w.handed ++ waiting w.writes) ++ t) h in
    if_cases (Answers w) (is_nil s.rest) _ _
      (λ k.
        let out : s.out ≡ r.bytes =
          sym (append-nil s.out) ∙ ap (◌++◌ s.out) (sym (nil_lem s.rest k)) ∙ h in
        (
          c,
          behind w.handed s.out (waiting w.writes) (ap waiting n)
              ∙ ap (◌++◌ (w.handed ++ waiting w.writes)) out,
        ))
      (λ k. (
        is_clean-append_one w.writes op c refl,
        ap (◌++◌ (w.handed ++ (s.out ++ s.rest)))
              (waiting-append_one w.writes op ∙ append-nil (waiting w.writes))
            ∙ behind w.handed (s.out ++ s.rest) (waiting w.writes) (ap waiting n)
            ∙ all,
      ))

pub write-Accepts : (w : Writer) (r : Request) → is_clean w.writes ≡ true → Answers w (write w r)
unfolding write
write-Accepts w r c =
    let op : WriteOp = record { id = r.id; bytes = r.bytes; started = false; async = r.async } in
    let s = try_write r.bytes r.tries in
    if_cases (Answers w) w.shut_wr _ _ (λ h. Accepts-refl w c)
      (λ h.
        if_cases (Answers w) (is_nil w.writes && not w.writing) _ _
          (λ k.
            started_now-Accepts w r s s.error (empty_lem w.writes (ground (arith, k))) c
              (try_write-all r.bytes r.tries))
          (λ k. (
            is_clean-append_one w.writes op c refl,
            ap (◌++◌ w.handed) (waiting-append_one w.writes op)
                ∙ sym (append_assoc w.handed (waiting w.writes) r.bytes),
          )))

pub writes_all-Accepts :
    (w : Writer) (rs : List Request) → is_clean w.writes ≡ true → Accepts w (writes_all w rs)
unfolding writes_all
writes_all-Accepts w [] c = Accepts-refl w c
writes_all-Accepts w (r ∷ rs) c =
    let (reply, bs, w') = write w r in
    let v = write-Accepts w r c in
    let (cs, w'') = writes_all w' rs in
    Accepts-trans w w' w'' bs cs v (writes_all-Accepts w' rs v.0)

-- Starting an operation moves its bytes from those that wait to those handed over.
pub process_first-Accepts :
    (w : Writer) (ops : List WriteOp)
    → is_clean ops ≡ true
    → Accepts (record w { writes = ops }) ([], process_first w ops)
unfolding process_first
process_first-Accepts w [] c = Accepts-refl (record w { writes = [] }) c
process_first-Accepts w (op ∷ ops) c =
    let w0 = record w { writes = op ∷ ops } in
    if_cases (λ t. Accepts w0 ([], t)) op.started _ _ (λ h. Accepts-refl w0 c)
      (λ h. (
        ground (arith, c),
        append_assoc w.handed op.bytes (waiting ops) ∙ sym (append-nil (stream_of w0)),
      ))

pub settle-Accepts :
    (w : Writer) (fs : List Request) → is_clean w.writes ≡ true → Accepts w (settle w fs)
unfolding settle
settle-Accepts w fs c =
    if_cases (Accepts w) (is_nil w.writes) _ _
      (λ h. writes_all-Accepts (record w { flush = [] }) (of_flush w.flush fs) c)
      (λ h. Accepts-refl w c)
