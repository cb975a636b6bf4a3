-- ===== src/Tests/Buffers.antt =====
-- A byte ring of four cells whose contents go round the end, and a full one.
use ext_async.Prelude.{◌≤◌, ◌≡◌, refl, [], ◌∷◌, some, arith, min, take, drop}
use ext_async.RingBuffer.{RingBuffer, read, write_len, write_move}
use ext_async.RingBuffer.Inv.{IsValid, contents, write_len_bounds}
use ext_async.RingBuffer.Reading.{read_lem}
use ext_async.RingBuffer.Writing.{store, write_move_lem}

abbrev wrapped : RingBuffer
wrapped = record { base = 12 ∷ 13 ∷ 10 ∷ 11 ∷ []; rpos = 3; wpos = 1; size = 4; len = 2 }

abbrev full : RingBuffer
full = record { base = 12 ∷ 13 ∷ 10 ∷ 11 ∷ []; rpos = 3; wpos = 3; size = 4; len = 4 }

wrapped-IsValid : IsValid wrapped
wrapped-IsValid = ground arith

full-IsValid : IsValid full
full-IsValid = ground arith

contents-wrapped : contents wrapped ≡ 11 ∷ 12 ∷ []
contents-wrapped = refl

read_lem_example :
    (b' : RingBuffer) × (read wrapped 5 ≡ some (take 5 (contents wrapped), min 5 2, b'))
    × IsValid b'
    × (contents b' ≡ drop 5 (contents wrapped))
read_lem_example = read_lem wrapped 5 wrapped-IsValid

room : 1 ≤ write_len wrapped
room = omega (arith, (write_len_bounds wrapped wrapped-IsValid).2 (omega arith))

write_move_lem_example :
    let b' = write_move (record wrapped { base = store wrapped.base wrapped.wpos (20 ∷ []) }) 1 in
    IsValid b' × (contents b' ≡ 11 ∷ 12 ∷ 20 ∷ [])
write_move_lem_example = write_move_lem wrapped (20 ∷ []) wrapped-IsValid room
