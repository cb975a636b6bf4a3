-- ===== src/IntrusiveList.antt =====
-- php_async.h, the ASYNC_LIST_* macros: doubly linked lists through the `prev` and `next` pointers
-- of their members. An address is a number and NULL is `none`; the heap is total, since the macros
-- follow no pointer that is NULL.
pub mod Linked
pub mod Laws
pub mod Removing
pub mod Running
use ext_async.Prelude.{ℕ, Bool, Option, none, some, ◌==◌, if◌then◌else◌}

-- The pointer fields of a list member.
pub record Links : Type 0 where
  pub prev : Option ℕ
  pub next : Option ℕ

abbrev pub Heap : Type 0
Heap = ℕ → Links

-- The two ends of a list: `async_op_list` and the anonymous structs of its kind.
pub record Ends : Type 0 where
  pub first : Option ℕ
  pub last : Option ℕ

abbrev pub set_prev : Heap → ℕ → Option ℕ → Heap
set_prev h p x a = if a == p then record (h a) { prev = x } else h a

abbrev pub set_next : Heap → ℕ → Option ℕ → Heap
set_next h p x a = if a == p then record (h a) { next = x } else h a

-- `p == v` for pointers, the left one perhaps NULL.
abbrev pub points_to : Option ℕ → ℕ → Bool
points_to p v = elim p [ none ↦ Bool.false | some a ↦ a == v ]

pub append : Heap → Ends → ℕ → Heap × Ends
append h q v = elim q.last [
  | none ↦ (set_prev (set_next h v none) v none, record { first = some v; last = some v })
  | some l ↦
      (set_next (set_prev (set_next h v none) v (some l)) l (some v), record q { last = some v })
]

pub prepend : Heap → Ends → ℕ → Heap × Ends
prepend h q v = elim q.first [
  | none ↦ (set_next (set_prev h v none) v none, record { first = some v; last = some v })
  | some f ↦
      (set_prev (set_next (set_prev h v none) v (some f)) f (some v), record q { first = some v })
]

-- `if ((q)->first != NULL) (q)->first->prev = NULL`
abbrev pub clear_prev : Heap → Option ℕ → Heap
clear_prev h p = elim p [ none ↦ h | some a ↦ set_prev h a none ]

abbrev pub clear_next : Heap → Option ℕ → Heap
clear_next h p = elim p [ none ↦ h | some a ↦ set_next h a none ]

abbrev pub detach : Heap → ℕ → Heap
detach h v = set_next (set_prev h v none) v none

-- The extracted address is `none` on the empty list.
pub extract_first : Heap → Ends → Option ℕ × Heap × Ends
extract_first h q = elim q.first [
  | none ↦ (none, h, q)
  | some v ↦ (
    some v,
    detach (clear_prev h (h v).next) v,
    record { first = (h v).next; last = if points_to q.last v then none else q.last },
  )
]

pub extract_last : Heap → Ends → Option ℕ × Heap × Ends
extract_last h q = elim q.last [
  | none ↦ (none, h, q)
  | some v ↦ (
    some v,
    detach (clear_next h (h v).prev) v,
    record { first = if points_to q.first v then none else q.first; last = (h v).prev },
  )
]

-- `v->prev->next = v->next`, if there is a predecessor.
abbrev pub bypass_next : Heap → ℕ → Heap
bypass_next h v = elim (h v).prev [ none ↦ h | some p ↦ set_next h p (h v).next ]

-- `v->next->prev = v->prev`, if there is a successor.
abbrev pub bypass_prev : Heap → ℕ → Heap
bypass_prev h v = elim (h v).next [ none ↦ h | some n ↦ set_prev h n (h v).prev ]

pub remove : Heap → Ends → ℕ → Heap × Ends
remove h q v =
    let h' = bypass_prev (bypass_next h v) v in
    (
      detach h' v,
      record {
        first = if points_to q.first v then (h' v).next else q.first;
        last = if points_to q.last v then (h' v).prev else q.last;
      },
    )
