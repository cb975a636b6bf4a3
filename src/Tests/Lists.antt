-- ===== src/Tests/Lists.antt =====
-- Intrusive lists of three members.
use ext_async.Prelude.{ℕ, ◌≡◌, refl, List, [], ◌∷◌, none, some, arith, ◌==◌, if◌then◌else◌}
use ext_async.IntrusiveList.{Heap, Ends}
use ext_async.IntrusiveList.Linked.{Holds, Fresh}
use ext_async.IntrusiveList.Running.{
  Action, appends, prepends, extracts, removes, Acts, stops, adds_last, adds_first, takes_first,
  takes_out, run, run-Holds,
}

-- 1, 2 and 3 in this order; all else is in no list.
abbrev heap : Heap
heap a =
    if a == 1
    then record { prev = none; next = some 2 }
    else if a == 2
    then record { prev = some 1; next = some 3 }
    else if a == 3
    then record { prev = some 2; next = none }
    else record { prev = none; next = none }

abbrev ends : Ends
ends = record { first = some 1; last = some 3 }

abbrev members : List ℕ
members = 1 ∷ 2 ∷ 3 ∷ []

heap-Holds : Holds heap ends members
heap-Holds = ground arith

seven-Fresh : Fresh 7 members
seven-Fresh = ground arith

abbrev program : List Action
program = appends 7 ∷ extracts ∷ removes 3 ∷ prepends 8 ∷ []

program-Acts : Acts members program (some 1 ∷ []) (8 ∷ 2 ∷ 7 ∷ [])
program-Acts =
    adds_last members (8 ∷ 2 ∷ 7 ∷ []) 7 (extracts ∷ removes 3 ∷ prepends 8 ∷ []) (some 1 ∷ [])
      seven-Fresh
      (takes_first (2 ∷ 3 ∷ 7 ∷ []) (8 ∷ 2 ∷ 7 ∷ []) 1 (removes 3 ∷ prepends 8 ∷ []) [] (
        takes_out (2 ∷ 3 ∷ 7 ∷ []) (2 ∷ []) (7 ∷ []) (8 ∷ 2 ∷ 7 ∷ []) 3 (prepends 8 ∷ []) [] refl (
          adds_first (2 ∷ 7 ∷ []) (8 ∷ 2 ∷ 7 ∷ []) 8 [] [] (ground arith)
            (stops (8 ∷ 2 ∷ 7 ∷ [])))))

run-Holds_example :
    let (outs, h', q') = run heap ends program in
    (outs ≡ some 1 ∷ []) × Holds h' q' (8 ∷ 2 ∷ 7 ∷ [])
run-Holds_example =
    run-Holds heap ends members (8 ∷ 2 ∷ 7 ∷ []) program (some 1 ∷ []) program-Acts heap-Holds
