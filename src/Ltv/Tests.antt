-- ===== src/Ltv/Tests.antt =====
-- The theorems on entries at a small container.
use socle.Prelude.{true, [], ◌∷◌, ◌++◌}
use socle.Ltv.{LtvEntry, ltv_entry, nil, cons, cont, be32}
use socle.Ltv.Format.{Tree, leaf, node, Trees, no_trees, and_trees, encode, Holds, write-Holds}
use socle.MemPool.Buckets.{Heap}
use socle.Memory.{Memory, write}

abbrev greeting : Tree
greeting = leaf 7 5 (104 ∷ 105 ∷ [])

abbrev subtrees : Trees
subtrees = and_trees greeting (and_trees (node 8 no_trees) no_trees)

abbrev message : Tree
message = node 1 subtrees

abbrev no_heap : Heap
no_heap = record { brk = 1000; freed = [] }

abbrev wire : Memory
wire = write (λ a. 0) 500 (encode message)

-- A scalar at 100, an empty container at 150, and the container of both at 200.
abbrev heap_bytes : Memory
unfolding write
heap_bytes =
    write (write (write (λ a. 0) 100 (encode greeting)) 150 (9 ∷ 9 ∷ 9 ∷ 9 ∷ 8 ∷ 6 ∷ [])) 200
      (9 ∷ 9 ∷ 9 ∷ 9 ∷ 1 ∷ 6 ∷ [])

abbrev entry : LtvEntry
entry =
    ltv_entry 6 1 6 200 true
      (cons (ltv_entry 8 7 5 100 true nil) (cons (ltv_entry 6 8 6 150 true nil) nil))

abbrev short_wire : Memory
short_wire = write (λ a. 0) 500 (be32 8 ++ 1 ∷ cont ∷ 1 ∷ 2 ∷ [])

short_wire-Holds : Holds short_wire 500 (be32 8 ++ 1 ∷ cont ∷ 1 ∷ 2 ∷ [])
short_wire-Holds = write-Holds (λ a. 0) 500 (be32 8 ++ 1 ∷ cont ∷ 1 ∷ 2 ∷ [])
