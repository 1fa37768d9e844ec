-- ===== src/Ltv/Search.antt =====
-- `search`, and `unpack` of a container whose payload is too short for a length.
use socle.Prelude.{
  ℕ, zero, suc, ◌+◌, ◌-◌, ◌^◌, ◌≤◌, ◌<◌, ◌≡◌, ap, ◌∙◌, false, Option, none, some, List, [], ◌∷◌,
  ◌++◌, arith, ◌==◌, if◌then◌else◌, length,
}
use socle.Ltv.{
  LtvEntry, ltv_entry, Entries, nil, cons, cont, id, contains, new_entry, be32, dig, unpack_fuel,
  unpack,
}
use socle.Ltv.Format.{Holds}
use socle.Ltv.Steps.{unpack_fuel-whole, header, unpack_contents-node, dig-last}
use socle.MemPool.Buckets.{Heap}
use socle.Memory.{Memory}

abbrev pub find_id : Entries → ℕ → Option LtvEntry
find_id nil i = none
find_id (cons e es) i = if id e == i then some e else find_id es i

-- The loop of `search`: the children are those of the entry that is searched, in each round.
unfoldable pub search_from : LtvEntry → LtvEntry → List ℕ → Option LtvEntry
search_from this current [] = some current
search_from this current (path_element ∷ path) = elim (find_id (contains this) path_element) [
  | some ltve ↦ search_from this ltve path
  | none ↦ none
]

unfoldable pub search : LtvEntry → List ℕ → Option LtvEntry
search this path = search_from this this path

-- `search` never goes down: where the first element of a path names a child, a path with more
-- elements finds what the path without its first element finds, among the same children.
pub search_stays :
    (e l : LtvEntry) (p q : ℕ) (path : List ℕ)
    → find_id (contains e) p ≡ some l
    → search e (p ∷ q ∷ path) ≡ search e (q ∷ path)
unfolding search search_from
search_stays e l p q path h =
    ap (λ o. elim o [ some ltve ↦ search_from e ltve (q ∷ path) | none ↦ none ]) h

-- A container with one to three bytes after its header: `unpack` of the rest fails with -1, which is
-- taken for the number of bytes that were read, and the container gets an empty sub-entry.
pub unpack_short :
    (m : Memory) (h : Heap) (a i buflen : ℕ) (bs : List ℕ)
    → 0 < length bs
    → length bs < 4
    → Holds m a (be32 (6 + length bs) ++ i ∷ cont ∷ bs)
    → 6 + length bs ≤ buflen
    → unpack (new_entry false) (m, h) a buflen ≡ (
      6 + length bs,
      ltv_entry (6 + length bs) i cont a false (cons (new_entry false) nil),
      (m, h),
    )
unfolding unpack
unpack_short m h a i zero bs p q ho le = absurd (omega arith)
unpack_short m h a i (suc buflen) bs p q ho le =
    let n = length bs in
    let sub = unpack_fuel (suc buflen) (new_entry false) in
    let (el, ei, et, rest) = header m a (6 + n) i cont bs (omega arith) ho in
    unpack_fuel-whole (suc buflen) m h a (suc buflen) (6 + n) i cont (omega arith) (omega arith) el
      ei et
    ∙ ap (λ x. (6 + n, ltv_entry (6 + n) i cont a false x.0, x.1))
        (unpack_contents-node sub (m, h) n a p ∙ short n p q)
  where
    sub_fails :
        (n : ℕ)
        → n < 4
        → unpack_fuel (suc buflen) (new_entry false) (m, h) (a + 6 + 0) n
          ≡ (2 ^ 32 - 1, new_entry false, (m, h))
    sub_fails n q = unfold unpack_fuel in ground arith

    short :
        (n : ℕ)
        → 0 < n
        → n < 4
        → dig (unpack_fuel (suc buflen) (new_entry false)) n (m, h) (a + 6) 0 n nil
          ≡ (cons (new_entry false) nil, (m, h))
    short zero p q = absurd (omega arith)
    short (suc k) p q =
        dig-last (unpack_fuel (suc buflen) (new_entry false)) k (a + 6) 0 (suc k) (2 ^ 32 - 1)
          (m, h) (m, h) nil (new_entry false) (sub_fails (suc k) q) (omega arith) (omega arith)
          (omega arith)
