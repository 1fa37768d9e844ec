-- ===== src/MemPool.antt =====
-- common/mempool/mempool.hpp and common/mempool/mempool.cpp in the default build (neither
-- MEMPOOL_DEBUG nor MEMPOOL_ALL nor MEMPOOL_DISABLE is defined, so the canary has no bytes).
-- Locks are left out: each function is one step. Statistics wrap at 64 bits.
pub mod Buckets
pub mod Pick
pub mod Cases
pub mod Ranges
pub mod Places
pub mod Release
pub mod Acquire
pub mod Setup
pub mod Intact
use socle.Prelude.{
  ℕ, suc, ◌+◌, ◌*◌, Bool, true, false, List, [], ◌∷◌, Option, none, some, ltb, leb, ◌==◌,
  if◌then◌else◌, not, ◌||◌, set, get_elem?, add_u64,
}
use Buckets.{
  Chunk, Bucket, Heap, PoolType, heap_type, pool_type, new_array, delete_array, is_mine,
  bucket_acquire, bucket_release, init_memory, null_chunk,
}

-- `stats_t`. `heap_free` and `heap_free_size` are written nowhere.
pub record Stats : Type 0 where
  pub acq : ℕ
  pub acq_size : ℕ
  pub ret : ℕ
  pub ret_size : ℕ
  pub heap_alloc : ℕ
  pub heap_alloc_size : ℕ
  pub out_free : ℕ
  pub out_free_size : ℕ
  pub out_pool_miss : ℕ
  pub out_pool_miss_size : ℕ

-- The set of buckets is ordered by their addresses, which is the order of the members
-- `bucket_32` .. `bucket_50k`: a list, and a `Bucket*` is an index into it.
pub record MemPool : Type 0 where
  pub heap : Heap
  pub buckets : List Bucket
  pub stats : Stats
  pub bailing : Bool

unfoldable pub pick_bucket : ℕ → Option ℕ
pick_bucket s =
    if ltb (50 * 1024) s
    then none
    else if leb s 32
    then some 0
    else if leb s 1024
    then (if ltb 256 s
        then some 4
        else if ltb 128 s
        then some 3
        else if ltb 64 s
        then some 2
        else if ltb 32 s
        then some 1
        else none)
    else (if ltb (35 * 1024) s
        then some 9
        else if ltb (20 * 1024) s
        then some 8
        else if ltb (10 * 1024) s
        then some 7
        else if ltb (5 * 1024) s
        then some 6
        else if ltb 1024 s
        then some 5
        else none)

unfoldable pub find_by_address : List Bucket → ℕ → Option (ℕ × Bucket)
find_by_address [] ptr = none
find_by_address (b ∷ bs) ptr =
    let rest : Option (ℕ × Bucket) = elim (find_by_address bs ptr) [
      | none ↦ none
      | some (i, c) ↦ some (suc i, c)
    ] in
    if is_mine b ptr then some (0, b) else rest

unfoldable pub find_ptr_size : MemPool → ℕ → ℕ
find_ptr_size p ptr = elim (find_by_address p.buckets ptr) [ none ↦ 0 | some (i, b) ↦ b.sz ]

-- The loop of `tryhard_available`, with its counter.
unfoldable pub tryhard_from : ℕ → ℕ → List Bucket → Option (Chunk × List Bucket)
tryhard_from level s [] = none
tryhard_from level s (b ∷ bs) =
    let rest : Option (Chunk × List Bucket) = elim (tryhard_from (suc level) s bs) [
      | none ↦ none
      | some (c, cs) ↦ some (c, b ∷ cs)
    ] in
    if ltb 3 level
    then none
    else if leb s b.sz
    then elim (bucket_acquire b) [ none ↦ rest | some (c, b') ↦ some (c, b' ∷ bs) ]
    else rest

unfoldable pub tryhard_available : ℕ → List Bucket → Option (Chunk × List Bucket)
tryhard_available s bs = tryhard_from 1 s bs

unfoldable pub from_heap : MemPool → ℕ → Chunk × MemPool
from_heap p s =
    let (ptr, heap) = new_array p.heap s in
    (
      record { ptr = ptr; capacity = s; in_pool = false; origin = heap_type },
      record p {
        heap = heap;
        stats = record stats {
          heap_alloc = add_u64 stats.heap_alloc 1;
          heap_alloc_size = add_u64 stats.heap_alloc_size s;
        };
      },
    )
  where
    open p use {stats}

unfoldable pub free_heap : MemPool → Chunk → MemPool
free_heap p c = record p {
  heap = delete_array p.heap c.ptr;
  stats = record stats {
    out_free = add_u64 stats.out_free 1;
    out_free_size = add_u64 stats.out_free_size c.capacity;
  };
}
  where
    open p use {stats}

-- `stats.acq++; stats.acq_size += capacity`
unfoldable pub count_acquired : Stats → ℕ → Stats
count_acquired st c = record st { acq = add_u64 st.acq 1; acq_size = add_u64 st.acq_size c }

-- the bucket that `pick_bucket` chose
unfoldable pub acquire_from : MemPool → ℕ → ℕ → Option Bucket → Chunk × MemPool
acquire_from p sz i none = from_heap p sz
acquire_from p sz i (some b) = elim (bucket_acquire b) [
  | none ↦ from_heap p sz
  | some (c, b') ↦ (
    record c { in_pool = false; origin = pool_type },
    record p { buckets = set p.buckets i b'; stats = count_acquired p.stats c.capacity },
  )
]

unfoldable pub acquire_large : MemPool → ℕ → Chunk × MemPool
acquire_large p sz = elim (tryhard_available sz p.buckets) [
  | none ↦ from_heap p sz
  | some (c, bs) ↦ (c, record p { buckets = bs; stats = count_acquired p.stats c.capacity })
]

unfoldable pub acquire : MemPool → ℕ → Chunk × MemPool
acquire p sz = if sz == 0 then (null_chunk, p) else elim (pick_bucket sz) [
  | none ↦ acquire_large p sz
  | some i ↦ acquire_from p sz i (get_elem? p.buckets i)
]

unfoldable pub count_missed : Stats → ℕ → Stats
count_missed st c = record st {
  out_pool_miss = add_u64 st.out_pool_miss 1;
  out_pool_miss_size = add_u64 st.out_pool_miss_size c;
}

unfoldable pub release_pooled : MemPool → Chunk → Option (ℕ × Bucket) → MemPool
release_pooled p c none = free_heap (record p { stats = count_missed p.stats c.capacity }) c
release_pooled p c (some (i, b)) = record p {
  stats = record stats { ret = add_u64 stats.ret 1; ret_size = add_u64 stats.ret_size b.sz };
  buckets = set p.buckets i (bucket_release b c);
}
  where
    open p use {stats}

unfoldable pub release : MemPool → Chunk → MemPool
release p c = if c.ptr == 0 then p else if p.bailing then p else elim c.origin [
  | heap_type ↦ free_heap p c
  | pool_type ↦ release_pooled p c (find_by_address p.buckets c.ptr)
]
