-- ===== src/Hooks/Tests.antt =====
-- The theorems on reallocation at a small pool.
use socle.MemPool
use socle.Prelude.{ℕ, ◌%◌, ◌≡◌, refl, true}
use socle.Buffer.State.{World}
use socle.Hooks.{HookStats}
use socle.MemPool.{
  MemPool, pick_bucket, find_by_address, find_ptr_size, from_heap, acquire_from, acquire_large,
  acquire,
}
use socle.MemPool.Buckets.{stockpile, init_memory, is_mine, bucket_acquire}
use socle.MemPool.Setup.{init_members, counts, allocate, unallocated}

-- Everything that a run computes with.
program : Unit {0}
unfolding MemPool.acquire allocate init_members counts init_memory stockpile pick_bucket
    acquire_from acquire_large bucket_acquire is_mine find_by_address find_ptr_size from_heap
program = tt

abbrev small_pool : MemPool
small_pool = allocate (unallocated 0) 1 1 1 1 1

abbrev world : World
world = record {
  mem = λ a. a % 256;
  pool = (MemPool.acquire small_pool 40).1;
  use_pool = true;
  alloc_bytes = 0;
  alloc_count = 0;
  free_bytes = 0;
  free_count = 0;
}

abbrev no_calls : HookStats
no_calls = record {
  alloc = 0;
  alloc_size = 0;
  realloc = 0;
  realloc_miss = 0;
  realloc_fitting = 0;
  free = 0;
  free_miss = 0;
  free_size = 0;
}

abbrev block : ℕ
block = (MemPool.acquire small_pool 40).0.ptr

unknown : find_ptr_size world.pool 5_000_000 ≡ 0
unfolding program
unknown = refl
