-- ===== src/Buffer/Tests.antt =====
-- The theorems on the pool and the buffer at a small pool, and runs of the code.
use socle.MemPool
use socle.Prelude.{
  ◌%◌, ◌≤◌, ◌≡◌, refl, true, false, [], ◌∷◌, ◌++◌, map, arith, length, drop, length-append,
  length-drop,
}
use socle.Buffer.{npos, dealloc, assign_grow, assign, memchr, find, rfind_from, rfind, str}
use socle.Buffer.Construct.{make_copy}
use socle.Buffer.Copying.{Made, make_copy-Made, shorter-IsHeld}
use socle.Buffer.Frame.{IsValid}
use socle.Buffer.Refine.{
  run, appends, flushes, fills, reserves, resizes, run_list, size-length, run-refines,
}
use socle.Buffer.State.{Buffer, World, pool_acquire, pool_release, fresh_memory}
use socle.MemPool.{
  MemPool, pick_bucket, find_by_address, from_heap, acquire_from, acquire_large, acquire,
  release_pooled, release,
}
use socle.MemPool.Acquire.{Serves, acquire-Serves}
use socle.MemPool.Buckets.{
  pool_type, Chunk, stockpile, init_memory, is_mine, bucket_acquire, bucket_release,
}
use socle.MemPool.Pick.{chunk_sizes}
use socle.MemPool.Places.{IsWell}
use socle.MemPool.Ranges.{IsHeld}
use socle.MemPool.Release.{TakesBack, release-TakesBack}
use socle.MemPool.Setup.{init_members, counts, allocate, unallocated, Fit, allocate-IsWell}
use socle.Memory.{read}

-- Everything that a run computes with.
program : Unit {0}
unfolding MemPool.acquire MemPool.release allocate init_members counts init_memory stockpile
    pick_bucket acquire_from acquire_large bucket_acquire bucket_release is_mine find_by_address
    release_pooled from_heap assign assign_grow dealloc pool_acquire pool_release make_copy
    fresh_memory
program = tt

-- One chunk of each larger size; 16, 8 and 4 of the small ones.
abbrev small_pool : MemPool
small_pool = allocate (unallocated 0) 1 1 1 1 1

small-Fit : Fit chunk_sizes (counts 1 1 1 1 1)
unfolding counts
small-Fit = omega arith

small-IsWell : IsWell small_pool
small-IsWell = (allocate-IsWell 0 1 1 1 1 1 small-Fit).0

allocate-IsWell_example :
    IsWell small_pool × (map (λ b. length b.bucket) small_pool.buckets ≡ counts 1 1 1 1 1)
allocate-IsWell_example = allocate-IsWell 0 1 1 1 1 1 small-Fit

acquire-Serves_example : Serves small_pool 40 (MemPool.acquire small_pool 40)
acquire-Serves_example = acquire-Serves small_pool 40 small-IsWell (omega arith)

-- Somebody holds a chunk, and a buffer holds a copy of the chunk's first three bytes.
abbrev source : Chunk
source = (MemPool.acquire small_pool 40).0

abbrev first_world : World
first_world = record {
  mem = λ a. a % 256;
  pool = (MemPool.acquire small_pool 40).1;
  use_pool = true;
  alloc_bytes = 0;
  alloc_count = 0;
  free_bytes = 0;
  free_count = 0;
}

source-IsHeld : IsHeld first_world.pool source.ptr source.capacity
source-IsHeld = acquire-Serves_example.held

release-TakesBack_example :
    TakesBack first_world.pool source (MemPool.release first_world.pool source)
release-TakesBack_example =
    release-TakesBack first_world.pool source acquire-Serves_example.well source-IsHeld
      acquire-Serves_example.fits

source-runs : source ≡ record { ptr = 962; capacity = 64; in_pool = false; origin = pool_type }
unfolding program
source-runs = refl

short-IsHeld : IsHeld first_world.pool source.ptr 3
short-IsHeld =
    shorter-IsHeld first_world.pool source.ptr source.capacity 3
      (omega (arith, acquire-Serves_example.enough)) source-IsHeld

abbrev copied : World × Buffer
copied = make_copy first_world source.ptr 3

copied-Made : Made first_world copied.0 copied.1
copied-Made = (make_copy-Made first_world source.ptr 3 acquire-Serves_example.well short-IsHeld).0

copied-size : length (str copied.0 copied.1) ≡ 3
unfolding make_copy fresh_memory
copied-size = size-length copied.0 copied.1

run-refines_example :
    let (w', b') =
      run copied (appends source.ptr 3 ∷ flushes 2 ∷ reserves 1000 ∷ resizes 1 ∷ fills 7 ∷ []) in
    IsWell w'.pool
    × IsValid w' b'
    × (str w' b'
        ≡ run_list copied.0.mem
            (str copied.0 copied.1)
            (appends source.ptr 3 ∷ flushes 2 ∷ reserves 1000 ∷ resizes 1 ∷ fills 7 ∷ []))
run-refines_example =
    let (held, apart, bytes) = copied-Made.others source.ptr 3 short-IsHeld in
    let before = str copied.0 copied.1 in
    let added = read copied.0.mem source.ptr 3 in
    let enough : 1 ≤ length (drop 2 (before ++ added)) =
      omega (arith, copied-size, length-drop 2 (before ++ added), length-append before added) in
    run-refines copied.0 copied.1
      (appends source.ptr 3 ∷ flushes 2 ∷ reserves 1000 ∷ resizes 1 ∷ fills 7 ∷ []) copied-Made.well
      copied-Made.valid ((held, apart, omega (arith, copied-size)), (tt, (tt, (enough, (tt, tt)))))

abbrev pooled_world : World
pooled_world = record first_world { pool = small_pool }

abbrev four : Buffer
four = record { data_ = 2000; size_ = 4; capacity_ = 8; free_ = true }

finds :
    (find first_world four 210 1 ≡ 2)
    × (rfind first_world four 208 9 ≡ 0)
    × (find first_world four 7 0 ≡ npos)
unfolding find memchr rfind rfind_from
finds = (refl, refl, refl)
