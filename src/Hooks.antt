-- ===== src/Hooks.antt =====
-- The functions that stand in for malloc, realloc and free: mempool_alloc, mempool_realloc and
-- mempool_free of common/mempool/mempool.cpp, in the default build. C's own functions are
-- parameters where they move bytes, and take memory from the same heap where they do not.
pub mod Realloc
mod Tests
use socle.MemPool
use socle.Prelude.{
  ℕ, Bool, not, ◌&&◌, ◌||◌, Option, none, some, leb, ◌==◌, if◌then◌else◌, add_u64, sub_u64,
}
use socle.Buffer.State.{World, pool_acquire, pool_release, new_bytes, delete_bytes}
use socle.MemPool.{find_ptr_size}
use socle.MemPool.Buckets.{heap_type, Chunk, mem_chunk}
use socle.Memory.{memcpy}

-- the counters of `mp_stats` that the three functions change
pub record HookStats : Type 0 where
  pub alloc : ℕ
  pub alloc_size : ℕ
  pub realloc : ℕ
  pub realloc_miss : ℕ
  pub realloc_fitting : ℕ
  pub free : ℕ
  pub free_miss : ℕ
  pub free_size : ℕ

-- What a call yields: a pointer, the world, the counters.
abbrev pub Result : Type 0
Result = ℕ × World × HookStats

-- With a null chunk, which the pool returns for 0 bytes only, an exception is thrown.
unfoldable pub mempool_alloc : World → HookStats → ℕ → Option Result
mempool_alloc w st s =
    if not w.use_pool || w.pool.bailing
    then (let (d, w') = new_bytes w s in some (d, w', st))
    else (let (mch, w') = pool_acquire w s in
        if mch.ptr == 0
        then none
        else some (
          mch.ptr,
          w',
          record st { alloc = add_u64 st.alloc 1; alloc_size = add_u64 st.alloc_size s },
        ))

-- the counters at the end of `mempool_realloc`: the growth is added to the number of calls
abbrev count_realloc : HookStats → ℕ → ℕ → ℕ → HookStats
count_realloc st optr ptr_size capacity = record st {
  realloc = add_u64 (add_u64 st.realloc 1) (sub_u64 capacity ptr_size);
  realloc_miss =
      if not (optr == 0) && ptr_size == 0 then add_u64 st.realloc_miss 1 else st.realloc_miss;
}

-- the part of `mempool_realloc` with a new chunk: the copy, and the old chunk's release
unfoldable pub move_chunk : World → ℕ → ℕ → ℕ → Chunk → World
move_chunk w optr ptr_size nsz new_m =
    if optr == 0
    then w
    else (let w' = if ptr_size == 0 then w else record w {
      mem = memcpy w.mem new_m.ptr optr (if leb nsz ptr_size then nsz else ptr_size);
    } in
        pool_release w' (mem_chunk optr ptr_size))

-- `libc_realloc` is C's `realloc`, and `heap_on_tension` a static member of `memPool`.
unfoldable pub mempool_realloc :
    (World → ℕ → ℕ → ℕ × World) → Bool → World → HookStats → ℕ → ℕ → Result
mempool_realloc libc_realloc heap_on_tension w st optr nsz =
    if not w.use_pool
    then (let (d, w') = libc_realloc w optr nsz in (d, w', st))
    else if w.pool.bailing
    then (let (d, w') = new_bytes w nsz in (d, w', st))
    else (let ptr_size = if optr == 0 then 0 else find_ptr_size w.pool optr in
        if leb nsz ptr_size
        then (optr, w, record st { realloc_fitting = add_u64 st.realloc_fitting 1 })
        else (let (new_m, w') = pool_acquire w nsz in
            if new_m.ptr == 0
            then (let w'' = pool_release w' (mem_chunk optr ptr_size) in
                let (d, w''') = if heap_on_tension then new_bytes w'' nsz else (0, w'') in
                (
                  d,
                  w''',
                  record st {
                    realloc_miss =
                        if not (optr == 0) && ptr_size == 0
                        then add_u64 st.realloc_miss 1
                        else st.realloc_miss;
                  },
                ))
            else (
              new_m.ptr,
              move_chunk w' optr ptr_size nsz new_m,
              count_realloc st optr ptr_size new_m.capacity,
            )))

unfoldable pub mempool_free : World → HookStats → ℕ → World × HookStats
mempool_free w st optr =
    if w.pool.bailing
    then (w, st)
    else if not w.use_pool
    then (delete_bytes w optr, st)
    else (let ptr_size = find_ptr_size w.pool optr in
        let freed = record st {
          free = add_u64 st.free 1;
          free_size = add_u64 st.free_size ptr_size;
        } in
        if ptr_size == 0
        then (
          pool_release w (record (mem_chunk optr ptr_size) { origin = heap_type }),
          record freed { free_miss = add_u64 st.free_miss 1 },
        )
        else (pool_release w (mem_chunk optr ptr_size), freed))
