-- ===== src/Buffer/State.antt =====
-- What `buffer` stands on: the memory, the pool, the class-wide switch and counters.
use socle.MemPool
use socle.Prelude.{ℕ, Bool, ltb, if◌then◌else◌, add_u64}
use socle.MemPool.{MemPool, acquire, release}
use socle.MemPool.Buckets.{new_array, delete_array, Chunk}
use socle.Memory.{Memory}

pub record Buffer : Type 0 where
  pub data_ : ℕ
  pub size_ : ℕ
  pub capacity_ : ℕ
  pub free_ : Bool

-- `use_pool`, `alloc_bytes` and the rest are the static members of `buffer`.
pub record World : Type 0 where
  pub mem : Memory
  pub pool : MemPool
  pub use_pool : Bool
  pub alloc_bytes : ℕ
  pub alloc_count : ℕ
  pub free_bytes : ℕ
  pub free_count : ℕ

unfoldable pub counter_alloc : World → ℕ → World
counter_alloc w s =
    if ltb 0 s
    then record w { alloc_bytes = add_u64 w.alloc_bytes s; alloc_count = add_u64 w.alloc_count 1 }
    else w

unfoldable pub counter_free : World → ℕ → World
counter_free w s =
    if ltb 0 s
    then record w { free_bytes = add_u64 w.free_bytes s; free_count = add_u64 w.free_count 1 }
    else w

-- `memPool::pool().acquire(s)`
unfoldable pub pool_acquire : World → ℕ → Chunk × World
pool_acquire w s = let (c, p) = MemPool.acquire w.pool s in (c, record w { pool = p })

-- `memPool::pool().release(c)`
unfoldable pub pool_release : World → Chunk → World
pool_release w c = record w { pool = MemPool.release w.pool c }

-- `new unsigned char[s]`
unfoldable pub new_bytes : World → ℕ → ℕ × World
new_bytes w s =
    let (d, h) = new_array w.pool.heap s in (d, record w { pool = record w.pool { heap = h } })

-- `delete[] d`
unfoldable pub delete_bytes : World → ℕ → World
delete_bytes w d = record w { pool = record w.pool { heap = delete_array w.pool.heap d } }

-- The two ways of `capacity(size_type)` and of the constructors to get at least `c` bytes: the
-- pointer, the capacity, and the world after it.
unfoldable pub fresh_memory : World → ℕ → ℕ × ℕ × World
fresh_memory w c =
    if w.use_pool
    then (let (mch, w') = pool_acquire w c in (mch.ptr, mch.capacity, w'))
    else (let (d, w') = new_bytes w c in (d, c, counter_alloc w' c))
