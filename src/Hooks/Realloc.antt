-- ===== src/Hooks/Realloc.antt =====
-- `mempool_realloc` of memory from the pool, and of memory that is not from the pool.
use socle.MemPool
use socle.Prelude.{ℕ, ◌<◌, ◌≡◌, refl, ap, ◌∙◌, Bool, true, false, arith}
use socle.Buffer.State.{World, pool_acquire, pool_release}
use socle.Hooks.{HookStats, move_chunk, mempool_realloc}
use socle.MemPool.{MemPool, find_ptr_size, acquire}
use socle.MemPool.Acquire.{acquire-Serves}
use socle.MemPool.Places.{IsWell}
use socle.MemPool.Ranges.{IsHeld}
use socle.Memory.{read, Apart}

-- The call that takes a new chunk.
mempool_realloc-moves :
    (libc : World → ℕ → ℕ → ℕ × World) (tension : Bool) (w : World) (st : HookStats) (optr nsz : ℕ)
    → w.use_pool ≡ true
    → w.pool.bailing ≡ false
    → 0 < optr
    → find_ptr_size w.pool optr < nsz
    → 0 < (pool_acquire w nsz).0.ptr
    → let (d, w', st') = mempool_realloc libc tension w st optr nsz in
      let (c, w₁) = pool_acquire w nsz in
      (d ≡ c.ptr) × (w' ≡ move_chunk w₁ optr (find_ptr_size w.pool optr) nsz c)
unfolding mempool_realloc
mempool_realloc-moves libc tension w st optr nsz m b o s n = ground arith

-- What `mempool_realloc` does with a block of `k` bytes: see `mempool_realloc-Moved`.
pub record Moved (w : World) (optr k nsz : ℕ) (d : ℕ) (w' : World) : Type 0 where
  pub well : IsWell w'.pool
  pub not_null : 0 < d
  pub held : IsHeld w'.pool d nsz
  pub bytes : read w'.mem d k ≡ read w.mem optr k
  pub others :
      (q n : ℕ)
      → IsHeld w.pool q n
      → Apart q n optr k
      → IsHeld w'.pool q n × Apart q n d nsz × (read w'.mem q n ≡ read w.mem q n)

pool_acquire-mem : (w : World) (n : ℕ) → (pool_acquire w n).1.mem ≡ w.mem
unfolding pool_acquire
pool_acquire-mem w n = refl

-- In pool mode and on a well-formed pool, `mempool_realloc` of a block whose address the pool does
-- not know returns the block that the pool gives for the new size, and no byte of the memory has
-- changed: the contents of the old block are not copied.
pub mempool_realloc_unknown :
    (libc : World → ℕ → ℕ → ℕ × World) (tension : Bool) (w : World) (st : HookStats) (optr nsz : ℕ)
    → w.use_pool ≡ true
    → w.pool.bailing ≡ false
    → IsWell w.pool
    → 0 < optr
    → find_ptr_size w.pool optr ≡ 0
    → 0 < nsz
    → let (d, w', st') = mempool_realloc libc tension w st optr nsz in
      (d ≡ (MemPool.acquire w.pool nsz).0.ptr) × (w'.mem ≡ w.mem)
unfolding move_chunk pool_acquire pool_release
mempool_realloc_unknown libc tension w st optr nsz m b v o k lt =
    let s = acquire-Serves w.pool nsz v lt in
    let (ed, ew) =
      mempool_realloc-moves libc tension w st optr nsz m b o (omega (arith, k)) s.not_null in
    (ed, ap (λ x. x.mem) ew ∙ ground (arith, k))
