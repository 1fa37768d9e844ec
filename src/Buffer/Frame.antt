-- ===== src/Buffer/Frame.antt =====
-- When a buffer is valid in a world, and what the steps that allocate leave alone.

-- The pool can take the memory of the buffer back, if the buffer owns any.
use socle.Prelude.{
  ℕ, ◌≤◌, ◌<◌, ◌≡◌, refl, ◌∙◌, ◌⊎◌, inl, Bool, true, false, arith, ltb, if◌then◌else◌, add_u64,
}
use socle.Buffer.State.{Buffer, World, counter_alloc, pool_acquire, new_bytes, fresh_memory}
use socle.MemPool.{MemPool, find_ptr_size}
use socle.MemPool.Acquire.{acquire-Serves}
use socle.MemPool.Buckets.{Heap, mem_chunk}
use socle.MemPool.Places.{find_ptr_size-eq-size_at, size_at_above, heap-IsPlaced, Fits, IsWell}
use socle.MemPool.Ranges.{IsHeld, All-imp}
use socle.Memory.{read, Apart}

abbrev pub IsGivable : World → Buffer → Type 0
IsGivable w b = (b.free_ ≡ false) ⊎ (b.capacity_ ≡ 0) ⊎ Fits w.pool (mem_chunk b.data_ b.capacity_)

pub record IsValid (w : World) (b : Buffer) : Type 0 where
  pub within : b.size_ ≤ b.capacity_
  pub held : IsHeld w.pool b.data_ b.capacity_
  pub fits : IsGivable w b

-- A step that turns the buffer `b` into `b'` keeps the pool well-formed and the new buffer valid.
-- Every range that was held apart from `b` is still held, apart from `b'`, with the same bytes.
pub record Frame (w : World) (b : Buffer) (w' : World) (b' : Buffer) : Type 0 where
  pub well : IsWell w'.pool
  pub valid : IsValid w' b'
  pub mode : w'.use_pool ≡ w.use_pool
  pub others :
      (q k : ℕ)
      → IsHeld w.pool q k
      → Apart q k b.data_ b.capacity_
      → IsHeld w'.pool q k × Apart q k b'.data_ b'.capacity_ × (read w'.mem q k ≡ read w.mem q k)

-- What `fresh_memory` promises.
pub record IsFresh (w : World) (n d c : ℕ) (w' : World) : Type 0 where
  pub well : IsWell w'.pool
  pub bytes : w'.mem ≡ w.mem
  pub mode : w'.use_pool ≡ w.use_pool
  pub enough : n ≤ c
  pub held : IsHeld w'.pool d c
  pub fits : Fits w'.pool (mem_chunk d c)
  pub others : (q k : ℕ) → IsHeld w.pool q k → IsHeld w'.pool q k × Apart q k d c
  pub same : (ptr : ℕ) → find_ptr_size w'.pool ptr ≡ find_ptr_size w.pool ptr

pooled-IsFresh :
    (w : World) (n : ℕ)
    → IsWell w.pool
    → 0 < n
    → IsFresh w n (pool_acquire w n).0.ptr (pool_acquire w n).0.capacity (pool_acquire w n).1
unfolding pool_acquire
pooled-IsFresh w n v nz =
    let s = acquire-Serves w.pool n v nz in
    record {
      well = s.well;
      bytes = refl;
      mode = refl;
      enough = s.enough;
      held = s.held;
      fits = s.fits;
      others = s.others;
      same = s.same;
    }

-- The pool on a heap that has grown, or has taken a block back.
pub heap-IsWell :
    (p : MemPool) (h : Heap) → p.heap.brk ≤ h.brk → IsWell p → IsWell (record p { heap = h })
heap-IsWell p h le v = record {
  intact = record { sizes = v.intact.sizes; whole = v.intact.whole };
  sound = record {
    separate = v.sound.separate;
    below =
        All-imp _ _ p.buckets (λ b k. All-imp _ _ b.bucket (λ c j. omega arith) k) v.sound.below;
  };
  placed = heap-IsPlaced p _ refl le v.placed;
}

bare_bytes-IsFresh :
    (w : World) (n : ℕ) → IsWell w.pool → IsFresh w n (new_bytes w n).0 n (new_bytes w n).1
unfolding new_bytes find_ptr_size
bare_bytes-IsFresh w n v = record {
  well = heap-IsWell w.pool _ (omega arith) v;
  bytes = refl;
  mode = refl;
  enough = omega arith;
  held = record {
    outside =
        All-imp _ _ w.pool.buckets (λ b k. All-imp _ _ b.bucket (λ c j. omega arith) k)
          v.sound.below;
    allocated = omega arith;
  };
  fits = inl (
      find_ptr_size-eq-size_at w.pool _
      ∙ size_at_above w.pool.buckets w.pool.heap.brk _ v.placed.below (omega arith));
  others = λ q k h. (
    record { outside = h.outside; allocated = omega (arith, h.allocated) },
    omega (arith, h.allocated),
  );
  same = λ ptr. refl;
}

counter_alloc-IsFresh :
    (w : World) (n d c : ℕ) (w' : World) (s : ℕ)
    → IsFresh w n d c w'
    → IsFresh w n d c (counter_alloc w' s)
unfolding counter_alloc
counter_alloc-IsFresh w n d c w' s f = go (ltb 0 s)
  where
    go :
        (b : Bool)
        → IsFresh w n d c (
            if b
            then record w' {
              alloc_bytes = add_u64 w'.alloc_bytes s;
              alloc_count = add_u64 w'.alloc_count 1;
            }
            else w')
    go true = record {
      well = f.well;
      bytes = f.bytes;
      mode = f.mode;
      enough = f.enough;
      held = f.held;
      fits = f.fits;
      others = f.others;
      same = f.same;
    }
    go false = f

abbrev pub Fresh : World → ℕ → ℕ × ℕ × World → Type 0
Fresh w n r = IsFresh w n r.0 r.1 r.2

-- New memory is at least as large as asked and apart from all that is held; the bytes stay.
pub fresh_memory-IsFresh :
    (w : World) (n : ℕ) → IsWell w.pool → 0 < n → Fresh w n (fresh_memory w n)
unfolding fresh_memory
fresh_memory-IsFresh w n v nz = go w.use_pool
  where
    go :
        (b : Bool)
        → Fresh w n (
            if b
            then (let (mch, w') = pool_acquire w n in (mch.ptr, mch.capacity, w'))
            else (let (d, w') = new_bytes w n in (d, n, counter_alloc w' n)))
    go true = pooled-IsFresh w n v nz
    go false = counter_alloc-IsFresh w n _ n _ n (bare_bytes-IsFresh w n v)
