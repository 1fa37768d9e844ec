-- ===== src/Buffer/Giving.antt =====
-- What giving memory back leaves alone.

-- What giving the memory of `b` back promises.
use socle.Prelude.{ℕ, ◌≡◌, refl, Bool, true, false, ◌&&◌, arith, ltb, if◌then◌else◌, add_u64}
use socle.Buffer.{dealloc}
use socle.Buffer.Frame.{IsValid, heap-IsWell}
use socle.Buffer.State.{Buffer, World, counter_free, pool_release, delete_bytes}
use socle.MemPool.{find_ptr_size}
use socle.MemPool.Buckets.{mem_chunk}
use socle.MemPool.Places.{Fits, IsWell}
use socle.MemPool.Ranges.{IsHeld}
use socle.MemPool.Release.{release-TakesBack}
use socle.Memory.{Apart}

pub record GivesBack (w : World) (b : Buffer) (w' : World) : Type 0 where
  pub well : IsWell w'.pool
  pub bytes : w'.mem ≡ w.mem
  pub mode : w'.use_pool ≡ w.use_pool
  pub others : (q k : ℕ) → IsHeld w.pool q k → Apart q k b.data_ b.capacity_ → IsHeld w'.pool q k
  pub same : (ptr : ℕ) → find_ptr_size w'.pool ptr ≡ find_ptr_size w.pool ptr

unchanged-GivesBack : (w : World) (b : Buffer) → IsWell w.pool → GivesBack w b w
unchanged-GivesBack w b v = record {
  well = v;
  bytes = refl;
  mode = refl;
  others = λ q k h a. h;
  same = λ ptr. refl;
}

pooled-GivesBack :
    (w : World) (b : Buffer)
    → IsWell w.pool
    → IsHeld w.pool b.data_ b.capacity_
    → Fits w.pool (mem_chunk b.data_ b.capacity_)
    → GivesBack w b (pool_release w (mem_chunk b.data_ b.capacity_))
unfolding pool_release
pooled-GivesBack w b v h f =
    let t = release-TakesBack w.pool (mem_chunk b.data_ b.capacity_) v h f in
    record { well = t.well; bytes = refl; mode = refl; others = t.others; same = t.same }

deleted-GivesBack :
    (w : World) (b : Buffer) (d s : ℕ)
    → IsWell w.pool
    → GivesBack w b (counter_free (delete_bytes w d) s)
unfolding counter_free delete_bytes find_ptr_size
deleted-GivesBack w b d s v = go (ltb 0 s)
  where
    w' : World
    w' = delete_bytes w d

    given : GivesBack w b w'
    given = record {
      well = heap-IsWell w.pool _ (omega arith) v;
      bytes = refl;
      mode = refl;
      others = λ q k h a. record { outside = h.outside; allocated = h.allocated };
      same = λ ptr. refl;
    }

    go :
        (c : Bool)
        → GivesBack w b (
            if c
            then record w' {
              free_bytes = add_u64 w'.free_bytes s;
              free_count = add_u64 w'.free_count 1;
            }
            else w')
    go true = record {
      well = given.well;
      bytes = refl;
      mode = refl;
      others = given.others;
      same = given.same;
    }
    go false = given

-- `dealloc` of a valid buffer keeps the pool well-formed, changes no byte, and leaves held what was
-- held apart from the buffer.
pub dealloc-GivesBack :
    (w : World) (b : Buffer) → IsWell w.pool → IsValid w b → GivesBack w b (dealloc w b)
unfolding dealloc
dealloc-GivesBack w b v u = go b.free_ refl (ltb 0 b.capacity_) refl w.use_pool
  where
    pooled : World
    pooled = pool_release w (mem_chunk b.data_ b.capacity_)

    go :
        (f : Bool)
        → b.free_ ≡ f
        → (c : Bool) → ltb 0 b.capacity_ ≡ c
        → (m : Bool)
        → GivesBack w b (
            if f && c
            then (if m then pooled else counter_free (delete_bytes w b.data_) b.capacity_)
            else w)
    go false e c k m = unchanged-GivesBack w b v
    go true e false k m = unchanged-GivesBack w b v
    go true e true k true = pooled-GivesBack w b v u.held (ground (arith, u.fits))
    go true e true k false = deleted-GivesBack w b b.data_ b.capacity_ v
