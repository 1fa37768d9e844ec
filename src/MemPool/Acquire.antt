-- ===== src/MemPool/Acquire.antt =====
-- `acquire` and `release` together, as a client relies on them.
use socle.Prelude.{ℕ, ◌≤◌, ◌<◌, ◌≡◌, refl, true, false, some, arith, get_elem?-set_self}
use socle.MemPool.{
  MemPool, pick_bucket, find_by_address, find_ptr_size, acquire_from, acquire, release_pooled,
  release,
}
use socle.MemPool.Buckets.{pool_type, Chunk, Bucket, bucket_acquire}
use socle.MemPool.Cases.{acquire-eq}
use socle.MemPool.Intact.{acquire-capacity, acquire-IsIntact}
use socle.MemPool.Places.{acquire-Placement, Fits, IsWell}
use socle.MemPool.Ranges.{IsHeld, acquire-Grants}
use socle.MemPool.Release.{find_by_address-get, put_top, bucket_release-put_top}
use socle.Memory.{Apart}

-- What a client gets from a call of `acquire`: see `acquire-Serves`.
pub record Serves (p : MemPool) (s : ℕ) (r : Chunk × MemPool) : Type 0 where
  pub well : IsWell r.1
  pub enough : s ≤ r.0.capacity
  pub not_null : 0 < r.0.ptr
  pub held : IsHeld r.1 r.0.ptr r.0.capacity
  pub fits : Fits r.1 r.0
  pub others : (q n : ℕ) → IsHeld p q n → IsHeld r.1 q n × Apart q n r.0.ptr r.0.capacity
  pub same : (ptr : ℕ) → find_ptr_size r.1 ptr ≡ find_ptr_size p ptr

pub acquire-Serves : (p : MemPool) (s : ℕ) → IsWell p → 0 < s → Serves p s (acquire p s)
acquire-Serves p s v nz =
    let (enough, not_null) = acquire-capacity p s v.intact nz in
    let g = acquire-Grants p s v.intact v.sound nz in
    let m = acquire-Placement p s v.intact v.placed nz in
    let c = (acquire p s).0 in
    record {
      well = record { intact = acquire-IsIntact p s v.intact; sound = g.sound; placed = m.placed };
      enough = enough;
      not_null = not_null;
      held = g.held;
      fits = omega (arith, m.fits, m.same c.ptr);
      others = g.others;
      same = m.same;
    }

release-eq :
    (p : MemPool) (c : Chunk) (i : ℕ) (b : Bucket)
    → 0 < c.ptr
    → p.bailing ≡ false
    → c.origin ≡ pool_type
    → find_by_address p.buckets c.ptr ≡ some (i, b)
    → release p c ≡ release_pooled p c (some (i, b))
unfolding release
release-eq p c i b nz on origin e = ground arith

-- A bucket is a stack: the chunk that `release` put back is the next one that the bucket hands out,
-- with the address and the capacity that it came back with, whatever size is asked for.
pub acquire-release :
    (p : MemPool) (c : Chunk) (i : ℕ) (b : Bucket) (s : ℕ)
    → 0 < c.ptr
    → p.bailing ≡ false
    → c.origin ≡ pool_type
    → find_by_address p.buckets c.ptr ≡ some (i, b)
    → 0 < s
    → pick_bucket s ≡ some i
    → (acquire (release p c) s).0
      ≡ record { ptr = c.ptr; capacity = c.capacity; in_pool = false; origin = pool_type }
unfolding acquire_from bucket_acquire release_pooled
acquire-release p c i b s nz on origin e ps pick =
    let (g, mine) = find_by_address-get p.buckets c.ptr i b e in
    let c' : Chunk = record c { in_pool = true } in
    let top = get_elem?-set_self p.buckets i b (put_top b c') g in
    rw
      (
        release-eq p c i b nz on origin e,
        acquire-eq (release_pooled p c (some (i, b))) s i ps pick,
        bucket_release-put_top b c mine,
        top,
      )
      refl
