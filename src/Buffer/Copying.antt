-- ===== src/Buffer/Copying.antt =====
-- The constructors and `operator=` that copy bytes, and `assign`.
use socle.MemPool
use socle.Prelude.{
  ℕ, zero, suc, ◌≤◌, ◌<◌, ◌≡◌, refl, sym, ap, ◌∙◌, inl, inr, true, false, not, some, List, [], ◌∷◌,
  arith, ◌==◌, All,
}
use socle.Buffer.{dealloc, assign_grow, assign, view, str}
use socle.Buffer.Construct.{initial, make_copy, copy_memory, copy, assign_from}
use socle.Buffer.Frame.{IsValid, IsFresh, fresh_memory-IsFresh}
use socle.Buffer.State.{
  Buffer, World, counter_free, pool_acquire, pool_release, delete_bytes, fresh_memory,
}
use socle.MemPool.{MemPool, pick_bucket, find_by_address, acquire, release}
use socle.MemPool.Acquire.{acquire-release}
use socle.MemPool.Buckets.{Chunk, mem_chunk, Bucket}
use socle.MemPool.Places.{IsWell}
use socle.MemPool.Ranges.{Outside, IsHeld, All-imp}
use socle.Memory.{read, memcpy, Apart}
use socle.Memory.Ranges.{read-zero, read-memcpy, read-memcpy-Apart}

-- A new buffer: what others hold stays held, apart from it, with the same bytes.

pub record Made (w w' : World) (b : Buffer) : Type 0 where
  pub well : IsWell w'.pool
  pub valid : IsValid w' b
  pub mode : w'.use_pool ≡ w.use_pool
  pub others :
      (q k : ℕ)
      → IsHeld w.pool q k
      → IsHeld w'.pool q k × Apart q k b.data_ b.capacity_ × (read w'.mem q k ≡ read w.mem q k)

null-IsHeld : (p : MemPool) → IsHeld p 0 0
null-IsHeld p = record { outside = go p.buckets; allocated = omega arith }
  where
    chunks : (z : ℕ) (cs : List Chunk) → All (λ c. Apart 0 0 c.ptr z) cs
    chunks z [] = tt
    chunks z (c ∷ cs) = (omega arith, chunks z cs)

    go : (bs : List Bucket) → Outside 0 0 bs
    go [] = tt
    go (b ∷ bs) = (chunks b.sz b.bucket, go bs)

initial-Made : (w : World) → IsWell w.pool → Made w w initial
initial-Made w v = record {
  well = v;
  valid = record { within = omega arith; held = null-IsHeld w.pool; fits = inr (inl refl) };
  mode = refl;
  others = λ q k h. (h, omega arith, refl);
}

-- Copying `s` bytes from `d` into new memory of `n` bytes at least.
filled-Made :
    (w : World) (n d s p c : ℕ) (w₁ : World)
    → s ≤ n
    → IsHeld w.pool d s
    → IsFresh w n p c w₁
    → let w' = record w₁ { mem = memcpy w₁.mem p d s } in
      let b = record initial { data_ = p; capacity_ = c; size_ = s } in
      Made w w' b × (str w' b ≡ read w.mem d s)
unfolding str
filled-Made w n d s p c w₁ le h f = (
  record {
    well = f.well;
    valid = record { within = omega (arith, f.enough); held = f.held; fits = inr (inr f.fits) };
    mode = f.mode;
    others = λ q k hq.
        let (h₁, a₁) = f.others q k hq in
        (
          h₁,
          a₁,
          read-memcpy-Apart w₁.mem p d s q k (omega (arith, a₁, f.enough))
              ∙ ap (λ m. read m q k) f.bytes,
        );
  },
  read-memcpy w₁.mem p d s ∙ ap (λ m. read m d s) f.bytes,
)

-- On a well-formed pool, `buffer(const void*, size_type)` of bytes that somebody holds makes a
-- valid buffer that shows these bytes, in memory that nobody else holds.
pub make_copy-Made :
    (w : World) (d s : ℕ)
    → IsWell w.pool
    → IsHeld w.pool d s
    → let (w', b) = make_copy w d s in Made w w' b × (str w' b ≡ read w.mem d s)
unfolding make_copy
make_copy-Made w d zero v h =
    (initial-Made w v, unfold str in read-zero w.mem 0 ∙ sym (read-zero w.mem d))
make_copy-Made w d (suc s) v h = rw some_bytes (
    filled-Made w (suc s) d (suc s) _ _ _ (omega arith) h
      (fresh_memory-IsFresh w (suc s) v (omega arith)))
  where
    some_bytes : not (suc s == 0) ≡ true
    some_bytes = ground arith

fresh_memory-capacity : (w : World) (n : ℕ) → w.use_pool ≡ false → (fresh_memory w n).1 ≡ n
unfolding fresh_memory
fresh_memory-capacity w n heap = ground arith

copy-eq :
    (w : World) (x : Buffer)
    → x.free_ ≡ true
    → 0 < x.size_
    → x.size_ ≤ x.capacity_
    → copy w x ≡ (
        let r = fresh_memory w x.capacity_ in
        (
          record r.2 { mem = memcpy r.2.mem r.0 x.data_ x.size_ },
          record initial { data_ = r.0; capacity_ = r.1; size_ = x.size_ },
        ))
unfolding copy copy_memory
copy-eq w x own nz le = ground (arith, fresh_memory-capacity w x.capacity_)

pub shorter-IsHeld : (p : MemPool) (q n k : ℕ) → k ≤ n → IsHeld p q n → IsHeld p q k
shorter-IsHeld p q n k le h = record {
  outside = All-imp _ _ p.buckets (λ b i. All-imp _ _ b.bucket (λ c a. omega arith) i) h.outside;
  allocated = omega (arith, h.allocated);
}

-- A copy of a buffer that owns its memory holds the same bytes, in memory of its own.
pub copy-Made :
    (w : World) (x : Buffer)
    → IsWell w.pool
    → IsValid w x
    → x.free_ ≡ true
    → 0 < x.size_
    → let (w', b) = copy w x in Made w w' b × (str w' b ≡ str w x)
copy-Made w x v u own nz = rw (copy-eq w x own nz u.within) (
    unfold str in
    filled-Made w x.capacity_ x.data_ x.size_ _ _ _ u.within
      (shorter-IsHeld w.pool x.data_ x.capacity_ x.size_ u.within u.held)
      (fresh_memory-IsFresh w x.capacity_ v (omega (arith, u.within))))

-- In pool mode, a copy of a view that is not empty has a size above its capacity, so it is valid
-- in no world.
pub copy_view_invalid :
    (w w₁ : World) (x : Buffer)
    → w.use_pool ≡ true
    → x.free_ ≡ false
    → 0 < x.size_
    → ¬ IsValid w₁ (copy w x).1
unfolding copy copy_memory
copy_view_invalid w w₁ x pool view nz u = ground (arith, u.within)

-- Assigning a view to a buffer that is large enough copies no byte: the buffer takes the size of the
-- view and keeps the bytes that it had.
pub assign_from_view :
    (w : World) (b x : Buffer)
    → x.free_ ≡ false
    → x.size_ ≤ b.capacity_
    → 0 < b.data_
    → assign_from w b x ≡ (w, record b { size_ = x.size_ })
unfolding assign_from
assign_from_view w b x view le nz = ground arith

use_pool-dealloc : (w : World) (b : Buffer) → (dealloc w b).use_pool ≡ w.use_pool
unfolding dealloc pool_release counter_free delete_bytes
use_pool-dealloc w b = ground arith

assign-grown :
    (w : World) (b : Buffer) (d s : ℕ)
    → w.use_pool ≡ true
    → b.capacity_ < s
    → let (w', b') = assign w b d s in (b'.capacity_ ≡ s) × (b'.free_ ≡ true) × (w'.use_pool ≡ true)
unfolding assign assign_grow pool_acquire
assign-grown w b d s pooled small = ground (arith, use_pool-dealloc w b)

dealloc-pooled :
    (w : World) (b : Buffer)
    → b.free_ ≡ true
    → w.use_pool ≡ true
    → 0 < b.capacity_
    → (dealloc w b).pool ≡ MemPool.release w.pool (mem_chunk b.data_ b.capacity_)
unfolding dealloc pool_release
dealloc-pooled w b own pooled nz = ground arith

-- In pool mode, `assign` of more bytes than the capacity records their number as the capacity, not
-- that of the chunk. When the buffer then gives its memory back to a bucket, the next request that
-- picks this bucket gets the chunk with that capacity, although the request is larger.
pub assign_undersized :
    (w : World) (b : Buffer) (d s : ℕ) (i t : ℕ) (k : Bucket)
    → w.use_pool ≡ true
    → (assign w b d s).0.pool.bailing ≡ false
    → b.capacity_ < s
    → let (w', b') = assign w b d s in
      0 < b'.data_
      → find_by_address w'.pool.buckets b'.data_ ≡ some (i, k)
      → pick_bucket t ≡ some i
      → s < t
      → let w'' = dealloc w' b' in
        ((MemPool.acquire w''.pool t).0.capacity ≡ s)
        × ((MemPool.acquire w''.pool t).0.capacity < t)
assign_undersized w b d s i t k pooled on small nz e pick lt =
    let (cap, own, mode) = assign-grown w b d s pooled small in
    let w' = (assign w b d s).0 in
    let b' = (assign w b d s).1 in
    let c = mem_chunk b'.data_ b'.capacity_ in
    let back = dealloc-pooled w' b' own mode (omega arith) in
    let served = acquire-release w'.pool c i k t nz on refl e (omega arith) pick in
    let capacity : (MemPool.acquire (dealloc w' b').pool t).0.capacity ≡ s =
      ap (λ p. (MemPool.acquire p t).0.capacity) back ∙ ap (λ r. r.capacity) served ∙ cap in
    (capacity, omega arith)
