-- ===== src/MemPool/Setup.antt =====
-- `memPool::allocate`: every bucket starts with its full count of disjoint chunks.
use mathlib.Core.Path.{ap₂}
use native.Mathlib.Nat.{mod-eq_of_lt}
use socle.Prelude.{
  ℕ, zero, suc, ◌+◌, ◌*◌, ◌^◌, ◌≤◌, ◌<◌, ◌≡◌, refl, sym, ap, subst, false, List, [], ◌∷◌, map,
  arith, lt→ltb, le→ltb, length, All, mul_u64,
}
use socle.MemPool.{MemPool}
use socle.MemPool.Buckets.{
  Heap, Chunk, mem_chunk, Bucket, empty_bucket, stockpile, init_memory, is_mine,
}
use socle.MemPool.Intact.{IsWhole, BucketIsIntact}
use socle.MemPool.Pick.{chunk_sizes, HasSizes}
use socle.MemPool.Places.{AreApart, ChunksAreMine, IsWell}
use socle.MemPool.Ranges.{ChunksAreSeparate, BucketsAreSeparate, All-imp}

-- the members `bucket_32 {32}` .. `bucket_50k {50L*1024}` before `allocate`
abbrev pub members : List Bucket
members = map empty_bucket chunk_sizes

unfoldable pub init_members : Heap → List Bucket → List ℕ → List Bucket × Heap
init_members h [] counts = ([], h)
init_members h (b ∷ bs) [] = (b ∷ bs, h)
init_members h (b ∷ bs) (n ∷ ns) =
    let (b', h₁) = init_memory h b n in let (bs', h₂) = init_members h₁ bs ns in (b' ∷ bs', h₂)

unfoldable pub counts : ℕ → ℕ → ℕ → ℕ → ℕ → List ℕ
counts n256 n1k n5k n10k n20k =
    mul_u64 n256 16
    ∷ mul_u64 n256 8
    ∷ mul_u64 n256 4
    ∷ n256
    ∷ n1k
    ∷ n5k
    ∷ n10k
    ∷ n20k
    ∷ n20k
    ∷ n20k
    ∷ []

unfoldable pub allocate : MemPool → ℕ → ℕ → ℕ → ℕ → ℕ → MemPool
allocate p n256 n1k n5k n10k n20k =
    let (bs, h) = init_members p.heap p.buckets (counts n256 n1k n5k n10k n20k) in
    record p { buckets = bs; heap = h }

-- A pool before `allocate`, on a heap that has handed out everything up to `brk`.
abbrev pub unallocated : ℕ → MemPool
unallocated brk = record {
  heap = record { brk = brk; freed = [] };
  buckets = members;
  stats = record {
    acq = 0;
    acq_size = 0;
    ret = 0;
    ret_size = 0;
    heap_alloc = 0;
    heap_alloc_size = 0;
    out_free = 0;
    out_free_size = 0;
    out_pool_miss = 0;
    out_pool_miss_size = 0;
  };
  bailing = false;
}

-- Chunks that lie in order between two addresses.
record IsStock (sz base cur : ℕ) (stack : List Chunk) : Type 0 where
  whole : All (IsWhole sz) stack
  inside : All (λ c. (base ≤ c.ptr) × (c.ptr + sz ≤ cur)) stack
  separate : ChunksAreSeparate sz stack

push-IsStock :
    (sz base cur : ℕ) (stack : List Chunk)
    → 0 < base
    → base ≤ cur
    → IsStock sz base cur stack
    → IsStock sz base (cur + sz) (mem_chunk cur sz ∷ stack)
push-IsStock sz base cur stack nz le s = record {
  whole = ((refl, omega arith), s.whole);
  inside = ((le, omega arith), All-imp _ _ stack (λ c h. (h.0, omega arith)) s.inside);
  separate = (All-imp _ _ stack (λ c h. omega arith) s.inside, s.separate);
}

stockpile-IsStock :
    (fuel rounds sz base cur stop : ℕ) (stack : List Chunk)
    → rounds < fuel
    → 0 < sz
    → 0 < base
    → base ≤ cur
    → stop ≡ cur + rounds * sz
    → IsStock sz base cur stack
    → IsStock sz base stop (stockpile fuel sz cur stop stack)
      × (length (stockpile fuel sz cur stop stack) ≡ length stack + rounds)
unfolding stockpile
stockpile-IsStock zero rounds sz base cur stop stack lt pz nz le e s = absurd (omega arith)
stockpile-IsStock (suc fuel) zero sz base cur stop stack lt pz nz le e s =
    let done : stop ≡ cur = omega arith in
    rw (le→ltb cur stop (omega arith)) (rw done s, omega arith)
stockpile-IsStock (suc fuel) (suc rounds) sz base cur stop stack lt pz nz le e s =
    let (stock, n) =
      stockpile-IsStock fuel rounds sz base (cur + sz) stop (mem_chunk cur sz ∷ stack) (omega arith)
        pz nz (omega arith) (omega arith) (push-IsStock sz base cur stack nz le s) in
    rw (lt→ltb cur stop (omega arith)) (stock, omega arith)

-- What `init_memory` makes of an empty bucket.
record IsStocked (lo hi n : ℕ) (b : Bucket) : Type 0 where
  intact : BucketIsIntact b
  inside : All (λ c. (lo < c.ptr) × (c.ptr + b.sz ≤ hi)) b.bucket
  separate : ChunksAreSeparate b.sz b.bucket
  full : length b.bucket ≡ n
  region : (lo < b.bigptr) × (b.endptr ≤ hi)
  mine : ChunksAreMine b

init_memory-IsStocked :
    (h : Heap) (b : Bucket) (n : ℕ)
    → b.bucket ≡ []
    → 0 < b.sz
    → n * b.sz < 2 ^ 64
    → let (b', h') = init_memory h b n in
      IsStocked h.brk h'.brk n b' × (b'.sz ≡ b.sz) × (h.brk ≤ h'.brk)
unfolding init_memory is_mine
init_memory-IsStocked h b n e nz fits =
    let size : mul_u64 n b.sz ≡ n * b.sz = mod-eq_of_lt fits in
    let start : IsStock b.sz (suc h.brk) (suc h.brk) b.bucket =
      subst (IsStock b.sz (suc h.brk) (suc h.brk)) (sym e)
        (record { whole = tt; inside = tt; separate = tt }) in
    let (s, full) =
      stockpile-IsStock (suc n) n b.sz (suc h.brk) (suc h.brk) (suc h.brk + mul_u64 n b.sz) b.bucket
        (omega arith) nz (omega arith) (omega arith) (omega arith) start in
    (
      record {
        intact = s.whole;
        inside = s.inside;
        separate = s.separate;
        full = omega (arith, ap length e);
        region = (omega arith, omega arith);
        mine = All-imp _ _ _ (λ c k. ground arith) s.inside;
      },
      refl,
      omega arith,
    )

-- Each size is positive, and no bucket's size in bytes wraps.
abbrev pub Fit : List ℕ → List ℕ → Type 0
Fit [] [] = Unit
Fit (z ∷ zs) (n ∷ ns) = (0 < z) × (n * z < 2 ^ 64) × Fit zs ns
Fit _ _ = ⊥

-- What `init_members` makes of empty buckets of the sizes `zs`.
record AreStocked (lo hi : ℕ) (zs ns : List ℕ) (bs : List Bucket) : Type 0 where
  sizes : HasSizes zs bs
  intact : All BucketIsIntact bs
  inside : All (λ b. All (λ c. (lo < c.ptr) × (c.ptr + b.sz ≤ hi)) b.bucket) bs
  separate : BucketsAreSeparate bs
  full : map (λ b. length b.bucket) bs ≡ ns
  regions : AreApart bs
  region : All (λ b. (lo < b.bigptr) × (b.endptr ≤ hi)) bs
  mine : All ChunksAreMine bs
  grown : lo ≤ hi

init_members-AreStocked :
    (zs ns : List ℕ) (h : Heap)
    → Fit zs ns
    → let (bs, h') = init_members h (map empty_bucket zs) ns in AreStocked h.brk h'.brk zs ns bs
unfolding init_members
init_members-AreStocked [] [] h f = record {
  sizes = tt;
  intact = tt;
  inside = tt;
  separate = tt;
  full = refl;
  regions = tt;
  region = tt;
  mine = tt;
  grown = omega arith;
}
init_members-AreStocked [] (n ∷ ns) h f = absurd f
init_members-AreStocked (z ∷ zs) [] h f = absurd f
init_members-AreStocked (z ∷ zs) (n ∷ ns) h f =
    let b = (init_memory h (empty_bucket z) n).0 in
    let h₁ = (init_memory h (empty_bucket z) n).1 in
    let (s, sz, grown) = init_memory-IsStocked h (empty_bucket z) n refl f.0 f.1 in
    let ih = init_members-AreStocked zs ns h₁ f.2 in
    record {
      sizes = (sz, ih.sizes);
      intact = (s.intact, ih.intact);
      inside = (
        All-imp _ _ b.bucket (λ c k. omega (arith, ih.grown)) s.inside,
        All-imp _ _ _ (λ b k. All-imp _ _ b.bucket (λ c i. omega arith) k) ih.inside,
      );
      separate = (
        s.separate,
        All-imp _ _ b.bucket
            (λ c k. All-imp _ _ _ (λ d i. All-imp _ _ d.bucket (λ e j. omega arith) i) ih.inside)
            s.inside,
        ih.separate,
      );
      full = ap₂ ◌∷◌ s.full ih.full;
      regions = (All-imp _ _ _ (λ d k. omega (arith, s.region)) ih.region, ih.regions);
      region = (omega (arith, s.region, ih.grown), All-imp _ _ _ (λ d k. omega arith) ih.region);
      mine = (s.mine, ih.mine);
      grown = omega (arith, ih.grown);
    }

-- Where no bucket's size in bytes wraps, `allocate` makes a new pool well-formed (the chunks of
-- all buckets are whole, disjoint and in their buckets), and every bucket has its whole count of
-- chunks.
pub allocate-IsWell :
    (brk n256 n1k n5k n10k n20k : ℕ)
    → Fit chunk_sizes (counts n256 n1k n5k n10k n20k)
    → let p = allocate (unallocated brk) n256 n1k n5k n10k n20k in
      IsWell p × (map (λ b. length b.bucket) p.buckets ≡ counts n256 n1k n5k n10k n20k)
unfolding allocate
allocate-IsWell brk n256 n1k n5k n10k n20k f =
    let ns = counts n256 n1k n5k n10k n20k in
    let s = init_members-AreStocked chunk_sizes ns (unallocated brk).heap f in
    (
      record {
        intact = record { sizes = s.sizes; whole = s.intact };
        sound = record {
          separate = s.separate;
          below = All-imp _ _ _ (λ b k. All-imp _ _ b.bucket (λ c i. i.1) k) s.inside;
        };
        placed = record {
          regions = s.regions;
          below = All-imp _ _ _ (λ b k. omega arith) s.region;
          mine = s.mine;
        };
      },
      s.full,
    )
