-- ===== src/MemPool/Release.antt =====
-- What `release` does to the free chunks and to the ranges that others hold.
use mathlib.Core.Option.{some-injective}
use socle.Prelude.{
  ℕ, zero, suc, ◌<◌, ◌≡◌, refl, sym, ◌∙◌, subst, inl, inr, Bool, true, false, Option, none, some,
  List, [], ◌∷◌, arith, ◌==◌, if◌then◌else◌, Option-cases, get_elem?, set, All, All-get, All-set,
}
use socle.MemPool.{MemPool, find_by_address, find_ptr_size, free_heap, release_pooled, release}
use socle.MemPool.Buckets.{PoolType, pool_type, heap_type, Chunk, Bucket, is_mine, bucket_release}
use socle.MemPool.Cases.{HasSizes-set}
use socle.MemPool.Intact.{BucketIsIntact, IsIntact}
use socle.MemPool.Pick.{chunk_sizes, HasSizes}
use socle.MemPool.Places.{
  find_ptr_size-eq-size_at, ChunksAreMine, size_at-set, set-IsPlaced, heap-IsPlaced, Fits, IsWell,
}
use socle.MemPool.Ranges.{Outside, BucketsAreSeparate, BucketIsBelow, IsHeld}
use socle.Memory.{Apart}

pub find_by_address-get :
    (bs : List Bucket) (ptr i : ℕ) (b : Bucket)
    → find_by_address bs ptr ≡ some (i, b)
    → (get_elem? bs i ≡ some b) × (is_mine b ptr ≡ true)
unfolding find_by_address
find_by_address-get [] ptr i b e = absurd (cc)
find_by_address-get (a ∷ bs) ptr zero b e = elim (Option-cases (find_by_address bs ptr)) [
  | inl n ↦ ground arith
  | inr ((j, c), n) ↦ ground arith
]
find_by_address-get (a ∷ bs) ptr (suc i) b e = elim (Option-cases (find_by_address bs ptr)) [
  | inl n ↦ absurd (ground arith)
  | inr ((j, c), n) ↦ ground (arith, find_by_address-get bs ptr i b)
]

sizes-pos :
    (zs : List ℕ) (bs : List Bucket) (i : ℕ) (b : Bucket)
    → All (λ z. 0 < z) zs
    → HasSizes zs bs
    → get_elem? bs i ≡ some b
    → 0 < b.sz
sizes-pos [] [] i b h s g = absurd (cc)
sizes-pos [] (x ∷ bs) i b h s g = absurd s
sizes-pos (z ∷ zs) [] i b h s g = absurd s
sizes-pos (z ∷ zs) (x ∷ bs) zero b h s g = ground arith
sizes-pos (z ∷ zs) (x ∷ bs) (suc i) b h s g = sizes-pos zs bs i b h.1 s.1 g

Fits-eq :
    (p : MemPool) (c : Chunk) (i : ℕ) (b : Bucket)
    → IsIntact p
    → Fits p c
    → find_by_address p.buckets c.ptr ≡ some (i, b)
    → c.capacity ≡ b.sz
unfolding find_ptr_size
Fits-eq p c i b v f e =
    let (g, mine) = find_by_address-get p.buckets c.ptr i b e in
    ground (arith, sizes-pos chunk_sizes p.buckets i b (omega arith) v.sizes g)

All-imp₂ {ℓ κ μ ν} :
    {A : Type ℓ} (P : A → Type κ) (Q : A → Type μ) (R : A → Type ν) (xs : List A)
    → ((x : A) → P x → Q x → R x)
    → All P xs
    → All Q xs
    → All R xs
All-imp₂ P Q R [] f h k = tt
All-imp₂ P Q R (x ∷ xs) f h k = (f x h.0 k.0, All-imp₂ P Q R xs f h.1 k.1)

abbrev pub put_top : Bucket → Chunk → Bucket
put_top b c = record b { bucket = c ∷ b.bucket }

put_top-Outside :
    (bs : List Bucket) (i : ℕ) (b : Bucket) (c : Chunk) (q n : ℕ)
    → get_elem? bs i ≡ some b
    → Apart q n c.ptr b.sz
    → Outside q n bs
    → Outside q n (set bs i (put_top b c))
put_top-Outside [] i b c q n g a o = absurd (cc)
put_top-Outside (x ∷ bs) zero b c q n g a o =
    let o' = subst (λ (y : Bucket). Outside q n (y ∷ bs)) (some-injective x b g) o in
    ((a, o'.0), o'.1)
put_top-Outside (x ∷ bs) (suc i) b c q n g a o = (o.0, put_top-Outside bs i b c q n g a o.1)

put_top-AreSeparate :
    (bs : List Bucket) (i : ℕ) (b : Bucket) (c : Chunk)
    → get_elem? bs i ≡ some b
    → BucketsAreSeparate bs
    → Outside c.ptr b.sz bs
    → BucketsAreSeparate (set bs i (put_top b c))
put_top-AreSeparate [] i b c g s o = absurd (cc)
put_top-AreSeparate (x ∷ bs) zero b c g s o =
    let same = some-injective x b g in
    let o' = subst (λ (y : Bucket). Outside c.ptr b.sz (y ∷ bs)) same o in
    let s' = subst (λ (y : Bucket). BucketsAreSeparate (y ∷ bs)) same s in
    ((o'.0, s'.0), (o'.1, s'.1), s'.2)
put_top-AreSeparate (x ∷ bs) (suc i) b c g s o = (
  s.0,
  All-imp₂ _ _ _ x.bucket (λ d k a. put_top-Outside bs i b c d.ptr x.sz g (omega arith) k) s.1 o.0,
  put_top-AreSeparate bs i b c g s.2 o.1,
)

-- What a call of `release` promises: see `release-Takes_back`.
pub record TakesBack (p : MemPool) (c : Chunk) (p' : MemPool) : Type 0 where
  pub well : IsWell p'
  pub others : (q n : ℕ) → IsHeld p q n → Apart q n c.ptr c.capacity → IsHeld p' q n
  pub same : (ptr : ℕ) → find_ptr_size p' ptr ≡ find_ptr_size p ptr

free_heap-TakesBack : (p : MemPool) (c d : Chunk) → IsWell p → TakesBack p d (free_heap p c)
unfolding free_heap find_ptr_size
free_heap-TakesBack p c d v = record {
  well = record {
    intact = record { sizes = v.intact.sizes; whole = v.intact.whole };
    sound = record { separate = v.sound.separate; below = v.sound.below };
    placed = heap-IsPlaced p _ refl (omega arith) v.placed;
  };
  others = λ q n h a. record { outside = h.outside; allocated = h.allocated };
  same = λ ptr. refl;
}

pub bucket_release-put_top :
    (b : Bucket) (c : Chunk)
    → is_mine b c.ptr ≡ true
    → bucket_release b c ≡ put_top b (record c { in_pool = true })
unfolding bucket_release
bucket_release-put_top b c mine = rw mine

pooled-TakesBack :
    (p : MemPool) (c : Chunk) (i : ℕ) (b : Bucket)
    → IsWell p
    → 0 < c.ptr
    → IsHeld p c.ptr c.capacity
    → c.capacity ≡ b.sz
    → find_by_address p.buckets c.ptr ≡ some (i, b)
    → TakesBack p c (release_pooled p c (some (i, b)))
unfolding release_pooled is_mine
pooled-TakesBack p c i b v nz h f e =
    let (g, mine) = find_by_address-get p.buckets c.ptr i b e in
    let held : IsHeld p c.ptr b.sz = rw (← f) h in
    let c' : Chunk = record c { in_pool = true } in
    let b' = put_top b c' in
    rw (bucket_release-put_top b c mine) (record {
      well = record {
        intact = record {
          sizes = HasSizes-set chunk_sizes p.buckets i b b' v.intact.sizes g refl;
          whole =
              All-set BucketIsIntact p.buckets i b' v.intact.whole
                ((f, nz), All-get BucketIsIntact p.buckets i b v.intact.whole g);
        };
        sound = record {
          separate = put_top-AreSeparate p.buckets i b c' g v.sound.separate held.outside;
          below =
              All-set (BucketIsBelow p.heap.brk) p.buckets i b' v.sound.below
                (held.allocated, All-get (BucketIsBelow p.heap.brk) p.buckets i b v.sound.below g);
        };
        placed =
            set-IsPlaced p _ i b b' g (refl, refl, refl)
              (mine, All-get ChunksAreMine p.buckets i b v.placed.mine g) refl (omega arith)
              v.placed;
      };
      others = λ q n k a. record {
        outside =
            put_top-Outside p.buckets i b c' q n g (subst (λ (z : ℕ). Apart q n c.ptr z) f a)
              k.outside;
        allocated = k.allocated;
      };
      same = λ ptr.
          find_ptr_size-eq-size_at _ ptr
          ∙ size_at-set p.buckets i b b' ptr g (refl, refl, refl)
          ∙ sym (find_ptr_size-eq-size_at p ptr);
    })

unchanged-TakesBack : (p : MemPool) (c : Chunk) → IsWell p → TakesBack p c p
unchanged-TakesBack p c v = record { well = v; others = λ q n h a. h; same = λ ptr. refl }

missed-TakesBack : (p : MemPool) (c : Chunk) → IsWell p → TakesBack p c (release_pooled p c none)
unfolding release_pooled free_heap find_ptr_size
missed-TakesBack p c v = record {
  well = record {
    intact = record { sizes = v.intact.sizes; whole = v.intact.whole };
    sound = record { separate = v.sound.separate; below = v.sound.below };
    placed = heap-IsPlaced p _ refl (omega arith) v.placed;
  };
  others = λ q n h a. record { outside = h.outside; allocated = h.allocated };
  same = λ ptr. refl;
}

-- On a well-formed pool, `release` of a held chunk that fits its bucket keeps the pool intact and
-- the free chunks disjoint, and every held range that is apart from the chunk stays held.
pub release-TakesBack :
    (p : MemPool) (c : Chunk)
    → IsWell p
    → IsHeld p c.ptr c.capacity
    → Fits p c
    → TakesBack p c (release p c)
unfolding release
release-TakesBack p c v h f = by_null (c.ptr == 0) refl p.bailing
  where
    pooled :
        (r : Option (ℕ × Bucket))
        → find_by_address p.buckets c.ptr ≡ r
        → 0 < c.ptr
        → TakesBack p c (release_pooled p c r)
    pooled none e nz = missed-TakesBack p c v
    pooled (some (i, b)) e nz = pooled-TakesBack p c i b v nz h (Fits-eq p c i b v.intact f e) e

    by_origin :
        0 < c.ptr
        → (o : PoolType)
        → TakesBack p c (elim o [
          | heap_type ↦ free_heap p c
          | pool_type ↦ release_pooled p c (find_by_address p.buckets c.ptr)
        ])
    by_origin nz heap_type = free_heap-TakesBack p c c v
    by_origin nz pool_type = pooled (find_by_address p.buckets c.ptr) refl nz

    kept : MemPool
    kept = elim c.origin [
      | heap_type ↦ free_heap p c
      | pool_type ↦ release_pooled p c (find_by_address p.buckets c.ptr)
    ]

    by_null :
        (b : Bool)
        → (c.ptr == 0) ≡ b
        → (out : Bool) → TakesBack p c (if b then p else if out then p else kept)
    by_null true e out = unchanged-TakesBack p c v
    by_null false e true = unchanged-TakesBack p c v
    by_null false e false = by_origin (ground arith) c.origin
