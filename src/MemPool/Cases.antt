-- ===== src/MemPool/Cases.antt =====
-- The case rule for `acquire`: the chunk is new from the heap, or the top of a bucket whose chunks
-- are large enough.
use socle.Prelude.{
  ℕ, zero, suc, ◌*◌, ◌≤◌, ◌<◌, ◌≡◌, refl, inl, inr, false, none, some, List, [], ◌∷◌, arith,
  Option-cases, get_elem?, set,
}
use socle.MemPool.{MemPool, pick_bucket, from_heap, count_acquired, acquire_from, acquire}
use socle.MemPool.Buckets.{pool_type, Chunk, Bucket, bucket_acquire}
use socle.MemPool.Pick.{chunk_sizes, HasSizes, pick_bucket-le, acquire_oversized}

pub HasSizes-set :
    (zs : List ℕ) (bs : List Bucket) (i : ℕ) (b c : Bucket)
    → HasSizes zs bs
    → get_elem? bs i ≡ some b
    → c.sz ≡ b.sz
    → HasSizes zs (set bs i c)
HasSizes-set [] [] i b c h g e = h
HasSizes-set [] (x ∷ bs) i b c h g e = absurd h
HasSizes-set (z ∷ zs) [] i b c h g e = h
HasSizes-set (z ∷ zs) (x ∷ bs) zero b c h g e = ground arith
HasSizes-set (z ∷ zs) (x ∷ bs) (suc i) b c h g e = (h.0, HasSizes-set zs bs i b c h.1 g e)

pub bucket_acquire-some :
    (b b' : Bucket) (c : Chunk)
    → bucket_acquire b ≡ some (c, b')
    → (cs : List Chunk) × (b.bucket ≡ c ∷ cs) × (b' ≡ record b { bucket = cs })
unfolding bucket_acquire
bucket_acquire-some b b' c e = go b.bucket refl
  where
    go :
        (l : List Chunk)
        → b.bucket ≡ l
        → (cs : List Chunk) × (b.bucket ≡ c ∷ cs) × (b' ≡ record b { bucket = cs })
    go [] h = absurd (ground arith)
    go (x ∷ cs) h = (cs, ground arith, ground arith)

pick_bucket-none : (s : ℕ) → pick_bucket s ≡ none → 50 * 1024 < s
unfolding pick_bucket
pick_bucket-none s e = ground arith

pub acquire-eq :
    (p : MemPool) (s i : ℕ)
    → 0 < s
    → pick_bucket s ≡ some i
    → acquire p s ≡ acquire_from p s i (get_elem? p.buckets i)
unfolding acquire
acquire-eq p s i nz e = ground arith

pub acquire-cases {ℓ} :
    (P : Chunk × MemPool → Type ℓ) (p : MemPool) (s : ℕ)
    → 0 < s
    → HasSizes chunk_sizes p.buckets
    → P (from_heap p s)
    → ((i : ℕ) (b b' : Bucket) (c : Chunk)
        → get_elem? p.buckets i ≡ some b
        → s ≤ b.sz
        → bucket_acquire b ≡ some (c, b')
        → P (
          record c { in_pool = false; origin = pool_type },
          record p { buckets = set p.buckets i b'; stats = count_acquired p.stats c.capacity },
        ))
    → P (acquire p s)
unfolding acquire_from
acquire-cases P p s nz sizes heap pooled = elim (Option-cases (pick_bucket s)) [
  | inl e ↦ rw (acquire_oversized p s sizes (pick_bucket-none s e)) heap
  | inr (i, e) ↦ rw (acquire-eq p s i nz e) (from_bucket i e)
]
  where
    from_bucket : (i : ℕ) → pick_bucket s ≡ some i → P (acquire_from p s i (get_elem? p.buckets i))
    from_bucket i e = elim (Option-cases (get_elem? p.buckets i)) [
      | inl g ↦ rw (g, acquire_from) heap
      | inr (b, g) ↦ elim (Option-cases (bucket_acquire b)) [
        | inl a ↦ rw (g, acquire_from, a) heap
        | inr ((c, b'), a) ↦
            rw (g, acquire_from, a) (pooled i b b' c g (pick_bucket-le s p.buckets i b sizes e g) a)
      ]
    ]
