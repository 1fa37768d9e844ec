-- ===== src/MemPool/Intact.antt =====
-- What `acquire` hands out is as large as asked, as long as chunks come back with the capacity
-- that they had.
use socle.Prelude.{
  ℕ, ◌≤◌, ◌<◌, ◌≡◌, refl, subst, inl, inr, some, ◌∷◌, arith, ◌==◌, Bool-cases, All, All-get,
  All-set,
}
use socle.MemPool.{MemPool, from_heap, acquire}
use socle.MemPool.Buckets.{Chunk, Bucket, bucket_acquire}
use socle.MemPool.Cases.{HasSizes-set, bucket_acquire-some, acquire-cases}
use socle.MemPool.Pick.{chunk_sizes, HasSizes}

abbrev pub IsWhole : ℕ → Chunk → Type 0
IsWhole z c = (c.capacity ≡ z) × (0 < c.ptr)

abbrev pub BucketIsIntact : Bucket → Type 0
BucketIsIntact b = All (IsWhole b.sz) b.bucket

-- The buckets have the sizes of the source, and each free chunk has its bucket's size.
pub record IsIntact (p : MemPool) : Type 0 where
  pub sizes : HasSizes chunk_sizes p.buckets
  pub whole : All BucketIsIntact p.buckets

pub bucket_acquire-IsIntact :
    (b b' : Bucket) (c : Chunk)
    → BucketIsIntact b
    → bucket_acquire b ≡ some (c, b')
    → (b'.sz ≡ b.sz) × BucketIsIntact b' × IsWhole b.sz c
bucket_acquire-IsIntact b b' c h e =
    let (cs, top, rest) = bucket_acquire-some b b' c e in
    let h' : All (IsWhole b.sz) (c ∷ cs) = subst (All (IsWhole b.sz)) top h in
    rw rest (refl, h'.1, h'.0)

-- `acquire` never hands out less than was asked for, nor a null pointer.
pub acquire-capacity :
    (p : MemPool) (s : ℕ)
    → IsIntact p
    → 0 < s
    → (s ≤ (acquire p s).0.capacity) × (0 < (acquire p s).0.ptr)
acquire-capacity p s v nz =
    acquire-cases (λ r. (s ≤ r.0.capacity) × (0 < r.0.ptr)) p s nz v.sizes
      (unfold from_heap in omega arith)
      (λ i b b' c g le a.
        let (same, rest, whole) =
          bucket_acquire-IsIntact b b' c (All-get BucketIsIntact p.buckets i b v.whole g) a in
        omega arith)

pub acquire-IsIntact : (p : MemPool) (s : ℕ) → IsIntact p → IsIntact (acquire p s).1
unfolding acquire from_heap
acquire-IsIntact p s v = elim (Bool-cases (s == 0)) [
  | inl z ↦ rw (z, acquire) v
  | inr nz ↦
      acquire-cases (λ r. IsIntact r.1) p s (ground arith) v.sizes
        (record { sizes = v.sizes; whole = v.whole })
        (λ i b b' c g le a.
          let (same, rest, whole) =
            bucket_acquire-IsIntact b b' c (All-get BucketIsIntact p.buckets i b v.whole g) a in
          record {
            sizes = HasSizes-set chunk_sizes p.buckets i b b' v.sizes g same;
            whole = All-set BucketIsIntact p.buckets i b' v.whole rest;
          })
]
