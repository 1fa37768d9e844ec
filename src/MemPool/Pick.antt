-- ===== src/MemPool/Pick.antt =====
-- Which bucket `pick_bucket` and `tryhard_available` choose.
use socle.Prelude.{
  ℕ, zero, suc, ◌*◌, ◌≤◌, ◌<◌, ◌≡◌, refl, sym, ◌∙◌, Option, none, some, List, [], ◌∷◌, arith, leb,
  if◌then◌else◌, length, get_elem?,
}
use socle.MemPool.{
  MemPool, pick_bucket, tryhard_from, tryhard_available, from_heap, acquire_large, acquire,
}
use socle.MemPool.Buckets.{Bucket}

-- the chunk sizes of the members `bucket_32` .. `bucket_50k`
abbrev pub chunk_sizes : List ℕ
chunk_sizes =
    32 ∷ 64 ∷ 128 ∷ 256 ∷ 1024 ∷ 5 * 1024 ∷ 10 * 1024 ∷ 20 * 1024 ∷ 35 * 1024 ∷ 50 * 1024 ∷ []

-- The index of the first size that holds `s` bytes.
abbrev pub first_fit : ℕ → List ℕ → Option ℕ
first_fit s [] = none
first_fit s (z ∷ zs) =
    if leb s z then some 0 else elim (first_fit s zs) [ none ↦ none | some i ↦ some (suc i) ]

abbrev pub HasSizes : List ℕ → List Bucket → Type 0
HasSizes [] [] = Unit
HasSizes [] (b ∷ bs) = ⊥
HasSizes (z ∷ zs) [] = ⊥
HasSizes (z ∷ zs) (b ∷ bs) = (b.sz ≡ z) × HasSizes zs bs

-- `pick_bucket` chooses the first member whose chunk size holds the request, and no member exactly
-- where no chunk size does.
pub pick_bucket-eq-first_fit : (s : ℕ) → pick_bucket s ≡ first_fit s chunk_sizes
unfolding pick_bucket
pick_bucket-eq-first_fit s = ground arith

pub first_fit-le :
    (s : ℕ) (zs : List ℕ) (bs : List Bucket) (i : ℕ) (b : Bucket)
    → HasSizes zs bs
    → first_fit s zs ≡ some i
    → get_elem? bs i ≡ some b
    → s ≤ b.sz
first_fit-le s [] bs i b sizes e g = cc
first_fit-le s (z ∷ zs) [] i b sizes e g = cc
first_fit-le s (z ∷ zs) (c ∷ bs) zero b sizes e g = ground arith
first_fit-le s (z ∷ zs) (c ∷ bs) (suc i) b sizes e g =
    ground (arith, first_fit-le s zs bs i b sizes.1)

pub pick_bucket-le :
    (s : ℕ) (bs : List Bucket) (i : ℕ) (b : Bucket)
    → HasSizes chunk_sizes bs
    → pick_bucket s ≡ some i
    → get_elem? bs i ≡ some b
    → s ≤ b.sz
pick_bucket-le s bs i b sizes e g =
    first_fit-le s chunk_sizes bs i b sizes (sym (pick_bucket-eq-first_fit s) ∙ e) g

pub HasSizes-get :
    (zs : List ℕ) (bs : List Bucket) (i : ℕ)
    → HasSizes zs bs
    → i < length zs
    → (b : Bucket) × (get_elem? bs i ≡ some b)
HasSizes-get [] bs i sizes h = absurd (omega arith)
HasSizes-get (z ∷ zs) [] i sizes h = absurd sizes
HasSizes-get (z ∷ zs) (b ∷ bs) zero sizes h = (b, refl)
HasSizes-get (z ∷ zs) (b ∷ bs) (suc i) sizes h = HasSizes-get zs bs i sizes.1 (omega arith)

pub tryhard_available-none :
    (s : ℕ) (bs : List Bucket) → HasSizes chunk_sizes bs → 128 < s → tryhard_available s bs ≡ none
unfolding tryhard_available tryhard_from
tryhard_available-none s (b₀ ∷ b₁ ∷ b₂ ∷ b₃ ∷ bs) sizes h = ground arith
tryhard_available-none s [] sizes h = refl
tryhard_available-none s (b₀ ∷ []) sizes h = absurd sizes.1
tryhard_available-none s (b₀ ∷ b₁ ∷ []) sizes h = absurd sizes.1.1
tryhard_available-none s (b₀ ∷ b₁ ∷ b₂ ∷ []) sizes h = absurd sizes.1.1.1

-- A request above the largest chunk size is always served from the heap: the search for a larger
-- chunk that `acquire` makes first looks at the three smallest buckets only and finds nothing.
pub acquire_oversized :
    (p : MemPool) (s : ℕ)
    → HasSizes chunk_sizes p.buckets
    → 50 * 1024 < s
    → acquire p s ≡ from_heap p s
unfolding acquire acquire_large pick_bucket
acquire_oversized p s sizes h = ground (arith, tryhard_available-none s p.buckets)
