-- ===== src/MemPool/Ranges.antt =====
-- The ranges of memory that the pool's free chunks occupy, and those that somebody holds.
use mathlib.Core.Option.{some-injective}
use socle.Prelude.{
  ℕ, zero, suc, ◌+◌, ◌≤◌, ◌<◌, ◌≡◌, sym, subst, false, some, List, [], ◌∷◌, arith, get_elem?, set,
  All, All-get, All-set,
}
use socle.MemPool.{MemPool, from_heap, count_acquired, acquire}
use socle.MemPool.Buckets.{pool_type, Chunk, Bucket, bucket_acquire}
use socle.MemPool.Cases.{bucket_acquire-some, acquire-cases}
use socle.MemPool.Intact.{IsWhole, BucketIsIntact, IsIntact, bucket_acquire-IsIntact}
use socle.Memory.{Apart}

-- The range is apart from every free chunk.
abbrev pub Outside : ℕ → ℕ → List Bucket → Type 0
Outside q n bs = All (λ b. All (λ c. Apart q n c.ptr b.sz) b.bucket) bs

abbrev pub ChunksAreSeparate : ℕ → List Chunk → Type 0
ChunksAreSeparate z [] = Unit
ChunksAreSeparate z (c ∷ cs) = All (λ d. Apart c.ptr z d.ptr z) cs × ChunksAreSeparate z cs

-- No two free chunks share a byte.
abbrev pub BucketsAreSeparate : List Bucket → Type 0
BucketsAreSeparate [] = Unit
BucketsAreSeparate (b ∷ bs) =
    ChunksAreSeparate b.sz b.bucket
    × All (λ c. Outside c.ptr b.sz bs) b.bucket
    × BucketsAreSeparate bs

abbrev pub BucketIsBelow : ℕ → Bucket → Type 0
BucketIsBelow brk b = All (λ c. c.ptr + b.sz ≤ brk) b.bucket

-- The free chunks share no byte, and the heap has handed all of them out.
pub record IsSound (p : MemPool) : Type 0 where
  pub separate : BucketsAreSeparate p.buckets
  pub below : All (BucketIsBelow p.heap.brk) p.buckets

-- The `n` bytes at `q` come from the heap and are in no free chunk: somebody holds them.
pub record IsHeld (p : MemPool) (q n : ℕ) : Type 0 where
  pub outside : Outside q n p.buckets
  pub allocated : q + n ≤ p.heap.brk

Apart-symm : (p n q k : ℕ) → Apart p n q k → Apart q k p n
Apart-symm p n q k h = omega arith

pub All-imp {ℓ κ μ} :
    {A : Type ℓ} (P : A → Type κ) (Q : A → Type μ) (xs : List A)
    → ((x : A) → P x → Q x)
    → All P xs
    → All Q xs
All-imp P Q [] f h = tt
All-imp P Q (x ∷ xs) f h = (f x h.0, All-imp P Q xs f h.1)

-- What taking the top chunk `c` of bucket `i` does to the free chunks.
pub record Takes (bs bs' : List Bucket) (ptr z : ℕ) : Type 0 where
  pub separate : BucketsAreSeparate bs'
  pub taken : Outside ptr z bs'
  pub others : (q n : ℕ) → Outside q n bs → Outside q n bs' × Apart q n ptr z

take_first :
    (bs : List Bucket) (b : Bucket) (c : Chunk) (cs : List Chunk)
    → BucketsAreSeparate (b ∷ bs)
    → b.bucket ≡ c ∷ cs
    → Takes (b ∷ bs) (record b { bucket = cs } ∷ bs) c.ptr b.sz
take_first bs b c cs s e =
    let (apart, outside, rest) =
      subst
        (λ (l : List Chunk).
          ChunksAreSeparate b.sz l × All (λ d. Outside d.ptr b.sz bs) l × BucketsAreSeparate bs)
        e s in
    record {
      separate = (apart.1, outside.1, rest);
      taken = (apart.0, outside.0);
      others = λ q n h.
          let top = subst (All (λ (d : Chunk). Apart q n d.ptr b.sz)) e h.0 in
          ((top.1, h.1), top.0);
    }

take_top :
    (bs : List Bucket) (i : ℕ) (b : Bucket) (c : Chunk) (cs : List Chunk)
    → BucketsAreSeparate bs
    → get_elem? bs i ≡ some b
    → b.bucket ≡ c ∷ cs
    → Takes bs (set bs i (record b { bucket = cs })) c.ptr b.sz
take_top [] i b c cs s g e = absurd (cc)
take_top (a ∷ bs) zero b c cs s g e =
    let same = some-injective a b g in
    subst (λ (x : Bucket). Takes (x ∷ bs) (record b { bucket = cs } ∷ bs) c.ptr b.sz) (sym same)
      (take_first bs b c cs (subst (λ (x : Bucket). BucketsAreSeparate (x ∷ bs)) same s) e)
take_top (a ∷ bs) (suc i) b c cs s g e =
    let ih = take_top bs i b c cs s.2 g e in
    record {
      separate = (s.0, All-imp _ _ a.bucket (λ d h. (ih.others d.ptr a.sz h).0) s.1, ih.separate);
      taken = (
        All-imp _ _ a.bucket (λ d h. Apart-symm _ _ _ _ (ih.others d.ptr a.sz h).1) s.1,
        ih.taken,
      );
      others = λ q n h. let (o, x) = ih.others q n h.1 in ((h.0, o), x);
    }

abbrev pub after_acquire : MemPool → ℕ → MemPool
after_acquire p s = (acquire p s).1

-- What a call of `acquire` promises: see `acquire-Grants`.
pub record Grants (p : MemPool) (r : Chunk × MemPool) : Type 0 where
  pub sound : IsSound r.1
  pub held : IsHeld r.1 r.0.ptr r.0.capacity
  pub others : (q n : ℕ) → IsHeld p q n → IsHeld r.1 q n × Apart q n r.0.ptr r.0.capacity

from_heap-Grants : (p : MemPool) (s : ℕ) → IsSound p → Grants p (from_heap p s)
unfolding from_heap
from_heap-Grants p s v = record {
  sound = record {
    separate = v.separate;
    below = All-imp _ _ p.buckets (λ b h. All-imp _ _ b.bucket (λ c k. omega arith) h) v.below;
  };
  held = record {
    outside = All-imp _ _ p.buckets (λ b h. All-imp _ _ b.bucket (λ c k. omega arith) h) v.below;
    allocated = omega arith;
  };
  others = λ q n h. (
    record { outside = h.outside; allocated = omega (arith, h.allocated) },
    omega (arith, h.allocated),
  );
}

pooled-Grants :
    (p : MemPool) (i : ℕ) (b b' : Bucket) (c : Chunk)
    → IsSound p
    → IsWhole b.sz c
    → get_elem? p.buckets i ≡ some b
    → bucket_acquire b ≡ some (c, b')
    → Grants p (
      record c { in_pool = false; origin = pool_type },
      record p { buckets = set p.buckets i b'; stats = count_acquired p.stats c.capacity },
    )
pooled-Grants p i b b' c v w g a =
    let (cs, top, rest) = bucket_acquire-some b b' c a in
    let t = take_top p.buckets i b c cs v.separate g top in
    let below = All-get (BucketIsBelow p.heap.brk) p.buckets i b v.below g in
    let below' = subst (All (λ (d : Chunk). d.ptr + b.sz ≤ p.heap.brk)) top below in
    rw (rest, w.0)
      (record {
        sound = record {
          separate = t.separate;
          below = All-set (BucketIsBelow p.heap.brk) p.buckets i _ v.below below'.1;
        };
        held = record { outside = t.taken; allocated = below'.0 };
        others = λ q n h.
            let (o, x) = t.others q n h.outside in
            (record { outside = o; allocated = h.allocated }, x);
      })

-- `acquire` keeps the free chunks disjoint; the chunk that it hands out is held, and shares no byte
-- with any range that was held before, which stays held.
pub acquire-Grants : (p : MemPool) (s : ℕ) → IsIntact p → IsSound p → 0 < s → Grants p (acquire p s)
acquire-Grants p s v w nz =
    acquire-cases (Grants p) p s nz v.sizes (from_heap-Grants p s w) (λ i b b' c g le a.
      let (same, rest, whole) =
        bucket_acquire-IsIntact b b' c (All-get BucketIsIntact p.buckets i b v.whole g) a in
      pooled-Grants p i b b' c w whole g a)
