-- ===== src/MemPool/Places.antt =====
-- Where the buckets lie, and what `find_ptr_size` says of a pointer.
use socle.Prelude.{
  ℕ, zero, suc, ◌≤◌, ◌<◌, ◌≡◌, refl, sym, ◌∙◌, subst, ◌⊎◌, inl, inr, true, false, none, some, List,
  [], ◌∷◌, arith, if◌then◌else◌, Bool-cases, Option-cases, get_elem?, set, All, All-get, All-set,
}
use socle.MemPool.{Stats, MemPool, find_by_address, find_ptr_size, from_heap, acquire}
use socle.MemPool.Buckets.{pool_type, Chunk, Bucket, is_mine}
use socle.MemPool.Cases.{bucket_acquire-some, acquire-cases}
use socle.MemPool.Intact.{BucketIsIntact, IsIntact, bucket_acquire-IsIntact}
use socle.MemPool.Ranges.{IsSound, All-imp}

-- `find_ptr_size` as one recursion
abbrev pub size_at : List Bucket → ℕ → ℕ
size_at [] ptr = 0
size_at (b ∷ bs) ptr = if is_mine b ptr then b.sz else size_at bs ptr

found-size_at :
    (bs : List Bucket) (ptr : ℕ)
    → elim (find_by_address bs ptr) [ none ↦ 0 | some (i, b) ↦ b.sz ] ≡ size_at bs ptr
unfolding find_by_address
found-size_at [] ptr = refl
found-size_at (b ∷ bs) ptr = elim (Bool-cases (is_mine b ptr)) [
  | inl yours ↦ rw yours
  | inr other ↦ elim (Option-cases (find_by_address bs ptr)) [
    | inl e ↦ rw (other, e) (ground (arith, found-size_at bs ptr))
    | inr ((i, c), e) ↦ rw (other, e) (ground (arith, found-size_at bs ptr))
  ]
]

pub find_ptr_size-eq-size_at : (p : MemPool) (ptr : ℕ) → find_ptr_size p ptr ≡ size_at p.buckets ptr
unfolding find_ptr_size
find_ptr_size-eq-size_at p ptr = found-size_at p.buckets ptr

-- The bucket keeps its size and its place.
abbrev pub SameShape : Bucket → Bucket → Type 0
SameShape b c = (b.sz ≡ c.sz) × (b.bigptr ≡ c.bigptr) × (b.endptr ≡ c.endptr)

abbrev pub RegionsApart : Bucket → Bucket → Type 0
RegionsApart b c = (b.endptr ≤ c.bigptr) ⊎ (c.endptr ≤ b.bigptr)

abbrev pub AreApart : List Bucket → Type 0
AreApart [] = Unit
AreApart (b ∷ bs) = All (RegionsApart b) bs × AreApart bs

abbrev pub ChunksAreMine : Bucket → Type 0
ChunksAreMine b = All (λ c. is_mine b c.ptr ≡ true) b.bucket

-- No two buckets overlap, all lie in what the heap has handed out, and each free chunk lies in its
-- bucket.
pub record IsPlaced (p : MemPool) : Type 0 where
  pub regions : AreApart p.buckets
  pub below : All (λ b. b.endptr ≤ suc p.heap.brk) p.buckets
  pub mine : All ChunksAreMine p.buckets

pub size_at-set :
    (bs : List Bucket) (i : ℕ) (b c : Bucket) (ptr : ℕ)
    → get_elem? bs i ≡ some b
    → SameShape c b
    → size_at (set bs i c) ptr ≡ size_at bs ptr
unfolding is_mine
size_at-set [] i b c ptr g s = refl
size_at-set (x ∷ bs) zero b c ptr g s = ground arith
size_at-set (x ∷ bs) (suc i) b c ptr g s = ground (arith, size_at-set bs i b c ptr g s)

size_at-get :
    (bs : List Bucket) (i : ℕ) (b : Bucket) (ptr : ℕ)
    → AreApart bs
    → get_elem? bs i ≡ some b
    → is_mine b ptr ≡ true
    → size_at bs ptr ≡ b.sz
unfolding is_mine
size_at-get [] i b ptr a g m = absurd (cc)
size_at-get (x ∷ bs) zero b ptr a g m = ground arith
size_at-get (x ∷ bs) (suc i) b ptr a g m =
    let apart = All-get (RegionsApart x) bs i b a.0 g in
    ground (arith, size_at-get bs i b ptr a.1 g m)

pub size_at_above :
    (bs : List Bucket) (brk ptr : ℕ)
    → All (λ b. b.endptr ≤ suc brk) bs
    → brk < ptr
    → size_at bs ptr ≡ 0
unfolding is_mine
size_at_above [] brk ptr h lt = refl
size_at_above (b ∷ bs) brk ptr h lt = ground (arith, size_at_above bs brk ptr h.1 lt)

AreApart-set :
    (bs : List Bucket) (i : ℕ) (b c : Bucket)
    → get_elem? bs i ≡ some b
    → SameShape c b
    → AreApart bs
    → AreApart (set bs i c)
AreApart-set [] i b c g s a = a
AreApart-set (x ∷ bs) zero b c g s a = (All-imp _ _ bs (λ y h. ground arith) a.0, a.1)
AreApart-set (x ∷ bs) (suc i) b c g s a =
    let r = All-get (RegionsApart x) bs i b a.0 g in
    (All-set (RegionsApart x) bs i c a.0 (omega arith), AreApart-set bs i b c g s a.1)

pub set-IsPlaced :
    (p p' : MemPool) (i : ℕ) (b c : Bucket)
    → get_elem? p.buckets i ≡ some b
    → SameShape c b
    → ChunksAreMine c
    → p'.buckets ≡ set p.buckets i c
    → p.heap.brk ≤ p'.heap.brk
    → IsPlaced p
    → IsPlaced p'
set-IsPlaced p p' i b c g s m e le v =
    let below =
      All-set (λ (x : Bucket). x.endptr ≤ suc p.heap.brk) p.buckets i c v.below
        (omega (
          arith,
          All-get (λ (x : Bucket). x.endptr ≤ suc p.heap.brk) p.buckets i b v.below g,
          s.2,
        )) in
    record {
      regions = subst AreApart (sym e) (AreApart-set p.buckets i b c g s v.regions);
      below =
          subst (All (λ (x : Bucket). x.endptr ≤ suc p'.heap.brk)) (sym e)
            (All-imp _ _ _ (λ x h. omega arith) below);
      mine = subst (All ChunksAreMine) (sym e) (All-set ChunksAreMine p.buckets i c v.mine m);
    }

pub heap-IsPlaced :
    (p p' : MemPool) → p'.buckets ≡ p.buckets → p.heap.brk ≤ p'.heap.brk → IsPlaced p → IsPlaced p'
heap-IsPlaced p p' e le v = record {
  regions = subst AreApart (sym e) v.regions;
  below =
      subst (All (λ (x : Bucket). x.endptr ≤ suc p'.heap.brk)) (sym e)
        (All-imp _ _ _ (λ x h. omega arith) v.below);
  mine = subst (All ChunksAreMine) (sym e) v.mine;
}

-- What a call that hands out `r.0` keeps of the places: see `acquire-Placement`.
pub record Placement (p : MemPool) (r : Chunk × MemPool) : Type 0 where
  pub placed : IsPlaced r.1
  pub same : (ptr : ℕ) → find_ptr_size r.1 ptr ≡ find_ptr_size p ptr
  pub fits : (find_ptr_size p r.0.ptr ≡ 0) ⊎ (find_ptr_size p r.0.ptr ≡ r.0.capacity)

from_heap-Placement : (p : MemPool) (s : ℕ) → IsPlaced p → Placement p (from_heap p s)
unfolding from_heap find_ptr_size
from_heap-Placement p s v = record {
  placed = heap-IsPlaced p _ refl (omega arith) v;
  same = λ ptr. refl;
  fits =
      inl
        (find_ptr_size-eq-size_at p _ ∙ size_at_above p.buckets p.heap.brk _ v.below (omega arith));
}

pooled-Placement :
    (p : MemPool) (i : ℕ) (b : Bucket) (c : Chunk) (cs : List Chunk) (st : Stats)
    → IsPlaced p
    → c.capacity ≡ b.sz
    → get_elem? p.buckets i ≡ some b
    → b.bucket ≡ c ∷ cs
    → Placement p (
      record c { in_pool = false; origin = pool_type },
      record p { buckets = set p.buckets i (record b { bucket = cs }); stats = st },
    )
unfolding is_mine
pooled-Placement p i b c cs st w cap g top =
    let b' : Bucket = record b { bucket = cs } in
    let p' : MemPool = record p { buckets = set p.buckets i b'; stats = st } in
    let mine =
      subst (All (λ (d : Chunk). is_mine b d.ptr ≡ true)) top
        (All-get ChunksAreMine p.buckets i b w.mine g) in
    record {
      placed = set-IsPlaced p p' i b b' g (refl, refl, refl) mine.1 refl (omega arith) w;
      same = λ ptr.
          find_ptr_size-eq-size_at p' ptr
          ∙ size_at-set p.buckets i b b' ptr g (refl, refl, refl)
          ∙ sym (find_ptr_size-eq-size_at p ptr);
      fits = inr (
          find_ptr_size-eq-size_at p c.ptr
          ∙ size_at-get p.buckets i b c.ptr w.regions g mine.0
          ∙ sym cap);
    }

-- `acquire` moves no bucket, so `find_ptr_size` answers as before, and of the chunk that it hands
-- out it answers the capacity, or 0 where the chunk is from the heap.
pub acquire-Placement :
    (p : MemPool) (s : ℕ) → IsIntact p → IsPlaced p → 0 < s → Placement p (acquire p s)
acquire-Placement p s v w nz =
    acquire-cases (Placement p) p s nz v.sizes (from_heap-Placement p s w) (λ i b b' c g le a.
      let (same, rest, whole) =
        bucket_acquire-IsIntact b b' c (All-get BucketIsIntact p.buckets i b v.whole g) a in
      let (cs, top, e) = bucket_acquire-some b b' c a in
      rw e (pooled-Placement p i b c cs _ w whole.0 g top))

-- The chunk has the capacity that the pool knows for its address, if the pool knows the address.
abbrev pub Fits : MemPool → Chunk → Type 0
Fits p c = (find_ptr_size p c.ptr ≡ 0) ⊎ (find_ptr_size p c.ptr ≡ c.capacity)

-- All that the pool relies on.
pub record IsWell (p : MemPool) : Type 0 where
  pub intact : IsIntact p
  pub sound : IsSound p
  pub placed : IsPlaced p
