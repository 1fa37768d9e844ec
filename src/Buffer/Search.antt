-- ===== src/Buffer/Search.antt =====
-- `find` and `rfind` against the bytes of the buffer.
use socle.Prelude.{
  ℕ, zero, suc, ◌+◌, ◌-◌, ◌≤◌, ◌<◌, min, ◌≡◌, refl, sym, ap, ◌∙◌, subst, ◌≢◌, ◌⊎◌, inl, inr, false,
  ◌||◌, Option, none, some, arith, ltb, leb, ◌==◌, if◌then◌else◌, ==_iff, Bool-cases,
}
use socle.Buffer.{npos, memchr, find, rfind_from, rfind}
use socle.Buffer.State.{Buffer, World}
use socle.Memory.{Memory}

-- No byte `v` at the offsets from `lo` up to `hi`.
abbrev pub Lacks : Memory → ℕ → ℕ → ℕ → ℕ → Type 0
Lacks m p v lo hi = (j : ℕ) → lo ≤ j → j < hi → m (p + j) ≢ v

abbrev Finds : Memory → ℕ → ℕ → ℕ → Option ℕ → Type 0
Finds m p v n none = Lacks m p v 0 n
Finds m p v n (some i) = (i < n) × (m (p + i) ≡ v) × Lacks m p v 0 i

Lacks-suc : (m : Memory) (p v n : ℕ) → m p ≢ v → Lacks m (suc p) v 0 n → Lacks m p v 0 (suc n)
Lacks-suc m p v n h l zero lo hi e = h (let z : p ≡ p + 0 = omega arith in ap m z ∙ e)
Lacks-suc m p v n h l (suc j) lo hi e =
    l j (omega arith) (omega arith) (let z : suc p + j ≡ p + suc j = omega arith in ap m z ∙ e)

Finds-suc :
    (m : Memory) (p v n : ℕ) (r : Option ℕ)
    → m p ≢ v
    → Finds m (suc p) v n r
    → Finds m p v (suc n) (elim r [ none ↦ none | some i ↦ some (suc i) ])
Finds-suc m p v n none h f = Lacks-suc m p v n h f
Finds-suc m p v n (some i) h f = (
  omega arith,
  (let z : p + suc i ≡ suc p + i = omega arith in ap m z ∙ f.1),
  Lacks-suc m p v i h f.2,
)

memchr-Finds : (m : Memory) (p v n : ℕ) → Finds m p v n (memchr m p v n)
unfolding memchr
memchr-Finds m p v zero = λ j lo hi e. elim hi [ ]
memchr-Finds m p v (suc n) = elim (Bool-cases (m p == v)) [
  | inl hit ↦ rw hit (
    omega arith,
    (let z : p + 0 ≡ p = omega arith in ap m z ∙ (==_iff (m p) v).0 hit),
    λ j lo hi e. elim hi [ ],
  )
  | inr miss ↦
      rw miss (Finds-suc m p v n (memchr m (suc p) v n) (ground arith) (memchr-Finds m (suc p) v n))
]

-- What a search from `lo` up to `hi` reports: a place that holds the byte with none before it, or
-- `npos` and no place.
abbrev pub FirstAt : World → Buffer → ℕ → ℕ → ℕ → Type 0
FirstAt w b v lo r =
    ((r ≡ npos) × Lacks w.mem b.data_ v lo b.size_)
    ⊎ ((lo ≤ r) × (r < b.size_) × (w.mem (b.data_ + r) ≡ v) × Lacks w.mem b.data_ v lo r)

Lacks-shift :
    (m : Memory) (p v lo n hi : ℕ) → hi ≤ lo + n → Lacks m (p + lo) v 0 n → Lacks m p v lo hi
Lacks-shift m p v lo n hi le l j h k e =
    l (j - lo) (omega arith) (omega arith)
      (let z : p + lo + (j - lo) ≡ p + j = omega arith in ap m z ∙ e)

-- `find` returns the first offset of the byte from `lo` on, or `npos` if the buffer holds none
-- there.
pub find-FirstAt : (w : World) (b : Buffer) (v lo : ℕ) → FirstAt w b v lo (find w b v lo)
unfolding find
find-FirstAt w b v lo = elim (Bool-cases (b.size_ == 0 || leb b.size_ lo)) [
  | inl out ↦ rw out (inl (refl, λ j h k e. ground arith))
  | inr inside ↦ rw inside (
      go (memchr w.mem (b.data_ + lo) v (b.size_ - lo))
        (memchr-Finds w.mem (b.data_ + lo) v (b.size_ - lo)))
]
  where
    go :
        (r : Option ℕ)
        → Finds w.mem (b.data_ + lo) v (b.size_ - lo) r
        → FirstAt w b v lo (elim r [ none ↦ npos | some i ↦ lo + i ])
    go none f = inl (refl, Lacks-shift w.mem b.data_ v lo (b.size_ - lo) b.size_ (omega arith) f)
    go (some i) f = inr (
      omega arith,
      omega arith,
      (let z : b.data_ + (lo + i) ≡ b.data_ + lo + i = omega arith in ap w.mem z ∙ f.1),
      Lacks-shift w.mem b.data_ v lo i (lo + i) (omega arith) f.2,
    )

-- What a search downwards from `hi - 1` reports.
abbrev pub LastAt : Memory → ℕ → ℕ → ℕ → ℕ → Type 0
LastAt m p v hi r =
    ((r ≡ npos) × Lacks m p v 0 hi) ⊎ ((r < hi) × (m (p + r) ≡ v) × Lacks m p v (suc r) hi)

rfind_from-LastAt : (m : Memory) (p v n : ℕ) → LastAt m p v n (rfind_from m p v n)
unfolding rfind_from
rfind_from-LastAt m p v zero = inl (refl, λ j lo hi e. elim hi [ ])
rfind_from-LastAt m p v (suc n) = elim (Bool-cases (m (p + n) == v)) [
  | inl hit ↦ rw hit (inr (omega arith, (==_iff _ v).0 hit, λ j lo hi e. omega arith))
  | inr miss ↦ rw miss (down (rfind_from m p v n) (ground arith) (rfind_from-LastAt m p v n))
]
  where
    step : (lo : ℕ) → m (p + n) ≢ v → Lacks m p v lo n → Lacks m p v lo (suc n)
    step lo h l j lo' hi e = elim (Bool-cases (j == n)) [
      | inl same ↦ h (ap (λ k. m (p + k)) (sym ((==_iff j n).0 same)) ∙ e)
      | inr other ↦ l j lo' (ground arith) e
    ]

    down : (r : ℕ) → m (p + n) ≢ v → LastAt m p v n r → LastAt m p v (suc n) r
    down r h (inl f) = inl (f.0, step 0 h f.1)
    down r h (inr f) = inr (omega arith, f.1, step (suc r) h f.2)

-- `rfind` returns the last offset of the byte that is at most `hi`, or `npos` if the buffer holds
-- none there.
pub rfind-LastAt :
    (w : World) (b : Buffer) (v hi : ℕ)
    → LastAt w.mem b.data_ v (min b.size_ (suc hi)) (rfind w b v hi)
unfolding rfind
rfind-LastAt w b v hi = elim (Bool-cases (b.size_ == 0)) [
  | inl none_left ↦ rw none_left (inl (refl, λ j lo h e. ground arith))
  | inr some_left ↦ rw some_left (
      subst (λ n. LastAt w.mem b.data_ v n (rfind_from w.mem b.data_ v start)) (bound some_left)
        (rfind_from-LastAt w.mem b.data_ v start))
]
  where
    start : ℕ
    start = (if ltb hi (b.size_ - 1) then hi else b.size_ - 1) + 1

    bound : (b.size_ == 0) ≡ false → start ≡ min b.size_ (suc hi)
    bound e = ground arith
