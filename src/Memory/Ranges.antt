-- ===== src/Memory/Ranges.antt =====
-- What a range of memory holds after a write, and when two ranges are apart.
use Prim.Native.Nat.add
use mathlib.Core.Path.{ap₂}
use native.Mathlib.Nat.{suc-add}
use socle.Prelude.{
  ℕ, zero, suc, ◌+◌, ◌-◌, ◌≤◌, ◌<◌, ◌≡◌, refl, ap, ◌∙◌, subst, ◌⊎◌, none, some, List, [], ◌∷◌, ◌++◌,
  arith, ltb, if◌then◌else◌, length, get_elem?, take, drop, replicate, length-replicate,
}
use socle.Memory.{Memory, read, write, memcpy, memset, Apart}

pub read-zero : (m : Memory) (p : ℕ) → read m p 0 ≡ []
unfolding read
read-zero m p = refl

pub length-read : (m : Memory) (p n : ℕ) → length (read m p n) ≡ n
unfolding read
length-read m p zero = refl
length-read m p (suc n) = ap suc (length-read m (suc p) n)

pub read-add : (m : Memory) (p a b : ℕ) → read m p (a + b) ≡ read m p a ++ read m (p + a) b
unfolding read
read-add m p zero b = let e : p + 0 ≡ p = omega arith in rw (e, add.zero b) refl
read-add m p (suc a) b =
    let e : p + suc a ≡ suc p + a = omega arith in
    rw (suc-add a b, e) (ap (◌∷◌ (m p)) (read-add m (suc p) a b))

write_outside :
    (m : Memory) (p : ℕ) (bs : List ℕ) (q : ℕ)
    → (q < p) ⊎ (p + length bs ≤ q)
    → write m p bs q ≡ m q
unfolding write
write_outside m p [] q h = refl
write_outside m p (b ∷ bs) q h = ground (arith, write_outside m (suc p) bs q)

-- A write leaves every range that is apart from it as it was.
pub read-write-Apart :
    (m : Memory) (p : ℕ) (bs : List ℕ) (q n : ℕ)
    → Apart p (length bs) q n
    → read (write m p bs) q n ≡ read m q n
unfolding read
read-write-Apart m p bs q zero h = refl
read-write-Apart m p bs q (suc n) h =
    ground (arith, write_outside m p bs q, read-write-Apart m p bs (suc q) n)

read-write-cons :
    (m : Memory) (p b : ℕ) (bs : List ℕ) (q n : ℕ)
    → p < q
    → read (write m p (b ∷ bs)) q n ≡ read (write m (suc p) bs) q n
unfolding read write
read-write-cons m p b bs q zero h = refl
read-write-cons m p b bs q (suc n) h = ground (arith, read-write-cons m p b bs (suc q) n)

-- The range that was written holds what was written.
pub read-write_self : (m : Memory) (p : ℕ) (bs : List ℕ) → read (write m p bs) p (length bs) ≡ bs
unfolding read
read-write_self m p [] = refl
read-write_self m p (b ∷ bs) = ground (
  arith,
  write_self m p b bs,
  read-write-cons m p b bs (suc p) (length bs),
  read-write_self m (suc p) bs,
)
  where
    write_self : (m : Memory) (p b : ℕ) (bs : List ℕ) → write m p (b ∷ bs) p ≡ b
    write_self m p b bs = unfold write in ground arith

pub read-memcpy : (m : Memory) (dst src n : ℕ) → read (memcpy m dst src n) dst n ≡ read m src n
unfolding memcpy
read-memcpy m dst src n =
    subst (λ k. read (write m dst (read m src n)) dst k ≡ read m src n) (length-read m src n)
      (read-write_self m dst (read m src n))

pub read-memcpy-Apart :
    (m : Memory) (dst src n q k : ℕ) → Apart dst n q k → read (memcpy m dst src n) q k ≡ read m q k
unfolding memcpy
read-memcpy-Apart m dst src n q k h =
    read-write-Apart m dst (read m src n) q k (rw (length-read m src n) h)

pub read-memset : (m : Memory) (dst v n : ℕ) → read (memset m dst v n) dst n ≡ replicate n v
unfolding memset
read-memset m dst v n =
    subst (λ k. read (write m dst (replicate n v)) dst k ≡ replicate n v) (length-replicate n v)
      (read-write_self m dst (replicate n v))

pub read-memset-Apart :
    (m : Memory) (dst v n q k : ℕ) → Apart dst n q k → read (memset m dst v n) q k ≡ read m q k
unfolding memset
read-memset-Apart m dst v n q k h =
    read-write-Apart m dst (replicate n v) q k (rw (length-replicate n v) h)

pub take-read : (m : Memory) (p n k : ℕ) → n ≤ k → take n (read m p k) ≡ read m p n
unfolding read
take-read m p zero k h = refl
take-read m p (suc n) zero h = absurd (omega arith)
take-read m p (suc n) (suc k) h = ap (◌∷◌ (m p)) (take-read m (suc p) n k (omega arith))

pub drop-read : (m : Memory) (p n k : ℕ) → n ≤ k → drop n (read m p k) ≡ read m (p + n) (k - n)
unfolding read
drop-read m p zero k h = ap₂ (read m) (omega arith) (omega arith)
drop-read m p (suc n) zero h = absurd (omega arith)
drop-read m p (suc n) (suc k) h =
    unfold read in drop-read m (suc p) n k (omega arith) ∙ ap₂ (read m) (omega arith) (omega arith)

-- An index reads the byte at its offset, and nothing beyond the end.
pub get_elem?-read :
    (m : Memory) (p k i : ℕ)
    → get_elem? (read m p k) i ≡ (if ltb i k then some (m (p + i)) else none)
unfolding read
get_elem?-read m p zero i = ground arith
get_elem?-read m p (suc k) zero = let e : p + 0 ≡ p = omega arith in ground (arith, ap m e)
get_elem?-read m p (suc k) (suc i) =
    let e : suc p + i ≡ p + suc i = omega arith in
    ground (arith, get_elem?-read m (suc p) k i, ap m e)
