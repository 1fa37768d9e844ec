-- ===== src/Buffer/View.antt =====
-- `view`, `fill` and `operator==` against the bytes of the buffer.
use native.Mathlib.Nat.{mod-eq_of_lt}
use socle.Prelude.{
  ℕ, zero, suc, ◌+◌, ◌-◌, ◌^◌, ◌≤◌, ◌<◌, ◌≡◌, refl, sym, ap, ◌∙◌, subst, ◌↔◌, inl, inr, true, false,
  arith, ltb, leb, Bool-cases, length, take, drop, replicate, take_all,
}
use socle.Buffer.{out_of_range, returns, throws, fill, memcmp_eq, equals, view_of, view, str}
use socle.Buffer.Frame.{IsValid, Frame}
use socle.Buffer.State.{Buffer, World}
use socle.MemPool.Places.{IsWell}
use socle.Memory.{Memory, read}
use socle.Memory.Ranges.{
  read-zero, length-read, read-memset, read-memset-Apart, take-read, drop-read,
}

-- Where `start` is in the buffer and `start + len` does not wrap, `view` does not throw and shows
-- the bytes from `start` on, at most `len` of them, without owning them.
pub view-str :
    (w : World) (b : Buffer) (start len : ℕ)
    → start + len < 2 ^ 64
    → start < b.size_
    → (x : Buffer) × (view b start len ≡ returns x)
      × (x.free_ ≡ false)
      × (str w x ≡ take len (drop start (str w b)))
unfolding view str
view-str w b start len fits lt = elim (Bool-cases (leb (start + len) b.size_)) [
  | inl inside ↦ (
    view_of (b.data_ + start) len,
    ground (arith, mod-eq_of_lt fits),
    refl,
    sym (
        ap (take len) (drop-read w.mem b.data_ start b.size_ (omega arith))
        ∙ take-read w.mem (b.data_ + start) len (b.size_ - start) (ground arith)),
  )
  | inr beyond ↦ (
    view_of (b.data_ + start) (b.size_ - start),
    ground (arith, mod-eq_of_lt fits),
    refl,
    sym (
        ap (take len) (drop-read w.mem b.data_ start b.size_ (omega arith))
        ∙ take_all len (read w.mem (b.data_ + start) (b.size_ - start))
            (ground (arith, length-read w.mem (b.data_ + start) (b.size_ - start)))),
  )
]

pub view_throws :
    (b : Buffer) (start len : ℕ) → b.size_ ≤ start → view b start len ≡ throws out_of_range
unfolding view
view_throws b start len le = ground arith

-- Where `start` is in the buffer and `start + len` wraps at 64 bits, `view` hands out a buffer of
-- `len` bytes that reaches beyond this one.
pub view_wraps :
    (b : Buffer) (start len : ℕ)
    → start < b.size_
    → b.size_ < 2 ^ 64
    → len < 2 ^ 64
    → 2 ^ 64 ≤ start + len
    → (view b start len ≡ returns (view_of (b.data_ + start) len)) × (b.size_ < start + len)
unfolding view
view_wraps b start len lt small fits wraps = ground arith

-- `fill` sets every byte, and touches nothing that others hold.
pub fill-str :
    (w : World) (b : Buffer) (v : ℕ)
    → IsWell w.pool
    → IsValid w b
    → Frame w b (fill w b v) b × (str (fill w b v) b ≡ replicate b.size_ v)
unfolding fill str
fill-str w b v well u = elim (Bool-cases (ltb 0 b.size_)) [
  | inl some_bytes ↦ rw some_bytes (
    record {
      well = well;
      valid = record { within = u.within; held = u.held; fits = u.fits };
      mode = refl;
      others = λ q k h a.
          (h, a, read-memset-Apart w.mem b.data_ v b.size_ q k (omega (arith, u.within)));
    },
    read-memset w.mem b.data_ v b.size_,
  )
  | inr nothing ↦
      let z : b.size_ ≡ 0 = ground arith in
      rw nothing (
        record { well = well; valid = u; mode = refl; others = λ q k h a. (h, a, refl) },
        subst (λ (n : ℕ). read w.mem b.data_ n ≡ replicate n v) (sym z) (read-zero w.mem b.data_),
      )
]

memcmp_eq_iff : (m : Memory) (p q n : ℕ) → (memcmp_eq m p q n ≡ true) ↔ (read m p n ≡ read m q n)
unfolding memcmp_eq read
memcmp_eq_iff m p q zero = (λ e. refl, λ e. refl)
memcmp_eq_iff m p q (suc n) = ground (arith, memcmp_eq_iff m (suc p) (suc q) n)

-- Two buffers compare equal exactly if they hold the same bytes.
pub equals_iff : (w : World) (a b : Buffer) → (equals w a b ≡ true) ↔ (str w a ≡ str w b)
unfolding equals str
equals_iff w a b = (
  λ e.
      let same : a.size_ ≡ b.size_ = ground arith in
      let bytes : memcmp_eq w.mem a.data_ b.data_ a.size_ ≡ true = ground arith in
      (memcmp_eq_iff w.mem a.data_ b.data_ a.size_).0 bytes ∙ ap (read w.mem b.data_) same,
  λ e.
      let same : a.size_ ≡ b.size_ =
        sym (length-read w.mem a.data_ a.size_) ∙ ap length e ∙ length-read w.mem b.data_ b.size_ in
      let bytes =
        (memcmp_eq_iff w.mem a.data_ b.data_ a.size_).1 (e ∙ ap (read w.mem b.data_) (sym same)) in
      ground (arith, same, bytes),
)
