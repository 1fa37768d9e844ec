-- ===== src/Crc/Shifts.antt =====
-- The table against the definition of the sum, bit by bit.
use Prim.Native.Nat.{bit_and, bit_xor}
use socle.Prelude.{
  ℕ, zero, suc, ◌+◌, ◌*◌, ◌/◌, ◌%◌, ◌<◌, ◌≡◌, refl, sym, ap, ◌∙◌, ◌⊎◌, inl, inr, Bool, true, ◌&&◌,
  List, [], ◌∷◌, arith, ◌==◌, ==_iff, if◌then◌else◌,
}
use socle.Crc.{table_at, tab, all_ones, compute_bytes, compute}
use socle.Crc.Bits.{
  bit_xor_step, bit_xor-half, bit_xor-parity, bit_xor-zero, bit_xor_comm, bit_xor_assoc,
  bit_and-byte,
}

-- The generator polynomial of CRC-32, its lowest term in the highest bit.
abbrev polynomial : ℕ
polynomial = 0xedb88320

-- What the lowest bit of a register adds to it as it is shifted out.
fed_back : ℕ → ℕ
fed_back y = if y % 2 == 0 then 0 else polynomial

shifted : ℕ → ℕ
shifted y = bit_xor (y / 2) (fed_back y)

pub shift_bits : ℕ → ℕ → ℕ
shift_bits zero y = y
shift_bits (suc k) y = shift_bits k (shifted y)

-- The register after bytes, each added at its low end and shifted through bit by bit.
abbrev pub register_after : ℕ → List ℕ → ℕ
register_after crc [] = crc
register_after crc (b ∷ bs) = register_after (shift_bits 8 (bit_xor crc b)) bs

abbrev pub crc_of : ℕ → List ℕ → ℕ
crc_of crc bs = bit_xor (register_after (bit_xor crc all_ones) bs) all_ones

interchange :
    (a b c d : ℕ) → bit_xor (bit_xor a b) (bit_xor c d) ≡ bit_xor (bit_xor a c) (bit_xor b d)
interchange a b c d =
    bit_xor_assoc a b (bit_xor c d)
    ∙ ap (bit_xor a)
        (sym (bit_xor_assoc b c d) ∙ ap (λ x. bit_xor x d) (bit_xor_comm b c) ∙ bit_xor_assoc c b d)
    ∙ sym (bit_xor_assoc a c (bit_xor b d))

parity_cases : (y : ℕ) → (y % 2 ≡ 0) ⊎ (y % 2 ≡ 1)
parity_cases y = ground arith

fed_back-even : (y : ℕ) → y % 2 ≡ 0 → fed_back y ≡ 0
unfolding fed_back
fed_back-even y e = rw e refl

fed_back-odd : (y : ℕ) → y % 2 ≡ 1 → fed_back y ≡ polynomial
unfolding fed_back
fed_back-odd y e = rw e refl

fed_back-bit_xor : (a b : ℕ) → fed_back (bit_xor a b) ≡ bit_xor (fed_back a) (fed_back b)
fed_back-bit_xor a b = elim (parity_cases a) [
  | inl e ↦ elim (parity_cases b) [
    | inl f ↦
        rw (fed_back-even a e, fed_back-even b f)
          (fed_back-even (bit_xor a b) (omega (arith, bit_xor-parity a b)))
    | inr f ↦
        rw (fed_back-even a e, fed_back-odd b f)
          (fed_back-odd (bit_xor a b) (omega (arith, bit_xor-parity a b)))
  ]
  | inr e ↦ elim (parity_cases b) [
    | inl f ↦
        rw (fed_back-odd a e, fed_back-even b f)
          (fed_back-odd (bit_xor a b) (omega (arith, bit_xor-parity a b)))
    | inr f ↦
        rw (fed_back-odd a e, fed_back-odd b f)
          (fed_back-even (bit_xor a b) (omega (arith, bit_xor-parity a b)))
  ]
]

shifted-bit_xor : (a b : ℕ) → shifted (bit_xor a b) ≡ bit_xor (shifted a) (shifted b)
unfolding shifted
shifted-bit_xor a b =
    ap (λ x. bit_xor x (fed_back (bit_xor a b))) (bit_xor-half a b)
    ∙ ap (bit_xor (bit_xor (a / 2) (b / 2))) (fed_back-bit_xor a b)
    ∙ interchange (a / 2) (b / 2) (fed_back a) (fed_back b)

shift_bits-bit_xor :
    (k a b : ℕ) → shift_bits k (bit_xor a b) ≡ bit_xor (shift_bits k a) (shift_bits k b)
unfolding shift_bits
shift_bits-bit_xor zero a b = refl
shift_bits-bit_xor (suc k) a b =
    ap (shift_bits k) (shifted-bit_xor a b) ∙ shift_bits-bit_xor k (shifted a) (shifted b)

-- a number with zeros as its low bits
abbrev scaled : ℕ → ℕ → ℕ
scaled zero h = h
scaled (suc k) h = 2 * scaled k h

shift_bits-scaled : (k h : ℕ) → shift_bits k (scaled k h) ≡ h
unfolding shift_bits shifted
shift_bits-scaled zero h = refl
shift_bits-scaled (suc k) h =
    let m = scaled k h in
    let half : (2 * m) / 2 ≡ m = omega arith in
    let out : shifted (2 * m) ≡ m =
      ap (bit_xor ((2 * m) / 2)) (fed_back-even (2 * m) (omega arith))
      ∙ bit_xor-zero ((2 * m) / 2)
      ∙ half in
    ap (shift_bits k) out ∙ shift_bits-scaled k h

bit_xor-scaled : (k l h : ℕ) → l < scaled k 1 → bit_xor l (scaled k h) ≡ scaled k h + l
bit_xor-scaled zero l h p =
    let e : l ≡ 0 = omega arith in rw e (omega (arith, bit_xor_comm 0 h, bit_xor-zero h))
bit_xor-scaled (suc k) l h p =
    let m = scaled k h in
    let half : (2 * m) / 2 ≡ m = omega arith in
    omega (
      arith,
      bit_xor_step l (2 * m),
      ap (bit_xor (l / 2)) half,
      bit_xor-scaled k (l / 2) h (omega arith),
    )

all_below : ℕ → (ℕ → Bool) → Bool
all_below zero test = true
all_below (suc n) test = test n && all_below n test

all_below-holds :
    (n : ℕ) (test : ℕ → Bool) (i : ℕ) → all_below n test ≡ true → i < n → test i ≡ true
unfolding all_below
all_below-holds zero test i h lt = absurd (omega arith)
all_below-holds (suc n) test i h lt = ground (arith, all_below-holds n test i)

abbrev is_entry : ℕ → Bool
is_entry i = tab i == shift_bits 8 i

tab-entries : all_below 256 is_entry ≡ true
unfolding all_below shift_bits shifted fed_back table_at
tab-entries = refl

-- Each entry of the table is its index after eight shifts.
tab-shift_bits : (i : ℕ) → i < 256 → tab i ≡ shift_bits 8 i
tab-shift_bits i p =
    (==_iff (tab i) (shift_bits 8 i)).0 (all_below-holds 256 is_entry i tab-entries p)

halved : ℕ → ℕ → ℕ
halved zero y = y
halved (suc k) y = halved k (y / 2)

halved-bit_xor : (k a b : ℕ) → halved k (bit_xor a b) ≡ bit_xor (halved k a) (halved k b)
unfolding halved
halved-bit_xor zero a b = refl
halved-bit_xor (suc k) a b = ap (halved k) (bit_xor-half a b) ∙ halved-bit_xor k (a / 2) (b / 2)

halved-byte : (y : ℕ) → halved 8 y ≡ y / 256
unfolding halved
halved-byte y = omega arith

-- Eight shifts by way of the table.
shift_bits-tab : (y : ℕ) → shift_bits 8 y ≡ bit_xor (tab (bit_and y 0xff)) (y / 256)
shift_bits-tab y =
    let l = y % 256 in
    let h = y / 256 in
    let parts : bit_xor l (scaled 8 h) ≡ y = omega (arith, bit_xor-scaled 8 l h (omega arith)) in
    ap (shift_bits 8) (sym parts)
    ∙ shift_bits-bit_xor 8 l (scaled 8 h)
    ∙ ap (bit_xor (shift_bits 8 l)) (shift_bits-scaled 8 h)
    ∙ ap (λ x. bit_xor x h) (sym (tab-shift_bits l (omega arith)) ∙ ap tab (sym (bit_and-byte y)))

bit_xor-high : (crc b : ℕ) → b < 256 → bit_xor crc b / 256 ≡ crc / 256
bit_xor-high crc b p =
    let none : b / 256 ≡ 0 = omega arith in
    sym (halved-byte (bit_xor crc b))
    ∙ halved-bit_xor 8 crc b
    ∙ ap (λ x. bit_xor x (halved 8 b)) (halved-byte crc)
    ∙ ap (bit_xor (crc / 256)) (halved-byte b ∙ none)
    ∙ bit_xor-zero (crc / 256)

abbrev pub AreBytes : List ℕ → Type 0
AreBytes [] = Unit {0}
AreBytes (b ∷ bs) = (b < 256) × AreBytes bs

compute_bytes-register_after :
    (crc : ℕ) (bs : List ℕ) → AreBytes bs → compute_bytes crc bs ≡ register_after crc bs
unfolding compute_bytes
compute_bytes-register_after crc [] p = refl
compute_bytes-register_after crc (b ∷ bs) (byte, rest) =
    let y = bit_xor crc b in
    let e : bit_xor (tab (bit_and y 0xff)) (crc / 256) ≡ shift_bits 8 y =
      ap (bit_xor (tab (bit_and y 0xff))) (sym (bit_xor-high crc b byte))
      ∙ sym (shift_bits-tab y) in
    ap (λ x. compute_bytes x bs) e ∙ compute_bytes-register_after (shift_bits 8 y) bs rest

-- On bytes, `compute`, which goes by the table, is the sum that shifts each byte through the
-- register bit by bit and feeds the generator polynomial back.
pub compute-crc_of : (crc : ℕ) (bs : List ℕ) → AreBytes bs → compute crc bs ≡ crc_of crc bs
unfolding compute
compute-crc_of crc bs p =
    ap (λ x. bit_xor x all_ones) (compute_bytes-register_after (bit_xor crc all_ones) bs p)
