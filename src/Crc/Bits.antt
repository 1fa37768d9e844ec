-- ===== src/Crc/Bits.antt =====
-- Laws of the exclusive or of numbers, digit by digit, and of the mask of a byte.
use Prim.Native.Nat.{bit_and, bit_xor, digits, differ, bit_and-bitwise, bit_xor-bitwise}
use socle.Prelude.{ℕ, zero, suc, ◌+◌, ◌*◌, ◌/◌, ◌%◌, ◌≤◌, ◌<◌, min, ◌≡◌, refl, ap, ◌∙◌, arith}

digits-fuel :
    (z : ℕ → ℕ) (f : ℕ → ℕ → ℕ) (n m a b : ℕ) → a ≤ n → a ≤ m → digits z f n a b ≡ digits z f m a b
digits-fuel z f zero zero a b p q = refl
digits-fuel z f zero (suc m) zero b p q = refl
digits-fuel z f zero (suc m) (suc a) b p q = absurd (omega arith)
digits-fuel z f (suc n) zero zero b p q = refl
digits-fuel z f (suc n) (suc m) zero b p q = refl
digits-fuel z f (suc n) zero (suc a) b p q = absurd (omega arith)
digits-fuel z f (suc n) (suc m) (suc a) b p q =
    omega (arith, digits-fuel z f n m (suc a / 2) (b / 2) (omega arith) (omega arith))

differ-sum : (x y : ℕ) → x < 2 → y < 2 → differ x y ≡ (x + y) % 2
differ-sum zero y p q = omega arith
differ-sum (suc zero) zero p q = refl
differ-sum (suc zero) (suc y) p q = omega arith
differ-sum (suc (suc x)) y p q = absurd (omega arith)

zero-bit_xor : (b : ℕ) → bit_xor 0 b ≡ b
zero-bit_xor b = bit_xor-bitwise 0 b

pub bit_xor_step : (a b : ℕ) → bit_xor a b ≡ bit_xor (a / 2) (b / 2) * 2 + (a % 2 + b % 2) % 2
bit_xor_step zero b = omega (arith, zero-bit_xor b, zero-bit_xor (b / 2))
bit_xor_step (suc a) b = omega (
  arith,
  bit_xor-bitwise (suc a) b,
  bit_xor-bitwise (suc a / 2) (b / 2),
  digits-fuel (λ x. x) differ a (suc a / 2) (suc a / 2) (b / 2) (omega arith) (omega arith),
  differ-sum (suc a % 2) (b % 2) (omega arith) (omega arith),
)

pub bit_xor-half : (a b : ℕ) → bit_xor a b / 2 ≡ bit_xor (a / 2) (b / 2)
bit_xor-half a b = omega (arith, bit_xor_step a b)

pub bit_xor-parity : (a b : ℕ) → bit_xor a b % 2 ≡ (a % 2 + b % 2) % 2
bit_xor-parity a b = omega (arith, bit_xor_step a b)

bit_xor-comm_fuel : (n a b : ℕ) → a ≤ n → b ≤ n → bit_xor a b ≡ bit_xor b a
bit_xor-comm_fuel zero a b p q =
    let ea : a ≡ 0 = omega arith in let eb : b ≡ 0 = omega arith in rw (ea, eb) refl
bit_xor-comm_fuel (suc n) a b p q = omega (
  arith,
  bit_xor_step a b,
  bit_xor_step b a,
  bit_xor-comm_fuel n (a / 2) (b / 2) (omega arith) (omega arith),
)

pub bit_xor_comm : (a b : ℕ) → bit_xor a b ≡ bit_xor b a
bit_xor_comm a b = bit_xor-comm_fuel (a + b) a b (omega arith) (omega arith)

pub bit_xor-zero : (a : ℕ) → bit_xor a 0 ≡ a
bit_xor-zero a = bit_xor_comm a 0 ∙ zero-bit_xor a

bit_xor-self_fuel : (n a : ℕ) → a ≤ n → bit_xor a a ≡ 0
bit_xor-self_fuel zero a p = let ea : a ≡ 0 = omega arith in rw ea refl
bit_xor-self_fuel (suc n) a p =
    omega (arith, bit_xor_step a a, bit_xor-self_fuel n (a / 2) (omega arith))

pub bit_xor_self : (a : ℕ) → bit_xor a a ≡ 0
bit_xor_self a = bit_xor-self_fuel a a (omega arith)

bit_xor_step₃ :
    (a b c : ℕ)
    → bit_xor (bit_xor a b) c
      ≡ bit_xor (bit_xor (a / 2) (b / 2)) (c / 2) * 2 + (a % 2 + b % 2 + c % 2) % 2
bit_xor_step₃ a b c = omega (
  arith,
  bit_xor_step (bit_xor a b) c,
  ap (λ x. bit_xor x (c / 2)) (bit_xor-half a b),
  bit_xor-parity a b,
)

bit_xor-assoc_fuel :
    (n a b c : ℕ) → a ≤ n → b ≤ n → c ≤ n → bit_xor (bit_xor a b) c ≡ bit_xor a (bit_xor b c)
bit_xor-assoc_fuel zero a b c p q r =
    let ea : a ≡ 0 = omega arith in
    let eb : b ≡ 0 = omega arith in let ec : c ≡ 0 = omega arith in rw (ea, eb, ec) refl
bit_xor-assoc_fuel (suc n) a b c p q r = omega (
  arith,
  bit_xor_step₃ a b c,
  bit_xor_step a (bit_xor b c),
  ap (bit_xor (a / 2)) (bit_xor-half b c),
  bit_xor-parity b c,
  bit_xor-assoc_fuel n (a / 2) (b / 2) (c / 2) (omega arith) (omega arith) (omega arith),
)

pub bit_xor_assoc : (a b c : ℕ) → bit_xor (bit_xor a b) c ≡ bit_xor a (bit_xor b c)
bit_xor_assoc a b c = bit_xor-assoc_fuel (a + b + c) a b c (omega arith) (omega arith) (omega arith)

zero-bit_and : (b : ℕ) → bit_and 0 b ≡ 0
zero-bit_and b = bit_and-bitwise 0 b

bit_and-halves : (a b : ℕ) → bit_and a b ≡ bit_and (a / 2) (b / 2) * 2 + min (a % 2) (b % 2)
bit_and-halves zero b = omega (arith, zero-bit_and b, zero-bit_and (b / 2))
bit_and-halves (suc a) b = omega (
  arith,
  bit_and-bitwise (suc a) b,
  bit_and-bitwise (suc a / 2) (b / 2),
  digits-fuel (λ x. zero) min a (suc a / 2) (suc a / 2) (b / 2) (omega arith) (omega arith),
)

bit_and-zero_fuel : (n a : ℕ) → a ≤ n → bit_and a 0 ≡ 0
bit_and-zero_fuel zero a p = let e : a ≡ 0 = omega arith in rw e refl
bit_and-zero_fuel (suc n) a p =
    omega (arith, bit_and-halves a 0, bit_and-zero_fuel n (a / 2) (omega arith))

bit_and-nibble : (a : ℕ) → bit_and a 15 ≡ a % 16
bit_and-nibble a =
    let b = a / 2 / 2 in
    omega (
      arith,
      bit_and-halves a 15,
      bit_and-halves (a / 2) 7,
      bit_and-halves b 3,
      bit_and-halves (b / 2) 1,
      bit_and-zero_fuel (b / 2 / 2) (b / 2 / 2) (omega arith),
    )

pub bit_and-byte : (a : ℕ) → bit_and a 255 ≡ a % 256
bit_and-byte a =
    let b = a / 2 / 2 in
    omega (
      arith,
      bit_and-halves a 255,
      bit_and-halves (a / 2) 127,
      bit_and-halves b 63,
      bit_and-halves (b / 2) 31,
      bit_and-nibble (b / 2 / 2),
    )
