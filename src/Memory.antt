-- ===== src/Memory.antt =====
-- The memory under common/buffer.cpp and common/mempool/mempool.cpp: one byte for each address,
-- pointers as addresses (`nullptr` is 0), and the C functions that move bytes.
pub mod Ranges
use socle.Prelude.{ℕ, zero, suc, ◌+◌, ◌≤◌, ◌⊎◌, List, [], ◌∷◌, ◌==◌, if◌then◌else◌, replicate}

abbrev pub Memory : Type 0
Memory = ℕ → ℕ

-- the `n` bytes from address `p` on
unfoldable pub read : Memory → ℕ → ℕ → List ℕ
read m p zero = []
read m p (suc n) = m p ∷ read m (suc p) n

unfoldable pub write : Memory → ℕ → List ℕ → Memory
write m p [] q = m q
write m p (b ∷ bs) q = if p == q then b else write m (suc p) bs q

-- `std::memcpy`, and `std::memmove` where the ranges overlap: all bytes are read first
unfoldable pub memcpy : Memory → ℕ → ℕ → ℕ → Memory
memcpy m dst src n = write m dst (read m src n)

-- `std::memset`
unfoldable pub memset : Memory → ℕ → ℕ → ℕ → Memory
memset m dst v n = write m dst (replicate n v)

-- Two ranges of addresses share no byte.
abbrev pub Apart : ℕ → ℕ → ℕ → ℕ → Type 0
Apart p n q k = (p + n ≤ q) ⊎ (q + k ≤ p)
