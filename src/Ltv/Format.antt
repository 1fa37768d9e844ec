-- ===== src/Ltv/Format.antt =====
-- The format, apart from the code: trees of values, their bytes, and the entry that shows a tree at
-- an address.
use socle.Prelude.{
  ℕ, suc, ◌+◌, ◌/◌, ◌%◌, ◌^◌, ◌≤◌, ◌<◌, ◌≡◌, subst, ◌≢◌, false, List, [], ◌∷◌, ◌++◌, arith, length,
}
use socle.Ltv.{LtvEntry, ltv_entry, Entries, nil, cons, cont, be32, ltv_get_length}
use socle.Memory.{Memory, read, write}
use socle.Memory.Ranges.{read-write_self}

mutual
  pub data Tree : Type 0 where
    leaf : ℕ → ℕ → List ℕ → Tree
    node : ℕ → Trees → Tree

  pub data Trees : Type 0 where
    no_trees : Trees
    and_trees : Tree → Trees → Trees

abbrev mutual
  pub encode : Tree → List ℕ
  encode (leaf i t bs) = be32 (6 + length bs) ++ i ∷ t ∷ bs
  encode (node i ts) = be32 (6 + length (encode_all ts)) ++ i ∷ cont ∷ encode_all ts

  pub encode_all : Trees → List ℕ
  encode_all no_trees = []
  encode_all (and_trees t ts) = encode t ++ encode_all ts

abbrev pub size : Tree → ℕ
size t = length (encode t)

-- The entry that does not own its data and shows the tree at the address.
abbrev mutual
  pub shown_at : ℕ → Tree → LtvEntry
  shown_at a (leaf i t bs) = ltv_entry (6 + length bs) i t a false nil
  shown_at a (node i ts) =
      ltv_entry (6 + length (encode_all ts)) i cont a false (all_shown_at (a + 6) ts)

  pub all_shown_at : ℕ → Trees → Entries
  all_shown_at a no_trees = nil
  all_shown_at a (and_trees t ts) = cons (shown_at a t) (all_shown_at (a + size t) ts)

-- No leaf has the type of a container.
abbrev mutual
  pub IsTyped : Tree → Type 0
  IsTyped (leaf i t bs) = t ≢ cont
  IsTyped (node i ts) = AreTyped ts

  pub AreTyped : Trees → Type 0
  AreTyped no_trees = Unit
  AreTyped (and_trees t ts) = IsTyped t × AreTyped ts

-- The memory has the bytes from the address on.
abbrev pub Holds : Memory → ℕ → List ℕ → Type 0
Holds m a [] = Unit
Holds m a (b ∷ bs) = (m a ≡ b) × Holds m (a + 1) bs

pub Holds-append :
    (m : Memory) (a : ℕ) (xs ys : List ℕ)
    → Holds m a (xs ++ ys)
    → Holds m a xs × Holds m (a + length xs) ys
Holds-append m a [] ys h = (tt, subst (λ b. Holds m b ys) (omega arith) h)
Holds-append m a (x ∷ xs) ys h =
    let (u, v) = Holds-append m (a + 1) xs ys h.1 in
    ((h.0, u), subst (λ b. Holds m b ys) (omega arith) v)

pub read-Holds : (m : Memory) (a : ℕ) (bs : List ℕ) → read m a (length bs) ≡ bs → Holds m a bs
unfolding read
read-Holds m a [] e = tt
read-Holds m a (b ∷ bs) e =
    let there : suc a ≡ a + 1 = omega arith in
    (ground arith, subst (λ p. Holds m p bs) there (read-Holds m (suc a) bs (ground arith)))

pub write-Holds : (m : Memory) (a : ℕ) (bs : List ℕ) → Holds (write m a bs) a bs
write-Holds m a bs = read-Holds (write m a bs) a bs (read-write_self m a bs)

pub be32-length : (m : Memory) (a n : ℕ) → n < 2 ^ 32 → Holds m a (be32 n) → ltv_get_length m a ≡ n
unfolding ltv_get_length
be32-length m a n lt h =
    let at1 : m (a + 1) ≡ n / 2 ^ 16 % 256 = h.1.0 in
    let at2 : m (a + 2) ≡ n / 2 ^ 8 % 256 =
      subst (λ b. m b ≡ n / 2 ^ 8 % 256) (omega arith) h.1.1.0 in
    let at3 : m (a + 3) ≡ n % 256 = subst (λ b. m b ≡ n % 256) (omega arith) h.1.1.1.0 in
    omega (arith, h.0, at1, at2, at3)

pub size_pos : (t : Tree) → 6 ≤ size t
size_pos (leaf i t bs) = omega arith
size_pos (node i ts) = omega arith

pub size-leaf : (i t : ℕ) (bs : List ℕ) → size (leaf i t bs) ≡ 6 + length bs
size-leaf i t bs = omega arith

pub size-node : (i : ℕ) (ts : Trees) → size (node i ts) ≡ 6 + length (encode_all ts)
size-node i ts = omega arith
