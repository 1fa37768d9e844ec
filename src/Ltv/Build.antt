-- ===== src/Ltv/Build.antt =====
-- `clear`, `set_str`, `set_bytes`, `set_num` and `container`: the entries that a client makes.
use native.Mathlib.Nat.{mod-eq_of_lt}
use socle.Prelude.{
  ℕ, suc, ◌+◌, ◌%◌, ◌^◌, ◌<◌, ◌≡◌, refl, sym, ap, ◌∙◌, ◌≢◌, inl, inr, true, false, not, ◌&&◌, List,
  [], ◌∷◌, ◌++◌, arith, ◌==◌, if◌then◌else◌, length,
}
use socle.Buffer.{str}
use socle.Ltv.{LtvEntry, ltv_entry, ltv_header_size, cont, len, contains, be32, Store}
use socle.Ltv.Format.{leaf, size}
use socle.Ltv.Pack.{Ready}
use socle.MemPool.Buckets.{Heap, new_array, delete_array}
use socle.Memory.{Memory, read, write, memset}
use socle.Memory.Ranges.{read-add, read-write-Apart, read-write_self}

-- It leaves `data_` and `contains_` as they are.
unfoldable pub clear : Heap → LtvEntry → Heap × LtvEntry
clear h (ltv_entry l i t d o es) =
    (if not (d == 0) && o then delete_array h d else h, ltv_entry 0 0 0 d false es)

-- A `strlen` that fits an address, and the header's size: `len_` takes its low 32 bits.
abbrev total_len : ℕ → ℕ
total_len data_len = (ltv_header_size + data_len) % 2 ^ 32

-- `ltv_set_length`, `ltv_set_type` and `ltv_set_id`, which end the three methods below
abbrev write_header : Memory → ℕ → ℕ → ℕ → ℕ → Memory
write_header m d l t i = write (write (write m d (be32 l)) (d + 5) (t ∷ [])) (d + 4) (i ∷ [])

-- The three methods, for the bytes that each writes to the data.
unfoldable pub set_value : Store → LtvEntry → ℕ → ℕ → ℕ → (Memory → ℕ → Memory) → LtvEntry × Store
set_value (m, h) e i t data_len write_data =
    let (h₁, e₁) = clear h e in
    let (d, h₂) = new_array h₁ (data_len + ltv_header_size) in
    (
      ltv_entry (total_len data_len) i t d true (contains e₁),
      (write_header (write_data m (d + 6)) d (total_len data_len) t i, h₂),
    )

-- `str` without its final zero byte
unfoldable pub set_str : Store → LtvEntry → ℕ → ℕ → List ℕ → LtvEntry × Store
set_str s e i t str = set_value s e i t (length str) (λ m p. write m p str)

-- The string is written over `size` zero bytes.
unfoldable pub set_bytes : Store → LtvEntry → ℕ → ℕ → List ℕ → ℕ → LtvEntry × Store
set_bytes s e i t str size = set_value s e i t size (λ m p. write (memset m p 0 size) p str)

unfoldable pub set_num : Store → LtvEntry → ℕ → ℕ → ℕ → LtvEntry × Store
set_num s e i t n = set_value s e i t 4 (λ m p. write m p (be32 n))

unfoldable pub container : Store → LtvEntry → ℕ → LtvEntry × Store
container (m, h) e i =
    let (h₁, e₁) = clear h e in
    let (d, h₂) = new_array h₁ ltv_header_size in
    (
      ltv_entry ltv_header_size i cont d true (contains e₁),
      (write (write m (d + 5) (cont ∷ [])) (d + 4) (i ∷ []), h₂),
    )

-- The bytes of the entry after the header is written over memory that has the data.
read-write_header :
    (m : Memory) (d l t i n : ℕ) (bs : List ℕ)
    → read m (d + 6) n ≡ bs
    → read (write_header m d l t i) d (6 + n) ≡ be32 l ++ i ∷ t ∷ bs
read-write_header m d l t i n bs h =
    let m₁ = write m d (be32 l) in
    let m₂ = write m₁ (d + 5) (t ∷ []) in
    let m₃ = write m₂ (d + 4) (i ∷ []) in
    let lengths : read m₃ d 4 ≡ be32 l =
      read-write-Apart m₂ (d + 4) (i ∷ []) d 4 (inr (omega arith))
      ∙ read-write-Apart m₁ (d + 5) (t ∷ []) d 4 (inr (omega arith))
      ∙ read-write_self m d (be32 l) in
    let ids : read m₃ (d + 4) 1 ≡ i ∷ [] = read-write_self m₂ (d + 4) (i ∷ []) in
    let types : read m₃ (d + 5) 1 ≡ t ∷ [] =
      read-write-Apart m₂ (d + 4) (i ∷ []) (d + 5) 1 (inl (omega arith))
      ∙ read-write_self m₁ (d + 5) (t ∷ []) in
    let rest : read m₃ (d + 6) n ≡ bs =
      read-write-Apart m₂ (d + 4) (i ∷ []) (d + 6) n (inl (omega arith))
      ∙ read-write-Apart m₁ (d + 5) (t ∷ []) (d + 6) n (inl (omega arith))
      ∙ read-write-Apart m d (be32 l) (d + 6) n (inl (omega arith))
      ∙ h in
    let five : d + 4 + 1 ≡ d + 5 = omega arith in
    let six : d + 5 + 1 ≡ d + 6 = omega arith in
    let count : 6 + n ≡ 4 + (1 + (1 + n)) = omega arith in
    ap (read m₃ d) count
    ∙ read-add m₃ d 4 (1 + (1 + n))
    ∙ ap (λ x. x ++ read m₃ (d + 4) (1 + (1 + n))) lengths
    ∙ ap (λ x. be32 l ++ x)
        (read-add m₃ (d + 4) 1 (1 + n)
          ∙ ap (λ x. x ++ read m₃ (d + 4 + 1) (1 + n)) ids
          ∙ ap (λ a. i ∷ read m₃ a (1 + n)) five
          ∙ ap (λ x. i ∷ x)
              (read-add m₃ (d + 5) 1 n
                ∙ ap (λ x. x ++ read m₃ (d + 5 + 1) n) types
                ∙ ap (λ a. t ∷ read m₃ a n) six
                ∙ ap (λ x. t ∷ x) rest))

set_value-Ready :
    (m : Memory) (h : Heap) (e : LtvEntry) (i t n : ℕ) (bs : List ℕ) (f : Memory → ℕ → Memory)
    → t ≢ cont
    → n ≡ length bs
    → 6 + length bs < 2 ^ 32
    → ((p : ℕ) → read (f m p) p n ≡ bs)
    → let (e', (m', h')) = set_value (m, h) e i t n f in Ready m' e' (leaf i t bs)
unfolding set_value
set_value-Ready m h e i t n bs f ty len lt w =
    let h₁ = (clear h e).0 in
    let d = suc h₁.brk in
    let total : total_len n ≡ 6 + length bs = ap total_len len ∙ mod-eq_of_lt lt in
    (
      total,
      ty,
      ap (read (write_header (f m (d + 6)) d (total_len n) t i) d) (total ∙ ap (◌+◌ 6) (sym len))
          ∙ read-write_header (f m (d + 6)) d (total_len n) t i n bs (w (d + 6))
          ∙ ap (λ l. be32 l ++ i ∷ t ∷ bs) total,
    )

-- `set_str` with a type other than `cont`, of a string that fits, makes an entry that is ready to be
-- packed, and stands for the id, the type and the string.
pub set_str-Ready :
    (m : Memory) (h : Heap) (e : LtvEntry) (i t : ℕ) (str : List ℕ)
    → t ≢ cont
    → 6 + length str < 2 ^ 32
    → let (e', (m', h')) = set_str (m, h) e i t str in Ready m' e' (leaf i t str)
unfolding set_str
set_str-Ready m h e i t str ty lt =
    set_value-Ready m h e i t (length str) str (λ m p. write m p str) ty refl lt
      (λ p. read-write_self m p str)

pub set_num-Ready :
    (m : Memory) (h : Heap) (e : LtvEntry) (i t n : ℕ)
    → t ≢ cont
    → let (e', (m', h')) = set_num (m, h) e i t n in Ready m' e' (leaf i t (be32 n))
unfolding set_num
set_num-Ready m h e i t n ty =
    set_value-Ready m h e i t 4 (be32 n) (λ m p. write m p (be32 n)) ty refl (omega arith)
      (λ p. read-write_self m p (be32 n))
