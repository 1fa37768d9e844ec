-- ===== src/Ltv/Pack.antt =====
-- `pack` of a tree of entries.
use mathlib.Core.List.{append_assoc, append-nil}
use native.Mathlib.Nat.{mod-eq_of_lt}
use socle.Prelude.{
  ℕ, suc, ◌+◌, ◌^◌, ◌<◌, ◌≡◌, refl, sym, ap, ◌∙◌, subst, ◌≢◌, Bool, true, false, List, [], ◌∷◌,
  ◌++◌, arith, ltb, ◌==◌, if◌then◌else◌, lt→ltb, ==_iff, length, take, drop, length-append, add_u32,
}
use socle.Ltv.{
  LtvEntry, ltv_entry, Entries, nil, cons, cont, be32, set_length, pack_into, pack_all, pack,
}
use socle.Ltv.Format.{
  Tree, leaf, node, Trees, no_trees, and_trees, encode, encode_all, size, size-leaf, size-node,
}
use socle.Memory.{Memory, read}

-- The entries, as `set_str`, `set_num`, `container` and `add` build them, stand for the tree: a
-- scalar has all its bytes, a container only its header, without the length.
abbrev mutual
  pub Ready : Memory → LtvEntry → Tree → Type 0
  Ready m (ltv_entry l i t d o es) (leaf j u bs) =
      (l ≡ 6 + length bs) × (t ≢ cont) × (read m d l ≡ encode (leaf j u bs))
  Ready m (ltv_entry l i t d o es) (node j ts) =
      (l ≡ 6) × (t ≡ cont) × (m (d + 4) ≡ j) × (m (d + 5) ≡ cont) × AllReady m es ts

  pub AllReady : Memory → Entries → Trees → Type 0
  AllReady m nil no_trees = Unit
  AllReady m nil (and_trees t ts) = ⊥
  AllReady m (cons e es) no_trees = ⊥
  AllReady m (cons e es) (and_trees t ts) = Ready m e t × AllReady m es ts

take-append : (xs ys : List ℕ) → take (length xs) (xs ++ ys) ≡ xs
take-append [] ys = refl
take-append (x ∷ xs) ys = ap (◌∷◌ x) (take-append xs ys)

drop-append : (xs ys : List ℕ) (k : ℕ) → drop (length xs + k) (xs ++ ys) ≡ drop k ys
drop-append [] ys k = ap (λ n. drop n ys) (omega arith)
drop-append (x ∷ xs) ys k =
    let e : suc (length xs) + k ≡ suc (length xs + k) = omega arith in
    ap (λ n. drop n (x ∷ xs ++ ys)) e ∙ drop-append xs ys k

-- The length goes into the first four of the bytes behind `buf`.
set_length-append :
    (buf ys : List ℕ) (a b c d l : ℕ)
    → set_length (buf ++ a ∷ b ∷ c ∷ d ∷ ys) (length buf) l ≡ buf ++ be32 l ++ ys
set_length-append buf ys a b c d l =
    let zs = a ∷ b ∷ c ∷ d ∷ ys in
    ap (λ x. x ++ be32 l ++ drop (length buf + 4) (buf ++ zs)) (take-append buf zs)
    ∙ ap (λ x. buf ++ be32 l ++ x) (drop-append buf zs 4)

-- the six bytes of a container's header in memory
read-header :
    (m : Memory) (d i t : ℕ)
    → m (d + 4) ≡ i
    → m (d + 5) ≡ t
    → read m d 6 ≡ m d ∷ m (suc d) ∷ m (suc (suc d)) ∷ m (suc (suc (suc d))) ∷ i ∷ t ∷ []
unfolding read
read-header m d i t e f =
    let four : suc (suc (suc (suc d))) ≡ d + 4 = omega arith in
    let five : suc (suc (suc (suc (suc d)))) ≡ d + 5 = omega arith in
    let front : ℕ → ℕ → List ℕ =
      λ x y. m d ∷ m (suc d) ∷ m (suc (suc d)) ∷ m (suc (suc (suc d))) ∷ x ∷ y ∷ [] in
    ap (λ x. front x (m (suc (suc (suc (suc (suc d))))))) (ap m four ∙ e)
    ∙ ap (front i) (ap m five ∙ f)

-- The result and the bytes of `pack` into `buf`.
abbrev pub Packs {ℓ} : {A : Type ℓ} → ℕ → List ℕ → List ℕ → ℕ × A × List ℕ → Type 0
Packs n bs buf r = (r.0 ≡ n) × (r.2 ≡ buf ++ bs)

pack_into-scalar :
    (m : Memory) (l i t d n : ℕ) (o : Bool) (es : Entries) (buf bs : List ℕ)
    → t ≢ cont
    → 0 < l
    → l ≡ n
    → read m d l ≡ bs
    → Packs n bs buf (pack_into m (ltv_entry l i t d o es) buf)
unfolding pack_into
pack_into-scalar m l i t d n o es buf bs ty some_bytes e r =
    go (t == cont) (ltb 0 l) (ground (arith, ==_iff t cont)) (lt→ltb 0 l some_bytes)
  where
    go :
        (x y : Bool)
        → x ≡ false
        → y ≡ true
        → Packs n bs buf (
            let (sub_bytes, es', buf') = pack_all m es (buf ++ read m d l) in
            if x
            then (
              add_u32 l sub_bytes,
              ltv_entry (add_u32 l sub_bytes) i t d o es',
              set_length buf' (length buf) (add_u32 l sub_bytes),
            )
            else if y
            then (l, ltv_entry l i t d o es, buf ++ read m d l)
            else (0, ltv_entry l i t d o es, buf))
    go true y a b = absurd (cc)
    go false true a b = (e, ap (λ z. buf ++ z) r)
    go false false a b = absurd (cc)

-- what a container makes of the buffer that its sub-entries are packed into
finish_container :
    {A : Type 0} (m : Memory) (d i n : ℕ) (k : A) (buf bs after : List ℕ)
    → m (d + 4) ≡ i
    → m (d + 5) ≡ cont
    → after ≡ (buf ++ read m d 6) ++ bs
    → n ≡ length bs
    → length bs < 2 ^ 31
    → Packs
        (6 + length bs)
        (be32 (6 + length bs) ++ i ∷ cont ∷ bs)
        buf
        (add_u32 6 n, k, set_length after (length buf) (add_u32 6 n))
finish_container m d i n k buf bs after e f g h lt =
    let total : add_u32 6 n ≡ 6 + length bs = ap (add_u32 6) h ∙ mod-eq_of_lt (omega arith) in
    let all : after
        ≡ buf ++ m d ∷ m (suc d) ∷ m (suc (suc d)) ∷ m (suc (suc (suc d))) ∷ i ∷ cont ∷ bs =
      g
      ∙ append_assoc buf (read m d 6) bs
      ∙ ap (λ z. buf ++ (z ++ bs)) (read-header m d i cont e f) in
    (
      total,
      ap (λ z. set_length after (length buf) z) total
          ∙ ap (λ z. set_length z (length buf) (6 + length bs)) all
          ∙ set_length-append buf (i ∷ cont ∷ bs) (m d) (m (suc d)) (m (suc (suc d)))
              (m (suc (suc (suc d)))) (6 + length bs)
          ∙ append_assoc buf (be32 (6 + length bs)) (i ∷ cont ∷ bs),
    )

pack_into-container :
    (m : Memory) (d i : ℕ) (o : Bool) (es : Entries) (buf : List ℕ)
    → pack_into m (ltv_entry 6 i cont d o es) buf ≡ (
        let (sub_bytes, es', buf') = pack_all m es (buf ++ read m d 6) in
        (
          add_u32 6 sub_bytes,
          ltv_entry (add_u32 6 sub_bytes) i cont d o es',
          set_length buf' (length buf) (add_u32 6 sub_bytes),
        ))
unfolding pack_into
pack_into-container m d i o es buf = refl

mutual
  unfolding pack_into pack_all

  pack_tree :
      (m : Memory) (e : LtvEntry) (t : Tree) (buf : List ℕ)
      → Ready m e t
      → size t < 2 ^ 31
      → Packs (size t) (encode t) buf (pack_into m e buf)
  pack_tree m (ltv_entry l i ty d o es) (leaf j u bs) buf r lt =
      pack_into-scalar m l i ty d (size (leaf j u bs)) o es buf (encode (leaf j u bs)) r.1
        (omega (arith, r.0)) (r.0 ∙ sym (size-leaf j u bs)) r.2
  pack_tree m (ltv_entry l i ty d o es) (node j ts) buf (el, et, e4, e5, rs) lt =
      let (sub_bytes, es', buf') = pack_all m es (buf ++ read m d 6) in
      let (n, after) = pack_trees m es ts (buf ++ read m d 6) rs (omega (arith, size-node j ts)) in
      subst (λ x. Packs (size (node j ts)) (encode (node j ts)) buf (pack_into m x buf))
        (sym (ap (λ x. ltv_entry x i ty d o es) el ∙ ap (λ x. ltv_entry 6 i x d o es) et))
        (subst (Packs (size (node j ts)) (encode (node j ts)) buf)
          (sym (pack_into-container m d i o es buf))
          (subst
            (λ x. Packs x (encode (node j ts)) buf (
              add_u32 6 sub_bytes,
              ltv_entry (add_u32 6 sub_bytes) i cont d o es',
              set_length buf' (length buf) (add_u32 6 sub_bytes),
            ))
            (sym (size-node j ts))
            (finish_container m d j sub_bytes (ltv_entry (add_u32 6 sub_bytes) i cont d o es') buf
              (encode_all ts) buf' e4 e5 after n (omega (arith, size-node j ts)))))

  pack_trees :
      (m : Memory) (es : Entries) (ts : Trees) (buf : List ℕ)
      → AllReady m es ts
      → length (encode_all ts) < 2 ^ 31
      → Packs (length (encode_all ts)) (encode_all ts) buf (pack_all m es buf)
  pack_trees m nil no_trees buf r lt = (refl, sym (append-nil buf))
  pack_trees m nil (and_trees t ts) buf r lt = absurd r
  pack_trees m (cons e es) no_trees buf r lt = absurd r
  pack_trees m (cons e es) (and_trees t ts) buf r lt =
      let k = length-append (encode t) (encode_all ts) in
      let (n, e', buf') = pack_into m e buf in
      let (en, ebuf) = pack_tree m e t buf r.0 (omega (arith, k)) in
      let (em, ebuf') = pack_trees m es ts buf' r.1 (omega (arith, k)) in
      (
        ap (add_u32 n) em
            ∙ ap (λ x. add_u32 x (length (encode_all ts))) en
            ∙ mod-eq_of_lt (omega (arith, k))
            ∙ sym k,
        ebuf' ∙ ap (λ z. z ++ encode_all ts) ebuf ∙ append_assoc buf (encode t) (encode_all ts),
      )

-- `pack(nullptr)` of a container, whose entries stand for the tree's subtrees, returns the number of
-- the tree's bytes, sets `len_` to it, and leaves exactly the tree's bytes at `data_`: fewer than
-- 2^31 bytes in all.
pub pack-encode :
    (m : Memory) (e : LtvEntry) (j : ℕ) (ts : Trees)
    → Ready m e (node j ts)
    → size (node j ts) < 2 ^ 31
    → let (r, l, es, bs) = pack m e in
      (r ≡ size (node j ts)) × (l ≡ size (node j ts)) × (bs ≡ encode (node j ts))
unfolding pack
pack-encode m (ltv_entry l i ty d o es) j ts (el, et, e4, e5, rs) lt =
    subst
      (λ x.
        let (r, l', es', bs) = pack m x in
        (r ≡ size (node j ts)) × (l' ≡ size (node j ts)) × (bs ≡ encode (node j ts)))
      (sym (ap (λ x. ltv_entry x i ty d o es) el ∙ ap (λ x. ltv_entry 6 i x d o es) et))
      (let (n, after) = pack_trees m es ts (read m d 6) rs (omega (arith, size-node j ts)) in
        let (sub_bytes, es', buf') = pack_all m es (read m d 6) in
        let (k, bytes) =
          finish_container m d j sub_bytes tt [] (encode_all ts) buf' e4 e5 after n
            (omega (arith, size-node j ts)) in
        (k ∙ sym (size-node j ts), k ∙ sym (size-node j ts), bytes))
