-- ===== src/Ltv/Unpack.antt =====
-- `unpack` of well-formed bytes.
use socle.Prelude.{
  ℕ, zero, suc, ◌+◌, ◌^◌, ◌≤◌, ◌<◌, ◌≡◌, sym, ap, ◌∙◌, subst, false, [], ◌++◌, arith, length,
  length-append,
}
use socle.Ltv.{
  ltv_entry, Entries, nil, cons, cont, new_entry, push_back, Store, dig, unpack_fuel, unpack,
}
use socle.Ltv.Format.{
  Tree, leaf, node, Trees, no_trees, and_trees, encode, encode_all, size, shown_at, all_shown_at,
  IsTyped, AreTyped, Holds, Holds-append, size_pos, size-leaf, size-node,
}
use socle.Ltv.Steps.{
  and_entries, push_back-and_entries, and_entries-nil, unpack_fuel-whole, header,
  unpack_contents-leaf, unpack_contents-empty, unpack_contents-node, dig-last, dig-next,
}
use socle.MemPool.Buckets.{Heap}
use socle.Memory.{Memory}
use socle.PtrCache.{front}

abbrev Digs : ℕ → Store → ℕ → ℕ → ℕ → Entries → Trees → Type 0
Digs f s rounds p index es ts =
    dig (unpack_fuel f (new_entry false)) rounds s p index (index + length (encode_all ts)) es
    ≡ (and_entries es (all_shown_at (p + index) ts), s)

mutual
  unpacks :
      (f : ℕ) (t : Tree) (m : Memory) (h : Heap) (a buflen : ℕ)
      → IsTyped t
      → Holds m a (encode t)
      → size t ≤ buflen
      → buflen < 2 ^ 31
      → size t ≤ f
      → unpack_fuel f (new_entry false) (m, h) a buflen ≡ (size t, shown_at a t, (m, h))
  unpacks zero t m h a buflen ty ho le lt fu = absurd (omega (arith, size_pos t))
  unpacks (suc f) (leaf i t bs) m h a buflen ty ho le lt fu =
      let e = size-leaf i t bs in
      let (el, ei, et, rest) = header m a (6 + length bs) i t bs (omega (arith, e)) ho in
      unpack_fuel-whole f m h a buflen (6 + length bs) i t (omega (arith, e)) (omega (arith, e)) el
        ei et
      ∙ ap (λ x. (6 + length bs, ltv_entry (6 + length bs) i t a false x.0, x.1))
          (unpack_contents-leaf (unpack_fuel f (new_entry false)) (m, h) t (6 + length bs) a ty)
      ∙ ap (λ n. (n, ltv_entry (6 + length bs) i t a false nil, (m, h))) (sym e)
  unpacks (suc f) (node i no_trees) m h a buflen ty ho le lt fu =
      let (el, ei, et, rest) = header m a 6 i cont [] (omega arith) ho in
      unpack_fuel-whole f m h a buflen 6 i cont (omega arith) (omega arith) el ei et
      ∙ ap (λ x. (6, ltv_entry 6 i cont a false x.0, x.1))
          (unpack_contents-empty (unpack_fuel f (new_entry false)) (m, h) cont a)
  unpacks (suc f) (node i (and_trees t ts)) m h a buflen ty ho le lt fu =
      let us = and_trees t ts in
      let n = length (encode_all us) in
      let sub = unpack_fuel f (new_entry false) in
      let e = size-node i us in
      let (el, ei, et, rest) = header m a (6 + n) i cont (encode_all us) (omega (arith, e)) ho in
      let some_bytes : 0 < n =
        omega (arith, size_pos t, length-append (encode t) (encode_all ts)) in
      let start : a + 6 + 0 ≡ a + 6 = omega arith in
      let all : 0 + n ≡ n = omega arith in
      let rest' : Holds m (a + 6 + 0) (encode_all us) =
        subst (λ b. Holds m b (encode_all us)) (sym start) rest in
      let d =
        digs f (and_trees t ts) n m h (a + 6) 0 nil ty rest' (omega (arith, e)) some_bytes
          (omega arith) (omega (arith, e)) in
      let dug : dig sub n (m, h) (a + 6) 0 n nil ≡ (all_shown_at (a + 6) us, (m, h)) =
        ap (λ k. dig sub n (m, h) (a + 6) 0 k nil) (sym all)
        ∙ d
        ∙ ap (λ b. (all_shown_at b us, (m, h))) start in
      unpack_fuel-whole f m h a buflen (6 + n) i cont (omega (arith, e)) (omega (arith, e)) el ei et
      ∙ ap (λ x. (6 + n, ltv_entry (6 + n) i cont a false x.0, x.1))
          (unpack_contents-node sub (m, h) n a some_bytes ∙ dug)
      ∙ ap (λ k. (k, shown_at a (node i us), (m, h))) (sym e)

  digs :
      (f : ℕ) (us : Trees) (rounds : ℕ) (m : Memory) (h : Heap) (p index : ℕ) (es : Entries)
      → AreTyped us
      → Holds m (p + index) (encode_all us)
      → index + length (encode_all us) < 2 ^ 31
      → 0 < length (encode_all us)
      → length (encode_all us) ≤ rounds
      → length (encode_all us) ≤ f
      → Digs f (m, h) rounds p index es us
  digs f us zero m h p index es ty ho lt so ro fu = absurd (omega arith)
  digs f no_trees (suc rounds) m h p index es ty ho lt so ro fu = absurd (omega arith)
  digs f (and_trees t no_trees) (suc rounds) m h p index es ty ho lt so ro fu =
      let e = length-append (encode t) [] in
      let front = (Holds-append m (p + index) (encode t) [] ho).0 in
      let payload = index + length (encode t ++ []) in
      dig-last (unpack_fuel f (new_entry false)) rounds p index payload (size t) (m, h) (m, h) es
        (shown_at (p + index) t)
        (unpacks f t m h (p + index) payload ty.0 front (omega (arith, e)) (omega arith)
          (omega (arith, e)))
        (omega (arith, size_pos t)) (omega (arith, e)) (omega (arith, e))
      ∙ ap (λ x. (x, (m, h)))
          (sym (and_entries-nil (push_back es (shown_at (p + index) t)))
            ∙ push_back-and_entries es nil (shown_at (p + index) t))
  digs f (and_trees t (and_trees u us)) (suc rounds) m h p index es ty ho lt so ro fu =
      let ts = and_trees u us in
      let e = length-append (encode t) (encode_all ts) in
      let k = length-append (encode u) (encode_all us) in
      let (front, rest) = Holds-append m (p + index) (encode t) (encode_all ts) ho in
      let payload = index + length (encode_all (and_trees t ts)) in
      let l = shown_at (p + index) t in
      let ih =
        digs f (and_trees u us) rounds m h p (index + size t) (push_back es l) ty.1
          (subst (λ b. Holds m b (encode_all ts)) (omega arith) rest) (omega (arith, e))
          (omega (arith, k, size_pos u)) (omega (arith, e, size_pos t)) (omega (arith, e)) in
      dig-next (unpack_fuel f (new_entry false)) rounds p index payload (size t) (m, h) (m, h) es l
        (unpacks f t m h (p + index) payload ty.0 front (omega (arith, e)) (omega arith)
          (omega (arith, e)))
        (omega (arith, size_pos t)) (omega (arith, e, size_pos u, k))
        (omega (arith, e, size_pos u, k))
      ∙ ap
          (λ n.
            dig (unpack_fuel f (new_entry false)) rounds (m, h) p (index + size t) n
              (push_back es l))
          (omega (arith, e))
      ∙ ih
      ∙ ap (λ x. (x, (m, h)))
          (push_back-and_entries es (all_shown_at (p + (index + size t)) ts) l
            ∙ ap (λ b. and_entries es (cons l (all_shown_at b ts))) (omega arith))

-- Where the buffer begins with the bytes of a tree (no leaf of the type `cont`) and is shorter than
-- 2^31, `unpack` into a new entry that does not own its data returns the number of the tree's bytes
-- and the entry that shows the tree, and changes no memory: its fuel is enough.
pub unpack-encode :
    (t : Tree) (m : Memory) (h : Heap) (a buflen : ℕ)
    → IsTyped t
    → Holds m a (encode t)
    → size t ≤ buflen
    → buflen < 2 ^ 31
    → unpack (new_entry false) (m, h) a buflen ≡ (size t, shown_at a t, (m, h))
unfolding unpack
unpack-encode t m h a buflen ty ho le lt =
    unpacks (suc buflen) t m h a buflen ty ho le lt (omega arith)
