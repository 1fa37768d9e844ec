-- ===== src/Ltv/Steps.antt =====
-- One step of `unpack` and of its loop over sub-entries.
use native.Mathlib.Nat.{mod-eq_of_lt}
use socle.Prelude.{
  ℕ, suc, ◌+◌, ◌-◌, ◌^◌, ◌≤◌, ◌<◌, ◌≡◌, refl, ap, ◌∙◌, subst, ◌≢◌, false, List, ◌∷◌, ◌++◌, arith,
  ltb, if◌then◌else◌, lt→ltb, le→ltb, ==_iff,
}
use socle.Ltv.{
  LtvEntry, ltv_entry, Entries, nil, cons, cont, new_entry, push_back, be32, ltv_get_length, Store,
  take_data, Unpack, dig, unpack_contents, unpack_whole, unpack_fuel,
}
use socle.Ltv.Format.{Holds, Holds-append, be32-length}
use socle.MemPool.Buckets.{Heap}
use socle.Memory.{Memory}
use socle.PtrCache.{front}

abbrev pub and_entries : Entries → Entries → Entries
and_entries nil fs = fs
and_entries (cons e es) fs = cons e (and_entries es fs)

pub push_back-and_entries :
    (es fs : Entries) (e : LtvEntry) → and_entries (push_back es e) fs ≡ and_entries es (cons e fs)
push_back-and_entries nil fs e = refl
push_back-and_entries (cons x es) fs e = ap (cons x) (push_back-and_entries es fs e)

pub and_entries-nil : (es : Entries) → and_entries es nil ≡ es
and_entries-nil nil = refl
and_entries-nil (cons x es) = ap (cons x) (and_entries-nil es)

-- what the whole-entry part of `unpack` returns for a new entry without data of its own
abbrev pub whole : Unpack → Store → ℕ → ℕ → ℕ → ℕ → ℕ × LtvEntry × Store
whole sub s a l i t =
    let (es, s') = unpack_contents sub s t l a nil in (l, ltv_entry l i t a false es, s')

pub unpack_fuel-whole :
    (f : ℕ) (m : Memory) (h : Heap) (a buflen l i t : ℕ)
    → 4 ≤ buflen
    → l ≤ buflen
    → ltv_get_length m a ≡ l
    → m (a + 4) ≡ i
    → m (a + 5) ≡ t
    → unpack_fuel (suc f) (new_entry false) (m, h) a buflen
      ≡ whole (unpack_fuel f (new_entry false)) (m, h) a l i t
unfolding unpack_fuel unpack_whole take_data
unpack_fuel-whole f m h a buflen l i t four le el ei et =
    let sub = unpack_fuel f (new_entry false) in
    ap
      (λ x.
        if ltb buflen 4
        then (2 ^ 32 - 1, new_entry false, (m, h))
        else if ltb buflen x
        then (0, ltv_entry x 0 0 0 false nil, (m, h))
        else whole sub (m, h) a x (m (a + 4)) (m (a + 5)))
      el
    ∙ ap
        (λ b.
          if b
          then (2 ^ 32 - 1, new_entry false, (m, h))
          else if ltb buflen l
          then (0, ltv_entry l 0 0 0 false nil, (m, h))
          else whole sub (m, h) a l (m (a + 4)) (m (a + 5)))
        (le→ltb buflen 4 four)
    ∙ ap
        (λ b.
          if b
          then (0, ltv_entry l 0 0 0 false nil, (m, h))
          else whole sub (m, h) a l (m (a + 4)) (m (a + 5)))
        (le→ltb buflen l le)
    ∙ ap (λ x. whole sub (m, h) a l x (m (a + 5))) ei
    ∙ ap (λ x. whole sub (m, h) a l i x) et

-- the header of an entry in memory
pub header :
    (m : Memory) (a n i t : ℕ) (bs : List ℕ)
    → n < 2 ^ 32
    → Holds m a (be32 n ++ i ∷ t ∷ bs)
    → (ltv_get_length m a ≡ n) × (m (a + 4) ≡ i) × (m (a + 5) ≡ t) × Holds m (a + 6) bs
header m a n i t bs lt h =
    let (front, rest) = Holds-append m a (be32 n) (i ∷ t ∷ bs) h in
    (
      be32-length m a n lt front,
      rest.0,
      subst (λ b. m b ≡ t) (omega arith) rest.1.0,
      subst (λ b. Holds m b bs) (omega arith) rest.1.1,
    )

pub unpack_contents-leaf :
    (sub : Unpack) (s : Store) (t l a : ℕ) → t ≢ cont → unpack_contents sub s t l a nil ≡ (nil, s)
unfolding unpack_contents
unpack_contents-leaf sub s t l a n = ground (arith, ==_iff t cont)

pub unpack_contents-empty :
    (sub : Unpack) (s : Store) (t a : ℕ) → unpack_contents sub s t 6 a nil ≡ (nil, s)
unfolding unpack_contents
unpack_contents-empty sub s t a = ground arith

pub unpack_contents-node :
    (sub : Unpack) (s : Store) (n a : ℕ)
    → 0 < n
    → unpack_contents sub s cont (6 + n) a nil ≡ dig sub n s (a + 6) 0 n nil
unfolding unpack_contents
unpack_contents-node sub s n a p =
    ap (λ b. if b then dig sub (6 + n - 6) s (a + 6) 0 (6 + n - 6) nil else (nil, s))
      (lt→ltb 6 (6 + n) (omega arith))
    ∙ ap (λ k. dig sub k s (a + 6) 0 k nil) (omega arith)

pub dig-last :
    (sub : Unpack) (rounds p index payload n : ℕ) (s s' : Store) (es : Entries) (l : LtvEntry)
    → sub s (p + index) payload ≡ (n, l, s')
    → 0 < n
    → payload ≤ index + n
    → index + n < 2 ^ 32
    → dig sub (suc rounds) s p index payload es ≡ (push_back es l, s')
unfolding dig
dig-last sub rounds p index payload n s s' es l e z le lt = ground (arith, e, mod-eq_of_lt lt)

pub dig-next :
    (sub : Unpack) (rounds p index payload n : ℕ) (s s' : Store) (es : Entries) (l : LtvEntry)
    → sub s (p + index) payload ≡ (n, l, s')
    → 0 < n
    → index + n < payload
    → index + n < 2 ^ 32
    → dig sub (suc rounds) s p index payload es
      ≡ dig sub rounds s' p (index + n) payload (push_back es l)
unfolding dig
dig-next sub rounds p index payload n s s' es l e z le lt = ground (arith, e, mod-eq_of_lt lt)
