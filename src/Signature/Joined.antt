-- ===== src/Signature/Joined.antt =====
-- `append` to the flow of a stream.
use mathlib.Core.List.{append_assoc, append-nil}
use native.Mathlib.Nat.{mod-eq_of_lt}
use socle.Prelude.{
  ℕ, suc, ◌+◌, ◌^◌, ◌≤◌, ◌<◌, ◌≡◌, refl, sym, ap, ◌∙◌, subst, ◌⊎◌, inl, inr, Bool, true, false,
  List, [], ◌∷◌, ◌++◌, map, arith, ◌==◌, if◌then◌else◌, Bool-cases, length, length-append, add_u64,
  Key, same, same-eq,
}
use socle.Signature.{append, FlowEntry, Flow, max_flow_size, flow_entry, append_same, append_queue}

module _ {S : Type 0} ⦃e : Key S⦄ where
  -- Each byte with the side that sent it, in order.
  abbrev pub from_side : S → List ℕ → List (S × ℕ)
  from_side src bs = map (λ b. (src, b)) bs

  abbrev pub sent : List (FlowEntry S) → List (S × ℕ)
  sent [] = []
  sent (x ∷ xs) = from_side x.source_ x.data_ ++ sent xs

  -- Neighbours are of different sides.
  abbrev pub Alternates : List (FlowEntry S) → Type 0
  Alternates [] = Unit
  Alternates (x ∷ []) = Unit
  Alternates (x ∷ y ∷ ys) = (same x.source_ y.source_ ≡ false) × Alternates (y ∷ ys)

  pub record IsJoined (f : Flow S) : Type 0 where
    pub stream : f.is_stream ≡ true
    pub alternates : Alternates f.flow_queue_
    pub sides :
        ((length f.flow_queue_ ≡ 0) × (f.exchanges ≡ 0)) ⊎ (length f.flow_queue_ ≡ suc f.exchanges)

  from_side-append :
      (src : S) (xs ys : List ℕ) → from_side src (xs ++ ys) ≡ from_side src xs ++ from_side src ys
  from_side-append src [] ys = refl
  from_side-append src (x ∷ xs) ys = ap (◌∷◌ (src, x)) (from_side-append src xs ys)

  length-from_side : (src : S) (xs : List ℕ) → length (from_side src xs) ≡ length xs
  length-from_side src [] = refl
  length-from_side src (x ∷ xs) = ap suc (length-from_side src xs)

  pub joined : FlowEntry S → List ℕ → FlowEntry S
  joined x bs = record x { data_ = x.data_ ++ bs; counter_ = add_u64 x.counter_ 1 }

  -- The queue after `append` for an entry that is not full: the changed last entry, or a new one.
  append_queue-same :
      (x : FlowEntry S) (src : S) (bs : List ℕ)
      → same x.source_ src ≡ true
      → length x.data_ + length bs ≤ max_flow_size
      → append_queue true (x ∷ []) src bs ≡ (joined x bs ∷ [], false)
  unfolding append_queue append_same joined
  append_queue-same x src bs h le = ground arith

  append_queue-other :
      (x : FlowEntry S) (src : S) (bs : List ℕ)
      → same x.source_ src ≡ false
      → append_queue true (x ∷ []) src bs ≡ (x ∷ flow_entry src bs ∷ [], true)
  unfolding append_queue
  append_queue-other x src bs h =
      ap (λ t. if t then (append_same true x bs, false) else (x ∷ flow_entry src bs ∷ [], true)) h

  -- What `append` makes of a queue.
  pub record Grows (xs : List (FlowEntry S)) (src : S) (bs : List ℕ) (r : List (FlowEntry S) × Bool)
      : Type 0 where
    pub alternates : Alternates r.0
    pub bytes : sent r.0 ≡ sent xs ++ from_side src bs
    pub count :
        length r.0 ≡ (if r.1 then suc (length xs) else (if length xs == 0 then 1 else length xs))
    pub occupied : r.1 ≡ true → 0 < length xs
    pub first :
        (x : FlowEntry S) (ys : List (FlowEntry S))
        → xs ≡ x ∷ ys
        → (y : FlowEntry S) × (zs : List (FlowEntry S)) × (r.0 ≡ y ∷ zs) × (y.source_ ≡ x.source_)

  last-Grows :
      (x : FlowEntry S) (src : S) (bs : List ℕ)
      → length x.data_ + length bs ≤ max_flow_size
      → Grows (x ∷ []) src bs (append_queue true (x ∷ []) src bs)
  last-Grows x src bs le = elim (Bool-cases (same x.source_ src)) [
    | inl h ↦
        let side : x.source_ ≡ src = same-eq x.source_ src h in
        subst (Grows (x ∷ []) src bs) (sym (append_queue-same x src bs h le)) (record {
          alternates = tt;
          bytes =
              unfold joined in
              ap (λ z. z ++ []) (from_side-append x.source_ x.data_ bs)
              ∙ append-nil (from_side x.source_ x.data_ ++ from_side x.source_ bs)
              ∙ ap (λ z. from_side x.source_ x.data_ ++ from_side z bs) side
              ∙ ap (λ z. z ++ from_side src bs) (sym (append-nil (from_side x.source_ x.data_)));
          count = ground arith;
          occupied = λ t. omega arith;
          first = λ y ys h.
              (joined x bs, [], refl, unfold joined in ap (λ z. z.source_) (head-eq x y h));
        })
    | inr h ↦ subst (Grows (x ∷ []) src bs) (sym (append_queue-other x src bs h)) (record {
      alternates = (h, tt);
      bytes =
          ap (λ z. from_side x.source_ x.data_ ++ z) (append-nil (from_side src bs))
          ∙ ap (λ z. z ++ from_side src bs) (sym (append-nil (from_side x.source_ x.data_)));
      count = refl;
      occupied = λ t. omega arith;
      first = λ y ys h. (x, flow_entry src bs ∷ [], refl, ap (λ z. z.source_) (head-eq x y h));
    })
  ]
    where
      head-eq : (x y : FlowEntry S) {xs ys : List (FlowEntry S)} → x ∷ xs ≡ y ∷ ys → x ≡ y
      head-eq x y h = cc

  Alternates-cons :
      (x y z : FlowEntry S) (zs : List (FlowEntry S)) (q : List (FlowEntry S))
      → same x.source_ y.source_ ≡ false
      → q ≡ z ∷ zs
      → z.source_ ≡ y.source_
      → Alternates q
      → Alternates (x ∷ q)
  Alternates-cons x y z zs q n h s a =
      subst (λ q. Alternates (x ∷ q)) (sym h) (ap (same x.source_) s ∙ n, subst Alternates h a)

  append_queue-Grows :
      (xs : List (FlowEntry S)) (src : S) (bs : List ℕ)
      → Alternates xs
      → length (sent xs) + length bs ≤ max_flow_size
      → Grows xs src bs (append_queue true xs src bs)
  unfolding append_queue
  append_queue-Grows [] src bs a le = record {
    alternates = tt;
    bytes = append-nil (from_side src bs);
    count = ground arith;
    occupied = λ h. absurd (cc);
    first = λ x ys h. absurd (cc);
  }
  append_queue-Grows (x ∷ []) src bs a le = last-Grows x src bs (
      omega
        (arith, length-append (from_side x.source_ x.data_) [], length-from_side x.source_ x.data_))
  append_queue-Grows (x ∷ y ∷ ys) src bs a le =
      let ih =
        append_queue-Grows (y ∷ ys) src bs a.1
          (omega (arith, length-append (from_side x.source_ x.data_) (sent (y ∷ ys)))) in
      let r = append_queue true (y ∷ ys) src bs in
      let (z, zs, q, s) = ih.first y ys refl in
      record {
        alternates = Alternates-cons x y z zs r.0 a.0 q s ih.alternates;
        bytes =
            ap (λ t. from_side x.source_ x.data_ ++ t) ih.bytes
            ∙ sym (append_assoc (from_side x.source_ x.data_) (sent (y ∷ ys)) (from_side src bs));
        count = ground (arith, ih.count);
        occupied = λ t. omega arith;
        first = λ w ws h. (x, r.0, refl, ap (λ t. t.source_) (head-cons x w h));
      }
    where
      head-cons : (x y : FlowEntry S) {xs ys : List (FlowEntry S)} → x ∷ xs ≡ y ∷ ys → x ≡ y
      head-cons x y h = cc

  -- In the flow of a stream, whose neighbouring entries are of different sides, `append` of bytes
  -- that fit below the limit of a flow adds them, with their side, behind all that was sent so far.
  -- Neighbours stay of different sides, and the number of entries stays one more than that of the
  -- exchanges, which does not wrap.
  pub append-IsJoined :
      (f : Flow S) (src : S) (bs : List ℕ)
      → IsJoined f
      → length (sent f.flow_queue_) + length bs ≤ max_flow_size
      → f.exchanges + 1 < 2 ^ 32
      → let (r, f') = append f src bs in
        IsJoined f' × (sent f'.flow_queue_ ≡ sent f.flow_queue_ ++ from_side src bs)
  unfolding append
  append-IsJoined f src bs u le lt =
      let g =
        subst (λ t. Grows f.flow_queue_ src bs (append_queue t f.flow_queue_ src bs)) (sym u.stream)
          (append_queue-Grows f.flow_queue_ src bs u.alternates le) in
      (
        record {
          stream = u.stream;
          alternates = g.alternates;
          sides = ground (arith, g.count, g.occupied, u.sides, mod-eq_of_lt lt);
        },
        g.bytes,
      )
