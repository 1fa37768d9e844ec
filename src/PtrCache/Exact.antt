-- ===== src/PtrCache/Exact.antt =====
-- `set` and `get` in both modes, where nothing is erased from the side: the list has exactly the
-- cached keys.
use socle.Prelude.{
  ℕ, zero, suc, ◌≤◌, ◌<◌, ◌≡◌, refl, sym, ap, ◌∙◌, subst, inl, inr, true, false, Option, none, some,
  List, [], ◌∷◌, arith, leb, Bool-cases, ◌>>=◌, length, Key, same-eq, occurs, Nodup, find_key,
}
use socle.Buffer.Refine.{run}
use socle.PtrCache.{
  Mode, fifo, lru, PtrCache, back, pop_back, erase, delete_key, delete_last, make_room, evict,
  evict_all,
}
use socle.PtrCache.Ends.{
  back-cons, length-pop_back, occurs-pop_back, pop_back-Nodup, find_key-erase, erase-Nodup,
  erase-rest,
}
use socle.PtrCache.Lru.{IsExact, Reordered, same-Reordered, lru_reoder-Reorders}

module _ {K T : Type 0} ⦃e : Key K⦄ where
  -- `c'` has lost the entry of one key, and has the keys of its list exactly.
  pub record Shrunk (c c' : PtrCache K T) : Type 0 where
    pub exact : IsExact c'
    pub mode : c'.mode_ ≡ c.mode_
    pub max : c'.max_size_ ≡ c.max_size_
    pub check : c'.fn_expired_check ≡ c.fn_expired_check
    pub size : suc (length c'.items_) ≡ length c.items_
    pub less : (i : K) → find_key i c.cache_ ≡ none → find_key i c'.cache_ ≡ none

  delete_key-Shrunk :
      (c : PtrCache K T) (k b : K) (ks : List K)
      → IsExact c
      → c.items_ ≡ k ∷ ks
      → back (k ∷ ks) ≡ some b
      → Shrunk c (delete_key c b).1
  unfolding delete_key
  delete_key-Shrunk c k b ks x h last =
      let rest = erase-rest c b in
      let items : pop_back (erase c b).1.items_ ≡ pop_back (k ∷ ks) =
        ap (λ is. pop_back is) (ap (λ d. d.items_) rest ∙ h) in
      let (order, gone) = pop_back-Nodup b (k ∷ ks) last (subst Nodup h x.ordered) in
      let sizes : suc (length (pop_back (k ∷ ks))) ≡ length c.items_ =
        ap suc (length-pop_back k ks) ∙ sym (ap length h) in
      record {
        exact = record {
          distinct = erase-Nodup c b x.distinct;
          ordered = subst Nodup (sym items) order;
          matched = λ i.
              ap (occurs i) items
              ∙ ground (
                arith,
                gone,
                same-eq i b,
                occurs-pop_back i b (k ∷ ks) last,
                find_key-erase c i b,
                x.matched i,
                ap (occurs i) h,
              );
          bounded = ground (arith, x.bounded, sizes, ap length items, ap (λ d. d.max_size_) rest);
        };
        mode = ap (λ d. d.mode_) rest;
        max = ap (λ d. d.max_size_) rest;
        check = ap (λ d. d.fn_expired_check) rest;
        size = ap (λ is. suc (length is)) items ∙ sizes;
        less = λ i h. ground (arith, find_key-erase c i b);
      }

  make_room-Reordered :
      (c : PtrCache K T) (md : Mode) (k : K) (ks : List K)
      → IsExact c
      → c.items_ ≡ k ∷ ks
      → (c' : PtrCache K T) × (make_room md c ≡ some c') × Reordered c c'
  unfolding make_room
  make_room-Reordered c fifo k ks x h = (c, refl, same-Reordered c x)
  make_room-Reordered c lru k ks x h =
      let (r, c', run, o) = lru_reoder-Reorders c k ks x h in
      (c', ap (λ z. z >>= λ y. some y.1) run, o)

  abbrev Shrinks : PtrCache K T → Option (PtrCache K T) → Type 0
  Shrinks c o = (c' : PtrCache K T) × (o ≡ some c') × Shrunk c c'

  evict-Shrinks :
      (c : PtrCache K T) (k : K) (ks : List K) → IsExact c → c.items_ ≡ k ∷ ks → Shrinks c (evict c)
  unfolding evict
  evict-Shrinks c k ks x h =
      let (c₁, run, o) = make_room-Reordered c c.mode_ k ks x h in
      let some_left : 0 < length c₁.items_ = omega (arith, o.size, ap length h) in
      let (j, js, l) = non_empty c₁.items_ some_left in
      let (b, last) = back-cons j js in
      let d = delete_key-Shrunk c₁ j b js o.exact l last in
      (
        (delete_key c₁ b).1,
        ap (λ z. z >>= λ c₂. (delete_last c₂ >>= λ y. some y.1)) run
            ∙ unfold delete_last in
              ap (λ z. (z >>= λ k. some (delete_key c₁ k)) >>= λ y. some y.1) (ap back l ∙ last),
        record {
          exact = d.exact;
          mode = d.mode ∙ o.mode;
          max = d.max ∙ o.max;
          check = d.check ∙ o.check;
          size = d.size ∙ o.size;
          less = λ i h. d.less i (ap (find_key i) o.entries ∙ h);
        },
      )
    where
      non_empty : (ks : List K) → 0 < length ks → (j : K) × (js : List K) × (ks ≡ j ∷ js)
      non_empty [] p = absurd (omega arith)
      non_empty (j ∷ js) p = (j, js, refl)

  -- What the loop of `set` leaves.
  pub record Room (c : PtrCache K T) (o : Option (PtrCache K T)) : Type 0 where
    pub c' : PtrCache K T
    pub done : o ≡ some c'
    pub exact : IsExact c'
    pub mode : c'.mode_ ≡ c.mode_
    pub max : c'.max_size_ ≡ c.max_size_
    pub check : c'.fn_expired_check ≡ c.fn_expired_check
    pub few : length c'.items_ < c.max_size_
    pub less : (i : K) → find_key i c.cache_ ≡ none → find_key i c'.cache_ ≡ none

  pub evict_all-Room :
      (fuel : ℕ) (c : PtrCache K T)
      → IsExact c
      → 0 < c.max_size_
      → length c.items_ ≤ fuel
      → Room c (evict_all fuel c)
  unfolding evict_all
  evict_all-Room zero c x p le = record {
    c' = c;
    done = refl;
    exact = x;
    mode = refl;
    max = refl;
    check = refl;
    few = omega arith;
    less = λ i h. h;
  }
  evict_all-Room (suc fuel) c x p le = elim (Bool-cases (leb c.max_size_ (length c.items_))) [
    | inr small ↦ record {
      c' = c;
      done = ap (λ t. elim t [ true ↦ evict c >>= evict_all fuel | false ↦ some c ]) small;
      exact = x;
      mode = refl;
      max = refl;
      check = refl;
      few = ground arith;
      less = λ i h. h;
    }
    | inl full ↦
        go c.items_ refl (ground arith) full
          (λ d s. evict_all-Room fuel d s.exact (omega (arith, s.max)) (omega (arith, s.size)))
  ]
    where
      go :
          (ks : List K)
          → c.items_ ≡ ks
          → 0 < length ks
          → leb c.max_size_ (length c.items_) ≡ true
          → ((d : PtrCache K T) → Shrunk c d → Room d (evict_all fuel d))
          → Room c (evict_all (suc fuel) c)
      go [] h q full ih = absurd (omega arith)
      go (k ∷ ks) h q full ih =
          let (d, run, s) = evict-Shrinks c k ks x h in
          let r = ih d s in
          record {
            c' = r.c';
            done =
                ap (λ t. elim t [ true ↦ evict c >>= evict_all fuel | false ↦ some c ]) full
                ∙ ap (λ o. o >>= evict_all fuel) run
                ∙ r.done;
            exact = r.exact;
            mode = r.mode ∙ s.mode;
            max = r.max ∙ s.max;
            check = r.check ∙ s.check;
            few = omega (arith, r.few, s.max);
            less = λ i h. r.less i (s.less i h);
          }
