-- ===== src/PtrCache/Fifo.antt =====
-- The loop in `set` in the mode FIFO, where keys that were erased may still be in the list.
use socle.Prelude.{
  ℕ, zero, suc, ◌≤◌, ◌<◌, ◌≡◌, refl, sym, ap, ◌∙◌, subst, ◌⊎◌, inl, inr, true, false, Option, none,
  some, List, [], ◌∷◌, arith, leb, Bool-cases, ◌>>=◌, length, Key, occurs, Nodup, find_key, keys,
  occurs-keys,
}
use socle.Buffer.Refine.{run}
use socle.PtrCache.{
  fifo, PtrCache, back, pop_back, erase, delete_key, delete_last, make_room, evict, evict_all,
}
use socle.PtrCache.Ends.{
  back-cons, length-pop_back, occurs-pop_back, find_key-erase, erase-Nodup, erase-rest,
}

module _ {K T : Type 0} ⦃e : Key K⦄ where
  -- Every entry has its key in the list, and the list is not longer than the cache may be.
  pub record IsListed (c : PtrCache K T) : Type 0 where
    pub distinct : Nodup (keys c.cache_)
    pub listed : (i : K) → occurs i (keys c.cache_) ≡ true → occurs i c.items_ ≡ true
    pub bounded : (c.max_size_ ≡ 0) ⊎ (length c.items_ ≤ c.max_size_)

  -- `c'` has lost some of the entries of `c` and nothing else.
  pub record Evicted (c c' : PtrCache K T) : Type 0 where
    pub mode : c'.mode_ ≡ c.mode_
    pub max : c'.max_size_ ≡ c.max_size_
    pub stats : c'.dbs_ ≡ c.dbs_
    pub distinct : Nodup (keys c'.cache_)
    pub listed : (i : K) → occurs i (keys c'.cache_) ≡ true → occurs i c'.items_ ≡ true
    pub less :
        (i : K) → (find_key i c'.cache_ ≡ none) ⊎ (find_key i c'.cache_ ≡ find_key i c.cache_)

  -- Where `IsListed` is needed without its bound.
  abbrev Listed : PtrCache K T → Type 0
  Listed c =
      Nodup (keys c.cache_) × ((i : K) → occurs i (keys c.cache_) ≡ true → occurs i c.items_ ≡ true)

  pub same-Evicted : (c : PtrCache K T) → Listed c → Evicted c c
  same-Evicted c l = record {
    mode = refl;
    max = refl;
    stats = refl;
    distinct = l.0;
    listed = l.1;
    less = λ i. inr refl;
  }

  dropped-Evicted :
      (c : PtrCache K T) (b : K) → Listed c → back c.items_ ≡ some b → Evicted c (delete_key c b).1
  unfolding delete_key
  dropped-Evicted c b l h =
      let rest = erase-rest c b in
      record {
        mode = ap (λ d. d.mode_) rest;
        max = ap (λ d. d.max_size_) rest;
        stats = ap (λ d. d.dbs_) rest;
        distinct = erase-Nodup c b l.0;
        listed = λ i o. ground (
          arith,
          occurs-keys i (erase c b).1.cache_,
          occurs-keys i c.cache_,
          find_key-erase c i b,
          l.1 i,
          occurs-pop_back i b c.items_ h,
        );
        less = λ i. ground (arith, find_key-erase c i b);
      }

  pub evict-fifo :
      (c : PtrCache K T) (b : K)
      → c.mode_ ≡ fifo
      → back c.items_ ≡ some b
      → evict c ≡ some (delete_key c b).1
  unfolding evict delete_last make_room
  evict-fifo c b m h =
      ap (λ md. make_room md c >>= (λ c₁. delete_last c₁ >>= λ x. some x.1)) m
      ∙ ap (λ o. (o >>= λ k. some (delete_key c k)) >>= λ x. some x.1) h

  Evicted-trans : (c c' c'' : PtrCache K T) → Evicted c c' → Evicted c' c'' → Evicted c c''
  Evicted-trans c c' c'' x y = record {
    mode = y.mode ∙ x.mode;
    max = y.max ∙ x.max;
    stats = y.stats ∙ x.stats;
    distinct = y.distinct;
    listed = y.listed;
    less = λ i. ground (arith, x.less i, y.less i);
  }

  abbrev Roomy : ℕ → PtrCache K T → Option (PtrCache K T) → Type 0
  Roomy n c o = (c' : PtrCache K T) × (o ≡ some c') × Evicted c c' × (length c'.items_ < n)

  evict-Roomy :
      (fuel : ℕ) (c : PtrCache K T) (ks : List K)
      → c.mode_ ≡ fifo
      → c.items_ ≡ ks
      → 0 < length ks
      → Listed c
      → ((d : PtrCache K T)
          → Evicted c d
          → suc (length d.items_) ≡ length ks
          → Roomy c.max_size_ d (evict_all fuel d))
      → Roomy c.max_size_ c (evict c >>= evict_all fuel)
  evict-Roomy fuel c [] m h p l ih = absurd (omega arith)
  evict-Roomy fuel c (k ∷ ks) m h p l ih =
      let (b, last) = back-cons k ks in
      let last' : back c.items_ ≡ some b = ap back h ∙ last in
      let d = dropped-Evicted c b l last' in
      let shorter : length (delete_key c b).1.items_ ≡ length ks =
        unfold delete_key in
        ap (λ is. length (pop_back is)) (ap (λ x. x.items_) (erase-rest c b) ∙ h)
        ∙ length-pop_back k ks in
      let (c', run, v, few) = ih (delete_key c b).1 d (ap suc shorter) in
      (
        c',
        ap (λ o. o >>= evict_all fuel) (evict-fifo c b m last') ∙ run,
        Evicted-trans c (delete_key c b).1 c' d v,
        few,
      )

  pub evict_all-Roomy :
      (fuel : ℕ) (c : PtrCache K T)
      → c.mode_ ≡ fifo
      → 0 < c.max_size_
      → length c.items_ ≤ fuel
      → Listed c
      → Roomy c.max_size_ c (evict_all fuel c)
  unfolding evict_all
  evict_all-Roomy zero c m p le l = (c, refl, same-Evicted c l, omega arith)
  evict_all-Roomy (suc fuel) c m p le l = elim (Bool-cases (leb c.max_size_ (length c.items_))) [
    | inr few ↦ (
      c,
      ap (λ t. elim t [ true ↦ evict c >>= evict_all fuel | false ↦ some c ]) few,
      same-Evicted c l,
      ground arith,
    )
    | inl full ↦
        let room : Roomy c.max_size_ c (evict c >>= evict_all fuel) =
          evict-Roomy fuel c c.items_ m refl (ground arith) l (λ d v s.
            subst (λ n. Roomy n d (evict_all fuel d)) v.max
              (evict_all-Roomy fuel d (v.mode ∙ m) (omega (arith, v.max)) (omega arith)
                (v.distinct, v.listed))) in
        subst
          (λ t. Roomy c.max_size_ c (elim t [ true ↦ evict c >>= evict_all fuel | false ↦ some c ]))
          (sym full) room
  ]
