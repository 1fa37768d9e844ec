-- ===== src/PtrCache/Reads.antt =====
-- `get` in the mode LRU.
use socle.Prelude.{
  ◌≡◌, refl, sym, ap, ◌∙◌, subst, true, false, Option, none, some, List, [], ◌∷◌, arith, is_some,
  ◌>>=◌, add_u32, Key, same, occurs, find_key, find_key-store, keys-store-Nodup,
}
use socle.Buffer.Refine.{run}
use socle.PtrCache.{
  Mode, fifo, lru, DataBlock, PtrCache, front, back, erase, touch, reorder, lru_reoder, get_found,
  get,
}
use socle.PtrCache.Ends.{back-cons, find_key-erase, erase-rest}
use socle.PtrCache.Lru.{IsExact, lru_reoder-Reorders}

pub pointer_of : {T : Type 0} → Option (DataBlock T) → Option (Option T)
pointer_of none = none
pointer_of (some b) = some b.pointer_

occurs-cons :
    {K : Type 0} ⦃e : Key K⦄ (k : K) (ks : List K)
    → occurs k ks ≡ true
    → (j : K) × (js : List K) × (ks ≡ j ∷ js)
occurs-cons k [] h = cc
occurs-cons k (j ∷ js) h = (j, js, refl)

module _ {K T : Type 0} ⦃e : Key K⦄ where
  touch-IsExact :
      (c : PtrCache K T) (k : K) (b : DataBlock T)
      → IsExact c
      → find_key k c.cache_ ≡ some b
      → IsExact (touch c k b)
  unfolding touch
  touch-IsExact c k b x h =
      let b' : DataBlock T = record b { counter_ = add_u32 b.counter_ 1 } in
      record {
        distinct = keys-store-Nodup k b' c.cache_ x.distinct;
        ordered = x.ordered;
        matched = λ i. ground (arith, x.matched i, find_key-store i k b' c.cache_);
        bounded = x.bounded;
      }

  pointer_of-touch :
      (c : PtrCache K T) (k i : K) (b : DataBlock T)
      → find_key k c.cache_ ≡ some b
      → pointer_of (find_key i (touch c k b).cache_) ≡ pointer_of (find_key i c.cache_)
  unfolding touch pointer_of
  pointer_of-touch c k i b h =
      ground (arith, find_key-store i k (record b { counter_ = add_u32 b.counter_ 1 }) c.cache_)

  -- What `get` of a cached key returns: see `get-Gets`.
  pub record Gets (c : PtrCache K T) (b : DataBlock T) (o : Option (Option T × PtrCache K T))
      : Type 0 where
    pub c' : PtrCache K T
    pub done : o ≡ some (b.pointer_, c')
    pub exact : IsExact c'
    pub mode : c'.mode_ ≡ c.mode_
    pub max : c'.max_size_ ≡ c.max_size_
    pub check : c'.fn_expired_check ≡ c.fn_expired_check
    pub pointers : (i : K) → pointer_of (find_key i c'.cache_) ≡ pointer_of (find_key i c.cache_)

  get_found-Gets :
      (c : PtrCache K T) (k : K) (md : Mode) (b : DataBlock T)
      → IsExact c
      → find_key k c.cache_ ≡ some b
      → Gets c b (get_found c k md b)
  unfolding get_found
  get_found-Gets c k fifo b x h = record {
    c' = c;
    done = refl;
    exact = x;
    mode = refl;
    max = refl;
    check = refl;
    pointers = λ i. refl;
  }
  get_found-Gets c k lru b x h =
      let (j, js, l) = occurs-cons k c.items_ (x.matched k ∙ ap is_some h) in
      let l' : (touch c k b).items_ ≡ j ∷ js = unfold touch in l in
      let (r, c', run, o) = lru_reoder-Reorders (touch c k b) j js (touch-IsExact c k b x h) l' in
      record {
        c' = c';
        done = ap (λ z. z >>= λ y. some (b.pointer_, y.1)) run;
        exact = o.exact;
        mode = o.mode ∙ unfold touch in refl;
        max = o.max ∙ unfold touch in refl;
        check = o.check ∙ unfold touch in refl;
        pointers = λ i. ap (λ m. pointer_of (find_key i m)) o.entries ∙ pointer_of-touch c k i b h;
      }

  pub get-missing :
      (c : PtrCache K T) (k : K) → find_key k c.cache_ ≡ none → get c k ≡ some (none, c)
  unfolding get
  get-missing c k h = ground arith

  get-unexpired :
      (c : PtrCache K T) (k : K) (b : DataBlock T)
      → c.fn_expired_check ≡ none
      → find_key k c.cache_ ≡ some b
      → get c k ≡ get_found c k c.mode_ b
  unfolding get
  get-unexpired c k b n h = ground arith

  -- Where the list has exactly the cached keys and nothing is checked for expiration, `get` of a
  -- cached key is free of undefined behaviour in both modes. It returns the pointer of the
  -- key, leaves every key its pointer, and changes the order of the list and the counts only.
  pub get-Gets :
      (c : PtrCache K T) (k : K) (b : DataBlock T)
      → IsExact c
      → c.fn_expired_check ≡ none
      → find_key k c.cache_ ≡ some b
      → Gets c b (get c k)
  get-Gets c k b x n h =
      subst (Gets c b) (sym (get-unexpired c k b n h)) (get_found-Gets c k c.mode_ b x h)

  lru_reoder-none :
      (c : PtrCache K T) (f : K) (ks : List K)
      → c.items_ ≡ f ∷ ks
      → find_key f c.cache_ ≡ none
      → lru_reoder c ≡ none
  unfolding lru_reoder front
  lru_reoder-none c f ks l h =
      let (z, last) = back-cons f ks in
      ap
        (λ is. back is >>= λ z.
          front is >>= λ a. find_key a c.cache_ >>= λ y. some (reorder c z y (find_key z c.cache_)))
        l
      ∙ ap (λ o. o >>= λ z. find_key f c.cache_ >>= λ y. some (reorder c z y (find_key z c.cache_)))
          last
      ∙ ap (λ o. o >>= λ y. some (reorder c z y (find_key z c.cache_))) h

  -- In the mode LRU and without a check of expiration: after `erase` of the key at the front of the
  -- list, which stays in the list, `get` of any other cached key dereferences `end()`.
  pub get_after_erase :
      (c : PtrCache K T) (k f : K) (ks : List K) (b : DataBlock T)
      → c.mode_ ≡ lru
      → c.fn_expired_check ≡ none
      → c.items_ ≡ f ∷ ks
      → same k f ≡ false
      → find_key k c.cache_ ≡ some b
      → get (erase c f).1 k ≡ none
  unfolding get_found
  get_after_erase c k f ks b m n l d h =
      let rest = erase-rest c f in
      let c₁ = (erase c f).1 in
      let there : find_key k c₁.cache_ ≡ some b = ground (arith, find_key-erase c k f) in
      let gone : find_key f (touch c₁ k b).cache_ ≡ none =
        unfold touch in
        ground (
          arith,
          find_key-erase c f f,
          find_key-store f k (record b { counter_ = add_u32 b.counter_ 1 }) c₁.cache_,
        ) in
      let items : (touch c₁ k b).items_ ≡ f ∷ ks = unfold touch in ap (λ x. x.items_) rest ∙ l in
      get-unexpired c₁ k b (ap (λ x. x.fn_expired_check) rest ∙ n) there
      ∙ ap (λ md. get_found c₁ k md b) (ap (λ x. x.mode_) rest ∙ m)
      ∙ ap (λ o. o >>= λ y. some (b.pointer_, y.1)) (lru_reoder-none (touch c₁ k b) f ks items gone)
