-- ===== src/PtrCache/Lru.antt =====
-- The mode LRU: what `lru_reoder` and `get` do where every listed key is cached, and what happens
-- where the first key of the list is not.
use socle.Prelude.{
  ◌≤◌, ◌≡◌, refl, sym, ap, ◌∙◌, subst, ◌⊎◌, Bool, true, false, Option, none, some, List, ◌∷◌, arith,
  ltb, if◌then◌else◌, is_some, ◌>>=◌, length, Key, occurs, Nodup, find_key, keys,
}
use socle.PtrCache.{DataBlock, PtrCache, front, back, pop_back, criteria, reorder, lru_reoder}
use socle.PtrCache.Ends.{back-cons, length-pop_back, occurs-back, occurs-pop_back, pop_back-Nodup}

is_some-some : {A : Type 0} (o : Option A) → is_some o ≡ true → (a : A) × (o ≡ some a)
is_some-some none h = cc
is_some-some (some a) h = (a, refl)

module _ {K T : Type 0} ⦃e : Key K⦄ where
  -- The keys of the list and those of the entries are the same, each once.
  pub record IsExact (c : PtrCache K T) : Type 0 where
    pub distinct : Nodup (keys c.cache_)
    pub ordered : Nodup c.items_
    pub matched : (i : K) → occurs i c.items_ ≡ is_some (find_key i c.cache_)
    pub bounded : (c.max_size_ ≡ 0) ⊎ (length c.items_ ≤ c.max_size_)

  -- `c'` has the entries of `c`, perhaps in another order of the list.
  pub record Reordered (c c' : PtrCache K T) : Type 0 where
    pub exact : IsExact c'
    pub entries : c'.cache_ ≡ c.cache_
    pub mode : c'.mode_ ≡ c.mode_
    pub max : c'.max_size_ ≡ c.max_size_
    pub check : c'.fn_expired_check ≡ c.fn_expired_check
    pub size : length c'.items_ ≡ length c.items_

  moved : PtrCache K T → K → PtrCache K T
  moved c b = record c { items_ = pop_back (b ∷ c.items_) }

  moved-Reordered :
      (c : PtrCache K T) (k b : K) (ks : List K)
      → IsExact c
      → c.items_ ≡ k ∷ ks
      → back (k ∷ ks) ≡ some b
      → Reordered c (moved c b)
  unfolding moved
  moved-Reordered c k b ks x h last =
      let turned : pop_back (b ∷ c.items_) ≡ b ∷ pop_back (k ∷ ks) =
        unfold pop_back in ap (λ is. pop_back (b ∷ is)) h in
      let order : Nodup (k ∷ ks) = subst Nodup h x.ordered in
      let sizes : length (pop_back (b ∷ c.items_)) ≡ length c.items_ = length-pop_back b c.items_ in
      record {
        exact = record {
          distinct = x.distinct;
          ordered =
              let (d, o) = pop_back-Nodup b (k ∷ ks) last order in subst Nodup (sym turned) (o, d);
          matched = λ i.
              ap (occurs i) turned
              ∙ ground (arith, occurs-pop_back i b (k ∷ ks) last, occurs-back (k ∷ ks) b last)
              ∙ sym (ap (occurs i) h)
              ∙ x.matched i;
          bounded = ground (arith, x.bounded, sizes);
        };
        entries = refl;
        mode = refl;
        max = refl;
        check = refl;
        size = sizes;
      }

  pub same-Reordered : (c : PtrCache K T) → IsExact c → Reordered c c
  same-Reordered c x = record {
    exact = x;
    entries = refl;
    mode = refl;
    max = refl;
    check = refl;
    size = refl;
  }

  abbrev pub Reorders : PtrCache K T → Option (Bool × PtrCache K T) → Type 0
  Reorders c o = (r : Bool) × (c' : PtrCache K T) × (o ≡ some (r, c')) × Reordered c c'

  reorder-Reorders :
      (c : PtrCache K T) (k b : K) (ks : List K) (f l : DataBlock T)
      → IsExact c
      → c.items_ ≡ k ∷ ks
      → back (k ∷ ks) ≡ some b
      → Reorders c (some (reorder c b f (some l)))
  unfolding reorder moved
  reorder-Reorders c k b ks f l x h last = go (ltb (criteria c f) l.counter_)
    where
      go :
          (t : Bool)
          → Reorders c (
              some
                (if t then (true, record c { items_ = pop_back (b ∷ c.items_) }) else (false, c)))
      go true = (true, moved c b, refl, moved-Reordered c k b ks x h last)
      go false = (false, c, refl, same-Reordered c x)

  pub lru_reoder-Reorders :
      (c : PtrCache K T) (k : K) (ks : List K)
      → IsExact c
      → c.items_ ≡ k ∷ ks
      → Reorders c (lru_reoder c)
  unfolding lru_reoder front
  lru_reoder-Reorders c k ks x h =
      let (b, last) = back-cons k ks in
      let (l, there) =
        is_some-some (find_key b c.cache_)
          (sym (x.matched b) ∙ ap (occurs b) h ∙ occurs-back (k ∷ ks) b last) in
      let (f, here) =
        is_some-some (find_key k c.cache_) (sym (x.matched k) ∙ ap (occurs k) h ∙ ground arith) in
      let run : lru_reoder c ≡ some (reorder c b f (some l)) =
        ap
          (λ is. back is >>= λ z. front is >>= λ a.
            find_key a c.cache_ >>= λ y. some (reorder c z y (find_key z c.cache_)))
          h
        ∙ ap
            (λ o.
              o >>= λ z. find_key k c.cache_ >>= λ y. some (reorder c z y (find_key z c.cache_)))
            last
        ∙ ap (λ o. o >>= λ y. some (reorder c b y (find_key b c.cache_))) here
        ∙ ap (λ o. some (reorder c b f o)) there in
      subst (Reorders c) (sym run) (reorder-Reorders c k b ks f l x h last)
