-- ===== src/PtrCache/Set.antt =====
-- `set` in the mode FIFO, and what any sequence of calls keeps.
use socle.Prelude.{
  suc, ◌≤◌, ◌<◌, ◌≡◌, refl, sym, ap, subst, ◌⊎◌, inl, inr, Bool, true, false, Option, none, some,
  List, [], ◌∷◌, arith, ltb, if◌then◌else◌, Bool-cases, Option-cases, is_some, ◌>>=◌, length, Key,
  same, occurs, length-Nodup_le, find_key, store, keys, find_key-store, occurs-keys,
  keys-store-Nodup,
}
use socle.Buffer.Refine.{run}
use socle.PtrCache.{
  fifo, DataBlock, PtrCache, data_block, erase, evict_all, put_block, push_key, add_key, set_key,
}
use socle.PtrCache.Ends.{find_key-erase, erase-Nodup, erase-rest}
use socle.PtrCache.Fifo.{IsListed, Evicted, same-Evicted, evict_all-Roomy}

module _ {K T : Type 0} ⦃e : Key K⦄ where
  -- What `set` of `k` to `v` makes of `c`: see `set_key-Sets`.
  pub record Sets (c : PtrCache K T) (k : K) (v : Option T) (o : Option (Bool × PtrCache K T))
      : Type 0 where
    pub c' : PtrCache K T
    pub done : o ≡ some (is_some (find_key k c.cache_), c')
    pub mode : c'.mode_ ≡ c.mode_
    pub max : c'.max_size_ ≡ c.max_size_
    pub listed : IsListed c'
    pub stored : find_key k c'.cache_ ≡ some (data_block c.dbs_ v)
    pub others :
        (i : K)
        → same i k ≡ false
        → (find_key i c'.cache_ ≡ none) ⊎ (find_key i c'.cache_ ≡ find_key i c.cache_)
    pub small : (c.max_size_ ≡ 0) ⊎ (length c'.cache_ ≤ c.max_size_)

  length-keys : (m : List (K × DataBlock T)) → length (keys m) ≡ length m
  length-keys [] = refl
  length-keys (x ∷ m) = ap suc (length-keys m)

  pub IsListed-length :
      (c : PtrCache K T) → IsListed c → (c.max_size_ ≡ 0) ⊎ (length c.cache_ ≤ c.max_size_)
  IsListed-length c u = ground (
    arith,
    u.bounded,
    length-Nodup_le (keys c.cache_) c.items_ u.distinct u.listed,
    length-keys c.cache_,
  )

  put_block-Sets :
      (c : PtrCache K T) (k : K) (v : Option T) (b : DataBlock T)
      → IsListed c
      → find_key k c.cache_ ≡ some b
      → Sets c k v (some (true, put_block c k v))
  unfolding put_block
  put_block-Sets c k v b u h =
      let old : is_some (find_key k c.cache_) ≡ true = ap is_some h in
      let kept : IsListed (put_block c k v) = record {
        distinct = keys-store-Nodup k (data_block c.dbs_ v) c.cache_ u.distinct;
        listed = λ i o. ground (
          arith,
          u.listed i,
          occurs-keys i c.cache_,
          occurs-keys i (store k (data_block c.dbs_ v) c.cache_),
          find_key-store i k (data_block c.dbs_ v) c.cache_,
        );
        bounded = u.bounded;
      } in
      record {
        c' = put_block c k v;
        mode = refl;
        max = refl;
        done = ap (λ r. some (r, put_block c k v)) (sym old);
        listed = kept;
        stored = ground (arith, find_key-store k k (data_block c.dbs_ v) c.cache_);
        others = λ i n. inr (ground (arith, find_key-store i k (data_block c.dbs_ v) c.cache_));
        small = IsListed-length (put_block c k v) kept;
      }

  push_key-Sets :
      (c d : PtrCache K T) (k : K) (v : Option T)
      → find_key k c.cache_ ≡ none
      → Evicted c d
      → (c.max_size_ ≡ 0) ⊎ (length d.items_ < c.max_size_)
      → Sets c k v (some (false, push_key d k v))
  unfolding push_key
  push_key-Sets c d k v h u few =
      let new : is_some (find_key k c.cache_) ≡ false = ap is_some h in
      let block : data_block d.dbs_ v ≡ data_block c.dbs_ v = ap (λ s. data_block s v) u.stats in
      let kept : IsListed (push_key d k v) = record {
        distinct = keys-store-Nodup k (data_block d.dbs_ v) d.cache_ u.distinct;
        listed = λ i o. ground (
          arith,
          u.listed i,
          occurs-keys i d.cache_,
          occurs-keys i (store k (data_block d.dbs_ v) d.cache_),
          find_key-store i k (data_block d.dbs_ v) d.cache_,
        );
        bounded = ground (arith, few, u.max);
      } in
      record {
        c' = push_key d k v;
        mode = u.mode;
        max = u.max;
        done = ap (λ r. some (r, push_key d k v)) (sym new);
        listed = kept;
        stored = ground (arith, block, find_key-store k k (data_block d.dbs_ v) d.cache_);
        others = λ i n. ground (arith, u.less i, find_key-store i k (data_block d.dbs_ v) d.cache_);
        small = ground (arith, u.max, IsListed-length (push_key d k v) kept);
      }

  add_key-Sets :
      (c : PtrCache K T) (k : K) (v : Option T)
      → IsListed c
      → c.mode_ ≡ fifo
      → find_key k c.cache_ ≡ none
      → Sets c k v (add_key c k v)
  unfolding add_key
  add_key-Sets c k v u m h = elim (Bool-cases (ltb 0 c.max_size_)) [
    | inr none_max ↦
        subst
          (λ t. Sets c k v (
            (if t then evict_all (length c.items_) c else some c) >>= λ d.
            some (false, push_key d k v)))
          (sym none_max)
          (push_key-Sets c c k v h (same-Evicted c (u.distinct, u.listed)) (inl (ground arith)))
    | inl some_max ↦
        let (d, run, w, few) =
          evict_all-Roomy (length c.items_) c m (ground arith) (omega arith)
            (u.distinct, u.listed) in
        subst
          (λ t. Sets c k v (
            (if t then evict_all (length c.items_) c else some c) >>= λ d.
            some (false, push_key d k v)))
          (sym some_max)
          (subst (λ o. Sets c k v (o >>= λ d. some (false, push_key d k v))) (sym run)
            (push_key-Sets c d k v h w (inr few)))
  ]

  -- In a FIFO cache whose entries all have their key in the list, `set` always ends, whatever was
  -- erased before. It tells whether the key had a value, the key has the new value then, every
  -- other key keeps its value or is evicted, and with a limit there are at most as many entries.
  pub set_key-Sets :
      (c : PtrCache K T) (k : K) (v : Option T)
      → IsListed c
      → c.mode_ ≡ fifo
      → Sets c k v (set_key c k v)
  unfolding set_key
  set_key-Sets c k v u m = elim (Option-cases (find_key k c.cache_)) [
    | inl h ↦
        subst
          (λ o.
            Sets c k v (elim o [ some b ↦ some (true, put_block c k v) | none ↦ add_key c k v ]))
          (sym h) (add_key-Sets c k v u m h)
    | inr (b, h) ↦
        subst
          (λ o.
            Sets c k v (elim o [ some b ↦ some (true, put_block c k v) | none ↦ add_key c k v ]))
          (sym h) (put_block-Sets c k v b u h)
  ]

  pub erase-IsListed : (c : PtrCache K T) (k : K) → IsListed c → IsListed (erase c k).1
  erase-IsListed c k u =
      let rest = erase-rest c k in
      record {
        distinct = erase-Nodup c k u.distinct;
        listed = λ i o. ground (
          arith,
          u.listed i,
          occurs-keys i c.cache_,
          occurs-keys i (erase c k).1.cache_,
          find_key-erase c i k,
          ap (λ d. occurs i d.items_) rest,
        );
        bounded =
            ground (arith, u.bounded, ap (λ d. d.max_size_) rest, ap (λ d. length d.items_) rest);
      }
