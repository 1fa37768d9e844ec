-- ===== src/PtrCache/Uses.antt =====
-- Sequences of `set` and `get` in both modes.
use socle.Prelude.{
  ℕ, ◌≤◌, ◌<◌, ◌≡◌, refl, sym, ap, ◌∙◌, subst, ◌⊎◌, inl, inr, Bool, true, false, Option, none, some,
  List, [], ◌∷◌, arith, ltb, if◌then◌else◌, Bool-cases, Option-cases, is_some, ◌>>=◌, length, All,
  Key, find_key, find_key-store, keys-store-Nodup,
}
use socle.PtrCache.{
  DataBlock, PtrCache, data_block, mode_lru, ptr_cache, clear, get, evict_all, put_block, push_key,
  add_key, set_key,
}
use socle.PtrCache.Calls.{Call, sets, gets, erases, clears, call, call_all}
use socle.PtrCache.Exact.{evict_all-Room}
use socle.PtrCache.Lru.{IsExact}
use socle.PtrCache.Reads.{get-missing, get-Gets}
use socle.Signature.{limited}

module _ {K T : Type 0} ⦃e : Key K⦄ where
  put_block-IsExact :
      (c : PtrCache K T) (k : K) (v : Option T) (b : DataBlock T)
      → IsExact c
      → find_key k c.cache_ ≡ some b
      → IsExact (put_block c k v)
  unfolding put_block
  put_block-IsExact c k v b x h = record {
    distinct = keys-store-Nodup k (data_block c.dbs_ v) c.cache_ x.distinct;
    ordered = x.ordered;
    matched = λ i. ground (arith, x.matched i, find_key-store i k (data_block c.dbs_ v) c.cache_);
    bounded = x.bounded;
  }

  push_key-IsExact :
      (c : PtrCache K T) (k : K) (v : Option T)
      → IsExact c
      → find_key k c.cache_ ≡ none
      → (c.max_size_ ≡ 0) ⊎ (length c.items_ < c.max_size_)
      → IsExact (push_key c k v)
  unfolding push_key
  push_key-IsExact c k v x h few = record {
    distinct = keys-store-Nodup k (data_block c.dbs_ v) c.cache_ x.distinct;
    ordered = (x.matched k ∙ ap is_some h, x.ordered);
    matched = λ i. ground (arith, x.matched i, find_key-store i k (data_block c.dbs_ v) c.cache_);
    bounded = ground (arith, few);
  }

  -- What `set` and `get` keep.
  abbrev pub HoldsOn : PtrCache K T → Option (PtrCache K T) → Type 0
  HoldsOn c o =
      (c' : PtrCache K T) × (o ≡ some c')
      × IsExact c'
      × (c'.mode_ ≡ c.mode_)
      × (c'.max_size_ ≡ c.max_size_)
      × (c'.fn_expired_check ≡ c.fn_expired_check)

  dropping : Option (Bool × PtrCache K T) → Option (PtrCache K T)
  dropping o = o >>= λ y. some y.1

  add_key-HoldsOn :
      (c : PtrCache K T) (k : K) (v : Option T)
      → IsExact c
      → find_key k c.cache_ ≡ none
      → HoldsOn c (add_key c k v >>= λ x. some x.1)
  unfolding add_key dropping
  add_key-HoldsOn c k v x h =
      let added : Option (PtrCache K T) → Option (PtrCache K T) =
        λ o. dropping (o >>= λ d. some (false, push_key d k v)) in
      let loop : Bool → Option (PtrCache K T) =
        λ t. if t then evict_all (length c.items_) c else some c in
      elim (Bool-cases (ltb 0 c.max_size_)) [
        | inr unlimited ↦ (
          push_key c k v,
          ap (λ t. added (loop t)) unlimited,
          push_key-IsExact c k v x h (inl (ground arith)),
          unfold push_key in refl,
          unfold push_key in refl,
          unfold push_key in refl,
        )
        | inl limited ↦
            let r = evict_all-Room (length c.items_) c x (ground arith) (omega arith) in
            (
              push_key r.c' k v,
              ap (λ t. added (loop t)) limited ∙ ap added r.done,
              push_key-IsExact r.c' k v r.exact (r.less k h) (inr (omega (arith, r.few, r.max))),
              unfold push_key in r.mode,
              unfold push_key in r.max,
              unfold push_key in r.check,
            )
      ]

  set_key-HoldsOn :
      (c : PtrCache K T) (k : K) (v : Option T)
      → IsExact c
      → HoldsOn c (set_key c k v >>= λ x. some x.1)
  unfolding set_key
  set_key-HoldsOn c k v x = elim (Option-cases (find_key k c.cache_)) [
    | inl h ↦ subst (λ o. HoldsOn c (picked o)) (sym h) (add_key-HoldsOn c k v x h)
    | inr (b, h) ↦
        subst (λ o. HoldsOn c (picked o)) (sym h)
          (
            put_block c k v,
            refl,
            put_block-IsExact c k v b x h,
            unfold put_block in refl,
            unfold put_block in refl,
            unfold put_block in refl,
          )
  ]
    where
      picked : Option (DataBlock T) → Option (PtrCache K T)
      picked o =
          elim o [ some b ↦ some (true, put_block c k v) | none ↦ add_key c k v ] >>= λ x. some x.1

  get-HoldsOn :
      (c : PtrCache K T) (k : K)
      → IsExact c
      → c.fn_expired_check ≡ none
      → HoldsOn c (get c k >>= λ x. some x.1)
  get-HoldsOn c k x n = elim (Option-cases (find_key k c.cache_)) [
    | inl h ↦ (c, ap (λ o. o >>= λ x. some x.1) (get-missing c k h), x, refl, refl, refl)
    | inr (b, h) ↦
        let g = get-Gets c k b x n h in
        (g.c', ap (λ o. o >>= λ x. some x.1) g.done, g.exact, g.mode, g.max, g.check)
  ]

  -- `erase` is not called.
  abbrev pub Keeping : Call K T → Type 0
  Keeping (sets k v) = Unit
  Keeping (gets k) = Unit
  Keeping (erases k) = ⊥
  Keeping clears = Unit

  clear-IsExact : (c : PtrCache K T) → IsExact (clear c)
  unfolding clear
  clear-IsExact c = record {
    distinct = tt;
    ordered = tt;
    matched = λ i. refl;
    bounded = inr (omega arith);
  }

  call-HoldsOn :
      (c : PtrCache K T) (x : Call K T)
      → Keeping x
      → IsExact c
      → c.fn_expired_check ≡ none
      → HoldsOn c (call c x)
  unfolding call
  call-HoldsOn c (sets k v) u x n = set_key-HoldsOn c k v x
  call-HoldsOn c (gets k) u x n = get-HoldsOn c k x n
  call-HoldsOn c (erases k) u x n = absurd u
  call-HoldsOn c clears u x n = (
    clear c,
    refl,
    clear-IsExact c,
    unfold clear in refl,
    unfold clear in refl,
    unfold clear in refl,
  )

  call_all-HoldsOn :
      (c : PtrCache K T) (xs : List (Call K T))
      → All Keeping xs
      → IsExact c
      → c.fn_expired_check ≡ none
      → HoldsOn c (call_all c xs)
  unfolding call_all
  call_all-HoldsOn c [] u x n = (c, refl, x, refl, refl, refl)
  call_all-HoldsOn c (y ∷ ys) u x n =
      let (d, s, v, m, l, f) = call-HoldsOn c y u.0 x n in
      let (c', r, w, o, k, g) = call_all-HoldsOn d ys u.1 v (f ∙ n) in
      (c', ap (λ z. z >>= λ c'. call_all c' ys) s ∙ r, w, o ∙ m, k ∙ l, g ∙ f)

  -- Any sequence of calls of `set`, `get` and `clear` on a new cache in the mode LRU, with a limit and
  -- without a check of expiration, never runs into undefined behaviour: the list has the cached
  -- keys exactly, each once, and at most as many as the limit.
  pub lru_calls-IsExact :
      (max_size : ℕ) (xs : List (Call K T))
      → 0 < max_size
      → All Keeping xs
      → (c' : PtrCache K T) × (call_all (mode_lru (ptr_cache max_size none)) xs ≡ some c')
        × IsExact c'
        × (length c'.items_ ≤ max_size)
  unfolding ptr_cache mode_lru
  lru_calls-IsExact max_size xs p u =
      let new : IsExact {K = K} {T = T} (mode_lru (ptr_cache max_size none)) = record {
        distinct = tt;
        ordered = tt;
        matched = λ i. refl;
        bounded = inr (omega arith);
      } in
      let (c', r, w, m, l, f) =
        call_all-HoldsOn (mode_lru (ptr_cache max_size none)) xs u new refl in
      (c', r, w, ground (arith, w.bounded, l))
