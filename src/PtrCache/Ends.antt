-- ===== src/PtrCache/Ends.antt =====
-- The two ends of the list of keys, and what `erase` and `delete_last` do to the keys and entries.
use socle.Prelude.{
  suc, ◌≡◌, refl, ap, true, false, none, some, List, [], ◌∷◌, arith, if◌then◌else◌, is_some, length,
  Key, same, occurs, Nodup, find_key, keys, find_key-erase_key, occurs-keys, keys-erase_key-Nodup,
}
use socle.PtrCache.{PtrCache, back, pop_back, erase}

module _ {K : Type 0} where
  pub back-cons : (k : K) (ks : List K) → (b : K) × (back (k ∷ ks) ≡ some b)
  unfolding back
  back-cons k [] = (k, refl)
  back-cons k (j ∷ ks) = back-cons j ks

  pub length-pop_back : (k : K) (ks : List K) → length (pop_back (k ∷ ks)) ≡ length ks
  unfolding pop_back
  length-pop_back k [] = refl
  length-pop_back k (j ∷ ks) = ap suc (length-pop_back j ks)

module _ {K : Type 0} ⦃e : Key K⦄ where
  pub occurs-back : (ks : List K) (b : K) → back ks ≡ some b → occurs b ks ≡ true
  unfolding back
  occurs-back [] b h = cc
  occurs-back (k ∷ []) b h = ground arith
  occurs-back (k ∷ j ∷ ks) b h = ground (arith, occurs-back (j ∷ ks) b h)

  pub occurs-pop_back :
      (i b : K) (ks : List K)
      → back ks ≡ some b
      → same i b ≡ false
      → occurs i (pop_back ks) ≡ occurs i ks
  unfolding back pop_back
  occurs-pop_back i b [] h n = cc
  occurs-pop_back i b (k ∷ []) h n = ground arith
  occurs-pop_back i b (k ∷ j ∷ ks) h n = ground (arith, occurs-pop_back i b (j ∷ ks) h n)

  pub pop_back-Nodup :
      (b : K) (ks : List K)
      → back ks ≡ some b
      → Nodup ks
      → Nodup (pop_back ks) × (occurs b (pop_back ks) ≡ false)
  unfolding back pop_back
  pop_back-Nodup b [] h d = cc
  pop_back-Nodup b (k ∷ []) h d = (tt, refl)
  pop_back-Nodup b (k ∷ j ∷ ks) h d = ground (
    arith,
    pop_back-Nodup b (j ∷ ks) h d.1,
    occurs-pop_back k b (j ∷ ks) h,
    occurs-back (j ∷ ks) b h,
  )

  module _ {T : Type 0} where
    pub find_key-erase :
        (c : PtrCache K T) (i k : K)
        → find_key i (erase c k).1.cache_ ≡ (if same i k then none else find_key i c.cache_)
    unfolding erase
    find_key-erase c i k = ground (arith, find_key-erase_key i k c.cache_)

    pub erase-Nodup :
        (c : PtrCache K T) (k : K) → Nodup (keys c.cache_) → Nodup (keys (erase c k).1.cache_)
    unfolding erase
    erase-Nodup c k d = ground (arith, keys-erase_key-Nodup k c.cache_ d)

    -- all but the entries
    pub erase-rest :
        (c : PtrCache K T) (k : K) → (erase c k).1 ≡ record c { cache_ = (erase c k).1.cache_ }
    unfolding erase
    erase-rest c k = ground arith

    pub occurs-listed :
        (c : PtrCache K T) (i : K) → occurs i (keys c.cache_) ≡ is_some (find_key i c.cache_)
    occurs-listed c i = ground (arith, occurs-keys i c.cache_)
