-- ===== src/PtrCache/Calls.antt =====
-- A client's sequence of calls on a cache in the mode FIFO.
use socle.Prelude.{
  ℕ, ◌≤◌, ◌<◌, ◌≡◌, refl, ap, ◌∙◌, inr, Bool, true, false, Option, none, some, List, [], ◌∷◌, arith,
  if◌then◌else◌, ◌>>=◌, length, Key, find_key,
}
use socle.PtrCache.{
  Mode, fifo, lru, DataBlock, PtrCache, ptr_cache, clear, erase, get_found, get, set_key,
}
use socle.PtrCache.Ends.{erase-rest}
use socle.PtrCache.Fifo.{IsListed}
use socle.PtrCache.Set.{IsListed-length, set_key-Sets, erase-IsListed}

pub data Call (K T : Type 0) : Type 0 where
  sets : K → Option T → Call K T
  gets : K → Call K T
  erases : K → Call K T
  clears : Call K T

module _ {K T : Type 0} ⦃e : Key K⦄ where
  unfoldable pub call : PtrCache K T → Call K T → Option (PtrCache K T)
  call c (sets k v) = set_key c k v >>= λ x. some x.1
  call c (gets k) = get c k >>= λ x. some x.1
  call c (erases k) = some (erase c k).1
  call c clears = some (clear c)

  unfoldable pub call_all : PtrCache K T → List (Call K T) → Option (PtrCache K T)
  call_all c [] = some c
  call_all c (x ∷ xs) = call c x >>= λ c'. call_all c' xs

  -- What each call keeps.
  abbrev Keeps : PtrCache K T → Option (PtrCache K T) → Type 0
  Keeps c o =
      (c' : PtrCache K T) × (o ≡ some c')
      × IsListed c'
      × (c'.mode_ ≡ fifo)
      × (c'.max_size_ ≡ c.max_size_)

  clear-IsListed : (c : PtrCache K T) → IsListed (clear c)
  unfolding clear
  clear-IsListed c = record { distinct = tt; listed = λ i o. o; bounded = inr (omega arith) }

  erase-Keeps :
      (c : PtrCache K T) (k : K) → IsListed c → c.mode_ ≡ fifo → Keeps c (some (erase c k).1)
  erase-Keeps c k u m =
      let rest = erase-rest c k in
      (
        (erase c k).1,
        refl,
        erase-IsListed c k u,
        ap (λ d. d.mode_) rest ∙ m,
        ap (λ d. d.max_size_) rest,
      )

  dropping : Option (Option T × PtrCache K T) → Option (PtrCache K T)
  dropping o = o >>= λ x. some x.1

  get-Keeps :
      (c : PtrCache K T) (k : K) → IsListed c → c.mode_ ≡ fifo → Keeps c (get c k >>= λ x. some x.1)
  unfolding get get_found dropping
  get-Keeps c k u m = go (find_key k c.cache_) c.fn_expired_check
    where
      found :
          (b : Bool) (md : Mode) (x : DataBlock T)
          → md ≡ fifo
          → Keeps c
              ((if b then some (none, (erase c k).1) else get_found c k md x) >>= λ x. some x.1)
      found true md x h = erase-Keeps c k u m
      found false fifo x h = (c, refl, u, m, refl)
      found false lru x h = absurd (cc)

      go :
          (o : Option (DataBlock T)) (f : Option (Option T → Bool))
          → Keeps c (
              dropping (elim o [
                | none ↦ some (none, c)
                | some b ↦
                    if elim f [ none ↦ false | some check_fn ↦ check_fn b.pointer_ ]
                    then some (none, (erase c k).1)
                    else get_found c k c.mode_ b
              ]))
      go none f = (c, refl, u, m, refl)
      go (some b) none = found false c.mode_ b m
      go (some b) (some check_fn) = found (check_fn b.pointer_) c.mode_ b m

  call-Keeps : (c : PtrCache K T) (x : Call K T) → IsListed c → c.mode_ ≡ fifo → Keeps c (call c x)
  unfolding call
  call-Keeps c (sets k v) u m =
      let s = set_key-Sets c k v u m in
      (s.c', ap (λ o. o >>= λ x. some x.1) s.done, s.listed, s.mode ∙ m, s.max)
  call-Keeps c (gets k) u m = get-Keeps c k u m
  call-Keeps c (erases k) u m = erase-Keeps c k u m
  call-Keeps c clears u m =
      (clear c, refl, clear-IsListed c, unfold clear in m, unfold clear in refl)

  call_all-Keeps :
      (c : PtrCache K T) (xs : List (Call K T))
      → IsListed c
      → c.mode_ ≡ fifo
      → Keeps c (call_all c xs)
  unfolding call_all
  call_all-Keeps c [] u m = (c, refl, u, m, refl)
  call_all-Keeps c (x ∷ xs) u m =
      let (d, s, v, n, l) = call-Keeps c x u m in
      let (c', r, w, o, k) = call_all-Keeps d xs v n in
      (c', ap (λ o. o >>= λ c'. call_all c' xs) s ∙ r, w, o, k ∙ l)

  -- Any sequence of calls of `set`, `get`, `erase` and `clear` on a new FIFO cache with a limit, with
  -- or without a check of expiration, never runs into undefined behaviour, and leaves at most as many
  -- entries as the limit.
  pub call_all_bounded :
      (max_size : ℕ) (fn_exp : Option (Option T → Bool)) (xs : List (Call K T))
      → 0 < max_size
      → (c' : PtrCache K T) × (call_all (ptr_cache max_size fn_exp) xs ≡ some c')
        × (length c'.cache_ ≤ max_size)
  unfolding ptr_cache
  call_all_bounded max_size fn_exp xs p =
      let new : IsListed (ptr_cache max_size fn_exp) = record {
        distinct = tt;
        listed = λ i o. o;
        bounded = inr (omega arith);
      } in
      let (c', r, w, m, l) = call_all-Keeps (ptr_cache max_size fn_exp) xs new refl in
      (c', r, ground (arith, IsListed-length c' w, l))
