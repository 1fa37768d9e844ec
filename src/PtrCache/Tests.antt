-- ===== src/PtrCache/Tests.antt =====
-- The theorems on the cache at a small cache, and runs of the code.
use native.Mathlib.Decide.{ℕ_discrete}
use socle.Prelude.{
  ℕ, ◌≤◌, ◌≡◌, refl, inr, true, false, none, some, List, [], ◌∷◌, arith, ◌>>=◌, length, nat_key,
  same, store, erase_key, keys,
}
use socle.PtrCache.{
  lru, DataBlock, PtrCache, data_block, front, back, pop_back, mode_lru, ptr_cache, clear, erase,
  touch, criteria, reorder, lru_reoder, delete_key, delete_last, get_found, get, make_room, evict,
  evict_all, put_block, push_key, add_key, set_key,
}
use socle.PtrCache.Calls.{Call, sets, gets, erases, call, call_all, call_all_bounded}
use socle.PtrCache.Fifo.{IsListed}
use socle.PtrCache.Lru.{IsExact}
use socle.PtrCache.Uses.{lru_calls-IsExact}

program : Unit {0}
unfolding get get_found touch lru_reoder reorder criteria front back pop_back set_key add_key
    put_block push_key evict_all evict make_room delete_last delete_key erase store erase_key
    data_block ptr_cache mode_lru ℕ_discrete call call_all clear
program = tt

abbrev new_cache : PtrCache ℕ ℕ
new_cache = ptr_cache 2 none

new_cache-IsListed : IsListed new_cache
unfolding ptr_cache
new_cache-IsListed = record { distinct = tt; listed = λ i o. o; bounded = inr (omega arith) }

abbrev calls : List (Call ℕ ℕ)
calls = sets 1 (some 10) ∷ erases 1 ∷ sets 1 (some 11) ∷ sets 2 (some 20) ∷ gets 2 ∷ []

call_all_bounded_example :
    (c' : PtrCache ℕ ℕ) × (call_all (ptr_cache 2 none) calls ≡ some c') × (length c'.cache_ ≤ 2)
call_all_bounded_example = call_all_bounded 2 none calls (omega arith)

-- The stale key 1 of the list takes the entry of the new key 1 with it.
evicts_new_entry : (call_all (ptr_cache 2 none) calls >>= λ c. some c.items_) ≡ some (2 ∷ 1 ∷ [])
unfolding program
evicts_new_entry = refl

keeps_one_entry : (call_all (ptr_cache 2 none) calls >>= λ c. some (keys c.cache_)) ≡ some (2 ∷ [])
unfolding program
keeps_one_entry = refl

abbrev used : DataBlock ℕ
used = record { dbs_ = true; pointer_ = some 10; counter_ = 1 }

abbrev lru_cache : PtrCache ℕ ℕ
lru_cache = record {
  mode_ = lru;
  max_size_ = 2;
  items_ = 2 ∷ 1 ∷ [];
  dbs_ = some 1;
  cache_ = (1, used) ∷ (2, record { dbs_ = true; pointer_ = none; counter_ = 0 }) ∷ [];
  fn_expired_check = none;
}

lru_cache-IsExact : IsExact lru_cache
unfolding ℕ_discrete
lru_cache-IsExact = record {
  distinct = (refl, (refl, tt));
  ordered = (refl, (refl, tt));
  matched = λ i. ground arith;
  bounded = inr (omega arith);
}

two_keys : same {K = ℕ} 1 2 ≡ false
unfolding ℕ_discrete
two_keys = ground arith

abbrev uses : List (Call ℕ ℕ)
uses = sets 1 (some 10) ∷ gets 1 ∷ sets 2 (some 20) ∷ sets 3 (some 30) ∷ gets 1 ∷ []

lru_calls-IsExact_example :
    (c' : PtrCache ℕ ℕ) × (call_all (mode_lru (ptr_cache 2 none)) uses ≡ some c')
    × IsExact c'
    × (length c'.items_ ≤ 2)
lru_calls-IsExact_example = lru_calls-IsExact 2 uses (omega arith) (tt, (tt, (tt, (tt, (tt, tt)))))
