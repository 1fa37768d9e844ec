-- ===== src/PtrCache.antt =====
-- common/ptr_cache.hpp: a map from keys to shared pointers with a bounded number of entries. The
-- lock is left out, and so is the time of the last use, which nothing reads. `none` stands for
-- undefined behaviour: `back()` of an empty list, or a dereferenced `end()`.
pub mod Ends
pub mod Fifo
pub mod Set
pub mod Calls
pub mod Lru
pub mod Reads
pub mod Exact
pub mod Uses
mod Tests
use socle.Prelude.{
  ℕ, zero, suc, ◌+◌, ◌/◌, Bool, true, false, Option, none, some, List, [], ◌∷◌, ltb, leb,
  if◌then◌else◌, is_some, ◌>>=◌, length, add_u32, Key, find_key, store, erase_key,
}

pub data Mode : Type 0 where
  fifo : Mode
  lru : Mode

-- `dbs_` is whether the block has the pointer to the cache's `DataBlockStats`. A null pointer is
-- `none`.
pub record DataBlock (T : Type 0) : Type 0 where
  pub dbs_ : Bool
  pub pointer_ : Option T
  pub counter_ : ℕ

-- `dbs_` is the `total_counter` of the statistics, if there are any.
pub record PtrCache (K T : Type 0) : Type 0 where
  pub mode_ : Mode
  pub max_size_ : ℕ
  pub items_ : List K
  pub dbs_ : Option ℕ
  pub cache_ : List (K × DataBlock T)
  pub fn_expired_check : Option (Option T → Bool)

-- `expiring` and `expiring_ptr`: a value with the second from which on it is expired.
pub record Expiring (T : Type 0) : Type 0 where
  pub value_ : T
  pub expired_at_ : ℕ

module _ {T : Type 0} where
  unfoldable pub expiring : ℕ → T → ℕ → Expiring T
  expiring now v in_seconds = record { value_ = v; expired_at_ = now + in_seconds }

  unfoldable pub expired : ℕ → Expiring T → Bool
  expired now x = leb x.expired_at_ now

  unfoldable pub data_block : Option ℕ → Option T → DataBlock T
  data_block dbs v = record { dbs_ = is_some dbs; pointer_ = v; counter_ = 0 }

module _ {K : Type 0} where
  unfoldable pub front : List K → Option K
  front [] = none
  front (k ∷ ks) = some k

  unfoldable pub back : List K → Option K
  back [] = none
  back (k ∷ []) = some k
  back (k ∷ j ∷ ks) = back (j ∷ ks)

  unfoldable pub pop_back : List K → List K
  pop_back [] = []
  pop_back (k ∷ []) = []
  pop_back (k ∷ j ∷ ks) = k ∷ pop_back (j ∷ ks)

  unfoldable pub pop_front : List K → List K
  pop_front [] = []
  pop_front (k ∷ ks) = ks

module _ {K T : Type 0} where
  unfoldable pub mode_lru : PtrCache K T → PtrCache K T
  mode_lru c = record c { mode_ = lru; dbs_ = elim c.dbs_ [ none ↦ some 0 | some n ↦ some n ] }

  unfoldable pub mode_fifo : PtrCache K T → PtrCache K T
  mode_fifo c = record c { mode_ = fifo }

  -- `ptr_cache(name, max_size, auto_delete, fn_exp)`
  unfoldable pub ptr_cache : ℕ → Option (Option T → Bool) → PtrCache K T
  ptr_cache max_size fn_exp = record {
    mode_ = fifo;
    max_size_ = max_size;
    items_ = [];
    dbs_ = none;
    cache_ = [];
    fn_expired_check = fn_exp;
  }

  unfoldable pub clear : PtrCache K T → PtrCache K T
  clear c = record c { cache_ = []; items_ = [] }

module _ {K T : Type 0} ⦃e : Key K⦄ where
  -- whether the key was there
  unfoldable pub erase : PtrCache K T → K → Bool × PtrCache K T
  erase c k = elim (find_key k c.cache_) [
    | some b ↦ (true, record c { cache_ = erase_key k c.cache_ })
    | none ↦ (false, c)
  ]

  -- `touch` of the block of `k`
  unfoldable pub touch : PtrCache K T → K → DataBlock T → PtrCache K T
  touch c k b = record c {
    cache_ = store k (record b { counter_ = add_u32 b.counter_ 1 }) c.cache_;
    dbs_ = if b.dbs_ then elim c.dbs_ [ none ↦ none | some n ↦ some (add_u32 n 1) ] else c.dbs_;
  }

  unfoldable pub criteria : PtrCache K T → DataBlock T → ℕ
  criteria c first = elim c.dbs_ [ none ↦ first.counter_ | some total ↦ total / length c.items_ ]

  -- the last part of `lru_reoder`, for the block that the last key has, if any
  unfoldable pub reorder :
      PtrCache K T → K → DataBlock T → Option (DataBlock T) → Bool × PtrCache K T
  reorder c last_key first (some last) =
      if ltb (criteria c first) last.counter_
      then (true, record c { items_ = pop_back (last_key ∷ c.items_) })
      else (false, c)
  reorder c last_key first none = (false, record c { items_ = pop_back c.items_ })

  unfoldable pub lru_reoder : PtrCache K T → Option (Bool × PtrCache K T)
  lru_reoder c = do
    last_key ← back c.items_
    first_key ← front c.items_
    first ← find_key first_key c.cache_
    some (reorder c last_key first (find_key last_key c.cache_))

  -- `delete_last` for the last key
  unfoldable pub delete_key : PtrCache K T → K → Bool × PtrCache K T
  delete_key c to_delete =
      let (to_ret, c') = erase c to_delete in (to_ret, record c' { items_ = pop_back c'.items_ })

  unfoldable pub delete_last : PtrCache K T → Option (Bool × PtrCache K T)
  delete_last c = do to_delete ← back c.items_; some (delete_key c to_delete)

  -- the part of `get` after the check of expiration, by the mode
  unfoldable pub get_found :
      PtrCache K T → K → Mode → DataBlock T → Option (Option T × PtrCache K T)
  get_found c k fifo b = some (b.pointer_, c)
  get_found c k lru b = do (r, c') ← lru_reoder (touch c k b); some (b.pointer_, c')

  unfoldable pub get : PtrCache K T → K → Option (Option T × PtrCache K T)
  get c k = elim (find_key k c.cache_) [
    | none ↦ some (none, c)
    | some b ↦
        if elim c.fn_expired_check [ none ↦ false | some check_fn ↦ check_fn b.pointer_ ]
        then some (none, (erase c k).1)
        else get_found c k c.mode_ b
  ]

  -- the `switch` in the loop of `set`, up to the deletion
  unfoldable pub make_room : Mode → PtrCache K T → Option (PtrCache K T)
  make_room lru c = do (r, c') ← lru_reoder c; some c'
  make_room fifo c = some c

  -- one round of the loop in `set`
  unfoldable pub evict : PtrCache K T → Option (PtrCache K T)
  evict c = do c₁ ← make_room c.mode_ c; (r, c₂) ← delete_last c₁; some c₂

  -- The loop in `set`. Each round takes a key off the list, so its length is enough fuel.
  unfoldable pub evict_all : ℕ → PtrCache K T → Option (PtrCache K T)
  evict_all zero c = some c
  evict_all (suc fuel) c = elim (leb c.max_size_ (length c.items_)) [
    | true ↦ do c' ← evict c; evict_all fuel c'
    | false ↦ some c
  ]

  -- `cache()[k] = std::make_unique<DataBlock>(dbs_, v)`
  unfoldable pub put_block : PtrCache K T → K → Option T → PtrCache K T
  put_block c k v = record c { cache_ = store k (data_block c.dbs_ v) c.cache_ }

  -- the entry with `items().push_front(k)`
  unfoldable pub push_key : PtrCache K T → K → Option T → PtrCache K T
  push_key c k v = record c {
    cache_ = store k (data_block c.dbs_ v) c.cache_;
    items_ = k ∷ c.items_;
  }

  -- `set` of a new key
  unfoldable pub add_key : PtrCache K T → K → Option T → Option (Bool × PtrCache K T)
  add_key c k v = do
    c' ← if ltb 0 c.max_size_ then evict_all (length c.items_) c else some c
    some (false, push_key c' k v)

  -- `set`: whether another value was replaced
  unfoldable pub set_key : PtrCache K T → K → Option T → Option (Bool × PtrCache K T)
  set_key c k v = elim (find_key k c.cache_) [
    | some b ↦ some (true, put_block c k v)
    | none ↦ add_key c k v
  ]
