-- ===== src/Signature.antt =====
-- common/signature.hpp: flows of data between two sides, and chains of matches over them. A buffer
-- is the list of its bytes here. A range is the pair of its first place and the place behind its
-- last, so that NULLRANGE, which is (0, -1) in the code, is (0, 0). `none` is undefined behaviour.
pub mod Embeds
pub mod Match
pub mod Steps
pub mod Joined
pub mod Resume
pub mod Tree
pub mod Sensors
pub mod Groups
mod Tests
use socle.Prelude.{
  ℕ, suc, ◌+◌, ◌-◌, ◌*◌, ◌%◌, ◌^◌, Bool, true, false, not, ◌&&◌, ◌||◌, Option, none, some, List, [],
  ◌∷◌, ◌++◌, ltb, leb, ◌==◌, if◌then◌else◌, ◌>>=◌, length, get_elem?, take, drop, add_u64, add_u32,
  Key, same,
}
use socle.Buffer.{str}
use socle.Ltv.Format.{size}

pub data Validity : Type 0 where
  valid_ok more continuation truncated : Validity

pub record FlowEntry (S : Type 0) : Type 0 where
  pub source_ : S
  pub data_ : List ℕ
  pub counter_ : ℕ
  pub validity_ : Validity

-- `is_stream` is whether `domain_` is SOCK_STREAM.
pub record Flow (S : Type 0) : Type 0 where
  pub flow_queue_ : List (FlowEntry S)
  pub is_stream : Bool
  pub exchanges : ℕ

abbrev pub max_flow_size : ℕ
max_flow_size = 10 * 1024 * 1024

abbrev pub Range : Type 0
Range = ℕ × ℕ

abbrev pub null_range : Range
null_range = (0, 0)

abbrev pub is_null : Range → Bool
is_null (p, q) = p == 0 && q == 0

-- The constraints of a `baseMatch` and its `search_function`, which yields a place and a length.
pub record BaseMatch : Type 0 where
  pub match_limits_offset : ℕ
  pub match_limits_bytes : ℕ
  pub search_function : List ℕ → Option (ℕ × ℕ)

abbrev pub starts_with : List ℕ → List ℕ → Bool
starts_with [] s = true
starts_with (x ∷ xs) [] = false
starts_with (x ∷ xs) (y ∷ ys) = x == y && starts_with xs ys

-- `std::string::find`
abbrev pub find_string : List ℕ → List ℕ → Option ℕ
find_string expr [] = elim expr [ [] ↦ some 0 | x ∷ xs ↦ none ]
find_string expr (y ∷ ys) =
    let rest : Option ℕ = elim (find_string expr ys) [ none ↦ none | some i ↦ some (suc i) ] in
    if starts_with expr (y ∷ ys) then some 0 else rest

-- `simpleMatch::search_function`: the length is that of the whole text.
unfoldable pub simple_search : List ℕ → List ℕ → Option (ℕ × ℕ)
simple_search expr str = elim (find_string expr str) [
  | none ↦ none
  | some where_ ↦ some (where_, length str)
]

unfoldable pub simple_match : List ℕ → ℕ → ℕ → BaseMatch
simple_match e o b = record {
  match_limits_offset = o;
  match_limits_bytes = b;
  search_function = simple_search e;
}

-- `regexMatch`; `regex_search` is `std::regex_search` for the compiled expression.
unfoldable pub regex_match : (List ℕ → Option (ℕ × ℕ)) → ℕ → ℕ → BaseMatch
regex_match regex_search o b = record {
  match_limits_offset = o;
  match_limits_bytes = b;
  search_function = regex_search;
}

-- `simpleMatch::match`
unfoldable pub match_text : BaseMatch → List ℕ → Range
match_text m s = elim (m.search_function s) [
  | none ↦ null_range
  | some (loc_pos, loc_len) ↦ (loc_pos, loc_pos + loc_len)
]

-- the view of an entry's bytes that a match gets
unfoldable pub limited : BaseMatch → List ℕ → List ℕ
limited m bs =
    let size = length bs in
    if ltb 0 m.match_limits_bytes || ltb 0 m.match_limits_offset
    then take
        (if ltb (add_u32 m.match_limits_bytes m.match_limits_offset) size
          then m.match_limits_bytes
          else size)
        (drop (if ltb m.match_limits_offset size then m.match_limits_offset else size - 1) bs)
    else bs

-- the signature of a `flowMatch`
abbrev pub Chain : Type 0 → Type 0
Chain S = List (S × BaseMatch)

-- `ret.push_back(NULLRANGE)` unless the result of this entry is there already
abbrev pub push_null : List Range → ℕ → List Range
push_null ret cur_flow = if suc cur_flow == length ret then ret else ret ++ null_range ∷ []

module _ {S : Type 0} ⦃e : Key S⦄ where
  abbrev pub flow_entry : S → List ℕ → FlowEntry S
  flow_entry src bs = record { source_ = src; data_ = bs; counter_ = 1; validity_ = valid_ok }

  -- `append` at the last entry, for the same source
  unfoldable pub append_same : Bool → FlowEntry S → List ℕ → List (FlowEntry S)
  append_same true x bs =
      if ltb max_flow_size (length x.data_ + length bs)
      then record x { validity_ = truncated } ∷ []
      else record x { data_ = x.data_ ++ bs; counter_ = add_u64 x.counter_ 1 } ∷ []
  append_same false x bs = x ∷ flow_entry x.source_ bs ∷ []

  -- the queue after `append`, and whether the side changed
  unfoldable pub append_queue : Bool → List (FlowEntry S) → S → List ℕ → List (FlowEntry S) × Bool
  append_queue stream [] src bs = (flow_entry src bs ∷ [], false)
  append_queue stream (x ∷ []) src bs =
      if same x.source_ src
      then (append_same stream x bs, false)
      else (x ∷ flow_entry src bs ∷ [], true)
  append_queue stream (x ∷ y ∷ ys) src bs =
      let (q, changed) = append_queue stream (y ∷ ys) src bs in (x ∷ q, changed)

  -- `append`: the number of bytes that it was given, as 32 bits
  unfoldable pub append : Flow S → S → List ℕ → ℕ × Flow S
  append f src bs =
      let (q, changed) = append_queue f.is_stream f.flow_queue_ src bs in
      (
        length bs % 2 ^ 32,
        record f {
          flow_queue_ = q;
          exchanges = if changed then add_u32 f.exchanges 1 else f.exchanges;
        },
      )

  unfoldable pub pop : Flow S → Flow S
  pop f = record f { flow_queue_ = drop 1 f.flow_queue_ }

  -- What the loop of `match` does with an entry that is not empty: the results and `sig_pos`. Where
  -- the entry has a result already, `ret.erase(ret.end())` is undefined.
  unfoldable pub examine :
      S × BaseMatch → FlowEntry S → ℕ → List Range → ℕ → Option (List Range × ℕ)
  examine (sig_src, m) x cur_flow ret sig_pos =
      let r = match_text m (limited m x.data_) in
      if same x.source_ sig_src && not (is_null r)
      then (if suc cur_flow == length ret then none else some (ret ++ r ∷ [], suc sig_pos))
      else some (push_null ret cur_flow, sig_pos)

  -- The loop of `match`, over the entries from `cur_flow` on.
  unfoldable pub match_from :
      Chain S → List (FlowEntry S) → ℕ → List Range → ℕ → Option (List Range × ℕ)
  match_from sig [] cur_flow ret sig_pos = some (ret, sig_pos)
  match_from sig (x ∷ xs) cur_flow ret sig_pos = elim (get_elem? sig sig_pos) [
    | none ↦ some (ret, sig_pos)
    | some s ↦ elim x.data_ [
      | [] ↦ match_from sig xs (suc cur_flow) ret sig_pos
      | b ∷ bs ↦ do
        (ret', sig_pos') ← examine s x cur_flow ret sig_pos
        match_from sig xs (suc cur_flow) ret' sig_pos'
    ]
  ]

  -- `match(f, ret, sig_pos)`: whether the whole signature is matched, with the state after it
  unfoldable pub match_flow : Chain S → Flow S → List Range → ℕ → Option (Bool × List Range × ℕ)
  match_flow sig f ret sig_pos = do
    let flow_step = length ret - 1
    (ret', sig_pos') ← match_from sig (drop flow_step f.flow_queue_) flow_step ret sig_pos
    some (ltb 0 sig_pos' && leb (length sig) sig_pos', ret', sig_pos')

-- `flowMatchState`; `hit_` is set elsewhere.
pub record FlowMatchState : Type 0 where
  pub hit_ : Bool
  pub ranges_ : List Range
  pub sig_pos_ : ℕ

abbrev pub new_state : FlowMatchState
new_state = record { hit_ = false; ranges_ = []; sig_pos_ = 0 }

unfoldable pub update :
    {S : Type 0} ⦃e : Key S⦄ → FlowMatchState → Flow S → Chain S → Option (Bool × FlowMatchState)
update st f sig = do
  (r, ret, sig_pos) ← match_flow sig f st.ranges_ st.sig_pos_
  some (r, record st { ranges_ = ret; sig_pos_ = sig_pos })
