-- ===== src/Signature/Resume.antt =====
-- `match` with results of an earlier call, and the view of a match that has an offset only.
use socle.Prelude.{
  ℕ, suc, ◌-◌, ◌^◌, ◌<◌, ◌≡◌, sym, ap, ◌∙◌, Bool, true, false, ◌&&◌, Option, none, some, List, [],
  ◌∷◌, arith, ltb, leb, ◌==◌, if◌then◌else◌, ◌>>=◌, length, get_elem?, drop, add_u32, Key,
}
use socle.Signature.{
  FlowEntry, Flow, Range, BaseMatch, limited, Chain, examine, match_from, match_flow,
}
use socle.Signature.Embeds.{hits}
use socle.Signature.Steps.{looking, match_from-cons}

module _ {S : Type 0} ⦃e : Key S⦄ where
  resumed-hit :
      (s : S × BaseMatch) (x : FlowEntry S) (k : ℕ) (ret : List Range) (n : ℕ)
      → suc k ≡ length ret
      → hits s x ≡ true
      → examine s x k ret n ≡ none
  unfolding examine
  resumed-hit (src, m) x k ret n le h = ground arith

  -- A later call of `match`, with `k + 1` results, starts at the entry `k` again. Where the next
  -- match of the signature hits this entry, it erases the end of the vector: undefined behaviour.
  pub match_flow_resumed :
      (sig : Chain S) (f : Flow S) (ret : List Range) (n k : ℕ) (s : S × BaseMatch)
      (x : FlowEntry S) (xs : List (FlowEntry S))
      → length ret ≡ suc k
      → get_elem? sig n ≡ some s
      → drop k f.flow_queue_ ≡ x ∷ xs
      → hits s x ≡ true
      → match_flow sig f ret n ≡ none
  unfolding match_flow
  match_flow_resumed sig f ret n k s x xs l g d h =
      let step : length ret - 1 ≡ k = omega arith in
      let filled : (length x.data_ == 0) ≡ false = ground arith in
      let out : Option (List Range × ℕ) → Option (Bool × List Range × ℕ) =
        λ o. o >>= λ r. some (ltb 0 r.1 && leb (length sig) r.1, r.0, r.1) in
      ap (λ k. out (match_from sig (drop k f.flow_queue_) k ret n)) step
      ∙ ap (λ q. out (match_from sig q k ret n)) d
      ∙ ap out (
          match_from-cons sig s x xs k ret n g
          ∙ ap
              (λ t.
                if t
                then match_from sig xs (suc k) ret n
                else looking sig xs k (examine s x k ret n))
              filled
          ∙ ap (looking sig xs k) (resumed-hit s x k ret n (sym l) h))

-- A match with an offset inside the data and no limit of bytes gets no byte to look at.
pub limited_offset_only :
    (m : BaseMatch) (bs : List ℕ)
    → m.match_limits_bytes ≡ 0
    → 0 < m.match_limits_offset
    → m.match_limits_offset < length bs
    → length bs < 2 ^ 32
    → limited m bs ≡ []
unfolding limited
limited_offset_only m bs b o lt w =
    let sum : add_u32 m.match_limits_bytes m.match_limits_offset ≡ m.match_limits_offset =
      omega (arith, b) in
    ground (arith, sum)
