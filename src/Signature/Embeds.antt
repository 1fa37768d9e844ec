-- ===== src/Signature/Embeds.antt =====
-- What a signature looks for in a flow, apart from the code.
use socle.Prelude.{
  ◌≡◌, refl, sym, ap, ◌∙◌, inl, inr, Bool, true, not, ◌&&◌, List, [], ◌∷◌, ◌==◌, if◌then◌else◌,
  Bool-cases, length, Key, same,
}
use socle.Signature.{FlowEntry, is_null, BaseMatch, match_text, limited, Chain}

module _ {S : Type 0} ⦃e : Key S⦄ where
  -- The entry has data, is of the side, and is matched.
  abbrev pub hits : S × BaseMatch → FlowEntry S → Bool
  hits (src, m) x =
      not (length x.data_ == 0)
      && same x.source_ src
      && not (is_null (match_text m (limited m x.data_)))

  -- The signature's matches hit entries of the flow, one each, in the order of both.
  pub data Embeds : Chain S → List (FlowEntry S) → Type 0 where
    nothing : {xs : List (FlowEntry S)} → Embeds [] xs
    skip :
        {s : Chain S} {x : FlowEntry S} {xs : List (FlowEntry S)} → Embeds s xs → Embeds s (x ∷ xs)
    take_entry :
        {h : S × BaseMatch} {s : Chain S} {x : FlowEntry S} {xs : List (FlowEntry S)}
        → hits h x ≡ true
        → Embeds s xs
        → Embeds (h ∷ s) (x ∷ xs)

  -- The signature without the matches that the entries hit, the first entry for each.
  unfoldable pub rest_of : Chain S → List (FlowEntry S) → Chain S
  rest_of [] xs = []
  rest_of (h ∷ s) [] = h ∷ s
  rest_of (h ∷ s) (x ∷ xs) =
      let hit = rest_of s xs in let missed = rest_of (h ∷ s) xs in if hits h x then hit else missed

  pub rest_of-Embeds : (s : Chain S) (xs : List (FlowEntry S)) → rest_of s xs ≡ [] → Embeds s xs
  unfolding rest_of
  rest_of-Embeds [] xs h = nothing
  rest_of-Embeds (k ∷ s) [] h = absurd (cc)
  rest_of-Embeds (k ∷ s) (x ∷ xs) h = elim (Bool-cases (hits k x)) [
    | inl hit ↦ take_entry hit (
        rest_of-Embeds s xs
          (sym (ap (λ b. if b then rest_of s xs else rest_of (k ∷ s) xs) hit) ∙ h))
    | inr missed ↦ skip (
        rest_of-Embeds (k ∷ s) xs
          (sym (ap (λ b. if b then rest_of s xs else rest_of (k ∷ s) xs) missed) ∙ h))
  ]

  -- A signature that is found is found without its first match.
  tail-Embeds :
      {h : S × BaseMatch} {s : Chain S} {xs : List (FlowEntry S)} → Embeds (h ∷ s) xs → Embeds s xs
  tail-Embeds (skip m) = skip (tail-Embeds m)
  tail-Embeds (take_entry hit m) = skip m

  pub Embeds-rest_of : (s : Chain S) (xs : List (FlowEntry S)) → Embeds s xs → rest_of s xs ≡ []
  unfolding rest_of
  Embeds-rest_of s xs nothing = refl
  Embeds-rest_of [] (x ∷ xs) (skip m) = refl
  Embeds-rest_of (k ∷ s) (x ∷ xs) (skip m) = elim (Bool-cases (hits k x)) [
    | inl hit ↦
        ap (λ b. if b then rest_of s xs else rest_of (k ∷ s) xs) hit
        ∙ Embeds-rest_of s xs (tail-Embeds m)
    | inr missed ↦
        ap (λ b. if b then rest_of s xs else rest_of (k ∷ s) xs) missed
        ∙ Embeds-rest_of (k ∷ s) xs m
  ]
  Embeds-rest_of (k ∷ s) (x ∷ xs) (take_entry hit m) =
      ap (λ b. if b then rest_of s xs else rest_of (k ∷ s) xs) hit ∙ Embeds-rest_of s xs m
