-- ===== src/Signature/Steps.antt =====
-- One step of the loop of `match`.
use mathlib.Core.Option.{some-injective}
use socle.Prelude.{
  ℕ, zero, suc, ◌≤◌, ◌<◌, ◌≡◌, refl, sym, ap, ◌∙◌, Bool, true, false, Option, none, some, List, [],
  ◌∷◌, ◌++◌, arith, ◌==◌, if◌then◌else◌, ◌>>=◌, length, get_elem?, drop, length-append, Key,
}
use socle.Signature.{
  FlowEntry, Range, null_range, BaseMatch, match_text, limited, Chain, push_null, examine,
  match_from,
}
use socle.Signature.Embeds.{hits, rest_of}

pub length-push_null :
    (ret : List Range) (k : ℕ) → length ret ≤ k → length (push_null ret k) ≤ suc k
length-push_null ret k le = ground (arith, length-append ret (null_range ∷ []))

module _ {S : Type 0} ⦃e : Key S⦄ where
  pub drop-get :
      (sig : Chain S) (n : ℕ) (s : S × BaseMatch)
      → get_elem? sig n ≡ some s
      → (drop n sig ≡ s ∷ drop (suc n) sig) × (suc n ≤ length sig)
  drop-get [] n s h = cc
  drop-get (k ∷ sig) zero s h = (ap (λ j. j ∷ sig) (some-injective k s h), omega arith)
  drop-get (k ∷ sig) (suc n) s h = let (d, l) = drop-get sig n s h in (d, omega arith)

  pub drop-none : (sig : Chain S) (n : ℕ) → get_elem? sig n ≡ none → drop n sig ≡ []
  drop-none [] zero h = refl
  drop-none [] (suc n) h = refl
  drop-none (k ∷ sig) zero h = absurd (cc)
  drop-none (k ∷ sig) (suc n) h = drop-none sig n h

  pub examine-hit :
      (s : S × BaseMatch) (x : FlowEntry S) (k : ℕ) (ret : List Range) (n : ℕ)
      → length ret ≤ k
      → hits s x ≡ true
      → examine s x k ret n ≡ some (ret ++ match_text s.1 (limited s.1 x.data_) ∷ [], suc n)
  unfolding examine
  examine-hit (src, m) x k ret n le h = ground arith

  pub examine-missed :
      (s : S × BaseMatch) (x : FlowEntry S) (k : ℕ) (ret : List Range) (n : ℕ)
      → 0 < length x.data_
      → hits s x ≡ false
      → examine s x k ret n ≡ some (push_null ret k, n)
  unfolding examine
  examine-missed (src, m) x k ret n p h = ground arith

  -- What the loop returns from `sig_pos` on.
  abbrev pub Scans : Chain S → List (FlowEntry S) → ℕ → Option (List Range × ℕ) → Type 0
  Scans sig xs n o =
      (ret' : List Range) × (n' : ℕ) × (o ≡ some (ret', n'))
      × (drop n' sig ≡ rest_of (drop n sig) xs)
      × (n' ≤ length sig)

  pub Scans-step :
      (sig : Chain S) (x : FlowEntry S) (xs : List (FlowEntry S)) (n n' : ℕ)
      (o : Option (List Range × ℕ))
      → rest_of (drop n sig) (x ∷ xs) ≡ rest_of (drop n' sig) xs
      → Scans sig xs n' o
      → Scans sig (x ∷ xs) n o
  Scans-step sig x xs n n' o h (ret', m, done, rest, le) = (ret', m, done, rest ∙ sym h, le)

  pub rest_of-cons :
      (s : S × BaseMatch) (t : Chain S) (x : FlowEntry S) (xs : List (FlowEntry S)) (b : Bool)
      → hits s x ≡ b
      → rest_of (s ∷ t) (x ∷ xs) ≡ (if b then rest_of t xs else rest_of (s ∷ t) xs)
  unfolding rest_of
  rest_of-cons s t x xs b h = ap (λ b. if b then rest_of t xs else rest_of (s ∷ t) xs) h

  abbrev pub looking :
      Chain S → List (FlowEntry S) → ℕ → Option (List Range × ℕ) → Option (List Range × ℕ)
  looking sig xs k o = o >>= λ r. match_from sig xs (suc k) r.0 r.1

  pub match_from-cons :
      (sig : Chain S) (s : S × BaseMatch) (x : FlowEntry S) (xs : List (FlowEntry S)) (k : ℕ)
      (ret : List Range) (n : ℕ)
      → get_elem? sig n ≡ some s
      → match_from sig (x ∷ xs) k ret n ≡ (
          if length x.data_ == 0
          then match_from sig xs (suc k) ret n
          else looking sig xs k (examine s x k ret n))
  unfolding match_from
  match_from-cons sig s x xs k ret n h = ap pick h ∙ go x.data_ refl
    where
      pick : Option (S × BaseMatch) → Option (List Range × ℕ)
      pick o = elim o [
        | none ↦ some (ret, n)
        | some s ↦ elim x.data_ [
          | [] ↦ match_from sig xs (suc k) ret n
          | b ∷ bs ↦ looking sig xs k (examine s x k ret n)
        ]
      ]

      go :
          (ds : List ℕ)
          → x.data_ ≡ ds
          → (elim ds [
            | [] ↦ match_from sig xs (suc k) ret n
            | b ∷ bs ↦ looking sig xs k (examine s x k ret n)
          ])
            ≡ (if length ds == 0
                then match_from sig xs (suc k) ret n
                else looking sig xs k (examine s x k ret n))
      go [] h = refl
      go (b ∷ bs) h =
          let filled : (suc (length bs) == 0) ≡ false = ground arith in
          ap
            (λ t.
              if t then match_from sig xs (suc k) ret n else looking sig xs k (examine s x k ret n))
            (sym filled)

  pub rest_of-nil : (t : Chain S) → rest_of t [] ≡ t
  unfolding rest_of
  rest_of-nil [] = refl
  rest_of-nil (h ∷ t) = refl

  pub rest_of-done : (xs : List (FlowEntry S)) → rest_of [] xs ≡ []
  unfolding rest_of
  rest_of-done xs = refl

  pub drop-length : (n : ℕ) (t : Chain S) → drop n t ≡ [] → length t ≤ n
  drop-length zero [] h = omega arith
  drop-length zero (x ∷ t) h = absurd (cc)
  drop-length (suc n) [] h = omega arith
  drop-length (suc n) (x ∷ t) h = omega (arith, drop-length n t h)
