-- ===== src/Prelude/Dict.antt =====
-- `std::map` and `std::unordered_map` where the order of iteration does not matter: association
-- lists, for keys whose equality can be decided.
use mathlib.Core.Logic.{ite}
use mathlib.Core.Path.{◌≡◌, refl}
use mathlib.Core.Logic.{◌≢◌}
use mathlib.Core.Bool.{Bool, true, false, ◌||◌}
use mathlib.Core.Option.{Option, none, some}
use mathlib.Core.List.{List, [], ◌∷◌}
use Prim.Native.Nat.{ℕ, suc, ◌≤◌}
use native.Mathlib.Omega.{arith}
use socle.Prelude.Tests.{if◌then◌else◌}
use socle.Prelude.Lists.{length}
use native.Mathlib.Decide.{ℕ_discrete}

-- `operator==` and the hash of a key type
pub record Key {ℓ} (K : Type ℓ) : Type ℓ where
  pub dec : Discrete K

instance abbrev pub nat_key : Key ℕ
nat_key = record { dec = ℕ_discrete }

module _ {ℓ} {K : Type ℓ} ⦃e : Key K⦄ where
  abbrev pub same : K → K → Bool
  same j k = ite (e.dec j k) true false

  pub same-eq : (j k : K) → same j k ≡ true → j ≡ k
  same-eq j k h = ground arith

  abbrev pub occurs : K → List K → Bool
  occurs k [] = false
  occurs k (j ∷ ks) = same k j || occurs k ks

  abbrev pub Nodup : List K → Type 0
  Nodup [] = Unit
  Nodup (k ∷ ks) = (occurs k ks ≡ false) × Nodup ks

  -- The list without the first `k`.
  abbrev without : K → List K → List K
  without k [] = []
  without k (j ∷ ks) = let rest = without k ks in if same k j then ks else j ∷ rest

  length-without :
      (k : K) (ks : List K) → occurs k ks ≡ true → suc (length (without k ks)) ≡ length ks
  length-without k [] o = cc
  length-without k (j ∷ ks) o = ground (arith, length-without k ks)

  occurs-without :
      (i k : K) (ks : List K) → i ≢ k → occurs i ks ≡ true → occurs i (without k ks) ≡ true
  occurs-without i k [] n o = o
  occurs-without i k (j ∷ ks) n o = ground (arith, occurs-without i k ks n)

  not_occurs : (i k : K) (ks : List K) → occurs k ks ≡ false → occurs i ks ≡ true → i ≢ k
  not_occurs i k ks a b p = ground (arith, p)

  -- Keys that are distinct and occur in a list are no more than its elements.
  pub length-Nodup_le :
      (ks js : List K)
      → Nodup ks
      → ((i : K) → occurs i ks ≡ true → occurs i js ≡ true)
      → length ks ≤ length js
  length-Nodup_le [] js d h = omega arith
  length-Nodup_le (k ∷ ks) js d h =
      let shorter =
        length-Nodup_le ks (without k js) d.1
          (λ i o. occurs-without i k js (not_occurs i k ks d.0 o) (h i (ground arith))) in
      omega (arith, shorter, length-without k js (h k (ground arith)))

module _ {ℓ κ} {K : Type ℓ} {V : Type κ} ⦃e : Key K⦄ where
  abbrev pub find_key : K → List (K × V) → Option V
  find_key k [] = none
  find_key k ((j, v) ∷ m) = if same k j then some v else find_key k m

  -- `m[k] = v`
  unfoldable pub store : K → V → List (K × V) → List (K × V)
  store k v [] = (k, v) ∷ []
  store k v ((j, w) ∷ m) = let rest = store k v m in if same k j then (k, v) ∷ m else (j, w) ∷ rest

  -- `m.erase(k)`
  unfoldable pub erase_key : K → List (K × V) → List (K × V)
  erase_key k [] = []
  erase_key k ((j, w) ∷ m) = let rest = erase_key k m in if same k j then rest else (j, w) ∷ rest

  abbrev pub keys : List (K × V) → List K
  keys [] = []
  keys ((k, v) ∷ m) = k ∷ keys m

  pub find_key-store :
      (i k : K) (v : V) (m : List (K × V))
      → find_key i (store k v m) ≡ (if same i k then some v else find_key i m)
  unfolding store
  find_key-store i k v [] = refl
  find_key-store i k v ((j, w) ∷ m) = ground (arith, find_key-store i k v m)

  pub find_key-erase_key :
      (i k : K) (m : List (K × V))
      → find_key i (erase_key k m) ≡ (if same i k then none else find_key i m)
  unfolding erase_key
  find_key-erase_key i k [] = ground arith
  find_key-erase_key i k ((j, w) ∷ m) = ground (arith, find_key-erase_key i k m)

  pub occurs-keys :
      (i : K) (m : List (K × V))
      → occurs i (keys m) ≡ (elim (find_key i m) [ none ↦ false | some v ↦ true ])
  occurs-keys i [] = refl
  occurs-keys i ((j, w) ∷ m) = ground (arith, occurs-keys i m)

  pub keys-store-Nodup :
      (k : K) (v : V) (m : List (K × V)) → Nodup (keys m) → Nodup (keys (store k v m))
  unfolding store
  keys-store-Nodup k v [] d = (refl, tt)
  keys-store-Nodup k v ((j, w) ∷ m) d = ground (
    arith,
    keys-store-Nodup k v m d.1,
    occurs-keys j m,
    occurs-keys j (store k v m),
    find_key-store j k v m,
  )

  pub keys-erase_key-Nodup :
      (k : K) (m : List (K × V)) → Nodup (keys m) → Nodup (keys (erase_key k m))
  unfolding erase_key
  keys-erase_key-Nodup k [] d = d
  keys-erase_key-Nodup k ((j, w) ∷ m) d = ground (
    arith,
    keys-erase_key-Nodup k m d.1,
    occurs-keys j m,
    occurs-keys j (erase_key k m),
    find_key-erase_key j k m,
  )
