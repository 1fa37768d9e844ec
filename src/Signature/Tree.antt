-- ===== src/Signature/Tree.antt =====
-- `SignatureTree`: groups of signatures by name. `none` is undefined behaviour, or the end of the
-- program by an exception from a function that is `noexcept`: an index of `max_groups` or more.

-- `sensorType`, a shared vector: the tree is the only one that adds to it.
use socle.Prelude.{
  ℕ, suc, ◌≤◌, ◌<◌, ◌≡◌, Bool, true, false, not, ◌&&◌, Option, none, some, List, [], ◌∷◌, ◌++◌, ltb,
  ◌==◌, if◌then◌else◌, ◌>>=◌, Key, find_key, store,
}
use socle.Signature.{Chain, FlowMatchState, new_state}

abbrev pub Sensor : Type 0 → Type 0
Sensor S = List (FlowMatchState × Chain S)

abbrev pub max_groups : ℕ
max_groups = 128

-- `group_count` is `last_alloc_index + 1`. The bits and the array are functions of the index.
pub record SignatureTree (N S : Type 0) : Type 0 where
  pub filter_ : ℕ → Bool
  pub sensors_ : ℕ → Option (Sensor S)
  pub name_index : List (N × ℕ)
  pub group_count : ℕ

abbrev pub put_at {ℓ} : {A : Type ℓ} → (ℕ → A) → ℕ → A → ℕ → A
put_at f i a j = if j == i then a else f j

module _ {N S : Type 0} ⦃n : Key N⦄ where
  -- an empty group at the next index
  unfoldable pub new_group : SignatureTree N S → Bool → SignatureTree N S
  new_group t allowed = record t {
    group_count = suc t.group_count;
    sensors_ = put_at t.sensors_ t.group_count (some []);
    filter_ = put_at t.filter_ t.group_count allowed;
  }

  -- `group_add(allowed)`
  unfoldable pub group_add : SignatureTree N S → Bool → Option (ℕ × SignatureTree N S)
  group_add t allowed = elim (ltb t.group_count max_groups) [
    | true ↦ some (t.group_count, new_group t allowed)
    | false ↦ none
  ]

  -- `group_add(name, allowed)`
  unfoldable pub group_add_named : SignatureTree N S → N → Bool → Option (ℕ × SignatureTree N S)
  group_add_named t name allowed = do
    (i, t') ← group_add t allowed
    some (i, record t' { name_index = store name i t'.name_index })

  abbrev pub group_index : SignatureTree N S → N → Option ℕ
  group_index t name = find_key name t.name_index

  -- `group(name, allowed_only)`: a null pointer is `none`.
  unfoldable pub group : SignatureTree N S → N → Bool → Option (Sensor S)
  group t name allowed_only = elim (group_index t name) [
    | none ↦ none
    | some i ↦ if allowed_only && not (t.filter_ i) then none else t.sensors_ i
  ]

  -- `sensor->emplace_back(flowMatchState(), sig)` at an index; a null pointer is undefined.
  unfoldable pub sensor_add : SignatureTree N S → ℕ → Chain S → Option (SignatureTree N S)
  sensor_add t i sig = do
    sensor ← t.sensors_ i
    some (record t { sensors_ = put_at t.sensors_ i (some (sensor ++ (new_state, sig) ∷ [])) })

  -- whether a new group was made
  unfoldable pub signature_add :
      SignatureTree N S → Chain S → N → Bool → Option (Bool × SignatureTree N S)
  signature_add t sig name allowed = elim (group_index t name) [
    | some i ↦ do t' ← sensor_add t i sig; some (false, t')
    | none ↦ do
      (i, t') ← group_add_named t name allowed
      t'' ← sensor_add t' i sig
      some (true, t'')
  ]

  -- `reset` leaves the bits of the filter as they are.
  unfoldable pub reset : SignatureTree N S → SignatureTree N S
  reset t = record t { group_count = 0; name_index = []; sensors_ = λ i. none }

  unfoldable pub set_filter : SignatureTree N S → ℕ → Bool → SignatureTree N S
  set_filter t i val = if ltb i max_groups then record t { filter_ = put_at t.filter_ i val } else t

  -- Every name has a group of its own, with a sensor.
  pub record IsIndexed (t : SignatureTree N S) : Type 0 where
    pub below : (k : N) (i : ℕ) → group_index t k ≡ some i → i < t.group_count
    pub apart : (j k : N) (i : ℕ) → group_index t j ≡ some i → group_index t k ≡ some i → j ≡ k
    pub made : (k : N) (i : ℕ) → group_index t k ≡ some i → (s : Sensor S) × (t.sensors_ i ≡ some s)
    pub room : t.group_count ≤ max_groups
