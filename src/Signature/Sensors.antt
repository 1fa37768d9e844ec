-- ===== src/Signature/Sensors.antt =====
-- A signature is added to the sensor at an index.
use socle.Prelude.{
  ℕ, ◌≡◌, sym, ap, ◌∙◌, ◌≢◌, inl, inr, Bool, true, false, not, Option, none, some, [], ◌∷◌, ◌++◌,
  arith, ◌==◌, if◌then◌else◌, ==_iff, Bool-cases, Option-cases, is_some, ◌>>=◌, Key,
}
use socle.Signature.{Chain, new_state}
use socle.Signature.Tree.{Sensor, SignatureTree, put_at, group_index, group, sensor_add, IsIndexed}

pub index_found : (i : ℕ) → (i == i) ≡ true
index_found i = ground arith

module _ {N S : Type 0} ⦃n : Key N⦄ where
  -- the signatures of a group, none without the group
  abbrev pub signatures : SignatureTree N S → N → Sensor S
  signatures t k = elim (group t k false) [ none ↦ [] | some s ↦ s ]

  -- What `signature_add` does: see `signature_add-Adds`.
  pub record Adds (t : SignatureTree N S) (sig : Chain S) (name : N)
      (o : Option (Bool × SignatureTree N S)) : Type 0 where
    pub t' : SignatureTree N S
    pub done : o ≡ some (not (is_some (group_index t name)), t')
    pub indexed : IsIndexed t'
    pub added : group t' name false ≡ some (signatures t name ++ (new_state, sig) ∷ [])
    pub others : (k : N) → k ≢ name → group t' k false ≡ group t k false

  pub group-found :
      (t : SignatureTree N S) (k : N) (i : ℕ)
      → group_index t k ≡ some i
      → group t k false ≡ t.sensors_ i
  unfolding group
  group-found t k i h = ground arith

  pub group-lost : (t : SignatureTree N S) (k : N) → group_index t k ≡ none → group t k false ≡ none
  unfolding group
  group-lost t k h = ground arith

  -- the tree with a sensor at an index
  unfoldable pub with_sensor : SignatureTree N S → ℕ → Sensor S → SignatureTree N S
  with_sensor t i s = record t { sensors_ = put_at t.sensors_ i (some s) }

  pub with_sensor-IsIndexed :
      (t : SignatureTree N S) (i : ℕ) (s : Sensor S) → IsIndexed t → IsIndexed (with_sensor t i s)
  unfolding with_sensor
  with_sensor-IsIndexed t i s u = record {
    below = u.below;
    apart = u.apart;
    made = λ k j h. elim (Bool-cases (j == i)) [
      | inl here ↦ (s, ap (λ b. if b then some s else t.sensors_ j) here)
      | inr there ↦
          let (r, e) = u.made k j h in (r, ap (λ b. if b then some s else t.sensors_ j) there ∙ e)
    ];
    room = u.room;
  }

  pub with_sensor-group :
      (t : SignatureTree N S) (k : N) (i j : ℕ) (s : Sensor S)
      → group_index t k ≡ some j
      → group (with_sensor t i s) k false ≡ (if j == i then some s else t.sensors_ j)
  unfolding with_sensor
  with_sensor-group t k i j s h = group-found (with_sensor t i s) k j h

  pub with_sensor-others :
      (t : SignatureTree N S) (k : N) (i : ℕ) (s : Sensor S)
      → group_index t k ≢ some i
      → group (with_sensor t i s) k false ≡ group t k false
  unfolding with_sensor
  with_sensor-others t k i s n = elim (Option-cases (group_index t k)) [
    | inl lost ↦ group-lost (with_sensor t i s) k lost ∙ sym (group-lost t k lost)
    | inr (j, h) ↦
        let other : (j == i) ≡ false = ground (arith, ==_iff j i, n, h) in
        group-found (with_sensor t i s) k j h
        ∙ ap (λ b. if b then some s else t.sensors_ j) other
        ∙ sym (group-found t k j h)
  ]

  pub sensor_add-eq :
      (t : SignatureTree N S) (i : ℕ) (sig : Chain S) (s : Sensor S)
      → t.sensors_ i ≡ some s
      → sensor_add t i sig ≡ some (with_sensor t i (s ++ (new_state, sig) ∷ []))
  unfolding sensor_add with_sensor
  sensor_add-eq t i sig s h =
      ap
        (λ o. o >>= λ s.
          some (record t { sensors_ = put_at t.sensors_ i (some (s ++ (new_state, sig) ∷ [])) }))
        h

  pub found-Adds :
      (t : SignatureTree N S) (sig : Chain S) (name : N) (i : ℕ) (s : Sensor S)
      → IsIndexed t
      → group_index t name ≡ some i
      → t.sensors_ i ≡ some s
      → Adds t sig name (sensor_add t i sig >>= λ t'. some (false, t'))
  unfolding with_sensor
  found-Adds t sig name i s u h e =
      let s' = s ++ (new_state, sig) ∷ [] in
      let old : signatures t name ≡ s =
        ap (λ o. elim o [ none ↦ [] | some s ↦ s ]) (group-found t name i h ∙ e) in
      record {
        t' = with_sensor t i s';
        done =
            ap (λ o. o >>= λ t'. some (false, t')) (sensor_add-eq t i sig s e)
            ∙ ap (λ o. some (not (is_some o), with_sensor t i s')) (sym h);
        indexed = with_sensor-IsIndexed t i s' u;
        added =
            with_sensor-group t name i i s' h
            ∙ ap (λ b. if b then some s' else t.sensors_ i) (index_found i)
            ∙ ap (λ z. some (z ++ (new_state, sig) ∷ [])) (sym old);
        others = λ k differ. with_sensor-others t k i s' (λ g. differ (u.apart k name i g h));
      }
