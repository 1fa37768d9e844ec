-- ===== src/Signature/Groups.antt =====
-- `signature_add`.
use socle.Prelude.{
  ℕ, ◌<◌, ◌≡◌, sym, ap, ◌∙◌, subst, ◌≢◌, ◌⊎◌, inl, inr, Bool, true, false, not, Option, none, some,
  [], ◌∷◌, ◌++◌, arith, ◌==◌, if◌then◌else◌, lt→ltb, ==_iff, Bool-cases, Option-cases, is_some,
  ◌>>=◌, Key, same, same-eq, store, find_key-store,
}
use socle.Signature.{Chain, new_state}
use socle.Signature.Sensors.{
  index_found, signatures, Adds, group-found, group-lost, with_sensor, with_sensor-IsIndexed,
  with_sensor-group, with_sensor-others, sensor_add-eq, found-Adds,
}
use socle.Signature.Tree.{
  max_groups, SignatureTree, new_group, group_add, group_add_named, group_index, group, sensor_add,
  signature_add, IsIndexed,
}

module _ {N S : Type 0} ⦃n : Key N⦄ where
  -- the tree with a new group, for a name
  with_group : SignatureTree N S → N → Bool → SignatureTree N S
  unfolding new_group
  with_group t name allowed = record (new_group t allowed) {
    name_index = store name t.group_count t.name_index;
  }

  group_add-eq :
      (t : SignatureTree N S) (allowed : Bool)
      → t.group_count < max_groups
      → group_add t allowed ≡ some (t.group_count, new_group t allowed)
  unfolding group_add
  group_add-eq t allowed lt =
      ap (λ b. elim b [ true ↦ some (t.group_count, new_group t allowed) | false ↦ none ])
        (lt→ltb t.group_count max_groups lt)

  group_add_named-eq :
      (t : SignatureTree N S) (name : N) (allowed : Bool)
      → t.group_count < max_groups
      → group_add_named t name allowed ≡ some (t.group_count, with_group t name allowed)
  unfolding group_add_named with_group new_group
  group_add_named-eq t name allowed lt =
      ap (λ o. o >>= λ x. some (x.0, record x.1 { name_index = store name x.0 x.1.name_index }))
        (group_add-eq t allowed lt)

  index-with_group :
      (t : SignatureTree N S) (name k : N) (allowed : Bool)
      → group_index (with_group t name allowed) k
        ≡ (if same k name then some t.group_count else group_index t k)
  unfolding with_group new_group
  index-with_group t name k allowed = find_key-store k name t.group_count t.name_index

  with_group-IsIndexed :
      (t : SignatureTree N S) (name : N) (allowed : Bool)
      → IsIndexed t
      → t.group_count < max_groups
      → IsIndexed (with_group t name allowed)
  unfolding with_group new_group
  with_group-IsIndexed t name allowed u lt = record {
    below = λ k i h. ground (arith, find_key-store k name t.group_count t.name_index, u.below k i);
    apart = λ j k i g h. ground (
      arith,
      find_key-store k name t.group_count t.name_index,
      find_key-store j name t.group_count t.name_index,
      u.apart j k i,
      u.below k i,
      u.below j i,
      same-eq j name,
      same-eq k name,
    );
    made = λ k i h. elim (Bool-cases (i == t.group_count)) [
      | inl new ↦ ([], ap (λ b. if b then some [] else t.sensors_ i) new)
      | inr old ↦
          let (s, e) = u.made k i (
            ground
              (arith, find_key-store k name t.group_count t.name_index, ==_iff i t.group_count)) in
          (s, ap (λ b. if b then some [] else t.sensors_ i) old ∙ e)
    ];
    room = omega arith;
  }

  with_group-others :
      (t : SignatureTree N S) (name k : N) (allowed : Bool)
      → IsIndexed t
      → k ≢ name
      → group (with_group t name allowed) k false ≡ group t k false
  with_group-others t name k allowed u differ =
      let other : same k name ≡ false = ground arith in
      let index : group_index (with_group t name allowed) k ≡ group_index t k =
        index-with_group t name k allowed
        ∙ ap (λ b. if b then some t.group_count else group_index t k) other in
      elim (Option-cases (group_index t k)) [
        | inl lost ↦
            group-lost (with_group t name allowed) k (index ∙ lost) ∙ sym (group-lost t k lost)
        | inr (i, h) ↦
            let old : (i == t.group_count) ≡ false =
              ground (arith, ==_iff i t.group_count, u.below k i h) in
            let sensor : (with_group t name allowed).sensors_ i ≡ t.sensors_ i =
              unfold with_group in
              unfold new_group in ap (λ b. if b then some [] else t.sensors_ i) old in
            group-found (with_group t name allowed) k i (index ∙ h)
            ∙ sensor
            ∙ sym (group-found t k i h)
      ]

  pick : SignatureTree N S → Chain S → N → Bool → Option ℕ → Option (Bool × SignatureTree N S)
  pick t sig name allowed o = elim o [
    | some i ↦ sensor_add t i sig >>= λ t'. some (false, t')
    | none ↦
        group_add_named t name allowed >>= λ x. (sensor_add x.1 x.0 sig >>= λ t''. some (true, t''))
  ]

  new_group-Adds :
      (t : SignatureTree N S) (sig : Chain S) (name : N) (allowed : Bool)
      → IsIndexed t
      → group_index t name ≡ none
      → t.group_count < max_groups
      → Adds t sig name (
          group_add_named t name allowed >>= λ x.
          (sensor_add x.1 x.0 sig >>= λ t''. some (true, t'')))
  new_group-Adds t sig name allowed u h lt =
      let v = with_group-IsIndexed t name allowed u lt in
      let there : group_index (with_group t name allowed) name ≡ some t.group_count =
        ground (arith, index-with_group t name name allowed) in
      let empty : (with_group t name allowed).sensors_ t.group_count ≡ some [] =
        unfold with_group in
        unfold new_group in
        ap (λ b. if b then some [] else t.sensors_ t.group_count) (index_found t.group_count) in
      let a = found-Adds (with_group t name allowed) sig name t.group_count [] v there empty in
      let before : signatures t name ≡ [] =
        ap (λ o. elim o [ none ↦ [] | some s ↦ s ]) (group-lost t name h) in
      let after : signatures (with_group t name allowed) name ≡ [] =
        ap (λ o. elim o [ none ↦ [] | some s ↦ s ])
          (group-found (with_group t name allowed) name t.group_count there ∙ empty) in
      record {
        t' = with_sensor (with_group t name allowed) t.group_count ([] ++ (new_state, sig) ∷ []);
        done =
            ap (λ o. o >>= λ x. (sensor_add x.1 x.0 sig >>= λ t''. some (true, t'')))
              (group_add_named-eq t name allowed lt)
            ∙ ap (λ o. o >>= λ t''. some (true, t''))
                (sensor_add-eq (with_group t name allowed) t.group_count sig [] empty)
            ∙ ap
                (λ o. some (
                  not (is_some o),
                  with_sensor (with_group t name allowed) t.group_count
                      ([] ++ (new_state, sig) ∷ []),
                ))
                (sym h);
        indexed =
            with_sensor-IsIndexed (with_group t name allowed) t.group_count
              ([] ++ (new_state, sig) ∷ []) v;
        added =
            with_sensor-group (with_group t name allowed) name t.group_count t.group_count
              ([] ++ (new_state, sig) ∷ []) there
            ∙ ap
                (λ b.
                  if b
                  then some ([] ++ (new_state, sig) ∷ [])
                  else (with_group t name allowed).sensors_ t.group_count)
                (index_found t.group_count)
            ∙ ap (λ z. some (z ++ (new_state, sig) ∷ [])) (sym before);
        others = λ k differ.
            with_sensor-others (with_group t name allowed) k t.group_count
              ([] ++ (new_state, sig) ∷ []) (λ g. differ (v.apart k name t.group_count g there))
            ∙ with_group-others t name k allowed u differ;
      }

  -- `signature_add`, on a tree whose names have groups of their own: unless it needs a group and all
  -- are taken, it adds the signature with a new state behind those of the named group, tells whether
  -- it made the group, and leaves the other groups as they are.
  pub signature_add-Adds :
      (t : SignatureTree N S) (sig : Chain S) (name : N) (allowed : Bool)
      → IsIndexed t
      → (t.group_count < max_groups) ⊎ (group_index t name ≢ none)
      → Adds t sig name (signature_add t sig name allowed)
  unfolding signature_add pick
  signature_add-Adds t sig name allowed u room = elim (Option-cases (group_index t name)) [
    | inr (i, h) ↦
        let (s, e) = u.made name i h in
        subst (Adds t sig name) (sym (ap (pick t sig name allowed) h))
          (found-Adds t sig name i s u h e)
    | inl h ↦
        subst (Adds t sig name) (sym (ap (pick t sig name allowed) h))
          (new_group-Adds t sig name allowed u h (ground (arith, room)))
  ]
