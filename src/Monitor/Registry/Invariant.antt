-- ===== src/Monitor/Registry/Invariant.antt =====
-- The invariant of the registry (registry.go): its list of names and its two maps agree.
use healthd.Common.{
  String, ◌≡◌, refl, sym, ap, ap₂, ◌∙◌, true, false, List, [], ◌∷◌, ◌++◌, Option, none, some, inl,
  inr, Bool-cases, is_present, arith, eq_iff,
}
use healthd.Common.Assoc.{
  lookup, lookup-insert, contains, Distinct, Distinct-append, keys, contains-keys,
  keys-insert_present, keys-insert_absent,
}
use healthd.Platform.{Platform}
use healthd.Monitor.History.{UnitHistory, new_unit_history}
use healthd.Monitor.Registry.{
  Registry, UnitStatus, fresh_status, register_in, update_history, set, snapshot, status_or_zero,
  statuses,
}

module _ (go : Platform) where
  open go use {Time}

  pub record IsValid (r : Registry go) : Type 0 where
    pub units_keyed : keys r.units ≡ r.order
    pub history_keyed : keys r.history ≡ r.order
    pub distinct : Distinct r.order
    pub named : (n : String) (s : UnitStatus go) → lookup n r.units ≡ some s → s.name ≡ n

  pub register_in-IsValid :
      {r : Registry go} (n : String) → IsValid r → IsValid (register_in go r n)
  register_in-IsValid {r} n v = elim (Bool-cases (is_present (lookup n r.units))) [
    | inl old ↦ rw old v
    | inr new ↦
        let absent : contains n r.order ≡ false =
          ap (contains n) (sym v.units_keyed) ∙ contains-keys n r.units ∙ new in
        rw new (record {
          units_keyed =
              keys-insert_absent n (fresh_status go n) r.units new
              ∙ ap (λ l. l ++ n ∷ []) v.units_keyed;
          history_keyed =
              keys-insert_absent n (new_unit_history go) r.history
                (sym (contains-keys n r.history) ∙ ap (contains n) v.history_keyed ∙ absent)
              ∙ ap (λ l. l ++ n ∷ []) v.history_keyed;
          distinct = Distinct-append r.order n v.distinct absent;
          named = λ m s h.
              ground
                (arith, lookup-insert n m (fresh_status go n) r.units, eq_iff n m, v.named m s);
        })
  ]

  pub set-IsValid : {r : Registry go} (s : UnitStatus go) → IsValid r → IsValid (set go r s)
  unfolding set
  set-IsValid {r} s v = elim (Bool-cases (is_present (lookup s.name r.units))) [
    | inl old ↦ rw old (record {
      units_keyed = keys-insert_present s.name s r.units old ∙ v.units_keyed;
      history_keyed = v.history_keyed;
      distinct = v.distinct;
      named =
          λ m t h. ground (arith, lookup-insert s.name m s r.units, eq_iff s.name m, v.named m t);
    })
    | inr new ↦ rw new v
  ]

  pub update_history-IsValid :
      {r : Registry go} (f : UnitHistory go → UnitHistory go) (n : String)
      (h : Option (UnitHistory go))
      → lookup n r.history ≡ h
      → IsValid r
      → IsValid (update_history go f n h r)
  update_history-IsValid {r} f n none e v = v
  update_history-IsValid {r} f n (some h) e v = record {
    units_keyed = v.units_keyed;
    history_keyed = keys-insert_present n (f h) r.history (ap is_present e) ∙ v.history_keyed;
    distinct = v.distinct;
    named = v.named;
  }

  -- The names of a list of statuses.
  abbrev pub names : List (UnitStatus go) → List String
  names [] = []
  names (s ∷ ss) = s.name ∷ names ss

  present-status :
      (n : String) (o : Option (UnitStatus go))
      → is_present o ≡ true
      → ((s : UnitStatus go) → o ≡ some s → s.name ≡ n)
      → (status_or_zero go o).name ≡ n
  present-status n none p h = cc
  present-status n (some s) p h = h s refl

  names-statuses :
      {r : Registry go} (ns : List String)
      → IsValid r
      → ((n : String) → contains n ns ≡ true → is_present (lookup n r.units) ≡ true)
      → names (statuses go ns r.units) ≡ ns
  names-statuses [] v present = refl
  names-statuses {r} (n ∷ ns) v present =
      ap₂ ◌∷◌
        (present-status n (lookup n r.units) (present n (ground (arith, eq_iff n n))) (v.named n))
        (names-statuses ns v (λ m h. present m (ground arith)))

  -- The snapshot of a valid registry has one status for each registered unit, under the unit's own
  -- name, in the order of registration.
  pub snapshot-order :
      {r : Registry go}
      → IsValid r
      → (names (snapshot go (some r)) ≡ r.order) × Distinct (names (snapshot go (some r)))
  unfolding snapshot
  snapshot-order {r} v =
      let e : names (statuses go r.order r.units) ≡ r.order =
        names-statuses r.order v
          (λ n h. sym (contains-keys n r.units) ∙ ap (contains n) v.units_keyed ∙ h) in
      (e, rw e v.distinct)
