-- ===== src/UnitData/Scope/Deltas.antt =====
-- charmhelpers/core/unitdata.py, `delta`: what has changed, key by key.
use charm_helpers.Prelude.{
  String, ◌≡◌, refl, ap, Bool, [], ◌∷◌, true, Option, none, some, arith, str_eq, ◌∙◌, eq_iff,
  if◌then◌else◌, is_some, Dict, lookup, insert, lookup-insert, Unique, Option-cases,
}
use charm_helpers.UnitData.{Storage, getrange}
use charm_helpers.UnitData.Effects.{getrange-Unique}
use charm_helpers.UnitData.Scope.{
  Delta, delta_of, load_all, added, removed, changed, changed_entry, delta,
}

module _ {ℓ} {V : Type ℓ} (equals : V → V → Bool) where
  -- The entry that a key should have, from its old and its new value.
  abbrev pub expected : Option V → Option V → Option (Delta V)
  expected none none = none
  expected none (some c) = some (delta_of none (some c))
  expected (some p) none = some (delta_of (some p) none)
  expected (some p) (some c) = if equals c p then none else some (delta_of (some p) (some c))

  abbrev expected_changed : Option V → Option V → Option (Delta V)
  expected_changed (some p) (some c) =
      if equals c p then none else some (delta_of (some p) (some c))
  expected_changed _ _ = none

abbrev or_old {ℓ} : {D : Type ℓ} → Option D → Option D → Option D
or_old none old = old
or_old (some d) old = some d

module _ {ℓ} {V : Type ℓ} where
  abbrev expected_added : Option V → Option V → Option (Delta V)
  expected_added none (some c) = some (delta_of none (some c))
  expected_added _ _ = none

  abbrev expected_removed : Option V → Option V → Option (Delta V)
  expected_removed (some p) none = some (delta_of (some p) none)
  expected_removed _ _ = none

  lookup-added :
      (k : String) (previous mapping : Dict V) (out : Dict (Delta V))
      → Unique mapping
      → lookup k (added previous mapping out)
        ≡ or_old (expected_added (lookup k previous) (lookup k mapping)) (lookup k out)
  unfolding added
  lookup-added k previous [] out h = ground arith
  lookup-added k previous ((j, c) ∷ mapping) out h =
      let next =
        if is_some (lookup j previous) then out else insert j (delta_of none (some c)) out in
      ground (
        arith,
        lookup-added k previous mapping next h.1,
        lookup-insert j k (delta_of none (some c)) out,
        eq_iff j k,
        h.0,
        Option-cases (lookup j previous),
      )

  lookup-removed :
      (k : String) (mapping previous : Dict V) (out : Dict (Delta V))
      → Unique previous
      → lookup k (removed mapping previous out)
        ≡ or_old (expected_removed (lookup k previous) (lookup k mapping)) (lookup k out)
  unfolding removed
  lookup-removed k mapping [] out h = ground arith
  lookup-removed k mapping ((j, p) ∷ previous) out h =
      let next =
        if is_some (lookup j mapping) then out else insert j (delta_of (some p) none) out in
      ground (
        arith,
        lookup-removed k mapping previous next h.1,
        lookup-insert j k (delta_of (some p) none) out,
        eq_iff j k,
        h.0,
      )

  lookup-changed_entry :
      (equals : V → V → Bool) (k j : String) (p : V) (o : Option V) (out : Dict (Delta V))
      → lookup k (changed_entry equals j p o out) ≡ (
          if str_eq j k
          then or_old (expected_changed equals (some p) o) (lookup k out)
          else lookup k out)
  lookup-changed_entry equals k j p none out = ground arith
  lookup-changed_entry equals k j p (some c) out =
      ground (arith, lookup-insert j k (delta_of (some p) (some c)) out, eq_iff j k)

  lookup-changed :
      (equals : V → V → Bool) (k : String) (mapping previous : Dict V) (out : Dict (Delta V))
      → Unique previous
      → lookup k (changed equals mapping previous out)
        ≡ or_old (expected_changed equals (lookup k previous) (lookup k mapping)) (lookup k out)
  unfolding changed
  lookup-changed equals k mapping [] out h = ground arith
  lookup-changed equals k mapping ((j, p) ∷ previous) out h = ground (
    arith,
    lookup-changed equals k mapping previous (changed_entry equals j p (lookup j mapping) out) h.1,
    lookup-changed_entry equals k j p (lookup j mapping) out,
    eq_iff j k,
    h.0,
  )

  lookup-load_all :
      (loads : String → V) (k : String) (d : Dict String)
      → lookup k d ≡ none
      → lookup k (load_all loads d) ≡ none
  lookup-load_all loads k [] h = refl
  lookup-load_all loads k ((j, v) ∷ d) h = ground (arith, lookup-load_all loads k d)

  load_all-Unique : (loads : String → V) (d : Dict String) → Unique d → Unique (load_all loads d)
  load_all-Unique loads [] h = tt
  load_all-Unique loads ((k, v) ∷ d) h =
      (lookup-load_all loads k d h.0, load_all-Unique loads d h.1)

  combine :
      (equals : V → V → Bool) (old new : Option V)
      → or_old
          (expected_changed equals old new)
          (or_old (expected_removed old new) (or_old (expected_added old new) none))
        ≡ expected equals old new
  combine equals none none = refl
  combine equals none (some c) = refl
  combine equals (some p) none = refl
  combine equals (some p) (some c) = ground arith

  -- `delta` reports each key exactly by its old value under the prefix and its value in the mapping:
  -- a key on one side alone with None for the other, a key with two values that differ in Python with
  -- both, and nothing for a key with equal values or none. The mapping has no key twice, as a dict has
  -- not. What `json.loads` makes of a stored text, and how two values compare, may be anything.
  pub delta_exact :
      (loads : String → V) (equals : V → V → Bool) (mapping : Dict V) (prefix k : String)
      → (s : Storage) → Unique mapping
      → lookup k (delta loads equals mapping prefix s)
        ≡ expected equals (lookup k (load_all loads (getrange prefix true s))) (lookup k mapping)
  unfolding delta
  delta_exact loads equals mapping prefix k s unique =
      let previous = load_all loads (getrange prefix true s) in
      let old = load_all-Unique loads (getrange prefix true s) (getrange-Unique prefix s) in
      lookup-changed equals k mapping previous
        (removed mapping previous (added previous mapping [])) old
      ∙ ap (or_old (expected_changed equals (lookup k previous) (lookup k mapping))) (
          lookup-removed k mapping previous (added previous mapping []) old
          ∙ ap (or_old (expected_removed (lookup k previous) (lookup k mapping)))
              (lookup-added k previous mapping [] unique))
      ∙ combine equals (lookup k previous) (lookup k mapping)
