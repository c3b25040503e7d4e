-- ===== src/Workload/Interfaces.antt =====
-- charmhelpers/contrib/openstack/utils.py: `incomplete_relation_data` and
-- `_ows_check_generic_interfaces`. The contexts come from the renderer of
-- charmhelpers/contrib/openstack/templating.py, which is an argument here.
use charm_helpers.Prelude.{
  String, ◌≡◌, refl, ap, ◌∙◌, List, [], ◌∷◌, ◌++◌, Bool, true, false, not, ◌&&◌, Option, none, some,
  arith, if◌then◌else◌, elem, any, Dict, Bool-cases, inl, inr, is_some, add_once,
}
use charm_helpers.Workload.{waiting, blocked, missing_relations, incomplete_relations, Status}

-- What is known of one interface: whether it is related, and the data it still misses.
pub record RelationState : Type 0 where
  pub related : Bool
  pub missing_data : List String

-- `complete_contexts` and `get_incomplete_context_data`
pub record Configs : Type 0 where
  pub complete_contexts : List String
  pub incomplete_context_data : List String → Dict RelationState

-- The running hook: whether its name speaks of a departed or broken relation, and which interfaces
-- the name contains.
pub record HookName : Type 0 where
  pub is_departure : Bool
  pub mentions : String → Bool

-- `set(interfaces).intersection(complete_ctxts)`, as a truth value
abbrev pub meets : List String → List String → Bool
meets interfaces complete = any (λ i. elem i complete) interfaces

-- `incomplete_relation_data`
pub incomplete_relation_data : Configs → Dict (List String) → Dict (Dict RelationState)
incomplete_relation_data configs [] = []
incomplete_relation_data configs ((svc_type, interfaces) ∷ required) =
    let rest = incomplete_relation_data configs required in
    if meets interfaces configs.complete_contexts
    then rest
    else (svc_type, configs.incomplete_context_data interfaces) ∷ rest

-- the first related interface, with its missing data
pub related_interface : Dict RelationState → Option (String × List String)
related_interface [] = none
related_interface ((interface, s) ∷ d) =
    let rest = related_interface d in if s.related then some (interface, s.missing_data) else rest

-- `missing_relations` and `incomplete_relations`, the two sets of the loop
pub record Found : Type 0 where
  pub missing : List String
  pub incomplete : List String

-- The relation is no longer there: it has no related unit, and the hook is of its departure.
abbrev pub is_gone : HookName → String → List String → Bool
is_gone hook interface [] = hook.is_departure && hook.mentions interface
is_gone hook interface (m ∷ ms) = false

-- the body of the loop over the incomplete relations
pub check_interface : HookName → String → Option (String × List String) → Found → Found
check_interface hook generic none f = record {
  missing = add_once generic f.missing;
  incomplete = f.incomplete;
}
check_interface hook generic (some (interface, missing_data)) f =
    let missing =
      (if is_gone hook interface missing_data then add_once generic f.missing else f.missing) in
    record {
      missing = missing;
      incomplete = if elem generic missing then f.incomplete else add_once generic f.incomplete;
    }

pub check_interfaces : HookName → Dict (Dict RelationState) → Found → Found
unfolding check_interface related_interface
check_interfaces hook [] f = f
check_interfaces hook ((generic, states) ∷ d) f =
    check_interfaces hook d (check_interface hook generic (related_interface states) f)

-- the end of `_ows_check_generic_interfaces`, which sets the state anew
unfoldable pub report : List String → List String → Status
report [] [] = (none, [])
report [] (i ∷ is) = (some waiting, incomplete_relations (i ∷ is) ∷ [])
report (m ∷ ms) [] = (some blocked, missing_relations (m ∷ ms) ∷ [])
report (m ∷ ms) (i ∷ is) =
    (some blocked, missing_relations (m ∷ ms) ∷ incomplete_relations (i ∷ is) ∷ [])

-- `_ows_check_generic_interfaces`
unfoldable pub check_generic_interfaces : HookName → Configs → Dict (List String) → Status
unfolding check_interfaces report incomplete_relation_data
check_generic_interfaces hook configs required =
    let f : Found =
      check_interfaces hook (incomplete_relation_data configs required)
        (record { missing = []; incomplete = [] }) in
    report f.missing f.incomplete

-- every required interface has a complete context
unfoldable pub all_complete : Configs → Dict (List String) → Bool
all_complete configs [] = true
all_complete configs ((svc_type, interfaces) ∷ required) =
    meets interfaces configs.complete_contexts && all_complete configs required

abbrev pub is_empty {ℓ} : {A : Type ℓ} → List A → Bool
is_empty [] = true
is_empty (x ∷ xs) = false

is_empty-incomplete_relation_data :
    (configs : Configs) (required : Dict (List String))
    → is_empty (incomplete_relation_data configs required) ≡ all_complete configs required
unfolding incomplete_relation_data all_complete
is_empty-incomplete_relation_data configs [] = refl
is_empty-incomplete_relation_data configs ((t, is) ∷ required) =
    elim (Bool-cases (meets is configs.complete_contexts)) [
      | inl h ↦
          rw (h, incomplete_relation_data, all_complete)
            (is_empty-incomplete_relation_data configs required)
      | inr h ↦ rw (h, incomplete_relation_data, all_complete) refl
    ]

abbrev nothing_found : Found → Bool
nothing_found f = is_empty f.missing && is_empty f.incomplete

is_empty-add_once : (x : String) (xs : List String) → is_empty (add_once x xs) ≡ false
is_empty-add_once x [] = refl
is_empty-add_once x (y ∷ ys) = not_empty (elem x (y ∷ ys))
  where
    not_empty : (b : Bool) → is_empty (if b then y ∷ ys else (y ∷ ys) ++ x ∷ []) ≡ false
    not_empty true = refl
    not_empty false = refl

incomplete_at_least :
    (x : String) (ms is : List String)
    → (is_empty ms && is_empty (if elem x ms then is else add_once x is)) ≡ false
incomplete_at_least x [] is = is_empty-add_once x is
incomplete_at_least x (m ∷ ms) is = refl

-- Each incomplete relation is found one way or the other.
check_interface-finds :
    (hook : HookName) (generic : String) (r : Option (String × List String)) (f : Found)
    → nothing_found (check_interface hook generic r f) ≡ false
unfolding check_interface
check_interface-finds hook generic none f = ground (arith, is_empty-add_once generic f.missing)
check_interface-finds hook generic (some (i, missing_data)) f =
    either (is_gone hook i missing_data) (is_empty-add_once generic f.missing)
  where
    either :
        (gone : Bool)
        → is_empty (add_once generic f.missing) ≡ false
        → (is_empty (if gone then add_once generic f.missing else f.missing)
            && is_empty (
                if elem generic (if gone then add_once generic f.missing else f.missing)
                then f.incomplete
                else add_once generic f.incomplete))
          ≡ false
    either true h = ground (arith, h)
    either false h = incomplete_at_least generic f.missing f.incomplete

check_interfaces-keeps :
    (hook : HookName) (d : Dict (Dict RelationState)) (f : Found)
    → nothing_found f ≡ false
    → nothing_found (check_interfaces hook d f) ≡ false
unfolding check_interfaces
check_interfaces-keeps hook [] f h = h
check_interfaces-keeps hook ((g, s) ∷ d) f h =
    check_interfaces-keeps hook d (check_interface hook g (related_interface s) f)
      (check_interface-finds hook g (related_interface s) f)

nothing_found_iff :
    (hook : HookName) (d : Dict (Dict RelationState))
    → nothing_found (check_interfaces hook d (record { missing = []; incomplete = [] }))
      ≡ is_empty d
unfolding check_interfaces
nothing_found_iff hook [] = refl
nothing_found_iff hook ((g, s) ∷ d) =
    check_interfaces-keeps hook d
      (check_interface hook g (related_interface s) (record { missing = []; incomplete = [] }))
      (check_interface-finds hook g (related_interface s)
        (record { missing = []; incomplete = [] }))

is_some-report :
    (missing incomplete : List String)
    → is_some (report missing incomplete).0 ≡ not (is_empty missing && is_empty incomplete)
unfolding report
is_some-report [] [] = refl
is_some-report [] (i ∷ is) = refl
is_some-report (m ∷ ms) [] = refl
is_some-report (m ∷ ms) (i ∷ is) = refl

-- The check of the interfaces reports a problem exactly if some required interface has no complete
-- context among its alternatives.
pub check_generic_interfaces_iff :
    (hook : HookName) (configs : Configs) (required : Dict (List String))
    → is_some (check_generic_interfaces hook configs required).0
      ≡ not (all_complete configs required)
unfolding check_generic_interfaces
check_generic_interfaces_iff hook configs required =
    is_some-report (found incomplete).missing (found incomplete).incomplete
    ∙ ap not
        (nothing_found_iff hook incomplete ∙ is_empty-incomplete_relation_data configs required)
  where
    incomplete : Dict (Dict RelationState)
    incomplete = incomplete_relation_data configs required

    found : Dict (Dict RelationState) → Found
    found d = check_interfaces hook d (record { missing = []; incomplete = [] })
