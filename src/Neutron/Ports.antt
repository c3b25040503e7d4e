-- ===== src/Neutron/Ports.antt =====
-- charmhelpers/contrib/openstack/neutron.py: which bridge a port is put on.
use text.Mathlib.TextEquality.{eq_iff}
use charm_helpers.Prelude.{
  String, ◌≡◌, refl, ◌∙◌, List, [], ◌∷◌, Bool, true, false, ◌&&◌, Option, none, some, str_eq,
  if◌then◌else◌, elem, Dict, lookup, keys, lookup-insert, Unique, insert-Unique, arith, Bool-cases,
  inl, inr,
}
use charm_helpers.Neutron.{
  split, partition, add_mapping, parse_words, parse_mappings, ports, is_port_only, distinct,
  check_ports, parse_data_port_mappings,
}

-- An independent reading of the words: the bridge that the last word with this port names.
unfoldable pub last_bridge : String → List String → Option String
unfolding partition
last_bridge port [] = none
last_bridge port (m ∷ mappings) = elim (last_bridge port mappings) [
  | some bridge ↦ some bridge
  | none ↦ if (partition m).1.0 && str_eq (partition m).1.1 port then some (partition m).0 else none
]

abbrev or_before : Option String → Option String → Option String
or_before (some later) before = some later
or_before none before = before

lookup-add_mapping :
    (port m : String) (d : Dict String)
    → lookup port (add_mapping true m d) ≡ (
        if (partition m).1.0 && str_eq (partition m).1.1 port
        then some (partition m).0
        else lookup port d)
unfolding add_mapping
lookup-add_mapping port m d = ground (arith, lookup-insert (partition m).1.1 port (partition m).0 d)

lookup-parse_words :
    (port : String) (words : List String) (d : Dict String)
    → lookup port (parse_words true words d) ≡ or_before (last_bridge port words) (lookup port d)
unfolding parse_words last_bridge
lookup-parse_words port [] d = refl
lookup-parse_words port (m ∷ words) d =
    lookup-parse_words port words (add_mapping true m d) ∙ by_later (last_bridge port words)
  where
    by_later :
        (later : Option String)
        → or_before later (lookup port (add_mapping true m d))
          ≡ or_before
              (elim later as (λ o. Option String) [
                | some bridge ↦ some bridge
                | none ↦
                    if (partition m).1.0 && str_eq (partition m).1.1 port
                    then some (partition m).0
                    else none
              ])
              (lookup port d)
    by_later (some bridge) = refl
    by_later none = rw (lookup-add_mapping port m d) (ground arith)

add_mapping-Unique :
    (key_rvalue : Bool) (m : String) (d : Dict String)
    → Unique d
    → Unique (add_mapping key_rvalue m d)
unfolding add_mapping
add_mapping-Unique false m d h = insert-Unique (partition m).0 (partition m).1.1 d h
add_mapping-Unique true m d h = elim (Bool-cases (partition m).1.0) [
  | inl e ↦ rw (e) (insert-Unique (partition m).1.1 (partition m).0 d h)
  | inr e ↦ rw (e) h
]

parse_words-Unique :
    (key_rvalue : Bool) (words : List String) (d : Dict String)
    → Unique d
    → Unique (parse_words key_rvalue words d)
unfolding parse_words
parse_words-Unique key_rvalue [] d h = h
parse_words-Unique key_rvalue (m ∷ words) d h =
    parse_words-Unique key_rvalue words (add_mapping key_rvalue m d)
      (add_mapping-Unique key_rvalue m d h)

elem-keys : (k : String) (d : Dict String) → lookup k d ≡ none → elem k (keys d) ≡ false
elem-keys k [] h = refl
elem-keys k ((j, v) ∷ d) h = ground (arith, elem-keys k d, eq_iff k j, eq_iff j k)

distinct-keys : (d : Dict String) → Unique d → distinct (keys d) ≡ keys d
distinct-keys [] h = refl
distinct-keys ((k, v) ∷ d) h = rw (elem-keys k d h.0, distinct-keys d h.1) refl

check_ports-Unique : (d : Dict String) → Unique d → check_ports d ≡ ports d
unfolding check_ports
check_ports-Unique d h = rw (distinct-keys d h) (ground arith)

-- Mappings that do not name a port alone are taken as they are, and each port is on the bridge that
-- the last word with this port names. The exception for a port that is on several bridges is never
-- raised.
pub parse_data_port_mappings_lem :
    (mappings default_bridge : String)
    → is_port_only (parse_mappings (some mappings) true) ≡ false
    → (d : Dict String) × ((parse_data_port_mappings (some mappings) default_bridge ≡ ports d)
        × ((port : String) → lookup port d ≡ last_bridge port (split mappings)))
unfolding parse_data_port_mappings parse_mappings
parse_data_port_mappings_lem mappings default_bridge h = (
  parse_words true (split mappings) [],
  (
    rw (h) (check_ports-Unique _ (parse_words-Unique true (split mappings) [] tt)),
    λ port.
        lookup-parse_words port (split mappings) []
        ∙ nothing_before (last_bridge port (split mappings)),
  ),
)
  where
    nothing_before : (o : Option String) → or_before o none ≡ o
    nothing_before none = refl
    nothing_before (some b) = refl
