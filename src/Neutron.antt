-- ===== src/Neutron.antt =====
-- charmhelpers/contrib/openstack/neutron.py: the mappings of bridges, ports and ranges, on texts of
-- ASCII.
use Prim.Native.Char.{code}
use charm_helpers.Prelude.{
  ℕ, zero, suc, ◌+◌, String, List, [], ◌∷◌, Bool, true, false, not, ◌&&◌, ◌||◌, Option, none, some,
  str_eq, if◌then◌else◌, leb, ◌==◌, elem, map, Dict, insert, keys, split_at,
}
pub mod Ports
mod Tests

abbrev is_blank : ℕ → Bool
is_blank c = c == 32 || (leb 9 c && leb c 13) || (leb 28 c && leb c 31)

-- the text up to its first blank, and the words after it
abbrev cut : String → String × List String
cut String.[] = ("", [])
cut (String.◌∷◌ c s) =
    let (word, words) = cut s in
    if is_blank (code c)
    then ("", if str_eq word "" then words else word ∷ words)
    else (String.◌∷◌ c word, words)

-- `str.split()`
unfoldable pub split : String → List String
split s = let (word, words) = cut s in if str_eq word "" then words else word ∷ words

-- `str.partition(':')`: what is before the colon, whether there is one, and what is after it
unfoldable pub partition : String → String × (Bool × String)
partition String.[] = ("", (false, ""))
partition (String.◌∷◌ c s) =
    let (before, rest) = partition s in
    if code c == b':' then ("", (true, s)) else (String.◌∷◌ c before, rest)

-- The body of the loop of `parse_mappings`; a word has no blanks for `strip` to take away.
unfoldable pub add_mapping : Bool → String → Dict String → Dict String
unfolding partition
add_mapping key_rvalue m parsed =
    let (left, (has_colon, right)) = partition m in
    if key_rvalue
    then if has_colon then insert right left parsed else parsed
    else insert left right parsed

unfoldable pub parse_words : Bool → List String → Dict String → Dict String
unfolding add_mapping
parse_words key_rvalue [] parsed = parsed
parse_words key_rvalue (m ∷ mappings) parsed =
    parse_words key_rvalue mappings (add_mapping key_rvalue m parsed)

-- `parse_mappings`
unfoldable pub parse_mappings : Option String → Bool → Dict String
unfolding split parse_words
parse_mappings none key_rvalue = []
parse_mappings (some mappings) key_rvalue = parse_words key_rvalue (split mappings) []

-- `parse_bridge_mappings`
unfoldable pub parse_bridge_mappings : Option String → Dict String
unfolding parse_mappings
parse_bridge_mappings mappings = parse_mappings mappings false

-- what `parse_data_port_mappings` gives: the ports, the exception that is raised for a port that is
-- configured twice, or an `IndexError`
pub data DataPorts : Type 0 where
  ports : Dict String → DataPorts
  same_port : DataPorts
  index_error : DataPorts

-- `not _mappings or list(_mappings.values()) == ['']`
abbrev pub is_port_only : Dict String → Bool
is_port_only [] = true
is_port_only ((k, v) ∷ []) = str_eq v ""
is_port_only ((k, v) ∷ e ∷ d) = false

-- `set(ports)`
abbrev pub distinct : List String → List String
distinct [] = []
distinct (x ∷ xs) = let rest = distinct xs in if elem x xs then rest else x ∷ rest

abbrev pub count : List String → ℕ
count [] = 0
count (x ∷ xs) = suc (count xs)

-- the check at the end of `parse_data_port_mappings`
unfoldable pub check_ports : Dict String → DataPorts
check_ports d = if count (distinct (keys d)) == count (keys d) then ports d else same_port

-- the words of a text that names a port alone
unfoldable pub port_alone : String → List String → DataPorts
unfolding check_ports
port_alone default_bridge [] = index_error
port_alone default_bridge (port ∷ words) = check_ports ((port, default_bridge) ∷ [])

-- `parse_data_port_mappings`
unfoldable pub parse_data_port_mappings : Option String → String → DataPorts
unfolding parse_mappings port_alone check_ports split
parse_data_port_mappings none default_bridge = ports []
parse_data_port_mappings (some mappings) default_bridge =
    if is_port_only (parse_mappings (some mappings) true)
    then if str_eq mappings "" then ports [] else port_alone default_bridge (split mappings)
    else check_ports (parse_mappings (some mappings) true)

-- `parse_vlan_range_mappings`
unfoldable pub parse_vlan_range_mappings : Option String → Dict (List String)
unfolding parse_mappings
parse_vlan_range_mappings mappings =
    map (λ (p : String × String). (p.0, split_at b':' p.1)) (parse_mappings mappings false)
