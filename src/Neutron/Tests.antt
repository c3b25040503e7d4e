-- ===== src/Neutron/Tests.antt =====
-- charmhelpers/contrib/openstack/neutron.py: concrete mappings, and the theorem on them.
use charm_helpers.Prelude.{String, ◌≡◌, refl, [], ◌∷◌, some, Dict, lookup}
use charm_helpers.Neutron.{
  ports, index_error, split, parse_mappings, parse_bridge_mappings, parse_data_port_mappings,
  parse_vlan_range_mappings,
}
use charm_helpers.Neutron.Ports.{last_bridge, parse_data_port_mappings_lem}

splits : split " br0:eth0  br1:eth1 " ≡ "br0:eth0" ∷ "br1:eth1" ∷ []
unfolding split
splits = refl

bridges :
    parse_bridge_mappings (some "physnet1:br0 physnet2")
    ≡ ("physnet1", "br0") ∷ ("physnet2", "") ∷ []
unfolding parse_bridge_mappings
bridges = refl

addresses :
    parse_data_port_mappings (some "br0:cb:23 br0:eth1") "br-data"
    ≡ ports (("cb:23", "br0") ∷ ("eth1", "br0") ∷ [])
unfolding parse_data_port_mappings
addresses = refl

port_only : parse_data_port_mappings (some "eth0") "br0" ≡ ports (("eth0", "br0") ∷ [])
unfolding parse_data_port_mappings
port_only = refl

only_blanks : parse_data_port_mappings (some " ") "br0" ≡ index_error
unfolding parse_data_port_mappings
only_blanks = refl

-- a port on two bridges is not refused
two_bridges :
    parse_data_port_mappings (some "br0:eth0 br1:eth0") "br0" ≡ ports (("eth0", "br1") ∷ [])
unfolding parse_data_port_mappings
two_bridges = refl

ranges :
    parse_vlan_range_mappings (some "physnet1:100:200 physnet2")
    ≡ ("physnet1", "100" ∷ "200" ∷ []) ∷ ("physnet2", "" ∷ []) ∷ []
unfolding parse_vlan_range_mappings
ranges = refl

parse_data_port_mappings_lem_example :
    (d : Dict String) × ((parse_data_port_mappings (some "br0:eth0 br1:eth0") "br0" ≡ ports d)
      × ((port : String) → lookup port d ≡ last_bridge port (split "br0:eth0 br1:eth0")))
unfolding parse_mappings
parse_data_port_mappings_lem_example = parse_data_port_mappings_lem "br0:eth0 br1:eth0" "br0" refl
