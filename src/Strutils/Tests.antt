-- ===== src/Strutils/Tests.antt =====
-- charmhelpers/core/strutils.py: comparisons of OpenStack releases, texts that are switches and sizes,
-- and the theorems on them.
use charm_helpers.Prelude.{◌≡◌, refl, true, false, none, some, elem, codes}
use charm_helpers.Strutils.{openstack_releases, new_comparator, ge, lt, get_elem?}
use charm_helpers.Strutils.Sizes.{
  number_after, power_of, truthy_strings, falsey_strings, bool_from_string, bytes_from_string, size,
  value_error, key_error, bytes_from_string_lem,
}
use charm_helpers.Strutils.Order.{Ordered, compare_lem}

ge-mitaka : ge openstack_releases 13 "mitaka" ≡ some true
unfolding ge openstack_releases
ge-mitaka = refl

-- a release that is not in the list
lt-unknown : lt openstack_releases 13 "zulu" ≡ none
unfolding lt openstack_releases
lt-unknown = refl

get_elem?-queens : get_elem? openstack_releases 13 ≡ some "queens"
unfolding get_elem? openstack_releases
get_elem?-queens = refl

zed_listed : elem "zed" openstack_releases ≡ true
unfolding openstack_releases
zed_listed = refl

antelope_listed : elem "antelope" openstack_releases ≡ true
unfolding openstack_releases
antelope_listed = refl

compare_lem_example :
    Ordered openstack_releases "zed" "antelope" (new_comparator openstack_releases "zed")
compare_lem_example = compare_lem openstack_releases "zed" "antelope" zed_listed antelope_listed

bool_from_string_yes : bool_from_string " Yes " truthy_strings falsey_strings false ≡ some true
unfolding bool_from_string
bool_from_string_yes = refl

bool_from_string_off : bool_from_string "off" truthy_strings falsey_strings false ≡ some false
unfolding bool_from_string
bool_from_string_off = refl

bool_from_string_other : bool_from_string "maybe" truthy_strings falsey_strings false ≡ none
unfolding bool_from_string
bool_from_string_other = refl

bytes_plain : bytes_from_string (codes "512") ≡ size 512
unfolding bytes_from_string
bytes_plain = refl

bytes_nothing : bytes_from_string (codes "lots") ≡ value_error
unfolding bytes_from_string
bytes_nothing = refl

bytes_unknown_unit : bytes_from_string (codes "10kb") ≡ key_error
unfolding bytes_from_string
bytes_unknown_unit = refl

bytes_from_string_lem_example : bytes_from_string (codes "10KB/s") ≡ size 10240
unfolding power_of number_after
bytes_from_string_lem_example =
    bytes_from_string_lem (codes "10") (codes "KB") (codes "/s") refl (refl, (refl, tt)) refl
      (refl, (refl, tt)) refl
