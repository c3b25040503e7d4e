-- ===== src/Strutils.antt =====
-- charmhelpers/core/strutils.py: `BasicStringComparator`, which orders texts by their places in a
-- list, and the list of OpenStack releases in charmhelpers/fetch/ubuntu.py that it is used with.
use charm_helpers.Prelude.{
  ℕ, zero, suc, String, List, [], ◌∷◌, Bool, not, Option, none, some, str_eq, if◌then◌else◌, ltb,
  ◌==◌, ◌>>=◌,
}
mod Tests
pub mod Order
pub mod Sizes

-- `xs.index(item)`: `none` is the `ValueError` of an item that is not there
unfoldable pub index : List String → String → Option ℕ
index [] item = none
index (x ∷ xs) item =
    let rest = index xs item in
    if str_eq x item then some zero else elim rest [ none ↦ none | some n ↦ some (suc n) ]

-- An object of the class: the place of the item in the list. `none` is the `KeyError`.
unfoldable pub new_comparator : List String → String → Option ℕ
unfolding index
new_comparator xs item = index xs item

abbrev pub negate : Option Bool → Option Bool
negate none = none
negate (some b) = some (not b)

-- `__eq__`, `__ne__`, `__lt__`, `__ge__`, `__gt__` and `__le__`, where `none` is the `ValueError` of
-- a text that is not in the list
unfoldable pub eq : List String → ℕ → String → Option Bool
unfolding index
eq xs i other = index xs other >>= λ j. some (i == j)

unfoldable pub ne : List String → ℕ → String → Option Bool
unfolding eq
ne xs i other = negate (eq xs i other)

unfoldable pub lt : List String → ℕ → String → Option Bool
unfolding index
lt xs i other = index xs other >>= λ j. some (ltb i j)

unfoldable pub ge : List String → ℕ → String → Option Bool
unfolding lt
ge xs i other = negate (lt xs i other)

unfoldable pub gt : List String → ℕ → String → Option Bool
unfolding index
gt xs i other = index xs other >>= λ j. some (ltb j i)

unfoldable pub le : List String → ℕ → String → Option Bool
unfolding gt
le xs i other = negate (gt xs i other)

-- `self._list[self.index]`, which `__str__` answers
unfoldable pub get_elem? : List String → ℕ → Option String
get_elem? [] n = none
get_elem? (x ∷ xs) zero = some x
get_elem? (x ∷ xs) (suc n) = get_elem? xs n

unfoldable pub openstack_releases : List String
openstack_releases =
    "diablo" ∷ "essex" ∷ "folsom" ∷ "grizzly" ∷ "havana" ∷ "icehouse" ∷ "juno" ∷ "kilo" ∷ "liberty"
    ∷ "mitaka" ∷ "newton" ∷ "ocata" ∷ "pike" ∷ "queens" ∷ "rocky" ∷ "stein" ∷ "train" ∷ "ussuri"
    ∷ "victoria" ∷ "wallaby" ∷ "xena" ∷ "yoga" ∷ "zed" ∷ "antelope" ∷ "bobcat" ∷ "caracal"
    ∷ "dalmatian" ∷ "epoxy" ∷ "flamingo" ∷ "gazpacho" ∷ []
