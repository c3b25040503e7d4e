-- ===== src/Hookenv/Config.antt =====
-- charmhelpers/core/hookenv.py, `Config`: the charm's configuration with the values of the hook
-- before. A value is an optional text, absent for `None`.
use charm_helpers.Prelude.{
  String, ◌≡◌, refl, ap, ◌∙◌, List, [], ◌∷◌, Bool, true, false, not, Option, none, some, arith,
  eq_iff, if◌then◌else◌, All, Dict, lookup, contains, insert, lookup-insert, same_text,
}

abbrev pub Values : Type 0
Values = Dict (Option String)

-- The file at `self.path`: absent or empty, not readable as JSON, or a saved dictionary.
pub data File : Type 0 where
  absent broken : File
  saved : Values → File

pub record Config : Type 0 where
  pub dict : Values
  pub prev_dict : Option Values
  pub implicit_save : Bool

-- `self.get(key)`
pub get : String → Values → Option String
get key d = elim (lookup key d) [ none ↦ none | some v ↦ v ]

-- the loop of `load_previous`
pub merge : Values → Values → Values
merge [] d = d
merge ((k, v) ∷ prev) d = merge prev (if contains k d then d else insert k v d)

pub load_previous : File → Config → Config
unfolding merge
load_previous absent c = c
load_previous broken c = c
load_previous (saved prev) c = record {
  dict = merge prev c.dict;
  prev_dict = some prev;
  implicit_save = c.implicit_save;
}

-- `Config.__init__`, on the values that Juju gives
unfoldable pub init : File → Values → Config
unfolding load_previous
init file d = load_previous file (record { dict = d; prev_dict = none; implicit_save = true })

-- `if self._prev_dict` is false of an empty dictionary too
pub previous : String → Config → Option String
unfolding get
previous key c = elim c.prev_dict [
  | none ↦ none
  | some d ↦ elim d [ [] ↦ none | e ∷ es ↦ get key (e ∷ es) ]
]

unfoldable pub changed : String → Config → Bool
unfolding previous get
changed key c = elim c.prev_dict [
  | none ↦ true
  | some d ↦ not (same_text (previous key c) (get key c.dict))
]

unfoldable pub save : Config → File
save c = saved c.dict

pub implicit_save : File → Config → File
unfolding save
implicit_save file c = if c.implicit_save then save c else file

-- A hook that sets nothing itself: it reads the file and Juju's values, and saves at the end.
pub quiet_hook : File → Values → File
unfolding init implicit_save
quiet_hook file juju = implicit_save file (init file juju)

pub quiet_hooks : File → List Values → File
unfolding quiet_hook
quiet_hooks file [] = file
quiet_hooks file (juju ∷ later) = quiet_hooks (quiet_hook file juju) later

-- Juju's values first, then those saved before.
lookup-merge :
    (k : String) (prev d : Values)
    → lookup k (merge prev d) ≡ (if contains k d then lookup k d else lookup k prev)
unfolding merge
lookup-merge k [] d = ground arith
lookup-merge k ((j, v) ∷ prev) d = ground (
  arith,
  lookup-merge k prev d,
  lookup-merge k prev (insert j v d),
  lookup-insert j k v d,
  eq_iff j k,
)

previous-init : (k : String) (prev juju : Values) → previous k (init (saved prev) juju) ≡ get k prev
unfolding previous init get
previous-init k [] juju = refl
previous-init k (e ∷ prev) juju = refl

-- What the next hook sees after a save, whatever Juju's values are by then: the previous value of
-- every key is the saved one, a key that Juju does not give keeps its saved value and one that it
-- gives has Juju's, and a key counts as changed exactly if its value differs from the saved one.
pub init-save :
    (c : Config) (juju : Values) (k : String)
    → let next = init (save c) juju in
      (previous k next ≡ get k c.dict)
      × (get k next.dict ≡ (if contains k juju then get k juju else get k c.dict))
      × (changed k next ≡ not (same_text (get k c.dict) (get k next.dict)))
unfolding init save get changed
init-save c juju k = (
  previous-init k c.dict juju,
  ground (arith, lookup-merge k c.dict juju),
  ap (λ v. not (same_text v (get k (merge c.dict juju)))) (previous-init k c.dict juju),
)

-- A value that a hook stored under a key of its own is still there after any number of later hooks,
-- as long as Juju's configuration never gives that key.
pub stored_value_kept :
    (k : String) (c : Config) (hooks : List Values) (juju : Values)
    → All (λ d. contains k d ≡ false) hooks
    → contains k juju ≡ false
    → get k (init (quiet_hooks (save c) hooks) juju).dict ≡ get k c.dict
unfolding quiet_hooks
stored_value_kept k c [] juju h now = ground (arith, init-save c juju k)
stored_value_kept k c (d ∷ hooks) juju h now =
    stored_value_kept k (init (save c) d) hooks juju h.1 now ∙ ground (arith, init-save c d k, h)
