-- ===== src/Fetch/Sources.antt =====
-- charmhelpers/fetch/ubuntu.py: what the patterns of `add_source` find in a source, and the functions
-- that they name.
use Prim.Native.String.{◌++◌ as str_append}
use charm_helpers.Prelude.{
  String, List, [], ◌∷◌, Bool, true, false, Option, none, some, is_some, str_eq, if◌then◌else◌, any,
  Dict, elem,
}
use charm_helpers.Fetch.Texts.{strip_prefix, strip_suffix, split_last}
use charm_helpers.Strutils.{openstack_releases}
use charm_helpers.Fetch.{
  World, Error, import_key, gpg_key_error, called_process_error, endless, Machine, Step, ◌>>◌,
  do_nothing, raise, source_config_error, add_proposed, add_apt_repository, add_cloud_staging,
  add_cloud_distro_check, add_cloud_pocket, add_bare_openstack, add_bare_openstack_proposed,
}

-- What a source asks for, as the patterns of `add_source` find it in their order, with the groups
-- that they capture.
pub data Source : Type 0 where
  distro : Source
  proposed : Source
  repository : String → Source
  staging : String → String → Source
  distro_check : String → String → Source
  cloud_pocket : String → Source
  bare_proposed : String → Source
  bare : String → Source
  unknown : Source

abbrev pub begins_one_of : List String → String → Bool
begins_one_of prefixes source = any (λ p. is_some (strip_prefix p source)) prefixes

-- `^snap:.*-(.*)-(.*)$`, and the patterns after it
unfoldable pub parse_rest : String → Source
parse_rest source = elim (strip_suffix "/proposed" source) [
  | some release ↦ if elem release openstack_releases then bare_proposed release else unknown
  | none ↦ if elem source openstack_releases then bare source else unknown
]

unfoldable pub parse_snap : String → Source
parse_snap rest = elim (split_last "-" rest) [
  | none ↦ unknown
  | some (a, b) ↦ elim (split_last "-" a) [ none ↦ unknown | some (_, a1) ↦ distro_check a1 b ]
]

-- the patterns that begin with `cloud:`
unfoldable pub parse_plain_cloud : String → Source
parse_plain_cloud rest = elim (split_last "-ovn-" rest) [
  | some (a, b) ↦ distro_check a (str_append "ovn-" b)
  | none ↦ elim (split_last "-" rest) [ some (a, b) ↦ distro_check a b | none ↦ cloud_pocket rest ]
]

unfoldable pub parse_cloud : String → Source
unfolding parse_plain_cloud
parse_cloud rest = elim (strip_suffix "/staging" rest) [
  | none ↦ parse_plain_cloud rest
  | some spec ↦ elim (split_last "-" spec) [
    | some (a, b) ↦ staging a b
    | none ↦ parse_plain_cloud rest
  ]
]

unfoldable pub parse_source : String → Source
unfolding parse_cloud parse_snap parse_rest
parse_source source =
    if str_eq source "distro"
    then distro
    else if elem source ("proposed" ∷ "distro-proposed" ∷ [])
    then proposed
    else if begins_one_of ("deb " ∷ "http:" ∷ "https:" ∷ "ppa:" ∷ []) source
    then repository source
    else elim (strip_prefix "cloud-archive:" source) [
      | some spec ↦ repository spec
      | none ↦ elim (strip_prefix "cloud:" source) [
        | some rest ↦ parse_cloud rest
        | none ↦ elim (strip_prefix "snap:" source) [
          | some rest ↦ parse_snap rest
          | none ↦ parse_rest source
        ]
      ]
    ]

-- `except GPGKeyError`
abbrev pub as_config_error : Option Error × World → Option Error × World
as_config_error (none, w) = (none, w)
as_config_error (some gpg_key_error, w) = (some source_config_error, w)
as_config_error (some source_config_error, w) = (some source_config_error, w)
as_config_error (some (called_process_error code), w) = (some (called_process_error code), w)
as_config_error (some endless, w) = (some endless, w)

-- the import of the key, if there is one
unfoldable pub import_given : Machine → Option String → Step
unfolding import_key
import_given m none w = (none, w)
import_given m (some key) w =
    if str_eq key "" then (none, w) else as_config_error (import_key m key w)

-- the function that belongs to the pattern, with its groups; none does if nothing matched
unfoldable pub handler : Machine → Dict String → Dict String → Source → Step
unfolding add_proposed add_apt_repository add_cloud_staging add_cloud_distro_check add_cloud_pocket
    add_bare_openstack add_bare_openstack_proposed
handler m pockets releases distro = do_nothing
handler m pockets releases proposed = add_proposed m
handler m pockets releases (repository spec) = add_apt_repository m spec
handler m pockets releases (staging a b) = add_cloud_staging m a b
handler m pockets releases (distro_check a b) = add_cloud_distro_check m pockets a b
handler m pockets releases (cloud_pocket p) = add_cloud_pocket m pockets p
handler m pockets releases (bare_proposed r) = add_bare_openstack_proposed m pockets releases r
handler m pockets releases (bare r) = add_bare_openstack m pockets releases r
handler m pockets releases unknown = do_nothing

abbrev pub is_known : Source → Bool
is_known unknown = false
is_known distro = true
is_known proposed = true
is_known (repository spec) = true
is_known (staging a b) = true
is_known (distro_check a b) = true
is_known (cloud_pocket p) = true
is_known (bare_proposed r) = true
is_known (bare r) = true

-- `add_source`, where no source is the empty text
unfoldable pub add_source :
    Machine → Dict String → Dict String → String → Option String → Bool → Step
unfolding parse_source import_given handler
add_source m pockets releases source key fail_invalid =
    if is_known (parse_source source)
    then import_given m key >> handler m pockets releases (parse_source source)
    else if fail_invalid
    then raise source_config_error
    else do_nothing
