-- ===== src/Policyd/Process.antt =====
-- charmhelpers/contrib/openstack/policyd.py: `process_policy_resource_file` and
-- `maybe_do_policyd_overrides`.
use charm_helpers.Prelude.{
  ℕ, ◌+◌, String, List, [], ◌∷◌, ◌++◌, Bool, true, false, not, ◌&&◌, Option, none, some, inl, inr,
  ◌⊎◌, if◌then◌else◌, PathName, elem_path, codes_elem,
}
use charm_helpers.Policyd.{
  Failure, Resource, absent, YamlFile, name_blacklisted, no_template_function, template_failed,
  template_exts, open_and_filter_yaml_files,
}
use charm_helpers.Policyd.Validate.{Key, Document, Mapping, read_and_validate_yaml}
use charm_helpers.Policyd.Folder.{
  Disk, path_for_policy_file, add_yaml, clean_policyd_dir_for, maybe_create_directory_for,
  write_file, remove_policy_success_file, set_policy_success_file, is_policy_success_file_set,
}
use charm_helpers.Strutils.{openstack_releases, new_comparator, ge}
pub mod Planned
pub mod Flat

-- The reader and the writer of YAML, which are not the repository's.
pub record YamlLibrary : Type 0 where
  pub safe_load : String → Option Document
  pub dump : Mapping → String

-- The arguments of `process_policy_resource_file`. A template that raises answers `none`.
pub record Request : Type 0 where
  pub resource_file : Resource
  pub service : String
  pub blacklist_paths : List PathName
  pub blacklist_keys : Option (List Key)
  pub template_function : Option (String → Option String)
  pub preserve_topdir : Bool
  pub preprocess_filename : Option (PathName → PathName)

pub preprocessed : Request → PathName → PathName
preprocessed r name = elim (r.preprocess_filename) [ none ↦ name | some f ↦ f name ]

-- the text of the file, as the template function has it if the extension asks for one
pub read_template : Option (String → Option String) → YamlFile → Failure ⊎ String
read_template f file =
    if codes_elem file.ext template_exts
    then elim f [
      | none ↦ inl (no_template_function file.filename)
      | some g ↦ elim (g (file.info).text) [ none ↦ inl template_failed | some s ↦ inr s ]
    ]
    else inr (file.info).text

-- the document of one file, and the caller's list of blacklisted keys after it
pub read_document :
    YamlLibrary → Request → Option (List Key) → YamlFile → (Failure ⊎ Mapping) × Option (List Key)
unfolding read_template preprocessed
read_document yaml r keys file =
    let path = path_for_policy_file r.service (preprocessed r file.name) in
    if elem_path path r.blacklist_paths
    then (inl (name_blacklisted path), keys)
    else elim (read_template r.template_function file) [
      | inl e ↦ (inl e, keys)
      | inr text ↦ read_and_validate_yaml yaml.safe_load text keys
    ]

-- `yaml.dump` of the document into the file, and its folder first
pub install : YamlLibrary → Request → YamlFile → Mapping → Disk → Disk
unfolding preprocessed
install yaml r file doc d =
    let path = add_yaml (preprocessed r file.name) in
    write_file path (yaml.dump doc) (maybe_create_directory_for path d)

-- the loop over the files, which ends at the first that fails
pub install_all :
    YamlLibrary → Request → Option (List Key) → List YamlFile → Disk → Option Failure × Disk
unfolding read_document install
install_all yaml r keys [] d = (none, d)
install_all yaml r keys (file ∷ files) d =
    let (answer, keys1) = read_document yaml r keys file in
    elim answer [
      | inl e ↦ (some e, d)
      | inr doc ↦ install_all yaml r keys1 files (install yaml r file doc d)
    ]

-- the `finally` block: whether all is done, and the disk after it
pub finish : Request → Option Failure × Disk → Bool × Disk
finish r (none, d) = (true, set_policy_success_file d)
finish r (some e, d) = (false, clean_policyd_dir_for r.service r.blacklist_paths d)

-- `process_policy_resource_file`
unfoldable pub process_policy_resource_file : YamlLibrary → Request → Disk → Bool × Disk
unfolding install_all finish
process_policy_resource_file yaml r d =
    elim (open_and_filter_yaml_files r.resource_file r.preserve_topdir) [
      | inl e ↦ finish r (some e, d)
      | inr files ↦ finish r (
          install_all yaml r r.blacklist_keys files
            (clean_policyd_dir_for r.service r.blacklist_paths (remove_policy_success_file d)))
    ]

-- `is_policyd_override_valid_on_this_release`: `none` is the error of an unknown release
unfoldable pub is_policyd_override_valid_on_this_release : String → Option Bool
is_policyd_override_valid_on_this_release release =
    elim (new_comparator openstack_releases release) [
      | none ↦ none
      | some i ↦ ge openstack_releases i "queens"
    ]

-- What `maybe_do_policyd_overrides` is called with: the release, the arguments that it hands on, the
-- option in the charm's configuration, and whether this is the hook config-changed.
pub record Override : Type 0 where
  pub openstack_release : String
  pub service : String
  pub blacklist_paths : List PathName
  pub blacklist_keys : Option (List Key)
  pub template_function : Option (String → Option String)
  pub has_restart_handler : Bool
  pub config_changed : Bool
  pub use_policyd_override : Bool
  pub resource : Option Resource

-- `get_policy_resource_filename`, where a missing name counts as no file
unfoldable pub resource_of : Option Resource → Resource
resource_of none = absent
resource_of (some file) = file

unfoldable pub request_of : Override → Request
unfolding resource_of
request_of o = record {
  resource_file = resource_of o.resource;
  service = o.service;
  blacklist_paths = o.blacklist_paths;
  blacklist_keys = o.blacklist_keys;
  template_function = o.template_function;
  preserve_topdir = false;
  preprocess_filename = none;
}

-- `maybe_do_policyd_overrides`: whether the restart handler is called, and the disk after it
unfoldable pub maybe_do_policyd_overrides : YamlLibrary → Override → Disk → Option (Bool × Disk)
unfolding is_policyd_override_valid_on_this_release request_of process_policy_resource_file
maybe_do_policyd_overrides yaml o d =
    elim (is_policyd_override_valid_on_this_release o.openstack_release) [
      | none ↦ none
      | some false ↦ some (false, d)
      | some true ↦
          if not o.use_policyd_override
          then some (
            is_policy_success_file_set d && o.has_restart_handler,
            remove_policy_success_file (clean_policyd_dir_for o.service o.blacklist_paths d),
          )
          else if o.config_changed && is_policy_success_file_set d
          then some (false, d)
          else let (restart, d1) = process_policy_resource_file yaml (request_of o) d in
            some (restart && o.has_restart_handler, d1)
    ]
