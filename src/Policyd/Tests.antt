-- ===== src/Policyd/Tests.antt =====
-- charmhelpers/contrib/openstack/policyd.py: an archive of two files, and the theorems on it.
use charm_helpers.Prelude.{
  String, ◌≡◌, refl, [], ◌∷◌, true, false, Option, none, some, inl, inr, is_some, str_eq,
  if◌then◌else◌, or_else, PathName,
}
use charm_helpers.Strutils.{ge, openstack_releases, new_comparator}
use charm_helpers.Policyd.{
  archive, not_a_zip, ZipInfo, bad_zip_file, keys_blacklisted, Resource, open_and_filter_yaml_files,
}
use charm_helpers.Policyd.Validate.{
  text_key, text_value, Mapping, mapping, Document, has_blacklisted, all_keys_text, all_values_text,
  read_and_validate_yaml, read_and_validate_yaml_lem,
}
use charm_helpers.Policyd.Folder.{
  remove_policy_success_file, maybe_create_directory_for, write_file, set_policy_success_file,
  path_for_policy_file, Disk, policyd_status_message_prefix, clean_policyd_dir_for,
}
use charm_helpers.Policyd.Process.{
  YamlLibrary, Request, process_policy_resource_file, Override, request_of,
  maybe_do_policyd_overrides,
}
use charm_helpers.Policyd.Process.Planned.{plan, kept_files}
use charm_helpers.Policyd.Process.Planned.Atomic.{
  planned, process_policy_resource_file_lem, unopened_keeps_prefix,
}
use charm_helpers.Policyd.Process.Planned.Hooks.{Keeps, maybe_do_policyd_overrides-Keeps}

abbrev rules : Mapping
rules = (text_key "admin_required", text_value "role:member") ∷ []

-- a reader of one document, and a writer
abbrev sample_load : String → Option Document
sample_load s = if str_eq s "rules" then some (mapping rules) else none

abbrev sample_yaml : YamlLibrary
sample_yaml = record { safe_load = sample_load; dump = λ doc. "dumped" }

abbrev zip_info : PathName → String → String → ZipInfo
zip_info directory name_ext text = record {
  directory = directory;
  name_ext = name_ext;
  is_dir = false;
  text = text;
}

-- two files, of which the second is not YAML by its extension
abbrev good_archive : Resource
good_archive =
    archive (zip_info ("sub" ∷ []) "rule.YAML" "rules" ∷ zip_info [] "README.md" "text" ∷ [])

-- the second file cannot be read
abbrev broken_archive : Resource
broken_archive = archive (zip_info [] "rule.yaml" "rules" ∷ zip_info [] "other.yml" "nonsense" ∷ [])

abbrev request : Resource → Request
request resource = record {
  resource_file = resource;
  service = "nova";
  blacklist_paths = ("etc" ∷ "nova" ∷ "policy.d" ∷ "keep.yaml" ∷ []) ∷ [];
  blacklist_keys = some (text_key "secret" ∷ []);
  template_function = none;
  preserve_topdir = false;
  preprocess_filename = none;
}

abbrev disk : Disk
disk = record {
  files = ("keep.yaml" ∷ [], "kept") ∷ ("old.yaml" ∷ [], "old") ∷ ("sub" ∷ "x" ∷ [], "old") ∷ [];
  folders = [] ∷ ("sub" ∷ []) ∷ [];
  success = true;
}

abbrev disk_after : Disk
disk_after = record {
  files = ("keep.yaml" ∷ [], "kept") ∷ ("rule.yaml" ∷ [], "dumped") ∷ [];
  folders = [] ∷ [];
  success = true;
}

process_good :
    process_policy_resource_file sample_yaml (request good_archive) disk ≡ (true, disk_after)
unfolding process_policy_resource_file open_and_filter_yaml_files path_for_policy_file
    read_and_validate_yaml set_policy_success_file write_file maybe_create_directory_for
    clean_policyd_dir_for remove_policy_success_file
process_good = refl

abbrev disk_cleaned : Disk
disk_cleaned = record {
  files = ("keep.yaml" ∷ [], "kept") ∷ [];
  folders = [] ∷ [];
  success = false;
}

process_broken :
    process_policy_resource_file sample_yaml (request broken_archive) disk ≡ (false, disk_cleaned)
unfolding process_policy_resource_file open_and_filter_yaml_files path_for_policy_file
    read_and_validate_yaml clean_policyd_dir_for write_file maybe_create_directory_for
    remove_policy_success_file
process_broken = refl

process_policy_resource_file_lem_example :
    ((process_policy_resource_file sample_yaml (request broken_archive) disk).0
      ≡ is_some (plan sample_yaml (request broken_archive)))
    × ((process_policy_resource_file sample_yaml (request broken_archive) disk).1.files
        ≡ planned
            (plan sample_yaml (request broken_archive))
            (kept_files (request broken_archive) disk.files))
process_policy_resource_file_lem_example =
    process_policy_resource_file_lem sample_yaml (request broken_archive) disk refl refl

not_a_zip-fails : open_and_filter_yaml_files not_a_zip false ≡ inl bad_zip_file
unfolding open_and_filter_yaml_files
not_a_zip-fails = refl

-- The overrides are gone, and the status still speaks of them.
unopened_keeps_prefix_example :
    ((process_policy_resource_file sample_yaml (request not_a_zip) disk).1.files
      ≡ kept_files (request not_a_zip) disk.files)
    × (policyd_status_message_prefix
          (process_policy_resource_file sample_yaml (request not_a_zip) disk).1
        ≡ policyd_status_message_prefix disk)
unopened_keeps_prefix_example =
    unopened_keeps_prefix sample_yaml (request not_a_zip) disk bad_zip_file not_a_zip-fails

rules_keys : all_keys_text rules ≡ true
unfolding all_keys_text
rules_keys = refl

rules_values : all_values_text rules ≡ true
unfolding all_values_text
rules_values = refl

-- a key that is always to be refused is let through
read_and_validate_yaml_lem_example :
    (read_and_validate_yaml sample_load "rules" (some (text_key "secret" ∷ []))).0 ≡ (
      if has_blacklisted (or_else (some (text_key "secret" ∷ [])) []) rules
      then inl keys_blacklisted
      else inr rules)
read_and_validate_yaml_lem_example =
    read_and_validate_yaml_lem sample_load "rules" (some (text_key "secret" ∷ [])) rules refl
      rules_keys rules_values

abbrev override : Override
override = record {
  openstack_release = "yoga";
  service = "nova";
  blacklist_paths = ("etc" ∷ "nova" ∷ "policy.d" ∷ "keep.yaml" ∷ []) ∷ [];
  blacklist_keys = none;
  template_function = none;
  has_restart_handler = true;
  config_changed = false;
  use_policyd_override = true;
  resource = some good_archive;
}

override_runs : maybe_do_policyd_overrides sample_yaml override disk ≡ some (true, disk_after)
unfolding maybe_do_policyd_overrides new_comparator openstack_releases ge open_and_filter_yaml_files
    path_for_policy_file read_and_validate_yaml set_policy_success_file write_file
    maybe_create_directory_for clean_policyd_dir_for remove_policy_success_file
override_runs = refl

yoga_place : new_comparator openstack_releases "yoga" ≡ some 21
unfolding new_comparator openstack_releases
yoga_place = refl

maybe_do_policyd_overrides-Keeps_example :
    Keeps (request_of override) disk (maybe_do_policyd_overrides sample_yaml override disk)
maybe_do_policyd_overrides-Keeps_example =
    maybe_do_policyd_overrides-Keeps sample_yaml override disk 21 yoga_place
