-- ===== src/Policyd/Process/Planned.antt =====
-- `process_policy_resource_file` of charmhelpers/contrib/openstack/policyd.py against a plan of it
-- that reads every file before the first is written.
use charm_helpers.Prelude.{
  String, ◌≡◌, refl, sym, ap, subst, ◌∙◌, List, [], ◌∷◌, ◌++◌, Bool, true, false, not, ◌&&◌, ◌||◌,
  Option, none, some, inl, inr, ◌⊎◌, is_some, str_eq, if◌then◌else◌, PathName, elem_path, same_path,
  same_path_eq, select, All, Bool-cases, Sum-cases, Option-cases, arith, eq_iff,
}
use mathlib.Core.Sum.{inl-ne-inr}
use charm_helpers.Policyd.{Failure, name_blacklisted, YamlFile, open_and_filter_yaml_files}
use charm_helpers.Policyd.Validate.{Key, Mapping}
use charm_helpers.Policyd.Folder.{
  Disk, path_for_policy_file, add_yaml, put, is_kept, write_file, maybe_create_directory_for,
  make_folder,
}
use charm_helpers.Policyd.Folder.Cleaned.{stays}
use charm_helpers.Policyd.Process.{
  YamlLibrary, Request, preprocessed, read_template, read_document, install, install_all,
}
use charm_helpers.Policyd.Process.Flat.{IsFlat}
pub mod Atomic
pub mod Hooks

abbrev pub Files : Type 0
Files = List (PathName × String)

-- the texts that the files of the archive are to become, if all of them are valid
unfoldable pub documents : YamlLibrary → Request → Option (List Key) → List YamlFile → Option Files
documents yaml r keys [] = some []
documents yaml r keys (file ∷ files) =
    let (answer, keys1) = read_document yaml r keys file in
    let rest = documents yaml r keys1 files in
    elim answer [
      | inl e ↦ none
      | inr doc ↦ elim rest [
        | none ↦ none
        | some docs ↦ some ((add_yaml (preprocessed r file.name), yaml.dump doc) ∷ docs)
      ]
    ]

unfoldable pub plan : YamlLibrary → Request → Option Files
unfolding documents
plan yaml r = elim (open_and_filter_yaml_files r.resource_file r.preserve_topdir) [
  | inl e ↦ none
  | inr files ↦ documents yaml r r.blacklist_keys files
]

unfoldable pub put_all : Files → Files → Files
put_all [] files = files
put_all ((path, text) ∷ docs) files = put_all docs (put path text files)

unfoldable pub kept_files : Request → Files → Files
kept_files r files = select (λ f. stays r.service r.blacklist_paths f.0) files

kept_files-put :
    (r : Request) (path : PathName) (text : String) (files : Files)
    → stays r.service r.blacklist_paths path ≡ false
    → kept_files r (put path text files) ≡ kept_files r files
unfolding kept_files put
kept_files-put r path text [] h = rw (h) refl
kept_files-put r path text ((p, t) ∷ files) h = elim (Bool-cases (same_path p path)) [
  | inl e ↦ rw (e, h, ap (stays r.service r.blacklist_paths) (same_path_eq p path e) ∙ h) refl
  | inr e ↦ rw (e) (
      ap (λ rest. if stays r.service r.blacklist_paths p then (p, t) ∷ rest else rest)
        (kept_files-put r path text files h))
]

read_document-allowed :
    (yaml : YamlLibrary) (r : Request) (keys : Option (List Key)) (file : YamlFile) (doc : Mapping)
    → (read_document yaml r keys file).0 ≡ inr doc
    → elem_path (path_for_policy_file r.service (preprocessed r file.name)) r.blacklist_paths
      ≡ false
unfolding read_document
read_document-allowed yaml r keys file doc e =
    either (elem_path (path_for_policy_file r.service (preprocessed r file.name)) r.blacklist_paths)
      _ e
  where
    either :
        (b : Bool) (x : (Failure ⊎ Mapping) × Option (List Key))
        → (if b
            then (
              inl (name_blacklisted (path_for_policy_file r.service (preprocessed r file.name))),
              keys,
            )
            else x).0
          ≡ inr doc
        → b ≡ false
    either true x h = absurd (inl-ne-inr h)
    either false x h = refl

written-gone :
    (r : Request) (x : String)
    → elem_path (path_for_policy_file r.service (x ∷ [])) r.blacklist_paths ≡ false
    → stays r.service r.blacklist_paths (add_yaml (x ∷ [])) ≡ false
unfolding stays add_yaml path_for_policy_file is_kept
written-gone r x h = h

flat-gone :
    (r : Request) (file : YamlFile)
    → r.preprocess_filename ≡ none
    → IsFlat file
    → elem_path (path_for_policy_file r.service (preprocessed r file.name)) r.blacklist_paths
      ≡ false
    → stays r.service r.blacklist_paths (add_yaml (preprocessed r file.name)) ≡ false
unfolding preprocessed IsFlat
flat-gone r file plain (x, e) = rw (plain, e) (written-gone r x)

-- The loop over the files keeps to the plan, or fails having touched no file that is to stay.
abbrev pub KeepsTo : Request → Option Files → Option Failure × Disk → Files → Type 0
KeepsTo r none (e, d) before = (is_some e ≡ true) × (kept_files r d.files ≡ kept_files r before)
KeepsTo r (some docs) (e, d) before =
    (e ≡ none) × (d.files ≡ put_all docs before) × (kept_files r d.files ≡ kept_files r before)

KeepsTo-put :
    (r : Request) (o : Option Files) (result : Option Failure × Disk)
    → (path : PathName) (text : String) (before : Files)
    → stays r.service r.blacklist_paths path ≡ false
    → KeepsTo r o result (put path text before)
    → KeepsTo r (elim o [ none ↦ none | some docs ↦ some ((path, text) ∷ docs) ]) result before
unfolding put_all
KeepsTo-put r none result path text before h k = (k.0, k.1 ∙ kept_files-put r path text before h)
KeepsTo-put r (some docs) result path text before h k =
    (k.0, k.1, k.2 ∙ kept_files-put r path text before h)

pub install_all-KeepsTo :
    (yaml : YamlLibrary) (r : Request) (keys : Option (List Key)) (files : List YamlFile) (d : Disk)
    → r.preprocess_filename ≡ none
    → All IsFlat files
    → KeepsTo r (documents yaml r keys files) (install_all yaml r keys files d) d.files
unfolding documents install_all install write_file maybe_create_directory_for make_folder put_all
    kept_files
install_all-KeepsTo yaml r keys [] d plain flat = (refl, refl, refl)
install_all-KeepsTo yaml r keys (file ∷ files) d plain flat =
    elim (Sum-cases (read_document yaml r keys file).0) [
      | inl (e, h) ↦ rw (h, documents, install_all) (refl, refl)
      | inr (doc, h) ↦
          rw (h, documents, install_all)
            (KeepsTo-put r (documents yaml r (read_document yaml r keys file).1 files)
              (install_all yaml r (read_document yaml r keys file).1 files
                (install yaml r file doc d))
              (add_yaml (preprocessed r file.name)) (yaml.dump doc) d.files
              (flat-gone r file plain flat.0 (read_document-allowed yaml r keys file doc h))
              (install_all-KeepsTo yaml r (read_document yaml r keys file).1 files
                (install yaml r file doc d) plain flat.1))
    ]
