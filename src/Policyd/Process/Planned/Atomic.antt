-- ===== src/Policyd/Process/Planned/Atomic.antt =====
-- `process_policy_resource_file` and `maybe_do_policyd_overrides` of
-- charmhelpers/contrib/openstack/policyd.py: all files of the archive are installed, or none.
use charm_helpers.Prelude.{
  String, ◌≡◌, refl, sym, ap, subst, ◌∙◌, List, [], ◌∷◌, Bool, true, false, ◌&&◌, Option, none,
  some, inl, inr, is_some, if◌then◌else◌, PathName, select_same, select-select, All-of, Bool-cases,
  Sum-cases,
}
use mathlib.Core.Bool.{false≢true}
use charm_helpers.Policyd.{Failure, open_and_filter_yaml_files}
use charm_helpers.Policyd.Folder.{
  Disk, clean_policyd_dir_for, clean_entries, scandir, make_folder, remove_entry, is_kept,
  remove_policy_success_file, set_policy_success_file, is_policy_success_file_set,
  policyd_status_message_prefix,
}
use charm_helpers.Policyd.Folder.Cleaned.{stays, clean_policyd_dir_for-files}
use charm_helpers.Policyd.Process.{
  YamlLibrary, Request, install_all, finish, process_policy_resource_file,
}
use charm_helpers.Policyd.Process.Flat.{open_and_filter_yaml_files-IsFlat}
use charm_helpers.Policyd.Process.Planned.{
  Files, plan, documents, put_all, kept_files, KeepsTo, install_all-KeepsTo,
}

abbrev pub planned : Option Files → Files → Files
planned none kept = kept
planned (some docs) kept = put_all docs kept

pub kept_files_idem :
    (r : Request) (files : Files) → kept_files r (kept_files r files) ≡ kept_files r files
unfolding kept_files
kept_files_idem r files =
    select-select (λ f. stays r.service r.blacklist_paths f.0)
      (λ f. stays r.service r.blacklist_paths f.0) files
    ∙ select_same _ (λ f. stays r.service r.blacklist_paths f.0) files
        (All-of _ (λ f. twice (stays r.service r.blacklist_paths f.0)) files)
  where
    twice : (b : Bool) → (b && b) ≡ b
    twice true = refl
    twice false = refl

-- The outcome of a run: whether all is done, the files, and that those to be kept are the same.
abbrev pub Outcome : Request → Option Files → Bool × Disk → Files → Type 0
Outcome r o (done, d) before =
    (done ≡ is_some o)
    × (d.files ≡ planned o (kept_files r before))
    × (kept_files r d.files ≡ kept_files r before)

pub cleaned :
    (r : Request) (d : Disk)
    → (clean_policyd_dir_for r.service r.blacklist_paths d).files ≡ kept_files r d.files
unfolding kept_files
cleaned r d = clean_policyd_dir_for-files r.service r.blacklist_paths d

finish-Outcome :
    (r : Request) (o : Option Files) (result : Option Failure × Disk) (before : Files)
    → KeepsTo r o result (kept_files r before)
    → Outcome r o (finish r result) before
unfolding finish set_policy_success_file
finish-Outcome r none (none, d) before (e, k) = absurd (false≢true e)
finish-Outcome r none (some f, d) before (e, k) = (
  refl,
  cleaned r d ∙ (k ∙ kept_files_idem r before),
  ap (kept_files r) (cleaned r d) ∙ (kept_files_idem r d.files ∙ (k ∙ kept_files_idem r before)),
)
finish-Outcome r (some docs) (none, d) before (e, h, k) = (refl, h, k ∙ kept_files_idem r before)
finish-Outcome r (some docs) (some f, d) before (e, h, k) = absurd (false≢true (sym (ap is_some e)))

-- the directory when the loop over the files begins
abbrev emptied : Request → Disk → Disk
emptied r d = clean_policyd_dir_for r.service r.blacklist_paths (remove_policy_success_file d)

pub run-Outcome :
    (yaml : YamlLibrary) (r : Request) (d : Disk)
    → r.preserve_topdir ≡ false
    → r.preprocess_filename ≡ none
    → Outcome r (plan yaml r) (process_policy_resource_file yaml r d) d.files
unfolding process_policy_resource_file plan finish remove_policy_success_file
run-Outcome yaml r d top plain =
    elim (Sum-cases (open_and_filter_yaml_files r.resource_file r.preserve_topdir)) [
      | inl (e, h) ↦
          rw (h, process_policy_resource_file, plan)
            (refl, cleaned r d, ap (kept_files r) (cleaned r d) ∙ kept_files_idem r d.files)
      | inr (files, h) ↦
          rw (h, process_policy_resource_file, plan)
            (finish-Outcome r (documents yaml r r.blacklist_keys files)
              (install_all yaml r r.blacklist_keys files (emptied r d)) d.files
              (subst
                (KeepsTo r (documents yaml r r.blacklist_keys files)
                  (install_all yaml r r.blacklist_keys files (emptied r d)))
                (cleaned r (remove_policy_success_file d))
                (install_all-KeepsTo yaml r r.blacklist_keys files (emptied r d) plain (
                  open_and_filter_yaml_files-IsFlat r.resource_file files
                    (ap (open_and_filter_yaml_files r.resource_file) (sym top) ∙ h)))))
    ]

-- For a call that gives no folder and no function for names: the run succeeds exactly if the plan,
-- which reads all files of the archive before it writes any, finds each of them valid. Then the
-- directory has the files that are to be kept and those of the plan; otherwise it has the files that
-- are to be kept and no other.
pub process_policy_resource_file_lem :
    (yaml : YamlLibrary) (r : Request) (d : Disk)
    → r.preserve_topdir ≡ false
    → r.preprocess_filename ≡ none
    → ((process_policy_resource_file yaml r d).0 ≡ is_some (plan yaml r))
      × ((process_policy_resource_file yaml r d).1.files
          ≡ planned (plan yaml r) (kept_files r d.files))
process_policy_resource_file_lem yaml r d top plain =
    ((run-Outcome yaml r d top plain).0, (run-Outcome yaml r d top plain).1)

-- Processing the same archive once more, with no folder and no function for names given, changes no
-- file.
pub process_policy_resource_file_idem :
    (yaml : YamlLibrary) (r : Request) (d : Disk)
    → r.preserve_topdir ≡ false
    → r.preprocess_filename ≡ none
    → (process_policy_resource_file yaml r (process_policy_resource_file yaml r d).1).1.files
      ≡ (process_policy_resource_file yaml r d).1.files
process_policy_resource_file_idem yaml r d top plain =
    let once = run-Outcome yaml r d top plain in
    let twice = run-Outcome yaml r (process_policy_resource_file yaml r d).1 top plain in
    twice.1 ∙ (ap (planned (plan yaml r)) once.2 ∙ sym once.1)

clean_entries-success :
    (service : String) (keep : List PathName) (es : List String) (d : Disk)
    → (clean_entries service keep es d).success ≡ d.success
unfolding clean_entries remove_entry
clean_entries-success service keep [] d = refl
clean_entries-success service keep (e ∷ es) d = elim (Bool-cases (is_kept service keep e)) [
  | inl h ↦ rw (h, clean_entries) (clean_entries-success service keep es d)
  | inr h ↦ rw (h, clean_entries) (clean_entries-success service keep es (remove_entry e d))
]

clean_policyd_dir_for-success :
    (service : String) (keep : List PathName) (d : Disk)
    → (clean_policyd_dir_for service keep d).success ≡ d.success
unfolding clean_policyd_dir_for make_folder
clean_policyd_dir_for-success service keep d =
    clean_entries-success service keep (scandir (make_folder [] d)) (make_folder [] d)

-- If the archive cannot be opened, or has no YAML files or two of the same name, the files that are
-- not to be kept go, and the prefix of the status is what it was before: the file that marks a
-- success is not removed.
pub unopened_keeps_prefix :
    (yaml : YamlLibrary) (r : Request) (d : Disk) (e : Failure)
    → open_and_filter_yaml_files r.resource_file r.preserve_topdir ≡ inl e
    → ((process_policy_resource_file yaml r d).1.files ≡ kept_files r d.files)
      × (policyd_status_message_prefix (process_policy_resource_file yaml r d).1
          ≡ policyd_status_message_prefix d)
unfolding process_policy_resource_file finish policyd_status_message_prefix
    is_policy_success_file_set
unopened_keeps_prefix yaml r d e h =
    rw (h, process_policy_resource_file)
      (
        cleaned r d,
        ap (λ b. if b then "PO:" else "PO (broken):")
            (clean_policyd_dir_for-success r.service r.blacklist_paths d),
      )
