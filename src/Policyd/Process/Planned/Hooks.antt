-- ===== src/Policyd/Process/Planned/Hooks.antt =====
-- `maybe_do_policyd_overrides` of charmhelpers/contrib/openstack/policyd.py, which the hooks call.
use charm_helpers.Prelude.{
  ℕ, String, ◌≡◌, refl, ap, ◌∙◌, Bool, true, false, not, ◌&&◌, Option, none, some, ltb,
  if◌then◌else◌,
}
use charm_helpers.Strutils.{openstack_releases, new_comparator, ge, index, lt}
use charm_helpers.Policyd.Folder.{
  Disk, clean_policyd_dir_for, remove_policy_success_file, is_policy_success_file_set,
}
use charm_helpers.Policyd.Process.{
  YamlLibrary, Request, Override, request_of, maybe_do_policyd_overrides,
  is_policyd_override_valid_on_this_release,
}
use charm_helpers.Policyd.Process.Planned.{kept_files}
use charm_helpers.Policyd.Process.Planned.Atomic.{run-Outcome, cleaned, kept_files_idem}

valid_of_index :
    (release : String) (i : ℕ)
    → new_comparator openstack_releases release ≡ some i
    → is_policyd_override_valid_on_this_release release ≡ some (not (ltb i 13))
unfolding is_policyd_override_valid_on_this_release ge lt index openstack_releases
valid_of_index release i h = rw (h, is_policyd_override_valid_on_this_release) refl

-- The call answers, and the files to be kept are those of the disk before.
pub Keeps : Request → Disk → Option (Bool × Disk) → Type 0
Keeps r d none = ⊥
Keeps r d (some (restart, d1)) = kept_files r d1.files ≡ kept_files r d.files

branches-Keeps :
    (off already : Bool) (r : Request) (d : Disk) (cleared processed : Bool × Disk)
    → kept_files r (cleared.1).files ≡ kept_files r d.files
    → kept_files r (processed.1).files ≡ kept_files r d.files
    → Keeps r d (if off then some cleared else if already then some (false, d) else some processed)
unfolding Keeps
branches-Keeps true already r d cleared processed h k = h
branches-Keeps false true r d cleared processed h k = refl
branches-Keeps false false r d cleared processed h k = k

cleared-kept :
    (r : Request) (d : Disk)
    → kept_files r
        (remove_policy_success_file (clean_policyd_dir_for r.service r.blacklist_paths d)).files
      ≡ kept_files r d.files
unfolding remove_policy_success_file
cleared-kept r d = ap (kept_files r) (cleaned r d) ∙ kept_files_idem r d.files

-- On a release that is known, the call answers, and leaves every file that is to be kept as it is,
-- in the same order: each file of policy.d whose own path is among those to be left alone, or the
-- path of the entry of policy.d in which it lies. A listed path further down is not looked at.
pub maybe_do_policyd_overrides-Keeps :
    (yaml : YamlLibrary) (o : Override) (d : Disk) (i : ℕ)
    → new_comparator openstack_releases o.openstack_release ≡ some i
    → Keeps (request_of o) d (maybe_do_policyd_overrides yaml o d)
unfolding maybe_do_policyd_overrides request_of
maybe_do_policyd_overrides-Keeps yaml o d i h =
    by_release (not (ltb i 13)) (valid_of_index o.openstack_release i h)
  where
    by_release :
        (b : Bool)
        → is_policyd_override_valid_on_this_release o.openstack_release ≡ some b
        → Keeps (request_of o) d (maybe_do_policyd_overrides yaml o d)
    by_release false e =
        rw (e, maybe_do_policyd_overrides)
          (branches-Keeps false true (request_of o) d (false, d) (false, d) refl refl)
    by_release true e =
        rw (e, maybe_do_policyd_overrides)
          (branches-Keeps (not o.use_policyd_override)
            (o.config_changed && is_policy_success_file_set d) (request_of o) d _ _
            (cleared-kept (request_of o) d) (run-Outcome yaml (request_of o) d refl refl).2)
