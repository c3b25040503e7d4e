-- ===== src/Fetch/Tests.antt =====
-- Tests of the package sources, and the theorems at concrete inputs.
use charm_helpers.Strutils.{openstack_releases}
use charm_helpers.Fetch.Texts.{split_last, strip_suffix, strip_prefix}
use charm_helpers.Prelude.{
  ℕ, zero, suc, String, ◌≡◌, refl, [], ◌∷◌, false, none, some, Dict, insert, str_eq, if◌then◌else◌,
  inl, inr,
}
use charm_helpers.Fetch.{
  cmd_retry_count, Machine, World, exited, source_config_error, called_process_error,
  run_with_retries,
}
use charm_helpers.Fetch.Sources.{
  distro, proposed, repository, staging, distro_check, cloud_pocket, bare_proposed, unknown,
  parse_source, add_source,
}
use charm_helpers.Fetch.Accounts.{Accounted}
use charm_helpers.Fetch.Retried.{Ran, run_with_retries-Ran}
use charm_helpers.Fetch.Pockets.{add_source_keeps_files}

-- a machine with bionic, where a command fails once and then succeeds
abbrev bionic : Machine
bionic = record {
  codename = "bionic";
  arch = "x86_64";
  is_installed = λ p. false;
  exit_code = λ cmd n. one_failure n;
  command_files = λ cmd n files. insert "trusted.gpg.d/ubuntu-cloud.gpg" "keyring" files;
  fingerprint = λ k. some "F00D";
  dearmor = λ k. if str_eq k "" then none else some k;
  keyserver = λ k. if str_eq k "ABCD" then inr "material" else inl 22;
}
  where
    one_failure : ℕ → ℕ
    one_failure zero = 100
    one_failure (suc n) = 0

abbrev pockets : Dict String
pockets = ("bionic-ussuri", "bionic-updates/ussuri") ∷ ("ussuri", "bionic-updates/ussuri") ∷ []

abbrev releases : Dict String
releases = ("bionic", "queens") ∷ ("focal", "ussuri") ∷ []

abbrev fresh : World
fresh = record { files = []; log = [] }

parses_distro : parse_source "distro" ≡ distro
unfolding parse_source
parses_distro = refl

parses_proposed : parse_source "distro-proposed" ≡ proposed
unfolding parse_source
parses_proposed = refl

parses_ppa : parse_source "ppa:juju/stable" ≡ repository "ppa:juju/stable"
unfolding parse_source strip_prefix
parses_ppa = refl

drops_cloud_archive : parse_source "cloud-archive:folsom" ≡ repository "folsom"
unfolding parse_source strip_prefix
drops_cloud_archive = refl

parses_cloud : parse_source "cloud:bionic-ussuri" ≡ distro_check "bionic" "ussuri"
unfolding parse_source strip_prefix strip_suffix split_last
parses_cloud = refl

parses_staging : parse_source "cloud:bionic-ussuri/staging" ≡ staging "bionic" "ussuri"
unfolding parse_source strip_prefix strip_suffix split_last
parses_staging = refl

parses_ovn : parse_source "cloud:focal-ovn-22.03" ≡ distro_check "focal" "ovn-22.03"
unfolding parse_source strip_prefix strip_suffix split_last
parses_ovn = refl

parses_pocket : parse_source "cloud:havana" ≡ cloud_pocket "havana"
unfolding parse_source strip_prefix strip_suffix split_last
parses_pocket = refl

parses_snap : parse_source "snap:track-bionic-ussuri" ≡ distro_check "bionic" "ussuri"
unfolding parse_source strip_prefix split_last
parses_snap = refl

parses_bare : parse_source "ussuri/proposed" ≡ bare_proposed "ussuri"
unfolding parse_source strip_prefix strip_suffix openstack_releases
parses_bare = refl

parses_nothing : parse_source "foo" ≡ unknown
unfolding parse_source strip_prefix strip_suffix openstack_releases
parses_nothing = refl

adds_pocket :
    (add_source bionic pockets releases "ussuri" none false fresh).1.files
    ≡ ("trusted.gpg.d/ubuntu-cloud.gpg", "keyring")
      ∷ (
        "sources.list.d/cloud-archive.list",
        "# Ubuntu Cloud Archive\ndeb http://ubuntu-cloud.archive.canonical.com/ubuntu bionic-updates/ussuri main\n",
      )
      ∷ []
unfolding add_source strip_prefix strip_suffix openstack_releases cmd_retry_count
adds_pocket = refl

bad_key :
    (add_source bionic pockets releases "ussuri" (some "a-b") false fresh).0
    ≡ some source_config_error
unfolding add_source strip_prefix strip_suffix openstack_releases
bad_key = refl

no_keyserver :
    (add_source bionic pockets releases "ussuri" (some " 1234 ") false fresh).0
    ≡ some (called_process_error 22)
unfolding add_source strip_prefix strip_suffix openstack_releases
no_keyserver = refl

-- the keyring has been installed and the key written before the pocket is found to be missing
add_source_keeps_files_example :
    Accounted bionic fresh
      (add_source bionic pockets releases "cloud:bionic-yoga" (some "ABCD") false fresh).1
unfolding add_source strip_prefix strip_suffix split_last cmd_retry_count
add_source_keeps_files_example =
    add_source_keeps_files bionic pockets releases "cloud:bionic-yoga" (some "ABCD") false fresh
      refl

gives_up : run_with_retries 2 (1 ∷ []) (λ n. 1) ≡ (exited 1, 3)
unfolding run_with_retries
gives_up = refl

run_with_retries-Ran_example :
    Ran
      (1 ∷ 100 ∷ [])
      (bionic.exit_code [])
      0
      10
      (run_with_retries 10 (1 ∷ 100 ∷ []) (bionic.exit_code []))
run_with_retries-Ran_example = run_with_retries-Ran 10 (1 ∷ 100 ∷ []) (bionic.exit_code []) refl
