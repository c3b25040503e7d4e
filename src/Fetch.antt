-- ===== src/Fetch.antt =====
-- charmhelpers/fetch/ubuntu.py: commands that are retried, packages that are to be installed, and the
-- package sources. What a command exits with and does, what is installed and what gpg and the keyserver
-- answer are arguments.
use charm_helpers.Prelude.{
  ℕ, zero, suc, ◌+◌, String, List, [], ◌∷◌, ◌++◌, Bool, true, false, not, ◌&&◌, ◌||◌, Option, none,
  some, is_some, ◌==◌, str_eq, if◌then◌else◌, ◌-◌, ltb, inl, inr, ◌⊎◌, any, select, Dict, lookup,
  contains, insert, elem, occurs_in, split_at,
}
use Prim.Native.String.{◌++◌ as str_append}
use charm_helpers.Fetch.Texts.{strip_prefix, strip_suffix, split_last, replace_after, strip_text}
use charm_helpers.Strutils.{openstack_releases}
pub mod Texts
pub mod Sources
pub mod Retried
pub mod Accounts
pub mod Pockets
mod Tests

-- how a command ends: it succeeds, exits with another code, or is still run when the fuel is used up
pub data Ended : Type 0 where
  succeeded : Ended
  exited : ℕ → Ended
  still_running : Ended

abbrev pub elem_code : ℕ → List ℕ → Bool
elem_code c codes = any (λ d. c == d) codes

-- The loop of `_run_with_retries`, with fuel for its attempts and the retries that are left. It counts
-- the attempts, whose exit codes are given from the first on. A success ends it only if 0 is not among
-- the codes that are retried, and does not count as a retry.
unfoldable pub retry_loop : List ℕ → (ℕ → ℕ) → ℕ → ℕ → ℕ → Ended × ℕ
retry_loop retry_exitcodes exit_code zero left attempt = (still_running, attempt)
retry_loop retry_exitcodes exit_code (suc fuel) left attempt =
    let again = retry_loop retry_exitcodes exit_code fuel left (suc attempt) in
    let rest = retry_loop retry_exitcodes exit_code fuel (left - 1) (suc attempt) in
    if exit_code attempt == 0
    then if elem_code 0 retry_exitcodes then again else (succeeded, suc attempt)
    else if elem_code (exit_code attempt) retry_exitcodes && ltb 0 left
    then rest
    else (exited (exit_code attempt), suc attempt)

-- `_run_with_retries`, with `max_retries` and fuel for one attempt more
unfoldable pub run_with_retries : ℕ → List ℕ → (ℕ → ℕ) → Ended × ℕ
unfolding retry_loop
run_with_retries max_retries retry_exitcodes exit_code =
    retry_loop retry_exitcodes exit_code (suc max_retries) max_retries 0

-- What is done to the files of apt by others than the lists of this module: a command is run, with
-- its attempts, and the file of a key is written.
pub data Event : Type 0 where
  ran : List String → ℕ → Event
  keyed : String → String → Event

-- The machine: its codename and architecture, the packages that are installed, what the attempts of a
-- command exit with, and what such a command makes of the files of apt, also if it fails. Of gpg, the
-- fingerprint of a key and its binary form, where `none` is data that is no key; of the keyserver, a
-- key, or the code with which the call for it fails.
pub record Machine : Type 0 where
  pub codename : String
  pub arch : String
  pub is_installed : String → Bool
  pub exit_code : List String → ℕ → ℕ
  pub command_files : List String → ℕ → Dict String → Dict String
  pub fingerprint : String → Option String
  pub dearmor : String → Option String
  pub keyserver : String → ℕ ⊎ String

-- the files of apt, by their paths from `/etc/apt` on, and what has been done
pub record World : Type 0 where
  pub files : Dict String
  pub log : List Event

pub data Error : Type 0 where
  source_config_error : Error
  gpg_key_error : Error
  called_process_error : ℕ → Error
  endless : Error

-- a step returns, or raises, and the world after it
abbrev pub Step : Type 0
Step = World → Option Error × World

-- the next step runs if the first has returned
infixl 5 ◌>>◌
abbrev pub ◌>>◌ : Step → Step → Step
◌>>◌ first next w = let r = first w in elim r.0 [ some e ↦ r | none ↦ next r.1 ]

abbrev pub do_nothing : Step
do_nothing w = (none, w)

abbrev pub raise : Error → Step
raise e w = (some e, w)

-- `CMD_RETRY_COUNT`
unfoldable pub cmd_retry_count : ℕ
cmd_retry_count = 10

-- A command that is retried: its attempts, and the files that it leaves. No command of this module is
-- retried on success, so that none is still run at the end of the fuel.
unfoldable pub run : Machine → List ℕ → List String → Step
unfolding run_with_retries
run m retry_exitcodes cmd w =
    let (ended, attempts) = run_with_retries cmd_retry_count retry_exitcodes (m.exit_code cmd) in
    let w1 : World = record {
      files = m.command_files cmd attempts w.files;
      log = w.log ++ ran cmd attempts ∷ [];
    } in
    elim ended [
      | succeeded ↦ (none, w1)
      | exited code ↦ (some (called_process_error code), w1)
      | still_running ↦ (some endless, w1)
    ]

-- `_write_apt_gpg_keyfile`
unfoldable pub write_apt_gpg_keyfile : String → String → Step
write_apt_gpg_keyfile key_name key_material w = (
  none,
  record {
    files = insert (str_append "trusted.gpg.d/" (str_append key_name ".gpg")) key_material w.files;
    log = w.log ++ keyed key_name key_material ∷ [];
  },
)

abbrev pub or_gpg_error {ℓ} : {A : Type ℓ} → Option A → (A → Step) → Step
or_gpg_error o next w = elim o [ none ↦ (some gpg_key_error, w) | some x ↦ next x w ]

-- `import_key`
unfoldable pub import_key : Machine → String → Step
unfolding write_apt_gpg_keyfile strip_text
import_key m given =
    let key = strip_text given in
    if occurs_in "-" key || occurs_in "\n" key
    then if occurs_in "-----BEGIN PGP PUBLIC KEY BLOCK-----" key
        && occurs_in "-----END PGP PUBLIC KEY BLOCK-----" key
      then or_gpg_error (m.fingerprint key)
          (λ name. or_gpg_error (m.dearmor key) (λ material. write_apt_gpg_keyfile name material))
      else raise gpg_key_error
    else elim (m.keyserver key) [
      | inl code ↦ raise (called_process_error code)
      | inr key_asc ↦
          or_gpg_error (m.dearmor key_asc) (λ material. write_apt_gpg_keyfile key material)
    ]

-- `filter_installed_packages`
unfoldable pub filter_installed_packages : Machine → List String → List String
filter_installed_packages m packages = select (λ p. not (m.is_installed p)) packages

-- `apt_install` with `fatal`
unfoldable pub apt_install : Machine → List String → Step
unfolding run
apt_install m [] w = (none, w)
apt_install m (p ∷ packages) w =
    run m (1 ∷ 100 ∷ [])
      ("apt-get" ∷ "--assume-yes" ∷ "--option=Dpkg::Options::=--force-confold" ∷ "install" ∷ p
        ∷ packages)
      w

abbrev pub write_list : String → String → Step
write_list file text w =
    (none, record w { files = insert (str_append "sources.list.d/" file) text w.files })

-- `ARCH_TO_PROPOSED_POCKET[arch].format(release)`
unfoldable pub proposed_pocket : String → String → Option String
proposed_pocket arch release =
    let entry = λ (url : String). str_append "# Proposed\ndeb " (
      str_append url
        (str_append " " (str_append release "-proposed main universe multiverse restricted\n"))) in
    if str_eq arch "x86_64"
    then some (entry "http://archive.ubuntu.com/ubuntu")
    else if elem arch ("ppc64le" ∷ "aarch64" ∷ "s390x" ∷ [])
    then some (entry "http://ports.ubuntu.com/ubuntu-ports")
    else none

-- `_add_proposed`
unfoldable pub add_proposed : Machine → Step
unfolding proposed_pocket
add_proposed m w = elim (proposed_pocket m.arch m.codename) [
  | none ↦ raise source_config_error w
  | some text ↦ write_list "proposed.list" text w
]

-- `_add_apt_repository`
unfoldable pub add_apt_repository : Machine → String → Step
unfolding run
add_apt_repository m spec = run m (1 ∷ []) (
    "add-apt-repository"
    ∷ "--yes"
    ∷ (if occurs_in "{series}" spec then replace_after "{series}" m.codename 0 spec else spec)
    ∷ [])

-- `CLOUD_ARCHIVE.format(actual_pocket)`
unfoldable pub cloud_archive : String → String
cloud_archive pocket =
    str_append "# Ubuntu Cloud Archive\ndeb http://ubuntu-cloud.archive.canonical.com/ubuntu "
      (str_append pocket " main\n")

-- `_add_cloud_pocket`, by the table `CLOUD_ARCHIVE_POCKETS`
unfoldable pub add_cloud_pocket : Machine → Dict String → String → Step
unfolding apt_install filter_installed_packages cloud_archive
add_cloud_pocket m pockets pocket =
    apt_install m (filter_installed_packages m ("ubuntu-cloud-keyring" ∷ [])) >> (λ w.
      elim (lookup pocket pockets) [
        | none ↦ raise source_config_error w
        | some actual ↦
            write_list
              (if occurs_in "ovn" pocket then "cloud-archive-ovn.list" else "cloud-archive.list")
              (cloud_archive actual) w
      ])

-- `_verify_is_ubuntu_rel`
unfoldable pub verify_is_ubuntu_rel : Machine → String → Step
verify_is_ubuntu_rel m release w =
    if str_eq release m.codename then do_nothing w else raise source_config_error w

abbrev space : ℕ
space = 32

-- `_add_cloud_staging`, which splits the command at each space
unfoldable pub add_cloud_staging : Machine → String → String → Step
unfolding verify_is_ubuntu_rel run
add_cloud_staging m cloud_archive_release openstack_release =
    verify_is_ubuntu_rel m cloud_archive_release
    >> run m (1 ∷ []) (
        split_at space (
          str_append "add-apt-repository -y ppa:ubuntu-cloud-archive/"
            (str_append openstack_release "-staging")))

-- `_add_cloud_distro_check`
unfoldable pub add_cloud_distro_check : Machine → Dict String → String → String → Step
unfolding verify_is_ubuntu_rel add_cloud_pocket
add_cloud_distro_check m pockets cloud_archive_release openstack_release =
    verify_is_ubuntu_rel m cloud_archive_release
    >> add_cloud_pocket m pockets
        (str_append cloud_archive_release (str_append "-" openstack_release))

-- `__add_bare_helper`, by the tables `CLOUD_ARCHIVE_POCKETS` and `UBUNTU_OPENSTACK_RELEASE`
unfoldable pub add_bare_helper : Machine → Dict String → Dict String → String → String → Step → Step
unfolding add_cloud_pocket
add_bare_helper m pockets releases openstack_release possible_pocket final_function w =
    if contains possible_pocket pockets
    then add_cloud_pocket m pockets possible_pocket w
    else elim (lookup m.codename releases) [
      | none ↦ raise source_config_error w
      | some r ↦
          if str_eq r openstack_release then final_function w else raise source_config_error w
    ]

abbrev pub bare_pocket : Machine → String → String
bare_pocket m release = str_append m.codename (str_append "-" release)

-- `_add_bare_openstack` and `_add_bare_openstack_proposed`
unfoldable pub add_bare_openstack : Machine → Dict String → Dict String → String → Step
unfolding add_bare_helper
add_bare_openstack m pockets releases openstack_release =
    add_bare_helper m pockets releases openstack_release (bare_pocket m openstack_release)
      do_nothing

unfoldable pub add_bare_openstack_proposed : Machine → Dict String → Dict String → String → Step
unfolding add_bare_helper add_proposed
add_bare_openstack_proposed m pockets releases openstack_release =
    add_bare_helper m pockets releases openstack_release
      (str_append (bare_pocket m openstack_release) "/proposed") (add_proposed m)
