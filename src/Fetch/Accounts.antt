-- ===== src/Fetch/Accounts.antt =====
-- charmhelpers/fetch/ubuntu.py: steps that change the files of apt only by commands and keys.
use mathlib.Core.List.{append_assoc, append-nil}
use charm_helpers.Prelude.{
  ℕ, String, ◌≡◌, refl, sym, ap, ◌∙◌, List, [], ◌∷◌, ◌++◌, Bool, true, false, Option, none, some,
  is_some, str_eq, if◌then◌else◌, Dict, insert, ◌&&◌, ◌||◌, ◌⊎◌, inl, inr, subst, occurs_in,
}
use charm_helpers.Fetch.{
  Machine, World, Step, ◌>>◌, do_nothing, raise, run, apt_install, verify_is_ubuntu_rel, Error,
  source_config_error, Ended, succeeded, exited, still_running, endless, gpg_key_error, Event, ran,
  keyed, import_key, or_gpg_error, write_apt_gpg_keyfile, run_with_retries, cmd_retry_count,
  called_process_error,
}
use charm_helpers.Fetch.Sources.{as_config_error, import_given}
use Prim.Native.String.{◌++◌ as str_append}
use charm_helpers.Fetch.Texts.{strip_text}

-- what an event makes of the files, and what events in their order make of them
abbrev pub did : Machine → Event → Dict String → Dict String
did m (ran cmd attempts) files = m.command_files cmd attempts files
did m (keyed name material) files =
    insert (str_append "trusted.gpg.d/" (str_append name ".gpg")) material files

pub replay : Machine → List Event → Dict String → Dict String
replay m [] files = files
replay m (e ∷ es) files = replay m es (did m e files)

-- The events that were added to the log account for all changes of the files: the module has written
-- no list of its own.
pub Accounted : Machine → World → World → Type 0
Accounted m w w1 = (es : List Event) × ((w1.log ≡ w.log ++ es) × (w1.files ≡ replay m es w.files))

replay-append :
    (m : Machine) (es fs : List Event) (files : Dict String)
    → replay m (es ++ fs) files ≡ replay m fs (replay m es files)
unfolding replay
replay-append m [] fs files = refl
replay-append m (e ∷ es) fs files = replay-append m es fs (did m e files)

pub Accounted-refl : (m : Machine) (w : World) → Accounted m w w
unfolding Accounted replay
Accounted-refl m w = ([], (sym (append-nil w.log), refl))

pub Accounted-trans :
    (m : Machine) (w w1 w2 : World) → Accounted m w w1 → Accounted m w1 w2 → Accounted m w w2
unfolding Accounted
Accounted-trans m w w1 w2 (es, (l, f)) (fs, (k, g)) = (
  es ++ fs,
  (
    k ∙ ap (λ x. x ++ fs) l ∙ append_assoc w.log es fs,
    g ∙ ap (replay m fs) f ∙ sym (replay-append m es fs w.files),
  ),
)

-- The step writes no list; and it writes none if it raises.
unfoldable pub Quiet : Machine → Step → Type 0
Quiet m step = (w : World) → Accounted m w (step w).1

unfoldable pub Careful : Machine → Step → Type 0
Careful m step = (w : World) → is_some (step w).0 ≡ true → Accounted m w (step w).1

pub Quiet-Careful : (m : Machine) (step : Step) → Quiet m step → Careful m step
unfolding Quiet Careful
Quiet-Careful m step h w e = h w

pub Quiet-run : (m : Machine) (codes : List ℕ) (cmd : List String) → Quiet m (run m codes cmd)
unfolding Quiet run Accounted replay
Quiet-run m codes cmd w = by_end (run_with_retries cmd_retry_count codes (m.exit_code cmd)).0
  where
    attempts : ℕ
    attempts = (run_with_retries cmd_retry_count codes (m.exit_code cmd)).1

    after : World
    after = record {
      files = m.command_files cmd attempts w.files;
      log = w.log ++ ran cmd attempts ∷ [];
    }

    by_end :
        (e : Ended)
        → Accounted m w
            (elim e as (λ x. Option Error × World) [
              | succeeded ↦ (none, after)
              | exited code ↦ (some (called_process_error code), after)
              | still_running ↦ (some endless, after)
            ]).1
    by_end succeeded = (ran cmd attempts ∷ [], (refl, refl))
    by_end (exited code) = (ran cmd attempts ∷ [], (refl, refl))
    by_end still_running = (ran cmd attempts ∷ [], (refl, refl))

pub Quiet-apt_install : (m : Machine) (packages : List String) → Quiet m (apt_install m packages)
unfolding apt_install Quiet
Quiet-apt_install m [] w = Accounted-refl m w
Quiet-apt_install m (p ∷ packages) w = Quiet-run m (1 ∷ 100 ∷ []) _ w

Quiet-either :
    (m : Machine) (b : Bool) (first second : Step)
    → Quiet m first
    → Quiet m second
    → Quiet m (λ w. if b then first w else second w)
Quiet-either m true first second q r = q
Quiet-either m false first second q r = r

Quiet-do_nothing : (m : Machine) → Quiet m do_nothing
unfolding Quiet
Quiet-do_nothing m w = Accounted-refl m w

Quiet-raise : (m : Machine) (e : Error) → Quiet m (raise e)
unfolding Quiet
Quiet-raise m e w = Accounted-refl m w

pub Quiet-verify_is_ubuntu_rel :
    (m : Machine) (release : String) → Quiet m (verify_is_ubuntu_rel m release)
unfolding verify_is_ubuntu_rel
Quiet-verify_is_ubuntu_rel m release =
    Quiet-either m (str_eq release m.codename) do_nothing (raise source_config_error)
      (Quiet-do_nothing m) (Quiet-raise m source_config_error)

Quiet-write_apt_gpg_keyfile :
    (m : Machine) (name material : String) → Quiet m (write_apt_gpg_keyfile name material)
unfolding Quiet write_apt_gpg_keyfile Accounted replay
Quiet-write_apt_gpg_keyfile m name material w = (keyed name material ∷ [], (refl, refl))

Quiet-or_gpg_error :
    (m : Machine) (o : Option String) (next : String → Step)
    → ((x : String) → Quiet m (next x))
    → Quiet m (or_gpg_error o next)
unfolding Quiet
Quiet-or_gpg_error m none next q w = Accounted-refl m w
Quiet-or_gpg_error m (some x) next q w = q x w

Quiet-import_key : (m : Machine) (key : String) → Quiet m (import_key m key)
unfolding import_key
Quiet-import_key m given =
    by_form (occurs_in "-" key || occurs_in "\n" key)
      (occurs_in "-----BEGIN PGP PUBLIC KEY BLOCK-----" key
        && occurs_in "-----END PGP PUBLIC KEY BLOCK-----" key)
      (m.keyserver key)
  where
    key : String
    key = strip_text given

    armored : Step
    armored =
        or_gpg_error (m.fingerprint key)
          (λ name. or_gpg_error (m.dearmor key) (λ material. write_apt_gpg_keyfile name material))

    by_form :
        (a b : Bool) (answer : ℕ ⊎ String)
        → Quiet m (
            if a then if b then armored else raise gpg_key_error else elim answer as (λ _. Step) [
              | inl code ↦ raise (called_process_error code)
              | inr key_asc ↦
                  or_gpg_error (m.dearmor key_asc) (λ material. write_apt_gpg_keyfile key material)
            ])
    by_form true true answer = Quiet-or_gpg_error m (m.fingerprint key) _ (λ name.
        Quiet-or_gpg_error m (m.dearmor key) _
          (λ material. Quiet-write_apt_gpg_keyfile m name material))
    by_form true false answer = Quiet-raise m gpg_key_error
    by_form false b (inl code) = Quiet-raise m (called_process_error code)
    by_form false b (inr key_asc) =
        Quiet-or_gpg_error m (m.dearmor key_asc) _
          (λ material. Quiet-write_apt_gpg_keyfile m key material)

as_config_error-world : (r : Option Error × World) → (as_config_error r).1 ≡ r.1
as_config_error-world (none, w) = refl
as_config_error-world (some gpg_key_error, w) = refl
as_config_error-world (some source_config_error, w) = refl
as_config_error-world (some (called_process_error code), w) = refl
as_config_error-world (some endless, w) = refl

Quiet-as_config_error :
    (m : Machine) (key : String) → Quiet m (λ w. as_config_error (import_key m key w))
unfolding Quiet
Quiet-as_config_error m key w =
    subst (Accounted m w) (sym (as_config_error-world (import_key m key w)))
      (Quiet-import_key m key w)

pub Quiet-import_given : (m : Machine) (key : Option String) → Quiet m (import_given m key)
unfolding import_given
Quiet-import_given m none = Quiet-do_nothing m
Quiet-import_given m (some key) =
    Quiet-either m (str_eq key "") do_nothing (λ w. as_config_error (import_key m key w))
      (Quiet-do_nothing m) (Quiet-as_config_error m key)

pub then_returned :
    (first next : Step) (w : World) → (first w).0 ≡ none → (first >> next) w ≡ next (first w).1
then_returned first next w h = by_first (first w).0 h
  where
    by_first :
        (o : Option Error)
        → o ≡ none
        → (elim o as (λ x. Option Error × World) [ some e ↦ first w | none ↦ next (first w).1 ])
          ≡ next (first w).1
    by_first o h = rw (h) refl

pub then_raised :
    (first next : Step) (w : World) (e : Error) → (first w).0 ≡ some e → (first >> next) w ≡ first w
then_raised first next w e h = by_first (first w).0 h
  where
    by_first :
        (o : Option Error)
        → o ≡ some e
        → (elim o as (λ x. Option Error × World) [ some e ↦ first w | none ↦ next (first w).1 ])
          ≡ first w
    by_first o h = rw (h) refl
