-- ===== src/Fetch/Pockets.antt =====
-- charmhelpers/fetch/ubuntu.py: what the sources do to the files of apt.
use charm_helpers.Prelude.{
  String, ◌≡◌, refl, sym, ap, ◌∙◌, [], ◌∷◌, Bool, true, false, Option, none, some, is_some, str_eq,
  if◌then◌else◌, Dict, lookup, contains, subst, eq_refl, occurs_in,
}
use mathlib.Core.Bool.{false≢true}
use charm_helpers.Fetch.{
  Machine, World, Step, ◌>>◌, do_nothing, raise, apt_install, add_proposed, proposed_pocket,
  add_apt_repository, add_cloud_pocket, verify_is_ubuntu_rel, add_cloud_staging,
  add_cloud_distro_check, add_bare_helper, add_bare_openstack, add_bare_openstack_proposed,
  bare_pocket, filter_installed_packages, cloud_archive, write_list, Error, source_config_error,
}
use charm_helpers.Fetch.Sources.{
  Source, distro, proposed, repository, staging, distro_check, cloud_pocket, bare_proposed, bare,
  unknown, is_known, parse_source, import_given, handler, add_source,
}
use charm_helpers.Fetch.Accounts.{
  Accounted, Accounted-refl, Accounted-trans, Quiet, Careful, Quiet-Careful, Quiet-run,
  Quiet-apt_install, Quiet-verify_is_ubuntu_rel, Quiet-import_given, then_returned, then_raised,
}

-- a careful step after a quiet one
Careful-then :
    (m : Machine) (first next : Step) → Quiet m first → Careful m next → Careful m (first >> next)
unfolding Quiet Careful
Careful-then m first next q c w e = by_first (first w).0 refl e
  where
    by_first :
        (o : Option Error)
        → (first w).0 ≡ o
        → is_some ((first >> next) w).0 ≡ true
        → Accounted m w ((first >> next) w).1
    by_first (some f) h e =
        subst (λ r. Accounted m w r.1) (sym (then_raised first next w f h)) (q w)
    by_first none h e =
        subst (λ r. Accounted m w r.1) (sym (then_returned first next w h))
          (Accounted-trans m w (first w).1 (next (first w).1).1 (q w)
            (c (first w).1 (ap (λ r. is_some r.0) (sym (then_returned first next w h)) ∙ e)))

Careful-write_list :
    (m : Machine) (o : Option String) (file : String → String) (text : String → String)
    → Careful m (λ w. elim o as (λ x. Option Error × World) [
      | none ↦ raise source_config_error w
      | some s ↦ write_list (file s) (text s) w
    ])
unfolding Careful
Careful-write_list m none file text w e = Accounted-refl m w
Careful-write_list m (some s) file text w e = absurd (false≢true e)

Careful-add_proposed : (m : Machine) → Careful m (add_proposed m)
unfolding add_proposed
Careful-add_proposed m =
    Careful-write_list m (proposed_pocket m.arch m.codename) (λ s. "proposed.list") (λ s. s)

Careful-add_cloud_pocket :
    (m : Machine) (pockets : Dict String) (pocket : String)
    → Careful m (add_cloud_pocket m pockets pocket)
unfolding add_cloud_pocket
Careful-add_cloud_pocket m pockets pocket =
    Careful-then m (apt_install m (filter_installed_packages m ("ubuntu-cloud-keyring" ∷ []))) _
      (Quiet-apt_install m (filter_installed_packages m ("ubuntu-cloud-keyring" ∷ [])))
      (Careful-write_list m (lookup pocket pockets)
        (λ s. if occurs_in "ovn" pocket then "cloud-archive-ovn.list" else "cloud-archive.list")
        cloud_archive)

Careful-if :
    (m : Machine) (b : Bool) (first second : Step)
    → Careful m first
    → Careful m second
    → Careful m (λ w. if b then first w else second w)
Careful-if m true first second c d = c
Careful-if m false first second c d = d

Careful-either :
    (m : Machine) (b : Bool) (first second : Step)
    → Careful m first
    → Careful m second
    → Careful m (if b then first else second)
Careful-either m true first second c d = c
Careful-either m false first second c d = d

Careful-raise : (m : Machine) (e : Error) → Careful m (raise e)
unfolding Careful
Careful-raise m e w h = Accounted-refl m w

Careful-nothing : (m : Machine) → Careful m do_nothing
unfolding Careful
Careful-nothing m w h = Accounted-refl m w

Careful-of_release :
    (m : Machine) (o : Option String) (r : String) (last : Step)
    → Careful m last
    → Careful m (λ w. elim o as (λ x. Option Error × World) [
      | none ↦ raise source_config_error w
      | some x ↦ if str_eq x r then last w else raise source_config_error w
    ])
Careful-of_release m none r last c = Careful-raise m source_config_error
Careful-of_release m (some x) r last c =
    Careful-if m (str_eq x r) last (raise source_config_error) c
      (Careful-raise m source_config_error)

Careful-add_bare_helper :
    (m : Machine) (pockets releases : Dict String) (r pocket : String) (last : Step)
    → Careful m last
    → Careful m (add_bare_helper m pockets releases r pocket last)
unfolding add_bare_helper
Careful-add_bare_helper m pockets releases r pocket last c =
    Careful-if m (contains pocket pockets) (add_cloud_pocket m pockets pocket) _
      (Careful-add_cloud_pocket m pockets pocket)
      (Careful-of_release m (lookup m.codename releases) r last c)

Careful-handler :
    (m : Machine) (pockets releases : Dict String) (s : Source)
    → Careful m (handler m pockets releases s)
unfolding handler add_apt_repository add_cloud_staging add_cloud_distro_check add_bare_openstack
    add_bare_openstack_proposed
Careful-handler m pockets releases distro = Careful-nothing m
Careful-handler m pockets releases proposed = Careful-add_proposed m
Careful-handler m pockets releases (repository spec) = Quiet-Careful m _ (Quiet-run m (1 ∷ []) _)
Careful-handler m pockets releases (staging a b) =
    Careful-then m (verify_is_ubuntu_rel m a) _ (Quiet-verify_is_ubuntu_rel m a)
      (Quiet-Careful m _ (Quiet-run m (1 ∷ []) _))
Careful-handler m pockets releases (distro_check a b) =
    Careful-then m (verify_is_ubuntu_rel m a) _ (Quiet-verify_is_ubuntu_rel m a)
      (Careful-add_cloud_pocket m pockets _)
Careful-handler m pockets releases (cloud_pocket p) = Careful-add_cloud_pocket m pockets p
Careful-handler m pockets releases (bare_proposed r) =
    Careful-add_bare_helper m pockets releases r _ (add_proposed m) (Careful-add_proposed m)
Careful-handler m pockets releases (bare r) =
    Careful-add_bare_helper m pockets releases r _ do_nothing (Careful-nothing m)
Careful-handler m pockets releases unknown = Careful-nothing m

-- A call of `add_source` that raises has written no list of its own, whatever the source: the files
-- of apt are what the commands that were run, and the import of the key, have made of them in their
-- order.
pub add_source_keeps_files :
    (m : Machine) (pockets releases : Dict String) (source : String) (key : Option String)
    → (fail_invalid : Bool) (w : World)
    → is_some (add_source m pockets releases source key fail_invalid w).0 ≡ true
    → Accounted m w (add_source m pockets releases source key fail_invalid w).1
unfolding add_source Careful
add_source_keeps_files m pockets releases source key fail_invalid =
    Careful-either m (is_known (parse_source source))
      (import_given m key >> handler m pockets releases (parse_source source))
      (if fail_invalid then raise source_config_error else do_nothing)
      (Careful-then m (import_given m key) (handler m pockets releases (parse_source source))
        (Quiet-import_given m key) (Careful-handler m pockets releases (parse_source source)))
      (Careful-either m fail_invalid (raise source_config_error) do_nothing
        (Careful-raise m source_config_error) (Careful-nothing m))

-- The bare name of a release, whose pocket for the codename of the machine is known, does what the
-- pocket of the cloud archive with the codename in front does.
pub add_bare_openstack_lem :
    (m : Machine) (pockets releases : Dict String) (r : String) (w : World)
    → contains (bare_pocket m r) pockets ≡ true
    → handler m pockets releases (bare r) w
      ≡ handler m pockets releases (distro_check m.codename r) w
unfolding handler add_bare_openstack add_bare_helper add_cloud_distro_check verify_is_ubuntu_rel
add_bare_openstack_lem m pockets releases r w h =
    rw
      (
        h,
        eq_refl m.codename,
        add_bare_openstack,
        add_bare_helper,
        add_cloud_distro_check,
        verify_is_ubuntu_rel,
      )
      refl
