-- ===== src/Host/Restart/Once.antt =====
-- charmhelpers/core/host.py: how often `restart_on_change_helper` restarts a service.
use charm_helpers.Prelude.{
  ℕ, suc, ◌+◌, String, ◌≡◌, refl, List, [], ◌∷◌, ◌++◌, Bool, true, false, not, ◌&&◌, Option, arith,
  str_eq, eq_iff, if◌then◌else◌, elem, elem-append, Dict, contains, Bool-cases, inl, inr, same_text,
}
use charm_helpers.Prelude.{eq_iff, elem-append, Bool-cases, inl, inr, arith, same_text}
use charm_helpers.Host.Restart.{
  stop, start, restart, Call, service, restart_function, pre_restarts_wait, post_svc_restart,
  Options, checksums, has_changed, restarts, count_of, changed_files, unique_onto, permits,
  restart_calls, all_calls, restart_all, post_restart_calls, restart_on_change,
}

count_of-append :
    (x y : String) (xs : List String)
    → count_of x (xs ++ y ∷ []) ≡ count_of x xs + (if str_eq y x then 1 else 0)
unfolding count_of
count_of-append x y [] = ground arith
count_of-append x y (z ∷ xs) = ground (arith, count_of-append x y xs)

count_of-absent : (x : String) (xs : List String) → elem x xs ≡ false → count_of x xs ≡ 0
unfolding count_of
count_of-absent x [] h = refl
count_of-absent x (y ∷ xs) h = ground (arith, count_of-absent x xs, eq_iff x y, eq_iff y x)

-- No name comes twice, and none is lost.
count_of-unique_onto :
    (x : String) (xs seen : List String)
    → count_of x (unique_onto xs seen)
      ≡ (if elem x seen then count_of x seen else if elem x xs then 1 else 0)
unfolding unique_onto
count_of-unique_onto x [] seen = ground (arith, count_of-absent x seen)
count_of-unique_onto x (y ∷ xs) seen = ground (
  arith,
  count_of-unique_onto x xs seen,
  count_of-unique_onto x xs (seen ++ y ∷ []),
  elem-append x seen (y ∷ []),
  count_of-append x y seen,
  count_of-absent x seen,
  eq_iff x y,
  eq_iff y x,
)

-- how often the service itself is restarted, as a plain restart or as a start after a stop
pub count_restarts : String → List Call → ℕ
count_restarts svc [] = 0
count_restarts svc (service restart s ∷ cs) =
    let n = count_restarts svc cs in if str_eq s svc then suc n else n
count_restarts svc (service start s ∷ cs) =
    let n = count_restarts svc cs in if str_eq s svc then suc n else n
count_restarts svc (service stop s ∷ cs) = count_restarts svc cs
count_restarts svc (restart_function s ∷ cs) =
    let n = count_restarts svc cs in if str_eq s svc then suc n else n
count_restarts svc (pre_restarts_wait ∷ cs) = count_restarts svc cs
count_restarts svc (post_svc_restart s ∷ cs) = count_restarts svc cs

count_restarts-restart_calls :
    (svc s : String) (o : Options) (files : List String) (cs : List Call)
    → count_restarts svc (restart_calls o s files ++ cs)
      ≡ (if str_eq s svc && permits o s files then 1 else 0) + count_restarts svc cs
unfolding count_restarts restart_calls
count_restarts-restart_calls svc s o files cs = ground arith

count_restarts-all_calls :
    (svc : String) (o : Options) (files : String → List String) (svcs : List String)
    → count_restarts svc (all_calls o files svcs)
      ≡ (if permits o svc (files svc) then count_of svc svcs else 0)
unfolding all_calls count_of count_restarts
count_restarts-all_calls svc o files [] = either (permits o svc (files svc))
  where
    either : (b : Bool) → ◌≡◌ {A = ℕ} 0 (if b then 0 else 0)
    either true = refl
    either false = refl
count_restarts-all_calls svc o files (s ∷ svcs) = ground (
  arith,
  count_restarts-restart_calls svc s o (files s) (all_calls o files svcs),
  count_restarts-all_calls svc o files svcs,
  eq_iff s svc,
)

count_restarts-restart_all :
    (svc : String) (o : Options) (files : String → List String) (svcs : List String)
    → count_restarts svc (restart_all o files svcs) ≡ count_restarts svc (all_calls o files svcs)
unfolding restart_all count_restarts all_calls
count_restarts-restart_all svc o files [] = refl
count_restarts-restart_all svc o files (s ∷ svcs) = ground arith

-- A service of the map that a changed file names and that may restart now is restarted exactly
-- once, by whatever means the options choose and however many files changed; every other service is
-- not restarted.
pub restart_on_change_once :
    (svc : String) (o : Options) (before after : String → Option String) (m : Dict (List String))
    → let is_changed = has_changed after (checksums before m) in
      count_restarts svc (restart_on_change o before after m) ≡ (
        if elem svc (restarts is_changed m) && permits o svc (changed_files is_changed svc m)
        then 1
        else 0)
unfolding restart_on_change post_restart_calls
restart_on_change_once svc o before after m =
    let is_changed : String → Bool = has_changed after (checksums before m) in
    let files : String → List String = λ s. changed_files is_changed s m in
    let svcs : List String = unique_onto (restarts is_changed m) [] in
    ground (
      arith,
      count_restarts-restart_all svc o files svcs,
      count_restarts-all_calls svc o files svcs,
      count_of-unique_onto svc (restarts is_changed m) [],
    )

-- A path of the map counts as changed exactly if its hash differs from the one before.
pub has_changed-checksums :
    (before after : String → Option String) (m : Dict (List String)) (path : String)
    → contains path m ≡ true
    → has_changed after (checksums before m) path ≡ not (same_text (after path) (before path))
unfolding has_changed checksums
has_changed-checksums before after [] path h = ground arith
has_changed-checksums before after ((p, s) ∷ m) path h = elim (Bool-cases (str_eq p path)) [
  | inl e ↦ ground (arith, e, eq_iff p path)
  | inr e ↦ ground (arith, e, h, has_changed-checksums before after m path)
]
