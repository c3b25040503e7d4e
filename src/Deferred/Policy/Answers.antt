-- ===== src/Deferred/Policy/Answers.antt =====
-- charmhelpers/contrib/openstack/files/policy_rc_d_script.py: what the script answers to a request.
use charm_helpers.Prelude.{
  ℕ, String, ◌≡◌, refl, ap, ◌∙◌, List, [], ◌∷◌, ◌++◌, Bool, true, false, ◌&&◌, ◌||◌, Option, none,
  some, arith, str_eq, if◌then◌else◌, any, select, elem, Dict, ◌>>=◌,
}
use charm_helpers.Deferred.Policy.{
  Policy, Record, Directory, bare_name, SystemPolicy, system_policies, read_policy_file,
  get_policies, is_blocking, get_blocking_policies, process_action_request, main_status,
  record_blocked_action,
}

-- the policy blocks the action on the service, whose name is bare
unfoldable pub blocks : String → String → Dict (List String) → Bool
blocks service action [] = false
blocks service action ((s, actions) ∷ d) =
    (str_eq (bare_name s) service && elem action actions) || blocks service action d

unfoldable pub any_blocks : String → String → Directory → Bool
any_blocks service action [] = false
any_blocks service action ((app, none) ∷ dir) = any_blocks service action dir
any_blocks service action ((app, some p) ∷ dir) =
    blocks service action p.blocked_actions || any_blocks service action dir

-- no file of the directory holds the empty dictionary
unfoldable pub is_readable : Directory → Bool
is_readable [] = true
is_readable ((app, none) ∷ dir) = false
is_readable ((app, some p) ∷ dir) = is_readable dir

any-append :
    {A : Type 0} (p : A → Bool) (xs ys : List A) → any p (xs ++ ys) ≡ (any p xs || any p ys)
any-append p [] ys = refl
any-append p (x ∷ xs) ys = ground (arith, any-append p xs ys)

any-system_policies :
    (service action : String) (p : Policy) (d : Dict (List String))
    → any (is_blocking service action) (system_policies p d) ≡ blocks service action d
unfolding system_policies blocks
any-system_policies service action p [] = refl
any-system_policies service action p ((s, actions) ∷ d) =
    ap (λ b. (str_eq (bare_name s) service && elem action actions) || b)
      (any-system_policies service action p d)

-- the exit status of the script, by whether some policy blocks the action
abbrev pub code : Bool → Option ℕ
code b = some (if b then 101 else 0)

status_of : String → String → Option (List SystemPolicy) → Option ℕ
status_of service action none = none
status_of service action (some ps) = code (any (is_blocking service action) ps)

-- one more file in the directory
status_of-read :
    (service action : String) (app : String) (file : Option Policy) (dir : Directory)
    → status_of service action (get_policies dir)
      ≡ (if is_readable dir then code (any_blocks service action dir) else none)
    → status_of service action (get_policies ((app, file) ∷ dir)) ≡ (
        if is_readable ((app, file) ∷ dir)
        then code (any_blocks service action ((app, file) ∷ dir))
        else none)
unfolding get_policies read_policy_file is_readable any_blocks status_of
status_of-read service action app none dir h = refl
status_of-read service action app (some p) dir h =
    read (get_policies dir) (is_readable dir) (any_blocks service action dir) h
    ∙ ap (λ c. if is_readable dir then code (c || any_blocks service action dir) else none)
        (any-system_policies service action p p.blocked_actions)
  where
    here : Bool
    here = any (is_blocking service action) (system_policies p p.blocked_actions)

    either : (c : Bool) (x b : Bool) → code x ≡ code b → code (c || x) ≡ code (c || b)
    either true x b h = refl
    either false x b h = h

    read :
        (o : Option (List SystemPolicy)) (r b : Bool)
        → status_of service action o ≡ (if r then code b else none)
        → status_of service action (o >>= (λ qs. some (system_policies p p.blocked_actions ++ qs)))
          ≡ (if r then code (here || b) else none)
    read none true b h = cc
    read none false b h = refl
    read (some qs) true b h =
        ap code (any-append (is_blocking service action) (system_policies p p.blocked_actions) qs)
        ∙ either here _ b h
    read (some qs) false b h = cc

main_status-get_policies :
    (now : ℕ) (service action : String) (dir : Directory)
    → main_status now service action dir ≡ status_of (bare_name service) action (get_policies dir)
unfolding main_status process_action_request get_blocking_policies status_of record_blocked_action
main_status-get_policies now service action dir = answered (get_policies dir)
  where
    asked : SystemPolicy → Bool
    asked = is_blocking (bare_name service) action

    decide : List SystemPolicy → Bool × List Record
    decide ps = elim ps [
      | [] ↦ (true, [])
      | q ∷ qs ↦ (false, record_blocked_action now service action (q ∷ qs))
    ]

    step :
        (b : Bool) (p : SystemPolicy) (ps : List SystemPolicy)
        → ◌≡◌ {A = ℕ}
            (if (decide (select asked ps)).0 then 0 else 101)
            (if any asked ps then 101 else 0)
        → ◌≡◌ {A = ℕ}
            (if (decide (if b then p ∷ select asked ps else select asked ps)).0 then 0 else 101)
            (if b || any asked ps then 101 else 0)
    step true p ps h = refl
    step false p ps h = h

    status :
        (ps : List SystemPolicy)
        → ◌≡◌ {A = ℕ}
            (if (decide (select asked ps)).0 then 0 else 101)
            (if any asked ps then 101 else 0)
    status [] = refl
    status (p ∷ ps) = step (asked p) p ps (status ps)

    answered :
        (o : Option (List SystemPolicy))
        → ((o >>= (λ ps. some (select asked ps))) >>= (λ ps. some (decide ps)))
            >>= (λ r. some (if r.0 then 0 else 101))
          ≡ status_of (bare_name service) action o
    answered none = refl
    answered (some ps) = ap some (status ps)

pub main_status_lem :
    (now : ℕ) (service action : String) (dir : Directory)
    → main_status now service action dir
      ≡ (if is_readable dir then code (any_blocks (bare_name service) action dir) else none)
unfolding is_readable status_of get_policies any_blocks
main_status_lem now service action dir =
    main_status-get_policies now service action dir ∙ readable dir
  where
    readable :
        (dir : Directory)
        → status_of (bare_name service) action (get_policies dir)
          ≡ (if is_readable dir then code (any_blocks (bare_name service) action dir) else none)
    readable [] = refl
    readable ((app, file) ∷ dir) =
        status_of-read (bare_name service) action app file dir (readable dir)
