-- ===== src/Deferred/Policy/Blocking.antt =====
-- charmhelpers/contrib/openstack/policy_rcd.py with files/policy_rc_d_script.py: what the script
-- answers after the charm has changed its policy.
use charm_helpers.Prelude.{
  ℕ, String, ◌≡◌, refl, ap, ◌∙◌, List, [], ◌∷◌, ◌++◌, Bool, true, false, ◌&&◌, ◌||◌, Option, none,
  some, arith, eq_iff, str_eq, if◌then◌else◌, elem, elem-append, sorted_set, elem-sorted_set, Dict,
  lookup, insert, or_else, Bool-cases, inl, inr,
}
use charm_helpers.Deferred.Policy.{
  Policy, Directory, read_default_policy_file, get_default_policy, block, add_policy_block,
  remove_policy_block, bare_name, main_status,
}
use charm_helpers.Deferred.Policy.Answers.{blocks, any_blocks, is_readable, code, main_status_lem}

blocks-insert :
    (service action s : String) (actions : List String) (d : Dict (List String))
    → blocks service action (insert s (sorted_set (or_else (lookup s d) [] ++ actions)) d)
      ≡ ((str_eq (bare_name s) service && elem action actions) || blocks service action d)
unfolding blocks
blocks-insert service action s actions [] = ground (arith, elem-sorted_set action actions)
blocks-insert service action s actions ((j, w) ∷ d) = elim (Bool-cases (str_eq j s)) [
  | inl h ↦
      ground
        (arith, h, eq_iff j s, elem-sorted_set action (w ++ actions), elem-append action w actions)
  | inr h ↦ ground (arith, h, blocks-insert service action s actions d)
]

is_readable-insert :
    (app : String) (p : Policy) (dir : Directory)
    → is_readable dir ≡ true
    → is_readable (insert app (some p) dir) ≡ true
unfolding is_readable
is_readable-insert app p [] h = refl
is_readable-insert app p ((a, none) ∷ dir) h = cc
is_readable-insert app p ((a, some q) ∷ dir) h = elim (Bool-cases (str_eq a app)) [
  | inl e ↦ rw (e) h
  | inr e ↦ rw (e) (is_readable-insert app p dir h)
]

is_readable-add :
    (app s : String) (actions : List String) (dir : Directory)
    → is_readable dir ≡ true
    → is_readable (add_policy_block app s actions dir) ≡ true
unfolding add_policy_block
is_readable-add app s actions dir h = is_readable-insert app _ dir h

read-own :
    (app a : String) (file : Option Policy) (dir : Directory)
    → str_eq a app ≡ true
    → read_default_policy_file app ((a, file) ∷ dir) ≡ file
unfolding read_default_policy_file
read-own app a none dir e = rw (e, read_default_policy_file) refl
read-own app a (some p) dir e = rw (e, read_default_policy_file) refl

read-other :
    (app a : String) (file : Option Policy) (dir : Directory)
    → str_eq a app ≡ false
    → read_default_policy_file app ((a, file) ∷ dir) ≡ read_default_policy_file app dir
unfolding read_default_policy_file
read-other app a file dir e = rw (e, read_default_policy_file) refl

-- A new file of the application that blocks what the old one did, or `more`.
any_blocks-insert :
    (service action app : String) (p : Policy) (more : Bool) (dir : Directory)
    → is_readable dir ≡ true
    → blocks service action p.blocked_actions ≡ (
        more
        || blocks service action
            (or_else (read_default_policy_file app dir) (get_default_policy app)).blocked_actions)
    → any_blocks service action (insert app (some p) dir) ≡ (more || any_blocks service action dir)
unfolding any_blocks is_readable blocks read_default_policy_file get_default_policy
any_blocks-insert service action app p more [] r h = ground (arith, h)
any_blocks-insert service action app p more ((a, none) ∷ dir) r h = cc
any_blocks-insert service action app p more ((a, some q) ∷ dir) r h =
    elim (Bool-cases (str_eq a app)) [
      | inl e ↦ rw (e) (
          ground (
            arith,
            h
                ∙ ap
                    (λ o.
                      more
                      || blocks service action (or_else o (get_default_policy app)).blocked_actions)
                    (read-own app a (some q) dir e),
          ))
      | inr e ↦ rw (e) (
          ground (
            arith,
            any_blocks-insert service action app p more dir r (
                h
                ∙ ap
                    (λ o.
                      more
                      || blocks service action (or_else o (get_default_policy app)).blocked_actions)
                    (read-other app a (some q) dir e)),
          ))
    ]

any_blocks-add :
    (service action app s : String) (actions : List String) (dir : Directory)
    → is_readable dir ≡ true
    → any_blocks service action (add_policy_block app s actions dir)
      ≡ ((str_eq (bare_name s) service && elem action actions) || any_blocks service action dir)
unfolding add_policy_block block
any_blocks-add service action app s actions dir h =
    any_blocks-insert service action app _ (str_eq (bare_name s) service && elem action actions) dir
      h (blocks-insert service action s actions _)

-- After the charm of an application has added a block, the script refuses an action with status 101
-- exactly if the block is of it, up to `.service` in the name of the service, or some policy blocked
-- it before, and permits it with status 0 otherwise. This is for a directory in which no file holds
-- the empty dictionary.
pub main_status-add_policy_block :
    (now : ℕ) (app s service action : String) (actions : List String) (dir : Directory)
    → is_readable dir ≡ true
    → main_status now service action (add_policy_block app s actions dir)
      ≡ some (
          if (str_eq (bare_name s) (bare_name service) && elem action actions)
            || any_blocks (bare_name service) action dir
          then 101
          else 0)
unfolding add_policy_block
main_status-add_policy_block now app s service action actions dir h =
    main_status_lem now service action (add_policy_block app s actions dir)
    ∙ ap
        (λ r.
          if r
          then code (any_blocks (bare_name service) action (add_policy_block app s actions dir))
          else none)
        (is_readable-add app s actions dir h)
    ∙ ap code (any_blocks-add (bare_name service) action app s actions dir h)

is_readable-unset : (app : String) (dir : Directory) → is_readable (insert app none dir) ≡ false
unfolding is_readable
is_readable-unset app [] = refl
is_readable-unset app ((a, none) ∷ dir) = elim (Bool-cases (str_eq a app)) [
  | inl e ↦ rw (e) refl
  | inr e ↦ rw (e) refl
]
is_readable-unset app ((a, some q) ∷ dir) = elim (Bool-cases (str_eq a app)) [
  | inl e ↦ rw (e) refl
  | inr e ↦ rw (e) (is_readable-unset app dir)
]

-- Where the application has no policy file, `remove_policy_block` writes one that holds the empty
-- dictionary, and from then on the script fails for every service and every action.
pub main_status-remove_policy_block :
    (now : ℕ) (app s service action : String) (unblocked : List String) (dir : Directory)
    → lookup app dir ≡ none
    → main_status now service action (remove_policy_block app s unblocked dir) ≡ none
unfolding remove_policy_block
main_status-remove_policy_block now app s service action unblocked dir h =
    ap (main_status now service action) removed
    ∙ main_status_lem now service action (insert app none dir)
    ∙ ap
        (λ r.
          if r then code (any_blocks (bare_name service) action (insert app none dir)) else none)
        (is_readable-unset app dir)
  where
    removed : remove_policy_block app s unblocked dir ≡ insert app none dir
    removed = rw (h, remove_policy_block) refl
