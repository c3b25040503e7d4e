-- ===== src/UnitData/Plain.antt =====
-- charmhelpers/core/unitdata.py against a plain map from keys to values, outside `hook_scope`, for keys
-- without capitals.
use charm_helpers.Prelude.{
  String, ◌≡◌, refl, sym, ap, ◌∙◌, List, [], ◌∷◌, Bool, true, false, Option, none, some, str_eq,
  eq_iff, if◌then◌else◌, elem, Dict, codes, is_prefix, is_some, subst, ◌&&◌,
}
use Prim.Native.String.{◌++◌ as append}
use mathlib.Core.Bool.{false≢true}
use charm_helpers.UnitData.{
  Storage, returned, set, update, unset, unset_keys, unset_prefix, prefixed,
}
use charm_helpers.UnitData.Like.{like, prefix_pattern, no_upper, no_wildcard, like-is_prefix}
use charm_helpers.UnitData.Scope.{
  Op, set_op, update_op, unset_op, unset_keys_op, unset_prefix_op, fail, exit, perform, perform_all,
}
use charm_helpers.UnitData.Shown.{
  Plain, plain_update, replay_one, replay, Shows, set-Shows, update-Shows, unset-Shows,
  unset_keys-Shows, unset_prefix-Shows, then-Agrees,
}

both_true : (a b : Bool) → (a && b) ≡ true → (a ≡ true) × (b ≡ true)
both_true true true e = (refl, refl)
both_true true false e = absurd (false≢true e)
both_true false b e = absurd (false≢true e)

-- No key has a capital: of the map, and of those that the operations set. A prefix of keys to be
-- removed has no capitals and no wildcards of LIKE either.
unfoldable pub Lower : Plain → Type 0
Lower m = (j : String) → is_some (m j) ≡ true → no_upper (codes j) ≡ true

abbrev pub lower_keys : Dict String → String → Bool
lower_keys [] prefix = true
lower_keys ((k, v) ∷ d) prefix = no_upper (codes (append prefix k)) && lower_keys d prefix

abbrev pub is_lower : Op → Bool
is_lower (set_op k v) = no_upper (codes k)
is_lower (update_op d p) = lower_keys d p
is_lower (unset_op k) = true
is_lower (unset_keys_op ks p) = true
is_lower (unset_prefix_op p) = no_wildcard (codes p) && no_upper (codes p)
is_lower fail = true
is_lower exit = true

abbrev pub all_lower : List Op → Bool
all_lower [] = true
all_lower (o ∷ ops) = is_lower o && all_lower ops

Lower-set :
    (k v : String) (m : Plain)
    → no_upper (codes k) ≡ true
    → Lower m
    → Lower (λ j. if str_eq k j then some v else m j)
unfolding Lower
Lower-set k v m u h j = by_key (str_eq k j) (λ e. (eq_iff k j).0 e) (h j)
  where
    by_key :
        (b : Bool)
        → (b ≡ true → k ≡ j)
        → (is_some (m j) ≡ true → no_upper (codes j) ≡ true)
        → is_some (if b then some v else m j) ≡ true
        → no_upper (codes j) ≡ true
    by_key true same old e = subst (λ x. no_upper (codes x) ≡ true) (same refl) u
    by_key false same old e = old e

Lower-update :
    (d : Dict String) (p : String) (m : Plain)
    → lower_keys d p ≡ true
    → Lower m
    → Lower (plain_update d p m)
unfolding plain_update
Lower-update [] p m u h = h
Lower-update ((k, v) ∷ d) p m u h =
    let (a, b) = both_true (no_upper (codes (append p k))) (lower_keys d p) u in
    Lower-update d p _ b (Lower-set (append p k) v m a h)

Lower-removed :
    (gone : String → Bool) (m : Plain) → Lower m → Lower (λ j. if gone j then none else m j)
unfolding Lower
Lower-removed gone m h j = by_key (gone j) (h j)
  where
    by_key :
        (b : Bool)
        → (is_some (m j) ≡ true → no_upper (codes j) ≡ true)
        → is_some (if b then none else m j) ≡ true
        → no_upper (codes j) ≡ true
    by_key true old e = absurd (false≢true e)
    by_key false old e = old e

none_either : (b : Bool) → if◌then◌else◌ {A = Option String} b none none ≡ none
none_either true = refl
none_either false = refl

Shows-same : (s : Storage) (m m1 : Plain) → ((j : String) → m j ≡ m1 j) → Shows s m → Shows s m1
unfolding Shows
Shows-same s m m1 e h = (h.0, λ j. h.1 j ∙ e j)

-- on keys without capitals the pattern of a prefix removes what the plain map removes
prefix_removes :
    (p : String) (m : Plain)
    → is_lower (unset_prefix_op p) ≡ true
    → Lower m
    → (j : String)
    → (if like (prefix_pattern p) j then none else m j)
      ≡ (if is_prefix (codes p) (codes j) then none else m j)
unfolding Lower
prefix_removes p m u h j =
    let (w, v) = both_true (no_wildcard (codes p)) (no_upper (codes p)) u in
    by_value (m j) (λ e. like-is_prefix p j w v (h j e))
  where
    by_value :
        (o : Option String)
        → (is_some o ≡ true → like (prefix_pattern p) j ≡ is_prefix (codes p) (codes j))
        → (if like (prefix_pattern p) j then none else o)
          ≡ (if is_prefix (codes p) (codes j) then none else o)
    by_value none e =
        none_either (like (prefix_pattern p) j) ∙ sym (none_either (is_prefix (codes p) (codes j)))
    by_value (some v) e = ap (λ b. if b then none else some v) (e refl)

-- A storage that records no revision behaves as the plain map that it shows, where prefixes of keys
-- are what they say: after any operations every key has the value that the map has after the same
-- ones, and the run returns, or ends at the caller's own exception, where the map's does. No call of
-- the storage raises. This is for keys without capitals, and prefixes to be removed without capitals
-- and without the wildcards of LIKE.
pub perform_all-Agrees :
    (ops : List Op) (s : Storage) (m : Plain)
    → all_lower ops ≡ true
    → Lower m
    → Shows s m
    → ((perform_all ops s).0 ≡ (replay ops m).0) × Shows (perform_all ops s).1 (replay ops m).1
unfolding perform_all perform replay replay_one set
perform_all-Agrees [] s m u l h = (refl, h)
perform_all-Agrees (fail ∷ ops) s m u l h = (refl, h)
perform_all-Agrees (exit ∷ ops) s m u l h = (refl, h)
perform_all-Agrees (set_op k v ∷ ops) s m u l h =
    let (a, b) = both_true (no_upper (codes k)) (all_lower ops) u in
    then-Agrees (set k v) s ops _ (refl, set-Shows k v s m h)
      (perform_all-Agrees ops (set k v s).1 _ b (Lower-set k v m a l) (set-Shows k v s m h))
perform_all-Agrees (update_op d p ∷ ops) s m u l h =
    let (a, b) = both_true (lower_keys d p) (all_lower ops) u in
    let step = update-Shows d p s m h in
    then-Agrees (update d p) s ops _ step
      (perform_all-Agrees ops (update d p s).1 _ b (Lower-update d p m a l) step.1)
perform_all-Agrees (unset_op k ∷ ops) s m u l h =
    let step = unset-Shows k s m h in
    then-Agrees (unset k) s ops _ step
      (perform_all-Agrees ops (unset k s).1 _ u (Lower-removed (str_eq k) m l) step.1)
perform_all-Agrees (unset_keys_op ks p ∷ ops) s m u l h =
    let step = unset_keys-Shows ks p s m h in
    then-Agrees (unset_keys ks p) s ops _ step (
      perform_all-Agrees ops (unset_keys ks p s).1 _ u
        (Lower-removed (λ j. elem j (prefixed p ks)) m l) step.1)
perform_all-Agrees (unset_prefix_op p ∷ ops) s m u l h =
    let (a, b) = both_true (is_lower (unset_prefix_op p)) (all_lower ops) u in
    let done = unset_prefix-Shows p s m h in
    let step : ((unset_prefix p s).0 ≡ returned)
        × Shows (unset_prefix p s).1 (replay_one (unset_prefix_op p) m) =
      (done.0, Shows-same (unset_prefix p s).1 _ _ (prefix_removes p m a l) done.1) in
    then-Agrees (unset_prefix p) s ops _ step (
      perform_all-Agrees ops (unset_prefix p s).1 _ b
        (Lower-removed (λ j. is_prefix (codes p) (codes j)) m l) step.1)
