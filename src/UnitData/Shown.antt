-- ===== src/UnitData/Shown.antt =====
-- charmhelpers/core/unitdata.py: what a storage shows of a plain map from keys to values, and keeps
-- showing through each operation, outside `hook_scope`.
use charm_helpers.Prelude.{
  ℕ, String, ◌≡◌, refl, ap, ◌∙◌, List, [], ◌∷◌, Bool, true, false, Option, none, some, arith,
  str_eq, eq_iff, if◌then◌else◌, elem, Dict, lookup, erase, lookup-erase, contains, inl, inr, codes,
  is_prefix,
}
use Prim.Native.String.{◌++◌ as append}
use charm_helpers.UnitData.{
  Storage, Outcome, returned, integrity_error, assertion_error, user_error, system_exit, recording,
  get, set, save_revision, update, unset, unset_keys, unset_prefix, record_deletion, erase_all,
  prefixed, not_like, contains_any, any_like, ◌>>◌, Call,
}
use charm_helpers.UnitData.Like.{like, prefix_pattern}
use charm_helpers.UnitData.Effects.{get-set, set_cases}
use charm_helpers.UnitData.Scope.{
  Op, set_op, update_op, unset_op, unset_keys_op, unset_prefix_op, fail, exit, perform_all,
}

-- the plain map
abbrev pub Plain : Type 0
Plain = String → Option String

unfoldable pub plain_update : Dict String → String → Plain → Plain
plain_update [] prefix m = m
plain_update ((k, v) ∷ d) prefix m =
    plain_update d prefix (λ j. if str_eq (append prefix k) j then some v else m j)

unfoldable pub replay_one : Op → Plain → Plain
unfolding plain_update
replay_one (set_op k v) m = λ j. if str_eq k j then some v else m j
replay_one (update_op d p) m = plain_update d p m
replay_one (unset_op k) m = λ j. if str_eq k j then none else m j
replay_one (unset_keys_op ks p) m = λ j. if elem j (prefixed p ks) then none else m j
replay_one (unset_prefix_op p) m = λ j. if is_prefix (codes p) (codes j) then none else m j
replay_one fail m = m
replay_one exit m = m

-- The operations up to an exception of the caller's own, on the plain map, and how they end.
unfoldable pub replay : List Op → Plain → Outcome × Plain
unfolding replay_one
replay [] m = (returned, m)
replay (fail ∷ ops) m = (user_error, m)
replay (exit ∷ ops) m = (system_exit, m)
replay (set_op k v ∷ ops) m = replay ops (replay_one (set_op k v) m)
replay (update_op d p ∷ ops) m = replay ops (replay_one (update_op d p) m)
replay (unset_op k ∷ ops) m = replay ops (replay_one (unset_op k) m)
replay (unset_keys_op ks p ∷ ops) m = replay ops (replay_one (unset_keys_op ks p) m)
replay (unset_prefix_op p ∷ ops) m = replay ops (replay_one (unset_prefix_op p) m)

-- The storage shows the map and records no revision.
unfoldable pub Shows : Storage → Plain → Type 0
Shows s m = (recording s ≡ none) × ((j : String) → get j s ≡ m j)

recording-save_revision :
    (k v : String) (s : Storage) → recording (save_revision k v s) ≡ recording s
unfolding save_revision
recording-save_revision k v s = ground arith

recording-set : (k v : String) (s : Storage) → recording (set k v s).1 ≡ recording s
recording-set k v s = elim (set_cases k v s) [
  | inl (_, e) ↦ ap recording e
  | inr (_, e) ↦ ap recording e ∙ recording-save_revision k v _
]

pub set-Shows :
    (k v : String) (s : Storage) (m : Plain)
    → Shows s m
    → Shows (set k v s).1 (λ j. if str_eq k j then some v else m j)
unfolding Shows
set-Shows k v s m (quiet, h) = (
  recording-set k v s ∙ quiet,
  λ j. get-set k v j s ∙ ap (λ o. if str_eq k j then some v else o) (h j),
)

pub update-Shows :
    (d : Dict String) (p : String) (s : Storage) (m : Plain)
    → Shows s m
    → ((update d p s).0 ≡ returned) × Shows (update d p s).1 (plain_update d p m)
unfolding update plain_update
update-Shows [] p s m h = (refl, h)
update-Shows ((k, v) ∷ d) p s m h =
    update-Shows d p (set (append p k) v s).1 _ (set-Shows (append p k) v s m h)

record_deletion-Shows :
    (removed : Bool) (ks : List String) (s : Storage) (m : Plain)
    → Shows s m
    → ((record_deletion removed ks s).0 ≡ returned) × Shows (record_deletion removed ks s).1 m
unfolding record_deletion Shows
record_deletion-Shows true ks s m (quiet, h) = rw (quiet, record_deletion) (refl, (quiet, h))
record_deletion-Shows false ks s m h = (refl, h)

lookup-erase_all :
    (ks : List String) (j : String) (d : Dict String)
    → lookup j (erase_all ks d) ≡ (if elem j ks then none else lookup j d)
unfolding erase_all
lookup-erase_all [] j d = refl
lookup-erase_all (k ∷ ks) j d =
    ground (arith, lookup-erase_all ks j (erase k d), lookup-erase k j d, eq_iff k j, eq_iff j k)

lookup-not_like :
    (pattern : List ℕ) (j : String) (d : Dict String)
    → lookup j (not_like pattern d) ≡ (if like pattern j then none else lookup j d)
unfolding not_like
lookup-not_like pattern j [] = ground arith
lookup-not_like pattern j ((k, v) ∷ d) =
    ground (arith, lookup-not_like pattern j d, eq_iff k j, like_same)
  where
    like_same : k ≡ j → like pattern k ≡ like pattern j
    like_same e = ap (like pattern) e

-- the storage with other rows
with_kv : Dict String → Storage → Storage
with_kv d s = record s { work = record s.work { kv = d } }

with_kv-Shows :
    (d : Dict String) (s : Storage) (m m1 : Plain)
    → Shows s m
    → ((j : String) → lookup j d ≡ m1 j)
    → Shows (with_kv d s) m1
unfolding with_kv Shows get
with_kv-Shows d s m m1 h k = (h.0, k)

shown : (s : Storage) (m : Plain) → Shows s m → (j : String) → lookup j s.work.kv ≡ m j
unfolding Shows get
shown s m h = h.1

pub unset-Shows :
    (k : String) (s : Storage) (m : Plain)
    → Shows s m
    → ((unset k s).0 ≡ returned) × Shows (unset k s).1 (λ j. if str_eq k j then none else m j)
unfolding unset with_kv
unset-Shows k s m h =
    record_deletion-Shows (contains k s.work.kv) (k ∷ []) (with_kv (erase k s.work.kv) s) _ (
      with_kv-Shows (erase k s.work.kv) s m _ h (λ j.
        lookup-erase k j s.work.kv ∙ ap (λ o. if str_eq k j then none else o) (shown s m h j)))

pub unset_keys-Shows :
    (ks : List String) (p : String) (s : Storage) (m : Plain)
    → Shows s m
    → ((unset_keys ks p s).0 ≡ returned)
      × Shows (unset_keys ks p s).1 (λ j. if elem j (prefixed p ks) then none else m j)
unfolding unset_keys with_kv
unset_keys-Shows ks p s m h =
    record_deletion-Shows (contains_any (prefixed p ks) s.work.kv) (prefixed p ks)
      (with_kv (erase_all (prefixed p ks) s.work.kv) s) _
      (with_kv-Shows (erase_all (prefixed p ks) s.work.kv) s m _ h (λ j.
        lookup-erase_all (prefixed p ks) j s.work.kv
        ∙ ap (λ o. if elem j (prefixed p ks) then none else o) (shown s m h j)))

pub unset_prefix-Shows :
    (p : String) (s : Storage) (m : Plain)
    → Shows s m
    → ((unset_prefix p s).0 ≡ returned)
      × Shows (unset_prefix p s).1 (λ j. if like (prefix_pattern p) j then none else m j)
unfolding unset_prefix with_kv
unset_prefix-Shows p s m h =
    record_deletion-Shows (any_like (prefix_pattern p) s.work.kv) (append p "%" ∷ [])
      (with_kv (not_like (prefix_pattern p) s.work.kv) s) _
      (with_kv-Shows (not_like (prefix_pattern p) s.work.kv) s m _ h (λ j.
        lookup-not_like (prefix_pattern p) j s.work.kv
        ∙ ap (λ o. if like (prefix_pattern p) j then none else o) (shown s m h j)))

-- how a run and its replay agree
abbrev pub Agrees : Outcome × Storage → Outcome × Plain → Type 0
Agrees (r, s) (q, m) = (r ≡ q) × Shows s m

pub then_returned :
    (call next : Call) (s : Storage) → (call s).0 ≡ returned → (call >> next) s ≡ next (call s).1
then_returned call next s h = by_outcome (call s).0 h
  where
    by_outcome :
        (r : Outcome)
        → r ≡ returned
        → (elim r as (λ x. Outcome × Storage) [
          | returned ↦ next (call s).1
          | integrity_error ↦ (integrity_error, (call s).1)
          | assertion_error ↦ (assertion_error, (call s).1)
          | user_error ↦ (user_error, (call s).1)
          | system_exit ↦ (system_exit, (call s).1)
        ])
          ≡ next (call s).1
    by_outcome r e = rw (e) refl

pub then-Agrees :
    (call : Call) (s : Storage) (ops : List Op) (m : Plain)
    → ((call s).0 ≡ returned) × Shows (call s).1 m
    → Agrees (perform_all ops (call s).1) (replay ops m)
    → Agrees ((call >> perform_all ops) s) (replay ops m)
then-Agrees call s ops m h k = rw (then_returned call (perform_all ops) s h.0) k
