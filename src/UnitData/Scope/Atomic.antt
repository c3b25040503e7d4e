-- ===== src/UnitData/Scope/Atomic.antt =====
-- charmhelpers/core/unitdata.py, `hook_scope`: all of a hook's writes are kept, or none.
use Prim.Native.String.{◌++◌ as append}
use charm_helpers.Prelude.{
  ℕ, suc, String, ◌≡◌, refl, ◌∙◌, List, [], ◌∷◌, ◌++◌, Bool, true, false, none, some,
  some-injective, arith, Dict, contains, erase, Option-cases, Bool-cases, inl, inr,
}
use charm_helpers.UnitData.{
  Storage, Tables, Outcome, returned, integrity_error, assertion_error, user_error, system_exit,
  ◌>>◌, set, save_revision, update, unset, unset_keys, unset_prefix, record_deletion,
  insert_revisions, has_revision, recording, contains_any, any_like, erase_all, prefixed, not_like,
  new_revision, deleted, Revision,
}
use charm_helpers.UnitData.Effects.{written, set_cases}
use charm_helpers.UnitData.Revisions.{RowsUnique, save_revision-RowsUnique, append-RowsUnique}
use charm_helpers.UnitData.Like.{prefix_pattern}
use charm_helpers.UnitData.Scope.{
  Op, set_op, update_op, unset_op, unset_keys_op, unset_prefix_op, fail, exit, perform, perform_all,
  flush, open_revision, end_scope, hook_scope,
}

-- What every write of a hook leaves as it is, and the primary key that it keeps.
record Kept (s s' : Storage) : Type 0 where
  saved : s'.saved ≡ s.saved
  closed : s'.closed ≡ s.closed
  revision : s'.revision ≡ s.revision
  rows : RowsUnique s.work.revisions → RowsUnique s'.work.revisions

Kept-refl : (s : Storage) → Kept s s
Kept-refl s = record { saved = refl; closed = refl; revision = refl; rows = λ u. u }

Kept-trans : {s t u : Storage} → Kept s t → Kept t u → Kept s u
Kept-trans a b = record {
  saved = b.saved ∙ a.saved;
  closed = b.closed ∙ a.closed;
  revision = b.revision ∙ a.revision;
  rows = λ u. b.rows (a.rows u);
}

save_revision-Kept : (key value : String) (s : Storage) → Kept s (save_revision key value s)
save_revision-Kept key value s = record {
  saved = unfold save_revision in ground arith;
  closed = unfold save_revision in ground arith;
  revision = unfold save_revision in ground arith;
  rows = save_revision-RowsUnique key value s;
}

set-Kept : (key value : String) (s : Storage) → Kept s (set key value s).1
set-Kept key value s = elim (set_cases key value s) [
  | inl (_, unchanged) ↦ rw unchanged (Kept-refl s)
  | inr (_, changed) ↦ rw changed (go (save_revision-Kept key value (written key value s)))
]
  where
    go :
        Kept (written key value s) (save_revision key value (written key value s))
        → Kept s (save_revision key value (written key value s))
    go k = record { saved = k.saved; closed = k.closed; revision = k.revision; rows = k.rows }

update-Kept : (d : Dict String) (prefix : String) (s : Storage) → Kept s (update d prefix s).1
unfolding update
update-Kept [] prefix s = Kept-refl s
update-Kept ((k, v) ∷ d) prefix s =
    let s' = (set _ v s).1 in Kept-trans (set-Kept _ v s) (update-Kept d prefix s')

insert_revisions-RowsUnique :
    (ks : List String) (r : ℕ) (xs ys : List Revision)
    → insert_revisions ks r xs ≡ some ys
    → RowsUnique xs
    → RowsUnique ys
unfolding insert_revisions
insert_revisions-RowsUnique [] r xs ys h u = rw (← some-injective xs ys h) u
insert_revisions-RowsUnique (k ∷ ks) r xs ys h u = elim (Bool-cases (has_revision k r xs)) [
  | inl taken ↦ ground arith
  | inr free ↦
      insert_revisions-RowsUnique ks r (xs ++ new_revision k r deleted ∷ []) ys (ground arith)
        (append-RowsUnique (new_revision k r deleted) xs free u)
]

record_deletion-Kept :
    (b : Bool) (ks : List String) (s : Storage) → Kept s (record_deletion b ks s).1
unfolding record_deletion
record_deletion-Kept false ks s = Kept-refl s
record_deletion-Kept true ks s = elim (Option-cases (recording s)) [
  | inl off ↦ rw (off, record_deletion) (Kept-refl s)
  | inr (r, on) ↦ elim (Option-cases (insert_revisions ks r s.work.revisions)) [
    | inl clash ↦ rw (on, record_deletion) (rw clash (Kept-refl s))
    | inr (rows, done) ↦
        rw (on, record_deletion)
          (rw done (record {
            saved = refl;
            closed = refl;
            revision = refl;
            rows = λ u. insert_revisions-RowsUnique ks r s.work.revisions rows done u;
          }))
  ]
]

kv-Kept : (d : Dict String) (s : Storage) → Kept s (record s { work = record s.work { kv = d } })
kv-Kept d s = record { saved = refl; closed = refl; revision = refl; rows = λ u. u }

deletion-Kept :
    (b : Bool) (ks : List String) (d : Dict String) (s : Storage)
    → Kept s (record_deletion b ks (record s { work = record s.work { kv = d } })).1
deletion-Kept b ks d s =
    Kept-trans (kv-Kept d s)
      (record_deletion-Kept b ks (record s { work = record s.work { kv = d } }))

perform-Kept : (o : Op) (s : Storage) → Kept s (perform o s).1
unfolding perform unset unset_keys unset_prefix
perform-Kept (set_op k v) s = set-Kept k v s
perform-Kept (update_op d p) s = update-Kept d p s
perform-Kept (unset_op k) s = deletion-Kept (contains k s.work.kv) (k ∷ []) (erase k s.work.kv) s
perform-Kept (unset_keys_op ks p) s =
    let full = prefixed p ks in
    deletion-Kept (contains_any full s.work.kv) full (erase_all full s.work.kv) s
perform-Kept (unset_prefix_op p) s =
    let pattern = prefix_pattern p in
    deletion-Kept (any_like pattern s.work.kv) (append p "%" ∷ []) (not_like pattern s.work.kv) s
perform-Kept fail s = Kept-refl s
perform-Kept exit s = Kept-refl s

perform_all-Kept : (os : List Op) (s : Storage) → Kept s (perform_all os s).1
unfolding perform_all
perform_all-Kept [] s = Kept-refl s
perform_all-Kept (o ∷ os) s =
    go (perform o s) (perform-Kept o s) (perform_all-Kept os (perform o s).1)
  where
    go :
        (m : Outcome × Storage)
        → Kept s m.1
        → Kept m.1 (perform_all os m.1).1
        → Kept s (((λ _. m) >> perform_all os) s).1
    go (returned, s') a b = Kept-trans a b
    go (integrity_error, s') a b = a
    go (assertion_error, s') a b = a
    go (user_error, s') a b = a
    go (system_exit, s') a b = a

-- A scope was closed, and the committed tables are the given ones, with nothing uncommitted.
abbrev pub Settled : Tables → Storage → Type 0
Settled tables s = (s.revision ≡ none) × ((s.work ≡ s.saved) × (s.saved ≡ tables))

-- What holds when the body of a scope has ended, from the tables before it and after it, and the
-- revision that it opened.
abbrev pub Ended : Tables → Tables → ℕ → Outcome → Storage → Type 0
Ended old new version returned s = Settled new s
Ended old new version integrity_error s = Settled old s
Ended old new version assertion_error s = Settled old s
Ended old new version user_error s = Settled old s
Ended old new version system_exit s =
    (s.revision ≡ some version) × ((s.work ≡ new) × (s.saved ≡ old))

end_scope-Ended :
    (old : Tables) (version : ℕ) (m : Outcome × Storage)
    → m.1.saved ≡ old
    → m.1.closed ≡ false
    → m.1.revision ≡ some version
    → ((end_scope m).0 ≡ m.0) × Ended old m.1.work version m.0 (end_scope m).1
unfolding end_scope flush
end_scope-Ended old version (returned, s) saved usable opened = (refl, (refl, (refl, refl)))
end_scope-Ended old version (integrity_error, s) saved usable opened = ground arith
end_scope-Ended old version (assertion_error, s) saved usable opened = ground arith
end_scope-Ended old version (user_error, s) saved usable opened = ground arith
end_scope-Ended old version (system_exit, s) saved usable opened = (refl, (opened, (refl, saved)))

-- `hook_scope` around a hook that writes and may raise, on an open storage with no scope open. It
-- ends as the hook does. When the hook returns, its writes are committed; when it raises an
-- `Exception`, the committed tables are as before the scope; either way nothing is left uncommitted
-- and no scope stays open. A SystemExit of the hook is not caught: the committed tables are as
-- before, but the writes stay in the open transaction, and the scope stays open.
pub hook_scope_atomic :
    (name date : String) (os : List Op) (s : Storage)
    → s.revision ≡ none
    → s.closed ≡ false
    → ((hook_scope name date (perform_all os) s).0 ≡ (perform_all os (open_revision name date s)).0)
      × Ended s.saved
          (perform_all os (open_revision name date s)).1.work
          (suc s.work.sequence)
          (perform_all os (open_revision name date s)).0
          (hook_scope name date (perform_all os) s).1
unfolding hook_scope open_revision
hook_scope_atomic name date os s none_open usable =
    let begun = open_revision name date s in
    let k = perform_all-Kept os begun in
    let entered : hook_scope name date (perform_all os) s ≡ end_scope (perform_all os begun) =
      ground arith in
    rw entered (
      end_scope-Ended s.saved (suc s.work.sequence) (perform_all os begun) k.saved
        (k.closed ∙ usable) k.revision)

-- No write of a hook, alone or after others, raising or not, breaks the primary key of the
-- revisions: no two rows for one key and revision.
pub perform_all-RowsUnique :
    (os : List Op) (s : Storage)
    → RowsUnique s.work.revisions
    → RowsUnique (perform_all os s).1.work.revisions
perform_all-RowsUnique os s = (perform_all-Kept os s).rows
