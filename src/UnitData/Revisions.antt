-- ===== src/UnitData/Revisions.antt =====
-- charmhelpers/core/unitdata.py: the rows of `kv_revisions`.
use charm_helpers.Prelude.{
  ℕ, String, ◌≡◌, ◌≢◌, refl, sym, subst, ◌∙◌, List, [], ◌∷◌, ◌++◌, Bool, true, false, ◌&&◌, ◌||◌,
  Option, none, some, arith, ◌==◌, str_eq, eq_iff, eq_refl, if◌then◌else◌, contains, Bool-cases,
  inl, inr,
}
use charm_helpers.UnitData.Effects.{written, set_cases, get-set}
use charm_helpers.UnitData.{
  Storage, Revision, integrity_error, get, set, unset, save_revision, recording, has_revision,
  update_revision, new_revision, insert_revisions, record_deletion,
}

-- The primary key of the table: no two rows for one key and revision.
abbrev pub RowsUnique : List Revision → Type 0
RowsUnique [] = Unit
RowsUnique (x ∷ xs) = (has_revision x.key x.revision xs ≡ false) × RowsUnique xs

pub has_revision-append :
    (key : String) (r : ℕ) (xs : List Revision) (y : Revision)
    → has_revision key r (xs ++ y ∷ [])
      ≡ (has_revision key r xs || (str_eq y.key key && y.revision == r))
unfolding has_revision
has_revision-append key r [] y = ground arith
has_revision-append key r (x ∷ xs) y = ground (arith, has_revision-append key r xs y)

has_revision-update :
    (key k : String) (r n : ℕ) (text : String) (xs : List Revision)
    → has_revision k n (update_revision key r text xs) ≡ has_revision k n xs
unfolding has_revision update_revision
has_revision-update key k r n text [] = refl
has_revision-update key k r n text (x ∷ xs) = ground (arith, has_revision-update key k r n text xs)

pub append-RowsUnique :
    (y : Revision) (xs : List Revision)
    → has_revision y.key y.revision xs ≡ false
    → RowsUnique xs
    → RowsUnique (xs ++ y ∷ [])
unfolding has_revision
append-RowsUnique y [] h u = (refl, tt)
append-RowsUnique y (x ∷ xs) h u = (
  ground (
    arith,
    has_revision-append x.key x.revision xs y,
    u.0,
    eq_iff x.key y.key,
    eq_iff y.key x.key,
  ),
  append-RowsUnique y xs (ground arith) u.1,
)

update-RowsUnique :
    (key : String) (r : ℕ) (text : String) (xs : List Revision)
    → RowsUnique xs
    → RowsUnique (update_revision key r text xs)
unfolding update_revision
update-RowsUnique key r text [] u = tt
update-RowsUnique key r text (x ∷ xs) u = ground (
  arith,
  update-RowsUnique key r text xs u.1,
  has_revision-update key x.key r x.revision text xs,
  u.0,
)

-- The text that the table has for a key and a revision.
abbrev pub revision_text : String → ℕ → List Revision → Option String
revision_text key r [] = none
revision_text key r (x ∷ xs) =
    if str_eq x.key key && x.revision == r then some x.text else revision_text key r xs

revision_text-append :
    (key : String) (r : ℕ) (text : String) (xs : List Revision)
    → has_revision key r xs ≡ false
    → revision_text key r (xs ++ new_revision key r text ∷ []) ≡ some text
unfolding has_revision
revision_text-append key r text [] h = ground (arith, eq_refl key)
revision_text-append key r text (x ∷ xs) h = ground (arith, revision_text-append key r text xs)

revision_text-update :
    (key : String) (r : ℕ) (text : String) (xs : List Revision)
    → has_revision key r xs ≡ true
    → revision_text key r (update_revision key r text xs) ≡ some text
unfolding has_revision update_revision
revision_text-update key r text [] h = cc
revision_text-update key r text (x ∷ xs) h = ground (arith, revision_text-update key r text xs)

pub revision_text-save_revision :
    (key value : String) (r : ℕ) (s : Storage)
    → recording s ≡ some r
    → revision_text key r (save_revision key value s).work.revisions ≡ some value
unfolding save_revision
revision_text-save_revision key value r s h = ground (
  arith,
  revision_text-append key r value s.work.revisions,
  revision_text-update key r value s.work.revisions,
  Bool-cases (has_revision key r s.work.revisions),
)

revision_text-has :
    (key text : String) (r : ℕ) (xs : List Revision)
    → revision_text key r xs ≡ some text
    → has_revision key r xs ≡ true
unfolding has_revision
revision_text-has key text r [] h = cc
revision_text-has key text r (x ∷ xs) h = ground (arith, revision_text-has key text r xs)

-- In a scope that records revisions, a `set` that changes a value stores the new value under the
-- scope's revision, whether or not the scope had set the key before.
pub set_records :
    (key value : String) (r : ℕ) (s : Storage)
    → recording s ≡ some r
    → get key s ≢ some value
    → revision_text key r (set key value s).1.work.revisions ≡ some value
set_records key value r s h change = elim (set_cases key value s) [
  | inl (same, _) ↦ absurd (change same)
  | inr (_, changed) ↦ rw changed (revision_text-save_revision key value r (written key value s) h)
]

recording-set : (key value : String) (s : Storage) → recording (set key value s).1 ≡ recording s
recording-set key value s = elim (set_cases key value s) [
  | inl (_, unchanged) ↦ rw unchanged
  | inr (_, changed) ↦ rw changed (unfold save_revision in ground arith)
]

-- `unset` of a stored key, in a recorded scope that has a row for it
unset_twice :
    (key : String) (r : ℕ) (s : Storage)
    → recording s ≡ some r
    → contains key s.work.kv ≡ true
    → has_revision key r s.work.revisions ≡ true
    → (unset key s).0 ≡ integrity_error
unfolding unset record_deletion insert_revisions
unset_twice key r s h there taken = ground arith

-- A key that one recorded scope first changes and then removes makes `unset` raise IntegrityError:
-- `unset` inserts a second row for the key and the revision.
pub unset_after_set_raises :
    (key value : String) (r : ℕ) (s : Storage)
    → recording s ≡ some r
    → get key s ≢ some value
    → (unset key (set key value s).1).0 ≡ integrity_error
unset_after_set_raises key value r s h change =
    let s' = (set key value s).1 in
    unset_twice key r s' (recording-set key value s ∙ h)
      (unfold get in ground (arith, get-set key value key s, eq_refl key))
      (revision_text-has key value r s'.work.revisions (set_records key value r s h change))

pub save_revision-RowsUnique :
    (key value : String) (s : Storage)
    → RowsUnique s.work.revisions
    → RowsUnique (save_revision key value s).work.revisions
unfolding save_revision
save_revision-RowsUnique key value s u = go (recording s) refl
  where
    rows : Bool → ℕ → List Revision
    rows b r =
        if b
        then update_revision key r value s.work.revisions
        else s.work.revisions ++ new_revision key r value ∷ []

    either : (r : ℕ) (b : Bool) → has_revision key r s.work.revisions ≡ b → RowsUnique (rows b r)
    either r true taken = update-RowsUnique key r value s.work.revisions u
    either r false free = append-RowsUnique (new_revision key r value) s.work.revisions free u

    go : (o : Option ℕ) → recording s ≡ o → RowsUnique (save_revision key value s).work.revisions
    go none off = subst RowsUnique (sym (ground arith)) u
    go (some r) on =
        subst RowsUnique (sym (ground arith)) (either r (has_revision key r s.work.revisions) refl)
