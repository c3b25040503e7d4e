-- ===== src/UnitData.antt =====
-- charmhelpers/core/unitdata.py: class Storage over its sqlite tables. A value stands for its JSON
-- text, which is what the tables hold and what `set` compares.
mod Like
pub mod Scope
mod Tests
pub mod Revisions
pub mod Effects
pub mod Shown
pub mod Plain
use Prim.Native.String.{◌++◌ as append}
use charm_helpers.Prelude.{
  ℕ, ◌+◌, String, List, [], ◌∷◌, ◌++◌, Bool, true, false, not, ◌&&◌, ◌||◌, Option, none, some, ◌==◌,
  str_eq, if◌then◌else◌, is_some, or_else, select, any, elem, length, Dict, lookup, contains,
  insert, erase, keys,
}
use charm_helpers.UnitData.Like.{like, prefix_pattern, drop_text, text_length}

-- a row of `kv_revisions`, and one of `hooks`
pub record Revision : Type 0 where
  pub key : String
  pub revision : ℕ
  pub text : String

pub record HookRow : Type 0 where
  pub version : ℕ
  pub hook : String
  pub date : String

-- The three tables; `sequence` is sqlite's autoincrement counter, which a rollback restores too.
pub record Tables : Type 0 where
  pub kv : Dict String
  pub revisions : List Revision
  pub hooks : List HookRow
  pub sequence : ℕ

-- `work` is what the open transaction sees, `saved` what the last commit wrote.
pub record Storage : Type 0 where
  pub work : Tables
  pub saved : Tables
  pub keep_revisions : Bool
  pub revision : Option ℕ
  pub closed : Bool

-- How a call ends: it returns, or it raises sqlite's IntegrityError, an AssertionError, an
-- exception of the caller's own, or a SystemExit of the caller, which is no `Exception`.
pub data Outcome : Type 0 where
  returned : Outcome
  integrity_error : Outcome
  assertion_error : Outcome
  user_error : Outcome
  system_exit : Outcome

abbrev pub Call : Type 0
Call = Storage → Outcome × Storage

-- the next step runs only if the first has returned
infixl 5 ◌>>◌
abbrev pub ◌>>◌ : Call → Call → Call
◌>>◌ m k s =
    let (r, s') = m s in
    elim r [
      | returned ↦ k s'
      | integrity_error ↦ (integrity_error, s')
      | assertion_error ↦ (assertion_error, s')
      | user_error ↦ (user_error, s')
      | system_exit ↦ (system_exit, s')
    ]

-- `get`, with no default
pub get : String → Storage → Option String
get key s = lookup key s.work.kv

-- the rows that `select key, data from kv where key like ?` finds
pub like_rows : List ℕ → Dict String → Dict String
like_rows pattern [] = []
like_rows pattern ((k, v) ∷ d) =
    let rest = like_rows pattern d in if like pattern k then (k, v) ∷ rest else rest

-- `dict([(k[n:], v) for k, v in rows])`: of two rows with one key the later counts
pub strip_keys : ℕ → Dict String → Dict String → Dict String
strip_keys n [] out = out
strip_keys n ((k, v) ∷ d) out = strip_keys n d (insert (drop_text n k) v out)

-- `getrange`
pub getrange : String → Bool → Storage → Dict String
unfolding like_rows strip_keys
getrange prefix strip s =
    let rows = like_rows (prefix_pattern prefix) s.work.kv in
    if strip then strip_keys (text_length prefix) rows [] else strip_keys 0 rows []

-- whether the primary key of `kv_revisions` is taken
pub has_revision : String → ℕ → List Revision → Bool
has_revision key r [] = false
has_revision key r (x ∷ xs) = (str_eq x.key key && x.revision == r) || has_revision key r xs

-- `update kv_revisions set data = ? where key = ? and revision = ?`
pub update_revision : String → ℕ → String → List Revision → List Revision
update_revision key r text [] = []
update_revision key r text (x ∷ xs) =
    let rest = update_revision key r text xs in
    if str_eq x.key key && x.revision == r then record x { text = text } ∷ rest else x ∷ rest

abbrev pub new_revision : String → ℕ → String → Revision
new_revision key r text = record { key = key; revision = r; text = text }

-- the revision under which changes are recorded, if they are
abbrev pub recording : Storage → Option ℕ
recording s = if s.keep_revisions then s.revision else none

-- the second half of `set`
pub save_revision : String → String → Storage → Storage
unfolding has_revision update_revision
save_revision key value s = elim (recording s) [
  | none ↦ s
  | some r ↦ record s {
    work = record s.work {
      revisions =
          if has_revision key r s.work.revisions
          then update_revision key r value s.work.revisions
          else s.work.revisions ++ new_revision key r value ∷ [];
    };
  }
]

-- `set`
pub set : String → String → Call
unfolding save_revision
set key value s =
    let written = record s { work = record s.work { kv = insert key value s.work.kv } } in
    (
      returned,
      elim (lookup key s.work.kv) [
        | none ↦ save_revision key value written
        | some old ↦ if str_eq old value then s else save_revision key value written
      ],
    )

-- `update`
pub update : Dict String → String → Call
update [] prefix s = (returned, s)
update ((k, v) ∷ d) prefix s = let (_, s') = set (append prefix k) v s in update d prefix s'

abbrev pub deleted : String
deleted = "\"DELETED\""

-- `insert into kv_revisions values …`: one statement, all rows or an IntegrityError and none
pub insert_revisions : List String → ℕ → List Revision → Option (List Revision)
insert_revisions [] r rows = some rows
insert_revisions (k ∷ ks) r rows =
    let rest = insert_revisions ks r (rows ++ new_revision k r deleted ∷ []) in
    if has_revision k r rows then none else rest

-- the rows that record a deletion of `removed` rows
pub record_deletion : Bool → List String → Call
unfolding insert_revisions
record_deletion removed ks s =
    if removed
    then elim (recording s) [
      | none ↦ (returned, s)
      | some r ↦ elim (insert_revisions ks r s.work.revisions) [
        | none ↦ (integrity_error, s)
        | some rows ↦ (returned, record s { work = record s.work { revisions = rows } })
      ]
    ]
    else (returned, s)

-- `unset`
pub unset : String → Call
unfolding record_deletion
unset key s =
    record_deletion (contains key s.work.kv) (key ∷ [])
      (record s { work = record s.work { kv = erase key s.work.kv } })

pub erase_all : List String → Dict String → Dict String
erase_all [] d = d
erase_all (k ∷ ks) d = erase_all ks (erase k d)

pub prefixed : String → List String → List String
prefixed prefix [] = []
prefixed prefix (k ∷ ks) = append prefix k ∷ prefixed prefix ks

abbrev pub contains_any : List String → Dict String → Bool
contains_any ks d = any (λ k. contains k d) ks

-- `unsetrange` with a list of keys
pub unset_keys : List String → String → Call
unfolding erase_all prefixed record_deletion
unset_keys ks prefix s =
    let full = prefixed prefix ks in
    record_deletion (contains_any full s.work.kv) full
      (record s { work = record s.work { kv = erase_all full s.work.kv } })

pub not_like : List ℕ → Dict String → Dict String
not_like pattern [] = []
not_like pattern ((k, v) ∷ d) =
    let rest = not_like pattern d in if like pattern k then rest else (k, v) ∷ rest

abbrev pub any_like : List ℕ → Dict String → Bool
any_like pattern d = any (λ row. like pattern row.0) d

-- `unsetrange` with no keys
pub unset_prefix : String → Call
unfolding not_like record_deletion
unset_prefix prefix s =
    let pattern = prefix_pattern prefix in
    record_deletion (any_like pattern s.work.kv) (append prefix "%" ∷ [])
      (record s { work = record s.work { kv = not_like pattern s.work.kv } })
