-- ===== src/UnitData/Scope.antt =====
-- charmhelpers/core/unitdata.py: `flush`, `close`, `hook_scope`, `gethistory` and `delta`. A call on
-- a closed storage, which sqlite refuses, is not modelled.
pub mod Atomic
pub mod Deltas
use charm_helpers.Prelude.{
  ℕ, suc, String, List, [], ◌∷◌, ◌++◌, Bool, true, false, Option, none, some, ◌==◌, str_eq,
  if◌then◌else◌, is_some, Dict, lookup, insert, select, keys,
}
use charm_helpers.UnitData.{
  Tables, HookRow, Revision, Storage, Outcome, returned, assertion_error, user_error, system_exit,
  Call, ◌>>◌, set, update, unset, unset_keys, unset_prefix, getrange,
}

-- `flush`: commit, or roll back
pub flush : Bool → Storage → Storage
flush save s =
    if save
    then record s { saved = s.work }
    else if s.closed
    then s
    else record s { work = s.saved }

-- `close`
pub close : Storage → Storage
unfolding flush
close s = if s.closed then s else record (flush false s) { closed = true }

-- the statement `insert into hooks` and `self.revision = self.cursor.lastrowid`
pub open_revision : String → String → Storage → Storage
open_revision name date s =
    let version = suc s.work.sequence in
    let row : HookRow = record { version = version; hook = name; date = date } in
    record s {
      work = record s.work { hooks = s.work.hooks ++ row ∷ []; sequence = version };
      revision = some version;
    }

-- The exit of `hook_scope`, by how its body ended: a SystemExit passes by the `except Exception`.
pub end_scope : Outcome × Storage → Outcome × Storage
unfolding flush
end_scope (returned, s) = (returned, flush true (record s { revision = none }))
end_scope (system_exit, s) = (system_exit, s)
end_scope (failed, s) = (failed, record (flush false s) { revision = none })

-- `with hook_scope(name): body`
pub hook_scope : String → String → Call → Call
unfolding end_scope open_revision
hook_scope name date body s =
    if is_some s.revision
    then (assertion_error, s)
    else end_scope (body (open_revision name date s))

-- What a hook does with the storage. `fail` is an exception of its own, and `exit` a SystemExit.
pub data Op : Type 0 where
  set_op : String → String → Op
  update_op : Dict String → String → Op
  unset_op : String → Op
  unset_keys_op : List String → String → Op
  unset_prefix_op : String → Op
  fail : Op
  exit : Op

unfoldable pub perform : Op → Call
perform (set_op k v) s = set k v s
perform (update_op d p) s = update d p s
perform (unset_op k) s = unset k s
perform (unset_keys_op ks p) s = unset_keys ks p s
perform (unset_prefix_op p) s = unset_prefix p s
perform fail s = (user_error, s)
perform exit s = (system_exit, s)

unfoldable pub perform_all : List Op → Call
perform_all [] s = (returned, s)
perform_all (o ∷ os) s = (perform o >> perform_all os) s

-- `gethistory`: the rows of the key joined with their hooks
pub record HistoryRow : Type 0 where
  pub revision : ℕ
  pub key : String
  pub text : String
  pub hook : String
  pub date : String

pub join_hooks : Revision → List HookRow → List HistoryRow
join_hooks x [] = []
join_hooks x (h ∷ hs) =
    let rest = join_hooks x hs in
    if x.revision == h.version
    then record { revision = x.revision; key = x.key; text = x.text; hook = h.hook; date = h.date }
      ∷ rest
    else rest

pub history_rows : String → List Revision → List HookRow → List HistoryRow
unfolding join_hooks
history_rows key [] hooks = []
history_rows key (x ∷ xs) hooks =
    let rest = history_rows key xs hooks in
    if str_eq x.key key then join_hooks x hooks ++ rest else rest

pub gethistory : String → Storage → List HistoryRow
unfolding history_rows
gethistory key s = history_rows key s.work.revisions s.work.hooks

-- `Delta`, of Python's values
pub record Delta {ℓ} (V : Type ℓ) : Type ℓ where
  pub previous : Option V
  pub current : Option V

module _ {ℓ} {V : Type ℓ} where
  abbrev pub delta_of : Option V → Option V → Delta V
  delta_of p c = record { previous = p; current = c }

  -- `json.loads` of each value
  abbrev pub load_all : (String → V) → Dict String → Dict V
  load_all loads [] = []
  load_all loads ((k, text) ∷ d) = (k, loads text) ∷ load_all loads d

  -- the three loops of `delta`, by how two values of Python compare with `==`
  pub added : Dict V → Dict V → Dict (Delta V) → Dict (Delta V)
  added previous [] out = out
  added previous ((k, c) ∷ mapping) out =
      added previous mapping
        (if is_some (lookup k previous) then out else insert k (delta_of none (some c)) out)

  pub removed : Dict V → Dict V → Dict (Delta V) → Dict (Delta V)
  removed mapping [] out = out
  removed mapping ((k, p) ∷ previous) out =
      removed mapping previous
        (if is_some (lookup k mapping) then out else insert k (delta_of (some p) none) out)

  abbrev pub changed_entry :
      (V → V → Bool) → String → V → Option V → Dict (Delta V) → Dict (Delta V)
  changed_entry equals k p none out = out
  changed_entry equals k p (some c) out =
      if equals c p then out else insert k (delta_of (some p) (some c)) out

  pub changed : (V → V → Bool) → Dict V → Dict V → Dict (Delta V) → Dict (Delta V)
  changed equals mapping [] out = out
  changed equals mapping ((k, p) ∷ previous) out =
      changed equals mapping previous (changed_entry equals k p (lookup k mapping) out)

  -- `delta`
  pub delta : (String → V) → (V → V → Bool) → Dict V → String → Storage → Dict (Delta V)
  unfolding added removed changed
  delta loads equals mapping prefix s =
      let previous = load_all loads (getrange prefix true s) in
      changed equals mapping previous (removed mapping previous (added previous mapping []))
