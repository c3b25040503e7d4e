-- ===== src/UnitData/Effects.antt =====
-- charmhelpers/core/unitdata.py: what `set` and `getrange` do to the keys.
use charm_helpers.Prelude.{
  codes, ℕ, String, ◌≡◌, ◌≢◌, refl, ap, ◌∙◌, ◌⊎◌, List, [], ◌∷◌, true, false, none, some, arith,
  str_eq, eq_iff, if◌then◌else◌, Dict, lookup, insert, lookup-insert, Unique, insert-Unique,
  Option-cases, Bool-cases, inl, inr,
}
use charm_helpers.UnitData.{Storage, get, set, save_revision, getrange, like_rows, strip_keys}
use charm_helpers.UnitData.Like.{
  like, prefix_pattern, drop_text, text_length, looks_like, has_percent, like_lem, drop_text-zero,
}

get-save_revision :
    (j key value : String) (s : Storage) → get j (save_revision key value s) ≡ get j s
unfolding get save_revision
get-save_revision j key value s = ground arith

abbrev pub written : String → String → Storage → Storage
written key value s = record s { work = record s.work { kv = insert key value s.work.kv } }

-- The two ways of `set`: the key has the value and nothing happens, or it is written.
pub set_cases :
    (key value : String) (s : Storage)
    → ((get key s ≡ some value) × ((set key value s).1 ≡ s))
      ⊎ ((get key s ≢ some value)
          × ((set key value s).1 ≡ save_revision key value (written key value s)))
unfolding set get
set_cases key value s = elim (Option-cases (lookup key s.work.kv)) [
  | inl new ↦ rw (new, set) (inr (λ e. cc, refl))
  | inr (old, there) ↦ elim (Bool-cases (str_eq old value)) [
    | inl same ↦ rw (there, set) (rw same (inl (ap some ((eq_iff old value).0 same), refl)))
    | inr other ↦ rw (there, set) (rw other (inr (λ e. ground (arith, eq_iff old value), refl)))
  ]
]

-- After `set key value` the key has the value, and every other key what it had.
pub get-set :
    (key value j : String) (s : Storage)
    → get j (set key value s).1 ≡ (if str_eq key j then some value else get j s)
get-set key value j s = elim (set_cases key value s) [
  | inl (same, unchanged) ↦ rw unchanged (ground (arith, eq_iff key j))
  | inr (_, changed) ↦ rw changed (
      get-save_revision j key value (written key value s)
      ∙ unfold get in lookup-insert key j value s.work.kv)
]

lookup-like_rows :
    (k : String) (pattern : List ℕ) (d : Dict String)
    → lookup k (like_rows pattern d) ≡ (if like pattern k then lookup k d else none)
unfolding like_rows
lookup-like_rows k pattern [] = ground arith
lookup-like_rows k pattern ((j, v) ∷ d) =
    ground (arith, lookup-like_rows k pattern d, eq_iff j k, Bool-cases (like pattern k))

like_rows-Unique : (pattern : List ℕ) (d : Dict String) → Unique d → Unique (like_rows pattern d)
unfolding like_rows
like_rows-Unique pattern [] h = tt
like_rows-Unique pattern ((j, v) ∷ d) h =
    ground (arith, like_rows-Unique pattern d h.1, lookup-like_rows j pattern d)

-- Nothing is stripped: the dict of the rows, over what was there.
lookup-strip_keys :
    (k : String) (d out : Dict String)
    → Unique d
    → lookup k (strip_keys 0 d out) ≡ elim (lookup k d) [ some v ↦ some v | none ↦ lookup k out ]
unfolding strip_keys
lookup-strip_keys k [] out h = refl
lookup-strip_keys k ((j, v) ∷ d) out h = ground (
  arith,
  lookup-strip_keys k d (insert j v out) h.1,
  lookup-insert j k v out,
  eq_iff j k,
  h.0,
  drop_text-zero j,
)

-- `getrange` with a prefix that has no percent sign, and no stripping, finds exactly the keys that
-- look like the prefix, with their values: as sqlite's LIKE has it, letters match in either case
-- and an underscore of the prefix matches any character.
pub getrange_effect :
    (prefix k : String) (s : Storage)
    → has_percent (codes prefix) ≡ false
    → Unique s.work.kv
    → lookup k (getrange prefix false s)
      ≡ (if looks_like (codes prefix) (codes k) then get k s else none)
unfolding getrange get
getrange_effect prefix k s plain unique =
    let rows = like_rows (prefix_pattern prefix) s.work.kv in
    ground (
      arith,
      lookup-strip_keys k rows [] (like_rows-Unique (prefix_pattern prefix) s.work.kv unique),
      lookup-like_rows k (prefix_pattern prefix) s.work.kv,
      like_lem prefix k plain,
    )

strip_keys-Unique : (n : ℕ) (d out : Dict String) → Unique out → Unique (strip_keys n d out)
unfolding strip_keys
strip_keys-Unique n [] out h = h
strip_keys-Unique n ((k, v) ∷ d) out h =
    strip_keys-Unique n d (insert (drop_text n k) v out) (insert-Unique (drop_text n k) v out h)

pub getrange-Unique : (prefix : String) (s : Storage) → Unique (getrange prefix true s)
unfolding getrange
getrange-Unique prefix s =
    strip_keys-Unique (text_length prefix) (like_rows (prefix_pattern prefix) s.work.kv) [] tt
