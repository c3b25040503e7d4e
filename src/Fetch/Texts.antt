-- ===== src/Fetch/Texts.antt =====
-- Texts as the patterns of `add_source` in charmhelpers/fetch/ubuntu.py take them apart, for texts
-- without line breaks.
use Prim.Native.Char.{code}
use Prim.Native.String.{◌++◌ as str_append}
use charm_helpers.Prelude.{
  ℕ, zero, suc, ◌-◌, String, Option, none, some, ◌==◌, ◌||◌, ◌&&◌, leb, str_eq, if◌then◌else◌, Bool,
}

-- the rest of a text that begins so
unfoldable pub strip_prefix : String → String → Option String
strip_prefix String.[] s = some s
strip_prefix (String.◌∷◌ c p) String.[] = none
strip_prefix (String.◌∷◌ c p) (String.◌∷◌ d s) =
    let rest = strip_prefix p s in if code c == code d then rest else none

-- the beginning of a text that ends so
unfoldable pub strip_suffix : String → String → Option String
strip_suffix suffix String.[] = if str_eq suffix "" then some "" else none
strip_suffix suffix (String.◌∷◌ c s) =
    let rest = strip_suffix suffix s in
    if str_eq suffix (String.◌∷◌ c s)
    then some ""
    else elim rest [ none ↦ none | some r ↦ some (String.◌∷◌ c r) ]

-- `(.*)separator(.*)`: the text before the last separator, and after it
unfoldable pub split_last : String → String → Option (String × String)
unfolding strip_prefix
split_last separator String.[] = none
split_last separator (String.◌∷◌ c s) = elim (split_last separator s) [
  | some (a, b) ↦ some (String.◌∷◌ c a, b)
  | none ↦ elim (strip_prefix separator (String.◌∷◌ c s)) [
    | none ↦ none
    | some rest ↦ some ("", rest)
  ]
]

unfoldable pub drop_first : ℕ → String → String
drop_first zero s = s
drop_first (suc n) String.[] = ""
drop_first (suc n) (String.◌∷◌ c s) = drop_first n s

unfoldable pub count : String → ℕ
count String.[] = 0
count (String.◌∷◌ c s) = suc (count s)

-- `text.replace(old, new)`, where the first characters are to be passed over
unfoldable pub replace_after : String → String → ℕ → String → String
unfolding strip_prefix count
replace_after old new skip String.[] = ""
replace_after old new (suc skip) (String.◌∷◌ c s) = replace_after old new skip s
replace_after old new zero (String.◌∷◌ c s) = elim (strip_prefix old (String.◌∷◌ c s)) [
  | none ↦ String.◌∷◌ c (replace_after old new zero s)
  | some rest ↦ str_append new (replace_after old new (count old - 1) s)
]

abbrev is_blank : ℕ → Bool
is_blank c = c == 32 || (leb 9 c && leb c 13) || (leb 28 c && leb c 31)

unfoldable pub lstrip : String → String
lstrip String.[] = ""
lstrip (String.◌∷◌ c s) = let rest = lstrip s in if is_blank (code c) then rest else String.◌∷◌ c s

unfoldable pub rstrip : String → String
rstrip String.[] = ""
rstrip (String.◌∷◌ c s) =
    let rest = rstrip s in if str_eq rest "" && is_blank (code c) then "" else String.◌∷◌ c rest

-- `text.strip()`, of a text of ASCII
unfoldable pub strip_text : String → String
unfolding lstrip rstrip
strip_text s = rstrip (lstrip s)
