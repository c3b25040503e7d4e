-- ===== src/Prelude/Texts.antt =====
-- Texts as lists of code points, and the parts of a file's name.
use Prim.Native.Nat.{ℕ, ◌+◌}
use Prim.Native.Char.{code}
use Prim.Native.String.{String, ◌++◌ as str_append}
use mathlib.Core.Path.{◌≡◌, refl}
use mathlib.Core.Bool.{Bool, true, false, ◌&&◌, ◌||◌, false≢true}
use native.Mathlib.Omega.{arith}
use text.Mathlib.TextEquality.{eq_iff}
use mathlib.Core.Option.{Option, none, some}
use mathlib.Core.List.{List, [], ◌∷◌, map}
use text.Mathlib.Text.{◌==◌ as str_eq}
use charm_helpers.Prelude.Tests.{leb, ◌==◌, if◌then◌else◌}

abbrev pub codes : String → List ℕ
codes String.[] = []
codes (String.◌∷◌ c s) = code c ∷ codes s

abbrev pub same_codes : List ℕ → List ℕ → Bool
same_codes [] [] = true
same_codes [] (d ∷ ds) = false
same_codes (c ∷ cs) [] = false
same_codes (c ∷ cs) (d ∷ ds) = c == d && same_codes cs ds

-- `text in texts`, where the text is a list of code points
abbrev pub codes_elem : List ℕ → List String → Bool
codes_elem cs [] = false
codes_elem cs (s ∷ ss) = same_codes cs (codes s) || codes_elem cs ss

-- `str.lower`, on a character of ASCII
abbrev pub fold_case : ℕ → ℕ
fold_case c = if leb b'A' c && leb c b'Z' then c + 32 else c

-- `text.lower()`
abbrev pub lower : String → List ℕ
lower s = map fold_case (codes s)

-- the text before its last dot, and from there on
abbrev pub cut_last_dot : String → Option (String × String)
cut_last_dot String.[] = none
cut_last_dot (String.◌∷◌ c s) = elim (cut_last_dot s) [
  | some (root, ext) ↦ some (String.◌∷◌ c root, ext)
  | none ↦ if code c == b'.' then some ("", String.◌∷◌ c s) else none
]

-- `os.path.splitext`, of a name without a slash: dots at its beginning belong to the root
abbrev pub splitext : String → String × String
splitext String.[] = ("", "")
splitext (String.◌∷◌ c s) =
    let (root, ext) = splitext s in
    if code c == b'.'
    then (String.◌∷◌ c root, ext)
    else elim (cut_last_dot (String.◌∷◌ c s)) [ some cut ↦ cut | none ↦ (String.◌∷◌ c s, "") ]

-- a path, as the list of its components
abbrev pub PathName : Type 0
PathName = List String

abbrev pub same_path : PathName → PathName → Bool
same_path [] [] = true
same_path [] (y ∷ q) = false
same_path (x ∷ p) [] = false
same_path (x ∷ p) (y ∷ q) = str_eq x y && same_path p q

abbrev pub elem_path : PathName → List PathName → Bool
elem_path p [] = false
elem_path p (q ∷ qs) = same_path p q || elem_path p qs

pub same_path_eq : (p q : PathName) → same_path p q ≡ true → p ≡ q
same_path_eq [] [] h = refl
same_path_eq [] (y ∷ q) h = absurd (false≢true h)
same_path_eq (x ∷ p) [] h = absurd (false≢true h)
same_path_eq (x ∷ p) (y ∷ q) h = ground (arith, eq_iff x y, same_path_eq p q)

abbrev pub is_prefix : List ℕ → List ℕ → Bool
is_prefix [] ys = true
is_prefix (x ∷ xs) [] = false
is_prefix (x ∷ xs) (y ∷ ys) = x == y && is_prefix xs ys

abbrev pub occurs : List ℕ → List ℕ → Bool
occurs xs [] = is_prefix xs []
occurs xs (y ∷ ys) = is_prefix xs (y ∷ ys) || occurs xs ys

-- `part in text`, on texts
abbrev pub occurs_in : String → String → Bool
occurs_in part text = occurs (codes part) (codes text)

is_prefix_refl : (xs : List ℕ) → is_prefix xs xs ≡ true
is_prefix_refl [] = refl
is_prefix_refl (x ∷ xs) = ground (arith, is_prefix_refl xs)

occurs_refl : (xs : List ℕ) → occurs xs xs ≡ true
occurs_refl [] = refl
occurs_refl (x ∷ xs) = ground (arith, is_prefix_refl (x ∷ xs))

pub occurs_in_refl : (text : String) → occurs_in text text ≡ true
occurs_in_refl text = occurs_refl (codes text)

-- `text.split(separator)`, for a separator of one character
abbrev pub split_at : ℕ → String → List String
split_at separator String.[] = "" ∷ []
split_at separator (String.◌∷◌ c s) =
    let rest = split_at separator s in
    if code c == separator
    then "" ∷ rest
    else elim rest [ [] ↦ [] | part ∷ parts ↦ String.◌∷◌ c part ∷ parts ]

-- `separator.join(parts)`
abbrev pub join_with : String → List String → String
join_with separator [] = ""
join_with separator (s ∷ []) = s
join_with separator (s ∷ t ∷ ss) =
    str_append s (str_append separator (join_with separator (t ∷ ss)))
