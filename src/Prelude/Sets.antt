-- ===== src/Prelude/Sets.antt =====
-- `sorted(list(set(xs)))`, on a list of texts.
use Prim.Native.String.{String, compare}
use mathlib.Core.Path.{◌≡◌, refl}
use mathlib.Core.Bool.{◌||◌}
use mathlib.Core.List.{List, [], ◌∷◌}
use native.Mathlib.Omega.{arith}
use text.Mathlib.Text.{◌==◌ as str_eq, is_lt}
use text.Mathlib.TextEquality.{eq_iff}
use charm_helpers.Prelude.Tests.{if◌then◌else◌}
use charm_helpers.Prelude.Lists.{elem}

-- its place in a sorted list, where it is put but once
abbrev pub insert_sorted : String → List String → List String
insert_sorted x [] = x ∷ []
insert_sorted x (y ∷ ys) =
    let rest = insert_sorted x ys in
    if str_eq x y then y ∷ ys else if is_lt (compare x y) then x ∷ y ∷ ys else y ∷ rest

abbrev pub sorted_set : List String → List String
sorted_set [] = []
sorted_set (x ∷ xs) = insert_sorted x (sorted_set xs)

pub elem-insert_sorted :
    (z x : String) (ys : List String) → elem z (insert_sorted x ys) ≡ (str_eq z x || elem z ys)
elem-insert_sorted z x [] = refl
elem-insert_sorted z x (y ∷ ys) =
    ground (arith, elem-insert_sorted z x ys, eq_iff x y, eq_iff z x, eq_iff z y)

pub elem-sorted_set : (z : String) (xs : List String) → elem z (sorted_set xs) ≡ elem z xs
elem-sorted_set z [] = refl
elem-sorted_set z (x ∷ xs) =
    ground (arith, elem-insert_sorted z x (sorted_set xs), elem-sorted_set z xs)
