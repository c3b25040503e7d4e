-- ===== src/Prelude/Lists.antt =====
-- Lists: Boolean membership, `All`, filtering by a test and lengths over the native numbers.
use Prim.Native.Nat.{ℕ, suc, ◌+◌, ◌≤◌}
use Prim.Native.String.{String}
use mathlib.Core.Path.{◌≡◌, refl}
use mathlib.Core.Bool.{Bool, true, false, ◌&&◌, ◌||◌}
use mathlib.Core.List.{List, [], ◌∷◌, ◌++◌}
use native.Mathlib.Omega.{arith}
use text.Mathlib.Text.{◌==◌ as str_eq}
use charm_helpers.Prelude.Tests.{if◌then◌else◌}

module _ {ℓ} {A : Type ℓ} where
  abbrev pub length : List A → ℕ
  length [] = 0
  length (x ∷ xs) = suc (length xs)

  -- `[x for x in xs if test(x)]`
  abbrev pub select : (A → Bool) → List A → List A
  select test [] = []
  select test (x ∷ xs) = let rest = select test xs in if test x then x ∷ rest else rest

  -- `any(test(x) for x in xs)`
  abbrev pub any : (A → Bool) → List A → Bool
  any test [] = false
  any test (x ∷ xs) = test x || any test xs

  pub length-append : (xs ys : List A) → length (xs ++ ys) ≡ length xs + length ys
  length-append [] ys = omega arith
  length-append (x ∷ xs) ys = omega (arith, length-append xs ys)

  pub length-select : (test : A → Bool) (xs : List A) → length (select test xs) ≤ length xs
  length-select test [] = omega arith
  length-select test (x ∷ xs) = ground (arith, length-select test xs)

module _ {ℓ κ} {A : Type ℓ} (P : A → Type κ) where
  abbrev pub All : List A → Type κ
  All [] = Unit
  All (x ∷ xs) = P x × All xs

-- `x in xs`, on a list of texts
abbrev pub elem : String → List String → Bool
elem x [] = false
elem x (y ∷ ys) = str_eq x y || elem x ys

pub elem-append : (x : String) (xs ys : List String) → elem x (xs ++ ys) ≡ (elem x xs || elem x ys)
elem-append x [] ys = refl
elem-append x (y ∷ xs) ys = ground (arith, elem-append x xs ys)

-- `set.add`, on the list of a set's members
abbrev pub add_once : String → List String → List String
add_once x xs = if elem x xs then xs else xs ++ x ∷ []

-- `list.remove`, where a text that is not there is passed over
abbrev pub remove_first : String → List String → List String
remove_first x [] = []
remove_first x (y ∷ ys) = let rest = remove_first x ys in if str_eq y x then ys else y ∷ rest

module _ {ℓ} {A : Type ℓ} where
  pub select-select :
      (test other : A → Bool) (xs : List A)
      → select test (select other xs) ≡ select (λ x. other x && test x) xs
  select-select test other [] = refl
  select-select test other (x ∷ xs) = ground (arith, select-select test other xs)

  -- Two tests that agree on a list select the same of it.
  pub select_same :
      (test other : A → Bool) (xs : List A)
      → All (λ x. test x ≡ other x) xs
      → select test xs ≡ select other xs
  select_same test other [] h = refl
  select_same test other (x ∷ xs) h = ground (arith, h.0, select_same test other xs h.1)

  pub select-All :
      (test : A → Bool) (xs : List A) → All (λ x. test x ≡ true) xs → select test xs ≡ xs
  select-All test [] h = refl
  select-All test (x ∷ xs) h = ground (arith, h.0, select-All test xs h.1)

module _ {ℓ κ} {A : Type ℓ} (P : A → Type κ) where
  pub All-of : ((x : A) → P x) → (xs : List A) → All P xs
  All-of h [] = tt
  All-of h (x ∷ xs) = (h x, All-of h xs)
