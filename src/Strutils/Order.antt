-- ===== src/Strutils/Order.antt =====
-- The order that a comparator of charmhelpers/core/strutils.py gives to the texts of its list.
use charm_helpers.Prelude.{
  ℕ, suc, String, ◌≡◌, refl, List, [], ◌∷◌, Bool, true, false, not, ◌&&◌, Option, none, some, arith,
  eq_iff, str_eq, if◌then◌else◌, elem, Bool-cases, ap, inl, inr, ltb, ◌==◌,
}
use charm_helpers.Strutils.{index, new_comparator, eq, ne, lt, ge, gt, le}

-- An independent description of the order: `a` is met before `b` on a walk through the list.
pub met_before : List String → String → String → Bool
met_before [] a b = false
met_before (x ∷ xs) a b =
    let rest = met_before xs a b in
    if str_eq x a then not (str_eq a b) && elem b xs else not (str_eq x b) && rest

index-first :
    (x : String) (xs : List String) (a : String) → str_eq x a ≡ true → index (x ∷ xs) a ≡ some 0
unfolding index
index-first x xs a h = rw (h) refl

index-later :
    (x : String) (xs : List String) (a : String) (i : ℕ)
    → str_eq x a ≡ false
    → index xs a ≡ some i
    → index (x ∷ xs) a ≡ some (suc i)
unfolding index
index-later x xs a i h k = rw (h, k) refl

elem-later :
    (x : String) (xs : List String) (a : String)
    → str_eq x a ≡ false
    → elem a (x ∷ xs) ≡ true
    → elem a xs ≡ true
elem-later x xs a h k = ground (arith, eq_iff x a, eq_iff a x)

elem-index : (xs : List String) (b : String) → elem b xs ≡ true → (j : ℕ) × (index xs b ≡ some j)
unfolding index
elem-index [] b h = ground arith
elem-index (x ∷ xs) b h = elim (Bool-cases (str_eq x b)) [
  | inl k ↦ (0, index-first x xs b k)
  | inr k ↦
      let (j, e) = elem-index xs b (elem-later x xs b k h) in (suc j, index-later x xs b j k e)
]

-- All six comparisons of two texts of the list say what the walk through the list says.
abbrev pub Ordered : List String → String → String → Option ℕ → Type 0
Ordered xs a b none = ⊥
Ordered xs a b (some i) =
    (eq xs i b ≡ some (str_eq a b))
    × (ne xs i b ≡ some (not (str_eq a b)))
    × (lt xs i b ≡ some (met_before xs a b))
    × (ge xs i b ≡ some (not (met_before xs a b)))
    × (gt xs i b ≡ some (met_before xs b a))
    × (le xs i b ≡ some (not (met_before xs b a)))

-- the places of two texts of the list
Places : List String → String → String → Type 0
Places xs a b =
    (i : ℕ) × (j : ℕ) × (index xs a ≡ some i)
    × (index xs b ≡ some j)
    × ((i == j) ≡ str_eq a b)
    × (ltb i j ≡ met_before xs a b)
    × (ltb j i ≡ met_before xs b a)

-- Neither stands first.
Places-later :
    (x : String) (xs : List String) (a b : String)
    → str_eq x a ≡ false
    → str_eq x b ≡ false
    → Places xs a b
    → Places (x ∷ xs) a b
unfolding Places met_before
Places-later x xs a b h k (i, j, hi, hj, e, l, g) = (
  suc i,
  suc j,
  index-later x xs a i h hi,
  index-later x xs b j k hj,
  ground (arith, e),
  rw (met_before, h, k) (ground (arith, l)),
  rw (met_before, h, k) (ground (arith, g)),
)

-- The first of two different texts stands first.
Places-first :
    (x : String) (xs : List String) (a b : String)
    → str_eq x a ≡ true
    → str_eq x b ≡ false
    → elem b xs ≡ true
    → Places (x ∷ xs) a b
unfolding Places met_before
Places-first x xs a b h k hb =
    let (j, e) = elem-index xs b hb in
    (
      0,
      suc j,
      index-first x xs a h,
      index-later x xs b j k e,
      ground (arith, eq_iff x a, eq_iff x b, eq_iff a b),
      rw (met_before, h, hb) (ground (arith, eq_iff x a, eq_iff x b, eq_iff a b)),
      rw (met_before, h, k) (ground arith),
    )

Places-swap : (xs : List String) (a b : String) → Places xs a b → Places xs b a
unfolding Places
Places-swap xs a b (i, j, hi, hj, e, l, g) =
    (j, i, hj, hi, ground (arith, e, eq_iff a b, eq_iff b a), g, l)

Places-same :
    (x : String) (xs : List String) (a b : String)
    → str_eq x a ≡ true
    → str_eq x b ≡ true
    → Places (x ∷ xs) a b
unfolding Places met_before
Places-same x xs a b h k = (
  0,
  0,
  index-first x xs a h,
  index-first x xs b k,
  ground (arith, eq_iff x a, eq_iff x b, eq_iff a b),
  rw (met_before, h) (ground (arith, eq_iff x a, eq_iff x b, eq_iff a b)),
  rw (met_before, k) (ground (arith, eq_iff x a, eq_iff x b, eq_iff b a)),
)

places : (xs : List String) (a b : String) → elem a xs ≡ true → elem b xs ≡ true → Places xs a b
places [] a b ha hb = ground arith
places (x ∷ xs) a b ha hb = elim (Bool-cases (str_eq x a)) [
  | inl h ↦ elim (Bool-cases (str_eq x b)) [
    | inl k ↦ Places-same x xs a b h k
    | inr k ↦ Places-first x xs a b h k (elem-later x xs b k hb)
  ]
  | inr h ↦ elim (Bool-cases (str_eq x b)) [
    | inl k ↦ Places-swap (x ∷ xs) b a (Places-first x xs b a k h (elem-later x xs a h ha))
    | inr k ↦
        Places-later x xs a b h k (places xs a b (elem-later x xs a h ha) (elem-later x xs b k hb))
  ]
]

-- Texts of the list compare as they are met on a walk through it.
pub compare_lem :
    (xs : List String) (a b : String)
    → elem a xs ≡ true
    → elem b xs ≡ true
    → Ordered xs a b (new_comparator xs a)
unfolding new_comparator eq ne lt ge gt le Places
compare_lem xs a b ha hb =
    let (i, j, hi, hj, e, l, g) = places xs a b ha hb in
    rw (hi, new_comparator)
      (
        rw (hj, eq) (ap some e),
        rw (hj, ne, eq) (ap (λ b. some (not b)) e),
        rw (hj, lt) (ap some l),
        rw (hj, ge, lt) (ap (λ b. some (not b)) l),
        rw (hj, gt) (ap some g),
        rw (hj, le, gt) (ap (λ b. some (not b)) g),
      )
