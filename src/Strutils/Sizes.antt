-- ===== src/Strutils/Sizes.antt =====
-- charmhelpers/core/strutils.py: `bool_from_string` and `bytes_from_string`, on texts of ASCII; for the
-- numbers without a unit, on texts without signs, blanks and underscores.
use charm_helpers.Prelude.{
  ℕ, ◌+◌, ◌-◌, ◌*◌, ◌^◌, String, ◌≡◌, refl, List, [], ◌∷◌, ◌++◌, Bool, true, false, not, ◌&&◌, ◌||◌,
  Option, none, some, if◌then◌else◌, leb, ◌==◌, codes, same_codes, codes_elem, map, fold_case, Dict,
  All, arith,
}

abbrev pub truthy_strings : List String
truthy_strings = "y" ∷ "yes" ∷ "true" ∷ "t" ∷ "on" ∷ []

abbrev pub falsey_strings : List String
falsey_strings = "n" ∷ "no" ∷ "false" ∷ "f" ∷ "off" ∷ []

abbrev is_blank : ℕ → Bool
is_blank c = c == 32 || (leb 9 c && leb c 13) || (leb 28 c && leb c 31)

-- the longest run of characters at the beginning, and what follows it
abbrev pub take_run : (ℕ → Bool) → List ℕ → List ℕ
take_run is [] = []
take_run is (c ∷ cs) = let rest = take_run is cs in if is c then c ∷ rest else []

abbrev pub drop_run : (ℕ → Bool) → List ℕ → List ℕ
drop_run is [] = []
drop_run is (c ∷ cs) = let rest = drop_run is cs in if is c then rest else c ∷ cs

-- `str.rstrip`
abbrev rstrip : List ℕ → List ℕ
rstrip [] = []
rstrip (c ∷ cs) = elim (rstrip cs) [ [] ↦ if is_blank c then [] else c ∷ [] | d ∷ ds ↦ c ∷ d ∷ ds ]

-- `str.strip`
abbrev pub strip : List ℕ → List ℕ
strip cs = rstrip (drop_run is_blank cs)

-- `bool_from_string`: `none` is the `ValueError`
unfoldable pub bool_from_string : String → List String → List String → Bool → Option Bool
bool_from_string value truthy falsey assume_false =
    let word = map fold_case (strip (codes value)) in
    if codes_elem word truthy
    then some true
    else if codes_elem word falsey || assume_false
    then some false
    else none

-- `BYTE_POWER`
abbrev pub byte_power : Dict ℕ
byte_power =
    ("K", 1)
    ∷ ("KB", 1)
    ∷ ("M", 2)
    ∷ ("MB", 2)
    ∷ ("G", 3)
    ∷ ("GB", 3)
    ∷ ("T", 4)
    ∷ ("TB", 4)
    ∷ ("P", 5)
    ∷ ("PB", 5)
    ∷ []

unfoldable pub power_of : Dict ℕ → List ℕ → Option ℕ
power_of [] unit = none
power_of ((k, n) ∷ powers) unit =
    let rest = power_of powers unit in if same_codes unit (codes k) then some n else rest

abbrev pub is_digit : ℕ → Bool
is_digit c = leb b'0' c && leb c b'9'

abbrev pub is_letter : ℕ → Bool
is_letter c = (leb b'A' c && leb c b'Z') || (leb b'a' c && leb c b'z')

-- `int`, on digits, after a number
unfoldable pub number_after : ℕ → List ℕ → ℕ
number_after n [] = n
number_after n (c ∷ cs) = number_after (n * 10 + (c - b'0')) cs

pub data Bytes : Type 0 where
  size : ℕ → Bytes
  key_error : Bytes
  value_error : Bytes

abbrev pub is_nil : List ℕ → Bool
is_nil [] = true
is_nil (c ∷ cs) = false

unfoldable pub sized : Option ℕ → ℕ → Bytes
sized none n = key_error
sized (some k) n = size (n * 1024 ^ k)

-- `bytes_from_string`, on a text as its code points
unfoldable pub bytes_from_string : List ℕ → Bytes
unfolding power_of number_after sized
bytes_from_string value =
    let digits = take_run is_digit value in
    let rest = drop_run is_digit value in
    let unit = take_run is_letter rest in
    if not (is_nil digits) && not (is_nil unit)
    then sized (power_of byte_power unit) (number_after 0 digits)
    else if not (is_nil digits) && is_nil rest
    then size (number_after 0 digits)
    else value_error

-- The text ends, or goes on with another character.
abbrev pub ends : (ℕ → Bool) → List ℕ → Bool
ends is [] = true
ends is (c ∷ cs) = not (is c)

take_run-ends : (is : ℕ → Bool) (ys : List ℕ) → ends is ys ≡ true → take_run is ys ≡ []
take_run-ends is [] h = refl
take_run-ends is (c ∷ cs) h = ground arith

drop_run-ends : (is : ℕ → Bool) (ys : List ℕ) → ends is ys ≡ true → drop_run is ys ≡ ys
drop_run-ends is [] h = refl
drop_run-ends is (c ∷ cs) h = ground arith

take_run-append :
    (is : ℕ → Bool) (xs ys : List ℕ)
    → All (λ c. is c ≡ true) xs
    → ends is ys ≡ true
    → take_run is (xs ++ ys) ≡ xs
take_run-append is [] ys all h = take_run-ends is ys h
take_run-append is (c ∷ xs) ys all h = rw (all.0, take_run-append is xs ys all.1 h) refl

drop_run-append :
    (is : ℕ → Bool) (xs ys : List ℕ)
    → All (λ c. is c ≡ true) xs
    → ends is ys ≡ true
    → drop_run is (xs ++ ys) ≡ ys
drop_run-append is [] ys all h = drop_run-ends is ys h
drop_run-append is (c ∷ xs) ys all h = rw (all.0) (drop_run-append is xs ys all.1 h)

letters_end_digits :
    (unit rest : List ℕ)
    → is_nil unit ≡ false
    → All (λ c. is_letter c ≡ true) unit
    → ends is_digit (unit ++ rest) ≡ true
letters_end_digits [] rest some_unit all = ground arith
letters_end_digits (c ∷ unit) rest some_unit all = ground (arith, all.0)

-- A number of at least one digit with a unit of letters is the number times the power of 1024 that
-- belongs to the unit, and a unit that is not in the table is a `KeyError`. What follows the unit is
-- not looked at, as long as it does not begin with a letter.
pub bytes_from_string_lem :
    (digits unit rest : List ℕ)
    → is_nil digits ≡ false
    → All (λ c. is_digit c ≡ true) digits
    → is_nil unit ≡ false
    → All (λ c. is_letter c ≡ true) unit
    → ends is_letter rest ≡ true
    → bytes_from_string (digits ++ (unit ++ rest))
      ≡ elim (power_of byte_power unit) as (λ o. Bytes) [
        | none ↦ key_error
        | some k ↦ size (number_after 0 digits * 1024 ^ k)
      ]
unfolding bytes_from_string sized
bytes_from_string_lem digits unit rest some_digit all_digits some_letter all_letters h =
    let after = letters_end_digits unit rest some_letter all_letters in
    rw
      (
        take_run-append is_digit digits (unit ++ rest) all_digits after,
        drop_run-append is_digit digits (unit ++ rest) all_digits after,
        take_run-append is_letter unit rest all_letters h,
        some_digit,
        some_letter,
        bytes_from_string,
      )
      (by_power (power_of byte_power unit))
  where
    by_power :
        (o : Option ℕ)
        → sized o (number_after 0 digits) ≡ elim o as (λ o. Bytes) [
          | none ↦ key_error
          | some k ↦ size (number_after 0 digits * 1024 ^ k)
        ]
    by_power none = refl
    by_power (some k) = refl
