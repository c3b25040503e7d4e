-- ===== src/Policyd/Validate.antt =====
-- charmhelpers/contrib/openstack/policyd.py: `read_and_validate_yaml`. The reader of YAML is an
-- argument.
use charm_helpers.Prelude.{
  ℕ, String, List, [], ◌∷◌, ◌++◌, Bool, true, false, ◌&&◌, ◌||◌, Option, none, some, or_else, inl,
  inr, ◌⊎◌, ◌==◌, str_eq, same_path, ◌≡◌, refl, arith, if◌then◌else◌, not,
}
use charm_helpers.Policyd.{
  Failure, yaml_error, not_a_mapping, keys_blacklisted, keys_not_text, values_not_text,
}

-- A key as Python compares it: a text, a tuple of texts, or anything else, here by a number.
pub data Key : Type 0 where
  text_key : String → Key
  tuple_key : List String → Key
  other_key : ℕ → Key

abbrev pub same_key : Key → Key → Bool
same_key (text_key a) (text_key b) = str_eq a b
same_key (tuple_key a) (tuple_key b) = same_path a b
same_key (other_key a) (other_key b) = a == b
same_key (text_key a) (tuple_key b) = false
same_key (text_key a) (other_key b) = false
same_key (tuple_key a) (text_key b) = false
same_key (tuple_key a) (other_key b) = false
same_key (other_key a) (text_key b) = false
same_key (other_key a) (tuple_key b) = false

abbrev pub elem_key : Key → List Key → Bool
elem_key k [] = false
elem_key k (j ∷ js) = same_key k j || elem_key k js

-- a value of the document, of which only a text matters
pub data Value : Type 0 where
  text_value : String → Value
  other_value : Value

abbrev pub Mapping : Type 0
Mapping = List (Key × Value)

pub data Document : Type 0 where
  mapping : Mapping → Document
  not_mapping : Document

-- `POLICYD_ALWAYS_BLACKLISTED_KEYS`
abbrev pub always_blacklisted : List String
always_blacklisted = "admin_required" ∷ "cloud_admin" ∷ []

abbrev pub is_text_key : Key → Bool
is_text_key (text_key s) = true
is_text_key (tuple_key ss) = false
is_text_key (other_key n) = false

abbrev pub is_text_value : Value → Bool
is_text_value (text_value s) = true
is_text_value other_value = false

-- `all(isinstance(k, str) for k in keys)`, and the same of the values
unfoldable pub all_keys_text : Mapping → Bool
all_keys_text [] = true
all_keys_text ((k, v) ∷ doc) = is_text_key k && all_keys_text doc

unfoldable pub all_values_text : Mapping → Bool
all_values_text [] = true
all_values_text ((k, v) ∷ doc) = is_text_value v && all_values_text doc

-- `keys.intersection(blacklist_keys)`, as a truth value
pub has_blacklisted : List Key → Mapping → Bool
has_blacklisted blacklist [] = false
has_blacklisted blacklist ((k, v) ∷ doc) = elem_key k blacklist || has_blacklisted blacklist doc

-- `blacklist_keys or []`, and the `append` of the tuple
pub extend_blacklist : Option (List Key) → List Key
extend_blacklist none = tuple_key always_blacklisted ∷ []
extend_blacklist (some keys) = keys ++ tuple_key always_blacklisted ∷ []

pub validate : List Key → Document → Failure ⊎ Mapping
unfolding has_blacklisted all_keys_text all_values_text
validate blacklist not_mapping = inl not_a_mapping
validate blacklist (mapping doc) =
    if has_blacklisted blacklist doc
    then inl keys_blacklisted
    else if not (all_keys_text doc)
    then inl keys_not_text
    else if not (all_values_text doc)
    then inl values_not_text
    else inr doc

-- The list of keys that the caller handed over is the one that grows, unless it was empty.
pub blacklist_after : Option (List Key) → Option (List Key)
unfolding extend_blacklist
blacklist_after none = none
blacklist_after (some []) = some []
blacklist_after (some (k ∷ ks)) = some (extend_blacklist (some (k ∷ ks)))

-- `read_and_validate_yaml`: its answer, and the caller's list of keys after it
unfoldable pub read_and_validate_yaml :
    (String → Option Document)
    → String
    → Option (List Key)
    → (Failure ⊎ Mapping) × Option (List Key)
unfolding validate extend_blacklist blacklist_after
read_and_validate_yaml safe_load text blacklist = (
  elim (safe_load text) [
    | none ↦ inl yaml_error
    | some doc ↦ validate (extend_blacklist blacklist) doc
  ],
  blacklist_after blacklist,
)

elem_key-append :
    (k : Key) (ks js : List Key) → elem_key k (ks ++ js) ≡ (elem_key k ks || elem_key k js)
elem_key-append k [] js = refl
elem_key-append k (i ∷ ks) js = ground (arith, elem_key-append k ks js)

tuple_never_met :
    (k : Key) (ks : List Key) (ss : List String)
    → is_text_key k ≡ true
    → elem_key k (ks ++ tuple_key ss ∷ []) ≡ elem_key k ks
tuple_never_met (text_key s) ks ss h =
    ground (arith, elem_key-append (text_key s) ks (tuple_key ss ∷ []))
tuple_never_met (tuple_key s) ks ss h = ground arith
tuple_never_met (other_key n) ks ss h = ground arith

has_blacklisted-append :
    (ks : List Key) (ss : List String) (doc : Mapping)
    → all_keys_text doc ≡ true
    → has_blacklisted (ks ++ tuple_key ss ∷ []) doc ≡ has_blacklisted ks doc
unfolding has_blacklisted all_keys_text
has_blacklisted-append ks ss [] h = refl
has_blacklisted-append ks ss ((k, v) ∷ doc) h =
    ground (arith, tuple_never_met k ks ss, has_blacklisted-append ks ss doc)

has_blacklisted-extend :
    (keys : Option (List Key)) (doc : Mapping)
    → all_keys_text doc ≡ true
    → has_blacklisted (extend_blacklist keys) doc ≡ has_blacklisted (or_else keys []) doc
unfolding extend_blacklist
has_blacklisted-extend none doc h = has_blacklisted-append [] always_blacklisted doc h
has_blacklisted-extend (some keys) doc h = has_blacklisted-append keys always_blacklisted doc h

-- A document whose keys and values are texts is refused exactly if it has a key of the caller's own
-- list, and is handed back as it stands otherwise: the keys that are always to be refused are not
-- looked for.
pub read_and_validate_yaml_lem :
    (safe_load : String → Option Document)
    → (text : String) (blacklist : Option (List Key)) (doc : Mapping)
    → safe_load text ≡ some (mapping doc)
    → all_keys_text doc ≡ true
    → all_values_text doc ≡ true
    → (read_and_validate_yaml safe_load text blacklist).0
      ≡ (if has_blacklisted (or_else blacklist []) doc then inl keys_blacklisted else inr doc)
unfolding read_and_validate_yaml validate
read_and_validate_yaml_lem safe_load text blacklist doc h hk hv =
    rw (h, hk, hv, has_blacklisted-extend blacklist doc hk) refl
