-- ===== src/UnitData/Like.antt =====
-- sqlite's LIKE, as charmhelpers/core/unitdata.py uses it: `%` stands for any text, `_` for any
-- character, and the letters of ASCII match in either case.
use charm_helpers.Prelude.{
  ℕ, zero, suc, String, ◌≡◌, refl, List, [], ◌∷◌, ◌++◌, Bool, true, false, ◌&&◌, ◌||◌, ◌==◌,
  if◌then◌else◌, arith, codes, fold_case, is_prefix, leb, not, ◌∙◌,
}

abbrev pub any_suffix : (List ℕ → Bool) → List ℕ → Bool
any_suffix test [] = test []
any_suffix test (x ∷ xs) = test (x ∷ xs) || any_suffix test xs

pub matches : List ℕ → List ℕ → Bool
matches [] [] = true
matches [] (x ∷ xs) = false
matches (p ∷ ps) [] = p == b'%' && matches ps []
matches (p ∷ ps) (x ∷ xs) =
    let here = any_suffix (matches ps) (x ∷ xs) in
    let next = matches ps xs in
    if p == b'%' then here else if p == b'_' then next else fold_case p == fold_case x && next

-- `key like pattern`
unfoldable pub like : List ℕ → String → Bool
unfolding matches
like pattern key = matches pattern (codes key)

-- `'%s%%' % prefix`
unfoldable pub prefix_pattern : String → List ℕ
prefix_pattern prefix = codes prefix ++ b'%' ∷ []

-- `len(text)` and `text[n:]`
unfoldable pub text_length : String → ℕ
text_length String.[] = 0
text_length (String.◌∷◌ c s) = suc (text_length s)

unfoldable pub drop_text : ℕ → String → String
drop_text zero s = s
drop_text (suc n) String.[] = ""
drop_text (suc n) (String.◌∷◌ c s) = drop_text n s

pub drop_text-zero : (s : String) → drop_text 0 s ≡ s
unfolding drop_text
drop_text-zero s = refl

any_suffix-end : (test : List ℕ → Bool) (xs : List ℕ) → test [] ≡ true → any_suffix test xs ≡ true
any_suffix-end test [] h = h
any_suffix-end test (x ∷ xs) h = ground (arith, any_suffix-end test xs h)

-- An independent description of a key that `like` finds for a prefix: it is as long as the prefix
-- at least, and agrees with it up to the case of letters, but that an underscore fits anything.
pub looks_like : List ℕ → List ℕ → Bool
looks_like [] xs = true
looks_like (p ∷ ps) [] = false
looks_like (p ∷ ps) (x ∷ xs) = (p == b'_' || fold_case p == fold_case x) && looks_like ps xs

abbrev pub has_percent : List ℕ → Bool
has_percent [] = false
has_percent (p ∷ ps) = p == b'%' || has_percent ps

matches-percent : (xs : List ℕ) → matches (b'%' ∷ []) xs ≡ true
unfolding matches
matches-percent [] = refl
matches-percent (x ∷ xs) = any_suffix-end (matches []) (x ∷ xs) refl

matches_lem :
    (ps xs : List ℕ) → has_percent ps ≡ false → matches (ps ++ b'%' ∷ []) xs ≡ looks_like ps xs
unfolding matches looks_like
matches_lem [] xs h = matches-percent xs
matches_lem (p ∷ ps) [] h = ground arith
matches_lem (p ∷ ps) (x ∷ xs) h = ground (arith, matches_lem ps xs)

abbrev pub is_upper : ℕ → Bool
is_upper c = leb b'A' c && leb c b'Z'

-- no letter of the text is a capital, and no character of a prefix stands for others either
abbrev pub no_upper : List ℕ → Bool
no_upper [] = true
no_upper (c ∷ cs) = not (is_upper c) && no_upper cs

abbrev pub no_wildcard : List ℕ → Bool
no_wildcard [] = true
no_wildcard (c ∷ cs) = not (c == b'%') && (not (c == b'_') && no_wildcard cs)

no_percent : (ps : List ℕ) → no_wildcard ps ≡ true → has_percent ps ≡ false
no_percent [] h = refl
no_percent (p ∷ ps) h = ground (arith, no_percent ps)

fold_lower : (c : ℕ) → is_upper c ≡ false → fold_case c ≡ c
fold_lower c h = rw (h) refl

looks_like-is_prefix :
    (ps xs : List ℕ)
    → no_wildcard ps ≡ true
    → no_upper ps ≡ true
    → no_upper xs ≡ true
    → looks_like ps xs ≡ is_prefix ps xs
unfolding looks_like
looks_like-is_prefix [] xs w u v = refl
looks_like-is_prefix (p ∷ ps) [] w u v = refl
looks_like-is_prefix (p ∷ ps) (x ∷ xs) w u v =
    ground (arith, looks_like-is_prefix ps xs, fold_lower p, fold_lower x)

pub like_lem :
    (prefix key : String)
    → has_percent (codes prefix) ≡ false
    → like (prefix_pattern prefix) key ≡ looks_like (codes prefix) (codes key)
unfolding like prefix_pattern
like_lem prefix key h = matches_lem (codes prefix) (codes key) h

-- Of keys without capitals, a prefix without capitals and wildcards finds those that begin with it.
pub like-is_prefix :
    (prefix key : String)
    → no_wildcard (codes prefix) ≡ true
    → no_upper (codes prefix) ≡ true
    → no_upper (codes key) ≡ true
    → like (prefix_pattern prefix) key ≡ is_prefix (codes prefix) (codes key)
like-is_prefix prefix key w u v =
    like_lem prefix key (no_percent (codes prefix) w)
    ∙ looks_like-is_prefix (codes prefix) (codes key) w u v
