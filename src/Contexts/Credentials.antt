-- ===== src/Contexts/Credentials.antt =====
-- charmhelpers/contrib/openstack/context.py: `IdentityCredentialsContext`, without the directory for
-- the signing of tokens. One context is filled by all units in turn.
use charm_helpers.Prelude.{
  ℕ, ◌+◌, ◌-◌, ◌*◌, String, ◌≡◌, refl, ap, ◌∙◌, List, [], ◌∷◌, Bool, true, false, not, ◌&&◌, ◌||◌,
  Option, none, some, or_else, some-injective, contains, if◌then◌else◌, Dict, lookup, update_dict,
  lookup-update_dict, lookup-insert, codes, leb, ltb, ◌==◌, arith, Bool-cases, inl, inr, All,
  str_eq,
}
use charm_helpers.Contexts.{
  Ctxt, Generator, is_missing, context_complete, Units, given, either_text, format_host,
}
use charm_helpers.Contexts.Search.{all_given, is_nil-missing_keys}

abbrev pub is_digit : ℕ → Bool
is_digit c = leb b'0' c && leb c b'9'

-- the digits after the point: whether the number is above 2
pub above_two_after : Bool → ℕ → Bool → List ℕ → Option Bool
above_two_after seen n nonzero [] = if seen then some (ltb 2 n || (n == 2 && nonzero)) else none
above_two_after seen n nonzero (c ∷ cs) =
    let rest = above_two_after true n (nonzero || not (c == b'0')) cs in
    if is_digit c then rest else none

pub above_two_before : Bool → ℕ → List ℕ → Option Bool
unfolding above_two_after
above_two_before seen n [] = if seen then some (ltb 2 n) else none
above_two_before seen n (c ∷ cs) =
    let rest = above_two_before true (n * 10 + (c - b'0')) cs in
    if is_digit c then rest else if c == b'.' then above_two_after seen n false cs else none

-- `float(api_version) > 2`, of a number in decimals; `none` is the `ValueError` of any other text
unfoldable pub above_two : String → Option Bool
unfolding above_two_before
above_two api_version = above_two_before false 0 (codes api_version)

-- the settings that every unit fills in
unfoldable pub credentials : (String → Bool) → Dict String → Ctxt
unfolding format_host
credentials is_ipv6 rdata =
    ("service_port", lookup "credentials_port" rdata)
    ∷ ("service_host", format_host is_ipv6 (lookup "credentials_host" rdata))
    ∷ ("auth_host", format_host is_ipv6 (lookup "auth_host" rdata))
    ∷ ("auth_port", lookup "auth_port" rdata)
    ∷ ("admin_tenant_name", lookup "credentials_project" rdata)
    ∷ ("admin_tenant_id", lookup "credentials_project_id" rdata)
    ∷ ("admin_user", lookup "credentials_username" rdata)
    ∷ ("admin_password", lookup "credentials_password" rdata)
    ∷ ("service_protocol", either_text (lookup "credentials_protocol" rdata) (some "http"))
    ∷ ("auth_protocol", either_text (lookup "auth_protocol" rdata) (some "http"))
    ∷ ("api_version", either_text (lookup "api_version" rdata) (some "2.0"))
    ∷ []

unfoldable pub api_version_of : Dict String → String
api_version_of rdata = or_else (either_text (lookup "api_version" rdata) none) "2.0"

abbrev pub service_type_of : Dict String → Ctxt
service_type_of rdata =
    if given (lookup "service_type" rdata)
    then ("service_type", lookup "service_type" rdata) ∷ []
    else []

abbrev pub domain_of : Bool → Dict String → Ctxt
domain_of true rdata = ("admin_domain_name", lookup "domain" rdata) ∷ []
domain_of false rdata = []

-- the context after one more unit
unfoldable pub fill : (String → Bool) → Bool → Dict String → Ctxt → Ctxt
unfolding credentials
fill is_ipv6 above rdata ctxt =
    update_dict (update_dict (update_dict ctxt (credentials is_ipv6 rdata)) (service_type_of rdata))
      (domain_of above rdata)

-- how a search ends: an exception, a context, or neither
pub data Search : Type 0 where
  raised : Search
  found : Ctxt → Search
  not_found : Ctxt → Search

-- the loop over the units of one relation
unfoldable pub credentials_units : (String → Bool) → Units → Ctxt → Generator → Search × Generator
unfolding above_two api_version_of fill context_complete
credentials_units is_ipv6 [] ctxt g = (not_found ctxt, g)
credentials_units is_ipv6 (rdata ∷ units) ctxt g = elim (above_two (api_version_of rdata)) [
  | none ↦ (raised, g)
  | some above ↦
      let ctxt1 = fill is_ipv6 above rdata ctxt in
      let (complete, g1) = context_complete ctxt1 g in
      let rest = credentials_units is_ipv6 units ctxt1 g1 in
      if complete then (found ctxt1, g1) else rest
]

-- the loop over the relations
unfoldable pub credentials_relations :
    (String → Bool) → List Units → Ctxt → Generator → Search × Generator
unfolding credentials_units
credentials_relations is_ipv6 [] ctxt g = (not_found ctxt, g)
credentials_relations is_ipv6 (units ∷ relations) ctxt g =
    let (end, g1) = credentials_units is_ipv6 units ctxt (record g { related = true }) in
    elim end [
      | raised ↦ (raised, g1)
      | found ctxt1 ↦ (found ctxt1, g1)
      | not_found ctxt1 ↦ credentials_relations is_ipv6 relations ctxt1 g1
    ]

-- `IdentityCredentialsContext.__call__`: `none` is the exception
unfoldable pub credentials_call : (String → Bool) → List Units → Generator → Option Ctxt × Generator
unfolding credentials_relations
credentials_call is_ipv6 relations g =
    let (end, g1) = credentials_relations is_ipv6 relations [] g in
    (elim end [ raised ↦ none | found ctxt ↦ some ctxt | not_found ctxt ↦ some [] ], g1)

-- The version of the unit is not above 2.
abbrev pub OfVersionTwo : Dict String → Type 0
OfVersionTwo rdata = above_two (api_version_of rdata) ≡ some false

-- the context with the domain that has no value
abbrev Stuck : Ctxt → Type 0
Stuck ctxt = lookup "admin_domain_name" ctxt ≡ some none

-- a context is not complete if a key has no data
pub all_given-is_missing :
    (k : String) (v : Option String) (ctxt : Ctxt)
    → is_missing v ≡ true
    → lookup k ctxt ≡ some v
    → all_given ctxt ≡ false
unfolding all_given
all_given-is_missing k v [] m h = ground arith
all_given-is_missing k v ((j, w) ∷ ctxt) m h =
    either (str_eq j k) h (all_given-is_missing k v ctxt m)
  where
    either :
        (b : Bool)
        → (if b then some w else lookup k ctxt) ≡ some v
        → (lookup k ctxt ≡ some v → all_given ctxt ≡ false)
        → (not (is_missing w) && all_given ctxt) ≡ false
    either true e rest =
        ap (λ o. not (is_missing o) && all_given ctxt) (some-injective _ _ e)
        ∙ ap (λ b. not b && all_given ctxt) m
    either false e rest = ground (arith, rest e)

credentials-domain :
    (is_ipv6 : String → Bool) (rdata : Dict String)
    → contains "admin_domain_name" (credentials is_ipv6 rdata) ≡ false
unfolding credentials
credentials-domain is_ipv6 rdata = refl

service_type_of-domain :
    (rdata : Dict String) → contains "admin_domain_name" (service_type_of rdata) ≡ false
service_type_of-domain rdata = elim (Bool-cases (given (lookup "service_type" rdata))) [
  | inl h ↦ rw (h) refl
  | inr h ↦ rw (h) refl
]

fill-Stuck :
    (is_ipv6 : String → Bool) (rdata : Dict String) (ctxt : Ctxt)
    → Stuck ctxt
    → Stuck (fill is_ipv6 false rdata ctxt)
unfolding fill
fill-Stuck is_ipv6 rdata ctxt h =
    lookup-update_dict "admin_domain_name" (update_dict ctxt (credentials is_ipv6 rdata))
      (service_type_of rdata) (service_type_of-domain rdata)
    ∙ (lookup-update_dict "admin_domain_name" ctxt (credentials is_ipv6 rdata)
          (credentials-domain is_ipv6 rdata)
        ∙ h)

Stuck-incomplete : (ctxt : Ctxt) (g : Generator) → Stuck ctxt → (context_complete ctxt g).0 ≡ false
unfolding context_complete
Stuck-incomplete ctxt g h =
    is_nil-missing_keys ctxt [] ∙ all_given-is_missing "admin_domain_name" none ctxt refl h

-- the search goes on, with the domain that has no value
abbrev StaysStuck : Search × Generator → Type 0
StaysStuck (raised, g) = ⊥
StaysStuck (found ctxt, g) = ⊥
StaysStuck (not_found ctxt, g) = Stuck ctxt

credentials_units-StaysStuck :
    (is_ipv6 : String → Bool) (units : Units) (ctxt : Ctxt) (g : Generator)
    → All OfVersionTwo units
    → Stuck ctxt
    → StaysStuck (credentials_units is_ipv6 units ctxt g)
unfolding credentials_units
credentials_units-StaysStuck is_ipv6 [] ctxt g all h = h
credentials_units-StaysStuck is_ipv6 (rdata ∷ units) ctxt g all h =
    rw
      (
        all.0,
        Stuck-incomplete (fill is_ipv6 false rdata ctxt) g (fill-Stuck is_ipv6 rdata ctxt h),
        credentials_units,
      )
      (credentials_units-StaysStuck is_ipv6 units (fill is_ipv6 false rdata ctxt) _ all.1
        (fill-Stuck is_ipv6 rdata ctxt h))

fill-without_domain :
    (is_ipv6 : String → Bool) (rdata : Dict String) (ctxt : Ctxt)
    → lookup "domain" rdata ≡ none
    → Stuck (fill is_ipv6 true rdata ctxt)
unfolding fill
fill-without_domain is_ipv6 rdata ctxt h =
    lookup-insert "admin_domain_name" "admin_domain_name" (lookup "domain" rdata)
      (update_dict (update_dict ctxt (credentials is_ipv6 rdata)) (service_type_of rdata))
    ∙ ap some h

stuck_result : (r : Search × Generator) → StaysStuck r → (ctxt : Ctxt) × (r.0 ≡ not_found ctxt)
stuck_result (raised, g) h = absurd h
stuck_result (found ctxt, g) h = absurd h
stuck_result (not_found ctxt, g) h = (ctxt, refl)

-- A first unit that speaks of a version above 2 and gives no domain keeps every later unit of the
-- relation from being used, though it may have all that its own version asks for: the call returns an
-- empty context if the others are all of version 2.
pub credentials_call-blocked :
    (is_ipv6 : String → Bool) (first : Dict String) (units : Units) (g : Generator)
    → above_two (api_version_of first) ≡ some true
    → lookup "domain" first ≡ none
    → All OfVersionTwo units
    → (credentials_call is_ipv6 ((first ∷ units) ∷ []) g).0 ≡ some []
unfolding credentials_call credentials_relations
credentials_call-blocked is_ipv6 first units g version domain all =
    let (ctxt, e) =
      stuck_result (credentials_units is_ipv6 (first ∷ units) [] (record g { related = true }))
        (starts (record g { related = true })) in
    rw (e, credentials_call, credentials_relations) refl
  where
    starts : (g1 : Generator) → StaysStuck (credentials_units is_ipv6 (first ∷ units) [] g1)
    starts g1 =
        rw
          (
            version,
            Stuck-incomplete (fill is_ipv6 true first []) g1
                (fill-without_domain is_ipv6 first [] domain),
            credentials_units,
          )
          (credentials_units-StaysStuck is_ipv6 units (fill is_ipv6 true first []) _ all
            (fill-without_domain is_ipv6 first [] domain))
