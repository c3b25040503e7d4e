-- ===== src/Contexts/Ceph/First.antt =====
-- charmhelpers/contrib/openstack/context.py: which unit the keys of `CephContext` are taken from.
use charm_helpers.Prelude.{
  String, ◌≡◌, refl, sym, ap, ◌∙◌, List, [], ◌∷◌, ◌++◌, Bool, true, false, ◌&&◌, Option, none, some,
  is_some, if◌then◌else◌, lookup, arith, Bool-cases, inl, inr, join_with, subst,
}
use mathlib.Core.Bool.{false≢true}
use charm_helpers.Contexts.{Ctxt, Generator, given, context_complete}
use charm_helpers.Contexts.Search.{all_given, is_nil-missing_keys}
use charm_helpers.Contexts.Amqp.{RelatedUnit, sorted}
use charm_helpers.Contexts.Ceph.{
  Ceph, Filled, at, fill_in, fill_ceph, all_units, entry, data_pool, ceph_context, ceph_complete,
  new_filled, ceph_call,
}

-- An independent description: the first text that a unit has sent, other than the empty one.
unfoldable pub first_sent : String → List RelatedUnit → Option String
first_sent k [] = none
first_sent k (u ∷ units) =
    let rest = first_sent k units in if given (lookup k u.rdata) then lookup k u.rdata else rest

fill_each : String → List RelatedUnit → Option (Option String) → Option (Option String)
fill_each k [] o = o
fill_each k (u ∷ units) o = fill_each k units (fill_in o (lookup k u.rdata))

auth-fill_ceph :
    (is_ipv6 : String → Bool) (units : List RelatedUnit) (f : Filled)
    → (fill_ceph is_ipv6 units f).auth ≡ fill_each "auth" units f.auth
unfolding fill_ceph fill_each
auth-fill_ceph is_ipv6 [] f = refl
auth-fill_ceph is_ipv6 (u ∷ units) f = auth-fill_ceph is_ipv6 units _

key-fill_ceph :
    (is_ipv6 : String → Bool) (units : List RelatedUnit) (f : Filled)
    → (fill_ceph is_ipv6 units f).key ≡ fill_each "key" units f.key
unfolding fill_ceph fill_each
key-fill_ceph is_ipv6 [] f = refl
key-fill_ceph is_ipv6 (u ∷ units) f = key-fill_ceph is_ipv6 units _

-- a value that was there stays, and the first that is sent comes in otherwise
fill_each_kept :
    (k : String) (units : List RelatedUnit) (o : Option (Option String))
    → given (at o) ≡ true
    → fill_each k units o ≡ o
unfolding fill_each
fill_each_kept k [] o h = refl
fill_each_kept k (u ∷ units) o h = rw (h) (fill_each_kept k units o h)

-- The value is the first that was sent; if there is none, there is no value that counts.
abbrev IsFirst : Option (Option String) → Option String → Type 0
IsFirst o first = (given (at o) ≡ is_some first) × (is_some first ≡ true → at o ≡ first)

fill_each-IsFirst :
    (k : String) (units : List RelatedUnit) (o : Option (Option String))
    → given (at o) ≡ false
    → IsFirst (fill_each k units o) (first_sent k units)
unfolding fill_each first_sent
fill_each-IsFirst k [] o h = (h, λ e. absurd (false≢true e))
fill_each-IsFirst k (u ∷ units) o h = elim (Bool-cases (given (lookup k u.rdata))) [
  | inl e ↦
      rw (h, e, fill_each_kept k units (some (lookup k u.rdata)) e)
        (e ∙ sym (given-is_some (lookup k u.rdata) e), λ _. refl)
  | inr e ↦ rw (h, e) (fill_each-IsFirst k units (some (lookup k u.rdata)) e)
]
  where
    given-is_some : (v : Option String) → given v ≡ true → is_some v ≡ true
    given-is_some v h = ground arith

-- the context without the two keys
pub others : Ceph → Filled → Ctxt
others c f =
    ("use_syslog", some c.use_syslog)
    ∷ (entry "rbd_features" f.rbd_features
        ++ (("mon_hosts", some (join_with " " (sorted f.mon_hosts))) ∷ data_pool c))

given_both :
    (a b : Option (Option String)) (s : Option String) (rest : Ctxt)
    → (is_some a
        && is_some b
        && all_given (("use_syslog", s) ∷ (entry "auth" a ++ (entry "key" b ++ rest))))
      ≡ (given (at a) && given (at b) && all_given (("use_syslog", s) ∷ rest))
unfolding all_given
given_both none b s rest = refl
given_both (some a) none s rest = ground arith
given_both (some a) (some b) s rest = ground arith

ceph_complete-given :
    (c : Ceph) (f : Filled) (g : Generator)
    → (ceph_complete c f g).0 ≡ (given (at f.auth) && given (at f.key) && all_given (others c f))
unfolding ceph_complete ceph_context context_complete others
ceph_complete-given c f g =
    either (is_some f.auth && is_some f.key) ∙ given_both f.auth f.key (some c.use_syslog) _
  where
    either :
        (b : Bool)
        → (if b then context_complete (ceph_context c f) g else (false, g)).0
          ≡ (b && all_given (ceph_context c f))
    either true = is_nil-missing_keys (ceph_context c f) []
    either false = refl

lookup-entries :
    (a b : Option (Option String)) (s : Option String) (rest : Ctxt)
    → given (at a) ≡ true
    → given (at b) ≡ true
    → (lookup "auth" (("use_syslog", s) ∷ (entry "auth" a ++ (entry "key" b ++ rest)))
        ≡ some (at a))
      × (lookup "key" (("use_syslog", s) ∷ (entry "auth" a ++ (entry "key" b ++ rest)))
          ≡ some (at b))
lookup-entries none b s rest h k = absurd (false≢true h)
lookup-entries (some a) none s rest h k = absurd (false≢true k)
lookup-entries (some a) (some b) s rest h k = (refl, refl)

both_of : (a b c : Bool) → (a && b && c) ≡ true → (a ≡ true) × (b ≡ true)
both_of true true c h = (refl, refl)
both_of true false c h = absurd (false≢true h)
both_of false b c h = absurd (false≢true h)

-- With a relation, a context is returned, and `ceph-common` asked for, exactly if some unit has sent
-- an `auth`, some unit a `key`, and no other key of the context is empty. The two are then what the
-- first unit to send one has sent, and not always of one unit.
pub ceph_call_lem :
    (c : Ceph) (units : List RelatedUnit) (relations : List (List RelatedUnit)) (g : Generator)
    → ((ceph_call c (units ∷ relations) g).ensured ≡ (
        is_some (first_sent "auth" (all_units (units ∷ relations)))
        && is_some (first_sent "key" (all_units (units ∷ relations)))
        && all_given (others c (fill_ceph c.is_ipv6 (all_units (units ∷ relations)) new_filled))))
      × ((lookup "auth" (ceph_call c (units ∷ relations) g).result ≡ (
            if (ceph_call c (units ∷ relations) g).ensured
            then some (first_sent "auth" (all_units (units ∷ relations)))
            else none))
          × (lookup "key" (ceph_call c (units ∷ relations) g).result ≡ (
              if (ceph_call c (units ∷ relations) g).ensured
              then some (first_sent "key" (all_units (units ∷ relations)))
              else none)))
unfolding ceph_call
ceph_call_lem c units relations g = (counted, by_complete (ceph_complete c f g).0 refl)
  where
    sent : List RelatedUnit
    sent = all_units (units ∷ relations)

    f : Filled
    f = fill_ceph c.is_ipv6 sent new_filled

    auth_first : IsFirst f.auth (first_sent "auth" sent)
    auth_first =
        subst (λ o. IsFirst o (first_sent "auth" sent))
          (sym (auth-fill_ceph c.is_ipv6 sent new_filled)) (fill_each-IsFirst "auth" sent none refl)

    key_first : IsFirst f.key (first_sent "key" sent)
    key_first =
        subst (λ o. IsFirst o (first_sent "key" sent))
          (sym (key-fill_ceph c.is_ipv6 sent new_filled)) (fill_each-IsFirst "key" sent none refl)

    counted : (ceph_complete c f g).0 ≡ (
        is_some (first_sent "auth" sent)
        && is_some (first_sent "key" sent)
        && all_given (others c f))
    counted = rw (ceph_complete-given c f g, auth_first.0, key_first.0) refl

    by_complete :
        (b : Bool)
        → (ceph_complete c f g).0 ≡ b
        → (lookup "auth" (if b then ceph_context c f else [])
            ≡ (if b then some (first_sent "auth" sent) else none))
          × (lookup "key" (if b then ceph_context c f else [])
              ≡ (if b then some (first_sent "key" sent) else none))
    by_complete false h = (refl, refl)
    by_complete true h =
        let (ga, gk) =
          both_of (given (at f.auth)) (given (at f.key)) _ (sym (ceph_complete-given c f g) ∙ h) in
        let (has_auth, has_key) =
          lookup-entries f.auth f.key (some c.use_syslog)
            (entry "rbd_features" f.rbd_features
              ++ (("mon_hosts", some (join_with " " (sorted f.mon_hosts))) ∷ data_pool c))
            ga gk in
        (
          has_auth ∙ ap some (auth_first.1 (sym auth_first.0 ∙ ga)),
          has_key ∙ ap some (key_first.1 (sym key_first.0 ∙ gk)),
        )
