-- ===== src/Ceph/Broker/Conversation.antt =====
-- charmhelpers/contrib/storage/linux/ceph.py: when two requests are equal, when one counts as sent
-- or as complete, and that sending is done once.
use charm_helpers.Prelude.{
  String, ◌≡◌, refl, ap, ◌↔◌, List, [], ◌∷◌, true, Option, none, some, arith, eq_iff, Bool-cases,
  Option-cases, inl, inr, All, same_text,
}
use charm_helpers.Ceph.Broker.{
  Op, op_get, Rq, keys_to_compare, same_values, ops_equal, equal, is_complete_for, Relation,
  state_on, get_request_states, all_sent, all_complete, is_request_sent, is_request_complete,
  send_to_all, send_request_if_needed,
}

same_text_iff : (a b : Option String) → (same_text a b ≡ true) ↔ (a ≡ b)
same_text_iff none none = ground arith
same_text_iff none (some b) = ground arith
same_text_iff (some a) none = ground arith
same_text_iff (some a) (some b) = (λ e. ap some ((eq_iff a b).0 e), λ e. ground (arith, eq_iff a b))

-- The ops agree on the keys.
abbrev pub AgreeOn : List String → Op → Op → Type 0
AgreeOn ks a b = All (λ k. op_get k a ≡ op_get k b) ks

same_values_iff : (ks : List String) (a b : Op) → (same_values ks a b ≡ true) ↔ AgreeOn ks a b
unfolding same_values
same_values_iff [] a b = (λ _. tt, λ _. refl)
same_values_iff (k ∷ ks) a b =
    ground (arith, same_values_iff ks a b, same_text_iff (op_get k a) (op_get k b))

-- As many ops, and those at one place agree on the keys.
abbrev pub OpsAgree : List Op → List Op → Type 0
OpsAgree [] [] = Unit
OpsAgree (a ∷ as_) (b ∷ bs) = AgreeOn keys_to_compare a b × OpsAgree as_ bs
OpsAgree [] (b ∷ bs) = ⊥
OpsAgree (a ∷ as_) [] = ⊥

ops_equal_iff : (as_ bs : List Op) → (ops_equal as_ bs ≡ true) ↔ OpsAgree as_ bs
unfolding ops_equal
ops_equal_iff [] [] = (λ _. tt, λ _. refl)
ops_equal_iff [] (b ∷ bs) = (λ h. cc, λ h. absurd h)
ops_equal_iff (a ∷ as_) [] = (λ h. cc, λ h. absurd h)
ops_equal_iff (a ∷ as_) (b ∷ bs) =
    let (same, agree) = same_values_iff keys_to_compare a b in
    let (to, from) = ops_equal_iff as_ bs in
    (λ h. (same (ground arith), to (ground arith)), λ h. ground (arith, agree h.0, from h.1))

-- Two requests are equal exactly if they have one API version and as many ops, and the ops at one
-- place agree on the keys that are compared. Keys that are not compared, such as the k and m of an
-- erasure profile, make no difference.
pub equal_iff :
    (a b : Rq)
    → (equal a (some b) ≡ true) ↔ ((a.api_version ≡ b.api_version) × OpsAgree a.ops b.ops)
unfolding equal
equal_iff a b =
    let (to, from) = ops_equal_iff a.ops b.ops in
    (λ h. (ground arith, to (ground arith)), λ h. ground (arith, from h.1, h.0))

AgreeOn-refl : (ks : List String) (a : Op) → AgreeOn ks a a
AgreeOn-refl [] a = tt
AgreeOn-refl (k ∷ ks) a = (refl, AgreeOn-refl ks a)

OpsAgree-refl : (as_ : List Op) → OpsAgree as_ as_
OpsAgree-refl [] = tt
OpsAgree-refl (a ∷ as_) = (AgreeOn-refl keys_to_compare a, OpsAgree-refl as_)

equal_self : (a : Rq) → equal a (some a) ≡ true
equal_self a = (equal_iff a a).1 (refl, OpsAgree-refl a.ops)

send_to_all-sent : (rq : Rq) (rs : List Relation) → is_request_sent rq (send_to_all rq rs) ≡ true
unfolding is_request_sent get_request_states all_sent state_on send_to_all
send_to_all-sent rq [] = refl
send_to_all-sent rq (r ∷ rs) = ground (arith, send_to_all-sent rq rs, equal_self rq)

-- After `send_request_if_needed` the request counts as sent on every relation, and a second call
-- sends nothing.
pub send_once :
    (rq : Rq) (rs : List Relation)
    → (is_request_sent rq (send_request_if_needed rq rs) ≡ true)
      × (send_request_if_needed rq (send_request_if_needed rq rs) ≡ send_request_if_needed rq rs)
unfolding send_request_if_needed
send_once rq rs =
    let sent : is_request_sent rq (send_request_if_needed rq rs) ≡ true =
      elim (Bool-cases (is_request_sent rq rs)) [
        | inl before ↦ rw (before, send_request_if_needed) before
        | inr fresh ↦ rw (fresh, send_request_if_needed) (send_to_all-sent rq rs)
      ] in
    (sent, go (send_request_if_needed rq rs) sent)
  where
    go : (l : List Relation) → is_request_sent rq l ≡ true → send_request_if_needed rq l ≡ l
    go l h = rw (h, send_request_if_needed) refl

-- The relation carries an equal request, and some remote unit has answered that request.
abbrev pub Completes : Rq → Relation → Type 0
Completes rq r =
    (p : Rq) × (r.broker_req ≡ some p)
    × (equal rq (some p) ≡ true)
    × (is_complete_for p.request_id r.units ≡ true)

Completes-iff : (rq : Rq) (r : Relation) → ((state_on rq r).complete ≡ true) ↔ Completes rq r
unfolding state_on equal
Completes-iff rq r = elim (Option-cases r.broker_req) [
  | inl unsent ↦ (λ h. ground arith, λ (p, e, _, _). ground arith)
  | inr (p, e) ↦ (λ h. (p, e, ground arith, ground arith), λ (q, e', same, done). ground arith)
]

-- `is_request_complete` says True exactly if every ceph relation carries an equal request that one
-- of its remote units has answered with success; so also where there is no relation at all.
pub is_request_complete_iff :
    (rq : Rq) (rs : List Relation) → (is_request_complete rq rs ≡ true) ↔ All (Completes rq) rs
unfolding is_request_complete get_request_states all_complete
is_request_complete_iff rq [] = (λ _. tt, λ _. refl)
is_request_complete_iff rq (r ∷ rs) =
    let (to, from) = Completes-iff rq r in
    let (rest_to, rest_from) = is_request_complete_iff rq rs in
    (λ h. (to (ground arith), rest_to (ground arith)), λ h. ground (arith, from h.0, rest_from h.1))
