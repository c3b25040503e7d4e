-- ===== src/Ceph/Broker.antt =====
-- charmhelpers/contrib/storage/linux/ceph.py: class CephBrokerRq, and the conversation with the
-- broker over the ceph relations. JSON on the wire is the value that it stands for.
pub mod Conversation
use charm_helpers.Prelude.{
  ℕ, String, ◌≡◌, refl, sym, ◌∙◌, ap, ◌↔◌, List, [], ◌∷◌, ◌++◌, Bool, true, false, not, ◌&&◌, ◌||◌,
  Option, none, some, arith, ◌==◌, str_eq, eq_iff, eq_refl, if◌then◌else◌, or_else, Dict, lookup,
  insert, lookup-insert, keys, Bool-cases, Option-cases, inl, inr, ◌>>=◌, same_text,
}

-- A value of an op by its JSON text; none is null.
abbrev pub Op : Type 0
Op = Dict (Option String)

-- `op.get(key)`
abbrev pub op_get : String → Op → Option String
op_get key op = lookup key op >>= λ v. v

-- The request id is the SHA-1 of the ops, by a hash that is not modelled.
pub record Rq : Type 0 where
  pub api_version : ℕ
  pub ops : List Op
  pub request_id : String

-- `_partial_build_common_op_create().keys()`
unfoldable pub common_keys : List String
common_keys =
    "app-name" ∷ "compression-algorithm" ∷ "compression-mode" ∷ "compression-required-ratio"
    ∷ "compression-min-blob-size" ∷ "compression-min-blob-size-hdd"
    ∷ "compression-min-blob-size-ssd" ∷ "compression-max-blob-size"
    ∷ "compression-max-blob-size-hdd" ∷ "compression-max-blob-size-ssd" ∷ "group" ∷ "max-bytes"
    ∷ "max-objects" ∷ "group-namespace" ∷ "rbd-mirroring-mode" ∷ "weight" ∷ []

unfoldable pub keys_to_compare : List String
unfolding common_keys
keys_to_compare =
    "replicas" ∷ "name" ∷ "op" ∷ "pg_num" ∷ "group-permission" ∷ "object-prefix-permissions"
    ∷ common_keys

unfoldable pub same_values : List String → Op → Op → Bool
same_values [] a b = true
same_values (k ∷ ks) a b = same_text (op_get k a) (op_get k b) && same_values ks a b

-- `_ops_equal`: as many ops, which agree on the keys one by one
unfoldable pub ops_equal : List Op → List Op → Bool
ops_equal [] [] = true
ops_equal (a ∷ as_) (b ∷ bs) = same_values keys_to_compare a b && ops_equal as_ bs
ops_equal [] (b ∷ bs) = false
ops_equal (a ∷ as_) [] = false

-- `__eq__`, against a request or None
unfoldable pub equal : Rq → Option Rq → Bool
equal a none = false
equal a (some b) = a.api_version == b.api_version && ops_equal a.ops b.ops

-- what a `dict` equality of ops needs, for `add_op`
abbrev pub Matcher : Type 0
Matcher = Op → List Op → Bool

-- `add_op`, with Python's `op in self.ops` and the hash of the ops
pub add_op : Matcher → (List Op → String) → Op → Rq → Rq
add_op is_in hash op rq =
    if is_in op rq.ops
    then rq
    else record rq { ops = rq.ops ++ op ∷ []; request_id = hash (rq.ops ++ op ∷ []) }

-- `CephBrokerRsp`: an exit code of 0 or none is a success
pub record Rsp : Type 0 where
  pub request_id : Option String
  pub exit_code : Option ℕ

abbrev pub succeeded : Rsp → Bool
succeeded r = elim r.exit_code [ none ↦ true | some c ↦ c == 0 ]

-- What one remote unit has set: the reply to this unit under its key, and the legacy reply.
pub record RemoteUnit : Type 0 where
  pub reply : Option Rsp
  pub legacy : Option Rsp

abbrev pub has_id : Option String → Bool
has_id none = false
has_id (some i) = not (str_eq i "")

-- one round of the loop of `is_request_complete_for_rid`: whether it returns True
pub unit_completes : String → RemoteUnit → Bool
unit_completes id u = elim u.reply [
  | some rsp ↦ same_text rsp.request_id (some id) && succeeded rsp
  | none ↦ elim u.legacy [ none ↦ false | some rsp ↦ not (has_id rsp.request_id) && succeeded rsp ]
]

-- `is_request_complete_for_rid`
pub is_complete_for : String → List RemoteUnit → Bool
unfolding unit_completes
is_complete_for id [] = false
is_complete_for id (u ∷ us) = unit_completes id u || is_complete_for id us

-- One ceph relation: its id, what this unit has sent on it, and its remote units.
pub record Relation : Type 0 where
  pub rid : String
  pub broker_req : Option Rq
  pub units : List RemoteUnit

pub record RequestState : Type 0 where
  pub sent : Bool
  pub complete : Bool

pub state_on : Rq → Relation → RequestState
state_on rq r =
    if equal rq r.broker_req
    then record {
      sent = true;
      complete = elim r.broker_req [ none ↦ false | some p ↦ is_complete_for p.request_id r.units ];
    }
    else record { sent = false; complete = false }

-- `get_request_states`
pub get_request_states : Rq → List Relation → Dict RequestState
get_request_states rq [] = []
get_request_states rq (r ∷ rs) = (r.rid, state_on rq r) ∷ get_request_states rq rs

pub all_sent : Dict RequestState → Bool
all_sent [] = true
all_sent ((_, s) ∷ d) = s.sent && all_sent d

pub all_complete : Dict RequestState → Bool
all_complete [] = true
all_complete ((_, s) ∷ d) = s.complete && all_complete d

-- `is_request_sent`
pub is_request_sent : Rq → List Relation → Bool
is_request_sent rq rs = all_sent (get_request_states rq rs)

-- `is_request_complete`
pub is_request_complete : Rq → List Relation → Bool
is_request_complete rq rs = all_complete (get_request_states rq rs)

pub send_to_all : Rq → List Relation → List Relation
send_to_all rq [] = []
send_to_all rq (r ∷ rs) = record r { broker_req = some rq } ∷ send_to_all rq rs

-- `send_request_if_needed`
pub send_request_if_needed : Rq → List Relation → List Relation
send_request_if_needed rq rs = if is_request_sent rq rs then rs else send_to_all rq rs
