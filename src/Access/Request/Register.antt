-- ===== src/Access/Request/Register.antt =====
-- The register of access requests (src/access/request/register.rs): what was asked, and every
-- decision taken on it.
use mathlib.Core.Path.{subst}
use skarbiec.Prelude.{
  ℕ, String, Bool, ◌≡◌, Option, none, some, List, [], ◌∷◌, str_eq, arith, eq_iff, if◌then◌else◌,
  All, Bool-cases, inl, inr,
}
use skarbiec.Access.Capability.State.{is_text, is_text-true, is_text_self}
use skarbiec.Access.Request.Lifetime.{Lifetime}

-- The grant a request names; `record_only` is a request that the owning product acts on.
pub data Form : Type 0 where
  capability consumer record_only : Form

pub record Requester : Type 0 where
  pub agent : Option String
  pub harness : Option String
  pub host : Option String
  pub person : Option String

-- A member is `none` where it is absent or not of the type it is read as.
pub record NamedGrant : Type 0 where
  pub form : Option Form
  pub purpose : Option String
  pub target : Option String
  pub ttl_seconds : Option ℕ
  pub max_uses : Option ℕ
  pub delegation_depth : Option ℕ
  pub consumer : Option String

pub record Decision : Type 0 where
  pub by : Option String
  pub at : Option String
  pub answer : Option String
  pub lifetime : Option Lifetime
  pub uses : Option ℕ
  pub reason : Option String

-- What an approval issued.
pub data Issued : Type 0 where
  capability_issued : String → String → Option ℕ → Issued
  consumer_issued : String → String → Option ℕ → Issued
  owner_acts : String → Issued

pub record AccessRequest : Type 0 where
  pub id : Option String
  pub requested_at : Option String
  pub requester : Requester
  pub kind : Option String
  pub resource : Option String
  pub action : Option String
  pub reason : Option String
  pub decider : Option String
  pub dual_control : Bool
  pub grant : NamedGrant
  pub via : Option String
  pub state : Option String
  pub decisions : Option (List Decision)
  pub issued : Option Issued

-- The first request with this id.
unfoldable pub find : String → List AccessRequest → Option AccessRequest
find id [] = none
find id (r ∷ rs) = if is_text id r.id then some r else find id rs

-- The register with the request that `find` gives replaced: a write through its reference.
unfoldable pub put : String → AccessRequest → List AccessRequest → List AccessRequest
put id new [] = []
put id new (r ∷ rs) = let rest = put id new rs in if is_text id r.id then new ∷ rs else r ∷ rest

-- `request list --state`
unfoldable pub in_state : String → List AccessRequest → List AccessRequest
in_state word [] = []
in_state word (r ∷ rs) =
    let rest = in_state word rs in if is_text word r.state then r ∷ rest else rest

pub find-id :
    (id : String) (rs : List AccessRequest) {r : AccessRequest}
    → find id rs ≡ some r
    → r.id ≡ some id
unfolding find
find-id id [] h = cc
find-id id (x ∷ rs) {r} h = elim (Bool-cases (is_text id x.id)) [
  | inl here ↦ ground (arith, is_text-true id x.id here)
  | inr past ↦ find-id id rs {r = r} (ground arith)
]

-- A replaced request is found under its id, and every other one as before.
pub find-put :
    (id : String) (new : AccessRequest) (rs : List AccessRequest) {r : AccessRequest}
    → find id rs ≡ some r
    → new.id ≡ some id
    → (j : String) → find j (put id new rs) ≡ (if str_eq id j then some new else find j rs)
unfolding find put
find-put id new [] h e j = cc
find-put id new (x ∷ rs) {r} h e j = elim (Bool-cases (is_text id x.id)) [
  | inl here ↦ ground (arith, is_text-true id x.id here, eq_iff id j)
  | inr past ↦
      let later = find-put id new rs {r = r} (ground arith) e j in
      ground (arith, later, is_text-true j x.id, eq_iff id j, is_text_self id)
]

-- A predicate that holds of the whole register holds of what is found in it.
module _ (P : AccessRequest → Type 0) where
  pub All-find :
      (id : String) (rs : List AccessRequest) {r : AccessRequest}
      → All P rs
      → find id rs ≡ some r
      → P r
  unfolding find
  All-find id [] all h = cc
  All-find id (x ∷ rs) {r} (p, all) h = elim (Bool-cases (is_text id x.id)) [
    | inl here ↦ subst P (ground arith) p
    | inr past ↦ All-find id rs {r = r} all (ground arith)
  ]

  pub All-put :
      (id : String) (new : AccessRequest) (rs : List AccessRequest)
      → All P rs
      → P new
      → All P (put id new rs)
  unfolding put
  All-put id new [] all p = tt
  All-put id new (x ∷ rs) (q, all) p = elim (Bool-cases (is_text id x.id)) [
    | inl here ↦ rw here (p, all)
    | inr past ↦ rw past (q, All-put id new rs all p)
  ]
