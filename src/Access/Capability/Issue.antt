-- ===== src/Access/Capability/Issue.antt =====
-- Issuing a capability (src/access/capability/issue.rs), and which ones could be redeemed now
-- (status.rs).
pub mod Effect
pub mod Bounds
use text.Mathlib.Text.{starts_with}
use skarbiec.Prelude.{
  ℕ, zero, suc, ◌+◌, ◌^◌, String, Bool, true, false, not, ◌&&◌, ◌||◌, Option, none, some, List, [],
  ◌∷◌, ltb, str_eq, if◌then◌else◌, Result, ok, err, ◌>>=◌, ◌>>◌, guard, or_fail,
}
use skarbiec.Prelude.Text.{parse_nonzero}
use skarbiec.Prelude.Dict.{Dict, lookup, insert}
use skarbiec.Access.Capability.State.{Record, State, redeemable}
use skarbiec.Access.Capability.Journal.{Fault, Entry, Disk, load_state, save_entry}
use skarbiec.Access.Capability.Request.{exact_token}

-- The command's flags, `none` where one is not given.
pub record Flags : Type 0 where
  pub agent : Option String
  pub purpose : Option String
  pub resource : Option String
  pub target : Option String
  pub ttl : Option String
  pub max_uses : Option String
  pub authorization_id : Option String

-- `resolves`: whether the route table gives the resource a coordinate; `serves`: whether the
-- credential there can serve. `fresh_id` is the digest of a random token.
pub record IssueEnv : Type 0 where
  pub now : ℕ
  pub fresh_id : String
  pub resolves : String → Bool
  pub serves : String → Bool
  pub outweighed : List Entry → State → Bool

pub data Refusal : Type 0 where
  inexact_flag bad_ttl bad_max_uses bad_authorization no_coordinate cannot_serve : Refusal
  expiry_overflow : Refusal
  storage : Fault → Refusal

abbrev exact_flag : Option String → Result Refusal String
exact_flag none = err inexact_flag
exact_flag (some value) = if exact_token value then ok value else err inexact_flag

abbrev number_flag : Option String → Refusal → Result Refusal ℕ
number_flag none e = err e
number_flag (some raw) e = or_fail (parse_nonzero raw) e

abbrev text_or_empty : Option String → String
text_or_empty none = ""
text_or_empty (some id) = id

abbrev stored : {A : Type 0} → Result Fault A → Result Refusal A
stored (ok a) = ok a
stored (err f) = err (storage f)

-- What the flags ask for, once every one of them passed.
unfoldable pub asked : IssueEnv → Flags → Result Refusal Record
unfolding exact_token
asked env flags = do
  agent ← exact_flag flags.agent
  purpose ← exact_flag flags.purpose
  resource ← exact_flag flags.resource
  target ← exact_flag flags.target
  ttl ← number_flag flags.ttl bad_ttl
  max_uses ← number_flag flags.max_uses bad_max_uses
  let authorization_id = text_or_empty flags.authorization_id
  guard (str_eq authorization_id "" || exact_token authorization_id) bad_authorization
  guard (starts_with resource "challenge:" || env.resolves resource) no_coordinate
  guard (starts_with resource "challenge:" || env.serves resource) cannot_serve
  guard (ltb (env.now + ttl) (2 ^ 64)) expiry_overflow
  ok (record {
    agent = some agent;
    purpose = some purpose;
    resource = some resource;
    target = some target;
    authorization_id = some authorization_id;
    issued_at = some env.now;
    expires_at = some (env.now + ttl);
    remaining_uses = some max_uses;
    state = some "issued";
  })

-- The new capability's id, and the journal with its record.
unfoldable pub issue : IssueEnv → Flags → Disk → Result Refusal (String × Disk)
issue env flags d = do
  r ← asked env flags
  (s, d') ← stored (load_state env.now d)
  let held = record s { capabilities = insert env.fresh_id r s.capabilities }
  d'' ← stored (save_entry env.outweighed held env.fresh_id none d')
  ok (env.fresh_id, d'')

abbrev is_redeemable : ℕ → Option Record → Bool
is_redeemable now none = false
is_redeemable now (some r) = redeemable now r

-- `live`: whether this capability could be redeemed now.
unfoldable pub live : ℕ → String → Disk → Result Fault Bool
live now id d = do (s, _) ← load_state now d; ok (is_redeemable now (lookup id s.capabilities))

abbrev count_redeemable : ℕ → Dict Record → ℕ
count_redeemable now [] = 0
count_redeemable now ((id, r) ∷ m) =
    let rest = count_redeemable now m in if redeemable now r then suc rest else rest

unfoldable pub active_count : ℕ → Disk → Result Fault ℕ
active_count now d = do (s, _) ← load_state now d; ok (count_redeemable now s.capabilities)
