-- ===== src/Access/Request/Decide.antt =====
-- Deciding an access request (src/access/request/decide.rs): who may, what they must state, and
-- the grant that an approval issues.
use Prim.Native.String
use skarbiec.Prelude.{
  ℕ, ◌+◌, ◌^◌, String, Bool, true, false, not, Option, none, some, List, [], ltb, ◌==◌, str_eq,
  if◌then◌else◌, any, Result, ok, err, ◌>>=◌, ◌>>◌, guard, or_fail,
}
use skarbiec.Prelude.Dict.{Dict, lookup, contains_key}
use skarbiec.Prelude.Decimal.{decimal}
use skarbiec.Access.Grant.{Token}
use skarbiec.Access.Capability.State.{is_text}
use skarbiec.Access.Capability.Journal.{Disk}
use skarbiec.Access.Capability.Issue
use skarbiec.Access.Capability.Issue.{IssueEnv, Flags}
use skarbiec.Access.Request.Lifetime.{Lifetime, seconds, until_revoked}
use skarbiec.Access.Request.Register.{
  Form, capability, consumer, record_only, Decision, Issued, capability_issued, consumer_issued,
  owner_acts, AccessRequest,
}

pub data Role : Type 0 where
  owner admin other : Role

unfoldable pub role_of : String → Role
role_of word = if str_eq word "owner" then owner else if str_eq word "admin" then admin else other

-- A row of the vault's recipients table.
pub record Recipient : Type 0 where
  pub role : Option String
  pub fingerprint : Option String

pub data Refusal : Type 0 where
  no_register no_request damaged not_pending no_vault not_a_recipient no_role : Refusal
  may_not_decide for_another no_fingerprint key_unknown key_elsewhere already_decided : Refusal
  uses_required always_expires not_counted zero_uses no_form no_lifetime : Refusal
  holds_a_grant : Refusal
  grant_refused : Refusal
  capability_refused : Issue.Refusal → Refusal

-- What one command meets besides the stored files.
pub record Env : Type 0 where
  pub issuing : IssueEnv
  pub now_iso : String
  pub recipients : Option (Dict Recipient)
  -- `secret_key_present` of a fingerprint: `none` is a keyring that cannot be asked.
  pub secret_key_present : String → Option Bool
  -- `grant issue` of a consumer, a capability and a lifetime, on the vault's tokens: the
  -- capabilities and the expiry it answers with, and the tokens it leaves.
  pub grant_issue :
      String → String → Lifetime → Dict Token → Option ((String × Option ℕ) × Dict Token)

-- The stored files: the register (`none` is damaged, an absent one is empty), the capability
-- journal and the vault's tokens.
pub record World : Type 0 where
  pub register : Option (List AccessRequest)
  pub capabilities : Disk
  pub tokens : Dict Token

abbrev pub decides : Role → Bool
decides owner = true
decides admin = true
decides other = false

-- Whether the request's decider, as a role or as a uid, is this recipient.
unfoldable pub is_named : Role → Role → String → String → Bool
is_named admin role decider by = true
is_named owner owner decider by = true
is_named owner admin decider by = false
is_named owner other decider by = false
is_named other role decider by = str_eq decider by

abbrev pub or_no_list {ℓ} : {A : Type ℓ} → Option (List A) → List A
or_no_list none = []
or_no_list (some xs) = xs

abbrev pub has_decided : String → List Decision → Bool
has_decided by ds = any (λ (d : Decision). is_text by d.by) ds

unfoldable pub authorize : Env → AccessRequest → String → Result Refusal (Unit {0})
authorize env r by = do
  id ← or_fail r.id damaged
  state ← or_fail r.state damaged
  guard (str_eq state "pending") not_pending
  recipients ← or_fail env.recipients no_vault
  recipient ← or_fail (lookup by recipients) not_a_recipient
  role ← or_fail recipient.role no_role
  guard (decides (role_of role)) may_not_decide
  decider ← or_fail r.decider damaged
  guard (is_named (role_of decider) (role_of role) decider by) for_another
  fingerprint ← or_fail recipient.fingerprint no_fingerprint
  present ← or_fail (env.secret_key_present fingerprint) key_unknown
  guard present key_elsewhere
  guard (not (has_decided by (or_no_list r.decisions))) already_decided

abbrev at_least_one : ℕ → Result Refusal (Option ℕ)
at_least_one n = if n == 0 then err zero_uses else ok (some n)

unfoldable pub uses_for : Form → Option ℕ → Lifetime → Result Refusal (Option ℕ)
uses_for capability none lifetime = err uses_required
uses_for capability (some n) until_revoked = err always_expires
uses_for capability (some n) (seconds ttl) = at_least_one n
uses_for consumer (some n) lifetime = err not_counted
uses_for consumer none lifetime = ok none
uses_for record_only none lifetime = ok none
uses_for record_only (some n) lifetime = at_least_one n

-- The flags with which an approval issues a capability.
unfoldable pub capability_flags : AccessRequest → String → ℕ → ℕ → Result Refusal Flags
capability_flags r id ttl uses = do
  agent ← or_fail r.requester.agent damaged
  purpose ← or_fail r.grant.purpose damaged
  resource ← or_fail r.resource damaged
  target ← or_fail r.grant.target damaged
  ok (record {
    agent = some agent;
    purpose = some purpose;
    resource = some resource;
    target = some target;
    ttl = some (decimal ttl);
    max_uses = some (decimal uses);
    authorization_id = some id;
  })

abbrev capability_result : {A : Type 0} → Result Issue.Refusal A → Result Refusal A
capability_result (ok a) = ok a
capability_result (err e) = err (capability_refused e)

-- `now_epoch().checked_add_unsigned(ttl)`, on signed 64-bit seconds.
abbrev signed_expiry : ℕ → ℕ → Option ℕ
signed_expiry now ttl = if ltb (now + ttl) (2 ^ 63) then some (now + ttl) else none

unfoldable pub issue_capability :
    Env → AccessRequest → String → Lifetime → Option ℕ → World → Result Refusal (Issued × World)
issue_capability env r id until_revoked uses w = err always_expires
issue_capability env r id (seconds ttl) uses w = do
  n ← or_fail uses uses_required
  flags ← capability_flags r id ttl n
  (capability_id, disk) ← capability_result (Issue.issue env.issuing flags w.capabilities)
  ok (
    capability_issued capability_id id (signed_expiry env.issuing.now ttl),
    record w { capabilities = disk },
  )

unfoldable pub issue_consumer :
    Env → AccessRequest → Lifetime → World → Result Refusal (Issued × World)
issue_consumer env r lifetime w = do
  name ← or_fail r.grant.consumer damaged
  guard (not (contains_key name w.tokens)) holds_a_grant
  action ← or_fail r.action damaged
  resource ← or_fail r.resource damaged
  let capabilities = String.◌++◌ action (String.◌++◌ ":" resource)
  (answer, tokens) ← or_fail (env.grant_issue name capabilities lifetime w.tokens) grant_refused
  ok (consumer_issued name answer.0 answer.1, record w { tokens = tokens })

abbrev issue_form :
    Env
    → AccessRequest
    → String
    → Form
    → Lifetime
    → Option ℕ
    → World
    → Result Refusal (Issued × World)
issue_form env r id capability lifetime uses w = issue_capability env r id lifetime uses w
issue_form env r id consumer lifetime uses w = issue_consumer env r lifetime w
issue_form env r id record_only lifetime uses w = do
  kind ← or_fail r.kind damaged
  ok (owner_acts kind, w)

-- The grant the request names, within the bounds the deciders stated.
unfoldable pub issue :
    Env → AccessRequest → Lifetime → Option ℕ → World → Result Refusal (Issued × World)
issue env r lifetime uses w = do
  id ← or_fail r.id damaged
  form ← or_fail r.grant.form no_form
  issue_form env r id form lifetime uses w
