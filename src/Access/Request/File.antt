-- ===== src/Access/Request/File.antt =====
-- Filing an access request (src/access/request/file.rs): the flags become one question, which is
-- recorded, or answered by the same question that is still open.
pub mod Filed
pub mod Lines
pub mod Same
pub mod Answered
use skarbiec.Prelude.{
  ℕ, String, Bool, true, false, not, ◌&&◌, ◌||◌, Option, none, some, List, [], ◌∷◌, ◌++◌, ltb, leb,
  ◌==◌, str_eq, if◌then◌else◌, any, all, is_some, Result, ok, err, ◌>>=◌, ◌>>◌, guard, or_fail,
}
use skarbiec.Prelude.Text.{codes, split_once, parse_u64, parse_nonzero, is_trimmed, same_text}
use skarbiec.Prelude.Dict.{Dict, lookup}
use skarbiec.Access.Capability.State.{is_text}
use skarbiec.Access.Capability.Request.{exact_token}
use skarbiec.Access.Request.Register.{
  Form, capability, consumer, record_only, Requester, NamedGrant, AccessRequest,
}
use skarbiec.Access.Request.Decide.{World}

pub data Kind : Type 0 where
  secret device membership : Kind

unfoldable pub named : String → Option Kind
named word =
    if str_eq word "secret"
    then some secret
    else if str_eq word "device"
    then some device
    else if str_eq word "membership"
    then some membership
    else none

unfoldable pub name : Kind → String
name secret = "secret"
name device = "device"
name membership = "membership"

-- The command's flags, `none` where one is not given.
pub record Flags : Type 0 where
  pub kind : Option String
  pub decider : Option String
  pub action : Option String
  pub resource : Option String
  pub purpose : Option String
  pub target : Option String
  pub ttl_seconds : Option String
  pub max_uses : Option String
  pub delegation_depth : Option String
  pub for_consumer : Option String
  pub agent : Option String
  pub harness : Option String
  pub host : Option String
  pub person : Option String
  pub reason : Option String
  pub dual_control : Option String

pub data Refusal : Type 0 where
  missing not_one_line no_kind bad_decider not_read not_positive bad_depth : Refusal
  unresolved not_a_consumer one_form_only no_vault_grant no_register : Refusal

-- `resolved_item`: the vault item that a capability resource resolves to. `tags`: those of a vault
-- item, none for an item that is absent or has no list of them.
pub record Env : Type 0 where
  pub resolved_item : String → Option String
  pub tags : String → List String
  pub new_id : String
  pub now_iso : String

-- One request as filed, before it is recorded.
pub record Filing : Type 0 where
  pub requester : Requester
  pub kind : Kind
  pub resource : String
  pub action : String
  pub reason : String
  pub decider : String
  pub dual_control : Bool
  pub item : Option String
  pub grant : NamedGrant
  pub via : String

abbrev pub is_line : String → Bool
is_line value = exact_token value && is_trimmed value && not (str_eq value "true")

abbrev required : Option String → Result Refusal String
required none = err missing
required (some value) = if is_line value then ok value else err not_one_line

abbrev optional : Option String → Result Refusal (Option String)
optional none = ok none
optional (some value) =
    if exact_token value && not (str_eq value "true") then ok (some value) else err not_one_line

abbrev positive : Option String → Result Refusal ℕ
positive flag = required flag >>= λ value. or_fail (parse_nonzero value) not_positive

abbrev is_component : ℕ → Bool
is_component c =
    leb b'0' c && leb c b'9'
    || leb b'a' c && leb c b'z'
    || leb b'A' c && leb c b'Z'
    || c == b'.'
    || c == b'_'
    || c == b'-'

-- `schema::exact_component`: letters, digits, `.`, `_` and `-`.
unfoldable pub exact_component : String → Bool
exact_component s = not (str_eq s "") && all is_component (codes s)

abbrev no_grant : NamedGrant
no_grant = record {
  form = none;
  purpose = none;
  target = none;
  ttl_seconds = none;
  max_uses = none;
  delegation_depth = none;
  consumer = none;
}

abbrev depth_of : Option String → Result Refusal (Option ℕ)
depth_of none = ok none
depth_of (some raw) = or_fail (parse_u64 raw) bad_depth >>= λ depth. ok (some depth)

-- A bounded capability: the grant and the item it reaches.
unfoldable pub bounded_grant :
    Env → Flags → String → String → Result Refusal (NamedGrant × Option String)
bounded_grant env flags action resource = do
  guard (str_eq action "read") not_read
  purpose ← required flags.purpose
  target ← required flags.target
  ttl ← positive flags.ttl_seconds
  uses ← positive flags.max_uses
  depth ← depth_of flags.delegation_depth
  item ← or_fail (env.resolved_item resource) unresolved
  ok (
    record no_grant {
      form = some capability;
      purpose = some purpose;
      target = some target;
      ttl_seconds = some ttl;
      max_uses = some uses;
      delegation_depth = depth;
    },
    some item,
  )

abbrev before_hash : String → Option (String × String) → String
before_hash resource none = resource
before_hash resource (some p) = p.0

-- A standing consumer grant.
unfoldable pub standing_grant : Flags → String → Result Refusal (NamedGrant × Option String)
standing_grant flags resource = do
  name ← required flags.for_consumer
  guard (exact_component name) not_a_consumer
  ok (
    record no_grant { form = some consumer; consumer = some name },
    some (before_hash resource (split_once b'#' resource)),
  )

abbrev is_bounded : Flags → Bool
is_bounded flags =
    is_some flags.purpose
    || is_some flags.target
    || is_some flags.ttl_seconds
    || is_some flags.max_uses

-- The grant a filing names, by its kind and by whether it is bounded or standing.
unfoldable pub grant_of :
    Env → Flags → Kind → Bool → Bool → String → String → Result Refusal (NamedGrant × Option String)
grant_of env flags secret true false action resource = bounded_grant env flags action resource
grant_of env flags secret false true action resource = standing_grant flags resource
grant_of env flags secret true true action resource = err one_form_only
grant_of env flags secret false false action resource = err one_form_only
grant_of env flags device false false action resource =
    ok (record no_grant { form = some record_only }, none)
grant_of env flags device true standing action resource = err no_vault_grant
grant_of env flags device false true action resource = err no_vault_grant
grant_of env flags membership false false action resource =
    ok (record no_grant { form = some record_only }, none)
grant_of env flags membership true standing action resource = err no_vault_grant
grant_of env flags membership false true action resource = err no_vault_grant

abbrev decider_of : Option String → String
decider_of none = "admin"
decider_of (some named) = named

unfoldable pub from_flags : Env → Flags → String → Result Refusal Filing
from_flags env flags via = do
  word ← required flags.kind
  kind ← or_fail (named word) no_kind
  let decider = decider_of flags.decider
  guard (exact_token decider && not (str_eq decider "true")) bad_decider
  action ← required flags.action
  resource ← required flags.resource
  (grant, item) ←
      grant_of env flags kind (is_bounded flags) (is_some flags.for_consumer) action resource
  agent ← required flags.agent
  harness ← optional flags.harness
  host ← optional flags.host
  person ← optional flags.person
  reason ← required flags.reason
  ok (record {
    requester = record { agent = some agent; harness = harness; host = host; person = person };
    kind = kind;
    resource = resource;
    action = action;
    reason = reason;
    decider = decider;
    dual_control = is_text "true" flags.dual_control;
    item = item;
    grant = grant;
    via = via;
  })

-- Whether the item that a filing reaches is tagged as needing two deciders.
abbrev pub marked_dual_control : Env → Option String → Bool
marked_dual_control env none = false
marked_dual_control env (some item) = any (λ tag. str_eq tag "dual-control") (env.tags item)

abbrev pub same_form : Option Form → Option Form → Bool
same_form none none = true
same_form (some capability) (some capability) = true
same_form (some consumer) (some consumer) = true
same_form (some record_only) (some record_only) = true
same_form f g = false

-- The same question, still open.
unfoldable pub same_question : AccessRequest → Filing → Bool
same_question r f =
    is_text "pending" r.state
    && same_text r.requester.agent f.requester.agent
    && is_text (name f.kind) r.kind
    && is_text f.resource r.resource
    && is_text f.action r.action
    && same_form r.grant.form f.grant.form
    && same_text r.grant.purpose f.grant.purpose
    && same_text r.grant.target f.grant.target
    && same_text r.grant.consumer f.grant.consumer

unfoldable pub find_same : Filing → List AccessRequest → Option AccessRequest
find_same f [] = none
find_same f (r ∷ rs) = if same_question r f then some r else find_same f rs

-- The record a filing becomes.
abbrev pub filed : Env → Filing → AccessRequest
filed env f = record {
  id = some env.new_id;
  requested_at = some env.now_iso;
  requester = f.requester;
  kind = some (name f.kind);
  resource = some f.resource;
  action = some f.action;
  reason = some f.reason;
  decider = some f.decider;
  dual_control = f.dual_control || marked_dual_control env f.item;
  grant = f.grant;
  via = some f.via;
  state = some "pending";
  decisions = some [];
  issued = none;
}

abbrev reused : Bool → Filing → List AccessRequest → Option AccessRequest
reused false f rs = none
reused true f rs = find_same f rs

abbrev file_in :
    Env → Filing → List AccessRequest → World → Option AccessRequest → AccessRequest × World
file_in env f rs w (some open_one) = (open_one, w)
file_in env f rs w none = (filed env f, record w { register = some (rs ++ filed env f ∷ []) })

unfoldable pub file : Env → Filing → Bool → World → Result Refusal (AccessRequest × World)
file env f reuse_open w = do
  rs ← or_fail w.register no_register
  ok (file_in env f rs w (reused reuse_open f rs))
