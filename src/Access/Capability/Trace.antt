-- ===== src/Access/Capability/Trace.antt =====
-- Histories of the broker: requests on the socket and issues by operators, one after the other
-- under the state lock, each with the clock, the grants and the vault as it finds them.
pub mod Nonces
pub mod Uses
pub mod Limits
use skarbiec.Prelude.{
  ℕ, ◌+◌, ◌≢◌, String, Bool, true, false, ◌&&◌, List, [], ◌∷◌, Result, ok, err, str_eq,
  if◌then◌else◌,
}
use skarbiec.Access.Capability.Journal.{Fault, Disk}
use skarbiec.Access.Capability.Request.{
  Line, unparsed, parsed, Answer, listening, denied, pending, cancelled, secret, Shaped, shape,
}
use skarbiec.Access.Capability.Redeem.{Env, handle}
use skarbiec.Access.Capability.Issue.{IssueEnv, Flags, Refusal, issue}

pub data Event : Type 0 where
  request : Env → Line → Event
  issuing : IssueEnv → Flags → Event

abbrev issued_disk : Disk → Result Refusal (String × Disk) → Disk
issued_disk d (ok (id, d')) = d'
issued_disk d (err e) = d

-- The disk that an event leaves.
unfoldable pub step : Disk → Event → Disk
step d (request env line) = (handle env line d).1
step d (issuing env flags) = issued_disk d (issue env flags d)

unfoldable pub run : Disk → List Event → Disk
run d [] = d
run d (e ∷ es) = run (step d e) es

abbrev pub is_secret : Result Fault Answer → Bool
is_secret (ok (secret v)) = true
is_secret (ok listening) = false
is_secret (ok (denied why)) = false
is_secret (ok pending) = false
is_secret (ok cancelled) = false
is_secret (err f) = false

-- Whether a line is a well-shaped request about this capability.
abbrev names_id : String → Result (Unit {0}) Shaped → Bool
names_id id (err _) = false
names_id id (ok c) = str_eq c.capability_id id

abbrev pub asks_about : String → Line → Bool
asks_about id unparsed = false
asks_about id (parsed q) = names_id id (shape q)

-- 1 where the event hands out a secret of this capability.
unfoldable pub handed : String → Disk → Event → ℕ
handed id d (request env line) =
    if asks_about id line && is_secret (handle env line d).0 then 1 else 0
handed id d (issuing env flags) = 0

-- How many secrets of this capability a history hands out.
unfoldable pub secrets : String → Disk → List Event → ℕ
secrets id d [] = 0
secrets id d (e ∷ es) = handed id d e + secrets id (step d e) es

-- The event does not issue this id.
abbrev pub LeavesId : String → Event → Type 0
LeavesId id (request env line) = Unit
LeavesId id (issuing env flags) = env.fresh_id ≢ id
