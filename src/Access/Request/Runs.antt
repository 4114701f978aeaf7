-- ===== src/Access/Request/Runs.antt =====
-- Runs of the register on one dual-control request for a capability, and the theorems at those runs.
mod Witnesses
use skarbiec.Prelude.{ℕ, String, true, false, ◌≡◌, refl, none, some, [], ◌∷◌, ok, err}
use skarbiec.Prelude.Text.{split_once, parse_u64, parse_nonzero}
use skarbiec.Prelude.Decimal.{decimal, digits_before, digit_char}
use skarbiec.Prelude.Dict.{lookup, retain, insert, remove}
use skarbiec.Access.Grant.{active}
use skarbiec.Access.Capability.State.{forget_stale, redeemable}
use skarbiec.Access.Capability.Journal.{replay, load_state, save_entry, entries, save_state}
use skarbiec.Access.Capability.Request.{exact_token}
use skarbiec.Access.Capability.Issue
use skarbiec.Access.Capability.Issue.{IssueEnv, live, asked}
use skarbiec.Access.Capability
use skarbiec.Access.Capability.Trace.{LeavesId, secrets}
use skarbiec.Access.Request.Lifetime.{seconds, narrower, from_flags}
use skarbiec.Access.Request.Register.{
  Decision, capability, capability_issued, AccessRequest, find, put, in_state,
}
use skarbiec.Access.Request.Decide.{
  Env, World, authorize, role_of, is_named, uses_for, issue, issue_capability, issue_consumer,
  capability_flags, already_decided, may_not_decide,
}
use skarbiec.Access.Request.File
use skarbiec.Access.Request.File.{
  Filing, Flags, secret, file, filed, named, name, grant_of, bounded_grant, standing_grant,
  exact_component, same_question, find_same,
}
use skarbiec.Access.Request.Answer.{
  approve, approvals, is_granted, lifetimes, reduce, narrowest, fewest, conclude, close, may_close,
  words,
}
use skarbiec.Access.Request.Trace.{approving, step, run}

-- All that a run computes with.
office : Unit {0}
unfolding lookup retain insert remove split_once parse_u64 parse_nonzero decimal digits_before
    digit_char active forget_stale redeemable replay load_state save_entry entries save_state
    exact_token Issue.issue live asked Capability.Trace.run narrower from_flags find put in_state
    authorize role_of is_named uses_for issue issue_capability issue_consumer capability_flags file
    File.from_flags named name grant_of bounded_grant standing_grant exact_component same_question
    find_same approve approvals is_granted lifetimes reduce narrowest fewest conclude close
    may_close words step run
office = tt

abbrev flags : Flags
flags = record {
  kind = some "secret";
  decider = none;
  action = some "read";
  resource = some "origin:https://example.com/password";
  purpose = some "login";
  target = some "form";
  ttl_seconds = some "900";
  max_uses = some "5";
  delegation_depth = none;
  for_consumer = none;
  agent = some "agent";
  harness = none;
  host = none;
  person = none;
  reason = some "sign in once";
  dual_control = some "true";
}

abbrev file_env : File.Env
file_env = record {
  resolved_item = λ resource. some "site";
  tags = λ item. [];
  new_id = "r1";
  now_iso = "t0";
}

abbrev asked_for : Filing
asked_for = record {
  requester = record { agent = some "agent"; harness = none; host = none; person = none };
  kind = secret;
  resource = "origin:https://example.com/password";
  action = "read";
  reason = "sign in once";
  decider = "admin";
  dual_control = true;
  item = some "site";
  grant = record {
    form = some capability;
    purpose = some "login";
    target = some "form";
    ttl_seconds = some 900;
    max_uses = some 5;
    delegation_depth = none;
    consumer = none;
  };
  via = "cli";
}

taken : File.from_flags file_env flags "cli" ≡ ok asked_for
unfolding office
taken = refl

abbrev start : World
start = record {
  register = some [];
  capabilities = record { journal = []; torn = false };
  tokens = [];
}

abbrev open_request : AccessRequest
open_request = filed file_env asked_for

abbrev asked_world : World
asked_world = record start { register = some (open_request ∷ []) }

filed_once : file file_env asked_for true start ≡ ok (open_request, asked_world)
unfolding office
filed_once = refl

filed_again : file file_env asked_for true asked_world ≡ ok (open_request, asked_world)
unfolding office
filed_again = refl

abbrev cid : String
cid = "00112233445566778899aabbccddeeff00112233445566778899aabbccddeeff"

abbrev env : Env
env = record {
  issuing = record {
    now = 100;
    fresh_id = cid;
    resolves = λ resource. true;
    serves = λ resource. true;
    outweighed = λ journal s. false;
  };
  now_iso = "t1";
  recipients = some (
      ("alice", record { role = some "owner"; fingerprint = some "A" })
      ∷ ("bob", record { role = some "admin"; fingerprint = some "B" })
      ∷ ("carol", record { role = some "member"; fingerprint = some "C" })
      ∷ []);
  secret_key_present = λ fingerprint. some true;
  grant_issue = λ name capabilities lifetime tokens. none;
}

abbrev first : World
first = step asked_world (approving env "r1" "alice" (seconds 600) (some 3))

abbrev second : World
second = step first (approving env "r1" "bob" (seconds 900) (some 2))

abbrev decision : String → ℕ → ℕ → Decision
decision by ttl uses = record {
  by = some by;
  at = some "t1";
  answer = some "approve";
  lifetime = some (seconds ttl);
  uses = some uses;
  reason = none;
}

abbrev waiting_request : AccessRequest
waiting_request = record open_request { decisions = some (decision "alice" 600 3 ∷ []) }

abbrev approved_request : AccessRequest
approved_request = record open_request {
  decisions = some (decision "alice" 600 3 ∷ decision "bob" 900 2 ∷ []);
  issued = some (capability_issued cid "r1" (some 700));
  state = some "approved";
}

first_register : first.register ≡ some (waiting_request ∷ [])
unfolding office
first_register = refl

granted :
    approve env "r1" "bob" (seconds 900) (some 2) first
    ≡ ok (record { granted = true; request = approved_request }, second)
unfolding office
granted = refl

twice : approve env "r1" "alice" (seconds 900) (some 2) first ≡ err already_decided
unfolding office
twice = refl

by_member : approve env "r1" "carol" (seconds 900) (some 2) first ≡ err may_not_decide
unfolding office
by_member = refl
