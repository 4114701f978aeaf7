-- ===== src/Access/Capability/Runs.antt =====
-- Runs of the broker on one capability.
mod Witnesses
mod Codes
use skarbiec.Prelude.{
  ℕ, ◌≤◌, String, Bool, true, false, ◌≡◌, refl, none, some, List, [], ◌∷◌, All, arith, eq_iff, ok,
}
use skarbiec.Prelude.Text.{split_once, parse_nonzero}
use skarbiec.Prelude.Dict.{lookup, retain, insert, remove}
use skarbiec.Access.Grant.{Token, active}
use skarbiec.Access.Capability.State.{Record, State, empty, forget_stale, redeemable}
use skarbiec.Access.Capability.Journal.{
  Entry, Disk, replay, load_state, save_entry, entries, save_state,
}
use skarbiec.Access.Capability.Request.{
  absent, Request, parsed, denied, cancelled, secret, Shaped, shape, exact_token,
  capability_id_shaped, challenge_item, payload, no_such_capability,
}
use skarbiec.Access.Capability.Request.Payload.{SameSigned, payload-SameSigned}
use skarbiec.Access.Capability.Redeem.{
  Env, check, read_value, workload_public_key, redeem, handle, serve, after_load, after_check,
  after_read, hand_over, see_nonce, spend, after_shape,
}
use skarbiec.Access.Capability.Redeem.Effect.{IsQuiet}
use skarbiec.Access.Capability.Redeem.Checks.{IsGranted, redeem-IsGranted}
use skarbiec.Access.Capability.Redeem.Refusals.{wire, check-forget_stale}
use skarbiec.Access.Capability.Issue.{IssueEnv, Flags, asked, issue, live, active_count}
use skarbiec.Access.Capability.Issue.Bounds.{IsAsked, asked-IsAsked, live-issue}
use skarbiec.Access.Capability.Trace.{Event, LeavesId, request, issuing, step, run, secrets, handed}
use skarbiec.Access.Capability.Trace.Uses.{uses_left, secrets-le-uses_left}
use skarbiec.Access.Capability.Trace.Nonces.{nonce_once}
use skarbiec.Access.Capability.Trace.Limits.{secrets-le-max_uses, secrets_of_cancelled}

-- All that a run computes with.
broker : Unit {0}
unfolding lookup retain insert remove split_once parse_nonzero active redeemable replay load_state
    save_entry entries save_state forget_stale shape exact_token capability_id_shaped check
    workload_public_key read_value handle after_shape redeem after_load serve after_check after_read
    hand_over see_nonce spend challenge_item payload issue asked live active_count step run secrets
    handed
broker = tt

abbrev id : String
id = "00112233445566778899aabbccddeeff00112233445566778899aabbccddeeff"

abbrev proof : String
proof = "PROOFPROOFPROOFPROOFPROOFPROOFPROOFPROOFPROOFPROOFPROOFPROOFPROOFPROOFPROOFPROOFPROOFP"

abbrev ask : String → String → Request
ask operation nonce = record {
  version = some "skarbiec.redeem.v1";
  operation = some operation;
  capability_id = some id;
  nonce = some nonce;
  workload_id = some "worker";
  proof = some proof;
  authorization_id = absent;
}

abbrev shaped : String → Bool → String → Shaped
shaped operation cancel nonce = record {
  capability_id = id;
  nonce = nonce;
  workload_id = "worker";
  proof = proof;
  operation = operation;
  cancel = cancel;
  authorization_id = "";
}

shape_redeem : shape (ask "redeem" "n1") ≡ ok (shaped "redeem" false "n1")
unfolding broker
shape_redeem = refl

abbrev grant : Token
grant = record {
  hash = none;
  audience = none;
  expires_at = some 5000;
  capabilities = none;
  workload_public_key = some "key";
}

-- A clock, one live grant, a verifier that accepts, and one route to one item.
abbrev at_time : ℕ → Env
at_time now = record {
  now = now;
  tokens = ("agent", grant) ∷ [];
  verify = λ key bytes p. some true;
  coordinate_for = λ resource. some (some ("item", "password"));
  item_field = λ item field. some (some "hunter2");
  outweighed = λ journal s. false;
  audits = true;
}

abbrev issue_env : IssueEnv
issue_env = record {
  now = 100;
  fresh_id = id;
  resolves = λ resource. true;
  serves = λ resource. true;
  outweighed = λ journal s. false;
}

abbrev flags : Flags
flags = record {
  agent = some "agent";
  purpose = some "login";
  resource = some "origin:https://example.com/password";
  target = some "form";
  ttl = some "600";
  max_uses = some "1";
  authorization_id = none;
}

abbrev issued_record : Record
issued_record = record {
  agent = some "agent";
  purpose = some "login";
  resource = some "origin:https://example.com/password";
  target = some "form";
  authorization_id = some "";
  issued_at = some 100;
  expires_at = some 700;
  remaining_uses = some 1;
  state = some "issued";
}

abbrev fresh : Disk
fresh = record { journal = []; torn = false }

abbrev issued_disk : Disk
issued_disk = record { journal = Entry.capability id (some issued_record) ∷ []; torn = false }

abbrev issued_state : State
issued_state = record { capabilities = (id, issued_record) ∷ []; nonces = [] }

issue_once : issue issue_env flags fresh ≡ ok (id, issued_disk)
unfolding broker
issue_once = refl

issued_disk_replays : replay issued_disk.journal ≡ ok issued_state
unfolding broker
issued_disk_replays = refl

redeem_once :
    (redeem (at_time 200) (shaped "redeem" false "n1") issued_disk).0 ≡ ok (secret "hunter2")
unfolding broker
redeem_once = refl

-- One use: the second redemption, with its own nonce, finds no capability; after the expiry the
-- first one finds none; an expired capability is not live.
redeem_again :
    (handle
      (at_time 201)
      (parsed (ask "redeem" "n2"))
      (redeem (at_time 200) (shaped "redeem" false "n1") issued_disk).1).0
    ≡ ok (denied no_such_capability)
unfolding broker
redeem_again = refl

redeem_late :
    (handle (at_time 700) (parsed (ask "redeem" "n1")) issued_disk).0
    ≡ ok (denied no_such_capability)
unfolding broker
redeem_late = refl

cancel_once : (redeem (at_time 200) (shaped "cancel" true "n1") issued_disk).0 ≡ ok cancelled
unfolding broker
cancel_once = refl

live_count : active_count 699 issued_disk ≡ ok 1
unfolding broker
live_count = refl

-- The item of a challenge: two resources can share one.
challenge_items_meet : challenge_item "challenge:apple/x" ≡ challenge_item "challenge:apple-x"
unfolding broker
challenge_items_meet = refl
