-- ===== src/Access/Request/Runs/Witnesses.antt =====
-- The theorems on the register, at the runs of one request.
use skarbiec.Prelude.{
  true, false, ◌≡◌, ◌≢◌, refl, ◌⊎◌, none, some, List, [], ◌∷◌, All, any, arith, eq_iff, ok,
}
use skarbiec.Access.Capability
use skarbiec.Access.Capability.State.{empty}
use skarbiec.Access.Capability.Journal.{replay}
use skarbiec.Access.Capability.Issue.{live}
use skarbiec.Access.Capability.Trace.{secrets}
use skarbiec.Prelude.Text.{split_once}
use skarbiec.Prelude.Dict.{lookup}
use skarbiec.Access.Grant.{active}
use skarbiec.Access.Capability.Redeem.{workload_public_key}
use skarbiec.Access.Capability.Request.{shape, capability_id_shaped, exact_token, payload}
use skarbiec.Access.Request.Lifetime.{seconds}
use skarbiec.Access.Request.Register.{AccessRequest, find}
use skarbiec.Access.Request.Decide.{or_no_list, World}
use skarbiec.Access.Request.File.Lines.{IsFiled, from_flags-IsFiled}
use skarbiec.Access.Request.File.Answered.{IsReused, IsAdded, file-cases}
use skarbiec.Access.Request.Answer.{approvals, withdraw, close}
use skarbiec.Access.Request.Answer.Deciders.{IsEligible}
use skarbiec.Access.Request.Answer.Conclude.{approved_by_other}
use skarbiec.Access.Request.Answer.Closed.{IsClosed, close-IsClosed}
use skarbiec.Access.Request.Answer.Control.{approve-IsEligible, two_deciders}
use skarbiec.Access.Request.Answer.Limits.{secrets-le-approved, EndsAfter, live-approved}
use skarbiec.Access.Request.Answer.Narrow.{IsAtMost}
use skarbiec.Access.Request.Trace.{Event, approving, closing, run}
use skarbiec.Access.Request.Trace.Final.{AllSound, run-AllSound, find_in, run_final}
use skarbiec.Access.Request.Runs.{
  cid, office, flags, file_env, asked_for, taken, open_request, asked_world, filed_again, env,
  first, second, waiting_request, approved_request, first_register, granted,
}

from_flags-IsFiled_example : IsFiled file_env flags "cli" asked_for
from_flags-IsFiled_example = from_flags-IsFiled file_env flags "cli" taken

file-cases_example :
    IsReused asked_for true asked_world (open_request ∷ []) open_request asked_world
    ⊎ IsAdded file_env asked_for true asked_world (open_request ∷ []) open_request asked_world
file-cases_example =
    file-cases file_env asked_for true asked_world (open_request ∷ []) refl filed_again

found_waiting : find "r1" (waiting_request ∷ []) ≡ some waiting_request
unfolding office
found_waiting = refl

approve-IsEligible_example : IsEligible env waiting_request "bob"
approve-IsEligible_example =
    approve-IsEligible env "r1" "bob" (seconds 900) (some 2) first (waiting_request ∷ [])
      waiting_request first_register found_waiting granted

two_deciders_example : any (approved_by_other "bob") (or_no_list waiting_request.decisions) ≡ true
two_deciders_example =
    two_deciders env "r1" "bob" (seconds 900) (some 2) first (waiting_request ∷ []) waiting_request
      first_register found_waiting refl granted refl

first_replays : replay first.capabilities.journal ≡ ok empty
unfolding office
first_replays = refl

-- The workload redeems the capability that was granted.
abbrev redeemed : List Capability.Trace.Event
redeemed =
    Capability.Trace.request
      (record {
        now = 200;
        tokens =
            (
              "agent",
              record {
                hash = none;
                audience = none;
                expires_at = some 5000;
                capabilities = none;
                workload_public_key = some "key";
              },
            )
            ∷ [];
        verify = λ key bytes p. some true;
        coordinate_for = λ resource. some (some ("site", "password"));
        item_field = λ item field. some (some "hunter2");
        outweighed = λ journal s. false;
        audits = true;
      })
      (Capability.Request.parsed (record {
        version = some "skarbiec.redeem.v1";
        operation = some "redeem";
        capability_id = some cid;
        nonce = some "n1";
        workload_id = some "worker";
        proof =
            some
              "PROOFPROOFPROOFPROOFPROOFPROOFPROOFPROOFPROOFPROOFPROOFPROOFPROOFPROOFPROOFPROOFPROOFP";
        authorization_id = Capability.Request.given "r1";
      }))
    ∷ []

handed_one : secrets cid second.capabilities redeemed ≡ 1
unfolding office lookup split_once active workload_public_key Capability.Redeem.handle shape
    capability_id_shaped exact_token Capability.Redeem.redeem Capability.Redeem.after_shape
    Capability.Redeem.after_load Capability.Redeem.serve Capability.Redeem.after_check
    Capability.Redeem.after_read Capability.Redeem.hand_over Capability.Redeem.check
    Capability.Redeem.read_value Capability.Redeem.see_nonce Capability.Redeem.spend payload secrets
    Capability.Trace.step Capability.Trace.handed
handed_one = refl

secrets-le-approved_example :
    All
      (IsAtMost (secrets cid second.capabilities redeemed))
      (approvals (or_no_list approved_request.decisions))
secrets-le-approved_example =
    secrets-le-approved env "r1" "bob" (seconds 900) (some 2) first redeemed first_replays granted
      refl refl (tt, tt)

second_live : live 699 cid second.capabilities ≡ ok true
unfolding office
second_live = refl

live-approved_example : All (EndsAfter 699 100) (approvals (or_no_list approved_request.decisions))
live-approved_example =
    live-approved env "r1" "bob" (seconds 900) (some 2) first 699 first_replays granted refl refl
      second_live

abbrev withdrawn : World
withdrawn = run asked_world (closing env "r1" "agent" withdraw none ∷ [])

abbrev taken_back : AccessRequest
taken_back = record open_request {
  decisions = some (
      record {
        by = some "agent";
        at = some "t1";
        answer = some "withdraw";
        lifetime = none;
        uses = none;
        reason = none;
      }
      ∷ []);
  state = some "withdrawn";
}

withdrawn_once : close env "r1" "agent" withdraw none asked_world ≡ ok (taken_back, withdrawn)
unfolding office
withdrawn_once = refl

close-IsClosed_example : IsClosed env "r1" "agent" withdraw asked_world taken_back withdrawn
close-IsClosed_example = close-IsClosed env "r1" "agent" withdraw none asked_world withdrawn_once

found_open : find_in "r1" asked_world ≡ some open_request
unfolding office
found_open = refl

asked_sound : AllSound asked_world
unfolding office
asked_sound = (
  record {
    unissued = λ e. refl;
    short = λ e. refl;
    issued = λ e. ground (arith, e, eq_iff "pending" "approved");
  },
  tt,
)

abbrev later : List Event
later =
    approving env "r1" "bob" (seconds 900) (some 2) ∷ closing env "r1" "agent" withdraw none ∷ []

run-AllSound_example : AllSound (run asked_world later)
run-AllSound_example = run-AllSound asked_world later asked_sound

found_approved : find_in "r1" second ≡ some approved_request
unfolding office
found_approved = refl

approved_differs : approved_request.state ≢ some "pending"
approved_differs e = ground (arith, e, eq_iff "approved" "pending")

run_final_example : find_in "r1" (run second later) ≡ some approved_request
run_final_example = run_final second later "r1" found_approved approved_differs
