-- ===== src/Access/Acquisition/Runs.antt =====
-- Runs of one workload that acquires one field, and the theorems at those runs.
use skarbiec.Prelude.{
  ℕ, String, true, false, ◌≡◌, ◌≢◌, refl, none, some, List, [], ◌∷◌, All, arith, eq_iff, ok, err,
}
use skarbiec.Prelude.Text.{strip_prefix}
use skarbiec.Prelude.Decimal.{decimal, digits_before, digit_char}
use skarbiec.Prelude.Dict.{lookup, retain, insert, remove}
use skarbiec.Access.Grant.{Token, active, capability_matches, acquisition_grant}
use skarbiec.Access.Capability.Request.{exact_token}
use skarbiec.Access.Acquisition.Proof.{
  exact_name, valid_workload_id, valid_nonce, exact_coordinate, item_for, hex_byte, hex_bytes,
  decode_signature, workload_payload, verify_workload_proof,
}
use skarbiec.Access.Acquisition.State.{State, fresh_state, purge_expired}
use skarbiec.Access.Acquisition.Issue.{
  Env, Asked, AcquiredField, current, unauthorized, issue, admit, validate_target, record_bearer,
  read_bound, consume, consume_held,
}
use skarbiec.Access.Acquisition.Issue.Effect.{IsIssued, issue-IsIssued, IsSpent, consume-IsSpent}
use skarbiec.Access.Acquisition.Trace.{Event, asking, presenting, step, run, Before, MintsOther}
use skarbiec.Access.Acquisition.Trace.Once.{proof_once}
use skarbiec.Access.Acquisition.Trace.Spent.{bearer_once}

-- All that a run computes with.
desk : Unit {0}
unfolding strip_prefix decimal digits_before digit_char lookup retain insert remove active
    capability_matches acquisition_grant exact_token exact_name valid_workload_id valid_nonce
    exact_coordinate item_for hex_byte hex_bytes decode_signature workload_payload
    verify_workload_proof purge_expired issue admit validate_target record_bearer read_bound consume
    consume_held step run
desk = tt

abbrev grant_until : ℕ → Token
grant_until expires_at = record {
  hash = none;
  audience = none;
  expires_at = some expires_at;
  capabilities =
      some
        (record { action = some "acquire"; item = some "role:mail"; field = some "password" } ∷ []);
  workload_public_key = some "key";
}

-- The clock, the end of the grant and the token that is minted; the hash is the text itself.
abbrev at_time : ℕ → ℕ → String → Env
at_time now expires_at minted = record {
  now = now;
  tokens = ("mailer", grant_until expires_at) ∷ [];
  verify = λ key payload signature. some true;
  tagged_items = λ tag. "mailbox" ∷ [];
  get_item = λ item.
      some (record { fields = ("password", "hunter2") ∷ []; has_context = false; provider = none });
  managed_read = λ item field consumer. some current;
  random_token = minted;
  sha256_hex = λ text. text;
}

abbrev ask : ℕ → Asked
ask timestamp = record {
  consumer = "mailer";
  item = "role:mail";
  field = "password";
  workload_id = "worker 1";
  timestamp = timestamp;
  nonce = "NONCENONCENONCENONCENONCENONCENONCENONCENON";
  signature =
      "00112233445566778899aabbccddeeff00112233445566778899aabbccddeeff00112233445566778899aabbccddeeff00112233445566778899aabbccddeeff";
}

abbrev issued_state : State
issued_state = step fresh_state (asking (at_time 100 500 "bearer") (ask 90))

issued_once :
    issue (at_time 100 500 "bearer") (ask 90) fresh_state ≡ ok (("bearer", 500), issued_state)
unfolding desk
issued_once = refl

abbrev read_state : State
read_state =
    step issued_state
      (presenting (at_time 120 500 "other") "mailer" "bearer" "role:mail" "password")

abbrev got : AcquiredField
got = record { value = "hunter2"; provider = none }

read_once :
    consume (at_time 120 500 "other") "mailer" "bearer" "role:mail" "password" issued_state
    ≡ (ok (some got), read_state)
unfolding desk
read_once = refl

-- A signature's digits may be of either case, and a `+` may stand for a digit.
upper_digit : hex_byte b'A' b'F' ≡ some 175
unfolding desk
upper_digit = refl

plus_digit : hex_byte b'+' b'f' ≡ some 15
unfolding desk
plus_digit = refl

-- The same proof again: refused while its grant lasts, accepted after the end that was written down
-- where the grant was issued again with a later end.
again : issue (at_time 200 500 "second") (ask 90) read_state ≡ err unauthorized
unfolding desk
again = refl

abbrev renewed_state : State
renewed_state = step read_state (asking (at_time 600 2000 "second") (ask 90))

again_after_renewal :
    issue (at_time 600 2000 "second") (ask 90) read_state ≡ ok (("second", 2000), renewed_state)
unfolding desk
again_after_renewal = refl

issue-IsIssued_example :
    IsIssued (at_time 100 500 "bearer") (ask 90) fresh_state "bearer" 500 issued_state
issue-IsIssued_example = issue-IsIssued (at_time 100 500 "bearer") (ask 90) fresh_state issued_once

consume-IsSpent_example :
    IsSpent
      (at_time 120 500 "other")
      "mailer"
      "bearer"
      "role:mail"
      "password"
      issued_state
      got
      read_state
consume-IsSpent_example =
    consume-IsSpent (at_time 120 500 "other") "mailer" "bearer" "role:mail" "password" issued_state
      read_once

abbrev history : List Event
history =
    presenting (at_time 120 500 "other") "mailer" "bearer" "role:mail" "password"
    ∷ asking (at_time 130 500 "third")
        (record (ask 95) { nonce = "OTHERNONCEOTHERNONCEOTHERNONCEOTHERNONCEOTH" })
    ∷ []

history-Before : All (Before 500 (λ text. text)) history
history-Before = (tt, ((omega arith, refl), tt))

proof_once_example :
    issue (at_time 200 500 "second") (ask 90) (run issued_state history)
    ≢ ok (("second", 500), renewed_state)
proof_once_example =
    proof_once (at_time 100 500 "bearer") (at_time 200 500 "second") (ask 90) (ask 90) fresh_state
      history issued_once refl refl refl (omega arith) history-Before
      (("second", 500), renewed_state)

history-MintsOther : All (MintsOther "bearer") history
history-MintsOther = (tt, (ground (arith, eq_iff "third" "bearer"), tt))

bearer_once_example :
    (consume
      (at_time 140 500 "other")
      "mailer"
      "bearer"
      "role:mail"
      "password"
      (run read_state history)).0
    ≡ ok none
bearer_once_example =
    bearer_once (at_time 120 500 "other") (at_time 140 500 "other") "mailer" "mailer" "bearer"
      "role:mail" "role:mail" "password" "password" issued_state history read_once
      history-MintsOther refl
