-- ===== src/Access/Capability/Runs/Witnesses.antt =====
-- The theorems on the capability broker, at the runs of one capability.
use skarbiec.Prelude.{err, ◌≤◌, true, false, ◌≡◌, refl, some, List, [], ◌∷◌, All, arith, eq_iff, ok}
use skarbiec.Prelude.Text.{parse_nonzero}
use skarbiec.Access.Capability.State.{State, empty, forget_stale}
use skarbiec.Access.Capability.Journal.{replay, unaudited}
use skarbiec.Access.Capability.Request.{parsed, denied, no_such_capability}
use skarbiec.Access.Capability.Request.Payload.{SameSigned, payload-SameSigned}
use skarbiec.Access.Capability.Redeem.{check, redeem}
use skarbiec.Access.Capability.Redeem.Effect.{IsQuiet}
use skarbiec.Access.Capability.Redeem.Checks.{IsGranted, redeem-IsGranted}
use skarbiec.Access.Capability.Redeem.Refusals.{wire, check-forget_stale}
use skarbiec.Access.Capability.Issue.{asked, live}
use skarbiec.Access.Capability.Issue.Bounds.{IsAsked, asked-IsAsked, live-issue}
use skarbiec.Access.Capability.Trace.{Event, LeavesId, request, issuing, run, secrets}
use skarbiec.Access.Capability.Trace.Uses.{uses_left, secrets-le-uses_left}
use skarbiec.Access.Capability.Trace.Nonces.{nonce_once}
use skarbiec.Access.Capability.Trace.Limits.{secrets-le-max_uses, secrets_of_cancelled}
use skarbiec.Access.Capability.Runs.{
  broker, id, ask, shaped, shape_redeem, at_time, issue_env, flags, issued_record, fresh,
  issued_disk, issued_state, issue_once, issued_disk_replays, redeem_once, cancel_once,
}

redeem-IsGranted_example :
    IsGranted (at_time 200) (shaped "redeem" false "n1") issued_state "hunter2"
redeem-IsGranted_example =
    redeem-IsGranted (at_time 200) (shaped "redeem" false "n1") issued_state issued_disk "hunter2"
      issued_disk_replays redeem_once

-- A secret whose audit line is refused is not handed out, and the capability, spent, is gone.
unaudited_once :
    (redeem (record (at_time 200) { audits = false }) (shaped "redeem" false "n1") issued_disk).0
    ≡ err unaudited
unfolding broker
unaudited_once = refl

spent_unaudited :
    (redeem
      (at_time 201)
      (shaped "redeem" false "n2")
      (redeem
        (record (at_time 200) { audits = false })
        (shaped "redeem" false "n1")
        issued_disk).1).0
    ≡ ok (denied no_such_capability)
unfolding broker
spent_unaudited = refl

check-forget_stale_example :
    wire (check (at_time 200) (shaped "redeem" false "n1") (forget_stale 200 issued_state))
    ≡ wire (check (at_time 200) (shaped "redeem" false "n1") issued_state)
check-forget_stale_example =
    check-forget_stale (ask "redeem" "n1") (at_time 200) (shaped "redeem" false "n1") issued_state
      shape_redeem

payload-SameSigned_example : SameSigned (shaped "redeem" false "n1") (shaped "redeem" false "n1")
payload-SameSigned_example =
    payload-SameSigned (ask "redeem" "n1") (ask "redeem" "n1") (shaped "redeem" false "n1")
      (shaped "redeem" false "n1") shape_redeem shape_redeem refl

asked_once : asked issue_env flags ≡ ok issued_record
unfolding broker
asked_once = refl

asked-IsAsked_example : IsAsked issue_env flags issued_record
asked-IsAsked_example = asked-IsAsked issue_env flags asked_once

fresh_replays : replay fresh.journal ≡ ok empty
unfolding broker
fresh_replays = refl

stated_600 : parse_nonzero "600" ≡ some 600
unfolding broker
stated_600 = refl

stated_one : parse_nonzero "1" ≡ some 1
unfolding broker
stated_one = refl

live-issue_example : live 699 id issued_disk ≡ ok true
live-issue_example = live-issue issue_env flags fresh fresh_replays stated_600 issue_once 699

-- Two requests about the capability, with an issue of another one between them.
abbrev history : List Event
history =
    request (at_time 200) (parsed (ask "redeem" "n1"))
    ∷ issuing (record issue_env { fresh_id = "other" }) flags
    ∷ request (at_time 201) (parsed (ask "redeem" "n2"))
    ∷ []

one_secret : secrets id issued_disk history ≡ 1
unfolding broker
one_secret = refl

history_leaves : All (LeavesId id) history
history_leaves = (tt, (ground (arith, eq_iff "other" id), (tt, tt)))

secrets-le-uses_left_example : secrets id issued_disk history ≤ uses_left id issued_state
secrets-le-uses_left_example =
    secrets-le-uses_left id issued_state issued_disk history history_leaves issued_disk_replays

secrets-le-max_uses_example : secrets id issued_disk history ≤ 1
secrets-le-max_uses_example =
    secrets-le-max_uses issue_env flags fresh history fresh_replays stated_one issue_once
      history_leaves

secrets_of_cancelled_example :
    secrets id (redeem (at_time 200) (shaped "cancel" true "n1") issued_disk).1 history ≡ 0
secrets_of_cancelled_example =
    secrets_of_cancelled (at_time 200) (shaped "cancel" true "n1") issued_state issued_disk history
      issued_disk_replays cancel_once history_leaves

redeem_is_loud : ¬ IsQuiet (redeem (at_time 200) (shaped "redeem" false "n1") issued_disk).0
unfolding broker
redeem_is_loud q = q

nonce_once_example :
    IsQuiet
      (redeem
        (at_time 300)
        (shaped "redeem" false "n1")
        (run (redeem (at_time 200) (shaped "redeem" false "n1") issued_disk).1 history)).0
nonce_once_example =
    nonce_once (ask "redeem" "n1") (ask "redeem" "n1") (shaped "redeem" false "n1")
      (shaped "redeem" false "n1") (at_time 200) (at_time 300) issued_state issued_disk history
      shape_redeem shape_redeem refl refl issued_disk_replays redeem_is_loud history_leaves
