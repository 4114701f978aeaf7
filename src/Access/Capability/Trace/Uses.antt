-- ===== src/Access/Capability/Trace/Uses.antt =====
-- How many secrets of one capability a history can hand out.
use skarbiec.Prelude.{
  ℕ, ◌+◌, ◌≤◌, String, Bool, false, ◌&&◌, ◌≡◌, refl, ◌≢◌, ◌⊎◌, inl, inr, Option, none, some, List,
  [], ◌∷◌, All, arith, Result, ok, err, Bool-cases, Result-cases, if◌then◌else◌, str_eq, eq_iff,
}
use skarbiec.Prelude.Dict.{lookup, keep_if, lookup-retain, lookup-insert}
use skarbiec.Access.Capability.State.{Record, State, forget_stale, is_text, is_live}
use skarbiec.Access.Capability.State.Forget.{forget_stale-held}
use skarbiec.Access.Capability.Journal.{Fault, Disk, replay}
use skarbiec.Access.Capability.Request.{
  Line, Answer, listening, denied, pending, cancelled, secret, Shaped,
}
use skarbiec.Access.Capability.Redeem.{Env, Fields, handle, spend}
use skarbiec.Access.Capability.Redeem.Effect.{IsQuiet, Outcome, Effect, idle, changed, redeem-Leads}
use skarbiec.Access.Capability.Redeem.Checks.{IsRedeemable, check-held, check-IsRedeemable}
use skarbiec.Access.Capability.Redeem.Lines.{IsServed, handle-cases}
use skarbiec.Access.Capability.Issue.{IssueEnv, Flags, issue}
use skarbiec.Access.Capability.Issue.Effect.{issue-IsIssued}
use skarbiec.Access.Capability.Trace.{
  Event, request, issuing, step, is_secret, asks_about, handed, secrets, LeavesId,
}

abbrev or_zero : Option ℕ → ℕ
or_zero none = 0
or_zero (some n) = n

-- The uses that a record still grants.
abbrev pub uses_of : Option Record → ℕ
uses_of none = 0
uses_of (some r) = if is_text "issued" r.state then or_zero r.remaining_uses else 0

abbrev pub uses_left : String → State → ℕ
uses_left id s = uses_of (lookup id s.capabilities)

keep_if-uses : (p : Record → Bool) (o : Option Record) → uses_of (keep_if p o) ≤ uses_of o
keep_if-uses p none = omega arith
keep_if-uses p (some r) = ground arith

forget_stale-uses :
    (now : ℕ) (s : State) (id : String) → uses_left id (forget_stale now s) ≤ uses_left id s
unfolding forget_stale
forget_stale-uses now s id =
    rw (lookup-retain (λ _ r. is_live now r) id s.capabilities) (keep_if-uses (is_live now) _)

base-uses :
    (now : ℕ) {raw base : State} (id : String)
    → (base ≡ raw) ⊎ (base ≡ forget_stale now raw)
    → uses_left id base ≤ uses_left id raw
base-uses now id (inl e) = rw e (omega arith)
base-uses now {raw} id (inr e) = rw e (forget_stale-uses now raw id)

spend-uses :
    (env : Env) (c : Shaped) (r : Record) (f : Fields)
    → IsRedeemable env c r f
    → uses_of (some (spend f.remaining r)) + 1 ≤ uses_of (some r)
unfolding spend
spend-uses env c r f v = ground (arith, eq_iff "issued" "issued")

abbrev one_if : Bool → ℕ
one_if b = if b then 1 else 0

quiet_hands_nothing : (res : Result Fault Answer) → IsQuiet res → is_secret res ≡ false
quiet_hands_nothing (err f) q = refl
quiet_hands_nothing (ok listening) q = refl
quiet_hands_nothing (ok (denied why)) q = refl
quiet_hands_nothing (ok pending) q = absurd q
quiet_hands_nothing (ok cancelled) q = absurd q
quiet_hands_nothing (ok (secret v)) q = absurd q

Outcome-uses :
    (env : Env) (c : Shaped) (r r' : Record) (f : Fields) (a : Answer)
    → IsRedeemable env c r f
    → Outcome env c r f a r'
    → one_if (is_secret (ok a)) + uses_of (some r') ≤ uses_of (some r)
Outcome-uses env c r r' f pending v (_, _, e) = rw e (omega arith)
Outcome-uses env c r r' f cancelled v (_, e) = rw e (omega arith)
Outcome-uses env c r r' f (secret s) v (_, _, e) = rw e (omega (arith, spend-uses env c r f v))
Outcome-uses env c r r' f listening v o = absurd o
Outcome-uses env c r r' f (denied why) v o = absurd o

Effect-uses :
    (env : Env) (c : Shaped) (raw : State) (id : String) {res : Result Fault Answer} {after : State}
    → Effect env c raw res after
    → one_if (str_eq c.capability_id id && is_secret res) + uses_left id after ≤ uses_left id raw
Effect-uses env c raw id {res} (idle quiet) = ground (arith, quiet_hands_nothing res quiet)
Effect-uses env c raw id (changed {a} {res} {after} arrives change) =
    elim (Bool-cases (str_eq c.capability_id id)) [
      | inl same ↦ ground (
        arith,
        eq_iff c.capability_id id,
        change.updated.capability id,
        held,
        Outcome-uses env c change.r change.r' change.f a redeemable change.outcome,
      )
      | inr other ↦ ground (arith, change.updated.capability id, base-uses env.now id change.from)
    ]
  where
    held : lookup c.capability_id raw.capabilities ≡ some change.r
    held =
        forget_stale-held env.now raw c.capability_id
          (check-held env c (forget_stale env.now raw) change.checked)

    redeemable : IsRedeemable env c change.r change.f
    redeemable = check-IsRedeemable env c (forget_stale env.now raw) change.checked

-- The state that the journal replays to after a step, and what the step handed out.
abbrev Spends : String → State → Disk → Event → Type 0
Spends id raw d e =
    (after : State) × (replay (step d e).journal ≡ ok after)
    × (handed id d e + uses_left id after ≤ uses_left id raw)

served_about :
    {env : Env} {line : Line} {d : Disk} (id : String) (s : IsServed env line d)
    → asks_about id line ≡ str_eq s.c.capability_id id
served_about id s = rw (s.shaped.1, s.shaped.2) refl

request-Spends :
    (id : String) (raw : State) (d : Disk) (env : Env) (line : Line)
    → replay d.journal ≡ ok raw
    → Spends id raw d (request env line)
unfolding step handed
request-Spends id raw d env line replayed = elim (handle-cases env line d) [
  | inl (quiet, same) ↦ (
    raw,
    rw (same, step) replayed,
    ground (arith, quiet_hands_nothing (handle env line d).0 quiet),
  )
  | inr s ↦
      let (after, replayed', effect) = redeem-Leads env s.c raw d replayed in
      (
        after,
        rw (s.served, step) replayed',
        ground (arith, s.served, served_about id s, Effect-uses env s.c raw id effect),
      )
]

issuing-Spends :
    (id : String) (raw : State) (d : Disk) (env : IssueEnv) (flags : Flags)
    → env.fresh_id ≢ id
    → replay d.journal ≡ ok raw
    → Spends id raw d (issuing env flags)
unfolding step handed
issuing-Spends id raw d env flags other replayed = elim (Result-cases (issue env flags d)) [
  | inr (e, bad) ↦ (raw, rw (bad, step) replayed, omega arith)
  | inl ((new_id, d'), good) ↦
      let i = issue-IsIssued env flags d replayed good in
      (
        i.after,
        rw (good, step) i.replayed,
        ground (
          arith,
          i.issued.made,
          lookup-insert env.fresh_id id i.r i.issued.base.capabilities,
          eq_iff env.fresh_id id,
          base-uses env.now id i.issued.from,
        ),
      )
]

step-Spends :
    (id : String) (raw : State) (d : Disk) (e : Event)
    → LeavesId id e
    → replay d.journal ≡ ok raw
    → Spends id raw d e
step-Spends id raw d (request env line) _ replayed = request-Spends id raw d env line replayed
step-Spends id raw d (issuing env flags) other replayed =
    issuing-Spends id raw d env flags other replayed

-- Whatever the workloads send and whatever else is issued, a history that does not issue this id
-- again hands out at most as many secrets of the capability as its record grants uses at the start:
-- none, where the capability is not held, spent or cancelled.
pub secrets-le-uses_left :
    (id : String) (raw : State) (d : Disk) (es : List Event)
    → All (LeavesId id) es
    → replay d.journal ≡ ok raw
    → secrets id d es ≤ uses_left id raw
unfolding secrets
secrets-le-uses_left id raw d [] _ replayed = omega arith
secrets-le-uses_left id raw d (e ∷ es) (other, others) replayed =
    let (after, replayed', bound) = step-Spends id raw d e other replayed in
    omega (arith, bound, secrets-le-uses_left id after (step d e) es others replayed')
