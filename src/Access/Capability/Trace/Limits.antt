-- ===== src/Access/Capability/Trace/Limits.antt =====
-- What an issue and a cancellation allow a history to hand out.
use mathlib.Core.Path.{subst}
use skarbiec.Prelude.{ℕ, ◌≤◌, String, ◌≡◌, some, List, All, arith, ok, eq_refl, sym, ◌∙◌, Result}
use skarbiec.Prelude.Dict.{lookup, lookup-insert_self}
use skarbiec.Access.Capability.State.{State}
use skarbiec.Access.Capability.Journal.{Disk, Fault, replay}
use skarbiec.Access.Capability.Request.{Answer, cancelled, Shaped}
use skarbiec.Access.Capability.Redeem.{Env, redeem}
use skarbiec.Access.Capability.Redeem.Effect.{
  IsQuiet, Outcome, Effect, idle, changed, redeem-Leads, delivered-ok,
}
use skarbiec.Access.Capability.Issue.{IssueEnv, Flags, issue}
use skarbiec.Access.Capability.Issue.Effect.{issue-IsIssued}
use skarbiec.Access.Capability.Issue.Bounds.{number_of, asked-IsAsked}
use skarbiec.Access.Capability.Trace.{Event, LeavesId, secrets}
use skarbiec.Access.Capability.Trace.Uses.{uses_left, secrets-le-uses_left}

-- From its issue on, a capability yields at most the number of secrets that its issuer stated.
pub secrets-le-max_uses :
    (env : IssueEnv) (flags : Flags) (d : Disk) {raw : State} {id : String} {d' : Disk} {n : ℕ}
    (es : List Event)
    → replay d.journal ≡ ok raw
    → number_of flags.max_uses ≡ some n
    → issue env flags d ≡ ok (id, d')
    → All (LeavesId id) es
    → secrets id d' es ≤ n
secrets-le-max_uses env flags d {id} {d'} {n} es replayed stated h others =
    let i = issue-IsIssued env flags d replayed h in
    let v = asked-IsAsked env flags i.asked_for in
    let held : lookup id i.after.capabilities ≡ some i.r =
      rw (i.issued.made, i.named)
        (lookup-insert_self env.fresh_id i.r i.issued.base.capabilities) in
    let bound = secrets-le-uses_left id i.after d' es others i.replayed in
    ground (arith, bound, held, v.uses, v.issued, v.stated_uses)

Effect-cancelled :
    (env : Env) (c : Shaped) (raw : State) {after : State} {res : Result Fault Answer}
    → Effect env c raw res after
    → res ≡ ok cancelled
    → uses_left c.capability_id after ≡ 0
Effect-cancelled env c raw (idle quiet) e = absurd (subst IsQuiet e quiet)
Effect-cancelled env c raw (changed {a} arrives change) e =
    let answered : a ≡ cancelled = delivered-ok env a (sym arrives ∙ e) in
    let (_, made) =
      subst (λ x. Outcome env c change.r change.f x change.r') answered change.outcome in
    ground (arith, made, change.updated.capability c.capability_id, eq_refl c.capability_id)

-- A cancelled capability yields no secret any more.
pub secrets_of_cancelled :
    (env : Env) (c : Shaped) (raw : State) (d : Disk) (es : List Event)
    → replay d.journal ≡ ok raw
    → (redeem env c d).0 ≡ ok cancelled
    → All (LeavesId c.capability_id) es
    → secrets c.capability_id (redeem env c d).1 es ≡ 0
secrets_of_cancelled env c raw d es replayed e others =
    let (after, replayed', effect) = redeem-Leads env c raw d replayed in
    let none_left = Effect-cancelled env c raw effect e in
    omega (
      arith,
      none_left,
      secrets-le-uses_left c.capability_id after (redeem env c d).1 es others replayed',
    )
