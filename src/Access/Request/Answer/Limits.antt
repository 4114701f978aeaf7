-- ===== src/Access/Request/Answer/Limits.antt =====
-- A capability that an approval issues keeps to what every approving decider stated, for as long as
-- the broker serves it.
use Prim.Native.String
use mathlib.Core.Path.{subst}
use skarbiec.Prelude.{
  ℕ, ◌<◌, ◌+◌, String, true, ◌≡◌, refl, sym, ap, ◌∙◌, Option, none, some, List, [], ◌∷◌, arith, All,
  ok, inl, inr, Option-cases, Result-cases,
}
use skarbiec.Prelude.Decimal.{decimal, parse_nonzero-of_decimal}
use skarbiec.Access.Capability.State.{State}
use skarbiec.Access.Capability.Journal.{Disk, replay}
use skarbiec.Access.Capability.Issue
use skarbiec.Access.Capability.Issue.{IssueEnv, Flags, live}
use skarbiec.Access.Capability.Issue.Bounds.{number_of, asked-IsAsked, live-issue}
use skarbiec.Access.Capability.Issue.Effect.{issue-IsIssued}
use skarbiec.Access.Capability.Trace.{Event, LeavesId, secrets}
use skarbiec.Access.Capability.Trace.Limits.{secrets-le-max_uses}
use skarbiec.Access.Request.Lifetime.{Lifetime, seconds, until_revoked}
use skarbiec.Access.Request.Register.{
  capability, consumer, record_only, Decision, Issued, capability_issued, consumer_issued,
  owner_acts, AccessRequest,
}
use skarbiec.Access.Request.Decide.{
  Env, World, issue, issue_capability, issue_consumer, capability_flags, or_no_list,
}
use skarbiec.Access.Request.Answer.{Outcome, approve, approvals, narrowest, fewest}
use skarbiec.Access.Request.Answer.Deciders.{approve-Approved}
use skarbiec.Access.Request.Answer.Conclude.{conclude-cases}
use skarbiec.Access.Request.Answer.Narrow.{
  IsAtMost, IsAtMost-le, fewest-IsAtMost, narrowest-IsWithin, IsWithinDecision,
}

-- The flags state the lifetime and the uses, and name the request as the authorization.
pub record IsStated (id : String) (ttl n : ℕ) (flags : Flags) : Type 0 where
  pub ttl_text : flags.ttl ≡ some (decimal ttl)
  pub uses_text : flags.max_uses ≡ some (decimal n)
  pub authorization : flags.authorization_id ≡ some id

capability_flags-IsStated :
    (r : AccessRequest) (id : String) (ttl n : ℕ) {flags : Flags}
    → capability_flags r id ttl n ≡ ok flags
    → IsStated id ttl n flags
unfolding capability_flags
capability_flags-IsStated r id ttl n {flags} h = elim (Option-cases r.requester.agent) [
  | inl missing ↦ absurd (ground arith)
  | inr (agent, e1) ↦ elim (Option-cases r.grant.purpose) [
    | inl missing ↦ absurd (ground arith)
    | inr (purpose, e2) ↦ elim (Option-cases r.resource) [
      | inl missing ↦ absurd (ground arith)
      | inr (resource, e3) ↦ elim (Option-cases r.grant.target) [
        | inl missing ↦ absurd (ground arith)
        | inr (target, e4) ↦ record {
          ttl_text = ground arith;
          uses_text = ground arith;
          authorization = ground arith;
        }
      ]
    ]
  ]
]

-- What it takes to issue a capability.
pub record IsCapability (env : Env) (bound : Lifetime) (uses : Option ℕ) (w : World) (cid : String)
    (w1 : World) : Type 0 where
  pub id : String
  pub ttl : ℕ
  pub expires : bound ≡ seconds ttl
  pub n : ℕ
  pub counted : uses ≡ some n
  pub flags : Flags
  pub stated : IsStated id ttl n flags
  pub made : Issue.issue env.issuing flags w.capabilities ≡ ok (cid, w1.capabilities)

issue_capability-IsCapability :
    (env : Env) (r : AccessRequest) (id : String) (bound : Lifetime) (uses : Option ℕ) (w : World)
    {cid aid : String} {at : Option ℕ} {w1 : World}
    → issue_capability env r id bound uses w ≡ ok (capability_issued cid aid at, w1)
    → IsCapability env bound uses w cid w1
unfolding issue_capability
issue_capability-IsCapability env r id until_revoked uses w h = cc
issue_capability-IsCapability env r id (seconds ttl) none w h = cc
issue_capability-IsCapability env r id (seconds ttl) (some n) w {cid} {aid} {at} {w1} h =
    elim (Result-cases (capability_flags r id ttl n)) [
      | inr (e, bad) ↦ absurd (ground arith)
      | inl (flags, given) ↦ elim (Result-cases (Issue.issue env.issuing flags w.capabilities)) [
        | inr (e, bad) ↦ absurd (ground arith)
        | inl ((c, disk), made) ↦ record {
          id = id;
          ttl = ttl;
          expires = refl;
          n = n;
          counted = refl;
          flags = flags;
          stated = capability_flags-IsStated r id ttl n given;
          made = ground arith;
        }
      ]
    ]

abbrev IsConsumer : Issued → Type 0
IsConsumer (capability_issued cid aid at) = ⊥
IsConsumer (consumer_issued name capabilities at) = Unit
IsConsumer (owner_acts kind) = Unit

issue_consumer-issues :
    (env : Env) (r : AccessRequest) (bound : Lifetime) (w : World) (issued : Issued) (w1 : World)
    → issue_consumer env r bound w ≡ ok (issued, w1)
    → IsConsumer issued
unfolding issue_consumer
issue_consumer-issues env r bound w issued w1 h = elim (Option-cases r.grant.consumer) [
  | inl missing ↦ absurd (ground arith)
  | inr (name, e1) ↦ elim (Option-cases r.action) [
    | inl missing ↦ absurd (ground arith)
    | inr (action, e2) ↦ elim (Option-cases r.resource) [
      | inl missing ↦ absurd (ground arith)
      | inr (resource, e3) ↦
          elim (Option-cases
            (env.grant_issue name (String.◌++◌ action (String.◌++◌ ":" resource)) bound w.tokens)) [
              | inl refused ↦ absurd (ground arith)
              | inr ((answer, tokens), e4) ↦
                  let made : issued ≡ consumer_issued name answer.0 answer.1 = ground arith in
                  subst IsConsumer (sym made) tt
            ]
    ]
  ]
]

issue-IsCapability :
    (env : Env) (r : AccessRequest) (bound : Lifetime) (uses : Option ℕ) (w : World)
    {cid aid : String} {at : Option ℕ} {w1 : World}
    → issue env r bound uses w ≡ ok (capability_issued cid aid at, w1)
    → IsCapability env bound uses w cid w1
unfolding issue
issue-IsCapability env r bound uses w {cid} {aid} {at} {w1} h = elim (Option-cases r.id) [
  | inl nameless ↦ absurd (ground arith)
  | inr (id, named) ↦ elim (Option-cases r.grant.form) [
    | inl formless ↦ absurd (ground arith)
    | inr (capability, e) ↦
        issue_capability-IsCapability env r id bound uses w {cid = cid} {aid = aid} {at = at}
          {w1 = w1} (ground arith)
    | inr (consumer, e) ↦
        absurd
          (issue_consumer-issues env r bound w (capability_issued cid aid at) w1 (ground arith))
    | inr (record_only, e) ↦ elim (Option-cases r.kind) [
      | inl missing ↦ absurd (ground arith)
      | inr (kind, e2) ↦ absurd (ground arith)
    ]
  ]
]

-- The grant of an approved capability request.
record Grants (env : Env) (w : World) (o : Outcome) (w' : World) (cid : String) : Type 0 where
  ds : List Decision
  decided : o.request.decisions ≡ some ds
  bound : Lifetime
  bounded : narrowest (approvals ds) ≡ ok bound
  w1 : World
  disk : w'.capabilities ≡ w1.capabilities
  issued : IsCapability env bound (fewest (approvals ds)) w cid w1

approve-Grants :
    (env : Env) (id by : String) (lifetime : Lifetime) (uses : Option ℕ) (w : World) {o : Outcome}
    {w' : World} {cid aid : String} {at : Option ℕ}
    → approve env id by lifetime uses w ≡ ok (o, w')
    → o.granted ≡ true
    → o.request.issued ≡ some (capability_issued cid aid at)
    → Grants env w o w' cid
approve-Grants env id by lifetime uses w {o} {w'} {cid} {aid} {at} h granted kept =
    let a = approve-Approved env id by lifetime uses w h in
    let r' : AccessRequest = record a.r { decisions = some a.after } in
    elim (conclude-cases env id r' a.after a.rs w a.concluded) [
      | inl waiting ↦ absurd (cc (granted, waiting.kept))
      | inr g ↦
          let held : some g.issued ≡ some (capability_issued cid aid at) =
            sym (ap (λ (x : Outcome). x.request.issued) g.done) ∙ kept in
          let same : g.issued ≡ capability_issued cid aid at = cc held in
          record {
            ds = a.after;
            decided = ap (λ (x : Outcome). x.request.decisions) g.done;
            bound = g.bound;
            bounded = g.bounded;
            w1 = g.w1;
            disk = ap (λ (x : World). x.capabilities) g.stored;
            issued =
                issue-IsCapability env r' g.bound (fewest (approvals a.after)) w {cid = cid}
                  {aid = aid} {at = at} (rw same at g.issuing);
          }
    ]

stated_uses :
    (env : IssueEnv) (flags : Flags) (d : Disk) (n : ℕ) {raw : State} {cid : String} {d' : Disk}
    → replay d.journal ≡ ok raw
    → Issue.issue env flags d ≡ ok (cid, d')
    → flags.max_uses ≡ some (decimal n)
    → number_of flags.max_uses ≡ some n
stated_uses env flags d n replayed made text =
    let v = asked-IsAsked env flags (issue-IsIssued env flags d replayed made).asked_for in
    let same = parse_nonzero-of_decimal n (rw text at v.stated_uses) in v.stated_uses ∙ ap some same

stated_ttl :
    (env : IssueEnv) (flags : Flags) (d : Disk) (ttl : ℕ) {raw : State} {cid : String} {d' : Disk}
    → replay d.journal ≡ ok raw
    → Issue.issue env flags d ≡ ok (cid, d')
    → flags.ttl ≡ some (decimal ttl)
    → number_of flags.ttl ≡ some ttl
stated_ttl env flags d ttl replayed made text =
    let v = asked-IsAsked env flags (issue-IsIssued env flags d replayed made).asked_for in
    let same = parse_nonzero-of_decimal ttl (rw text at v.stated_ttl) in v.stated_ttl ∙ ap some same

-- A capability that an approval issued yields, over any history of requests and issues of other
-- ids, at most as many secrets as every approving decider stated uses.
pub secrets-le-approved :
    (env : Env) (id by : String) (lifetime : Lifetime) (uses : Option ℕ) (w : World) {raw : State}
    {o : Outcome} {w' : World} {cid aid : String} {at : Option ℕ} (es : List Event)
    → replay w.capabilities.journal ≡ ok raw
    → approve env id by lifetime uses w ≡ ok (o, w')
    → o.granted ≡ true
    → o.request.issued ≡ some (capability_issued cid aid at)
    → All (LeavesId cid) es
    → All (IsAtMost (secrets cid w'.capabilities es)) (approvals (or_no_list o.request.decisions))
secrets-le-approved env id by lifetime uses w {o} {w'} {cid} es replayed h granted kept others =
    let g = approve-Grants env id by lifetime uses w h granted kept in
    let c = g.issued in
    let all = fewest-IsAtMost (approvals g.ds) c.counted in
    let le =
      secrets-le-max_uses env.issuing c.flags w.capabilities es replayed
        (stated_uses env.issuing c.flags w.capabilities c.n replayed c.made c.stated.uses_text)
        c.made others in
    rw (g.decided, g.disk) (IsAtMost-le _ c.n (approvals g.ds) le all)

-- The time is before the end of the lifetime that a decision states, counted from `now`.
abbrev pub EndsAfter : ℕ → ℕ → Decision → Type 0
EndsAfter time now d = (ttl : ℕ) → d.lifetime ≡ some (seconds ttl) → time < now + ttl

All-EndsAfter :
    (time now ttl : ℕ) (ds : List Decision)
    → time < now + ttl
    → All (IsWithinDecision (seconds ttl)) ds
    → All (EndsAfter time now) ds
All-EndsAfter time now ttl [] h all = tt
All-EndsAfter time now ttl (d ∷ ds) h (first, all) =
    (λ k e. omega (arith, first (seconds k) e), All-EndsAfter time now ttl ds h all)

-- A capability that an approval issued is live only before the end of the lifetime that every
-- approving decider stated, counted from the issue.
pub live-approved :
    (env : Env) (id by : String) (lifetime : Lifetime) (uses : Option ℕ) (w : World) {raw : State}
    {o : Outcome} {w' : World} {cid aid : String} {at : Option ℕ} (time : ℕ)
    → replay w.capabilities.journal ≡ ok raw
    → approve env id by lifetime uses w ≡ ok (o, w')
    → o.granted ≡ true
    → o.request.issued ≡ some (capability_issued cid aid at)
    → live time cid w'.capabilities ≡ ok true
    → All (EndsAfter time env.issuing.now) (approvals (or_no_list o.request.decisions))
live-approved env id by lifetime uses w {o} {w'} {cid} time replayed h granted kept alive =
    let g = approve-Grants env id by lifetime uses w h granted kept in
    let c = g.issued in
    let within = narrowest-IsWithin (approvals g.ds) (rw c.expires at g.bounded) in
    let ends =
      live-issue env.issuing c.flags w.capabilities replayed
        (stated_ttl env.issuing c.flags w.capabilities c.ttl replayed c.made c.stated.ttl_text)
        c.made time in
    let soon : time < env.issuing.now + c.ttl = ground (arith, ends, rw g.disk at alive) in
    rw g.decided (All-EndsAfter time env.issuing.now c.ttl (approvals g.ds) soon within)
