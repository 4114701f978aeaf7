-- ===== src/Access/Request/Answer/Control.antt =====
-- Who stands behind a grant and behind a closed request.
use mathlib.Core.Path.{subst}
use skarbiec.Prelude.{
  ℕ, String, true, ◌≡◌, refl, ap, inl, inr, Option, some, List, [], ◌∷◌, ◌++◌, sym, ◌∙◌, eq_refl,
  arith, any, ok,
}
use skarbiec.Access.Request.Lifetime.{Lifetime}
use skarbiec.Access.Request.Register.{Decision, AccessRequest, find}
use skarbiec.Access.Request.Decide.{Env, World, or_no_list}
use skarbiec.Access.Request.Answer.{Outcome, approve, approvals, is_granted, approval, two_or_more}
use skarbiec.Access.Request.Answer.Deciders.{IsEligible, Approved, approve-Approved}
use skarbiec.Access.Request.Answer.Conclude.{
  conclude-cases, approvals-append, approved_by_other, any-approved_by_other, two_or_more-snoc,
}

approvals-snoc :
    (ds : List Decision) (d : Decision)
    → d.answer ≡ some "approve"
    → approvals (ds ++ d ∷ []) ≡ approvals ds ++ d ∷ []
approvals-snoc ds d h = rw approvals-append (
    ap (λ (x : List Decision). approvals ds ++ x)
      (unfold approvals in ground (arith, h, eq_refl "approve")))

Approved-two_deciders :
    {env : Env} {id by : String} {lifetime : Lifetime} {w : World} {o : Outcome} {w' : World}
    (a : Approved env id by lifetime w o w')
    → a.r.dual_control ≡ true
    → o.granted ≡ true
    → any (approved_by_other by) (or_no_list a.r.decisions) ≡ true
Approved-two_deciders {env} {id} {by} {lifetime} {w} {o} {w'} a dual granted =
    elim (conclude-cases env id (record a.r { decisions = some a.after }) a.after a.rs w
      a.concluded) [
        | inl waiting ↦ absurd (cc (granted, waiting.kept))
        | inr g ↦
            let new = approval env by lifetime a.stated in
            let enough : two_or_more (approvals a.after) ≡ true =
              unfold is_granted in (rw dual at g.enough) in
            let snoc =
              ap two_or_more (ap approvals a.added ∙ approvals-snoc a.before new refl)
              ∙ two_or_more-snoc (approvals a.before) new in
            rw a.listed (
              any-approved_by_other by a.before (rw a.listed at a.eligible.undecided)
                (sym snoc ∙ enough))
      ]

-- An approval is taken only from an eligible decider.
pub approve-IsEligible :
    (env : Env) (id by : String) (lifetime : Lifetime) (uses : Option ℕ) (w : World)
    (rs : List AccessRequest) (r : AccessRequest) {o : Outcome} {w' : World}
    → w.register ≡ some rs
    → find id rs ≡ some r
    → approve env id by lifetime uses w ≡ ok (o, w')
    → IsEligible env r by
approve-IsEligible env id by lifetime uses w rs r {o} {w'} registered found h =
    let a = approve-Approved env id by lifetime uses w h in
    let same_rs : a.rs ≡ rs = cc (a.registered, registered) in
    let same : a.r ≡ r = cc (a.found, found, same_rs) in
    subst (λ x. IsEligible env x by) same a.eligible

-- A dual-control request is granted only when another decider approved it before.
pub two_deciders :
    (env : Env) (id by : String) (lifetime : Lifetime) (uses : Option ℕ) (w : World)
    (rs : List AccessRequest) (r : AccessRequest) {o : Outcome} {w' : World}
    → w.register ≡ some rs
    → find id rs ≡ some r
    → r.dual_control ≡ true
    → approve env id by lifetime uses w ≡ ok (o, w')
    → o.granted ≡ true
    → any (approved_by_other by) (or_no_list r.decisions) ≡ true
two_deciders env id by lifetime uses w rs r {o} {w'} registered found dual h granted =
    let a = approve-Approved env id by lifetime uses w h in
    let same_rs : a.rs ≡ rs = cc (a.registered, registered) in
    let same : a.r ≡ r = cc (a.found, found, same_rs) in
    subst (λ (x : AccessRequest). any (approved_by_other by) (or_no_list x.decisions) ≡ true) same
      (Approved-two_deciders a (rw same dual) granted)
