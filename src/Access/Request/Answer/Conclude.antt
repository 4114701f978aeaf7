-- ===== src/Access/Request/Answer/Conclude.antt =====
-- What follows an approval: it waits for a second decider, or the grant is issued.
use skarbiec.Prelude.{
  String, Bool, true, false, ◌≡◌, refl, ◌⊎◌, some, List, [], ◌∷◌, ◌++◌, arith, not, ◌&&◌, any, ok,
  Bool-cases, Result-cases, inl, inr,
}
use skarbiec.Access.Capability.State.{is_text}
use skarbiec.Access.Request.Lifetime.{Lifetime}
use skarbiec.Access.Request.Register.{Decision, Issued, AccessRequest}
use skarbiec.Access.Request.Decide.{Env, World, issue, has_decided}
use skarbiec.Access.Request.Answer.{
  approvals, is_granted, narrowest, fewest, Outcome, conclude, store, one_or_more, two_or_more,
}

pub record Granted (env : Env) (id : String) (r : AccessRequest) (ds : List Decision)
    (rs : List AccessRequest) (w : World) (o : Outcome) (w' : World) : Type 0 where
  pub enough : is_granted r.dual_control (approvals ds) ≡ true
  pub bound : Lifetime
  pub bounded : narrowest (approvals ds) ≡ ok bound
  pub issued : Issued
  pub w1 : World
  pub issuing : issue env r bound (fewest (approvals ds)) w ≡ ok (issued, w1)
  pub done : o ≡ record {
    granted = true;
    request = record r { issued = some issued; state = some "approved" };
  }
  pub stored : w' ≡ store id (record r { issued = some issued; state = some "approved" }) rs w1

pub record Waiting (id : String) (r : AccessRequest) (ds : List Decision) (rs : List AccessRequest)
    (w : World) (o : Outcome) (w' : World) : Type 0 where
  pub short : is_granted r.dual_control (approvals ds) ≡ false
  pub kept : o ≡ record { granted = false; request = r }
  pub stored : w' ≡ store id r rs w

pub conclude-cases :
    (env : Env) (id : String) (r : AccessRequest) (ds : List Decision) (rs : List AccessRequest)
    (w : World) {o : Outcome} {w' : World}
    → conclude env id r ds rs w ≡ ok (o, w')
    → Waiting id r ds rs w o w' ⊎ Granted env id r ds rs w o w'
unfolding conclude
conclude-cases env id r ds rs w {o} {w'} h =
    elim (Bool-cases (is_granted r.dual_control (approvals ds))) [
      | inr short ↦ inl (record { short = short; kept = ground arith; stored = ground arith })
      | inl enough ↦ elim (Result-cases (narrowest (approvals ds))) [
        | inr (e, bad) ↦ absurd (ground arith)
        | inl (bound, bounded) ↦ elim (Result-cases (issue env r bound (fewest (approvals ds)) w)) [
          | inr (e, bad) ↦ absurd (ground arith)
          | inl ((issued, w1), issuing) ↦ inr (record {
            enough = enough;
            bound = bound;
            bounded = bounded;
            issued = issued;
            w1 = w1;
            issuing = issuing;
            done = ground arith;
            stored = ground arith;
          })
        ]
      ]
    ]

pub approvals-append : (ds es : List Decision) → approvals (ds ++ es) ≡ approvals ds ++ approvals es
unfolding approvals
approvals-append [] es = refl
approvals-append (d ∷ ds) es = ground (arith, approvals-append ds es)

-- A request with an approval, that this recipient has not decided, was approved by another one.
abbrev pub approved_by_other : String → Decision → Bool
approved_by_other by d = is_text "approve" d.answer && not (is_text by d.by)

pub any-approved_by_other :
    (by : String) (ds : List Decision)
    → has_decided by ds ≡ false
    → one_or_more (approvals ds) ≡ true
    → any (approved_by_other by) ds ≡ true
unfolding approvals
any-approved_by_other by [] undecided h = cc
any-approved_by_other by (d ∷ ds) undecided h = elim (Bool-cases (is_text "approve" d.answer)) [
  | inl approves ↦ ground arith
  | inr else_ ↦ ground (arith, any-approved_by_other by ds (ground arith) (ground arith))
]

pub two_or_more-snoc :
    (ds : List Decision) (d : Decision) → two_or_more (ds ++ d ∷ []) ≡ one_or_more ds
two_or_more-snoc [] d = refl
two_or_more-snoc (e ∷ []) d = refl
two_or_more-snoc (e ∷ f ∷ ds) d = refl
