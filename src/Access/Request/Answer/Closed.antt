-- ===== src/Access/Request/Answer/Closed.antt =====
-- What closing a request does, and what it leaves alone.
use skarbiec.Prelude.{
  [], ◌∷◌, ◌++◌, String, ◌≡◌, refl, ap, ◌⊎◌, inl, inr, Option, some, List, arith, str_eq, eq_iff,
  ok, Bool-cases, Result-cases, Option-cases,
}
use skarbiec.Access.Request.Register.{AccessRequest, Decision, find, put}
use skarbiec.Access.Request.Decide.{Env, World}
use skarbiec.Access.Request.Answer.{
  Closing, deny, withdraw, close, may_close, closed, closing_decision, words,
}
use skarbiec.Access.Request.Answer.Deciders.{IsEligible, authorize-IsEligible}

-- The requesting agent takes its own pending request back.
pub record IsTakenBack (r : AccessRequest) (by : String) (closing : Closing) : Type 0 where
  pub taken_back : closing ≡ withdraw
  pub own : r.requester.agent ≡ some by
  pub pending : r.state ≡ some "pending"

pub may_close-cases :
    (env : Env) (r : AccessRequest) (by : String) (closing : Closing)
    → may_close env r by closing ≡ ok tt
    → IsTakenBack r by closing ⊎ IsEligible env r by
unfolding may_close
may_close-cases env r by deny h = inr (authorize-IsEligible env r by h)
may_close-cases env r by withdraw h = elim (Option-cases r.requester.agent) [
  | inl nobody ↦ absurd (ground arith)
  | inr (agent, named) ↦ elim (Bool-cases (str_eq agent by)) [
    | inr differs ↦ inr (authorize-IsEligible env r by (ground arith))
    | inl same ↦ elim (Option-cases r.state) [
      | inl unsaid ↦ absurd (ground arith)
      | inr (state, said) ↦ inl (record {
        taken_back = refl;
        own = ground (arith, eq_iff agent by);
        pending = ground (arith, eq_iff state "pending");
      })
    ]
  ]
]

-- A denial leaves the request denied, a withdrawal leaves it withdrawn.
abbrev pub IsAnswered : Closing → String → String → Type 0
IsAnswered closing answer state =
    ((closing ≡ deny) × (answer ≡ "deny") × (state ≡ "denied"))
    ⊎ ((closing ≡ withdraw) × (answer ≡ "withdraw") × (state ≡ "withdrawn"))

words-IsAnswered : (closing : Closing) → IsAnswered closing (words closing).0 (words closing).1
unfolding words
words-IsAnswered deny = inl (refl, refl, refl)
words-IsAnswered withdraw = inr (refl, refl, refl)

-- A closed request: who closed it, what it became, the decision behind those it had, and that
-- nothing was issued.
pub record IsClosed (env : Env) (id by : String) (closing : Closing) (w : World) (o : AccessRequest)
    (w' : World) : Type 0 where
  pub rs : List AccessRequest
  pub registered : w.register ≡ some rs
  pub r : AccessRequest
  pub found : find id rs ≡ some r
  pub allowed : IsTakenBack r by closing ⊎ IsEligible env r by
  pub same_id : o.id ≡ r.id
  pub answer : String
  pub state : String
  pub answered : IsAnswered closing answer state
  pub closed_as : o.state ≡ some state
  pub before : List Decision
  pub had : r.decisions ≡ some before
  pub decision : Decision
  pub decided : o.decisions ≡ some (before ++ decision ∷ [])
  pub decided_by : decision.by ≡ some by
  pub decided_so : decision.answer ≡ some answer
  pub issued : o.issued ≡ r.issued
  pub stored : w'.register ≡ some (put id o rs)
  pub capabilities : w'.capabilities ≡ w.capabilities
  pub tokens : w'.tokens ≡ w.tokens

-- A denial or a withdrawal that is taken comes from an eligible decider, or is the requesting
-- agent's withdrawal of its pending request. A denial leaves the request "denied", a withdrawal
-- "withdrawn", in its place in the register and with that decision behind those it had; what was
-- issued, the capabilities and the tokens stay as they were.
pub close-IsClosed :
    (env : Env) (id by : String) (closing : Closing) (reason : Option String) (w : World)
    {o : AccessRequest} {w' : World}
    → close env id by closing reason w ≡ ok (o, w')
    → IsClosed env id by closing w o w'
unfolding close
close-IsClosed env id by closing reason w {o} {w'} h = elim (Option-cases w.register) [
  | inl no_list ↦ absurd (ground arith)
  | inr (rs, registered) ↦ elim (Option-cases (find id rs)) [
    | inl unknown ↦ absurd (ground arith)
    | inr (r, found) ↦ elim (Result-cases (may_close env r by closing)) [
      | inr (e, refused) ↦ absurd (ground arith)
      | inl (u, let_in) ↦ elim (Option-cases r.decisions) [
        | inl unlisted ↦ absurd (ground arith)
        | inr (before, listed) ↦
            let done : o ≡ closed env by closing reason r before = ground arith in
            record {
              rs = rs;
              registered = registered;
              r = r;
              found = found;
              allowed = may_close-cases env r by closing let_in;
              same_id = ap (λ (x : AccessRequest). x.id) done;
              answer = (words closing).0;
              state = (words closing).1;
              answered = words-IsAnswered closing;
              closed_as = ap (λ (x : AccessRequest). x.state) done;
              before = before;
              had = listed;
              decision = closing_decision env by closing reason;
              decided = ap (λ (x : AccessRequest). x.decisions) done;
              decided_by = refl;
              decided_so = refl;
              issued = ap (λ (x : AccessRequest). x.issued) done;
              stored = ground arith;
              capabilities = ground arith;
              tokens = ground arith;
            }
      ]
    ]
  ]
]
