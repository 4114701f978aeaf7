-- ===== src/Access/Request/Answer.antt =====
-- Approving, denying and withdrawing a request (`approve` and `close` of
-- src/access/request/decide.rs).
pub mod Control
pub mod Closed
pub mod Narrow
pub mod Limits
pub mod Deciders
pub mod Conclude
use skarbiec.Prelude.{
  ℕ, String, Bool, true, false, Option, none, some, List, [], ◌∷◌, ◌++◌, ltb, leb, str_eq,
  if◌then◌else◌, Result, ok, err, ◌>>=◌, ◌>>◌, guard, or_fail,
}
use skarbiec.Access.Capability.State.{is_text}
use skarbiec.Access.Request.Lifetime.{Lifetime, narrower}
use skarbiec.Access.Request.Register.{Form, Decision, Issued, AccessRequest, find, put}
use skarbiec.Access.Request.Decide.{
  Refusal, no_register, no_request, damaged, not_pending, no_form, no_lifetime, Env, World,
  authorize, uses_for, issue,
}

-- The decisions that approve.
unfoldable pub approvals : List Decision → List Decision
approvals [] = []
approvals (d ∷ ds) =
    let rest = approvals ds in if is_text "approve" d.answer then d ∷ rest else rest

abbrev two_or_more : List Decision → Bool
two_or_more [] = false
two_or_more (d ∷ []) = false
two_or_more (d ∷ e ∷ ds) = true

abbrev one_or_more : List Decision → Bool
one_or_more [] = false
one_or_more (d ∷ ds) = true

-- Whether the approvals are enough for the grant.
unfoldable pub is_granted : Bool → List Decision → Bool
is_granted dual_control ds = if dual_control then two_or_more ds else one_or_more ds

unfoldable pub lifetimes : List Decision → Result Refusal (List Lifetime)
lifetimes [] = ok []
lifetimes (d ∷ ds) = do l ← or_fail d.lifetime no_lifetime; ls ← lifetimes ds; ok (l ∷ ls)

unfoldable pub reduce : Lifetime → List Lifetime → Lifetime
reduce l [] = l
reduce l (m ∷ ms) = reduce (narrower l m) ms

abbrev reduced : List Lifetime → Result Refusal Lifetime
reduced [] = err no_lifetime
reduced (l ∷ ls) = ok (reduce l ls)

-- The narrowest of the lifetimes that the deciders stated.
unfoldable pub narrowest : List Decision → Result Refusal Lifetime
narrowest ds = do ls ← lifetimes ds; reduced ls

abbrev pub lesser : Option ℕ → Option ℕ → Option ℕ
lesser none b = b
lesser (some a) none = some a
lesser (some a) (some b) = some (if ltb b a then b else a)

-- The fewest of the uses that the deciders stated.
unfoldable pub fewest : List Decision → Option ℕ
fewest [] = none
fewest (d ∷ ds) = lesser d.uses (fewest ds)

abbrev pub approval : Env → String → Lifetime → Option ℕ → Decision
approval env by lifetime uses = record {
  by = some by;
  at = some env.now_iso;
  answer = some "approve";
  lifetime = some lifetime;
  uses = uses;
  reason = none;
}

-- What the command answers: the request as it stands now, and whether it was granted.
pub record Outcome : Type 0 where
  pub granted : Bool
  pub request : AccessRequest

abbrev pub store : String → AccessRequest → List AccessRequest → World → World
store id r rs w = record w { register = some (put id r rs) }

-- What follows once the decision stands in the request `r`.
unfoldable pub conclude :
    Env
    → String
    → AccessRequest
    → List Decision
    → List AccessRequest
    → World
    → Result Refusal (Outcome × World)
conclude env id r ds rs w =
    let granting : Result Refusal (Outcome × World) = (do
      bound ← narrowest (approvals ds)
      (issued, w') ← issue env r bound (fewest (approvals ds)) w
      let done : AccessRequest = record r { issued = some issued; state = some "approved" }
      ok (record { granted = true; request = done }, store id done rs w')) in
    if is_granted r.dual_control (approvals ds)
    then granting
    else ok (record { granted = false; request = r }, store id r rs w)

unfoldable pub approve :
    Env → String → String → Lifetime → Option ℕ → World → Result Refusal (Outcome × World)
approve env id by lifetime uses w = do
  rs ← or_fail w.register no_register
  r ← or_fail (find id rs) no_request
  authorize env r by
  form ← or_fail r.grant.form no_form
  uses ← uses_for form uses lifetime
  before ← or_fail r.decisions damaged
  let after = before ++ approval env by lifetime uses ∷ []
  conclude env id (record r { decisions = some after }) after rs w

pub data Closing : Type 0 where
  deny withdraw : Closing

-- The decision's answer and the state it leaves.
unfoldable pub words : Closing → String × String
words deny = ("deny", "denied")
words withdraw = ("withdraw", "withdrawn")

-- Whether the requesting agent takes the request back.
abbrev by_requester : Closing → AccessRequest → String → Result Refusal Bool
by_requester deny r by = ok false
by_requester withdraw r by = do agent ← or_fail r.requester.agent damaged; ok (str_eq agent by)

abbrev still_pending : AccessRequest → Result Refusal (Unit {0})
still_pending r = do state ← or_fail r.state damaged; guard (str_eq state "pending") not_pending

-- Who may close it.
unfoldable pub may_close : Env → AccessRequest → String → Closing → Result Refusal (Unit {0})
may_close env r by closing = do
  own ← by_requester closing r by
  if own then still_pending r else authorize env r by

abbrev pub closing_decision : Env → String → Closing → Option String → Decision
closing_decision env by closing reason = record {
  by = some by;
  at = some env.now_iso;
  answer = some (words closing).0;
  lifetime = none;
  uses = none;
  reason = reason;
}

abbrev pub closed :
    Env → String → Closing → Option String → AccessRequest → List Decision → AccessRequest
closed env by closing reason r before = record r {
  decisions = some (before ++ closing_decision env by closing reason ∷ []);
  state = some (words closing).1;
}

unfoldable pub close :
    Env → String → String → Closing → Option String → World → Result Refusal (AccessRequest × World)
close env id by closing reason w = do
  rs ← or_fail w.register no_register
  r ← or_fail (find id rs) no_request
  may_close env r by closing
  before ← or_fail r.decisions damaged
  let done = closed env by closing reason r before
  ok (done, store id done rs w)
