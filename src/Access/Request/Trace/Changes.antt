-- ===== src/Access/Request/Trace/Changes.antt =====
-- What one event can do to the register, and the invariant that every record of it keeps.
use skarbiec.Prelude.{
  ℕ, String, Bool, true, false, ◌≡◌, refl, sym, ap, ◌∙◌, ◌≢◌, inl, inr, Option, none, some, List,
  [], ◌∷◌, ◌++◌, eq_iff, arith, ok, Result-cases, Option-cases, is_some,
}
use skarbiec.Access.Request.Lifetime.{Lifetime}
use skarbiec.Access.Request.Register.{AccessRequest, find, put, find-id}
use skarbiec.Access.Request.Decide
use skarbiec.Access.Request.Decide.{World, or_no_list}
use skarbiec.Access.Request.File
use skarbiec.Access.Request.File.{Filing, file, filed}
use skarbiec.Access.Request.File.Answered.{IsNew, file-cases}
use skarbiec.Access.Request.Answer.{Outcome, approve, Closing, close, approvals, is_granted}
use skarbiec.Access.Request.Answer.Deciders.{approve-Approved}
use skarbiec.Access.Request.Answer.Conclude.{conclude-cases}
use skarbiec.Access.Request.Answer.Closed.{IsAnswered, close-IsClosed}
use skarbiec.Access.Request.Trace.{Event, filing, approving, closing, step}

-- A pending request is short of approvals and has nothing issued; an approved one has its grant.
pub record IsSound (r : AccessRequest) : Type 0 where
  pub unissued : r.state ≡ some "pending" → r.issued ≡ none
  pub short :
      r.state ≡ some "pending"
      → is_granted r.dual_control (approvals (or_no_list r.decisions)) ≡ false
  pub issued : r.state ≡ some "approved" → is_some r.issued ≡ true

-- One pending request decided.
pub record IsDecision (w w' : World) : Type 0 where
  pub id : String
  pub rs : List AccessRequest
  pub registered : w.register ≡ some rs
  pub r : AccessRequest
  pub found : find id rs ≡ some r
  pub pending : r.state ≡ some "pending"
  pub new : AccessRequest
  pub named : new.id ≡ some id
  pub stored : w'.register ≡ some (put id new rs)
  pub sound : IsSound r → IsSound new

pub data Change (w w' : World) : Type 0 where
  same : w'.register ≡ w.register → Change w w'
  added :
      (rs : List AccessRequest) (new : AccessRequest)
      → w.register ≡ some rs
      → w'.register ≡ some (rs ++ new ∷ [])
      → IsSound new
      → Change w w'
  decided : IsDecision w w' → Change w w'

IsNew-IsSound : (env : File.Env) (f : Filing) (r : AccessRequest) → IsNew env f r → IsSound r
IsNew-IsSound env f r n = record {
  unissued = λ e. n.unissued;
  short = λ e. rw n.undecided (unfold is_granted approvals in ground arith);
  issued = λ e. absurd (ground (arith, n.pending, e, eq_iff "pending" "approved"));
}

file-Change :
    (env : File.Env) (f : Filing) (reuse_open : Bool) (w : World) {r : AccessRequest} {w' : World}
    → file env f reuse_open w ≡ ok (r, w')
    → Change w w'
unfolding file
file-Change env f reuse_open w {r} {w'} h = elim (Option-cases w.register) [
  | inl no_list ↦ absurd (ground arith)
  | inr (rs, registered) ↦ elim (file-cases env f reuse_open w rs registered h) [
    | inl reused ↦ same (ap (λ (x : World). x.register) reused.kept)
    | inr new ↦ added rs r registered new.stored (IsNew-IsSound env f r new.made)
  ]
]

approve-Change :
    (env : Decide.Env) (id by : String) (lifetime : Lifetime) (uses : Option ℕ) (w : World)
    {o : Outcome} {w' : World}
    → approve env id by lifetime uses w ≡ ok (o, w')
    → Change w w'
approve-Change env id by lifetime uses w {o} {w'} h =
    let a = approve-Approved env id by lifetime uses w h in
    let r' : AccessRequest = record a.r { decisions = some a.after } in
    let pending = a.eligible.pending in
    elim (conclude-cases env id r' a.after a.rs w a.concluded) [
      | inl waiting ↦ decided (record {
        id = id;
        rs = a.rs;
        registered = a.registered;
        r = a.r;
        found = a.found;
        pending = pending;
        new = r';
        named = find-id id a.rs a.found;
        stored = ap (λ (x : World). x.register) waiting.stored;
        sound = λ s. record {
          unissued = s.unissued;
          short = λ e. waiting.short;
          issued = λ e. absurd (ground (arith, pending, e));
        };
      })
      | inr g ↦ decided (record {
        id = id;
        rs = a.rs;
        registered = a.registered;
        r = a.r;
        found = a.found;
        pending = pending;
        new = record r' { issued = some g.issued; state = some "approved" };
        named = find-id id a.rs a.found;
        stored = ap (λ (x : World). x.register) g.stored;
        sound = λ s. record {
          unissued = λ e. absurd (ground (arith, e));
          short = λ e. absurd (ground (arith, e));
          issued = λ e. refl;
        };
      })
    ]

IsAnswered-pending :
    (how : Closing) {answer state : String}
    → IsAnswered how answer state
    → some state ≢ some "pending"
IsAnswered-pending how (inl (_, _, s)) e = ground (arith, s, e, eq_iff "denied" "pending")
IsAnswered-pending how (inr (_, _, s)) e = ground (arith, s, e, eq_iff "withdrawn" "pending")

IsAnswered-approved :
    (how : Closing) {answer state : String}
    → IsAnswered how answer state
    → some state ≢ some "approved"
IsAnswered-approved how (inl (_, _, s)) e = ground (arith, s, e, eq_iff "denied" "approved")
IsAnswered-approved how (inr (_, _, s)) e = ground (arith, s, e, eq_iff "withdrawn" "approved")

close-Change :
    (env : Decide.Env) (id by : String) (how : Closing) (reason : Option String) (w : World)
    {o : AccessRequest} {w' : World}
    → close env id by how reason w ≡ ok (o, w')
    → Change w w'
close-Change env id by how reason w {o} {w'} h =
    let c = close-IsClosed env id by how reason w h in
    decided (record {
      id = id;
      rs = c.rs;
      registered = c.registered;
      r = c.r;
      found = c.found;
      pending = elim c.allowed [ inl own ↦ own.pending | inr other ↦ other.pending ];
      new = o;
      named = c.same_id ∙ find-id id c.rs c.found;
      stored = c.stored;
      sound = λ s. record {
        unissued = λ e. absurd (IsAnswered-pending how c.answered (sym c.closed_as ∙ e));
        short = λ e. absurd (IsAnswered-pending how c.answered (sym c.closed_as ∙ e));
        issued = λ e. absurd (IsAnswered-approved how c.answered (sym c.closed_as ∙ e));
      };
    })

pub step-Change : (w : World) (e : Event) → Change w (step w e)
unfolding step
step-Change w (filing env f reuse_open) = elim (Result-cases (file env f reuse_open w)) [
  | inl ((r, w'), done) ↦ rw done (file-Change env f reuse_open w done)
  | inr (e, refused) ↦ rw refused (same refl)
]
step-Change w (approving env id by lifetime uses) =
    elim (Result-cases (approve env id by lifetime uses w)) [
      | inl ((o, w'), done) ↦ rw done (approve-Change env id by lifetime uses w done)
      | inr (e, refused) ↦ rw refused (same refl)
    ]
step-Change w (closing env id by how reason) = elim (Result-cases (close env id by how reason w)) [
  | inl ((r, w'), done) ↦ rw done (close-Change env id by how reason w done)
  | inr (e, refused) ↦ rw refused (same refl)
]
