-- ===== src/Access/Request/File/Answered.antt =====
-- What `file` does to the register: the same question that is still open, or a new record.
use skarbiec.Prelude.{
  String, Bool, true, false, ◌≡◌, refl, ◌⊎◌, inl, inr, ◌↔◌, none, some, List, [], ◌∷◌, ◌++◌, ◌||◌,
  arith, ok, Bool-cases, Option-cases, str_eq, any, All,
}
use skarbiec.Access.Request.Register.{AccessRequest}
use skarbiec.Access.Request.Decide.{World}
use skarbiec.Access.Request.File.{Env, Filing, find_same, filed, file, name, marked_dual_control}
use skarbiec.Access.Request.File.Same.{IsSameQuestion, find_same-none, find_same-some}

-- An open request that is the answer: it was asked for, it is the first such one in the register,
-- and nothing changes.
pub record IsReused (f : Filing) (reuse_open : Bool) (w : World) (rs : List AccessRequest)
    (r : AccessRequest) (w' : World) : Type 0 where
  pub asked : reuse_open ≡ true
  pub earlier : List AccessRequest
  pub later : List AccessRequest
  pub listed : rs ≡ earlier ++ r ∷ later
  pub first : All (λ x. ¬ IsSameQuestion x f) earlier
  pub same : IsSameQuestion r f
  pub kept : w' ≡ w

-- The item that the filing reaches is tagged as needing two deciders.
pub record IsMarked (env : Env) (f : Filing) : Type 0 where
  pub item : String
  pub reaches : f.item ≡ some item
  pub tagged : any (λ tag. str_eq tag "dual-control") (env.tags item) ≡ true

-- A new record: what was filed, pending, undecided and with nothing issued.
pub record IsNew (env : Env) (f : Filing) (r : AccessRequest) : Type 0 where
  pub id : r.id ≡ some env.new_id
  pub requested_at : r.requested_at ≡ some env.now_iso
  pub requester : r.requester ≡ f.requester
  pub kind : r.kind ≡ some (name f.kind)
  pub resource : r.resource ≡ some f.resource
  pub action : r.action ≡ some f.action
  pub reason : r.reason ≡ some f.reason
  pub decider : r.decider ≡ some f.decider
  pub grant : r.grant ≡ f.grant
  pub via : r.via ≡ some f.via
  pub dual : (r.dual_control ≡ true) ↔ ((f.dual_control ≡ true) ⊎ IsMarked env f)
  pub pending : r.state ≡ some "pending"
  pub undecided : r.decisions ≡ some []
  pub unissued : r.issued ≡ none

-- A record behind the others, where no reuse was asked for or no such question is open.
pub record IsAdded (env : Env) (f : Filing) (reuse_open : Bool) (w : World)
    (rs : List AccessRequest) (r : AccessRequest) (w' : World) : Type 0 where
  pub no_answer : (reuse_open ≡ false) ⊎ All (λ x. ¬ IsSameQuestion x f) rs
  pub made : IsNew env f r
  pub stored : w'.register ≡ some (rs ++ r ∷ [])
  pub capabilities : w'.capabilities ≡ w.capabilities
  pub tokens : w'.tokens ≡ w.tokens

dual_because :
    (env : Env) (f : Filing)
    → (f.dual_control || marked_dual_control env f.item) ≡ true
    → (f.dual_control ≡ true) ⊎ IsMarked env f
dual_because env f e = elim (Bool-cases f.dual_control) [
  | inl said ↦ inl said
  | inr unsaid ↦ elim (Option-cases f.item) [
    | inl nothing ↦ absurd (ground arith)
    | inr (item, reaches) ↦
        inr (record { item = item; reaches = reaches; tagged = rw (unsaid, reaches) at e })
  ]
]

because_dual :
    (env : Env) (f : Filing)
    → (f.dual_control ≡ true) ⊎ IsMarked env f
    → (f.dual_control || marked_dual_control env f.item) ≡ true
because_dual env f (inl said) = rw said refl
because_dual env f (inr m) = elim (Bool-cases f.dual_control) [
  | inl said ↦ rw said refl
  | inr unsaid ↦ rw (unsaid, m.reaches) m.tagged
]

filed-IsNew : (env : Env) (f : Filing) → IsNew env f (filed env f)
filed-IsNew env f = record {
  id = refl;
  requested_at = refl;
  requester = refl;
  kind = refl;
  resource = refl;
  action = refl;
  reason = refl;
  decider = refl;
  grant = refl;
  via = refl;
  dual = (dual_because env f, because_dual env f);
  pending = refl;
  undecided = refl;
  unissued = refl;
}

added :
    (env : Env) (f : Filing) (reuse_open : Bool) (w : World) (rs : List AccessRequest)
    → (reuse_open ≡ false) ⊎ All (λ x. ¬ IsSameQuestion x f) rs
    → IsAdded env f reuse_open w rs
        (filed env f)
        (record w { register = some (rs ++ filed env f ∷ []) })
added env f reuse_open w rs why = record {
  no_answer = why;
  made = filed-IsNew env f;
  stored = refl;
  capabilities = refl;
  tokens = refl;
}

-- Filing answers with the first open request in the register that asks the same question, and
-- changes nothing, where reuse is asked for and there is one. Where reuse is not asked for or there
-- is none, a new record of what was filed, pending, undecided and with nothing issued, is added
-- behind the others, for two deciders if the filing or a tag of its item says so.
pub file-cases :
    (env : Env) (f : Filing) (reuse_open : Bool) (w : World) (rs : List AccessRequest)
    {r : AccessRequest} {w' : World}
    → w.register ≡ some rs
    → file env f reuse_open w ≡ ok (r, w')
    → IsReused f reuse_open w rs r w' ⊎ IsAdded env f reuse_open w rs r w'
unfolding file
file-cases env f true w rs {r} {w'} registered h = elim (Option-cases (find_same f rs)) [
  | inl nothing ↦
      let made : r ≡ filed env f = ground arith in
      let kept : w' ≡ record w { register = some (rs ++ filed env f ∷ []) } = ground arith in
      inr (rw (made, kept) (added env f true w rs (inr (find_same-none f rs nothing))))
  | inr (open_one, found) ↦
      let same : open_one ≡ r = ground arith in
      let parts = find_same-some f rs (rw same at found) in
      inl (record {
        asked = refl;
        earlier = parts.0;
        later = parts.1;
        listed = parts.2;
        first = parts.3;
        same = parts.4;
        kept = ground arith;
      })
]
file-cases env f false w rs {r} {w'} registered h =
    let made : r ≡ filed env f = ground arith in
    let kept : w' ≡ record w { register = some (rs ++ filed env f ∷ []) } = ground arith in
    inr (rw (made, kept) (added env f false w rs (inl refl)))
