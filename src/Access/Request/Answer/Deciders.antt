-- ===== src/Access/Request/Answer/Deciders.antt =====
-- Who may decide: what `authorize` has established, and what an approval and a closing went through.
use skarbiec.Prelude.{
  ℕ, String, true, false, ◌≡◌, refl, ◌⊎◌, inl, inr, Option, some, List, [], ◌∷◌, ◌++◌, arith,
  eq_iff, str_eq, ok, Option-cases, Bool-cases, Result-cases,
}
use skarbiec.Prelude.Dict.{Dict, lookup}
use skarbiec.Access.Request.Lifetime.{Lifetime}
use skarbiec.Access.Request.Register.{Form, Decision, AccessRequest, find}
use skarbiec.Access.Request.Decide.{
  Recipient, owner, decides, Env, World, authorize, role_of, is_named, has_decided, or_no_list,
  uses_for,
}
use skarbiec.Access.Request.Answer.{Outcome, approve, conclude, approval}

eq_of : (s t : String) → str_eq s t ≡ true → s ≡ t
eq_of s t = (eq_iff s t).0

-- Everything that makes a recipient the decider of a request.
pub record IsEligible (env : Env) (r : AccessRequest) (by : String) : Type 0 where
  pub pending : r.state ≡ some "pending"
  pub recipients : Dict Recipient
  pub opened : env.recipients ≡ some recipients
  pub recipient : Recipient
  pub listed : lookup by recipients ≡ some recipient
  pub role : String
  pub has_role : recipient.role ≡ some role
  pub owner_or_admin : (role ≡ "owner") ⊎ (role ≡ "admin")
  pub decider : String
  pub asked_for : r.decider ≡ some decider
  pub named : (decider ≡ "admin") ⊎ (((decider ≡ "owner") × (role ≡ "owner")) ⊎ (decider ≡ by))
  pub fingerprint : String
  pub held : recipient.fingerprint ≡ some fingerprint
  pub key_here : env.secret_key_present fingerprint ≡ some true
  pub undecided : has_decided by (or_no_list r.decisions) ≡ false

decides-role_of :
    (word : String) → decides (role_of word) ≡ true → (word ≡ "owner") ⊎ (word ≡ "admin")
unfolding role_of
decides-role_of word h = elim (Bool-cases (str_eq word "owner")) [
  | inl same ↦ inl (eq_of word "owner" same)
  | inr differs ↦ elim (Bool-cases (str_eq word "admin")) [
    | inl same ↦ inr (eq_of word "admin" same)
    | inr neither ↦ absurd (ground arith)
  ]
]

owner-role_of : (word : String) → role_of word ≡ owner → word ≡ "owner"
unfolding role_of
owner-role_of word h = elim (Bool-cases (str_eq word "owner")) [
  | inl same ↦ eq_of word "owner" same
  | inr differs ↦ absurd (ground arith)
]

is_named-role_of :
    (decider role by : String)
    → is_named (role_of decider) (role_of role) decider by ≡ true
    → (decider ≡ "admin") ⊎ (((decider ≡ "owner") × (role ≡ "owner")) ⊎ (decider ≡ by))
unfolding is_named
is_named-role_of decider role by h = elim (Bool-cases (str_eq decider "owner")) [
  | inl same ↦
      let word = eq_of decider "owner" same in
      inr (inl (word, owner-role_of role (unfold role_of in ground arith)))
  | inr differs ↦ elim (Bool-cases (str_eq decider "admin")) [
    | inl same ↦ inl (eq_of decider "admin" same)
    | inr neither ↦ inr (inr (eq_of decider by (unfold role_of in ground arith)))
  ]
]

pub authorize-IsEligible :
    (env : Env) (r : AccessRequest) (by : String) → authorize env r by ≡ ok tt → IsEligible env r by
unfolding authorize
authorize-IsEligible env r by h = elim (Option-cases r.state) [
  | inl unsaid ↦ absurd (ground arith)
  | inr (state, said) ↦ elim (Option-cases env.recipients) [
    | inl closed ↦ absurd (ground arith)
    | inr (recipients, opened) ↦ elim (Option-cases (lookup by recipients)) [
      | inl stranger ↦ absurd (ground arith)
      | inr (recipient, listed) ↦ elim (Option-cases recipient.role) [
        | inl no_role ↦ absurd (ground arith)
        | inr (role, has_role) ↦ elim (Option-cases r.decider) [
          | inl nobody ↦ absurd (ground arith)
          | inr (decider, asked_for) ↦ elim (Option-cases recipient.fingerprint) [
            | inl no_key ↦ absurd (ground arith)
            | inr (fingerprint, held) ↦ record {
              pending = ground (arith, eq_iff state "pending");
              recipients = recipients;
              opened = opened;
              recipient = recipient;
              listed = listed;
              role = role;
              has_role = has_role;
              owner_or_admin = decides-role_of role (ground arith);
              decider = decider;
              asked_for = asked_for;
              named = is_named-role_of decider role by (ground arith);
              fingerprint = fingerprint;
              held = held;
              key_here = ground arith;
              undecided = ground arith;
            }
          ]
        ]
      ]
    ]
  ]
]

-- What an approval went through before its decision was written down.
pub record Approved (env : Env) (id by : String) (lifetime : Lifetime) (w : World) (o : Outcome)
    (w' : World) : Type 0 where
  pub rs : List AccessRequest
  pub registered : w.register ≡ some rs
  pub r : AccessRequest
  pub found : find id rs ≡ some r
  pub eligible : IsEligible env r by
  pub form : Form
  pub named : r.grant.form ≡ some form
  pub stated : Option ℕ
  pub before : List Decision
  pub listed : r.decisions ≡ some before
  pub after : List Decision
  pub added : after ≡ before ++ approval env by lifetime stated ∷ []
  pub concluded : conclude env id (record r { decisions = some after }) after rs w ≡ ok (o, w')

pub approve-Approved :
    (env : Env) (id by : String) (lifetime : Lifetime) (uses : Option ℕ) (w : World) {o : Outcome}
    {w' : World}
    → approve env id by lifetime uses w ≡ ok (o, w')
    → Approved env id by lifetime w o w'
unfolding approve
approve-Approved env id by lifetime uses w {o} {w'} h = elim (Option-cases w.register) [
  | inl no_list ↦ absurd (ground arith)
  | inr (rs, registered) ↦ elim (Option-cases (find id rs)) [
    | inl unknown ↦ absurd (ground arith)
    | inr (r, found) ↦ elim (Result-cases (authorize env r by)) [
      | inr (e, refused) ↦ absurd (ground arith)
      | inl (u, let_in) ↦ elim (Option-cases r.grant.form) [
        | inl formless ↦ absurd (ground arith)
        | inr (form, named) ↦ elim (Result-cases (uses_for form uses lifetime)) [
          | inr (e, refused) ↦ absurd (ground arith)
          | inl (stated, allowed) ↦ elim (Option-cases r.decisions) [
            | inl unlisted ↦ absurd (ground arith)
            | inr (before, listed) ↦ record {
              rs = rs;
              registered = registered;
              r = r;
              found = found;
              eligible = authorize-IsEligible env r by let_in;
              form = form;
              named = named;
              stated = stated;
              before = before;
              listed = listed;
              after = before ++ approval env by lifetime stated ∷ [];
              added = refl;
              concluded = ground arith;
            }
          ]
        ]
      ]
    ]
  ]
]
