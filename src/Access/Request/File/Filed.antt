-- ===== src/Access/Request/File/Filed.antt =====
-- What a filing that was taken holds, and what filing it does to the register.
use skarbiec.Prelude.{
  ℕ, ◌≤◌, ◌<◌, ◌^◌, String, Bool, true, false, ◌≡◌, refl, inl, inr, ◌≢◌, Option, none, some, arith,
  eq_iff, ok, Result-cases, Option-cases,
}
use skarbiec.Prelude.Text.{parse_nonzero, parse_nonzero_pos}
use skarbiec.Access.Request.Register.{capability, consumer, record_only, NamedGrant}
use skarbiec.Access.Request.File.{
  Kind, secret, device, membership, Flags, Env, bounded_grant, standing_grant, grant_of,
  exact_component, is_line, required, positive, depth_of,
}

pub required-is_line :
    (flag : Option String) {value : String} → required flag ≡ ok value → is_line value ≡ true
required-is_line none h = cc
required-is_line (some raw) h = ground arith

pub record IsCount (n : ℕ) : Type 0 where
  pub some_of_it : 1 ≤ n
  pub fits : n < 2 ^ 64

-- A filed number is at least one and fits a machine word.
positive-bounds : (flag : Option String) {n : ℕ} → positive flag ≡ ok n → IsCount n
positive-bounds flag {n} h = elim (Result-cases (required flag)) [
  | inr (e, bad) ↦ absurd (ground arith)
  | inl (raw, given) ↦ elim (Option-cases (parse_nonzero raw)) [
    | inl unread ↦ absurd (ground arith)
    | inr (m, read) ↦ record {
      some_of_it = ground (arith, parse_nonzero_pos raw read);
      fits = ground (arith, parse_nonzero_pos raw read);
    }
  ]
]

-- A bounded capability is filed for reading, for the item that its resource resolves to.
pub record IsBounded (env : Env) (action resource : String) (g : NamedGrant) (item : Option String)
    : Type 0 where
  pub form : g.form ≡ some capability
  pub reads : action ≡ "read"
  pub resolved : (i : String) × (env.resolved_item resource ≡ some i) × (item ≡ some i)
  pub purpose : (p : String) × (g.purpose ≡ some p) × (is_line p ≡ true)
  pub target : (t : String) × (g.target ≡ some t) × (is_line t ≡ true)
  pub ttl : (n : ℕ) × (g.ttl_seconds ≡ some n) × IsCount n
  pub uses : (n : ℕ) × (g.max_uses ≡ some n) × IsCount n

bounded_grant-IsBounded :
    (env : Env) (flags : Flags) (action resource : String) {g : NamedGrant} {item : Option String}
    → bounded_grant env flags action resource ≡ ok (g, item)
    → IsBounded env action resource g item
unfolding bounded_grant
bounded_grant-IsBounded env flags action resource {g} {item} h =
    elim (Result-cases (required flags.purpose)) [
      | inr (e, bad) ↦ absurd (ground arith)
      | inl (p, e1) ↦ elim (Result-cases (required flags.target)) [
        | inr (e, bad) ↦ absurd (ground arith)
        | inl (t, e2) ↦ elim (Result-cases (positive flags.ttl_seconds)) [
          | inr (e, bad) ↦ absurd (ground arith)
          | inl (ttl, e3) ↦ elim (Result-cases (positive flags.max_uses)) [
            | inr (e, bad) ↦ absurd (ground arith)
            | inl (uses, e4) ↦ elim (Result-cases (depth_of flags.delegation_depth)) [
              | inr (e, bad) ↦ absurd (ground arith)
              | inl (depth, e5) ↦ elim (Option-cases (env.resolved_item resource)) [
                | inl unresolved ↦ absurd (ground arith)
                | inr (i, found) ↦ record {
                  form = ground arith;
                  reads = ground (arith, eq_iff action "read");
                  resolved = (i, found, ground arith);
                  purpose = (p, ground arith, required-is_line flags.purpose e1);
                  target = (t, ground arith, required-is_line flags.target e2);
                  ttl = (ttl, ground arith, positive-bounds flags.ttl_seconds e3);
                  uses = (uses, ground arith, positive-bounds flags.max_uses e4);
                }
              ]
            ]
          ]
        ]
      ]
    ]

-- A standing grant is filed for one exact consumer name.
pub record IsStanding (g : NamedGrant) : Type 0 where
  pub form : g.form ≡ some consumer
  pub consumer : (c : String) × (g.consumer ≡ some c) × (exact_component c ≡ true)

standing_grant-IsStanding :
    (flags : Flags) (resource : String) {g : NamedGrant} {item : Option String}
    → standing_grant flags resource ≡ ok (g, item)
    → IsStanding g
unfolding standing_grant
standing_grant-IsStanding flags resource {g} {item} h =
    elim (Result-cases (required flags.for_consumer)) [
      | inr (e, bad) ↦ absurd (ground arith)
      | inl (c, e1) ↦ record { form = ground arith; consumer = (c, ground arith, ground arith) }
    ]

-- The grant that a filing names: a bounded capability or a standing grant for a secret, and none
-- for a device or a membership.
pub data HasGrant (env : Env) (kind : Kind) (action resource : String) (g : NamedGrant)
    (item : Option String) : Type 0 where
  bounded :
      kind ≡ secret
      → IsBounded env action resource g item
      → HasGrant env kind action resource g item
  standing : kind ≡ secret → IsStanding g → HasGrant env kind action resource g item
  no_grant :
      kind ≢ secret
      → g.form ≡ some record_only
      → item ≡ none
      → HasGrant env kind action resource g item

pub grant_of-HasGrant :
    (env : Env) (flags : Flags) (kind : Kind) (b s : Bool) (action resource : String)
    {g : NamedGrant} {item : Option String}
    → grant_of env flags kind b s action resource ≡ ok (g, item)
    → HasGrant env kind action resource g item
unfolding grant_of
grant_of-HasGrant env flags secret true false action resource h =
    bounded refl (bounded_grant-IsBounded env flags action resource h)
grant_of-HasGrant env flags secret false true action resource h =
    standing refl (standing_grant-IsStanding flags resource h)
grant_of-HasGrant env flags secret true true action resource h = cc
grant_of-HasGrant env flags secret false false action resource h = cc
grant_of-HasGrant env flags device false false action resource h =
    no_grant (λ e. cc) (ground arith) (ground arith)
grant_of-HasGrant env flags device true s action resource h = cc
grant_of-HasGrant env flags device false true action resource h = cc
grant_of-HasGrant env flags membership false false action resource h =
    no_grant (λ e. cc) (ground arith) (ground arith)
grant_of-HasGrant env flags membership true s action resource h = cc
grant_of-HasGrant env flags membership false true action resource h = cc
