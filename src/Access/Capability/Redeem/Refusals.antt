-- ===== src/Access/Capability/Redeem/Refusals.antt =====
-- Refusals: what they leave of the state, and that forgetting stale records changes none of them.
use skarbiec.Prelude.{
  ◌≡◌, false, Option, none, some, arith, Result, ok, err, Option-cases, inl, inr,
}
use skarbiec.Prelude.Dict.{lookup}
use skarbiec.Access.Capability.State.{Record, State, forget_stale, is_live}
use skarbiec.Access.Capability.Journal.{Fault, unaudited}
use skarbiec.Access.Capability.Request.{Answer, Request, Shaped, shape, nonce_key}
use skarbiec.Access.Capability.Request.Shapes.{shape-Avoids}
use skarbiec.Access.Capability.State.Forget.{forget_stale-lookup, forget_stale-nonce}
use skarbiec.Access.Capability.Redeem.{Env, Stop, refuse, fail, check}
use skarbiec.Access.Capability.Redeem.Effect.{Effect}

-- The audit journal did not take the line, after the save.
pub record IsUnaudited (env : Env) (c : Shaped) (res : Result Fault Answer) (after : State)
    : Type 0 where
  pub failed : res ≡ err unaudited
  pub no_line : env.audits ≡ false
  pub nonce : lookup (nonce_key c.capability_id c.nonce) after.nonces ≡ some env.now

-- What the caller sees of a check: no reason.
abbrev pub wire : {A : Type 0} → Result Stop A → Result (Option Fault) A
wire (ok a) = ok a
wire (err (refuse why)) = err none
wire (err (fail f)) = err (some f)

-- The part of the check that looks at the record alone.
dead_is_refused :
    (env : Env) (c : Shaped) (s : State) {r : Record}
    → lookup c.capability_id s.capabilities ≡ some r
    → is_live env.now r ≡ false
    → wire (check env c s) ≡ err none
unfolding check
dead_is_refused env c s e dead = ground arith

missing_is_refused :
    (env : Env) (c : Shaped) (s : State)
    → lookup c.capability_id s.capabilities ≡ none
    → wire (check env c s) ≡ err none
unfolding check
missing_is_refused env c s e = rw e

check_congruence :
    (env : Env) (c : Shaped) (s t : State)
    → lookup c.capability_id s.capabilities ≡ lookup c.capability_id t.capabilities
    → lookup (nonce_key c.capability_id c.nonce) s.nonces
      ≡ lookup (nonce_key c.capability_id c.nonce) t.nonces
    → check env c s ≡ check env c t
unfolding check
check_congruence env c s t same_record same_nonce = ground arith

-- Forgetting the stale capabilities and their nonces changes no answer on the wire: a request is
-- accepted, denied or fails on the state that is loaded exactly as on all that the journal holds.
pub check-forget_stale :
    (q : Request) (env : Env) (c : Shaped) (s : State)
    → shape q ≡ ok c
    → wire (check env c (forget_stale env.now s)) ≡ wire (check env c s)
check-forget_stale q env c s good = elim (Option-cases (lookup c.capability_id s.capabilities)) [
  | inl gone ↦ ground (
    arith,
    missing_is_refused env c s gone,
    missing_is_refused env c (forget_stale env.now s),
    forget_stale-lookup env.now s c.capability_id,
  )
  | inr (r, held) ↦ ground (
    arith,
    forget_stale-lookup env.now s c.capability_id,
    dead_is_refused env c s held,
    missing_is_refused env c (forget_stale env.now s),
    check_congruence env c (forget_stale env.now s) s,
    forget_stale-nonce env.now s c.capability_id c.nonce {r = r} (shape-Avoids q good),
  )
]
