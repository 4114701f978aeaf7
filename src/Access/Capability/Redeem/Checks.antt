-- ===== src/Access/Capability/Redeem/Checks.antt =====
-- What a redemption has established when it hands a secret out.
use mathlib.Core.Path.{subst}
use skarbiec.Prelude.{
  sym, ◌∙◌, String, true, false, ◌≡◌, ◌<◌, ◌≤◌, none, some, arith, Result, ok, eq_iff, Option-cases,
  inl, inr,
}
use skarbiec.Prelude.Dict.{lookup}
use skarbiec.Access.Capability.State.{Record, State, forget_stale}
use skarbiec.Access.Capability.State.Forget.{forget_stale-held}
use skarbiec.Access.Capability.Journal.{Fault, Disk, replay}
use skarbiec.Access.Capability.Request.{Answer, secret, Shaped, payload, nonce_key}
use skarbiec.Access.Capability.Redeem.{Env, Fields, check, read_value, redeem, workload_public_key}
use skarbiec.Access.Capability.Redeem.Effect.{
  IsQuiet, Outcome, Effect, idle, changed, redeem-Leads, delivered-ok,
}

-- A record is redeemable for a request at a time, by members that are all there.
pub record IsRedeemable (env : Env) (c : Shaped) (r : Record) (f : Fields) : Type 0 where
  pub issued : r.state ≡ some "issued"
  pub remaining : r.remaining_uses ≡ some f.remaining
  pub expires : r.expires_at ≡ some f.expires_at
  pub authorized : r.authorization_id ≡ some c.authorization_id
  pub agent : r.agent ≡ some f.agent
  pub resource : r.resource ≡ some f.resource
  pub use_left : 1 ≤ f.remaining
  pub unexpired : env.now < f.expires_at

-- The proof was checked against the key that a live grant registers for the record's agent.
pub record IsProved (env : Env) (c : Shaped) (f : Fields) : Type 0 where
  pub key : String
  pub registered : workload_public_key env.tokens env.now f.agent ≡ some key
  pub verified : env.verify key (payload c) c.proof ≡ some true

module _ (env : Env) (c : Shaped) (s : State) {r : Record} {f : Fields}
    (h : check env c s ≡ ok (r, f)) where
  pub check-held : lookup c.capability_id s.capabilities ≡ some r
  unfolding check
  check-held = ground arith

  pub check-nonce : lookup (nonce_key c.capability_id c.nonce) s.nonces ≡ none
  unfolding check
  check-nonce = ground arith

  pub check-IsRedeemable : IsRedeemable env c r f
  unfolding check
  check-IsRedeemable =
      ground (arith, eq_iff f.state "issued", eq_iff f.authorization_id c.authorization_id)

  pub check-IsProved : IsProved env c f
  unfolding check
  check-IsProved = elim (Option-cases (workload_public_key env.tokens env.now f.agent)) [
    | inl no_key ↦ absurd (ground arith)
    | inr (key, registered) ↦ record { key = key; registered = registered; verified = ground arith }
  ]

-- What a handed-out secret shows of the state that the journal replayed to.
pub record IsGranted (env : Env) (c : Shaped) (raw : State) (v : String) : Type 0 where
  pub r : Record
  pub f : Fields
  pub held : lookup c.capability_id raw.capabilities ≡ some r
  pub redeemable : IsRedeemable env c r f
  pub fresh : lookup (nonce_key c.capability_id c.nonce) (forget_stale env.now raw).nonces ≡ none
  pub proved : IsProved env c f
  pub read : read_value env f.resource ≡ ok (some v)
  pub redeems : c.cancel ≡ false

Effect-IsGranted :
    (env : Env) (c : Shaped) (raw : State) (v : String) {res : Result Fault Answer} {after : State}
    → Effect env c raw res after
    → res ≡ ok (secret v)
    → IsGranted env c raw v
Effect-IsGranted env c raw v {res} {after} (idle quiet) e = absurd (subst IsQuiet e quiet)
Effect-IsGranted env c raw v {after} (changed {a} arrives change) e =
    let answered : a ≡ secret v = delivered-ok env a (sym arrives ∙ e) in
    let (redeems, value, _) =
      subst (λ x. Outcome env c change.r change.f x change.r') answered change.outcome in
    record {
      r = change.r;
      f = change.f;
      held =
          forget_stale-held env.now raw c.capability_id
            (check-held env c (forget_stale env.now raw) change.checked);
      redeemable = check-IsRedeemable env c (forget_stale env.now raw) change.checked;
      fresh = check-nonce env c (forget_stale env.now raw) change.checked;
      proved = check-IsProved env c (forget_stale env.now raw) change.checked;
      read = value;
      redeems = redeems;
    }

-- A secret is handed out only for a capability that is issued, unexpired, has a use left and names
-- the request's authorization; whose agent has a live grant with a key that the proof over exactly
-- this request verifies against; for a nonce that is not on record; and it is the value that the
-- record's resource reads as.
pub redeem-IsGranted :
    (env : Env) (c : Shaped) (raw : State) (d : Disk) (v : String)
    → replay d.journal ≡ ok raw
    → (redeem env c d).0 ≡ ok (secret v)
    → IsGranted env c raw v
redeem-IsGranted env c raw d v replayed e =
    Effect-IsGranted env c raw v (redeem-Leads env c raw d replayed).2 e
