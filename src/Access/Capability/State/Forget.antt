-- ===== src/Access/Capability/State/Forget.antt =====
-- What is left of the capability state when what can no longer be redeemed is forgotten.
use skarbiec.Prelude.{ℕ, String, ◌≡◌, Bool, Option, none, some, arith}
use skarbiec.Prelude.Text.{Avoids, split_once}
use skarbiec.Prelude.Dict.{lookup, lookup-retain, keep_if}
use skarbiec.Access.Capability.State.{Record, State, forget_stale, is_live, nonce_of_live}
use skarbiec.Access.Capability.Request.{nonce_key}
use skarbiec.Access.Capability.Request.Shapes.{split_once-nonce_key}

pub forget_stale-lookup :
    (now : ℕ) (s : State) (id : String)
    → lookup id (forget_stale now s).capabilities ≡ keep_if (is_live now) (lookup id s.capabilities)
unfolding forget_stale
forget_stale-lookup now s id = lookup-retain (λ _ r. is_live now r) id s.capabilities

pub forget_stale-nonce :
    (now : ℕ) (s : State) (id nonce : String) {r : Record}
    → Avoids b':' id
    → lookup id (forget_stale now s).capabilities ≡ some r
    → lookup (nonce_key id nonce) (forget_stale now s).nonces ≡ lookup (nonce_key id nonce) s.nonces
unfolding forget_stale
forget_stale-nonce now s id nonce h e = ground (
  arith,
  lookup-retain (λ key _. nonce_of_live (forget_stale now s).capabilities (split_once b':' key))
      (nonce_key id nonce) s.nonces,
  split_once-nonce_key id nonce h,
)

keep_if-eq-some {ℓ} :
    {V : Type ℓ} (p : V → Bool) (o : Option V) {v : V} → keep_if p o ≡ some v → o ≡ some v
keep_if-eq-some p none e = e
keep_if-eq-some p (some w) e = ground arith

-- A record that is left when the stale ones are forgotten was there before.
pub forget_stale-held :
    (now : ℕ) (raw : State) (id : String) {r : Record}
    → lookup id (forget_stale now raw).capabilities ≡ some r
    → lookup id raw.capabilities ≡ some r
unfolding forget_stale
forget_stale-held now raw id e =
    keep_if-eq-some (is_live now) _
      (rw (lookup-retain (λ _ r. is_live now r) id raw.capabilities) at e)
