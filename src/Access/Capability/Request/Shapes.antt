-- ===== src/Access/Capability/Request/Shapes.antt =====
-- What the wire's shape check establishes of a request.
use Prim.Native.String.{String}
use text.Mathlib.TextLemmas.{nil-append, cons-append}
use skarbiec.Prelude.{
  ℕ, true, not, ◌&&◌, ◌==◌, ◌≡◌, refl, ◌≢◌, List, [], ◌∷◌, all, All, some, arith, ok, and-eq-true,
  ◌⊎◌, inl, inr, eq_iff,
}
use skarbiec.Prelude.Text.{codes, Avoids, split_once, split_once-join}
use skarbiec.Access.Capability.Request.{
  Request, nonce_key, Shaped, shape, is_hex, exact_token, capability_id_shaped,
}

hex-Avoids : (s : String) → all is_hex (codes s) ≡ true → Avoids b':' s
hex-Avoids String.[] h = tt
hex-Avoids (String.◌∷◌ c s) h = ground (arith, hex-Avoids s)

abbrev pub NoNul : List ℕ → Type 0
NoNul = All (λ c. c ≢ 0)

hex-NoNul : (s : List ℕ) → all is_hex s ≡ true → NoNul s
hex-NoNul [] h = tt
hex-NoNul (c ∷ s) h = ground (arith, hex-NoNul s)

printable-NoNul :
    (s : List ℕ) → all (λ c. not (c == 0) && not (c == 10) && not (c == 13)) s ≡ true → NoNul s
printable-NoNul [] h = tt
printable-NoNul (c ∷ s) h = ground (arith, printable-NoNul s)

exact_token-NoNul : (s : String) → exact_token s ≡ true → NoNul (codes s)
unfolding exact_token
exact_token-NoNul s h = printable-NoNul (codes s) (and-eq-true _ _ h).1

module _ (q : Request) {c : Shaped} (h : shape q ≡ ok c) where
  shape-id : capability_id_shaped c.capability_id ≡ true
  unfolding shape
  shape-id = ground arith

  shape-tokens : (exact_token c.nonce ≡ true) × (exact_token c.workload_id ≡ true)
  unfolding shape
  shape-tokens = ground arith

  shape-operation : (c.operation ≡ "redeem") ⊎ (c.operation ≡ "cancel")
  unfolding shape
  shape-operation = ground (arith, eq_iff c.operation "redeem", eq_iff c.operation "cancel")

  -- A capability id holds no separator of the nonce keys.
  pub shape-Avoids : Avoids b':' c.capability_id
  unfolding capability_id_shaped
  shape-Avoids = hex-Avoids c.capability_id (and-eq-true _ _ shape-id).1

  pub shape-NoNul_id : NoNul (codes c.capability_id)
  unfolding capability_id_shaped
  shape-NoNul_id = hex-NoNul (codes c.capability_id) (and-eq-true _ _ shape-id).1

  pub shape-NoNul_nonce : NoNul (codes c.nonce)
  shape-NoNul_nonce = exact_token-NoNul c.nonce shape-tokens.0

  pub shape-NoNul_workload : NoNul (codes c.workload_id)
  shape-NoNul_workload = exact_token-NoNul c.workload_id shape-tokens.1

  pub shape-NoNul_operation : NoNul (codes c.operation)
  shape-NoNul_operation = elim shape-operation [
    | inl e ↦ rw e (omega arith)
    | inr e ↦ rw e (omega arith)
  ]

pub split_once-nonce_key :
    (id nonce : String) → Avoids b':' id → split_once b':' (nonce_key id nonce) ≡ some (id, nonce)
split_once-nonce_key id nonce h =
    rw (cons-append, nil-append) (split_once-join b':' ":" id nonce refl h)
