-- ===== src/Access/Capability/Request/Payload.antt =====
-- The signed bytes determine the request.
use Prim.Native.String.{String}
use text.Mathlib.TextEquality.{Char-path}
use mathlib.Core.Path.{ap₂}
use mathlib.Core.List.{append_assoc}
use skarbiec.Prelude.{ℕ, ◌≡◌, refl, sym, ◌∙◌, List, [], ◌∷◌, ◌++◌, ok}
use skarbiec.Prelude.Text.{codes}
use skarbiec.Access.Capability.Request.{Request, Shaped, shape, ended, proof_domain, payload}
use skarbiec.Access.Capability.Request.Shapes.{
  NoNul, shape-NoNul_id, shape-NoNul_nonce, shape-NoNul_workload, shape-NoNul_operation,
}

codes-injective : (s t : String) → codes s ≡ codes t → s ≡ t
codes-injective String.[] String.[] e = refl
codes-injective String.[] (String.◌∷◌ c t) e = cc
codes-injective (String.◌∷◌ c s) String.[] e = cc
codes-injective (String.◌∷◌ c s) (String.◌∷◌ d t) e =
    ap₂ String.◌∷◌ (Char-path c d (cc)) (codes-injective s t (cc))

append_cancel_left : {A : Type 0} (xs ys zs : List A) → xs ++ ys ≡ xs ++ zs → ys ≡ zs
append_cancel_left [] ys zs e = e
append_cancel_left (x ∷ xs) ys zs e = append_cancel_left xs ys zs (cc)

-- The first NUL shows where the first text ends.
split_at_nul :
    (xs ys xs' ys' : List ℕ)
    → NoNul xs
    → NoNul xs'
    → xs ++ (0 ∷ ys) ≡ xs' ++ (0 ∷ ys')
    → (xs ≡ xs') × (ys ≡ ys')
split_at_nul [] ys [] ys' h h' e = (refl, cc)
split_at_nul [] ys (x ∷ xs') ys' h (n, h') e = absurd (n (cc))
split_at_nul (x ∷ xs) ys [] ys' (n, h) h' e = absurd (n (cc))
split_at_nul (x ∷ xs) ys (x' ∷ xs') ys' (n, h) (n', h') e =
    let (same, rest) = split_at_nul xs ys xs' ys' h h' (cc) in (cc, rest)

split_ended :
    (s s' : String) (ys ys' : List ℕ)
    → NoNul (codes s)
    → NoNul (codes s')
    → ended s ++ ys ≡ ended s' ++ ys'
    → (s ≡ s') × (ys ≡ ys')
split_ended s s' ys ys' h h' e =
    let (same, rest) =
      split_at_nul (codes s) ys (codes s') ys' h h'
        (sym (append_assoc (codes s) (0 ∷ []) ys) ∙ e ∙ append_assoc (codes s') (0 ∷ []) ys') in
    (codes-injective s s' same, rest)

-- The parts of a request that its proof signs.
pub record SameSigned (c c' : Shaped) : Type 0 where
  pub capability_id : c.capability_id ≡ c'.capability_id
  pub nonce : c.nonce ≡ c'.nonce
  pub workload_id : c.workload_id ≡ c'.workload_id
  pub operation : c.operation ≡ c'.operation
  pub authorization_id : c.authorization_id ≡ c'.authorization_id

-- Two requests of the shape that the wire requires have the same signed bytes only if they agree on
-- the capability, the nonce, the workload, the operation and the authorization: a proof for one is
-- a proof for no other.
pub payload-SameSigned :
    (q q' : Request) (c c' : Shaped)
    → shape q ≡ ok c
    → shape q' ≡ ok c'
    → payload c ≡ payload c'
    → SameSigned c c'
unfolding payload
payload-SameSigned q q' c c' h h' e =
    let e1 = append_cancel_left proof_domain _ _ e in
    let (same_id, e2) = split_ended _ _ _ _ (shape-NoNul_id q h) (shape-NoNul_id q' h') e1 in
    let (same_nonce, e3) =
      split_ended _ _ _ _ (shape-NoNul_nonce q h) (shape-NoNul_nonce q' h') e2 in
    let (same_workload, e4) =
      split_ended _ _ _ _ (shape-NoNul_workload q h) (shape-NoNul_workload q' h') e3 in
    let (same_operation, e5) =
      split_ended _ _ _ _ (shape-NoNul_operation q h) (shape-NoNul_operation q' h') e4 in
    record {
      capability_id = same_id;
      nonce = same_nonce;
      workload_id = same_workload;
      operation = same_operation;
      authorization_id = codes-injective _ _ e5;
    }
