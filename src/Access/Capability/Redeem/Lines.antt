-- ===== src/Access/Capability/Redeem/Lines.antt =====
-- A line on the socket either records nothing, or is a well-shaped request that is redeemed.
use skarbiec.Prelude.{◌≡◌, refl, ◌⊎◌, inl, inr, Bool-cases, ok, Result-cases}
use skarbiec.Access.Capability.Journal.{Disk}
use skarbiec.Access.Capability.Request.{Line, unparsed, parsed, Request, Shaped, shape, asks_status}
use skarbiec.Access.Capability.Redeem.{Env, after_shape, redeem, handle}
use skarbiec.Access.Capability.Redeem.Effect.{IsQuiet}

-- The line is a request of this shape, and its answer is the redemption's.
pub record IsServed (env : Env) (line : Line) (d : Disk) : Type 0 where
  pub c : Shaped
  pub shaped : (q : Request) × (line ≡ parsed q) × (shape q ≡ ok c)
  pub served : handle env line d ≡ redeem env c d

pub handle-cases :
    (env : Env) (line : Line) (d : Disk)
    → (IsQuiet (handle env line d).0 × ((handle env line d).1 ≡ d)) ⊎ IsServed env line d
unfolding handle after_shape
handle-cases env unparsed d = inl (tt, refl)
handle-cases env (parsed q) d = elim (Bool-cases (asks_status q)) [
  | inl status ↦ rw status (inl (tt, refl))
  | inr other ↦ elim (Result-cases (shape q)) [
    | inr (e, bad) ↦ inl (rw (other, bad, after_shape) (tt, refl))
    | inl (c, good) ↦
        inr (record { c = c; shaped = (q, refl, good); served = rw (other, good, after_shape) })
  ]
]
