-- ===== src/Access/Request/Trace.antt =====
-- Histories of the register: filings, approvals, denials and withdrawals one after the other, each
-- under the register lock with the clock, the vault and the keyring as it finds them.
pub mod Changes
pub mod Final
use skarbiec.Prelude.{ℕ, String, Bool, Option, List, [], ◌∷◌, Result, ok, err}
use skarbiec.Access.Request.Lifetime.{Lifetime}
use skarbiec.Access.Request.Register.{AccessRequest}
use skarbiec.Access.Request.Decide
use skarbiec.Access.Request.Decide.{World}
use skarbiec.Access.Request.File
use skarbiec.Access.Request.File.{Filing, file}
use skarbiec.Access.Request.Answer.{Outcome, approve, Closing, close}

pub data Event : Type 0 where
  filing : File.Env → Filing → Bool → Event
  approving : Decide.Env → String → String → Lifetime → Option ℕ → Event
  closing : Decide.Env → String → String → Closing → Option String → Event

abbrev left_by : {E A : Type 0} → World → Result E (A × World) → World
left_by w (ok (a, w')) = w'
left_by w (err e) = w

-- The files that an event leaves: a refusal leaves them as they are.
unfoldable pub step : World → Event → World
step w (filing env f reuse_open) = left_by w (file env f reuse_open w)
step w (approving env id by lifetime uses) = left_by w (approve env id by lifetime uses w)
step w (closing env id by how reason) = left_by w (close env id by how reason w)

unfoldable pub run : World → List Event → World
run w [] = w
run w (e ∷ es) = run (step w e) es
