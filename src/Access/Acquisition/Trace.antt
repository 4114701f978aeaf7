-- ===== src/Access/Acquisition/Trace.antt =====
-- Histories of the acquisition state: bearers asked for and presented, one after the other under
-- the state lock.
pub mod Once
pub mod Spent
use skarbiec.Prelude.{ℕ, ◌<◌, ◌≢◌, ◌≡◌, String, Option, List, [], ◌∷◌, Result, ok, err}
use skarbiec.Access.Acquisition.State.{State}
use skarbiec.Access.Acquisition.Issue.{Env, Asked, AcquiredField, Stop, issue, consume}

pub data Event : Type 0 where
  asking : Env → Asked → Event
  presenting : Env → String → String → String → String → Event

abbrev left_by : State → Result Stop ((String × ℕ) × State) → State
left_by s (ok (x, s')) = s'
left_by s (err e) = s

unfoldable pub step : State → Event → State
step s (asking env a) = left_by s (issue env a s)
step s (presenting env consumer presented item field) =
    (consume env consumer presented item field s).1

unfoldable pub run : State → List Event → State
run s [] = s
run s (e ∷ es) = run (step s e) es

-- The event happens before `end`, with this hash.
abbrev pub Before : ℕ → (String → String) → Event → Type 0
Before end hash (asking env a) = (env.now < end) × (env.sha256_hex ≡ hash)
Before end hash (presenting env consumer presented item field) = Unit

-- The event mints no bearer with this hash.
abbrev pub MintsOther : String → Event → Type 0
MintsOther hash (asking env a) = env.sha256_hex env.random_token ≢ hash
MintsOther hash (presenting env consumer presented item field) = Unit
