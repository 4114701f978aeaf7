-- ===== src/Access/Acquisition/State.antt =====
-- The acquisition state: the bearers that are out, the proofs that were spent and each workload's
-- newest proof (src/access/acquisition/state.rs, proof.rs).
use skarbiec.Prelude.{ℕ, String, Option, []}
use skarbiec.Prelude.Dict.{Dict, retain}
use skarbiec.Access.Grant.{expires_after}

pub record Bearer : Type 0 where
  pub consumer : Option String
  pub item : Option String
  pub field : Option String
  pub expires_at : Option ℕ
  pub workload_id : Option String

pub record Workload : Type 0 where
  pub newest : Option ℕ
  pub expires_at : Option ℕ

-- `proofs` maps a proof's hash to the end of the grant that accepted it.
pub record State : Type 0 where
  pub tokens : Dict Bearer
  pub proofs : Dict (Option ℕ)
  pub workloads : Dict Workload

abbrev pub fresh_state : State
fresh_state = record { tokens = []; proofs = []; workloads = [] }

unfoldable pub purge_expired : ℕ → State → State
purge_expired now s = record {
  tokens = retain (λ _ (t : Bearer). expires_after now t.expires_at) s.tokens;
  proofs = retain (λ _ expiry. expires_after now expiry) s.proofs;
  workloads = retain (λ _ (w : Workload). expires_after now w.expires_at) s.workloads;
}
