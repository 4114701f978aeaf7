-- ===== src/Access/Grant.antt =====
-- The consumer grants of the vault document, its `tokens` section (src/access/grant/lookup.rs), and
-- the acquire grant of one field (rules/capabilities.rs).
-- A field of a stored record is `none` where the member is absent or is not of the type that the
-- code reads it as.
pub mod Action
pub mod Rules
mod Runs
use skarbiec.Prelude.{
  ℕ, String, Bool, false, ◌&&◌, Option, none, some, List, ltb, any, if◌then◌else◌,
}
use skarbiec.Prelude.Text.{same_text}
use skarbiec.Prelude.Dict.{Dict, lookup}

-- One entry of a grant's `capabilities` list.
pub record Capability : Type 0 where
  pub action : Option String
  pub item : Option String
  pub field : Option String

-- One entry of the `tokens` section.
pub record Token : Type 0 where
  pub hash : Option String
  pub audience : Option String
  pub expires_at : Option ℕ
  pub capabilities : Option (List Capability)
  pub workload_public_key : Option String

abbrev pub expires_after : ℕ → Option ℕ → Bool
expires_after now none = false
expires_after now (some until) = ltb now until

-- A clock that reads before the epoch authorizes nothing; here the clock reads `now`.
unfoldable pub active : ℕ → Token → Bool
active now entry = expires_after now entry.expires_at

unfoldable pub capability_matches : Capability → String → String → Option String → Bool
capability_matches c action item field =
    same_text c.action (some action) && same_text c.item (some item) && same_text c.field field

abbrev pub allows : String → String → Option String → Option (List Capability) → Bool
allows action item field none = false
allows action item field (some cs) = any (λ c. capability_matches c action item field) cs

-- What an acquire grant lends: the workload's key and the end of the grant.
pub record AcquisitionGrant : Type 0 where
  pub public_key : String
  pub expires_at : ℕ

abbrev lent : Option String → Option ℕ → Option AcquisitionGrant
lent none at = none
lent (some key) none = none
lent (some key) (some at) = some (record { public_key = key; expires_at = at })

abbrev lent_by : ℕ → String → String → Option Token → Option AcquisitionGrant
lent_by now item field none = none
lent_by now item field (some entry) =
    if active now entry && allows "acquire" item (some field) entry.capabilities
    then lent entry.workload_public_key entry.expires_at
    else none

-- The live grant under which a consumer may acquire this field.
unfoldable pub acquisition_grant :
    Dict Token → ℕ → String → String → String → Option AcquisitionGrant
acquisition_grant tokens now consumer item field = lent_by now item field (lookup consumer tokens)
