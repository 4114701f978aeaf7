-- ===== src/Access/Capability/State.antt =====
-- The capability state: one record for each capability and the nonces that were seen
-- (src/access/capability/state.rs, status.rs).
pub mod Forget
use skarbiec.Prelude.{
  ℕ, String, Bool, true, false, ◌&&◌, ◌≡◌, ap, Option, none, some, [], leb, str_eq, eq_iff, eq_refl,
}
use skarbiec.Prelude.Text.{split_once}
use skarbiec.Prelude.Dict.{Dict, retain, contains_key}
use skarbiec.Access.Grant.{expires_after}

-- A member of a stored record is `none` where it is absent or not of the type it is read as.
pub record Record : Type 0 where
  pub agent : Option String
  pub purpose : Option String
  pub resource : Option String
  pub target : Option String
  pub authorization_id : Option String
  pub issued_at : Option ℕ
  pub expires_at : Option ℕ
  pub remaining_uses : Option ℕ
  pub state : Option String

-- `{"capabilities": {...}, "nonces": {...}}`; a state without its `nonces` is one with none.
pub record State : Type 0 where
  pub capabilities : Dict Record
  pub nonces : Dict ℕ

abbrev pub empty : State
empty = record { capabilities = []; nonces = [] }

abbrev pub is_text : String → Option String → Bool
is_text word none = false
is_text word (some s) = str_eq s word

-- Neither past its expiry, nor spent, nor cancelled.
abbrev pub is_live : ℕ → Record → Bool
is_live now r = expires_after now r.expires_at && is_text "issued" r.state

-- A nonce's key is `ID:NONCE`.
abbrev pub nonce_of_live : Dict Record → Option (String × String) → Bool
nonce_of_live capabilities none = false
nonce_of_live capabilities (some (capability, _)) = contains_key capability capabilities

unfoldable pub forget_stale : ℕ → State → State
forget_stale now s =
    let live = retain (λ _ r. is_live now r) s.capabilities in
    record {
      capabilities = live;
      nonces = retain (λ key _. nonce_of_live live (split_once b':' key)) s.nonces;
    }

abbrev pub has_use : Option ℕ → Bool
has_use none = false
has_use (some n) = leb 1 n

-- The conditions that a redemption checks (status.rs).
unfoldable pub redeemable : ℕ → Record → Bool
redeemable now r =
    is_text "issued" r.state && expires_after now r.expires_at && has_use r.remaining_uses

pub is_text-true : (word : String) (o : Option String) → is_text word o ≡ true → o ≡ some word
is_text-true word none h = cc
is_text-true word (some s) h = ap some ((eq_iff s word).0 h)

pub is_text_self : (word : String) → is_text word (some word) ≡ true
is_text_self word = eq_refl word
