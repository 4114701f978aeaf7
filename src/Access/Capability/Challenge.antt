-- ===== src/Access/Capability/Challenge.antt =====
-- `capability challenge` (src/access/capability/redeem/wire.rs): the code that a login waits for is
-- stored under the resource that a capability already names. The vault is what it is called with
-- and whether its calls succeed.
pub mod Saved
use Prim.Native.Char.{Char, code}
use Prim.Native.String
use text.Mathlib.Text.{starts_with}
use text.Mathlib.TextLemmas.{nil-append, cons-append}
use skarbiec.Prelude.{
  ℕ, String, Bool, true, false, not, ◌&&◌, ◌||◌, ◌≡◌, refl, ap, sym, ◌∙◌, Option, none, some, List,
  [], ◌∷◌, ◌++◌, leb, ◌==◌, str_eq, all, map, arith, if◌then◌else◌, Result, ok, err, ◌>>=◌, ◌>>◌,
  guard, or_fail, Result-cases, Option-cases, Bool-cases, eq_iff, inl, inr,
}
use skarbiec.Prelude.Text.{codes, trim}
use skarbiec.Prelude.Dict.{Dict}
use skarbiec.Access.Capability.State.{Record, State, is_text}
use skarbiec.Access.Capability.Journal.{Fault, Disk, load_state}
use skarbiec.Access.Capability.Request.{challenge_item, dash, dashed}
use skarbiec.Access.Capability.Redeem.{Env, read_value, refuse}
use skarbiec.Access.Capability.Request.{unreadable}

pub data Refusal : Type 0 where
  one_resource not_a_challenge nothing_authorized unread no_code not_digits : Refusal
  vault_failed unaudited : Refusal
  storage : Fault → Refusal

-- The clock, and what standing input holds, `none` where it cannot be read.
pub record Input : Type 0 where
  pub now : ℕ
  pub stdin : Option String

-- Whether the vault opens, takes the item and is saved, and whether the audit journal takes the line.
pub record Calls : Type 0 where
  pub opens : Bool
  pub sets : Bool
  pub saves : Bool
  pub audits : Bool

-- The arguments of `set_item`: the payload by its members.
pub record SetItem : Type 0 where
  pub item : String
  pub item_type : String
  pub schema : String
  pub kind : String
  pub fields : Dict String
  pub links : List String
  pub tags : List String

abbrev stored : {A : Type 0} → Result Fault A → Result Refusal A
stored (ok a) = ok a
stored (err f) = err (storage f)

-- Whether some capability names the resource.
unfoldable pub authorizes : String → Dict Record → Bool
authorizes resource [] = false
authorizes resource ((id, r) ∷ m) = is_text resource r.resource || authorizes resource m

abbrev pub is_digit : ℕ → Bool
is_digit c = leb b'0' c && leb c b'9'

-- All that is checked before the vault is opened, and the item that is then set.
unfoldable pub code_item : Input → String → Disk → Result Refusal (Disk × SetItem)
code_item input resource d = do
  guard (starts_with resource "challenge:") not_a_challenge
  (s, d') ← stored (load_state input.now d)
  guard (authorizes resource s.capabilities) nothing_authorized
  raw ← or_fail input.stdin unread
  let code = trim raw
  guard (not (str_eq code "")) no_code
  guard (all is_digit (codes code)) not_digits
  ok (
    d',
    record {
      item = challenge_item resource;
      item_type = "note";
      schema = "skarbiec.item.v2";
      kind = "note";
      fields = ("value", code) ∷ [];
      links = [];
      tags = "challenge" ∷ [];
    },
  )

-- The answer, and the item that the vault has saved.
unfoldable pub store_code :
    Calls → Result Refusal (Disk × SetItem) → Result Refusal Disk × Option SetItem
store_code calls (err e) = (err e, none)
store_code calls (ok (d, item)) =
    if calls.opens && calls.sets && calls.saves
    then (if calls.audits then (ok d, some item) else (err unaudited, some item))
    else (err vault_failed, none)

unfoldable pub challenge_put :
    Input → Calls → List String → Disk → Result Refusal Disk × Option SetItem
challenge_put input calls [] d = (err one_resource, none)
challenge_put input calls (resource ∷ []) d = store_code calls (code_item input resource d)
challenge_put input calls (resource ∷ other ∷ more) d = (err one_resource, none)
