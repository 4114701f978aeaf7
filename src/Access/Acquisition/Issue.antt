-- ===== src/Access/Acquisition/Issue.antt =====
-- Issuing and spending one bearer (src/access/acquisition/mod.rs).
pub mod Effect
use Prim.Native.String
use skarbiec.Prelude.{
  ℕ, String, Bool, true, false, not, ◌&&◌, ◌||◌, Option, none, some, List, ltb, leb, str_eq,
  is_some, if◌then◌else◌, Result, ok, err, ◌>>=◌, ◌>>◌, guard, or_fail,
}
use skarbiec.Prelude.Text.{same_text}
use skarbiec.Prelude.Dict.{Dict, lookup, insert, remove, contains_key}
use skarbiec.Access.Grant.{Token, expires_after, acquisition_grant}
use skarbiec.Access.Capability.Request.{exact_token}
use skarbiec.Access.Acquisition.Proof.{
  exact_name, exact_coordinate, valid_workload_id, valid_nonce, item_for, workload_payload,
  verify_workload_proof,
}
use skarbiec.Access.Acquisition.State.{Bearer, Workload, State, purge_expired}

-- An opened vault item; `context` is its section of that name.
pub record Item : Type 0 where
  pub fields : Dict String
  pub has_context : Bool
  pub provider : Option String

-- `managed_read`: while a credential is being adopted, a candidate stands for the value.
pub data ManagedRead : Type 0 where
  staged : String → ManagedRead
  refused current : ManagedRead

pub record Env : Type 0 where
  pub now : ℕ
  pub tokens : Dict Token
  pub verify : String → List ℕ → List ℕ → Option Bool
  pub tagged_items : String → List String
  -- `none` is an item that is absent or cannot be opened.
  pub get_item : String → Option Item
  pub managed_read : String → String → String → Option ManagedRead
  pub random_token : String
  pub sha256_hex : String → String

-- An early return: unauthorized, which is an answer, or an error.
pub data Stop : Type 0 where
  unauthorized : Stop
  key_unusable no_item not_exact unreadable field_missing collision unmanaged : Stop

pub record Asked : Type 0 where
  pub consumer : String
  pub item : String
  pub field : String
  pub workload_id : String
  pub timestamp : ℕ
  pub nonce : String
  pub signature : String

abbrev is_shaped : Asked → Bool
is_shaped a =
    exact_name a.consumer
    && exact_coordinate a.item
    && exact_name a.field
    && not (str_eq a.field "context")
    && valid_workload_id a.workload_id
    && valid_nonce a.nonce

abbrev holds_field : String → Item → Bool
holds_field field i = if str_eq field "context" then i.has_context else contains_key field i.fields

unfoldable pub validate_target : Env → String → String → Result Stop (Unit {0})
validate_target env item field = do
  guard (exact_name item && exact_name field) not_exact
  payload ← or_fail (env.get_item item) unreadable
  guard (holds_field field payload) field_missing

-- The newest proof that a workload spent.
abbrev pub newest_of : Option Workload → Option ℕ
newest_of none = none
newest_of (some w) = w.newest

abbrev is_late : ℕ → Option ℕ → Bool
is_late timestamp none = false
is_late timestamp (some newest) = ltb timestamp newest

-- The text whose hash names a proof.
abbrev pub proof_text : Asked → String
proof_text a = String.◌++◌ a.workload_id (String.◌++◌ "\0" a.nonce)

-- All that is checked before the state is read: the end of the grant.
unfoldable pub admit : Env → Asked → Result Stop ℕ
admit env a = do
  guard (is_shaped a) unauthorized
  lent ← or_fail (acquisition_grant env.tokens env.now a.consumer a.item a.field) unauthorized
  guard (leb a.timestamp env.now) unauthorized
  let payload = workload_payload a.consumer a.item a.field a.workload_id a.timestamp a.nonce
  good ← or_fail (verify_workload_proof env.verify lent.public_key payload a.signature) key_unusable
  guard good unauthorized
  item ← or_fail (item_for env.tagged_items a.item) no_item
  validate_target env item a.field
  ok lent.expires_at

-- What is written down: the proof, the workload's newest proof and the bearer.
unfoldable pub record_bearer : Env → Asked → ℕ → State → State
record_bearer env a expires_at s = record {
  proofs = insert (env.sha256_hex (proof_text a)) (some expires_at) s.proofs;
  workloads =
      insert a.workload_id (record { newest = some a.timestamp; expires_at = some expires_at })
        s.workloads;
  tokens =
      insert (env.sha256_hex env.random_token)
        (record {
          consumer = some a.consumer;
          item = some a.item;
          field = some a.field;
          expires_at = some expires_at;
          workload_id = some a.workload_id;
        })
        s.tokens;
}

-- The bearer and its end, with the state that is saved.
unfoldable pub issue : Env → Asked → State → Result Stop ((String × ℕ) × State)
issue env a s = do
  expires_at ← admit env a
  let live = purge_expired env.now s
  guard (not (is_late a.timestamp (newest_of (lookup a.workload_id live.workloads)))) unauthorized
  guard (not (contains_key (env.sha256_hex (proof_text a)) live.proofs)) unauthorized
  guard (not (contains_key (env.sha256_hex env.random_token) live.tokens)) collision
  ok ((env.random_token, expires_at), record_bearer env a expires_at live)

pub record AcquiredField : Type 0 where
  pub value : String
  pub provider : Option String

abbrev exact_provider : Option String → Option String
exact_provider none = none
exact_provider (some p) = if exact_token p then some p else none

-- The item's own statement of its provider, where it can be opened.
abbrev declared_provider : Option Item → Option String
declared_provider none = none
declared_provider (some i) = exact_provider i.provider

unfoldable pub read_bound : Env → String → String → String → Result Stop AcquiredField
read_bound env consumer coordinate field = do
  item ← or_fail (item_for env.tagged_items coordinate) no_item
  how ← or_fail (env.managed_read item field consumer) unmanaged
  elim how [
    | staged candidate ↦
        ok (record { value = candidate; provider = declared_provider (env.get_item item) })
    | refused ↦ err unauthorized
    | current ↦ or_fail (env.get_item item) unreadable >>= λ payload.
        or_fail (lookup field payload.fields) field_missing >>= λ value.
        ok (record { value = value; provider = declared_provider (some payload) })
  ]

abbrev pub is_bound : Bearer → String → String → String → Bool
is_bound b consumer item field =
    same_text b.consumer (some consumer)
    && same_text b.item (some item)
    && same_text b.field (some field)

-- The bearer taken out of the state.
abbrev pub spent : String → State → State
spent hash s = record s { tokens = remove hash s.tokens }

-- What the read gives: an unauthorized one leaves the bearer unspent.
abbrev pub handed_over :
    String → State → Result Stop AcquiredField → Result Stop (Option AcquiredField) × State
handed_over hash s (ok a) = (ok (some a), spent hash s)
handed_over hash s (err unauthorized) = (ok none, s)
handed_over hash s (err e) = (err e, s)

-- What one presented bearer gives, and the state that it leaves: `some` is the field's value.
unfoldable pub consume_held :
    Env
    → String
    → String
    → String
    → String
    → State
    → Bearer
    → Result Stop (Option AcquiredField) × State
consume_held env consumer hash item field s b =
    if not (expires_after env.now b.expires_at)
    then (ok none, spent hash s)
    else if is_bound b consumer item field
    then handed_over hash s (read_bound env consumer item field)
    else (ok none, s)

abbrev consume_looked_up :
    Env
    → String
    → String
    → String
    → String
    → State
    → Option Bearer
    → Result Stop (Option AcquiredField) × State
consume_looked_up env consumer hash item field s none = (ok none, s)
consume_looked_up env consumer hash item field s (some b) =
    consume_held env consumer hash item field s b

abbrev pub is_presentable : String → String → String → String → Bool
is_presentable consumer presented item field =
    exact_name consumer
    && exact_coordinate item
    && exact_name field
    && not (str_eq field "context")
    && not (str_eq presented "")

unfoldable pub consume :
    Env → String → String → String → String → State → Result Stop (Option AcquiredField) × State
consume env consumer presented item field s =
    let hash = env.sha256_hex presented in
    if is_presentable consumer presented item field
    then consume_looked_up env consumer hash item field s (lookup hash s.tokens)
    else (ok none, s)
