-- ===== src/Access/Capability/Redeem.antt =====
-- One redemption, start to finish (src/access/capability/redeem/request.rs, proof.rs): refuse a
-- replay, check the proof, spend a use, hand the field out.
use Prim.Native.String
pub mod Effect
pub mod Checks
pub mod Lines
pub mod Refusals
use text.Mathlib.Text.{starts_with}
use skarbiec.Prelude.{
  ℕ, String, Bool, true, false, ◌-◌, ◌&&◌, Option, none, some, List, ltb, leb, str_eq,
  if◌then◌else◌, Result, ok, err, ◌>>=◌, ◌>>◌, guard, or_fail, is_some,
}
use skarbiec.Prelude.Dict.{Dict, lookup, insert}
use skarbiec.Access.Grant.{Token, active}
use skarbiec.Access.Capability.State.{Record, State}
use skarbiec.Access.Capability.Journal.{
  Fault, Entry, Disk, load_state, save_entry, unverifiable, unroutable, unaudited,
}
use skarbiec.Access.Capability.Request.{
  Line, unparsed, parsed, Denial, Answer, listening, denied, pending, cancelled, secret, Shaped,
  shape, asks_status, payload, nonce_key, challenge_item, no_json, malformed, no_such_capability,
  damaged, not_redeemable, nonce_seen, no_workload_key, bad_proof, unresolved, unreadable, no_value,
}

-- What one request meets besides the capability state: the clock, the vault's grants, the Ed25519
-- verdict, the route table, the vault's items and the size comparison of the journal.
pub record Env : Type 0 where
  pub now : ℕ
  pub tokens : Dict Token
  -- `verify_proof` of a key, the signed bytes and a proof; `none` is a key that is no key.
  pub verify : String → List ℕ → String → Option Bool
  -- `coordinate_for`: `none` is a failure, `some none` a refusal, else the item and its field.
  pub coordinate_for : String → Option (Option (String × String))
  -- `item_field`: `none` is an item that cannot be opened, `some none` that nothing is written.
  pub item_field : String → String → Option (Option String)
  pub outweighed : List Entry → State → Bool
  -- Whether the audit journal takes the line that follows a save.
  pub audits : Bool

-- The key that a live grant registers for an agent.
unfoldable pub workload_public_key : Dict Token → ℕ → String → Option String
workload_public_key tokens now agent = elim (lookup agent tokens) [
  | none ↦ none
  | some entry ↦ if active now entry then entry.workload_public_key else none
]

-- An early return: a denial, which is an answer, or an error.
pub data Stop : Type 0 where
  refuse : Denial → Stop
  fail : Fault → Stop

-- The members of a stored record that a redemption reads.
pub record Fields : Type 0 where
  pub state : String
  pub remaining : ℕ
  pub expires_at : ℕ
  pub authorization_id : String
  pub agent : String
  pub resource : String

unfoldable pub recorded : Record → Result Stop Fields
recorded r = do
  state ← or_fail r.state (refuse damaged)
  remaining ← or_fail r.remaining_uses (refuse damaged)
  expires_at ← or_fail r.expires_at (refuse damaged)
  authorization_id ← or_fail r.authorization_id (refuse damaged)
  agent ← or_fail r.agent (refuse damaged)
  resource ← or_fail r.resource (refuse damaged)
  ok (record {
    state = state;
    remaining = remaining;
    expires_at = expires_at;
    authorization_id = authorization_id;
    agent = agent;
    resource = resource;
  })

abbrev absent_in {ℓ} : {V : Type ℓ} → String → Dict V → Bool
absent_in k m = elim (lookup k m) [ none ↦ true | some v ↦ false ]

-- All that is checked before the nonce is recorded.
unfoldable pub check : Env → Shaped → State → Result Stop (Record × Fields)
unfolding recorded
check env c s = do
  r ← or_fail (lookup c.capability_id s.capabilities) (refuse no_such_capability)
  f ← recorded r
  guard
      (str_eq f.state "issued"
        && ltb env.now f.expires_at
        && leb 1 f.remaining
        && str_eq f.authorization_id c.authorization_id)
      (refuse not_redeemable)
  guard (absent_in (nonce_key c.capability_id c.nonce) s.nonces) (refuse nonce_seen)
  key ← or_fail (workload_public_key env.tokens env.now f.agent) (refuse no_workload_key)
  good ← or_fail (env.verify key (payload c) c.proof) (fail unverifiable)
  guard good (refuse bad_proof)
  ok (r, f)

abbrev is_challenge : String → Bool
is_challenge resource = starts_with resource "challenge:"

-- Where the resource's value stands.
abbrev coordinate : Env → String → Result Stop (String × String)
coordinate env resource =
    if is_challenge resource
    then ok (challenge_item resource, "value")
    else (or_fail (env.coordinate_for resource) (fail unroutable) >>= λ o.
        or_fail o (refuse unresolved))

-- The value, or `none` when nothing is written yet.
unfoldable pub read_value : Env → String → Result Stop (Option String)
read_value env resource = do
  (item, field) ← coordinate env resource
  or_fail (env.item_field item field) (refuse unreadable)

unfoldable pub see_nonce : Env → Shaped → State → State
see_nonce env c s = record s {
  nonces = insert (nonce_key c.capability_id c.nonce) env.now s.nonces;
}

abbrev pub put_record : Shaped → Record → State → State
put_record c r s = record s { capabilities = insert c.capability_id r s.capabilities }

unfoldable pub spend : ℕ → Record → Record
spend remaining r =
    let left = remaining - 1 in
    let spent : Record = record r { remaining_uses = some left; state = some "spent" } in
    let kept : Record = record r { remaining_uses = some left } in
    if ltb left 1 then spent else kept

-- The answer behind the save: a cancellation and a secret are first written to the audit journal,
-- and where that fails, so does the redemption, with the state as it was saved.
abbrev pub delivered : Env → Answer → Result Fault Answer
delivered env listening = ok listening
delivered env (denied why) = ok (denied why)
delivered env pending = ok pending
delivered env cancelled = if env.audits then ok cancelled else err unaudited
delivered env (secret v) = if env.audits then ok (secret v) else err unaudited

-- `save_entry`, and then the answer.
abbrev saving : Env → Shaped → State → Answer → Disk → Result Fault Answer × Disk
saving env c s answer d =
    elim (save_entry env.outweighed s c.capability_id (some (nonce_key c.capability_id c.nonce))
      d) [ err f ↦ (err f, d) | ok d' ↦ (delivered env answer, d') ]

abbrev stopped : Stop → Disk → Result Fault Answer × Disk
stopped (refuse why) d = (ok (denied why), d)
stopped (fail f) d = (err f, d)

-- What follows once the value was looked up; `s` has the nonce recorded.
unfoldable pub hand_over :
    Env → Shaped → State → Record → Fields → Option String → Disk → Result Fault Answer × Disk
unfolding spend
hand_over env c s r f none d =
    if is_challenge f.resource then saving env c s pending d else (ok (denied no_value), d)
hand_over env c s r f (some value) d =
    saving env c (put_record c (spend f.remaining r) s) (secret value) d

unfoldable pub after_read :
    Env
    → Shaped
    → State
    → Record
    → Fields
    → Disk
    → Result Stop (Option String)
    → Result Fault Answer × Disk
unfolding hand_over
after_read env c s r f d (err stop) = stopped stop d
after_read env c s r f d (ok value) = hand_over env c s r f value d

unfoldable pub after_check :
    Env → Shaped → State → Disk → Result Stop (Record × Fields) → Result Fault Answer × Disk
unfolding see_nonce
after_check env c s d (err stop) = stopped stop d
after_check env c s d (ok (r, f)) =
    let seen = see_nonce env c s in
    if c.cancel
    then saving env c (put_record c (record r { state = some "cancelled" }) seen) cancelled d
    else after_read env c seen r f d (read_value env f.resource)

-- What follows once the state was loaded.
unfoldable pub serve : Env → Shaped → State → Disk → Result Fault Answer × Disk
serve env c s d = after_check env c s d (check env c s)

unfoldable pub after_load :
    Env → Shaped → Disk → Result Fault (State × Disk) → Result Fault Answer × Disk
after_load env c d (err f) = (err f, d)
after_load env c d (ok (s, d')) = serve env c s d'

unfoldable pub redeem : Env → Shaped → Disk → Result Fault Answer × Disk
redeem env c d = after_load env c d (load_state env.now d)

unfoldable pub after_shape : Env → Disk → Result (Unit {0}) Shaped → Result Fault Answer × Disk
after_shape env d (err _) = (ok (denied malformed), d)
after_shape env d (ok c) = redeem env c d

unfoldable pub handle : Env → Line → Disk → Result Fault Answer × Disk
handle env unparsed d = (ok (denied no_json), d)
handle env (parsed q) d = if asks_status q then (ok listening, d) else after_shape env d (shape q)
