-- ===== src/Access/Capability/Request.antt =====
-- What a workload sends and what it gets back (src/access/capability/redeem/request.rs, wire.rs).
pub mod Shapes
pub mod Payload
use Prim.Native.String
use skarbiec.Prelude.{
  ℕ, String, Char, code, Bool, true, false, not, ◌&&◌, ◌||◌, Option, none, some, List, [], ◌∷◌,
  ◌++◌, leb, ◌==◌, str_eq, if◌then◌else◌, all, Result, ok, err, ◌>>=◌, ◌>>◌, guard,
}
use skarbiec.Prelude.Text.{codes, bytes_len}
use skarbiec.Access.Capability.State.{is_text}

-- `authorization_id` of the request: left out, a text, or something else.
pub data Given : Type 0 where
  absent : Given
  given : String → Given
  not_text : Given

pub record Request : Type 0 where
  pub version : Option String
  pub operation : Option String
  pub capability_id : Option String
  pub nonce : Option String
  pub workload_id : Option String
  pub proof : Option String
  pub authorization_id : Given

-- One line from the socket: it may be no JSON.
pub data Line : Type 0 where
  unparsed : Line
  parsed : Request → Line

-- Why a redemption was denied: the reason in the operator's log.
pub data Denial : Type 0 where
  no_json malformed no_such_capability damaged not_redeemable nonce_seen : Denial
  no_workload_key bad_proof unresolved unreadable no_value : Denial

pub data Answer : Type 0 where
  listening : Answer
  denied : Denial → Answer
  pending cancelled : Answer
  secret : String → Answer

-- What the caller learns: `denied` says no reason.
pub data Status : Type 0 where
  listening denied pending done : Status

unfoldable pub status : Answer → Status
status listening = Status.listening
status (denied why) = Status.denied
status pending = Status.pending
status cancelled = done
status (secret s) = done

-- A request that has the shape that this wire requires.
pub record Shaped : Type 0 where
  pub capability_id : String
  pub nonce : String
  pub workload_id : String
  pub proof : String
  pub operation : String
  pub cancel : Bool
  pub authorization_id : String

abbrev is_hex : ℕ → Bool
is_hex c = leb b'0' c && leb c b'9' || leb b'a' c && leb c b'f'

-- `schema::exact_token`: not empty, and free of NUL and line breaks.
unfoldable pub exact_token : String → Bool
exact_token s =
    not (str_eq s "") && all (λ c. not (c == 0) && not (c == 10) && not (c == 13)) (codes s)

unfoldable pub capability_id_shaped : String → Bool
capability_id_shaped s = bytes_len s == 64 && all is_hex (codes s)

-- The operation, as whether it cancels.
abbrev cancels : String → Option Bool
cancels op =
    if str_eq op "redeem" then some false else if str_eq op "cancel" then some true else none

abbrev text_of : Given → Option String
text_of absent = some ""
text_of (given s) = some s
text_of not_text = none

abbrev need {ℓ} : {A : Type ℓ} → Option A → Result {ℓ} (Unit {ℓ}) A
need none = err tt
need (some a) = ok a

unfoldable pub shape : Request → Result (Unit {0}) Shaped
shape q = do
  version ← need q.version
  operation ← need q.operation
  capability_id ← need q.capability_id
  nonce ← need q.nonce
  workload_id ← need q.workload_id
  proof ← need q.proof
  authorization_id ← need (text_of q.authorization_id)
  cancel ← need (cancels operation)
  guard (str_eq version "skarbiec.redeem.v1") tt
  guard (capability_id_shaped capability_id) tt
  guard (exact_token nonce && exact_token workload_id) tt
  guard (bytes_len proof == 86) tt
  ok (record {
    capability_id = capability_id;
    nonce = nonce;
    workload_id = workload_id;
    proof = proof;
    operation = operation;
    cancel = cancel;
    authorization_id = authorization_id;
  })

abbrev pub asks_status : Request → Bool
asks_status q = is_text "skarbiec.capability-status.v1" q.version && is_text "status" q.operation

-- A text and the NUL that ends it.
abbrev ended : String → List ℕ
ended s = codes s ++ 0 ∷ []

abbrev proof_domain : List ℕ
proof_domain = ended "SKARBIEC-WORKLOAD-PROOF" ++ ended "v1"

-- The bytes that the workload signs, its texts by their code points.
unfoldable pub payload : Shaped → List ℕ
payload c =
    proof_domain
    ++ (ended c.capability_id
        ++ (ended c.nonce
            ++ (ended c.workload_id ++ (ended c.operation ++ codes c.authorization_id))))

-- The key under which a nonce is recorded.
abbrev pub nonce_key : String → String → String
nonce_key id nonce = String.◌++◌ id (String.◌++◌ ":" nonce)

abbrev pub dash : Char → Char
dash c = if code c == b'/' || code c == b':' then "-" else c

abbrev pub dashed : String → String
dashed String.[] = String.[]
dashed (String.◌∷◌ c s) = String.◌∷◌ (dash c) (dashed s)

-- The item that holds the value of a challenge resource.
unfoldable pub challenge_item : String → String
challenge_item resource = String.◌++◌ "capability-challenge-" (dashed resource)
