-- ===== src/Access/Acquisition/Proof.antt =====
-- What a workload has to state and sign (src/access/acquisition/proof.rs, role.rs).
use Prim.Native.String
use skarbiec.Prelude.{
  ℕ, ◌+◌, ◌-◌, ◌*◌, String, Bool, false, not, ◌&&◌, ◌||◌, Option, none, some, List, [], ◌∷◌, ◌++◌,
  leb, ◌==◌, str_eq, if◌then◌else◌, all,
}
use skarbiec.Prelude.Text.{codes, bytes_len, is_trimmed, strip_prefix}
use skarbiec.Prelude.Decimal.{decimal}

abbrev is_alphanumeric : ℕ → Bool
is_alphanumeric c = leb b'0' c && leb c b'9' || leb b'a' c && leb c b'z' || leb b'A' c && leb c b'Z'

unfoldable pub exact_name : String → Bool
exact_name s =
    not (str_eq s "")
    && all (λ c. is_alphanumeric c || c == b'.' || c == b'_' || c == b'-') (codes s)

-- `char::is_control`
abbrev is_control : ℕ → Bool
is_control c = leb c 31 || leb 127 c && leb c 159

unfoldable pub valid_workload_id : String → Bool
valid_workload_id s = not (str_eq s "") && is_trimmed s && all (λ c. not (is_control c)) (codes s)

unfoldable pub valid_nonce : String → Bool
valid_nonce s =
    bytes_len s == 43 && all (λ c. is_alphanumeric c || c == b'-' || c == b'_') (codes s)

-- An exact item name, or `role:` and an exact role.
abbrev coordinate_of : String → Option String → Bool
coordinate_of coordinate none = exact_name coordinate
coordinate_of coordinate (some role) = exact_name role

unfoldable pub exact_coordinate : String → Bool
exact_coordinate coordinate = coordinate_of coordinate (strip_prefix "role:" coordinate)

-- The item a coordinate reads: the one it names, or the one live item tagged with the role.
abbrev the_only : List String → Option String
the_only [] = none
the_only (item ∷ []) = some item
the_only (item ∷ other ∷ items) = none

abbrev item_of : (String → List String) → String → Option String → Option String
item_of tagged_items coordinate none = some coordinate
item_of tagged_items coordinate (some role) =
    the_only (tagged_items (String.◌++◌ "stado:role:" role))

unfoldable pub item_for : (String → List String) → String → Option String
item_for tagged_items coordinate = item_of tagged_items coordinate (strip_prefix "role:" coordinate)

-- A hexadecimal digit, of either case.
abbrev hex_digit : ℕ → Option ℕ
hex_digit c =
    if leb b'0' c && leb c b'9'
    then some (c - b'0')
    else if leb b'a' c && leb c b'f'
    then some (c - b'a' + 10)
    else if leb b'A' c && leb c b'F'
    then some (c - b'A' + 10)
    else none

abbrev two_digits : Option ℕ → Option ℕ → Option ℕ
two_digits none low = none
two_digits (some high) none = none
two_digits (some high) (some low) = some (high * 16 + low)

-- `u8::from_str_radix` of two characters: a `+` may stand before one digit.
unfoldable pub hex_byte : ℕ → ℕ → Option ℕ
hex_byte a b = if a == b'+' then hex_digit b else two_digits (hex_digit a) (hex_digit b)

abbrev byte_before : Option ℕ → Option (List ℕ) → Option (List ℕ)
byte_before none rest = none
byte_before (some b) none = none
byte_before (some b) (some rest) = some (b ∷ rest)

unfoldable pub hex_bytes : List ℕ → Option (List ℕ)
hex_bytes [] = some []
hex_bytes (a ∷ []) = none
hex_bytes (a ∷ b ∷ cs) = byte_before (hex_byte a b) (hex_bytes cs)

-- The signature's bytes; `none` is any of its refusals.
unfoldable pub decode_signature : String → Option (List ℕ)
decode_signature value =
    let bytes = hex_bytes (codes value) in if bytes_len value == 128 then bytes else none

-- A text and the NUL behind it.
abbrev ended : String → List ℕ
ended s = codes s ++ 0 ∷ []

-- The bytes that the workload signs, its texts by their code points.
unfoldable pub workload_payload : String → String → String → String → ℕ → String → List ℕ
workload_payload consumer item field workload_id timestamp nonce =
    ended "SKARBIEC-WORKLOAD-ACQUISITION"
    ++ (ended "v1"
        ++ (ended consumer
            ++ (ended item
                ++ (ended field
                    ++ (ended workload_id ++ (ended (decimal timestamp) ++ codes nonce))))))

-- `verify_workload_proof`: `verify` is the Ed25519 verdict, `none` a key that is no key.
abbrev verdict : (List ℕ → Option Bool) → Option (List ℕ) → Option Bool
verdict verify none = some false
verdict verify (some signature) = verify signature

unfoldable pub verify_workload_proof :
    (String → List ℕ → List ℕ → Option Bool) → String → List ℕ → String → Option Bool
verify_workload_proof verify key payload signature =
    verdict (verify key payload) (decode_signature signature)
