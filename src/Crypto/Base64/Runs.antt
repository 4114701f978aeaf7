-- ===== src/Crypto/Base64/Runs.antt =====
-- Runs of radix 64, and the round trip at one.
use skarbiec.Prelude.{◌≡◌, refl, [], ◌∷◌, arith, ok, err}
use skarbiec.Prelude.Text.{codes}
use skarbiec.Crypto.Base64.{
  base64_encode, base64_decode, decode_from, position, symbol, not_radix_64,
}
use skarbiec.Crypto.Base64.RoundTrip.{base64_decode-base64_encode}

-- All that a run computes with.
radix : Unit {0}
unfolding base64_encode base64_decode decode_from position symbol
radix = tt

encoded : base64_encode (77 ∷ 97 ∷ 110 ∷ 77 ∷ []) ≡ codes "TWFuTQ=="
unfolding radix
encoded = refl

spaced : base64_decode (codes "TW Fu\nTQ==") ≡ ok (77 ∷ 97 ∷ 110 ∷ 77 ∷ [])
unfolding radix
spaced = refl

refused : base64_decode (codes "TW-u") ≡ err (not_radix_64 45)
unfolding radix
refused = refl

base64_decode-base64_encode_example :
    base64_decode (base64_encode (77 ∷ 97 ∷ 110 ∷ 77 ∷ [])) ≡ ok (77 ∷ 97 ∷ 110 ∷ 77 ∷ [])
base64_decode-base64_encode_example =
    base64_decode-base64_encode (77 ∷ 97 ∷ 110 ∷ 77 ∷ [])
      (omega arith, (omega arith, (omega arith, (omega arith, tt))))
