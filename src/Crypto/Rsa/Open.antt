-- ===== src/Crypto/Rsa/Open.antt =====
-- `PublicKey::open`: what a signature below the modulus carries, and what is refused.
use native.Mathlib.Nat.{mod-lt, pow-le-pow_right}
use skarbiec.Prelude.{
  ℕ, ◌*◌, ◌%◌, ◌^◌, ◌<◌, ◌≤◌, ◌≡◌, refl, ◌∙◌, ap, true, false, none, some, List, ◌==◌, ==_iff,
  arith, length, inl, inr, Bool-cases,
}
use skarbiec.Crypto.Bignum.{bits, cmp, is_less}
use skarbiec.Crypto.Bignum.Value.{value, IsValid}
use skarbiec.Crypto.Bignum.Order.{cmp-value}
use skarbiec.Crypto.Bignum.Bits.{value-lt_bits}
use skarbiec.Crypto.Bignum.Power.{mod_pow-Returns}
use skarbiec.Crypto.Bignum.Bytes.{from_be_bytes, be_value}
use skarbiec.Crypto.Bignum.Bytes.Value.{AreBytes}
use skarbiec.Crypto.Bignum.Bytes.RoundTrip.{
  to_be_bytes-Written, from_be_bytes-IsValid, value-from_be_bytes, pow_256,
}
use skarbiec.Crypto.Rsa.{HashAlg, output_len, Hasher, PublicKey, size, open_signature}

-- The digests have the length that the algorithm states.
pub record IsHasher (hasher : Hasher) : Type 0 where
  pub digest_size :
      (hash : HashAlg) (message : List ℕ) → length (hasher.digest hash message) ≡ output_len hash
  pub digest_bytes : (hash : HashAlg) (message : List ℕ) → AreBytes (hasher.digest hash message)

pub record IsKey (key : PublicKey) : Type 0 where
  pub modulus : IsValid key.n
  pub exponent : IsValid key.e

-- The message that a signature below the modulus carries.
pub record Opened (key : PublicKey) (signature em : List ℕ) : Type 0 where
  pub returned : open_signature key signature ≡ some (some em)
  pub bytes : AreBytes em
  pub em_size : length em ≡ size key
  pub equals : be_value em ≡ be_value signature ^ value key.e % value key.n

modulus-lt : (key : PublicKey) → IsKey key → value key.n < 256 ^ size key
modulus-lt key h = omega (
  arith,
  value-lt_bits key.n h.modulus,
  pow_256 (size key),
  pow-le-pow_right {n = 2} (omega arith) {i = bits key.n} {j = size key * 8} (omega arith),
)

pub open_signature-Opened :
    (key : PublicKey) (signature : List ℕ)
    → IsKey key
    → AreBytes signature
    → length signature ≡ size key
    → be_value signature < value key.n
    → (em : List ℕ) × Opened key signature em
unfolding open_signature
open_signature-Opened key signature hk hs len lt =
    let s = from_be_bytes signature in
    let read = value-from_be_bytes signature in
    let valid = from_be_bytes-IsValid signature hs in
    let below : is_less (cmp s key.n) ≡ true =
      rw (cmp-value s key.n valid hk.modulus) (ground (arith, read, lt)) in
    let m = mod_pow-Returns s key.e key.n valid hk.exponent hk.modulus (omega (arith, lt)) in
    let written = to_be_bytes-Written m.result (size key) m.valid (
      omega (
        arith,
        m.equals,
        modulus-lt key hk,
        mod-lt (value s ^ value key.e) {m = value key.n} (omega (arith, lt)),
      )) in
    (
      _,
      record {
        returned =
            rw ((==_iff (length signature) (size key)).1 len, below, m.returned, written.returned)
              refl;
        bytes = written.bytes;
        em_size = written.size;
        equals = written.equals ∙ m.equals ∙ ap (λ (k : ℕ). k ^ value key.e % value key.n) read;
      },
    )

-- A signature of the wrong length, or not below the modulus, carries nothing.
pub open_signature_wrong_size :
    (key : PublicKey) (signature : List ℕ)
    → (length signature == size key) ≡ false
    → open_signature key signature ≡ some none
unfolding open_signature
open_signature_wrong_size key signature e = rw e refl

pub open_signature_too_large :
    (key : PublicKey) (signature : List ℕ)
    → IsKey key
    → AreBytes signature
    → value key.n ≤ be_value signature
    → open_signature key signature ≡ some none
unfolding open_signature
open_signature_too_large key signature hk hs le =
    let valid = from_be_bytes-IsValid signature hs in
    let above : is_less (cmp (from_be_bytes signature) key.n) ≡ false =
      rw (cmp-value (from_be_bytes signature) key.n valid hk.modulus)
        (ground (arith, value-from_be_bytes signature, le)) in
    elim (Bool-cases (length signature == size key)) [
      | inl sized ↦ rw (sized, above) refl
      | inr other ↦ rw other refl
    ]
