-- ===== src/Crypto/Rsa/Runs.antt =====
-- A key and the signatures that it accepts, of both kinds, and one that it refuses.
use skarbiec.Prelude.{ℕ, ◌≡◌, refl, Bool, true, false, some, List, [], ◌∷◌, ◌++◌, ◌↔◌, arith}
use skarbiec.Crypto.Bignum.{
  cmp, iter_cmp, mod_pow, rem, is_zero, bits, last, bit_length, trim, rem_loop, rem_step, shl_limbs,
  set_low, bit, get_elem?, checked_sub, sub_limbs, pow_loop, mod_mul, mul, mul_rows, mul_row,
  carry_on, zeros,
}
use skarbiec.Crypto.Bignum.Bytes.{
  from_be_bytes, rchunk_limbs, be_from, to_be_bytes, fill, limb_bytes, to_le_bytes,
}
use skarbiec.Crypto.Bignum.Bytes.Value.{AreBytes}
use skarbiec.Crypto.Bignum.Bytes.RoundTrip.{from_be_bytes-IsValid}
use skarbiec.Crypto.Rsa.{
  sha256, output_len, Hasher, PublicKey, new_key, open_signature, bytes_eq, resize, verify_pkcs1v15,
}
use skarbiec.Crypto.Rsa.Open.{IsHasher, IsKey}
use skarbiec.Crypto.Rsa.Pkcs1.{
  repeated, emsa_pkcs1v15, IsSigned, repeated-AreBytes, length-repeated, tested-AreBytes,
  verify_pkcs1v15-IsSigned,
}
use skarbiec.Crypto.Rsa.Pss.{
  verify_pss, check_em, check_masked, check_db, mgf1, mgf1_loop, high_bits_set, clear_high, xor_zip,
  xor_bits,
}
use skarbiec.Crypto.Rsa.Pss.Mask.{IsPartsHasher}
use skarbiec.Crypto.Rsa.Pss.Verify.{IsPssSigned, verify_pss-IsPssSigned}

abbrev sevens : Hasher
sevens = record {
  digest = λ hash message. repeated (output_len hash) 7;
  digest_parts = λ hash parts. repeated (output_len hash) 7;
}

sevens-IsHasher : IsHasher sevens
sevens-IsHasher = record {
  digest_size = λ hash message. length-repeated (output_len hash) 7;
  digest_bytes = λ hash message. repeated-AreBytes (output_len hash) 7 (omega arith);
}

abbrev exponent_one : PublicKey
exponent_one = new_key (repeated 62 200) (1 ∷ [])

exponent_one-IsKey : IsKey exponent_one
unfolding repeated
exponent_one-IsKey = record {
  modulus = from_be_bytes-IsValid (repeated 62 200) (tested-AreBytes (repeated 62 200) refl);
  exponent = from_be_bytes-IsValid (1 ∷ []) (omega arith, tt);
}

abbrev encoded : List ℕ
encoded = emsa_pkcs1v15 sevens sha256 [] 62

encoded-AreBytes : AreBytes encoded
unfolding repeated
encoded-AreBytes = tested-AreBytes encoded refl

accepted_run : verify_pkcs1v15 sevens exponent_one sha256 [] encoded ≡ some true
unfolding verify_pkcs1v15 open_signature mod_pow rem is_zero cmp iter_cmp rem_loop rem_step
    shl_limbs set_low bit get_elem? bits last bit_length checked_sub sub_limbs trim pow_loop mod_mul
    mul mul_rows mul_row carry_on zeros from_be_bytes rchunk_limbs be_from to_be_bytes fill
    limb_bytes to_le_bytes bytes_eq resize repeated
accepted_run = refl

verify_pkcs1v15-IsSigned_example :
    (accepted : Bool) × (verify_pkcs1v15 sevens exponent_one sha256 [] encoded ≡ some accepted)
    × ((accepted ≡ true) ↔ IsSigned sevens exponent_one sha256 [] encoded)
verify_pkcs1v15-IsSigned_example =
    verify_pkcs1v15-IsSigned sevens exponent_one sha256 [] encoded sevens-IsHasher
      exponent_one-IsKey encoded-AreBytes

sevens-IsPartsHasher : IsPartsHasher sevens
sevens-IsPartsHasher = record {
  parts_size = λ hash parts. length-repeated (output_len hash) 7;
  parts_bytes = λ hash parts. repeated-AreBytes (output_len hash) 7 (omega arith);
}

abbrev pss_signature : List ℕ
pss_signature = repeated 25 7 ++ 6 ∷ 6 ∷ 5 ∷ 4 ∷ repeated 32 7 ++ 188 ∷ []

pss_signature-AreBytes : AreBytes pss_signature
unfolding repeated
pss_signature-AreBytes = tested-AreBytes pss_signature refl

pss_accepted_run : verify_pss sevens exponent_one sha256 [] pss_signature 3 ≡ some true
unfolding verify_pss check_em check_masked check_db mgf1 mgf1_loop high_bits_set clear_high xor_zip
    xor_bits open_signature mod_pow rem is_zero cmp iter_cmp rem_loop rem_step shl_limbs set_low bit
    get_elem? bits last bit_length checked_sub sub_limbs trim pow_loop mod_mul mul mul_rows mul_row
    carry_on zeros from_be_bytes rchunk_limbs be_from to_be_bytes fill limb_bytes to_le_bytes
    bytes_eq resize repeated
pss_accepted_run = refl

-- The salt is stated one byte too long, so the mark is not where it is looked for.
pss_refused_run : verify_pss sevens exponent_one sha256 [] pss_signature 4 ≡ some false
unfolding verify_pss check_em check_masked check_db mgf1 mgf1_loop high_bits_set clear_high xor_zip
    xor_bits open_signature mod_pow rem is_zero cmp iter_cmp rem_loop rem_step shl_limbs set_low bit
    get_elem? bits last bit_length checked_sub sub_limbs trim pow_loop mod_mul mul mul_rows mul_row
    carry_on zeros from_be_bytes rchunk_limbs be_from to_be_bytes fill limb_bytes to_le_bytes
    bytes_eq resize repeated
pss_refused_run = refl

verify_pss-IsPssSigned_example :
    (accepted : Bool) × (verify_pss sevens exponent_one sha256 [] pss_signature 3 ≡ some accepted)
    × ((accepted ≡ true) ↔ IsPssSigned sevens exponent_one sha256 [] pss_signature 3)
verify_pss-IsPssSigned_example =
    verify_pss-IsPssSigned sevens exponent_one sha256 [] pss_signature 3 sevens-IsPartsHasher
      exponent_one-IsKey pss_signature-AreBytes
