-- ===== src/Crypto/Rsa/Pss/Message.antt =====
-- EMSA-PSS of RFC 8017, section 9.1.1, for some salt of a stated length, and the parts of what it
-- encodes.
use mathlib.Core.Path.{subst}
use skarbiec.Prelude.{
  ℕ, ◌+◌, ◌-◌, ◌*◌, ◌≤◌, ◌≡◌, refl, ◌∙◌, sym, ap, Option, some, List, [], ◌∷◌, ◌++◌, length, arith,
}
use skarbiec.Crypto.Bignum.{or_panic}
use skarbiec.Crypto.Bignum.Bytes.Value.{AreBytes}
use skarbiec.Crypto.Rsa.{HashAlg, Hasher, div_ceil_8, output_len}
use skarbiec.Crypto.Rsa.Pss.{mgf1, xor_zip, clear_high}
use skarbiec.Crypto.Rsa.Pss.Mask.{IsPartsHasher, mgf1-ends, length-xor_zip, xor_zip-AreBytes}
use skarbiec.Crypto.Rsa.Pss.Unused.{some_same, clear_high-ends}
use skarbiec.Crypto.Rsa.Pss.Encoding.{salted_hash, data_block, length-data_block, IsMasked}

-- The encoding with `unused_bits` cleared at the front and `padding` zeros.
abbrev pub emsa_with : Hasher → HashAlg → List ℕ → List ℕ → ℕ → ℕ → Option (List ℕ)
emsa_with hasher hash message salt unused_bits padding =
    let h = salted_hash hasher hash message salt in
    let db = data_block padding salt in
    or_panic (mgf1 hasher hash h (length db)) λ mask.
      or_panic (clear_high unused_bits (xor_zip mask db)) λ masked. some (masked ++ (h ++ 188 ∷ []))

abbrev pub emsa_pss : Hasher → HashAlg → List ℕ → List ℕ → ℕ → Option (List ℕ)
emsa_pss hasher hash message salt em_bits =
    let em_len = div_ceil_8 em_bits in
    emsa_with hasher hash message salt (8 * em_len - em_bits)
      (em_len - output_len hash - length salt - 2)

pub record IsEncoded (hasher : Hasher) (hash : HashAlg) (message : List ℕ) (salt_len em_bits : ℕ)
    (em : List ℕ) : Type 0 where
  pub room : output_len hash + salt_len + 2 ≤ div_ceil_8 em_bits
  pub salt : List ℕ
  pub salt_size : length salt ≡ salt_len
  pub salt_bytes : AreBytes salt
  pub encodes : emsa_pss hasher hash message salt em_bits ≡ some em

-- What is masked under a salt, with its hash and the last byte, is the encoding with that salt.
pub masked-emsa_with :
    (hasher : Hasher) (hash : HashAlg) (message masked h salt : List ℕ) (u n : ℕ)
    → length masked ≡ n + 1 + length salt
    → IsMasked hasher hash message masked h salt u n
    → emsa_with hasher hash message salt u n ≡ some (masked ++ (h ++ 188 ∷ []))
masked-emsa_with hasher hash message masked h salt u n size m =
    let db = data_block n salt in
    let same_size : length db ≡ length masked = omega (arith, size, length-data_block n salt) in
    let generated =
      ap (λ (x : List ℕ). mgf1 hasher hash x (length db)) (sym m.hashed)
      ∙ ap (λ (k : ℕ). mgf1 hasher hash h k) same_size
      ∙ m.generated in
    subst
      (λ (x : List ℕ). emsa_with hasher hash message salt u n ≡ some (masked ++ (x ++ 188 ∷ [])))
      (sym m.hashed) (rw (generated, m.laid) refl)

-- The parts of what has been encoded.
pub record Parts (hasher : Hasher) (hash : HashAlg) (message : List ℕ) (u n : ℕ) (em salt : List ℕ)
    : Type 0 where
  pub masked : List ℕ
  pub masked_size : length masked ≡ n + 1 + length salt
  pub is_masked :
      IsMasked hasher hash message masked (salted_hash hasher hash message salt) salt u n
  pub together : em ≡ masked ++ (salted_hash hasher hash message salt ++ 188 ∷ [])

pub emsa_with-Parts :
    (hasher : Hasher) (hash : HashAlg) (message salt em : List ℕ) (u n : ℕ)
    → IsPartsHasher hasher
    → AreBytes salt
    → emsa_with hasher hash message salt u n ≡ some em
    → Parts hasher hash message u n em salt
emsa_with-Parts hasher hash message salt em u n hh bytes e =
    let h = salted_hash hasher hash message salt in
    let db = data_block n salt in
    let db_size = length-data_block n salt in
    let mask = mgf1-ends hasher hash h (length db) hh in
    let xored_size = length-xor_zip mask.0 db mask.2 in
    let cut =
      clear_high-ends u (xor_zip mask.0 db) (omega (arith, xored_size, mask.2, db_size))
        (xor_zip-AreBytes mask.0 db mask.2) in
    let cut_size : length cut.0 ≡ length db = omega (arith, cut.2, xored_size, mask.2) in
    record {
      masked = cut.0;
      masked_size = cut_size ∙ db_size;
      is_masked = record {
        hashed = refl;
        mask = mask.0;
        generated = ap (λ (k : ℕ). mgf1 hasher hash h k) cut_size ∙ mask.1;
        laid = cut.1;
      };
      together = some_same (sym e ∙ rw (mask.1, cut.1) refl);
    }
