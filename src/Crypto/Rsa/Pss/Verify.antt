-- ===== src/Crypto/Rsa/Pss/Verify.antt =====
-- `verify_pss` against RFC 8017: the signatures it accepts are those that carry an encoding of the
-- message with a salt of the stated length.
use mathlib.Core.Path.{subst}
use skarbiec.Prelude.{
  ℕ, zero, suc, ◌-◌, ◌^◌, ◌%◌, ◌<◌, ◌≡◌, refl, ◌∙◌, sym, ap, Bool, true, false, some, List, ◌++◌,
  ltb, ◌==◌, arith, length, length-append, length-drop, take, drop, inl, inr, Bool-cases, ◌↔◌,
}
use skarbiec.Crypto.Bignum.{bits, zeros}
use skarbiec.Crypto.Bignum.Value.{value, length-zeros}
use skarbiec.Crypto.Bignum.Bytes.{be_value, be_from}
use skarbiec.Crypto.Bignum.Bytes.Value.{AreBytes}
use skarbiec.Crypto.Bignum.Bytes.RoundTrip.{same_bytes}
use skarbiec.Crypto.Rsa.{HashAlg, Hasher, PublicKey, div_ceil_8, size}
use skarbiec.Crypto.Rsa.Open.{
  IsKey, Opened, open_signature-Opened, open_signature_wrong_size, open_signature_too_large,
}
use skarbiec.Crypto.Rsa.Pss.{any_nonzero, verify_pss}
use skarbiec.Crypto.Rsa.Pss.Mask.{IsPartsHasher}
use skarbiec.Crypto.Rsa.Pss.Split.{
  all_zeros, any_nonzero-zeros, take-append-drop_lem, drop-AreBytes, take_all, drop_all,
}
use skarbiec.Crypto.Rsa.Pkcs1.{append-AreBytes}
use skarbiec.Crypto.Rsa.Pss.Encoding.{zeros-AreBytes}
use skarbiec.Crypto.Rsa.Pss.Message.{IsEncoded}
use skarbiec.Crypto.Rsa.Pss.Accept.{check_em-IsEncoded}

-- A number of `em_bits` bits at most is written in the bytes that `em` has.
pub record IsPssSigned (hasher : Hasher) (key : PublicKey) (hash : HashAlg)
    (message signature : List ℕ) (salt_len : ℕ) : Type 0 where
  pub sized : length signature ≡ size key
  pub below : be_value signature < value key.n
  pub em : List ℕ
  pub em_bytes : AreBytes em
  pub em_size : length em ≡ div_ceil_8 (bits key.n - 1)
  pub encoded : IsEncoded hasher hash message salt_len (bits key.n - 1) em
  pub carries : be_value signature ^ value key.e % value key.n ≡ be_value em

be_value-zeros : (n : ℕ) (bs : List ℕ) → be_value (zeros n ++ bs) ≡ be_value bs
unfolding zeros be_from
be_value-zeros zero bs = refl
be_value-zeros (suc n) bs = be_value-zeros n bs

drop-zeros : (n : ℕ) (bs : List ℕ) → drop n (zeros n ++ bs) ≡ bs
drop-zeros n bs =
    ap (λ (k : ℕ). drop k (zeros n ++ bs)) (sym (length-zeros n)) ∙ drop_all (zeros n) bs

take-zeros : (n : ℕ) (bs : List ℕ) → take n (zeros n ++ bs) ≡ zeros n
take-zeros n bs =
    ap (λ (k : ℕ). take k (zeros n ++ bs)) (sym (length-zeros n)) ∙ take_all (zeros n) bs

-- What a signature carries is its encoded message behind zeros.
carried_whole :
    (hasher : Hasher) (key : PublicKey) (hash : HashAlg) (message signature em_full : List ℕ)
    (salt_len : ℕ)
    → Opened key signature em_full
    → (s : IsPssSigned hasher key hash message signature salt_len)
    → em_full ≡ zeros (length em_full - div_ceil_8 (bits key.n - 1)) ++ s.em
carried_whole hasher key hash message signature em_full salt_len o s =
    let above = length em_full - div_ceil_8 (bits key.n - 1) in
    same_bytes em_full (zeros above ++ s.em) o.bytes
      (append-AreBytes (zeros above) s.em (zeros-AreBytes above) s.em_bytes)
      (omega (arith, length-append (zeros above) s.em, length-zeros above, s.em_size, o.em_size))
      (o.equals ∙ s.carries ∙ sym (be_value-zeros above s.em))

opened_pss_iff :
    (hasher : Hasher) (key : PublicKey) (hash : HashAlg) (message signature em_full : List ℕ)
    (salt_len : ℕ)
    → IsPartsHasher hasher
    → Opened key signature em_full
    → length signature ≡ size key
    → be_value signature < value key.n
    → (accepted : Bool) × (verify_pss hasher key hash message signature salt_len ≡ some accepted)
      × ((accepted ≡ true) ↔ IsPssSigned hasher key hash message signature salt_len)
unfolding verify_pss
opened_pss_iff hasher key hash message signature em_full salt_len hh o sized below =
    let em_bits = bits key.n - 1 in
    let above = length em_full - div_ceil_8 em_bits in
    let em = drop above em_full in
    let em_size : length em ≡ div_ceil_8 em_bits =
      omega (arith, length-drop above em_full, o.em_size) in
    let whole = carried_whole hasher key hash message signature em_full salt_len o in
    elim (Bool-cases (any_nonzero (take above em_full))) [
      | inl set ↦ (
        false,
        rw (o.returned, set) refl,
        (
          λ e. absurd (ground (arith, e)),
          λ s. absurd (
              ground (
                arith,
                sym set
                    ∙ ap (λ (xs : List ℕ). any_nonzero (take above xs)) (whole s)
                    ∙ ap any_nonzero (take-zeros above s.em)
                    ∙ any_nonzero-zeros above,
              )),
        ),
      )
      | inr clear ↦
          let checked =
            check_em-IsEncoded hasher hash message salt_len em_bits em hh
              (drop-AreBytes above em_full o.bytes) em_size in
          (
            checked.0,
            rw (o.returned, clear) checked.1,
            (
              λ e. record {
                sized = sized;
                below = below;
                em = em;
                em_bytes = drop-AreBytes above em_full o.bytes;
                em_size = em_size;
                encoded = checked.2.0 e;
                carries =
                    sym o.equals
                    ∙ ap be_value (sym (take-append-drop_lem above em_full))
                    ∙ ap (λ (xs : List ℕ). be_value (xs ++ em))
                        (all_zeros above em_full (omega arith) clear)
                    ∙ be_value-zeros above em;
              },
              λ s. checked.2.1 (
                  subst (λ (xs : List ℕ). IsEncoded hasher hash message salt_len em_bits xs)
                    (sym (ap (λ (xs : List ℕ). drop above xs) (whole s) ∙ drop-zeros above s.em))
                    s.encoded),
            ),
          )
    ]

pub verify_pss-IsPssSigned :
    (hasher : Hasher) (key : PublicKey) (hash : HashAlg) (message signature : List ℕ) (salt_len : ℕ)
    → IsPartsHasher hasher
    → IsKey key
    → AreBytes signature
    → (accepted : Bool) × (verify_pss hasher key hash message signature salt_len ≡ some accepted)
      × ((accepted ≡ true) ↔ IsPssSigned hasher key hash message signature salt_len)
unfolding verify_pss
verify_pss-IsPssSigned hasher key hash message signature salt_len hh hk hs =
    elim (Bool-cases (length signature == size key)) [
      | inr other ↦ (
        false,
        rw (open_signature_wrong_size key signature other) refl,
        (λ e. absurd (ground (arith, e)), λ s. absurd (ground (arith, other, s.sized))),
      )
      | inl sized ↦ elim (Bool-cases (ltb (be_value signature) (value key.n))) [
        | inr large ↦ (
          false,
          rw (open_signature_too_large key signature hk hs (ground arith)) refl,
          (λ e. absurd (ground (arith, e)), λ s. absurd (ground (arith, large, s.below))),
        )
        | inl below ↦
            let o = open_signature-Opened key signature hk hs (ground arith) (ground arith) in
            opened_pss_iff hasher key hash message signature o.0 salt_len hh o.1 (ground arith)
              (ground arith)
      ]
    ]
