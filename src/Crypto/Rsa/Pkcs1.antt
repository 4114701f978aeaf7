-- ===== src/Crypto/Rsa/Pkcs1.antt =====
-- `verify_pkcs1v15` against RFC 8017: the signatures it accepts are those that carry the encoding
-- of the message.
use mathlib.Core.Path.{subst}
use skarbiec.Prelude.{
  ℕ, zero, suc, ◌+◌, ◌-◌, ◌^◌, ◌%◌, ◌<◌, ◌≤◌, ◌≡◌, refl, ◌∙◌, sym, ap, Bool, true, false, some,
  List, [], ◌∷◌, ◌++◌, ltb, ◌==◌, ==_iff, arith, length, length-append, inl, inr, Bool-cases,
  and-eq-true, all, ltb→lt, ◌↔◌, tests,
}
use skarbiec.Crypto.Bignum.Value.{value}
use skarbiec.Crypto.Bignum.Bytes.{be_value}
use skarbiec.Crypto.Bignum.Bytes.Value.{AreBytes}
use skarbiec.Crypto.Bignum.Bytes.RoundTrip.{same_bytes}
use skarbiec.Crypto.Rsa.{
  HashAlg, sha256, sha384, sha512, output_len, Hasher, digest_info, PublicKey, size, bytes_eq,
  resize, expected, verify_pkcs1v15,
}
use skarbiec.Crypto.Rsa.Open.{
  IsHasher, IsKey, Opened, open_signature-Opened, open_signature_wrong_size,
  open_signature_too_large,
}

unfoldable pub repeated : ℕ → ℕ → List ℕ
repeated zero x = []
repeated (suc n) x = x ∷ repeated n x

-- EMSA-PKCS1-v1_5 of RFC 8017, section 9.2.
abbrev pub emsa_pkcs1v15 : Hasher → HashAlg → List ℕ → ℕ → List ℕ
emsa_pkcs1v15 hasher hash message em_len =
    let t = digest_info hash ++ hasher.digest hash message in
    0 ∷ 1 ∷ repeated (em_len - length t - 3) 255 ++ 0 ∷ t

pub record IsSigned (hasher : Hasher) (key : PublicKey) (hash : HashAlg)
    (message signature : List ℕ) : Type 0 where
  pub sized : length signature ≡ size key
  pub below : be_value signature < value key.n
  pub room : length (digest_info hash) + output_len hash + 11 ≤ size key
  pub carries :
      be_value signature ^ value key.e % value key.n
      ≡ be_value (emsa_pkcs1v15 hasher hash message (size key))

pub bytes_eq_same : (xs ys : List ℕ) → bytes_eq xs ys ≡ true → xs ≡ ys
unfolding bytes_eq
bytes_eq_same [] [] e = refl
bytes_eq_same [] (y ∷ ys) e = absurd (ground (arith, e))
bytes_eq_same (x ∷ xs) [] e = absurd (ground (arith, e))
bytes_eq_same (x ∷ xs) (y ∷ ys) e =
    let both = and-eq-true (x == y) (bytes_eq xs ys) e in
    rw ((==_iff x y).0 both.0, bytes_eq_same xs ys both.1) refl

pub bytes_eq_itself : (xs : List ℕ) → bytes_eq xs xs ≡ true
unfolding bytes_eq
bytes_eq_itself [] = refl
bytes_eq_itself (x ∷ xs) = rw ((==_iff x x).1 refl) (bytes_eq_itself xs)

resize_empty : (n x : ℕ) → resize n x [] ≡ repeated n x
unfolding resize repeated
resize_empty zero x = refl
resize_empty (suc n) x = ap (λ (xs : List ℕ). x ∷ xs) (resize_empty n x)

resize_header : (n m : ℕ) → n ≡ suc (suc m) → resize n 255 (0 ∷ 1 ∷ []) ≡ 0 ∷ 1 ∷ repeated m 255
unfolding resize
resize_header n m e = rw e (ap (λ (xs : List ℕ). 0 ∷ 1 ∷ xs) (resize_empty m 255))

pub repeated-AreBytes : (n x : ℕ) → x < 256 → AreBytes (repeated n x)
unfolding repeated
repeated-AreBytes zero x h = tt
repeated-AreBytes (suc n) x h = (h, repeated-AreBytes n x h)

pub length-repeated : (n x : ℕ) → length (repeated n x) ≡ n
unfolding repeated
length-repeated zero x = refl
length-repeated (suc n) x = omega (arith, length-repeated n x)

pub append-AreBytes : (xs ys : List ℕ) → AreBytes xs → AreBytes ys → AreBytes (xs ++ ys)
append-AreBytes [] ys hx hy = hy
append-AreBytes (x ∷ xs) ys hx hy = (hx.0, append-AreBytes xs ys hx.1 hy)

pub tested-AreBytes : (bs : List ℕ) → all (λ b. ltb b 256) bs ≡ true → AreBytes bs
tested-AreBytes [] e = tt
tested-AreBytes (b ∷ bs) e =
    let both = and-eq-true (ltb b 256) (all (λ b. ltb b 256) bs) e in
    (ltb→lt b 256 both.0, tested-AreBytes bs both.1)

digest_info-AreBytes : (hash : HashAlg) → AreBytes (digest_info hash)
digest_info-AreBytes sha256 = tested-AreBytes (digest_info sha256) refl
digest_info-AreBytes sha384 = tested-AreBytes (digest_info sha384) refl
digest_info-AreBytes sha512 = tested-AreBytes (digest_info sha512) refl

emsa_pkcs1v15-AreBytes :
    (hasher : Hasher) (hash : HashAlg) (message : List ℕ) (n : ℕ)
    → IsHasher hasher
    → AreBytes (emsa_pkcs1v15 hasher hash message n)
emsa_pkcs1v15-AreBytes hasher hash message n h = (
  omega arith,
  (
    omega arith,
    append-AreBytes _ _ (repeated-AreBytes _ 255 (omega arith)) (
      omega arith,
      append-AreBytes _ _ (digest_info-AreBytes hash) (h.digest_bytes hash message),
    ),
  ),
)

length-emsa_pkcs1v15 :
    (hasher : Hasher) (hash : HashAlg) (message : List ℕ) (n : ℕ)
    → IsHasher hasher
    → length (digest_info hash) + output_len hash + 11 ≤ n
    → length (emsa_pkcs1v15 hasher hash message n) ≡ n
length-emsa_pkcs1v15 hasher hash message n h room =
    let t = digest_info hash ++ hasher.digest hash message in
    omega (
      arith,
      room,
      h.digest_size hash message,
      length-append (digest_info hash) (hasher.digest hash message),
      length-append (repeated (n - length t - 3) 255) (0 ∷ t),
      length-repeated (n - length t - 3) 255,
    )

expected-eq-emsa_pkcs1v15 :
    (hasher : Hasher) (hash : HashAlg) (message : List ℕ) (n : ℕ)
    → IsHasher hasher
    → length (digest_info hash) + output_len hash + 11 ≤ n
    → expected hasher hash message n ≡ emsa_pkcs1v15 hasher hash message n
expected-eq-emsa_pkcs1v15 hasher hash message n h room =
    let t = digest_info hash ++ hasher.digest hash message in
    rw
      (resize_header (n - (length (digest_info hash) + output_len hash) - 1) (n - length t - 3) (
        omega (
          arith,
          room,
          h.digest_size hash message,
          length-append (digest_info hash) (hasher.digest hash message),
        )))
      refl

opened_iff :
    (hasher : Hasher) (key : PublicKey) (hash : HashAlg) (message signature em : List ℕ)
    → IsHasher hasher
    → Opened key signature em
    → length signature ≡ size key
    → be_value signature < value key.n
    → (accepted : Bool) × (verify_pkcs1v15 hasher key hash message signature ≡ some accepted)
      × ((accepted ≡ true) ↔ IsSigned hasher key hash message signature)
unfolding verify_pkcs1v15
opened_iff hasher key hash message signature em hh o sized below =
    let needed = length (digest_info hash) + output_len hash + 11 in
    elim (Bool-cases (ltb (length em) needed)) [
      | inl short ↦ (
        false,
        rw (o.returned, short) refl,
        (λ e. absurd (ground (arith, e)), λ s. absurd (omega (tests, short, s.room, o.em_size))),
      )
      | inr enough ↦
          let room : needed ≤ length em = ground arith in
          let emsa = emsa_pkcs1v15 hasher hash message (length em) in
          let same = expected-eq-emsa_pkcs1v15 hasher hash message (length em) hh room in
          (
            bytes_eq (expected hasher hash message (length em)) em,
            rw (o.returned, enough) refl,
            (
              λ e. record {
                sized = sized;
                below = below;
                room = omega (arith, room, o.em_size);
                carries =
                    sym o.equals
                    ∙ ap be_value (sym (bytes_eq_same _ em e) ∙ same)
                    ∙ ap (λ (n : ℕ). be_value (emsa_pkcs1v15 hasher hash message n)) o.em_size;
              },
              λ s.
                  subst (λ (xs : List ℕ). bytes_eq xs em ≡ true)
                    (sym (
                      same
                      ∙ same_bytes emsa em
                          (emsa_pkcs1v15-AreBytes hasher hash message (length em) hh) o.bytes
                          (length-emsa_pkcs1v15 hasher hash message (length em) hh room)
                          (ap (λ (n : ℕ). be_value (emsa_pkcs1v15 hasher hash message n)) o.em_size
                            ∙ sym s.carries
                            ∙ sym o.equals)))
                    (bytes_eq_itself em),
            ),
          )
    ]

pub verify_pkcs1v15-IsSigned :
    (hasher : Hasher) (key : PublicKey) (hash : HashAlg) (message signature : List ℕ)
    → IsHasher hasher
    → IsKey key
    → AreBytes signature
    → (accepted : Bool) × (verify_pkcs1v15 hasher key hash message signature ≡ some accepted)
      × ((accepted ≡ true) ↔ IsSigned hasher key hash message signature)
unfolding verify_pkcs1v15
verify_pkcs1v15-IsSigned hasher key hash message signature hh hk hs =
    elim (Bool-cases (length signature == size key)) [
      | inr other ↦ (
        false,
        rw (open_signature_wrong_size key signature other) refl,
        (λ e. absurd (ground (arith, e)), λ s. absurd (ground (arith, other, s.sized))),
      )
      | inl sized ↦ elim (Bool-cases (ltb (be_value signature) (value key.n))) [
        | inr large ↦ (
          false,
          rw (open_signature_too_large key signature hk hs (ground arith)) refl,
          (λ e. absurd (ground (arith, e)), λ s. absurd (ground (arith, large, s.below))),
        )
        | inl below ↦
            let o = open_signature-Opened key signature hk hs (ground arith) (ground arith) in
            opened_iff hasher key hash message signature o.0 hh o.1 (ground arith) (ground arith)
      ]
    ]
