-- ===== src/Crypto/Rsa/Pss/Accept.antt =====
-- `check_em`: what it accepts is an encoding of the message.
use mathlib.Core.List.{append_assoc}
use skarbiec.Prelude.{
  ℕ, suc, ◌+◌, ◌-◌, ◌*◌, ◌≤◌, ◌≡◌, refl, ◌∙◌, sym, ap, Bool, true, false, Option, none, some, List,
  [], ◌∷◌, ◌++◌, ltb, length, take, drop, arith, tests, inl, inr, Bool-cases, ◌↔◌, ==_iff,
}
use skarbiec.Crypto.Bignum.{last, zeros}
use skarbiec.Crypto.Bignum.Bytes.Value.{AreBytes}
use skarbiec.Crypto.Rsa.{HashAlg, Hasher, div_ceil_8, output_len}
use skarbiec.Crypto.Rsa.Pss.{is_byte, check_masked, check_em}
use skarbiec.Crypto.Rsa.Pss.Mask.{IsPartsHasher, length-take}
use skarbiec.Crypto.Rsa.Pss.Unused.{some_same}
use skarbiec.Crypto.Rsa.Pss.Split.{
  take_all, drop_all, take_sum, before_last, last-snoc, take-AreBytes,
}
use skarbiec.Crypto.Rsa.Pss.Encoding.{salted_hash, check_masked-Sound, check_masked_complete}
use skarbiec.Crypto.Rsa.Pss.Message.{emsa_with, IsEncoded, Parts, emsa_with-Parts, masked-emsa_with}

last_end : (xs ys : List ℕ) (b : ℕ) → last (xs ++ (ys ++ b ∷ [])) ≡ some b
unfolding last
last_end [] ys b = last-snoc ys b
last_end (x ∷ xs) ys b = rw (last_end xs ys b) refl

is_byte-some : (o : Option ℕ) (b : ℕ) → is_byte o b ≡ true → o ≡ some b
is_byte-some none b e = absurd (ground (arith, e))
is_byte-some (some x) b e = ap some ((==_iff x b).0 e)

-- The front, the middle and the last byte.
three_parts :
    (m n : ℕ) (xs : List ℕ) (b : ℕ)
    → length xs ≡ suc (m + n)
    → last xs ≡ some b
    → xs ≡ take m xs ++ (take n (drop m xs) ++ b ∷ [])
three_parts m n xs b size e =
    before_last (m + n) xs b size e
    ∙ ap (λ (ys : List ℕ). ys ++ b ∷ []) (take_sum m n xs)
    ∙ append_assoc (take m xs) (take n (drop m xs)) (b ∷ [])

encoded-Parts :
    (hasher : Hasher) (hash : HashAlg) (message : List ℕ) (salt_len em_bits : ℕ) (em : List ℕ)
    → IsPartsHasher hasher
    → (e : IsEncoded hasher hash message salt_len em_bits em)
    → Parts hasher hash message
        (8 * div_ceil_8 em_bits - em_bits)
        (div_ceil_8 em_bits - output_len hash - salt_len - 2)
        em
        e.salt
encoded-Parts hasher hash message salt_len em_bits em hh e =
    emsa_with-Parts hasher hash message e.salt em _ _ hh e.salt_bytes (
      ap
        (λ (s : ℕ).
          emsa_with hasher hash message e.salt (8 * div_ceil_8 em_bits - em_bits)
            (div_ceil_8 em_bits - output_len hash - s - 2))
        (sym e.salt_size)
      ∙ e.encodes)

wrong_end :
    (hasher : Hasher) (hash : HashAlg) (message : List ℕ) (salt_len em_bits : ℕ) (em : List ℕ)
    → IsPartsHasher hasher
    → is_byte (last em) 188 ≡ false
    → ¬ IsEncoded hasher hash message salt_len em_bits em
wrong_end hasher hash message salt_len em_bits em hh other e =
    let parts = encoded-Parts hasher hash message salt_len em_bits em hh e in
    let h = salted_hash hasher hash message e.salt in
    let ended = ap last parts.together ∙ last_end parts.masked h 188 in
    ground (arith, sym other ∙ ap (λ (o : Option ℕ). is_byte o 188) ended)

unused_bits-le : (b : ℕ) → 8 * div_ceil_8 b - b ≤ 7
unused_bits-le b = omega arith

encoded_accepted :
    (hasher : Hasher) (hash : HashAlg) (message : List ℕ) (salt_len em_bits : ℕ) (em : List ℕ)
    → IsPartsHasher hasher
    → output_len hash + salt_len + 2 ≤ div_ceil_8 em_bits
    → IsEncoded hasher hash message salt_len em_bits em
    → check_masked hasher hash message
        (take (div_ceil_8 em_bits - output_len hash - 1) em)
        (take (output_len hash) (drop (div_ceil_8 em_bits - output_len hash - 1) em))
        (8 * div_ceil_8 em_bits - em_bits)
        (div_ceil_8 em_bits - output_len hash - salt_len - 2)
      ≡ some true
encoded_accepted hasher hash message salt_len em_bits em hh room e =
    let parts = encoded-Parts hasher hash message salt_len em_bits em hh e in
    let h = salted_hash hasher hash message e.salt in
    let at = div_ceil_8 em_bits - output_len hash - 1 in
    let u = 8 * div_ceil_8 em_bits - em_bits in
    let n = div_ceil_8 em_bits - output_len hash - salt_len - 2 in
    let masked_size : at ≡ length parts.masked =
      omega (arith, parts.masked_size, e.salt_size, room) in
    let hash_size = hh.parts_size hash (zeros 8 ∷ hasher.digest hash message ∷ e.salt ∷ []) in
    let front : take at em ≡ parts.masked =
      ap (λ (k : ℕ). take k em) masked_size
      ∙ ap (λ (xs : List ℕ). take (length parts.masked) xs) parts.together
      ∙ take_all parts.masked (h ++ 188 ∷ []) in
    let middle : take (output_len hash) (drop at em) ≡ h =
      ap (λ (k : ℕ). take (output_len hash) (drop k em)) masked_size
      ∙ ap (λ (xs : List ℕ). take (output_len hash) (drop (length parts.masked) xs)) parts.together
      ∙ ap (λ (xs : List ℕ). take (output_len hash) xs) (drop_all parts.masked (h ++ 188 ∷ []))
      ∙ ap (λ (k : ℕ). take k (h ++ 188 ∷ [])) (sym hash_size)
      ∙ take_all h (188 ∷ []) in
    ap
      (λ (xs : List ℕ).
        check_masked hasher hash message xs (take (output_len hash) (drop at em)) u n)
      front
    ∙ ap (λ (xs : List ℕ). check_masked hasher hash message parts.masked xs u n) middle
    ∙ check_masked_complete hasher hash message parts.masked h e.salt u n hh e.salt_bytes
        (unused_bits-le em_bits) parts.masked_size parts.is_masked

ended_iff :
    (hasher : Hasher) (hash : HashAlg) (message : List ℕ) (salt_len em_bits : ℕ) (em : List ℕ)
    → IsPartsHasher hasher
    → AreBytes em
    → length em ≡ div_ceil_8 em_bits
    → output_len hash + salt_len + 2 ≤ div_ceil_8 em_bits
    → ltb (div_ceil_8 em_bits) (output_len hash + salt_len + 2) ≡ false
    → is_byte (last em) 188 ≡ true
    → (accepted : Bool) × (check_em hasher hash message salt_len em_bits em ≡ some accepted)
      × ((accepted ≡ true) ↔ IsEncoded hasher hash message salt_len em_bits em)
unfolding check_em
ended_iff hasher hash message salt_len em_bits em hh bytes size room enough ended =
    let em_len = div_ceil_8 em_bits in
    let at = em_len - output_len hash - 1 in
    let h = take (output_len hash) (drop at em) in
    let u = 8 * em_len - em_bits in
    let n = em_len - output_len hash - salt_len - 2 in
    let masked_size : length (take at em) ≡ n + 1 + salt_len =
      omega (arith, length-take at em (omega (arith, size)), size, room) in
    let checked =
      check_masked-Sound hasher hash message (take at em) h u n salt_len hh
        (take-AreBytes at em bytes) masked_size in
    (
      checked.0,
      rw (enough, ended) checked.1,
      (
        λ e.
            let salted = checked.2 e in
            record {
              room = room;
              salt = salted.0;
              salt_size = salted.1;
              salt_bytes = salted.2;
              encodes =
                  ap
                    (λ (s : ℕ).
                      emsa_with hasher hash message salted.0 u (em_len - output_len hash - s - 2))
                    salted.1
                  ∙ masked-emsa_with hasher hash message (take at em) h salted.0 u n
                      (omega (arith, masked_size, salted.1)) salted.3
                  ∙ ap some (
                      sym (
                        three_parts at (output_len hash) em 188 (omega (arith, size, room))
                          (is_byte-some (last em) 188 ended)));
            },
        λ e.
            some_same
              (sym checked.1 ∙ encoded_accepted hasher hash message salt_len em_bits em hh room e),
      ),
    )

pub check_em-IsEncoded :
    (hasher : Hasher) (hash : HashAlg) (message : List ℕ) (salt_len em_bits : ℕ) (em : List ℕ)
    → IsPartsHasher hasher
    → AreBytes em
    → length em ≡ div_ceil_8 em_bits
    → (accepted : Bool) × (check_em hasher hash message salt_len em_bits em ≡ some accepted)
      × ((accepted ≡ true) ↔ IsEncoded hasher hash message salt_len em_bits em)
unfolding check_em
check_em-IsEncoded hasher hash message salt_len em_bits em hh bytes size =
    let em_len = div_ceil_8 em_bits in
    let needed = output_len hash + salt_len + 2 in
    elim (Bool-cases (ltb em_len needed)) [
      | inl short ↦ (
        false,
        rw short refl,
        (λ e. absurd (ground (arith, e)), λ e. absurd (omega (tests, short, e.room))),
      )
      | inr enough ↦ elim (Bool-cases (is_byte (last em) 188)) [
        | inr other ↦ (
          false,
          rw (enough, other) refl,
          (
            λ e. absurd (ground (arith, e)),
            λ e. absurd (wrong_end hasher hash message salt_len em_bits em hh other e),
          ),
        )
        | inl ended ↦
            let room : needed ≤ em_len = ground arith in
            ended_iff hasher hash message salt_len em_bits em hh bytes size room enough ended
      ]
    ]
