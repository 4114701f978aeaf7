-- ===== src/Crypto/Base64/RoundTrip.antt =====
-- What is encoded is decoded as the same bytes.
use skarbiec.Prelude.{
  ℕ, zero, suc, ◌+◌, ◌-◌, ◌*◌, ◌/◌, ◌%◌, ◌^◌, ◌<◌, Bool, true, false, ◌&&◌, ◌≡◌, refl, ◌∙◌, none,
  some, List, [], ◌∷◌, arith, leb, not, ◌==◌, ==_iff, if◌then◌else◌, All, Bool-cases, Option-cases,
  inl, inr, ok,
}
use skarbiec.Crypto.Base64.{
  alphabet, position, symbol, sextet, joined, base64_encode, decode_from, base64_decode, grown,
  is_space,
}

-- Whether a value's symbol is read as that value, and is neither the padding nor space.
abbrev is_read : ℕ → Bool
is_read v =
    elim (position (symbol v) 0 alphabet) [ none ↦ false | some w ↦ w == v ]
    && not (symbol v == b'=')
    && not (is_space (symbol v))

abbrev all_below : ℕ → Bool
all_below zero = true
all_below (suc n) = is_read n && all_below n

checked : all_below 64 ≡ true
unfolding position symbol
checked = refl

all_below-is_read : (n v : ℕ) → all_below n ≡ true → v < n → is_read v ≡ true
all_below-is_read zero v h lt = absurd (omega arith)
all_below-is_read (suc n) v h lt = elim (Bool-cases (v == n)) [
  | inl last ↦ let same : v ≡ n = (==_iff v n).0 last in rw same (ground (arith, h))
  | inr before ↦ all_below-is_read n v (ground (arith, h)) (ground (arith, before))
]

-- The state of the loop behind one more symbol.
abbrev next : ℕ → ℕ → ℕ
next accumulator v = accumulator * 64 % 2 ^ 32 + v

decode_from-symbol :
    (accumulator bits v : ℕ) (cs : List ℕ)
    → v < 64
    → decode_from accumulator bits (symbol v ∷ cs) ≡ (
        if leb 8 (bits + 6)
        then grown
            (next accumulator v / 2 ^ (bits + 6 - 8) % 256 ∷ [])
            (decode_from (next accumulator v) (bits + 6 - 8) cs)
        else decode_from (next accumulator v) (bits + 6) cs)
unfolding decode_from
decode_from-symbol accumulator bits v cs h =
    let read = all_below-is_read 64 v checked h in
    elim (Option-cases (position (symbol v) 0 alphabet)) [
      | inl unread ↦ absurd (ground (arith, read, unread))
      | inr (w, found) ↦
          let same : w ≡ v = ground (arith, read, found) in
          let plain : (symbol v == b'=') ≡ false = ground (arith, read) in
          let solid : is_space (symbol v) ≡ false = ground (arith, read) in
          rw (plain, solid, found, same) refl
    ]

-- Every byte is below 256.
abbrev pub IsByte : ℕ → Type 0
IsByte b = b < 256

-- The loop's state after the first two, three and four symbols of a group.
abbrev second_state : ℕ → ℕ → ℕ
second_state accumulator n = next (next accumulator (n / 2 ^ 18 % 64)) (n / 2 ^ 12 % 64)

abbrev third_state : ℕ → ℕ → ℕ
third_state accumulator n = next (second_state accumulator n) (n / 2 ^ 6 % 64)

abbrev fourth_state : ℕ → ℕ → ℕ
fourth_state accumulator n = next (third_state accumulator n) (n / 2 ^ 0 % 64)

module _ (accumulator a b c : ℕ) (ha : IsByte a) (hb : IsByte b) (hc : IsByte c) where
  first_byte : second_state accumulator (joined a b c) / 2 ^ 4 % 256 ≡ a
  first_byte = omega (arith, ha, hb, hc)

  second_byte : third_state accumulator (joined a b c) / 2 ^ 2 % 256 ≡ b
  second_byte = omega (arith, ha, hb, hc)

  third_byte : fourth_state accumulator (joined a b c) / 2 ^ 0 % 256 ≡ c
  third_byte = omega (arith, ha, hb, hc)

-- Two symbols give the first byte and leave four bits.
decode_from-two :
    (accumulator n : ℕ) (cs : List ℕ)
    → decode_from accumulator 0 (sextet n 18 ∷ sextet n 12 ∷ cs)
      ≡ grown
          (second_state accumulator n / 2 ^ 4 % 256 ∷ [])
          (decode_from (second_state accumulator n) 4 cs)
decode_from-two accumulator n cs =
    decode_from-symbol accumulator 0 (n / 2 ^ 18 % 64) (sextet n 12 ∷ cs) (omega arith)
    ∙ decode_from-symbol (next accumulator (n / 2 ^ 18 % 64)) 6 (n / 2 ^ 12 % 64) cs (omega arith)

decode_from-third :
    (accumulator n : ℕ) (cs : List ℕ)
    → decode_from (second_state accumulator n) 4 (sextet n 6 ∷ cs)
      ≡ grown
          (third_state accumulator n / 2 ^ 2 % 256 ∷ [])
          (decode_from (third_state accumulator n) 2 cs)
decode_from-third accumulator n cs =
    decode_from-symbol (second_state accumulator n) 4 (n / 2 ^ 6 % 64) cs (omega arith)

decode_from-fourth :
    (accumulator n : ℕ) (cs : List ℕ)
    → decode_from (third_state accumulator n) 2 (sextet n 0 ∷ cs)
      ≡ grown
          (fourth_state accumulator n / 2 ^ 0 % 256 ∷ [])
          (decode_from (fourth_state accumulator n) 0 cs)
decode_from-fourth accumulator n cs =
    decode_from-symbol (third_state accumulator n) 2 (n / 2 ^ 0 % 64) cs (omega arith)

decode_from-padding :
    (accumulator bits : ℕ) (cs : List ℕ) → decode_from accumulator bits (b'=' ∷ cs) ≡ ok []
unfolding decode_from
decode_from-padding accumulator bits cs = refl

decode_from-encode :
    (accumulator : ℕ) (bs : List ℕ)
    → All IsByte bs
    → decode_from accumulator 0 (base64_encode bs) ≡ ok bs
unfolding base64_encode
decode_from-encode accumulator [] bytes = unfold decode_from in refl
decode_from-encode accumulator (a ∷ []) (ha, bytes) =
    rw
      (
        decode_from-two accumulator (joined a 0 0) (b'=' ∷ b'=' ∷ []),
        decode_from-padding,
        first_byte accumulator a 0 0 ha (omega arith) (omega arith),
      )
      refl
decode_from-encode accumulator (a ∷ b ∷ []) (ha, (hb, bytes)) =
    rw
      (
        decode_from-two accumulator (joined a b 0) (sextet (joined a b 0) 6 ∷ b'=' ∷ []),
        decode_from-third accumulator (joined a b 0) (b'=' ∷ []),
        decode_from-padding,
        first_byte accumulator a b 0 ha hb (omega arith),
        second_byte accumulator a b 0 ha hb (omega arith),
      )
      refl
decode_from-encode accumulator (a ∷ b ∷ c ∷ bs) (ha, (hb, (hc, bytes))) =
    let n = joined a b c in
    let more = base64_encode bs in
    rw
      (
        decode_from-two accumulator n (sextet n 6 ∷ sextet n 0 ∷ more),
        decode_from-third accumulator n (sextet n 0 ∷ more),
        decode_from-fourth accumulator n more,
        decode_from-encode (fourth_state accumulator n) bs bytes,
        first_byte accumulator a b c ha hb hc,
        second_byte accumulator a b c ha hb hc,
        third_byte accumulator a b c ha hb hc,
      )
      refl

-- Bytes that are encoded in radix 64 are decoded as the same bytes.
pub base64_decode-base64_encode :
    (bs : List ℕ) → All IsByte bs → base64_decode (base64_encode bs) ≡ ok bs
unfolding base64_decode
base64_decode-base64_encode bs bytes = decode_from-encode 0 bs bytes
