-- ===== src/Crypto/Rsa/Pss/Mask.antt =====
-- The mask: MGF1 gives the length that was asked for, and a mask that is laid twice is lifted.
use native.Mathlib.Nat.{pow-suc}
use skarbiec.Prelude.{
  ℕ, zero, suc, ◌+◌, ◌*◌, ◌/◌, ◌%◌, ◌^◌, ◌<◌, ◌≤◌, ◌≡◌, refl, some, List, [], ◌∷◌, ◌++◌, ltb, arith,
  length, length-append, take, inl, inr, Bool-cases,
}
use skarbiec.Crypto.Bignum.Bytes.Value.{AreBytes}
use skarbiec.Crypto.Rsa.{HashAlg, sha256, sha384, sha512, Hasher, output_len}
use skarbiec.Crypto.Rsa.Pss.{xor_bits, xor_zip, mgf1_loop, mgf1, counter_bytes}

-- The digests of several slices have the length that the algorithm states.
pub record IsPartsHasher (hasher : Hasher) : Type 0 where
  pub parts_size :
      (hash : HashAlg) (parts : List (List ℕ))
      → length (hasher.digest_parts hash parts) ≡ output_len hash
  pub parts_bytes :
      (hash : HashAlg) (parts : List (List ℕ)) → AreBytes (hasher.digest_parts hash parts)

xor_bits-lt : (n a b : ℕ) → xor_bits n a b < 2 ^ n
unfolding xor_bits
xor_bits-lt zero a b = omega arith
xor_bits-lt (suc n) a b = omega (arith, xor_bits-lt n (a / 2) (b / 2), pow-suc 2 n)

low_bit : (x y r : ℕ) → x < 2 → ((x + 2 * r) % 2 ≡ x) × ((x + 2 * r) / 2 ≡ r)
low_bit x y r h = (omega arith, omega arith)

-- What is masked twice is what it was.
pub xor_bits_twice : (n a b : ℕ) → b < 2 ^ n → xor_bits n a (xor_bits n a b) ≡ b
unfolding xor_bits
xor_bits_twice zero a b h = omega arith
xor_bits_twice (suc n) a b h =
    let rest = xor_bits n (a / 2) (b / 2) in
    let parts = low_bit ((a % 2 + b % 2) % 2) 0 rest (omega arith) in
    rw (parts.0, parts.1, xor_bits_twice n (a / 2) (b / 2) (omega (arith, h, pow-suc 2 n)))
      (omega arith)

pub length-xor_zip : (bs ms : List ℕ) → length bs ≡ length ms → length (xor_zip bs ms) ≡ length bs
unfolding xor_zip
length-xor_zip [] ms e = refl
length-xor_zip (b ∷ bs) [] e = refl
length-xor_zip (b ∷ bs) (m ∷ ms) e = omega (arith, length-xor_zip bs ms (omega (arith, e)))

pub xor_zip-AreBytes : (bs ms : List ℕ) → length bs ≡ length ms → AreBytes (xor_zip bs ms)
unfolding xor_zip
xor_zip-AreBytes [] ms e = tt
xor_zip-AreBytes (b ∷ bs) [] e = absurd (omega (arith, e))
xor_zip-AreBytes (b ∷ bs) (m ∷ ms) e =
    (omega (arith, xor_bits-lt 8 b m), xor_zip-AreBytes bs ms (omega (arith, e)))

pub xor_zip_twice :
    (mask bs : List ℕ) → length mask ≡ length bs → AreBytes bs → xor_zip mask (xor_zip mask bs) ≡ bs
unfolding xor_zip
xor_zip_twice [] [] e h = refl
xor_zip_twice [] (b ∷ bs) e h = absurd (omega (arith, e))
xor_zip_twice (m ∷ mask) [] e h = absurd (omega (arith, e))
xor_zip_twice (m ∷ mask) (b ∷ bs) e h =
    rw (xor_bits_twice 8 m b (omega (arith, h.0)), xor_zip_twice mask bs (omega (arith, e)) h.1)
      refl

output_len-pos : (hash : HashAlg) → 0 < output_len hash
output_len-pos sha256 = omega arith
output_len-pos sha384 = omega arith
output_len-pos sha512 = omega arith

-- The loop ends: the fuel and the bytes there are make up the length.
mgf1_loop-ends :
    (hasher : Hasher) (hash : HashAlg) (seed : List ℕ) (size fuel counter : ℕ) (out : List ℕ)
    → IsPartsHasher hasher
    → size ≤ length out + fuel
    → (mask : List ℕ) × (mgf1_loop hasher hash seed size fuel counter out ≡ some mask)
      × (size ≤ length mask)
unfolding mgf1_loop
mgf1_loop-ends hasher hash seed size zero counter out h enough =
    (out, ground arith, omega (arith, enough))
mgf1_loop-ends hasher hash seed size (suc fuel) counter out h enough =
    let block = hasher.digest_parts hash (seed ∷ counter_bytes counter ∷ []) in
    elim (Bool-cases (ltb (length out) size)) [
      | inl more ↦
          let rest =
            mgf1_loop-ends hasher hash seed size fuel ((counter + 1) % 2 ^ 32) (out ++ block) h (
              omega (
                arith,
                enough,
                length-append out block,
                h.parts_size hash (seed ∷ counter_bytes counter ∷ []),
                output_len-pos hash,
              )) in
          (rest.0, rw more rest.1, rest.2)
      | inr done ↦ (out, rw done refl, ground (arith, done))
    ]

pub length-take : (n : ℕ) (xs : List ℕ) → n ≤ length xs → length (take n xs) ≡ n
length-take zero xs h = refl
length-take (suc n) [] h = absurd (omega (arith, h))
length-take (suc n) (x ∷ xs) h = omega (arith, length-take n xs (omega (arith, h)))

pub mgf1-ends :
    (hasher : Hasher) (hash : HashAlg) (seed : List ℕ) (size : ℕ)
    → IsPartsHasher hasher
    → (mask : List ℕ) × (mgf1 hasher hash seed size ≡ some mask) × (length mask ≡ size)
unfolding mgf1
mgf1-ends hasher hash seed size h =
    let loop = mgf1_loop-ends hasher hash seed size size 0 [] h (omega arith) in
    (take size loop.0, rw loop.1 refl, length-take size loop.0 loop.2)
