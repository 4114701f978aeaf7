-- ===== src/Crypto/Rsa/Pss/Unused.antt =====
-- The unused high bits: the first byte of the masked block is cut to the bits that the modulus has.
use native.Mathlib.Nat.{
  mod-lt, mod-le, mod-eq_of_lt, div-eq_of_lt, div-lt_iff_lt-mul, pow-succ', mod-add-div,
  add-mul-mod_self_left, mul_assoc,
}
use mathlib.Core.Path.{subst}
use skarbiec.Prelude.{
  ℕ, zero, suc, ◌+◌, ◌-◌, ◌*◌, ◌/◌, ◌%◌, ◌^◌, ◌<◌, ◌≤◌, ◌≡◌, refl, ◌∙◌, sym, ap, Bool, false, none,
  some, List, [], ◌∷◌, ◌==◌, not, arith, length,
}
use skarbiec.Crypto.Bignum.Bits.{pow_two-pos}
use skarbiec.Crypto.Bignum.Bytes.Value.{AreBytes}
use skarbiec.Crypto.Rsa.Pss.{xor_bits, xor_zip, high_bits_set, clear_high}
use skarbiec.Crypto.Rsa.Pss.Mask.{xor_bits_twice, xor_zip_twice}

mod_double : (x r p : ℕ) → x < 2 → 0 < p → (x + 2 * r) % (2 * p) ≡ x + 2 * (r % p)
mod_double x r p hx hp =
    ap (λ (n : ℕ). (x + 2 * n) % (2 * p)) (sym (mod-add-div r p))
    ∙ ap (λ (n : ℕ). n % (2 * p))
        (regrouped x (r % p) (p * (r / p)) (2 * p * (r / p)) (mul_assoc 2 p (r / p)))
    ∙ add-mul-mod_self_left (x + 2 * (r % p)) (2 * p) (r / p)
    ∙ mod-eq_of_lt (omega (arith, hx, mod-lt r hp))
  where
    regrouped : (x s t v : ℕ) → v ≡ 2 * t → x + 2 * (s + t) ≡ x + 2 * s + v
    regrouped x s t v e = omega (arith, e)

-- The low bits of what is masked are the low bits, masked.
xor_bits-mod : (k n a b : ℕ) → k ≤ n → xor_bits n a b % 2 ^ k ≡ xor_bits k a b
unfolding xor_bits
xor_bits-mod zero n a b h = omega arith
xor_bits-mod (suc k) zero a b h = absurd (omega arith)
xor_bits-mod (suc k) (suc n) a b h =
    ap (λ (p : ℕ). xor_bits (suc n) a b % p) (pow-succ' 2 k)
    ∙ mod_double ((a % 2 + b % 2) % 2) (xor_bits n (a / 2) (b / 2)) (2 ^ k) (omega arith)
        (pow_two-pos k)
    ∙ ap (λ (r : ℕ). (a % 2 + b % 2) % 2 + 2 * r)
        (xor_bits-mod k n (a / 2) (b / 2) (omega (arith, h)))

-- A masked byte that is cut to its low bits gives the byte back, if it had no others.
xor_cut_twice : (k m b : ℕ) → k ≤ 8 → b < 2 ^ k → xor_bits 8 m (xor_bits 8 m b % 2 ^ k) % 2 ^ k ≡ b
xor_cut_twice k m b hk hb =
    xor_bits-mod k 8 m (xor_bits 8 m b % 2 ^ k) hk
    ∙ ap (xor_bits k m) (xor_bits-mod k 8 m b hk)
    ∙ xor_bits_twice k m b hb

below_cut : (b p : ℕ) → 0 < p → not (b / p == 0) ≡ false → b < p
below_cut b p hp e =
    omega (arith, (div-lt_iff_lt-mul {k = p} {x = b} {y = 1} hp).0 (ground (arith, e)))

pub some_same {ℓ} : {A : Type ℓ} {x y : A} → some x ≡ some y → x ≡ y
some_same {x = x} e = ap (λ o. elim o [ none ↦ x | some z ↦ z ]) e

none-some {ℓ} : {A : Type ℓ} {x : A} → ¬ (none ≡ some x)
none-some e = absurd (ground (arith, e))

pub clear_high_twice :
    (u : ℕ) (mask bs out : List ℕ)
    → length mask ≡ length bs
    → AreBytes bs
    → high_bits_set u bs ≡ some false
    → clear_high u (xor_zip mask bs) ≡ some out
    → clear_high u (xor_zip mask out) ≡ some bs
unfolding high_bits_set clear_high xor_zip
clear_high_twice zero mask bs out n h low e =
    subst (λ (o : List ℕ). some (xor_zip mask o) ≡ some bs) (some_same e)
      (ap some (xor_zip_twice mask bs n h))
clear_high_twice (suc u) [] [] out n h low e = absurd (none-some e)
clear_high_twice (suc u) (m ∷ mask) [] out n h low e = absurd (omega (arith, n))
clear_high_twice (suc u) [] (b ∷ bs) out n h low e = absurd (omega (arith, n))
clear_high_twice (suc u) (m ∷ mask) (b ∷ bs) out n h low e =
    let below = below_cut b (2 ^ (8 - suc u)) (pow_two-pos (8 - suc u)) (some_same low) in
    subst (λ (o : List ℕ). clear_high (suc u) (xor_zip (m ∷ mask) o) ≡ some (b ∷ bs)) (some_same e)
      (rw
        (
          xor_cut_twice (8 - suc u) m b (omega arith) below,
          xor_zip_twice mask bs (omega (arith, n)) h.1,
        )
        refl)

-- What is cut has no high bits.
pub clear_high-ends :
    (u : ℕ) (bs : List ℕ)
    → 0 < length bs
    → AreBytes bs
    → (out : List ℕ) × (clear_high u bs ≡ some out)
      × (length out ≡ length bs)
      × AreBytes out
      × (high_bits_set u out ≡ some false)
unfolding high_bits_set clear_high
clear_high-ends zero bs p h = (bs, refl, refl, h, refl)
clear_high-ends (suc u) [] p h = absurd (omega (arith, p))
clear_high-ends (suc u) (b ∷ bs) p h =
    let cut = mod-lt b {m = 2 ^ (8 - suc u)} (pow_two-pos (8 - suc u)) in
    (
      b % 2 ^ (8 - suc u) ∷ bs,
      refl,
      refl,
      (omega (arith, h.0, mod-le b (2 ^ (8 - suc u))), h.1),
      rw (div-eq_of_lt cut) refl,
    )

pub high_bits_set-ends :
    (u : ℕ) (bs : List ℕ) → 0 < length bs → (high : Bool) × (high_bits_set u bs ≡ some high)
unfolding high_bits_set
high_bits_set-ends zero bs p = (false, refl)
high_bits_set-ends (suc u) [] p = absurd (omega (arith, p))
high_bits_set-ends (suc u) (b ∷ bs) p = (not (b / 2 ^ (8 - suc u) == 0), refl)
