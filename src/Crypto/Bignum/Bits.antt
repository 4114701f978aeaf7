-- ===== src/Crypto/Bignum/Bits.antt =====
-- `bits` and `bit`: the position of the highest set bit, and the binary digits of the number.
use native.Mathlib.Nat.{
  pow-suc, pow-succ', suc-add, zero-add, zero-div, mul_assoc, add-mul-div_left, div-div-eq-div-mul,
}
use mathlib.Core.Path.{◌≡⟨◌⟩◌, ◌∎}
use skarbiec.Prelude.{
  ℕ, zero, suc, ◌+◌, ◌-◌, ◌*◌, ◌/◌, ◌%◌, ◌^◌, ◌<◌, ◌≤◌, ◌≡◌, refl, List, [], ◌∷◌, arith, length,
  Option, some, none, sym, false, ◌==◌, ◌∙◌, ap,
}
use skarbiec.Crypto.Bignum.{Big, limb_base, bit_length, leading_zeros, last, bits, get_elem?, bit}
use skarbiec.Crypto.Bignum.Value.{
  value, value_of, AreWords, IsTrimmed, IsValid, value_of-high, limb_base_pow-pos,
}

pub pow_sum : (a b : ℕ) → 2 ^ (a + b) ≡ 2 ^ a * 2 ^ b
pow_sum zero b = ground (arith)
pow_sum (suc a) b =
    rw (suc-add a b, pow-succ' 2 (a + b), pow-succ' 2 a, pow_sum a b, mul_assoc 2 (2 ^ a) (2 ^ b))
      refl

bit_length-lt : (n x : ℕ) → x < 2 ^ n → x < 2 ^ bit_length n x
unfolding bit_length
bit_length-lt zero x h = h
bit_length-lt (suc n) x h =
    ground (arith, bit_length-lt n (x / 2), pow-suc 2 n, pow-suc 2 (bit_length n (x / 2)))

bit_length-zero : (n : ℕ) → bit_length n 0 ≡ 0
unfolding bit_length
bit_length-zero zero = refl
bit_length-zero (suc n) = refl

bit_length_half : (n x : ℕ) → x / 2 ≡ 0 → 2 ^ bit_length n (x / 2) ≡ 1
bit_length_half n x e = rw (e, bit_length-zero n) refl

bit_length-le_double : (n x : ℕ) → 0 < x → x < 2 ^ n → 2 ^ bit_length n x ≤ 2 * x
unfolding bit_length
bit_length-le_double zero x p h = omega arith
bit_length-le_double (suc n) x p h = ground (
  arith,
  bit_length-le_double n (x / 2),
  bit_length-zero n,
  bit_length_half n x,
  pow-suc 2 n,
  pow-suc 2 (bit_length n (x / 2)),
)

bit_length-le : (n x : ℕ) → bit_length n x ≤ n
unfolding bit_length
bit_length-le zero x = omega arith
bit_length-le (suc n) x = ground (arith, bit_length-le n (x / 2))

-- Trimmed limbs reach to the highest set bit of the last one.
top_bits : (xs : List ℕ) → ℕ
top_bits xs = elim (last xs) [ none ↦ 0 | some top ↦ length xs * 64 - leading_zeros top ]

top_bits-cons : (x y : ℕ) (ys : List ℕ) → top_bits (x ∷ y ∷ ys) ≡ 64 + top_bits (y ∷ ys)
unfolding top_bits last
top_bits-cons x y ys = ground arith

top_bits-lt : (xs : List ℕ) → AreWords xs → value_of xs < 2 ^ top_bits xs
unfolding top_bits last value_of
top_bits-lt [] h = omega arith
top_bits-lt (x ∷ []) h = ground (arith, bit_length-lt 64 x h.0, bit_length-le 64 x)
top_bits-lt (x ∷ y ∷ ys) h =
    rw (top_bits-cons x y ys, pow_sum 64 (top_bits (y ∷ ys)))
      (omega (arith, h.0, top_bits-lt (y ∷ ys) h.1))

top_bits-le_double :
    (xs : List ℕ) → AreWords xs → IsTrimmed xs → 0 < value_of xs → 2 ^ top_bits xs ≤ 2 * value_of xs
unfolding top_bits last value_of IsTrimmed
top_bits-le_double [] h t p = omega arith
top_bits-le_double (x ∷ []) h t p =
    ground (arith, bit_length-le_double 64 x t h.0, bit_length-le 64 x)
top_bits-le_double (x ∷ y ∷ ys) h t p =
    rw (top_bits-cons x y ys, pow_sum 64 (top_bits (y ∷ ys)))
      (omega (
        arith,
        top_bits-le_double (y ∷ ys) h.1 t
            (omega (arith, value_of-high y ys t, limb_base_pow-pos (length ys))),
      ))

pub value-lt_bits : (a : Big) → IsValid a → value a < 2 ^ bits a
unfolding bits top_bits
value-lt_bits a h = top_bits-lt a.limbs h.words

pub bits-le_double : (a : Big) → IsValid a → 0 < value a → 2 ^ bits a ≤ 2 * value a
unfolding bits top_bits
bits-le_double a h p = top_bits-le_double a.limbs h.words h.high p

-- The binary digit at `64 * q + r`, in the limb at `q`.
limb_bit : Option ℕ → ℕ → ℕ
limb_bit none r = 0
limb_bit (some limb) r = limb / 2 ^ r % 2

the_index : (q r : ℕ) → suc q * 64 + r ≡ 64 + (q * 64 + r)
the_index q r = omega arith

sixty_four : (r : ℕ) → r < 64 → 64 ≡ r + suc (63 - r)
sixty_four r h = omega arith

index_split : (i : ℕ) → i ≡ i / 64 * 64 + i % 64
index_split i = omega arith

limb_base_split : (r : ℕ) → r < 64 → limb_base ≡ 2 ^ r * (2 * 2 ^ (63 - r))
limb_base_split r h =
    ap (λ (k : ℕ). 2 ^ k) (sixty_four r h)
    ∙ pow_sum r (suc (63 - r))
    ∙ ap (λ (k : ℕ). 2 ^ r * k) (pow-succ' 2 (63 - r))

pub pow_two-pos : (n : ℕ) → 0 < 2 ^ n
pow_two-pos zero = omega arith
pow_two-pos (suc n) = omega (arith, pow-suc 2 n, pow_two-pos n)

low_limb : (x v r : ℕ) → r < 64 → (x + limb_base * v) / 2 ^ r % 2 ≡ x / 2 ^ r % 2
low_limb x v r h =
    (x + limb_base * v) / 2 ^ r % 2
    ≡⟨ ap (λ (b : ℕ). (x + b * v) / 2 ^ r % 2) (limb_base_split r h) ⟩
      (x + 2 ^ r * (2 * 2 ^ (63 - r)) * v) / 2 ^ r % 2
    ≡⟨ rw (mul_assoc (2 ^ r) (2 * 2 ^ (63 - r)) v, mul_assoc 2 (2 ^ (63 - r)) v) refl ⟩
      (x + 2 ^ r * (2 * (2 ^ (63 - r) * v))) / 2 ^ r % 2
    ≡⟨ ap (λ (k : ℕ). k % 2) (add-mul-div_left x (2 * (2 ^ (63 - r) * v)) (pow_two-pos r)) ⟩
      (x / 2 ^ r + 2 * (2 ^ (63 - r) * v)) % 2
    ≡⟨ omega arith ⟩ x / 2 ^ r % 2 ∎

high_limb : (x v n : ℕ) → x < limb_base → (x + limb_base * v) / 2 ^ (64 + n) ≡ v / 2 ^ n
high_limb x v n h =
    (x + limb_base * v) / 2 ^ (64 + n)
    ≡⟨ ap (λ (k : ℕ). (x + limb_base * v) / k) (pow_sum 64 n) ⟩
      (x + limb_base * v) / (limb_base * 2 ^ n)
    ≡⟨ sym (div-div-eq-div-mul (x + limb_base * v) limb_base (2 ^ n)) ⟩
      (x + limb_base * v) / limb_base / 2 ^ n
    ≡⟨ ap (λ (k : ℕ). k / 2 ^ n) (omega (arith, h)) ⟩ v / 2 ^ n ∎

value_of-limb_bit :
    (xs : List ℕ) (q r : ℕ)
    → AreWords xs
    → r < 64
    → value_of xs / 2 ^ (q * 64 + r) % 2 ≡ limb_bit (get_elem? xs q) r
unfolding value_of limb_bit get_elem?
value_of-limb_bit [] q r w h = rw (zero-div (2 ^ (q * 64 + r))) refl
value_of-limb_bit (x ∷ xs) zero r w h = rw (zero-add r) (low_limb x (value_of xs) r h)
value_of-limb_bit (x ∷ xs) (suc q) r w h =
    rw (the_index q r, high_limb x (value_of xs) (q * 64 + r) w.0) (value_of-limb_bit xs q r w.1 h)

bit_at :
    (a : Big) (i : ℕ)
    → IsValid a
    → value a / 2 ^ i % 2 ≡ limb_bit (get_elem? a.limbs (i / 64)) (i % 64)
bit_at a i h =
    ap (λ (k : ℕ). value a / 2 ^ k % 2) (index_split i)
    ∙ value_of-limb_bit a.limbs (i / 64) (i % 64) h.words (omega arith)

digit :
    (o : Option ℕ) (r : ℕ)
    → (elim o [ none ↦ false | some limb ↦ limb / 2 ^ r % 2 == 1 ]) ≡ (limb_bit o r == 1)
unfolding limb_bit
digit none r = refl
digit (some limb) r = refl

pub bit-digit : (a : Big) (i : ℕ) → IsValid a → bit a i ≡ (value a / 2 ^ i % 2 == 1)
unfolding bit limb_bit
bit-digit a i h =
    digit (get_elem? a.limbs (i / 64)) (i % 64) ∙ ap (λ (k : ℕ). k == 1) (sym (bit_at a i h))
