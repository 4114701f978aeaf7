-- ===== src/Crypto/Bignum/Remainder.antt =====
-- `rem`, by shift and subtract: after each pass the remainder is that of the bits read so far.
use native.Mathlib.Nat.{
  mul_left_comm, pow-suc, div-div-eq-div-mul, mul-add-mod_self_left, mod-eq_of_lt, mod-eq-sub-mod,
  mod-lt, zero-mod, div-eq_of_lt, div-add-mod,
}
use skarbiec.Prelude.{
  ℕ, zero, suc, ◌+◌, ◌-◌, ◌*◌, ◌/◌, ◌%◌, ◌^◌, ◌<◌, ◌≤◌, ◌≡◌, refl, List, [], ◌∷◌, arith, some, sym,
  Bool-cases, inl, inr, false, tests, ltb, ◌∙◌, ap, if◌then◌else◌,
}
use skarbiec.Crypto.Bignum.{
  Big, shl_limbs, set_low, rem_step, rem_loop, rem, is_zero, is_less, cmp, bit, bits, zero_big,
  checked_sub,
}
use skarbiec.Crypto.Bignum.Order.{cmp-value}
use skarbiec.Crypto.Bignum.Sum.{checked_sub-Returns}
use skarbiec.Crypto.Bignum.Bits.{bit-digit, value-lt_bits}
use skarbiec.Crypto.Bignum.Value.{
  value, value_of, AreWords, IsTrimmed, IsValid, Returns, Returns-eq, is_zero_iff, zero_big-IsValid,
}

value_of-shl_limbs :
    (xs : List ℕ) (c : ℕ) → AreWords xs → c ≤ 1 → value_of (shl_limbs xs c) ≡ 2 * value_of xs + c
unfolding value_of shl_limbs
value_of-shl_limbs [] c h hc = ground arith
value_of-shl_limbs (x ∷ xs) c h hc =
    omega (arith, h.0, value_of-shl_limbs xs (x / 2 ^ 63) h.1 (omega (arith, h.0)))

shl_limbs-AreWords : (xs : List ℕ) (c : ℕ) → AreWords xs → c ≤ 1 → AreWords (shl_limbs xs c)
unfolding shl_limbs
shl_limbs-AreWords [] c h hc = ground arith
shl_limbs-AreWords (x ∷ xs) c h hc =
    (omega (arith, h.0), shl_limbs-AreWords xs (x / 2 ^ 63) h.1 (omega (arith, h.0)))

shl_limbs-IsTrimmed :
    (x : ℕ) (xs : List ℕ) (c : ℕ)
    → AreWords (x ∷ xs)
    → IsTrimmed (x ∷ xs)
    → IsTrimmed (shl_limbs (x ∷ xs) c)
unfolding shl_limbs IsTrimmed
shl_limbs-IsTrimmed x [] c h t = elim (Bool-cases (ltb 0 (x / 2 ^ 63))) [
  | inl e ↦ rw e (ground arith)
  | inr e ↦ rw e (ground arith)
]
shl_limbs-IsTrimmed x (y ∷ ys) c h t = shl_limbs-IsTrimmed y ys (x / 2 ^ 63) h.1 t

-- One shift keeps a number valid.
shl-IsValid : (a : Big) → IsValid a → IsValid (record { limbs = shl_limbs a.limbs 0 })
unfolding shl_limbs IsTrimmed
shl-IsValid a h = record {
  words = shl_limbs-AreWords a.limbs 0 h.words (omega arith);
  high = shl_high a.limbs h.words h.high;
}
  where
    shl_high : (xs : List ℕ) → AreWords xs → IsTrimmed xs → IsTrimmed (shl_limbs xs 0)
    shl_high [] w t = tt
    shl_high (x ∷ xs) w t = shl_limbs-IsTrimmed x xs 0 w t

value_of-set_low : (xs : List ℕ) → value_of (set_low xs) ≡ value_of xs / 2 * 2 + 1
unfolding value_of set_low
value_of-set_low [] = omega arith
value_of-set_low (x ∷ xs) = omega arith

set_low-IsValid :
    (xs : List ℕ) → IsValid (record { limbs = xs }) → IsValid (record { limbs = set_low xs })
unfolding set_low IsTrimmed
set_low-IsValid [] h = record { words = (omega arith, tt); high = omega arith }
set_low-IsValid (x ∷ []) h = record { words = (omega (arith, h.words.0), tt); high = omega arith }
set_low-IsValid (x ∷ y ∷ ys) h = record {
  words = (omega (arith, h.words.0), h.words.1);
  high = h.high;
}

whole_part : (q b m : ℕ) → 2 * q + b ≡ m * (2 * (q / m)) + (2 * (q % m) + b)
whole_part q b m = omega (arith, div-add-mod q m, mul_left_comm m 2 (q / m))

halved : (a i : ℕ) → a / 2 ^ suc i ≡ a / 2 ^ i / 2
halved a i = ap (λ (k : ℕ). a / k) (pow-suc 2 i) ∙ sym (div-div-eq-div-mul a (2 ^ i) 2)

-- Twice a remainder and one more digit.
next_digit : (q b m : ℕ) → (2 * (q % m) + b) % m ≡ (2 * q + b) % m
next_digit q b m = sym (
    ap (λ (k : ℕ). k % m) (whole_part q b m)
    ∙ mul-add-mod_self_left m (2 * (q / m)) (2 * (q % m) + b))

-- The number without its lowest digits, with one more of them.
pub drop_digit : (a i : ℕ) → a / 2 ^ i ≡ 2 * (a / 2 ^ suc i) + a / 2 ^ i % 2
drop_digit a i = omega (arith, halved a i)

-- What one pass adds to the remainder before it reduces.
shifted_in :
    (a : Big) (i : ℕ) (r : Big)
    → IsValid a
    → IsValid r
    → IsValid
        (record { limbs = if bit a i then set_low (shl_limbs r.limbs 0) else shl_limbs r.limbs 0 })
shifted_in a i r ha hr = elim (Bool-cases (bit a i)) [
  | inl e ↦ rw e (set_low-IsValid _ (shl-IsValid r hr))
  | inr e ↦ rw e (shl-IsValid r hr)
]

value-shifted_in :
    (a : Big) (i : ℕ) (r : Big)
    → IsValid a
    → IsValid r
    → value_of (if bit a i then set_low (shl_limbs r.limbs 0) else shl_limbs r.limbs 0)
      ≡ 2 * value r + value a / 2 ^ i % 2
value-shifted_in a i r ha hr = ground (
  arith,
  bit-digit a i ha,
  value_of-set_low (shl_limbs r.limbs 0),
  value_of-shl_limbs r.limbs 0 hr.words (omega arith),
)

-- A number below twice the modulus is reduced by one subtraction.
sub-eq-mod : (n m : ℕ) → m ≤ n → n < 2 * m → n - m ≡ n % m
sub-eq-mod n m h lt =
    grind (arith, mod-eq-sub-mod h, mod-eq_of_lt {n = n - m} {m = m} (omega arith))

reduced :
    (low m : Big)
    → IsValid low
    → IsValid m
    → value low < 2 * value m
    → Returns (if is_less (cmp low m) then some low else checked_sub low m) (value low % value m)
reduced low m hl hm h = elim (Bool-cases (ltb (value low) (value m))) [
  | inl e ↦
      rw (cmp-value low m hl hm, e)
        record {
          result = low;
          returned = refl;
          valid = hl;
          equals = sym (mod-eq_of_lt (omega tests));
        }
  | inr e ↦
      rw (cmp-value low m hl hm, e)
        (Returns-eq (sub-eq-mod (value low) (value m) (ground arith) h)
          (checked_sub-Returns low m hl hm (ground arith)))
]

rem_step-Returns :
    (a m : Big) (i : ℕ) (r : Big)
    → IsValid a
    → IsValid m
    → IsValid r
    → 0 < value m
    → value r ≡ value a / 2 ^ suc i % value m
    → Returns (rem_step a m i r) (value a / 2 ^ i % value m)
unfolding rem_step
rem_step-Returns a m i r ha hm hr p e =
    Returns-eq
      (ap (λ (k : ℕ). k % value m) (value-shifted_in a i r ha hr)
        ∙ ap (λ (k : ℕ). (2 * k + value a / 2 ^ i % 2) % value m) e
        ∙ next_digit (value a / 2 ^ suc i) (value a / 2 ^ i % 2) (value m)
        ∙ ap (λ (k : ℕ). k % value m) (sym (drop_digit (value a) i)))
      (reduced _ m (shifted_in a i r ha hr) hm
        (omega (arith, value-shifted_in a i r ha hr, e, mod-lt (value a / 2 ^ suc i) p)))

rem_loop-Returns :
    (a m : Big) (n : ℕ) (r : Big)
    → IsValid a
    → IsValid m
    → IsValid r
    → 0 < value m
    → value r ≡ value a / 2 ^ n % value m
    → Returns (rem_loop a m n r) (value a % value m)
unfolding rem_loop
rem_loop-Returns a m zero r ha hm hr p e = record {
  result = r;
  returned = refl;
  valid = hr;
  equals = e ∙ ap (λ (k : ℕ). k % value m) (omega arith);
}
rem_loop-Returns a m (suc i) r ha hm hr p e =
    let step = rem_step-Returns a m i r ha hm hr p e in
    rw step.returned (rem_loop-Returns a m i step.result ha hm step.valid p step.equals)

-- Above the highest set bit there is nothing.
no_digits : (a : Big) (m : ℕ) → IsValid a → value zero_big ≡ value a / 2 ^ bits a % m
unfolding value_of
no_digits a m h = rw (div-eq_of_lt (value-lt_bits a h), zero-mod m) refl

not_zero : (m : Big) → IsValid m → 0 < value m → is_zero m ≡ false
not_zero m h p = ground (arith, is_zero_iff m h)

pub rem-Returns :
    (a m : Big) → IsValid a → IsValid m → 0 < value m → Returns (rem a m) (value a % value m)
unfolding rem
rem-Returns a m ha hm p = elim (Bool-cases (ltb (value a) (value m))) [
  | inl e ↦
      rw (not_zero m hm p, cmp-value a m ha hm, e)
        record {
          result = a;
          returned = refl;
          valid = ha;
          equals = sym (mod-eq_of_lt (omega tests));
        }
  | inr e ↦
      rw (not_zero m hm p, cmp-value a m ha hm, e)
        (rem_loop-Returns a m (bits a) zero_big ha hm zero_big-IsValid p (no_digits a (value m) ha))
]
