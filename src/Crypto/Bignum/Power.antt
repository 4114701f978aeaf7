-- ===== src/Crypto/Bignum/Power.antt =====
-- The modular operations built on `rem`: products, sums, differences, and powers from the high bit
-- of the exponent down.
use native.Mathlib.Nat.{pow-zero, div-eq_of_lt, mod-eq_of_lt}
use skarbiec.Prelude.{
  ℕ, zero, suc, ◌+◌, ◌-◌, ◌*◌, ◌/◌, ◌%◌, ◌^◌, ◌<◌, ◌≡◌, ◌≢◌, refl, [], ◌∷◌, arith, some, sym,
  Bool-cases, inl, inr, false, ◌∙◌, ap, ltb, tests,
}
use skarbiec.Crypto.Bignum.{
  Big, limb_base, add, mod_mul, mod_add, mod_sub, pow_loop, mod_pow, mod_inverse_prime, from_u64,
  bit, bits, is_zero,
}
use skarbiec.Crypto.Bignum.Residue.{
  wrapped_up, mod-pow, squared, multiplied, nonzero_residue, fermat_product,
}
use skarbiec.Crypto.Bignum.Sum.{value-add, add-IsValid, checked_sub-Returns, checked_sub_less}
use skarbiec.Crypto.Bignum.Product.{mul-Returns}
use skarbiec.Crypto.Bignum.Remainder.{rem-Returns, drop_digit}
use skarbiec.Crypto.Bignum.Bits.{bit-digit, value-lt_bits}
use skarbiec.Crypto.Bignum.Value.{
  value, value_of, IsValid, Returns, Returns-eq, trimmed-IsValid, value_of-trim, is_zero_iff,
}

pub mod_mul-Returns :
    (a b m : Big)
    → IsValid a
    → IsValid b
    → IsValid m
    → 0 < value m
    → Returns (mod_mul a b m) (value a * value b % value m)
unfolding mod_mul
mod_mul-Returns a b m ha hb hm p =
    let product = mul-Returns a b ha hb in
    rw product.returned (
      Returns-eq (ap (λ (k : ℕ). k % value m) product.equals)
        (rem-Returns product.result m product.valid hm p))

pub mod_add-Returns :
    (a b m : Big)
    → IsValid a
    → IsValid b
    → IsValid m
    → 0 < value m
    → Returns (mod_add a b m) ((value a + value b) % value m)
unfolding mod_add
mod_add-Returns a b m ha hb hm p =
    Returns-eq (ap (λ (k : ℕ). k % value m) (value-add a b ha hb))
      (rem-Returns (add a b) m (add-IsValid a b) hm p)

-- The difference of two reduced numbers, modulo `m`.
pub mod_sub-Returns :
    (a b m : Big)
    → IsValid a
    → IsValid b
    → IsValid m
    → value a < value m
    → value b < value m
    → Returns (mod_sub a b m) ((value a + value m - value b) % value m)
unfolding mod_sub
mod_sub-Returns a b m ha hb hm la lb = elim (Bool-cases (ltb (value a) (value b))) [
  | inl less ↦
      rw (mod_sub, checked_sub_less a b ha hb (omega tests))
        (Returns-eq
          (ap (λ (k : ℕ). k - value b) (value-add a m ha hm)
            ∙ sym (mod-eq_of_lt (omega (tests, less, lb))))
          (checked_sub-Returns (add a m) b (add-IsValid a m) hb
            (omega (arith, value-add a m ha hm))))
  | inr enough ↦
      let difference = checked_sub-Returns a b ha hb (ground arith) in
      rw (mod_sub, difference.returned)
        (record {
          result = difference.result;
          returned = refl;
          valid = difference.valid;
          equals = difference.equals ∙ wrapped_up (value a) (value b) (value m) (ground arith) la;
        })
]

pow_loop-Returns :
    (b e m : Big) (n : ℕ) (r : Big)
    → IsValid b
    → IsValid e
    → IsValid m
    → IsValid r
    → 0 < value m
    → value r ≡ value b ^ (value e / 2 ^ n) % value m
    → Returns (pow_loop b e m n r) (value b ^ value e % value m)
unfolding pow_loop
pow_loop-Returns b e m zero r hb he hm hr p h = record {
  result = r;
  returned = refl;
  valid = hr;
  equals = h ∙ ap (λ (k : ℕ). value b ^ k % value m) (omega arith);
}
pow_loop-Returns b e m (suc i) r hb he hm hr p h =
    let square =
      Returns-eq
        (ap (λ (k : ℕ). k * k % value m) h ∙ squared (value b) (value e / 2 ^ suc i) (value m))
        (mod_mul-Returns r r m hr hr hm p) in
    elim (Bool-cases (bit e i)) [
      | inl set ↦
          let next =
            Returns-eq
              (ap (λ (k : ℕ). k * value b % value m) square.equals
                ∙ multiplied (value b) (2 * (value e / 2 ^ suc i)) (value m)
                ∙ ap (λ (k : ℕ). value b ^ k % value m)
                    (ground (arith, bit-digit e i he, drop_digit (value e) i)))
              (mod_mul-Returns square.result b m square.valid hb hm p) in
          rw (square.returned, set, next.returned)
            (pow_loop-Returns b e m i next.result hb he hm next.valid p next.equals)
      | inr clear ↦
          rw (square.returned, clear)
            (pow_loop-Returns b e m i square.result hb he hm square.valid p (
              square.equals
              ∙ ap (λ (k : ℕ). value b ^ k % value m)
                  (ground (arith, bit-digit e i he, drop_digit (value e) i))))
    ]

from_u64-IsValid : (n : ℕ) → n < limb_base → IsValid (from_u64 n)
from_u64-IsValid n h = trimmed-IsValid (n ∷ []) (h, tt)

value-from_u64 : (n : ℕ) → value (from_u64 n) ≡ n
unfolding value_of
value-from_u64 n = omega (arith, value_of-trim (n ∷ []))

pub mod_pow-Returns :
    (a e m : Big)
    → IsValid a
    → IsValid e
    → IsValid m
    → 0 < value m
    → Returns (mod_pow a e m) (value a ^ value e % value m)
unfolding mod_pow
mod_pow-Returns a e m ha he hm p =
    let base = rem-Returns a m ha hm p in
    let one = rem-Returns (from_u64 1) m (from_u64-IsValid 1 (omega arith)) hm p in
    rw (base.returned, one.returned)
      (Returns-eq
        (ap (λ (k : ℕ). k ^ value e % value m) base.equals ∙ mod-pow (value a) (value e) (value m))
        (pow_loop-Returns base.result e m (bits e) one.result base.valid he hm one.valid p (
          one.equals
          ∙ ap (λ (k : ℕ). k % value m) (value-from_u64 1)
          ∙ sym (
              ap (λ (k : ℕ). value base.result ^ k % value m) (div-eq_of_lt (value-lt_bits e he))
              ∙ ap (λ (k : ℕ). k % value m) (pow-zero (value base.result))))))

ne_zero : (a : Big) → IsValid a → value a ≢ 0 → is_zero a ≡ false
ne_zero a h n = elim (Bool-cases (is_zero a)) [
  | inl z ↦ absurd (n ((is_zero_iff a h).0 z))
  | inr e ↦ e
]

-- The inverse, where the prime's Fermat congruence holds of `a`.
pub mod_inverse_prime-Inverse :
    (a m : Big)
    → IsValid a
    → IsValid m
    → 1 < value m
    → value a ^ (value m - 1) % value m ≡ 1
    → (b : Big) × (mod_inverse_prime a m ≡ some (some b)) × (value a * value b % value m ≡ 1)
unfolding mod_inverse_prime
mod_inverse_prime-Inverse a m ha hm p fermat =
    let base = rem-Returns a m ha hm (omega arith) in
    let two = from_u64-IsValid 2 (omega arith) in
    let exponent = checked_sub-Returns m (from_u64 2) hm two (omega (arith, value-from_u64 2)) in
    let inverse =
      mod_pow-Returns base.result exponent.result m base.valid exponent.valid hm (omega arith) in
    let nonzero =
      ne_zero base.result base.valid
        (λ z. nonzero_residue (value a) (value m) p fermat (sym base.equals ∙ z)) in
    (
      inverse.result,
      rw (base.returned, nonzero, exponent.returned, inverse.returned) refl,
      fermat_product (value a) (value inverse.result) (value m) p (
            inverse.equals
            ∙ ap (λ (k : ℕ). k ^ value exponent.result % value m) base.equals
            ∙ ap (λ (k : ℕ). (value a % value m) ^ k % value m)
                (exponent.equals ∙ ap (λ (k : ℕ). value m - k) (value-from_u64 2)))
          ∙ fermat,
    )
