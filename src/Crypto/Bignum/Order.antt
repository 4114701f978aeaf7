-- ===== src/Crypto/Bignum/Order.antt =====
-- `cmp`: fewer limbs first, then the limbs from the high end down. On numbers without high zeros
-- that is the order of the numbers.
use Prim.Native.Nat.{compare}
use mathlib.Core.List.{reverse, reverse-cons}
use native.Mathlib.Nat.{pow-le-pow_right}
use skarbiec.Prelude.{ℕ, ◌<◌, ◌≡◌, refl, List, [], ◌∷◌, ◌++◌, arith, length, length-append, ap}
use skarbiec.Crypto.Bignum.{Big, limb_base, then_with, iter_cmp, cmp}
use skarbiec.Crypto.Bignum.Value.{
  value, value_of, AreWords, IsTrimmed, IsValid, value_of-lt, value_of-high,
}

pub length-reverse : (xs : List ℕ) → length (reverse xs) ≡ length xs
length-reverse [] = refl
length-reverse (x ∷ xs) =
    omega
      (arith, ap length (reverse-cons x xs), length-append (reverse xs) (x ∷ []), length-reverse xs)

-- The last elements count where the others agree.
iter_cmp-snoc :
    (xs ys : List ℕ) (x y : ℕ)
    → length xs ≡ length ys
    → iter_cmp (xs ++ x ∷ []) (ys ++ y ∷ []) ≡ then_with (iter_cmp xs ys) (compare x y)
unfolding iter_cmp
iter_cmp-snoc [] [] x y h = ground arith
iter_cmp-snoc [] (v ∷ ys) x y h = absurd (omega arith)
iter_cmp-snoc (u ∷ xs) [] x y h = absurd (omega arith)
iter_cmp-snoc (u ∷ xs) (v ∷ ys) x y h = ground (arith, iter_cmp-snoc xs ys x y)

iter_cmp-reverse :
    (xs ys : List ℕ)
    → AreWords xs
    → AreWords ys
    → length xs ≡ length ys
    → iter_cmp (reverse xs) (reverse ys) ≡ compare (value_of xs) (value_of ys)
unfolding iter_cmp value_of
iter_cmp-reverse [] [] hx hy h = refl
iter_cmp-reverse [] (v ∷ ys) hx hy h = absurd (omega arith)
iter_cmp-reverse (u ∷ xs) [] hx hy h = absurd (omega arith)
iter_cmp-reverse (u ∷ xs) (v ∷ ys) hx hy h =
    rw
      (
        reverse-cons u xs,
        reverse-cons v ys,
        iter_cmp-snoc (reverse xs) (reverse ys) u v
            (omega (arith, length-reverse xs, length-reverse ys)),
        iter_cmp-reverse xs ys hx.1 hy.1 (omega arith),
      )
      (ground arith)

-- A shorter list is a smaller number.
value_of-lt_of_length :
    (xs ys : List ℕ)
    → AreWords xs
    → IsTrimmed ys
    → length xs < length ys
    → value_of xs < value_of ys
value_of-lt_of_length xs [] hx hy h = absurd (omega arith)
value_of-lt_of_length xs (y ∷ ys) hx hy h = omega (
  arith,
  value_of-lt xs hx,
  value_of-high y ys hy,
  pow-le-pow_right {n = limb_base} (omega arith) {i = length xs} {j = length ys} (omega arith),
)

pub cmp-value : (a b : Big) → IsValid a → IsValid b → cmp a b ≡ compare (value a) (value b)
unfolding cmp
cmp-value a b ha hb = ground (
  arith,
  iter_cmp-reverse a.limbs b.limbs ha.words hb.words,
  value_of-lt_of_length a.limbs b.limbs ha.words hb.high,
  value_of-lt_of_length b.limbs a.limbs hb.words ha.high,
)
