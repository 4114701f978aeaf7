-- ===== src/Crypto/Bignum/Sum.antt =====
-- `add` and `checked_sub`: the carries and borrows are those of the sum and the difference.
use skarbiec.Prelude.{ℕ, ◌+◌, ◌-◌, ◌<◌, ◌≤◌, ◌≡◌, List, [], ◌∷◌, arith, none}
use skarbiec.Crypto.Bignum.{Big, limb_base, add_limbs, sub_limbs, add, checked_sub}
use skarbiec.Crypto.Bignum.Order.{cmp-value}
use skarbiec.Crypto.Bignum.Value.{
  value, value_of, AreWords, IsValid, value_of-trim, trimmed-IsValid, Returns, trimmed-Returns,
}

value_of-add_limbs :
    (xs ys : List ℕ) (c : ℕ)
    → AreWords xs
    → AreWords ys
    → c ≤ 1
    → value_of (add_limbs xs ys c) ≡ value_of xs + value_of ys + c
unfolding value_of add_limbs
value_of-add_limbs [] [] c hx hy hc = ground arith
value_of-add_limbs (x ∷ xs) [] c hx hy hc =
    ground (arith, value_of-add_limbs xs [] 0 hx.1 tt, value_of-add_limbs xs [] 1 hx.1 tt)
value_of-add_limbs [] (y ∷ ys) c hx hy hc =
    ground (arith, value_of-add_limbs [] ys 0 tt hy.1, value_of-add_limbs [] ys 1 tt hy.1)
value_of-add_limbs (x ∷ xs) (y ∷ ys) c hx hy hc =
    ground (arith, value_of-add_limbs xs ys 0 hx.1 hy.1, value_of-add_limbs xs ys 1 hx.1 hy.1)

add_limbs-AreWords : (xs ys : List ℕ) (c : ℕ) → c < limb_base → AreWords (add_limbs xs ys c)
unfolding add_limbs
add_limbs-AreWords [] [] c hc = ground arith
add_limbs-AreWords (x ∷ xs) [] c hc = (omega arith, add_limbs-AreWords xs [] _ (ground arith))
add_limbs-AreWords [] (y ∷ ys) c hc = (omega arith, add_limbs-AreWords [] ys _ (ground arith))
add_limbs-AreWords (x ∷ xs) (y ∷ ys) c hc = (omega arith, add_limbs-AreWords xs ys _ (ground arith))

pub add-IsValid : (a b : Big) → IsValid (add a b)
unfolding add
add-IsValid a b = trimmed-IsValid _ (add_limbs-AreWords a.limbs b.limbs 0 (omega arith))

pub value-add : (a b : Big) → IsValid a → IsValid b → value (add a b) ≡ value a + value b
unfolding add
value-add a b ha hb = omega (
  arith,
  value_of-trim (add_limbs a.limbs b.limbs 0),
  value_of-add_limbs a.limbs b.limbs 0 ha.words hb.words (omega arith),
)

-- What `sub_limbs` leaves, where the difference is not negative.
value_of-sub_limbs :
    (xs ys : List ℕ) (c : ℕ)
    → AreWords xs
    → AreWords ys
    → c ≤ 1
    → value_of ys + c ≤ value_of xs
    → value_of (sub_limbs xs ys c) ≡ value_of xs - value_of ys - c
unfolding value_of sub_limbs
value_of-sub_limbs [] ys c hx hy hc h = omega arith
value_of-sub_limbs (x ∷ xs) [] c hx hy hc h =
    ground (arith, value_of-sub_limbs xs [] 0 hx.1 tt, value_of-sub_limbs xs [] 1 hx.1 tt)
value_of-sub_limbs (x ∷ xs) (y ∷ ys) c hx hy hc h =
    ground (arith, value_of-sub_limbs xs ys 0 hx.1 hy.1, value_of-sub_limbs xs ys 1 hx.1 hy.1)

sub_limbs-AreWords : (xs ys : List ℕ) (c : ℕ) → AreWords (sub_limbs xs ys c)
unfolding sub_limbs
sub_limbs-AreWords [] ys c = tt
sub_limbs-AreWords (x ∷ xs) [] c = (omega arith, sub_limbs-AreWords xs [] _)
sub_limbs-AreWords (x ∷ xs) (y ∷ ys) c = (omega arith, sub_limbs-AreWords xs ys _)

pub checked_sub_less :
    (a b : Big) → IsValid a → IsValid b → value a < value b → checked_sub a b ≡ none
unfolding checked_sub
checked_sub_less a b ha hb h = ground (arith, cmp-value a b ha hb)

pub checked_sub-Returns :
    (a b : Big)
    → IsValid a
    → IsValid b
    → value b ≤ value a
    → Returns (checked_sub a b) (value a - value b)
unfolding checked_sub
checked_sub-Returns a b ha hb h =
    trimmed-Returns (sub_limbs a.limbs b.limbs 0) (ground (arith, cmp-value a b ha hb))
      (sub_limbs-AreWords a.limbs b.limbs 0)
      (omega
        (arith, value_of-sub_limbs a.limbs b.limbs 0 ha.words hb.words (omega arith) (omega arith)))
