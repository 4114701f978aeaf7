-- ===== src/Crypto/Bignum.antt =====
-- crates/crypto/src/bignum.rs: unsigned integers of any size, as little-endian 64-bit limbs. What
-- the source does with machine words (wrap-around, carries, 128-bit products) is written out, and
-- what would panic (an index out of range, a failed `expect`) is `none`.
pub mod Value
pub mod Order
pub mod Sum
pub mod Product
pub mod Bits
pub mod Remainder
pub mod Residue
pub mod Power
pub mod Bytes
mod Runs
use Prim.Native.Nat.{compare}
use Prim.Native.Nat.Ordering.{lt, eq, gt}
use mathlib.Core.List.{reverse}
use skarbiec.Prelude.{
  ℕ, zero, suc, ◌+◌, ◌-◌, ◌*◌, ◌/◌, ◌%◌, ◌^◌, Bool, true, false, Option, none, some, List, [], ◌∷◌,
  ◌++◌, map, ltb, ◌==◌, if◌then◌else◌, length, take, drop,
}

abbrev pub Ordering : Type 0
Ordering = Prim.Native.Nat.Ordering

-- One more than the largest `u64`.
abbrev pub limb_base : ℕ
limb_base = 2 ^ 64

-- One more than the largest `u128`.
abbrev pub wide_base : ℕ
wide_base = 2 ^ 128

pub record Big : Type 0 where
  pub limbs : List ℕ

abbrev pub zero_big : Big
zero_big = record { limbs = [] }

-- The limbs without the zeros at the high end, which stands last.
unfoldable pub trim : List ℕ → List ℕ
trim [] = []
trim (x ∷ xs) = elim (trim xs) [ [] ↦ if x == 0 then [] else x ∷ [] | y ∷ ys ↦ x ∷ y ∷ ys ]

abbrev pub trimmed : List ℕ → Big
trimmed xs = record { limbs = trim xs }

abbrev pub from_u64 : ℕ → Big
from_u64 value = trimmed (value ∷ [])

unfoldable pub is_zero : Big → Bool
is_zero a = elim a.limbs [ [] ↦ true | x ∷ xs ↦ false ]

-- `u64::overflowing_add`: the wrapped sum, and whether it wrapped.
abbrev pub wrapped_sum : ℕ → ℕ → ℕ
wrapped_sum a b = (a + b) % limb_base

abbrev pub overflow : ℕ → ℕ → ℕ
overflow a b = if ltb (a + b) limb_base then 0 else 1

-- `u64::overflowing_sub`.
abbrev pub wrapped_difference : ℕ → ℕ → ℕ
wrapped_difference a b = (a + limb_base - b) % limb_base

abbrev pub underflow : ℕ → ℕ → ℕ
underflow a b = if ltb a b then 1 else 0

-- The loop of `add`: a limb that one side does not have counts as zero.
unfoldable pub add_limbs : List ℕ → List ℕ → ℕ → List ℕ
add_limbs [] [] carry = if ltb 0 carry then carry ∷ [] else []
add_limbs (x ∷ xs) [] carry =
    wrapped_sum (wrapped_sum x 0) carry
    ∷ add_limbs xs [] (overflow x 0 + overflow (wrapped_sum x 0) carry)
add_limbs [] (y ∷ ys) carry =
    wrapped_sum (wrapped_sum 0 y) carry
    ∷ add_limbs [] ys (overflow 0 y + overflow (wrapped_sum 0 y) carry)
add_limbs (x ∷ xs) (y ∷ ys) carry =
    wrapped_sum (wrapped_sum x y) carry
    ∷ add_limbs xs ys (overflow x y + overflow (wrapped_sum x y) carry)

unfoldable pub add : Big → Big → Big
add a b = trimmed (add_limbs a.limbs b.limbs 0)

abbrev pub then_with : Ordering → Ordering → Ordering
then_with o next = elim o [ lt ↦ lt | eq ↦ next | gt ↦ gt ]

-- `Iterator::cmp`.
unfoldable pub iter_cmp : List ℕ → List ℕ → Ordering
iter_cmp [] [] = eq
iter_cmp [] (y ∷ ys) = lt
iter_cmp (x ∷ xs) [] = gt
iter_cmp (x ∷ xs) (y ∷ ys) = then_with (compare x y) (iter_cmp xs ys)

unfoldable pub cmp : Big → Big → Ordering
cmp a b =
    then_with (compare (length a.limbs) (length b.limbs))
      (iter_cmp (reverse a.limbs) (reverse b.limbs))

abbrev pub is_less : Ordering → Bool
is_less o = elim o [ lt ↦ true | eq ↦ false | gt ↦ false ]

-- The loop of `checked_sub`, which runs over the limbs of the first number only.
unfoldable pub sub_limbs : List ℕ → List ℕ → ℕ → List ℕ
sub_limbs [] ys borrow = []
sub_limbs (x ∷ xs) [] borrow =
    wrapped_difference (wrapped_difference x 0) borrow
    ∷ sub_limbs xs [] (underflow x 0 + underflow (wrapped_difference x 0) borrow)
sub_limbs (x ∷ xs) (y ∷ ys) borrow =
    wrapped_difference (wrapped_difference x y) borrow
    ∷ sub_limbs xs ys (underflow x y + underflow (wrapped_difference x y) borrow)

unfoldable pub checked_sub : Big → Big → Option Big
checked_sub a b = if is_less (cmp a b) then none else some (trimmed (sub_limbs a.limbs b.limbs 0))

abbrev pub or_panic : {A B : Type 0} → Option A → (A → Option B) → Option B
or_panic o next = elim o [ none ↦ none | some x ↦ next x ]

abbrev pub then_limb : ℕ → Option (List ℕ) → Option (List ℕ)
then_limb l rest = or_panic rest λ ls. some (l ∷ ls)

-- `while carry > 0`: an index past the end would panic.
unfoldable pub carry_on : List ℕ → ℕ → Option (List ℕ)
carry_on [] carry = if ltb 0 carry then none else some []
carry_on (l ∷ ls) carry =
    let sum = (l + carry) % wide_base in
    let rest = carry_on ls (sum / limb_base) in
    if ltb 0 carry then then_limb (sum % limb_base) rest else some (l ∷ ls)

-- One pass of the outer loop of `mul`, on the limbs from the pass's index on.
unfoldable pub mul_row : ℕ → List ℕ → List ℕ → ℕ → Option (List ℕ)
mul_row a [] ls carry = carry_on ls carry
mul_row a (b ∷ bs) [] carry = none
mul_row a (b ∷ bs) (l ∷ ls) carry =
    let product = (a * b + l + carry) % wide_base in
    then_limb (product % limb_base) (mul_row a bs ls (product / limb_base))

-- The outer loop: the pass's first limb is final, and the next pass starts after it.
unfoldable pub mul_rows : List ℕ → List ℕ → List ℕ → Option (List ℕ)
mul_rows [] bs ls = some ls
mul_rows (a ∷ as_) bs ls =
    or_panic (mul_row a bs ls 0)
      λ row. elim row [ [] ↦ none | l ∷ rest ↦ then_limb l (mul_rows as_ bs rest) ]

unfoldable pub zeros : ℕ → List ℕ
zeros zero = []
zeros (suc n) = 0 ∷ zeros n

unfoldable pub mul : Big → Big → Option Big
mul a b =
    if is_zero a
    then some zero_big
    else if is_zero b
    then some zero_big
    else or_panic (mul_rows a.limbs b.limbs (zeros (length a.limbs + length b.limbs)))
        λ limbs. some (trimmed limbs)

-- The number of bits up to the highest set one: `64 - leading_zeros`. A word has at most 64.
unfoldable pub bit_length : ℕ → ℕ → ℕ
bit_length zero x = 0
bit_length (suc n) x = let rest = bit_length n (x / 2) in if x == 0 then 0 else suc rest

abbrev pub leading_zeros : ℕ → ℕ
leading_zeros x = 64 - bit_length 64 x

unfoldable pub last : List ℕ → Option ℕ
last [] = none
last (x ∷ xs) = elim (last xs) [ none ↦ some x | some y ↦ some y ]

unfoldable pub bits : Big → ℕ
bits a = elim (last a.limbs) [ none ↦ 0 | some top ↦ length a.limbs * 64 - leading_zeros top ]

unfoldable pub get_elem? : List ℕ → ℕ → Option ℕ
get_elem? [] i = none
get_elem? (x ∷ xs) zero = some x
get_elem? (x ∷ xs) (suc i) = get_elem? xs i

unfoldable pub bit : Big → ℕ → Bool
bit a index = elim (get_elem? a.limbs (index / 64)) [
  | none ↦ false
  | some limb ↦ limb / 2 ^ (index % 64) % 2 == 1
]

-- `shl1`: `(limb << 1) | carry`, where the low bit of `limb << 1` is clear.
unfoldable pub shl_limbs : List ℕ → ℕ → List ℕ
shl_limbs [] carry = if ltb 0 carry then carry ∷ [] else []
shl_limbs (x ∷ xs) carry = (x * 2 % limb_base + carry) ∷ shl_limbs xs (x / 2 ^ 63)

-- `limbs[0] |= 1`, or the first limb where there is none.
unfoldable pub set_low : List ℕ → List ℕ
set_low [] = 1 ∷ []
set_low (x ∷ xs) = (x / 2 * 2 + 1) ∷ xs

-- One pass of the loop of `rem`; `expect` would panic where `checked_sub` returns `None`.
unfoldable pub rem_step : Big → Big → ℕ → Big → Option Big
rem_step a modulus index r =
    let shifted = shl_limbs r.limbs 0 in
    let low : Big = record { limbs = if bit a index then set_low shifted else shifted } in
    if is_less (cmp low modulus) then some low else checked_sub low modulus

unfoldable pub rem_loop : Big → Big → ℕ → Big → Option Big
rem_loop a modulus zero r = some r
rem_loop a modulus (suc index) r =
    or_panic (rem_step a modulus index r) λ next. rem_loop a modulus index next

unfoldable pub rem : Big → Big → Option Big
rem a modulus =
    if is_zero modulus
    then none
    else if is_less (cmp a modulus)
    then some a
    else rem_loop a modulus (bits a) zero_big

unfoldable pub mod_mul : Big → Big → Big → Option Big
mod_mul a b modulus = or_panic (mul a b) λ product. rem product modulus

unfoldable pub mod_add : Big → Big → Big → Option Big
mod_add a b modulus = rem (add a b) modulus

unfoldable pub mod_sub : Big → Big → Big → Option Big
mod_sub a b modulus = elim (checked_sub a b) [
  | some difference ↦ some difference
  | none ↦ checked_sub (add a modulus) b
]

unfoldable pub pow_loop : Big → Big → Big → ℕ → Big → Option Big
pow_loop base exponent modulus zero result = some result
pow_loop base exponent modulus (suc index) result =
    or_panic (mod_mul result result modulus) λ square.
      or_panic (if bit exponent index then mod_mul square base modulus else some square)
        λ next. pow_loop base exponent modulus index next

unfoldable pub mod_pow : Big → Big → Big → Option Big
mod_pow a exponent modulus = or_panic (rem a modulus) λ base.
    or_panic (rem (from_u64 1) modulus) λ one. pow_loop base exponent modulus (bits exponent) one

-- The outer `none` is a panic, the inner one the answer that there is no inverse.
unfoldable pub mod_inverse_prime : Big → Big → Option (Option Big)
mod_inverse_prime a modulus = or_panic (rem a modulus) λ reduced.
    if is_zero reduced then some none else elim (checked_sub modulus (from_u64 2)) [
      | none ↦ some none
      | some exponent ↦ or_panic (mod_pow reduced exponent modulus) λ inverse. some (some inverse)
    ]
