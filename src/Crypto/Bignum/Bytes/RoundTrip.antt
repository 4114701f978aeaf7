-- ===== src/Crypto/Bignum/Bytes/RoundTrip.antt =====
-- Numbers and their big-endian bytes: each conversion undoes the other.
use mathlib.Core.List.{reverse, reverse-cons}
use native.Mathlib.Nat.{
  pow-suc, add_comm, add-mul-div_right, div-eq_of_lt, mul-le-mul, pow-le-pow_right, zero-add,
}
use skarbiec.Prelude.{
  ℕ, zero, suc, ◌+◌, ◌-◌, ◌*◌, ◌/◌, ◌^◌, ◌<◌, ◌≤◌, ◌≡◌, refl, sym, ap, ◌∙◌, List, [], ◌∷◌, ◌++◌,
  some, none, arith, length, take, drop, ltb, length-drop, Bool-cases, inl, inr, tests, lt→ltb,
  ◌==◌,
}
use skarbiec.Crypto.Bignum.{Big, limb_base, bits, last, zero_big}
use skarbiec.Crypto.Bignum.Value.{
  value, value_of, AreWords, IsTrimmed, IsTrimmed-tail, IsValid, trimmed-IsValid, value_of-trim,
  value_of-high, limb_base_pow-pos, zero_big-IsValid,
}
use skarbiec.Crypto.Bignum.Order.{length-reverse}
use skarbiec.Crypto.Bignum.Bits.{pow_sum, value-lt_bits, bits-le_double}
use skarbiec.Crypto.Bignum.Bytes.{
  be_from, be_value, rchunk_limbs, from_be_bytes, to_le_bytes, limb_bytes, fill, to_be_bytes,
}
use skarbiec.Crypto.Bignum.Bytes.Value.{
  AreBytes, be_from-eq, be_value-reverse, value_of-rchunk_limbs, le_value-limb_bytes, le_value-fill,
  length-fill,
}

-- One number, one list of limbs.
same_limbs :
    (xs ys : List ℕ)
    → AreWords xs
    → AreWords ys
    → IsTrimmed xs
    → IsTrimmed ys
    → value_of xs ≡ value_of ys
    → xs ≡ ys
unfolding value_of
same_limbs [] [] wx wy tx ty e = refl
same_limbs [] (y ∷ ys) wx wy tx ty e =
    absurd (omega (arith, e, value_of-high y ys ty, limb_base_pow-pos (length ys)))
same_limbs (x ∷ xs) [] wx wy tx ty e =
    absurd (omega (arith, e, value_of-high x xs tx, limb_base_pow-pos (length xs)))
same_limbs (x ∷ xs) (y ∷ ys) wx wy tx ty e =
    rw
      (
        low_limb x y (value_of xs) (value_of ys) wx.0 wy.0 e,
        same_limbs xs ys wx.1 wy.1 (IsTrimmed-tail x xs tx) (IsTrimmed-tail y ys ty)
            (omega (arith, e, wx.0, wy.0)),
      )
      refl
  where
    low_limb :
        (x y v w : ℕ)
        → x < limb_base
        → y < limb_base
        → x + limb_base * v ≡ y + limb_base * w
        → x ≡ y
    low_limb x y v w hx hy e = omega arith

pub value_unique : (a b : Big) → IsValid a → IsValid b → value a ≡ value b → a ≡ b
value_unique a b ha hb e =
    ap (λ (xs : List ℕ). record { limbs = xs })
      (same_limbs a.limbs b.limbs ha.words hb.words ha.high hb.high e)

pub be_value-lt : (bs : List ℕ) → AreBytes bs → be_value bs < 256 ^ length bs
unfolding be_from
be_value-lt [] h = omega arith
be_value-lt (b ∷ bs) h = omega (
  arith,
  be_from-eq (0 + b) bs,
  be_value-lt bs h.1,
  pow-suc 256 (length bs),
  mul-le-mul {n₁ = 0 + b} {m₁ = 256 ^ length bs} {n₂ = 255} {m₂ = 256 ^ length bs}
      (omega (arith, h.0)) (omega arith),
)

drop-AreBytes : (n : ℕ) (bs : List ℕ) → AreBytes bs → AreBytes (drop n bs)
drop-AreBytes zero bs h = h
drop-AreBytes (suc n) [] h = h
drop-AreBytes (suc n) (b ∷ bs) h = drop-AreBytes n bs h.1

take-AreBytes : (n : ℕ) (bs : List ℕ) → AreBytes bs → AreBytes (take n bs)
take-AreBytes zero bs h = tt
take-AreBytes (suc n) [] h = tt
take-AreBytes (suc n) (b ∷ bs) h = (h.0, take-AreBytes n bs h.1)

rchunk_limbs-AreWords : (fuel : ℕ) (bs : List ℕ) → AreBytes bs → AreWords (rchunk_limbs fuel bs)
unfolding rchunk_limbs
rchunk_limbs-AreWords zero bs h = tt
rchunk_limbs-AreWords (suc fuel) bs h = elim (Bool-cases (length bs == 0)) [
  | inl e ↦ rw e tt
  | inr e ↦ rw e (
    omega (
      arith,
      be_value-lt (drop (length bs - 8) bs) (drop-AreBytes (length bs - 8) bs h),
      pow-le-pow_right {n = 256} (omega arith) {i = length (drop (length bs - 8) bs)} {j = 8}
          (omega (arith, length-drop (length bs - 8) bs)),
    ),
    rchunk_limbs-AreWords fuel _ (take-AreBytes (length bs - 8) bs h),
  )
]

pub from_be_bytes-IsValid : (bs : List ℕ) → AreBytes bs → IsValid (from_be_bytes bs)
unfolding from_be_bytes
from_be_bytes-IsValid bs h = trimmed-IsValid _ (rchunk_limbs-AreWords (length bs) bs h)

pub value-from_be_bytes : (bs : List ℕ) → value (from_be_bytes bs) ≡ be_value bs
unfolding from_be_bytes
value-from_be_bytes bs =
    value_of-trim (rchunk_limbs (length bs) bs) ∙ value_of-rchunk_limbs (length bs) bs (omega arith)

pub pow_256 : (n : ℕ) → 2 ^ (n * 8) ≡ 256 ^ n
pow_256 zero = refl
pow_256 (suc n) =
    ap (λ (k : ℕ). 2 ^ k) (eight_more n)
    ∙ pow_sum 8 (n * 8)
    ∙ omega (arith, pow_256 n, pow-suc 256 n)
  where
    eight_more : (n : ℕ) → suc n * 8 ≡ 8 + n * 8
    eight_more n = omega arith

bits_zero : (a : Big) → IsValid a → value a ≡ 0 → bits a ≡ 0
unfolding bits last value_of
bits_zero a h e = ap bits (value_unique a zero_big h zero_big-IsValid e)

-- A number fits in the bytes exactly where its bits do.
bits_fit : (a : Big) (n : ℕ) → IsValid a → value a < 256 ^ n → bits a ≤ n * 8
bits_fit a n h lt = elim (Bool-cases (ltb (n * 8) (bits a))) [
  | inl more ↦ elim (Bool-cases (value a == 0)) [
    | inl z ↦ omega (arith, bits_zero a h (ground arith))
    | inr nz ↦ absurd (
        omega (
          arith,
          lt,
          bits-le_double a h (ground arith),
          pow_256 n,
          pow-suc 2 (n * 8),
          pow-le-pow_right {n = 2} (omega arith) {i = suc (n * 8)} {j = bits a} (omega tests),
        ))
  ]
  | inr fits ↦ ground arith
]

bits_do_not_fit : (a : Big) (n : ℕ) → IsValid a → 256 ^ n ≤ value a → n * 8 < bits a
bits_do_not_fit a n h le = elim (Bool-cases (ltb (n * 8) (bits a))) [
  | inl more ↦ omega tests
  | inr fits ↦ absurd (
      omega (
        arith,
        le,
        value-lt_bits a h,
        pow_256 n,
        pow-le-pow_right {n = 2} (omega arith) {i = bits a} {j = n * 8} (ground arith),
      ))
]

pub to_be_bytes_too_large :
    (a : Big) (n : ℕ) → IsValid a → 256 ^ n ≤ value a → to_be_bytes a n ≡ none
unfolding to_be_bytes
to_be_bytes_too_large a n h le = rw (lt→ltb (n * 8) (bits a) (bits_do_not_fit a n h le)) refl

-- The bytes of a number that fits.
pub record Written (a : Big) (n : ℕ) (out : List ℕ) : Type 0 where
  pub returned : to_be_bytes a n ≡ some out
  pub size : length out ≡ n
  pub bytes : AreBytes out
  pub equals : be_value out ≡ value a

to_le_bytes-AreBytes : (n x : ℕ) (bs : List ℕ) → AreBytes bs → AreBytes (to_le_bytes n x ++ bs)
unfolding to_le_bytes
to_le_bytes-AreBytes zero x bs h = h
to_le_bytes-AreBytes (suc n) x bs h = (omega arith, to_le_bytes-AreBytes n (x / 256) bs h)

limb_bytes-AreBytes : (xs : List ℕ) → AreBytes (limb_bytes xs)
unfolding limb_bytes
limb_bytes-AreBytes [] = tt
limb_bytes-AreBytes (x ∷ xs) = to_le_bytes-AreBytes 8 x (limb_bytes xs) (limb_bytes-AreBytes xs)

fill-AreBytes : (n : ℕ) (bs : List ℕ) → AreBytes bs → AreBytes (fill n bs)
unfolding fill
fill-AreBytes zero bs h = tt
fill-AreBytes (suc n) [] h = (omega arith, fill-AreBytes n [] tt)
fill-AreBytes (suc n) (b ∷ bs) h = (h.0, fill-AreBytes n bs h.1)

snoc-AreBytes : (bs : List ℕ) (b : ℕ) → AreBytes bs → b < 256 → AreBytes (bs ++ b ∷ [])
snoc-AreBytes [] b h hb = (hb, tt)
snoc-AreBytes (x ∷ bs) b h hb = (h.0, snoc-AreBytes bs b h.1 hb)

reverse-AreBytes : (bs : List ℕ) → AreBytes bs → AreBytes (reverse bs)
reverse-AreBytes [] h = tt
reverse-AreBytes (b ∷ bs) h =
    rw (reverse-cons b bs) (snoc-AreBytes (reverse bs) b (reverse-AreBytes bs h.1) h.0)

pub to_be_bytes-Written :
    (a : Big) (n : ℕ)
    → IsValid a
    → value a < 256 ^ n
    → Written a n (reverse (fill n (limb_bytes a.limbs)))
unfolding to_be_bytes
to_be_bytes-Written a n h lt =
    let low = le_value-limb_bytes a.limbs h.words in
    record {
      returned = ground (arith, bits_fit a n h lt);
      size = length-reverse (fill n (limb_bytes a.limbs)) ∙ length-fill n (limb_bytes a.limbs);
      bytes = reverse-AreBytes _ (fill-AreBytes n _ (limb_bytes-AreBytes a.limbs));
      equals =
          be_value-reverse (fill n (limb_bytes a.limbs))
          ∙ le_value-fill n (limb_bytes a.limbs) (omega (arith, low, lt))
          ∙ low;
    }

-- What is written reads back as the same number.
pub from_be_bytes-to_be_bytes :
    (a : Big) (n : ℕ)
    → IsValid a
    → value a < 256 ^ n
    → (out : List ℕ) × (to_be_bytes a n ≡ some out) × (length out ≡ n) × (from_be_bytes out ≡ a)
from_be_bytes-to_be_bytes a n h lt =
    let written = to_be_bytes-Written a n h lt in
    (
      reverse (fill n (limb_bytes a.limbs)),
      written.returned,
      written.size,
      value_unique _ a (from_be_bytes-IsValid _ written.bytes) h
          (value-from_be_bytes _ ∙ written.equals),
    )

lead_digit : (x u p : ℕ) → u < p → (x * p + u) / p ≡ x
lead_digit x u p h =
    ap (λ (k : ℕ). k / p) (add_comm (x * p) u)
    ∙ add-mul-div_right u x (omega arith)
    ∙ ap (λ (k : ℕ). k + x) (div-eq_of_lt h)
    ∙ zero-add x

same_lead : (x y u v p : ℕ) → u < p → v < p → x * p + u ≡ y * p + v → x ≡ y
same_lead x y u v p hu hv e =
    sym (lead_digit x u p hu) ∙ ap (λ (k : ℕ). k / p) e ∙ lead_digit y v p hv

be_value-cons : (b : ℕ) (bs : List ℕ) → be_value (b ∷ bs) ≡ b * 256 ^ length bs + be_value bs
unfolding be_from
be_value-cons b bs =
    be_from-eq (0 + b) bs ∙ ap (λ (k : ℕ). k * 256 ^ length bs + be_value bs) (zero-add b)

-- As many bytes, one number: the same bytes.
pub same_bytes :
    (xs ys : List ℕ)
    → AreBytes xs
    → AreBytes ys
    → length xs ≡ length ys
    → be_value xs ≡ be_value ys
    → xs ≡ ys
same_bytes [] [] hx hy n e = refl
same_bytes [] (y ∷ ys) hx hy n e = absurd (omega arith)
same_bytes (x ∷ xs) [] hx hy n e = absurd (omega arith)
same_bytes (x ∷ xs) (y ∷ ys) hx hy n e =
    let lx = be_value-lt xs hx.1 in
    let ly = be_value-lt ys hy.1 in
    let size : length xs ≡ length ys = omega (arith, n) in
    let power = ap (λ (k : ℕ). 256 ^ k) size in
    let total =
      sym (be_value-cons x xs)
      ∙ e
      ∙ be_value-cons y ys
      ∙ ap (λ (k : ℕ). y * k + be_value ys) (sym power) in
    let lead =
      same_lead x y (be_value xs) (be_value ys) (256 ^ length xs) lx (omega (arith, ly, power))
        total in
    rw
      (
        lead,
        same_bytes xs ys hx.1 hy.1 size
            (omega (arith, total, ap (λ (k : ℕ). k * 256 ^ length xs) lead)),
      )
      refl

-- What was read is written back, byte for byte, zeros at the front included.
pub to_be_bytes-from_be_bytes :
    (bs : List ℕ) → AreBytes bs → to_be_bytes (from_be_bytes bs) (length bs) ≡ some bs
to_be_bytes-from_be_bytes bs h =
    let valid = from_be_bytes-IsValid bs h in
    let written =
      to_be_bytes-Written (from_be_bytes bs) (length bs) valid
        (omega (arith, value-from_be_bytes bs, be_value-lt bs h)) in
    written.returned
    ∙ ap (λ (out : List ℕ). some out)
        (same_bytes _ bs written.bytes h written.size (written.equals ∙ value-from_be_bytes bs))
