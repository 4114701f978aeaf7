-- ===== src/Crypto/Bignum/Bytes/Value.antt =====
-- The number that bytes stand for, in either order, and what each conversion keeps of it.
use mathlib.Core.List.{reverse, reverse-cons}
use native.Mathlib.Nat.{pow-suc, pow-succ', zero-add, mul_assoc}
use skarbiec.Prelude.{
  ℕ, zero, suc, ◌+◌, ◌-◌, ◌*◌, ◌/◌, ◌^◌, ◌<◌, ◌≤◌, ◌≡◌, refl, sym, ap, ◌∙◌, List, [], ◌∷◌, ◌++◌,
  arith, All, length, take, drop, ltb, length-drop, Bool-cases, inl, inr, tests,
}
use skarbiec.Crypto.Bignum.{limb_base}
use skarbiec.Crypto.Bignum.Value.{value_of, AreWords}
use skarbiec.Crypto.Bignum.Bytes.{be_from, be_value, rchunk_limbs, to_le_bytes, limb_bytes, fill}

abbrev pub AreBytes : List ℕ → Type 0
AreBytes bs = All (λ b. b < 256) bs

unfoldable pub le_value : List ℕ → ℕ
le_value [] = 0
le_value (b ∷ bs) = b + 256 * le_value bs

shift_in : (a b p : ℕ) → (a * 256 + b) * p ≡ a * (p * 256) + b * p
shift_in a b p = grind arith

pub be_from-eq : (acc : ℕ) (bs : List ℕ) → be_from acc bs ≡ acc * 256 ^ length bs + be_value bs
unfolding be_from
be_from-eq acc [] = omega arith
be_from-eq acc (b ∷ bs) = omega (
  arith,
  be_from-eq (acc * 256 + b) bs,
  be_from-eq (0 + b) bs,
  shift_in acc b (256 ^ length bs),
  ap (λ (k : ℕ). acc * k) (pow-suc 256 (length bs)),
  ap (λ (k : ℕ). k * 256 ^ length bs) (zero-add b),
)

be_from-append : (acc : ℕ) (xs ys : List ℕ) → be_from acc (xs ++ ys) ≡ be_from (be_from acc xs) ys
unfolding be_from
be_from-append acc [] ys = refl
be_from-append acc (x ∷ xs) ys = be_from-append (acc * 256 + x) xs ys

pub be_value-append :
    (xs ys : List ℕ) → be_value (xs ++ ys) ≡ be_value xs * 256 ^ length ys + be_value ys
be_value-append xs ys = be_from-append 0 xs ys ∙ be_from-eq (be_value xs) ys

pub be_value-reverse : (bs : List ℕ) → be_value (reverse bs) ≡ le_value bs
unfolding be_from le_value
be_value-reverse [] = refl
be_value-reverse (b ∷ bs) =
    rw (reverse-cons b bs)
      (omega (arith, be_value-append (reverse bs) (b ∷ []), be_value-reverse bs))

pub le_value-lt : (bs : List ℕ) → AreBytes bs → le_value bs < 256 ^ length bs
unfolding le_value
le_value-lt [] h = omega arith
le_value-lt (b ∷ bs) h = omega (arith, h.0, le_value-lt bs h.1, pow-suc 256 (length bs))

take-append-drop : (n : ℕ) (xs : List ℕ) → take n xs ++ drop n xs ≡ xs
take-append-drop zero xs = refl
take-append-drop (suc n) [] = refl
take-append-drop (suc n) (x ∷ xs) = ap (λ (ys : List ℕ). x ∷ ys) (take-append-drop n xs)

length-take : (n : ℕ) (xs : List ℕ) → n ≤ length xs → length (take n xs) ≡ n
length-take zero xs h = refl
length-take (suc n) [] h = absurd (omega arith)
length-take (suc n) (x ∷ xs) h = omega (arith, length-take n xs (omega arith))

-- Where the last chunk is shorter, nothing stands before it.
before_short_chunk : (bs : List ℕ) → length bs < 8 → be_value (take (length bs - 8) bs) ≡ 0
unfolding be_from
before_short_chunk bs h = ap (λ (n : ℕ). be_value (take n bs)) (no_more (length bs) h)
  where
    no_more : (n : ℕ) → n < 8 → n - 8 ≡ zero
    no_more n h = omega arith

chunk_place :
    (bs : List ℕ)
    → be_value (take (length bs - 8) bs) * 256 ^ length (drop (length bs - 8) bs)
      ≡ limb_base * be_value (take (length bs - 8) bs)
chunk_place bs = elim (Bool-cases (ltb (length bs) 8)) [
  | inl short ↦ rw (before_short_chunk bs (omega tests)) (omega arith)
  | inr full ↦ omega (
    arith,
    ap (λ (n : ℕ). be_value (take (length bs - 8) bs) * 256 ^ n)
        (eight (length bs) (ground arith) (length-drop (length bs - 8) bs)),
  )
]
  where
    eight : (n : ℕ) {m : ℕ} → 8 ≤ n → m ≡ n - (n - 8) → m ≡ 8
    eight n h e = omega arith

-- Bytes as what stands before the last chunk, and the chunk.
last_chunk :
    (bs : List ℕ)
    → be_value bs
      ≡ be_value (take (length bs - 8) bs) * 256 ^ length (drop (length bs - 8) bs)
        + be_value (drop (length bs - 8) bs)
last_chunk bs =
    ap be_value (sym (take-append-drop (length bs - 8) bs))
    ∙ be_value-append (take (length bs - 8) bs) (drop (length bs - 8) bs)

rchunk_limbs-cons :
    (fuel b : ℕ) (bs : List ℕ)
    → rchunk_limbs (suc fuel) (b ∷ bs)
      ≡ be_value (drop (length (b ∷ bs) - 8) (b ∷ bs))
        ∷ rchunk_limbs fuel (take (length (b ∷ bs) - 8) (b ∷ bs))
unfolding rchunk_limbs
rchunk_limbs-cons fuel b bs = ground arith

pub value_of-rchunk_limbs :
    (fuel : ℕ) (bs : List ℕ) → length bs ≤ fuel → value_of (rchunk_limbs fuel bs) ≡ be_value bs
unfolding rchunk_limbs value_of be_from
value_of-rchunk_limbs zero [] h = refl
value_of-rchunk_limbs zero (b ∷ bs) h = absurd (omega arith)
value_of-rchunk_limbs (suc fuel) [] h = refl
value_of-rchunk_limbs (suc fuel) (b ∷ bs) h =
    ap value_of (rchunk_limbs-cons fuel b bs)
    ∙ omega (
      arith,
      chunk_place (b ∷ bs),
      last_chunk (b ∷ bs),
      value_of-rchunk_limbs fuel (take (length (b ∷ bs) - 8) (b ∷ bs))
          (omega (arith, length-take (length (b ∷ bs) - 8) (b ∷ bs) (omega arith))),
    )

-- A limb's eight bytes.
le_value-to_le_bytes :
    (n x : ℕ) (bs : List ℕ)
    → x < 256 ^ n
    → le_value (to_le_bytes n x ++ bs) ≡ x + 256 ^ n * le_value bs
unfolding to_le_bytes le_value
le_value-to_le_bytes zero x bs h = omega arith
le_value-to_le_bytes (suc n) x bs h = omega (
  arith,
  le_value-to_le_bytes n (x / 256) bs (omega (arith, h, pow-suc 256 n)),
  pow-suc 256 n,
  mul_assoc 256 (256 ^ n) (le_value bs),
  ap (λ (k : ℕ). k * le_value bs) (pow-succ' 256 n),
)

pub le_value-limb_bytes : (xs : List ℕ) → AreWords xs → le_value (limb_bytes xs) ≡ value_of xs
unfolding limb_bytes value_of le_value
le_value-limb_bytes [] h = refl
le_value-limb_bytes (x ∷ xs) h =
    omega (arith, le_value-to_le_bytes 8 x (limb_bytes xs) h.0, le_value-limb_bytes xs h.1)

pow_256-pos : (n : ℕ) → 0 < 256 ^ n
pow_256-pos zero = omega arith
pow_256-pos (suc n) = omega (arith, pow-suc 256 n, pow_256-pos n)

pub le_value-fill :
    (n : ℕ) (bs : List ℕ) → le_value bs < 256 ^ n → le_value (fill n bs) ≡ le_value bs
unfolding fill le_value
le_value-fill zero bs h = omega arith
le_value-fill (suc n) [] h = omega (arith, le_value-fill n [] (omega (arith, pow_256-pos n)))
le_value-fill (suc n) (b ∷ bs) h =
    omega (arith, le_value-fill n bs (omega (arith, h, pow-suc 256 n)))

pub length-fill : (n : ℕ) (bs : List ℕ) → length (fill n bs) ≡ n
unfolding fill
length-fill zero bs = refl
length-fill (suc n) [] = omega (arith, length-fill n [])
length-fill (suc n) (b ∷ bs) = omega (arith, length-fill n bs)
