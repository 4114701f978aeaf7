-- ===== src/Crypto/Bignum/Product.antt =====
-- `mul`: no index runs past the end, no 128-bit sum wraps, and the limbs are those of the product.
use native.Mathlib.Nat.{pow-suc, pow-le-pow_right, mul-le-mul}
use skarbiec.Prelude.{
  ltb, ℕ, suc, ◌+◌, ◌-◌, ◌*◌, ◌/◌, ◌%◌, ◌^◌, ◌<◌, ◌≤◌, ◌≡◌, refl, ◌∙◌, List, [], ◌∷◌, arith, length,
  Option, some, Bool-cases, inl, inr,
}
use skarbiec.Crypto.Bignum.{
  Big, limb_base, wide_base, then_limb, carry_on, mul_row, mul_rows, mul, zeros, is_zero,
}
use skarbiec.Crypto.Bignum.Value.{
  value, value_of, AreWords, IsValid, value_of-lt, value_of-zeros, zeros-AreWords, length-zeros,
  is_zero_iff, limb_base_pow-pos, Returns, zero_big-Returns, trimmed-Returns,
}

-- A run of a loop that returns: the limbs it leaves.
pub record Leaves (o : Option (List ℕ)) (n total : ℕ) : Type 0 where
  pub limbs : List ℕ
  pub returned : o ≡ some limbs
  pub words : AreWords limbs
  pub size : length limbs ≡ n
  pub sum : value_of limbs ≡ total

Leaves-limb :
    {o : Option (List ℕ)} {n t : ℕ} (l : ℕ) (t' : ℕ)
    → l < limb_base
    → l + limb_base * t ≡ t'
    → Leaves o n t
    → Leaves (then_limb l o) (suc n) t'
unfolding value_of
Leaves-limb l t' hl e rest = record {
  limbs = l ∷ rest.limbs;
  returned = rw rest.returned refl;
  words = (hl, rest.words);
  size = omega (arith, rest.size);
  sum = omega (arith, rest.sum);
}

carry_on-Leaves :
    (ls : List ℕ) (c : ℕ)
    → AreWords ls
    → c < limb_base
    → value_of ls + c < limb_base ^ length ls
    → Leaves (carry_on ls c) (length ls) (value_of ls + c)
unfolding carry_on value_of
carry_on-Leaves [] c hl hc h = record {
  limbs = [];
  returned = ground arith;
  words = tt;
  size = refl;
  sum = omega arith;
}
carry_on-Leaves (l ∷ ls) c hl hc h = elim (Bool-cases (ltb 0 c)) [
  | inl more ↦ rw more (
      Leaves-limb ((l + c) % wide_base % limb_base) _ (omega arith) (omega (arith, hl.0)) (
        carry_on-Leaves ls ((l + c) % wide_base / limb_base) hl.1 (omega arith)
          (omega (arith, hl.0, pow-suc limb_base (length ls)))))
  | inr done ↦
      rw done
        record { limbs = l ∷ ls; returned = refl; words = hl; size = refl; sum = ground arith }
]

-- The largest product of two words, with two carries, still fits in 128 bits.
product_fits :
    (a b l c : ℕ)
    → a < limb_base
    → b < limb_base
    → l < limb_base
    → c < limb_base
    → a * b + l + c < wide_base
product_fits a b l c ha hb hl hc = omega (
  arith,
  mul-le-mul {n₁ = a} {m₁ = b} {n₂ = limb_base - 1} {m₂ = limb_base - 1} (omega arith)
      (omega arith),
)

mul_limb : (a b v : ℕ) → a * (b + limb_base * v) ≡ a * b + limb_base * (a * v)
mul_limb a b v = grind arith

Leaves-eq : {o : Option (List ℕ)} {n t n' t' : ℕ} → n ≡ n' → t ≡ t' → Leaves o n t → Leaves o n' t'
Leaves-eq m e h = record {
  limbs = h.limbs;
  returned = h.returned;
  words = h.words;
  size = h.size ∙ m;
  sum = h.sum ∙ e;
}

mul_row-Leaves :
    (a : ℕ) (bs ls : List ℕ) (c : ℕ)
    → a < limb_base
    → AreWords bs
    → AreWords ls
    → c < limb_base
    → length bs ≤ length ls
    → a * value_of bs + value_of ls + c < limb_base ^ length ls
    → Leaves (mul_row a bs ls c) (length ls) (a * value_of bs + value_of ls + c)
unfolding mul_row value_of
mul_row-Leaves a [] ls c ha hb hl hc n h =
    Leaves-eq refl (omega arith) (carry_on-Leaves ls c hl hc (omega arith))
mul_row-Leaves a (b ∷ bs) [] c ha hb hl hc n h = absurd (omega arith)
mul_row-Leaves a (b ∷ bs) (l ∷ ls) c ha hb hl hc n h =
    Leaves-limb ((a * b + l + c) % wide_base % limb_base) _ (omega arith)
      (omega (arith, mul_limb a b (value_of bs), product_fits a b l c ha hb.0 hl.0 hc))
      (mul_row-Leaves a bs ls ((a * b + l + c) % wide_base / limb_base) ha hb.1 hl.1 (omega arith)
        (omega arith)
        (omega (
          arith,
          mul_limb a b (value_of bs),
          product_fits a b l c ha hb.0 hl.0 hc,
          pow-suc limb_base (length ls),
        )))

-- A row and what stands above it: less than one more limb holds.
row_bound : (a v w p : ℕ) → a < limb_base → v < p → w < p → a * v + w + limb_base ≤ limb_base * p
row_bound a v w p ha hv hw = omega (
  arith,
  mul-le-mul {n₁ = a} {m₁ = v} {n₂ = limb_base - 1} {m₂ = p - 1} (omega arith) (omega arith),
)

mul_limbs : (a v w : ℕ) → (a + limb_base * v) * w ≡ a * w + limb_base * (v * w)
mul_limbs a v w = grind arith

-- After a row its first limb is final; `more` is what the other rows do to the rest.
rows_after :
    (a : ℕ) (xs bs ls row : List ℕ)
    → ((rest : List ℕ)
        → AreWords rest
        → length rest ≡ length xs + length bs
        → value_of rest < limb_base ^ length bs
        → Leaves
            (mul_rows xs bs rest)
            (length xs + length bs)
            (value_of xs * value_of bs + value_of rest))
    → mul_row a bs ls 0 ≡ some row
    → AreWords row
    → length row ≡ suc (length xs) + length bs
    → value_of row ≡ a * value_of bs + value_of ls
    → value_of row < limb_base * limb_base ^ length bs
    → Leaves
        (mul_rows (a ∷ xs) bs ls)
        (suc (length xs) + length bs)
        (value_of (a ∷ xs) * value_of bs + value_of ls)
unfolding mul_rows value_of
rows_after a xs bs ls [] more e hw m s lt = absurd (omega arith)
rows_after a xs bs ls (l ∷ rest) more e hw m s lt = rw e (
    Leaves-eq (omega arith) (omega (arith, s, mul_limbs a (value_of xs) (value_of bs)))
      (Leaves-limb l _ hw.0 refl (more rest hw.1 (omega arith) (omega arith))))

mul_rows-Leaves :
    (xs bs ls : List ℕ)
    → AreWords xs
    → AreWords bs
    → AreWords ls
    → length ls ≡ length xs + length bs
    → value_of ls < limb_base ^ length bs
    → Leaves (mul_rows xs bs ls) (length xs + length bs) (value_of xs * value_of bs + value_of ls)
unfolding mul_rows value_of
mul_rows-Leaves [] bs ls hx hb hl n h = record {
  limbs = ls;
  returned = refl;
  words = hl;
  size = n;
  sum = omega arith;
}
mul_rows-Leaves (a ∷ xs) bs ls hx hb hl n h =
    let bound =
      row_bound a (value_of bs) (value_of ls) (limb_base ^ length bs) hx.0 (value_of-lt bs hb) h in
    let room =
      pow-le-pow_right {n = limb_base} (omega arith) {i = suc (length bs)} {j = length ls}
        (omega arith) in
    let row =
      mul_row-Leaves a bs ls 0 hx.0 hb hl (omega arith) (omega arith)
        (omega (arith, bound, room, pow-suc limb_base (length bs))) in
    rows_after a xs bs ls row.limbs (λ rest hr m lt. mul_rows-Leaves xs bs rest hx.1 hb hr m lt)
      row.returned row.words (omega (arith, row.size)) (omega (arith, row.sum))
      (omega (arith, row.sum, bound, limb_base_pow-pos (length bs)))

value_of-mul_limbs :
    (a b : Big)
    → IsValid a
    → IsValid b
    → Leaves
        (mul_rows a.limbs b.limbs (zeros (length a.limbs + length b.limbs)))
        (length a.limbs + length b.limbs)
        (value a * value b + value_of (zeros (length a.limbs + length b.limbs)))
value_of-mul_limbs a b ha hb =
    mul_rows-Leaves a.limbs b.limbs _ ha.words hb.words (zeros-AreWords _) (length-zeros _) (
      omega (
        arith,
        value_of-zeros (length a.limbs + length b.limbs),
        limb_base_pow-pos (length b.limbs),
      ))

pub mul-Returns : (a b : Big) → IsValid a → IsValid b → Returns (mul a b) (value a * value b)
unfolding mul
mul-Returns a b ha hb = elim (Bool-cases (is_zero a)) [
  | inl za ↦ rw za (zero_big-Returns (ground (arith, is_zero_iff a ha)))
  | inr na ↦ rw na (elim (Bool-cases (is_zero b)) [
    | inl zb ↦ rw zb (zero_big-Returns (ground (arith, is_zero_iff b hb)))
    | inr nb ↦ rw nb (
        let rows = value_of-mul_limbs a b ha hb in
        trimmed-Returns rows.limbs (rw rows.returned refl) rows.words
          (omega (arith, rows.sum, value_of-zeros (length a.limbs + length b.limbs))))
  ])
]
