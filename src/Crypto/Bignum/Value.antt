-- ===== src/Crypto/Bignum/Value.antt =====
-- The number that a list of limbs stands for, and what `trim` keeps of it.
use native.Mathlib.Nat.{pow-suc}
use skarbiec.Prelude.{
  ℕ, zero, suc, ◌+◌, ◌*◌, ◌^◌, ◌<◌, ◌≤◌, ◌≡◌, refl, ◌∙◌, true, Option, some, List, [], ◌∷◌, arith,
  length, All, ◌↔◌,
}
use skarbiec.Crypto.Bignum.{Big, limb_base, trim, trimmed, zeros, is_zero, zero_big}

unfoldable pub value_of : List ℕ → ℕ
value_of [] = 0
value_of (x ∷ xs) = x + limb_base * value_of xs

abbrev pub value : Big → ℕ
value a = value_of a.limbs

abbrev pub AreWords : List ℕ → Type 0
AreWords xs = All (λ x. x < limb_base) xs

-- No zero stands at the high end.
unfoldable pub IsTrimmed : List ℕ → Type 0
IsTrimmed [] = Unit
IsTrimmed (x ∷ []) = 0 < x
IsTrimmed (x ∷ y ∷ ys) = IsTrimmed (y ∷ ys)

pub record IsValid (a : Big) : Type 0 where
  pub words : AreWords a.limbs
  pub high : IsTrimmed a.limbs

pub value_of-trim : (xs : List ℕ) → value_of (trim xs) ≡ value_of xs
unfolding value_of trim
value_of-trim [] = refl
value_of-trim (x ∷ xs) = ground (arith, value_of-trim xs)

pub trim-AreWords : (xs : List ℕ) → AreWords xs → AreWords (trim xs)
unfolding trim
trim-AreWords [] h = tt
trim-AreWords (x ∷ xs) h = ground (arith, trim-AreWords xs h.1)

pub trim-IsTrimmed : (xs : List ℕ) → IsTrimmed (trim xs)
unfolding trim IsTrimmed
trim-IsTrimmed [] = tt
trim-IsTrimmed (x ∷ xs) = ground (arith, trim-IsTrimmed xs)

pub trimmed-IsValid : (xs : List ℕ) → AreWords xs → IsValid (trimmed xs)
trimmed-IsValid xs h = record { words = trim-AreWords xs h; high = trim-IsTrimmed xs }

pub value_of-zeros : (n : ℕ) → value_of (zeros n) ≡ 0
unfolding value_of zeros
value_of-zeros zero = refl
value_of-zeros (suc n) = omega (arith, value_of-zeros n)

pub zeros-AreWords : (n : ℕ) → AreWords (zeros n)
unfolding zeros
zeros-AreWords zero = tt
zeros-AreWords (suc n) = (omega arith, zeros-AreWords n)

pub length-zeros : (n : ℕ) → length (zeros n) ≡ n
unfolding zeros
length-zeros zero = refl
length-zeros (suc n) = omega (arith, length-zeros n)

-- A trimmed list that is not empty stands for a number that its length shows.
pub IsTrimmed-tail : (x : ℕ) (xs : List ℕ) → IsTrimmed (x ∷ xs) → IsTrimmed xs
unfolding IsTrimmed
IsTrimmed-tail x [] h = tt
IsTrimmed-tail x (y ∷ ys) h = h

pub value_of-lt : (xs : List ℕ) → AreWords xs → value_of xs < limb_base ^ length xs
unfolding value_of
value_of-lt [] h = omega arith
value_of-lt (x ∷ xs) h = omega (arith, value_of-lt xs h.1, pow-suc limb_base (length xs))

pub value_of-high :
    (x : ℕ) (xs : List ℕ) → IsTrimmed (x ∷ xs) → limb_base ^ length xs ≤ value_of (x ∷ xs)
unfolding value_of IsTrimmed
value_of-high x [] h = omega arith
value_of-high x (y ∷ ys) h = omega (arith, value_of-high y ys h, pow-suc limb_base (length ys))

pub limb_base_pow-pos : (n : ℕ) → 0 < limb_base ^ n
limb_base_pow-pos zero = omega arith
limb_base_pow-pos (suc n) = omega (arith, limb_base_pow-pos n, pow-suc limb_base n)

no_limbs_iff :
    (xs : List ℕ) → IsTrimmed xs → (is_zero (record { limbs = xs }) ≡ true) ↔ (value_of xs ≡ 0)
unfolding is_zero value_of
no_limbs_iff [] h = ground arith
no_limbs_iff (x ∷ xs) h = ground (arith, value_of-high x xs h, limb_base_pow-pos (length xs))

-- Only zero has no limbs.
pub is_zero_iff : (a : Big) → IsValid a → (is_zero a ≡ true) ↔ (value a ≡ 0)
is_zero_iff a h = no_limbs_iff a.limbs h.high

-- What an operation returns: a valid number, and which.
pub record Returns (o : Option Big) (n : ℕ) : Type 0 where
  pub result : Big
  pub returned : o ≡ some result
  pub valid : IsValid result
  pub equals : value result ≡ n

pub trimmed-Returns :
    {o : Option Big} {n : ℕ} (xs : List ℕ)
    → o ≡ some (trimmed xs)
    → AreWords xs
    → value_of xs ≡ n
    → Returns o n
trimmed-Returns xs e h v = record {
  result = trimmed xs;
  returned = e;
  valid = trimmed-IsValid xs h;
  equals = value_of-trim xs ∙ v;
}

pub zero_big-IsValid : IsValid zero_big
unfolding IsTrimmed
zero_big-IsValid = record { words = tt; high = tt }

pub zero_big-Returns : {n : ℕ} → 0 ≡ n → Returns (some zero_big) n
unfolding value_of
zero_big-Returns e = record {
  result = zero_big;
  returned = refl;
  valid = zero_big-IsValid;
  equals = e;
}

pub Returns-eq : {o : Option Big} {n n' : ℕ} → n ≡ n' → Returns o n → Returns o n'
Returns-eq e h = record {
  result = h.result;
  returned = h.returned;
  valid = h.valid;
  equals = h.equals ∙ e;
}
