-- ===== src/Crypto/Rsa/Pss/Split.antt =====
-- How an encoded message falls apart: the masked block, the hash and the last byte; the padding,
-- the mark and the salt.
use skarbiec.Prelude.{
  ℕ, zero, suc, ◌+◌, ◌<◌, ◌≤◌, ◌≡◌, refl, ◌∙◌, sym, ap, false, some, List, [], ◌∷◌, ◌++◌, ◌==◌,
  arith, length, take, drop, inl, inr, Bool-cases, Option-cases, ==_iff,
}
use skarbiec.Crypto.Bignum.{last, get_elem?, zeros}
use skarbiec.Crypto.Bignum.Bytes.Value.{AreBytes}
use skarbiec.Crypto.Rsa.Pss.{any_nonzero}
use skarbiec.Crypto.Rsa.Pss.Unused.{some_same}

pub take_all : (xs ys : List ℕ) → take (length xs) (xs ++ ys) ≡ xs
take_all [] ys = refl
take_all (x ∷ xs) ys = ap (λ (zs : List ℕ). x ∷ zs) (take_all xs ys)

pub drop_all : (xs ys : List ℕ) → drop (length xs) (xs ++ ys) ≡ ys
drop_all [] ys = refl
drop_all (x ∷ xs) ys = drop_all xs ys

pub take-append-drop_lem : (n : ℕ) (xs : List ℕ) → take n xs ++ drop n xs ≡ xs
take-append-drop_lem zero xs = refl
take-append-drop_lem (suc n) [] = refl
take-append-drop_lem (suc n) (x ∷ xs) = ap (λ (ys : List ℕ). x ∷ ys) (take-append-drop_lem n xs)

pub take-AreBytes : (n : ℕ) (xs : List ℕ) → AreBytes xs → AreBytes (take n xs)
take-AreBytes zero xs h = tt
take-AreBytes (suc n) [] h = tt
take-AreBytes (suc n) (x ∷ xs) h = (h.0, take-AreBytes n xs h.1)

pub drop-AreBytes : (n : ℕ) (xs : List ℕ) → AreBytes xs → AreBytes (drop n xs)
drop-AreBytes zero xs h = h
drop-AreBytes (suc n) [] h = tt
drop-AreBytes (suc n) (x ∷ xs) h = drop-AreBytes n xs h.1

pub any_nonzero-zeros : (n : ℕ) → any_nonzero (zeros n) ≡ false
unfolding zeros
any_nonzero-zeros zero = refl
any_nonzero-zeros (suc n) = any_nonzero-zeros n

pub all_zeros :
    (n : ℕ) (xs : List ℕ) → n ≤ length xs → any_nonzero (take n xs) ≡ false → take n xs ≡ zeros n
unfolding zeros
all_zeros zero xs h e = refl
all_zeros (suc n) [] h e = absurd (omega (arith, h))
all_zeros (suc n) (x ∷ xs) h e = elim (Bool-cases (x == 0)) [
  | inl z ↦ rw ((==_iff x 0).0 z, all_zeros n xs (omega (arith, h)) (rw z at e)) refl
  | inr nz ↦ absurd (ground (arith, e, nz))
]

pub last-snoc : (xs : List ℕ) (x : ℕ) → last (xs ++ x ∷ []) ≡ some x
unfolding last
last-snoc [] x = refl
last-snoc (y ∷ xs) x = rw (last-snoc xs x) refl

last-cons : (y z : ℕ) (xs : List ℕ) → last (y ∷ z ∷ xs) ≡ last (z ∷ xs)
unfolding last
last-cons y z xs = elim (Option-cases (last xs)) [ inl e ↦ rw e refl | inr e ↦ rw e.1 refl ]

-- A list of one more element than `n` whose last one is `x`.
pub before_last :
    (n : ℕ) (xs : List ℕ) (x : ℕ) → length xs ≡ suc n → last xs ≡ some x → xs ≡ take n xs ++ x ∷ []
unfolding last
before_last n [] x h e = absurd (omega (arith, h))
before_last zero (y ∷ []) x h e = ap (λ (z : ℕ). z ∷ []) (some_same e)
before_last zero (y ∷ z ∷ xs) x h e = absurd (omega (arith, h))
before_last (suc n) (y ∷ []) x h e = absurd (omega (arith, h))
before_last (suc n) (y ∷ z ∷ xs) x h e =
    ap (λ (ys : List ℕ). y ∷ ys)
      (before_last n (z ∷ xs) x (omega (arith, h)) (sym (last-cons y z xs) ∙ e))

shifted : (m n : ℕ) → suc m + n ≡ suc (m + n)
shifted m n = omega arith

pub take_sum : (m n : ℕ) (xs : List ℕ) → take (m + n) xs ≡ take m xs ++ take n (drop m xs)
take_sum zero n xs = ap (λ (k : ℕ). take k xs) (omega arith)
take_sum (suc m) n [] = ap (λ (k : ℕ). take k []) (shifted m n) ∙ sym (take_nothing n)
  where
    take_nothing : (n : ℕ) → take {A = ℕ} n [] ≡ []
    take_nothing zero = refl
    take_nothing (suc n) = refl
take_sum (suc m) n (x ∷ xs) =
    ap (λ (k : ℕ). take k (x ∷ xs)) (shifted m n) ∙ ap (λ (ys : List ℕ). x ∷ ys) (take_sum m n xs)

pub marked :
    (n : ℕ) (xs : List ℕ) (x : ℕ) → get_elem? xs n ≡ some x → drop n xs ≡ x ∷ drop (suc n) xs
unfolding get_elem?
marked n [] x e = absurd (ground (arith, e))
marked zero (y ∷ xs) x e = ap (λ (z : ℕ). z ∷ xs) (some_same e)
marked (suc n) (y ∷ xs) x e = marked n xs x e

pub get_elem-ends : (n : ℕ) (xs : List ℕ) → n < length xs → (x : ℕ) × (get_elem? xs n ≡ some x)
unfolding get_elem?
get_elem-ends n [] h = absurd (omega (arith, h))
get_elem-ends zero (x ∷ xs) h = (x, refl)
get_elem-ends (suc n) (x ∷ xs) h = get_elem-ends n xs (omega (arith, h))

pub get_elem_behind : (n x : ℕ) (xs : List ℕ) → get_elem? (zeros n ++ x ∷ xs) n ≡ some x
unfolding get_elem? zeros
get_elem_behind zero x xs = refl
get_elem_behind (suc n) x xs = get_elem_behind n x xs
