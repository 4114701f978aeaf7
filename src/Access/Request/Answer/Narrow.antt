-- ===== src/Access/Request/Answer/Narrow.antt =====
-- A grant lies within the bounds that every approving decider stated.
use mathlib.Core.Path.{subst}
use skarbiec.Prelude.{
  ℕ, ◌≤◌, ◌⊎◌, if◌then◌else◌, ◌≡◌, refl, Option, none, some, List, [], ◌∷◌, arith, All, ltb, ok,
  Option-cases, Result-cases, inl, inr,
}
use skarbiec.Access.Request.Lifetime.{Lifetime, seconds, until_revoked, narrower}
use skarbiec.Access.Request.Register.{Decision}
use skarbiec.Access.Request.Answer.{lifetimes, reduce, narrowest, fewest, lesser}

-- The first lifetime is within the second.
abbrev pub IsWithin : Lifetime → Lifetime → Type 0
IsWithin (seconds a) (seconds b) = a ≤ b
IsWithin until_revoked (seconds b) = ⊥
IsWithin l until_revoked = Unit

IsWithin-refl : (l : Lifetime) → IsWithin l l
IsWithin-refl (seconds a) = omega arith
IsWithin-refl until_revoked = tt

IsWithin-trans : (k l m : Lifetime) → IsWithin k l → IsWithin l m → IsWithin k m
IsWithin-trans (seconds a) (seconds b) (seconds c) h j = omega arith
IsWithin-trans (seconds a) (seconds b) until_revoked h j = tt
IsWithin-trans (seconds a) until_revoked (seconds c) h j = absurd j
IsWithin-trans (seconds a) until_revoked until_revoked h j = tt
IsWithin-trans until_revoked (seconds b) m h j = absurd h
IsWithin-trans until_revoked until_revoked m h j = j

narrower-left : (k l : Lifetime) → IsWithin (narrower k l) k
unfolding narrower
narrower-left (seconds a) (seconds b) = ground arith
narrower-left (seconds a) until_revoked = omega arith
narrower-left until_revoked (seconds b) = tt
narrower-left until_revoked until_revoked = tt

narrower-right : (k l : Lifetime) → IsWithin (narrower k l) l
unfolding narrower
narrower-right (seconds a) (seconds b) = ground arith
narrower-right (seconds a) until_revoked = tt
narrower-right until_revoked l = IsWithin-refl l

reduce-first : (l : Lifetime) (ls : List Lifetime) → IsWithin (reduce l ls) l
unfolding reduce
reduce-first l [] = IsWithin-refl l
reduce-first l (m ∷ ms) =
    IsWithin-trans (reduce (narrower l m) ms) (narrower l m) l (reduce-first (narrower l m) ms)
      (narrower-left l m)

reduce-rest : (l : Lifetime) (ls : List Lifetime) → All (IsWithin (reduce l ls)) ls
unfolding reduce
reduce-rest l [] = tt
reduce-rest l (m ∷ ms) = (
  IsWithin-trans (reduce (narrower l m) ms) (narrower l m) m (reduce-first (narrower l m) ms)
      (narrower-right l m),
  reduce-rest (narrower l m) ms,
)

-- The lifetime is within the one that a decision states.
abbrev pub IsWithinDecision : Lifetime → Decision → Type 0
IsWithinDecision bound d = (l : Lifetime) → d.lifetime ≡ some l → IsWithin bound l

lifetimes-IsWithin :
    (bound : Lifetime) (ds : List Decision) {ls : List Lifetime}
    → lifetimes ds ≡ ok ls
    → All (IsWithin bound) ls
    → All (IsWithinDecision bound) ds
unfolding lifetimes
lifetimes-IsWithin bound [] h all = tt
lifetimes-IsWithin bound (d ∷ ds) {ls} h all = elim (Option-cases d.lifetime) [
  | inl unsaid ↦ absurd (ground arith)
  | inr (l, said) ↦ elim (Result-cases (lifetimes ds)) [
    | inr (e, bad) ↦ absurd (ground arith)
    | inl (ms, rest) ↦
        let whole : ls ≡ l ∷ ms = ground arith in
        let (first, others) = (rw whole at all) in
        (
          λ m stated. subst (IsWithin bound) (cc (said, stated)) first,
          lifetimes-IsWithin bound ds rest others,
        )
  ]
]

pub narrowest-IsWithin :
    (ds : List Decision) {bound : Lifetime}
    → narrowest ds ≡ ok bound
    → All (IsWithinDecision bound) ds
unfolding narrowest
narrowest-IsWithin ds {bound} h = elim (Result-cases (lifetimes ds)) [
  | inr (e, bad) ↦ absurd (ground arith)
  | inl ([], read) ↦ absurd (ground arith)
  | inl (l ∷ ls, read) ↦
      let least : reduce l ls ≡ bound = ground arith in
      lifetimes-IsWithin bound ds read
        (subst (λ b. All (IsWithin b) (l ∷ ls)) least (reduce-first l ls, reduce-rest l ls))
]

-- The number is at most the uses that a decision states.
abbrev pub IsAtMost : ℕ → Decision → Type 0
IsAtMost n d = (k : ℕ) → d.uses ≡ some k → n ≤ k

pub IsAtMost-le : (m n : ℕ) (ds : List Decision) → m ≤ n → All (IsAtMost n) ds → All (IsAtMost m) ds
IsAtMost-le m n [] h all = tt
IsAtMost-le m n (d ∷ ds) h (first, all) =
    (λ k e. omega (arith, first k e), IsAtMost-le m n ds h all)

lesser-none : (a b : Option ℕ) → lesser a b ≡ none → (a ≡ none) × (b ≡ none)
lesser-none none b h = (refl, h)
lesser-none (some a) none h = cc
lesser-none (some a) (some b) h = cc

fewest-none : (n : ℕ) (ds : List Decision) → fewest ds ≡ none → All (IsAtMost n) ds
unfolding fewest
fewest-none n [] h = tt
fewest-none n (d ∷ ds) h =
    let (none_first, none_rest) = lesser-none d.uses (fewest ds) h in
    (λ k e. absurd (cc (none_first, e)), fewest-none n ds none_rest)

-- The lesser is one of the two, and at most each of them.
lesser-some :
    (a b : Option ℕ) {n : ℕ}
    → lesser a b ≡ some n
    → ((k : ℕ) → a ≡ some k → n ≤ k) × ((b ≡ none) ⊎ ((m : ℕ) × (b ≡ some m) × (n ≤ m)))
lesser-some none none h = cc
lesser-some none (some b) h = (λ k e. cc, inr (b, refl, ground arith))
lesser-some (some a) none h = (λ k e. ground arith, inl refl)
lesser-some (some a) (some b) {n} h =
    let least : n ≡ (if ltb b a then b else a) = ground arith in
    (λ k e. ground arith, inr (b, refl, ground arith))

pub fewest-IsAtMost : (ds : List Decision) {n : ℕ} → fewest ds ≡ some n → All (IsAtMost n) ds
unfolding fewest
fewest-IsAtMost [] h = tt
fewest-IsAtMost (d ∷ ds) {n} h =
    let (first, others) = lesser-some d.uses (fewest ds) h in
    elim others [
      | inl nothing ↦ (first, fewest-none n ds nothing)
      | inr (m, least, le) ↦ (first, IsAtMost-le n m ds le (fewest-IsAtMost ds least))
    ]
