-- ===== src/Access/Grant/Rules/Spelled.antt =====
-- How a list of capabilities is written: `action:item[#field]`, with commas between them.
use Prim.Native.Char.{code}
use skarbiec.Prelude.{
  ℕ, String, ◌≡◌, refl, ap, sym, ◌∙◌, Option, none, some, List, [], ◌∷◌, ◌++◌, arith, map, ◌==◌,
  ==_iff, Bool-cases, Option-cases, inl, inr,
}
use skarbiec.Prelude.Text.{codes, split, split_once}
use skarbiec.Access.Grant.{Capability}

abbrev pub text_codes : Option String → List ℕ
text_codes none = []
text_codes (some s) = codes s

abbrev pub field_codes : Option String → List ℕ
field_codes none = []
field_codes (some s) = b'#' ∷ codes s

abbrev pub capability_codes : Capability → List ℕ
capability_codes c = text_codes c.action ++ b':' ∷ (text_codes c.item ++ field_codes c.field)

-- The texts with a comma between them.
abbrev pub joined : List (List ℕ) → List ℕ
joined [] = []
joined (x ∷ []) = x
joined (x ∷ y ∷ ys) = x ++ b',' ∷ joined (y ∷ ys)

abbrev parts_of : Option (String × String) → String × String
parts_of none = (String.[], String.[])
parts_of (some p) = p

abbrev parted : ℕ → String × String → List ℕ
parted sep p = codes p.0 ++ sep ∷ codes p.1

-- A text that is split once is its two parts with the separator between them.
pub split_once-codes :
    (sep : ℕ) (s : String) {a b : String}
    → split_once sep s ≡ some (a, b)
    → codes s ≡ codes a ++ sep ∷ codes b
unfolding split_once
split_once-codes sep String.[] h = absurd (ground (arith, h))
split_once-codes sep (String.◌∷◌ c s) {a} {b} h = elim (Bool-cases (code c == sep)) [
  | inl here ↦
      let e : some (String.[], s) ≡ some (a, b) = rw here at h in
      ap (λ (x : ℕ). x ∷ codes s) ((==_iff (code c) sep).0 here)
      ∙ ap (λ (o : Option (String × String)). parted sep (parts_of o)) e
  | inr past ↦ elim (Option-cases (split_once sep s)) [
    | inl nowhere ↦ absurd (ground arith)
    | inr ((x, y), found) ↦
        let e : some (String.◌∷◌ c x, y) ≡ some (a, b) = rw (past, found) at h in
        ap (λ (xs : List ℕ). code c ∷ xs) (split_once-codes sep s {a = x} {b = y} found)
        ∙ ap (λ (o : Option (String × String)). parted sep (parts_of o)) e
  ]
]

split-cons : (sep : ℕ) (s : String) → (x : String) × (xs : List String) × (split sep s ≡ x ∷ xs)
unfolding split
split-cons sep String.[] = (String.[], [], refl)
split-cons sep (String.◌∷◌ c s) =
    let rest = split-cons sep s in
    elim (Bool-cases (code c == sep)) [
      | inl here ↦ (String.[], split sep s, rw here refl)
      | inr past ↦ (String.◌∷◌ c rest.0, rest.1, rw (past, rest.2) refl)
    ]

joined-grown :
    (c : ℕ) (x : List ℕ) (xs : List (List ℕ)) → joined ((c ∷ x) ∷ xs) ≡ c ∷ joined (x ∷ xs)
joined-grown c x [] = refl
joined-grown c x (y ∷ ys) = refl

-- The pieces that a text is split into are the text again, with the commas between them.
pub joined-split : (s : String) → joined (map codes (split b',' s)) ≡ codes s
unfolding split
joined-split String.[] = refl
joined-split (String.◌∷◌ c s) =
    let rest = split-cons b',' s in
    let before = ap (λ (xs : List String). joined (map codes xs)) (sym rest.2) ∙ joined-split s in
    elim (Bool-cases (code c == b',')) [
      | inl here ↦
          rw (here, rest.2, (==_iff (code c) b',').0 here) (ap (λ (xs : List ℕ). b',' ∷ xs) before)
      | inr past ↦
          rw (past, rest.2)
            (joined-grown (code c) (codes rest.0) (map codes rest.1)
              ∙ ap (λ (xs : List ℕ). code c ∷ xs) before)
    ]
