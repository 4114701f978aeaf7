-- ===== src/Crypto/Base64.antt =====
-- Radix-64 text (crates/crypto/src/openpgp/armor.rs), as its bytes.
pub mod RoundTrip
mod Runs
use skarbiec.Prelude.{
  ℕ, zero, suc, ◌+◌, ◌-◌, ◌*◌, ◌/◌, ◌%◌, ◌^◌, Bool, true, false, ◌||◌, Option, none, some, List, [],
  ◌∷◌, ◌++◌, leb, ◌==◌, if◌then◌else◌, Result, ok, err, ◌>>=◌, String,
}
use skarbiec.Prelude.Text.{codes}

abbrev pub alphabet : List ℕ
alphabet = codes "ABCDEFGHIJKLMNOPQRSTUVWXYZabcdefghijklmnopqrstuvwxyz0123456789+/"

-- `ALPHABET[i]`; the source takes it only below 64.
abbrev pub at : ℕ → List ℕ → ℕ
at i [] = 0
at zero (c ∷ cs) = c
at (suc i) (c ∷ cs) = at i cs

-- `iter().position(|&a| a == c)`, counted from `i`.
unfoldable pub position : ℕ → ℕ → List ℕ → Option ℕ
position c i [] = none
position c i (a ∷ as_) = let later = position c (suc i) as_ in if a == c then some i else later

unfoldable pub symbol : ℕ → ℕ
symbol v = at v alphabet

-- The six bits of a 24-bit number from bit `2 ^ k` up, as a symbol.
abbrev pub sextet : ℕ → ℕ → ℕ
sextet n k = symbol (n / 2 ^ k % 64)

abbrev pub joined : ℕ → ℕ → ℕ → ℕ
joined a b c = a * 2 ^ 16 + b * 2 ^ 8 + c

unfoldable pub base64_encode : List ℕ → List ℕ
base64_encode [] = []
base64_encode (a ∷ []) = sextet (joined a 0 0) 18 ∷ sextet (joined a 0 0) 12 ∷ b'=' ∷ b'=' ∷ []
base64_encode (a ∷ b ∷ []) =
    sextet (joined a b 0) 18 ∷ sextet (joined a b 0) 12 ∷ sextet (joined a b 0) 6 ∷ b'=' ∷ []
base64_encode (a ∷ b ∷ c ∷ bs) =
    sextet (joined a b c) 18
    ∷ sextet (joined a b c) 12
    ∷ sextet (joined a b c) 6
    ∷ sextet (joined a b c) 0
    ∷ base64_encode bs

pub data BadArmor : Type 0 where
  not_radix_64 : ℕ → BadArmor

-- `u8::is_ascii_whitespace`
abbrev pub is_space : ℕ → Bool
is_space c = c == 9 || c == 10 || c == 12 || c == 13 || c == 32

abbrev grown : List ℕ → Result BadArmor (List ℕ) → Result BadArmor (List ℕ)
grown out (ok bs) = ok (out ++ bs)
grown out (err e) = err e

-- The loop on the text: `accumulator` is a word of 32 bits, whose shift drops what goes beyond it.
unfoldable pub decode_from : ℕ → ℕ → List ℕ → Result BadArmor (List ℕ)
decode_from accumulator bits [] = ok []
decode_from accumulator bits (c ∷ cs) =
    let skipped = decode_from accumulator bits cs in
    let shifted : ℕ → ℕ = λ value. accumulator * 64 % 2 ^ 32 + value in
    let short : ℕ → Result BadArmor (List ℕ) = λ value. decode_from (shifted value) (bits + 6) cs in
    let full : ℕ → Result BadArmor (List ℕ) = λ value.
      grown (shifted value / 2 ^ (bits + 6 - 8) % 256 ∷ [])
        (decode_from (shifted value) (bits + 6 - 8) cs) in
    if c == b'=' then ok [] else if is_space c then skipped else elim (position c 0 alphabet) [
      | none ↦ err (not_radix_64 c)
      | some value ↦ if leb 8 (bits + 6) then full value else short value
    ]

unfoldable pub base64_decode : List ℕ → Result BadArmor (List ℕ)
base64_decode text = decode_from 0 0 text
