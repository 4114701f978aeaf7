-- ===== src/Crypto/Rsa.antt =====
-- crates/crypto/src/rsa.rs: RSA signature verification. What the source takes of sha.rs is the
-- `Hasher`; what would panic is `none`.
pub mod Open
pub mod Pkcs1
pub mod Pss
mod Runs
use mathlib.Core.List.{reverse}
use skarbiec.Prelude.{
  ℕ, zero, suc, ◌+◌, ◌-◌, ◌*◌, ◌/◌, ◌%◌, ◌^◌, Bool, true, false, Option, none, some, List, [], ◌∷◌,
  ◌++◌, ltb, ◌==◌, ◌&&◌, if◌then◌else◌, length, take, drop, any,
}
use skarbiec.Crypto.Bignum.{Big, cmp, is_less, mod_pow, bits, or_panic, last, get_elem?, zeros}
use skarbiec.Crypto.Bignum.Bytes.{from_be_bytes, to_be_bytes, to_le_bytes}

pub data HashAlg : Type 0 where
  sha256 sha384 sha512 : HashAlg

abbrev pub output_len : HashAlg → ℕ
output_len sha256 = 32
output_len sha384 = 48
output_len sha512 = 64

-- The hash functions, of one slice and of several in a row.
pub record Hasher : Type 0 where
  pub digest : HashAlg → List ℕ → List ℕ
  pub digest_parts : HashAlg → List (List ℕ) → List ℕ

-- The DER DigestInfo prefixes.
abbrev pub digest_info : HashAlg → List ℕ
digest_info sha256 =
    48 ∷ 49 ∷ 48 ∷ 13 ∷ 6 ∷ 9 ∷ 96 ∷ 134 ∷ 72 ∷ 1 ∷ 101 ∷ 3 ∷ 4 ∷ 2 ∷ 1 ∷ 5 ∷ 0 ∷ 4 ∷ 32 ∷ []
digest_info sha384 =
    48 ∷ 65 ∷ 48 ∷ 13 ∷ 6 ∷ 9 ∷ 96 ∷ 134 ∷ 72 ∷ 1 ∷ 101 ∷ 3 ∷ 4 ∷ 2 ∷ 2 ∷ 5 ∷ 0 ∷ 4 ∷ 48 ∷ []
digest_info sha512 =
    48 ∷ 81 ∷ 48 ∷ 13 ∷ 6 ∷ 9 ∷ 96 ∷ 134 ∷ 72 ∷ 1 ∷ 101 ∷ 3 ∷ 4 ∷ 2 ∷ 3 ∷ 5 ∷ 0 ∷ 4 ∷ 64 ∷ []

pub record PublicKey : Type 0 where
  pub n : Big
  pub e : Big

abbrev pub new_key : List ℕ → List ℕ → PublicKey
new_key modulus exponent = record { n = from_be_bytes modulus; e = from_be_bytes exponent }

-- `usize::div_ceil(8)`.
abbrev pub div_ceil_8 : ℕ → ℕ
div_ceil_8 n = (n + 7) / 8

abbrev pub size : PublicKey → ℕ
size key = div_ceil_8 (bits key.n)

-- The outer `none` is a panic of `mod_pow`, the inner one the answer.
unfoldable pub open_signature : PublicKey → List ℕ → Option (Option (List ℕ))
open_signature key signature =
    let s = from_be_bytes signature in
    let carried = or_panic (mod_pow s key.e key.n) λ m. some (to_be_bytes m (size key)) in
    if length signature == size key
    then if is_less (cmp s key.n) then carried else some none
    else some none

unfoldable pub bytes_eq : List ℕ → List ℕ → Bool
bytes_eq [] [] = true
bytes_eq [] (y ∷ ys) = false
bytes_eq (x ∷ xs) [] = false
bytes_eq (x ∷ xs) (y ∷ ys) = (x == y) && bytes_eq xs ys

-- `Vec::resize`.
unfoldable pub resize : ℕ → ℕ → List ℕ → List ℕ
resize zero x xs = []
resize (suc n) x [] = x ∷ resize n x []
resize (suc n) x (y ∷ ys) = y ∷ resize n x ys

abbrev pub opened_or_false : Option (Option (List ℕ)) → (List ℕ → Option Bool) → Option Bool
opened_or_false o next = or_panic o λ opened. elim opened [ none ↦ some false | some em ↦ next em ]

-- `expected == em` for an encoded message of `em_len` bytes.
abbrev pub expected : Hasher → HashAlg → List ℕ → ℕ → List ℕ
expected hasher hash message em_len =
    let info = digest_info hash in
    let t = info ++ hasher.digest hash message in
    resize (em_len - (length info + output_len hash) - 1) 255 (0 ∷ 1 ∷ []) ++ 0 ∷ t

unfoldable pub verify_pkcs1v15 : Hasher → PublicKey → HashAlg → List ℕ → List ℕ → Option Bool
verify_pkcs1v15 hasher key hash message signature =
    opened_or_false (open_signature key signature) λ em.
      if ltb (length em) (length (digest_info hash) + output_len hash + 11)
      then some false
      else some (bytes_eq (expected hasher hash message (length em)) em)
