-- ===== src/Crypto/Rsa/Pss.antt =====
-- `verify_pss` and MGF1 of crates/crypto/src/rsa.rs.
pub mod Mask
pub mod Unused
pub mod Split
pub mod Encoding
pub mod Message
pub mod Accept
pub mod Verify
use mathlib.Core.List.{reverse}
use skarbiec.Prelude.{
  ℕ, zero, suc, ◌+◌, ◌-◌, ◌*◌, ◌/◌, ◌%◌, ◌^◌, Bool, true, false, Option, none, some, List, [], ◌∷◌,
  ◌++◌, ltb, ◌==◌, ◌||◌, not, if◌then◌else◌, length, take, drop, any,
}
use skarbiec.Crypto.Bignum.{bits, or_panic, last, get_elem?, zeros}
use skarbiec.Crypto.Bignum.Bytes.{to_le_bytes}
use skarbiec.Crypto.Rsa.{
  HashAlg, Hasher, PublicKey, div_ceil_8, output_len, open_signature, opened_or_false, bytes_eq,
}

-- The exclusive or of the low `n` bits.
unfoldable pub xor_bits : ℕ → ℕ → ℕ → ℕ
xor_bits zero a b = 0
xor_bits (suc n) a b = (a % 2 + b % 2) % 2 + 2 * xor_bits n (a / 2) (b / 2)

-- `*byte ^= mask` for the pairs of `zip`, which ends with the shorter list.
unfoldable pub xor_zip : List ℕ → List ℕ → List ℕ
xor_zip [] ms = []
xor_zip (b ∷ bs) [] = b ∷ bs
xor_zip (b ∷ bs) (m ∷ ms) = xor_bits 8 b m ∷ xor_zip bs ms

-- `counter.to_be_bytes()` of a `u32`.
abbrev pub counter_bytes : ℕ → List ℕ
counter_bytes counter = reverse (to_le_bytes 4 counter)

-- The loop of `mgf1`. Running out of fuel is `none`.
unfoldable pub mgf1_loop : Hasher → HashAlg → List ℕ → ℕ → ℕ → ℕ → List ℕ → Option (List ℕ)
mgf1_loop hasher hash seed size zero counter out = if ltb (length out) size then none else some out
mgf1_loop hasher hash seed size (suc fuel) counter out =
    let block = hasher.digest_parts hash (seed ∷ counter_bytes counter ∷ []) in
    let rest = mgf1_loop hasher hash seed size fuel ((counter + 1) % 2 ^ 32) (out ++ block) in
    if ltb (length out) size then rest else some out

-- Every pass adds a byte at least, so the length is fuel enough.
unfoldable pub mgf1 : Hasher → HashAlg → List ℕ → ℕ → Option (List ℕ)
mgf1 hasher hash seed size =
    or_panic (mgf1_loop hasher hash seed size size 0 []) λ out. some (take size out)

-- `masked_db[0] >> (8 - unused_bits) != 0`, asked only where bits are unused.
unfoldable pub high_bits_set : ℕ → List ℕ → Option Bool
high_bits_set zero bs = some false
high_bits_set (suc u) [] = none
high_bits_set (suc u) (b ∷ bs) = some (not (b / 2 ^ (8 - suc u) == 0))

-- `db[0] &= 0xff >> unused_bits`.
unfoldable pub clear_high : ℕ → List ℕ → Option (List ℕ)
clear_high zero bs = some bs
clear_high (suc u) [] = none
clear_high (suc u) (b ∷ bs) = some (b % 2 ^ (8 - suc u) ∷ bs)

abbrev pub any_nonzero : List ℕ → Bool
any_nonzero bs = any (λ b. not (b == 0)) bs

abbrev pub is_byte : Option ℕ → ℕ → Bool
is_byte o x = elim o [ none ↦ false | some b ↦ b == x ]

-- `expected == h`, for the salt behind the padding.
abbrev pub same_hash : Hasher → HashAlg → List ℕ → List ℕ → List ℕ → Bool
same_hash hasher hash message h salt =
    bytes_eq (hasher.digest_parts hash (zeros 8 ∷ hasher.digest hash message ∷ salt ∷ [])) h

unfoldable pub check_db : Hasher → HashAlg → List ℕ → List ℕ → List ℕ → ℕ → Option Bool
check_db hasher hash message h db padding =
    if any_nonzero (take padding db)
    then some false
    else or_panic (get_elem? db padding) λ mark.
      if not (mark == 1)
      then some false
      else some (same_hash hasher hash message h (drop (padding + 1) db))

unfoldable pub check_masked : Hasher → HashAlg → List ℕ → List ℕ → List ℕ → ℕ → ℕ → Option Bool
check_masked hasher hash message masked_db h unused_bits padding =
    or_panic (high_bits_set unused_bits masked_db) λ high.
      if high
      then some false
      else or_panic (mgf1 hasher hash h (length masked_db)) λ mask.
        or_panic (clear_high unused_bits (xor_zip mask masked_db))
          λ db. check_db hasher hash message h db padding

unfoldable pub check_em : Hasher → HashAlg → List ℕ → ℕ → ℕ → List ℕ → Option Bool
check_em hasher hash message salt_len em_bits em =
    let em_len = div_ceil_8 em_bits in
    let h_len = output_len hash in
    if ltb em_len (h_len + salt_len + 2) || not (is_byte (last em) 188)
    then some false
    else check_masked hasher hash message (take (em_len - h_len - 1) em)
        (take h_len (drop (em_len - h_len - 1) em)) (8 * em_len - em_bits)
        (em_len - h_len - salt_len - 2)

unfoldable pub verify_pss : Hasher → PublicKey → HashAlg → List ℕ → List ℕ → ℕ → Option Bool
verify_pss hasher key hash message signature salt_len =
    opened_or_false (open_signature key signature) λ em_full.
      let em_bits = bits key.n - 1 in
      let above = length em_full - div_ceil_8 em_bits in
      if any_nonzero (take above em_full)
      then some false
      else check_em hasher hash message salt_len em_bits (drop above em_full)
