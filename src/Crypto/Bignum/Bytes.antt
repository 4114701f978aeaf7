-- ===== src/Crypto/Bignum/Bytes.antt =====
-- `from_be_bytes` and `to_be_bytes`: what the source does chunk by chunk and byte by byte.
pub mod Value
pub mod RoundTrip
use mathlib.Core.List.{reverse}
use skarbiec.Prelude.{
  ℕ, zero, suc, ◌+◌, ◌-◌, ◌*◌, ◌/◌, ◌%◌, ◌^◌, List, [], ◌∷◌, ◌++◌, Option, some, none, length, take,
  drop, if◌then◌else◌, ltb, ◌==◌,
}
use skarbiec.Crypto.Bignum.{Big, trimmed, bits}

-- `u64::from_be_bytes` of a chunk, which stands at the low end of the eight bytes.
unfoldable pub be_from : ℕ → List ℕ → ℕ
be_from acc [] = acc
be_from acc (b ∷ bs) = be_from (acc * 256 + b) bs

abbrev pub be_value : List ℕ → ℕ
be_value bytes = be_from 0 bytes

-- The limbs of `rchunks(8)`, which takes its chunks from the end. There is at most a chunk a byte.
unfoldable pub rchunk_limbs : ℕ → List ℕ → List ℕ
rchunk_limbs zero bytes = []
rchunk_limbs (suc fuel) bytes =
    let more = rchunk_limbs fuel (take (length bytes - 8) bytes) in
    if length bytes == 0 then [] else be_value (drop (length bytes - 8) bytes) ∷ more

unfoldable pub from_be_bytes : List ℕ → Big
from_be_bytes bytes = trimmed (rchunk_limbs (length bytes) bytes)

-- `u64::to_le_bytes`.
unfoldable pub to_le_bytes : ℕ → ℕ → List ℕ
to_le_bytes zero limb = []
to_le_bytes (suc n) limb = (limb % 256) ∷ to_le_bytes n (limb / 256)

-- The bytes of the limbs, the lowest first.
unfoldable pub limb_bytes : List ℕ → List ℕ
limb_bytes [] = []
limb_bytes (l ∷ ls) = to_le_bytes 8 l ++ limb_bytes ls

-- `out`, read from its end: the bytes that are `at < length`, and the zeros it began with.
unfoldable pub fill : ℕ → List ℕ → List ℕ
fill zero bytes = []
fill (suc n) [] = 0 ∷ fill n []
fill (suc n) (b ∷ bs) = b ∷ fill n bs

unfoldable pub to_be_bytes : Big → ℕ → Option (List ℕ)
to_be_bytes a n =
    if ltb (n * 8) (bits a) then none else some (reverse (fill n (limb_bytes a.limbs)))
