-- ===== src/Crypto/OpenPgp.antt =====
-- OpenPGP packets (crates/crypto/src/openpgp/mod.rs): bytes are split into packets, and a packet is
-- written with a five-octet length. A byte is a number below 256.
pub mod Progress
pub mod RoundTrip
mod Runs
use skarbiec.Prelude.{
  ℕ, zero, suc, ◌+◌, ◌-◌, ◌*◌, ◌/◌, ◌%◌, ◌^◌, Bool, true, false, Option, none, some, List, [], ◌∷◌,
  ◌++◌, ltb, ◌==◌, if◌then◌else◌, length, take, drop, Result, ok, err, ◌>>=◌, ◌>>◌, guard,
}

pub record Packet : Type 0 where
  pub tag : ℕ
  pub body : List ℕ

-- `cut_short` and `not_a_header` are refusals of the source; `out_of_fuel` is none of it.
pub data Stop : Type 0 where
  cut_short not_a_header out_of_fuel : Stop

-- `Reader::take`: the next bytes and those behind them.
unfoldable pub take_bytes : ℕ → List ℕ → Result Stop (List ℕ × List ℕ)
take_bytes n bs = if ltb (length bs) n then err cut_short else ok (take n bs, drop n bs)

unfoldable pub byte : List ℕ → Result Stop (ℕ × List ℕ)
byte [] = err cut_short
byte (b ∷ bs) = ok (b, bs)

-- `Reader::u16` and `Reader::u32`, big-endian.
unfoldable pub read_u16 : List ℕ → Result Stop (ℕ × List ℕ)
read_u16 (a ∷ b ∷ bs) = ok (a * 256 + b, bs)
read_u16 (a ∷ []) = err cut_short
read_u16 [] = err cut_short

unfoldable pub read_u32 : List ℕ → Result Stop (ℕ × List ℕ)
read_u32 (a ∷ b ∷ c ∷ d ∷ bs) = ok (((a * 256 + b) * 256 + c) * 256 + d, bs)
read_u32 (a ∷ b ∷ c ∷ []) = err cut_short
read_u32 (a ∷ b ∷ []) = err cut_short
read_u32 (a ∷ []) = err cut_short
read_u32 [] = err cut_short

-- The length of a chunk, and whether more chunks follow it.
pub record Length : Type 0 where
  pub octets : ℕ
  pub partial : Bool

abbrev whole : ℕ × List ℕ → Result Stop (Length × List ℕ)
whole (n, bs) = ok (record { octets = n; partial = false }, bs)

abbrev two_octets : ℕ → ℕ × List ℕ → Result Stop (Length × List ℕ)
two_octets first (second, bs) =
    ok (record { octets = (first - 192) * 256 + second + 192; partial = false }, bs)

abbrev length_from : ℕ → List ℕ → Result Stop (Length × List ℕ)
length_from first bs =
    if ltb first 192
    then ok (record { octets = first; partial = false }, bs)
    else if ltb first 224
    then byte bs >>= two_octets first
    else if ltb first 255
    then ok (record { octets = 2 ^ (first % 32); partial = true }, bs)
    else read_u32 bs >>= whole

unfoldable pub new_length : List ℕ → Result Stop (Length × List ℕ)
new_length [] = err cut_short
new_length (first ∷ bs) = length_from first bs

-- The chunks of a new-format body, joined.
abbrev joined : List ℕ → List ℕ × List ℕ → Result Stop (List ℕ × List ℕ)
joined chunk (more, bs) = ok (chunk ++ more, bs)

unfoldable pub body_of : ℕ → List ℕ → Result Stop (List ℕ × List ℕ)
body_of zero bs = err out_of_fuel
body_of (suc fuel) bs = do
  (l, after) ← new_length bs
  (chunk, left) ← take_bytes l.octets after
  let more = body_of fuel left
  if l.partial then more >>= joined chunk else ok (chunk, left)

abbrev counted : ℕ × List ℕ → Result Stop (List ℕ × List ℕ)
counted (n, bs) = take_bytes n bs

-- An old-format body: a length of one, two or four octets, or all that is left.
unfoldable pub old_body : ℕ → List ℕ → Result Stop (List ℕ × List ℕ)
old_body kind bs =
    if kind == 0
    then byte bs >>= counted
    else if kind == 1
    then read_u16 bs >>= counted
    else if kind == 2
    then read_u32 bs >>= counted
    else ok (bs, [])

abbrev with_tag : ℕ → List ℕ × List ℕ → Result Stop (Packet × List ℕ)
with_tag tag (body, bs) = ok (record { tag = tag; body = body }, bs)

-- One packet behind its header byte.
unfoldable pub packet_of : ℕ → List ℕ → Result Stop (Packet × List ℕ)
packet_of header bs =
    if ltb (header % 256) 128
    then err not_a_header
    else if ltb (header % 128) 64
    then old_body (header % 4) bs >>= with_tag (header / 4 % 16)
    else body_of (suc (length bs)) bs >>= with_tag (header % 64)

unfoldable pub packets_from : ℕ → List ℕ → Result Stop (List Packet)
packets_from fuel [] = ok []
packets_from zero (header ∷ bs) = err out_of_fuel
packets_from (suc fuel) (header ∷ bs) = do
  (p, left) ← packet_of header bs
  ps ← packets_from fuel left
  ok (p ∷ ps)

-- Every packet in the bytes, in order.
unfoldable pub packets : List ℕ → Result Stop (List Packet)
packets bs = packets_from (length bs) bs

-- `(n as u32).to_be_bytes()`
abbrev pub word_bytes : ℕ → List ℕ
word_bytes n = n / 2 ^ 24 % 256 ∷ n / 2 ^ 16 % 256 ∷ n / 2 ^ 8 % 256 ∷ n % 256 ∷ []

-- A new-format packet with a five-octet length.
unfoldable pub write_packet : Packet → List ℕ
write_packet p = (192 + p.tag % 64) ∷ 255 ∷ (word_bytes (length p.body % 2 ^ 32) ++ p.body)

unfoldable pub write_packets : List Packet → List ℕ
write_packets [] = []
write_packets (p ∷ ps) = write_packet p ++ write_packets ps
