-- ===== src/Crypto/OpenPgp/RoundTrip.antt =====
-- What is written as packets is read as the same packets.
use skarbiec.Prelude.{
  ℕ, zero, suc, ◌+◌, ◌*◌, ◌/◌, ◌%◌, ◌^◌, ◌≤◌, ◌<◌, false, ◌≡◌, refl, ap, List, [], ◌∷◌, ◌++◌, arith,
  ltb, All, length, take, drop, length-append, ok,
}
use skarbiec.Crypto.OpenPgp.{
  Packet, take_bytes, read_u32, new_length, body_of, packet_of, packets_from, packets, word_bytes,
  write_packet, write_packets,
}

-- A packet that the format can hold: its tag has six bits and its body's length a machine word.
pub record Fits (p : Packet) : Type 0 where
  pub tag : p.tag < 64
  pub body : length p.body < 2 ^ 32

take-append : (bs more : List ℕ) → take (length bs) (bs ++ more) ≡ bs
take-append [] more = ground arith
take-append (b ∷ bs) more = ap (λ (x : List ℕ). b ∷ x) (take-append bs more)

drop-append : (bs more : List ℕ) → drop (length bs) (bs ++ more) ≡ more
drop-append [] more = refl
drop-append (b ∷ bs) more = drop-append bs more

take_bytes-append : (bs more : List ℕ) → take_bytes (length bs) (bs ++ more) ≡ ok (bs, more)
unfolding take_bytes
take_bytes-append bs more =
    ground (arith, length-append bs more, take-append bs more, drop-append bs more)

-- Four octets hold a machine word.
word_bytes-value :
    (n : ℕ)
    → n < 2 ^ 32
    → ((n / 2 ^ 24 % 256 * 256 + n / 2 ^ 16 % 256) * 256 + n / 2 ^ 8 % 256) * 256 + n % 256 ≡ n
word_bytes-value n h = omega arith

read_u32-word_bytes :
    (n : ℕ) (bs : List ℕ) → n < 2 ^ 32 → read_u32 (word_bytes n ++ bs) ≡ ok (n, bs)
unfolding read_u32
read_u32-word_bytes n bs h = rw word_bytes-value refl

new_length-written :
    (n : ℕ) (bs : List ℕ)
    → n < 2 ^ 32
    → new_length (255 ∷ (word_bytes n ++ bs)) ≡ ok (record { octets = n; partial = false }, bs)
unfolding new_length
new_length-written n bs h = rw (read_u32-word_bytes n bs h) refl

body_of-written :
    (fuel : ℕ) (body more : List ℕ)
    → length body < 2 ^ 32
    → body_of (suc fuel) (255 ∷ (word_bytes (length body) ++ (body ++ more))) ≡ ok (body, more)
unfolding body_of
body_of-written fuel body more h =
    rw (new_length-written (length body) (body ++ more) h, take_bytes-append body more) refl

-- The octets behind the header of a written packet.
abbrev behind : List ℕ → List ℕ → List ℕ
behind body more = 255 ∷ (word_bytes (length body) ++ (body ++ more))

packet_of-written :
    (p : Packet) (more : List ℕ)
    → Fits p
    → packet_of (192 + p.tag % 64) (behind p.body more) ≡ ok (p, more)
unfolding packet_of
packet_of-written p more fits =
    let high : ltb ((192 + p.tag % 64) % 256) 128 ≡ false = ground (arith, fits.tag) in
    let new : ltb ((192 + p.tag % 64) % 128) 64 ≡ false = ground (arith, fits.tag) in
    let tag : (192 + p.tag % 64) % 64 ≡ p.tag = omega (arith, fits.tag) in
    rw (high, new, body_of-written (length (behind p.body more)) p.body more fits.body, tag) refl

write_packet-behind :
    (p : Packet) (more : List ℕ)
    → Fits p
    → write_packet p ++ more ≡ (192 + p.tag % 64) ∷ behind p.body more
unfolding write_packet
write_packet-behind p more fits =
    let size : length p.body % 2 ^ 32 ≡ length p.body = omega (arith, fits.body) in rw size refl

packets_from-write_packets :
    (fuel : ℕ) (ps : List Packet)
    → All Fits ps
    → length (write_packets ps) ≤ fuel
    → packets_from fuel (write_packets ps) ≡ ok ps
unfolding packets_from write_packets
packets_from-write_packets fuel [] fits h = refl
packets_from-write_packets zero (p ∷ ps) (fit, fits) h =
    absurd (ground (arith, write_packet-behind p (write_packets ps) fit))
packets_from-write_packets (suc fuel) (p ∷ ps) (fit, fits) h =
    let more = write_packets ps in
    let written = write_packet-behind p more fit in
    let fewer : length more ≤ fuel = ground (
      arith,
      written,
      h,
      length-append (word_bytes (length p.body)) (p.body ++ more),
      length-append p.body more,
    ) in
    rw (written, packet_of-written p more fit, packets_from-write_packets fuel ps fits fewer) refl

-- Packets that are written one behind the other are read as those packets, if each tag has six bits
-- and each body's length fits a machine word of 32 bits.
pub packets-write_packets : (ps : List Packet) → All Fits ps → packets (write_packets ps) ≡ ok ps
unfolding packets
packets-write_packets ps fits =
    packets_from-write_packets (length (write_packets ps)) ps fits (omega arith)
