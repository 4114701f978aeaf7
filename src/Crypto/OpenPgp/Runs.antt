-- ===== src/Crypto/OpenPgp/Runs.antt =====
-- Runs of the packet reader, and the theorems at them.
use skarbiec.Prelude.{◌≡◌, ◌≢◌, refl, List, [], ◌∷◌, arith, ok, err}
use skarbiec.Crypto.OpenPgp.{
  Packet, take_bytes, byte, read_u16, read_u32, new_length, body_of, old_body, packet_of,
  packets_from, packets, write_packet, write_packets, cut_short, out_of_fuel,
}
use skarbiec.Crypto.OpenPgp.Progress.{packets-ends}
use skarbiec.Crypto.OpenPgp.RoundTrip.{packets-write_packets}

-- All that a run computes with.
reader : Unit {0}
unfolding take_bytes byte read_u16 read_u32 new_length body_of old_body packet_of packets_from
    packets write_packet write_packets
reader = tt

abbrev two : List Packet
two = record { tag = 11; body = 98 ∷ 0 ∷ [] } ∷ record { tag = 2; body = 4 ∷ [] } ∷ []

-- An old-format packet, and a new-format one in two chunks, the first of two octets.
mixed :
    packets (136 ∷ 1 ∷ 7 ∷ 203 ∷ 225 ∷ 98 ∷ 0 ∷ 1 ∷ 5 ∷ [])
    ≡ ok (record { tag = 2; body = 7 ∷ [] } ∷ record { tag = 11; body = 98 ∷ 0 ∷ 5 ∷ [] } ∷ [])
unfolding reader
mixed = refl

short : packets (203 ∷ 5 ∷ 1 ∷ []) ≡ err cut_short
unfolding reader
short = refl

packets-ends_example : packets (203 ∷ 5 ∷ 1 ∷ []) ≢ err out_of_fuel
packets-ends_example = packets-ends (203 ∷ 5 ∷ 1 ∷ [])

packets-write_packets_example : packets (write_packets two) ≡ ok two
packets-write_packets_example = packets-write_packets two (
  record { tag = omega arith; body = omega arith },
  (record { tag = omega arith; body = omega arith }, tt),
)
