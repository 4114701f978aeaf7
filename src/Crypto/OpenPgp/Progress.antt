-- ===== src/Crypto/OpenPgp/Progress.antt =====
-- The fuel is enough: splitting bytes into packets always ends with packets or a refusal.
use skarbiec.Prelude.{
  ℕ, zero, suc, ◌≤◌, ◌<◌, ◌≡◌, ◌≢◌, refl, List, [], ◌∷◌, arith, ltb, length, length-drop, ◌%◌, ◌/◌,
  ◌==◌, ◌>>=◌, Result, ok, err, inl, inr, Bool-cases, Result-cases,
}
use skarbiec.Crypto.OpenPgp.{
  Stop, out_of_fuel, take_bytes, byte, read_u16, read_u32, Length, counted, with_tag, new_length,
  body_of, old_body, packet_of, packets_from, packets,
}

-- A step that gives bytes back gives no more than it was given, and does not run out of fuel.
pub record Ends {A : Type 0} (n : ℕ) (m : Result Stop (A × List ℕ)) : Type 0 where
  pub leaves : (a : A) (left : List ℕ) → m ≡ ok (a, left) → length left ≤ n
  pub ends : m ≢ err out_of_fuel

take_bytes-Ends : (n : ℕ) (bs : List ℕ) → Ends (length bs) (take_bytes n bs)
unfolding take_bytes
take_bytes-Ends n bs = elim (Bool-cases (ltb (length bs) n)) [
  | inl short ↦ record {
    leaves = λ a left e. absurd (ground (arith, short, e));
    ends = λ e. ground (arith, short, e);
  }
  | inr enough ↦ record {
    leaves = λ a left e. ground (arith, length-drop n bs, enough, e);
    ends = λ e. ground (arith, enough, e);
  }
]

new_length-leaves :
    (bs : List ℕ) {l : Length} {left : List ℕ}
    → new_length bs ≡ ok (l, left)
    → length left < length bs
unfolding new_length byte read_u32
new_length-leaves [] h = ground arith
new_length-leaves (first ∷ []) h = ground arith
new_length-leaves (first ∷ a ∷ []) h = ground arith
new_length-leaves (first ∷ a ∷ b ∷ []) h = ground arith
new_length-leaves (first ∷ a ∷ b ∷ c ∷ []) h = ground arith
new_length-leaves (first ∷ a ∷ b ∷ c ∷ d ∷ bs) h = ground arith

new_length-ends : (bs : List ℕ) → new_length bs ≢ err out_of_fuel
unfolding new_length byte read_u32
new_length-ends [] h = ground arith
new_length-ends (first ∷ []) h = ground arith
new_length-ends (first ∷ a ∷ []) h = ground arith
new_length-ends (first ∷ a ∷ b ∷ []) h = ground arith
new_length-ends (first ∷ a ∷ b ∷ c ∷ []) h = ground arith
new_length-ends (first ∷ a ∷ b ∷ c ∷ d ∷ bs) h = ground arith

-- With more fuel than bytes, reading the chunks of a body does not run out of it.
pub body_of-Ends : (fuel : ℕ) (bs : List ℕ) → length bs < fuel → Ends (length bs) (body_of fuel bs)
unfolding body_of
body_of-Ends zero bs h = absurd (omega arith)
body_of-Ends (suc fuel) bs h = elim (Result-cases (new_length bs)) [
  | inr (e, bad) ↦
      let ends = new_length-ends bs in
      record { leaves = λ a left j. absurd (ground arith); ends = λ j. ends (ground arith) }
  | inl ((l, after), long) ↦
      let shorter = new_length-leaves bs long in
      let taken = take_bytes-Ends l.octets after in
      elim (Result-cases (take_bytes l.octets after)) [
        | inr (e, bad) ↦ record {
          leaves = λ a left j. absurd (ground arith);
          ends = λ j. taken.ends (ground arith);
        }
        | inl ((chunk, left), got) ↦
            let fewer = taken.leaves chunk left got in
            let later = body_of-Ends fuel left (omega (arith, shorter, fewer)) in
            elim (Bool-cases l.partial) [
              | inr last ↦ record {
                leaves = λ a rest j. ground (arith, shorter, fewer);
                ends = λ j. ground arith;
              }
              | inl partial ↦ elim (Result-cases (body_of fuel left)) [
                | inr (e, bad) ↦ record {
                  leaves = λ a rest j. absurd (ground arith);
                  ends = λ j. later.ends (ground arith);
                }
                | inl ((more, rest), joined_more) ↦
                    let least = later.leaves more rest joined_more in
                    record {
                      leaves = λ a rest' j. ground (arith, shorter, fewer, least);
                      ends = λ j. ground arith;
                    }
              ]
            ]
      ]
]

byte-Ends : (bs : List ℕ) → Ends (length bs) (byte bs)
unfolding byte
byte-Ends [] = record { leaves = λ a left e. cc; ends = λ e. cc }
byte-Ends (b ∷ bs) = record { leaves = λ a left e. ground (arith, e); ends = λ e. cc }

read_u16-Ends : (bs : List ℕ) → Ends (length bs) (read_u16 bs)
unfolding read_u16
read_u16-Ends [] = record { leaves = λ a left e. cc; ends = λ e. cc }
read_u16-Ends (a ∷ []) = record { leaves = λ a left e. cc; ends = λ e. cc }
read_u16-Ends (a ∷ b ∷ bs) = record { leaves = λ a left e. ground (arith, e); ends = λ e. cc }

read_u32-Ends : (bs : List ℕ) → Ends (length bs) (read_u32 bs)
unfolding read_u32
read_u32-Ends [] = record { leaves = λ a left e. cc; ends = λ e. cc }
read_u32-Ends (a ∷ []) = record { leaves = λ a left e. cc; ends = λ e. cc }
read_u32-Ends (a ∷ b ∷ []) = record { leaves = λ a left e. cc; ends = λ e. cc }
read_u32-Ends (a ∷ b ∷ c ∷ []) = record { leaves = λ a left e. cc; ends = λ e. cc }
read_u32-Ends (a ∷ b ∷ c ∷ d ∷ bs) = record {
  leaves = λ a left e. ground (arith, e);
  ends = λ e. cc;
}

-- A length that was read, and then that many bytes.
counted-Ends : (n : ℕ) (m : Result Stop (ℕ × List ℕ)) → Ends n m → Ends n (m >>= counted)
counted-Ends n (err e) ends = record {
  leaves = λ a left j. cc;
  ends = λ j. ends.ends (ground arith);
}
counted-Ends n (ok (k, bs)) ends =
    let within = ends.leaves k bs refl in
    let taken = take_bytes-Ends k bs in
    record {
      leaves = λ a left j. omega (arith, within, taken.leaves a left j);
      ends = λ j. taken.ends j;
    }

old_body-Ends : (kind : ℕ) (bs : List ℕ) → Ends (length bs) (old_body kind bs)
unfolding old_body
old_body-Ends kind bs = elim (Bool-cases (kind == 0)) [
  | inl is ↦ rw is (counted-Ends (length bs) (byte bs) (byte-Ends bs))
  | inr not0 ↦ elim (Bool-cases (kind == 1)) [
    | inl is ↦ rw (not0, is) (counted-Ends (length bs) (read_u16 bs) (read_u16-Ends bs))
    | inr not1 ↦ elim (Bool-cases (kind == 2)) [
      | inl is ↦ rw (not0, not1, is) (counted-Ends (length bs) (read_u32 bs) (read_u32-Ends bs))
      | inr not2 ↦
          rw (not0, not1, not2) (record { leaves = λ a left e. ground (arith, e); ends = λ e. cc })
    ]
  ]
]

with_tag-Ends :
    (n tag : ℕ) (m : Result Stop (List ℕ × List ℕ)) → Ends n m → Ends n (m >>= with_tag tag)
with_tag-Ends n tag (err e) ends = record {
  leaves = λ a left j. cc;
  ends = λ j. ends.ends (ground arith);
}
with_tag-Ends n tag (ok (body, bs)) ends =
    let within = ends.leaves body bs refl in
    record { leaves = λ a left j. ground (arith, within, j); ends = λ j. cc }

packet_of-Ends : (header : ℕ) (bs : List ℕ) → Ends (length bs) (packet_of header bs)
unfolding packet_of
packet_of-Ends header bs = elim (Bool-cases (ltb (header % 256) 128)) [
  | inl low ↦ rw low (record { leaves = λ a left e. cc; ends = λ e. cc })
  | inr high ↦ elim (Bool-cases (ltb (header % 128) 64)) [
    | inl old ↦
        rw (high, old)
          (with_tag-Ends (length bs) (header / 4 % 16) (old_body (header % 4) bs)
            (old_body-Ends (header % 4) bs))
    | inr new ↦
        rw (high, new)
          (with_tag-Ends (length bs) (header % 64) (body_of (suc (length bs)) bs)
            (body_of-Ends (suc (length bs)) bs (omega arith)))
  ]
]

packets_from-ends :
    (fuel : ℕ) (bs : List ℕ) → length bs ≤ fuel → packets_from fuel bs ≢ err out_of_fuel
unfolding packets_from
packets_from-ends fuel [] h e = ground arith
packets_from-ends zero (header ∷ bs) h e = omega arith
packets_from-ends (suc fuel) (header ∷ bs) h e = elim (Result-cases (packet_of header bs)) [
  | inr (stop, bad) ↦ (packet_of-Ends header bs).ends (ground arith)
  | inl ((p, left), read) ↦
      let fewer = (packet_of-Ends header bs).leaves p left read in
      let later = packets_from-ends fuel left (omega (arith, fewer)) in
      elim (Result-cases (packets_from fuel left)) [
        | inr (stop, bad) ↦ later (ground arith)
        | inl (ps, rest) ↦ ground arith
      ]
]

-- Splitting bytes into packets ends: it gives packets or one of the refusals of the source, for any
-- bytes.
pub packets-ends : (bs : List ℕ) → packets bs ≢ err out_of_fuel
unfolding packets
packets-ends bs = packets_from-ends (length bs) bs (omega arith)
