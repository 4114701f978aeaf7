-- ===== src/Crypto/Rsa/Pss/Encoding.antt =====
-- `verify_pss` behind the opening, against EMSA-PSS of RFC 8017.
use native.Mathlib.Nat.{div-eq_of_lt, zero-div, pow-le-pow_right}
use mathlib.Core.Path.{subst}
use skarbiec.Prelude.{
  ℕ, zero, suc, ◌+◌, ◌-◌, ◌^◌, ◌<◌, ◌≤◌, ◌≡◌, refl, ◌∙◌, sym, ap, Bool, true, false, some, List, [],
  ◌∷◌, ◌++◌, ◌==◌, length, length-append, take, drop, length-drop, arith, inl, inr, Bool-cases,
  ==_iff,
}
use skarbiec.Crypto.Bignum.{zeros}
use skarbiec.Crypto.Bignum.Value.{length-zeros}
use skarbiec.Crypto.Bignum.Bytes.Value.{AreBytes}
use skarbiec.Crypto.Rsa.{HashAlg, Hasher}
use skarbiec.Crypto.Rsa.Pkcs1.{bytes_eq_same, bytes_eq_itself, append-AreBytes}
use skarbiec.Crypto.Rsa.Pss.{
  mgf1, xor_zip, high_bits_set, clear_high, any_nonzero, same_hash, check_db, check_masked,
}
use skarbiec.Crypto.Rsa.Pss.Mask.{IsPartsHasher, mgf1-ends, length-xor_zip, xor_zip-AreBytes}
use skarbiec.Crypto.Rsa.Pss.Unused.{
  some_same, clear_high_twice, clear_high-ends, high_bits_set-ends,
}
use skarbiec.Crypto.Rsa.Pss.Split.{
  any_nonzero-zeros, all_zeros, marked, get_elem-ends, get_elem_behind, take-append-drop_lem,
  drop-AreBytes,
}

abbrev pub salted_hash : Hasher → HashAlg → List ℕ → List ℕ → List ℕ
salted_hash hasher hash message salt =
    hasher.digest_parts hash (zeros 8 ∷ hasher.digest hash message ∷ salt ∷ [])

abbrev pub data_block : ℕ → List ℕ → List ℕ
data_block padding salt = zeros padding ++ 1 ∷ salt

-- A masked block and a hash that encode the message with a salt.
pub record IsMasked (hasher : Hasher) (hash : HashAlg) (message masked h salt : List ℕ)
    (unused_bits padding : ℕ) : Type 0 where
  pub hashed : h ≡ salted_hash hasher hash message salt
  pub mask : List ℕ
  pub generated : mgf1 hasher hash h (length masked) ≡ some mask
  pub laid : clear_high unused_bits (xor_zip mask (data_block padding salt)) ≡ some masked

pub length-data_block : (n : ℕ) (salt : List ℕ) → length (data_block n salt) ≡ n + 1 + length salt
length-data_block n salt = omega (arith, length-append (zeros n) (1 ∷ salt), length-zeros n)

pub zeros-AreBytes : (n : ℕ) → AreBytes (zeros n)
unfolding zeros
zeros-AreBytes zero = tt
zeros-AreBytes (suc n) = (omega arith, zeros-AreBytes n)

data_block-low :
    (u n : ℕ) (salt : List ℕ) → u ≤ 7 → high_bits_set u (data_block n salt) ≡ some false
unfolding high_bits_set zeros
data_block-low zero n salt h = refl
data_block-low (suc u) zero salt h =
    rw
      (div-eq_of_lt {n = 1} {m = 2 ^ (8 - suc u)} (
        omega
          (arith, pow-le-pow_right {n = 2} (omega arith) {i = 1} {j = 8 - suc u} (omega arith))))
      refl
data_block-low (suc u) (suc n) salt h = rw (zero-div (2 ^ (8 - suc u))) refl

drop_one_more : (n : ℕ) (xs : List ℕ) → drop (n + 1) xs ≡ drop (suc n) xs
drop_one_more n xs = ap (λ (k : ℕ). drop k xs) (one_more n)
  where
    one_more : (n : ℕ) → n + 1 ≡ suc n
    one_more n = omega arith

-- The block that is accepted is padding, mark and salt, and the hash is that of the salt.
check_db-Sound :
    (hasher : Hasher) (hash : HashAlg) (message h db : List ℕ) (n : ℕ)
    → n < length db
    → (accepted : Bool) × (check_db hasher hash message h db n ≡ some accepted)
      × (accepted ≡ true
          → (db ≡ data_block n (drop (n + 1) db))
            × (h ≡ salted_hash hasher hash message (drop (n + 1) db)))
unfolding check_db
check_db-Sound hasher hash message h db n lt = elim (Bool-cases (any_nonzero (take n db))) [
  | inl some_set ↦ (false, rw some_set refl, λ e. absurd (ground (arith, e)))
  | inr clear ↦
      let at = get_elem-ends n db lt in
      elim (Bool-cases (at.0 == 1)) [
        | inr other ↦ (false, rw (clear, at.1, other) refl, λ e. absurd (ground (arith, e)))
        | inl one ↦ (
          same_hash hasher hash message h (drop (n + 1) db),
          rw (clear, at.1, one) refl,
          λ e. (
            sym (take-append-drop_lem n db)
                ∙ ap (λ (xs : List ℕ). xs ++ drop n db) (all_zeros n db (omega (arith, lt)) clear)
                ∙ ap (λ (xs : List ℕ). zeros n ++ xs)
                    (marked n db 1 (at.1 ∙ ap some ((==_iff at.0 1).0 one))
                      ∙ ap (λ (xs : List ℕ). 1 ∷ xs) (sym (drop_one_more n db))),
            sym (bytes_eq_same _ h e),
          ),
        )
      ]
]

take_padding : (n : ℕ) (salt : List ℕ) → take n (data_block n salt) ≡ zeros n
unfolding zeros
take_padding zero salt = refl
take_padding (suc n) salt = ap (λ (xs : List ℕ). 0 ∷ xs) (take_padding n salt)

drop_padding : (n : ℕ) (salt : List ℕ) → drop (suc n) (data_block n salt) ≡ salt
unfolding zeros
drop_padding zero salt = refl
drop_padding (suc n) salt = drop_padding n salt

check_db_complete :
    (hasher : Hasher) (hash : HashAlg) (message salt : List ℕ) (n : ℕ)
    → check_db hasher hash message (salted_hash hasher hash message salt) (data_block n salt) n
      ≡ some true
unfolding check_db
check_db_complete hasher hash message salt n =
    rw
      (
        take_padding n salt,
        any_nonzero-zeros n,
        get_elem_behind n 1 salt,
        drop_one_more n (data_block n salt),
        drop_padding n salt,
        bytes_eq_itself (salted_hash hasher hash message salt),
      )
      refl

pub check_masked-Sound :
    (hasher : Hasher) (hash : HashAlg) (message masked h : List ℕ) (u n s : ℕ)
    → IsPartsHasher hasher
    → AreBytes masked
    → length masked ≡ n + 1 + s
    → (accepted : Bool) × (check_masked hasher hash message masked h u n ≡ some accepted)
      × (accepted ≡ true
          → (salt : List ℕ) × (length salt ≡ s)
            × AreBytes salt
            × IsMasked hasher hash message masked h salt u n)
unfolding check_masked
check_masked-Sound hasher hash message masked h u n s hh bytes size =
    let high = high_bits_set-ends u masked (omega (arith, size)) in
    let mask = mgf1-ends hasher hash h (length masked) hh in
    let xored = xor_zip mask.0 masked in
    let xored_size = length-xor_zip mask.0 masked mask.2 in
    let db =
      clear_high-ends u xored (omega (arith, size, xored_size, mask.2))
        (xor_zip-AreBytes mask.0 masked mask.2) in
    let checked =
      check_db-Sound hasher hash message h db.0 n (omega (arith, size, xored_size, mask.2, db.2)) in
    elim (Bool-cases high.0) [
      | inl set ↦ (false, rw (high.1, set) refl, λ e. absurd (ground (arith, e)))
      | inr clear ↦ (
        checked.0,
        rw (high.1, clear, mask.1, db.1) checked.1,
        λ e. (
          drop (n + 1) db.0,
          omega (arith, size, xored_size, mask.2, db.2, length-drop (n + 1) db.0),
          drop-AreBytes (n + 1) db.0 db.3,
          record {
            hashed = (checked.2 e).1;
            mask = mask.0;
            generated = mask.1;
            laid =
                subst (λ (xs : List ℕ). clear_high u (xor_zip mask.0 xs) ≡ some masked)
                  (checked.2 e).0
                  (clear_high_twice u mask.0 masked db.0 mask.2 bytes (high.1 ∙ ap some clear)
                    db.1);
          },
        ),
      )
    ]

pub check_masked_complete :
    (hasher : Hasher) (hash : HashAlg) (message masked h salt : List ℕ) (u n : ℕ)
    → IsPartsHasher hasher
    → AreBytes salt
    → u ≤ 7
    → length masked ≡ n + 1 + length salt
    → IsMasked hasher hash message masked h salt u n
    → check_masked hasher hash message masked h u n ≡ some true
unfolding check_masked
check_masked_complete hasher hash message masked h salt u n hh bytes low size m =
    let block = data_block n salt in
    let block_size = length-data_block n salt in
    let block_bytes =
      append-AreBytes (zeros n) (1 ∷ salt) (zeros-AreBytes n) (omega arith, bytes) in
    let made = mgf1-ends hasher hash h (length masked) hh in
    let mask_size : length m.mask ≡ length masked =
      ap length (some_same (sym m.generated ∙ made.1)) ∙ made.2 in
    let fits : length m.mask ≡ length block = omega (arith, mask_size, size, block_size) in
    let cut =
      clear_high-ends u (xor_zip m.mask block)
        (omega (arith, length-xor_zip m.mask block fits, fits, block_size))
        (xor_zip-AreBytes m.mask block fits) in
    let high =
      subst (λ (xs : List ℕ). high_bits_set u xs ≡ some false) (some_same (sym cut.1 ∙ m.laid))
        cut.4 in
    let lifted =
      clear_high_twice u m.mask block masked fits block_bytes (data_block-low u n salt low)
        m.laid in
    rw (high, m.generated, lifted)
      (subst (λ (x : List ℕ). check_db hasher hash message x block n ≡ some true) (sym m.hashed)
        (check_db_complete hasher hash message salt n))
