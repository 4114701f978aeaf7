-- ===== src/Crypto/Bignum/Residue.antt =====
-- Residues of natural numbers: products, powers and Fermat inverses modulo `m`.
use native.Mathlib.Nat.{
  mul-add-mod_self_left, add-mod_right, pow-suc, pow-zero, suc-add, zero-add, mul-zero, zero-mod,
  mul_comm, one-mul, div-add-mod, mod-eq_of_lt,
}
use mathlib.Core.Path.{◌≡⟨◌⟩◌, ◌∎}
use skarbiec.Prelude.{
  ℕ, zero, suc, ◌+◌, ◌-◌, ◌*◌, ◌/◌, ◌%◌, ◌^◌, ◌<◌, ◌≤◌, ◌≡◌, ◌≢◌, refl, arith, sym, ◌∙◌, ap,
}

pub moved : (a b m : ℕ) → b ≤ a → a + m - b ≡ a - b + m
moved a b m h = omega arith

pub wrapped_up : (a b m : ℕ) → b ≤ a → a < m → a - b ≡ (a + m - b) % m
wrapped_up a b m h la =
    sym
      (ap (λ (k : ℕ). k % m) (moved a b m h) ∙ add-mod_right (a - b) m ∙ mod-eq_of_lt (omega arith))

pub pow_plus : (a m n : ℕ) → a ^ (m + n) ≡ a ^ m * a ^ n
pow_plus a zero n = rw (zero-add n, pow-zero a, one-mul (a ^ n)) refl
pow_plus a (suc m) n =
    rw (suc-add m n, pow-suc a (m + n), pow-suc a m, pow_plus a m n) (grind arith)

-- A factor counts modulo `m` only.
pub spread : (m q r b : ℕ) → (m * q + r) * b ≡ m * (q * b) + r * b
spread m q r b = grind arith

pub whole_factor : (a b m : ℕ) → a * b ≡ m * (a / m * b) + a % m * b
whole_factor a b m = ap (λ (k : ℕ). k * b) (sym (div-add-mod a m)) ∙ spread m (a / m) (a % m) b

pub mod-mul_left : (a b m : ℕ) → a % m * b % m ≡ a * b % m
mod-mul_left a b m =
    sym
      (ap (λ (k : ℕ). k % m) (whole_factor a b m) ∙ mul-add-mod_self_left m (a / m * b) (a % m * b))

pub mod-mul : (a b m : ℕ) → a % m * (b % m) % m ≡ a * b % m
mod-mul a b m =
    a % m * (b % m) % m
    ≡⟨ mod-mul_left a (b % m) m ⟩ a * (b % m) % m
    ≡⟨ ap (λ (k : ℕ). k % m) (mul_comm a (b % m)) ⟩ b % m * a % m
    ≡⟨ mod-mul_left b a m ⟩ b * a % m
    ≡⟨ ap (λ (k : ℕ). k % m) (mul_comm b a) ⟩ a * b % m ∎

pub mod-pow : (a n m : ℕ) → (a % m) ^ n % m ≡ a ^ n % m
mod-pow a zero m = rw (pow-zero a, pow-zero (a % m)) refl
mod-pow a (suc n) m =
    (a % m) ^ suc n % m
    ≡⟨ ap (λ (k : ℕ). k % m) (pow-suc (a % m) n) ⟩ (a % m) ^ n * (a % m) % m
    ≡⟨ sym (mod-mul_left ((a % m) ^ n) (a % m) m) ⟩ (a % m) ^ n % m * (a % m) % m
    ≡⟨ ap (λ (k : ℕ). k * (a % m) % m) (mod-pow a n m) ⟩ a ^ n % m * (a % m) % m
    ≡⟨ mod-mul (a ^ n) a m ⟩ a ^ n * a % m
    ≡⟨ ap (λ (k : ℕ). k % m) (sym (pow-suc a n)) ⟩ a ^ suc n % m ∎

-- What one pass of the loop does to the exponent read so far.
pub twice : (q : ℕ) → q + q ≡ 2 * q
twice q = omega arith

pub squared : (b q m : ℕ) → b ^ q % m * (b ^ q % m) % m ≡ b ^ (2 * q) % m
squared b q m =
    mod-mul (b ^ q) (b ^ q) m
    ∙ ap (λ (k : ℕ). k % m) (sym (pow_plus b q q) ∙ ap (λ (k : ℕ). b ^ k) (twice q))

pub multiplied : (b q m : ℕ) → b ^ q % m * b % m ≡ b ^ suc q % m
multiplied b q m = mod-mul_left (b ^ q) b m ∙ ap (λ (k : ℕ). k % m) (sym (pow-suc b q))

pub zero-pow : (n : ℕ) → 0 ^ suc n ≡ 0
zero-pow n = pow-suc 0 n ∙ mul-zero (0 ^ n)

pub suc_pred : (m : ℕ) → 1 < m → m - 1 ≡ suc (m - 2)
suc_pred m h = omega arith

pub one_zero : {B : Type 0} → 1 ≡ zero → B
one_zero e = absurd (omega arith)

-- A multiple of `m` has no power that leaves 1.
pub nonzero_residue : (a m : ℕ) → 1 < m → a ^ (m - 1) % m ≡ 1 → a % m ≢ 0
nonzero_residue a m h fermat z = one_zero (sym fermat ∙ the_zero)
  where
    the_zero : a ^ (m - 1) % m ≡ 0
    the_zero =
        a ^ (m - 1) % m
        ≡⟨ ap (λ (k : ℕ). a ^ k % m) (suc_pred m h) ⟩ a ^ suc (m - 2) % m
        ≡⟨ sym (mod-pow a (suc (m - 2)) m) ⟩ (a % m) ^ suc (m - 2) % m
        ≡⟨ ap (λ (k : ℕ). k ^ suc (m - 2) % m) z ⟩ 0 ^ suc (m - 2) % m
        ≡⟨ ap (λ (k : ℕ). k % m) (zero-pow (m - 2)) ⟩ 0 % m
        ≡⟨ zero-mod m ⟩ 0 ∎

pub fermat_product : (a w m : ℕ) → 1 < m → w ≡ (a % m) ^ (m - 2) % m → a * w % m ≡ a ^ (m - 1) % m
fermat_product a w m h e =
    a * w % m
    ≡⟨ ap (λ (k : ℕ). a * k % m) (e ∙ mod-pow a (m - 2) m) ⟩ a * (a ^ (m - 2) % m) % m
    ≡⟨ ap (λ (k : ℕ). k % m) (mul_comm a (a ^ (m - 2) % m)) ⟩ a ^ (m - 2) % m * a % m
    ≡⟨ multiplied a (m - 2) m ⟩ a ^ suc (m - 2) % m
    ≡⟨ ap (λ (k : ℕ). a ^ k % m) (sym (suc_pred m h)) ⟩ a ^ (m - 1) % m ∎
