-- ===== src/Prelude/Decimal.antt =====
-- A number as decimal text, and read back.
use Prim.Native.Nat.{ℕ, zero, suc, ◌+◌, ◌*◌, ◌/◌, ◌%◌, ◌<◌, ◌^◌}
use Prim.Native.Char.{Char, code}
use Prim.Native.String.{String}
use mathlib.Core.Path.{◌≡◌, refl, sym, ◌∙◌, ap}
use mathlib.Core.Logic.{inl, inr}
use mathlib.Core.Option.{some}
use native.Mathlib.Omega.{arith}
use skarbiec.Prelude.Tests.{ltb, if◌then◌else◌, Bool-cases, ltb→lt}
use skarbiec.Prelude.Text.{digits_value, unsigned_text, parse_u64, parse_nonzero}

unfoldable pub digit_char : ℕ → Char
digit_char zero = "0"
digit_char (suc zero) = "1"
digit_char (suc (suc zero)) = "2"
digit_char (suc (suc (suc zero))) = "3"
digit_char (suc (suc (suc (suc zero)))) = "4"
digit_char (suc (suc (suc (suc (suc zero))))) = "5"
digit_char (suc (suc (suc (suc (suc (suc zero)))))) = "6"
digit_char (suc (suc (suc (suc (suc (suc (suc zero))))))) = "7"
digit_char (suc (suc (suc (suc (suc (suc (suc (suc zero)))))))) = "8"
digit_char (suc (suc (suc (suc (suc (suc (suc (suc (suc d))))))))) = "9"

-- The digits in front of a text, on fuel.
unfoldable pub digits_before : ℕ → ℕ → String → String
digits_before zero n s = s
digits_before (suc f) n s =
    let s' = String.◌∷◌ (digit_char (n % 10)) s in
    let more = digits_before f (n / 10) s' in if ltb n 10 then s' else more

-- `u64::to_string`; a number has fewer digits than its successor.
unfoldable pub decimal : ℕ → String
decimal n = digits_before (suc n) n String.[]

digit_code : (d : ℕ) → d < 10 → code (digit_char d) ≡ 48 + d
unfolding digit_char
digit_code zero h = refl
digit_code (suc zero) h = refl
digit_code (suc (suc zero)) h = refl
digit_code (suc (suc (suc zero))) h = refl
digit_code (suc (suc (suc (suc zero)))) h = refl
digit_code (suc (suc (suc (suc (suc zero))))) h = refl
digit_code (suc (suc (suc (suc (suc (suc zero)))))) h = refl
digit_code (suc (suc (suc (suc (suc (suc (suc zero))))))) h = refl
digit_code (suc (suc (suc (suc (suc (suc (suc (suc zero)))))))) h = refl
digit_code (suc (suc (suc (suc (suc (suc (suc (suc (suc zero))))))))) h = refl
digit_code (suc (suc (suc (suc (suc (suc (suc (suc (suc (suc d)))))))))) h = absurd (omega arith)

digits_value-digit :
    (m d : ℕ) (s : String)
    → d < 10
    → digits_value m (String.◌∷◌ (digit_char d) s) ≡ digits_value (m * 10 + d) s
unfolding digits_value
digits_value-digit m d s h = ground (arith, digit_code d h)

-- Reading the digits multiplies what was read before by a power of ten and adds the number.
digits_value-digits_before :
    (f n : ℕ) (s : String)
    → n < f
    → (p : ℕ) × ((m : ℕ) → digits_value m (digits_before f n s) ≡ digits_value (m * p + n) s)
unfolding digits_before
digits_value-digits_before zero n s h = absurd (omega arith)
digits_value-digits_before (suc f) n s h = elim (Bool-cases (ltb n 10)) [
  | inl small ↦ (
    10,
    λ m. rw small (
        digits_value-digit m (n % 10) s (omega arith)
        ∙ ap (λ k. digits_value k s) (omega (arith, ltb→lt n 10 small))),
  )
  | inr big ↦
      let (p, ih) =
        digits_value-digits_before f (n / 10) (String.◌∷◌ (digit_char (n % 10)) s) (ground arith) in
      (
        p * 10,
        λ m. rw big (
            ih m
            ∙ digits_value-digit (m * p + n / 10) (n % 10) s (omega arith)
            ∙ ap (λ k. digits_value k s) (omega arith)),
      )
]

-- The text begins with a digit.
digits_before-head :
    (f n : ℕ) (s : String)
    → n < f
    → (d : ℕ) × (t : String) × (d < 10) × (digits_before f n s ≡ String.◌∷◌ (digit_char d) t)
unfolding digits_before
digits_before-head zero n s h = absurd (omega arith)
digits_before-head (suc f) n s h = elim (Bool-cases (ltb n 10)) [
  | inl small ↦ (n % 10, s, omega arith, rw small)
  | inr big ↦
      let (d, t, lt, e) =
        digits_before-head f (n / 10) (String.◌∷◌ (digit_char (n % 10)) s) (ground arith) in
      (d, t, lt, rw big e)
]

unsigned_text-digit :
    (d : ℕ) (t : String)
    → d < 10
    → unsigned_text (String.◌∷◌ (digit_char d) t) ≡ digits_value 0 (String.◌∷◌ (digit_char d) t)
unsigned_text-digit d t h = ground (arith, digit_code d h)

unsigned_text-digits_before : (n : ℕ) → unsigned_text (digits_before (suc n) n String.[]) ≡ some n
unsigned_text-digits_before n =
    let (p, value) = digits_value-digits_before (suc n) n String.[] (omega arith) in
    let (d, t, lt, e) = digits_before-head (suc n) n String.[] (omega arith) in
    ap unsigned_text e
    ∙ unsigned_text-digit d t lt
    ∙ ap (digits_value 0) (sym e)
    ∙ value 0
    ∙ unfold digits_value in ap some (omega arith)

-- A machine word that is printed is read back.
pub parse_u64-decimal : (n : ℕ) → n < 2 ^ 64 → parse_u64 (decimal n) ≡ some n
unfolding decimal parse_u64
parse_u64-decimal n h = ground (arith, unsigned_text-digits_before n)

pub parse_nonzero-decimal : (n : ℕ) → 0 < n → n < 2 ^ 64 → parse_nonzero (decimal n) ≡ some n
unfolding parse_nonzero
parse_nonzero-decimal n pos h = ground (arith, parse_u64-decimal n h)

-- What is read back from a printed number is that number.
pub parse_nonzero-of_decimal : (n : ℕ) {m : ℕ} → parse_nonzero (decimal n) ≡ some m → m ≡ n
unfolding decimal parse_u64 parse_nonzero
parse_nonzero-of_decimal n h = ground (arith, unsigned_text-digits_before n)
