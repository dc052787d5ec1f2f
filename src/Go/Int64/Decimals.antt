-- ===== src/Go/Int64/Decimals.antt =====
-- Decimal texts of words, as `ParseInt` reads them.
use go_busybox.Prelude.{
  ℕ, zero, suc, ◌+◌, ◌-◌, ◌*◌, ◌^◌, ◌≤◌, ◌<◌, ◌≡◌, refl, ◌∙◌, ◌≢◌, ◌⊎◌, inl, inr, true, false,
  Option, some, [], ◌∷◌, arith, Bytes, ltb, ◌==◌, Bool-cases, length, All,
}
use go_busybox.Go.Int.{pos, digits_value, decimal}
use go_busybox.Go.Int.Decimal.{
  IsDigit, decimal-digits, decimal-ne-nil, digits_value-decimal, first_byte, decimal-zero,
  decimal-first, decimal-length,
}
use go_busybox.Go.Int64.{half, modulus, format_int}
use go_busybox.Go.Int64.Parse.{
  based_value, base_of, underscores_fit, holds_underscore, parse_magnitude, bounded_pos, parse_int,
}

based_value-digits : (s : Bytes) (n : ℕ) → All IsDigit s → based_value 10 s n ≡ digits_value n s
unfolding based_value digits_value
based_value-digits [] n h = refl
based_value-digits (c ∷ s) n (hc, h) = ground (arith, based_value-digits s (n * 10 + (c - b'0')) h)

digits-no_underscore : (s : Bytes) → All IsDigit s → holds_underscore s ≡ false
unfolding holds_underscore
digits-no_underscore [] h = refl
digits-no_underscore (c ∷ s) (hc, h) = ground (arith, digits-no_underscore s h)

base_of-ten : (s : Bytes) → b'0' < first_byte s → base_of s ≡ (10, s)
unfolding base_of first_byte
base_of-ten [] h = refl
base_of-ten (z ∷ []) h = ground arith
base_of-ten (z ∷ l ∷ []) h = ground arith
base_of-ten (z ∷ l ∷ c ∷ s) h = ground arith

parse_magnitude-digits :
    (s : Bytes)
    → s ≢ []
    → All IsDigit s
    → b'0' < first_byte s
    → parse_magnitude s ≡ digits_value 0 s
unfolding parse_magnitude underscores_fit
parse_magnitude-digits [] n h p = absurd (n refl)
parse_magnitude-digits (c ∷ s) n h p =
    rw (digits-no_underscore (c ∷ s) h)
      (rw (base_of-ten (c ∷ s) p) (based_value-digits (c ∷ s) 0 h))

parse_magnitude-decimal : (n : ℕ) → parse_magnitude (decimal n) ≡ some n
parse_magnitude-decimal zero = rw decimal-zero (unfold parse_magnitude in refl)
parse_magnitude-decimal (suc n) =
    parse_magnitude-digits (decimal (suc n)) (decimal-ne-nil (suc n)) (decimal-digits (suc n))
      (decimal-first (suc n) (omega arith))
    ∙ digits_value-decimal (suc n)

parse_int-digit :
    (s : Bytes) → s ≢ [] → All IsDigit s → parse_int s ≡ bounded_pos (parse_magnitude s)
unfolding parse_int
parse_int-digit [] n h = absurd (n refl)
parse_int-digit (c ∷ s) n (hc, h) =
    let a : (c == b'-') ≡ false = ground arith in
    let b : (c == b'+') ≡ false = ground arith in rw a (rw b refl)

bounded_pos-lt : (o : Option ℕ) (n : ℕ) → n < 2 ^ 63 → o ≡ some n → bounded_pos o ≡ some (pos n)
unfolding bounded_pos
bounded_pos-lt o n h e = let p : ltb n (2 ^ 63) ≡ true = ground arith in rw e (rw p refl)

pub parse_int-decimal : (n : ℕ) → n < 2 ^ 63 → parse_int (decimal n) ≡ some (pos n)
parse_int-decimal n h =
    parse_int-digit (decimal n) (decimal-ne-nil n) (decimal-digits n)
    ∙ bounded_pos-lt (parse_magnitude (decimal n)) n h (parse_magnitude-decimal n)

-- The bytes of a printed int64.
abbrev pub IsNumeral : ℕ → Type 0
IsNumeral c = (c ≡ b'-') ⊎ ((b'0' ≤ c) × (c ≤ b'9'))

digits-IsNumeral : (s : Bytes) → All IsDigit s → All IsNumeral s
digits-IsNumeral [] h = tt
digits-IsNumeral (c ∷ s) (hc, h) = (inr hc, digits-IsNumeral s h)

pub format_int-IsNumeral : (w : ℕ) → All IsNumeral (format_int w)
unfolding format_int
format_int-IsNumeral w = elim (Bool-cases (ltb w half)) [
  | inl e ↦ rw e (digits-IsNumeral (decimal w) (decimal-digits w))
  | inr e ↦ rw e (
    inl refl,
    digits-IsNumeral (decimal (modulus - w - 1 + 1)) (decimal-digits (modulus - w - 1 + 1)),
  )
]

-- A sign and 19 digits at most.
pub format_int-length : (w : ℕ) → length (format_int w) ≤ 20
unfolding format_int
format_int-length w = elim (Bool-cases (ltb w half)) [
  | inl e ↦ rw e (omega (arith, decimal-length 18 w (ground arith)))
  | inr e ↦ rw e (omega (arith, decimal-length 18 (modulus - w - 1 + 1) (ground arith)))
]
