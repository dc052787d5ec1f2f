-- ===== src/Go/Int/Decimal.antt =====
-- `Itoa` and `Atoi` on the decimal digits of a number.
use mathlib.Core.List.{concat-ne-nil}
use native.Mathlib.Numerals.{add-one}
use native.Mathlib.Nat.{pow-suc}
use go_busybox.Prelude.{
  Option, none, some, ℕ, zero, suc, ◌+◌, ◌-◌, ◌*◌, ◌/◌, ◌%◌, ◌^◌, ◌<◌, ◌≤◌, ◌≡◌, ◌≢◌, refl, ap, ◌∙◌,
  true, some, [], ◌∷◌, ◌++◌, Bytes, arith, leb, ltb, Bool-cases, ◌==◌, inl, inr, All, All-append,
  length, length-append,
}
use go_busybox.Go.Int.{
  pos, neg, digits_value, natural, atoi, decimal_loop, decimal, in_range_pos, in_range_neg,
}

abbrev pub IsDigit : ℕ → Type 0
IsDigit c = (b'0' ≤ c) × (c ≤ b'9')

-- One more digit at the end.
digits_value-append :
    (s : Bytes) (n m d : ℕ)
    → d < 10
    → digits_value n s ≡ some m
    → digits_value n (s ++ (b'0' + d) ∷ []) ≡ some (m * 10 + d)
unfolding digits_value
digits_value-append [] n m d h e = ground arith
digits_value-append (c ∷ s) n m d h e =
    ground (arith, digits_value-append s (n * 10 + (c - b'0')) m d)

decimal_loop-value : (f n : ℕ) → n < f → digits_value 0 (decimal_loop f n) ≡ some n
unfolding decimal_loop
decimal_loop-value zero n h = elim h [ ]
decimal_loop-value (suc f) n h = elim (Bool-cases (ltb n 10)) [
  | inl e ↦ rw e (unfold digits_value in ground arith)
  | inr e ↦ rw e (
      digits_value-append (decimal_loop f (n / 10)) 0 (n / 10) (n % 10) (omega arith)
        (decimal_loop-value f (n / 10) (ground arith))
      ∙ ap some (ground arith))
]

-- The first byte is a digit.
decimal_loop-digits : (f n : ℕ) → All IsDigit (decimal_loop f n)
unfolding decimal_loop
decimal_loop-digits zero n = tt
decimal_loop-digits (suc f) n = elim (Bool-cases (ltb n 10)) [
  | inl e ↦ rw e (ground arith)
  | inr e ↦ rw e (
      All-append IsDigit (decimal_loop f (n / 10)) _ (decimal_loop-digits f (n / 10))
        (ground arith))
]

pub decimal-digits : (n : ℕ) → All IsDigit (decimal n)
unfolding decimal
decimal-digits n = decimal_loop-digits (n + 1) n

decimal_loop-ne-nil : (f n : ℕ) → decimal_loop (suc f) n ≢ []
unfolding decimal_loop
decimal_loop-ne-nil f n = ground (arith, concat-ne-nil (b'0' + n % 10) (decimal_loop f (n / 10)))

pub decimal-ne-nil : (n : ℕ) → decimal n ≢ []
unfolding decimal
decimal-ne-nil n = rw add-one (decimal_loop-ne-nil n n)

pub digits_value-decimal : (n : ℕ) → digits_value 0 (decimal n) ≡ some n
unfolding decimal
digits_value-decimal n = decimal_loop-value (n + 1) n (omega arith)

atoi-digits :
    (s : Bytes) (n : ℕ)
    → s ≢ []
    → All IsDigit s
    → n < 2 ^ 63
    → digits_value 0 s ≡ some n
    → atoi s ≡ some (pos n)
unfolding atoi natural in_range_pos
atoi-digits [] n h d small e = absurd (h refl)
atoi-digits (c ∷ s) n h (hc, d) small e = ground arith

-- What `Itoa` prints, `Atoi` reads back.
pub atoi-decimal : (n : ℕ) → n < 2 ^ 63 → atoi (decimal n) ≡ some (pos n)
atoi-decimal n small =
    atoi-digits (decimal n) n (decimal-ne-nil n) (decimal-digits n) small (digits_value-decimal n)

in_range_pos-lt : (o : Option ℕ) (n : ℕ) → in_range_pos o ≡ some (pos n) → n < 2 ^ 63
unfolding in_range_pos
in_range_pos-lt none n h = cc
in_range_pos-lt (some m) n h = ground arith

in_range_neg-lt : (o : Option ℕ) (n : ℕ) → in_range_neg o ≡ some (pos n) → n < 2 ^ 63
unfolding in_range_neg
in_range_neg-lt none n h = cc
in_range_neg-lt (some zero) n h = ground arith
in_range_neg-lt (some (suc m)) n h = ground arith

-- What `Atoi` reads is an int64.
pub atoi-lt : (s : Bytes) (n : ℕ) → atoi s ≡ some (pos n) → n < 2 ^ 63
unfolding atoi
atoi-lt [] n h = cc
atoi-lt (c ∷ s) n h = elim (Bool-cases (c == b'-')) [
  | inl e ↦ in_range_neg-lt (natural s) n (rw e at h)
  | inr e ↦ elim (Bool-cases (c == b'+')) [
    | inl f ↦ in_range_pos-lt (natural s) n (ground arith)
    | inr f ↦ in_range_pos-lt (natural (c ∷ s)) n (ground arith)
  ]
]

in_range_neg-le : (o : Option ℕ) (n : ℕ) → o ≡ some n → n < 2 ^ 63 → in_range_neg o ≡ some (neg n)
unfolding in_range_neg
in_range_neg-le o n e h = let p : leb n (2 ^ 63) ≡ true = ground arith in rw e (rw p refl)

natural-digits : (l : Bytes) → l ≢ [] → natural l ≡ digits_value 0 l
unfolding natural
natural-digits [] h = absurd (h refl)
natural-digits (c ∷ s) h = refl

pub atoi-neg : (n : ℕ) → n < 2 ^ 63 → atoi (b'-' ∷ decimal n) ≡ some (neg n)
unfolding atoi
atoi-neg n h =
    in_range_neg-le (natural (decimal n)) n
      (natural-digits (decimal n) (decimal-ne-nil n) ∙ digits_value-decimal n) h

unfoldable pub first_byte : Bytes → ℕ
first_byte [] = 0
first_byte (c ∷ s) = c

first_byte-append : (s t : Bytes) → first_byte s ≢ 0 → first_byte (s ++ t) ≡ first_byte s
unfolding first_byte
first_byte-append [] t h = absurd (h refl)
first_byte-append (c ∷ s) t h = refl

-- The first digit of a number that is not 0 is not 0.
decimal_loop-first :
    (f n : ℕ)
    → 0 < n
    → n < f
    → (b'0' < first_byte (decimal_loop f n)) × (first_byte (decimal_loop f n) ≤ b'9')
unfolding decimal_loop
decimal_loop-first zero n p h = elim h [ ]
decimal_loop-first (suc f) n p h = elim (Bool-cases (ltb n 10)) [
  | inl e ↦ rw e (unfold first_byte in ground arith)
  | inr e ↦
      let ih : (b'0' < first_byte (decimal_loop f (n / 10)))
          × (first_byte (decimal_loop f (n / 10)) ≤ b'9') =
        decimal_loop-first f (n / 10) (ground arith) (ground arith) in
      rw e
        (rw (first_byte-append (decimal_loop f (n / 10)) ((b'0' + n % 10) ∷ []) (ground arith)) ih)
]

pub decimal-zero : decimal 0 ≡ b'0' ∷ []
unfolding decimal
decimal-zero = refl

pub decimal-first : (n : ℕ) → 0 < n → b'0' < first_byte (decimal n)
unfolding decimal
decimal-first n p = (decimal_loop-first (n + 1) n p (omega arith)).0

decimal_loop-length : (f k n : ℕ) → n < 10 ^ suc k → length (decimal_loop f n) ≤ suc k
unfolding decimal_loop
decimal_loop-length zero k n h = omega arith
decimal_loop-length (suc f) zero n h = let e : ltb n 10 ≡ true = ground arith in rw e (omega arith)
decimal_loop-length (suc f) (suc k) n h = elim (Bool-cases (ltb n 10)) [
  | inl e ↦ rw e (omega arith)
  | inr e ↦
      let less : n / 10 < 10 ^ suc k = omega (arith, pow-suc 10 (suc k)) in
      rw e (
        omega (
          arith,
          length-append (decimal_loop f (n / 10)) ((b'0' + n % 10) ∷ []),
          decimal_loop-length f k (n / 10) less,
        ))
]

-- A number below 10 ^ (k + 1) has at most k + 1 digits.
pub decimal-length : (k n : ℕ) → n < 10 ^ suc k → length (decimal n) ≤ suc k
unfolding decimal
decimal-length k n h = decimal_loop-length (n + 1) k n h
