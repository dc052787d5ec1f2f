-- ===== src/Core/HeadTail/Spellings.antt =====
-- The ways to write the number of lines.
use go_busybox.Prelude.{
  ℕ, ◌^◌, ◌<◌, ◌≡◌, refl, sym, ap, ◌∙◌, ◌≢◌, inl, inr, true, false, some, List, [], ◌∷◌, arith,
  Bytes, codes, leb, ◌==◌, str_eq, Bool-cases, All,
}
use go_busybox.Go.Int.{ℤ, pos, negsuc, neg, atoi, decimal}
use go_busybox.Go.Int.Decimal.{IsDigit, decimal-digits, decimal-ne-nil, atoi-decimal, atoi-neg}
use go_busybox.Core.HeadTail.{
  Options, parsed, parse_loop, parse_arg, parse_letters, parse_numeric_flag_value, flag_value,
  number, set_lines, head,
}

-- The number of `-n` for a text that begins with a digit.
flag_value-digit :
    (c : ℕ) (s : Bytes) (n : ℕ)
    → IsDigit c
    → atoi (c ∷ s) ≡ some (pos n)
    → flag_value (c ∷ s) ≡ parsed (pos n)
unfolding flag_value number
flag_value-digit c s n h e =
    let p : (c == b'+') ≡ false = ground arith in rw p (ap (number (c ∷ s)) e)

-- `-n TEXT`.
apart :
    (applet : Bytes) (c : ℕ) (s : Bytes) (n : ℕ) (args : List Bytes) (o : Options)
    → IsDigit c
    → atoi (c ∷ s) ≡ some (pos n)
    → parse_loop applet false (codes "-n" ∷ (c ∷ s) ∷ args) o
      ≡ parse_loop applet false args (record o { lines = pos n })
unfolding parse_loop parse_arg parse_letters parse_numeric_flag_value set_lines str_eq
apart applet c s n args o h e = rw (flag_value-digit c s n h e)

-- `-nTEXT`.
joined :
    (applet : Bytes) (c : ℕ) (s : Bytes) (n : ℕ) (args : List Bytes) (o : Options)
    → IsDigit c
    → atoi (c ∷ s) ≡ some (pos n)
    → parse_loop applet false ((b'-' ∷ b'n' ∷ c ∷ s) ∷ args) o
      ≡ parse_loop applet false args (record o { lines = pos n })
unfolding parse_loop parse_arg parse_letters parse_numeric_flag_value set_lines str_eq
joined applet c s n args o h e = rw (flag_value-digit c s n h e)

-- `-TEXT`.
short :
    (applet : Bytes) (c : ℕ) (s : Bytes) (n : ℕ) (args : List Bytes) (o : Options)
    → IsDigit c
    → atoi (c ∷ s) ≡ some (pos n)
    → parse_loop applet false ((b'-' ∷ c ∷ s) ∷ args) o
      ≡ parse_loop applet false args (record o { lines = pos n })
unfolding parse_loop parse_arg number str_eq
short applet c s n args o (h, k) e =
    let p : (c == b'-') ≡ false = ground arith in
    let q : (leb b'0' c) ≡ true = ground arith in
    let r : (leb c b'9') ≡ true = ground arith in rw p (rw q (rw r (rw e)))

-- The digits of a number, taken apart.
digits : (n : ℕ) → (c : ℕ) × (s : Bytes) × (decimal n ≡ c ∷ s) × IsDigit c
digits n = go (decimal n) (decimal-ne-nil n) (decimal-digits n)
  where
    go : (l : Bytes) → l ≢ [] → All IsDigit l → (c : ℕ) × (s : Bytes) × (l ≡ c ∷ s) × IsDigit c
    go [] h d = absurd (h refl)
    go (c ∷ s) h (d, _) = (c, s, refl, d)

-- `-n 5`, `-n5` and `-5` mean the same, in every place of the arguments: for each number that fits
-- an int, all three set the number of lines, and nothing else.
pub parse_loop-spellings :
    (applet : Bytes) (n : ℕ) (args : List Bytes) (o : Options)
    → n < 2 ^ 63
    → let done = parse_loop applet false args (record o { lines = pos n }) in
      (parse_loop applet false (codes "-n" ∷ decimal n ∷ args) o ≡ done)
      × (parse_loop applet false ((b'-' ∷ b'n' ∷ decimal n) ∷ args) o ≡ done)
      × (parse_loop applet false ((b'-' ∷ decimal n) ∷ args) o ≡ done)
parse_loop-spellings applet n args o small =
    let (c, s, e, d) = digits n in
    let h : atoi (c ∷ s) ≡ some (pos n) = ap atoi (sym e) ∙ atoi-decimal n small in
    (
      rw e (apart applet c s n args o d h),
      rw e (joined applet c s n args o d h),
      rw e (short applet c s n args o d h),
    )

flag_value-minus : (n : ℕ) → n < 2 ^ 63 → flag_value (b'-' ∷ decimal n) ≡ parsed (neg n)
unfolding flag_value number
flag_value-minus n h = rw (atoi-neg n h)

flag_value-plus : (n : ℕ) → n < 2 ^ 63 → flag_value (b'+' ∷ decimal n) ≡ parsed (neg n)
unfolding flag_value number
flag_value-plus n h = rw (atoi-decimal n h)

-- Only the value of a text counts.
same_value :
    (applet t u : Bytes) (z : ℤ) (args : List Bytes) (o : Options)
    → flag_value t ≡ parsed z
    → flag_value u ≡ parsed z
    → parse_loop applet false (codes "-n" ∷ t ∷ args) o
      ≡ parse_loop applet false (codes "-n" ∷ u ∷ args) o
unfolding parse_loop parse_arg parse_letters parse_numeric_flag_value str_eq set_lines
same_value applet t u (pos n) args o h k = rw h (rw k)
same_value applet t u (negsuc n) args o h k = elim (Bool-cases (str_eq applet head)) [
  | inl e ↦ rw h (rw k (rw e))
  | inr e ↦ rw h (rw k (rw e))
]

-- `-n -5` means what `-n +5` means, for `head` and `tail` alike and for every number that fits an
-- int: the sign says "from the start", or is an error of use.
pub parse_loop-minus_plus :
    (applet : Bytes) (n : ℕ) (args : List Bytes) (o : Options)
    → n < 2 ^ 63
    → parse_loop applet false (codes "-n" ∷ (b'-' ∷ decimal n) ∷ args) o
      ≡ parse_loop applet false (codes "-n" ∷ (b'+' ∷ decimal n) ∷ args) o
parse_loop-minus_plus applet n args o h =
    same_value applet (b'-' ∷ decimal n) (b'+' ∷ decimal n) (neg n) args o (flag_value-minus n h)
      (flag_value-plus n h)
