-- ===== src/Ash/Flat.antt =====
-- `parseArithExpr` (applets/ash/ash.go) on texts with no parentheses, and on numerals.
use go_busybox.Prelude.{
  ℕ, suc, ◌+◌, ◌-◌, ◌≤◌, ◌<◌, ◌≡◌, refl, sym, ap, ◌∙◌, ◌≢◌, ◌⊎◌, inl, inr, Bool, true, false,
  Option, none, some, [], ◌∷◌, ◌++◌, arith, Bytes, ltb, ltb→lt, Bool-cases, All,
}
use go_busybox.Go.Int.{itoa, decimal}
use go_busybox.Go.Int.Decimal.{IsDigit, decimal-digits, decimal-ne-nil}
use go_busybox.Go.Int64.{modulus, half, format_int}
use go_busybox.Go.Int64.Decimals.{IsNumeral}
use go_busybox.Go.Strings.{split_2}
use go_busybox.Go.Strings.Split.{Lacks}
use go_busybox.Go.Strings.Trim.{trim_space-solid, IsSolid}
use go_busybox.Ash.Scan.{miss, absent, backward, scan, latest}
use go_busybox.Ash.Arith.{ArithError}
use go_busybox.Ash.Levels.{find_binary}
use go_busybox.Ash.Operands.{Numeral, minus_sign}
use go_busybox.Ash.Eval.{
  Parser, no_group, last_group, opened_at, open_test, count_open, parse, parse_trimmed,
  parse_groups, parse_group, parse_operators, parse_question, parse_split,
}

-- A byte that the groups and the trimming leave alone.
abbrev pub IsFlat : ℕ → Type 0
IsFlat c = IsSolid c × (c ≢ b'(')

pub flat-IsSolid : (s : Bytes) → All IsFlat s → All IsSolid s
flat-IsSolid [] h = tt
flat-IsSolid (c ∷ s) (hc, h) = (hc.0, flat-IsSolid s h)

pub flat-count_open : (s : Bytes) → All (λ c. c ≢ b'(') s → count_open s ≡ 0
unfolding count_open
flat-count_open [] h = refl
flat-count_open (c ∷ s) (hc, h) = ground (arith, flat-count_open s h)

latest-miss : (c : ℕ) (s : Bytes) → latest miss c s absent ≡ absent
unfolding latest
latest-miss c s = refl

flat-scan : (prev : Option ℕ) (s : Bytes) → All IsFlat s → scan backward open_test prev s ≡ absent
unfolding scan
flat-scan prev [] h = refl
flat-scan prev (c ∷ s) (hc, h) =
    let e : open_test prev (c ∷ s) ≡ miss = unfold open_test in ground arith in
    rw e (rw (flat-scan (some c) s h) (latest-miss c s))

flat-last_group : (s : Bytes) → All IsFlat s → last_group s ≡ no_group
unfolding last_group opened_at
flat-last_group s h = rw (flat-scan none s h) refl

pub split_2-Lacks : (s : Bytes) (b : ℕ) → Lacks b s → split_2 s b ≡ (s, none)
unfolding split_2
split_2-Lacks [] b h = refl
split_2-Lacks (c ∷ s) b (hc, h) = ground (arith, split_2-Lacks s b h)

module _ (eval : Parser) where
  -- The loop over the groups stops at once.
  pub groups-flat :
      (n : ℕ) (s : Bytes) (e : Option ArithError)
      → All IsFlat s
      → parse_groups eval (suc n) s e ≡ parse_operators eval s e
  unfolding parse_groups parse_group
  groups-flat n s e h = rw (flat-last_group s h) refl

  pub operators-plain :
      (s : Bytes) (e : Option ArithError)
      → Lacks b'?' s
      → parse_operators eval s e ≡ parse_split eval (find_binary s) s e
  unfolding parse_operators parse_question
  operators-plain s e h = rw (split_2-Lacks s b'?' h) refl

pub parse-flat :
    (f : ℕ) (s : Bytes) (e : Option ArithError)
    → s ≢ []
    → All IsFlat s
    → parse (suc f) s e ≡ parse_operators (parse f) s e
unfolding parse parse_trimmed
parse-flat f [] e n h = absurd (n refl)
parse-flat f (c ∷ s) e n h =
    rw (trim_space-solid (c ∷ s) (flat-IsSolid (c ∷ s) h))
      (groups-flat (parse f) (count_open (c ∷ s)) (c ∷ s) e h)

-- Numerals are flat and hold no question mark.
pub numeral-IsFlat : (s : Bytes) → All IsNumeral s → All IsFlat s
numeral-IsFlat [] h = tt
numeral-IsFlat (c ∷ s) (hc, h) = (ground arith, numeral-IsFlat s h)

pub numeral-Lacks :
    (b : ℕ) (s : Bytes) → (b'9' < b) ⊎ ((b'-' < b) × (b < b'0')) → All IsNumeral s → Lacks b s
numeral-Lacks b [] h k = tt
numeral-Lacks b (c ∷ s) h (hc, k) = (ground arith, numeral-Lacks b s h k)

digits-Numeral : (n : Bool) (ds : Bytes) → ds ≢ [] → All IsDigit ds → Numeral (minus_sign n ++ ds)
digits-Numeral n [] h d = absurd (h refl)
digits-Numeral n (c ∷ ds) h (hc, d) = record {
  negative = n;
  first = c;
  others = ds;
  spelled = refl;
  first_digit = hc;
  other_digits = d;
}

pub format_int-small : (v : ℕ) → v < half → format_int v ≡ decimal v
unfolding format_int itoa
format_int-small v h = let e : ltb v half ≡ true = ground arith in rw e refl

pub format_int-large :
    (v : ℕ) → half ≤ v → v < modulus → format_int v ≡ b'-' ∷ decimal (modulus - v)
unfolding format_int itoa
format_int-large v h l =
    let e : ltb v half ≡ false = ground arith in
    let m : modulus - v - 1 + 1 ≡ modulus - v = omega arith in rw e (ap (λ k. b'-' ∷ decimal k) m)

digits-sign :
    (n : Bool) (ds : Bytes) (h : ds ≢ []) (d : All IsDigit ds)
    → (digits-Numeral n ds h d).negative ≡ n
unfolding digits-Numeral
digits-sign n [] h d = absurd (h refl)
digits-sign n (c ∷ ds) h d = refl

-- A number that is not negative has no sign.
pub small-Numeral : (v : ℕ) → v < half → (n : Numeral (format_int v)) × (n.negative ≡ false)
small-Numeral v h = rw (format_int-small v h) (
  digits-Numeral false (decimal v) (decimal-ne-nil v) (decimal-digits v),
  digits-sign false (decimal v) (decimal-ne-nil v) (decimal-digits v),
)

pub format_int-Numeral : (v : ℕ) → v < modulus → Numeral (format_int v)
format_int-Numeral v l = elim (Bool-cases (ltb v half)) [
  | inl e ↦
      rw (format_int-small v (ltb→lt v half e))
        (digits-Numeral false (decimal v) (decimal-ne-nil v) (decimal-digits v))
  | inr e ↦ rw (format_int-large v (ground arith) l) (
      digits-Numeral true (decimal (modulus - v)) (decimal-ne-nil (modulus - v))
        (decimal-digits (modulus - v)))
]

minus_sign-ne-nil : (n : Bool) (c : ℕ) (s : Bytes) → minus_sign n ++ c ∷ s ≢ []
minus_sign-ne-nil true c s = λ e. cc e
minus_sign-ne-nil false c s = λ e. cc e

pub Numeral-ne-nil : {s : Bytes} → Numeral s → s ≢ []
Numeral-ne-nil n = λ e. minus_sign-ne-nil n.negative n.first n.others (sym n.spelled ∙ e)
