-- ===== src/Ash/Values.antt =====
-- `parseArithExpr` (applets/ash/ash.go) on numerals.
use go_busybox.Prelude.{
  ℕ, suc, ◌-◌, ◌<◌, ◌≡◌, refl, sym, ap, ◌∙◌, ◌≢◌, ◌⊎◌, inl, inr, Option, [], ◌∷◌, arith, Bytes, ltb,
  ltb→lt, Bool-cases, All,
}
use go_busybox.Go.Int.{decimal}
use go_busybox.Go.Int.Decimal.{IsDigit, decimal-digits, decimal-ne-nil}
use go_busybox.Go.Int64.{modulus, half, format_int, minus}
use go_busybox.Go.Int64.Decimals.{parse_int-decimal, format_int-IsNumeral}
use go_busybox.Go.Strings.Split.{Lacks}
use go_busybox.Go.Strings.Trim.{trim_space-solid}
use go_busybox.Ash.Arith.{ArithError, value, and_then, parse_base_number, base_parts}
use go_busybox.Ash.Levels.{whole, find_binary}
use go_busybox.Ash.Operands.{Numeral, find_binary-numeral}
use go_busybox.Ash.Eval.{Parser, parse, parse_split, parse_unary, number, number_or}
use go_busybox.Ash.Flat.{
  IsFlat, flat-IsSolid, operators-plain, parse-flat, numeral-IsFlat, numeral-Lacks,
  format_int-small, format_int-large, format_int-Numeral, Numeral-ne-nil, split_2-Lacks,
}

pub flat : (v : ℕ) → All IsFlat (format_int v)
flat v = numeral-IsFlat (format_int v) (format_int-IsNumeral v)

pub lacks : (b v : ℕ) → (b'9' < b) ⊎ ((b'-' < b) × (b < b'0')) → Lacks b (format_int v)
lacks b v h = numeral-Lacks b (format_int v) h (format_int-IsNumeral v)

digits-Lacks_base : (s : Bytes) → All IsDigit s → Lacks b'#' s
digits-Lacks_base [] h = tt
digits-Lacks_base (c ∷ s) (hc, h) = (ground arith, digits-Lacks_base s h)

number-decimal : (n : ℕ) → n < half → number (decimal n) ≡ n
unfolding number parse_base_number base_parts number_or
number-decimal n h =
    rw (split_2-Lacks (decimal n) b'#' (digits-Lacks_base (decimal n) (decimal-digits n)))
      (rw (parse_int-decimal n h) (omega arith))

unary-digits :
    (eval : Parser) (s : Bytes) (e : Option ArithError)
    → s ≢ []
    → All IsDigit s
    → parse_unary eval s e ≡ value (number s) e
unfolding parse_unary
unary-digits eval [] e n h = absurd (n refl)
unary-digits eval (c ∷ s) e n (hc, h) = ground arith

-- A text that is not split comes to the prefixes and numbers.
pub parse-whole :
    (f : ℕ) (s : Bytes) (e : Option ArithError)
    → s ≢ []
    → All IsFlat s
    → Lacks b'?' s
    → find_binary s ≡ whole
    → parse (suc f) s e ≡ parse_unary (parse f) s e
unfolding parse_split
parse-whole f s e n h l w =
    parse-flat f s e n h
    ∙ operators-plain (parse f) s e l
    ∙ ap (λ o. parse_split (parse f) o s e) w
    ∙ ap (λ t. parse_unary (parse f) t e) (trim_space-solid s (flat-IsSolid s h))

parse-small :
    (f v : ℕ) (e : Option ArithError) → v < half → parse (suc f) (format_int v) e ≡ value v e
parse-small f v e h =
    let n : Numeral (format_int v) = format_int-Numeral v (omega arith) in
    parse-whole f (format_int v) e (Numeral-ne-nil n) (flat v) (lacks b'?' v (inl (omega arith)))
      (find_binary-numeral n)
    ∙ ap (λ t. parse_unary (parse f) t e) (format_int-small v h)
    ∙ unary-digits (parse f) (decimal v) e (decimal-ne-nil v) (decimal-digits v)
    ∙ ap (λ k. value k e) (number-decimal v h)

-- The words whose texts are read back: all but the smallest int64.
abbrev pub Printable : ℕ → Type 0
Printable v = (v < modulus) × (v ≢ half)

unary-minus :
    (eval : Parser) (s : Bytes) (e : Option ArithError)
    → parse_unary eval (b'-' ∷ s) e ≡ and_then (eval s e) (λ v e'. value (minus v) e')
unfolding parse_unary
unary-minus eval s e = refl

pub parse-numeral :
    (f v : ℕ) (e : Option ArithError)
    → Printable v
    → parse (suc (suc f)) (format_int v) e ≡ value v e
unfolding and_then minus
parse-numeral f v e (l, k) = elim (Bool-cases (ltb v half)) [
  | inl small ↦ parse-small (suc f) v e (ltb→lt v half small)
  | inr large ↦
      let n : Numeral (format_int v) = format_int-Numeral v l in
      let h : modulus - v < half = ground arith in
      parse-whole (suc f) (format_int v) e (Numeral-ne-nil n) (flat v)
        (lacks b'?' v (inl (omega arith))) (find_binary-numeral n)
      ∙ ap (λ t. parse_unary (parse (suc f)) t e) (format_int-large v (ground arith) l)
      ∙ unary-minus (parse (suc f)) (decimal (modulus - v)) e
      ∙ ap (λ o. and_then o (λ x e'. value (minus x) e'))
          (ap (λ t. parse (suc f) t e) (sym (format_int-small (modulus - v) h))
            ∙ parse-small f (modulus - v) e h)
      ∙ ap (λ x. value x e) (ground arith)
]
