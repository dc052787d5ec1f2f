-- ===== src/Ash/Negative.antt =====
-- `!` and `~` of applets/ash/ash.go before the text of a negative number.
use go_busybox.Prelude.{
  ℕ, suc, ◌+◌, ◌<◌, ◌≡◌, refl, ap, subst, ◌∙◌, ◌≢◌, inl, Option, [], ◌∷◌, arith, Bytes, All,
}
use go_busybox.Go.Int.{decimal}
use go_busybox.Go.Int.Decimal.{IsDigit, decimal-digits, decimal-ne-nil}
use go_busybox.Go.Int64.{half, format_int, sub}
use go_busybox.Ash.Scan.{choose, scan}
use go_busybox.Ash.Arith.{ArithError, value, and_then, symbol, BinOp, apply}
use go_busybox.Ash.Levels.{split, named, or_else, find_binary, levels}
use go_busybox.Ash.Eval.{weight, parse, parse_arith_expr, parse_split}
use go_busybox.Ash.Blind.{graft}
use go_busybox.Ash.Sights.{levels-Blind}
use go_busybox.Ash.Operands.{alone_levels, split_levels-alone}
use go_busybox.Ash.Expr.{UnOp, inverse, flip, sign, apply_unary}
use go_busybox.Ash.Flat.{IsFlat, operators-plain, parse-flat, format_int-small}
use go_busybox.Go.Strings.Split.{Lacks}
use go_busybox.Ash.Values.{flat, lacks, parse-numeral}
use go_busybox.Ash.Operations.{sign-IsFlat}

-- The prefixes that are at fault.
pub data IsNot : UnOp → Type 0 where
  by_inverse : IsNot inverse
  by_flip : IsNot flip

minus-seen :
    (u : UnOp) (ds : Bytes)
    → IsNot u
    → alone_levels levels (sign u ∷ b'-' ∷ []) ds ≡ split (sign u ∷ []) BinOp.less_by ds
unfolding levels symbol scan choose graft named or_else
minus-seen u ds by_inverse = refl
minus-seen u ds by_flip = refl

-- The sign of the number is taken for a subtraction.
find_binary-minus :
    (u : UnOp) (ds : Bytes)
    → IsNot u
    → ds ≢ []
    → All IsDigit ds
    → find_binary (sign u ∷ b'-' ∷ ds) ≡ split (sign u ∷ []) BinOp.less_by ds
unfolding find_binary
find_binary-minus u [] h n d = absurd (n refl)
find_binary-minus u (c ∷ ds) h n (hc, d) =
    split_levels-alone levels (sign u ∷ b'-' ∷ []) c ds hc d levels-Blind ∙ minus-seen u (c ∷ ds) h

-- A prefix alone is applied to nothing, which counts as 0.
sign-alone :
    (f : ℕ) (u : UnOp) (e : Option ArithError)
    → IsNot u
    → parse (suc (suc f)) (sign u ∷ []) e ≡ value (apply_unary u 0) e
unfolding parse
sign-alone f u e by_inverse = refl
sign-alone f u e by_flip = refl

-- The whole text, to any depth that is enough.
parse-minus :
    (f : ℕ) (u : UnOp) (n : ℕ) (e : Option ArithError)
    → IsNot u
    → n < half
    → parse (suc (suc (suc f))) (sign u ∷ b'-' ∷ decimal n) e ≡ value (sub (apply_unary u 0) n) e
unfolding parse_split and_then apply
parse-minus f u n e h l =
    let s : Bytes = sign u ∷ b'-' ∷ decimal n in
    let d : format_int n ≡ decimal n = format_int-small n l in
    parse-flat (suc (suc f)) s e (λ p. cc p)
      ((sign-IsFlat u).0, (omega arith, subst (All IsFlat) d (flat n)))
    ∙ operators-plain (parse (suc (suc f))) s e
        ((sign-IsFlat u).1, (omega arith, subst (Lacks b'?') d (lacks b'?' n (inl (omega arith)))))
    ∙ ap (λ o. parse_split (parse (suc (suc f))) o s e)
        (find_binary-minus u (decimal n) h (decimal-ne-nil n) (decimal-digits n))
    ∙ rw (sign-alone f u e h)
        (rw (← d) (rw (parse-numeral f n e (omega (arith, l), omega (arith, l))) refl))

-- ! and ~ before the text of a negative number -n: the sign is taken for a subtraction from the
-- prefix alone, so that !-n is 1 - n, where it should be 0, and ~-n is -1 - n, where it should be
-- n - 1.
pub parse_arith_expr-not_minus :
    (u : UnOp) (n : ℕ) (e : Option ArithError)
    → IsNot u
    → n < half
    → parse_arith_expr (sign u ∷ b'-' ∷ decimal n) e ≡ value (sub (apply_unary u 0) n) e
unfolding parse_arith_expr
parse_arith_expr-not_minus u n e h l =
    let s : Bytes = sign u ∷ b'-' ∷ decimal n in
    let k : weight s + 5 ≡ suc (suc (suc (weight s + 2))) = omega arith in
    ap (λ k. parse k s e) k ∙ parse-minus (weight s + 2) u n e h l
