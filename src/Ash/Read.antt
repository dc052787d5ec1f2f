-- ===== src/Ash/Read.antt =====
-- The whole of `parseArithExpr` (applets/ash/ash.go) on printed expressions.
use go_busybox.Prelude.{
  ℕ, suc, ◌+◌, ◌≡◌, refl, ap, ◌∙◌, ◌≢◌, Option, [], ◌∷◌, ◌++◌, arith, Bytes, codes, All, All-append,
}
use go_busybox.Go.Int64.{format_int}
use go_busybox.Go.Strings.Split.{Lacks}
use go_busybox.Go.Strings.Trim.{trim_space-solid, IsSolid}
use go_busybox.Ash.Arith.{ArithError, symbol}
use go_busybox.Ash.Eval.{count_open, weight, parse, parse_trimmed, parse_groups, parse_arith_expr}
use go_busybox.Ash.Weights.{count_open-append}
use go_busybox.Ash.Expr.{Expr, literal, unary, binary, conditional, print, meaning, IsRegular}
use go_busybox.Ash.Flat.{flat-IsSolid, flat-count_open}
use go_busybox.Ash.Values.{flat}
use go_busybox.Ash.Operations.{symbol-IsFlat, sign-IsFlat}
use go_busybox.Ash.Flat.{format_int-Numeral, Numeral-ne-nil}
use go_busybox.Ash.Printed.{groups, whole-print}
use go_busybox.Ash.Inner.{inner-opens, number-IsInner, symbol-IsInner, sign-IsInner}

IsSolid-append : (s t : Bytes) → All IsSolid s → All IsSolid t → All IsSolid (s ++ t)
IsSolid-append = All-append IsSolid

pub print-IsSolid : (x : Expr) → All IsSolid (print x)
unfolding print
print-IsSolid (literal n) = flat-IsSolid (format_int n) (flat n)
print-IsSolid (unary u a) = (
  omega arith,
  ((sign-IsFlat u).0.0, IsSolid-append (print a) (codes ")") (print-IsSolid a) (omega arith)),
)
print-IsSolid (binary op a b) = (
  omega arith,
  IsSolid-append (print a) (symbol op ++ (print b ++ codes ")")) (print-IsSolid a) (
      IsSolid-append (symbol op) (print b ++ codes ")")
        (flat-IsSolid (symbol op) (symbol-IsFlat op))
        (IsSolid-append (print b) (codes ")") (print-IsSolid b) (omega arith))),
)
print-IsSolid (conditional c t f) = (
  omega arith,
  IsSolid-append (print c) (codes "?" ++ (print t ++ (codes ":" ++ (print f ++ codes ")"))))
      (print-IsSolid c)
      (
        omega arith,
        IsSolid-append (print t) (codes ":" ++ (print f ++ codes ")")) (print-IsSolid t)
            (omega arith, IsSolid-append (print f) (codes ")") (print-IsSolid f) (omega arith)),
      ),
)

no_open : (s : Bytes) → Lacks b'(' s → count_open s ≡ 0
no_open = flat-count_open

count_open-print : (x : Expr) → count_open (print x) ≡ groups x
unfolding print groups count_open
count_open-print (literal n) =
    no_open (format_int n) (inner-opens (format_int n) (number-IsInner n))
count_open-print (unary u a) =
    ground (arith, sign-IsInner u, count_open-append (print a) (codes ")"), count_open-print a)
count_open-print (binary op a b) = omega (
  arith,
  count_open-append (print a) (symbol op ++ (print b ++ codes ")")),
  count_open-append (symbol op) (print b ++ codes ")"),
  count_open-append (print b) (codes ")"),
  no_open (symbol op) (inner-opens (symbol op) (symbol-IsInner op)),
  count_open-print a,
  count_open-print b,
)
count_open-print (conditional c t f) = omega (
  arith,
  count_open-append (print c) (codes "?" ++ (print t ++ (codes ":" ++ (print f ++ codes ")")))),
  count_open-append (print t) (codes ":" ++ (print f ++ codes ")")),
  count_open-append (print f) (codes ")"),
  count_open-print c,
  count_open-print t,
  count_open-print f,
)

print-ne-nil : (x : Expr) → IsRegular x → print x ≢ []
unfolding print
print-ne-nil (literal n) h = Numeral-ne-nil (format_int-Numeral n (omega (arith, h)))
print-ne-nil (unary u a) h = λ e. cc e
print-ne-nil (binary op a b) h = λ e. cc e
print-ne-nil (conditional c t f) h = λ e. cc e

parse-solid :
    (f : ℕ) (s : Bytes) (e : Option ArithError)
    → s ≢ []
    → All IsSolid s
    → parse (suc f) s e ≡ parse_groups (parse f) (suc (count_open s)) s e
unfolding parse parse_trimmed
parse-solid f [] e n h = absurd (n refl)
parse-solid f (c ∷ s) e n h = rw (trim_space-solid (c ∷ s) h) refl

-- The shell evaluates the text of any expression with all its parentheses to the expression's
-- value, by wrapping operations on int64 words, with its first error (a division by zero) or its
-- panic (a shift by a negative count), every operand evaluated and the last one first, if no value
-- on the way is the smallest int64 and the operands of ! and ~ are not negative.
pub parse_arith_expr-print :
    (x : Expr) (e : Option ArithError) → IsRegular x → parse_arith_expr (print x) e ≡ meaning x e
unfolding parse_arith_expr
parse_arith_expr-print x e h =
    let n : weight (print x) + 5 ≡ suc (suc (suc (suc (weight (print x) + 1)))) = omega arith in
    ap (λ k. parse k (print x) e) n
    ∙ parse-solid (suc (suc (suc (weight (print x) + 1)))) (print x) e (print-ne-nil x h)
        (print-IsSolid x)
    ∙ ap (λ k. parse_groups (parse (suc (suc (suc (weight (print x) + 1))))) (suc k) (print x) e)
        (count_open-print x)
    ∙ whole-print (weight (print x) + 1) x e h
