-- ===== src/Ash/Samples.antt =====
-- Arithmetic expressions at which the statements on applets/ash/ash.go are applied.
use go_busybox.Prelude.{
  ℕ, ◌%◌, ◌^◌, ◌≡◌, refl, ◌≢◌, false, Option, none, some, [], ◌∷◌, arith, codes, ltb, if◌then◌else◌,
  str_eq,
}
use go_busybox.Go.Int64.{modulus, half, minus, format_int, sub}
use go_busybox.Go.Int.{decimal}
use go_busybox.Ash.Arith.{
  ArithError, divide_by_zero, value, panic, out_of_fuel, and_then, set_error, BinOp, symbol, apply,
  pow_int,
}
use go_busybox.Ash.Eval.{parse_arith_expr}
use go_busybox.Ash.Expr.{
  Expr, literal, unary, binary, conditional, negate, inverse, print, meaning, IsRegular,
}
use go_busybox.Ash.Ends.{parse_arith_expr-ends}
use go_busybox.Go.Int64.Parse.{parse_int}
use go_busybox.Ash.Assignments.{Unicode, is_name}
use go_busybox.Ash.Evaluate.{parse_arith_var, eval_arithmetic}
use go_busybox.Ash.State.{Shell, exhausted, lookup, run_outcome}
use go_busybox.Ash.Cycle.{IsNamed, parse_arith_var-cycle}
use go_busybox.Ash.Whole.{eval_arithmetic-print}
use go_busybox.Ash.Power.{pow_int-power}
use go_busybox.Ash.Negative.{by_inverse, parse_arith_expr-not_minus}

-- No letters or digits above 0xFF.
abbrev ascii : Unicode
ascii = record { letter_above = λ r. false; digit_above = λ r. false }

-- (1<2) ? ((-3)*4) : (5/0)
abbrev sample : Expr
sample =
    conditional (binary BinOp.lt (literal 1) (literal 2))
      (binary BinOp.times (unary negate (literal 3)) (literal 4))
      (binary BinOp.over (literal 5) (literal 0))

sample-print : print sample ≡ codes "((1<2)?((-3)*4):(5/0))"
unfolding print format_int symbol
sample-print = refl

-- The branch that is not taken is evaluated too, and leaves its error.
sample-meaning : meaning sample none ≡ value (minus 12) (some divide_by_zero)
unfolding meaning apply minus and_then
sample-meaning = refl

-- The value that an expression has is not the smallest int64.
value-ne :
    (k : ℕ) → k ≢ half → (e e' : Option ArithError) (v : ℕ) → value k e ≡ value v e' → v ≢ half
value-ne k h e e' v p = ground arith

sample-IsRegular : IsRegular sample
unfolding meaning apply minus and_then
sample-IsRegular = (
  λ e. value-ne (minus 12) (omega arith) (set_error divide_by_zero e),
  (λ e. value-ne 1 (omega arith) e, omega arith, omega arith),
  (
    λ e. value-ne (minus 12) (omega arith) e,
    (λ e. value-ne (minus 3) (omega arith) e, tt, omega arith),
    omega arith,
  ),
  (λ e. value-ne 0 (omega arith) (set_error divide_by_zero e), omega arith, omega arith),
)

-- The variable is not asked for.
abbrev shell : Shell
shell = record { vars = (codes "x", codes "5") ∷ []; error = none }

eval_arithmetic-print_example :
    eval_arithmetic ascii 7 1 (print sample) shell ≡ run_outcome shell (meaning sample none)
eval_arithmetic-print_example = eval_arithmetic-print ascii 7 0 sample shell sample-IsRegular

abbrev knot : Shell
knot = record { vars = (codes "x", codes "y") ∷ (codes "y", codes "x") ∷ []; error = none }

knot-x : IsNamed ascii knot (codes "x") (codes "y")
unfolding lookup parse_int is_name str_eq
knot-x = record {
  holds = refl;
  not_empty = λ e. cc e;
  no_number = refl;
  is_variable = refl;
  other = refl;
}

knot-y : IsNamed ascii knot (codes "y") (codes "x")
unfolding lookup parse_int is_name str_eq
knot-y = record {
  holds = refl;
  not_empty = λ e. cc e;
  no_number = refl;
  is_variable = refl;
  other = refl;
}

parse_arith_var-cycle_example :
    (parse_arith_var ascii 7 1000 (codes "x") knot ≡ exhausted)
    × (parse_arith_var ascii 7 1000 (codes "y") knot ≡ exhausted)
parse_arith_var-cycle_example =
    parse_arith_var-cycle ascii 7 (codes "x") (codes "y") 1000 knot knot-x knot-y refl

parse_arith_expr-ends_example : parse_arith_expr (codes ")(1+(2*") none ≢ out_of_fuel
parse_arith_expr-ends_example = parse_arith_expr-ends (codes ")(1+(2*") none

pow_int-power_example : pow_int 3 70 ≡ some (if ltb 70 half then 3 ^ 70 % modulus else 0)
pow_int-power_example = pow_int-power 3 70 (omega arith)

parse_arith_expr-not_minus_example :
    parse_arith_expr (b'!' ∷ b'-' ∷ decimal 3) none ≡ value (sub 1 3) none
parse_arith_expr-not_minus_example =
    parse_arith_expr-not_minus inverse 3 none by_inverse (omega arith)

-- Blanks around a sign, the smallest int64, and a shift beside a comparison are misread.
misread :
    (parse_arith_expr (codes "2 * -3") none ≡ value (minus 3) none)
    × (parse_arith_expr (codes "(1<<63)+1") none ≡ value 1 none)
    × (parse_arith_expr (codes "1<2<<3") none ≡ value 8 none)
    × (parse_arith_expr (codes "1||(1/0)") none ≡ value 1 (some divide_by_zero))
    × (parse_arith_expr (codes "1<<-1") none ≡ panic)
unfolding parse_arith_expr minus
misread = (refl, refl, refl, refl, refl)
