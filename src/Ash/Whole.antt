-- ===== src/Ash/Whole.antt =====
-- The whole of `evalArithmetic` (applets/ash/ash.go) on printed expressions.
use go_busybox.Prelude.{ℕ, suc, ◌≡◌, refl, ap, ◌∙◌, false, [], ◌∷◌, arith, Bytes, All}
use go_busybox.Go.Strings.{contains_byte}
use go_busybox.Ash.Eval.{parse_arith_expr}
use go_busybox.Ash.Expr.{Expr, print, meaning, IsRegular}
use go_busybox.Ash.Assignments.{Unicode}
use go_busybox.Ash.Pieces.{postfix_piece, dollar_piece, bare_piece}
use go_busybox.Ash.Evaluate.{
  eval_expanded, eval_assigned, eval_with, parse_arith_var, eval_arithmetic,
}
use go_busybox.Ash.State.{Shell, Comp, run_outcome, lifted}
use go_busybox.Ash.Copied.{
  IsPlain, print-IsPlain, put-Copies, postfix-Copies, dollar-Copies, bare-Copies,
}
use go_busybox.Ash.Accepted.{print-accepted, print-no_assignment}
use go_busybox.Ash.Read.{parse_arith_expr-print}

plain-no_dollar : (s : Bytes) → All IsPlain s → contains_byte s b'$' ≡ false
unfolding contains_byte
plain-no_dollar [] h = refl
plain-no_dollar (c ∷ s) (hc, h) = ground (arith, plain-no_dollar s h)

module _ (u : Unicode) (pid : ℕ) (read evaluate : Bytes → Comp ℕ) (st : Shell) where
  -- A text that holds no variable comes to the evaluation as it is.
  expanded-plain :
      (s : Bytes)
      → All IsPlain s
      → eval_expanded u pid read s st ≡ run_outcome st (parse_arith_expr s st.error)
  unfolding eval_expanded lifted
  expanded-plain s h = rw (put-Copies u pid read st (dollar_piece u) s 0 (dollar-Copies u s h)) (
      rw (plain-no_dollar s h)
        (rw (put-Copies u pid read st bare_piece s 0 (bare-Copies s h)) refl))

  eval_with-print :
      (x : Expr)
      → IsRegular x
      → eval_with u pid read evaluate (print x) st ≡ run_outcome st (meaning x st.error)
  unfolding eval_with eval_assigned
  eval_with-print x h =
      rw
        (put-Copies u pid read st postfix_piece (print x) 0
          (postfix-Copies (print x) (print-IsPlain x)))
        (rw (print-accepted u pid x h) (
          rw (print-no_assignment x h) (
            expanded-plain (print x) (print-IsPlain x)
            ∙ ap (run_outcome st) (parse_arith_expr-print x st.error h))))

-- $((...)) on the text of any expression with all its parentheses, whatever the variables hold: the
-- tests let it through, the expansions leave it as it is, and its value, first error or panic is
-- that of the expression, under the conditions on its values; the variables stay.
pub eval_arithmetic-print :
    (u : Unicode) (pid f : ℕ) (x : Expr) (st : Shell)
    → IsRegular x
    → eval_arithmetic u pid (suc f) (print x) st ≡ run_outcome st (meaning x st.error)
unfolding eval_arithmetic
eval_arithmetic-print u pid f x st h =
    eval_with-print u pid (parse_arith_var u pid f) (eval_arithmetic u pid f) st x h
