-- ===== src/Ash/Balanced.antt =====
-- Printed expressions close their parentheses (applets/ash/ash.go, `hasUnbalancedParens`).
use go_busybox.Prelude.{
  ℕ, suc, ◌≡◌, refl, sym, ap, ◌∙◌, false, some, [], ◌∷◌, ◌++◌, append-nil, append_assoc, arith,
  Bytes, codes, All,
}
use go_busybox.Go.Int64.{format_int}
use go_busybox.Ash.Arith.{symbol}
use go_busybox.Ash.Expr.{Expr, literal, unary, binary, conditional, sign, print}
use go_busybox.Ash.Guards.{depth_after, unbalanced_from, has_unbalanced_parens}
use go_busybox.Ash.Inner.{IsInner, number-IsInner, symbol-IsInner, sign-IsInner}

IsInner-unbalanced :
    (d : ℕ) (s t : Bytes) → All IsInner s → unbalanced_from d (s ++ t) ≡ unbalanced_from d t
unfolding unbalanced_from
IsInner-unbalanced d [] t h = refl
IsInner-unbalanced d (c ∷ s) t (hc, h) =
    let e : depth_after d c ≡ some d = unfold depth_after in ground arith in
    rw (e, unbalanced_from) (IsInner-unbalanced d s t h)

open-unbalanced : (d : ℕ) (t : Bytes) → unbalanced_from d (b'(' ∷ t) ≡ unbalanced_from (suc d) t
unfolding unbalanced_from depth_after
open-unbalanced d t = ap (λ k. unbalanced_from k t) (omega arith)

close-unbalanced : (d : ℕ) (t : Bytes) → unbalanced_from (suc d) (b')' ∷ t) ≡ unbalanced_from d t
unfolding unbalanced_from
close-unbalanced d t =
    let e : depth_after (suc d) b')' ≡ some d = unfold depth_after in ground arith in
    rw (e, unbalanced_from) refl

print-unbalanced :
    (x : Expr) (d : ℕ) (t : Bytes) → unbalanced_from d (print x ++ t) ≡ unbalanced_from d t
unfolding print
print-unbalanced (literal n) d t = IsInner-unbalanced d (format_int n) t (number-IsInner n)
print-unbalanced (unary u a) d t =
    open-unbalanced d (sign u ∷ ((print a ++ codes ")") ++ t))
    ∙ IsInner-unbalanced (suc d) (sign u ∷ []) ((print a ++ codes ")") ++ t) (sign-IsInner u, tt)
    ∙ ap (unbalanced_from (suc d)) (append_assoc (print a) (codes ")") t)
    ∙ print-unbalanced a (suc d) (b')' ∷ t)
    ∙ close-unbalanced d t
print-unbalanced (binary op a b) d t =
    open-unbalanced d ((print a ++ (symbol op ++ (print b ++ codes ")"))) ++ t)
    ∙ ap (unbalanced_from (suc d)) (simp append_assoc)
    ∙ print-unbalanced a (suc d) (symbol op ++ (print b ++ b')' ∷ t))
    ∙ IsInner-unbalanced (suc d) (symbol op) (print b ++ b')' ∷ t) (symbol-IsInner op)
    ∙ print-unbalanced b (suc d) (b')' ∷ t)
    ∙ close-unbalanced d t
print-unbalanced (conditional c t f) d r =
    open-unbalanced d
      ((print c ++ (codes "?" ++ (print t ++ (codes ":" ++ (print f ++ codes ")"))))) ++ r)
    ∙ ap (unbalanced_from (suc d)) (simp append_assoc)
    ∙ print-unbalanced c (suc d) (b'?' ∷ (print t ++ b':' ∷ (print f ++ b')' ∷ r)))
    ∙ IsInner-unbalanced (suc d) (codes "?") (print t ++ b':' ∷ (print f ++ b')' ∷ r))
        (ground arith)
    ∙ print-unbalanced t (suc d) (b':' ∷ (print f ++ b')' ∷ r))
    ∙ IsInner-unbalanced (suc d) (codes ":") (print f ++ b')' ∷ r) (ground arith)
    ∙ print-unbalanced f (suc d) (b')' ∷ r)
    ∙ close-unbalanced d r

pub print-balanced : (x : Expr) → has_unbalanced_parens (print x) ≡ false
unfolding has_unbalanced_parens unbalanced_from
print-balanced x = ap (unbalanced_from 0) (sym (append-nil (print x))) ∙ print-unbalanced x 0 []
