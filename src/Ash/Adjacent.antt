-- ===== src/Ash/Adjacent.antt =====
-- Printed expressions hold no adjacent operands (applets/ash/ash.go, `hasAdjacentOperands`).
use go_busybox.Prelude.{
  ℕ, ◌<◌, ◌≡◌, refl, sym, ap, ◌∙◌, ◌≢◌, Bool, true, false, some, [], ◌∷◌, ◌++◌, append-nil,
  append_assoc, arith, Bytes, codes, All,
}
use go_busybox.Go.Utf8.{is_space}
use go_busybox.Go.Int.{decimal}
use go_busybox.Go.Int.Decimal.{IsDigit, decimal-digits, decimal-ne-nil}
use go_busybox.Ash.Arith.{BinOp, symbol}
use go_busybox.Ash.Expr.{
  Expr, literal, unary, binary, conditional, UnOp, negate, keep, inverse, flip, sign, print,
  IsRegular,
}
use go_busybox.Ash.Flat.{format_int-small}
use go_busybox.Ash.Guards.{is_more, adjacent_step, adjacent_from, has_adjacent_operands}

-- No operand goes on here.
abbrev Stops : Bytes → Type 0
Stops [] = Unit
Stops (c ∷ s) = is_more c ≡ false

stop-step :
    (prev : Bool) (c : ℕ)
    → is_more c ≡ false
    → adjacent_step prev true c ≡ adjacent_step prev false c
unfolding adjacent_step
stop-step prev c h = rw h refl

stop-adjacent :
    (prev : Bool) (s : Bytes) → Stops s → adjacent_from prev true s ≡ adjacent_from prev false s
unfolding adjacent_from
stop-adjacent prev [] h = refl
stop-adjacent prev (c ∷ s) h = rw (stop-step prev c h, adjacent_from) refl

more-step : (c : ℕ) → IsDigit c → adjacent_step true true c ≡ some (true, true)
unfolding adjacent_step
more-step c h = ground arith

first-step : (c : ℕ) → IsDigit c → adjacent_step false false c ≡ some (true, true)
unfolding adjacent_step is_space
first-step c h = ground arith

digits-adjacent :
    (s t : Bytes) → All IsDigit s → adjacent_from true true (s ++ t) ≡ adjacent_from true true t
unfolding adjacent_from
digits-adjacent [] t h = refl
digits-adjacent (c ∷ s) t (hc, h) = rw (more-step c hc, adjacent_from) (digits-adjacent s t h)

number-adjacent :
    (s t : Bytes)
    → s ≢ []
    → All IsDigit s
    → Stops t
    → adjacent_from false false (s ++ t) ≡ adjacent_from true false t
unfolding adjacent_from
number-adjacent [] t n h k = absurd (n refl)
number-adjacent (c ∷ s) t n (hc, h) k =
    rw (first-step c hc, adjacent_from) (digits-adjacent s t h ∙ stop-adjacent true t k)

-- A byte of an operator.
abbrev IsOperator : ℕ → Type 0
IsOperator c = (32 < c) × (c < 127) × (is_more c ≡ false) × (c ≢ b'(') × (c ≢ b')')

operator-step :
    (prev : Bool) (c : ℕ) → IsOperator c → adjacent_step prev false c ≡ some (false, false)
unfolding adjacent_step is_space
operator-step prev c h = ground arith

operators-adjacent :
    (prev : Bool) (s t : Bytes)
    → s ≢ []
    → All IsOperator s
    → adjacent_from prev false (s ++ t) ≡ adjacent_from false false t
unfolding adjacent_from
operators-adjacent prev [] t n h = absurd (n refl)
operators-adjacent prev (c ∷ []) t n (hc, h) = rw (operator-step prev c hc, adjacent_from) refl
operators-adjacent prev (c ∷ d ∷ s) t n (hc, h) =
    rw (operator-step prev c hc, adjacent_from) (operators-adjacent false (d ∷ s) t (λ e. cc e) h)

symbol-IsOperator : (op : BinOp) → (symbol op ≢ []) × All IsOperator (symbol op)
unfolding symbol
symbol-IsOperator BinOp.log_or = ground arith
symbol-IsOperator op = ground arith

sign-IsOperator : (u : UnOp) → IsOperator (sign u)
sign-IsOperator negate = ground arith
sign-IsOperator keep = ground arith
sign-IsOperator inverse = ground arith
sign-IsOperator flip = ground arith

symbol-Stops : (op : BinOp) (t : Bytes) → Stops (symbol op ++ t)
unfolding symbol
symbol-Stops BinOp.log_or t = refl
symbol-Stops op t = refl

open-adjacent : (t : Bytes) → adjacent_from false false (b'(' ∷ t) ≡ adjacent_from false false t
unfolding adjacent_from adjacent_step is_space
open-adjacent t = refl

close-adjacent : (t : Bytes) → adjacent_from true false (b')' ∷ t) ≡ adjacent_from true false t
unfolding adjacent_from adjacent_step is_space
close-adjacent t = refl

print-adjacent :
    (x : Expr) (t : Bytes)
    → IsRegular x
    → Stops t
    → adjacent_from false false (print x ++ t) ≡ adjacent_from true false t
unfolding print
print-adjacent (literal n) t h k =
    rw (format_int-small n h)
      (number-adjacent (decimal n) t (decimal-ne-nil n) (decimal-digits n) k)
print-adjacent (unary u a) t (r, w, h) k =
    open-adjacent (sign u ∷ ((print a ++ codes ")") ++ t))
    ∙ operators-adjacent false (sign u ∷ []) ((print a ++ codes ")") ++ t) (λ e. cc e)
        (sign-IsOperator u, tt)
    ∙ ap (adjacent_from false false) (append_assoc (print a) (codes ")") t)
    ∙ print-adjacent a (b')' ∷ t) h refl
    ∙ close-adjacent t
print-adjacent (binary op a b) t (r, ha, hb) k =
    open-adjacent ((print a ++ (symbol op ++ (print b ++ codes ")"))) ++ t)
    ∙ ap (adjacent_from false false) (simp append_assoc)
    ∙ print-adjacent a (symbol op ++ (print b ++ b')' ∷ t)) ha
        (symbol-Stops op (print b ++ b')' ∷ t))
    ∙ operators-adjacent true (symbol op) (print b ++ b')' ∷ t) (symbol-IsOperator op).0
        (symbol-IsOperator op).1
    ∙ print-adjacent b (b')' ∷ t) hb refl
    ∙ close-adjacent t
print-adjacent (conditional c t f) r (q, hc, ht, hf) k =
    open-adjacent
      ((print c ++ (codes "?" ++ (print t ++ (codes ":" ++ (print f ++ codes ")"))))) ++ r)
    ∙ ap (adjacent_from false false) (simp append_assoc)
    ∙ print-adjacent c (b'?' ∷ (print t ++ b':' ∷ (print f ++ b')' ∷ r))) hc refl
    ∙ operators-adjacent true (codes "?") (print t ++ b':' ∷ (print f ++ b')' ∷ r)) (λ e. cc e)
        (ground arith)
    ∙ print-adjacent t (b':' ∷ (print f ++ b')' ∷ r)) ht refl
    ∙ operators-adjacent true (codes ":") (print f ++ b')' ∷ r) (λ e. cc e) (ground arith)
    ∙ print-adjacent f (b')' ∷ r) hf refl
    ∙ close-adjacent r

pub print-apart : (x : Expr) → IsRegular x → has_adjacent_operands (print x) ≡ false
unfolding has_adjacent_operands adjacent_from
print-apart x h =
    ap (adjacent_from false false) (sym (append-nil (print x))) ∙ print-adjacent x [] h tt
