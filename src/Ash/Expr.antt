-- ===== src/Ash/Expr.antt =====
-- Arithmetic expressions with all their parentheses, their text and their value: what the shell's
-- `parseArithExpr` (applets/ash/ash.go) is to read.
use go_busybox.Prelude.{ℕ, ◌<◌, ◌≡◌, ◌≢◌, Option, ◌∷◌, ◌++◌, Bytes, codes, ◌==◌, if◌then◌else◌}
use go_busybox.Go.Int64.{half, format_int, minus, complement}
use go_busybox.Ash.Arith.{ArithError, Outcome, value, and_then, BinOp, symbol, apply, truth}

pub data UnOp : Type 0 where
  negate : UnOp
  keep : UnOp
  inverse : UnOp
  flip : UnOp

abbrev pub sign : UnOp → ℕ
sign negate = b'-'
sign keep = b'+'
sign inverse = b'!'
sign flip = b'~'

pub data Expr : Type 0 where
  literal : ℕ → Expr
  unary : UnOp → Expr → Expr
  binary : BinOp → Expr → Expr → Expr
  conditional : Expr → Expr → Expr → Expr

-- Every operator with its operands in parentheses.
unfoldable pub print : Expr → Bytes
print (literal n) = format_int n
print (unary u a) = b'(' ∷ (sign u ∷ (print a ++ codes ")"))
print (binary op a b) = b'(' ∷ (print a ++ (symbol op ++ (print b ++ codes ")")))
print (conditional c t f) =
    b'(' ∷ (print c ++ (codes "?" ++ (print t ++ (codes ":" ++ (print f ++ codes ")")))))

abbrev pub apply_unary : UnOp → ℕ → ℕ
apply_unary negate v = minus v
apply_unary keep v = v
apply_unary inverse v = truth (v == 0)
apply_unary flip v = complement v

-- The value, every operand evaluated, the last one first.
unfoldable pub meaning : Expr → Option ArithError → Outcome
meaning (literal n) e = value n e
meaning (unary u a) e = and_then (meaning a e) (λ v e'. value (apply_unary u v) e')
meaning (binary op a b) e =
    and_then (meaning b e) (λ y e'. and_then (meaning a e') (λ x e''. apply op x y e''))
meaning (conditional c t f) e = and_then (meaning f e) (λ z e'.
    and_then (meaning t e')
      (λ y e''. and_then (meaning c e'') (λ x e'''. value (if x == 0 then z else y) e''')))

-- The values pass the bound.
abbrev Within : Expr → (ℕ → Type 0) → Type 0
Within x P = (e e' : Option ArithError) (v : ℕ) → meaning x e ≡ value v e' → P v

-- An operand of `!` and `~` is not negative, and no value is the smallest int64.
abbrev pub Accepts : UnOp → Expr → Type 0
Accepts negate a = Unit
Accepts keep a = Unit
Accepts inverse a = Within a (λ v. v < half)
Accepts flip a = Within a (λ v. v < half)

-- The smallest int64 does not come up, and the operands of `!` and `~` are not negative.
abbrev pub IsRegular : Expr → Type 0
IsRegular (literal n) = n < half
IsRegular (unary u a) = Within (unary u a) (λ v. v ≢ half) × Accepts u a × IsRegular a
IsRegular (binary op a b) = Within (binary op a b) (λ v. v ≢ half) × IsRegular a × IsRegular b
IsRegular (conditional c t f) =
    Within (conditional c t f) (λ v. v ≢ half) × IsRegular c × IsRegular t × IsRegular f
