-- ===== src/Ash/Inner.antt =====
-- Texts without parentheses in printed expressions (applets/ash/ash.go, `parseArithExpr`).
use go_busybox.Prelude.{ℕ, ◌≢◌, [], ◌∷◌, ◌++◌, arith, Bytes, All, All-append}
use go_busybox.Go.Int64.{format_int}
use go_busybox.Go.Int64.Decimals.{IsNumeral, format_int-IsNumeral}
use go_busybox.Go.Strings.Split.{Lacks}
use go_busybox.Ash.Arith.{BinOp, symbol}
use go_busybox.Ash.Expr.{UnOp, negate, keep, inverse, flip, sign}
use go_busybox.Ash.Operations.{ternary}

-- A byte that is no parenthesis.
abbrev pub IsInner : ℕ → Type 0
IsInner c = (c ≢ b'(') × (c ≢ b')')

pub inner-opens : (s : Bytes) → All IsInner s → Lacks b'(' s
inner-opens [] h = tt
inner-opens (c ∷ s) (hc, h) = (hc.0, inner-opens s h)

pub inner-closes : (s : Bytes) → All IsInner s → Lacks b')' s
inner-closes [] h = tt
inner-closes (c ∷ s) (hc, h) = (hc.1, inner-closes s h)

numeral-IsInner : (s : Bytes) → All IsNumeral s → All IsInner s
numeral-IsInner [] h = tt
numeral-IsInner (c ∷ s) (hc, h) = (ground arith, numeral-IsInner s h)

pub number-IsInner : (v : ℕ) → All IsInner (format_int v)
number-IsInner v = numeral-IsInner (format_int v) (format_int-IsNumeral v)

pub symbol-IsInner : (op : BinOp) → All IsInner (symbol op)
unfolding symbol
symbol-IsInner BinOp.log_or = omega arith
symbol-IsInner op = omega arith

pub sign-IsInner : (u : UnOp) → IsInner (sign u)
sign-IsInner negate = omega arith
sign-IsInner keep = omega arith
sign-IsInner inverse = omega arith
sign-IsInner flip = omega arith

-- Texts without parentheses before one that opens none.
pub open-append : (s t : Bytes) → All IsInner s → Lacks b'(' t → Lacks b'(' (s ++ t)
open-append s t h k = All-append (λ c. c ≢ b'(') s t (inner-opens s h) k

pub operation-IsInner :
    (x y : ℕ) (op : BinOp) → All IsInner (format_int x ++ (symbol op ++ format_int y))
operation-IsInner x y op =
    All-append IsInner (format_int x) (symbol op ++ format_int y) (number-IsInner x)
      (All-append IsInner (symbol op) (format_int y) (symbol-IsInner op) (number-IsInner y))

pub ternary-IsInner :
    (x y z : ℕ) → All IsInner (ternary (format_int x) (format_int y) (format_int z))
ternary-IsInner x y z =
    All-append IsInner (format_int x) (b'?' ∷ (format_int y ++ b':' ∷ format_int z))
      (number-IsInner x)
      (
        omega arith,
        All-append IsInner (format_int y) (b':' ∷ format_int z) (number-IsInner y)
            (omega arith, number-IsInner z),
      )
