-- ===== src/Ash/Copied.antt =====
-- Texts that hold no variable are copied (applets/ash/ash.go, `handlePostfixIncDec`,
-- `expandSimpleVarsArith` and `expandBareVars`).
use go_busybox.Prelude.{
  ℕ, zero, suc, ◌-◌, ◌<◌, ◌≡◌, refl, ap, ◌≢◌, ◌⊎◌, inl, inr, Bool, true, false, ◌||◌, [], ◌∷◌, ◌++◌,
  arith, Bytes, codes, ◌==◌, if◌then◌else◌, Bool-cases, take, drop, take-append-drop, All,
  All-append,
}
use go_busybox.Go.Int64.{format_int}
use go_busybox.Go.Int64.Decimals.{IsNumeral, format_int-IsNumeral}
use go_busybox.Go.Utf8.{is_space}
use go_busybox.Ash.Arith.{BinOp, symbol}
use go_busybox.Ash.Expr.{
  Expr, literal, unary, binary, conditional, UnOp, negate, keep, inverse, flip, sign, print,
}
use go_busybox.Ash.Guards.{is_digit, is_letter}
use go_busybox.Ash.Assignments.{Unicode}
use go_busybox.Ash.Pieces.{
  text, Taken, run, starts_name, twice, bumped_name, postfix_piece, dollar_piece, digits_end,
  number_length, bare_piece, pieces,
}
use go_busybox.Ash.Evaluate.{put_piece, put_pieces}
use go_busybox.Ash.State.{Shell, done, Comp}

-- The bytes of printed expressions: digits, operators and parentheses.
abbrev pub IsPlain : ℕ → Type 0
IsPlain c =
    (32 < c) × ((c < 64) ⊎ ((c ≡ b'^') ⊎ ((c ≡ b'|') ⊎ (c ≡ b'~')))) × (c ≢ b'$') × (c ≢ b'#')

numeral-IsPlain : (s : Bytes) → All IsNumeral s → All IsPlain s
numeral-IsPlain [] h = tt
numeral-IsPlain (c ∷ s) (hc, h) = (ground arith, numeral-IsPlain s h)

number-IsPlain : (v : ℕ) → All IsPlain (format_int v)
number-IsPlain v = numeral-IsPlain (format_int v) (format_int-IsNumeral v)

symbol-IsPlain : (op : BinOp) → All IsPlain (symbol op)
unfolding symbol
symbol-IsPlain BinOp.log_or = ground arith
symbol-IsPlain op = ground arith

sign-IsPlain : (u : UnOp) → IsPlain (sign u)
sign-IsPlain negate = ground arith
sign-IsPlain keep = ground arith
sign-IsPlain inverse = ground arith
sign-IsPlain flip = ground arith

closing : All IsPlain (codes ")")
closing = ground arith

pub print-IsPlain : (x : Expr) → All IsPlain (print x)
unfolding print
print-IsPlain (literal n) = number-IsPlain n
print-IsPlain (unary u a) = (
  ground arith,
  (sign-IsPlain u, All-append IsPlain (print a) (codes ")") (print-IsPlain a) closing),
)
print-IsPlain (binary op a b) = (
  ground arith,
  All-append IsPlain (print a) (symbol op ++ (print b ++ codes ")")) (print-IsPlain a) (
      All-append IsPlain (symbol op) (print b ++ codes ")") (symbol-IsPlain op)
        (All-append IsPlain (print b) (codes ")") (print-IsPlain b) closing)),
)
print-IsPlain (conditional c t f) = (
  ground arith,
  All-append IsPlain (print c) (codes "?" ++ (print t ++ (codes ":" ++ (print f ++ codes ")"))))
      (print-IsPlain c)
      (
        ground arith,
        All-append IsPlain (print t) (codes ":" ++ (print f ++ codes ")")) (print-IsPlain t)
            (ground arith, All-append IsPlain (print f) (codes ")") (print-IsPlain f) closing),
      ),
)

-- At every place the piece is a copy of the bytes that it takes.
abbrev pub Copies : (ℕ → Bytes → Taken) → Bytes → Type 0
Copies piece [] = Unit
Copies piece (c ∷ s) =
    ((n : ℕ) × (piece c s ≡ (text (take (suc n) (c ∷ s)), suc n))) × Copies piece s

module _ (u : Unicode) (pid : ℕ) (read : Bytes → Comp ℕ) (st : Shell)
    (piece : ℕ → Bytes → Taken) where
  pub put-Copies :
      (s : Bytes) (k : ℕ)
      → Copies piece s
      → put_pieces u pid read (pieces piece s k) st ≡ done (drop k s) st
  unfolding put_pieces put_piece pieces
  put-Copies [] zero h = refl
  put-Copies [] (suc k) h = refl
  put-Copies (c ∷ s) (suc k) h = put-Copies s k h.1
  put-Copies (c ∷ s) zero ((n, p), h) = rw p (
      let e : suc n - 1 ≡ n = omega arith in
      rw e (rw (put-Copies s n h) (ap (λ t. done (c ∷ t) st) (take-append-drop n s))))

plain-start : (s : Bytes) → All IsPlain s → starts_name s ≡ false
unfolding starts_name
plain-start [] h = refl
plain-start (c ∷ s) (hc, h) = ground arith

plain-drop : (k : ℕ) (s : Bytes) → All IsPlain s → All IsPlain (drop k s)
plain-drop zero s h = h
plain-drop (suc k) [] h = tt
plain-drop (suc k) (c ∷ s) (hc, h) = plain-drop k s h

bumped-copy :
    (up : Bool) (c : ℕ) (s : Bytes) → All IsPlain s → bumped_name up c s ≡ (text (c ∷ []), 1)
unfolding bumped_name
bumped-copy up c s h =
    rw (plain-start (drop (run is_space s) s) (plain-drop (run is_space s) s h)) refl

if_same {ℓ} : {A : Type ℓ} (b : Bool) (x y z : A) → x ≡ z → y ≡ z → (if b then x else y) ≡ z
if_same true x y z p q = p
if_same false x y z p q = q

postfix-copy :
    (c : ℕ) (s : Bytes) → IsPlain c → All IsPlain s → postfix_piece c s ≡ (text (c ∷ []), 1)
unfolding postfix_piece
postfix-copy c s hc h =
    let n : (is_letter c || c == b'_') ≡ false = ground arith in
    if_same (twice b'+' (c ∷ s)) _ _ (text (c ∷ []), 1)
      (bumped-copy true c (drop 1 s) (plain-drop 1 s h))
      (if_same (twice b'-' (c ∷ s)) _ _ (text (c ∷ []), 1)
        (bumped-copy false c (drop 1 s) (plain-drop 1 s h)) (rw n refl))

pub postfix-Copies : (s : Bytes) → All IsPlain s → Copies postfix_piece s
postfix-Copies [] h = tt
postfix-Copies (c ∷ s) (hc, h) = ((0, postfix-copy c s hc h), postfix-Copies s h)

pub dollar-Copies : (u : Unicode) (s : Bytes) → All IsPlain s → Copies (dollar_piece u) s
unfolding dollar_piece
dollar-Copies u [] h = tt
dollar-Copies u (c ∷ s) (hc, h) = ((0, ground arith), dollar-Copies u s h)

plain-digits_end : (z : Bool) (s : Bytes) → All IsPlain s → digits_end z s ≡ 0
unfolding digits_end
plain-digits_end z [] h = refl
plain-digits_end z (c ∷ s) (hc, h) =
    let a : (c == b'x' || c == b'X') ≡ false = ground arith in
    let b : (c == b'#') ≡ false = ground arith in rw a (rw b refl)

plain-number_length : (c : ℕ) (s : Bytes) → All IsPlain s → number_length c s ≡ suc (run is_digit s)
unfolding number_length
plain-number_length c s h =
    rw (plain-digits_end (c == b'0') (drop (run is_digit s) s) (plain-drop (run is_digit s) s h))
      (omega arith)

bare-copy :
    (c : ℕ) (s : Bytes)
    → IsPlain c
    → All IsPlain s
    → (n : ℕ) × (bare_piece c s ≡ (text (take (suc n) (c ∷ s)), suc n))
unfolding bare_piece
bare-copy c s hc h = elim (Bool-cases (is_digit c)) [
  | inl e ↦ (run is_digit s, rw e (rw (plain-number_length c s h) refl))
  | inr e ↦ let n : (is_letter c || c == b'_') ≡ false = ground arith in (0, rw e (rw n refl))
]

pub bare-Copies : (s : Bytes) → All IsPlain s → Copies bare_piece s
bare-Copies [] h = tt
bare-Copies (c ∷ s) (hc, h) = (bare-copy c s hc h, bare-Copies s h)
