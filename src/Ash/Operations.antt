-- ===== src/Ash/Operations.antt =====
-- `parseArithExpr` (applets/ash/ash.go) on one operator with numerals for its operands.
use go_busybox.Prelude.{
  ℕ, suc, ◌<◌, ◌≡◌, refl, ap, ap₂, ◌∙◌, ◌≢◌, inl, inr, Option, some, [], ◌∷◌, ◌++◌, arith, Bytes,
  ◌==◌, if◌then◌else◌, Bool-cases, All, All-append,
}
use go_busybox.Go.Int64.{modulus, half, format_int}
use go_busybox.Go.Strings.{split_2}
use go_busybox.Go.Strings.Split.{Lacks, split_2-append}
use go_busybox.Go.Strings.Trim.{trim_space-solid}
use go_busybox.Ash.Arith.{ArithError, value, and_then, BinOp, symbol, apply}
use go_busybox.Ash.Levels.{whole, find_binary}
use go_busybox.Ash.Operands.{Numeral, find_binary-numerals, find_binary-prefix}
use go_busybox.Ash.Eval.{
  Parser, parse, parse_operators, parse_question, parse_split, parse_unary, branches, choose_branch,
}
use go_busybox.Ash.Expr.{UnOp, negate, keep, inverse, flip, sign, apply_unary}
use go_busybox.Ash.Flat.{
  IsFlat, flat-IsSolid, operators-plain, parse-flat, format_int-Numeral, small-Numeral,
  Numeral-ne-nil,
}
use go_busybox.Ash.Values.{Printable, flat, lacks, parse-numeral, parse-whole}

pub append-ne-nil : (s t : Bytes) → s ≢ [] → s ++ t ≢ []
append-ne-nil [] t h = absurd (h refl)
append-ne-nil (c ∷ s) t h = λ e. cc e

pub symbol-IsFlat : (op : BinOp) → All IsFlat (symbol op)
unfolding symbol
symbol-IsFlat BinOp.log_or = omega arith
symbol-IsFlat op = omega arith

symbol-Lacks : (op : BinOp) → Lacks b'?' (symbol op)
unfolding symbol
symbol-Lacks BinOp.log_or = omega arith
symbol-Lacks op = omega arith

-- One operator between two numerals.
pub parse-operation :
    (f : ℕ) (op : BinOp) (a b : ℕ) (e : Option ArithError)
    → Printable a
    → Printable b
    → parse (suc (suc (suc f))) (format_int a ++ (symbol op ++ format_int b)) e ≡ apply op a b e
unfolding parse_split and_then
parse-operation f op a b e ha hb =
    let n : Numeral (format_int a) = format_int-Numeral a ha.0 in
    let m : Numeral (format_int b) = format_int-Numeral b hb.0 in
    let s : Bytes = format_int a ++ (symbol op ++ format_int b) in
    parse-flat (suc (suc f)) s e
      (append-ne-nil (format_int a) (symbol op ++ format_int b) (Numeral-ne-nil n))
      (All-append IsFlat (format_int a) (symbol op ++ format_int b) (flat a)
        (All-append IsFlat (symbol op) (format_int b) (symbol-IsFlat op) (flat b)))
    ∙ operators-plain (parse (suc (suc f))) s e (
        All-append (λ c. c ≢ b'?') (format_int a) (symbol op ++ format_int b)
          (lacks b'?' a (inl (omega arith)))
          (All-append (λ c. c ≢ b'?') (symbol op) (format_int b) (symbol-Lacks op)
            (lacks b'?' b (inl (omega arith)))))
    ∙ ap (λ o. parse_split (parse (suc (suc f))) o s e) (find_binary-numerals op n m)
    ∙ rw (parse-numeral f a e ha) (rw (parse-numeral f b e hb) refl)

-- A prefix is applied to any value but that `!` and `~` want one that is not negative.
abbrev pub Applies : UnOp → ℕ → Type 0
Applies negate v = Unit
Applies keep v = Unit
Applies inverse v = v < half
Applies flip v = v < half

unary-sign :
    (eval : Parser) (u : UnOp) (s : Bytes) (v : ℕ) (e : Option ArithError)
    → eval s e ≡ value v e
    → parse_unary eval (sign u ∷ s) e ≡ value (apply_unary u v) e
unfolding parse_unary and_then
unary-sign eval negate s v e h = rw h refl
unary-sign eval keep s v e h = h
unary-sign eval inverse s v e h = rw h refl
unary-sign eval flip s v e h = rw h refl

pub sign-IsFlat : (u : UnOp) → IsFlat (sign u) × (sign u ≢ b'?')
sign-IsFlat negate = omega arith
sign-IsFlat keep = omega arith
sign-IsFlat inverse = omega arith
sign-IsFlat flip = omega arith

prefix-whole :
    (u : UnOp) (v : ℕ) → v < modulus → Applies u v → find_binary (sign u ∷ format_int v) ≡ whole
prefix-whole negate v l h = find_binary-prefix b'-' (format_int-Numeral v l) (inl (inl refl))
prefix-whole keep v l h = find_binary-prefix b'+' (format_int-Numeral v l) (inl (inr refl))
prefix-whole inverse v l h =
    let (n, p) = small-Numeral v h in find_binary-prefix b'!' n (inr (inl refl, p))
prefix-whole flip v l h =
    let (n, p) = small-Numeral v h in find_binary-prefix b'~' n (inr (inr refl, p))

-- A prefix before a numeral.
pub parse-prefix :
    (f : ℕ) (u : UnOp) (v : ℕ) (e : Option ArithError)
    → Printable v
    → Applies u v
    → parse (suc (suc (suc f))) (sign u ∷ format_int v) e ≡ value (apply_unary u v) e
parse-prefix f u v e p h =
    parse-whole (suc (suc f)) (sign u ∷ format_int v) e (λ q. cc q) ((sign-IsFlat u).0, flat v)
      ((sign-IsFlat u).1, lacks b'?' v (inl (omega arith))) (prefix-whole u v p.0 h)
    ∙ unary-sign (parse (suc (suc f))) u (format_int v) v e (parse-numeral f v e p)

question-some :
    (eval : Parser) (c s rest : Bytes) (x : ℕ) (e : Option ArithError)
    → c ≢ []
    → eval c e ≡ value x e
    → parse_question eval (c, some rest) s e ≡ branches eval x (split_2 rest b':') e
unfolding parse_question and_then
question-some eval [] s rest x e n h = absurd (n refl)
question-some eval (c ∷ cs) s rest x e n h = rw h refl

choose-value :
    (eval : Parser) (x : ℕ) (t g : Bytes) (y z : ℕ) (e : Option ArithError)
    → t ≢ []
    → g ≢ []
    → eval t e ≡ value y e
    → eval g e ≡ value z e
    → choose_branch eval x t g e ≡ value (if x == 0 then z else y) e
unfolding choose_branch
choose-value eval x [] g y z e nt ng ht hg = absurd (nt refl)
choose-value eval x (t ∷ ts) [] y z e nt ng ht hg = absurd (ng refl)
choose-value eval x (t ∷ ts) (g ∷ gs) y z e nt ng ht hg = elim (Bool-cases (x == 0)) [
  | inl p ↦ rw p hg
  | inr p ↦ rw p ht
]

-- The text of a conditional with numerals.
abbrev pub ternary : Bytes → Bytes → Bytes → Bytes
ternary c t g = c ++ b'?' ∷ (t ++ b':' ∷ g)

pub parse-ternary :
    (f x y z : ℕ) (e : Option ArithError)
    → Printable x
    → Printable y
    → Printable z
    → parse (suc (suc (suc f))) (ternary (format_int x) (format_int y) (format_int z)) e
      ≡ value (if x == 0 then z else y) e
unfolding parse_operators branches
parse-ternary f x y z e px py pz =
    let c = format_int x in
    let t = format_int y in
    let g = format_int z in
    let eval : Parser = parse (suc (suc f)) in
    let nx : c ≢ [] = Numeral-ne-nil (format_int-Numeral x px.0) in
    let ny : t ≢ [] = Numeral-ne-nil (format_int-Numeral y py.0) in
    let nz : g ≢ [] = Numeral-ne-nil (format_int-Numeral z pz.0) in
    parse-flat (suc (suc f)) (ternary c t g) e (append-ne-nil c (b'?' ∷ (t ++ b':' ∷ g)) nx) (
      All-append IsFlat c (b'?' ∷ (t ++ b':' ∷ g)) (flat x)
        (omega arith, All-append IsFlat t (b':' ∷ g) (flat y) (omega arith, flat z)))
    ∙ ap (λ o. parse_question eval o (ternary c t g) e)
        (split_2-append b'?' c (t ++ b':' ∷ g) (lacks b'?' x (inl (omega arith))))
    ∙ question-some eval c (ternary c t g) (t ++ b':' ∷ g) x e nx (parse-numeral f x e px)
    ∙ ap (λ o. branches eval x o e) (split_2-append b':' t g (lacks b':' y (inl (omega arith))))
    ∙ ap₂ (λ u v. choose_branch eval x u v e) (trim_space-solid t (flat-IsSolid t (flat y)))
        (trim_space-solid g (flat-IsSolid g (flat z)))
    ∙ choose-value eval x t g y z e ny nz (parse-numeral f y e py) (parse-numeral f z e pz)
