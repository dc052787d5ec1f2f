-- ===== src/Ash/Printed.antt =====
-- `parseArithExpr` (applets/ash/ash.go) on the text of an expression with all its parentheses.
use go_busybox.Prelude.{
  ℕ, suc, ◌+◌, ◌≡◌, refl, sym, ap, ap₂, ◌∙◌, Option, [], ◌∷◌, ◌++◌, append-nil, append_assoc, arith,
  Bytes, ◌==◌, if◌then◌else◌, All,
}
use go_busybox.Go.Int64.{format_int}
use go_busybox.Go.Strings.Split.{Lacks}
use go_busybox.Ash.Arith.{ArithError, Outcome, value, and_then, BinOp, symbol, apply}
use go_busybox.Ash.Eval.{Parser, parse, parse_groups}
use go_busybox.Ash.Expr.{
  Expr, literal, unary, binary, conditional, UnOp, negate, keep, inverse, flip, sign, print,
  apply_unary, meaning, IsRegular, Accepts,
}
use go_busybox.Ash.Flat.{parse-flat, groups-flat, format_int-Numeral, Numeral-ne-nil}
use go_busybox.Ash.Values.{flat, Printable, parse-numeral}
use go_busybox.Ash.Operations.{Applies, parse-operation, parse-prefix, parse-ternary, ternary}
use go_busybox.Ash.Groups.{and_then-step, and_then-back, meaning-Printable, group-step}
use go_busybox.Ash.Inner.{
  IsInner, inner-closes, inner-opens, number-IsInner, open-append, operation-IsInner, sign-IsInner,
  symbol-IsInner, ternary-IsInner,
}

-- The number of groups in the text.
unfoldable pub groups : Expr → ℕ
groups (literal n) = 0
groups (unary u a) = groups a + 1
groups (binary op a b) = groups b + (groups a + 1)
groups (conditional c t f) = groups f + (groups t + (groups c + 1))

accepted :
    (u : UnOp) (a : Expr) (v : ℕ) (e e' : Option ArithError)
    → Accepts u a
    → meaning a e ≡ value v e'
    → Applies u v
accepted negate a v e e' w p = tt
accepted keep a v e e' w p = tt
accepted inverse a v e e' w p = w e e' v p
accepted flip a v e e' w p = w e e' v p

module _ (f : ℕ) where
  abbrev eval : Parser
  eval = parse (suc (suc (suc f)))

  -- What follows a group that has been replaced by the value `v`.
  abbrev resume : ℕ → Bytes → Bytes → ℕ → Option ArithError → Outcome
  resume n before after v e = parse_groups eval n (before ++ (format_int v ++ after)) e

  -- The same rounds on the same text.
  same-rounds :
      (e : Option ArithError) {n m : ℕ} {s t : Bytes}
      → n ≡ m
      → s ≡ t
      → parse_groups eval n s e ≡ parse_groups eval m t e
  same-rounds e p q = ap₂ (λ k u. parse_groups eval k u e) p q

  -- The round of a group that has numerals for its operands.
  last-round :
      (n : ℕ) (before inner after : Bytes) (e : Option ArithError) (o : Outcome)
      → All IsInner inner
      → Lacks b'(' after
      → eval inner e ≡ o
      → parse_groups eval (suc n) (before ++ b'(' ∷ (inner ++ b')' ∷ after)) e
        ≡ and_then o (resume n before after)
  last-round n before inner after e o h k p =
      group-step eval n before inner after e (inner-opens inner h) k (inner-closes inner h)
      ∙ ap (λ o. and_then o (resume n before after)) p

  -- The groups of the text, wherever it stands, give the meaning.
  abbrev Reads : Expr → Type 0
  Reads x =
      (n : ℕ) (before after : Bytes) (e : Option ArithError)
      → Lacks b'(' after
      → parse_groups eval (groups x + n) (before ++ (print x ++ after)) e
        ≡ and_then (meaning x e) (resume n before after)

  unary-Reads : (u : UnOp) (a : Expr) → Accepts u a → IsRegular a → Reads a → Reads (unary u a)
  unfolding groups print meaning and_then
  unary-Reads u a w h read n before after e l =
      same-rounds e {m = groups a + suc n}
        {t = (before ++ b'(' ∷ sign u ∷ []) ++ (print a ++ b')' ∷ after)} (omega arith)
        (simp append_assoc)
      ∙ read (suc n) (before ++ b'(' ∷ sign u ∷ []) (b')' ∷ after) e (omega arith, l)
      ∙ and_then-step (meaning a e) _ (λ v e'. value (apply_unary u v) e') (resume n before after)
          λ v e' p.
            same-rounds e' {n = suc n}
              {t = before ++ b'(' ∷ ((sign u ∷ format_int v) ++ b')' ∷ after)} refl
              (simp append_assoc)
            ∙ last-round n before (sign u ∷ format_int v) after e' (value (apply_unary u v) e')
                (sign-IsInner u, number-IsInner v) l
                (parse-prefix f u v e' (meaning-Printable a e e' v h p) (accepted u a v e e' w p))

  binary-Reads :
      (op : BinOp) (a b : Expr)
      → IsRegular a
      → IsRegular b
      → Reads a
      → Reads b
      → Reads (binary op a b)
  unfolding groups print meaning and_then
  binary-Reads op a b ha hb read_a read_b n before after e l =
      same-rounds e {m = groups b + (groups a + suc n)}
        {t = (before ++ b'(' ∷ (print a ++ symbol op)) ++ (print b ++ b')' ∷ after)} (omega arith)
        (simp append_assoc)
      ∙ read_b (groups a + suc n) (before ++ b'(' ∷ (print a ++ symbol op)) (b')' ∷ after) e
          (omega arith, l)
      ∙ and_then-step (meaning b e) _ (λ y e'. and_then (meaning a e') (λ x e''. apply op x y e''))
          (resume n before after)
          λ y e' py.
            same-rounds e' {n = groups a + suc n}
              {t = (before ++ b'(' ∷ [])
                ++ (print a ++ (symbol op ++ (format_int y ++ b')' ∷ after)))}
              refl (simp append_assoc)
            ∙ read_a (suc n) (before ++ b'(' ∷ []) (symbol op ++ (format_int y ++ b')' ∷ after)) e'
                (open-append (symbol op) (format_int y ++ b')' ∷ after) (symbol-IsInner op)
                  (open-append (format_int y) (b')' ∷ after) (number-IsInner y) (omega arith, l)))
            ∙ and_then-step (meaning a e') _ (λ x e''. apply op x y e'') (resume n before after)
                λ x e'' px.
                  same-rounds e'' {n = suc n}
                    {t = before
                      ++ b'(' ∷ ((format_int x ++ (symbol op ++ format_int y)) ++ b')' ∷ after)}
                    refl (simp append_assoc)
                  ∙ last-round n before (format_int x ++ (symbol op ++ format_int y)) after e''
                      (apply op x y e'') (operation-IsInner x y op) l
                      (parse-operation f op x y e'' (meaning-Printable a e' e'' x ha px)
                        (meaning-Printable b e e' y hb py))

  conditional-Reads :
      (c t g : Expr)
      → IsRegular c
      → IsRegular t
      → IsRegular g
      → Reads c
      → Reads t
      → Reads g
      → Reads (conditional c t g)
  unfolding groups print meaning and_then
  conditional-Reads c t g hc ht hg read_c read_t read_g n before after e l =
      same-rounds e {m = groups g + (groups t + (groups c + suc n))}
        {t = (before ++ b'(' ∷ (print c ++ b'?' ∷ (print t ++ b':' ∷ [])))
          ++ (print g ++ b')' ∷ after)}
        (omega arith) (simp append_assoc)
      ∙ read_g (groups t + (groups c + suc n))
          (before ++ b'(' ∷ (print c ++ b'?' ∷ (print t ++ b':' ∷ []))) (b')' ∷ after) e
          (omega arith, l)
      ∙ and_then-step (meaning g e) _
          (λ z e'.
            and_then (meaning t e')
              (λ y e''. and_then (meaning c e'') (λ x e3. value (if x == 0 then z else y) e3)))
          (resume n before after)
          λ z e' pz.
            let lz : Lacks b'(' (b':' ∷ (format_int z ++ b')' ∷ after)) = (
              omega arith,
              open-append (format_int z) (b')' ∷ after) (number-IsInner z) (omega arith, l),
            ) in
            same-rounds e' {n = groups t + (groups c + suc n)}
              {t = (before ++ b'(' ∷ (print c ++ b'?' ∷ []))
                ++ (print t ++ b':' ∷ (format_int z ++ b')' ∷ after))}
              refl (simp append_assoc)
            ∙ read_t (groups c + suc n) (before ++ b'(' ∷ (print c ++ b'?' ∷ []))
                (b':' ∷ (format_int z ++ b')' ∷ after)) e' lz
            ∙ and_then-step (meaning t e') _
                (λ y e''. and_then (meaning c e'') (λ x e3. value (if x == 0 then z else y) e3))
                (resume n before after)
                λ y e'' py.
                  same-rounds e'' {n = groups c + suc n}
                    {t = (before ++ b'(' ∷ [])
                      ++ (print c
                          ++ b'?' ∷ (format_int y ++ b':' ∷ (format_int z ++ b')' ∷ after)))}
                    refl (simp append_assoc)
                  ∙ read_c (suc n) (before ++ b'(' ∷ [])
                      (b'?' ∷ (format_int y ++ b':' ∷ (format_int z ++ b')' ∷ after))) e''
                      (
                        omega arith,
                        open-append (format_int y) (b':' ∷ (format_int z ++ b')' ∷ after))
                            (number-IsInner y) lz,
                      )
                  ∙ and_then-step (meaning c e'') _ (λ x e3. value (if x == 0 then z else y) e3)
                      (resume n before after)
                      λ x e3 px.
                        same-rounds e3 {n = suc n}
                          {t = before
                            ++ b'('
                              ∷ (ternary (format_int x) (format_int y) (format_int z)
                                  ++ b')' ∷ after)}
                          refl (simp append_assoc)
                        ∙ last-round n before (ternary (format_int x) (format_int y) (format_int z))
                            after e3 (value (if x == 0 then z else y) e3) (ternary-IsInner x y z) l
                            (parse-ternary f x y z e3 (meaning-Printable c e'' e3 x hc px)
                              (meaning-Printable t e' e'' y ht py)
                              (meaning-Printable g e e' z hg pz))

  groups-print : (x : Expr) → IsRegular x → Reads x
  unfolding groups print meaning and_then
  groups-print (literal k) h = λ n before after e l. same-rounds e (omega arith) refl
  groups-print (unary u a) (r, w, h) = unary-Reads u a w h (groups-print a h)
  groups-print (binary op a b) (r, ha, hb) =
      binary-Reads op a b ha hb (groups-print a ha) (groups-print b hb)
  groups-print (conditional c t g) (r, hc, ht, hg) =
      conditional-Reads c t g hc ht hg (groups-print c hc) (groups-print t ht) (groups-print g hg)

  -- The last value alone.
  rest-numeral :
      (v : ℕ) (e : Option ArithError)
      → Printable v
      → parse_groups eval 1 (format_int v ++ []) e ≡ value v e
  rest-numeral v e p =
      same-rounds e refl (append-nil (format_int v))
      ∙ groups-flat eval 0 (format_int v) e (flat v)
      ∙ sym (
          parse-flat (suc (suc (suc f))) (format_int v) e
            (Numeral-ne-nil (format_int-Numeral v p.0)) (flat v))
      ∙ parse-numeral (suc (suc f)) v e p

  pub whole-print :
      (x : Expr) (e : Option ArithError)
      → IsRegular x
      → parse_groups eval (suc (groups x)) (print x) e ≡ meaning x e
  whole-print x e h =
      same-rounds e {m = groups x + 1} (omega arith) (sym (append-nil (print x)))
      ∙ groups-print x h 1 [] [] e tt
      ∙ and_then-back (meaning x e) (resume 1 [] [])
          λ v e' p. rest-numeral v e' (meaning-Printable x e e' v h p)
