-- ===== src/Ash/Enclosed.antt =====
-- Expressions that stand in parentheses as a whole hold no operator outside of them
-- (applets/ash/ash.go: the searches of `evalAssignment` and of the tests before it).
use go_busybox.Prelude.{
  ℕ, zero, suc, ◌<◌, ◌≡◌, refl, sym, ap, subst, ◌∙◌, ◌≢◌, Bool, false, ◌&&◌, Option, none, some, [],
  ◌∷◌, ◌++◌, append_assoc, arith, Bytes, codes, ◌==◌, All,
}
use go_busybox.Go.Strings.{has_prefix}
use go_busybox.Go.Int64.{format_int}
use go_busybox.Ash.Arith.{BinOp, symbol}
use go_busybox.Ash.Expr.{Expr, literal, unary, binary, conditional, UnOp, sign, print}
use go_busybox.Ash.Assignments.{
  AssignOp, nothing, level_after, search_assignment, assignment_here, at_top, first_assign,
  split_top, has_logical,
}
use go_busybox.Ash.Inner.{IsInner, number-IsInner, symbol-IsInner, sign-IsInner}

-- The depth behind a text, and a text that stays within parentheses.
abbrev pub level : ℕ → Bytes → ℕ
level d [] = d
level d (c ∷ s) = level (level_after d c) s

abbrev pub Enclosed : ℕ → Bytes → Type 0
Enclosed d [] = Unit
Enclosed d (c ∷ s) = (0 < level_after d c) × Enclosed (level_after d c) s

-- Behind the text the depth is as before, and within it no smaller.
abbrev Keeps : Bytes → Type 0
Keeps s = (d : ℕ) → (level (suc d) s ≡ suc d) × Enclosed (suc d) s

level-append : (d : ℕ) (s t : Bytes) → level d (s ++ t) ≡ level (level d s) t
level-append d [] t = refl
level-append d (c ∷ s) t = level-append (level_after d c) s t

Enclosed-append :
    (d : ℕ) (s t : Bytes) → Enclosed d s → Enclosed (level d s) t → Enclosed d (s ++ t)
Enclosed-append d [] t h k = k
Enclosed-append d (c ∷ s) t (hc, h) k = (hc, Enclosed-append (level_after d c) s t h k)

Keeps-append : (s t : Bytes) → Keeps s → Keeps t → Keeps (s ++ t)
Keeps-append s t hs ht d = (
  level-append (suc d) s t ∙ ap (λ k. level k t) (hs d).0 ∙ (ht d).0,
  Enclosed-append (suc d) s t (hs d).1 (subst (λ k. Enclosed k t) (sym (hs d).0) (ht d).1),
)

inner-level : (d c : ℕ) → IsInner c → level_after d c ≡ d
unfolding level_after
inner-level d c h = ground arith

inner-Keeps : (s : Bytes) → All IsInner s → Keeps s
inner-Keeps [] h d = (refl, tt)
inner-Keeps (c ∷ s) (hc, h) d =
    rw (inner-level (suc d) c hc) ((inner-Keeps s h d).0, (omega arith, (inner-Keeps s h d).1))

opening : (d : ℕ) → level_after d b'(' ≡ suc d
unfolding level_after
opening d = omega arith

closing : (d : ℕ) → level_after (suc d) b')' ≡ d
unfolding level_after
closing d = omega arith

-- A text in parentheses keeps the depth.
group-Keeps : (s : Bytes) → Keeps s → Keeps (b'(' ∷ (s ++ codes ")"))
group-Keeps s h d =
    let (same, within) = h (suc d) in
    (
      ap (λ k. level k (s ++ codes ")")) (opening (suc d))
          ∙ level-append (suc (suc d)) s (codes ")")
          ∙ ap (λ k. level k (codes ")")) same
          ∙ closing (suc d),
      rw (opening (suc d)) (
        omega arith,
        Enclosed-append (suc (suc d)) s (codes ")") within (
            subst (λ k. Enclosed k (codes ")")) (sym same)
              (rw (closing (suc d)) (omega arith, tt))),
      ),
    )

-- What stands between the outer parentheses.
body : Expr → Bytes
body (literal n) = format_int n
body (unary u a) = sign u ∷ print a
body (binary op a b) = print a ++ (symbol op ++ print b)
body (conditional c t f) = print c ++ (codes "?" ++ (print t ++ (codes ":" ++ print f)))

abbrev pub IsGroup : Expr → Type 0
IsGroup (literal n) = ⊥
IsGroup (unary u a) = Unit
IsGroup (binary op a b) = Unit
IsGroup (conditional c t f) = Unit

print-body : (x : Expr) → IsGroup x → print x ≡ b'(' ∷ (body x ++ codes ")")
unfolding print body
print-body (literal n) h = elim h [ ]
print-body (unary u a) h = refl
print-body (binary op a b) h = simp append_assoc
print-body (conditional c t f) h = simp append_assoc

binary-Keeps :
    (op : BinOp) (a b : Expr)
    → Keeps (print a)
    → Keeps (print b)
    → Keeps (print a ++ (symbol op ++ print b))
binary-Keeps op a b ha hb =
    Keeps-append (print a) (symbol op ++ print b) ha
      (Keeps-append (symbol op) (print b) (inner-Keeps (symbol op) (symbol-IsInner op)) hb)

unary-Keeps : (u : UnOp) (a : Expr) → Keeps (print a) → Keeps (sign u ∷ print a)
unary-Keeps u a h =
    Keeps-append (sign u ∷ []) (print a) (inner-Keeps (sign u ∷ []) (sign-IsInner u, tt)) h

conditional-Keeps :
    (c t f : Expr)
    → Keeps (print c)
    → Keeps (print t)
    → Keeps (print f)
    → Keeps (print c ++ (codes "?" ++ (print t ++ (codes ":" ++ print f))))
conditional-Keeps c t f hc ht hf =
    Keeps-append (print c) (codes "?" ++ (print t ++ (codes ":" ++ print f))) hc (
      Keeps-append (codes "?") (print t ++ (codes ":" ++ print f))
        (inner-Keeps (codes "?") (ground arith))
        (Keeps-append (print t) (codes ":" ++ print f) ht
          (Keeps-append (codes ":") (print f) (inner-Keeps (codes ":") (ground arith)) hf)))

print-Keeps : (x : Expr) → Keeps (print x)
unfolding body print
print-Keeps (literal n) = inner-Keeps (format_int n) (number-IsInner n)
print-Keeps (unary u a) = group-Keeps (sign u ∷ print a) (unary-Keeps u a (print-Keeps a))
print-Keeps (binary op a b) = subst Keeps (sym (print-body (binary op a b) tt)) (
    group-Keeps (print a ++ (symbol op ++ print b))
      (binary-Keeps op a b (print-Keeps a) (print-Keeps b)))
print-Keeps (conditional c t f) = subst Keeps (sym (print-body (conditional c t f) tt)) (
    group-Keeps (print c ++ (codes "?" ++ (print t ++ (codes ":" ++ print f))))
      (conditional-Keeps c t f (print-Keeps c) (print-Keeps t) (print-Keeps f)))

body-Keeps : (x : Expr) → Keeps (body x)
unfolding body
body-Keeps (literal n) = inner-Keeps (format_int n) (number-IsInner n)
body-Keeps (unary u a) = unary-Keeps u a (print-Keeps a)
body-Keeps (binary op a b) = binary-Keeps op a b (print-Keeps a) (print-Keeps b)
body-Keeps (conditional c t f) =
    conditional-Keeps c t f (print-Keeps c) (print-Keeps t) (print-Keeps f)

-- Up to the last parenthesis.
abbrev pub Shut : ℕ → Bytes → Type 0
Shut d s = Enclosed d s × (level d s ≡ 1)

at_top-inside : (d : ℕ) (o : Option (AssignOp × Bytes)) → 0 < d → at_top d o ≡ none
unfolding at_top
at_top-inside zero o h = elim h [ ]
at_top-inside (suc d) o h = refl

pub at_top-none : (d : ℕ) → at_top d none ≡ none
unfolding at_top
at_top-none zero = refl
at_top-none (suc d) = refl

no_assignment : (prev : Option ℕ) → assignment_here prev (codes ")") ≡ none
unfolding assignment_here first_assign has_prefix
no_assignment prev = refl

pub Shut-search :
    (p : Bytes → Bool) (d : ℕ) (before : Bytes) (prev : Option ℕ) (s : Bytes)
    → Shut d s
    → search_assignment p d before prev (s ++ codes ")") ≡ nothing
unfolding search_assignment
Shut-search p d before prev [] (h, e) =
    let last : at_top (level_after d b')') (assignment_here prev (b')' ∷ [])) ≡ none =
      ap (at_top (level_after d b')')) (no_assignment prev) ∙ at_top-none (level_after d b')') in
    rw (last, search_assignment) refl
Shut-search p d before prev (c ∷ s) ((hc, h), e) =
    rw
      (
        at_top-inside (level_after d c) (assignment_here prev (c ∷ (s ++ codes ")"))) hc,
        search_assignment,
      )
      (Shut-search p (level_after d c) (before ++ c ∷ []) (some c) s (h, e))

inside : (b c d : ℕ) → b ≢ b'(' → 0 < level_after d c → (c == b && d == 0) ≡ false
unfolding level_after
inside b c d n h = ground arith

pub Shut-split_top :
    (b d : ℕ) (s : Bytes) → b ≢ b'(' → b ≢ b')' → Shut d s → split_top b d (s ++ codes ")") ≡ none
unfolding split_top
Shut-split_top b d [] n m (h, e) = let f : (b')' == b) ≡ false = ground arith in rw f refl
Shut-split_top b d (c ∷ s) n m ((hc, h), e) =
    rw (inside b c d n hc) (rw (Shut-split_top b (level_after d c) s n m (h, e)) refl)

positive : (d : ℕ) → 0 < d → (d == 0) ≡ false
positive d h = ground arith

pub Shut-has_logical : (d : ℕ) (s : Bytes) → Shut d s → has_logical d (s ++ codes ")") ≡ false
unfolding has_logical has_prefix
Shut-has_logical d [] (h, e) = ground arith
Shut-has_logical d (c ∷ s) ((hc, h), e) =
    rw (positive (level_after d c) hc) (Shut-has_logical (level_after d c) s (h, e))

-- The text of a group, up to its last parenthesis.
pub group-Shut : (x : Expr) → IsGroup x → (s : Bytes) × (print x ≡ s ++ codes ")") × Shut 0 s
group-Shut x h =
    let (same, within) = body-Keeps x 0 in
    (
      b'(' ∷ body x,
      print-body x h,
      (rw (opening 0) (omega arith, within), ap (λ k. level k (body x)) (opening 0) ∙ same),
    )
