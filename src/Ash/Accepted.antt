-- ===== src/Ash/Accepted.antt =====
-- Printed expressions pass every test of applets/ash/ash.go that stands before the evaluation, and
-- are no assignments.
use go_busybox.Prelude.{
  ℕ, ◌<◌, ◌≡◌, refl, sym, ap, subst, ◌∙◌, ◌≢◌, inl, Bool, true, false, ◌||◌, Option, none, some, [],
  ◌∷◌, ◌++◌, arith, Bytes, codes, ◌==◌, All,
}
use go_busybox.Go.Strings.{has_prefix}
use go_busybox.Go.Strings.Trim.{trim_space-solid}
use go_busybox.Go.Int.Decimal.{IsDigit, decimal-digits, decimal-ne-nil}
use go_busybox.Go.Int64.{half}
use go_busybox.Ash.Expr.{Expr, literal, unary, binary, conditional, print, IsRegular}
use go_busybox.Ash.Flat.{format_int-small}
use go_busybox.Ash.Guards.{trailing_operators, has_trailing_operator, has_escaped_dollar}
use go_busybox.Ash.Enclosed.{
  IsGroup, group-Shut, Shut, at_top-none, Shut-search, Shut-split_top, Shut-has_logical,
}
use go_busybox.Ash.Adjacent.{print-apart}
use go_busybox.Ash.Assignments.{
  Unicode, nothing, find_assignment, has_invalid_ternary_assignment, has_invalid_logical_assignment,
  ternary_assigns, has_logical, split_top, level_after, search_assignment, at_top, assignment_here,
  first_assign, is_plain_assign,
}
use go_busybox.Ash.Evaluate.{is_refused}
use go_busybox.Ash.Copied.{IsPlain, print-IsPlain}
use go_busybox.Ash.Read.{print-IsSolid}
use go_busybox.Ash.Balanced.{print-balanced}
use go_busybox.Ash.Trailing.{
  IsLast, digits-IsLast, last-append, last_byte, no_suffixes, operators-end,
}

literal-digits : (n : ℕ) → n < half → (print (literal n) ≢ []) × All IsDigit (print (literal n))
unfolding print
literal-digits n h = rw (format_int-small n h) (decimal-ne-nil n, decimal-digits n)

group-IsLast : (x : Expr) → IsGroup x → IsLast (last_byte (print x))
unfolding last_byte
group-IsLast x h = let (s, p, q) = group-Shut x h in rw p (rw (last-append s b')' []) (inl refl))

print-IsLast : (x : Expr) → IsRegular x → IsLast (last_byte (print x))
print-IsLast (literal n) h =
    digits-IsLast (print (literal n)) (literal-digits n h).0 (literal-digits n h).1
print-IsLast (unary u a) h = group-IsLast (unary u a) tt
print-IsLast (binary op a b) h = group-IsLast (binary op a b) tt
print-IsLast (conditional c t f) h = group-IsLast (conditional c t f) tt

print-no_trailing : (x : Expr) → IsRegular x → has_trailing_operator (print x) ≡ false
unfolding has_trailing_operator
print-no_trailing x h =
    rw (trim_space-solid (print x) (print-IsSolid x))
      (no_suffixes (print x) trailing_operators (print-IsLast x h) operators-end)

plain-no_escape : (s : Bytes) → All IsPlain s → has_escaped_dollar s ≡ false
unfolding has_escaped_dollar has_prefix
plain-no_escape [] h = refl
plain-no_escape (c ∷ s) (hc, h) = ground (arith, plain-no_escape s h)

digit-here : (prev : Option ℕ) (c : ℕ) (s : Bytes) → IsDigit c → assignment_here prev (c ∷ s) ≡ none
unfolding assignment_here first_assign is_plain_assign has_prefix
digit-here prev c s h = ground arith

digit-no_logical :
    (c : ℕ) (s : Bytes)
    → IsDigit c
    → (has_prefix (c ∷ s) (codes "&&") || has_prefix (c ∷ s) (codes "||")) ≡ false
unfolding has_prefix
digit-no_logical c s h = ground arith

group-by :
    (P : Bytes → Type 0) (x : Expr)
    → IsGroup x
    → ((s : Bytes) → Shut 0 s → P (s ++ codes ")"))
    → P (print x)
group-by P x h g = let (s, p, q) = group-Shut x h in subst P (sym p) (g s q)

-- Digits hold no operator at all.
digits-search :
    (p : Bytes → Bool) (d : ℕ) (before : Bytes) (prev : Option ℕ) (s : Bytes)
    → All IsDigit s
    → search_assignment p d before prev s ≡ nothing
unfolding search_assignment
digits-search p d before prev [] h = refl
digits-search p d before prev (c ∷ s) (hc, h) =
    let none_here : at_top (level_after d c) (assignment_here prev (c ∷ s)) ≡ none =
      ap (at_top (level_after d c)) (digit-here prev c s hc) ∙ at_top-none (level_after d c) in
    rw (none_here, search_assignment)
      (digits-search p (level_after d c) (before ++ c ∷ []) (some c) s h)

digits-split_top : (b d : ℕ) (s : Bytes) → b'9' < b → All IsDigit s → split_top b d s ≡ none
unfolding split_top
digits-split_top b d [] k h = refl
digits-split_top b d (c ∷ s) k (hc, h) =
    let e : (c == b) ≡ false = ground arith in
    rw e (rw (digits-split_top b (level_after d c) s k h) refl)

digits-has_logical : (d : ℕ) (s : Bytes) → All IsDigit s → has_logical d s ≡ false
unfolding has_logical
digits-has_logical d [] h = refl
digits-has_logical d (c ∷ s) (hc, h) =
    ground (arith, digit-no_logical c s hc, digits-has_logical (level_after d c) s h)

-- A group or digits: what holds of both holds of every printed expression.
print-by :
    (P : Bytes → Type 0) (x : Expr)
    → IsRegular x
    → ((s : Bytes) → Shut 0 s → P (s ++ codes ")"))
    → ((s : Bytes) → All IsDigit s → P s)
    → P (print x)
print-by P (literal n) h g d = d (print (literal n)) (literal-digits n h).1
print-by P (unary u a) h g d = group-by P (unary u a) tt g
print-by P (binary op a b) h g d = group-by P (binary op a b) tt g
print-by P (conditional c t f) h g d = group-by P (conditional c t f) tt g

pub print-no_assignment : (x : Expr) → IsRegular x → find_assignment (print x) ≡ nothing
unfolding find_assignment
print-no_assignment x h =
    print-by (λ s. search_assignment (λ left. true) 0 [] none s ≡ nothing) x h
      (λ s k. Shut-search (λ left. true) 0 [] none s k)
      (λ s k. digits-search (λ left. true) 0 [] none s k)

print-no_ternary :
    (u : Unicode) (x : Expr) → IsRegular x → has_invalid_ternary_assignment u (print x) ≡ false
unfolding has_invalid_ternary_assignment ternary_assigns
print-no_ternary u x h =
    let e : split_top b'?' 0 (print x) ≡ none =
      print-by (λ s. split_top b'?' 0 s ≡ none) x h
        (λ s k. Shut-split_top b'?' 0 s (ground arith) (ground arith) k)
        (λ s k. digits-split_top b'?' 0 s (omega arith) k) in
    rw e refl

print-no_logical :
    (u : Unicode) (x : Expr) → IsRegular x → has_invalid_logical_assignment u (print x) ≡ false
unfolding has_invalid_logical_assignment
print-no_logical u x h =
    let e : has_logical 0 (print x) ≡ false =
      print-by (λ s. has_logical 0 s ≡ false) x h (λ s k. Shut-has_logical 0 s k)
        (λ s k. digits-has_logical 0 s k) in
    rw e refl

-- A printed expression is not refused.
pub print-accepted :
    (u : Unicode) (pid : ℕ) (x : Expr) → IsRegular x → is_refused u pid (print x) ≡ false
unfolding is_refused
print-accepted u pid x h = rw (print-balanced x) (
    rw (print-no_trailing x h) (
      rw (print-apart x h) (
        rw (plain-no_escape (print x) (print-IsPlain x))
          (rw (print-no_ternary u x h) (print-no_logical u x h)))))
