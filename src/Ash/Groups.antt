-- ===== src/Ash/Groups.antt =====
-- `parseArithExpr` (applets/ash/ash.go) on the text of an expression with all its parentheses.
use go_busybox.Prelude.{
  ℕ, suc, ◌<◌, ◌≡◌, refl, subst, ◌≢◌, Bool, true, false, Option, none, some, [], ◌∷◌, ◌++◌, arith,
  Bytes, ◌==◌, if◌then◌else◌, All-append,
}
use go_busybox.Go.Int64.{modulus, half, format_int, minus, complement}
use go_busybox.Go.Strings.Split.{Lacks, split_2-append}
use go_busybox.Ash.Scan.{miss, absent, found, backward, scan, latest}
use go_busybox.Ash.Arith.{ArithError, Outcome, value, panic, out_of_fuel, and_then}
use go_busybox.Ash.Eval.{
  Parser, group, last_group, opened_at, closed_at, open_test, parse_groups, parse_group,
}
use go_busybox.Ash.Bounds.{IsSound, and_then-IsSound, apply-IsSound, truth-word}
use go_busybox.Ash.Expr.{
  Expr, literal, unary, binary, conditional, UnOp, negate, keep, inverse, flip, apply_unary,
  meaning, IsRegular,
}
use go_busybox.Ash.Values.{Printable}

-- Two chains of calls that agree on what the first one returns.
pub and_then-step :
    (o : Outcome) (k g : ℕ → Option ArithError → Outcome) (rest : ℕ → Option ArithError → Outcome)
    → ((v : ℕ) (e : Option ArithError) → o ≡ value v e → k v e ≡ and_then (g v e) rest)
    → and_then o k ≡ and_then (and_then o g) rest
unfolding and_then
and_then-step (value v e) k g rest h = h v e refl
and_then-step panic k g rest h = refl
and_then-step out_of_fuel k g rest h = refl

pub and_then-back :
    (o : Outcome) (k : ℕ → Option ArithError → Outcome)
    → ((v : ℕ) (e : Option ArithError) → o ≡ value v e → k v e ≡ value v e)
    → and_then o k ≡ o
unfolding and_then
and_then-back (value v e) k h = h v e refl
and_then-back panic k h = refl
and_then-back out_of_fuel k h = refl

apply_unary-word : (u : UnOp) (v : ℕ) → v < modulus → apply_unary u v < modulus
apply_unary-word negate v h = unfold minus in omega arith
apply_unary-word keep v h = h
apply_unary-word inverse v h = truth-word (v == 0)
apply_unary-word flip v h = unfold complement in omega arith

branch-word : (b : Bool) (y z : ℕ) → y < modulus → z < modulus → (if b then z else y) < modulus
branch-word true y z h k = k
branch-word false y z h k = h

meaning-IsSound : (x : Expr) (e : Option ArithError) → IsRegular x → IsSound (meaning x e)
unfolding meaning
meaning-IsSound (literal n) e h = omega (arith, h)
meaning-IsSound (unary u a) e (k, w, h) =
    and_then-IsSound (meaning a e) _ (meaning-IsSound a e h) λ v e' hv. apply_unary-word u v hv
meaning-IsSound (binary op a b) e (k, ha, hb) =
    and_then-IsSound (meaning b e) _ (meaning-IsSound b e hb) λ y e' hy.
      and_then-IsSound (meaning a e') _ (meaning-IsSound a e' ha)
        λ x e'' hx. apply-IsSound op x y e'' hx hy
meaning-IsSound (conditional c t f) e (k, hc, ht, hf) =
    and_then-IsSound (meaning f e) _ (meaning-IsSound f e hf) λ z e' hz.
      and_then-IsSound (meaning t e') _ (meaning-IsSound t e' ht) λ y e'' hy.
        and_then-IsSound (meaning c e'') _ (meaning-IsSound c e'' hc)
          λ x e''' hx. branch-word (x == 0) y z hy hz

not_half :
    (x : Expr) (e e' : Option ArithError) (v : ℕ)
    → IsRegular x
    → meaning x e ≡ value v e'
    → v ≢ half
unfolding meaning
not_half (literal n) e e' v h p = ground arith
not_half (unary u a) e e' v h p = h.0 e e' v p
not_half (binary op a b) e e' v h p = h.0 e e' v p
not_half (conditional c t f) e e' v h p = h.0 e e' v p

-- What a regular expression gives is read back from its text.
pub meaning-Printable :
    (x : Expr) (e e' : Option ArithError) (v : ℕ)
    → IsRegular x
    → meaning x e ≡ value v e'
    → Printable v
meaning-Printable x e e' v h p = (subst IsSound p (meaning-IsSound x e h), not_half x e e' v h p)

Lacks-scan : (prev : Option ℕ) (s : Bytes) → Lacks b'(' s → scan backward open_test prev s ≡ absent
unfolding scan latest
Lacks-scan prev [] h = refl
Lacks-scan prev (c ∷ s) (hc, h) =
    let e : open_test prev (c ∷ s) ≡ miss = unfold open_test in ground arith in
    rw e (rw (Lacks-scan (some c) s h) refl)

last-scan :
    (prev : Option ℕ) (s r : Bytes)
    → Lacks b'(' r
    → scan backward open_test prev (s ++ b'(' ∷ r) ≡ found s (b'(' ∷ r)
unfolding scan latest
last-scan prev [] r h = rw (Lacks-scan (some b'(') r h) (unfold open_test in refl)
last-scan prev (c ∷ s) r h = rw (last-scan (some c) s r h) refl

last_group-last :
    (before inner after : Bytes)
    → Lacks b'(' (inner ++ b')' ∷ after)
    → Lacks b')' inner
    → last_group (before ++ b'(' ∷ (inner ++ b')' ∷ after)) ≡ group before inner after
unfolding last_group opened_at closed_at
last_group-last before inner after h k =
    rw (last-scan none before (inner ++ b')' ∷ after) h)
      (rw (split_2-append b')' inner after k) refl)

-- One round of the loop over the groups.
pub group-step :
    (eval : Parser) (n : ℕ) (before inner after : Bytes) (e : Option ArithError)
    → Lacks b'(' inner
    → Lacks b'(' after
    → Lacks b')' inner
    → parse_groups eval (suc n) (before ++ b'(' ∷ (inner ++ b')' ∷ after)) e
      ≡ and_then (eval inner e) (λ v e'. parse_groups eval n (before ++ (format_int v ++ after)) e')
unfolding parse_groups parse_group
group-step eval n before inner after e h k l =
    rw
      (last_group-last before inner after
        (All-append (λ c. c ≢ b'(') inner (b')' ∷ after) h (omega arith, k)) l)
      refl
