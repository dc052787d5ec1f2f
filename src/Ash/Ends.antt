-- ===== src/Ash/Ends.antt =====
-- `parseArithExpr` (applets/ash/ash.go) ends: the calls that it makes are of lighter texts.
use go_busybox.Prelude.{
  ℕ, zero, suc, ◌+◌, ◌<◌, ◌≡◌, ap, ◌∙◌, ◌≢◌, Bool, true, false, Option, none, some, [], ◌∷◌, ◌++◌,
  arith, Bytes, ◌==◌, if◌then◌else◌,
}
use go_busybox.Go.Int64.{minus, complement, format_int}
use go_busybox.Go.Strings.{split_2}
use go_busybox.Go.Strings.Trim.{trim_space}
use go_busybox.Ash.Arith.{ArithError, Outcome, value, panic, out_of_fuel, and_then, truth}
use go_busybox.Ash.Bounds.{IsSound, and_then-IsSound, apply-IsSound, number-word, truth-word}
use go_busybox.Ash.Levels.{Split, whole, split, find_binary}
use go_busybox.Ash.Eval.{
  Parser, Group, group, no_group, last_group, count_open, weight, parse, parse_trimmed,
  parse_groups, parse_group, parse_operators, parse_question, branches, choose_branch, parse_split,
  parse_unary, parse_arith_expr,
}
use go_busybox.Ash.Weights.{
  weight-append, weight-trim_space, weight-cons, Lighter, find_binary-Lighter, Parted,
  split_2-Parted, Grouped, last_group-Grouped, group-Lighter,
}

-- A parser of the texts below a weight.
abbrev Covers : Parser → ℕ → Type 0
Covers eval w = (s : Bytes) (e : Option ArithError) → weight s < w → IsSound (eval s e)

if_IsSound : (b : Bool) (x y : Outcome) → IsSound x → IsSound y → IsSound (if b then x else y)
if_IsSound true x y h k = h
if_IsSound false x y h k = k

module _ (eval : Parser) where
  unary-IsSound :
      (s : Bytes) (e : Option ArithError) → Covers eval (weight s) → IsSound (parse_unary eval s e)
  unfolding parse_unary
  unary-IsSound [] e h = number-word []
  unary-IsSound (c ∷ s) e h =
      let inner : IsSound (eval s e) = h s e (weight-cons c s) in
      let m : IsSound (and_then (eval s e) (λ v e'. value (minus v) e')) =
        and_then-IsSound (eval s e) _ inner (λ v e' hv. unfold minus in omega arith) in
      let n : IsSound (and_then (eval s e) (λ v e'. value (truth (v == 0)) e')) =
        and_then-IsSound (eval s e) _ inner (λ v e' hv. truth-word (v == 0)) in
      let f : IsSound (and_then (eval s e) (λ v e'. value (complement v) e')) =
        and_then-IsSound (eval s e) _ inner (λ v e' hv. unfold complement in omega arith) in
      if_IsSound (c == b'-') _ _ m (
        if_IsSound (c == b'+') _ _ inner
          (if_IsSound (c == b'!') _ _ n (if_IsSound (c == b'~') _ _ f (number-word (c ∷ s)))))

  split-IsSound :
      (o : Split) (s : Bytes) (e : Option ArithError)
      → Covers eval (weight s)
      → Lighter s o
      → IsSound (parse_split eval o s e)
  unfolding parse_split
  split-IsSound whole s e h l =
      unary-IsSound (trim_space s) e λ t e' lt. h t e' (omega (arith, lt, weight-trim_space s))
  split-IsSound (split l op r) s e h (hl, hr) = and_then-IsSound (eval l e) _ (h l e hl) λ a e' ha.
      and_then-IsSound (eval r e') _ (h r e' hr) λ b e'' hb. apply-IsSound op a b e'' ha hb

  choose-IsSound :
      (v : ℕ) (t f : Bytes) (e : Option ArithError) (w : ℕ)
      → Covers eval w
      → weight t < w
      → weight f < w
      → IsSound (choose_branch eval v t f e)
  unfolding choose_branch
  choose-IsSound v [] f e w h ht hf = omega arith
  choose-IsSound v (t ∷ ts) [] e w h ht hf = omega arith
  choose-IsSound v (t ∷ ts) (f ∷ fs) e w h ht hf = ground (arith, h (t ∷ ts) e ht, h (f ∷ fs) e hf)

  branches-IsSound :
      (v : ℕ) (s : Bytes) (o : Bytes × Option Bytes) (e : Option ArithError) (w : ℕ)
      → Covers eval w
      → weight s < w
      → Parted b':' s o
      → IsSound (branches eval v o e)
  unfolding branches
  branches-IsSound v s (t, none) e w h lt p = omega arith
  branches-IsSound v s (t, some f) e w h lt p =
      let sum : weight s ≡ weight t + weight (b':' ∷ f) =
        ap weight p ∙ weight-append t (b':' ∷ f) in
      choose-IsSound v (trim_space t) (trim_space f) e w h (omega (arith, sum, weight-trim_space t))
        (omega (arith, sum, weight-trim_space f, weight-cons b':' f))

  question-IsSound :
      (o : Bytes × Option Bytes) (s : Bytes) (e : Option ArithError)
      → Covers eval (weight s)
      → Parted b'?' s o
      → IsSound (parse_question eval o s e)
  unfolding parse_question
  question-IsSound (c, none) s e h p = split-IsSound (find_binary s) s e h (find_binary-Lighter s)
  question-IsSound ([], some rest) s e h p =
      split-IsSound (find_binary s) s e h (find_binary-Lighter s)
  question-IsSound (c ∷ cs, some rest) s e h p =
      let sum : weight s ≡ weight (c ∷ cs) + weight (b'?' ∷ rest) =
        ap weight p ∙ weight-append (c ∷ cs) (b'?' ∷ rest) in
      and_then-IsSound (eval (c ∷ cs) e) _
        (h (c ∷ cs) e (omega (arith, sum, weight-cons b'?' rest)))
        λ v e' hv.
          branches-IsSound v rest (split_2 rest b':') e' (weight s) h
            (omega (arith, sum, weight-cons c cs, weight-cons b'?' rest)) (split_2-Parted rest b':')

  operators-IsSound :
      (s : Bytes) (e : Option ArithError)
      → Covers eval (weight s)
      → IsSound (parse_operators eval s e)
  unfolding parse_operators
  operators-IsSound s e h = question-IsSound (split_2 s b'?') s e h (split_2-Parted s b'?')

  -- One round of the loop over the groups, for what the other rounds do.
  group-IsSound :
      (again : Parser) (o : Group) (s : Bytes) (e : Option ArithError)
      → Covers eval (weight s)
      → ((t : Bytes) (e' : Option ArithError)
          → weight t < weight s
          → count_open t < count_open s
          → IsSound (again t e'))
      → Grouped s o
      → IsSound (parse_group again eval o s e)
  unfolding parse_group
  group-IsSound again no_group s e h ha g = operators-IsSound s e h
  group-IsSound again (group before inner after) s e h ha g =
      and_then-IsSound (eval inner e) _ (h inner e (rw g (group-Lighter before inner after 0).0))
        λ v e' hv.
          ha (before ++ (format_int v ++ after)) e' (rw g (group-Lighter before inner after v).1)
            (rw g (group-Lighter before inner after v).2)

  groups-IsSound :
      (n : ℕ) (s : Bytes) (e : Option ArithError)
      → count_open s < n
      → Covers eval (weight s)
      → IsSound (parse_groups eval n s e)
  unfolding parse_groups
  groups-IsSound zero s e c h = elim c [ ]
  groups-IsSound (suc n) s e c h =
      group-IsSound (parse_groups eval n) (last_group s) s e h
        (λ t e' lt lc.
          groups-IsSound n t e' (omega (arith, lc, c)) λ u e'' lu. h u e'' (omega (arith, lu, lt)))
        (last_group-Grouped s)

  trimmed-IsSound :
      (s : Bytes) (e : Option ArithError)
      → Covers eval (weight s)
      → IsSound (parse_trimmed eval s e)
  unfolding parse_trimmed
  trimmed-IsSound [] e h = omega arith
  trimmed-IsSound (c ∷ s) e h = groups-IsSound (suc (count_open (c ∷ s))) (c ∷ s) e (omega arith) h

-- A depth of more than the weight is enough.
parse-IsSound : (f : ℕ) (s : Bytes) (e : Option ArithError) → weight s < f → IsSound (parse f s e)
unfolding parse
parse-IsSound zero s e h = elim h [ ]
parse-IsSound (suc f) s e h =
    trimmed-IsSound (parse f) (trim_space s) e
      λ t e' lt. parse-IsSound f t e' (omega (arith, lt, weight-trim_space s, h))

parse_arith_expr-IsSound : (s : Bytes) (e : Option ArithError) → IsSound (parse_arith_expr s e)
unfolding parse_arith_expr
parse_arith_expr-IsSound s e = parse-IsSound (weight s + 5) s e (omega arith)

IsSound-ends : (o : Outcome) → IsSound o → o ≢ out_of_fuel
IsSound-ends (value v e) h = λ p. cc p
IsSound-ends panic h = λ p. cc p
IsSound-ends out_of_fuel h = elim h [ ]

-- The evaluation of an arithmetic expression ends on every text, whatever it holds: parentheses
-- that do not match, operators without operands and malformed numbers included.
pub parse_arith_expr-ends : (s : Bytes) (e : Option ArithError) → parse_arith_expr s e ≢ out_of_fuel
parse_arith_expr-ends s e = IsSound-ends (parse_arith_expr s e) (parse_arith_expr-IsSound s e)
