-- ===== src/Ash/Eval.antt =====
-- `parseArithExpr` of applets/ash/ash.go: groups in parentheses first, then the operators.
use go_busybox.Prelude.{
  ℕ, zero, suc, ◌+◌, ◌≡◌, refl, Option, none, some, [], ◌∷◌, ◌++◌, Bytes, codes, ◌==◌,
  if◌then◌else◌, drop,
}
use go_busybox.Go.Int64.{word, format_int, minus, complement}
use go_busybox.Go.Int64.Parse.{parse_int}
use go_busybox.Go.Int.{ℤ}
use go_busybox.Go.Strings.{split_2}
use go_busybox.Go.Strings.Trim.{trim_space}
use go_busybox.Ash.Scan.{Test, hit, miss, Found, absent, barred, found, backward, scan}
use go_busybox.Ash.Arith.{
  ArithError, syntax_error, malformed_ternary, divide_by_zero, Outcome, value, panic, out_of_fuel,
  and_then, set_error, parse_base_number, apply, truth,
}
use go_busybox.Ash.Levels.{Split, whole, split, find_binary}

-- `parseArithExpr` on a text, from one value of `arithErr` on.
abbrev pub Parser : Type 0
Parser = Bytes → Option ArithError → Outcome

-- The texts before, in and behind the innermost group that begins last.
pub data Group : Type 0 where
  no_group : Group
  group : Bytes → Bytes → Bytes → Group

unfoldable pub open_test : Test
open_test prev [] = miss
open_test prev (c ∷ s) = if c == b'(' then hit else miss

unfoldable pub closed_at : Bytes → Bytes × Option Bytes → Group
closed_at before (inner, none) = no_group
closed_at before (inner, some after) = group before inner after

unfoldable pub opened_at : Found → Group
unfolding closed_at split_2
opened_at absent = no_group
opened_at barred = no_group
opened_at (found l r) = closed_at l (split_2 (drop 1 r) b')')

unfoldable pub last_group : Bytes → Group
unfolding opened_at scan open_test
last_group s = opened_at (scan backward open_test none s)

-- `strings.Contains` and the rest of the loop's rounds: a group opens in each.
unfoldable pub count_open : Bytes → ℕ
count_open [] = 0
count_open (c ∷ s) = (if c == b'(' then 1 else 0) + count_open s

unfoldable pub number_or : Option ℕ → Option ℤ → ℕ
number_or (some v) other = v
number_or none (some z) = word z
number_or none none = 0

-- A number; what is none is 0.
unfoldable pub number : Bytes → ℕ
unfolding number_or parse_base_number parse_int
number s = number_or (parse_base_number s) (parse_int s)

unfoldable pub parse_unary : Parser → Parser
unfolding number and_then minus complement
parse_unary eval [] e = value (number []) e
parse_unary eval (c ∷ s) e =
    if c == b'-'
    then and_then (eval s e) (λ v e'. value (minus v) e')
    else if c == b'+'
    then eval s e
    else if c == b'!'
    then and_then (eval s e) (λ v e'. value (truth (v == 0)) e')
    else if c == b'~'
    then and_then (eval s e) (λ v e'. value (complement v) e')
    else value (number (c ∷ s)) e

-- Both sides are evaluated, the left one first, whatever the operator.
unfoldable pub parse_split : Parser → Split → Bytes → Option ArithError → Outcome
unfolding parse_unary apply and_then trim_space
parse_split eval whole s e = parse_unary eval (trim_space s) e
parse_split eval (split l op r) s e =
    and_then (eval l e) (λ a e'. and_then (eval r e') (λ b e''. apply op a b e''))

unfoldable pub choose_branch : Parser → ℕ → Bytes → Bytes → Option ArithError → Outcome
unfolding set_error
choose_branch eval v [] f e = value 0 (set_error syntax_error e)
choose_branch eval v (t ∷ ts) [] e = value 0 (set_error syntax_error e)
choose_branch eval v (t ∷ ts) (f ∷ fs) e = if v == 0 then eval (f ∷ fs) e else eval (t ∷ ts) e

unfoldable pub branches : Parser → ℕ → Bytes × Option Bytes → Option ArithError → Outcome
unfolding choose_branch trim_space set_error
branches eval v (t, none) e = value 0 (set_error malformed_ternary e)
branches eval v (t, some f) e = choose_branch eval v (trim_space t) (trim_space f) e

unfoldable pub parse_question : Parser → Bytes × Option Bytes → Bytes → Option ArithError → Outcome
unfolding branches parse_split split_2 find_binary and_then
parse_question eval (c, none) s e = parse_split eval (find_binary s) s e
parse_question eval ([], some rest) s e = parse_split eval (find_binary s) s e
parse_question eval (c ∷ cs, some rest) s e =
    and_then (eval (c ∷ cs) e) (λ v e'. branches eval v (split_2 rest b':') e')

-- The part behind the loop over the groups.
unfoldable pub parse_operators : Parser → Parser
unfolding parse_question split_2
parse_operators eval s e = parse_question eval (split_2 s b'?') s e

unfoldable pub parse_group : Parser → Parser → Group → Bytes → Option ArithError → Outcome
unfolding parse_operators and_then format_int
parse_group again eval no_group s e = parse_operators eval s e
parse_group again eval (group before inner after) s e =
    and_then (eval inner e) (λ v e'. again (before ++ (format_int v ++ after)) e')

-- The loop over the groups, each replaced by its value.
unfoldable pub parse_groups : Parser → ℕ → Parser
unfolding parse_group last_group
parse_groups eval zero s e = out_of_fuel
parse_groups eval (suc n) s e = parse_group (parse_groups eval n) eval (last_group s) s e

unfoldable pub parse_trimmed : Parser → Parser
unfolding parse_groups count_open
parse_trimmed eval [] e = value 0 e
parse_trimmed eval (c ∷ s) e = parse_groups eval (suc (count_open (c ∷ s))) (c ∷ s) e

-- `parseArithExpr`, to a depth of calls.
unfoldable pub parse : ℕ → Parser
unfolding parse_trimmed trim_space
parse zero s e = out_of_fuel
parse (suc f) s e = parse_trimmed (parse f) (trim_space s) e

-- A group may grow by its value's 20 digits, and the parenthesis that opens it goes.
unfoldable pub weight : Bytes → ℕ
weight [] = 0
weight (c ∷ s) = (if c == b'(' then 21 else 1) + weight s

unfoldable pub parse_arith_expr : Parser
unfolding parse weight
parse_arith_expr s e = parse (weight s + 5) s e

parse_arith_expr_runs :
    (parse_arith_expr (codes "1 + 2 * 3") none ≡ value 7 none)
    × (parse_arith_expr (codes "(1+2)*3") none ≡ value 9 none)
    × (parse_arith_expr (codes "2**10%1000") none ≡ value 24 none)
    × (parse_arith_expr (codes "1 ? 7 : 8") none ≡ value 7 none)
    × (parse_arith_expr (codes "1/0") none ≡ value 0 (some divide_by_zero))
    × (parse_arith_expr (codes "1 << -1") none ≡ panic)
    × (parse_arith_expr (codes "16#ff+0x10") none ≡ value 271 none)
unfolding parse_arith_expr
parse_arith_expr_runs = (refl, refl, refl, refl, refl, refl, refl)
