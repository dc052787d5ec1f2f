-- ===== src/Ash/State.antt =====
-- The shell's variables and arithmetic error (applets/ash/ash.go) as a state that calls hand on.
use go_busybox.Prelude.{
  ℕ, Bool, true, false, Option, none, some, List, [], ◌∷◌, Bytes, if◌then◌else◌, str_eq,
}
use go_busybox.Go.Int.{ℤ}
use go_busybox.Go.Int64.{word, add, sub}
use go_busybox.Ash.Arith.{ArithError, set_error, Outcome, value, panic, out_of_fuel, BinOp, apply}
use go_busybox.Ash.Assignments.{
  AssignOp, shl_assign, shr_assign, add_assign, sub_assign, mul_assign, div_assign, rem_assign,
  and_assign, or_assign, xor_assign, assign,
}

abbrev pub Vars : Type 0
Vars = List (Bytes × Bytes)

-- `vars[name]`, empty if it is not set.
unfoldable pub lookup : Bytes → Vars → Option Bytes
lookup name [] = none
lookup name ((n, v) ∷ vs) = if str_eq n name then some v else lookup name vs

unfoldable pub store : Bytes → Bytes → Vars → Vars
store name v [] = (name, v) ∷ []
store name v ((n, w) ∷ vs) = if str_eq n name then (n, v) ∷ vs else (n, w) ∷ store name v vs

-- The variables and `arithErr`.
pub record Shell : Type 0 where
  pub vars : Vars
  pub error : Option ArithError

-- A call returns a value and leaves the state, or panics, or has not ended on its fuel.
pub data Run {ℓ} (A : Type ℓ) : Type ℓ where
  done : A → Shell → Run A
  panicked : Run A
  exhausted : Run A

abbrev pub Comp {ℓ} : Type ℓ → Type ℓ
Comp A = Shell → Run A

infixl 5 ◌>>=◌
abbrev pub bind_run {ℓ κ} : {A : Type ℓ} {B : Type κ} → Run A → (A → Comp B) → Run B
bind_run (done a st) k = k a st
bind_run panicked k = panicked
bind_run exhausted k = exhausted

abbrev pub ◌>>=◌ {ℓ κ} : {A : Type ℓ} {B : Type κ} → Comp A → (A → Comp B) → Comp B
◌>>=◌ m k st = bind_run (m st) k

abbrev pub pure {ℓ} : {A : Type ℓ} → A → Comp A
pure a st = done a st

unfoldable pub fail_with : ArithError → Comp ℕ
unfolding set_error
fail_with x st = done 0 (record st { error = set_error x st.error })

unfoldable pub assign_to : Bytes → Bytes → Comp (Unit {0})
unfolding store
assign_to name v st = done tt (record st { vars = store name v st.vars })

-- A call that reads and writes `arithErr` alone.
unfoldable pub run_outcome : Shell → Outcome → Run ℕ
run_outcome st (value v e) = done v (record st { error = e })
run_outcome st panic = panicked
run_outcome st out_of_fuel = exhausted

unfoldable pub lifted : (Option ArithError → Outcome) → Comp ℕ
unfolding run_outcome
lifted f st = run_outcome st (f st.error)

-- `val++` and `val--`.
unfoldable pub bump : Bool → ℕ → ℕ
unfolding add sub
bump true v = add v 1
bump false v = sub v 1

-- The operation of an assignment, on the value that the variable had and the new one.
unfoldable pub combine : AssignOp → ℕ → ℕ → Option ArithError → Outcome
unfolding apply
combine shl_assign a b = apply BinOp.shl a b
combine shr_assign a b = apply BinOp.shr a b
combine add_assign a b = apply BinOp.plus a b
combine sub_assign a b = apply BinOp.less_by a b
combine mul_assign a b = apply BinOp.times a b
combine div_assign a b = apply BinOp.over a b
combine rem_assign a b = apply BinOp.modulo a b
combine and_assign a b = apply BinOp.bit_and a b
combine or_assign a b = apply BinOp.bit_or a b
combine xor_assign a b = apply BinOp.bit_xor a b
combine assign a b = value b

unfoldable pub is_error : Option ArithError → Bool
is_error none = false
is_error (some e) = true

unfoldable pub has_error : Comp Bool
unfolding is_error
has_error st = done (is_error st.error) st

-- A number, the name of another variable, nothing but white space, or an expression.
unfoldable pub read_parsed : Bool → Bool → Comp ℕ → Comp ℕ → Option ℤ → Comp ℕ
read_parsed is_other is_blank chained evaluated (some z) = pure (word z)
read_parsed is_other is_blank chained evaluated none =
    if is_other then chained else if is_blank then pure 0 else evaluated
