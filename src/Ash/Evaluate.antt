-- ===== src/Ash/Evaluate.antt =====
-- `evalArithmetic` and `parseArithVar` of applets/ash/ash.go, over the shell's variables.
use go_busybox.Prelude.{
  ℕ, zero, suc, ◌≡◌, refl, Bool, false, not, ◌&&◌, ◌||◌, Option, none, some, List, [], ◌∷◌, ◌++◌,
  Bytes, codes, if◌then◌else◌, str_eq,
}
use go_busybox.Go.Int64.{format_int}
use go_busybox.Go.Int64.Parse.{parse_int}
use go_busybox.Go.Int.{decimal}
use go_busybox.Go.Strings.{contains_byte}
use go_busybox.Go.Strings.Trim.{trim_space}
use go_busybox.Ash.Arith.{syntax_error}
use go_busybox.Ash.Eval.{parse_arith_expr}
use go_busybox.Ash.Guards.{
  has_unbalanced_parens, has_trailing_operator, has_adjacent_operands, has_escaped_dollar,
}
use go_busybox.Ash.Assignments.{
  Unicode, is_name, AssignOp, Assignment, nothing, assigned, find_assignment,
  has_invalid_ternary_assignment, has_invalid_logical_assignment,
}
use go_busybox.Ash.Pieces.{
  Piece, text, variable, bare, bump_before, bump_after, process_id, pieces, postfix_piece,
  dollar_piece, bare_piece,
}
use go_busybox.Ash.State.{
  ◌>>=◌, Comp, Shell, Vars, assign_to, bump, combine, done, exhausted, fail_with, has_error,
  is_error, lifted, lookup, pure, read_parsed,
}

module _ (u : Unicode) (pid : ℕ) where
  -- What a piece stands for, by the values of the variables.
  unfoldable pub put_piece : (Bytes → Comp ℕ) → Piece → Comp Bytes
  unfolding format_int bump assign_to lookup decimal
  put_piece read (text t) = pure t
  put_piece read (variable name) = read name >>= λ v. pure (format_int v)
  put_piece read (bare name) =
      let kept : Comp Bytes = read name >>= λ v. pure (format_int v) in
      λ st. elim (lookup name st.vars) [ none ↦ done (codes "0") st | some w ↦ kept st ]
  put_piece read (bump_before up name) = read name >>= λ v.
      assign_to name (format_int (bump up v)) >>= λ _. pure (format_int (bump up v))
  put_piece read (bump_after up name) =
      read name >>= λ v. assign_to name (format_int (bump up v)) >>= λ _. pure (format_int v)
  put_piece read process_id = pure (decimal pid)

  unfoldable pub put_pieces : (Bytes → Comp ℕ) → List Piece → Comp Bytes
  unfolding put_piece
  put_pieces read [] = pure []
  put_pieces read (p ∷ ps) =
      put_piece read p >>= λ t. put_pieces read ps >>= λ rest. pure (t ++ rest)

  -- A test refuses the expression.
  unfoldable pub is_refused : Bytes → Bool
  unfolding has_unbalanced_parens has_trailing_operator has_adjacent_operands has_escaped_dollar
      has_invalid_ternary_assignment has_invalid_logical_assignment
  is_refused s =
      has_unbalanced_parens s
      || has_trailing_operator s
      || has_adjacent_operands s
      || has_escaped_dollar s
      || has_invalid_ternary_assignment u s
      || has_invalid_logical_assignment u s

  -- `evalAssignment`, with what it calls.
  unfoldable pub eval_assignment :
      (Bytes → Comp ℕ) → (Bytes → Comp ℕ) → Bytes → AssignOp → Bytes → Comp ℕ
  unfolding fail_with has_error lifted combine assign_to is_name format_int trim_space
  eval_assignment read evaluate left op right =
      let go : Comp ℕ = evaluate (trim_space right) >>= λ v. has_error >>= λ failed.
      if failed
      then pure 0
      else (read left >>= λ cur.
          lifted (combine op cur v) >>= λ res. assign_to left (format_int res) >>= λ _. pure res) in
      if is_name u left then go else fail_with syntax_error

  -- Variables with a dollar, then bare ones, then the expression itself.
  unfoldable pub eval_expanded : (Bytes → Comp ℕ) → Bytes → Comp ℕ
  unfolding put_pieces pieces dollar_piece bare_piece fail_with lifted parse_arith_expr
      contains_byte
  eval_expanded read s = put_pieces read (pieces (dollar_piece u) s 0) >>= λ t.
      if contains_byte t b'$'
      then fail_with syntax_error
      else (put_pieces read (pieces bare_piece t 0) >>= λ t'. lifted (parse_arith_expr t'))

  unfoldable pub eval_assigned : (Bytes → Comp ℕ) → (Bytes → Comp ℕ) → Assignment → Bytes → Comp ℕ
  unfolding eval_assignment eval_expanded
  eval_assigned read evaluate nothing s = eval_expanded read s
  eval_assigned read evaluate (assigned left op right) s =
      eval_assignment read evaluate left op right

  unfoldable pub eval_with : (Bytes → Comp ℕ) → (Bytes → Comp ℕ) → Bytes → Comp ℕ
  unfolding put_pieces pieces postfix_piece is_refused fail_with eval_assigned find_assignment
  eval_with read evaluate s = put_pieces read (pieces postfix_piece s 0) >>= λ t.
      if is_refused t
      then fail_with syntax_error
      else eval_assigned read evaluate (find_assignment t) t

  -- The value of a variable that is set to `v`.
  unfoldable pub read_with : (Bytes → Comp ℕ) → (Bytes → Comp ℕ) → Bytes → Bytes → Comp ℕ
  unfolding read_parsed parse_int is_name trim_space str_eq
  read_with read evaluate name v =
      read_parsed (is_name u v && not (str_eq v name)) (str_eq (trim_space v) []) (read v)
        (evaluate v) (parse_int v)

  unfoldable pub read_found : (Bytes → Comp ℕ) → (Bytes → Comp ℕ) → Bytes → Option Bytes → Comp ℕ
  unfolding read_with
  read_found read evaluate name none = pure 0
  read_found read evaluate name (some []) = pure 0
  read_found read evaluate name (some (c ∷ v)) = read_with read evaluate name (c ∷ v)

  unfoldable pub read_step : (Bytes → Comp ℕ) → (Bytes → Comp ℕ) → Bytes → Comp ℕ
  unfolding read_found lookup
  read_step read evaluate name st =
      let found = read_found read evaluate name (lookup name st.vars) st in
      if is_error st.error then done 0 st else found

  unfoldable mutual
    unfolding read_step eval_with is_error

    -- `parseArithVar` and `evalArithmetic`, to a depth of calls.
    pub parse_arith_var : ℕ → Bytes → Comp ℕ
    parse_arith_var zero name st = exhausted
    parse_arith_var (suc f) name st = read_step (parse_arith_var f) (eval_arithmetic f) name st

    pub eval_arithmetic : ℕ → Bytes → Comp ℕ
    eval_arithmetic zero s st = exhausted
    eval_arithmetic (suc f) s st = eval_with (parse_arith_var f) (eval_arithmetic f) s st

abbrev ascii : Unicode
ascii = record { letter_above = λ r. false; digit_above = λ r. false }

abbrev shell : Vars → Shell
shell vs = record { vars = vs; error = none }

evaluations_run :
    (eval_arithmetic ascii 7 9 (codes "x++ * 2 + ${x}") (shell ((codes "x", codes "5") ∷ []))
      ≡ done 16 (shell ((codes "x", codes "6") ∷ [])))
    × (eval_arithmetic ascii 7 9 (codes "y += x=1") (shell ((codes "x", codes "5") ∷ []))
        ≡ done 1 (shell ((codes "x", codes "1") ∷ (codes "y", codes "1") ∷ [])))
    × (eval_arithmetic ascii 7 9
          (codes "x")
          (shell ((codes "x", codes "y+1") ∷ (codes "y", codes "2") ∷ []))
        ≡ done 3 (shell ((codes "x", codes "y+1") ∷ (codes "y", codes "2") ∷ [])))
    × (eval_arithmetic ascii 7 9 (codes "1 +") (shell [])
        ≡ done 0 (record { vars = []; error = some syntax_error }))
unfolding eval_arithmetic
evaluations_run = (refl, refl, refl, refl)
