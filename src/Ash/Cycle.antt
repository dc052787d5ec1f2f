-- ===== src/Ash/Cycle.antt =====
-- Variables of the shell that name each other (applets/ash/ash.go, `parseArithVar`).
use go_busybox.Prelude.{
  ℕ, zero, suc, ◌≡◌, refl, ap, ◌∙◌, ◌≢◌, true, false, Option, none, some, [], ◌∷◌, Bytes, str_eq,
}
use go_busybox.Go.Int64.Parse.{parse_int}
use go_busybox.Ash.Arith.{ArithError}
use go_busybox.Ash.Assignments.{Unicode, is_name}
use go_busybox.Ash.Evaluate.{read_with, read_found, read_step, parse_arith_var, eval_arithmetic}
use go_busybox.Ash.State.{is_error, read_parsed, Shell, exhausted, Comp, lookup}

-- The variable `a` holds the name `b`.
pub record IsNamed (u : Unicode) (st : Shell) (a b : Bytes) : Type 0 where
  pub holds : lookup a st.vars ≡ some b
  pub not_empty : b ≢ []
  pub no_number : parse_int b ≡ none
  pub is_variable : is_name u b ≡ true
  pub other : str_eq b a ≡ false

error-none : (o : Option ArithError) → o ≡ none → is_error o ≡ false
unfolding is_error
error-none none e = refl
error-none (some x) e = cc e

module _ (u : Unicode) (pid : ℕ) (read evaluate : Bytes → Comp ℕ) where
  read_found-named :
      (st : Shell) (a b : Bytes)
      → b ≢ []
      → parse_int b ≡ none
      → is_name u b ≡ true
      → str_eq b a ≡ false
      → read_found u pid read evaluate a (some b) st ≡ read b st
  unfolding read_found read_with read_parsed
  read_found-named st a [] n p q r = absurd (n refl)
  read_found-named st a (c ∷ b) n p q r = rw p (rw q (rw r refl))

  read_step-named :
      (st : Shell) (a b : Bytes)
      → IsNamed u st a b
      → st.error ≡ none
      → read_step u pid read evaluate a st ≡ read b st
  unfolding read_step
  read_step-named st a b h e = rw (error-none st.error e) (
      ap (λ o. read_found u pid read evaluate a o st) h.holds
      ∙ read_found-named st a b h.not_empty h.no_number h.is_variable h.other)

module _ (u : Unicode) (pid : ℕ) (a b : Bytes) where
  -- Two variables that hold each other's name are read without end: no depth of calls is enough.
  pub parse_arith_var-cycle :
      (f : ℕ) (st : Shell)
      → IsNamed u st a b
      → IsNamed u st b a
      → st.error ≡ none
      → (parse_arith_var u pid f a st ≡ exhausted) × (parse_arith_var u pid f b st ≡ exhausted)
  unfolding parse_arith_var
  parse_arith_var-cycle zero st h k e = (refl, refl)
  parse_arith_var-cycle (suc f) st h k e =
      let ih : (parse_arith_var u pid f a st ≡ exhausted)
          × (parse_arith_var u pid f b st ≡ exhausted) =
        parse_arith_var-cycle f st h k e in
      (
        read_step-named u pid (parse_arith_var u pid f) (eval_arithmetic u pid f) st a b h e ∙ ih.1,
        read_step-named u pid (parse_arith_var u pid f) (eval_arithmetic u pid f) st b a k e ∙ ih.0,
      )
