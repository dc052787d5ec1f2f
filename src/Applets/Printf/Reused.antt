-- ===== src/Applets/Printf/Reused.antt =====
-- applets/printf/printf.go on a format that is used again for every argument.
use go_busybox.Prelude.{
  ℕ, zero, suc, ◌+◌, ◌-◌, ◌≤◌, ◌<◌, ◌≡◌, refl, sym, ap, subst, ◌∙◌, Bool, true, false, ◌||◌, Option,
  some, List, [], ◌∷◌, ◌++◌, append-nil, append_assoc, arith, Bytes, codes, leb, ◌==◌,
  if◌then◌else◌, le→leb, length, length-append, get_or, replicate, All,
}
use go_busybox.Core.{Stdio, print, newline, exit_success}
use go_busybox.Go.Fmt.{text, pad, truncated, string_text, sprintf}
use go_busybox.Go.Utf8.{encode_rune}
use go_busybox.Applets.Echo.{letter}
use go_busybox.Applets.Printf.Escapes.{backslash_escape, switch}
use go_busybox.Applets.Printf.Specs.{parse_format_spec}
use go_busybox.Applets.Printf.Values.{Floats}
use go_busybox.Applets.Printf.Passes.{
  State, part, escape_part, print_arg, print_formatted, follow, format_loop, process_format, passes,
  run,
}

-- Each text with a newline behind it.
abbrev pub lines_of : List Bytes → Bytes
lines_of [] = []
lines_of (a ∷ rest) = (a ++ newline) ++ lines_of rest

-- A string and an escaped newline.
abbrev pub one_line : Bytes
one_line = codes "%s\\n"

replicate-none : (n c : ℕ) → replicate (0 - n) c ≡ []
replicate-none n c = let none_left : 0 - n ≡ 0 = omega arith in ap (λ k. replicate k c) none_left

sprintf-text : (a : Bytes) → sprintf (codes "s") (text a) ≡ a
unfolding sprintf pad truncated string_text
sprintf-text a = ap (λ p. p ++ a) (replicate-none _ b' ')

get_or-middle :
    (done rest : List Bytes) (a : Bytes) → get_or (done ++ a ∷ rest) (length done) [] ≡ a
get_or-middle [] rest a = refl
get_or-middle (x ∷ done) rest a = get_or-middle done rest a

abbrev start : Stdio → ℕ → State
start s i = record { stdio = s; index = i; code = exit_success }

abbrev printed : Bytes → Stdio → Option (Stdio × ℕ)
printed t s = some (print t s, exit_success)

printed-append : (t u : Bytes) (s : Stdio) → printed u (print t s) ≡ printed (t ++ u) s
printed-append t u s = ap (λ o. some (record s { out = o }, exit_success)) (append_assoc s.out t u)

enough : (n k : ℕ) → n ≡ k + 1 → n ≤ k + 1
enough n k h = omega arith

more : (n k m : ℕ) → n ≡ k + suc (suc m) → leb n (k + 1) ≡ false
more n k m h = ground arith

module _ (floats : Floats) (args : List Bytes) (format : Bytes) where
  -- A pass prints the argument and a newline.
  abbrev Prints : Bytes → Type 0
  Prints a =
      (s : Stdio) (i : ℕ)
      → get_or args i [] ≡ a
      → process_format floats args format (start s i)
        ≡ (false, start (print (a ++ newline) s) (i + 1))

  passes-step :
      (fuel i j : ℕ) (s t : Stdio)
      → process_format floats args format (start s i) ≡ (false, start t j)
      → passes floats (suc fuel) args format (start s i) ≡ (
          if leb (length args) j
          then some (t, exit_success)
          else passes floats fuel args format (start t j))
  unfolding passes
  passes-step fuel i j s t e =
      ap
        (λ r.
          if r.0 || leb (length args) r.1.index
          then some (r.1.stdio, if r.1.code == exit_success then exit_success else r.1.code)
          else passes floats fuel args format
              (record r.1 { code = if r.1.code == exit_success then exit_success else r.1.code }))
        e

  passes-lines :
      (rest done : List Bytes) (fuel : ℕ) (a : Bytes) (s : Stdio)
      → All Prints (a ∷ rest)
      → args ≡ done ++ a ∷ rest
      → length rest < fuel
      → passes floats fuel args format (start s (length done))
        ≡ some (print (lines_of (a ∷ rest)) s, exit_success)
  passes-lines rest done zero a s h e l = elim l [ ]
  passes-lines [] done (suc fuel) a s h e l =
      let all_used : leb (length args) (length done + 1) ≡ true =
        le→leb _ _ (enough _ _ (ap length e ∙ length-append done (a ∷ []))) in
      passes-step fuel (length done) (length done + 1) s (print (a ++ newline) s)
        (h.0 s (length done) (rw e (get_or-middle done [] a)))
      ∙ rw all_used (ap (λ x. printed x s) (sym (append-nil (a ++ newline))))
  passes-lines (b ∷ rest) done (suc fuel) a s h e l =
      let unused : leb (length args) (length done + 1) ≡ false =
        more _ _ (length rest) (ap length e ∙ length-append done (a ∷ b ∷ rest)) in
      passes-step fuel (length done) (length done + 1) s (print (a ++ newline) s)
        (h.0 s (length done) (rw e (get_or-middle done (b ∷ rest) a)))
      ∙ rw unused (
          subst
            (λ k.
              passes floats fuel args format (start (print (a ++ newline) s) k)
              ≡ printed (lines_of (a ∷ b ∷ rest)) s)
            (length-append done (a ∷ []))
            (passes-lines rest (done ++ a ∷ []) fuel b (print (a ++ newline) s) h.1
                (e ∙ sym (append_assoc done (a ∷ []) (b ∷ rest))) (omega arith)
              ∙ printed-append (a ++ newline) (lines_of (b ∷ rest)) s))

module _ (floats : Floats) (args : List Bytes) where
  string-Prints : (a : Bytes) → Prints floats args one_line a
  unfolding process_format format_loop follow part parse_format_spec print_formatted print_arg
      sprintf escape_part backslash_escape switch letter encode_rune
  string-Prints a s i e =
      let moved : (i + 1 == i) ≡ false = ground arith in
      let shown : Path (Bool × State)
          (false, start (print newline (print (sprintf (codes "s") (text a)) s)) (i + 1))
          (false, start (print (a ++ newline) s) (i + 1)) =
        ap (λ p. (false, start (print newline (print p s)) (i + 1))) (sprintf-text a)
        ∙ ap (λ o. (false, start (record s { out = o }) (i + 1))) (append_assoc s.out a newline) in
      rw moved (rw e shown)

every {ℓ} : {P : Bytes → Type ℓ} → ((a : Bytes) → P a) → (xs : List Bytes) → All P xs
every h [] = tt
every h (x ∷ xs) = (h x, every h xs)

-- `printf '%s\n'` with arguments prints each of them on a line of its own, in order, and succeeds; as many
-- passes as there are arguments are enough.
pub run-lines :
    (floats : Floats) (a : Bytes) (args : List Bytes) (s : Stdio)
    → run floats (suc (length args)) (one_line ∷ a ∷ args) s
      ≡ some (print (lines_of (a ∷ args)) s, exit_success)
unfolding run
run-lines floats a args s =
    passes-lines floats (a ∷ args) one_line args [] (suc (length args)) a s
      (every (λ b. string-Prints floats (a ∷ args) b) (a ∷ args)) refl (omega arith)
