-- ===== src/Applets/Printf/Ends.antt =====
-- When `Run` of applets/printf/printf.go ends.
use go_busybox.Prelude.{
  ℕ, zero, suc, ◌+◌, ◌<◌, ◌≡◌, refl, sym, ap, subst, ◌∙◌, ◌≢◌, ◌⊎◌, inl, inr, Bool, true, false,
  ◌&&◌, ◌||◌, none, List, [], ◌∷◌, arith, Bytes, leb, Bool-cases, length,
}
use go_busybox.Core.{Stdio, exit_success}
use go_busybox.Applets.Printf.Values.{Floats}
use go_busybox.Applets.Printf.Passes.{State, process_format, passes, run}
use go_busybox.Applets.Printf.Shapes.{shape, format_loop-shape}

leb-false : (a b : ℕ) → b < a → leb a b ≡ false
leb-false a b h = ground arith

or-leb-false : (r : Bool) (a b : ℕ) → (r || leb a b) ≡ false → b < a
or-leb-false true a b h = cc
or-leb-false false a b h = ground arith

or-and-false : (a b c : Bool) → a ≡ false → c ≡ false → (a || b && c) ≡ false
or-and-false a true c ha hc = rw ha hc
or-and-false a false c ha hc = rw ha refl

-- One more pass: fuel is left, and enough of it.
fuel-step :
    (i t n fuel j : ℕ) → 0 < t → n < i + suc fuel → j ≡ i + t → j < n → (0 < fuel) × (n < j + fuel)
fuel-step i t n fuel j ht hn hj hl = (omega arith, omega arith)

module _ (floats : Floats) (args : List Bytes) (format : Bytes) where
  process-returned :
      (st : State) → (shape format 0).0 ≡ true → (process_format floats args format st).0 ≡ true
  unfolding process_format
  process-returned st h =
      let (returned, _) =
        format_loop-shape floats args format 0 (record st { code = exit_success }) in
      rw (returned ∙ h) refl

  process-index :
      (st : State) → (process_format floats args format st).1.index ≡ st.index + (shape format 0).1
  unfolding process_format
  process-index st = (format_loop-shape floats args format 0 (record st { code = exit_success })).1

  passes-returned :
      (fuel : ℕ) (st : State)
      → (shape format 0).0 ≡ true
      → passes floats (suc fuel) args format st ≢ none
  unfolding passes
  passes-returned fuel st h = rw (process-returned st h) cc

  passes-taken :
      (fuel : ℕ) (st : State)
      → 0 < (shape format 0).1
      → 0 < fuel
      → length args < st.index + fuel
      → passes floats fuel args format st ≢ none
  unfolding passes
  passes-taken zero st h f l = elim f [ ]
  passes-taken (suc fuel) st h f l =
      let r = process_format floats args format st in
      elim (Bool-cases (r.0 || leb (length args) r.1.index)) [
        | inl e ↦ rw e cc
        | inr e ↦ rw e (
            let less = or-leb-false r.0 (length args) r.1.index e in
            let (more, enough) =
              fuel-step st.index (shape format 0).1 (length args) fuel r.1.index h l
                (process-index st) less in
            passes-taken fuel _ h more enough)
      ]

  process-endless :
      (st : State)
      → shape format 0 ≡ (false, 0)
      → st.index < length args
      → (process_format floats args format st).0 ≡ false
  unfolding process_format
  process-endless st h l =
      let fits = format_loop-shape floats args format 0 (record st { code = exit_success }) in
      or-and-false _ _ _ (fits.0 ∙ ap (λ r. r.0) h) (leb-false (length args) st.index l)

  passes-endless :
      (fuel : ℕ) (st : State)
      → shape format 0 ≡ (false, 0)
      → st.index < length args
      → passes floats fuel args format st ≡ none
  unfolding passes
  passes-endless zero st h l = refl
  passes-endless (suc fuel) st h l =
      let same : (process_format floats args format st).1.index ≡ st.index =
        process-index st ∙ (ap (λ r. st.index + r.1) h ∙ omega arith) in
      let less : (process_format floats args format st).1.index < length args =
        subst (λ i. i < length args) (sym same) l in
      rw (process-endless st h l)
        (rw (leb-false (length args) _ less) (passes-endless fuel _ h less))

cons-ne-nil : {a : Bytes} {args : List Bytes} → a ∷ args ≢ []
cons-ne-nil = cc

passes-bare : (floats : Floats) (format : Bytes) (st : State) → passes floats 1 [] format st ≢ none
unfolding passes
passes-bare floats format st =
    let r = process_format floats [] format st in
    elim (Bool-cases (r.0 || leb 0 r.1.index)) [
      | inl e ↦ rw e cc
      | inr e ↦ elim (or-leb-false r.0 0 r.1.index e) [ ]
    ]

-- A call of printf with a format that returns early, or that takes an argument, or without arguments for
-- it, ends: one pass more than there are arguments is enough.
pub run-ends :
    (floats : Floats) (format : Bytes) (args : List Bytes) (s : Stdio)
    → ((shape format 0).0 ≡ true) ⊎ ((0 < (shape format 0).1) ⊎ (args ≡ []))
    → run floats (suc (length args)) (format ∷ args) s ≢ none
unfolding run
run-ends floats format args s (inl e) = passes-returned floats args format _ _ e
run-ends floats format args s (inr (inl h)) =
    passes-taken floats args format (suc (length args))
      (record { stdio = s; index = 0; code = exit_success }) h (omega arith) (omega arith)
run-ends floats format [] s (inr (inr e)) = passes-bare floats format _
run-ends floats format (a ∷ args) s (inr (inr e)) = elim (cons-ne-nil e) [ ]

-- With arguments for a format that takes none and does not return early, printf never ends: no fuel is
-- enough.
pub run-never_ends :
    (floats : Floats) (format : Bytes) (args : List Bytes) (s : Stdio) (fuel : ℕ)
    → shape format 0 ≡ (false, 0)
    → 0 < length args
    → run floats fuel (format ∷ args) s ≡ none
unfolding run
run-never_ends floats format args s fuel h l = passes-endless floats args format fuel _ h l
