-- ===== src/Applets/Printf/Shapes.antt =====
-- What a pass of applets/printf/printf.go takes of the arguments, whatever they are.
use go_busybox.Prelude.{
  ℕ, zero, suc, ◌+◌, ◌≡◌, refl, ap, ◌∙◌, Bool, true, false, List, [], ◌∷◌, arith, Bytes,
  if◌then◌else◌,
}
use go_busybox.Applets.Printf.Specs.{Spec}
use go_busybox.Applets.Printf.Values.{Floats}
use go_busybox.Applets.Printf.Passes.{
  State, Part, say, convert, halt, refuse, part, put, print_formatted, follow, format_loop,
}

-- The number of arguments that a specification takes.
abbrev pub taken : Spec → ℕ
taken spec = (if spec.width_star then 1 else 0) + (if spec.prec_star then 1 else 0) + 1

-- A pass over a text: whether it returns before the end, and the number of arguments that it takes.
abbrev part_shape : Part → (ℕ → Bool × ℕ) → Bool × ℕ
part_shape (say t used) rest = rest used
part_shape (convert spec used) rest = ((rest used).0, taken spec + (rest used).1)
part_shape halt rest = (true, 0)
part_shape (refuse m) rest = (true, 0)

unfoldable pub shape : Bytes → ℕ → Bool × ℕ
unfolding part
shape [] skip = (false, 0)
shape (c ∷ s) (suc skip) = shape s skip
shape (c ∷ s) zero = part_shape (part c s) (λ used. shape s used)

star-index :
    (w p : Bool) (i : ℕ)
    → (if p then (if w then i + 1 else i) + 1 else (if w then i + 1 else i)) + 1
      ≡ i + ((if w then 1 else 0) + (if p then 1 else 0) + 1)
star-index true true i = omega arith
star-index true false i = omega arith
star-index false true i = omega arith
star-index false false i = omega arith

module _ (floats : Floats) (args : List Bytes) where
  print_formatted-index :
      (spec : Spec) (st : State)
      → (print_formatted floats args spec st).index ≡ st.index + taken spec
  unfolding print_formatted
  print_formatted-index spec st = star-index spec.width_star spec.prec_star st.index

  abbrev pub Fits : Bool × State → State → Bool × ℕ → Type 0
  Fits r st shape = (r.0 ≡ shape.0) × (r.1.index ≡ st.index + shape.1)

  follow-shape :
      (p : Part) (next : ℕ → State → Bool × State) (rest : ℕ → Bool × ℕ) (st : State)
      → ((used : ℕ) (st' : State) → Fits (next used st') st' (rest used))
      → Fits (follow floats args p next st) st (part_shape p rest)
  unfolding follow
  follow-shape (say t used) next rest st h = h used (put t st)
  follow-shape (convert spec used) next rest st h =
      let after = print_formatted floats args spec st in
      let (a, b) = h used after in
      (a, b ∙ (ap (λ i. i + (rest used).1) (print_formatted-index spec st) ∙ omega arith))
  follow-shape halt next rest st h = (refl, omega arith)
  follow-shape (refuse m) next rest st h = (refl, omega arith)

  pub format_loop-shape :
      (s : Bytes) (skip : ℕ) (st : State)
      → Fits (format_loop floats args s skip st) st (shape s skip)
  unfolding format_loop shape
  format_loop-shape [] skip st = (refl, omega arith)
  format_loop-shape (c ∷ s) (suc skip) st = format_loop-shape s skip st
  format_loop-shape (c ∷ s) zero st =
      follow-shape (part c s) (λ used st'. format_loop floats args s used st')
        (λ used. shape s used) st (λ used st'. format_loop-shape s used st')
