-- ===== src/Go/Utf8/Words.antt =====
-- The number of fields of a text, counted without building them.
use go_busybox.Prelude.{
  ℕ, zero, suc, ◌+◌, ◌≡◌, refl, sym, ap, ap₂, ◌∙◌, inl, inr, Bool, true, false, [], ◌∷◌, ◌++◌,
  arith, Bytes, if◌then◌else◌, Bool-cases, length, length-append,
}
use go_busybox.Go.Utf8.{decode_rune, is_space, fields, fields_loop, ended}

-- The fields that begin in a text, if `inside` tells whether it begins inside one.
unfoldable pub words : Bytes → ℕ → Bool → ℕ
words [] skip inside = 0
words (b ∷ s) (suc skip) inside = words s skip inside
words (b ∷ s) zero inside =
    let (r, n) = decode_rune b s in
    let at_space = words s n false in
    let in_field = words s n true in
    if is_space r then at_space else (if inside then 0 else 1) + in_field

begun : Bytes → Bool
begun [] = false
begun (c ∷ cur) = true

one_if : Bool → ℕ
one_if b = if b then 1 else 0

length-ended : (cur : Bytes) → length (ended cur) ≡ one_if (begun cur)
unfolding ended one_if begun
length-ended [] = refl
length-ended (c ∷ cur) = refl

begun-snoc : (cur : Bytes) (b : ℕ) → begun (cur ++ b ∷ []) ≡ true
unfolding begun
begun-snoc [] b = refl
begun-snoc (c ∷ cur) b = refl

fields_loop-words :
    (s : Bytes) (skip : ℕ) (kept : Bool) (cur : Bytes)
    → (kept ≡ true → begun cur ≡ true)
    → length (fields_loop s skip kept cur) ≡ words s skip (begun cur) + one_if (begun cur)
unfolding fields_loop words one_if begun
fields_loop-words [] skip kept cur h = omega (arith, length-ended cur)
fields_loop-words (b ∷ s) (suc skip) true cur h =
    let e : begun (cur ++ b ∷ []) ≡ begun cur = begun-snoc cur b ∙ sym (h refl) in
    fields_loop-words s skip true (cur ++ b ∷ []) (λ _. begun-snoc cur b)
    ∙ ap (λ c. words s skip c + one_if c) e
fields_loop-words (b ∷ s) (suc skip) false cur h = fields_loop-words s skip false cur h
fields_loop-words (b ∷ s) zero kept cur h =
    let n = (decode_rune b s).1 in
    elim (Bool-cases (is_space (decode_rune b s).0)) [
      | inl e ↦ rw e (
          length-append (ended cur) (fields_loop s n false [])
          ∙ ap₂ (λ x y. x + y) (length-ended cur) (fields_loop-words s n false [] (λ p. cc))
          ∙ at_space (one_if (begun cur)) (words s n false))
      | inr e ↦ rw e (
          fields_loop-words s n true (cur ++ b ∷ []) (λ _. begun-snoc cur b)
          ∙ ap (λ c. words s n c + one_if c) (begun-snoc cur b)
          ∙ in_field (begun cur) (words s n true))
    ]
  where
    at_space : (x y : ℕ) → x + (y + one_if (begun [])) ≡ y + x
    at_space x y = omega arith

    in_field : (c : Bool) (y : ℕ) → y + one_if true ≡ (if c then 0 else 1) + y + one_if c
    in_field true y = omega arith
    in_field false y = omega arith

-- `words` counts the fields.
pub length-fields : (s : Bytes) → length (fields s) ≡ words s 0 false
unfolding fields one_if begun
length-fields s = fields_loop-words s 0 false [] (λ e. cc) ∙ no_more (words s 0 false)
  where
    no_more : (x : ℕ) → x + one_if (begun []) ≡ x
    no_more x = omega arith
