-- ===== src/Go/Utf8/Sizes.antt =====
-- The bytes that a rune takes.
use go_busybox.Prelude.{
  ℕ, ◌≤◌, inl, inr, Bool, true, false, ◌&&◌, [], ◌∷◌, arith, Bytes, if◌then◌else◌, Bool-cases,
  length,
}
use go_busybox.Go.Utf8.{decode_rune, two, three, four, bad, within}

two-le : (b : ℕ) (s : Bytes) → (two b s).1 ≤ length s
unfolding two bad
two-le b [] = omega arith
two-le b (c ∷ s) = elim (Bool-cases (within 0x80 c 0xBF)) [
  | inl e ↦ rw e (omega arith)
  | inr e ↦ rw e (omega arith)
]

three-le : (lo hi b : ℕ) (s : Bytes) → (three lo hi b s).1 ≤ length s
unfolding three bad
three-le lo hi b [] = omega arith
three-le lo hi b (c ∷ []) = omega arith
three-le lo hi b (c ∷ d ∷ s) = elim (Bool-cases (within lo c hi && within 0x80 d 0xBF)) [
  | inl e ↦ rw e (omega arith)
  | inr e ↦ rw e (omega arith)
]

four-le : (lo hi b : ℕ) (s : Bytes) → (four lo hi b s).1 ≤ length s
unfolding four bad
four-le lo hi b [] = omega arith
four-le lo hi b (c ∷ []) = omega arith
four-le lo hi b (c ∷ d ∷ []) = omega arith
four-le lo hi b (c ∷ d ∷ e ∷ s) =
    elim (Bool-cases (within lo c hi && within 0x80 d 0xBF && within 0x80 e 0xBF)) [
      | inl p ↦ rw p (omega arith)
      | inr p ↦ rw p (omega arith)
    ]

data Fits (k : ℕ) (p : ℕ × ℕ) : Type 0 where
  fits : p.1 ≤ k → Fits k p

choose : {k : ℕ} {x y : ℕ × ℕ} (c : Bool) → Fits k x → Fits k y → Fits k (if c then x else y)
choose true h h' = h
choose false h h' = h'

decode_rune-Fits : (b : ℕ) (s : Bytes) → Fits (length s) (decode_rune b s)
unfolding decode_rune
decode_rune-Fits b s =
    let bad-Fits : Fits (length s) bad = fits (unfold bad in omega arith) in
    let one-Fits : Fits (length s) (b, 0) = fits (omega arith) in
    let two-Fits : Fits (length s) (two b s) = fits (two-le b s) in
    let three-Fits : (lo hi : ℕ) → Fits (length s) (three lo hi b s) =
      λ lo hi. fits (three-le lo hi b s) in
    let four-Fits : (lo hi : ℕ) → Fits (length s) (four lo hi b s) =
      λ lo hi. fits (four-le lo hi b s) in
    choose _ one-Fits (
      choose _ two-Fits (
        choose _ (three-Fits 0xA0 0xBF) (
          choose _ (three-Fits 0x80 0x9F) (
            choose _ (three-Fits 0x80 0xBF) (
              choose _ (four-Fits 0x90 0xBF)
                (choose _ (four-Fits 0x80 0xBF) (choose _ (four-Fits 0x80 0x8F) bad-Fits)))))))

pub decode_rune-le : (b : ℕ) (s : Bytes) → (decode_rune b s).1 ≤ length s
decode_rune-le b s = elim (decode_rune-Fits b s) [ fits h ↦ h ]
