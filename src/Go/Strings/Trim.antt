-- ===== src/Go/Strings/Trim.antt =====
-- `strings.TrimSpace`, and the bytes that it keeps.
use go_busybox.Prelude.{
  ℕ, zero, suc, ◌≤◌, ◌<◌, ◌≡◌, refl, ap, inl, inr, Bool, true, false, [], ◌∷◌, arith, Bytes, codes,
  if◌then◌else◌, Bool-cases, All,
}
use go_busybox.Go.Utf8.{decode_rune, is_space}

-- White space in front is passed over; `skip` counts the bytes of a rune that are still to come.
unfoldable pub trim_left : Bytes → ℕ → Bytes
trim_left [] skip = []
trim_left (b ∷ s) (suc skip) = trim_left s skip
trim_left (b ∷ s) zero =
    let further = trim_left s (decode_rune b s).1 in
    if is_space (decode_rune b s).0 then further else b ∷ s

abbrev is_empty : Bytes → Bool
is_empty [] = true
is_empty (b ∷ s) = false

-- Nothing but white space is left.
unfoldable pub is_blank : Bytes → Bool
unfolding trim_left
is_blank s = is_empty (trim_left s 0)

unfoldable pub trim_right : Bytes → ℕ → Bytes
unfolding is_blank
trim_right [] skip = []
trim_right (b ∷ s) (suc skip) = b ∷ trim_right s skip
trim_right (b ∷ s) zero = if is_blank (b ∷ s) then [] else b ∷ trim_right s (decode_rune b s).1

unfoldable pub trim_space : Bytes → Bytes
unfolding trim_left trim_right decode_rune is_space
trim_space s = trim_right (trim_left s 0) 0

trim_space_runs :
    (trim_space (codes " \t1 + 2 ") ≡ codes "1 + 2")
    × (trim_space (codes "  ") ≡ [])
    × (trim_space (0xC2 ∷ 0xA0 ∷ b'x' ∷ 0xC2 ∷ []) ≡ b'x' ∷ 0xC2 ∷ [])
unfolding trim_space
trim_space_runs = (refl, refl, refl)

-- A printing byte of ASCII.
abbrev pub IsSolid : ℕ → Type 0
IsSolid c = (32 < c) × (c < 127)

solid_rune : (b : ℕ) (s : Bytes) → IsSolid b → decode_rune b s ≡ (b, 0)
unfolding decode_rune
solid_rune b s h = ground arith

solid-not_space : (b : ℕ) → IsSolid b → is_space b ≡ false
unfolding is_space
solid-not_space b h = ground arith

trim_left-solid : (b : ℕ) (s : Bytes) → IsSolid b → trim_left (b ∷ s) 0 ≡ b ∷ s
unfolding trim_left
trim_left-solid b s h = rw (solid_rune b s h) (rw (solid-not_space b h) refl)

trim_right-solid : (s : Bytes) → All IsSolid s → trim_right s 0 ≡ s
unfolding trim_right
trim_right-solid [] h = refl
trim_right-solid (b ∷ s) (hb, h) =
    rw (trim_left-solid b s hb) (rw (solid_rune b s hb) (ap (λ t. b ∷ t) (trim_right-solid s h)))

-- A text with no white space at all stays as it is.
pub trim_space-solid : (s : Bytes) → All IsSolid s → trim_space s ≡ s
unfolding trim_space
trim_space-solid [] h = refl
trim_space-solid (b ∷ s) (hb, h) = rw (trim_left-solid b s hb) (trim_right-solid (b ∷ s) (hb, h))

-- Any sum over the bytes is no larger behind the call.
module _ (size : Bytes → ℕ) (empty : size [] ≡ 0)
    (grows : (b : ℕ) (s t : Bytes) → size s ≤ size t → size (b ∷ s) ≤ size (b ∷ t))
    (shrinks : (b : ℕ) (s : Bytes) → size s ≤ size (b ∷ s)) where
  trim_left-le : (s : Bytes) (skip : ℕ) → size (trim_left s skip) ≤ size s
  unfolding trim_left
  trim_left-le [] skip = omega arith
  trim_left-le (b ∷ s) (suc skip) = omega (arith, trim_left-le s skip, shrinks b s)
  trim_left-le (b ∷ s) zero = ground (arith, trim_left-le s (decode_rune b s).1, shrinks b s)

  trim_right-le : (s : Bytes) (skip : ℕ) → size (trim_right s skip) ≤ size s
  unfolding trim_right
  trim_right-le [] skip = omega arith
  trim_right-le (b ∷ s) (suc skip) = grows b _ s (trim_right-le s skip)
  trim_right-le (b ∷ s) zero = elim (Bool-cases (is_blank (b ∷ s))) [
    | inl e ↦ rw e (rw empty (omega arith))
    | inr e ↦ rw e (grows b _ s (trim_right-le s (decode_rune b s).1))
  ]

  pub trim_space-le : (s : Bytes) → size (trim_space s) ≤ size s
  unfolding trim_space
  trim_space-le s = omega (arith, trim_left-le s 0, trim_right-le (trim_left s 0) 0)
