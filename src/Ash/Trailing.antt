-- ===== src/Ash/Trailing.antt =====
-- Texts that end in no operator (applets/ash/ash.go, `hasTrailingOperator`).
use go_busybox.Prelude.{
  ℕ, ◌≤◌, ◌≡◌, refl, sym, ap, subst, ◌≢◌, ◌⊎◌, inl, inr, true, false, List, [], ◌∷◌, ◌++◌, arith,
  Bytes, str_eq, str_eq_iff, Bool-cases, All,
}
use go_busybox.Go.Int.Decimal.{IsDigit}
use go_busybox.Ash.Guards.{has_suffix, trailing_operators, ends_in_any}

-- The last byte.
unfoldable pub last_byte : Bytes → ℕ
last_byte [] = 0
last_byte (c ∷ []) = c
last_byte (c ∷ d ∷ s) = last_byte (d ∷ s)

suffix-last : (s w : Bytes) → w ≢ [] → has_suffix s w ≡ true → last_byte s ≡ last_byte w
unfolding has_suffix last_byte
suffix-last [] w n h = ap last_byte ((str_eq_iff [] w).0 h)
suffix-last (c ∷ []) w n h = elim (Bool-cases (str_eq (c ∷ []) w)) [
  | inl e ↦ ap last_byte ((str_eq_iff (c ∷ []) w).0 e)
  | inr e ↦ absurd (n (sym ((str_eq_iff [] w).0 (rw e at h))))
]
suffix-last (c ∷ d ∷ s) w n h = elim (Bool-cases (str_eq (c ∷ d ∷ s) w)) [
  | inl e ↦ ap last_byte ((str_eq_iff (c ∷ d ∷ s) w).0 e)
  | inr e ↦ suffix-last (d ∷ s) w n (rw e at h)
]

-- An operand or a closed group ends so.
abbrev pub IsLast : ℕ → Type 0
IsLast c = (c ≡ b')') ⊎ ((b'0' ≤ c) × (c ≤ b'9'))

no_suffix :
    (s w : Bytes) → w ≢ [] → IsLast (last_byte s) → ¬ IsLast (last_byte w) → has_suffix s w ≡ false
no_suffix s w n h k = elim (Bool-cases (has_suffix s w)) [
  | inl e ↦ absurd (k (subst IsLast (suffix-last s w n e) h))
  | inr e ↦ e
]

pub no_suffixes :
    (s : Bytes) (ws : List Bytes)
    → IsLast (last_byte s)
    → All (λ w. (w ≢ []) × ¬ IsLast (last_byte w)) ws
    → ends_in_any s ws ≡ false
unfolding ends_in_any
no_suffixes s [] h k = refl
no_suffixes s (w ∷ ws) h ((n, k), l) = rw (no_suffix s w n h k) (no_suffixes s ws h l)

pub operators-end : All (λ w. (w ≢ []) × ¬ IsLast (last_byte w)) trailing_operators
unfolding last_byte
operators-end = ground arith

pub last-append : (s : Bytes) (c : ℕ) (t : Bytes) → last_byte (s ++ c ∷ t) ≡ last_byte (c ∷ t)
unfolding last_byte
last-append [] c t = refl
last-append (d ∷ []) c t = refl
last-append (d ∷ e ∷ s) c t = last-append (e ∷ s) c t

last-cons : (c d : ℕ) (s : Bytes) → last_byte (c ∷ d ∷ s) ≡ last_byte (d ∷ s)
unfolding last_byte
last-cons c d s = refl

pub digits-IsLast : (s : Bytes) → s ≢ [] → All IsDigit s → IsLast (last_byte s)
unfolding last_byte
digits-IsLast [] n h = absurd (n refl)
digits-IsLast (c ∷ []) n (hc, h) = inr hc
digits-IsLast (c ∷ d ∷ s) n (hc, h) = digits-IsLast (d ∷ s) (λ e. cc e) h
