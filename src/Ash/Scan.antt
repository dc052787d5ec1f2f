-- ===== src/Ash/Scan.antt =====
-- The loops that look for an operator in an arithmetic expression (applets/ash/ash.go,
-- `parseArithExpr`): over all places of the text, each with the byte before it.
use go_busybox.Prelude.{ℕ, ◌<◌, ◌≡◌, refl, Option, some, [], ◌∷◌, ◌++◌, arith, Bytes, length}

-- What the code does at a place: pass it by, split there, or give the operator up.
pub data Verdict : Type 0 where
  miss : Verdict
  hit : Verdict
  bar : Verdict

-- A test of the byte in front, if there is one, and of the text from the place on.
abbrev pub Test : Type 0
Test = Option ℕ → Bytes → Verdict

-- A split has the text before the operator and the text from it on.
pub data Found : Type 0 where
  absent : Found
  barred : Found
  found : Bytes → Bytes → Found

-- The place counts unless a later one does.
unfoldable pub latest : Verdict → ℕ → Bytes → Found → Found
latest v c s (found l r) = found (c ∷ l) r
latest v c s barred = barred
latest miss c s absent = absent
latest hit c s absent = found [] (c ∷ s)
latest bar c s absent = barred

-- The place counts before any later one.
unfoldable pub earliest : Verdict → ℕ → Bytes → Found → Found
earliest hit c s later = found [] (c ∷ s)
earliest bar c s later = barred
earliest miss c s absent = absent
earliest miss c s barred = barred
earliest miss c s (found l r) = found (c ∷ l) r

pub data Direction : Type 0 where
  backward : Direction
  forward : Direction

unfoldable pub choose : Direction → Verdict → ℕ → Bytes → Found → Found
unfolding latest earliest
choose backward = latest
choose forward = earliest

-- The search, behind the byte `prev`.
unfoldable pub scan : Direction → Test → Option ℕ → Bytes → Found
unfolding choose
scan d p prev [] = absent
scan d p prev (c ∷ s) = choose d (p prev (c ∷ s)) c s (scan d p (some c) s)

choose-append :
    (d : Direction) (v : Verdict) (c : ℕ) (s : Bytes) (o : Found) {l r : Bytes}
    → ((l' r' : Bytes) → o ≡ found l' r' → (l' ++ r' ≡ s) × (0 < length r'))
    → choose d v c s o ≡ found l r
    → (l ++ r ≡ c ∷ s) × (0 < length r)
unfolding choose latest earliest
choose-append backward miss c s absent ih h = cc
choose-append backward hit c s absent ih h = ground arith
choose-append backward bar c s absent ih h = cc
choose-append backward v c s barred ih h = cc
choose-append backward v c s (found l' r') ih h = ground (arith, ih l' r' refl)
choose-append forward hit c s o ih h = ground arith
choose-append forward bar c s o ih h = cc
choose-append forward miss c s absent ih h = cc
choose-append forward miss c s barred ih h = cc
choose-append forward miss c s (found l' r') ih h = ground (arith, ih l' r' refl)

-- A split cuts the text in two, the second part not empty.
pub scan-append :
    (d : Direction) (p : Test) (prev : Option ℕ) (s : Bytes) {l r : Bytes}
    → scan d p prev s ≡ found l r
    → (l ++ r ≡ s) × (0 < length r)
unfolding scan
scan-append d p prev [] h = cc
scan-append d p prev (c ∷ s) h =
    choose-append d (p prev (c ∷ s)) c s (scan d p (some c) s)
      (λ l' r' e. scan-append d p (some c) s e) h
