-- ===== src/Applets/Seq/Count.antt =====
-- The numbers of the loop of `seq`.
use go_busybox.Prelude.{
  ℕ, zero, suc, ◌+◌, ◌-◌, ◌%◌, ◌^◌, ◌≤◌, ◌<◌, ◌≡◌, refl, ap, ◌∙◌, inl, inr, true, none, some, List,
  [], ◌∷◌, map, arith, Bytes, leb, Bool-cases,
}
use go_busybox.Core.{Stdio, print, exit_success}
use native.Mathlib.Nat.{mod-eq_of_lt, mod-lt, add-mod_left}
use go_busybox.Core.Lines.{lines_text, print_lines-lines_text}
use go_busybox.Go.Int.{ℤ, pos, negsuc, atoi, itoa}
use go_busybox.Go.Int.Decimal.{atoi-lt}
use go_busybox.Applets.Seq.{
  to_offset, of_offset, add, rising, numbers, print_numbers, run_numbers, run_2, run,
}

-- The numbers from `u` on by steps of `k`, up to `last`, each of them and no other.
abbrev pub Upward : ℕ → ℕ → ℕ → List ℕ → Type 0
Upward k last u [] = last < u
Upward k last u (x ∷ xs) = (x ≡ u) × (u ≤ last) × Upward k last (u + k) xs

-- A sum that does not overflow.
add-up : (u k : ℕ) → u + k < 2 ^ 64 → add u (k + 2 ^ 63) ≡ u + k
add-up u k h =
    let e : u + (k + 2 ^ 63) + 2 ^ 63 ≡ 2 ^ 64 + (u + k) = omega arith in
    ap (λ m. m % 2 ^ 64) e ∙ add-mod_left (2 ^ 64) (u + k) ∙ mod-eq_of_lt h

-- The loop ends, and gives the numbers up to `last` by steps of `k`, if `last + k` does not
-- overflow; a fuel of one more than the distance is enough.
pub rising-Upward :
    (fuel k last u : ℕ)
    → 0 < k
    → last + k < 2 ^ 64
    → last + 1 - u < fuel
    → (us : List ℕ) × (rising fuel (k + 2 ^ 63) last u ≡ some us) × Upward k last u us
unfolding rising
rising-Upward zero k last u p h f = absurd (omega arith)
rising-Upward (suc fuel) k last u p h f = elim (Bool-cases (leb u last)) [
  | inl e ↦
      let (us, q, up) = rising-Upward fuel k last (u + k) p h (ground arith) in
      (u ∷ us, rw e (rw (add-up u k (ground arith)) (rw q refl)), (refl, ground arith, up))
  | inr e ↦ ([], rw e refl, ground arith)
]

-- With the greatest int as the end, the first loop never ends, whatever the step and the fuel.
pub rising-none : (fuel step u : ℕ) → u < 2 ^ 64 → rising fuel step (2 ^ 64 - 1) u ≡ none
unfolding rising
rising-none zero step u h = refl
rising-none (suc fuel) step u h =
    let e : leb u (2 ^ 64 - 1) ≡ true = ground arith in
    rw e (rw (rising-none fuel step (add u step) (mod-lt (u + step + 2 ^ 63) (omega arith))) refl)

-- What is printed of some numbers.
abbrev pub numbers_text : List ℕ → Bytes
numbers_text us = lines_text (map (λ u. itoa (of_offset u)) us)

-- `seq FIRST LAST`, for any two ints of which LAST is not the greatest one: it ends, prints every int
-- from FIRST to LAST on a line of its own, in order, and no other, and succeeds; a fuel of more than
-- their number is enough.
pub run-Upward :
    (fuel : ℕ) (a b : Bytes) (first last : ℤ) (s : Stdio)
    → atoi a ≡ some first
    → atoi b ≡ some last
    → to_offset last + 1 < 2 ^ 64
    → to_offset last + 1 - to_offset first < fuel
    → (us : List ℕ) × (run fuel (a ∷ b ∷ []) s ≡ some (print (numbers_text us) s, exit_success))
      × Upward 1 (to_offset last) (to_offset first) us
unfolding run run_2 run_numbers numbers
run-Upward fuel a b first last s ea eb small enough =
    let (us, e, up) =
      rising-Upward fuel 1 (to_offset last) (to_offset first) (omega arith) small enough in
    (
      us,
      rw ea (
          rw eb (
            ap (λ o. print_numbers o s) e
            ∙ unfold print_numbers in
              ap (λ t. some (t, exit_success))
                (print_lines-lines_text (map (λ u. itoa (of_offset u)) us) s))),
      up,
    )

to_offset-lt : (a : Bytes) (first : ℤ) → atoi a ≡ some first → to_offset first < 2 ^ 64
to_offset-lt a (pos n) h = omega (arith, atoi-lt a n h)
to_offset-lt a (negsuc n) h = omega arith

-- `seq FIRST LAST` never ends if LAST is the greatest int, since the sum wraps around: no fuel is
-- enough.
pub run-endless :
    (fuel : ℕ) (a b : Bytes) (first : ℤ) (s : Stdio)
    → atoi a ≡ some first
    → atoi b ≡ some (pos (2 ^ 63 - 1))
    → run fuel (a ∷ b ∷ []) s ≡ none
unfolding run run_2 run_numbers numbers
run-endless fuel a b first s ea eb = rw ea (
    rw eb (
      ap (λ o. print_numbers o s)
        (rising-none fuel (1 + 2 ^ 63) (to_offset first) (to_offset-lt a first ea))
      ∙ unfold print_numbers in refl))
