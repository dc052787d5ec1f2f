-- ===== src/TextUtil/Ranges/Parse.antt =====
-- What `ParseRanges` accepts, and what it returns.
use go_busybox.Prelude.{
  ℕ, zero, suc, ◌≤◌, ◌<◌, ◌^◌, ◌≡◌, ◌≢◌, refl, ap, ◌⊎◌, Option, none, some, List, [], ◌∷◌, Bytes,
  codes, ◌>>=◌, All, arith, subst, length,
}
use go_busybox.Go.Int.{ℤ, pos, negsuc, positive, atoi}
use go_busybox.Go.Int.Decimal.{atoi-lt}
use go_busybox.Go.Strings.{split, split_2}
use go_busybox.Go.Strings.Split.{split-ne-nil}
use go_busybox.TextUtil.Ranges.{
  Range, positive_atoi, range_of, parse_range_part, parse_part, parse_parts, parse_ranges,
}

-- A range that the program may rely on: positions from 1 in an int, in order or open.
pub record IsRange (r : Range) : Type 0 where
  pub from_one : 0 < r.start
  pub start_fits : r.start < 2 ^ 63
  pub end_fits : r.end < 2 ^ 63
  pub ordered : (r.end ≡ 0) ⊎ (r.start ≤ r.end)

positive_atoi_bounds : (s : Bytes) (n : ℕ) → positive_atoi s ≡ some n → (0 < n) × (n < 2 ^ 63)
unfolding positive_atoi
positive_atoi_bounds s n h = go (atoi s) refl h
  where
    go : (o : Option ℤ) → atoi s ≡ o → (o >>= positive) ≡ some n → (0 < n) × (n < 2 ^ 63)
    go none e k = cc
    go (some (pos zero)) e k = cc
    go (some (pos (suc m))) e k =
        let q : suc m ≡ n = cc k in (omega arith, rw q at (atoi-lt s (suc m) e))
    go (some (negsuc m)) e k = cc

-- The same, at whatever `Atoi` gives.
abbrev Bounded : Option ℕ → Type 0
Bounded none = Unit {0}
Bounded (some n) = (0 < n) × (n < 2 ^ 63)

positive_atoi-Bounded : (s : Bytes) → Bounded (positive_atoi s)
positive_atoi-Bounded s = go (positive_atoi s) refl
  where
    go : (o : Option ℕ) → positive_atoi s ≡ o → Bounded o
    go none e = tt
    go (some n) e = positive_atoi_bounds s n e

range_of-IsRange :
    (lo : Bytes) (hi : Option Bytes) (r : Range) → range_of lo hi ≡ some r → IsRange r
unfolding range_of
range_of-IsRange lo none r h = cc
range_of-IsRange [] (some hi) r h = ground (arith, positive_atoi-Bounded hi)
range_of-IsRange (c ∷ lo) (some []) r h = ground (arith, positive_atoi-Bounded (c ∷ lo))
range_of-IsRange (c ∷ lo) (some (d ∷ hi)) r h =
    ground (arith, positive_atoi-Bounded (c ∷ lo), positive_atoi-Bounded (d ∷ hi))

parse_part-IsRange : (p : Bytes) (r : Range) → parse_part p ≡ some r → IsRange r
unfolding parse_part parse_range_part
parse_part-IsRange [] r h = cc
parse_part-IsRange (c ∷ p) r h = ground (
  arith,
  positive_atoi-Bounded (c ∷ p),
  range_of-IsRange (split_2 (c ∷ p) b'-').0 (split_2 (c ∷ p) b'-').1 r,
)

-- Ranges to rely on, one for each of the parts.
abbrev RangesOf : List Bytes → Option (List Range) → Type 0
RangesOf ps none = Unit {0}
RangesOf ps (some rs) = All IsRange rs × (length rs ≡ length ps)

parse_parts-RangesOf : (ps : List Bytes) → RangesOf ps (parse_parts ps)
unfolding parse_parts
parse_parts-RangesOf [] = (tt, refl)
parse_parts-RangesOf (p ∷ ps) = step (parse_part p) refl (parse_parts ps) (parse_parts-RangesOf ps)
  where
    step :
        (o : Option Range)
        → parse_part p ≡ o
        → (m : Option (List Range)) → RangesOf ps m
        → RangesOf (p ∷ ps) (do r ← o; rs ← m; some (r ∷ rs))
    step none e m h = tt
    step (some r) e none h = tt
    step (some r) e (some rs) h = ((parse_part-IsRange p r e, h.0), ap suc h.1)

RangesOf-some :
    (ps : List Bytes) (m : Option (List Range)) (rs : List Range)
    → RangesOf ps m
    → m ≡ some rs
    → ps ≢ []
    → (rs ≢ []) × All IsRange rs
RangesOf-some [] m rs h e n = absurd (n refl)
RangesOf-some (p ∷ ps) m rs h e n =
    let k : RangesOf (p ∷ ps) (some rs) = subst (RangesOf (p ∷ ps)) e h in
    (λ z. absurd (omega (arith, k.1, ap length z)), k.0)

-- An accepted list holds a range for each part, and each starts at 1 or later, fits an int, and is
-- open or ends where it starts or later.
pub parse_ranges-IsRange :
    (spec : Bytes) (rs : List Range) → parse_ranges spec ≡ some rs → (rs ≢ []) × All IsRange rs
unfolding parse_ranges
parse_ranges-IsRange [] rs h = cc
parse_ranges-IsRange (c ∷ spec) rs h =
    RangesOf-some (split (c ∷ spec) (codes ",")) _ rs
      (parse_parts-RangesOf (split (c ∷ spec) (codes ","))) h (split-ne-nil (c ∷ spec) (codes ","))
