-- ===== src/TextUtil/Ranges.antt =====
-- pkg/core/textutil/textutil.go: `ParseRanges`, the lists of `cut`.
pub mod Parse
pub mod RoundTrip
use mathlib.Core.Option
use go_busybox.Prelude.{
  ℕ, zero, suc, ◌+◌, ◌-◌, ◌≤◌, ◌<◌, ◌≡◌, refl, Bool, true, false, ◌&&◌, ◌||◌, Option, none, some,
  List, [], ◌∷◌, ◌++◌, Bytes, codes, str_eq, ltb, leb, ◌==◌, if◌then◌else◌, ◌>>=◌,
}
use go_busybox.Go.Int.{ℤ, pos, negsuc, positive, atoi}
use go_busybox.Go.Strings.{split, split_2, contains_byte}

-- A range of 1-based positions. An end of 0 is open.
pub record Range : Type 0 where
  pub start : ℕ
  pub end : ℕ

-- `strconv.Atoi`, and the test that the number is positive.
unfoldable pub positive_atoi : Bytes → Option ℕ
positive_atoi s = do n ← atoi s; positive n

-- `parseRangePart` behind the split at the first dash. With no dash there is no second part; the
-- caller has found a dash.
range_of : Bytes → Option Bytes → Option Range
range_of lo none = none
range_of [] (some hi) = do h ← positive_atoi hi; some (record { start = 1; end = h })
range_of (c ∷ lo) (some []) = do l ← positive_atoi (c ∷ lo); some (record { start = l; end = 0 })
range_of (c ∷ lo) (some (d ∷ hi)) = do
  l ← positive_atoi (c ∷ lo)
  h ← positive_atoi (d ∷ hi)
  if ltb h l then none else some (record { start = l; end = h })

unfoldable pub parse_range_part : Bytes → Option Range
unfolding range_of
parse_range_part part =
    if str_eq part (codes "-") then none else range_of (split_2 part b'-').0 (split_2 part b'-').1

-- One part of the list.
unfoldable pub parse_part : Bytes → Option Range
parse_part [] = none
parse_part (c ∷ part) =
    if contains_byte (c ∷ part) b'-'
    then parse_range_part (c ∷ part)
    else do n ← positive_atoi (c ∷ part); some (record { start = n; end = n })

unfoldable pub parse_parts : List Bytes → Option (List Range)
parse_parts [] = some []
parse_parts (p ∷ ps) = do r ← parse_part p; rs ← parse_parts ps; some (r ∷ rs)

-- `ParseRanges`; `none` is its error.
unfoldable pub parse_ranges : Bytes → Option (List Range)
unfolding parse_parts
parse_ranges [] = none
parse_ranges (c ∷ spec) = parse_parts (split (c ∷ spec) (codes ","))

parse_ranges_runs :
    (parse_ranges (codes "3,5-,-2,4-6")
      ≡ some (
          record { start = 3; end = 3 }
          ∷ record { start = 5; end = 0 }
          ∷ record { start = 1; end = 2 }
          ∷ record { start = 4; end = 6 }
          ∷ []))
    × (parse_ranges (codes "3--5") ≡ none)
    × (parse_ranges (codes "4-2") ≡ none)
    × (parse_ranges (codes "1,,2") ≡ none)
    × (parse_ranges (codes "0") ≡ none)
unfolding parse_ranges parse_part parse_range_part positive_atoi atoi split contains_byte split_2
    str_eq
parse_ranges_runs = (refl, refl, refl, refl, refl)
