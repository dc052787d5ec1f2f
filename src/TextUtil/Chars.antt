-- ===== src/TextUtil/Chars.antt =====
-- pkg/core/textutil/textutil.go: `BuildCharFunc`, the characters of `cut -c` and `cut -b`.
pub mod Distinct
pub mod Loop
use go_busybox.Prelude.{
  ◌>>=◌, ℕ, zero, suc, ◌+◌, ◌-◌, ◌≡◌, refl, Bool, true, false, Option, some, List, [], ◌∷◌, ◌++◌,
  Bytes, codes, ltb, if◌then◌else◌, length, get_elem?, set, replicate,
}
use go_busybox.Go.Utf8.{runes, encode, encode_rune}
use go_busybox.TextUtil.Ranges.{Range}
use go_busybox.TextUtil.Fields.{range_start, range_end}

-- The array `seen`, and the runes written.
abbrev pub Marks : Type 0
Marks = List Bool × List ℕ

-- One position: written if it is not marked yet, and marked. An index out of range is a panic.
unfoldable pub char_at_position : ℕ → List ℕ → Marks → Option Marks
char_at_position i rs (seen, out) = do
  b ← get_elem? seen i
  c ← get_elem? rs (i - 1)
  some (if b then (seen, out) else (set seen i true, out ++ c ∷ []))

-- `for i := start; i <= end; i++`, with the rounds left.
unfoldable pub char_range : ℕ → ℕ → List ℕ → Marks → Option Marks
char_range zero i rs m = some m
char_range (suc n) i rs m = do m' ← char_at_position i rs m; char_range n (i + 1) rs m'

-- The loop over the ranges.
unfoldable pub char_ranges : List Range → List ℕ → Marks → Option Marks
char_ranges [] rs m = some m
char_ranges (r ∷ ranges) rs m =
    if ltb (length rs) (range_start r) then char_ranges ranges rs m else do
      m' ← char_range (range_end (length rs) r + 1 - range_start r) (range_start r) rs m
      char_ranges ranges rs m'

-- The function of `BuildCharFunc` on a line; `none` is a panic.
unfoldable pub char_func : List Range → Bytes → Option Bytes
char_func ranges line = do
  m ← char_ranges ranges (runes line) (replicate (length (runes line) + 1) false, [])
  some (encode m.1)

char_func_runs :
    char_func (record { start = 4; end = 0 } ∷ record { start = 2; end = 4 } ∷ []) (codes "abcdef")
    ≡ some (codes "defbc")
unfolding char_func char_ranges char_range char_at_position range_start range_end runes encode
char_func_runs = refl
