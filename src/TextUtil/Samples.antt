-- ===== src/TextUtil/Samples.antt =====
-- The theorems of the text functions at examples.
use go_busybox.Prelude.{
  ℕ, ◌<◌, ◌≡◌, refl, ◌≢◌, false, some, List, [], ◌∷◌, map, arith, Bytes, codes, if◌then◌else◌,
  str_eq, length, All,
}
use mathlib.Core.List.{flat_map}
use go_busybox.Go.Int.{atoi}
use go_busybox.Go.Strings.{split, split_2, contains_byte}
use go_busybox.Go.Utf8.{runes, encode, encode_rune}
use go_busybox.TextUtil.Ranges.{Range, parse_ranges, parse_part, parse_range_part, positive_atoi}
use go_busybox.TextUtil.Ranges.Parse.{IsRange, parse_ranges-IsRange}
use go_busybox.TextUtil.Ranges.RoundTrip.{print_ranges, parse_ranges-print_ranges}
use go_busybox.TextUtil.Fields.{field_func}
use go_busybox.TextUtil.Fields.Select.{field_func_lem, projection}
use go_busybox.TextUtil.Chars.{char_func}
use go_busybox.TextUtil.Chars.Distinct.{distinct}
use go_busybox.TextUtil.Chars.Loop.{char_func_lem, positions, rune_at}
use go_busybox.TextUtil.Normalize.{normalize_line, skipped_chars}
use go_busybox.TextUtil.Normalize.Skip.{normalize_line-row, row, Blanks}
use go_busybox.TextUtil.Keys.{parse_key_spec, print_key, parse_key_spec-print_key}
use go_busybox.TextUtil.Sets.{parse_set}
use go_busybox.TextUtil.Sets.Grammar.{blank}
use go_busybox.TextUtil.Sets.Parse.{parse_set-expand, single, span, class, expand, Item}

abbrev three_to_five : Range
three_to_five = record { start = 3; end = 5 }

abbrev from_seven : Range
from_seven = record { start = 7; end = 0 }

abbrev some_ranges : List Range
some_ranges = three_to_five ∷ from_seven ∷ []

some_ranges-parsed : parse_ranges (codes "3-5,7-") ≡ some some_ranges
unfolding parse_ranges parse_part parse_range_part positive_atoi atoi split contains_byte split_2
    str_eq
some_ranges-parsed = refl

parse_ranges-IsRange_example : (some_ranges ≢ []) × All IsRange some_ranges
parse_ranges-IsRange_example = parse_ranges-IsRange (codes "3-5,7-") some_ranges some_ranges-parsed

some_ranges-ne-nil : some_ranges ≢ []
some_ranges-ne-nil = cc

parse_ranges-print_ranges_example : parse_ranges (print_ranges some_ranges) ≡ some some_ranges
parse_ranges-print_ranges_example =
    parse_ranges-print_ranges some_ranges some_ranges-ne-nil
      (parse_ranges-IsRange (codes "3-5,7-") some_ranges some_ranges-parsed).1

field_func_lem_example :
    field_func some_ranges b':' [] false (codes "a:b:c:d")
    ≡ some (
        projection
          (split (codes "a:b:c:d") (encode_rune b':'))
          some_ranges
          false
          (codes "a:b:c:d")
          (if str_eq [] [] then encode_rune b':' else []))
field_func_lem_example = field_func_lem some_ranges b':' [] (codes "a:b:c:d") false

char_func_lem_example :
    char_func some_ranges (codes "abcdefgh")
    ≡ some (
        encode (
          map
            (rune_at (runes (codes "abcdefgh")))
            (distinct [] (flat_map (positions (length (runes (codes "abcdefgh")))) some_ranges))))
char_func_lem_example = char_func_lem some_ranges (codes "abcdefgh")

abbrev one_field : List (Bytes × Bytes)
one_field = (codes " ", codes "ab") ∷ []

normalize_line-row_example :
    (normalize_line (row one_field (codes " c")) 1 1 ≡ skipped_chars 1 (codes " c"))
    × ((k : ℕ) → Blanks (codes " c") → 1 < k → normalize_line (row one_field (codes " c")) k 1 ≡ [])
normalize_line-row_example =
    normalize_line-row one_field (codes " c") 1 (λ e. cc)
      ((refl, tt), ((λ e. cc), (refl, (refl, tt))), refl, tt)

parse_key_spec-print_key_example : parse_key_spec (print_key 2 3) ≡ some (2, 3)
parse_key_spec-print_key_example =
    parse_key_spec-print_key 2 3 (omega arith) (omega arith) (omega arith)

abbrev some_items : List Item
some_items = single b'x' ∷ span b'a' b'c' ∷ class blank ∷ []

parse_set-expand_example : parse_set (codes "xa-c[:blank:]") ≡ some (flat_map expand some_items)
unfolding runes flat_map
parse_set-expand_example =
    parse_set-expand some_items (codes "xa-c[:blank:]")
      ((omega arith, omega arith), ((omega arith, omega arith), (tt, tt))) refl
