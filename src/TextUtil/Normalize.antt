-- ===== src/TextUtil/Normalize.antt =====
-- pkg/core/textutil/textutil.go: `NormalizeLine`, the key of a line for `uniq -f` and `-s`.
pub mod Skip
use go_busybox.Prelude.{
  ℕ, zero, suc, ◌≡◌, refl, Bool, ◌||◌, Option, none, some, [], ◌∷◌, Bytes, codes, leb, ◌==◌,
  if◌then◌else◌, length, drop,
}
use go_busybox.Go.Utf8.{runes, encode}

abbrev pub is_blank : ℕ → Bool
is_blank c = c == b' ' || c == b'\t'

-- `for i < len(line) && (line[i] == ' ' || line[i] == '\t') { i++ }`, on the text from `i` on.
unfoldable pub skip_blanks : Bytes → Bytes
skip_blanks [] = []
skip_blanks (c ∷ s) = if is_blank c then skip_blanks s else c ∷ s

-- The loop over the bytes of a field.
unfoldable pub skip_field : Bytes → Bytes
skip_field [] = []
skip_field (c ∷ s) = if is_blank c then c ∷ s else skip_field s

-- `for seen < skipFields && i < len(line)`, with the fields left to skip; `none` if the line ends
-- before they are skipped.
unfoldable pub skip_fields : ℕ → Bytes → Option Bytes
skip_fields zero s = some s
skip_fields (suc k) [] = none
skip_fields (suc k) (c ∷ s) =
    let behind = skip_field (c ∷ s) in
    if k == 0 then some behind else skip_fields k (skip_blanks behind)

-- The characters behind the first ones; none if the line is no longer.
unfoldable pub skipped_chars : ℕ → Bytes → Bytes
skipped_chars zero line = line
skipped_chars (suc k) line =
    let rs = runes line in if leb (length rs) (suc k) then [] else encode (drop (suc k) rs)

unfoldable pub after_fields : ℕ → Option Bytes → Bytes
after_fields skip_chars none = []
after_fields skip_chars (some line) = skipped_chars skip_chars line

-- `NormalizeLine`, at numbers that are not negative, as `uniq` has them.
unfoldable pub normalize_line : Bytes → ℕ → ℕ → Bytes
unfolding after_fields
normalize_line line zero skip_chars = skipped_chars skip_chars line
normalize_line line (suc k) skip_chars =
    after_fields skip_chars (skip_fields (suc k) (skip_blanks line))

normalize_line_runs :
    (normalize_line (codes "  a  bc d") 2 0 ≡ codes " d")
    × (normalize_line (codes "a b") 3 0 ≡ [])
    × (normalize_line (codes "a bcd") 1 2 ≡ codes "cd")
    × (normalize_line (codes "abc") 0 3 ≡ [])
unfolding normalize_line skipped_chars skip_fields skip_field skip_blanks runes encode
normalize_line_runs = (refl, refl, refl, refl)
