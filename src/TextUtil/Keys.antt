-- ===== src/TextUtil/Keys.antt =====
-- pkg/core/textutil/textutil.go: `ParseKeySpec` and `ExtractKey`, the keys of `sort`.
use go_busybox.Prelude.{
  ℕ, zero, suc, ◌^◌, ◌<◌, ◌≡◌, refl, ◌∙◌, ◌≢◌, Option, none, some, List, [], ◌∷◌, ◌++◌, arith,
  Bytes, codes, ltb, if◌then◌else◌, str_eq, length, get_elem?, drop, ◌>>=◌,
}
use go_busybox.Go.Int.{decimal}
use go_busybox.Go.Int.Decimal.{decimal-digits, decimal-ne-nil}
use go_busybox.Go.Strings.{split, split_2}
use go_busybox.Go.Strings.Split.{split_2-append, split_2-Lacks}
use go_busybox.Go.Utf8.{runes, encode, fields}
use go_busybox.TextUtil.Ranges.{positive_atoi}
use go_busybox.TextUtil.Ranges.RoundTrip.{digits-Lacks, positive_atoi-decimal}

-- The text behind the comma, if there is one; 0 stands for no character.
unfoldable pub key_char : Option Bytes → Option ℕ
key_char none = some 0
key_char (some []) = none
key_char (some (c ∷ s)) = positive_atoi (c ∷ s)

-- `ParseKeySpec`; `none` is its error.
unfoldable pub parse_key_spec : Bytes → Option (ℕ × ℕ)
unfolding key_char
parse_key_spec [] = none
parse_key_spec (c ∷ spec) = do
  field ← positive_atoi (split_2 (c ∷ spec) b',').0
  char ← key_char (split_2 (c ∷ spec) b',').1
  some (field, char)

-- The key from a character on.
unfoldable pub key_from : ℕ → Bytes → Bytes
key_from zero key = key
key_from (suc k) key =
    let rs = runes key in if ltb (length rs) (suc k) then [] else encode (drop k rs)

-- The fields of a line, at a separator or at white space.
unfoldable pub key_fields : Bytes → Bytes → List Bytes
key_fields line sep = if str_eq sep [] then fields line else split line sep

key_at : Option Bytes → ℕ → Bytes
unfolding key_from
key_at none char = []
key_at (some key) char = key_from char key

-- `ExtractKey`, at numbers that are not negative, as `ParseKeySpec` gives them.
unfoldable pub extract_key : Bytes → ℕ → ℕ → Bytes → Bytes
unfolding key_at key_fields
extract_key line zero char sep = line
extract_key line (suc field) char sep = key_at (get_elem? (key_fields line sep) field) char

extract_key_runs :
    (extract_key (codes "a bcd e") 2 2 [] ≡ codes "cd")
    × (extract_key (codes "a:b") 3 0 (codes ":") ≡ [])
    × (extract_key (codes "a:b") 1 2 (codes ":") ≡ [])
unfolding extract_key runes encode fields split str_eq
extract_key_runs = (refl, refl, refl)

-- A key as the user writes it, with a character or without one.
pub print_key : ℕ → ℕ → Bytes
print_key field zero = decimal field
print_key field (suc char) = decimal field ++ b',' ∷ decimal (suc char)

parse_key_spec-split :
    (s : Bytes)
    → s ≢ []
    → parse_key_spec s ≡ (do
      field ← positive_atoi (split_2 s b',').0
      char ← key_char (split_2 s b',').1
      some (field, char))
unfolding parse_key_spec
parse_key_spec-split [] h = absurd (h refl)
parse_key_spec-split (c ∷ s) h = refl

key_char-digits : (s : Bytes) → s ≢ [] → key_char (some s) ≡ positive_atoi s
unfolding key_char
key_char-digits [] h = absurd (h refl)
key_char-digits (c ∷ s) h = refl

append-ne-nil : (s t : Bytes) → s ≢ [] → s ++ t ≢ []
append-ne-nil [] t h = absurd (h refl)
append-ne-nil (c ∷ s) t h = cc

-- A key is read back as it is printed, with a character or without one.
pub parse_key_spec-print_key :
    (field char : ℕ)
    → 0 < field
    → field < 2 ^ 63
    → char < 2 ^ 63
    → parse_key_spec (print_key field char) ≡ some (field, char)
unfolding print_key
parse_key_spec-print_key field zero h k l =
    let digits = digits-Lacks b',' (decimal field) (omega arith) (decimal-digits field) in
    rw
      (
        parse_key_spec-split (decimal field) (decimal-ne-nil field),
        split_2-Lacks b',' (decimal field) digits,
        positive_atoi-decimal field h k,
      )
      (unfold key_char in refl)
parse_key_spec-print_key field (suc n) h k l =
    let digits = digits-Lacks b',' (decimal field) (omega arith) (decimal-digits field) in
    parse_key_spec-split _ (append-ne-nil (decimal field) _ (decimal-ne-nil field))
    ∙ rw
        (
          split_2-append b',' (decimal field) (decimal (suc n)) digits,
          positive_atoi-decimal field h k,
          key_char-digits (decimal (suc n)) (decimal-ne-nil (suc n)),
          positive_atoi-decimal (suc n) (omega arith) l,
        )
        refl
