-- ===== src/Applets/Printf/Values.antt =====
-- The arguments of applets/printf/printf.go: `getArg`, `getIntArg`, `parseIntArg`, `parseUintArg`,
-- `parseFloatArg`.
use go_busybox.Prelude.{
  ℕ, ◌-◌, ◌^◌, ◌≡◌, refl, Bool, ◌||◌, Option, none, some, List, [], ◌∷◌, map, Bytes, codes, ltb,
  ◌==◌, if◌then◌else◌, str_eq, get_or,
}
use go_busybox.Go.Int.{ℤ, atoi}
use go_busybox.Go.Int64.{word}
use go_busybox.Go.Int64.Parse.{parse_int, parse_magnitude}
use go_busybox.Go.Strings.Trim.{trim_space}
use go_busybox.Go.Lower.{ascii_lower}

-- `getArg`, at the index; the index goes up in any case.
unfoldable pub get_arg : List Bytes → ℕ → Bytes
get_arg args index = get_or args index []

unfoldable pub int_or_zero : Option ℤ → ℕ
int_or_zero none = 0
int_or_zero (some z) = word z

-- `getIntArg`.
unfoldable pub get_int_arg : List Bytes → ℕ → ℕ
unfolding get_arg int_or_zero atoi
get_int_arg args index = int_or_zero (atoi (get_arg args index))

-- Without a leading plus sign.
unfoldable pub strip_plus : Bytes → Bytes
strip_plus [] = []
strip_plus (c ∷ s) = if c == b'+' then s else c ∷ s

abbrev number_word : Option ℤ → Option ℕ
number_word none = none
number_word (some z) = some (word z)

-- A number, or the byte behind a quote; `read` reads a text without a leading plus sign.
unfoldable pub parse_arg : (Bytes → Option ℕ) → Bytes → Option ℕ
unfolding strip_plus
parse_arg read [] = some 0
parse_arg read (q ∷ []) = read (strip_plus (q ∷ []))
parse_arg read (q ∷ c ∷ s) =
    if q == b'\'' || q == b'"' then some c else read (strip_plus (q ∷ c ∷ s))

-- `parseIntArg`; `none` is an error.
unfoldable pub parse_int_arg : Bytes → Option ℕ
unfolding parse_arg trim_space parse_int
parse_int_arg s = parse_arg (λ t. number_word (parse_int t)) (trim_space s)

unfoldable pub bounded_64 : Option ℕ → Option ℕ
bounded_64 none = none
bounded_64 (some n) = if ltb n (2 ^ 64) then some n else none

-- `parseUintArg`; `ParseUint` takes no sign.
unfoldable pub parse_uint_arg : Bytes → Option ℕ
unfolding parse_arg trim_space parse_magnitude bounded_64
parse_uint_arg s = parse_arg (λ t. bounded_64 (parse_magnitude t)) (trim_space s)

-- Floating-point numbers are a parameter: `strconv.ParseFloat` (`none` is an error), the infinities,
-- zero, and `fmt.Sprintf` at one number, whose format is given behind its percent sign.
pub record Floats : Type 1 where
  pub F : Type 0
  pub parse : Bytes → Option F
  pub inf : F
  pub minus_inf : F
  pub zero_value : F
  pub formatted : Bytes → F → Bytes

-- `EqualFold`, for a name of letters that no other rune folds to.
abbrev equal_fold : Bytes → Bytes → Bool
equal_fold s name = str_eq (map ascii_lower s) name

module _ (floats : Floats) where
  -- `parseFloatArg`.
  unfoldable pub parse_float_arg : Bytes → Option floats.F
  unfolding trim_space strip_plus str_eq
  parse_float_arg s =
      let t = trim_space s in
      let number = floats.parse (strip_plus t) in
      if str_eq t []
      then some floats.zero_value
      else if equal_fold t (codes "inf") || equal_fold t (codes "infinity")
      then some floats.inf
      else if equal_fold t (codes "-inf") || equal_fold t (codes "-infinity")
      then some floats.minus_inf
      else number

arguments_run :
    (parse_int_arg (codes " +42 ") ≡ some 42)
    × (parse_int_arg (codes "'A") ≡ some 65)
    × (parse_int_arg (codes "-1") ≡ some (2 ^ 64 - 1))
    × (parse_uint_arg (codes "-1") ≡ none)
    × (parse_int_arg (codes "4x") ≡ none)
unfolding parse_int_arg parse_uint_arg
arguments_run = (refl, refl, refl, refl, refl)
