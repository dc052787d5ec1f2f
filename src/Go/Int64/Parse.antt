-- ===== src/Go/Int64/Parse.antt =====
-- `strconv.ParseInt(s, 0, 64)`: signs, prefixes and underscores. `none` is an error of any kind.
use go_busybox.Prelude.{
  ℕ, ◌+◌, ◌-◌, ◌*◌, ◌^◌, ◌≡◌, refl, Bool, true, false, not, ◌&&◌, ◌||◌, Option, none, some, [], ◌∷◌,
  Bytes, codes, ltb, leb, ◌==◌, if◌then◌else◌,
}
use go_busybox.Go.Int.{ℤ, pos, neg, is_digit}

-- `c | 0x20`, for the letters that the code asks for.
lower : ℕ → ℕ
lower c = if leb b'A' c && leb c b'Z' then c + 32 else c

abbrev none_digit : ℕ
none_digit = 64

-- The value of a digit or letter; 64 is no digit of any base.
unfoldable pub digit_of : ℕ → ℕ
unfolding lower
digit_of c =
    if is_digit c
    then c - b'0'
    else if leb b'a' (lower c) && leb (lower c) b'z'
    then lower c - b'a' + 10
    else none_digit

-- The number behind `n`, with no bound; underscores are passed over.
unfoldable pub based_value : ℕ → Bytes → ℕ → Option ℕ
unfolding digit_of
based_value base [] n = some n
based_value base (c ∷ s) n =
    let skipped = based_value base s n in
    let further = based_value base s (n * base + digit_of c) in
    if c == b'_' then skipped else if ltb (digit_of c) base then further else none

-- The base that the prefix names and the text behind it.
unfoldable pub base_of : Bytes → ℕ × Bytes
unfolding lower
base_of (z ∷ l ∷ c ∷ s) =
    if z == b'0'
    then (if lower l == b'b'
        then (2, c ∷ s)
        else if lower l == b'o'
        then (8, c ∷ s)
        else if lower l == b'x'
        then (16, c ∷ s)
        else (8, l ∷ c ∷ s))
    else (10, z ∷ l ∷ c ∷ s)
base_of (z ∷ s) = if z == b'0' then (8, s) else (10, z ∷ s)
base_of [] = (10, [])

-- What `underscoreOK` saw last: the beginning, a digit or prefix, an underscore, any other byte.
pub data Seen : Type 0 where
  start : Seen
  digit : Seen
  underscore : Seen
  other : Seen

is_digit_seen : Seen → Bool
is_digit_seen digit = true
is_digit_seen _ = false

is_underscore_seen : Seen → Bool
is_underscore_seen underscore = true
is_underscore_seen _ = false

-- Each underscore stands behind a digit and before one.
underscores_loop : Bool → Seen → Bytes → Bool
unfolding is_digit_seen is_underscore_seen
underscores_loop hex seen [] = not (is_underscore_seen seen)
underscores_loop hex seen (c ∷ s) =
    if is_digit c || (hex && leb b'a' (lower c) && leb (lower c) b'f')
    then underscores_loop hex digit s
    else if c == b'_'
    then is_digit_seen seen && underscores_loop hex underscore s
    else not (is_underscore_seen seen) && underscores_loop hex other s

underscores_after : Bytes → Bool
unfolding underscores_loop lower
underscores_after (z ∷ l ∷ s) =
    if z == b'0' && (lower l == b'b' || lower l == b'o' || lower l == b'x')
    then underscores_loop (lower l == b'x') digit s
    else underscores_loop false start (z ∷ l ∷ s)
underscores_after s = underscores_loop false start s

unfoldable pub holds_underscore : Bytes → Bool
holds_underscore [] = false
holds_underscore (c ∷ s) = c == b'_' || holds_underscore s

-- `underscoreOK`, asked only if there is an underscore.
unfoldable pub underscores_fit : Bytes → Bool
unfolding underscores_after holds_underscore
underscores_fit s = if holds_underscore s then underscores_after s else true

-- `ParseUint(s, 0, 64)` up to the bound.
unfoldable pub parse_magnitude : Bytes → Option ℕ
unfolding based_value base_of underscores_fit
parse_magnitude [] = none
parse_magnitude (c ∷ s) =
    let value = based_value (base_of (c ∷ s)).0 (base_of (c ∷ s)).1 0 in
    if underscores_fit (c ∷ s) then value else none

unfoldable pub bounded_pos : Option ℕ → Option ℤ
bounded_pos none = none
bounded_pos (some n) = if ltb n (2 ^ 63) then some (pos n) else none

bounded_neg : Option ℕ → Option ℤ
bounded_neg none = none
bounded_neg (some n) = if leb n (2 ^ 63) then some (neg n) else none

unfoldable pub parse_int : Bytes → Option ℤ
unfolding parse_magnitude bounded_pos bounded_neg
parse_int [] = none
parse_int (c ∷ s) =
    if c == b'-'
    then bounded_neg (parse_magnitude s)
    else if c == b'+'
    then bounded_pos (parse_magnitude s)
    else bounded_pos (parse_magnitude (c ∷ s))

parse_int_runs :
    (parse_int (codes "-0x1F") ≡ some (neg 31))
    × (parse_int (codes "017") ≡ some (pos 15))
    × (parse_int (codes "0") ≡ some (pos 0))
    × (parse_int (codes "1_000") ≡ some (pos 1000))
    × (parse_int (codes "1__0") ≡ none)
    × (parse_int (codes "0x_f") ≡ some (pos 15))
    × (parse_int (codes "08") ≡ none)
    × (parse_int (codes "-9223372036854775808") ≡ some (neg (2 ^ 63)))
    × (parse_int (codes "9223372036854775808") ≡ none)
unfolding parse_int
parse_int_runs = (refl, refl, refl, refl, refl, refl, refl, refl, refl)
