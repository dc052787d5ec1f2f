-- ===== src/Go/Fmt.antt =====
-- `fmt.Sprintf` on a format of one directive, at a number or a string.
use go_busybox.Prelude.{
  ℕ, zero, suc, ◌+◌, ◌-◌, ◌*◌, ◌/◌, ◌%◌, ◌^◌, ◌≡◌, refl, Bool, true, false, not, ◌&&◌, ◌||◌, Option,
  none, some, [], ◌∷◌, ◌++◌, Bytes, codes, ltb, ◌==◌, if◌then◌else◌, length, get_or, replicate,
  ◌>>=◌,
}
use go_busybox.Go.Int.{is_digit, decimal}
use go_busybox.Go.Int64.{format_int, is_negative, magnitude}
use go_busybox.Go.Utf8.{runes, decode_rune}

-- A directive: its flags, the width and the precision if they are present, and the verb.
pub record Directive : Type 0 where
  pub minus : Bool
  pub plus : Bool
  pub sharp : Bool
  pub space : Bool
  pub zeros : Bool
  pub wid : Option ℕ
  pub prec : Option ℕ
  pub verb : ℕ

abbrev plain : Directive
plain = record {
  minus = false;
  plus = false;
  sharp = false;
  space = false;
  zeros = false;
  wid = none;
  prec = none;
  verb = 0;
}

-- The loop over the flags, and the text behind them.
unfoldable pub read_flags : Bytes → Directive → Directive × Bytes
read_flags [] d = (d, [])
read_flags (c ∷ s) d =
    if c == b'#'
    then read_flags s (record d { sharp = true })
    else if c == b'0'
    then read_flags s (record d { zeros = true })
    else if c == b'+'
    then read_flags s (record d { plus = true })
    else if c == b'-'
    then read_flags s (record d { minus = true })
    else if c == b' '
    then read_flags s (record d { space = true })
    else (d, c ∷ s)

-- `parsenum`; `none` is a number that it finds too large, which ends the format.
unfoldable pub parse_num : Bytes → ℕ → Option (ℕ × Bytes)
parse_num [] n = some (n, [])
parse_num (c ∷ s) n =
    let rest = parse_num s (n * 10 + (c - b'0')) in
    if is_digit c then (if ltb 1000000 n then none else rest) else some (n, c ∷ s)

unfoldable pub read_width : Directive × Bytes → Option (Directive × Bytes)
unfolding parse_num
read_width (d, []) = some (d, [])
read_width (d, c ∷ s) =
    if is_digit c
    then (parse_num (c ∷ s) 0 >>= λ r. some (record d { wid = some r.0 }, r.1))
    else some (d, c ∷ s)

unfoldable pub read_precision : Directive × Bytes → Option (Directive × Bytes)
unfolding parse_num
read_precision (d, []) = some (d, [])
read_precision (d, c ∷ s) =
    if c == b'.'
    then (parse_num s 0 >>= λ r. some (record d { prec = some r.0 }, r.1))
    else some (d, c ∷ s)

unfoldable pub read_verb : Directive × Bytes → Option Directive
read_verb (d, []) = none
read_verb (d, c ∷ s) = some (record d { verb = c })

-- The text behind the percent sign; `none` has no verb.
unfoldable pub directive : Bytes → Option Directive
unfolding read_flags read_width read_precision read_verb
directive s = read_width (read_flags s plain) >>= read_precision >>= read_verb

abbrev value_or : ℕ → Option ℕ → ℕ
value_or n none = n
value_or n (some m) = m

-- `writePadding`.
unfoldable pub padding : Directive → Bool → ℕ → Bytes
padding d zeros n = replicate n (if zeros && not d.minus then b'0' else b' ')

-- `pad` and `padString`: the width is one of runes.
unfoldable pub pad : Directive → Bool → Bytes → Bytes
unfolding padding runes
pad d zeros s =
    let more = padding d zeros (value_or 0 d.wid - length (runes s)) in
    if d.minus then s ++ more else more ++ s

-- The first `n` runes; `skip` counts the bytes of a rune that are still to come.
unfoldable pub first_runes : ℕ → Bytes → ℕ → Bytes
unfolding decode_rune
first_runes n [] skip = []
first_runes n (b ∷ s) (suc skip) = b ∷ first_runes n s skip
first_runes zero (b ∷ s) zero = []
first_runes (suc n) (b ∷ s) zero = b ∷ first_runes n s (decode_rune b s).1

unfoldable pub truncated : Option ℕ → Bytes → Bytes
unfolding first_runes
truncated none s = s
truncated (some n) s = first_runes n s 0

-- `fmtS`.
unfoldable pub string_text : Directive → Bytes → Bytes
unfolding truncated pad
string_text d s = pad d d.zeros (truncated d.prec s)

-- The digits of a number of 64 bits in base 8 or 16; `ten` is the letter for ten.
unfoldable pub digits_in : ℕ → ℕ → ℕ → ℕ → Bytes
digits_in zero base ten n = []
digits_in (suc f) base ten n =
    let front = digits_in f base ten (n / base) in
    let last = if ltb (n % base) 10 then b'0' + n % base else ten + (n % base - 10) in
    if ltb n base then last ∷ [] else front ++ last ∷ []

unfoldable pub digits : ℕ → ℕ → Bytes
unfolding digits_in decimal
digits verb u =
    if verb == b'o'
    then digits_in 64 8 b'a' u
    else if verb == b'x'
    then digits_in 64 16 b'a' u
    else if verb == b'X'
    then digits_in 64 16 b'A' u
    else decimal u

-- The number of digits that are asked for: the precision, or the width that zeros fill.
unfoldable pub least_digits : Option ℕ → Directive → Bool → ℕ
least_digits (some n) d negative = n
least_digits none d negative =
    if d.zeros && not d.minus
    then value_or 0 d.wid - (if negative || d.plus || d.space then 1 else 0)
    else 0

-- What `#` puts before the digits.
unfoldable pub base_prefix : Directive → Bytes → Bytes
base_prefix d s =
    if not d.sharp
    then []
    else if d.verb == b'o'
    then (if get_or s 0 0 == b'0' then [] else codes "0")
    else if d.verb == b'x'
    then codes "0x"
    else if d.verb == b'X'
    then codes "0X"
    else []

unfoldable pub sign_of : Directive → Bool → Bytes
sign_of d negative =
    if negative then codes "-" else if d.plus then codes "+" else if d.space then codes " " else []

-- `fmtInteger`, on the sign and the absolute value.
unfoldable pub integer_text : Directive → Bool → ℕ → Bytes
unfolding digits least_digits base_prefix sign_of pad
integer_text d negative u =
    let ds = digits d.verb u in
    let filled = replicate (least_digits d.prec d negative - length ds) b'0' ++ ds in
    let whole = pad d false (sign_of d negative ++ (base_prefix d filled ++ filled)) in
    if u == 0 && value_or 1 d.prec == 0 then replicate (value_or 0 d.wid) b' ' else whole

-- A value: an `int64`, a `uint64` (both as patterns of 64 bits) or a string.
pub data Value : Type 0 where
  int64 : ℕ → Value
  uint64 : ℕ → Value
  text : Bytes → Value

unfoldable pub value_text : Directive → Value → Bytes
unfolding integer_text string_text
value_text d (int64 w) = integer_text d (is_negative w) (magnitude w)
value_text d (uint64 w) = integer_text d false w
value_text d (text s) = string_text d s

-- A value that no directive used.
unfoldable pub extra : Value → Bytes
unfolding format_int decimal
extra (int64 w) = codes "int64=" ++ format_int w
extra (uint64 w) = codes "uint64=" ++ decimal w
extra (text s) = codes "string=" ++ s

unfoldable pub sprintf_at : Option Directive → Value → Bytes
unfolding value_text extra
sprintf_at (some d) v = value_text d v
sprintf_at none v = codes "%!(NOVERB)%!(EXTRA " ++ (extra v ++ codes ")")

-- `Sprintf("%" + s, v)`, for a text that one verb ends.
unfoldable pub sprintf : Bytes → Value → Bytes
unfolding sprintf_at directive
sprintf s v = sprintf_at (directive s) v

sprintf_runs :
    (sprintf (codes "-6d") (int64 42) ≡ codes "42    ")
    × (sprintf (codes "+06d") (int64 42) ≡ codes "+00042")
    × (sprintf (codes "#x") (int64 255) ≡ codes "0xff")
    × (sprintf (codes "x") (int64 (2 ^ 64 - 255)) ≡ codes "-ff")
    × (sprintf (codes "6.2s") (text (codes "abc")) ≡ codes "    ab")
    × (sprintf (codes ".0d") (int64 0) ≡ [])
    × (sprintf (codes "99999999d") (int64 5) ≡ codes "%!(NOVERB)%!(EXTRA int64=5)")
unfolding sprintf
sprintf_runs = (refl, refl, refl, refl, refl, refl, refl)
