-- ===== src/Applets/Printf/Specs.antt =====
-- `parseFormatSpec` and `buildFmtStr` of applets/printf/printf.go. Ints are patterns of 64 bits.
use go_busybox.Prelude.{
  ℕ, ◌+◌, ◌-◌, ◌*◌, ◌%◌, ◌^◌, ◌≡◌, refl, Bool, true, false, not, ◌&&◌, ◌||◌, [], ◌∷◌, ◌++◌, Bytes,
  codes, ◌==◌, if◌then◌else◌, length,
}
use go_busybox.Go.Int.{is_digit}
use go_busybox.Go.Int64.{modulus, format_int, minus, is_negative}
use go_busybox.Go.Utf8.{encode_rune}

-- `formatSpec`, without `raw`, which is never read.
pub record Spec : Type 0 where
  pub flags : Bytes
  pub width : ℕ
  pub width_star : Bool
  pub prec : ℕ
  pub prec_star : Bool
  pub has_prec : Bool
  pub verb : ℕ

-- The loop over the flags: they, and the text behind them.
unfoldable pub take_flags : Bytes → Bytes × Bytes
take_flags [] = ([], [])
take_flags (c ∷ s) =
    let more = take_flags s in
    if c == b'-' || c == b'+' || c == b' ' || c == b'#' || c == b'0'
    then (c ∷ more.0, more.1)
    else ([], c ∷ s)

-- The loop over the digits of a width or a precision; the sum wraps.
unfoldable pub take_number : ℕ → Bytes → ℕ × Bytes
take_number n [] = (n, [])
take_number n (c ∷ s) =
    let more = take_number ((n * 10 + (c - b'0')) % modulus) s in
    if is_digit c then more else (n, c ∷ s)

-- A star or a number: whether it is a star, the number, and the text behind it.
unfoldable pub take_size : Bytes → Bool × ℕ × Bytes
unfolding take_number
take_size [] = (false, 0, [])
take_size (c ∷ s) =
    if c == b'*'
    then (true, 0, s)
    else (false, (take_number 0 (c ∷ s)).0, (take_number 0 (c ∷ s)).1)

-- The precision, if there is one.
unfoldable pub take_precision : Bytes → Bool × Bool × ℕ × Bytes
unfolding take_size
take_precision [] = (false, false, 0, [])
take_precision (c ∷ s) =
    let (star, p, rest) = take_size s in
    if c == b'.' then (true, star, p, rest) else (false, false, 0, c ∷ s)

-- The length modifiers are skipped.
unfoldable pub skip_length : Bytes → Bytes
skip_length [] = []
skip_length (c ∷ s) =
    let more = skip_length s in
    if c == b'z' || c == b'l' || c == b'L' || c == b'h' then more else c ∷ s

unfoldable pub is_verb : ℕ → Bool
is_verb c =
    c == b'd'
    || c == b'i'
    || c == b'o'
    || c == b'u'
    || c == b'x'
    || c == b'X'
    || c == b'f'
    || c == b'e'
    || c == b'E'
    || c == b'g'
    || c == b'G'
    || c == b's'
    || c == b'b'
    || c == b'c'

-- A specification with the number of bytes that it takes, or what the message names.
pub data Parsed : Type 0 where
  parsed : Spec → ℕ → Parsed
  invalid : Bytes → Parsed

-- The conversion.
unfoldable pub conversion : Bytes → Bytes → Bool → ℕ → Bool → Bool → ℕ → Bytes → Parsed
unfolding is_verb encode_rune
conversion s fs star w dotted pstar p [] = invalid (b'%' ∷ s)
conversion s fs star w dotted pstar p (c ∷ rest) =
    if is_verb c
    then parsed
        (record {
          flags = fs;
          width = w;
          width_star = star;
          prec = p;
          prec_star = pstar;
          has_prec = dotted;
          verb = c;
        })
        (length s - length rest)
    else invalid (b'%' ∷ encode_rune c)

-- `parseFormatSpec`, on the text behind the percent sign.
unfoldable pub parse_format_spec : Bytes → Parsed
unfolding take_flags take_size take_precision skip_length conversion
parse_format_spec s =
    let (fs, s1) = take_flags s in
    let (star, w, s2) = take_size s1 in
    let (dotted, pstar, p, s3) = take_precision s2 in
    conversion s fs star w dotted pstar p (skip_length s3)

unfoldable pub width_text : ℕ → Bytes
unfolding format_int minus
width_text w =
    if w == 0 then [] else if is_negative w then b'-' ∷ format_int (minus w) else format_int w

-- `buildFmtStr`, behind the percent sign.
unfoldable pub build_fmt_str : Bytes → ℕ → ℕ → Bool → ℕ → Bytes
unfolding width_text format_int
build_fmt_str fs w p has_prec verb =
    fs
    ++ (width_text w
        ++ ((if has_prec && not (is_negative p) then b'.' ∷ format_int p else []) ++ verb ∷ []))

specs_run :
    (parse_format_spec (codes "-5.*ldX")
      ≡ parsed
          (record {
            flags = codes "-";
            width = 5;
            width_star = false;
            prec = 0;
            prec_star = true;
            has_prec = true;
            verb = b'd';
          })
          6)
    × (parse_format_spec (codes "5q") ≡ invalid (codes "%q"))
    × (parse_format_spec (codes "05") ≡ invalid (codes "%05"))
    × (build_fmt_str (codes "0") (2 ^ 64 - 7) 2 true b'd' ≡ codes "0-7.2d")
unfolding parse_format_spec build_fmt_str
specs_run = (refl, refl, refl, refl)
