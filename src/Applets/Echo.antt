-- ===== src/Applets/Echo.antt =====
-- pkg/applets/echo/echo.go.
pub mod Spelled
mod Samples
use go_busybox.Prelude.{
  ℕ, zero, suc, ◌+◌, ◌-◌, ◌*◌, ◌%◌, ◌≡◌, refl, Bool, true, false, ◌&&◌, ◌||◌, Option, none, some,
  List, [], ◌∷◌, ◌++◌, Bytes, codes, leb, ◌==◌, if◌then◌else◌, drop,
}
use go_busybox.Core.{Stdio, print, println, exit_success}
use go_busybox.Go.Strings.{join}
use go_busybox.Go.Utf8.{runes}

-- `noNewline` and `enableEscapes`.
pub record Flags : Type 0 where
  pub no_newline : Bool
  pub enable_escapes : Bool

abbrev pub is_flag : ℕ → Bool
is_flag c = c == b'n' || c == b'e' || c == b'E'

abbrev pub all_flags : List ℕ → Bool
all_flags [] = true
all_flags (c ∷ cs) = is_flag c && all_flags cs

-- Whether an argument holds flags; the first that does not ends them.
unfoldable pub is_flags : Bytes → Bool
is_flags (d ∷ c ∷ s) = d == b'-' && all_flags (runes (c ∷ s))
is_flags _ = false

abbrev pub set_flag : ℕ → Flags → Flags
set_flag c f =
    if c == b'n'
    then record f { no_newline = true }
    else if c == b'e'
    then record f { enable_escapes = true }
    else if c == b'E'
    then record f { enable_escapes = false }
    else f

abbrev pub set_flags : List ℕ → Flags → Flags
set_flags [] f = f
set_flags (c ∷ cs) f = set_flags cs (set_flag c f)

-- The loop over the arguments: the flags, and the arguments from `startIdx` on.
unfoldable pub parse_flags : List Bytes → Flags → Flags × List Bytes
parse_flags [] f = (f, [])
parse_flags (arg ∷ args) f =
    let more = parse_flags args (set_flags (runes (drop 1 arg)) f) in
    if is_flags arg then more else (f, arg ∷ args)

-- The loop over octal digits, at most `count` of them: the value, and the number of digits.
unfoldable pub octal_digits : ℕ → Bytes → ℕ → ℕ × ℕ
octal_digits zero s val = (val, 0)
octal_digits (suc count) [] val = (val, 0)
octal_digits (suc count) (c ∷ s) val =
    let (v, n) = octal_digits count s (val * 8 + (c - b'0')) in
    if leb b'0' c && leb c b'7' then (v, n + 1) else (val, 0)

-- A hexadecimal digit.
unfoldable pub hex_digit : ℕ → Option ℕ
hex_digit c =
    if leb b'0' c && leb c b'9'
    then some (c - b'0')
    else if leb b'a' c && leb c b'f'
    then some (c - b'a' + 10)
    else if leb b'A' c && leb c b'F'
    then some (c - b'A' + 10)
    else none

-- What a digit, if it is one, adds to the value so far.
abbrev pub hex_next : Option ℕ → (ℕ → ℕ × ℕ) → ℕ → ℕ × ℕ
hex_next none rest val = (val, 0)
hex_next (some d) rest val = ((rest (val * 16 + d)).0, (rest (val * 16 + d)).1 + 1)

-- The loop over hexadecimal digits.
unfoldable pub hex_digits : ℕ → Bytes → ℕ → ℕ × ℕ
hex_digits zero s val = (val, 0)
hex_digits (suc count) [] val = (val, 0)
hex_digits (suc count) (c ∷ s) val = hex_next (hex_digit c) (λ v. hex_digits count s v) val

-- One escape: what is written, the bytes behind the backslash that it takes, and whether it halts.
pub record Escape : Type 0 where
  pub text : Bytes
  pub used : ℕ
  pub halts : Bool

abbrev pub write : ℕ → ℕ → Escape
write c used = record { text = c ∷ []; used = used; halts = false }

-- The byte that a letter stands for.
unfoldable pub letter : ℕ → Option ℕ
letter c =
    if c == b'n'
    then some 10
    else if c == b't'
    then some 9
    else if c == b'r'
    then some 13
    else if c == 92
    then some 92
    else if c == b'a'
    then some 7
    else if c == b'b'
    then some 8
    else if c == b'f'
    then some 12
    else if c == b'v'
    then some 11
    else none

-- The other cases of the switch, for a byte `c` with `s` behind it.
unfoldable pub coded : ℕ → Bytes → Escape
coded c s =
    if c == b'0'
    then write ((octal_digits 3 s 0).0 % 256) ((octal_digits 3 s 0).1 + 1)
    else if leb b'1' c && leb c b'7'
    then write ((octal_digits 3 (c ∷ s) 0).0 % 256) (octal_digits 3 (c ∷ s) 0).1
    else if c == b'x'
    then write ((hex_digits 2 s 0).0 % 256) ((hex_digits 2 s 0).1 + 1)
    else if c == b'c'
    then record { text = []; used = 0; halts = true }
    else write 92 0

unfoldable pub escape_of : Option ℕ → ℕ → Bytes → Escape
escape_of (some b) c s = write b 1
escape_of none c s = coded c s

-- The switch on the byte behind a backslash; a backslash at the end stands for itself.
unfoldable pub escape : Bytes → Escape
escape [] = write 92 0
escape (c ∷ s) = escape_of (letter c) c s

-- The loop of `processEscapes`; `skip` counts the bytes that an escape has taken.
unfoldable pub process : Bytes → ℕ → Bytes × Bool
process [] skip = ([], false)
process (c ∷ s) (suc skip) = process s skip
process (c ∷ s) zero =
    let e = if c == 92 then escape s else write c 0 in
    let rest = process s e.used in if e.halts then ([], true) else (e.text ++ rest.0, rest.1)

-- `processEscapes`.
unfoldable pub process_escapes : Bytes → Bytes × Bool
process_escapes s = process s 0

-- `Run`.
unfoldable pub run : List Bytes → Stdio → Stdio × ℕ
run args s =
    let (f, rest) = parse_flags args (record { no_newline = false; enable_escapes = false }) in
    let text = join rest (codes " ") in
    let (output, halt) = if f.enable_escapes then process_escapes text else (text, false) in
    (if f.no_newline || halt then print output s else println output s, exit_success)

process_runs :
    (process_escapes (codes "a\\tb\\x41\\0101\\1017\\q\\") ≡ (codes "a\tbAAA7\\q\\", false))
    × (process_escapes (codes "ab\\cde") ≡ (codes "ab", true))
unfolding process_escapes process escape escape_of letter coded octal_digits hex_digits hex_digit
process_runs = (refl, refl)
