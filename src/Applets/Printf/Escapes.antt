-- ===== src/Applets/Printf/Escapes.antt =====
-- `parseBackslashEscape`, `parseBEscape` and `expandBEscapes` of applets/printf/printf.go, on the text
-- behind the backslash. The loops over digits are those of applets/echo/echo.go.
use go_busybox.Prelude.{
  ℕ, zero, suc, ◌+◌, ◌≡◌, refl, Option, none, some, [], ◌∷◌, ◌++◌, Bytes, codes, ◌==◌,
  if◌then◌else◌, take,
}
use go_busybox.Applets.Echo.{octal_digits, hex_digits, hex_digit, letter}
use go_busybox.Go.Utf8.{encode_rune}

-- What an escape means: a rune, the end of all output, or nothing; with the number of bytes behind the
-- backslash that it takes.
pub data Escape : Type 0 where
  rune : ℕ → ℕ → Escape
  stop : Escape
  unknown : ℕ → Escape

-- `\0` and `\x` with the digits behind them.
unfoldable pub octal : Bytes → Escape
unfolding octal_digits
octal s = rune (octal_digits 3 s 0).0 ((octal_digits 3 s 0).1 + 1)

unfoldable pub hexadecimal : Bytes → Escape → Escape
unfolding hex_digits hex_digit
hexadecimal s otherwise =
    if (hex_digits 2 s 0).1 == 0
    then otherwise
    else rune (hex_digits 2 s 0).0 ((hex_digits 2 s 0).1 + 1)

-- The cases that both switches share, up to what `\x` is without a digit and the default.
unfoldable pub switch : Option ℕ → ℕ → Bytes → Escape → Escape → Escape
unfolding octal hexadecimal
switch (some b) c s no_digit otherwise = rune b 1
switch none c s no_digit otherwise =
    if c == b'c'
    then stop
    else if c == b'0'
    then octal s
    else if c == b'x'
    then hexadecimal s no_digit
    else otherwise

-- `parseBackslashEscape`.
unfoldable pub backslash_escape : Bytes → Escape
unfolding switch letter
backslash_escape [] = rune 92 0
backslash_escape (c ∷ s) = switch (letter c) c s (rune b'x' 1) (rune c 1)

-- `parseBEscape`.
unfoldable pub b_escape : Bytes → Escape
unfolding switch letter
b_escape [] = rune 92 0
b_escape (c ∷ s) = switch (letter c) c s (unknown 1) (unknown 1)

-- What an escape writes, before the rest of the text.
unfoldable pub written : Escape → Bytes → (ℕ → Bytes) → Bytes
unfolding encode_rune
written (rune r used) s rest = encode_rune r ++ rest used
written stop s rest = []
written (unknown used) s rest = (92 ∷ take 1 s) ++ rest used

-- The loop of `expandBEscapes`; `skip` counts the bytes that an escape has taken.
unfoldable pub expand_loop : Bytes → ℕ → Bytes
unfolding b_escape written
expand_loop [] skip = []
expand_loop (c ∷ s) (suc skip) = expand_loop s skip
expand_loop (c ∷ s) zero =
    let expanded = written (b_escape s) s (λ used. expand_loop s used) in
    if c == 92 then expanded else c ∷ expand_loop s 0

-- `expandBEscapes`.
unfoldable pub expand_b_escapes : Bytes → Bytes
unfolding expand_loop
expand_b_escapes s = expand_loop s 0

expand_runs :
    (expand_b_escapes (codes "a\\tb\\q\\x41\\0101\\") ≡ codes "a\tb\\qAA\\")
    × (expand_b_escapes (codes "a\\cb") ≡ codes "a")
    × (expand_b_escapes (codes "\\xzz") ≡ codes "\\xzz")
unfolding expand_b_escapes
expand_runs = (refl, refl, refl)
