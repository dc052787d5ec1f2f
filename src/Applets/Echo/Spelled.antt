-- ===== src/Applets/Echo/Spelled.antt =====
-- `processEscapes` against a grammar of escapes.
use go_busybox.Prelude.{
  ℕ, ◌+◌, ◌-◌, ◌*◌, ◌/◌, ◌%◌, ◌≤◌, ◌<◌, ◌≡◌, refl, ap, ◌∙◌, ◌≢◌, Bool, true, false, none, some,
  List, [], ◌∷◌, ◌++◌, map, append-nil, arith, Bytes, codes, ltb, leb, ◌==◌, if◌then◌else◌, All,
}
use go_busybox.Core.{Stdio, print, println, exit_success}
use go_busybox.Go.Strings.{join}
use go_busybox.Go.Utf8.{runes}
use go_busybox.Applets.Echo.{
  Flags, is_flags, parse_flags, run, write, octal_digits, hex_digit, hex_digits, letter, coded,
  escape_of, escape, process, process_escapes,
}

-- One byte as it is written: as itself, behind a backslash as a letter (with the byte it stands for),
-- as three octal digits behind a zero or behind the backslash alone, or as two hexadecimal digits.
pub data Piece : Type 0 where
  literal : ℕ → Piece
  named : ℕ → ℕ → Piece
  octal : ℕ → Piece
  short_octal : ℕ → Piece
  hex : ℕ → Piece

abbrev pub octal_text : ℕ → Bytes
octal_text b = (b'0' + b / 64) ∷ (b'0' + b / 8 % 8) ∷ (b'0' + b % 8) ∷ []

abbrev pub hex_text : ℕ → ℕ
hex_text d = if ltb d 10 then b'0' + d else b'a' + (d - 10)

abbrev pub spell : Piece → Bytes
spell (literal c) = c ∷ []
spell (named c b) = 92 ∷ c ∷ []
spell (octal b) = 92 ∷ b'0' ∷ octal_text b
spell (short_octal b) = 92 ∷ octal_text b
spell (hex b) = 92 ∷ b'x' ∷ hex_text (b / 16) ∷ hex_text (b % 16) ∷ []

abbrev pub meaning : Piece → ℕ
meaning (literal c) = c
meaning (named c b) = b
meaning (octal b) = b
meaning (short_octal b) = b
meaning (hex b) = b

-- A literal is no backslash, a letter has a meaning, and the short octal form begins with no zero.
abbrev pub IsPiece : Piece → Type 0
IsPiece (literal c) = c ≢ 92
IsPiece (named c b) = letter c ≡ some b
IsPiece (octal b) = b < 256
IsPiece (short_octal b) = (64 ≤ b) × (b < 256)
IsPiece (hex b) = b < 256

abbrev pub spelled : List Piece → Bytes → Bytes
spelled [] rest = rest
spelled (p ∷ ps) rest = spell p ++ spelled ps rest

-- Bytes before a result.
abbrev pub before : List ℕ → Bytes × Bool → Bytes × Bool
before bs r = (bs ++ r.0, r.1)

octal_digits-text : (b : ℕ) (s : Bytes) → b < 256 → octal_digits 3 (octal_text b ++ s) 0 ≡ (b, 3)
unfolding octal_digits
octal_digits-text b s h = ground arith

hex_digit-text : (d : ℕ) → d < 16 → hex_digit (hex_text d) ≡ some d
unfolding hex_digit
hex_digit-text d h = ground arith

hex_digits-text :
    (b : ℕ) (s : Bytes)
    → b < 256
    → hex_digits 2 (hex_text (b / 16) ∷ hex_text (b % 16) ∷ s) 0 ≡ (b, 2)
unfolding hex_digits
hex_digits-text b s h =
    let e' : (0 * 16 + b / 16) * 16 + b % 16 ≡ b = omega arith in
    rw (hex_digit-text (b / 16) (omega arith))
      (rw (hex_digit-text (b % 16) (omega arith)) (ap (λ v. (v, 2)) e'))

escape-octal : (b : ℕ) (s : Bytes) → b < 256 → escape (b'0' ∷ octal_text b ++ s) ≡ write b 4
unfolding escape escape_of letter coded
escape-octal b s h =
    let e : b % 256 ≡ b = omega arith in rw (octal_digits-text b s h) (ap (λ v. write v 4) e)

escape-short_octal : (b : ℕ) (s : Bytes) → 64 ≤ b → b < 256 → escape (octal_text b ++ s) ≡ write b 3
unfolding escape escape_of
escape-short_octal b s low h =
    let none_named : letter (b'0' + b / 64) ≡ none = unfold letter in ground arith in
    let e : b % 256 ≡ b = omega arith in
    let c0 : (b'0' + b / 64 == b'0') ≡ false = ground arith in
    let c1 : leb b'1' (b'0' + b / 64) ≡ true = ground arith in
    let c7 : leb (b'0' + b / 64) b'7' ≡ true = ground arith in
    rw none_named
      (unfold coded in rw c0 (rw c1 (rw c7 (rw (octal_digits-text b s h) (ap (λ v. write v 3) e)))))

escape-hex :
    (b : ℕ) (s : Bytes)
    → b < 256
    → escape (b'x' ∷ hex_text (b / 16) ∷ hex_text (b % 16) ∷ s) ≡ write b 3
unfolding escape escape_of letter coded
escape-hex b s h =
    let e : b % 256 ≡ b = omega arith in rw (hex_digits-text b s h) (ap (λ v. write v 3) e)

process-piece :
    (p : Piece) (s : Bytes)
    → IsPiece p
    → process (spell p ++ s) 0 ≡ before (meaning p ∷ []) (process s 0)
unfolding process
process-piece (literal c) s h = ground arith
process-piece (named c b) s h = unfold escape escape_of in rw h refl
process-piece (octal b) s h = rw (escape-octal b s h) refl
process-piece (short_octal b) s (low, h) = rw (escape-short_octal b s low h) refl
process-piece (hex b) s h = rw (escape-hex b s h) refl

process-spelled :
    (ps : List Piece) (rest : Bytes)
    → All IsPiece ps
    → process (spelled ps rest) 0 ≡ before (map meaning ps) (process rest 0)
process-spelled [] rest h = refl
process-spelled (p ∷ ps) rest (h, hs) =
    process-piece p (spelled ps rest) h ∙ ap (before (meaning p ∷ [])) (process-spelled ps rest hs)

-- A text of literals and escapes stands for the bytes that they mean; behind a halting escape, all
-- that follows is dropped and no newline is to be printed.
pub process_escapes-spelled :
    (ps : List Piece) (rest : Bytes)
    → All IsPiece ps
    → (process_escapes (spelled ps []) ≡ (map meaning ps, false))
      × (process_escapes (spelled ps (92 ∷ b'c' ∷ rest)) ≡ (map meaning ps, true))
unfolding process_escapes
process_escapes-spelled ps rest h = (
  process-spelled ps [] h ∙ unfold process in ap (λ t. (t, false)) (append-nil (map meaning ps)),
  process-spelled ps (92 ∷ b'c' ∷ rest) h
      ∙ unfold process escape escape_of letter coded in
        ap (λ t. (t, true)) (append-nil (map meaning ps)),
)

e_flags :
    (args : List Bytes) (f : Flags)
    → parse_flags (codes "-e" ∷ args) f ≡ parse_flags args (record f { enable_escapes = true })
unfolding parse_flags is_flags runes
e_flags args f = refl

no_flags :
    (arg : Bytes) (f : Flags) → is_flags arg ≡ false → parse_flags (arg ∷ []) f ≡ (f, arg ∷ [])
unfolding parse_flags
no_flags arg f h = rw h refl

-- `echo -e TEXT`, for a text of literals and escapes that is no flag, prints the bytes that they mean
-- and a newline; with a halting escape behind them it prints these bytes alone.
pub run-spelled :
    (ps : List Piece) (rest : Bytes) (s : Stdio)
    → All IsPiece ps
    → is_flags (spelled ps []) ≡ false
    → is_flags (spelled ps (92 ∷ b'c' ∷ rest)) ≡ false
    → (run (codes "-e" ∷ spelled ps [] ∷ []) s ≡ (println (map meaning ps) s, exit_success))
      × (run (codes "-e" ∷ spelled ps (92 ∷ b'c' ∷ rest) ∷ []) s
          ≡ (print (map meaning ps) s, exit_success))
run-spelled ps rest s h a b = (
  expanded (spelled ps []) false a (process_escapes-spelled ps rest h).0,
  expanded (spelled ps (92 ∷ b'c' ∷ rest)) true b (process_escapes-spelled ps rest h).1,
)
  where
    expanded :
        (t : Bytes) (halt : Bool)
        → is_flags t ≡ false
        → process_escapes t ≡ (map meaning ps, halt)
        → run (codes "-e" ∷ t ∷ []) s
          ≡ (if halt then print (map meaning ps) s else println (map meaning ps) s, exit_success)
    expanded t halt k e =
        unfold run join in
        let f : Flags = record { no_newline = false; enable_escapes = true } in
        rw (e_flags (t ∷ []) (record f { enable_escapes = false }))
          (rw (no_flags t f k) (rw e refl))
