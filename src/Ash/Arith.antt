-- ===== src/Ash/Arith.antt =====
-- `parseArithExpr` of applets/ash/ash.go with the functions below it. An int64 is its bit pattern;
-- the package's error variable `arithErr` is a state that the calls hand on.
use go_busybox.Prelude.{
  ℕ, zero, suc, ◌+◌, ◌-◌, ◌/◌, ◌%◌, Bool, not, ◌&&◌, ◌||◌, Option, none, some, List, [], ◌∷◌, Bytes,
  ltb, leb, ◌==◌, if◌then◌else◌,
}
use go_busybox.Go.Int.{pos, negsuc, atoi}
use go_busybox.Go.Int64.{
  is_negative, add, sub, mul, quotient, remainder, less, shift_left, shift_right, and_bits, or_bits,
  xor_bits,
}
use go_busybox.Go.Strings.{split_2}
use go_busybox.Go.Utf8.{runes}

pub data ArithError : Type 0 where
  syntax_error : ArithError
  malformed_ternary : ArithError
  divide_by_zero : ArithError

-- A call returns a word and leaves `arithErr`, or panics, or has not ended on its fuel.
pub data Outcome : Type 0 where
  value : ℕ → Option ArithError → Outcome
  panic : Outcome
  out_of_fuel : Outcome

unfoldable pub and_then : Outcome → (ℕ → Option ArithError → Outcome) → Outcome
and_then (value v e) k = k v e
and_then panic k = panic
and_then out_of_fuel k = out_of_fuel

-- The first error stays.
unfoldable pub set_error : ArithError → Option ArithError → Option ArithError
set_error x none = some x
set_error x (some e) = some e

unfoldable pub digit_value : ℕ → ℕ → Option ℕ
digit_value c base =
    if leb b'0' c && leb c b'9'
    then some (c - b'0')
    else if leb base 36 && leb b'A' c && leb c b'Z'
    then some (c - b'A' + 10)
    else if leb b'a' c && leb c b'z'
    then some (c - b'a' + 10)
    else if leb b'A' c && leb c b'Z'
    then some (c - b'A' + 36)
    else if c == b'@'
    then some 62
    else if c == b'_'
    then some 63
    else none

-- The loop over the digits; a digit that the base lacks makes the number 0.
unfoldable pub base_digits : ℕ → List ℕ → ℕ → ℕ
base_digits base [] v = v
base_digits base (c ∷ s) v =
    let next = λ (d : ℕ). base_digits base s (add (mul v base) d) in
    elim (digit_value c base) [ none ↦ 0 | some d ↦ if ltb d base then next d else 0 ]

unfoldable pub based : Option ℕ → Bytes → ℕ
unfolding base_digits digit_value add mul
based none s = 0
based (some base) s = if leb 2 base && leb base 64 then base_digits base (runes s) 0 else 0

-- A base that `Atoi` reads as a number that is not negative.
unfoldable pub base_number : Bytes → Option ℕ
unfolding atoi
base_number s = elim (atoi s) [ none ↦ none | some (pos n) ↦ some n | some (negsuc n) ↦ none ]

unfoldable pub base_parts : Bytes × Option Bytes → Option ℕ
unfolding based base_number
base_parts (s, none) = none
base_parts (s, some digits) = some (based (base_number s) digits)

-- `parseBaseNumber`: BASE#DIGITS; `none` is its `false`.
unfoldable pub parse_base_number : Bytes → Option ℕ
unfolding base_parts split_2 runes
parse_base_number s = base_parts (split_2 s b'#')

-- The loop of `powInt`; an exponent that is not 0 is halved.
unfoldable pub pow_loop : ℕ → ℕ → ℕ → ℕ → Option ℕ
unfolding mul
pow_loop zero base exp result = none
pow_loop (suc f) base exp result =
    let rest =
      pow_loop f (mul base base) (exp / 2) (if exp % 2 == 1 then mul result base else result) in
    if exp == 0 then some result else rest

-- `powInt`: 64 halvings end.
unfoldable pub pow_int : ℕ → ℕ → Option ℕ
unfolding pow_loop
pow_int base exp = if is_negative exp then some 0 else pow_loop 64 base exp 1

pub data BinOp : Type 0 where
  log_or : BinOp
  log_and : BinOp
  bit_or : BinOp
  bit_xor : BinOp
  bit_and : BinOp
  eq : BinOp
  ne : BinOp
  le : BinOp
  ge : BinOp
  lt : BinOp
  gt : BinOp
  shl : BinOp
  shr : BinOp
  plus : BinOp
  less_by : BinOp
  times : BinOp
  over : BinOp
  modulo : BinOp
  power : BinOp

unfoldable pub symbol : BinOp → Bytes
symbol log_or = b'|' ∷ b'|' ∷ []
symbol log_and = b'&' ∷ b'&' ∷ []
symbol bit_or = b'|' ∷ []
symbol bit_xor = b'^' ∷ []
symbol bit_and = b'&' ∷ []
symbol eq = b'=' ∷ b'=' ∷ []
symbol ne = b'!' ∷ b'=' ∷ []
symbol le = b'<' ∷ b'=' ∷ []
symbol ge = b'>' ∷ b'=' ∷ []
symbol lt = b'<' ∷ []
symbol gt = b'>' ∷ []
symbol shl = b'<' ∷ b'<' ∷ []
symbol shr = b'>' ∷ b'>' ∷ []
symbol plus = b'+' ∷ []
symbol less_by = b'-' ∷ []
symbol times = b'*' ∷ []
symbol over = b'/' ∷ []
symbol modulo = b'%' ∷ []
symbol power = b'*' ∷ b'*' ∷ []

abbrev pub truth : Bool → ℕ
truth b = if b then 1 else 0

unfoldable pub divided : (ℕ → ℕ → ℕ) → ℕ → ℕ → Option ArithError → Outcome
unfolding set_error
divided f a b e = if b == 0 then value 0 (set_error divide_by_zero e) else value (f a b) e

-- A negative count of places is a run-time panic of Go.
unfoldable pub shifted : (ℕ → ℕ → ℕ) → ℕ → ℕ → Option ArithError → Outcome
shifted f a b e = if is_negative b then panic else value (f a b) e

unfoldable pub powered : Option ℕ → Option ArithError → Outcome
powered none e = out_of_fuel
powered (some v) e = value v e

-- The operation on the values of both sides.
unfoldable pub apply : BinOp → ℕ → ℕ → Option ArithError → Outcome
unfolding divided shifted powered pow_int add sub mul quotient remainder less shift_left shift_right
    and_bits or_bits xor_bits
apply log_or a b e = value (truth (not (a == 0) || not (b == 0))) e
apply log_and a b e = value (truth (not (a == 0) && not (b == 0))) e
apply bit_or a b e = value (or_bits a b) e
apply bit_xor a b e = value (xor_bits a b) e
apply bit_and a b e = value (and_bits a b) e
apply eq a b e = value (truth (a == b)) e
apply ne a b e = value (truth (not (a == b))) e
apply le a b e = value (truth (not (less b a))) e
apply ge a b e = value (truth (not (less a b))) e
apply lt a b e = value (truth (less a b)) e
apply gt a b e = value (truth (less b a)) e
apply shl a b e = shifted shift_left a b e
apply shr a b e = shifted shift_right a b e
apply plus a b e = value (add a b) e
apply less_by a b e = value (sub a b) e
apply times a b e = value (mul a b) e
apply over a b e = divided quotient a b e
apply modulo a b e = divided remainder a b e
apply power a b e = powered (pow_int a b) e
