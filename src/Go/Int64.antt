-- ===== src/Go/Int64.antt =====
-- Go's `int64` as its bit pattern, a number below 2 ^ 64, and `strconv.ParseInt` with base 0.
pub mod Parse
pub mod Decimals
use Prim.Native.Nat.{bit_and, bit_or, bit_xor}
use go_busybox.Prelude.{
  ℕ, ◌+◌, ◌-◌, ◌*◌, ◌/◌, ◌%◌, ◌^◌, ◌≡◌, refl, Bool, true, false, not, Bytes, codes, ltb, leb,
  if◌then◌else◌,
}
use go_busybox.Go.Int.{ℤ, pos, negsuc, itoa}

abbrev pub modulus : ℕ
modulus = 2 ^ 64

-- The smallest int64, and the first pattern of a negative number.
abbrev pub half : ℕ
half = 2 ^ 63

-- The integer that a pattern stands for.
abbrev pub signed : ℕ → ℤ
signed w = if ltb w half then pos w else negsuc (modulus - w - 1)

abbrev pub word : ℤ → ℕ
word (pos n) = n % modulus
word (negsuc n) = (modulus - 1 - n % modulus)

-- `strconv.FormatInt(v, 10)`.
unfoldable pub format_int : ℕ → Bytes
unfolding itoa
format_int w = itoa (signed w)

unfoldable pub add : ℕ → ℕ → ℕ
add a b = (a + b) % modulus

unfoldable pub sub : ℕ → ℕ → ℕ
sub a b = (a + modulus - b) % modulus

unfoldable pub mul : ℕ → ℕ → ℕ
mul a b = a * b % modulus

-- `-a` and `^a`.
unfoldable pub minus : ℕ → ℕ
minus a = (modulus - a) % modulus

unfoldable pub complement : ℕ → ℕ
complement a = modulus - 1 - a

abbrev pub is_negative : ℕ → Bool
is_negative w = leb half w

abbrev pub magnitude : ℕ → ℕ
magnitude w = if ltb w half then w else modulus - w

-- The pattern of `n`, or of `-n`.
unfoldable pub with_sign : Bool → ℕ → ℕ
with_sign negative n = if negative then (modulus - n) % modulus else n

differ : Bool → Bool → Bool
differ true b = not b
differ false b = b

-- `a / b` and `a % b` round towards zero; the code divides by no zero.
unfoldable pub quotient : ℕ → ℕ → ℕ
unfolding with_sign differ
quotient a b =
    with_sign (differ (is_negative a) (is_negative b)) (magnitude a / magnitude b) % modulus

unfoldable pub remainder : ℕ → ℕ → ℕ
unfolding with_sign
remainder a b = with_sign (is_negative a) (magnitude a % magnitude b)

-- `a < b` of the integers.
unfoldable pub less : ℕ → ℕ → Bool
less a b = ltb ((a + half) % modulus) ((b + half) % modulus)

-- Shifts by a count that is not negative; `>>` keeps the sign.
unfoldable pub shift_left : ℕ → ℕ → ℕ
shift_left a n = if leb 64 n then 0 else a * 2 ^ n % modulus

unfoldable pub shift_down : ℕ → ℕ → ℕ
shift_down a n = if leb 64 n then 0 else a / 2 ^ n

unfoldable pub shift_right : ℕ → ℕ → ℕ
unfolding shift_down
shift_right a n =
    if is_negative a then modulus - 1 - shift_down (modulus - 1 - a) n else shift_down a n

unfoldable pub and_bits : ℕ → ℕ → ℕ
and_bits a b = bit_and a b % modulus

unfoldable pub or_bits : ℕ → ℕ → ℕ
or_bits a b = bit_or a b % modulus

unfoldable pub xor_bits : ℕ → ℕ → ℕ
xor_bits a b = bit_xor a b % modulus

operations_run :
    (format_int (sub 2 5) ≡ codes "-3")
    × (format_int (quotient (minus 7) 2) ≡ codes "-3")
    × (format_int (remainder (minus 7) 2) ≡ codes "-1")
    × (quotient half (minus 1) ≡ half)
    × (less (minus 1) 0 ≡ true)
    × (shift_right (minus 5) 1 ≡ minus 3)
    × (format_int (shift_left 1 63) ≡ codes "-9223372036854775808")
unfolding format_int sub quotient minus remainder less shift_right shift_left
operations_run = (refl, refl, refl, refl, refl, refl, refl)
