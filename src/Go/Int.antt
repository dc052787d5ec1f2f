-- ===== src/Go/Int.antt =====
-- Go's `int`, as an integer, and `strconv.Atoi` and `Itoa` (64 bits).
pub mod Decimal
use go_busybox.Prelude.{
  ℕ, zero, suc, ◌+◌, ◌-◌, ◌*◌, ◌/◌, ◌%◌, ◌^◌, ◌≡◌, refl, Bool, true, false, ◌&&◌, ◌||◌, Option,
  none, some, List, [], ◌∷◌, ◌++◌, Bytes, codes, ltb, leb, ◌==◌, if◌then◌else◌,
}

-- `negsuc n` is -(n + 1).
pub data ℤ : Type 0 where
  pos : ℕ → ℤ
  negsuc : ℕ → ℤ

-- -n, for a natural number n.
abbrev pub neg : ℕ → ℤ
neg zero = pos 0
neg (suc n) = negsuc n

-- n > 0, and n itself where that holds.
abbrev pub positive : ℤ → Option ℕ
positive (pos zero) = none
positive (pos (suc n)) = some (suc n)
positive (negsuc n) = none

abbrev pub is_digit : ℕ → Bool
is_digit c = leb b'0' c && leb c b'9'

-- The number that decimal digits spell behind `n`, with no bound.
unfoldable pub digits_value : ℕ → Bytes → Option ℕ
digits_value n [] = some n
digits_value n (c ∷ s) =
    let rest = digits_value (n * 10 + (c - b'0')) s in if is_digit c then rest else none

-- One or more digits.
unfoldable pub natural : Bytes → Option ℕ
unfolding digits_value
natural [] = none
natural (c ∷ s) = digits_value 0 (c ∷ s)

in_range_pos : Option ℕ → Option ℤ
in_range_pos none = none
in_range_pos (some n) = if ltb n (2 ^ 63) then some (pos n) else none

in_range_neg : Option ℕ → Option ℤ
in_range_neg none = none
in_range_neg (some n) = if leb n (2 ^ 63) then some (neg n) else none

-- `strconv.Atoi`: an optional sign and digits, in the range of an int64. `none` is its error.
unfoldable pub atoi : Bytes → Option ℤ
unfolding natural in_range_pos in_range_neg
atoi [] = none
atoi (c ∷ s) =
    if c == b'-'
    then in_range_neg (natural s)
    else if c == b'+'
    then in_range_pos (natural s)
    else in_range_pos (natural (c ∷ s))

-- The decimal digits of `n`; the fuel bounds their number.
decimal_loop : ℕ → ℕ → Bytes
decimal_loop zero n = []
decimal_loop (suc f) n =
    let front = decimal_loop f (n / 10) in
    if ltb n 10 then (b'0' + n) ∷ [] else front ++ (b'0' + n % 10) ∷ []

-- `strconv.Itoa` of a natural number.
unfoldable pub decimal : ℕ → Bytes
unfolding decimal_loop
decimal n = decimal_loop (n + 1) n

unfoldable pub itoa : ℤ → Bytes
unfolding decimal
itoa (pos n) = decimal n
itoa (negsuc n) = b'-' ∷ decimal (n + 1)

atoi_runs :
    (atoi (codes "42") ≡ some (pos 42))
    × (atoi (codes "-7") ≡ some (negsuc 6))
    × (atoi (codes "+0") ≡ some (pos 0))
    × (atoi (codes "9223372036854775808") ≡ none)
    × (atoi (codes "4x") ≡ none)
    × (atoi (codes "-") ≡ none)
unfolding atoi
atoi_runs = (refl, refl, refl, refl, refl, refl)
