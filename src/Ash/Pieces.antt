-- ===== src/Ash/Pieces.antt =====
-- The pieces into which applets/ash/ash.go takes an arithmetic expression apart to put the values of
-- variables in: `handlePostfixIncDec`, `expandSimpleVarsArith` and `expandBareVars`.
use go_busybox.Prelude.{
  ℕ, zero, suc, ◌+◌, ◌-◌, ◌≡◌, refl, Bool, true, false, not, ◌&&◌, ◌||◌, List, [], ◌∷◌, Bytes,
  codes, leb, ◌==◌, if◌then◌else◌, take, drop,
}
use go_busybox.Go.Utf8.{is_space}
use go_busybox.Ash.Guards.{is_digit, is_letter, is_word}
use go_busybox.Ash.Assignments.{Unicode, is_letter_rune, is_digit_rune}

-- A text that is copied; a variable's value, `bare` where it counts as 0 if it is not set; `++` or
-- (for false) `--` before or behind a name; the process's number.
pub data Piece : Type 0 where
  text : Bytes → Piece
  variable : Bytes → Piece
  bare : Bytes → Piece
  bump_before : Bool → Bytes → Piece
  bump_after : Bool → Bytes → Piece
  process_id : Piece

-- The number of bytes in front that pass a test.
unfoldable pub run : (ℕ → Bool) → Bytes → ℕ
run p [] = 0
run p (c ∷ s) = if p c then suc (run p s) else 0

abbrev pub is_start : ℕ → Bool
is_start c = is_letter c || c == b'_'

unfoldable pub starts_name : Bytes → Bool
starts_name [] = false
starts_name (c ∷ s) = is_start c

-- The text begins with `c` twice.
unfoldable pub twice : ℕ → Bytes → Bool
twice c (a ∷ b ∷ s) = a == c && b == c
twice c _ = false

-- A piece and the number of bytes that it takes.
abbrev pub Taken : Type 0
Taken = Piece × ℕ

-- `++NAME`, with white space between.
unfoldable pub bumped_name : Bool → ℕ → Bytes → Taken
unfolding starts_name run
bumped_name up c s =
    let rest = drop (run is_space s) s in
    let k = run is_word rest in
    if starts_name rest
    then (bump_before up (take k rest), 2 + run is_space s + k)
    else (text (c ∷ []), 1)

-- `NAME++`, with white space between.
unfoldable pub name_bumped : Bytes → Taken
unfolding run twice
name_bumped s =
    let k = run is_word s in
    let blanks = run is_space (drop k s) in
    let rest = drop blanks (drop k s) in
    if twice b'+' rest
    then (bump_after true (take k s), k + blanks + 2)
    else if twice b'-' rest
    then (bump_after false (take k s), k + blanks + 2)
    else (text (take k s), k)

unfoldable pub postfix_piece : ℕ → Bytes → Taken
unfolding bumped_name name_bumped twice
postfix_piece c s =
    if twice b'+' (c ∷ s)
    then bumped_name true c (drop 1 s)
    else if twice b'-' (c ∷ s)
    then bumped_name false c (drop 1 s)
    else if is_start c
    then name_bumped (c ∷ s)
    else (text (c ∷ []), 1)

is_name_byte : Unicode → ℕ → Bool
unfolding is_letter_rune is_digit_rune
is_name_byte u c = is_letter_rune u c || is_digit_rune u c || c == b'_'

holds_byte : ℕ → Bytes → Bool
holds_byte b [] = false
holds_byte b (c ∷ s) = c == b || holds_byte b s

-- `$NAME`; a dollar with no name behind it stays.
dollar_name : Unicode → Bytes → Taken
unfolding run is_name_byte
dollar_name u s =
    let k = run (is_name_byte u) s in
    if k == 0 then (text (codes "$"), 1) else (variable (take k s), 1 + k)

abbrev is_open_name : ℕ → Bool
is_open_name c = not (c == b'}')

-- `${NAME}`.
braced_name : Unicode → Bytes → Taken
unfolding run holds_byte dollar_name
braced_name u s =
    let k = run is_open_name (drop 1 s) in
    if holds_byte b'}' (drop 1 s) then (variable (take k (drop 1 s)), k + 3) else dollar_name u s

behind_dollar : Unicode → Bytes → Taken
unfolding braced_name dollar_name
behind_dollar u [] = (text (codes "$"), 1)
behind_dollar u (d ∷ s) =
    if d == b'$'
    then (process_id, 2)
    else if d == b'(' || d == b'`'
    then (text (codes "$"), 1)
    else if d == b'{'
    then braced_name u (d ∷ s)
    else dollar_name u (d ∷ s)

unfoldable pub dollar_piece : Unicode → ℕ → Bytes → Taken
unfolding behind_dollar
dollar_piece u c s = if c == b'$' then behind_dollar u s else (text (c ∷ []), 1)

is_hex : ℕ → Bool
is_hex c = is_digit c || (leb b'a' c && leb c b'f') || (leb b'A' c && leb c b'F')

is_based : ℕ → Bool
is_based c = is_word c || c == b'@'

-- What follows the digits of a number: a hexadecimal or a based one goes on.
unfoldable pub digits_end : Bool → Bytes → ℕ
unfolding run is_hex is_based
digits_end zero_first [] = 0
digits_end zero_first (c ∷ s) =
    if (c == b'x' || c == b'X') && zero_first
    then 1 + run is_hex s
    else if c == b'#'
    then 1 + run is_based s
    else 0

unfoldable pub number_length : ℕ → Bytes → ℕ
unfolding run digits_end
number_length c s = 1 + run is_digit s + digits_end (c == b'0') (drop (run is_digit s) s)

unfoldable pub bare_piece : ℕ → Bytes → Taken
unfolding number_length run
bare_piece c s =
    if is_digit c
    then (text (take (number_length c s) (c ∷ s)), number_length c s)
    else if is_start c
    then (bare (take (run is_word (c ∷ s)) (c ∷ s)), run is_word (c ∷ s))
    else (text (c ∷ []), 1)

-- The pieces in order; `skip` counts the bytes of a piece that are still to be passed over.
unfoldable pub pieces : (ℕ → Bytes → Taken) → Bytes → ℕ → List Piece
pieces piece [] skip = []
pieces piece (c ∷ s) (suc skip) = pieces piece s skip
pieces piece (c ∷ s) zero = (piece c s).0 ∷ pieces piece s ((piece c s).1 - 1)

abbrev ascii : Unicode
ascii = record { letter_above = λ r. false; digit_above = λ r. false }

pieces_run :
    (pieces postfix_piece (codes "x ++ -- y") 0
      ≡ bump_after true (codes "x") ∷ text (codes " ") ∷ bump_before false (codes "y") ∷ [])
    × (pieces (dollar_piece ascii) (codes "$$+${a}$b-") 0
        ≡ process_id
          ∷ text (codes "+")
          ∷ variable (codes "a")
          ∷ variable (codes "b")
          ∷ text (codes "-")
          ∷ [])
    × (pieces bare_piece (codes "0xfg+16#z@") 0
        ≡ text (codes "0xf") ∷ bare (codes "g") ∷ text (codes "+") ∷ text (codes "16#z@") ∷ [])
unfolding pieces postfix_piece dollar_piece bare_piece is_space
pieces_run = (refl, refl, refl)
