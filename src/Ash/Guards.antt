-- ===== src/Ash/Guards.antt =====
-- The tests of applets/ash/ash.go that an arithmetic expression passes before it is evaluated, and
-- the search for an assignment.
use go_busybox.Prelude.{
  ℕ, ◌+◌, ◌-◌, ◌≡◌, refl, Bool, true, false, not, ◌&&◌, ◌||◌, Option, none, some, List, [], ◌∷◌,
  Bytes, codes, leb, ◌==◌, if◌then◌else◌, str_eq,
}
use go_busybox.Go.Strings.{has_prefix}
use go_busybox.Go.Strings.Trim.{trim_space}
use go_busybox.Go.Utf8.{is_space}

-- The depth behind a byte; `none` for a parenthesis that closes nothing.
unfoldable pub depth_after : ℕ → ℕ → Option ℕ
depth_after depth c =
    if c == b'('
    then some (depth + 1)
    else if c == b')'
    then (if depth == 0 then none else some (depth - 1))
    else some depth

unfoldable pub unbalanced_from : ℕ → Bytes → Bool
unfolding depth_after
unbalanced_from depth [] = not (depth == 0)
unbalanced_from depth (c ∷ s) = elim (depth_after depth c) [
  | none ↦ true
  | some d ↦ unbalanced_from d s
]

unfoldable pub has_unbalanced_parens : Bytes → Bool
unfolding unbalanced_from
has_unbalanced_parens s = unbalanced_from 0 s

-- `strings.HasSuffix`.
unfoldable pub has_suffix : Bytes → Bytes → Bool
unfolding str_eq
has_suffix [] w = str_eq [] w
has_suffix (c ∷ s) w = str_eq (c ∷ s) w || has_suffix s w

abbrev pub trailing_operators : List Bytes
trailing_operators =
    codes "||"
    ∷ codes "&&"
    ∷ codes "<<"
    ∷ codes ">>"
    ∷ codes "+"
    ∷ codes "-"
    ∷ codes "*"
    ∷ codes "/"
    ∷ codes "%"
    ∷ codes "|"
    ∷ codes "&"
    ∷ codes "^"
    ∷ codes "="
    ∷ codes "?"
    ∷ codes ":"
    ∷ []

unfoldable pub ends_in_any : Bytes → List Bytes → Bool
unfolding has_suffix
ends_in_any s [] = false
ends_in_any s (w ∷ ws) = has_suffix s w || ends_in_any s ws

unfoldable pub has_trailing_operator : Bytes → Bool
unfolding ends_in_any trim_space
has_trailing_operator s = ends_in_any (trim_space s) trailing_operators

abbrev pub is_digit : ℕ → Bool
is_digit c = leb b'0' c && leb c b'9'

abbrev pub is_letter : ℕ → Bool
is_letter c = (leb b'a' c && leb c b'z') || (leb b'A' c && leb c b'Z')

-- A byte that begins an operand, and one that goes on with it.
abbrev pub is_word : ℕ → Bool
is_word c = is_digit c || is_letter c || c == b'_'

abbrev pub is_more : ℕ → Bool
is_more c = is_word c || c == b'#' || c == b'@'

-- The byte in a state that says whether an operand came last and whether it may go on here;
-- `none` says that operands are adjacent.
unfoldable pub adjacent_step : Bool → Bool → ℕ → Option (Bool × Bool)
adjacent_step prev inside c =
    if inside && is_more c
    then some (prev, true)
    else if is_space c
    then some (prev, false)
    else if c == b'('
    then (if prev then none else some (false, false))
    else if c == b')'
    then (if prev then some (true, false) else none)
    else if is_word c
    then (if prev then none else some (true, true))
    else some (false, false)

unfoldable pub adjacent_from : Bool → Bool → Bytes → Bool
unfolding adjacent_step is_space
adjacent_from prev inside [] = false
adjacent_from prev inside (c ∷ s) = elim (adjacent_step prev inside c) [
  | none ↦ true
  | some (prev', inside') ↦ adjacent_from prev' inside' s
]

unfoldable pub has_adjacent_operands : Bytes → Bool
unfolding adjacent_from
has_adjacent_operands s = adjacent_from false false s

-- `strings.Contains(expr, "\\$")`.
unfoldable pub has_escaped_dollar : Bytes → Bool
unfolding has_prefix
has_escaped_dollar [] = false
has_escaped_dollar (c ∷ s) = has_prefix (c ∷ s) (codes "\\$") || has_escaped_dollar s

guards_run :
    (has_unbalanced_parens (codes "(1))(") ≡ true)
    × (has_unbalanced_parens (codes "((1)+2)") ≡ false)
    × (has_trailing_operator (codes "1 << ") ≡ true)
    × (has_adjacent_operands (codes "1 x") ≡ true)
    × (has_adjacent_operands (codes "16#f@ + (x)") ≡ false)
    × (has_adjacent_operands (codes "2(3)") ≡ true)
    × (has_escaped_dollar (codes "1\\$x") ≡ true)
unfolding has_unbalanced_parens has_trailing_operator has_adjacent_operands has_escaped_dollar
guards_run = (refl, refl, refl, refl, refl, refl, refl)
