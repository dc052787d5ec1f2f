-- ===== src/Ash/Assignments.antt =====
-- Assignments in an arithmetic expression (applets/ash/ash.go): where one stands outside of all
-- parentheses.
use go_busybox.Prelude.{
  ℕ, zero, suc, ◌+◌, ◌-◌, ◌≡◌, refl, Bool, true, false, not, ◌&&◌, ◌||◌, Option, none, some, List,
  [], ◌∷◌, ◌++◌, Bytes, codes, ltb, leb, ◌==◌, if◌then◌else◌, length, drop, ◌>>=◌,
}
use mathlib.Core.Option
use go_busybox.Go.Strings.{has_prefix}
use go_busybox.Go.Strings.Trim.{trim_space}
use go_busybox.Go.Utf8.{runes}

-- `unicode.IsLetter` and `IsDigit` of the runes above 0xFF, which the library's tables give.
pub record Unicode : Type 0 where
  pub letter_above : ℕ → Bool
  pub digit_above : ℕ → Bool

abbrev between : ℕ → ℕ → ℕ → Bool
between lo c hi = leb lo c && leb c hi

unfoldable pub is_letter_rune : Unicode → ℕ → Bool
is_letter_rune u r =
    if ltb r 0x100
    then between b'a' r b'z'
      || between b'A' r b'Z'
      || r == 0xAA
      || r == 0xB5
      || r == 0xBA
      || between 0xC0 r 0xD6
      || between 0xD8 r 0xF6
      || between 0xF8 r 0xFF
    else u.letter_above r

unfoldable pub is_digit_rune : Unicode → ℕ → Bool
is_digit_rune u r = if ltb r 0x100 then between b'0' r b'9' else u.digit_above r

all_in_name : Unicode → List ℕ → Bool
unfolding is_letter_rune is_digit_rune
all_in_name u [] = true
all_in_name u (r ∷ rs) = (r == b'_' || is_letter_rune u r || is_digit_rune u r) && all_in_name u rs

name_of_runes : Unicode → List ℕ → Bool
unfolding all_in_name
name_of_runes u [] = false
name_of_runes u (r ∷ rs) = (r == b'_' || is_letter_rune u r) && all_in_name u rs

unfoldable pub is_name : Unicode → Bytes → Bool
unfolding name_of_runes runes
is_name u s = name_of_runes u (runes s)

pub data AssignOp : Type 0 where
  shl_assign : AssignOp
  shr_assign : AssignOp
  add_assign : AssignOp
  sub_assign : AssignOp
  mul_assign : AssignOp
  div_assign : AssignOp
  rem_assign : AssignOp
  and_assign : AssignOp
  or_assign : AssignOp
  xor_assign : AssignOp
  assign : AssignOp

abbrev assign_operators : List (AssignOp × Bytes)
assign_operators =
    (shl_assign, codes "<<=")
    ∷ (shr_assign, codes ">>=")
    ∷ (add_assign, codes "+=")
    ∷ (sub_assign, codes "-=")
    ∷ (mul_assign, codes "*=")
    ∷ (div_assign, codes "/=")
    ∷ (rem_assign, codes "%=")
    ∷ (and_assign, codes "&=")
    ∷ (or_assign, codes "|=")
    ∷ (xor_assign, codes "^=")
    ∷ []

-- A byte before which `=` belongs to a comparison.
compares : Option ℕ → Bool
compares none = false
compares (some c) = c == b'=' || c == b'!' || c == b'<' || c == b'>'

unfoldable pub is_plain_assign : Option ℕ → Bytes → Bool
unfolding compares has_prefix
is_plain_assign prev s =
    has_prefix s (codes "=") && not (compares prev || has_prefix s (codes "=="))

-- The first operator that begins here, with the text behind it.
unfoldable pub first_assign : List (AssignOp × Bytes) → Option ℕ → Bytes → Option (AssignOp × Bytes)
unfolding is_plain_assign has_prefix
first_assign [] prev s = if is_plain_assign prev s then some (assign, drop 1 s) else none
first_assign ((op, w) ∷ ops) prev s =
    if has_prefix s w then some (op, drop (length w) s) else first_assign ops prev s

unfoldable pub assignment_here : Option ℕ → Bytes → Option (AssignOp × Bytes)
unfolding first_assign
assignment_here prev s = first_assign assign_operators prev s

-- The depth behind a byte; what closes nothing is passed over.
unfoldable pub level_after : ℕ → ℕ → ℕ
level_after depth c = if c == b'(' then depth + 1 else if c == b')' then depth - 1 else depth

-- An assignment: its operator and the texts on both sides.
pub data Assignment : Type 0 where
  nothing : Assignment
  assigned : Bytes → AssignOp → Bytes → Assignment

unfoldable pub at_top : ℕ → Option (AssignOp × Bytes) → Option (AssignOp × Bytes)
at_top zero o = o
at_top (suc d) o = none

-- The first operator outside of all parentheses whose left side passes the test.
unfoldable pub search_assignment : (Bytes → Bool) → ℕ → Bytes → Option ℕ → Bytes → Assignment
unfolding assignment_here level_after at_top
search_assignment p depth before prev [] = nothing
search_assignment p depth before prev (c ∷ s) =
    let further = search_assignment p (level_after depth c) (before ++ c ∷ []) (some c) s in
    elim (at_top (level_after depth c) (assignment_here prev (c ∷ s))) [
      | none ↦ further
      | some (op, right) ↦
          if p (trim_space before) then assigned (trim_space before) op right else further
    ]

-- `evalAssignment` takes the first operator; `hasAssignmentAtTopLevel` passes over one without a
-- name on its left.
unfoldable pub find_assignment : Bytes → Assignment
unfolding search_assignment trim_space
find_assignment s = search_assignment (λ left. true) 0 [] none s

is_assigned : Assignment → Bool
is_assigned nothing = false
is_assigned (assigned left op right) = true

unfoldable pub has_assignment_at_top_level : Unicode → Bytes → Bool
unfolding is_assigned search_assignment trim_space is_name
has_assignment_at_top_level u s = is_assigned (search_assignment (is_name u) 0 [] none s)

-- The text before the first `b` outside of all parentheses, and the text behind it.
unfoldable pub split_top : ℕ → ℕ → Bytes → Option (Bytes × Bytes)
unfolding level_after
split_top b depth [] = none
split_top b depth (c ∷ s) =
    let further = Option.map (λ p. (c ∷ p.0, p.1)) (split_top b (level_after depth c) s) in
    if c == b && depth == 0 then some ([], s) else further

unfoldable pub ternary_assigns : Unicode → Option (Bytes × Bytes) → Bool
unfolding has_assignment_at_top_level
ternary_assigns u none = false
ternary_assigns u (some (then_part, else_part)) =
    has_assignment_at_top_level u then_part || has_assignment_at_top_level u else_part

unfoldable pub has_invalid_ternary_assignment : Unicode → Bytes → Bool
unfolding split_top ternary_assigns
has_invalid_ternary_assignment u s =
    ternary_assigns u (split_top b'?' 0 s >>= λ p. split_top b':' 0 p.1)

unfoldable pub has_logical : ℕ → Bytes → Bool
unfolding level_after has_prefix
has_logical depth [] = false
has_logical depth (c ∷ s) =
    (level_after depth c == 0
      && (has_prefix (c ∷ s) (codes "&&") || has_prefix (c ∷ s) (codes "||")))
    || has_logical (level_after depth c) s

unfoldable pub has_invalid_logical_assignment : Unicode → Bytes → Bool
unfolding has_logical has_assignment_at_top_level
has_invalid_logical_assignment u s = has_logical 0 s && has_assignment_at_top_level u s

abbrev no_unicode : Unicode
no_unicode = record { letter_above = λ r. false; digit_above = λ r. false }

assignments_run :
    (find_assignment (codes " x += 2") ≡ assigned (codes "x") add_assign (codes " 2"))
    × (find_assignment (codes "(x=2)") ≡ nothing)
    × (find_assignment (codes "1==2") ≡ nothing)
    × (find_assignment (codes "a<=b") ≡ nothing)
    × (find_assignment (codes "1+x=2") ≡ assigned (codes "1+x") assign (codes "2"))
    × (has_assignment_at_top_level no_unicode (codes "1+x=2") ≡ false)
    × (has_invalid_ternary_assignment no_unicode (codes "1?x=2:3") ≡ true)
    × (has_invalid_logical_assignment no_unicode (codes "x=1&&2") ≡ true)
unfolding find_assignment has_assignment_at_top_level has_invalid_ternary_assignment
    has_invalid_logical_assignment
assignments_run = (refl, refl, refl, refl, refl, refl, refl, refl)
