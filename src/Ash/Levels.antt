-- ===== src/Ash/Levels.antt =====
-- The operators of `parseArithExpr` (applets/ash/ash.go) from the loosest to the tightest, each
-- with the test by which its loop splits the text.
use go_busybox.Prelude.{
  ℕ, ◌≡◌, refl, Bool, true, false, not, ◌&&◌, ◌||◌, Option, none, some, List, [], ◌∷◌, Bytes, codes,
  ◌==◌, if◌then◌else◌, length, drop,
}
use go_busybox.Go.Strings.{has_prefix}
use go_busybox.Ash.Scan.{
  Verdict, miss, hit, bar, Test, Found, absent, barred, found, Direction, backward, forward, scan,
}
use go_busybox.Ash.Arith.{
  BinOp, log_or, log_and, bit_or, bit_xor, bit_and, eq, ne, le, ge, lt, gt, shl, shr, plus, less_by,
  times, over, modulo, power, symbol,
}

-- The byte in front, or behind the first one, is `w`.
is_prev : ℕ → Option ℕ → Bool
is_prev w none = false
is_prev w (some c) = c == w

is_next : ℕ → Bytes → Bool
is_next w (c ∷ d ∷ s) = d == w
is_next w _ = false

abbrev is_first : ℕ → Bytes → Bool
is_first w [] = false
is_first w (c ∷ s) = c == w

-- `idx > 0`.
behind : Option ℕ → Verdict
behind none = bar
behind (some c) = hit

-- `strings.LastIndex(expr, op) > 0`.
unfoldable pub word_test : Bytes → Test
unfolding has_prefix behind
word_test w prev s = if has_prefix s w then behind prev else miss

-- `|` and `&`, where the same byte does not stand in front.
unfoldable pub bit_test : ℕ → Test
unfolding is_prev
bit_test w prev s = if is_first w s && not (is_prev w prev) then hit else miss

unfoldable pub xor_test : Test
xor_test prev s = if is_first b'^' s then hit else miss

-- `<` and `>`, given up where the last one stands beside its like.
unfoldable pub angle_test : ℕ → Test
unfolding is_prev is_next behind
angle_test w prev s =
    if is_first w s then (if is_prev w prev || is_next w s then bar else behind prev) else miss

unfoldable pub shift_test : Test
unfolding has_prefix
shift_test prev s = if has_prefix s (codes "<<") || has_prefix s (codes ">>") then hit else miss

-- An operator stands in front, so that a sign follows; or nothing does.
is_sign_place : Option ℕ → Bool
is_sign_place none = true
is_sign_place (some c) = c == b'*' || c == b'/' || c == b'%' || c == b'+' || c == b'-'

unfoldable pub sum_test : Test
unfolding is_sign_place
sum_test prev s =
    if (is_first b'+' s || is_first b'-' s) && not (is_sign_place prev) then hit else miss

unfoldable pub product_test : Test
unfolding is_prev is_next
product_test prev s =
    if is_first b'*' s
    then (if is_next b'*' s || is_prev b'*' prev then miss else hit)
    else if is_first b'/' s || is_first b'%' s
    then hit
    else miss

unfoldable pub power_test : Test
unfolding has_prefix
power_test prev s = if has_prefix s (codes "**") then hit else miss

shift_name : Bytes → BinOp
shift_name s = if is_first b'<' s then shl else shr

sum_name : Bytes → BinOp
sum_name s = if is_first b'+' s then plus else less_by

product_name : Bytes → BinOp
product_name s = if is_first b'*' s then times else if is_first b'/' s then over else modulo

pub record Level : Type 0 where
  pub direction : Direction
  pub test : Test
  pub name : Bytes → BinOp

abbrev level : Direction → Test → (Bytes → BinOp) → Level
level d p n = record { direction = d; test = p; name = n }

abbrev word_level : BinOp → Level
word_level op = level backward (word_test (symbol op)) (λ s. op)

unfoldable pub levels : List Level
unfolding symbol word_test bit_test xor_test angle_test shift_test sum_test product_test power_test
    shift_name sum_name product_name
levels =
    word_level log_or
    ∷ word_level log_and
    ∷ level backward (bit_test b'|') (λ s. bit_or)
    ∷ level backward xor_test (λ s. bit_xor)
    ∷ level backward (bit_test b'&') (λ s. bit_and)
    ∷ word_level eq
    ∷ word_level ne
    ∷ word_level le
    ∷ word_level ge
    ∷ level backward (angle_test b'<') (λ s. lt)
    ∷ level backward (angle_test b'>') (λ s. gt)
    ∷ level backward shift_test shift_name
    ∷ level backward sum_test sum_name
    ∷ level backward product_test product_name
    ∷ level forward power_test (λ s. power)
    ∷ []

-- The texts on both sides of an operator.
pub data Split : Type 0 where
  whole : Split
  split : Bytes → BinOp → Bytes → Split

unfoldable pub named : (Bytes → BinOp) → Found → Split
unfolding symbol
named name absent = whole
named name barred = whole
named name (found l r) = split l (name r) (drop (length (symbol (name r))) r)

unfoldable pub split_level : Level → Bytes → Split
unfolding named scan
split_level v s = named v.name (scan v.direction v.test none s)

unfoldable pub or_else : Split → Split → Split
or_else whole t = t
or_else (split l op r) t = split l op r

unfoldable pub split_levels : List Level → Bytes → Split
unfolding split_level or_else
split_levels [] s = whole
split_levels (v ∷ vs) s = or_else (split_level v s) (split_levels vs s)

-- The operator at which the text is split, if there is one.
unfoldable pub find_binary : Bytes → Split
unfolding split_levels levels
find_binary s = split_levels levels s

find_binary_runs :
    (find_binary (codes "1+2*3") ≡ split (codes "1") plus (codes "2*3"))
    × (find_binary (codes "8-4-2") ≡ split (codes "8-4") less_by (codes "2"))
    × (find_binary (codes "2**3**2") ≡ split (codes "2") power (codes "3**2"))
    × (find_binary (codes "2--3") ≡ split (codes "2") less_by (codes "-3"))
    × (find_binary (codes "-3") ≡ whole)
    × (find_binary (codes "1<2<<3") ≡ split (codes "1<2") shl (codes "3"))
unfolding find_binary
find_binary_runs = (refl, refl, refl, refl, refl, refl)
