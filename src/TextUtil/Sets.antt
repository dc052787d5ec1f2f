-- ===== src/TextUtil/Sets.antt =====
-- pkg/core/textutil/textutil.go: `ParseSet`, `posixClass` and `ComplementSet`, the sets of `tr`.
pub mod Grammar
pub mod Parse
pub mod Complement
use mathlib.Core.Option
use go_busybox.Prelude.{
  ◌>>=◌, ℕ, zero, suc, ◌+◌, ◌-◌, ◌≡◌, refl, Bool, ◌&&◌, Option, none, some, List, [], ◌∷◌, ◌++◌,
  map, Bytes, codes, ltb, ◌==◌, if◌then◌else◌, str_eq, length,
}
use go_busybox.Go.Utf8.{runes, encode}

-- `for i := lo; i <= hi; i++ { r = append(r, i) }`, with the rounds left.
unfoldable pub run_from : ℕ → ℕ → List ℕ
run_from zero i = []
run_from (suc n) i = i ∷ run_from n (i + 1)

unfoldable pub run : ℕ → ℕ → List ℕ
unfolding run_from
run lo hi = run_from (hi + 1 - lo) lo

-- `posixClass`; `none` is nil.
unfoldable pub posix_class : List ℕ → Option (List ℕ)
unfolding run
posix_class name =
    if str_eq name (codes "alnum")
    then some (run b'0' b'9' ++ (run b'A' b'Z' ++ run b'a' b'z'))
    else if str_eq name (codes "alpha")
    then some (run b'A' b'Z' ++ run b'a' b'z')
    else if str_eq name (codes "digit")
    then some (run b'0' b'9')
    else if str_eq name (codes "lower")
    then some (run b'a' b'z')
    else if str_eq name (codes "upper")
    then some (run b'A' b'Z')
    else if str_eq name (codes "space")
    then some (32 ∷ 9 ∷ 10 ∷ 13 ∷ 12 ∷ 11 ∷ [])
    else if str_eq name (codes "blank")
    then some (32 ∷ 9 ∷ [])
    else if str_eq name (codes "print")
    then some (run 32 126)
    else if str_eq name (codes "graph")
    then some (run 33 126)
    else if str_eq name (codes "cntrl")
    then some (run 0 31 ++ 127 ∷ [])
    else if str_eq name (codes "punct")
    then some (run 33 47 ++ (run 58 64 ++ (run 91 96 ++ run 123 126)))
    else if str_eq name (codes "xdigit")
    then some (run b'0' b'9' ++ (run b'A' b'F' ++ run b'a' b'f'))
    else none

-- The text before the first `:]`, if there is one.
unfoldable pub class_name : List ℕ → Option (List ℕ)
class_name [] = none
class_name (c ∷ []) = none
class_name (c ∷ d ∷ rs) =
    if c == b':' && d == b']' then some [] else Option.map (λ name. c ∷ name) (class_name (d ∷ rs))

-- A class that opens here: its characters, and the number of runes behind the `[`.
unfoldable pub class_at : List ℕ → Option (List ℕ × ℕ)
class_at [] = none
class_at (c ∷ []) = none
class_at (c ∷ d ∷ rs) =
    if c == b'[' && d == b':'
    then (do name ← class_name rs; chars ← posix_class name; some (chars, length name + 3))
    else none

-- What stands at a position: the characters that it adds, and the number of runes behind it that
-- belong to it. `none` is the error of a range in the wrong order.
unfoldable pub item_at : ℕ → List ℕ → Option (List ℕ × ℕ)
item_at c (d ∷ e ∷ rs) =
    if d == b'-' then (if ltb e c then none else some (run c e, 2)) else some (c ∷ [], 0)
item_at c rs = some (c ∷ [], 0)

unfoldable pub set_item : ℕ → List ℕ → Option (List ℕ × ℕ)
unfolding item_at
set_item c rs = elim (class_at (c ∷ rs)) [ some found ↦ some found | none ↦ item_at c rs ]

-- The loop of `ParseSet`; `skip` counts the runes that are passed over.
unfoldable pub parse_set_loop : List ℕ → ℕ → Option (List ℕ)
parse_set_loop [] skip = some []
parse_set_loop (c ∷ rs) (suc skip) = parse_set_loop rs skip
parse_set_loop (c ∷ rs) zero = do
  (chars, skip) ← set_item c rs
  rest ← parse_set_loop rs skip
  some (chars ++ rest)

-- `ParseSet`; `none` is its error.
unfoldable pub parse_set : Bytes → Option (List ℕ)
unfolding parse_set_loop set_item class_at
parse_set spec = parse_set_loop (runes spec) 0

-- `ComplementSet`, with the set as a test.
unfoldable pub complement_from : ℕ → ℕ → (ℕ → Bool) → List ℕ
complement_from zero i inside = []
complement_from (suc n) i inside =
    let rest = complement_from n (i + 1) inside in if inside i then rest else i ∷ rest

unfoldable pub complement_set : (ℕ → Bool) → List ℕ
unfolding complement_from
complement_set inside = complement_from 256 0 inside

parse_set_runs :
    (parse_set (codes "a-cx") ≡ some (codes "abcx"))
    × (parse_set (codes "[:digit:]_") ≡ some (codes "0123456789_"))
    × (parse_set (codes "[:odd:]") ≡ some (codes "[:odd:]"))
    × (parse_set (codes "z-a") ≡ none)
    × (parse_set (codes "a-") ≡ some (codes "a-"))
    × (parse_set (codes "\\n") ≡ some (codes "\\n"))
unfolding parse_set posix_class class_name item_at runes str_eq
parse_set_runs = (refl, refl, refl, refl, refl, refl)
