-- ===== src/TextUtil/Sets/Parse.antt =====
-- `ParseSet` against the grammar of sets: characters, ranges and classes.
use mathlib.Core.List.{flat_map}
use go_busybox.Prelude.{
  ℕ, ◌+◌, ◌≤◌, ◌≡◌, refl, sym, ap, ◌∙◌, ◌≢◌, Option, some, List, [], ◌∷◌, ◌++◌, append_assoc, arith,
  Bytes, length, length-append, All, ◌>>=◌,
}
use go_busybox.Go.Utf8.{runes}
use go_busybox.TextUtil.Sets.Grammar.{
  from_to, run-from_to, Class, name_of, members, posix_class-members, name_of-colon,
}
use go_busybox.TextUtil.Sets.{
  posix_class, run, class_name, class_at, item_at, set_item, parse_set_loop, parse_set,
}

-- One item of a set.
pub data Item : Type 0 where
  single : ℕ → Item
  span : ℕ → ℕ → Item
  class : Class → Item

abbrev pub print_item : Item → List ℕ
print_item (single c) = c ∷ []
print_item (span a b) = a ∷ b'-' ∷ b ∷ []
print_item (class k) = b'[' ∷ b':' ∷ (name_of k ++ b':' ∷ b']' ∷ [])

abbrev pub expand : Item → List ℕ
expand (single c) = c ∷ []
expand (span a b) = from_to a b
expand (class k) = members k

-- A dash or a bracket is not written as a single character, and no range begins with a dash.
abbrev pub IsItem : Item → Type 0
IsItem (single c) = (c ≢ b'-') × (c ≢ b'[')
IsItem (span a b) = (a ≢ b'-') × (a ≤ b)
IsItem (class k) = Unit {0}

-- The text does not go on with a dash.
abbrev NotDash : List ℕ → Type 0
NotDash [] = Unit {0}
NotDash (c ∷ rs) = c ≢ b'-'

print-NotDash : (items : List Item) → All IsItem items → NotDash (flat_map print_item items)
unfolding flat_map
print-NotDash [] h = tt
print-NotDash (single c ∷ items) (h, hs) = h.0
print-NotDash (span a b ∷ items) (h, hs) = h.0
print-NotDash (class k ∷ items) h = omega arith

set_item-single : (c : ℕ) (rs : List ℕ) → c ≢ b'[' → NotDash rs → set_item c rs ≡ some (c ∷ [], 0)
unfolding set_item class_at item_at
set_item-single c [] h n = refl
set_item-single c (d ∷ []) h n = ground arith
set_item-single c (d ∷ e ∷ rs) h n = ground arith

set_item-span : (a b : ℕ) (rs : List ℕ) → a ≤ b → set_item a (b'-' ∷ b ∷ rs) ≡ some (run a b, 2)
unfolding set_item class_at item_at
set_item-span a b rs h = ground arith

class_name-close :
    (name rs : List ℕ)
    → All (λ c. c ≢ b':') name
    → class_name (name ++ b':' ∷ b']' ∷ rs) ≡ some name
unfolding class_name
class_name-close [] rs h = refl
class_name-close (c ∷ []) rs (hc, h) = ground (arith, class_name-close [] rs h)
class_name-close (c ∷ d ∷ name) rs (hc, h) = ground (arith, class_name-close (d ∷ name) rs h)

set_item-class :
    (name chars rs : List ℕ)
    → posix_class name ≡ some chars
    → All (λ c. c ≢ b':') name
    → set_item b'[' (b':' ∷ (name ++ b':' ∷ b']' ∷ rs)) ≡ some (chars, length name + 3)
unfolding set_item class_at
set_item-class name chars rs e h = cc (class_name-close name rs h, e)

parse_set_loop-skip : (xs rs : List ℕ) → parse_set_loop (xs ++ rs) (length xs) ≡ parse_set_loop rs 0
unfolding parse_set_loop
parse_set_loop-skip [] rs = refl
parse_set_loop-skip (x ∷ xs) rs = parse_set_loop-skip xs rs

-- The bytes of a class's name and its end, behind the opening bracket.
abbrev shown : List ℕ → List ℕ
shown name = b':' ∷ (name ++ b':' ∷ b']' ∷ [])

parse_set_loop-class :
    (name rs : List ℕ)
    → parse_set_loop (b':' ∷ (name ++ b':' ∷ b']' ∷ rs)) (length name + 3) ≡ parse_set_loop rs 0
parse_set_loop-class name rs =
    ap (λ t. parse_set_loop (b':' ∷ t) (length name + 3))
      (sym (append_assoc name (b':' ∷ b']' ∷ []) rs))
    ∙ ap (parse_set_loop (shown name ++ rs)) (omega (arith, length-append name (b':' ∷ b']' ∷ [])))
    ∙ parse_set_loop-skip (shown name) rs

abbrev behind : List ℕ → List ℕ × ℕ → Option (List ℕ)
behind rs (chars, skip) = do rest ← parse_set_loop rs skip; some (chars ++ rest)

parse_set_loop-step :
    (c : ℕ) (rs : List ℕ) → parse_set_loop (c ∷ rs) 0 ≡ (set_item c rs >>= behind rs)
parse_set_loop-step c rs = unfold parse_set_loop in refl

-- One item in front of the rest of the set.
parse_set_loop-item :
    (i : Item) (rs : List ℕ)
    → IsItem i
    → NotDash rs
    → parse_set_loop (print_item i ++ rs) 0
      ≡ (do rest ← parse_set_loop rs 0; some (expand i ++ rest))
parse_set_loop-item (single c) rs h n = unfold parse_set_loop in rw (set_item-single c rs h.1 n)
parse_set_loop-item (span a b) rs h n =
    unfold parse_set_loop in rw (set_item-span a b rs h.1) (rw (run-from_to a b h.1) refl)
parse_set_loop-item (class k) rs h n =
    let name = name_of k in
    let text : List ℕ = b':' ∷ (name ++ b':' ∷ b']' ∷ rs) in
    ap (λ t. parse_set_loop (b'[' ∷ b':' ∷ t) 0) (append_assoc name (b':' ∷ b']' ∷ []) rs)
    ∙ parse_set_loop-step b'[' text
    ∙ ap (λ o. o >>= behind text)
        (set_item-class name (members k) rs (posix_class-members k) (name_of-colon k))
    ∙ ap (λ o. o >>= λ rest. some (members k ++ rest)) (parse_set_loop-class name rs)

parse_set_loop-expand :
    (items : List Item)
    → All IsItem items
    → parse_set_loop (flat_map print_item items) 0 ≡ some (flat_map expand items)
unfolding flat_map
parse_set_loop-expand [] h = unfold parse_set_loop in refl
parse_set_loop-expand (i ∷ items) (hi, h) =
    parse_set_loop-item i (flat_map print_item items) hi (print-NotDash items h)
    ∙ ap (λ o. o >>= λ rest. some (expand i ++ rest)) (parse_set_loop-expand items h)

-- A set that is written by the grammar of characters, ranges and the twelve classes stands for its
-- characters, all characters from one end of each range to the other, and the members of its classes, in
-- order.
pub parse_set-expand :
    (items : List Item) (spec : Bytes)
    → All IsItem items
    → runes spec ≡ flat_map print_item items
    → parse_set spec ≡ some (flat_map expand items)
unfolding parse_set
parse_set-expand items spec h e = ap (λ t. parse_set_loop t 0) e ∙ parse_set_loop-expand items h
