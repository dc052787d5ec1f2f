-- ===== src/Go/FilePath.antt =====
-- `filepath.Clean` and `filepath.Abs` on Unix, by components.
pub mod Parts
pub mod Clean
use mathlib.Core.List.{reverse}
use mathlib.Core.Option
use go_busybox.Prelude.{
  ℕ, ◌||◌, ◌≡◌, refl, Bool, true, false, Option, none, some, List, [], ◌∷◌, ◌++◌, Bytes, codes,
  str_eq, ◌==◌, if◌then◌else◌,
}

abbrev pub slash : ℕ
slash = b'/'

abbrev pub dot : Bytes
dot = b'.' ∷ []

abbrev pub dot_dot : Bytes
dot_dot = b'.' ∷ b'.' ∷ []

-- Put a byte in front of the first part.
cons_part : ℕ → List Bytes → List Bytes
cons_part c [] = (c ∷ []) ∷ []
cons_part c (p ∷ ps) = (c ∷ p) ∷ ps

-- The parts between the slashes, empty ones included.
unfoldable pub parts : Bytes → List Bytes
unfolding cons_part
parts [] = [] ∷ []
parts (c ∷ s) = if c == slash then [] ∷ parts s else cons_part c (parts s)

-- A slash in front of each part.
unfoldable pub print : List Bytes → Bytes
print [] = []
print (p ∷ ps) = slash ∷ p ++ print ps

-- `..` removes the part before it. At the root it stays there; a relative path keeps it.
back : Bool → List Bytes → List Bytes
back rooted [] = if rooted then [] else dot_dot ∷ []
back rooted (t ∷ st) = if str_eq t dot_dot then dot_dot ∷ t ∷ st else st

-- One part of the path, over the parts kept so far with the last one in front.
clean_step : Bool → Bytes → List Bytes → List Bytes
unfolding back str_eq
clean_step rooted p st =
    if str_eq p [] || str_eq p dot then st else if str_eq p dot_dot then back rooted st else p ∷ st

clean_loop : Bool → List Bytes → List Bytes → List Bytes
unfolding clean_step
clean_loop rooted [] st = st
clean_loop rooted (p ∷ ps) st = clean_loop rooted ps (clean_step rooted p st)

-- The text of an absolute path, and of a relative one, from its parts.
unfoldable pub rooted_text : List Bytes → Bytes
unfolding print
rooted_text [] = slash ∷ []
rooted_text (p ∷ ps) = print (p ∷ ps)

relative_text : List Bytes → Bytes
unfolding print
relative_text [] = dot
relative_text (p ∷ ps) = p ++ print ps

-- The names that an absolute path leads through.
unfoldable pub names : Bytes → List Bytes
unfolding parts clean_loop
names s = reverse (clean_loop true (parts s) [])

-- `filepath.Clean`.
unfoldable pub clean : Bytes → Bytes
unfolding names rooted_text relative_text
clean [] = dot
clean (c ∷ s) =
    if c == slash
    then rooted_text (names (c ∷ s))
    else relative_text (reverse (clean_loop false (parts (c ∷ s)) []))

unfoldable pub is_abs : Bytes → Bool
is_abs [] = false
is_abs (c ∷ s) = c == slash

-- `filepath.Join` of a directory and a path.
join_path : Bytes → Bytes → Bytes
unfolding clean
join_path [] [] = []
join_path [] (c ∷ s) = clean (c ∷ s)
join_path (d ∷ ds) [] = clean (d ∷ ds)
join_path (d ∷ ds) (c ∷ s) = clean ((d ∷ ds) ++ slash ∷ c ∷ s)

-- `filepath.Abs`, given what `os.Getwd` returns (`none` is its error).
unfoldable pub abs : Option Bytes → Bytes → Option Bytes
unfolding is_abs clean join_path
abs wd path = if is_abs path then some (clean path) else Option.map (λ d. join_path d path) wd

clean_runs :
    (clean (codes "/a/./b//../c/") ≡ codes "/a/c")
    × (clean (codes "/../x") ≡ codes "/x")
    × (clean (codes "../a/../../b") ≡ codes "../../b")
    × (clean [] ≡ codes ".")
    × (clean (codes "a/..") ≡ codes ".")
    × (abs (some (codes "/home/u")) (codes "../v") ≡ some (codes "/home/v"))
unfolding clean abs
clean_runs = (refl, refl, refl, refl, refl, refl)
