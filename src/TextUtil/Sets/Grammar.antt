-- ===== src/TextUtil/Sets/Grammar.antt =====
-- The characters that ranges and classes of sets stand for, spelled out, for `ParseSet` and `posixClass`
-- of core/textutil/textutil.go.
use go_busybox.Prelude.{
  ℕ, zero, suc, ◌+◌, ◌-◌, ◌≤◌, ◌≡◌, refl, sym, ap, ◌∙◌, ◌≢◌, some, List, [], ◌∷◌, ◌++◌, arith,
  codes, length, length-append, drop, drop_all, drop-append_left, All, str_eq,
}
use go_busybox.TextUtil.Sets.{run_from, run, posix_class}

-- 0, 1, … up to `n`, without it.
abbrev pub below : ℕ → List ℕ
below zero = []
below (suc n) = below n ++ n ∷ []

-- The characters from `a` to `b`: those up to `b` without the first `a` ones.
abbrev pub from_to : ℕ → ℕ → List ℕ
from_to a b = drop a (below (suc b))

length-below : (n : ℕ) → length (below n) ≡ n
length-below zero = refl
length-below (suc n) = omega (arith, length-append (below n) (n ∷ []), length-below n)

run_from-snoc : (n i : ℕ) → run_from (suc n) i ≡ run_from n i ++ (i + n) ∷ []
unfolding run_from
run_from-snoc zero i = let e : i ≡ i + 0 = omega arith in ap (λ k. k ∷ []) e
run_from-snoc (suc n) i =
    let e : i + 1 + n ≡ i + suc n = omega arith in
    ap (λ t. i ∷ t) (run_from-snoc n (i + 1) ∙ ap (λ k. run_from n (i + 1) ++ k ∷ []) e)

run_from-below : (n i : ℕ) → run_from n i ≡ drop i (below (i + n))
unfolding run_from
run_from-below zero i = sym (drop_all i (below (i + 0)) (omega (arith, length-below (i + 0))))
run_from-below (suc n) i =
    let e : suc (i + n) ≡ i + suc n = omega arith in
    let fits : i ≤ length (below (i + n)) = omega (arith, length-below (i + n)) in
    run_from-snoc n i
    ∙ ap (λ t. t ++ (i + n) ∷ []) (run_from-below n i)
    ∙ sym (drop-append_left i (below (i + n)) ((i + n) ∷ []) fits)
    ∙ ap (λ k. drop i (below k)) e

pub run-from_to : (a b : ℕ) → a ≤ b → run a b ≡ from_to a b
unfolding run
run-from_to a b h =
    let e : a + (b + 1 - a) ≡ suc b = omega arith in
    run_from-below (b + 1 - a) a ∙ ap (λ k. drop a (below k)) e

-- The classes.
pub data Class : Type 0 where
  alnum alpha digit lower upper space blank print graph cntrl punct xdigit : Class

abbrev pub name_of : Class → List ℕ
name_of alnum = codes "alnum"
name_of alpha = codes "alpha"
name_of digit = codes "digit"
name_of lower = codes "lower"
name_of upper = codes "upper"
name_of space = codes "space"
name_of blank = codes "blank"
name_of print = codes "print"
name_of graph = codes "graph"
name_of cntrl = codes "cntrl"
name_of punct = codes "punct"
name_of xdigit = codes "xdigit"

-- The members of a class, in order; those of `cntrl` are all below the space, and 127.
abbrev pub members : Class → List ℕ
members alnum = codes "0123456789ABCDEFGHIJKLMNOPQRSTUVWXYZabcdefghijklmnopqrstuvwxyz"
members alpha = codes "ABCDEFGHIJKLMNOPQRSTUVWXYZabcdefghijklmnopqrstuvwxyz"
members digit = codes "0123456789"
members lower = codes "abcdefghijklmnopqrstuvwxyz"
members upper = codes "ABCDEFGHIJKLMNOPQRSTUVWXYZ"
members space = codes " \t\n\r" ++ 12 ∷ 11 ∷ []
members blank = codes " \t"
members print =
    codes " !\"#$%&'()*+,-./0123456789:;<=>?@ABCDEFGHIJKLMNOPQRSTUVWXYZ"
    ++ codes "[\\]^_`abcdefghijklmnopqrstuvwxyz{|}~"
members graph =
    codes "!\"#$%&'()*+,-./0123456789:;<=>?@ABCDEFGHIJKLMNOPQRSTUVWXYZ"
    ++ codes "[\\]^_`abcdefghijklmnopqrstuvwxyz{|}~"
members cntrl = below 32 ++ 127 ∷ []
members punct = codes "!\"#$%&'()*+,-./:;<=>?@[\\]^_`{|}~"
members xdigit = codes "0123456789ABCDEFabcdef"

pub posix_class-members : (k : Class) → posix_class (name_of k) ≡ some (members k)
unfolding posix_class run run_from str_eq
posix_class-members alnum = refl
posix_class-members alpha = refl
posix_class-members digit = refl
posix_class-members lower = refl
posix_class-members upper = refl
posix_class-members space = refl
posix_class-members blank = refl
posix_class-members print = refl
posix_class-members graph = refl
posix_class-members cntrl = refl
posix_class-members punct = refl
posix_class-members xdigit = refl

pub name_of-colon : (k : Class) → All (λ c. c ≢ b':') (name_of k)
name_of-colon alnum = ground arith
name_of-colon alpha = ground arith
name_of-colon digit = ground arith
name_of-colon lower = ground arith
name_of-colon upper = ground arith
name_of-colon space = ground arith
name_of-colon blank = ground arith
name_of-colon print = ground arith
name_of-colon graph = ground arith
name_of-colon cntrl = ground arith
name_of-colon punct = ground arith
name_of-colon xdigit = ground arith
