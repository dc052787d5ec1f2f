-- ===== src/Go/FilePath/Clean.antt =====
-- What `filepath.Clean` returns for an absolute path.
use mathlib.Core.List.{reverse, reverse_aux, reverse-reverse, reverse-append}
use mathlib.Core.Option
use go_busybox.Prelude.{
  ◌≡◌, ◌≢◌, refl, sym, ap, subst, Option, none, some, true, List, [], ◌∷◌, ◌++◌, Bytes, arith, All,
  All-append, inl, inr, ◌∙◌, Bool-cases, str_eq_iff,
}
use go_busybox.Go.FilePath.{
  slash, dot, dot_dot, parts, rooted_text, clean_step, clean_loop, back, names, clean, is_abs, abs,
  join_path,
}
use go_busybox.Go.FilePath.Parts.{NoSlash, parts-NoSlash, parts-print}

-- A name that `Clean` keeps: not empty, neither `.` nor `..`, and with no slash in it.
abbrev pub IsName : Bytes → Type 0
IsName p = (p ≢ []) × (p ≢ dot) × (p ≢ dot_dot) × NoSlash p

back-IsName : (st : List Bytes) → All IsName st → All IsName (back true st)
unfolding back
back-IsName [] h = tt
back-IsName (t ∷ st) (h, hs) = ground (arith, str_eq_iff t dot_dot)

clean_step-IsName :
    (p : Bytes) (st : List Bytes) → NoSlash p → All IsName st → All IsName (clean_step true p st)
unfolding clean_step
clean_step-IsName p st hp hs =
    ground (arith, str_eq_iff p [], str_eq_iff p dot, str_eq_iff p dot_dot, back-IsName st hs)

clean_loop-IsName :
    (ps st : List Bytes) → All NoSlash ps → All IsName st → All IsName (clean_loop true ps st)
unfolding clean_loop
clean_loop-IsName [] st h hs = hs
clean_loop-IsName (p ∷ ps) st (hp, h) hs =
    clean_loop-IsName ps (clean_step true p st) h (clean_step-IsName p st hp hs)

All-reverse : (xs : List Bytes) → All IsName xs → All IsName (reverse xs)
All-reverse [] h = tt
All-reverse (x ∷ xs) (hx, h) =
    rw (reverse-append (x ∷ []) xs)
      (All-append IsName (reverse xs) (x ∷ []) (All-reverse xs h) (hx, tt))

pub All-NoSlash : (ps : List Bytes) → All IsName ps → All NoSlash ps
All-NoSlash [] h = tt
All-NoSlash (p ∷ ps) (hp, h) = (hp.3, All-NoSlash ps h)

pub names-IsName : (s : Bytes) → All IsName (names s)
unfolding names
names-IsName s = All-reverse _ (clean_loop-IsName (parts s) [] (parts-NoSlash s) tt)

clean_step-IsName_self : (p : Bytes) (st : List Bytes) → IsName p → clean_step true p st ≡ p ∷ st
unfolding clean_step
clean_step-IsName_self p st h =
    ground (arith, str_eq_iff p [], str_eq_iff p dot, str_eq_iff p dot_dot)

clean_loop-IsName_self :
    (ps st : List Bytes) → All IsName ps → clean_loop true ps st ≡ reverse_aux ps st
unfolding clean_loop
clean_loop-IsName_self [] st h = refl
clean_loop-IsName_self (p ∷ ps) st (hp, h) =
    rw (clean_step-IsName_self p st hp) (clean_loop-IsName_self ps (p ∷ st) h)

-- The names of a text that is made of names are these names.
pub names-rooted_text : (ds : List Bytes) → All IsName ds → names (rooted_text ds) ≡ ds
unfolding names rooted_text
names-rooted_text [] h = refl
names-rooted_text (p ∷ ps) h =
    ap (λ t. reverse (clean_loop true t [])) (parts-print (p ∷ ps) (All-NoSlash (p ∷ ps) h))
    ∙ ap reverse (clean_loop-IsName_self (p ∷ ps) [] h)
    ∙ reverse-reverse (p ∷ ps)

-- A path as `Clean` leaves it: absolute, and made of names.
pub record IsClean (s : Bytes) : Type 0 where
  pub through : List Bytes
  pub are_names : All IsName through
  pub spelled : rooted_text through ≡ s

pub rooted_text-is_abs : (ds : List Bytes) → is_abs (rooted_text ds) ≡ true
unfolding rooted_text is_abs
rooted_text-is_abs [] = refl
rooted_text-is_abs (p ∷ ps) = refl

pub clean-is_abs : (s : Bytes) → is_abs s ≡ true → clean s ≡ rooted_text (names s)
unfolding clean is_abs
clean-is_abs [] h = cc
clean-is_abs (c ∷ s) h = rw h

pub clean-IsClean : (s : Bytes) → is_abs s ≡ true → IsClean (clean s)
clean-IsClean s h = record {
  through = names s;
  are_names = names-IsName s;
  spelled = sym (clean-is_abs s h);
}

-- What is clean already stays as it is.
pub clean-IsClean_self : (s : Bytes) → IsClean s → clean s ≡ s
clean-IsClean_self s k =
    subst (λ t. clean t ≡ t) k.spelled
      (clean-is_abs _ (rooted_text-is_abs k.through)
        ∙ ap rooted_text (names-rooted_text k.through k.are_names))

pub IsClean-is_abs : (s : Bytes) → IsClean s → is_abs s ≡ true
IsClean-is_abs s k = subst (λ t. is_abs t ≡ true) k.spelled (rooted_text-is_abs k.through)

-- `os.Getwd` gives an absolute path, if it succeeds.
abbrev pub AbsoluteWd : Option Bytes → Type 0
AbsoluteWd none = Unit {0}
AbsoluteWd (some d) = is_abs d ≡ true

join_path-IsClean : (d path : Bytes) → is_abs d ≡ true → IsClean (join_path d path)
unfolding join_path is_abs
join_path-IsClean [] path h = cc
join_path-IsClean (d ∷ ds) [] h = clean-IsClean (d ∷ ds) h
join_path-IsClean (d ∷ ds) (c ∷ s) h = clean-IsClean ((d ∷ ds) ++ slash ∷ c ∷ s) h

pub abs-IsClean :
    (wd : Option Bytes) (path : Bytes) {a : Bytes}
    → AbsoluteWd wd
    → abs wd path ≡ some a
    → IsClean a
unfolding abs
abs-IsClean wd path {a} h e = elim (Bool-cases (is_abs path)) [
  | inl y ↦ subst IsClean (ground arith) (clean-IsClean path y)
  | inr n ↦ relative wd h (rw n at e)
]
  where
    relative :
        (w : Option Bytes)
        → AbsoluteWd w
        → Option.map (λ d. join_path d path) w ≡ some a
        → IsClean a
    relative none hw e' = cc
    relative (some d) hw e' = subst IsClean (cc) (join_path-IsClean d path hw)
