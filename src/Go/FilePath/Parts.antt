-- ===== src/Go/FilePath/Parts.antt =====
-- A path's text and its parts.
use go_busybox.Prelude.{
  ℕ, ◌≡◌, ◌≢◌, refl, ap, List, [], ◌∷◌, ◌++◌, append-nil, append_assoc, Bytes, arith, All, ◌⊎◌, inl,
  inr, ◌∙◌, Bool-cases, ◌==◌,
}
use go_busybox.Go.FilePath.{slash, cons_part, parts, print}

-- The name of a file or a folder: not empty, no `.`, no `..`, and no slash in it.
abbrev pub NoSlash : Bytes → Type 0
NoSlash p = All (λ c. c ≢ slash) p

pub parts-name-append : (p s : Bytes) → NoSlash p → parts (p ++ slash ∷ s) ≡ p ∷ parts s
unfolding parts cons_part
parts-name-append [] s h = refl
parts-name-append (c ∷ p) s (hc, hp) = ground (arith, parts-name-append p s hp)

pub parts-name : (p : Bytes) → NoSlash p → parts p ≡ p ∷ []
unfolding parts cons_part
parts-name [] h = refl
parts-name (c ∷ p) (hc, hp) = ground (arith, parts-name p hp)

parts-ne-nil : (s : Bytes) → parts s ≢ []
unfolding parts cons_part
parts-ne-nil [] = cc
parts-ne-nil (c ∷ s) = ground arith

cons_part-append :
    (c : ℕ) (ps qs : List Bytes) → ps ≢ [] → cons_part c (ps ++ qs) ≡ cons_part c ps ++ qs
unfolding cons_part
cons_part-append c [] qs h = absurd (h refl)
cons_part-append c (p ∷ ps) qs h = refl

parts-append : (s r : Bytes) → parts (s ++ slash ∷ r) ≡ parts s ++ parts r
unfolding parts
parts-append [] r = refl
parts-append (c ∷ s) r =
    ground (arith, parts-append s r, cons_part-append c (parts s) (parts r) (parts-ne-nil s))

-- No part holds a slash.
pub parts-NoSlash : (s : Bytes) → All NoSlash (parts s)
unfolding parts
parts-NoSlash [] = (tt, tt)
parts-NoSlash (c ∷ s) = elim (Bool-cases (c == slash)) [
  | inl e ↦ rw e (tt, parts-NoSlash s)
  | inr e ↦ rw e (cons_part-NoSlash c (parts s) (ground arith) (parts-NoSlash s))
]
  where
    cons_part-NoSlash :
        (c : ℕ) (ps : List Bytes) → c ≢ slash → All NoSlash ps → All NoSlash (cons_part c ps)
    cons_part-NoSlash c [] h hs = ((h, tt), tt)
    cons_part-NoSlash c (p ∷ ps) h (hp, hs) = ((h, hp), hs)

pub parts-name-print :
    (p : Bytes) (ps : List Bytes) → NoSlash p → All NoSlash ps → parts (p ++ print ps) ≡ p ∷ ps
unfolding print
parts-name-print p [] h hs = rw append-nil (parts-name p h)
parts-name-print p (q ∷ ps) h (hq, hs) =
    parts-name-append p (q ++ print ps) h ∙ ap (λ t. p ∷ t) (parts-name-print q ps hq hs)

-- The parts of an absolute path's text are the names behind the leading slash.
pub parts-print : (ps : List Bytes) → All NoSlash ps → parts (print ps) ≡ [] ∷ ps
unfolding print parts
parts-print [] hs = refl
parts-print (p ∷ ps) (hp, hs) = ap (λ t. [] ∷ t) (parts-name-print p ps hp hs)

-- The names `ds` begin with the names `cs`: a path under a folder, or the folder itself.
abbrev pub Under : List Bytes → List Bytes → Type 0
Under cs ds = (es : List Bytes) × (cs ++ es ≡ ds)

-- A name ends here: nothing follows, or a slash.
abbrev pub Boundary : Bytes → Type 0
Boundary rest = (rest ≡ []) ⊎ ((r : Bytes) × (rest ≡ slash ∷ r))

pub print-append : (cs es : List Bytes) → print (cs ++ es) ≡ print cs ++ print es
unfolding print
print-append [] es = refl
print-append (c ∷ cs) es = simp (print-append cs, append_assoc)

pub print-Boundary : (es : List Bytes) → Boundary (print es)
unfolding print
print-Boundary [] = inl refl
print-Boundary (p ∷ ps) = inr (p ++ print ps, refl)

-- A text that goes on at a boundary goes on by whole names.
pub print-append-Under :
    (cs ds : List Bytes) (rest : Bytes)
    → All NoSlash cs
    → All NoSlash ds
    → print ds ≡ print cs ++ rest
    → Boundary rest
    → Under cs ds
print-append-Under cs ds rest hc hd e (inl end) =
    ([], cc (parts-print cs hc, parts-print ds hd, append-nil cs, append-nil (print cs)))
print-append-Under cs ds rest hc hd e (inr (r, more)) =
    (parts r, tail-eq (cc (parts-print cs hc, parts-print ds hd, parts-append (print cs) r)))
  where
    tail-eq : [] ∷ ds ≡ ([] ∷ cs) ++ parts r → cs ++ parts r ≡ ds
    tail-eq h = cc
