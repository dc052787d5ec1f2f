-- ===== src/TextUtil/Chars/Distinct.antt =====
-- Positions in the order of their first occurrence.
use go_busybox.Prelude.{
  ℕ, zero, suc, ◌+◌, ◌≡◌, refl, inl, inr, Bool, true, false, not, ◌&&◌, ◌||◌, List, [], ◌∷◌, arith,
  ◌==◌, if◌then◌else◌, Bool-cases,
}

-- Whether a number stands in the list.
abbrev pub elem : ℕ → List ℕ → Bool
elem x [] = false
elem x (y ∷ ys) = x == y || elem x ys

-- The numbers of the list that are not seen yet, each where it first stands.
abbrev pub distinct : List ℕ → List ℕ → List ℕ
distinct seen [] = []
distinct seen (p ∷ ps) =
    let skipped = distinct seen ps in
    let kept = p ∷ distinct (p ∷ seen) ps in if elem p seen then skipped else kept

-- i, i + 1, … (`n` numbers).
abbrev pub count_up : ℕ → ℕ → List ℕ
count_up zero i = []
count_up (suc n) i = i ∷ count_up n (i + 1)

elem_self : (p : ℕ) (ps : List ℕ) → elem p (p ∷ ps) ≡ true
elem_self p ps = ground arith

-- What `distinct` keeps is what the list holds, less what is seen.
pub elem-distinct :
    (x : ℕ) (seen ps : List ℕ) → elem x (distinct seen ps) ≡ (elem x ps && not (elem x seen))
elem-distinct x seen [] = refl
elem-distinct x seen (p ∷ ps) =
    ground (arith, elem-distinct x seen ps, elem-distinct x (p ∷ seen) ps)

-- No number stands twice in the list.
abbrev pub NoRepeat : List ℕ → Type 0
NoRepeat [] = Unit {0}
NoRepeat (x ∷ xs) = (elem x xs ≡ false) × NoRepeat xs

pub distinct-NoRepeat : (seen ps : List ℕ) → NoRepeat (distinct seen ps)
distinct-NoRepeat seen [] = tt
distinct-NoRepeat seen (p ∷ ps) = elim (Bool-cases (elem p seen)) [
  | inl e ↦ rw e (distinct-NoRepeat seen ps)
  | inr e ↦ rw e (
    ground (arith, elem-distinct p (p ∷ seen) ps, elem_self p seen),
    distinct-NoRepeat (p ∷ seen) ps,
  )
]
