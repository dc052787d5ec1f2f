-- ===== src/Applets/Sort/Insertion.antt =====
-- Insertion sort (`sort.SliceStable`): its order, and that it is stable.
use go_busybox.Prelude.{
  ◌≡◌, refl, sym, ap, ◌∙◌, ◌⊎◌, inl, inr, Bool, true, false, List, [], ◌∷◌, ◌++◌, append-nil,
  append_assoc, Bytes, if◌then◌else◌, Bool-cases,
}
use go_busybox.Applets.Sort.{insert, insert_all, backwards, slice_stable}

-- The lines that pass a test, in order.
abbrev pub keep : (Bytes → Bool) → List Bytes → List Bytes
keep p [] = []
keep p (x ∷ xs) = if p x then x ∷ keep p xs else keep p xs

keep-append : (p : Bytes → Bool) (xs ys : List Bytes) → keep p (xs ++ ys) ≡ keep p xs ++ keep p ys
keep-append p [] ys = refl
keep-append p (x ∷ xs) ys = elim (Bool-cases (p x)) [
  | inl e ↦ rw e (ap (λ t. x ∷ t) (keep-append p xs ys))
  | inr e ↦ rw e (keep-append p xs ys)
]

keep-backwards :
    (p : Bytes → Bool) (xs : List Bytes) → keep p (backwards xs) ≡ backwards (keep p xs)
keep-backwards p [] = refl
keep-backwards p (x ∷ xs) = elim (Bool-cases (p x)) [
  | inl e ↦
      keep-append p (backwards xs) (x ∷ []) ∙ rw e (ap (λ t. t ++ x ∷ []) (keep-backwards p xs))
  | inr e ↦
      keep-append p (backwards xs) (x ∷ [])
      ∙ rw e (append-nil (keep p (backwards xs)) ∙ keep-backwards p xs)
]

module _ (before : Bytes → Bytes → Bool) where
  -- No line stands before one that is less than it.
  abbrev pub Ordered : List Bytes → Type 0
  Ordered [] = Unit
  Ordered (x ∷ []) = Unit
  Ordered (x ∷ y ∷ ls) = (before y x ≡ false) × Ordered (y ∷ ls)

  -- The same, read from the end.
  abbrev BackOrdered : List Bytes → Type 0
  BackOrdered [] = Unit
  BackOrdered (x ∷ []) = Unit
  BackOrdered (x ∷ y ∷ ls) = (before x y ≡ false) × BackOrdered (y ∷ ls)

  Ordered-snoc :
      (ws : List Bytes) (y x : Bytes)
      → Ordered (ws ++ y ∷ [])
      → before x y ≡ false
      → Ordered ((ws ++ y ∷ []) ++ x ∷ [])
  Ordered-snoc [] y x h e = (e, tt)
  Ordered-snoc (w ∷ []) y x (a, h) e = (a, (e, tt))
  Ordered-snoc (w ∷ v ∷ ws) y x (a, h) e = (a, Ordered-snoc (v ∷ ws) y x h e)

  backwards-Ordered : (xs : List Bytes) → BackOrdered xs → Ordered (backwards xs)
  backwards-Ordered [] h = tt
  backwards-Ordered (x ∷ []) h = tt
  backwards-Ordered (x ∷ y ∷ ls) (e, h) =
      Ordered-snoc (backwards ls) y x (backwards-Ordered (y ∷ ls) h) e

  module _ (asym : (x y : Bytes) → before x y ≡ true → before y x ≡ false) where
    under :
        (y x : Bytes) (ys : List Bytes)
        → before y x ≡ false
        → BackOrdered (y ∷ ys)
        → BackOrdered (insert before x ys)
        → BackOrdered (y ∷ insert before x ys)
    unfolding insert
    under y x [] e h k = (e, tt)
    under y x (z ∷ ys) e (a, h) k = elim (Bool-cases (before x z)) [
      | inl c ↦ rw c ((a, rw c at k))
      | inr c ↦ rw c ((e, rw c at k))
    ]

    insert-BackOrdered :
        (x : Bytes) (ys : List Bytes) → BackOrdered ys → BackOrdered (insert before x ys)
    unfolding insert
    insert-BackOrdered x [] h = tt
    insert-BackOrdered x (y ∷ ys) h = elim (Bool-cases (before x y)) [
      | inl c ↦ rw c (under y x ys (asym x y c) h (insert-BackOrdered x ys (rest y ys h)))
      | inr c ↦ rw c ((c, h))
    ]
      where
        rest : (y : Bytes) (ys : List Bytes) → BackOrdered (y ∷ ys) → BackOrdered ys
        rest y [] h = tt
        rest y (z ∷ ys) (a, h) = h

    insert_all-BackOrdered :
        (xs ys : List Bytes) → BackOrdered ys → BackOrdered (insert_all before xs ys)
    unfolding insert_all
    insert_all-BackOrdered [] ys h = h
    insert_all-BackOrdered (x ∷ xs) ys h =
        insert_all-BackOrdered xs (insert before x ys) (insert-BackOrdered x ys h)

    pub slice_stable-Ordered : (xs : List Bytes) → Ordered (slice_stable before xs)
    unfolding slice_stable
    slice_stable-Ordered xs =
        backwards-Ordered (insert_all before xs []) (insert_all-BackOrdered xs [] tt)

  -- A test that never holds of two lines of which one is less.
  module _ (p : Bytes → Bool)
      (alike : (x y : Bytes) → p x ≡ true → p y ≡ true → before x y ≡ false) where
    keep-insert : (x : Bytes) (ys : List Bytes) → keep p (insert before x ys) ≡ keep p (x ∷ ys)
    unfolding insert
    keep-insert x [] = refl
    keep-insert x (y ∷ ys) = elim (Bool-cases (before x y)) [
      | inl c ↦ rw c (past (Bool-cases (p x)) (Bool-cases (p y)) c (keep-insert x ys))
      | inr c ↦ rw c refl
    ]
      where
        past :
            (p x ≡ true) ⊎ (p x ≡ false)
            → (p y ≡ true) ⊎ (p y ≡ false)
            → before x y ≡ true
            → keep p (insert before x ys) ≡ keep p (x ∷ ys)
            → keep p (y ∷ insert before x ys) ≡ keep p (x ∷ y ∷ ys)
        past (inl a) (inl b) c ih = let e : true ≡ false = sym c ∙ alike x y a b in cc e
        past (inl a) (inr b) c ih = rw a (rw b (ih ∙ rw a refl))
        past (inr a) (inl b) c ih = rw a (rw b (ap (λ t. y ∷ t) (ih ∙ rw a refl)))
        past (inr a) (inr b) c ih = rw a (rw b (ih ∙ rw a refl))

    keep-insert_all :
        (xs ys : List Bytes)
        → keep p (backwards (insert_all before xs ys)) ≡ keep p (backwards ys ++ xs)
    unfolding insert_all
    keep-insert_all [] ys = ap (keep p) (sym (append-nil (backwards ys)))
    keep-insert_all (x ∷ xs) ys =
        let moved : keep p (backwards (insert before x ys)) ≡ keep p (backwards (x ∷ ys)) =
          keep-backwards p (insert before x ys)
          ∙ ap backwards (keep-insert x ys)
          ∙ sym (keep-backwards p (x ∷ ys)) in
        keep-insert_all xs (insert before x ys)
        ∙ keep-append p (backwards (insert before x ys)) xs
        ∙ ap (λ t. t ++ keep p xs) moved
        ∙ sym (keep-append p (backwards (x ∷ ys)) xs)
        ∙ ap (keep p) (append_assoc (backwards ys) (x ∷ []) xs)

    pub keep-slice_stable : (xs : List Bytes) → keep p (slice_stable before xs) ≡ keep p xs
    unfolding slice_stable
    keep-slice_stable xs = keep-insert_all xs []
