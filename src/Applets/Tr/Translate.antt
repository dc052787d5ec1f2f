-- ===== src/Applets/Tr/Translate.antt =====
-- What `tr` prints.
use go_busybox.Prelude.{
  ℕ, zero, suc, ◌-◌, ◌≡◌, refl, ap, ◌∙◌, ◌≢◌, inl, inr, Bool, true, false, Option, none, some, List,
  [], ◌∷◌, ◌++◌, append-nil, append_assoc, arith, leb, ◌==◌, if◌then◌else◌, Bool-cases, length,
  get_elem?, set,
}
use go_busybox.TextUtil.Chars.Distinct.{elem}
use go_busybox.Applets.Tr.{Output, translated, index_rune, emit, step, loop}

-- The rune at an index of SET2, or its last rune where SET2 is shorter.
abbrev pub at_or_last : List ℕ → ℕ → ℕ
at_or_last [] i = 0
at_or_last (t ∷ []) i = t
at_or_last (t ∷ u ∷ ts) zero = t
at_or_last (t ∷ u ∷ ts) (suc i) = at_or_last (u ∷ ts) i

-- The runes outside the set.
abbrev pub remove : List ℕ → List ℕ → List ℕ
remove set [] = []
remove set (r ∷ rs) = if elem r set then remove set rs else r ∷ remove set rs

-- A rune of the set becomes the rune at its place in the other set.
pub replaced : List ℕ → List ℕ → ℕ → ℕ
replaced set to_runes r = if elem r set then at_or_last to_runes (index_rune set r) else r

abbrev pub replace : List ℕ → List ℕ → List ℕ → List ℕ
replace set to_runes [] = []
replace set to_runes (r ∷ rs) = replaced set to_runes r ∷ replace set to_runes rs

-- Runs of one rune become that rune, whatever rune it is; `prev` stands in front of the list.
abbrev pub squeezed : Option ℕ → List ℕ → List ℕ
squeezed prev [] = []
squeezed none (r ∷ rs) = r ∷ squeezed (some r) rs
squeezed (some p) (r ∷ rs) = if r == p then squeezed (some p) rs else r ∷ squeezed (some r) rs

-- What `tr` makes of its input.
abbrev pub rendered : Bool → Bool → List ℕ → List ℕ → List ℕ → List ℕ
rendered d s set to_runes rs =
    let kept = if d then remove set rs else replace set to_runes rs in
    if s then squeezed none kept else kept

clamp-suc :
    (n i : ℕ)
    → (if leb (suc (suc n)) (suc i) then suc (suc n) - 1 else suc i)
      ≡ suc (if leb (suc n) i then suc n - 1 else i)
clamp-suc n i = ground arith

get_elem?-at_or_last :
    (ts : List ℕ) (i : ℕ)
    → ts ≢ []
    → get_elem? ts (if leb (length ts) i then length ts - 1 else i) ≡ some (at_or_last ts i)
get_elem?-at_or_last [] i h = absurd (h refl)
get_elem?-at_or_last (t ∷ []) zero h = refl
get_elem?-at_or_last (t ∷ []) (suc i) h = ground arith
get_elem?-at_or_last (t ∷ u ∷ ts) zero h = ground arith
get_elem?-at_or_last (t ∷ u ∷ ts) (suc i) h =
    ap (get_elem? (t ∷ u ∷ ts)) (clamp-suc (length ts) i) ∙ get_elem?-at_or_last (u ∷ ts) i (cc)

-- The loop's output, from any state: `prev` is the last rune that was written.
abbrev written : Bool → Option ℕ → List ℕ → List ℕ
written s prev rs = if s then squeezed prev rs else rs

-- One rune that is not deleted.
emit-written :
    (s : Bool) (r : ℕ) (rs out : List ℕ) (prev : Option ℕ)
    → (emit s r (out, prev)).0 ++ written s (emit s r (out, prev)).1 rs
      ≡ out ++ written s prev (r ∷ rs)
unfolding emit
emit-written true r rs out none = append_assoc out (r ∷ []) (squeezed (some r) rs)
emit-written false r rs out none = append_assoc out (r ∷ []) rs
emit-written false r rs out (some p) = append_assoc out (r ∷ []) rs
emit-written true r rs out (some p) = elim (Bool-cases (r == p)) [
  | inl e ↦ rw e
  | inr e ↦ rw e (append_assoc out (r ∷ []) (squeezed (some r) rs))
]

-- The loop succeeds, with this output.
abbrev pub Prints : Option Output → List ℕ → Type 0
Prints o out = (prev : Option ℕ) × (o ≡ some (out, prev))

written-nil : (s : Bool) (prev : Option ℕ) → written s prev [] ≡ []
written-nil true none = refl
written-nil true (some p) = refl
written-nil false prev = refl

Prints-nil : (s : Bool) (o : Output) → Prints (some o) (o.0 ++ written s o.1 [])
Prints-nil s o = (o.1, rw (written-nil s o.1, append-nil))

Prints-emit :
    (s : Bool) (r : ℕ) (rs : List ℕ) (o : Output) (m : Option Output)
    → Prints m ((emit s r o).0 ++ written s (emit s r o).1 rs)
    → Prints m (o.0 ++ written s o.1 (r ∷ rs))
Prints-emit s r rs o m h = (h.0, h.1 ∙ ap (λ t. some (t, h.0)) (emit-written s r rs o.0 o.1))

module _ (s : Bool) (set : List ℕ) where
  step-deleted : (r : ℕ) (o : Output) → elem r set ≡ true → step true s set [] r o ≡ some o
  unfolding step
  step-deleted r o e = rw e

  step-kept : (r : ℕ) (o : Output) → elem r set ≡ false → step true s set [] r o ≡ some (emit s r o)
  unfolding step
  step-kept r o e = rw e

  step-replaced :
      (to_runes : List ℕ) (r : ℕ) (o : Output)
      → to_runes ≢ []
      → step false s set to_runes r o ≡ some (emit s (replaced set to_runes r) o)
  unfolding step translated replaced
  step-replaced to_runes r o n = elim (Bool-cases (elem r set)) [
    | inl e ↦ rw (e, get_elem?-at_or_last to_runes (index_rune set r) n)
    | inr e ↦ rw e
  ]

  -- A round that goes on with `o'`.
  loop-step :
      (d : Bool) (to_runes input : List ℕ) (r : ℕ) (o o' : Output)
      → step d s set to_runes r o ≡ some o'
      → loop d s set to_runes (r ∷ input) o ≡ loop d s set to_runes input o'
  unfolding loop
  loop-step d to_runes input r o o' e = rw e

  loop-remove :
      (input : List ℕ) (o : Output)
      → Prints (loop true s set [] input o) (o.0 ++ written s o.1 (remove set input))
  loop-remove [] o = unfold loop in Prints-nil s o
  loop-remove (r ∷ input) o = elim (Bool-cases (elem r set)) [
    | inl e ↦ rw (loop-step true [] input r o o (step-deleted r o e), e) (loop-remove input o)
    | inr e ↦
        rw (loop-step true [] input r o (emit s r o) (step-kept r o e), e)
          (Prints-emit s r (remove set input) o _ (loop-remove input (emit s r o)))
  ]

  loop-replace :
      (to_runes : List ℕ)
      → to_runes ≢ []
      → (input : List ℕ) (o : Output)
      → Prints
          (loop false s set to_runes input o)
          (o.0 ++ written s o.1 (replace set to_runes input))
  loop-replace to_runes n [] o = unfold loop in Prints-nil s o
  loop-replace to_runes n (r ∷ input) o =
      let t = replaced set to_runes r in
      rw (loop-step false to_runes input r o (emit s t o) (step-replaced to_runes r o n)) (
        Prints-emit s t (replace set to_runes input) o _
          (loop-replace to_runes n input (emit s t o)))

-- The loop of `tr`, from its start: under -d the runes of the set are dropped; otherwise each rune
-- of the set becomes the rune at its place in SET2, or the last one of SET2; then, under -s, every
-- run of one rune is printed once. No index is out of range where SET2 has a rune or -d is given.
pub loop-rendered :
    (d s : Bool) (set to_runes input : List ℕ)
    → (if d then to_runes ≡ [] else to_runes ≢ [])
    → Prints (loop d s set to_runes input ([], none)) (rendered d s set to_runes input)
loop-rendered true s set to_runes input e = rw (e) (loop-remove s set input ([], none))
loop-rendered false s set to_runes input n = loop-replace s set to_runes n input ([], none)

-- No rune stands twice in a row.
abbrev pub NoRuns : List ℕ → Type 0
NoRuns [] = Unit {0}
NoRuns (r ∷ []) = Unit {0}
NoRuns (r ∷ q ∷ rs) = (r ≢ q) × NoRuns (q ∷ rs)

squeezed-NoRuns : (p : ℕ) (rs : List ℕ) → NoRuns (p ∷ squeezed (some p) rs)
squeezed-NoRuns p [] = tt
squeezed-NoRuns p (r ∷ rs) = elim (Bool-cases (r == p)) [
  | inl e ↦ rw e (squeezed-NoRuns p rs)
  | inr e ↦ rw e (ground arith, squeezed-NoRuns r rs)
]

-- Under -s no rune is printed twice in a row, a rune outside the sets neither.
pub rendered-NoRuns :
    (d : Bool) (set to_runes input : List ℕ) → NoRuns (rendered d true set to_runes input)
rendered-NoRuns true set to_runes input = go (remove set input)
  where
    go : (rs : List ℕ) → NoRuns (squeezed none rs)
    go [] = tt
    go (r ∷ rs) = squeezed-NoRuns r rs
rendered-NoRuns false set to_runes input = go (replace set to_runes input)
  where
    go : (rs : List ℕ) → NoRuns (squeezed none rs)
    go [] = tt
    go (r ∷ rs) = squeezed-NoRuns r rs
