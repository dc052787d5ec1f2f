-- ===== src/Applets/Sort/Distinct.antt =====
-- The loop for -u of applets/sort/sort.go, on lines in order.
use go_busybox.Prelude.{
  ℕ, ◌≡◌, ◌≢◌, refl, sym, ap, ◌∙◌, inl, inr, Bool, true, false, Option, none, some, List, [], ◌∷◌,
  map, Bytes, if◌then◌else◌, str_eq, str_eq_iff, Bool-cases, subst, take, All,
}
use go_busybox.Applets.Sort.{Options, Floats, folded_key, distinct_lines}
use go_busybox.Applets.Sort.Insertion.{keep}
use go_busybox.Applets.Sort.Lexical.{InDirection, InOrder, InDirection-antisym}

-- Whether a line has the key `k`.
abbrev pub has_key : (Bytes → Bytes) → Bytes → Bytes → Bool
has_key key k line = str_eq (key line) k

module _ (lower_rune : ℕ → ℕ) (floats : Floats) (o : Options) where
  abbrev key : Bytes → Bytes
  key line = folded_key lower_rune floats o line

  abbrev distinct : Option Bytes → List Bytes → List Bytes
  distinct last ls = distinct_lines lower_rune floats o last ls

  abbrev kept : Bytes → List Bytes → List Bytes
  kept k ls = keep (has_key key k) ls

  distinct-All {ℓ} :
      (P : Bytes → Type ℓ) (last : Option Bytes) (ls : List Bytes)
      → All P (map key ls)
      → All P (map key (distinct last ls))
  unfolding distinct_lines
  distinct-All P none [] h = tt
  distinct-All P (some j) [] h = tt
  distinct-All P none (l ∷ ls) (p, h) = (p, distinct-All P (some (key l)) ls h)
  distinct-All P (some j) (l ∷ ls) (p, h) = elim (Bool-cases (str_eq (key l) j)) [
    | inl e ↦ rw e (distinct-All P (some j) ls h)
    | inr e ↦ rw e ((p, distinct-All P (some (key l)) ls h))
  ]

  pub distinct-InOrder :
      (r : Bool) (last : Option Bytes) (ls : List Bytes)
      → InOrder r (map key ls)
      → InOrder r (map key (distinct last ls))
  unfolding distinct_lines
  distinct-InOrder r none [] h = tt
  distinct-InOrder r (some j) [] h = tt
  distinct-InOrder r none (l ∷ ls) (a, h) = (
    distinct-All (InDirection r (key l)) (some (key l)) ls a,
    distinct-InOrder r (some (key l)) ls h,
  )
  distinct-InOrder r (some j) (l ∷ ls) (a, h) = elim (Bool-cases (str_eq (key l) j)) [
    | inl e ↦ rw e (distinct-InOrder r (some j) ls h)
    | inr e ↦ rw e (
        (
          distinct-All (InDirection r (key l)) (some (key l)) ls a,
          distinct-InOrder r (some (key l)) ls h,
        ))
  ]

  kept-none : (k : Bytes) (ls : List Bytes) → All (λ m. m ≢ k) (map key ls) → kept k ls ≡ []
  kept-none k [] h = refl
  kept-none k (l ∷ ls) (n, h) = elim (Bool-cases (str_eq (key l) k)) [
    | inl e ↦ absurd (n ((str_eq_iff (key l) k).0 e))
    | inr e ↦ rw e (kept-none k ls h)
  ]

  passed :
      (r : Bool) (j k : Bytes) (ms : List Bytes)
      → k ≢ j
      → InDirection r j k
      → All (InDirection r k) ms
      → All (λ m. m ≢ j) ms
  passed r j k [] n h a = tt
  passed r j k (m ∷ ms) n h (b, a) =
      (λ e. n (InDirection-antisym r k j (subst (InDirection r k) e b) h), passed r j k ms n h a)

  -- What a line gives that is kept, from what the lines behind it give.
  kept-first :
      (k l : Bytes) (ls : List Bytes)
      → kept k (distinct (some (key l)) ls) ≡ (if str_eq (key l) k then [] else take 1 (kept k ls))
      → kept k (l ∷ distinct (some (key l)) ls) ≡ take 1 (kept k (l ∷ ls))
  kept-first k l ls h = elim (Bool-cases (str_eq (key l) k)) [
    | inl e ↦ rw e (ap (λ t. l ∷ t) (h ∙ rw e refl))
    | inr e ↦ rw e (h ∙ rw e refl)
  ]

  nothing : (b : Bool) → Path (List Bytes) [] (if b then [] else take 1 [])
  nothing true = refl
  nothing false = refl

  repeated :
      (j k l : Bytes) (ls : List Bytes)
      → str_eq (key l) j ≡ true
      → (if str_eq j k then [] else take 1 (kept k ls))
        ≡ (if str_eq j k then [] else take 1 (kept k (l ∷ ls)))
  repeated j k l ls e = elim (Bool-cases (str_eq j k)) [
    | inl f ↦ rw f refl
    | inr f ↦
        let g : str_eq (key l) k ≡ false = ap (λ t. str_eq t k) ((str_eq_iff (key l) j).0 e) ∙ f in
        rw f (rw g refl)
  ]

  new_key :
      (r : Bool) (j k l : Bytes) (ls : List Bytes)
      → str_eq (key l) j ≡ false
      → InDirection r j (key l)
      → All (InDirection r (key l)) (map key ls)
      → take 1 (kept k (l ∷ ls)) ≡ (if str_eq j k then [] else take 1 (kept k (l ∷ ls)))
  new_key r j k l ls e b c = elim (Bool-cases (str_eq j k)) [
    | inl f ↦
        let other : key l ≢ j = λ g. cc (sym e ∙ (str_eq_iff (key l) j).1 g) in
        let absent = kept-none j (l ∷ ls) (other, passed r j (key l) (map key ls) other b c) in
        rw f (ap (take 1) (ap (λ t. kept t (l ∷ ls)) (sym ((str_eq_iff j k).0 f)) ∙ absent))
    | inr f ↦ rw f refl
  ]

  kept-distinct_behind :
      (r : Bool) (j k : Bytes) (ls : List Bytes)
      → All (InDirection r j) (map key ls)
      → InOrder r (map key ls)
      → kept k (distinct (some j) ls) ≡ (if str_eq j k then [] else take 1 (kept k ls))
  unfolding distinct_lines
  kept-distinct_behind r j k [] a h = nothing (str_eq j k)
  kept-distinct_behind r j k (l ∷ ls) (b, a) (c, h) = elim (Bool-cases (str_eq (key l) j)) [
    | inl e ↦ rw e (kept-distinct_behind r j k ls a h ∙ repeated j k l ls e)
    | inr e ↦
        rw e
          (kept-first k l ls (kept-distinct_behind r (key l) k ls c h) ∙ new_key r j k l ls e b c)
  ]

  -- Of the lines with a key, -u keeps the first one.
  pub kept-distinct :
      (r : Bool) (k : Bytes) (ls : List Bytes)
      → InOrder r (map key ls)
      → kept k (distinct none ls) ≡ take 1 (kept k ls)
  unfolding distinct_lines
  kept-distinct r k [] h = refl
  kept-distinct r k (l ∷ ls) (a, h) = kept-first k l ls (kept-distinct_behind r (key l) k ls a h)
