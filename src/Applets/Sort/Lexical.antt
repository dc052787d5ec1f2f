-- ===== src/Applets/Sort/Lexical.antt =====
-- The order of keys in applets/sort/sort.go: that of their bytes, from left to right.
use go_busybox.Prelude.{
  ◌<◌, ◌≡◌, ◌∙◌, ap₂, refl, ◌⊎◌, inl, inr, Bool, true, false, List, [], ◌∷◌, arith, Bytes, ltb, All,
  Bool-cases,
}
use go_busybox.Applets.Sort.{str_lt}

-- `s` is `t`, or stands before it in the dictionary.
abbrev pub AtMost : Bytes → Bytes → Type 0
AtMost [] t = Unit
AtMost (c ∷ s) [] = ⊥
AtMost (c ∷ s) (d ∷ t) = (c < d) ⊎ ((c ≡ d) × AtMost s t)

-- The order, or its reverse.
abbrev pub InDirection : Bool → Bytes → Bytes → Type 0
InDirection false s t = AtMost s t
InDirection true s t = AtMost t s

-- Every key is in order with all keys behind it.
abbrev pub InOrder : Bool → List Bytes → Type 0
InOrder r [] = Unit
InOrder r (k ∷ ks) = All (InDirection r k) ks × InOrder r ks

pub not_lt-AtMost : (s t : Bytes) → str_lt t s ≡ false → AtMost s t
unfolding str_lt
not_lt-AtMost [] t h = tt
not_lt-AtMost (c ∷ s) [] h = cc
not_lt-AtMost (c ∷ s) (d ∷ t) h = elim (Bool-cases (ltb c d)) [
  | inl e ↦ inl (ground arith)
  | inr e ↦ inr (ground arith, not_lt-AtMost s t (ground arith))
]

AtMost-trans : (s t u : Bytes) → AtMost s t → AtMost t u → AtMost s u
AtMost-trans [] t u h k = tt
AtMost-trans (c ∷ s) [] u h k = elim h [ ]
AtMost-trans (c ∷ s) (d ∷ t) [] h k = elim k [ ]
AtMost-trans (c ∷ s) (d ∷ t) (e ∷ u) (inl h) (inl k) = inl (omega arith)
AtMost-trans (c ∷ s) (d ∷ t) (e ∷ u) (inl h) (inr k) = inl (omega (arith, k.0))
AtMost-trans (c ∷ s) (d ∷ t) (e ∷ u) (inr h) (inl k) = inl (omega (arith, h.0))
AtMost-trans (c ∷ s) (d ∷ t) (e ∷ u) (inr h) (inr k) = inr (h.0 ∙ k.0, AtMost-trans s t u h.1 k.1)

AtMost-antisym : (s t : Bytes) → AtMost s t → AtMost t s → s ≡ t
AtMost-antisym [] [] h k = refl
AtMost-antisym [] (d ∷ t) h k = elim k [ ]
AtMost-antisym (c ∷ s) [] h k = elim h [ ]
AtMost-antisym (c ∷ s) (d ∷ t) (inl h) (inl k) = absurd (omega arith)
AtMost-antisym (c ∷ s) (d ∷ t) (inl h) (inr k) = absurd (omega (arith, k.0))
AtMost-antisym (c ∷ s) (d ∷ t) (inr h) (inl k) = absurd (omega (arith, h.0))
AtMost-antisym (c ∷ s) (d ∷ t) (inr h) (inr k) =
    ap₂ (λ x xs. x ∷ xs) h.0 (AtMost-antisym s t h.1 k.1)

InDirection-trans :
    (r : Bool) (s t u : Bytes) → InDirection r s t → InDirection r t u → InDirection r s u
InDirection-trans false s t u h k = AtMost-trans s t u h k
InDirection-trans true s t u h k = AtMost-trans u t s k h

pub InDirection-antisym : (r : Bool) (s t : Bytes) → InDirection r s t → InDirection r t s → s ≡ t
InDirection-antisym false s t h k = AtMost-antisym s t h k
InDirection-antisym true s t h k = AtMost-antisym s t k h

All-InDirection :
    (r : Bool) (j k : Bytes) (ks : List Bytes)
    → InDirection r j k
    → All (InDirection r k) ks
    → All (InDirection r j) ks
All-InDirection r j k [] h a = tt
All-InDirection r j k (l ∷ ks) h (b, a) =
    (InDirection-trans r j k l h b, All-InDirection r j k ks h a)

-- One more key in front.
pub InOrder-cons :
    (r : Bool) (j k : Bytes) (ks : List Bytes)
    → InDirection r j k
    → InOrder r (k ∷ ks)
    → InOrder r (j ∷ k ∷ ks)
InOrder-cons r j k ks h (a, o) = ((h, All-InDirection r j k ks h a), (a, o))
