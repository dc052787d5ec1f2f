-- ===== src/Go/Strings/Split.antt =====
-- `Split` at one byte, and `Join`.
use go_busybox.Prelude.{
  none, zero, suc, ℕ, ◌≡◌, ◌≢◌, refl, ap, ◌∙◌, true, some, List, [], ◌∷◌, ◌++◌, append-nil,
  append_assoc, Bytes, arith, All,
}
use go_busybox.Go.Strings.{has_prefix, split_loop, split, split_2, join, contains_byte}

abbrev pub Lacks : ℕ → Bytes → Type 0
Lacks b = All (λ c. c ≢ b)

module _ (b : ℕ) where
  split_loop-part :
      (p rest cur : Bytes)
      → Lacks b p
      → split_loop (b ∷ []) (p ++ rest) cur 0 ≡ split_loop (b ∷ []) rest (cur ++ p) 0
  unfolding split_loop has_prefix
  split_loop-part [] rest cur h = rw append-nil
  split_loop-part (c ∷ p) rest cur (hc, h) =
      ground (arith, split_loop-part p rest (cur ++ c ∷ []) h, append_assoc cur (c ∷ []) p)

  split_loop-at :
      (rest cur : Bytes)
      → split_loop (b ∷ []) (b ∷ rest) cur 0 ≡ cur ∷ split_loop (b ∷ []) rest [] 0
  unfolding split_loop has_prefix
  split_loop-at rest cur = ground arith

  split_loop-last : (p cur : Bytes) → Lacks b p → split_loop (b ∷ []) p cur 0 ≡ (cur ++ p) ∷ []
  unfolding split_loop has_prefix
  split_loop-last [] cur h = rw append-nil
  split_loop-last (c ∷ p) cur (hc, h) =
      ground (arith, split_loop-last p (cur ++ c ∷ []) h, append_assoc cur (c ∷ []) p)

  split_loop-join :
      (p : Bytes) (ps : List Bytes)
      → All (Lacks b) (p ∷ ps)
      → split_loop (b ∷ []) (join (p ∷ ps) (b ∷ [])) [] 0 ≡ p ∷ ps
  unfolding join
  split_loop-join p [] (hp, h) = split_loop-last p [] hp
  split_loop-join p (q ∷ ps) (hp, h) =
      split_loop-part p (b ∷ join (q ∷ ps) (b ∷ [])) [] hp
      ∙ split_loop-at (join (q ∷ ps) (b ∷ [])) p
      ∙ ap (λ t. p ∷ t) (split_loop-join q ps h)

  -- Parts that do not hold the separator come back.
  pub split-join :
      (ps : List Bytes) → ps ≢ [] → All (Lacks b) ps → split (join ps (b ∷ [])) (b ∷ []) ≡ ps
  unfolding split
  split-join [] n h = absurd (n refl)
  split-join (p ∷ ps) n h = split_loop-join p ps h

  -- At the first separator.
  pub split_2-append : (p s : Bytes) → Lacks b p → split_2 (p ++ b ∷ s) b ≡ (p, some s)
  unfolding split_2
  split_2-append [] s h = ground arith
  split_2-append (c ∷ p) s (hc, h) = ground (arith, split_2-append p s h)

  pub contains_byte-append : (p s : Bytes) → contains_byte (p ++ b ∷ s) b ≡ true
  unfolding contains_byte
  contains_byte-append [] s = ground arith
  contains_byte-append (c ∷ p) s = ground (arith, contains_byte-append p s)

split_loop-ne-nil : (sep s cur : Bytes) (skip : ℕ) → split_loop sep s cur skip ≢ []
unfolding split_loop
split_loop-ne-nil sep [] cur skip = cc
split_loop-ne-nil sep (c ∷ s) cur (suc skip) = split_loop-ne-nil sep s cur skip
split_loop-ne-nil sep (c ∷ s) cur zero = ground (arith, split_loop-ne-nil sep s (cur ++ c ∷ []) 0)

-- `Split` always returns a part.
pub split-ne-nil : (s sep : Bytes) → split s sep ≢ []
unfolding split
split-ne-nil s sep = split_loop-ne-nil sep s [] 0

pub split_2-Lacks : (b : ℕ) (p : Bytes) → Lacks b p → split_2 p b ≡ (p, none)
unfolding split_2
split_2-Lacks b [] h = refl
split_2-Lacks b (c ∷ p) (hc, h) = ground (arith, split_2-Lacks b p h)
