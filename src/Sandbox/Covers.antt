-- ===== src/Sandbox/Covers.antt =====
-- The prefix test of `checkAccess` against the names of the two paths.
use go_busybox.Prelude.{
  ◌≡◌, ◌≢◌, refl, sym, ap, subst, ◌∙◌, ◌↔◌, inl, inr, Bool, true, List, [], ◌∷◌, ◌++◌, append-nil,
  Bytes, All, arith, str_eq, str_eq_iff, length, drop, ◌||◌,
}
use go_busybox.Go.Strings.{has_prefix}
use go_busybox.Go.FilePath.{slash, rooted_text, print}
use go_busybox.Go.FilePath.Parts.{Under, Boundary, print-append-Under, print-append, print-Boundary}
use go_busybox.Go.FilePath.Clean.{IsName, All-NoSlash}
use go_busybox.Sandbox.{covers}

has_prefix→append : (s p : Bytes) → has_prefix s p ≡ true → s ≡ p ++ drop (length p) s
unfolding has_prefix
has_prefix→append s [] h = refl
has_prefix→append [] (q ∷ p) h = cc
has_prefix→append (c ∷ s) (q ∷ p) h = ground (arith, has_prefix→append s p)

has_prefix-append : (p r : Bytes) → has_prefix (p ++ r) p ≡ true
unfolding has_prefix
has_prefix-append [] r = refl
has_prefix-append (q ∷ p) r = ground (arith, has_prefix-append p r)

drop-append : (p r : Bytes) → drop (length p) (p ++ r) ≡ r
drop-append [] r = refl
drop-append (q ∷ p) r = drop-append p r

has_prefix_refl : (s : Bytes) → has_prefix s s ≡ true
has_prefix_refl s = subst (λ t. has_prefix t s ≡ true) (append-nil s) (has_prefix-append s [])

covers-has_prefix : (r s : Bytes) → covers r s ≡ true → has_prefix s r ≡ true
unfolding covers
covers-has_prefix r s h = ground (arith, str_eq_iff s r, has_prefix_refl s)

-- The test that a name ends.
ends : Bytes → Bool
ends rest = str_eq rest [] || has_prefix rest (slash ∷ [])

ends→Boundary : (rest : Bytes) → ends rest ≡ true → Boundary rest
unfolding ends str_eq has_prefix
ends→Boundary [] h = inl refl
ends→Boundary (c ∷ r) h = inr (r, ground arith)

Boundary→ends : (rest : Bytes) → Boundary rest → ends rest ≡ true
unfolding ends str_eq has_prefix
Boundary→ends rest (inl e) = rw e
Boundary→ends rest (inr (r, e)) = rw e

covers-eq-ends : (r s : Bytes) → has_prefix s r ≡ true → covers r s ≡ ends (drop (length r) s)
unfolding covers ends
covers-eq-ends r s h = rw h

-- The test on the two texts: the path is the rule's path, up to where a name ends.
pub covers→append :
    (rule_path abs_path : Bytes)
    → covers rule_path abs_path ≡ true
    → (rest : Bytes) × (abs_path ≡ rule_path ++ rest) × Boundary rest
covers→append r s h =
    let p : has_prefix s r ≡ true = covers-has_prefix r s h in
    (drop (length r) s, has_prefix→append s r p, ends→Boundary _ (sym (covers-eq-ends r s p) ∙ h))

pub append→covers :
    (rule_path rest : Bytes) → Boundary rest → covers rule_path (rule_path ++ rest) ≡ true
append→covers r rest h =
    covers-eq-ends r (r ++ rest) (has_prefix-append r rest)
    ∙ ap ends (drop-append r rest)
    ∙ Boundary→ends rest h

-- A rule for a folder below the root covers a path exactly when the rule's names are the first
-- names of the path: the folder itself and all below it, but no sibling with a longer name.
pub covers_iff :
    (cs ds : List Bytes)
    → cs ≢ []
    → All IsName cs
    → All IsName ds
    → (covers (rooted_text cs) (rooted_text ds) ≡ true) ↔ Under cs ds
unfolding rooted_text
covers_iff [] ds hn hc hd = absurd (hn refl)
covers_iff ([] ∷ cs) [] hn hc hd = absurd (hc.0.0 refl)
covers_iff ((a ∷ c) ∷ cs) [] hn hc hd = (λ h. absurd (longer h), λ u. cc u.1)
  where
    longer : ¬ (covers (slash ∷ a ∷ c ++ print cs) (slash ∷ []) ≡ true)
    longer h = let (rest, e, b) = covers→append _ _ h in cc e
covers_iff (c ∷ cs) (d ∷ ds) hn hc hd = (
  λ h.
      let (rest, e, b) = covers→append _ _ h in
      print-append-Under (c ∷ cs) (d ∷ ds) rest (All-NoSlash (c ∷ cs) hc) (All-NoSlash (d ∷ ds) hd)
        e b,
  λ u.
      subst (λ t. covers (print (c ∷ cs)) t ≡ true) (sym (print-append (c ∷ cs) u.0) ∙ ap print u.1)
        (append→covers (print (c ∷ cs)) (print u.0) (print-Boundary u.0)),
)

not-Boundary-name : (d : Bytes) (s : Bytes) → IsName d → ¬ Boundary (d ++ s)
not-Boundary-name [] s h b = h.0 refl
not-Boundary-name (a ∷ d) s h (inl e) = cc e
not-Boundary-name (a ∷ d) s h (inr (r, e)) = h.3.0 (cc e)

-- A rule for the root covers the root and nothing below it: the byte behind the prefix `/` is the
-- first of a name, so the second test fails.
pub covers-root :
    (ds : List Bytes) → All IsName ds → (covers (slash ∷ []) (rooted_text ds) ≡ true) ↔ (ds ≡ [])
unfolding rooted_text
covers-root [] hd = (λ h. refl, λ e. append→covers (slash ∷ []) [] (inl refl))
covers-root (d ∷ ds) (h, hd) = (λ k. absurd (inside k), λ e. cc e)
  where
    inside : ¬ (covers (slash ∷ []) (slash ∷ d ++ print ds) ≡ true)
    inside k =
        let (rest, e, b) = covers→append _ _ k in
        not-Boundary-name d (print ds) h (subst Boundary (sym (behind e)) b)
      where
        behind : {rest : Bytes} → slash ∷ d ++ print ds ≡ slash ∷ rest → d ++ print ds ≡ rest
        behind e = cc e
