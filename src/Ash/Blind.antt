-- ===== src/Ash/Blind.antt =====
-- The search for an operator (applets/ash/ash.go, `parseArithExpr`) does not look into numerals: its
-- tests tell no digit from another.
use go_busybox.Prelude.{ℕ, ◌≡◌, refl, sym, ap, ◌∙◌, Option, some, [], ◌∷◌, ◌++◌, arith, Bytes, All}
use go_busybox.Go.Int.Decimal.{IsDigit}
use go_busybox.Ash.Scan.{
  Verdict, miss, hit, bar, Test, Found, absent, barred, found, Direction, backward, forward, latest,
  earliest, choose, scan,
}

pub record Blind (p : Test) : Type 0 where
  pub silent : (prev : Option ℕ) (c : ℕ) (s : Bytes) → IsDigit c → p prev (c ∷ s) ≡ miss
  pub behind : (c : ℕ) (s : Bytes) → IsDigit c → p (some c) s ≡ p (some b'0') s
  pub ahead : (prev : Option ℕ) (x c : ℕ) → IsDigit c → p prev (x ∷ c ∷ []) ≡ p prev (x ∷ b'0' ∷ [])
  pub near : (prev : Option ℕ) (x y : ℕ) (s : Bytes) → p prev (x ∷ y ∷ s) ≡ p prev (x ∷ y ∷ [])

-- All but the last byte.
abbrev pub init : Bytes → Bytes
init [] = []
init (x ∷ []) = []
init (x ∷ y ∷ s) = x ∷ init (y ∷ s)

init-snoc : (s : Bytes) (c : ℕ) → init (s ++ c ∷ []) ≡ s
init-snoc [] c = refl
init-snoc (x ∷ []) c = refl
init-snoc (x ∷ y ∷ s) c = ap (λ t. x ∷ t) (init-snoc (y ∷ s) c)

-- A split of a text that ends in one digit, with other digits in its place.
unfoldable pub graft : Bytes → Found → Found
graft ds absent = absent
graft ds barred = barred
graft ds (found l r) = found l (init r ++ ds)

-- A split with a text in front.
unfoldable pub front : Bytes → Found → Found
front ds absent = absent
front ds barred = barred
front ds (found l r) = found (ds ++ l) r

choose-graft :
    (d : Direction) (v : Verdict) (x : ℕ) (m ds : Bytes) (o : Found)
    → choose d v x (m ++ ds) (graft ds o) ≡ graft ds (choose d v x (m ++ b'0' ∷ []) o)
unfolding choose latest earliest graft
choose-graft backward miss x m ds absent = refl
choose-graft backward bar x m ds absent = refl
choose-graft backward hit x m ds absent =
    ap (λ t. found [] (t ++ ds)) (sym (init-snoc (x ∷ m) b'0'))
choose-graft backward v x m ds barred = refl
choose-graft backward v x m ds (found l r) = refl
choose-graft forward hit x m ds o = ap (λ t. found [] (t ++ ds)) (sym (init-snoc (x ∷ m) b'0'))
choose-graft forward bar x m ds o = refl
choose-graft forward miss x m ds absent = refl
choose-graft forward miss x m ds barred = refl
choose-graft forward miss x m ds (found l r) = refl

choose-front :
    (d : Direction) (c : ℕ) (s ds : Bytes) (o : Found)
    → choose d miss c s (front ds o) ≡ front (c ∷ ds) o
unfolding choose latest earliest front
choose-front backward c s ds absent = refl
choose-front backward c s ds barred = refl
choose-front backward c s ds (found l r) = refl
choose-front forward c s ds absent = refl
choose-front forward c s ds barred = refl
choose-front forward c s ds (found l r) = refl

front-nil : (o : Found) → front [] o ≡ o
unfolding front
front-nil absent = refl
front-nil barred = refl
front-nil (found l r) = refl

choose-absent : (d : Direction) (c : ℕ) (s : Bytes) → choose d miss c s absent ≡ absent
unfolding choose latest earliest
choose-absent backward c s = refl
choose-absent forward c s = refl

module _ {p : Test} (b : Blind p) (d : Direction) where
  pub scan-digits : (prev : Option ℕ) (ds : Bytes) → All IsDigit ds → scan d p prev ds ≡ absent
  unfolding scan
  scan-digits prev [] h = refl
  scan-digits prev (c ∷ ds) (hc, h) =
      rw (b.silent prev c ds hc) (rw (scan-digits (some c) ds h) (choose-absent d c ds))

  look :
      (prev : Option ℕ) (x : ℕ) (m : Bytes) (c : ℕ) (ds : Bytes)
      → IsDigit c
      → p prev (x ∷ (m ++ c ∷ ds)) ≡ p prev (x ∷ (m ++ b'0' ∷ []))
  look prev x [] c ds hc = b.near prev x c ds ∙ b.ahead prev x c hc
  look prev x (y ∷ m) c ds hc =
      b.near prev x y (m ++ c ∷ ds) ∙ sym (b.near prev x y (m ++ b'0' ∷ []))

  -- Digits at the end count as one digit.
  pub scan-behind :
      (prev : Option ℕ) (m : Bytes) (c : ℕ) (ds : Bytes)
      → IsDigit c
      → All IsDigit ds
      → scan d p prev (m ++ c ∷ ds) ≡ graft (c ∷ ds) (scan d p prev (m ++ b'0' ∷ []))
  unfolding scan graft
  scan-behind prev [] c ds hc h =
      scan-digits prev (c ∷ ds) (hc, h)
      ∙ sym (ap (graft (c ∷ ds)) (scan-digits prev (b'0' ∷ []) ((omega arith, omega arith), tt)))
  scan-behind prev (x ∷ m) c ds hc h = rw (look prev x m c ds hc) (
      rw (scan-behind (some x) m c ds hc h) (
        choose-graft d (p prev (x ∷ (m ++ b'0' ∷ []))) x m (c ∷ ds)
          (scan d p (some x) (m ++ b'0' ∷ []))))

  scan-prev : (c : ℕ) (s : Bytes) → IsDigit c → scan d p (some c) s ≡ scan d p (some b'0') s
  unfolding scan
  scan-prev c [] hc = refl
  scan-prev c (x ∷ s) hc = rw (b.behind c (x ∷ s) hc) refl

  -- Digits in front count as the digit that the tests see behind them.
  pub scan-front :
      (prev : Option ℕ) (c : ℕ) (ds rest : Bytes)
      → IsDigit c
      → All IsDigit ds
      → scan d p prev (c ∷ (ds ++ rest)) ≡ front (c ∷ ds) (scan d p (some b'0') rest)
  unfolding scan
  scan-front prev c [] rest hc h = rw (b.silent prev c rest hc) (
      rw (scan-prev c rest hc) (
        ap (choose d miss c rest) (sym (front-nil (scan d p (some b'0') rest)))
        ∙ choose-front d c rest [] (scan d p (some b'0') rest)))
  scan-front prev c (x ∷ ds) rest hc (hx, h) = rw (b.silent prev c (x ∷ (ds ++ rest)) hc) (
      rw (scan-front (some c) x ds rest hx h)
        (choose-front d c (x ∷ (ds ++ rest)) (x ∷ ds) (scan d p (some b'0') rest)))
