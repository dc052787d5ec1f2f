-- ===== src/Ash/Operands.antt =====
-- Where `parseArithExpr` (applets/ash/ash.go) splits an operator between two numerals.
use go_busybox.Prelude.{
  ℕ, ◌≡◌, refl, sym, ap, ap₂, ◌∙◌, ◌⊎◌, inl, inr, Bool, true, false, none, some, List, [], ◌∷◌,
  ◌++◌, append-nil, append_assoc, Bytes, All,
}
use go_busybox.Go.Int.Decimal.{IsDigit}
use go_busybox.Ash.Scan.{Test, Found, Direction, choose, scan}
use go_busybox.Ash.Arith.{BinOp, symbol}
use go_busybox.Ash.Levels.{
  Level, levels, Split, whole, split, named, split_level, or_else, split_levels, find_binary,
}
use go_busybox.Ash.Blind.{Blind, graft, front, scan-behind, scan-front}
use go_busybox.Ash.Sights.{levels-Blind}

abbrev pub minus_sign : Bool → Bytes
minus_sign true = b'-' ∷ []
minus_sign false = []

-- A numeral: a sign and one or more digits.
pub record Numeral (s : Bytes) : Type 0 where
  pub negative : Bool
  pub first : ℕ
  pub others : Bytes
  pub spelled : s ≡ minus_sign negative ++ first ∷ others
  pub first_digit : IsDigit first
  pub other_digits : All IsDigit others

-- The search in `sign ++ digits ++ middle ++ digits`, from what one digit in the place of the
-- second digits shows.
abbrev seen_front : Direction → Test → Bool → Bytes → Bytes → Found → Found
seen_front d p true ds rest o = choose d (p none (b'-' ∷ b'0' ∷ [])) b'-' (ds ++ rest) (front ds o)
seen_front d p false ds rest o = front ds o

abbrev seen : Level → Bool → Bytes → Bytes → Bytes → Found
seen v na da m db =
    seen_front v.direction v.test na da (m ++ db)
      (graft db (scan v.direction v.test (some b'0') (m ++ b'0' ∷ [])))

abbrev seen_levels : List Level → Bool → Bytes → Bytes → Bytes → Split
seen_levels [] na da m db = whole
seen_levels (v ∷ vs) na da m db =
    or_else (named v.name (seen v na da m db)) (seen_levels vs na da m db)

module _ (c : ℕ) (da : Bytes) (x : ℕ) (db : Bytes) (hc : IsDigit c) (ha : All IsDigit da)
    (hx : IsDigit x) (hb : All IsDigit db) where
  scan-seen :
      (v : Level) (na : Bool) (m : Bytes)
      → Blind v.test
      → scan v.direction v.test none (minus_sign na ++ (c ∷ (da ++ (m ++ x ∷ db))))
        ≡ seen v na (c ∷ da) m (x ∷ db)
  unfolding scan
  scan-seen v false m b =
      scan-front b v.direction none c da (m ++ x ∷ db) hc ha
      ∙ ap (front (c ∷ da)) (scan-behind b v.direction (some b'0') m x db hx hb)
  scan-seen v true m b = rw (b.near none b'-' c (da ++ (m ++ x ∷ db))) (
      rw (b.ahead none b'-' c hc) (
        ap (choose v.direction (v.test none (b'-' ∷ b'0' ∷ [])) b'-' (c ∷ (da ++ (m ++ x ∷ db)))) (
          scan-front b v.direction (some b'-') c da (m ++ x ∷ db) hc ha
          ∙ ap (front (c ∷ da)) (scan-behind b v.direction (some b'0') m x db hx hb))))

  split_levels-seen :
      (vs : List Level) (na : Bool) (m : Bytes)
      → All (λ v. Blind v.test) vs
      → split_levels vs (minus_sign na ++ (c ∷ (da ++ (m ++ x ∷ db))))
        ≡ seen_levels vs na (c ∷ da) m (x ∷ db)
  unfolding split_levels split_level
  split_levels-seen [] na m h = refl
  split_levels-seen (v ∷ vs) na m (hv, h) =
      rw (scan-seen v na m hv) (ap (or_else _) (split_levels-seen vs na m h))

-- At a concrete operator the tests are evaluated.
operator-seen :
    (op : BinOp) (na nb : Bool) (da db : Bytes)
    → seen_levels levels na da (symbol op ++ minus_sign nb) db
      ≡ split (minus_sign na ++ (da ++ [])) op (minus_sign nb ++ db)
unfolding levels symbol scan choose graft front named or_else
operator-seen BinOp.log_or true true da db = refl
operator-seen op true true da db = refl
operator-seen BinOp.log_or true false da db = refl
operator-seen op true false da db = refl
operator-seen BinOp.log_or false true da db = refl
operator-seen op false true da db = refl
operator-seen BinOp.log_or false false da db = refl
operator-seen op false false da db = refl

regroup : (a b m n d : Bytes) → (a ++ b) ++ (m ++ (n ++ d)) ≡ a ++ (b ++ ((m ++ n) ++ d))
regroup a b m n d = simp append_assoc

-- Between two numerals the text is split at the operator.
pub find_binary-numerals :
    (op : BinOp) {s t : Bytes}
    → Numeral s
    → Numeral t
    → find_binary (s ++ (symbol op ++ t)) ≡ split s op t
unfolding find_binary
find_binary-numerals op n k =
    ap₂ (λ u v. split_levels levels (u ++ (symbol op ++ v))) n.spelled k.spelled
    ∙ ap (split_levels levels) (
        regroup (minus_sign n.negative) (n.first ∷ n.others) (symbol op) (minus_sign k.negative)
          (k.first ∷ k.others))
    ∙ split_levels-seen n.first n.others k.first k.others n.first_digit n.other_digits k.first_digit
        k.other_digits levels n.negative (symbol op ++ minus_sign k.negative) levels-Blind
    ∙ operator-seen op n.negative k.negative (n.first ∷ n.others) (k.first ∷ k.others)
    ∙ ap₂ (λ u v. split u op v)
        (ap (λ u. minus_sign n.negative ++ u) (append-nil (n.first ∷ n.others)) ∙ sym n.spelled)
        (sym k.spelled)

-- The searches in a text that ends in digits.
abbrev pub alone_levels : List Level → Bytes → Bytes → Split
alone_levels [] m db = whole
alone_levels (v ∷ vs) m db =
    or_else (named v.name (graft db (scan v.direction v.test none (m ++ b'0' ∷ []))))
      (alone_levels vs m db)

pub split_levels-alone :
    (vs : List Level) (m : Bytes) (c : ℕ) (ds : Bytes)
    → IsDigit c
    → All IsDigit ds
    → All (λ v. Blind v.test) vs
    → split_levels vs (m ++ c ∷ ds) ≡ alone_levels vs m (c ∷ ds)
unfolding split_levels split_level
split_levels-alone [] m c ds hc hd h = refl
split_levels-alone (v ∷ vs) m c ds hc hd (hv, h) =
    rw (scan-behind hv v.direction none m c ds hc hd)
      (ap (or_else _) (split_levels-alone vs m c ds hc hd h))

sign-seen : (n : Bool) (ds : Bytes) → alone_levels levels (minus_sign n) ds ≡ whole
unfolding levels symbol scan choose graft named or_else
sign-seen true ds = refl
sign-seen false ds = refl

-- A numeral is not split, whatever its sign.
pub find_binary-numeral : {s : Bytes} → Numeral s → find_binary s ≡ whole
unfolding find_binary
find_binary-numeral n =
    ap (split_levels levels) n.spelled
    ∙ split_levels-alone levels (minus_sign n.negative) n.first n.others n.first_digit
        n.other_digits levels-Blind
    ∙ sign-seen n.negative (n.first ∷ n.others)

-- A sign before a numeral, or another prefix before one without a sign, is no operator.
prefix-seen :
    (u : ℕ) (n : Bool) (ds : Bytes)
    → ((u ≡ b'-') ⊎ (u ≡ b'+')) ⊎ (((u ≡ b'!') ⊎ (u ≡ b'~')) × (n ≡ false))
    → alone_levels levels (u ∷ minus_sign n) ds ≡ whole
unfolding levels symbol scan choose graft named or_else
prefix-seen u true ds (inl (inl e)) = rw e
prefix-seen u false ds (inl (inl e)) = rw e
prefix-seen u true ds (inl (inr e)) = rw e
prefix-seen u false ds (inl (inr e)) = rw e
prefix-seen u true ds (inr (e, f)) = cc f
prefix-seen u false ds (inr (inl e, f)) = rw e
prefix-seen u false ds (inr (inr e, f)) = rw e

pub find_binary-prefix :
    (u : ℕ) {s : Bytes} (n : Numeral s)
    → ((u ≡ b'-') ⊎ (u ≡ b'+')) ⊎ (((u ≡ b'!') ⊎ (u ≡ b'~')) × (n.negative ≡ false))
    → find_binary (u ∷ s) ≡ whole
unfolding find_binary
find_binary-prefix u n h =
    ap (λ t. split_levels levels (u ∷ t)) n.spelled
    ∙ split_levels-alone levels (u ∷ minus_sign n.negative) n.first n.others n.first_digit
        n.other_digits levels-Blind
    ∙ prefix-seen u n.negative (n.first ∷ n.others) h
