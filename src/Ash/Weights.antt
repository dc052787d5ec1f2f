-- ===== src/Ash/Weights.antt =====
-- The depth of calls that `parseArithExpr` (applets/ash/ash.go) takes, by the weight of its text.
use go_busybox.Prelude.{
  ℕ, zero, suc, ◌+◌, ◌≤◌, ◌<◌, ◌≡◌, refl, sym, ap, ◌∙◌, inl, inr, Option, none, some, List, [], ◌∷◌,
  ◌++◌, arith, Bytes, ◌==◌, ==_iff, Bool-cases, length, drop, All,
}
use go_busybox.Go.Int64.Decimals.{IsNumeral, format_int-IsNumeral, format_int-length}
use go_busybox.Go.Int64.{format_int}
use go_busybox.Go.Strings.{split_2}
use go_busybox.Go.Strings.Trim.{trim_space, trim_space-le}
use go_busybox.Ash.Scan.{
  Verdict, bar, latest, hit, miss, Found, absent, barred, found, backward, scan, scan-append,
}
use go_busybox.Ash.Levels.{
  Level, levels, Split, whole, split, named, split_level, or_else, split_levels, find_binary,
}
use go_busybox.Ash.Arith.{BinOp, symbol}
use go_busybox.Ash.Eval.{
  weight, count_open, last_group, Group, group, opened_at, closed_at, open_test,
}

pub weight-append : (s t : Bytes) → weight (s ++ t) ≡ weight s + weight t
unfolding weight
weight-append [] t = omega arith
weight-append (c ∷ s) t = omega (arith, weight-append s t)

pub count_open-append : (s t : Bytes) → count_open (s ++ t) ≡ count_open s + count_open t
unfolding count_open
count_open-append [] t = omega arith
count_open-append (c ∷ s) t = omega (arith, count_open-append s t)

pub weight-cons : (c : ℕ) (s : Bytes) → weight s < weight (c ∷ s)
unfolding weight
weight-cons c s = ground arith

pub weight-trim_space : (s : Bytes) → weight (trim_space s) ≤ weight s
unfolding weight
weight-trim_space s = trim_space-le weight refl (λ b s t h. omega (arith, h)) (λ b s. omega arith) s

weight-drop : (k : ℕ) (s : Bytes) → 0 < k → 0 < length s → weight (drop k s) < weight s
weight-drop zero s h n = elim h [ ]
weight-drop (suc k) [] h n = elim n [ ]
weight-drop (suc zero) (c ∷ s) h n = weight-cons c s
weight-drop (suc (suc k)) (c ∷ []) h n = weight-cons c []
weight-drop (suc (suc k)) (c ∷ d ∷ s) h n =
    omega (arith, weight-drop (suc k) (d ∷ s) (omega arith) (omega arith), weight-cons c (d ∷ s))

weight_pos : (s : Bytes) → 0 < length s → 0 < weight s
weight_pos [] h = elim h [ ]
weight_pos (c ∷ s) h = omega (arith, weight-cons c s)

symbol_pos : (op : BinOp) → 0 < length (symbol op)
unfolding symbol
symbol_pos BinOp.log_or = omega arith
symbol_pos op = omega arith

-- Both sides of a split weigh less than the whole.
abbrev pub Lighter : Bytes → Split → Type 0
Lighter s whole = Unit
Lighter s (split l op r) = (weight l < weight s) × (weight r < weight s)

named-Lighter :
    (name : Bytes → BinOp) (s : Bytes) (o : Found)
    → ((l r : Bytes) → o ≡ found l r → (l ++ r ≡ s) × (0 < length r))
    → Lighter s (named name o)
unfolding named
named-Lighter name s absent h = tt
named-Lighter name s barred h = tt
named-Lighter name s (found l r) h =
    let (e, p) = h l r refl in
    let w : weight s ≡ weight l + weight r = ap weight (sym e) ∙ weight-append l r in
    let k = length (symbol (name r)) in
    (omega (arith, w, weight_pos r p), omega (arith, w, weight-drop k r (symbol_pos (name r)) p))

or_else-Lighter : (s : Bytes) (a b : Split) → Lighter s a → Lighter s b → Lighter s (or_else a b)
unfolding or_else
or_else-Lighter s whole b h k = k
or_else-Lighter s (split l op r) b h k = h

split_levels-Lighter : (vs : List Level) (s : Bytes) → Lighter s (split_levels vs s)
unfolding split_levels split_level
split_levels-Lighter [] s = tt
split_levels-Lighter (v ∷ vs) s =
    or_else-Lighter s (split_level v s) (split_levels vs s)
      (named-Lighter v.name s (scan v.direction v.test none s)
        (λ l r e. scan-append v.direction v.test none s e))
      (split_levels-Lighter vs s)

pub find_binary-Lighter : (s : Bytes) → Lighter s (find_binary s)
unfolding find_binary
find_binary-Lighter s = split_levels-Lighter levels s

-- At a byte, the parts weigh less than the whole by at least 1.
abbrev pub Parted : ℕ → Bytes → Bytes × Option Bytes → Type 0
Parted b s (l, none) = Unit
Parted b s (l, some r) = s ≡ l ++ b ∷ r

pub split_2-Parted : (s : Bytes) (b : ℕ) → Parted b s (split_2 s b)
unfolding split_2
split_2-Parted [] b = tt
split_2-Parted (c ∷ s) b = elim (Bool-cases (c == b)) [
  | inl e ↦ rw e (ap (λ t. t ∷ s) ((==_iff c b).0 e))
  | inr e ↦ rw e (step c (split_2 s b) (split_2-Parted s b))
]
  where
    step : (c : ℕ) (o : Bytes × Option Bytes) → Parted b s o → Parted b (c ∷ s) (c ∷ o.0, o.1)
    step c (l, none) h = tt
    step c (l, some r) h = ap (λ t. c ∷ t) h

-- The parts of the group that is taken.
abbrev pub Grouped : Bytes → Group → Type 0
Grouped s (group before inner after) = s ≡ before ++ b'(' ∷ (inner ++ b')' ∷ after)
Grouped s Group.no_group = Unit

latest-opens :
    (v : Verdict) (c : ℕ) (s : Bytes) (o : Found) {l r : Bytes}
    → (v ≡ hit → c ≡ b'(')
    → ((l' r' : Bytes) → o ≡ found l' r' → r' ≡ b'(' ∷ drop 1 r')
    → latest v c s o ≡ found l r
    → r ≡ b'(' ∷ drop 1 r
unfolding latest
latest-opens v c s (found l' r') at ih h = ground (arith, ih l' r' refl)
latest-opens v c s barred at ih h = cc
latest-opens miss c s absent at ih h = cc
latest-opens hit c s absent at ih h = ground (arith, at refl)
latest-opens bar c s absent at ih h = cc

-- Where the search stops, a parenthesis opens.
scan-opens :
    (prev : Option ℕ) (s : Bytes) {l r : Bytes}
    → scan backward open_test prev s ≡ found l r
    → r ≡ b'(' ∷ drop 1 r
unfolding scan
scan-opens prev [] h = cc
scan-opens prev (c ∷ s) h =
    latest-opens (open_test prev (c ∷ s)) c s (scan backward open_test (some c) s)
      (unfold open_test in λ e. ground arith) (λ l' r' e. scan-opens (some c) s e) h

closed_at-Grouped :
    (s l r : Bytes) (o : Bytes × Option Bytes)
    → s ≡ l ++ b'(' ∷ r
    → Parted b')' r o
    → Grouped s (closed_at l o)
unfolding closed_at
closed_at-Grouped s l r (inner, none) e h = tt
closed_at-Grouped s l r (inner, some after) e h = e ∙ ap (λ t. l ++ b'(' ∷ t) h

opened_at-Grouped :
    (s : Bytes) (o : Found)
    → ((l r : Bytes) → o ≡ found l r → s ≡ l ++ b'(' ∷ drop 1 r)
    → Grouped s (opened_at o)
unfolding opened_at
opened_at-Grouped s absent h = tt
opened_at-Grouped s barred h = tt
opened_at-Grouped s (found l r) h =
    closed_at-Grouped s l (drop 1 r) (split_2 (drop 1 r) b')') (h l r refl)
      (split_2-Parted (drop 1 r) b')')

pub last_group-Grouped : (s : Bytes) → Grouped s (last_group s)
unfolding last_group
last_group-Grouped s = opened_at-Grouped s (scan backward open_test none s) λ l r e.
    sym (scan-append backward open_test none s e).0 ∙ ap (λ t. l ++ t) (scan-opens none s e)

numeral-weight : (s : Bytes) → All IsNumeral s → (weight s ≡ length s) × (count_open s ≡ 0)
unfolding weight count_open
numeral-weight [] h = (refl, refl)
numeral-weight (c ∷ s) (inl e, h) = ground (arith, numeral-weight s h)
numeral-weight (c ∷ s) (inr e, h) = ground (arith, numeral-weight s h)

-- A group that is replaced by its value leaves a lighter text that opens one group less.
pub group-Lighter :
    (before inner after : Bytes) (v : ℕ)
    → (weight inner < weight (before ++ b'(' ∷ (inner ++ b')' ∷ after)))
      × (weight (before ++ (format_int v ++ after))
          < weight (before ++ b'(' ∷ (inner ++ b')' ∷ after)))
      × (count_open (before ++ (format_int v ++ after))
          < count_open (before ++ b'(' ∷ (inner ++ b')' ∷ after)))
unfolding weight count_open
group-Lighter before inner after v =
    (omega (arith, w), omega (arith, w, w', n.0, format_int-length v), omega (arith, c, c', n.1))
  where
    n : (weight (format_int v) ≡ length (format_int v)) × (count_open (format_int v) ≡ 0)
    n = numeral-weight (format_int v) (format_int-IsNumeral v)

    w :
        weight (before ++ b'(' ∷ (inner ++ b')' ∷ after))
        ≡ weight before + (21 + (weight inner + (1 + weight after)))
    w =
        weight-append before (b'(' ∷ (inner ++ b')' ∷ after))
        ∙ ap (λ (k : ℕ). weight before + (21 + k)) (weight-append inner (b')' ∷ after))

    w' :
        weight (before ++ (format_int v ++ after))
        ≡ weight before + (weight (format_int v) + weight after)
    w' =
        weight-append before (format_int v ++ after)
        ∙ ap (λ (k : ℕ). weight before + k) (weight-append (format_int v) after)

    c :
        count_open (before ++ b'(' ∷ (inner ++ b')' ∷ after))
        ≡ count_open before + (1 + (count_open inner + (0 + count_open after)))
    c =
        count_open-append before (b'(' ∷ (inner ++ b')' ∷ after))
        ∙ ap (λ (k : ℕ). count_open before + (1 + k)) (count_open-append inner (b')' ∷ after))

    c' :
        count_open (before ++ (format_int v ++ after))
        ≡ count_open before + (count_open (format_int v) + count_open after)
    c' =
        count_open-append before (format_int v ++ after)
        ∙ ap (λ (k : ℕ). count_open before + k) (count_open-append (format_int v) after)
