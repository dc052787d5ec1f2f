-- ===== src/TextUtil/Chars/Loop.antt =====
-- `BuildCharFunc` against the list of selected positions.
use mathlib.Core.List.{flat_map}
use go_busybox.Prelude.{
  ℕ, zero, suc, ◌+◌, ◌-◌, ◌≤◌, ◌<◌, ◌≡◌, refl, sym, ap, subst, fun_ext, ◌∙◌, inl, inr, Bool, true,
  false, Option, some, List, [], ◌∷◌, ◌++◌, map, append-nil, append_assoc, arith, Bytes, ltb, ◌==◌,
  if◌then◌else◌, Bool-cases, length, get_elem?, set, length-set, get_or, bind_assoc,
  get_elem?-get_or, get_elem?-replicate, get_elem?-set_self, get_elem?-set_ne, length-replicate,
  replicate, All, All-append, ◌>>=◌,
}
use go_busybox.Go.Utf8.{runes, encode}
use go_busybox.TextUtil.Ranges.{Range}
use go_busybox.TextUtil.Fields.{range_start, range_end}
use go_busybox.TextUtil.Fields.Select.{range_start-pos, range_end-le}
use go_busybox.TextUtil.Chars.{Marks, char_at_position, char_range, char_ranges, char_func}
use go_busybox.TextUtil.Chars.Distinct.{elem, distinct, count_up}

-- The rune at a 1-based position.
abbrev pub rune_at : List ℕ → ℕ → ℕ
rune_at rs i = get_or rs (i - 1) 0

-- The positions of a range in a line of `n` runes.
abbrev pub positions : ℕ → Range → List ℕ
positions n r =
    if ltb n (range_start r)
    then []
    else count_up (range_end n r + 1 - range_start r) (range_start r)

abbrev Within : ℕ → List ℕ → Type 0
Within n = All (λ p. (0 < p) × (p ≤ n))

-- How many positions of a line with these runes a range holds.
abbrev rounds_in : List ℕ → Range → ℕ
rounds_in rs r = range_end (length rs) r + 1 - range_start r

-- The loop over any list of positions.
mark_all : List ℕ → List ℕ → Marks → Option Marks
mark_all [] rs m = some m
mark_all (p ∷ ps) rs m = do m' ← char_at_position p rs m; mark_all ps rs m'

mark_all-append :
    (ps qs rs : List ℕ) (m : Marks)
    → mark_all (ps ++ qs) rs m ≡ (mark_all ps rs m >>= mark_all qs rs)
unfolding mark_all
mark_all-append [] qs rs m = refl
mark_all-append (p ∷ ps) qs rs m =
    ap (λ f. char_at_position p rs m >>= f) (fun_ext (mark_all-append ps qs rs))
    ∙ sym (bind_assoc (char_at_position p rs m) (mark_all ps rs) (mark_all qs rs))

char_range-mark_all :
    (n i : ℕ) (rs : List ℕ) (m : Marks) → char_range n i rs m ≡ mark_all (count_up n i) rs m
unfolding char_range mark_all
char_range-mark_all zero i rs m = refl
char_range-mark_all (suc n) i rs m =
    ap (λ f. char_at_position i rs m >>= f) (fun_ext (char_range-mark_all n (i + 1) rs))

char_ranges-mark_all :
    (ranges : List Range) (rs : List ℕ) (m : Marks)
    → char_ranges ranges rs m ≡ mark_all (flat_map (positions (length rs)) ranges) rs m
unfolding char_ranges mark_all flat_map
char_ranges-mark_all [] rs m = refl
char_ranges-mark_all (r ∷ ranges) rs m = elim (Bool-cases (ltb (length rs) (range_start r))) [
  | inl past ↦ rw past (char_ranges-mark_all ranges rs m)
  | inr there ↦ rw there (
      sym (
        mark_all-append (count_up (rounds_in rs r) (range_start r))
          (flat_map (positions (length rs)) ranges) rs m
        ∙ ap (λ o. o >>= mark_all (flat_map (positions (length rs)) ranges) rs)
            (sym (char_range-mark_all (rounds_in rs r) (range_start r) rs m))
        ∙ ap (λ f. char_range (rounds_in rs r) (range_start r) rs m >>= f)
            (sym (fun_ext (char_ranges-mark_all ranges rs)))))
]

count_up-Within : (k i n : ℕ) → 0 < i → i - 1 + k ≤ n → Within n (count_up k i)
count_up-Within zero i n h le = tt
count_up-Within (suc k) i n h le =
    ((h, omega arith), count_up-Within k (i + 1) n (omega arith) (omega arith))

-- The array marks the positions that are seen.
record Marked (n : ℕ) (seen : List Bool) (visited : List ℕ) : Type 0 where
  size : length seen ≡ n + 1
  marks : (j : ℕ) → j ≤ n → get_elem? seen j ≡ some (elem j visited)

Marked-start : (n : ℕ) → Marked n (replicate (n + 1) false) []
Marked-start n = record {
  size = length-replicate (n + 1) false;
  marks = λ j h. get_elem?-replicate (n + 1) j false (omega arith);
}

Marked-set :
    (n p : ℕ) (seen : List Bool) (visited : List ℕ)
    → p ≤ n
    → Marked n seen visited
    → Marked n (set seen p true) (p ∷ visited)
Marked-set n p seen visited h m = record {
  size = length-set seen p true ∙ m.size;
  marks = λ j k. elim (Bool-cases (j == p)) [
    | inl e ↦ rw e (
        subst (λ t. get_elem? (set seen p true) t ≡ some true) (sym (same_position j e))
          (get_elem?-set_self seen p true (omega (arith, m.size))))
    | inr e ↦ rw e (get_elem?-set_ne seen true (ground arith) ∙ m.marks j k)
  ];
}
  where
    same_position : (j : ℕ) → (j == p) ≡ true → j ≡ p
    same_position j e = ground arith

-- One position: what is written, and what is marked.
char_at_position_lem :
    (p : ℕ) (rs : List ℕ) (seen : List Bool) (visited out : List ℕ)
    → 0 < p
    → p ≤ length rs
    → Marked (length rs) seen visited
    → char_at_position p rs (seen, out)
      ≡ some (if elem p visited then (seen, out) else (set seen p true, out ++ rune_at rs p ∷ []))
unfolding char_at_position
char_at_position_lem p rs seen visited out h k m =
    rw (m.marks p k, get_elem?-get_or rs (p - 1) 0 (omega arith)) refl

mark_all-distinct :
    (ps rs : List ℕ) (seen : List Bool) (visited out : List ℕ)
    → Within (length rs) ps
    → Marked (length rs) seen visited
    → (seen' : List Bool) × (mark_all ps rs (seen, out)
        ≡ some (seen', out ++ map (rune_at rs) (distinct visited ps)))
unfolding mark_all
mark_all-distinct [] rs seen visited out h m = (seen, rw append-nil)
mark_all-distinct (p ∷ ps) rs seen visited out ((h, k), hs) m =
    let rest_old = mark_all-distinct ps rs seen visited out hs m in
    let rest_new =
      mark_all-distinct ps rs (set seen p true) (p ∷ visited) (out ++ rune_at rs p ∷ []) hs
        (Marked-set (length rs) p seen visited k m) in
    elim (Bool-cases (elem p visited)) [
      | inl old ↦
          (rest_old.0, rw (char_at_position_lem p rs seen visited out h k m, old) rest_old.1)
      | inr new ↦ (
        rest_new.0,
        rw (char_at_position_lem p rs seen visited out h k m, new)
            (rest_new.1 ∙ ap (λ t. some (rest_new.0, t)) (append_assoc out (rune_at rs p ∷ []) _)),
      )
    ]

positions-Within : (n : ℕ) (r : Range) → Within n (positions n r)
positions-Within n r = elim (Bool-cases (ltb n (range_start r))) [
  | inl e ↦ rw e tt
  | inr e ↦ rw e (count_up-Within _ (range_start r) n (range_start-pos r) (fits e))
]
  where
    fits :
        ltb n (range_start r) ≡ false → range_start r - 1 + (range_end n r + 1 - range_start r) ≤ n
    fits e = ground (arith, range_start-pos r, range_end-le n r)

all_positions-Within : (n : ℕ) (ranges : List Range) → Within n (flat_map (positions n) ranges)
unfolding flat_map
all_positions-Within n [] = tt
all_positions-Within n (r ∷ ranges) =
    All-append _ (positions n r) _ (positions-Within n r) (all_positions-Within n ranges)

-- `cut -c` on a line never reads or marks a position that is not there, and prints the characters
-- at the positions of the ranges, range after range, each position once, where it first comes.
pub char_func_lem :
    (ranges : List Range) (line : Bytes)
    → char_func ranges line
      ≡ some (
          encode (
            map
              (rune_at (runes line))
              (distinct [] (flat_map (positions (length (runes line))) ranges))))
unfolding char_func
char_func_lem ranges line =
    let rs = runes line in
    let (seen, e) =
      mark_all-distinct (flat_map (positions (length rs)) ranges) rs
        (replicate (length rs + 1) false) [] [] (all_positions-Within (length rs) ranges)
        (Marked-start (length rs)) in
    rw (char_ranges-mark_all ranges rs (replicate (length rs + 1) false, []), e)
