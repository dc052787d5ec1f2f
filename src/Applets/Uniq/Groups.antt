-- ===== src/Applets/Uniq/Groups.antt =====
-- The groups of adjacent lines with equal keys.
use go_busybox.Prelude.{
  ℕ, ◌+◌, ◌≡◌, refl, sym, ap, ◌∙◌, inl, inr, Bool, true, false, not, ◌&&◌, none, List, [], ◌∷◌,
  ◌++◌, append-nil, append_assoc, arith, Bytes, ltb, ◌==◌, if◌then◌else◌, str_eq, str_eq_iff,
  str_eq_refl, Bool-cases,
}
use go_busybox.Applets.Uniq.{Options, State, rendered, flush, step, loop, filtered, normalize}

-- A group: its first line and the number of its lines.
abbrev pub Group : Type 0
Group = Bytes × ℕ

module _ (key : Bytes → Bytes) where
  -- A line before some groups: it joins the first one if the keys agree.
  abbrev pub join_group : Bytes → List Group → List Group
  join_group l [] = (l, 1) ∷ []
  join_group l ((m, c) ∷ gs) =
      if str_eq (key m) (key l) then (l, c + 1) ∷ gs else (l, 1) ∷ (m, c) ∷ gs

  abbrev pub groups : List Bytes → List Group
  groups [] = []
  groups (l ∷ ls) = join_group l (groups ls)

-- Whether -d and -u let a group of `c` lines through.
abbrev pub kept : Options → ℕ → Bool
kept o c = not (o.dup && ltb c 2) && not (o.uniq && not (c == 1))

-- The first line of each group that is let through, with the number of its lines under -c.
abbrev pub selected : Options → List Group → List Bytes
selected o [] = []
selected o ((l, c) ∷ gs) = (if kept o c then rendered o l c ∷ [] else []) ++ selected o gs

abbrev bump : ℕ → List Group → List Group
bump k [] = []
bump k ((l, c) ∷ gs) = (l, c + k) ∷ gs

-- A state that holds a group.
within : Bytes → Bytes → ℕ → List Bytes → State
within p key count written = record {
  prev = p;
  prev_key = key;
  count = count;
  at_first = false;
  written = written;
}

flush-kept :
    (o : Options) (p key : Bytes) (c : ℕ) (w : List Bytes)
    → flush o (within p key c w)
      ≡ within p key c (w ++ (if kept o c then rendered o p c ∷ [] else []))
unfolding flush within
flush-kept o p key c w = elim (Bool-cases (o.dup && ltb c 2)) [
  | inl d ↦ rw d (ap (within p key c) (sym (append-nil w)))
  | inr d ↦ elim (Bool-cases (o.uniq && not (c == 1))) [
    | inl u ↦ rw d (rw u (ap (within p key c) (sym (append-nil w))))
    | inr u ↦ rw d (rw u refl)
  ]
]

join-first :
    (key : Bytes → Bytes) (l : Bytes) (gs : List Group)
    → (c : ℕ) × (rest : List Group) × (join_group key l gs ≡ (l, c) ∷ rest)
join-first key l [] = (1, [], refl)
join-first key l ((m, c) ∷ gs) = elim (Bool-cases (str_eq (key m) (key l))) [
  | inl e ↦ (c + 1, gs, rw e refl)
  | inr e ↦ (1, (m, c) ∷ gs, rw e refl)
]

-- Two lines with one key count as one group.
join-join :
    (key : Bytes → Bytes) (p l : Bytes) (gs : List Group) (k : ℕ)
    → key l ≡ key p
    → bump k (join_group key p (join_group key l gs)) ≡ bump (k + 1) (join_group key p gs)
join-join key p l [] k h =
    let same : str_eq (key l) (key p) ≡ true = rw h (str_eq_refl (key p)) in
    let e : 1 + 1 + k ≡ 1 + (k + 1) = omega arith in rw same (ap (λ n. (p, n) ∷ []) e)
join-join key p l ((m, c) ∷ gs) k h = elim (Bool-cases (str_eq (key m) (key l))) [
  | inl e ↦
      let same : str_eq (key l) (key p) ≡ true = rw h (str_eq_refl (key p)) in
      let e' : str_eq (key m) (key p) ≡ true = ap (str_eq (key m)) (sym h) ∙ e in
      let a : c + 1 + 1 + k ≡ c + 1 + (k + 1) = omega arith in
      rw e (rw same (rw e' (ap (λ n. (p, n) ∷ gs) a)))
  | inr e ↦
      let same : str_eq (key l) (key p) ≡ true = rw h (str_eq_refl (key p)) in
      let e' : str_eq (key m) (key p) ≡ false = ap (str_eq (key m)) (sym h) ∙ e in
      let a : 1 + 1 + k ≡ 1 + (k + 1) = omega arith in
      rw e (rw same (rw e' (ap (λ n. (p, n) ∷ (m, c) ∷ gs) a)))
]

bump-zero : (gs : List Group) → bump 0 gs ≡ gs
bump-zero [] = refl
bump-zero ((l, c) ∷ gs) = let e : c + 0 ≡ c = omega arith in ap (λ n. (l, n) ∷ gs) e

-- A line with another key begins a group.
bump-join :
    (key : Bytes → Bytes) (p l : Bytes) (gs : List Group) (k : ℕ)
    → str_eq (key l) (key p) ≡ false
    → bump k (join_group key p (join_group key l gs)) ≡ (p, 1 + k) ∷ join_group key l gs
bump-join key p l gs k e = let (c, rest, q) = join-first key l gs in rw q (rw e refl)

module _ (lower : ℕ → ℕ) (o : Options) where
  -- In a group that has begun with `p` and has `k` more lines, the loop writes what is let through
  -- of the groups from here on.
  loop-selected :
      (lines : List Bytes) (p : Bytes) (k : ℕ) (w : List Bytes)
      → (flush o (loop lower o lines (within p (normalize lower o p) (1 + k) w))).written
        ≡ w ++ selected o (bump k (groups (normalize lower o) (p ∷ lines)))
  unfolding loop step within
  loop-selected [] p k w =
      let text = if kept o (1 + k) then rendered o p (1 + k) ∷ [] else [] in
      ap (λ s. s.written) (flush-kept o p (normalize lower o p) (1 + k) w)
      ∙ ap (λ t. w ++ t) (sym (append-nil text))
  loop-selected (l ∷ lines) p k w =
      elim (Bool-cases (str_eq (normalize lower o l) (normalize lower o p))) [
        | inl e ↦
            let key = normalize lower o in
            let h : key l ≡ key p = (str_eq_iff (key l) (key p)).0 e in
            let c : 1 + k + 1 ≡ 1 + (k + 1) = omega arith in
            rw e (
              ap (λ n. (flush o (loop lower o lines (within p (key p) n w))).written) c
              ∙ loop-selected lines p (k + 1) w
              ∙ ap (λ gs. w ++ selected o gs) (sym (join-join key p l (groups key lines) k h)))
        | inr e ↦
            let key = normalize lower o in
            let text = if kept o (1 + k) then rendered o p (1 + k) ∷ [] else [] in
            let begun = λ (s : State). record s { prev = l; prev_key = key l; count = 1 } in
            rw e (
              ap (λ s. (flush o (loop lower o lines (begun s))).written)
                (flush-kept o p (key p) (1 + k) w)
              ∙ loop-selected lines l 0 (w ++ text)
              ∙ append_assoc w text (selected o (bump 0 (groups key (l ∷ lines))))
              ∙ ap (λ gs. w ++ (text ++ selected o gs)) (bump-zero (groups key (l ∷ lines)))
              ∙ ap (λ gs. w ++ selected o gs) (sym (bump-join key p l (groups key lines) k e)))
      ]

-- On any input that is read to its end, `uniq` writes one line for each group of adjacent lines
-- whose keys agree, the first line of the group, with the number of its lines under -c, if -d and
-- -u let a group of that size through.
pub filtered-selected :
    (lower : ℕ → ℕ) (o : Options) (lines : List Bytes)
    → filtered lower o lines none ≡ selected o (groups (normalize lower o) lines)
unfolding filtered loop step
filtered-selected lower o [] = unfold flush in refl
filtered-selected lower o (l ∷ lines) =
    unfold within in
    loop-selected lower o lines l 0 []
    ∙ ap (selected o) (bump-zero (groups (normalize lower o) (l ∷ lines)))
