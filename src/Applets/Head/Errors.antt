-- ===== src/Applets/Head/Errors.antt =====
-- When the loop of `headFile` (applets/head/head.go) meets an error.
use go_busybox.Prelude.{
  ℕ, zero, suc, ◌+◌, ◌≡◌, refl, ap, ◌∙◌, inl, inr, Bool, true, false, not, ◌&&◌, Option, none, some,
  List, [], ◌∷◌, ◌++◌, arith, Bytes, ltb, leb, ◌==◌, if◌then◌else◌, Bool-cases, length,
  length-append,
}
use go_busybox.Core.{Reader}
use go_busybox.Core.Lines.{max_token, token_too_long, scan, cut_lines, fitting, last_line}
use go_busybox.Applets.Head.{first_error, is_none, head_lines}

-- Whether `n` lines are read without an error, byte by byte: no line may have as many as `max_token`
-- bytes, and an input that ends before the n-th newline may not end with a read error. `k` is the number of
-- bytes of the line so far.
abbrev pub reads : ℕ → ℕ → Option Bytes → Bytes → Bool
reads zero k failure s = true
reads (suc n) k failure [] = ltb k max_token && is_none failure
reads (suc n) k failure (c ∷ s) =
    if c == 10 then ltb k max_token && reads n 0 failure s else reads (suc n) (k + 1) failure s

-- The test of `first_error`, on the number of lines that are delivered, whether a line is too long, and
-- whether there is a last line without a newline.
abbrev verdict : ℕ → Option Bytes → ℕ → Bool → Bool → Bool
verdict n failure delivered long left =
    let err = if long then some token_too_long else failure in
    is_none
      (if ltb delivered n then err else if delivered == n && (left && not long) then err else none)

verdict-suc :
    (n : ℕ) (f : Option Bytes) (k : ℕ) (long left : Bool)
    → verdict (suc n) f (suc k) long left ≡ verdict n f k long left
verdict-suc n f k long left =
    let e : ltb (suc k) (suc n) ≡ ltb k n = ground arith in
    let g : (suc k == suc n) ≡ (k == n) = ground arith in rw e (rw g refl)

abbrev judged : ℕ → Option Bytes → List Bytes × Bytes → Bool
judged n f (lines, rest) =
    let texts = fitting (lines ++ last_line rest) in
    verdict n f (length texts.0) texts.1 (not (leb (length rest) 0))

and-false : (b : Bool) → (b && false) ≡ false
and-false true = refl
and-false false = refl

first_lt : (n : ℕ) → ltb 0 (suc n) ≡ true
first_lt n = ground arith

none_lt : (k : ℕ) → ltb k 0 ≡ false
none_lt k = ground arith

-- A last line without a newline is delivered, or a line is too long.
left-delivered :
    (lines : List Bytes) (rest : Bytes)
    → let texts = fitting (lines ++ last_line rest) in
      (length texts.0 == 0 && (not (leb (length rest) 0) && not texts.1)) ≡ false
unfolding fitting
left-delivered [] [] = refl
left-delivered [] (c ∷ rest) = elim (Bool-cases (ltb (length (c ∷ rest)) max_token)) [
  | inl e ↦ rw e refl
  | inr e ↦ rw e (and-false _)
]
left-delivered (l ∷ lines) rest = elim (Bool-cases (ltb (length l) max_token)) [
  | inl e ↦ rw e (ground arith)
  | inr e ↦ rw e (and-false _)
]

judged-zero :
    (f : Option Bytes) (lines : List Bytes) (rest : Bytes) → judged 0 f (lines, rest) ≡ true
unfolding fitting
judged-zero f lines rest =
    rw (none_lt (length (fitting (lines ++ last_line rest)).0))
      (rw (left-delivered lines rest) refl)

judged-cons :
    (n : ℕ) (f : Option Bytes) (cur : Bytes) (lines : List Bytes) (rest : Bytes)
    → judged (suc n) f (cur ∷ lines, rest)
      ≡ (ltb (length cur) max_token && judged n f (lines, rest))
unfolding fitting
judged-cons n f cur lines rest = elim (Bool-cases (ltb (length cur) max_token)) [
  | inl e ↦ rw e (verdict-suc n f _ _ _)
  | inr e ↦ rw e (rw (first_lt n) refl)
]

long_left : (m : ℕ) → leb (suc m) 0 ≡ false
long_left m = ground arith

last_judged : (n : ℕ) (f : Option Bytes) → verdict (suc n) f 1 false true ≡ is_none f
last_judged zero f = refl
last_judged (suc n) f = let e : ltb 1 (suc (suc n)) ≡ true = ground arith in rw e refl

judged-end :
    (n : ℕ) (f : Option Bytes) (cur : Bytes)
    → judged (suc n) f ([], cur) ≡ (ltb (length cur) max_token && is_none f)
unfolding fitting
judged-end n f [] = rw (first_lt n) refl
judged-end n f (c ∷ cur) = elim (Bool-cases (ltb (length (c ∷ cur)) max_token)) [
  | inl e ↦ rw e (rw (long_left (length cur)) (last_judged n f))
  | inr e ↦ rw e (rw (first_lt n) refl)
]

judged-reads :
    (n : ℕ) (f : Option Bytes) (s cur : Bytes)
    → judged n f (cut_lines s cur) ≡ reads n (length cur) f s
unfolding cut_lines
judged-reads zero f s cur = judged-zero f (cut_lines s cur).0 (cut_lines s cur).1
judged-reads (suc n) f [] cur = judged-end n f cur
judged-reads (suc n) f (c ∷ s) cur = elim (Bool-cases (c == 10)) [
  | inl e ↦ rw e (
      judged-cons n f cur (cut_lines s []).0 (cut_lines s []).1
      ∙ ap (λ b. ltb (length cur) max_token && b) (judged-reads n f s []))
  | inr e ↦ rw e (
      judged-reads (suc n) f s (cur ++ c ∷ [])
      ∙ ap (λ k. reads (suc n) k f s) (length-append cur (c ∷ [])))
]

pub head_lines-reads : (n : ℕ) (r : Reader) → (head_lines n r).1 ≡ reads n 0 r.failure r.content
unfolding head_lines first_error scan
head_lines-reads zero r = refl
head_lines-reads (suc n) r = judged-reads (suc n) r.failure r.content []
