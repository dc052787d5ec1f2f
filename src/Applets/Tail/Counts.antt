-- ===== src/Applets/Tail/Counts.antt =====
-- The counts from the start of an input: the lines and the bytes from a place on.
use go_busybox.Prelude.{
  ℕ, suc, ◌+◌, ◌-◌, ◌≤◌, ◌<◌, ◌≡◌, sym, ap, ◌∙◌, inl, inr, true, Option, List, [], ◌∷◌, ◌++◌,
  append-nil, append_assoc, arith, Bytes, ltb, leb, if◌then◌else◌, Bool-cases, length, drop,
  drop_all, drop-append_left, drop-append_right,
}
use go_busybox.Core.{Stdio, Reader, print, println}
use go_busybox.Core.Lines.{lines_text, print_lines-lines_text, print_lines, scan}
use go_busybox.Go.Int.{pos}
use go_busybox.Applets.Tail.{chunks_loop, tail_bytes_from, from_loop, is_none, tail_lines_from}

abbrev pub joined : List Bytes → Bytes
joined [] = []
joined (buf ∷ chunks) = buf ++ joined chunks

print_twice : (a b : Bytes) (s : Stdio) → print b (print a s) ≡ print (a ++ b) s
print_twice a b s = ap (λ o. record s { out = o }) (append_assoc s.out a b)

chunks_loop-drop :
    (chunks : List Bytes) (start here : ℕ) (s : Stdio)
    → 0 < here
    → chunks_loop chunks start here s ≡ print (drop (start - here) (joined chunks)) s
unfolding chunks_loop
chunks_loop-drop [] start here s h =
    sym (ap (λ t. print t s) (drop_all (start - here) [] (omega arith)) ∙ print-nil s)
  where
    print-nil : (s : Stdio) → print [] s ≡ s
    print-nil s = ap (λ o. record s { out = o }) (append-nil s.out)
chunks_loop-drop ([] ∷ chunks) start here s h = chunks_loop-drop chunks start here s h
chunks_loop-drop ((c ∷ buf) ∷ chunks) start here s h =
    elim (Bool-cases (leb start (here + length (c ∷ buf) - 1))) [
      | inl e ↦
          let next = here + length (c ∷ buf) - 1 + 1 in
          let p : (if ltb here start then start - here else 0) ≡ start - here = ground arith in
          let q : next - next ≡ 0 = omega arith in
          let r : start - here ≤ length (c ∷ buf) = ground arith in
          let pos : ltb 0 (length (c ∷ buf)) ≡ true = ground arith in
          rw pos (
            rw e (
              rw p (
                chunks_loop-drop chunks next next (print (drop (start - here) (c ∷ buf)) s)
                  (omega arith)
                ∙ ap (λ k. print (drop k (joined chunks)) (print (drop (start - here) (c ∷ buf)) s))
                    q
                ∙ print_twice (drop (start - here) (c ∷ buf)) (joined chunks) s
                ∙ ap (λ t. print t s)
                    (sym (drop-append_left (start - here) (c ∷ buf) (joined chunks) r)))))
      | inr e ↦
          let pos : ltb 0 (length (c ∷ buf)) ≡ true = ground arith in
          let next = here + length (c ∷ buf) - 1 + 1 in
          let r : length (c ∷ buf) ≤ start - here = ground arith in
          let q : start - next ≡ start - here - length (c ∷ buf) = omega arith in
          rw pos (
            rw e (
              chunks_loop-drop chunks start next s (omega arith)
              ∙ ap (λ k. print (drop k (joined chunks)) s) q
              ∙ ap (λ t. print t s)
                  (sym (drop-append_right (start - here) (c ∷ buf) (joined chunks) r))))
    ]

-- `tail -c +N` prints the bytes from the N-th on, whatever pieces the reads deliver; +0 is +1.
pub tail_bytes_from-drop :
    (start : ℕ) (chunks : List Bytes) (failure : Option Bytes) (s : Stdio)
    → tail_bytes_from start chunks failure s
      ≡ (print (drop (start - 1) (joined chunks)) s, is_none failure)
unfolding tail_bytes_from
tail_bytes_from-drop start chunks failure s =
    let e : (if ltb start 1 then 1 else start) - 1 ≡ start - 1 = ground arith in
    ap (λ t. (t, is_none failure))
      (chunks_loop-drop chunks (if ltb start 1 then 1 else start) 1 s (omega arith)
        ∙ ap (λ k. print (drop k (joined chunks)) s) e)

from_loop-drop :
    (start : ℕ) (lines : List Bytes) (num : ℕ) (s : Stdio)
    → from_loop (pos start) lines num s ≡ print_lines (drop (start - num) lines) s
unfolding from_loop print_lines
from_loop-drop start [] num s =
    sym (ap (λ t. print_lines t s) (drop_all (start - num) [] (omega arith)))
from_loop-drop start (line ∷ lines) num s = elim (Bool-cases (leb start num)) [
  | inl e ↦
      let p : start - num ≡ 0 = ground arith in
      let q : start - (num + 1) ≡ 0 = ground arith in
      rw e (
        from_loop-drop start lines (num + 1) (println line s)
        ∙ ap (λ k. print_lines (drop k lines) (println line s)) q
        ∙ ap (λ k. print_lines (drop k (line ∷ lines)) s) (sym p))
  | inr e ↦
      let p : start - num ≡ suc (start - (num + 1)) = ground arith in
      rw e (
        from_loop-drop start lines (num + 1) s
        ∙ ap (λ k. print_lines (drop k (line ∷ lines)) s) (sym p))
]

-- `tail -n +N` prints the lines from the N-th on; +0 is +1.
pub tail_lines_from-drop :
    (start : ℕ) (r : Reader) (s : Stdio)
    → tail_lines_from (pos start) r s
      ≡ (print (lines_text (drop (start - 1) (scan r).0)) s, is_none (scan r).1)
unfolding tail_lines_from
tail_lines_from-drop start r s =
    ap (λ t. (t, is_none (scan r).1))
      (from_loop-drop start (scan r).0 1 s ∙ print_lines-lines_text (drop (start - 1) (scan r).0) s)
