-- ===== src/Applets/Wc/Count.antt =====
-- What `wc` counts.
use go_busybox.Prelude.{
  ℕ, zero, suc, ◌+◌, ◌-◌, ◌≤◌, max, ◌≡◌, ap₂, ◌∙◌, Bool, true, false, not, List, [], ◌∷◌, arith,
  Bytes, ◌==◌, if◌then◌else◌, length,
}
use go_busybox.Go.Utf8.{decode_rune, is_space, runes_loop, runes, fields}
use go_busybox.Go.Utf8.Words.{words, length-fields}
use go_busybox.Go.Utf8.Sizes.{decode_rune-le}
use go_busybox.Applets.Wc.{Progress, no_progress, count_rune, count_loop, count_content, longer}

abbrev pub newlines : List ℕ → ℕ
newlines [] = 0
newlines (r ∷ rs) = (if r == 10 then 1 else 0) + newlines rs

-- The lines of a text, the one behind the last newline too.
abbrev pub pieces : List ℕ → List ℕ × List (List ℕ)
pieces [] = ([], [])
pieces (r ∷ rs) = let (l, ls) = pieces rs in if r == 10 then ([], l ∷ ls) else (r ∷ l, ls)

abbrev pub longest : List (List ℕ) → ℕ
longest [] = 0
longest (l ∷ ls) = max (length l) (longest ls)

-- The longest line, if the first one has `cur` runes before this text.
longest_from : ℕ → List ℕ → ℕ
longest_from cur rs = max (cur + length (pieces rs).0) (longest (pieces rs).1)

line_end :
    (e : Bool) (cur best r : ℕ) (l : List ℕ) (ls : List (List ℕ))
    → max
        (if e then longer cur best else best)
        (max ((if e then 0 else cur + 1) + length l) (longest ls))
      ≡ (let ps : List ℕ × List (List ℕ) = if e then ([], l ∷ ls) else (r ∷ l, ls) in
          max best (max (cur + length ps.0) (longest ps.1)))
line_end true cur best r l ls = ground arith
line_end false cur best r l ls = omega arith

word_begin :
    (space inside : Bool) (k : ℕ) (rest : Bool → ℕ)
    → k + (if space then 0 else if inside then 0 else 1) + rest (not space)
      ≡ k + (if space then rest false else (if inside then 0 else 1) + rest true)
word_begin true inside k rest = omega arith
word_begin false true k rest = omega arith
word_begin false false k rest = omega arith

module _ (r n : ℕ) (p : Progress) where
  count_rune-lines : (count_rune r n p).counts.lines ≡ p.counts.lines + (if r == 10 then 1 else 0)
  unfolding count_rune
  count_rune-lines = ground arith

  count_rune-words :
      (count_rune r n p).counts.words
      ≡ p.counts.words + (if is_space r then 0 else if p.in_word then 0 else 1)
  unfolding count_rune
  count_rune-words = ground arith

  count_rune-chars : (count_rune r n p).counts.chars ≡ p.counts.chars + 1
  unfolding count_rune
  count_rune-chars = ground arith

  count_rune-bytes : (count_rune r n p).counts.bytes ≡ p.counts.bytes + n
  unfolding count_rune
  count_rune-bytes = ground arith

  count_rune-in_word : (count_rune r n p).in_word ≡ not (is_space r)
  unfolding count_rune
  count_rune-in_word = ground arith

  count_rune-best :
      (count_rune r n p).counts.max_line_len
      ≡ (if r == 10 then longer p.cur_line_len p.counts.max_line_len else p.counts.max_line_len)
  unfolding count_rune
  count_rune-best = ground arith

  count_rune-cur : (count_rune r n p).cur_line_len ≡ (if r == 10 then 0 else p.cur_line_len + 1)
  unfolding count_rune
  count_rune-cur = ground arith

  count_rune-longest :
      (rs : List ℕ)
      → max (count_rune r n p).counts.max_line_len (longest_from (count_rune r n p).cur_line_len rs)
        ≡ max p.counts.max_line_len (longest_from p.cur_line_len (r ∷ rs))
  unfolding longest_from
  count_rune-longest rs =
      ap₂ (λ b c. max b (max (c + length (pieces rs).0) (longest (pieces rs).1))) count_rune-best
        count_rune-cur
      ∙ line_end (r == 10) p.cur_line_len p.counts.max_line_len r (pieces rs).0 (pieces rs).1

-- What the loop adds to the counts.
count_loop-adds :
    (s : Bytes) (skip : ℕ) (p : Progress)
    → skip ≤ length s
    → let q = count_loop s skip p in
      let rs = runes_loop s skip in
      (q.counts.lines ≡ p.counts.lines + newlines rs)
      × (q.counts.words ≡ p.counts.words + words s skip p.in_word)
      × (q.counts.chars ≡ p.counts.chars + length rs)
      × (q.counts.bytes ≡ p.counts.bytes + (length s - skip))
      × (max q.counts.max_line_len q.cur_line_len
          ≡ max p.counts.max_line_len (longest_from p.cur_line_len rs))
unfolding count_loop runes_loop words longest_from
count_loop-adds [] skip p h = (omega arith, omega arith, omega arith, omega arith, omega arith)
count_loop-adds (b ∷ s) (suc skip) p h =
    let (l, w, c, y, m) = count_loop-adds s skip p (omega arith) in (l, w, c, omega (arith, y), m)
count_loop-adds (b ∷ s) zero p h =
    let r = (decode_rune b s).0 in
    let n = (decode_rune b s).1 in
    let (l, w, c, y, m) = count_loop-adds s n (count_rune r (n + 1) p) (decode_rune-le b s) in
    (
      omega (arith, l, count_rune-lines r (n + 1) p),
      w
          ∙ ap₂ (λ x b. x + words s n b) (count_rune-words r (n + 1) p)
              (count_rune-in_word r (n + 1) p)
          ∙ word_begin (is_space r) p.in_word p.counts.words (words s n),
      omega (arith, c, count_rune-chars r (n + 1) p),
      omega (arith, y, count_rune-bytes r (n + 1) p, decode_rune-le b s),
      m ∙ count_rune-longest r (n + 1) p (runes_loop s n),
    )

-- What `wc` counts of any content: the newlines, the fields of `strings.Fields`, the runes, the bytes,
-- and the runes of the longest line, the last one with or without its newline.
pub count_content-counts :
    (s : Bytes)
    → count_content s ≡ record {
      lines = newlines (runes s);
      words = length (fields s);
      chars = length (runes s);
      bytes = length s;
      max_line_len = longest ((pieces (runes s)).0 ∷ (pieces (runes s)).1);
    }
unfolding count_content runes longest_from
count_content-counts s =
    let (l, w, c, y, m) = count_loop-adds s 0 no_progress (omega arith) in
    let q = count_loop s 0 no_progress in
    let l' : q.counts.lines ≡ newlines (runes s) = omega (arith, l) in
    let w' : q.counts.words ≡ length (fields s) = omega (arith, w, length-fields s) in
    let c' : q.counts.chars ≡ length (runes s) = omega (arith, c) in
    let y' : q.counts.bytes ≡ length s = omega (arith, y) in
    let m' : longer q.cur_line_len q.counts.max_line_len
        ≡ longest ((pieces (runes s)).0 ∷ (pieces (runes s)).1) =
      ground (arith, m) in
    λ i. record { lines = l' i; words = w' i; chars = c' i; bytes = y' i; max_line_len = m' i }
