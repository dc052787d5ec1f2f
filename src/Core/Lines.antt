-- ===== src/Core/Lines.antt =====
-- `bufio.Scanner`, as every applet uses it: the lines of an input.
use go_busybox.Prelude.{
  ℕ, ◌≡◌, refl, sym, ap, ◌∙◌, Bool, true, false, Option, none, some, List, [], ◌∷◌, ◌++◌,
  append-nil, append_assoc, Bytes, codes, ltb, ◌==◌, if◌then◌else◌, length,
}
use go_busybox.Core.{Reader, Stdio, println, print, newline}

-- bufio.MaxScanTokenSize. A line fits the buffer if it is shorter, its newline not counted.
abbrev pub max_token : ℕ
max_token = 65536

-- A line without the carriage return at its end.
unfoldable pub drop_cr : Bytes → Bytes
drop_cr [] = []
drop_cr (c ∷ []) = if c == 13 then [] else c ∷ []
drop_cr (c ∷ d ∷ s) = c ∷ drop_cr (d ∷ s)

-- The text up to each newline, and what stands behind the last one.
unfoldable pub cut_lines : Bytes → Bytes → List Bytes × Bytes
cut_lines [] cur = ([], cur)
cut_lines (c ∷ s) cur =
    if c == 10 then (cur ∷ (cut_lines s []).0, (cut_lines s []).1) else cut_lines s (cur ++ c ∷ [])

-- The lines before the first one that is too long, and whether there is one.
unfoldable pub fitting : List Bytes → List Bytes × Bool
fitting [] = ([], false)
fitting (l ∷ ls) =
    if ltb (length l) max_token then (drop_cr l ∷ (fitting ls).0, (fitting ls).1) else ([], true)

abbrev pub last_line : Bytes → List Bytes
last_line [] = []
last_line (c ∷ s) = (c ∷ s) ∷ []

abbrev pub token_too_long : Bytes
token_too_long = codes "bufio.Scanner: token too long"

-- Every line that `Scan` delivers, and what `Err` then gives.
unfoldable pub scan : Reader → List Bytes × Option Bytes
unfolding cut_lines fitting drop_cr
scan r =
    let (lines, rest) = cut_lines r.content [] in
    let (texts, too_long) = fitting (lines ++ last_line rest) in
    (texts, if too_long then some token_too_long else r.failure)

scan_runs :
    scan (record { content = codes "ab\n\nc\rd\r\ne"; failure = none })
    ≡ (codes "ab" ∷ [] ∷ codes "c\rd" ∷ codes "e" ∷ [], none)
unfolding scan
scan_runs = refl

-- A loop of `Println`.
unfoldable pub print_lines : List Bytes → Stdio → Stdio
print_lines [] s = s
print_lines (l ∷ ls) s = print_lines ls (println l s)

-- The text of lines, each with its newline.
unfoldable pub lines_text : List Bytes → Bytes
lines_text [] = []
lines_text (l ∷ ls) = l ++ (newline ++ lines_text ls)

pub print_lines-lines_text :
    (ls : List Bytes) (s : Stdio) → print_lines ls s ≡ print (lines_text ls) s
unfolding print_lines lines_text
print_lines-lines_text [] s = ap (λ o. record s { out = o }) (sym (append-nil s.out))
print_lines-lines_text (l ∷ ls) s =
    print_lines-lines_text ls (println l s)
    ∙ ap (λ o. record s { out = o })
        (append_assoc s.out (l ++ newline) (lines_text ls)
          ∙ ap (λ t. s.out ++ t) (append_assoc l newline (lines_text ls)))
