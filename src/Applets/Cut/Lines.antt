-- ===== src/Applets/Cut/Lines.antt =====
-- What `cut` prints of the lines of one input.
use go_busybox.Prelude.{
  ◌≡◌, refl, sym, ap, ◌∙◌, some, List, [], ◌∷◌, ◌++◌, map, append-nil, append_assoc, Bytes,
  if◌then◌else◌, str_eq, length,
}
use mathlib.Core.List.{flat_map}
use go_busybox.Core.{Stdio, print, newline}
use go_busybox.Core.Lines.{lines_text}
use go_busybox.TextUtil.Ranges.{Range}
use go_busybox.TextUtil.Fields.{Projection, printed, suppressed}
use go_busybox.TextUtil.Fields.Select.{field_func_lem, projection}
use go_busybox.TextUtil.Chars.Loop.{char_func_lem, positions, rune_at}
use go_busybox.TextUtil.Chars.Distinct.{distinct}
use go_busybox.Go.Strings.{split}
use go_busybox.Go.Utf8.{runes, encode, encode_rune}
use go_busybox.Applets.Cut.{
  Mode, by_field, by_char, by_byte, Args, cut_line, cut_lines, print_projection,
}

-- The characters at the positions of the ranges, each once, where it first comes.
abbrev pub selected_chars : List Range → Bytes → Bytes
selected_chars ranges line =
    encode
      (map (rune_at (runes line)) (distinct [] (flat_map (positions (length (runes line))) ranges)))

-- What is selected of a line.
abbrev pub selected : Mode → List Range → Args → Bytes → Projection
selected by_field ranges a line =
    projection (split line (encode_rune a.delimiter)) ranges a.suppress line
      (if str_eq a.output_delimiter [] then encode_rune a.delimiter else a.output_delimiter)
selected by_char ranges a line = printed (selected_chars ranges line)
selected by_byte ranges a line = printed (selected_chars ranges line)

cut_line-selected :
    (m : Mode) (ranges : List Range) (a : Args) (line : Bytes)
    → cut_line m ranges a line ≡ some (selected m ranges a line)
unfolding cut_line
cut_line-selected by_field ranges a line =
    field_func_lem ranges a.delimiter a.output_delimiter line a.suppress
cut_line-selected by_char ranges a line = rw (char_func_lem ranges line) refl
cut_line-selected by_byte ranges a line = rw (char_func_lem ranges line) refl

-- The lines that are printed.
abbrev texts : List Projection → List Bytes
texts [] = []
texts (printed text ∷ ps) = text ∷ texts ps
texts (suppressed ∷ ps) = texts ps

abbrev pub cut_text : Mode → List Range → Args → List Bytes → Bytes
cut_text m ranges a lines = lines_text (texts (map (selected m ranges a) lines))

pub cut_lines-text :
    (m : Mode) (ranges : List Range) (a : Args) (lines : List Bytes) (s : Stdio)
    → cut_lines m ranges a lines s ≡ some (print (cut_text m ranges a lines) s)
unfolding cut_lines lines_text
cut_lines-text m ranges a [] s = ap (λ o. some (record s { out = o })) (sym (append-nil s.out))
cut_lines-text m ranges a (line ∷ lines) s = rw (cut_line-selected m ranges a line) (
    cut_lines-text m ranges a lines (print_projection (selected m ranges a line) s)
    ∙ ap some (go (selected m ranges a line)))
  where
    go :
        (p : Projection)
        → print (cut_text m ranges a lines) (print_projection p s)
          ≡ print (lines_text (texts (p ∷ map (selected m ranges a) lines))) s
    go suppressed = refl
    go (printed text) =
        ap (λ o. record s { out = o })
          (append_assoc s.out (text ++ newline) (cut_text m ranges a lines)
            ∙ ap (λ t. s.out ++ t) (append_assoc text newline (cut_text m ranges a lines)))
