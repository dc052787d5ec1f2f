-- ===== src/Applets/Wc.antt =====
-- pkg/applets/wc/wc.go. The counts are those of a content that is held in memory, so an int64 holds
-- them; they are natural numbers here.
pub mod Count
use go_busybox.Prelude.{
  ℕ, zero, suc, ◌+◌, ◌-◌, Bool, true, false, not, ◌&&◌, Option, none, some, List, [], ◌∷◌, ◌++◌,
  map, Bytes, codes, ltb, ◌==◌, if◌then◌else◌, str_eq, length, set, replicate,
}
use go_busybox.Core.{
  Reader, Stdio, Opened, opened, refused, errorf, print, newline, usage_error, exit_success,
  exit_failure, spent,
}
use go_busybox.Core.Inputs.{World, file_message}
use go_busybox.Core.HeadTail.{Parsed, parsed, misused, default_files}
use go_busybox.Core.BoolFlags.{parse_bool_flags}
use go_busybox.Go.Int.{decimal}
use go_busybox.Go.Strings.{join}
use go_busybox.Go.Utf8.{decode_rune, is_space, runes_loop}
use go_busybox.TextUtil.Chars.Distinct.{elem}

-- `Options`.
pub record Options : Type 0 where
  pub lines : Bool
  pub words : Bool
  pub chars : Bool
  pub bytes : Bool
  pub max_line_len : Bool

-- `Counts`.
pub record Counts : Type 0 where
  pub lines : ℕ
  pub words : ℕ
  pub chars : ℕ
  pub bytes : ℕ
  pub max_line_len : ℕ

abbrev pub no_counts : Counts
no_counts = record { lines = 0; words = 0; chars = 0; bytes = 0; max_line_len = 0 }

-- The variables of the loop of `countFile`.
pub record Progress : Type 0 where
  pub counts : Counts
  pub in_word : Bool
  pub cur_line_len : ℕ

abbrev pub no_progress : Progress
no_progress = record { counts = no_counts; in_word = false; cur_line_len = 0 }

-- `max` of the code: an `if` that replaces the greatest length so far.
abbrev pub longer : ℕ → ℕ → ℕ
longer cur best = if ltb best cur then cur else best

abbrev pub end_line : Progress → Progress
end_line p = record p {
  counts = record p.counts {
    lines = p.counts.lines + 1;
    max_line_len = longer p.cur_line_len p.counts.max_line_len;
  };
  cur_line_len = 0;
}

-- The rune ends a line, or makes it longer by one.
abbrev pub line_part : ℕ → Progress → Progress
line_part r p = if r == 10 then end_line p else record p { cur_line_len = p.cur_line_len + 1 }

abbrev pub word_part : ℕ → Progress → Progress
word_part r p =
    if is_space r
    then record p { in_word = false }
    else if p.in_word
    then p
    else record p { in_word = true; counts = record p.counts { words = p.counts.words + 1 } }

-- One round for a rune of `size` bytes.
unfoldable pub count_rune : ℕ → ℕ → Progress → Progress
count_rune r size p = word_part r (
    line_part r (record p {
      counts = record p.counts { bytes = p.counts.bytes + size; chars = p.counts.chars + 1 };
    }))

-- The loop of `countFile`; `skip` counts the bytes of a rune that are still to come.
unfoldable pub count_loop : Bytes → ℕ → Progress → Progress
count_loop [] skip p = p
count_loop (b ∷ s) (suc skip) p = count_loop s skip p
count_loop (b ∷ s) zero p = let (r, n) = decode_rune b s in count_loop s n (count_rune r (n + 1) p)

-- The end of the file ends the last line.
unfoldable pub count_content : Bytes → Counts
count_content s =
    let p = count_loop s 0 no_progress in
    record p.counts { max_line_len = longer p.cur_line_len p.counts.max_line_len }

-- `countFile` behind its reader: a read error is passed on with no message.
unfoldable pub count_reader : Reader → Option Counts
count_reader r = elim r.failure [ none ↦ some (count_content r.content) | some message ↦ none ]

abbrev pub only : Bool → ℕ → List ℕ
only b n = if b then n ∷ [] else []

-- The numbers that are printed.
unfoldable pub fields : Options → Counts → List ℕ
fields o c =
    only o.lines c.lines
    ++ (only o.words c.words
        ++ (only (o.chars && not o.bytes) c.chars
            ++ (only o.bytes c.bytes ++ only o.max_line_len c.max_line_len)))

-- `%9d`.
abbrev pub padded : ℕ → Bytes
padded n = replicate (9 - length (decimal n)) b' ' ++ decimal n

-- `printCounts`.
unfoldable pub counts_line : Options → Counts → Bytes → Bool → Bytes
counts_line o c name stdin =
    let ns = fields o c in
    let texts = if length ns == 1 then map decimal ns else map padded ns in
    join texts (codes " ") ++ ((if stdin then [] else codes " " ++ name) ++ newline)

abbrev pub add_counts : Counts → Counts → Counts
add_counts total c = record {
  lines = total.lines + c.lines;
  words = total.words + c.words;
  chars = total.chars + c.chars;
  bytes = total.bytes + c.bytes;
  max_line_len = longer c.max_line_len total.max_line_len;
}

-- The letters that are set, as options; without one, lines, words and bytes.
unfoldable pub options : List ℕ → Options
options [] = record {
  lines = true;
  words = true;
  chars = false;
  bytes = true;
  max_line_len = false;
}
options (c ∷ cs) = record {
  lines = elem b'l' (c ∷ cs);
  words = elem b'w' (c ∷ cs);
  chars = elem b'm' (c ∷ cs);
  bytes = elem b'c' (c ∷ cs);
  max_line_len = elem b'L' (c ∷ cs);
}

abbrev pub known : ℕ → Bool
known c = elem c (codes "lwmcL")

abbrev pub wc : Bytes
wc = codes "wc"

module _ (w : World) where
  unfoldable pub count_opened : Bytes → Opened → Stdio → Stdio × Option Counts
  count_opened file (refused message) s = (errorf (file_message wc file message) s, none)
  count_opened file (opened r) s = (s, count_reader r)

  -- `countFile`.
  unfoldable pub count_file : Bytes → Stdio → Stdio × Option Counts
  count_file file s =
      if str_eq file (codes "-")
      then (record s { input = spent s.input }, count_reader s.input)
      else count_opened file (w.open_file file) s

  -- The loop over the files, with the total so far.
  unfoldable pub run_files : Options → List Bytes → Counts → ℕ → Stdio → Stdio × Counts × ℕ
  run_files o [] total code s = (s, total, code)
  run_files o (file ∷ files) total code s =
      let (s', counted) = count_file file s in
      elim counted [
        | none ↦ run_files o files total exit_failure s'
        | some c ↦
            run_files o files (add_counts total c) code
              (print (counts_line o c file (str_eq file (codes "-"))) s')
      ]

  unfoldable pub run_options : Options → List Bytes → Stdio → Stdio × ℕ
  run_options o files s =
      let (s', total, code) = run_files o files no_counts exit_success s in
      (
        if ltb 1 (length files) then print (counts_line o total (codes "total") false) s' else s',
        code,
      )

  unfoldable pub run_parsed : Parsed (List ℕ × List Bytes) → Stdio → Stdio × ℕ
  run_parsed (misused message) s = usage_error wc message s
  run_parsed (parsed (set, files)) s = run_options (options set) (default_files files) s

  -- `Run`.
  unfoldable pub run : List Bytes → Stdio → Stdio × ℕ
  run args s = run_parsed (parse_bool_flags known (λ c. none) args [] []) s
