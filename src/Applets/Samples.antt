-- ===== src/Applets/Samples.antt =====
-- The theorems of the applets that read files, at examples.
use go_busybox.Prelude.{
  ◌-◌, ◌≡◌, refl, ap, ◌≢◌, true, false, none, some, List, [], ◌∷◌, ◌++◌, arith, Bytes, codes, leb,
  if◌then◌else◌, str_eq, length, drop, All,
}
use go_busybox.Core.{Stdio, Reader, opened, refused, print, exit_success, exit_failure}
use go_busybox.Core.Lines.{scan, cut_lines, fitting, drop_cr}
use go_busybox.Core.Inputs.{World}
use go_busybox.Core.HeadTail.{
  Options, default_options, parsed, parse_args, parse_loop, parse_arg, parse_letters,
  parse_numeric_flag_value, flag_value, number, set_lines, default_files, show_headers, head,
}
use go_busybox.Core.HeadTail.Sections.{sections, messages, all_ok, outcomes}
use go_busybox.Go.Int.{pos, atoi}
use go_busybox.Go.Strings.{has_prefix}
use go_busybox.Go.Utf8.{runes, fields}
use go_busybox.TextUtil.Ranges.{Range}
use go_busybox.Applets.Cut
use go_busybox.Applets.Head
use go_busybox.Applets.Tail
use go_busybox.Applets.Uniq
use go_busybox.Applets.Wc
use go_busybox.Applets.Cut.Run.{run-total}
use go_busybox.Applets.Head.Run.{run-first_lines}
use go_busybox.Applets.Tail.Run.{run-last_lines}
use go_busybox.Applets.Tail.Last.{last_lines-drop, last_lines-zero}
use go_busybox.Applets.Uniq.Groups.{filtered-selected, groups, selected}
use go_busybox.Applets.Uniq.Run.{run-prints, filtered-filtered, made, Apart}
use go_busybox.Applets.Wc.Count.{count_content-counts, newlines, longest, pieces}

abbrev text : Reader
text = record { content = codes "a b\na b\nc"; failure = none }

-- A file system with one file that opens.
abbrev world : World
world = record {
  open_file = λ path. if str_eq path (codes "f") then opened text else refused (codes "no");
  left = λ n r. record r { content = [] };
}

abbrev streams : Stdio
streams = record { input = text; out = codes ">"; errors = [] }

scanned : scan text ≡ (codes "a b" ∷ codes "a b" ∷ codes "c" ∷ [], none)
unfolding scan cut_lines fitting drop_cr
scanned = refl

opens : world.open_file (codes "f") ≡ opened text
unfolding str_eq
opens = refl

-- Two files, of which the second one does not open.
abbrev two_files : List Bytes
two_files = codes "f" ∷ codes "g" ∷ []

named : All (λ file. str_eq file (codes "-") ≡ false) two_files
unfolding str_eq
named = (refl, (refl, tt))

abbrev two_lines : Options
two_lines = record default_options { lines = pos 2; files = two_files }

abbrev line_args : List Bytes
line_args = codes "-n2" ∷ two_files

parse_head : parse_args head line_args ≡ parsed two_lines
unfolding parse_args parse_loop parse_arg parse_letters parse_numeric_flag_value flag_value number
    set_lines default_files atoi str_eq
parse_head = refl

parse_tail : parse_args Tail.tail line_args ≡ parsed two_lines
unfolding parse_args parse_loop parse_arg parse_letters parse_numeric_flag_value flag_value number
    set_lines default_files atoi str_eq
parse_tail = refl

run-first_lines_example :
    let outs = outcomes (Head.Run.outcome world 2) two_files in
    Head.run world line_args streams
    ≡ some (
      record streams {
        out = codes ">" ++ sections (show_headers two_lines) false outs;
        errors = [] ++ messages outs;
      },
      if all_ok outs then exit_success else exit_failure,
    )
run-first_lines_example =
    run-first_lines world line_args two_lines 2 0 streams parse_head refl refl refl named

run-last_lines_example :
    let outs = outcomes (Tail.Run.outcome world 2) two_files in
    Tail.run world (λ content. content ∷ []) line_args streams
    ≡ some (
      record streams {
        out = codes ">" ++ sections (show_headers two_lines) false outs;
        errors = [] ++ messages outs;
      },
      if all_ok outs then exit_success else exit_failure,
    )
run-last_lines_example =
    run-last_lines world (λ content. content ∷ []) line_args two_lines 2 0 streams parse_tail refl
      (omega arith) refl refl named

abbrev cut_args : List Bytes
cut_args = codes "-d " ∷ codes "-f2" ∷ two_files

abbrev second_field : Cut.Args
second_field = record Cut.no_args {
  mode = some Cut.by_field;
  spec = codes "2";
  delimiter = 32;
  files = two_files;
}

abbrev second : List Range
second = record { start = 2; end = 2 } ∷ []

run-total_example : Cut.run world cut_args streams ≢ none
run-total_example = run-total world cut_args streams

last_lines-drop_example :
    Tail.last_lines 2 (codes "a" ∷ codes "b" ∷ codes "c" ∷ [])
    ≡ some (drop (3 - 2) (codes "a" ∷ codes "b" ∷ codes "c" ∷ []))
last_lines-drop_example = last_lines-drop 2 (codes "a" ∷ codes "b" ∷ codes "c" ∷ []) (omega arith)

last_lines-zero_example : Tail.last_lines 0 (codes "a" ∷ []) ≡ (if leb 1 0 then some [] else none)
last_lines-zero_example = last_lines-zero (codes "a" ∷ [])

abbrev counting : Uniq.Options
counting = record Uniq.no_options { count = true; files = codes "f" ∷ [] }

parse_counting :
    Uniq.parse_loop false (codes "-c" ∷ codes "f" ∷ []) Uniq.no_options ≡ parsed counting
unfolding Uniq.parse_loop Uniq.parse_flags Uniq.letters Uniq.letter runes has_prefix str_eq
parse_counting = refl

not_dash : (str_eq (codes "f") (codes "-") ≡ false) × (str_eq (codes "o") (codes "-") ≡ false)
unfolding str_eq
not_dash = (refl, refl)

run-prints_example :
    Uniq.run (λ r. r) world (λ path. none) (codes "-c" ∷ codes "f" ∷ []) streams
    ≡ (print (made (λ r. r) counting text) streams, none, exit_success)
run-prints_example =
    run-prints (λ r. r) world (λ path. none) (codes "-c" ∷ codes "f" ∷ []) counting (codes "f") text
      streams parse_counting refl not_dash.0 opens (ap (λ p. p.1) scanned)

abbrev some_lines : List Bytes
some_lines = codes "a b" ∷ codes "a b" ∷ codes "c" ∷ []

filtered-selected_example :
    Uniq.filtered (λ r. r) counting some_lines none
    ≡ selected counting (groups (Uniq.normalize (λ r. r) counting) some_lines)
filtered-selected_example = filtered-selected (λ r. r) counting some_lines

filtered-filtered_example :
    let once = Uniq.filtered (λ r. r) Uniq.no_options some_lines none in
    Apart (Uniq.normalize (λ r. r) Uniq.no_options) once
    × (Uniq.filtered (λ r. r) Uniq.no_options once none ≡ once)
filtered-filtered_example = filtered-filtered (λ r. r) Uniq.no_options some_lines (refl, refl, refl)

count_content-counts_example : Wc.count_content (codes "ab c\nd") ≡ record {
  lines = newlines (runes (codes "ab c\nd"));
  words = length (fields (codes "ab c\nd"));
  chars = length (runes (codes "ab c\nd"));
  bytes = 6;
  max_line_len =
      longest ((pieces (runes (codes "ab c\nd"))).0 ∷ (pieces (runes (codes "ab c\nd"))).1);
}
count_content-counts_example = count_content-counts (codes "ab c\nd")
