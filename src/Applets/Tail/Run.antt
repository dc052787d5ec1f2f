-- ===== src/Applets/Tail/Run.antt =====
-- `tail -n N` as a whole, on files.
use go_busybox.Prelude.{
  ℕ, ◌-◌, ◌<◌, ◌≡◌, sym, ap, ◌∙◌, Bool, true, false, Option, none, some, List, [], ◌∷◌, ◌++◌,
  append-nil, Bytes, codes, if◌then◌else◌, str_eq, length, drop, All,
}
use go_busybox.Core.{Stdio, Opened, opened, refused, print, exit_success, exit_failure}
use go_busybox.Core.Lines.{scan, lines_text, print_lines-lines_text}
use go_busybox.Core.Inputs.{World, file_message}
use go_busybox.Core.HeadTail.{
  Options, parsed, parse_args, run_head_tail, run_options, run_file, show_headers,
}
use go_busybox.Core.HeadTail.Sections.{
  Outcome, apply, sections, messages, all_ok, outcomes, run_files-sections, Settles,
}
use go_busybox.Go.Int.{pos, negsuc}
use go_busybox.Applets.Tail.{
  tail, tail_file, tail_opened, tail_reader, tail_lines, tail_scanned, run,
}
use go_busybox.Applets.Tail.Last.{last_lines-drop, store_all-some}

-- What one file gives: its last `n` lines; nothing but a failure after a read error; a message if
-- it cannot be opened.
abbrev scan_outcome : ℕ → List Bytes → Option Bytes → Outcome
scan_outcome n lines none = record {
  text = lines_text (drop (length lines - n) lines);
  message = [];
  ok = true;
}
scan_outcome n lines (some message) = record { text = []; message = []; ok = false }

abbrev open_outcome : ℕ → Bytes → Opened → Outcome
open_outcome n file (refused message) = record {
  text = [];
  message = file_message tail file message;
  ok = false;
}
open_outcome n file (opened r) = scan_outcome n (scan r).0 (scan r).1

abbrev pub outcome : World → ℕ → Bytes → Outcome
outcome w n file = open_outcome n file (w.open_file file)

quiet :
    (s : Stdio) (b : Bool)
    → let x : Stdio × Bool = (s, b) in
      let y : Stdio × Bool = apply (record { text = []; message = []; ok = b }) s in x ≡ y
quiet s b i = (record s { out = sym (append-nil s.out) i; errors = sym (append-nil s.errors) i }, b)

printed :
    (s : Stdio) (t : Bytes)
    → let x : Stdio × Bool = (print t s, true) in
      let y : Stdio × Bool = apply (record { text = t; message = []; ok = true }) s in x ≡ y
printed s t i = (record s { out = s.out ++ t; errors = sym (append-nil s.errors) i }, true)

tail_scanned-outcome :
    (n : ℕ) (lines : List Bytes) (failure : Option Bytes) (s : Stdio)
    → 0 < n
    → tail_scanned n lines failure s ≡ some (apply (scan_outcome n lines failure) s)
unfolding tail_scanned
tail_scanned-outcome n lines none s h =
    let last = drop (length lines - n) lines in
    rw (last_lines-drop n lines h) (
      ap (λ t. some (t, true)) (print_lines-lines_text last s)
      ∙ ap some (printed s (lines_text last)))
tail_scanned-outcome n lines (some message) s h =
    let (b, e) = store_all-some n lines h in rw e (ap some (quiet s false))

tail_file-outcome :
    (w : World) (reads : Bytes → List Bytes) (n k : ℕ) (file : Bytes) (s : Stdio)
    → 0 < n
    → str_eq file (codes "-") ≡ false
    → tail_file w reads s file (pos n) (negsuc k) false ≡ some (apply (outcome w n file) s)
unfolding tail_file
tail_file-outcome w reads n k file s h ne = rw ne (go (w.open_file file))
  where
    go :
        (o : Opened)
        → tail_opened reads file (pos n) (negsuc k) false o s
          ≡ some (apply (open_outcome n file o) s)
    go (refused m) =
        unfold tail_opened in
        λ i. some (
          record s {
            out = sym (append-nil s.out) i;
            errors = s.errors ++ file_message tail file m;
          },
          false,
        )
    go (opened r) =
        unfold tail_opened tail_reader tail_lines in
        tail_scanned-outcome n (scan r).0 (scan r).1 s h

-- `tail`, with arguments that ask for the last N > 0 lines (not for bytes, and not from a line on) of
-- files that are named (not "-"): it ends, and prints behind what is
-- printed already one section for each file, in order, with the last N lines of the file below its
-- header; it writes a message for each file that cannot be opened, goes on with the next one, and
-- fails if any file cannot be opened or read.
pub run-last_lines :
    (w : World) (reads : Bytes → List Bytes) (args : List Bytes) (o : Options) (n k : ℕ) (s : Stdio)
    → parse_args tail args ≡ parsed o
    → o.lines ≡ pos n
    → 0 < n
    → o.bytes ≡ negsuc k
    → o.from ≡ false
    → All (λ file. str_eq file (codes "-") ≡ false) o.files
    → let outs = outcomes (outcome w n) o.files in
      run w reads args s
      ≡ some (
        record s {
          out = s.out ++ sections (show_headers o) false outs;
          errors = s.errors ++ messages outs;
        },
        if all_ok outs then exit_success else exit_failure,
      )
unfolding run run_head_tail run_options
run-last_lines w reads args o n k s parse el pos_n eb ef named = rw parse (
    run_files-sections tail (tail_file w reads) o (outcome w n) false o.files s exit_success
      (settled o.files named))
  where
    settled :
        (files : List Bytes)
        → All (λ file. str_eq file (codes "-") ≡ false) files
        → Settles tail (tail_file w reads) o (outcome w n) files
    settled [] h = tt
    settled (file ∷ files) (h, hs) = (
      λ t. unfold run_file in rw ef (rw el (rw eb (tail_file-outcome w reads n k file t pos_n h))),
      settled files hs,
    )
