-- ===== src/Applets/Head/Run.antt =====
-- `head -n N` as a whole, on files.
use go_busybox.Prelude.{
  ℕ, zero, suc, ◌≡◌, refl, sym, ap, ap₂, ◌∙◌, false, some, List, [], ◌∷◌, ◌++◌, append-nil, Bytes,
  codes, if◌then◌else◌, str_eq, take, All,
}
use go_busybox.Core.{Stdio, Reader, Opened, opened, refused, exit_success, exit_failure}
use go_busybox.Core.Lines.{scan, lines_text, print_lines, print_lines-lines_text}
use go_busybox.Core.Inputs.{World, file_message}
use go_busybox.Core.HeadTail.{
  Options, parsed, parse_args, run_head_tail, head, run_options, run_file, show_headers,
}
use go_busybox.Core.HeadTail.Sections.{
  Outcome, apply, sections, messages, all_ok, outcomes, run_files-sections, Settles,
}
use go_busybox.Go.Int.{pos, negsuc}
use go_busybox.Applets.Head.Errors.{reads, head_lines-reads}
use go_busybox.Applets.Head.{head_file, head_opened, head_reader, head_lines, run, drop_reader}

-- What one file gives: its first `n` lines, and whether they are read without an error, which is found
-- byte by byte (`reads`); a message if it cannot be opened.
abbrev open_outcome : ℕ → Bytes → Opened → Outcome
open_outcome n file (refused message) = record {
  text = [];
  message = file_message head file message;
  ok = false;
}
open_outcome n file (opened r) = record {
  text = lines_text (take n (scan r).0);
  message = [];
  ok = reads n 0 r.failure r.content;
}

abbrev pub outcome : World → ℕ → Bytes → Outcome
outcome w n file = open_outcome n file (w.open_file file)

head_lines-take : (n : ℕ) (r : Reader) → (head_lines n r).0 ≡ take n (scan r).0
unfolding head_lines
head_lines-take zero r = refl
head_lines-take (suc n) r = refl

head_reader-outcome :
    (left : ℕ → Reader → Reader) (n k : ℕ) (file : Bytes) (r : Reader) (s : Stdio)
    → drop_reader (head_reader left (pos n) (negsuc k) r s)
      ≡ some (apply (open_outcome n file (opened r)) s)
unfolding head_reader
head_reader-outcome left n k file r s =
    ap₂ (λ ls ok. some (print_lines ls s, ok)) (head_lines-take n r) (head_lines-reads n r)
    ∙ ap (λ t. some (t, reads n 0 r.failure r.content))
        (print_lines-lines_text (take n (scan r).0) s)
    ∙ λ i. some (
      record s {
        out = s.out ++ lines_text (take n (scan r).0);
        errors = sym (append-nil s.errors) i;
      },
      reads n 0 r.failure r.content,
    )

head_file-outcome :
    (w : World) (n k : ℕ) (file : Bytes) (s : Stdio)
    → str_eq file (codes "-") ≡ false
    → head_file w s file (pos n) (negsuc k) false ≡ some (apply (outcome w n file) s)
unfolding head_file
head_file-outcome w n k file s ne = rw ne (go (w.open_file file))
  where
    go :
        (o : Opened)
        → head_opened w.left file (pos n) (negsuc k) o s ≡ some (apply (open_outcome n file o) s)
    go (refused m) =
        unfold head_opened in
        λ i. some (
          record s {
            out = sym (append-nil s.out) i;
            errors = s.errors ++ file_message head file m;
          },
          false,
        )
    go (opened r) = unfold head_opened in head_reader-outcome w.left n k file r s

-- `head`, with arguments that ask for the first N lines (not for bytes, and with no plus sign) of
-- files that are named (not "-"): it ends, and prints behind what is printed
-- already one section for each file, in order, with the first N lines of the file below its
-- header; it writes a message for each file that cannot be opened, goes on with the next one, and
-- fails exactly if a file cannot be opened, or one of those lines is too long for the scanner, or a
-- file has fewer than N newlines (and N > 0) and ends in a read error.
pub run-first_lines :
    (w : World) (args : List Bytes) (o : Options) (n k : ℕ) (s : Stdio)
    → parse_args head args ≡ parsed o
    → o.lines ≡ pos n
    → o.bytes ≡ negsuc k
    → o.from ≡ false
    → All (λ file. str_eq file (codes "-") ≡ false) o.files
    → let outs = outcomes (outcome w n) o.files in
      run w args s
      ≡ some (
        record s {
          out = s.out ++ sections (show_headers o) false outs;
          errors = s.errors ++ messages outs;
        },
        if all_ok outs then exit_success else exit_failure,
      )
unfolding run run_head_tail run_options
run-first_lines w args o n k s parse el eb ef named = rw parse (
    run_files-sections head (head_file w) o (outcome w n) false o.files s exit_success
      (settled o.files named))
  where
    settled :
        (files : List Bytes)
        → All (λ file. str_eq file (codes "-") ≡ false) files
        → Settles head (head_file w) o (outcome w n) files
    settled [] h = tt
    settled (file ∷ files) (h, hs) = (
      λ t. unfold run_file in rw ef (rw el (rw eb (head_file-outcome w n k file t h))),
      settled files hs,
    )
