-- ===== src/Applets/Sort/Run.antt =====
-- `Run` of pkg/applets/sort/sort.go: the files are read, and the sorted lines are written.
use go_busybox.Prelude.{
  ℕ, ◌+◌, false, Option, none, some, List, [], ◌∷◌, ◌++◌, Bytes, codes, if◌then◌else◌, str_eq,
  length,
}
use go_busybox.Core.{
  Stdio, Opened, opened, refused, errorf, newline, usage_error, exit_success, exit_failure,
}
use go_busybox.Core.Lines.{scan, print_lines}
use go_busybox.Core.Inputs.{World, file_message}
use go_busybox.Core.HeadTail.{Parsed, parsed, misused, and_then, default_files}
use go_busybox.Go.Strings.{join}
use go_busybox.Applets.Sort.{Options, no_options, sort, parse_loop, check_separator, Floats, sorted}

-- The lines of the files so far, or the streams of a run that fails.
pub data Read : Type 0 where
  lines_read : List Bytes → Stdio → Read
  failed : Stdio → Read

unfoldable pub read_end : Option Bytes → List Bytes → Stdio → Read
read_end none lines s = lines_read lines s
read_end (some message) lines s = failed (errorf (codes "sort: " ++ (message ++ newline)) s)

unfoldable pub read_opened : Bytes → Opened → Stdio → Read
read_opened file (refused message) s = failed (errorf (file_message sort file message) s)
read_opened file (opened r) s = read_end (scan r).1 (scan r).0 s

module _ (w : World) where
  unfoldable pub read_file : Bytes → Stdio → Read
  read_file file s =
      if str_eq file (codes "-")
      then read_end (scan s.input).1 (scan s.input).0
          (record s { input = w.left (length (scan s.input).0 + 1) s.input })
      else read_opened file (w.open_file file) s

  -- The loop over the files; the first failure ends it.
  unfoldable pub read_files : List Bytes → List Bytes → Stdio → Read
  read_files [] lines s = lines_read lines s
  read_files (file ∷ files) lines s = elim (read_file file s) [
    | failed s' ↦ failed s'
    | lines_read ls s' ↦ read_files files (lines ++ ls) s'
  ]

-- What a run leaves: the streams, what is in the output file if one is written, the exit code.
abbrev pub Result : Type 0
Result = Stdio × Option Bytes × ℕ

unfoldable pub write_end : Option Bytes → Bytes → Stdio → Result
write_end none content s = (s, some content, exit_success)
write_end (some message) content s =
    (errorf (codes "sort: " ++ (message ++ newline)) s, none, exit_failure)

-- The end of `Run`; `write_file` is what `fs.WriteFile` gives, `none` or its error.
unfoldable pub finish : (Bytes → Option Bytes) → Options → List Bytes → Stdio → Result
finish write_file o output s =
    let written = write_end (write_file o.out_file) (join output (codes "\n") ++ codes "\n") s in
    if str_eq o.out_file [] then (print_lines output s, none, exit_success) else written

module _ (lower_rune : ℕ → ℕ) (floats : Floats) (w : World)
    (write_file : Bytes → Option Bytes) where
  unfoldable pub run_read : Options → Read → Result
  run_read o (failed s) = (s, none, exit_failure)
  run_read o (lines_read lines s) = finish write_file o (sorted lower_rune floats o lines) s

  unfoldable pub run_options : Parsed Options → Stdio → Result
  run_options (misused message) s =
      ((usage_error sort message s).0, none, (usage_error sort message s).1)
  run_options (parsed o) s = run_read o (read_files w (default_files o.files) [] s)

  -- `Run`.
  unfoldable pub run : List Bytes → Stdio → Result
  run args s = run_options (and_then (parse_loop false args no_options) check_separator) s
