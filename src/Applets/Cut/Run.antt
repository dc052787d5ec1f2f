-- ===== src/Applets/Cut/Run.antt =====
-- `cut` as a whole, on any arguments.
use go_busybox.Prelude.{
  ℕ, ◌+◌, ◌≡◌, refl, ◌≢◌, inl, inr, Bool, false, Option, none, some, List, [], ◌∷◌, Bytes, codes,
  if◌then◌else◌, str_eq, Bool-cases, length,
}
use go_busybox.Core.{
  Reader, Stdio, Opened, opened, refused, print, exit_success, exit_failure, errorf,
}
use go_busybox.Core.Lines.{scan}
use go_busybox.Core.Inputs.{World, file_message}
use go_busybox.Core.HeadTail.{Parsed, parsed, misused, default_files}
use go_busybox.TextUtil.Ranges.{Range, parse_ranges}
use go_busybox.Applets.Cut.Lines.{cut_text, cut_lines-text}
use go_busybox.Applets.Cut.{
  Mode, Args, no_args, cut, cut_end, cut_reader, cut_opened, cut_file, run_files, run_ranges,
  run_mode, run_args, run, parse_loop,
}

-- It never panics on a file, whatever the file system holds.
cut_reader-ne-none :
    (m : Mode) (ranges : List Range) (a : Args) (r : Reader) (s : Stdio)
    → (p : Stdio × Bool) × (cut_reader m ranges a r s ≡ some p)
unfolding cut_reader
cut_reader-ne-none m ranges a r s = (
  cut_end (scan r).1 (print (cut_text m ranges a (scan r).0) s),
  rw (cut_lines-text m ranges a (scan r).0 s) refl,
)

cut_file-ne-none :
    (w : World) (m : Mode) (ranges : List Range) (a : Args) (file : Bytes) (s : Stdio)
    → (p : Stdio × Bool) × (cut_file w m ranges a file s ≡ some p)
unfolding cut_file
cut_file-ne-none w m ranges a file s = elim (Bool-cases (str_eq file (codes "-"))) [
  | inl e ↦
      let (p, q) =
        cut_reader-ne-none m ranges a s.input
          (record s { input = w.left (length (scan s.input).0 + 1) s.input }) in
      (p, rw e q)
  | inr e ↦ let (p, q) = go (w.open_file file) in (p, rw e q)
]
  where
    go : (o : Opened) → (p : Stdio × Bool) × (cut_opened m ranges a file o s ≡ some p)
    go (refused message) =
        ((errorf (file_message cut file message) s, false), unfold cut_opened in refl)
    go (opened r) = unfold cut_opened in cut_reader-ne-none m ranges a r s

run_files-ne-none :
    (w : World) (m : Mode) (ranges : List Range) (a : Args) (files : List Bytes) (code : ℕ)
    (s : Stdio)
    → run_files w m ranges a files code s ≢ none
unfolding run_files
run_files-ne-none w m ranges a [] code s = cc
run_files-ne-none w m ranges a (file ∷ files) code s =
    let (p, e) = cut_file-ne-none w m ranges a file s in
    rw e (run_files-ne-none w m ranges a files (if p.1 then code else exit_failure) p.0)

-- `cut` never panics, whatever its arguments, its files and its input are: no field and no character
-- is read that is not there.
pub run-total : (w : World) (args : List Bytes) (s : Stdio) → run w args s ≢ none
unfolding run run_args run_mode run_ranges
run-total w args s = go (parse_loop false args no_args)
  where
    ranged : (m : Mode) (a : Args) (o : Option (List Range)) → run_ranges w m a o s ≢ none
    ranged m a none = cc
    ranged m a (some ranges) = run_files-ne-none w m ranges a (default_files a.files) exit_success s

    moded : (a : Args) (o : Option Mode) → run_mode w o a s ≢ none
    moded a none = cc
    moded a (some m) = ranged m a (parse_ranges a.spec)

    go : (o : Parsed Args) → run_args w o s ≢ none
    go (misused message) = cc
    go (parsed a) = moded a a.mode
