-- ===== src/Applets/Head.antt =====
-- pkg/applets/head/head.go.
mod Errors
pub mod Run
use go_busybox.Prelude.{
  ℕ, zero, suc, ◌+◌, ◌-◌, Bool, true, false, not, ◌&&◌, Option, none, some, List, [], ◌++◌, Bytes,
  codes, ltb, leb, ◌==◌, if◌then◌else◌, str_eq, length, take, drop,
}
use go_busybox.Core.{Reader, Stdio, Opened, opened, refused, errorf, print, println, spent}
use go_busybox.Core.Lines.{scan, cut_lines, fitting, last_line, print_lines}
use go_busybox.Core.Inputs.{World, file_message}
use go_busybox.Core.HeadTail.{run_head_tail, head}
use go_busybox.Go.Int.{ℤ, pos, negsuc}

-- `ReadFull` into a buffer of `n` bytes, and the write of what was read; the end of the file is
-- no error. The result is what is printed, what is left, and whether it succeeds.
unfoldable pub head_bytes : ℕ → Reader → Bytes × Reader × Bool
head_bytes n r =
    if leb n (length r.content)
    then (take n r.content, record r { content = drop n r.content }, true)
    else elim r.failure [ none ↦ (r.content, spent r, true) | some message ↦ ([], spent r, false) ]

-- Whether the last line that is delivered is one with no newline.
abbrev pub unfinished : Reader → Bool
unfinished r =
    let (lines, rest) = cut_lines r.content [] in
    not (leb (length rest) 0) && not (fitting (lines ++ last_line rest)).1

-- Whether the scanner has met an error behind its first `n` lines: with an unfinished last line it
-- meets the end of the input before it delivers that line.
unfoldable pub first_error : ℕ → Reader → Option Bytes
first_error n r =
    if ltb (length (scan r).0) n
    then (scan r).1
    else if length (scan r).0 == n && unfinished r
    then (scan r).1
    else none

abbrev pub is_none : Option Bytes → Bool
is_none none = true
is_none (some message) = false

-- The loop over the first `n` lines; no line is scanned for n = 0.
unfoldable pub head_lines : ℕ → Reader → List Bytes × Bool
head_lines zero r = ([], true)
head_lines (suc n) r = (take (suc n) (scan r).0, is_none (first_error (suc n) r))

-- A count that is negative is that of no line.
abbrev pub count : ℤ → ℕ
count (pos n) = n
count (negsuc n) = 0

-- `headFile` behind its reader: the lines or bytes, what is left, and whether it succeeds.
unfoldable pub head_reader : (ℕ → Reader → Reader) → ℤ → ℤ → Reader → Stdio → Stdio × Reader × Bool
head_reader left lines (pos n) r s =
    let (text, rest, ok) = head_bytes n r in (print text s, rest, ok)
head_reader left lines (negsuc n) r s =
    let (texts, ok) = head_lines (count lines) r in (print_lines texts s, left (count lines) r, ok)

abbrev pub keep_input : Stdio × Reader × Bool → Option (Stdio × Bool)
keep_input (s, r, ok) = some (record s { input = r }, ok)

abbrev pub drop_reader : Stdio × Reader × Bool → Option (Stdio × Bool)
drop_reader (s, r, ok) = some (s, ok)

unfoldable pub head_opened :
    (ℕ → Reader → Reader) → Bytes → ℤ → ℤ → Opened → Stdio → Option (Stdio × Bool)
head_opened left path lines bytes (refused message) s =
    some (errorf (file_message head path message) s, false)
head_opened left path lines bytes (opened r) s = drop_reader (head_reader left lines bytes r s)

module _ (w : World) where
  -- `headFile`.
  unfoldable pub head_file : Stdio → Bytes → ℤ → ℤ → Bool → Option (Stdio × Bool)
  head_file s path lines bytes from_start =
      if str_eq path (codes "-")
      then keep_input (head_reader w.left lines bytes s.input s)
      else head_opened w.left path lines bytes (w.open_file path) s

  -- `Run`; `none` would be a panic.
  unfoldable pub run : List Bytes → Stdio → Option (Stdio × ℕ)
  run args s = run_head_tail head head_file args s
