-- ===== src/Applets/Cut.antt =====
-- pkg/applets/cut/cut.go.
pub mod Lines
pub mod Run
pub mod Sections
use go_busybox.Prelude.{
  ℕ, ◌+◌, ◌-◌, Bool, true, false, not, ◌&&◌, Option, none, some, List, [], ◌∷◌, ◌++◌, Bytes, codes,
  ◌==◌, if◌then◌else◌, str_eq, length, drop, ◌>>=◌,
}
use go_busybox.Core.{
  Reader, Stdio, Opened, opened, refused, errorf, println, newline, usage_error, exit_success,
  exit_failure,
}
use go_busybox.Core.Lines.{scan}
use go_busybox.Core.Inputs.{World, file_message}
use go_busybox.Core.HeadTail.{Parsed, parsed, misused, and_then, first, default_files}
use go_busybox.Go.Strings.{has_prefix, split_2}
use go_busybox.Go.Utf8.{runes, encode_rune}
use go_busybox.TextUtil.Ranges.{Range, parse_ranges}
use go_busybox.TextUtil.Fields.{Projection, printed, suppressed, field_func}
use go_busybox.TextUtil.Chars.{char_func}

-- `mode`, when it is not empty.
pub data Mode : Type 0 where
  by_field : Mode
  by_char : Mode
  by_byte : Mode

abbrev pub same_mode : Mode → Mode → Bool
same_mode by_field by_field = true
same_mode by_char by_char = true
same_mode by_byte by_byte = true
same_mode _ _ = false

-- The variables that the arguments set.
pub record Args : Type 0 where
  pub mode : Option Mode
  pub spec : Bytes
  pub delimiter : ℕ
  pub output_delimiter : Bytes
  pub suppress : Bool
  pub files : List Bytes

abbrev pub no_args : Args
no_args = record {
  mode = none;
  spec = [];
  delimiter = 9;
  output_delimiter = [];
  suppress = false;
  files = [];
}

abbrev pub cut : Bytes
cut = codes "cut"

-- The value of a flag: the rest of its argument or the next one, and whether that is used.
unfoldable pub value : Bytes → Bytes → Option Bytes → Parsed (Bytes × Bool)
value missing (c ∷ val) next = parsed (c ∷ val, false)
value missing [] (some val) = parsed (val, true)
value missing [] none = misused missing

unfoldable pub set_delimiter : List ℕ → Bool → Args → Parsed (Args × Bool)
set_delimiter [] used a = misused (codes "invalid delimiter")
set_delimiter (r ∷ rs) used a = parsed (record a { delimiter = r }, used)

abbrev pub other_mode : Option Mode → Mode → Bool
other_mode none m = false
other_mode (some m') m = not (same_mode m' m)

-- -f, -c or -b.
unfoldable pub set_list : Mode → Bytes → Option Bytes → Args → Parsed (Args × Bool)
set_list m val next a =
    if other_mode a.mode m
    then misused (codes "only one type of list allowed")
    else and_then (value (codes "missing list") val next)
        (λ v. parsed (record a { mode = some m; spec = v.0 }, v.1))

-- The letters of one argument; the result tells whether the next argument is used.
unfoldable pub parse_letters : Bytes → Option Bytes → Args → Parsed (Args × Bool)
parse_letters [] next a = parsed (a, false)
parse_letters (c ∷ s) next a =
    let suppressing = parse_letters s next (record a { suppress = true }) in
    let ignored = parse_letters s next a in
    if c == b'd'
    then and_then (value (codes "missing delimiter") s next) (λ v. set_delimiter (runes v.0) v.1 a)
    else if c == b'f'
    then set_list by_field s next a
    else if c == b'c'
    then set_list by_char s next a
    else if c == b'b'
    then set_list by_byte s next a
    else if c == b's'
    then suppressing
    else if c == b'n'
    then ignored
    else if c == b'D'
    then ignored
    else misused (codes "invalid option -- '" ++ (encode_rune c ++ codes "'"))

-- The text behind the first "=", or the next argument, if there is one.
unfoldable pub set_output : Option Bytes → Option Bytes → Args → Args × Bool
set_output (some text) next a = (record a { output_delimiter = text }, false)
set_output none (some text) a = (record a { output_delimiter = text }, true)
set_output none none a = (a, false)

-- One argument that is not "--".
unfoldable pub parse_arg : Bytes → Option Bytes → Args → Parsed (Args × Bool)
parse_arg arg next a =
    if has_prefix arg (codes "--output-delimiter")
    then parsed (set_output (split_2 arg b'=').1 next a)
    else if has_prefix arg (codes "-") && not (str_eq arg (codes "-"))
    then parse_letters (drop 1 arg) next a
    else parsed (record a { files = a.files ++ arg ∷ [] }, false)

-- The loop over the arguments; the first one is passed over if a flag has used it.
unfoldable pub parse_loop : Bool → List Bytes → Args → Parsed Args
parse_loop used [] a = parsed a
parse_loop true (arg ∷ args) a = parse_loop false args a
parse_loop false (arg ∷ args) a =
    if str_eq arg (codes "--")
    then parsed (record a { files = a.files ++ args })
    else and_then (parse_arg arg (first args) a) (λ r. parse_loop r.1 args r.0)

-- `fieldFunc` or `charFunc` on a line; `none` is a panic.
unfoldable pub cut_line : Mode → List Range → Args → Bytes → Option Projection
cut_line by_field ranges a line = field_func ranges a.delimiter a.output_delimiter a.suppress line
cut_line by_char ranges a line = char_func ranges line >>= λ text. some (printed text)
cut_line by_byte ranges a line = char_func ranges line >>= λ text. some (printed text)

abbrev pub print_projection : Projection → Stdio → Stdio
print_projection (printed text) s = println text s
print_projection suppressed s = s

-- The loop over the lines of one input.
unfoldable pub cut_lines : Mode → List Range → Args → List Bytes → Stdio → Option Stdio
cut_lines m ranges a [] s = some s
cut_lines m ranges a (line ∷ lines) s = do
  p ← cut_line m ranges a line
  cut_lines m ranges a lines (print_projection p s)

unfoldable pub cut_end : Option Bytes → Stdio → Stdio × Bool
cut_end none s = (s, true)
cut_end (some message) s = (errorf (codes "cut: " ++ (message ++ newline)) s, false)

-- One input, and whether it is read without an error.
unfoldable pub cut_reader : Mode → List Range → Args → Reader → Stdio → Option (Stdio × Bool)
cut_reader m ranges a r s = do s' ← cut_lines m ranges a (scan r).0 s; some (cut_end (scan r).1 s')

unfoldable pub cut_opened :
    Mode → List Range → Args → Bytes → Opened → Stdio → Option (Stdio × Bool)
cut_opened m ranges a file (refused message) s =
    some (errorf (file_message cut file message) s, false)
cut_opened m ranges a file (opened r) s = cut_reader m ranges a r s

module _ (w : World) where
  unfoldable pub cut_file : Mode → List Range → Args → Bytes → Stdio → Option (Stdio × Bool)
  cut_file m ranges a file s =
      if str_eq file (codes "-")
      then cut_reader m ranges a s.input
          (record s { input = w.left (length (scan s.input).0 + 1) s.input })
      else cut_opened m ranges a file (w.open_file file) s

  -- The loop over the files.
  unfoldable pub run_files : Mode → List Range → Args → List Bytes → ℕ → Stdio → Option (Stdio × ℕ)
  run_files m ranges a [] code s = some (s, code)
  run_files m ranges a (file ∷ files) code s = do
    r ← cut_file m ranges a file s
    run_files m ranges a files (if r.1 then code else exit_failure) r.0

  unfoldable pub run_ranges : Mode → Args → Option (List Range) → Stdio → Option (Stdio × ℕ)
  run_ranges m a none s = some (usage_error cut (codes "invalid list") s)
  run_ranges m a (some ranges) s = run_files m ranges a (default_files a.files) exit_success s

  unfoldable pub run_mode : Option Mode → Args → Stdio → Option (Stdio × ℕ)
  run_mode none a s = some (usage_error cut (codes "missing list") s)
  run_mode (some m) a s = run_ranges m a (parse_ranges a.spec) s

  unfoldable pub run_args : Parsed Args → Stdio → Option (Stdio × ℕ)
  run_args (misused message) s = some (usage_error cut message s)
  run_args (parsed a) s = run_mode a.mode a s

  -- `Run`; `none` is a panic.
  unfoldable pub run : List Bytes → Stdio → Option (Stdio × ℕ)
  run args s = run_args (parse_loop false args no_args) s
