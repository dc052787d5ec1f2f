-- ===== src/Core/HeadTail.antt =====
-- pkg/core/headtail.go: the arguments of `head` and `tail`, and the loop over their files.
pub mod Spellings
pub mod Sections
mod Samples
use go_busybox.Prelude.{
  ◌>>=◌, ℕ, ◌+◌, ◌-◌, ◌^◌, ◌<◌, ◌≡◌, refl, Bool, true, false, not, ◌&&◌, ◌||◌, Option, none, some,
  List, [], ◌∷◌, ◌++◌, Bytes, codes, ltb, leb, ◌==◌, if◌then◌else◌, str_eq, length,
}
use go_busybox.Core.{Stdio, usage_error, errorf, print, newline, exit_success, exit_failure}
use go_busybox.Go.Int.{ℤ, pos, negsuc, neg, atoi, itoa}
use go_busybox.Go.Utf8.{encode_rune}

-- `HeadTailOptions`.
pub record Options : Type 0 where
  pub lines : ℤ
  pub bytes : ℤ
  pub quiet : Bool
  pub verbose : Bool
  pub files : List Bytes
  pub from : Bool

abbrev pub default_options : Options
default_options = record {
  lines = pos 10;
  bytes = negsuc 0;
  quiet = false;
  verbose = false;
  files = [];
  from = false;
}

-- What parsing gives: a value, or the message of an error of use.
pub data Parsed (A : Type 0) : Type 0 where
  parsed : A → Parsed A
  misused : Bytes → Parsed A

abbrev pub and_then : {A B : Type 0} → Parsed A → (A → Parsed B) → Parsed B
and_then (parsed a) f = f a
and_then (misused message) f = misused message

-- `-n` on an int: the least one is its own negation.
abbrev pub negate : ℤ → ℤ
negate (pos n) = neg n
negate (negsuc n) = if n == 2 ^ 63 - 1 then negsuc n else pos (n + 1)

abbrev pub is_negative : ℤ → Bool
is_negative (pos n) = false
is_negative (negsuc n) = true

abbrev invalid_number : {A : Type 0} → Bytes → Parsed A
invalid_number text = misused (codes "invalid number: " ++ text)

unfoldable pub number : Bytes → Option ℤ → Parsed ℤ
number text none = invalid_number text
number text (some n) = parsed n

-- The number of `-n` or `-c`; one behind a plus sign is negated.
unfoldable pub flag_value : Bytes → Parsed ℤ
unfolding number
flag_value [] = number [] (atoi [])
flag_value (c ∷ s) =
    if c == b'+'
    then and_then (number s (atoi s)) (λ n. parsed (negate n))
    else number (c ∷ s) (atoi (c ∷ s))

-- `parseNumericFlagValue`: the rest of the argument or the next one, and whether that is used.
unfoldable pub parse_numeric_flag_value : Bytes → Option Bytes → Parsed (ℤ × Bool)
parse_numeric_flag_value (c ∷ s) next = and_then (flag_value (c ∷ s)) (λ n. parsed (n, false))
parse_numeric_flag_value [] (some text) = and_then (flag_value text) (λ n. parsed (n, true))
parse_numeric_flag_value [] none = misused (codes "missing number")

abbrev pub head : Bytes
head = codes "head"

unfoldable pub set_lines : Bytes → ℤ × Bool → Options → Parsed (Options × Bool)
set_lines applet (val, used) o =
    if is_negative val
    then if str_eq applet head
      then invalid_number (itoa val)
      else parsed (record o { from = true; lines = negate val }, used)
    else parsed (record o { lines = val }, used)

unfoldable pub set_bytes : ℤ × Bool → Options → Options × Bool
set_bytes (val, used) o =
    if is_negative val
    then (record o { from = true; bytes = negate val }, used)
    else (record o { bytes = val }, used)

-- The letters of one argument; the result tells whether the next argument is used.
unfoldable pub parse_letters : Bytes → Bytes → Option Bytes → Options → Parsed (Options × Bool)
parse_letters applet [] next o = parsed (o, false)
parse_letters applet (c ∷ s) next o =
    let quiet = parse_letters applet s next (record o { quiet = true }) in
    let verbose = parse_letters applet s next (record o { verbose = true }) in
    if c == b'n'
    then and_then (parse_numeric_flag_value s next) (λ v. set_lines applet v o)
    else if c == b'c'
    then and_then (parse_numeric_flag_value s next) (λ v. parsed (set_bytes v o))
    else if c == b'q'
    then quiet
    else if c == b'v'
    then verbose
    else misused (codes "invalid option -- '" ++ (encode_rune c ++ codes "'"))

abbrev pub is_digit : ℕ → Bool
is_digit c = leb b'0' c && leb c b'9'

-- One argument that is not "--".
unfoldable pub parse_arg : Bytes → Bytes → Option Bytes → Options → Parsed (Options × Bool)
parse_arg applet (d ∷ c ∷ s) next o =
    if d == b'-'
    then if is_digit c
      then and_then (number (c ∷ s) (atoi (c ∷ s))) (λ n. parsed (record o { lines = n }, false))
      else parse_letters applet (c ∷ s) next o
    else parsed (record o { files = o.files ++ (d ∷ c ∷ s) ∷ [] }, false)
parse_arg applet arg next o = parsed (record o { files = o.files ++ arg ∷ [] }, false)

abbrev pub first : List Bytes → Option Bytes
first [] = none
first (arg ∷ args) = some arg

-- The loop over the arguments; the first one is passed over if a flag has used it.
unfoldable pub parse_loop : Bytes → Bool → List Bytes → Options → Parsed Options
parse_loop applet used [] o = parsed o
parse_loop applet true (arg ∷ args) o = parse_loop applet false args o
parse_loop applet false (arg ∷ args) o =
    if str_eq arg (codes "--")
    then parsed (record o { files = o.files ++ args })
    else and_then (parse_arg applet arg (first args) o) (λ r. parse_loop applet r.1 args r.0)

unfoldable pub default_files : List Bytes → List Bytes
default_files [] = codes "-" ∷ []
default_files (f ∷ fs) = f ∷ fs

-- `ParseHeadTailArgs`.
unfoldable pub parse_args : Bytes → List Bytes → Parsed Options
parse_args applet args =
    and_then (parse_loop applet false args default_options)
      (λ o. parsed (record o { files = default_files o.files }))

-- `HeadTailFileFunc`: the streams behind it and whether it succeeds; `none` is a panic.
abbrev pub FileFunc : Type 0
FileFunc = Stdio → Bytes → ℤ → ℤ → Bool → Option (Stdio × Bool)

abbrev pub header : Bytes → Bytes
header file = codes "==> " ++ (file ++ codes " <==\n")

abbrev pub show_headers : Options → Bool
show_headers o = ltb 1 (length o.files) && not o.quiet || o.verbose

-- What stands above a file; it is not the first one if `later` is true.
unfoldable pub announce : Bool → Bool → Bytes → Stdio → Stdio
announce headers later file s =
    if headers then print (header file) (if later then print newline s else s) else s

-- One file, and whether it succeeds.
unfoldable pub run_file : Bytes → FileFunc → Options → Bytes → Stdio → Option (Stdio × Bool)
run_file applet fn o file s =
    if o.from && str_eq applet head
    then some (errorf (codes "head: invalid number '+" ++ (itoa o.lines ++ codes "'\n")) s, false)
    else fn s file o.lines o.bytes o.from

unfoldable pub run_files :
    Bytes → FileFunc → Options → Bool → List Bytes → Stdio → ℕ → Option (Stdio × ℕ)
run_files applet fn o later [] s code = some (s, code)
run_files applet fn o later (file ∷ files) s code = do
  r ← run_file applet fn o file (announce (show_headers o) later file s)
  run_files applet fn o true files r.0 (if r.1 then code else exit_failure)

unfoldable pub run_options : Bytes → FileFunc → Parsed Options → Stdio → Option (Stdio × ℕ)
run_options applet fn (misused message) s = some (usage_error applet message s)
run_options applet fn (parsed o) s = run_files applet fn o false o.files s exit_success

-- `RunHeadTail`.
unfoldable pub run_head_tail : Bytes → FileFunc → List Bytes → Stdio → Option (Stdio × ℕ)
unfolding run_options
run_head_tail applet fn args s = run_options applet fn (parse_args applet args) s

parse_args_runs :
    (parse_args (codes "tail") (codes "-qn" ∷ codes "+3" ∷ codes "f" ∷ [])
      ≡ parsed (record default_options {
        quiet = true;
        from = true;
        lines = pos 3;
        files = codes "f" ∷ [];
      }))
    × (parse_args head (codes "-n" ∷ codes "+3" ∷ []) ≡ misused (codes "invalid number: -3"))
    × (parse_args head (codes "-c7" ∷ codes "-12" ∷ codes "--" ∷ codes "-x" ∷ [])
        ≡ parsed
            (record default_options { bytes = pos 7; lines = pos 12; files = codes "-x" ∷ [] }))
unfolding parse_args parse_loop parse_arg parse_letters set_lines set_bytes parse_numeric_flag_value
    flag_value number default_files atoi itoa str_eq
parse_args_runs = (refl, refl, refl)
