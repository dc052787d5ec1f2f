-- ===== src/Applets/Uniq.antt =====
-- pkg/applets/uniq/uniq.go. What is written is collected line by line, and goes to its place at the
-- end.
pub mod Groups
pub mod Run
use go_busybox.Prelude.{
  ℕ, ◌+◌, ◌-◌, Bool, true, false, not, ◌&&◌, Option, none, some, List, [], ◌∷◌, ◌++◌, Bytes, codes,
  ltb, ◌==◌, if◌then◌else◌, str_eq, length, take, drop, replicate,
}
use go_busybox.Core.{
  Reader, Stdio, Opened, opened, refused, errorf, print, newline, usage_error, exit_success,
  exit_failure, spent,
}
use go_busybox.Core.Lines.{scan, lines_text}
use go_busybox.Core.Inputs.{World, file_message}
use go_busybox.Core.HeadTail.{Parsed, parsed, misused, and_then, first}
use go_busybox.Go.Int.{ℤ, pos, negsuc, atoi, decimal}
use go_busybox.Go.Strings.{has_prefix}
use go_busybox.Go.Utf8.{runes, encode, encode_rune}
use go_busybox.Go.Lower.{to_lower}
use go_busybox.TextUtil.Normalize.{normalize_line}

-- The flags and the files.
pub record Options : Type 0 where
  pub count : Bool
  pub dup : Bool
  pub uniq : Bool
  pub ignore_case : Bool
  pub skip_fields : ℕ
  pub skip_chars : ℕ
  pub max_chars : ℕ
  pub files : List Bytes

abbrev pub no_options : Options
no_options = record {
  count = false;
  dup = false;
  uniq = false;
  ignore_case = false;
  skip_fields = 0;
  skip_chars = 0;
  max_chars = 0;
  files = [];
}

abbrev pub applet : Bytes
applet = codes "uniq"

unfoldable pub not_negative : Option ℤ → Parsed ℕ
not_negative none = misused (codes "invalid number")
not_negative (some (pos n)) = parsed n
not_negative (some (negsuc n)) = misused (codes "invalid number")

-- The number of -f, -s or -w, and whether it is the next argument.
unfoldable pub number : Bytes → Option Bytes → Parsed (ℕ × Bool)
number (c ∷ val) next = and_then (not_negative (atoi (c ∷ val))) (λ n. parsed (n, false))
number [] (some val) = and_then (not_negative (atoi val)) (λ n. parsed (n, true))
number [] none = misused (codes "missing number")

-- One letter of an argument of flags.
unfoldable pub letter : ℕ → Options → Parsed Options
letter c o =
    if c == b'c'
    then parsed (record o { count = true })
    else if c == b'd'
    then parsed (record o { dup = true })
    else if c == b'u'
    then parsed (record o { uniq = true })
    else if c == b'i'
    then parsed (record o { ignore_case = true })
    else misused (codes "invalid option -- '" ++ (encode_rune c ++ codes "'"))

unfoldable pub letters : List ℕ → Options → Parsed Options
letters [] o = parsed o
letters (c ∷ cs) o = and_then (letter c o) (letters cs)

unfoldable pub parse_flags : Bytes → Option Bytes → Options → Parsed (Options × Bool)
parse_flags arg next o =
    if has_prefix arg (codes "-f")
    then and_then (number (drop 2 arg) next) (λ v. parsed (record o { skip_fields = v.0 }, v.1))
    else if has_prefix arg (codes "-s")
    then and_then (number (drop 2 arg) next) (λ v. parsed (record o { skip_chars = v.0 }, v.1))
    else if has_prefix arg (codes "-w")
    then and_then (number (drop 2 arg) next) (λ v. parsed (record o { max_chars = v.0 }, v.1))
    else and_then (letters (runes (drop 1 arg)) o) (λ o'. parsed (o', false))

-- The loop over the arguments; the first one is passed over if a flag has used it.
unfoldable pub parse_loop : Bool → List Bytes → Options → Parsed Options
parse_loop used [] o = parsed o
parse_loop true (arg ∷ args) o = parse_loop false args o
parse_loop false (arg ∷ args) o =
    let keep = parse_loop false args (record o { files = o.files ++ arg ∷ [] }) in
    if str_eq arg (codes "--")
    then parsed (record o { files = o.files ++ args })
    else if has_prefix arg (codes "-") && not (str_eq arg (codes "-"))
    then and_then (parse_flags arg (first args) o) (λ r. parse_loop r.1 args r.0)
    else keep

-- `fmt.Sprintf("%7d %s", count, line)`.
abbrev pub counted : ℕ → Bytes → Bytes
counted count line =
    replicate (7 - length (decimal count)) b' ' ++ (decimal count ++ (codes " " ++ line))

-- The group of equal lines so far, and the lines written.
pub record State : Type 0 where
  pub prev : Bytes
  pub prev_key : Bytes
  pub count : ℕ
  pub at_first : Bool
  pub written : List Bytes

abbrev pub initial : State
initial = record { prev = []; prev_key = []; count = 0; at_first = true; written = [] }

abbrev pub rendered : Options → Bytes → ℕ → Bytes
rendered o line count = if o.count then counted count line else line

-- `flush`.
unfoldable pub flush : Options → State → State
flush o s =
    if s.at_first
    then s
    else if o.dup && ltb s.count 2
    then s
    else if o.uniq && not (s.count == 1)
    then s
    else record s { written = s.written ++ rendered o s.prev s.count ∷ [] }

-- `lower_rune` is Unicode's table of lower case.
module _ (lower_rune : ℕ → ℕ) where
  abbrev pub cut_key : Options → Bytes → Bytes
  cut_key o key =
      if ltb 0 o.max_chars && ltb o.max_chars (length key) then take o.max_chars key else key

  -- `normalize`.
  unfoldable pub normalize : Options → Bytes → Bytes
  normalize o line =
      let key = normalize_line line o.skip_fields o.skip_chars in
      cut_key o (if o.ignore_case then to_lower lower_rune key else key)

  -- One round of the loop over the lines.
  unfoldable pub step : Options → Bytes → State → State
  step o line s =
      let key = normalize o line in
      if s.at_first
      then record s { prev = line; prev_key = key; count = 1; at_first = false }
      else if str_eq key s.prev_key
      then record s { count = s.count + 1 }
      else record (flush o s) { prev = line; prev_key = key; count = 1 }

  unfoldable pub loop : Options → List Bytes → State → State
  loop o [] s = s
  loop o (line ∷ lines) s = loop o lines (step o line s)

  -- The lines written, and the error that ends the input early: the last group is then lost.
  unfoldable pub filtered : Options → List Bytes → Option Bytes → List Bytes
  filtered o lines none = (flush o (loop o lines initial)).written
  filtered o lines (some message) = (loop o lines initial).written

-- What a run leaves: the streams, what is in the output file if there is one, the exit code.
abbrev pub Result : Type 0
Result = Stdio × Option Bytes × ℕ

-- `writeLine` for each line, and the end of `Run`.
unfoldable pub finish : Bool → List Bytes → Option Bytes → Stdio → Result
finish to_file lines failure s =
    let s' = if to_file then s else print (lines_text lines) s in
    let file = if to_file then some (lines_text lines) else none in
    elim failure [
      | none ↦ (s', file, exit_success)
      | some message ↦ (errorf (codes "uniq: " ++ (message ++ newline)) s', file, exit_failure)
    ]

module _ (lower_rune : ℕ → ℕ) (w : World) where
  -- `create` is what `os.Create` gives: `none`, or its error.
  unfoldable pub run_opened : Options → Bool → Bytes → Opened → Stdio → Result
  run_opened o to_file in_file (refused message) s = (
    errorf (file_message applet in_file message) s,
    if to_file then some [] else none,
    exit_failure,
  )
  run_opened o to_file in_file (opened r) s =
      finish to_file (filtered lower_rune o (scan r).0 (scan r).1) (scan r).1 s

  unfoldable pub run_input : Options → Bool → Bytes → Stdio → Result
  run_input o to_file in_file s =
      if str_eq in_file (codes "-")
      then run_opened o to_file in_file (opened s.input)
          (record s { input = w.left (length (scan s.input).0 + 1) s.input })
      else run_opened o to_file in_file (w.open_file in_file) s

  unfoldable pub run_created : Options → Bytes → Bytes → Option Bytes → Stdio → Result
  run_created o in_file out_file none s = run_input o true in_file s
  run_created o in_file out_file (some message) s =
      (errorf (file_message applet out_file message) s, none, exit_failure)

  unfoldable pub run_files : (Bytes → Option Bytes) → Options → List Bytes → Stdio → Result
  run_files create o [] s = run_input o false (codes "-") s
  run_files create o (in_file ∷ []) s = run_input o false in_file s
  run_files create o (in_file ∷ out_file ∷ files) s =
      let made = run_created o in_file out_file (create out_file) s in
      if str_eq out_file (codes "-") then run_input o false in_file s else made

  unfoldable pub run_options : (Bytes → Option Bytes) → Parsed Options → Stdio → Result
  run_options create (misused message) s =
      ((usage_error applet message s).0, none, (usage_error applet message s).1)
  run_options create (parsed o) s = run_files create o o.files s

  -- `Run`.
  unfoldable pub run : (Bytes → Option Bytes) → List Bytes → Stdio → Result
  run create args s = run_options create (parse_loop false args no_options) s
