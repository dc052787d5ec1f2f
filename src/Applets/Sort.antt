-- ===== src/Applets/Sort.antt =====
-- pkg/applets/sort/sort.go. `sort.SliceStable` is insertion sort, as it is on a block: every element
-- goes left past each one that it is less than, up to the first that it is not.
mod Order
mod Insertion
mod Lexical
mod Distinct
pub mod Stable
pub mod Run
mod Samples
use go_busybox.Prelude.{
  ℕ, ◌+◌, ◌-◌, Bool, true, false, not, ◌&&◌, ◌||◌, Option, none, some, List, [], ◌∷◌, ◌++◌, Bytes,
  codes, ltb, ◌==◌, if◌then◌else◌, str_eq, length, drop,
}
use go_busybox.Core.{
  Reader, Stdio, Opened, opened, refused, errorf, print, newline, usage_error, exit_success,
  exit_failure,
}
use go_busybox.Core.Lines.{scan, print_lines}
use go_busybox.Core.Inputs.{World, file_message}
use go_busybox.Core.HeadTail.{Parsed, parsed, misused, and_then, first, default_files}
use go_busybox.Go.Lower.{to_lower}
use go_busybox.Go.Strings.{has_prefix, join}
use go_busybox.Go.Utf8.{runes, encode_rune}
use go_busybox.TextUtil.Keys.{parse_key_spec, extract_key}

-- `options`, and the files. The text of the key only tells whether there is one.
pub record Options : Type 0 where
  pub reverse : Bool
  pub numeric : Bool
  pub unique : Bool
  pub ignore : Bool
  pub sep : Bytes
  pub key : Option (ℕ × ℕ)
  pub out_file : Bytes
  pub files : List Bytes

abbrev pub no_options : Options
no_options = record {
  reverse = false;
  numeric = false;
  unique = false;
  ignore = false;
  sep = [];
  key = none;
  out_file = [];
  files = [];
}

abbrev pub sort : Bytes
sort = codes "sort"

unfoldable pub set_key : Option (ℕ × ℕ) → Options → Parsed Options
set_key none o = misused (codes "invalid key")
set_key (some k) o = parsed (record o { key = some k })

abbrev pub takes_value : Bytes → Bool
takes_value arg = str_eq arg (codes "-t") || str_eq arg (codes "-k") || str_eq arg (codes "-o")

-- -t, -k or -o with its value.
unfoldable pub set_value : Bytes → Option Bytes → Options → Parsed Options
set_value arg none o = misused (codes "missing argument")
set_value arg (some val) o =
    if str_eq arg (codes "-t")
    then parsed (record o { sep = val })
    else if str_eq arg (codes "-k")
    then set_key (parse_key_spec val) o
    else parsed (record o { out_file = val })

unfoldable pub letter : ℕ → Options → Parsed Options
letter c o =
    if c == b'r'
    then parsed (record o { reverse = true })
    else if c == b'n'
    then parsed (record o { numeric = true })
    else if c == b'u'
    then parsed (record o { unique = true })
    else if c == b'f'
    then parsed (record o { ignore = true })
    else misused (codes "invalid option -- '" ++ (encode_rune c ++ codes "'"))

unfoldable pub letters : List ℕ → Options → Parsed Options
letters [] o = parsed o
letters (c ∷ cs) o = and_then (letter c o) (letters cs)

-- An argument of flags, and whether the next argument is used.
unfoldable pub parse_flags : Bytes → Option Bytes → Options → Parsed (Options × Bool)
parse_flags arg next o =
    if takes_value arg
    then and_then (set_value arg next o) (λ o'. parsed (o', true))
    else and_then (letters (runes (drop 1 arg)) o) (λ o'. parsed (o', false))

-- The loop over the arguments; the first one is passed over if a flag has used it.
unfoldable pub parse_loop : Bool → List Bytes → Options → Parsed Options
parse_loop used [] o = parsed o
parse_loop true (arg ∷ args) o = parse_loop false args o
parse_loop false (arg ∷ args) o =
    let keep = parse_loop false args (record o { files = o.files ++ arg ∷ [] }) in
    if str_eq arg (codes "--")
    then parsed (record o { files = o.files ++ args })
    else if has_prefix arg (codes "-") && not (str_eq arg (codes "-"))
    then and_then (parse_flags arg (first args) o) (λ r. parse_loop r.1 args r.0)
    else keep

-- A separator is none, or one rune.
unfoldable pub check_separator : Options → Parsed Options
check_separator o =
    if str_eq o.sep [] || length (runes o.sep) == 1
    then parsed o
    else misused (codes "invalid separator")

unfoldable pub key_of : Option (ℕ × ℕ) → Bytes → Bytes → Bytes
key_of none sep line = line
key_of (some (field, char)) sep line = extract_key line field char sep

-- `buildSortKey`.
abbrev pub build_sort_key : Options → Bytes → Bytes
build_sort_key o line = key_of o.key o.sep line

-- `<` on strings.
unfoldable pub str_lt : Bytes → Bytes → Bool
str_lt s [] = false
str_lt [] (d ∷ t) = true
str_lt (c ∷ s) (d ∷ t) =
    let rest = str_lt s t in if ltb c d then true else if ltb d c then false else rest

-- One element of the insertion sort, into the ones before it, the last one first.
unfoldable pub insert : (Bytes → Bytes → Bool) → Bytes → List Bytes → List Bytes
insert less x [] = x ∷ []
insert less x (y ∷ ys) = let past = y ∷ insert less x ys in if less x y then past else x ∷ y ∷ ys

unfoldable pub insert_all : (Bytes → Bytes → Bool) → List Bytes → List Bytes → List Bytes
insert_all less [] ys = ys
insert_all less (x ∷ xs) ys = insert_all less xs (insert less x ys)

abbrev pub backwards : List Bytes → List Bytes
backwards [] = []
backwards (x ∷ xs) = backwards xs ++ x ∷ []

-- `sort.SliceStable`.
unfoldable pub slice_stable : (Bytes → Bytes → Bool) → List Bytes → List Bytes
slice_stable less xs = backwards (insert_all less xs [])

-- Floating-point numbers are a parameter: what `strconv.ParseFloat` makes of a key without its outer
-- space, and the tests `==` and `<`.
pub record Floats : Type 1 where
  pub F : Type 0
  pub parse : Bytes → Option F
  pub eq : F → F → Bool
  pub lt : F → F → Bool

module _ (lower_rune : ℕ → ℕ) (floats : Floats) where
  abbrev pub folded_key : Options → Bytes → Bytes
  folded_key o line =
      let key = build_sort_key o line in if o.ignore then to_lower lower_rune key else key

  -- The comparison of keys as strings.
  abbrev pub text_less : Bool → Bytes → Bytes → Bool
  text_less reverse ki kj = if reverse then str_lt kj ki else str_lt ki kj

  -- The comparison under -n, of keys that are numbers or not.
  unfoldable pub number_less : Bool → Bytes → Bytes → Option floats.F → Option floats.F → Bool
  number_less reverse ki kj none (some nj) = not reverse
  number_less reverse ki kj (some ni) none = reverse
  number_less reverse ki kj (some ni) (some nj) =
      if floats.eq ni nj then str_lt ki kj else if reverse then floats.lt nj ni else floats.lt ni nj
  number_less reverse ki kj none none = text_less reverse ki kj

  -- The function of `SliceStable`.
  unfoldable pub less : Options → Bytes → Bytes → Bool
  less o li lj =
      let ki = folded_key o li in
      let kj = folded_key o lj in
      if o.numeric
      then number_less o.reverse ki kj (floats.parse ki) (floats.parse kj)
      else text_less o.reverse ki kj

  -- The loop that drops a line whose key is that of the last one, under -u; `none` is the start.
  unfoldable pub distinct_lines : Options → Option Bytes → List Bytes → List Bytes
  distinct_lines o last [] = []
  distinct_lines o none (l ∷ ls) = l ∷ distinct_lines o (some (folded_key o l)) ls
  distinct_lines o (some k) (l ∷ ls) =
      let kept = l ∷ distinct_lines o (some (folded_key o l)) ls in
      let dropped = distinct_lines o (some k) ls in
      if str_eq (folded_key o l) k then dropped else kept

  -- The lines that are written.
  unfoldable pub sorted : Options → List Bytes → List Bytes
  sorted o lines =
      let ls = slice_stable (less o) lines in if o.unique then distinct_lines o none ls else ls
