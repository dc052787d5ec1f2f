-- ===== src/Applets/Tr.antt =====
-- pkg/applets/tr/tr.go.
pub mod Run
mod Samples
pub mod Translate
use go_busybox.Prelude.{
  ℕ, suc, ◌+◌, ◌-◌, ◌≡◌, refl, Bool, true, false, not, ◌&&◌, Option, none, some, List, [], ◌∷◌,
  ◌++◌, Bytes, codes, leb, ◌==◌, if◌then◌else◌, str_eq, length, get_elem?, set, drop, ◌>>=◌,
}
use go_busybox.Core.{
  Reader, Stdio, usage_error, errorf, print, newline, exit_success, exit_failure, spent,
}
use go_busybox.Go.Strings.{has_prefix}
use go_busybox.Go.Utf8.{runes, encode}
use go_busybox.TextUtil.Sets.{parse_set, complement_set, posix_class, class_name, item_at}
use go_busybox.TextUtil.Chars.Distinct.{elem}

-- The flags and the other arguments.
pub record Args : Type 0 where
  pub complement : Bool
  pub delete_set : Bool
  pub squeeze : Bool
  pub files : List Bytes

abbrev pub no_args : Args
no_args = record { complement = false; delete_set = false; squeeze = false; files = [] }

abbrev pub tr : Bytes
tr = codes "tr"

-- One flag; `none` is an invalid option.
unfoldable pub flag : ℕ → Args → Option Args
flag c a =
    if c == b'c'
    then some (record a { complement = true })
    else if c == b'd'
    then some (record a { delete_set = true })
    else if c == b's'
    then some (record a { squeeze = true })
    else none

unfoldable pub flags : List ℕ → Args → Option Args
flags [] a = some a
flags (c ∷ cs) a = do a' ← flag c a; flags cs a'

-- An argument that holds flags: it begins with a dash, and is not a dash alone.
abbrev pub is_flags : Bytes → Bool
is_flags arg = has_prefix arg (codes "-") && not (str_eq arg (codes "-"))

-- The loop over the arguments.
unfoldable pub parse_args : List Bytes → Args → Option Args
parse_args [] a = some a
parse_args (arg ∷ args) a =
    if str_eq arg (codes "--")
    then some (record a { files = a.files ++ args })
    else if is_flags arg
    then (do a' ← flags (runes (drop 1 arg)) a; parse_args args a')
    else parse_args args (record a { files = a.files ++ arg ∷ [] })

-- `indexRune`.
unfoldable pub index_rune : List ℕ → ℕ → ℕ
index_rune [] r = 0
index_rune (item ∷ list) r = if item == r then 0 else suc (index_rune list r)

-- The rune for `r`: the one at its index, or the last one. An empty list is a panic, `none`.
unfoldable pub translated : List ℕ → List ℕ → ℕ → Option ℕ
translated from_runes to_runes r =
    let idx = index_rune from_runes r in
    get_elem? to_runes (if leb (length to_runes) idx then length to_runes - 1 else idx)

-- `out`, and `prev` if `hasPrev` is true.
abbrev pub Output : Type 0
Output = List ℕ × Option ℕ

-- The end of a round: a repeated rune is dropped under -s.
unfoldable pub emit : Bool → ℕ → Output → Output
emit squeeze r (out, none) = (out ++ r ∷ [], some r)
emit squeeze r (out, some prev) =
    if squeeze && r == prev then (out, some prev) else (out ++ r ∷ [], some r)

-- One round of the loop over the input; the set is that of the runes in `from_runes`.
unfoldable pub step : Bool → Bool → List ℕ → List ℕ → ℕ → Output → Option Output
step delete_set squeeze from_runes to_runes r o =
    if delete_set && elem r from_runes
    then some o
    else if not delete_set && elem r from_runes
    then (do r' ← translated from_runes to_runes r; some (emit squeeze r' o))
    else some (emit squeeze r o)

unfoldable pub loop : Bool → Bool → List ℕ → List ℕ → List ℕ → Output → Option Output
loop d s from_runes to_runes [] o = some o
loop d s from_runes to_runes (r ∷ input) o = do
  o' ← step d s from_runes to_runes r o
  loop d s from_runes to_runes input o'

-- SET1, or its complement.
unfoldable pub from_set : Bool → List ℕ → List ℕ
from_set complement rs = if complement then complement_set (λ r. elem r rs) else rs

-- SET2, which is not read under -d; `none` is its error, and that of an empty set.
unfoldable pub to_set : Bool → Bytes → Option (List ℕ)
to_set delete_set spec =
    if delete_set
    then some []
    else (do rs ← parse_set spec; if leb (length rs) 0 then none else some rs)

invalid_set : Stdio → Stdio × ℕ
invalid_set = usage_error tr (codes "invalid set")

-- A read error, or the whole input translated and printed. `none` is a panic.
unfoldable pub translate_input : Option Bytes → Args → List ℕ → List ℕ → Stdio → Option (Stdio × ℕ)
translate_input (some message) a from_runes to_runes s =
    some (errorf (codes "tr: " ++ (message ++ newline)) s, exit_failure)
translate_input none a from_runes to_runes s = do
  o ← loop a.delete_set a.squeeze from_runes to_runes (runes s.input.content) ([], none)
  some (print (encode o.0) s, exit_success)

consume : Option (Stdio × ℕ) → Option (Stdio × ℕ)
consume none = none
consume (some (s, code)) = some (record s { input = spent s.input }, code)

unfoldable pub after_sets : Args → Option (List ℕ) → Option (List ℕ) → Stdio → Option (Stdio × ℕ)
unfolding consume invalid_set
after_sets a none to_runes s = some (invalid_set s)
after_sets a (some rs) none s = some (invalid_set s)
after_sets a (some rs) (some to_runes) s =
    consume (translate_input s.input.failure a (from_set a.complement rs) to_runes s)

-- The sets are parsed, and then the input is read.
unfoldable pub run_sets : Args → Bytes → Bytes → Stdio → Option (Stdio × ℕ)
unfolding after_sets
run_sets a from_spec to_spec s = after_sets a (parse_set from_spec) (to_set a.delete_set to_spec) s

missing_args : Stdio → Option (Stdio × ℕ)
missing_args s = some (usage_error tr (codes "missing args") s)

unfoldable pub run_files : Args → List Bytes → Stdio → Option (Stdio × ℕ)
unfolding missing_args
run_files a [] s = missing_args s
run_files a (from_spec ∷ []) s = if a.delete_set then run_sets a from_spec [] s else missing_args s
run_files a (from_spec ∷ to_spec ∷ files) s = run_sets a from_spec to_spec s

unfoldable pub run_args : Option Args → Stdio → Option (Stdio × ℕ)
run_args none s = some (usage_error tr (codes "invalid option") s)
run_args (some a) s = run_files a a.files s

-- `Run`; `none` is a panic.
unfoldable pub run : List Bytes → Stdio → Option (Stdio × ℕ)
unfolding run_args
run args s = run_args (parse_args args no_args) s

abbrev hello : Stdio
hello = record {
  input = record { content = codes "hello, world"; failure = none };
  out = [];
  errors = [];
}

printed : List Bytes → Option Bytes
unfolding run
printed args = run args hello >>= λ r. some r.0.out

run_runs :
    (printed (codes "a-y" ∷ codes "b-z" ∷ []) ≡ some (codes "ifmmp, xpsme"))
    × (printed (codes "-d" ∷ codes "l" ∷ []) ≡ some (codes "heo, word"))
    × (printed (codes "-s" ∷ codes "x" ∷ codes "y" ∷ []) ≡ some (codes "helo, world"))
    × (printed (codes "-cd" ∷ codes "[:lower:]" ∷ []) ≡ some (codes "helloworld"))
    × (printed (codes "-C" ∷ codes "a" ∷ codes "b" ∷ []) ≡ some [])
unfolding printed run_files run_sets translate_input loop step emit translated index_rune from_set
    to_set parse_args flags flag parse_set posix_class class_name item_at complement_set runes
    encode has_prefix str_eq usage_error
run_runs = (refl, refl, refl, refl, refl)
