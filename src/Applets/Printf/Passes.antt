-- ===== src/Applets/Printf/Passes.antt =====
-- `printFormatted`, `processFormat` and `Run` of applets/printf/printf.go.
use go_busybox.Prelude.{
  ℕ, zero, suc, ◌+◌, Bool, true, false, ◌&&◌, ◌||◌, Option, none, some, List, [], ◌∷◌, ◌++◌, Bytes,
  codes, leb, ◌==◌, if◌then◌else◌, length,
}
use go_busybox.Core.{Stdio, print, errorf, exit_success, exit_failure}
use go_busybox.Go.Fmt.{int64, uint64, text, sprintf}
use go_busybox.Go.Utf8.{encode_rune}
use go_busybox.Applets.Printf.Escapes.{
  Escape, rune, stop, unknown, backslash_escape, expand_b_escapes,
}
use go_busybox.Applets.Printf.Specs.{
  Spec, Parsed, parsed, invalid, parse_format_spec, build_fmt_str,
}
use go_busybox.Applets.Printf.Values.{
  get_arg, get_int_arg, parse_int_arg, parse_uint_arg, Floats, parse_float_arg,
}

-- The streams, `argIdx` and `exitCode`.
pub record State : Type 0 where
  pub stdio : Stdio
  pub index : ℕ
  pub code : ℕ

abbrev pub put : Bytes → State → State
put t st = record st { stdio = print t st.stdio }

-- A message, and the exit code of failure.
abbrev pub complain : Bytes → State → State
complain m st = record st { stdio = errorf m st.stdio; code = exit_failure }

-- A number, which stands as `shown` prints it, or the message about an argument that is none.
unfoldable pub print_number {ℓ} : {A : Type ℓ} → (A → Bytes) → A → Bytes → Option A → State → State
print_number shown default arg none st =
    put (shown default) (complain (codes "printf: invalid number '" ++ (arg ++ codes "'\n")) st)
print_number shown default arg (some v) st = put (shown v) st

-- The first byte, as a rune.
unfoldable pub first_rune : Bytes → Bytes
unfolding encode_rune
first_rune [] = []
first_rune (c ∷ s) = encode_rune c

-- What stands at a place of the format: a text to print or a specification, with the bytes behind the
-- first that it takes, or an end of the loop, with its message.
pub data Part : Type 0 where
  say : Bytes → ℕ → Part
  convert : Spec → ℕ → Part
  halt : Part
  refuse : Bytes → Part

unfoldable pub escape_part : Escape → Part
unfolding encode_rune
escape_part (rune r used) = say (encode_rune r) used
escape_part stop = halt
escape_part (unknown used) = say [] used

unfoldable pub spec_part : Parsed → Part
spec_part (parsed spec used) = convert spec used
spec_part (invalid m) = refuse m

unfoldable pub percent_part : Bytes → Part
unfolding spec_part parse_format_spec
percent_part [] = refuse (codes "%")
percent_part (c ∷ s) =
    if c == b'%' then say (codes "%") 1 else spec_part (parse_format_spec (c ∷ s))

unfoldable pub part : ℕ → Bytes → Part
unfolding escape_part backslash_escape percent_part encode_rune
part c s =
    if c == 92
    then escape_part (backslash_escape s)
    else if c == b'%'
    then percent_part s
    else say (encode_rune c) 0

module _ (floats : Floats) where
  -- The switch of `printFormatted`: the verb, the format for a verb that prints as another one, and the
  -- argument.
  unfoldable pub print_arg : ℕ → (ℕ → Bytes) → Bytes → State → State
  unfolding print_number parse_int_arg parse_uint_arg parse_float_arg sprintf expand_b_escapes
      first_rune
  print_arg verb format arg st =
      if verb == b'd' || verb == b'i'
      then print_number (λ v. sprintf (format b'd') (int64 v)) 0 arg (parse_int_arg arg) st
      else if verb == b'u'
      then print_number (λ v. sprintf (format b'd') (uint64 v)) 0 arg (parse_uint_arg arg) st
      else if verb == b'o'
      then print_number (λ v. sprintf (format b'o') (int64 v)) 0 arg (parse_int_arg arg) st
      else if verb == b'x' || verb == b'X'
      then print_number (λ v. sprintf (format verb) (int64 v)) 0 arg (parse_int_arg arg) st
      else if verb == b's'
      then put (sprintf (format b's') (text arg)) st
      else if verb == b'b'
      then put (sprintf (format b's') (text (expand_b_escapes arg))) st
      else if verb == b'c'
      then put (first_rune arg) st
      else print_number (floats.formatted (format verb)) floats.zero_value arg
          (parse_float_arg floats arg) st

  -- `printFormatted`.
  unfoldable pub print_formatted : List Bytes → Spec → State → State
  unfolding get_arg get_int_arg build_fmt_str print_arg
  print_formatted args spec st =
      let i = if spec.width_star then st.index + 1 else st.index in
      let j = if spec.prec_star then i + 1 else i in
      let width = if spec.width_star then get_int_arg args st.index else spec.width in
      let prec = if spec.prec_star then get_int_arg args i else spec.prec in
      let format = build_fmt_str spec.flags width prec spec.has_prec in
      record (print_arg spec.verb format (get_arg args j) st) { index = j + 1 }

  -- One round of the loop; true if it returns from `processFormat`.
  unfoldable pub follow : List Bytes → Part → (ℕ → State → Bool × State) → State → Bool × State
  unfolding print_formatted
  follow args (say t used) next st = next used (put t st)
  follow args (convert spec used) next st = next used (print_formatted args spec st)
  follow args halt next st = (true, st)
  follow args (refuse m) next st =
      (true, complain (codes "printf: " ++ (m ++ codes ": invalid format\n")) st)

  -- The loop; `skip` counts the bytes that a part has taken.
  unfoldable pub format_loop : List Bytes → Bytes → ℕ → State → Bool × State
  unfolding follow part
  format_loop args [] skip st = (false, st)
  format_loop args (c ∷ s) (suc skip) st = format_loop args s skip st
  format_loop args (c ∷ s) zero st =
      follow args (part c s) (λ used next. format_loop args s used next) st

  -- `processFormat`.
  unfoldable pub process_format : List Bytes → Bytes → State → Bool × State
  unfolding format_loop
  process_format args format st =
      let (returned, end) = format_loop args format 0 (record st { code = exit_success }) in
      (returned || (end.index == st.index && leb (length args) st.index), end)

  -- The loop of `Run`, with the exit code so far; `none`: the fuel is spent, and the loop still goes on.
  unfoldable pub passes : ℕ → List Bytes → Bytes → State → Option (Stdio × ℕ)
  unfolding process_format
  passes zero args format st = none
  passes (suc fuel) args format st =
      let (stopped, end) = process_format args format st in
      let code = if end.code == exit_success then st.code else end.code in
      let next = passes fuel args format (record end { code = code }) in
      if stopped || leb (length args) end.index then some (end.stdio, code) else next

  -- `Run`.
  unfoldable pub run : ℕ → List Bytes → Stdio → Option (Stdio × ℕ)
  unfolding passes
  run fuel [] s = some (errorf (codes "printf: missing operand\n") s, exit_failure)
  run fuel (format ∷ args) s =
      passes fuel args format (record { stdio = s; index = 0; code = exit_success })
