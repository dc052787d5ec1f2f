-- ===== src/Core/BoolFlags.antt =====
-- `ParseBoolFlags` of pkg/core/headtail.go. The map of flags is the caller's: `known` tells whether
-- a letter, with its alias resolved, is in it, and the letters that are set are collected.
use go_busybox.Prelude.{
  ℕ, ◌%◌, Bool, false, Option, none, some, List, [], ◌∷◌, ◌++◌, Bytes, codes, ◌==◌, if◌then◌else◌,
  str_eq, set, drop,
}
use go_busybox.Core.HeadTail.{Parsed, parsed, misused, and_then}
use go_busybox.Go.Utf8.{runes, encode_rune}

module _ (known : ℕ → Bool) (aliases : ℕ → Option ℕ) where
  -- `byte(c)`, and then its alias.
  abbrev pub flag_key : ℕ → ℕ
  flag_key c = elim (aliases (c % 256)) [ none ↦ c % 256 | some alias ↦ alias ]

  -- The runes of one argument; the flags that are set stand in `set`.
  unfoldable pub set_flags : List ℕ → List ℕ → Parsed (List ℕ)
  set_flags [] set = parsed set
  set_flags (c ∷ cs) set =
      let rest = set_flags cs (set ++ flag_key c ∷ []) in
      if known (flag_key c)
      then rest
      else misused (codes "invalid option -- '" ++ (encode_rune c ++ codes "'"))

  abbrev pub is_flag : Bytes → Bool
  is_flag (d ∷ c ∷ s) = d == b'-'
  is_flag _ = false

  -- `ParseBoolFlags`: the flags that are set, and the other arguments.
  unfoldable pub parse_bool_flags : List Bytes → List ℕ → List Bytes → Parsed (List ℕ × List Bytes)
  parse_bool_flags [] set files = parsed (set, files)
  parse_bool_flags (arg ∷ args) set files =
      let rest = parse_bool_flags args set (files ++ arg ∷ []) in
      if str_eq arg (codes "--")
      then parsed (set, files ++ args)
      else if is_flag arg
      then and_then (set_flags (runes (drop 1 arg)) set) (λ set'. parse_bool_flags args set' files)
      else rest
