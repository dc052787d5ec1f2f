-- ===== src/Applets/Sort/Stable.antt =====
-- What the lines that applets/sort/sort.go writes are.
use go_busybox.Prelude.{ℕ, ◌≡◌, Bool, true, false, Option, none, some, List, map, Bytes, take}
use go_busybox.Go.Lower.{to_lower}
use go_busybox.TextUtil.Keys.{extract_key}
use go_busybox.Applets.Sort.{Options, Floats, folded_key, less}
use go_busybox.Applets.Sort.Insertion.{keep}
use go_busybox.Applets.Sort.Lexical.{InOrder}
use go_busybox.Applets.Sort.Distinct.{has_key}

-- The first one under -u, and all without it.
abbrev pub firsts : Bool → List Bytes → List Bytes
firsts true ls = take 1 ls
firsts false ls = ls

module _ (lower_rune : ℕ → ℕ) (floats : Floats) (o : Options) where
  -- What is compared: the line, or its key under -k, in lower case under -f.
  abbrev cased : Bool → Bytes → Bytes
  cased true s = to_lower lower_rune s
  cased false s = s

  abbrev keyed : Option (ℕ × ℕ) → Bytes → Bytes
  keyed none line = line
  keyed (some (field, char)) line = extract_key line field char o.sep

  abbrev pub compared : Bytes → Bytes
  compared line = cased o.ignore (keyed o.key line)

  folded : Bytes → Bytes
  folded line = folded_key lower_rune floats o line

  before : Bytes → Bytes → Bool
  before x y = less lower_rune floats o x y

  module _ (textual : o.numeric ≡ false) where
    abbrev Sorts : (Bytes → Bytes) → List Bytes → List Bytes → Type 0
    Sorts key lines out =
        InOrder o.reverse (map key out)
        × ((k : Bytes) → keep (has_key key k) out ≡ firsts o.unique (keep (has_key key k) lines))
