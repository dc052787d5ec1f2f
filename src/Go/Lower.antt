-- ===== src/Go/Lower.antt =====
-- `strings.ToLower`.
use go_busybox.Prelude.{ℕ, ◌+◌, Bool, true, ◌&&◌, [], ◌∷◌, map, Bytes, ltb, leb, if◌then◌else◌}
use go_busybox.Go.Utf8.{runes, encode}

abbrev pub ascii_lower : ℕ → ℕ
ascii_lower c = if leb b'A' c && leb c b'Z' then c + 32 else c

abbrev pub is_ascii : Bytes → Bool
is_ascii [] = true
is_ascii (c ∷ s) = ltb c 0x80 && is_ascii s

-- Unicode's table of lower case is a parameter, for the runes that are not ASCII.
module _ (lower_rune : ℕ → ℕ) where
  -- `strings.ToLower`.
  unfoldable pub to_lower : Bytes → Bytes
  to_lower s =
      if is_ascii s
      then map ascii_lower s
      else encode (map (λ r. if ltb r 0x80 then ascii_lower r else lower_rune r) (runes s))
