-- ===== src/Go/Utf8.antt =====
-- UTF-8: `[]rune(s)`, `string(runes)` and `string(r)`.
pub mod Words
pub mod Sizes
use go_busybox.Prelude.{
  ℕ, zero, suc, ◌+◌, ◌-◌, ◌*◌, ◌/◌, ◌%◌, ◌≡◌, refl, Bool, true, false, ◌&&◌, ◌||◌, List, [], ◌∷◌,
  ◌++◌, Bytes, codes, ltb, leb, ◌==◌, if◌then◌else◌,
}

-- `utf8.RuneError`.
abbrev pub rune_error : ℕ
rune_error = 0xFFFD

abbrev within : ℕ → ℕ → ℕ → Bool
within lo c hi = leb lo c && leb c hi

-- A rune and the number of bytes behind the first one that it takes.
bad : ℕ × ℕ
bad = (rune_error, 0)

two : ℕ → Bytes → ℕ × ℕ
unfolding bad
two b (c ∷ s) = if within 0x80 c 0xBF then ((b - 0xC0) * 64 + (c - 0x80), 1) else bad
two b [] = bad

-- `lo` and `hi` bound the second byte.
three : ℕ → ℕ → ℕ → Bytes → ℕ × ℕ
unfolding bad
three lo hi b (c ∷ d ∷ s) =
    if within lo c hi && within 0x80 d 0xBF
    then ((b - 0xE0) * 4096 + (c - 0x80) * 64 + (d - 0x80), 2)
    else bad
three lo hi b _ = bad

four : ℕ → ℕ → ℕ → Bytes → ℕ × ℕ
unfolding bad
four lo hi b (c ∷ d ∷ e ∷ s) =
    if within lo c hi && within 0x80 d 0xBF && within 0x80 e 0xBF
    then ((b - 0xF0) * 262144 + (c - 0x80) * 4096 + (d - 0x80) * 64 + (e - 0x80), 3)
    else bad
four lo hi b _ = bad

unfoldable pub decode_rune : ℕ → Bytes → ℕ × ℕ
unfolding two three four bad
decode_rune b s =
    if ltb b 0x80
    then (b, 0)
    else if within 0xC2 b 0xDF
    then two b s
    else if b == 0xE0
    then three 0xA0 0xBF b s
    else if b == 0xED
    then three 0x80 0x9F b s
    else if within 0xE1 b 0xEF
    then three 0x80 0xBF b s
    else if b == 0xF0
    then four 0x90 0xBF b s
    else if within 0xF1 b 0xF3
    then four 0x80 0xBF b s
    else if b == 0xF4
    then four 0x80 0x8F b s
    else bad

unfoldable pub runes_loop : Bytes → ℕ → List ℕ
runes_loop [] skip = []
runes_loop (b ∷ s) (suc skip) = runes_loop s skip
runes_loop (b ∷ s) zero = let (r, n) = decode_rune b s in r ∷ runes_loop s n

-- `[]rune(s)`.
unfoldable pub runes : Bytes → List ℕ
unfolding runes_loop decode_rune
runes s = runes_loop s 0

-- `string(r)`.
unfoldable pub encode_rune : ℕ → Bytes
encode_rune r =
    if ltb r 0x80
    then r ∷ []
    else if ltb r 0x800
    then (0xC0 + r / 64) ∷ (0x80 + r % 64) ∷ []
    else if within 0xD800 r 0xDFFF || ltb 0x10FFFF r
    then 0xEF ∷ 0xBF ∷ 0xBD ∷ []
    else if ltb r 0x10000
    then (0xE0 + r / 4096) ∷ (0x80 + r / 64 % 64) ∷ (0x80 + r % 64) ∷ []
    else (0xF0 + r / 262144) ∷ (0x80 + r / 4096 % 64) ∷ (0x80 + r / 64 % 64) ∷ (0x80 + r % 64) ∷ []

-- `string(rs)`.
unfoldable pub encode : List ℕ → Bytes
unfolding encode_rune
encode [] = []
encode (r ∷ rs) = encode_rune r ++ encode rs

-- `unicode.IsSpace`.
unfoldable pub is_space : ℕ → Bool
is_space r =
    within 9 r 13
    || r == 32
    || r == 0x85
    || r == 0xA0
    || r == 0x1680
    || within 0x2000 r 0x200A
    || within 0x2028 r 0x2029
    || r == 0x202F
    || r == 0x205F
    || r == 0x3000

ended : Bytes → List Bytes
ended [] = []
ended (c ∷ cur) = (c ∷ cur) ∷ []

-- The loop of `strings.Fields`: `skip` counts the bytes of a rune that are still to come, and
-- `kept` says whether they belong to the field `cur`.
fields_loop : Bytes → ℕ → Bool → Bytes → List Bytes
fields_loop [] skip kept cur = ended cur
fields_loop (b ∷ s) (suc skip) kept cur =
    fields_loop s skip kept (if kept then cur ++ b ∷ [] else cur)
fields_loop (b ∷ s) zero kept cur =
    let (r, n) = decode_rune b s in
    let at_space = ended cur ++ fields_loop s n false [] in
    let in_field = fields_loop s n true (cur ++ b ∷ []) in if is_space r then at_space else in_field

-- `strings.Fields`.
unfoldable pub fields : Bytes → List Bytes
unfolding fields_loop ended is_space decode_rune
fields s = fields_loop s 0 false []

runes_runs :
    runes (0x61 ∷ 0xC3 ∷ 0xA9 ∷ 0xFF ∷ 0xE2 ∷ 0x82 ∷ [])
    ≡ 0x61 ∷ 0xE9 ∷ 0xFFFD ∷ 0xFFFD ∷ 0xFFFD ∷ []
unfolding runes
runes_runs = refl

fields_runs : fields (codes "  ab \t c") ≡ codes "ab" ∷ codes "c" ∷ []
unfolding fields
fields_runs = refl
