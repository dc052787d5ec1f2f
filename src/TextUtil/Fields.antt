-- ===== src/TextUtil/Fields.antt =====
-- pkg/core/textutil/textutil.go: `BuildFieldFunc`, the fields of `cut -f`.
pub mod Select
use go_busybox.Prelude.{
  ◌>>=◌, ℕ, zero, suc, ◌+◌, ◌-◌, ◌≡◌, refl, Bool, true, not, ◌&&◌, ◌||◌, Option, some, List, [],
  ◌∷◌, ◌++◌, Bytes, codes, ltb, leb, ◌==◌, if◌then◌else◌, str_eq, length, get_elem?,
}
use go_busybox.Go.Strings.{split, join}
use go_busybox.Go.Utf8.{encode_rune}
use go_busybox.TextUtil.Ranges.{Range}

-- The first and the last position of a range in a list of `n` items.
unfoldable pub range_start : Range → ℕ
range_start r = if ltb r.start 1 then 1 else r.start

unfoldable pub range_end : ℕ → Range → ℕ
range_end n r = if r.end == 0 || ltb n r.end then n else r.end

-- `for i := start; i <= end; i++`, with the rounds left; an index out of range is a panic, `none`.
unfoldable pub select_range : ℕ → ℕ → List Bytes → List Bytes → Option (List Bytes)
select_range zero i fields selected = some selected
select_range (suc n) i fields selected = do
  f ← get_elem? fields (i - 1)
  select_range n (i + 1) fields (selected ++ f ∷ [])

-- The loop over the ranges.
unfoldable pub select_fields : List Range → List Bytes → List Bytes → Option (List Bytes)
select_fields [] fields selected = some selected
select_fields (r ∷ rs) fields selected =
    if ltb (length fields) (range_start r) then select_fields rs fields selected else do
      more ←
          select_range (range_end (length fields) r + 1 - range_start r) (range_start r) fields
            selected
      select_fields rs fields more

-- What the function of `BuildFieldFunc` returns: a text, or false.
pub data Projection : Type 0 where
  printed : Bytes → Projection
  suppressed : Projection

-- The function of `BuildFieldFunc` on a line; `none` is a panic. An output delimiter that is
-- empty stands for the delimiter.
unfoldable pub field_func : List Range → ℕ → Bytes → Bool → Bytes → Option Projection
field_func ranges delimiter output_delimiter suppress line =
    let fields = split line (encode_rune delimiter) in
    if suppress && leb (length fields) 1
    then some suppressed
    else if not suppress && leb (length fields) 1
    then some (printed line)
    else do
      selected ← select_fields ranges fields []
      some (
          printed (
            join selected
              (if str_eq output_delimiter [] then encode_rune delimiter else output_delimiter)))

field_func_runs :
    (field_func
        (record { start = 2; end = 0 } ∷ record { start = 1; end = 1 } ∷ [])
        b':'
        []
        true
        (codes "a:b:c")
      ≡ some (printed (codes "b:c:a")))
    × (field_func (record { start = 5; end = 9 } ∷ []) b':' [] true (codes "a:b")
        ≡ some (printed []))
    × (field_func (record { start = 1; end = 1 } ∷ []) b':' [] true (codes "ab") ≡ some suppressed)
unfolding field_func range_start range_end select_fields select_range split join encode_rune str_eq
field_func_runs = (refl, refl, refl)
