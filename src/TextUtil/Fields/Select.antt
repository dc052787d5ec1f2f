-- ===== src/TextUtil/Fields/Select.antt =====
-- `BuildFieldFunc` against slices of the list of fields.
use mathlib.Core.List.{flat_map}
use go_busybox.Prelude.{
  ℕ, zero, suc, ◌+◌, ◌-◌, ◌≤◌, ◌<◌, ◌≡◌, ap, ◌∙◌, inl, inr, Bool, false, some, List, [], ◌∷◌, ◌++◌,
  append-nil, append_assoc, arith, Bytes, ltb, leb, if◌then◌else◌, str_eq, Bool-cases, length, take,
  drop, drop_step, drop_all, take-nil,
}
use go_busybox.Go.Strings.{split, join}
use go_busybox.Go.Utf8.{encode_rune}
use go_busybox.TextUtil.Ranges.{Range}
use go_busybox.TextUtil.Fields.{
  range_start, range_end, select_range, select_fields, Projection, printed, suppressed, field_func,
}

-- The items at the positions of a range, as a slice.
abbrev pub slice {ℓ} : {A : Type ℓ} → List A → Range → List A
slice xs r = take (range_end (length xs) r + 1 - range_start r) (drop (range_start r - 1) xs)

-- What `cut -f` prints of a line with these fields.
abbrev pub projection : List Bytes → List Range → Bool → Bytes → Bytes → Projection
projection fields ranges suppress line between =
    if leb (length fields) 1
    then (if suppress then suppressed else printed line)
    else printed (join (flat_map (slice fields) ranges) between)

-- `n` rounds from position `i` append the `n` items behind the first `i - 1`.
select_range-take :
    (n i : ℕ) (fields selected : List Bytes)
    → 0 < i
    → i - 1 + n ≤ length fields
    → select_range n i fields selected ≡ some (selected ++ take n (drop (i - 1) fields))
unfolding select_range
select_range-take zero i fields selected h k = rw append-nil
select_range-take (suc n) i fields selected h k =
    let (x, e, d) = drop_step fields (i - 1) (omega arith) in
    let next : i + 1 - 1 ≡ suc (i - 1) = omega arith in
    rw (e, d)
      (select_range-take n (i + 1) fields (selected ++ x ∷ []) (omega arith) (omega arith)
        ∙ rw next (ap some (append_assoc selected (x ∷ []) (take n (drop (suc (i - 1)) fields)))))

pub range_start-pos : (r : Range) → 0 < range_start r
unfolding range_start
range_start-pos r = ground arith

pub range_end-le : (n : ℕ) (r : Range) → range_end n r ≤ n
unfolding range_end
range_end-le n r = ground arith

slice_past : (fields : List Bytes) (r : Range) → length fields < range_start r → slice fields r ≡ []
slice_past fields r h =
    take-nil _ (drop (range_start r - 1) fields) (drop_all (range_start r - 1) fields (omega arith))

-- The rounds of a range stay within the fields, and select its slice.
select_fields-slice :
    (rs : List Range) (fields selected : List Bytes)
    → select_fields rs fields selected ≡ some (selected ++ flat_map (slice fields) rs)
unfolding select_fields flat_map
select_fields-slice [] fields selected = rw append-nil
select_fields-slice (r ∷ rs) fields selected =
    elim (Bool-cases (ltb (length fields) (range_start r))) [
      | inl past ↦
          rw (past, slice_past fields r (ground arith)) (select_fields-slice rs fields selected)
      | inr there ↦
          rw
            (
              there,
              select_range-take _ (range_start r) fields selected (range_start-pos r)
                  (within there),
            )
            (select_fields-slice rs fields (selected ++ slice fields r)
              ∙ ap some (append_assoc selected (slice fields r) (flat_map (slice fields) rs)))
    ]
  where
    within :
        ltb (length fields) (range_start r) ≡ false
        → range_start r - 1 + (range_end (length fields) r + 1 - range_start r) ≤ length fields
    within e = ground (arith, range_start-pos r, range_end-le (length fields) r)

-- `cut -f` on a line never reads a field that is not there. A line without the delimiter is
-- printed as it is, or suppressed under -s; of any other the fields of the ranges are printed,
-- range after range, with the output delimiter (or the delimiter) between them.
pub field_func_lem :
    (ranges : List Range) (delimiter : ℕ) (output_delimiter line : Bytes) (suppress : Bool)
    → field_func ranges delimiter output_delimiter suppress line
      ≡ some (
          projection
            (split line (encode_rune delimiter))
            ranges
            suppress
            line
            (if str_eq output_delimiter [] then encode_rune delimiter else output_delimiter))
unfolding field_func
field_func_lem ranges delimiter output_delimiter line suppress =
    ground (arith, select_fields-slice ranges (split line (encode_rune delimiter)) [])
