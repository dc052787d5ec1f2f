-- ===== src/TextUtil/Ranges/RoundTrip.antt =====
-- `ParseRanges` on a printed list of ranges.
use go_busybox.Prelude.{
  ℕ, zero, suc, ◌≤◌, ◌<◌, ◌^◌, ◌≡◌, ◌≢◌, refl, ap, ◌∙◌, inl, inr, some, List, [], ◌∷◌, ◌++◌, map,
  Bytes, codes, ◌==◌, if◌then◌else◌, All, arith, Bool-cases, All-append, str_eq_iff,
}
use go_busybox.Go.Int.{decimal}
use go_busybox.Go.Int.Decimal.{atoi-decimal, decimal-digits, decimal-ne-nil, IsDigit}
use go_busybox.Go.Strings.{split, join}
use go_busybox.Go.Strings.Split.{Lacks, split-join, split_2-append, contains_byte-append}
use go_busybox.TextUtil.Ranges.{
  Range, positive_atoi, range_of, parse_range_part, parse_part, parse_parts, parse_ranges,
}
use go_busybox.TextUtil.Ranges.Parse.{IsRange}

-- A range as the user writes it, and a list of ranges.
pub print_range : Range → Bytes
print_range r = decimal r.start ++ b'-' ∷ (if r.end == 0 then [] else decimal r.end)

pub print_ranges : List Range → Bytes
print_ranges rs = join (map print_range rs) (b',' ∷ [])

pub digits-Lacks : (b : ℕ) (s : Bytes) → b < b'0' → All IsDigit s → Lacks b s
digits-Lacks b [] h d = tt
digits-Lacks b (c ∷ s) h (hc, d) = (omega arith, digits-Lacks b s h d)

pub positive_atoi-decimal : (n : ℕ) → 0 < n → n < 2 ^ 63 → positive_atoi (decimal n) ≡ some n
unfolding positive_atoi
positive_atoi-decimal zero h k = absurd (omega arith)
positive_atoi-decimal (suc n) h k = rw (atoi-decimal (suc n) k)

parse_part-dash :
    (p q : Bytes) → p ≢ [] → Lacks b'-' p → parse_part (p ++ b'-' ∷ q) ≡ range_of p (some q)
unfolding parse_part parse_range_part
parse_part-dash [] q n h = absurd (n refl)
parse_part-dash (c ∷ p) q n h = ground (
  arith,
  contains_byte-append b'-' (c ∷ p) q,
  split_2-append b'-' (c ∷ p) q h,
  str_eq_iff ((c ∷ p) ++ b'-' ∷ q) (codes "-"),
)

range_of-open :
    (p : Bytes) (n : ℕ)
    → p ≢ []
    → positive_atoi p ≡ some n
    → range_of p (some []) ≡ some (record { start = n; end = 0 })
unfolding range_of
range_of-open [] n h e = absurd (h refl)
range_of-open (c ∷ p) n h e = rw e

range_of-closed :
    (p q : Bytes) (n m : ℕ)
    → p ≢ []
    → q ≢ []
    → positive_atoi p ≡ some n
    → positive_atoi q ≡ some m
    → n ≤ m
    → range_of p (some q) ≡ some (record { start = n; end = m })
unfolding range_of
range_of-closed [] q n m h k e f le = absurd (h refl)
range_of-closed (c ∷ p) [] n m h k e f le = absurd (k refl)
range_of-closed (c ∷ p) (d ∷ q) n m h k e f le = ground arith

parse_part-print_range : (r : Range) → IsRange r → parse_part (print_range r) ≡ some r
unfolding print_range
parse_part-print_range r v =
    parse_part-dash (decimal r.start) _ (decimal-ne-nil r.start)
      (digits-Lacks b'-' (decimal r.start) (omega arith) (decimal-digits r.start))
    ∙ elim (Bool-cases (r.end == 0)) [
      | inl e ↦ rw e (
          range_of-open (decimal r.start) r.start (decimal-ne-nil r.start)
            (positive_atoi-decimal r.start v.from_one v.start_fits)
          ∙ ground arith)
      | inr e ↦ rw e (
          range_of-closed (decimal r.start) (decimal r.end) r.start r.end (decimal-ne-nil r.start)
            (decimal-ne-nil r.end) (positive_atoi-decimal r.start v.from_one v.start_fits)
            (positive_atoi-decimal r.end (ground arith) v.end_fits) (ground arith))
    ]

print_range-Lacks : (r : Range) → Lacks b',' (print_range r)
unfolding print_range
print_range-Lacks r =
    All-append (λ c. c ≢ b',') (decimal r.start) _
      (digits-Lacks b',' (decimal r.start) (omega arith) (decimal-digits r.start))
      ((omega arith), end-Lacks r.end)
  where
    end-Lacks : (n : ℕ) → Lacks b',' (if n == 0 then [] else decimal n)
    end-Lacks n = elim (Bool-cases (n == 0)) [
      | inl e ↦ rw e tt
      | inr e ↦ rw e (digits-Lacks b',' (decimal n) (omega arith) (decimal-digits n))
    ]

map-print_range-Lacks : (rs : List Range) → All (Lacks b',') (map print_range rs)
map-print_range-Lacks [] = tt
map-print_range-Lacks (r ∷ rs) = (print_range-Lacks r, map-print_range-Lacks rs)

parse_parts-map : (rs : List Range) → All IsRange rs → parse_parts (map print_range rs) ≡ some rs
unfolding parse_parts
parse_parts-map [] h = refl
parse_parts-map (r ∷ rs) (v, h) = rw (parse_part-print_range r v, parse_parts-map rs h)

append-cons-ne-nil : (xs ys : Bytes) (y : ℕ) → xs ++ y ∷ ys ≢ []
append-cons-ne-nil [] ys y = cc
append-cons-ne-nil (x ∷ xs) ys y = cc

print_ranges-cons : (r : Range) (rs : List Range) → print_ranges (r ∷ rs) ≢ []
unfolding print_ranges print_range join
print_ranges-cons r [] = append-cons-ne-nil (decimal r.start) _ b'-'
print_ranges-cons r (q ∷ rs) = append-cons-ne-nil (print_range r) _ b','

parse_ranges-split : (s : Bytes) → s ≢ [] → parse_ranges s ≡ parse_parts (split s (codes ","))
unfolding parse_ranges
parse_ranges-split [] n = absurd (n refl)
parse_ranges-split (c ∷ s) n = refl

-- A printed list of ranges, open ones included, is read back as it is.
pub parse_ranges-print_ranges :
    (rs : List Range) → rs ≢ [] → All IsRange rs → parse_ranges (print_ranges rs) ≡ some rs
unfolding print_ranges
parse_ranges-print_ranges [] n h = absurd (n refl)
parse_ranges-print_ranges (r ∷ rs) n h =
    parse_ranges-split _ (print_ranges-cons r rs)
    ∙ ap parse_parts
        (split-join b',' (map print_range (r ∷ rs)) (cc) (map-print_range-Lacks (r ∷ rs)))
    ∙ parse_parts-map (r ∷ rs) h
