-- ===== src/TextUtil/Normalize/Skip.antt =====
-- `NormalizeLine` on lines of fields and blanks.
use go_busybox.Prelude.{
  ℕ, zero, suc, ◌<◌, ◌≡◌, refl, ap, ◌∙◌, ◌≢◌, true, false, none, some, List, [], ◌∷◌, ◌++◌, arith,
  Bytes, ◌==◌, if◌then◌else◌, length, All,
}
use go_busybox.TextUtil.Normalize.{
  is_blank, skip_blanks, skip_field, skip_fields, normalize_line, skipped_chars, after_fields,
}

-- A field: one or more bytes, none of them a blank.
abbrev pub IsField : Bytes → Type 0
IsField w = (w ≢ []) × All (λ c. is_blank c ≡ false) w

abbrev pub Blanks : Bytes → Type 0
Blanks = All (λ c. is_blank c ≡ true)

-- Fields, each behind blanks, and the rest of the line.
abbrev pub row : List (Bytes × Bytes) → Bytes → Bytes
row [] rest = rest
row ((b, w) ∷ fields) rest = b ++ (w ++ row fields rest)

-- Where a field ends: at the end of the line, or at a blank.
abbrev pub FieldEnd : Bytes → Type 0
FieldEnd [] = Unit {0}
FieldEnd (c ∷ s) = is_blank c ≡ true

skip_blanks-append : (b s : Bytes) → Blanks b → skip_blanks (b ++ s) ≡ skip_blanks s
unfolding skip_blanks
skip_blanks-append [] s h = refl
skip_blanks-append (c ∷ b) s (hc, h) = rw hc (skip_blanks-append b s h)

skip_blanks-field : (w s : Bytes) → IsField w → skip_blanks (w ++ s) ≡ w ++ s
unfolding skip_blanks
skip_blanks-field [] s h = absurd (h.0 refl)
skip_blanks-field (c ∷ w) s h = rw h.1.0

skip_field-append :
    (w s : Bytes) → All (λ c. is_blank c ≡ false) w → FieldEnd s → skip_field (w ++ s) ≡ s
unfolding skip_field
skip_field-append [] [] h e = refl
skip_field-append [] (c ∷ s) h e = rw e
skip_field-append (c ∷ w) s (hc, h) e = rw hc (skip_field-append w s h e)

-- Each field is one, ends where it ends, and has only blanks in front.
abbrev pub IsRow : List (Bytes × Bytes) → Bytes → Type 0
IsRow [] rest = Unit {0}
IsRow ((b, w) ∷ fields) rest = Blanks b × IsField w × FieldEnd (row fields rest) × IsRow fields rest

skip_field-ends :
    (w s : Bytes)
    → IsField w
    → FieldEnd s
    → (k : ℕ)
    → skip_fields (suc k) (w ++ s) ≡ (if k == 0 then some s else skip_fields k (skip_blanks s))
unfolding skip_fields
skip_field-ends [] s h e k = absurd (h.0 refl)
skip_field-ends (c ∷ w) s h e k = rw (skip_field-append (c ∷ w) s h.1 e)

skip_field-more :
    (w s : Bytes) (k : ℕ)
    → IsField w
    → FieldEnd s
    → 0 < k
    → skip_fields (suc k) (w ++ s) ≡ skip_fields k (skip_blanks s)
skip_field-more w s k h e lt = ground (arith, skip_field-ends w s h e k)

skip_fields-row :
    (b w : Bytes) (fields : List (Bytes × Bytes)) (rest : Bytes)
    → IsRow ((b, w) ∷ fields) rest
    → skip_fields (length ((b, w) ∷ fields)) (skip_blanks (row ((b, w) ∷ fields) rest)) ≡ some rest
skip_fields-row b w [] rest (hb, hw, he, h) =
    rw (skip_blanks-append b (w ++ rest) hb, skip_blanks-field w rest hw)
      (skip_field-ends w rest hw he 0)
skip_fields-row b w ((b', w') ∷ fields) rest (hb, hw, he, h) =
    rw
      (
        skip_blanks-append b (w ++ row ((b', w') ∷ fields) rest) hb,
        skip_blanks-field w (row ((b', w') ∷ fields) rest) hw,
      )
      (skip_field-more w (row ((b', w') ∷ fields) rest) (suc (length fields)) hw he (omega arith)
        ∙ skip_fields-row b' w' fields rest h)

skip_blanks-Blanks : (rest : Bytes) → Blanks rest → skip_blanks rest ≡ []
unfolding skip_blanks
skip_blanks-Blanks [] h = refl
skip_blanks-Blanks (c ∷ rest) (hc, h) = rw hc (skip_blanks-Blanks rest h)

skip_fields-short :
    (fields : List (Bytes × Bytes)) (rest : Bytes) (k : ℕ)
    → IsRow fields rest
    → Blanks rest
    → length fields < k
    → skip_fields k (skip_blanks (row fields rest)) ≡ none
skip_fields-short fields rest zero h hr lt = elim lt [ ]
skip_fields-short [] rest (suc k) h hr lt =
    rw (skip_blanks-Blanks rest hr) (unfold skip_fields in refl)
skip_fields-short ((b, w) ∷ fields) rest (suc k) (hb, hw, he, h) hr lt =
    rw (skip_blanks-append b (w ++ row fields rest) hb, skip_blanks-field w (row fields rest) hw)
      (skip_field-more w (row fields rest) k hw he (omega arith)
        ∙ skip_fields-short fields rest k h hr (omega arith))

-- On a line of fields and blanks, skipping as many fields as stand in `fields` leaves the rest of
-- the line, less the characters to skip; skipping more fields than the line has leaves nothing.
pub normalize_line-row :
    (fields : List (Bytes × Bytes)) (rest : Bytes) (skip_chars : ℕ)
    → fields ≢ []
    → IsRow fields rest
    → (normalize_line (row fields rest) (length fields) skip_chars ≡ skipped_chars skip_chars rest)
      × ((k : ℕ)
          → Blanks rest
          → length fields < k
          → normalize_line (row fields rest) k skip_chars ≡ [])
unfolding normalize_line after_fields
normalize_line-row [] rest n h r = absurd (h refl)
normalize_line-row ((b, w) ∷ fields) rest n h r =
    (ap (after_fields n) (skip_fields-row b w fields rest r), short)
  where
    short :
        (k : ℕ)
        → Blanks rest
        → length ((b, w) ∷ fields) < k
        → normalize_line (row ((b, w) ∷ fields) rest) k n ≡ []
    short zero hb lt = elim lt [ ]
    short (suc k) hb lt =
        ap (after_fields n) (skip_fields-short ((b, w) ∷ fields) rest (suc k) r hb lt)
