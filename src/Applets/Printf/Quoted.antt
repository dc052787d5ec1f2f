-- ===== src/Applets/Printf/Quoted.antt =====
-- applets/printf/printf.go on a text that is quoted.
use go_busybox.Prelude.{
  ℕ, suc, ◌<◌, ◌≡◌, refl, sym, ap, ◌∙◌, inl, inr, Bool, true, false, ◌||◌, some, List, [], ◌∷◌,
  ◌++◌, append-nil, append_assoc, arith, Bytes, ◌==◌, if◌then◌else◌, ==_iff, Bool-cases, All,
}
use go_busybox.Core.{Stdio, print, exit_success}
use go_busybox.Go.Utf8.{encode_rune}
use go_busybox.Applets.Echo.{letter}
use go_busybox.Applets.Printf.Escapes.{backslash_escape, switch}
use go_busybox.Applets.Printf.Values.{Floats}
use go_busybox.Applets.Printf.Passes.{
  State, put, say, part, escape_part, percent_part, follow, format_loop, process_format, passes,
  run,
}

-- The text with every backslash and percent sign doubled.
abbrev pub quoted : Bytes → Bytes
quoted [] = []
quoted (c ∷ s) = if c == 92 || c == b'%' then c ∷ c ∷ quoted s else c ∷ quoted s

quoted-special :
    (c : ℕ) (s : Bytes) → (c == 92 || c == b'%') ≡ true → quoted (c ∷ s) ≡ c ∷ c ∷ quoted s
quoted-special c s e = rw e refl

quoted-plain : (c : ℕ) (s : Bytes) → (c == 92 || c == b'%') ≡ false → quoted (c ∷ s) ≡ c ∷ quoted s
quoted-plain c s e = rw e refl

abbrev pub IsAscii : ℕ → Type 0
IsAscii c = c < 0x80

put-nil : (st : State) → put [] st ≡ st
put-nil st = ap (λ o. record st { stdio = record st.stdio { out = o } }) (append-nil st.stdio.out)

pub put-append : (s t : Bytes) (st : State) → put t (put s st) ≡ put (s ++ t) st
put-append s t st =
    ap (λ o. record st { stdio = record st.stdio { out = o } }) (append_assoc st.stdio.out s t)

part-backslash : (s : Bytes) → part 92 (92 ∷ s) ≡ say (92 ∷ []) 1
unfolding part escape_part backslash_escape switch letter encode_rune
part-backslash s = refl

part-percent : (s : Bytes) → part b'%' (b'%' ∷ s) ≡ say (b'%' ∷ []) 1
unfolding part percent_part
part-percent s = refl

part-doubled : (c : ℕ) (s : Bytes) → (c == 92 || c == b'%') ≡ true → part c (c ∷ s) ≡ say (c ∷ []) 1
part-doubled c s h = elim (Bool-cases (c == 92)) [
  | inl e ↦ rw ((==_iff c 92).0 e) (part-backslash s)
  | inr e ↦ rw ((==_iff c b'%').0 (sym (rw e refl) ∙ h)) (part-percent s)
]

part-plain :
    (c : ℕ) (s : Bytes) → IsAscii c → (c == 92 || c == b'%') ≡ false → part c s ≡ say (c ∷ []) 0
unfolding part encode_rune
part-plain c s h n = ground arith

module _ (floats : Floats) (args : List Bytes) where
  pub loop-part :
      (c : ℕ) (s t : Bytes) (used : ℕ) (st : State)
      → part c s ≡ say t used
      → format_loop floats args (c ∷ s) 0 st ≡ format_loop floats args s used (put t st)
  unfolding format_loop follow
  loop-part c s t used st h =
      ap (λ p. follow floats args p (λ u next. format_loop floats args s u next) st) h

  loop-quoted :
      (s : Bytes) (st : State)
      → All IsAscii s
      → format_loop floats args (quoted s) 0 st ≡ (false, put s st)
  unfolding format_loop
  loop-quoted [] st h = ap (λ x. (false, x)) (sym (put-nil st))
  loop-quoted (c ∷ s) st h =
      let rest = loop-quoted s (put (c ∷ []) st) h.1 in
      let whole : Path (Bool × State) (false, put s (put (c ∷ []) st)) (false, put (c ∷ s) st) =
        ap (λ x. (false, x)) (put-append (c ∷ []) s st) in
      elim (Bool-cases (c == 92 || c == b'%')) [
        | inl e ↦
            ap (λ q. format_loop floats args q 0 st) (quoted-special c s e)
            ∙ (loop-part c (c ∷ quoted s) (c ∷ []) 1 st (part-doubled c (quoted s) e)
                ∙ (rest ∙ whole))
        | inr e ↦
            ap (λ q. format_loop floats args q 0 st) (quoted-plain c s e)
            ∙ (loop-part c (quoted s) (c ∷ []) 0 st (part-plain c (quoted s) h.0 e)
                ∙ (rest ∙ whole))
      ]

-- The text of ASCII characters, quoted, is printed as it is, in one pass, and printf succeeds.
pub run-quoted :
    (floats : Floats) (t : Bytes) (fuel : ℕ) (s : Stdio)
    → All IsAscii t
    → run floats (suc fuel) (quoted t ∷ []) s ≡ some (print t s, exit_success)
unfolding run passes process_format
run-quoted floats t fuel s h =
    let st : State = record { stdio = s; index = 0; code = exit_success } in
    rw (loop-quoted floats [] t st h) refl
