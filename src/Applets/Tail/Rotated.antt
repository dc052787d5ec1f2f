-- ===== src/Applets/Tail/Rotated.antt =====
-- Reading a ring from the place behind its newer items.
use go_busybox.Prelude.{
  ℕ, suc, ◌+◌, ◌-◌, ◌%◌, ◌<◌, ◌≡◌, refl, sym, ap, ◌∙◌, inl, inr, some, List, [], ◌∷◌, ◌++◌, arith,
  Bytes, ltb, Bool-cases, length, get_elem?, get_elem?-append_left, get_elem?-append_right,
}
use native.Mathlib.Nat.{mod-eq_of_lt, add-mod_left}
use go_busybox.Applets.Tail.{collect}

-- The last loop gives `out` if it finds its items in the ring.
pub collect-list :
    (n : ℕ) (ring out : List Bytes) (start i : ℕ)
    → ((t : ℕ) → t < length out → get_elem? ring ((start + (i + t)) % n) ≡ get_elem? out t)
    → collect n ring start (length out) i ≡ some out
unfolding collect
collect-list n ring [] start i h = refl
collect-list n ring (l ∷ out) start i h =
    let e : get_elem? ring ((start + i) % n) ≡ some l =
      ap (λ j. get_elem? ring ((start + j) % n)) (omega arith) ∙ h 0 (omega arith) in
    rw e (rw (collect-list n ring out start (i + 1) later) refl)
  where
    later : (t : ℕ) → t < length out → get_elem? ring ((start + (i + 1 + t)) % n) ≡ get_elem? out t
    later t lt =
        let p : i + 1 + t ≡ i + suc t = omega arith in
        ap (λ j. get_elem? ring ((start + j) % n)) p ∙ h (suc t) (omega arith)

-- An item of a ring that is read from the place behind its newer lines.
pub rotated :
    (n : ℕ) (newer older : List Bytes) (t : ℕ)
    → length newer + length older ≡ n
    → t < n
    → get_elem? (newer ++ older) ((length newer + t) % n) ≡ get_elem? (older ++ newer) t
rotated n newer older t h lt = elim (Bool-cases (ltb t (length older))) [
  | inl e ↦
      let lt : t < length older = ground arith in
      let lt' : length newer + t < n = omega (arith, h, lt) in
      ap (get_elem? (newer ++ older)) (mod-eq_of_lt lt')
      ∙ get_elem?-append_right newer older t
      ∙ sym (get_elem?-append_left older newer t lt)
  | inr e ↦
      let u = t - length older in
      let lt' : u < length newer = ground arith in
      let lt'' : u < n = ground arith in
      let p : length newer + t ≡ n + u = ground arith in
      let q : length older + u ≡ t = ground arith in
      ap (λ m. get_elem? (newer ++ older) (m % n)) p
      ∙ ap (get_elem? (newer ++ older)) (add-mod_left n u ∙ mod-eq_of_lt lt'')
      ∙ get_elem?-append_left newer older u lt'
      ∙ sym (get_elem?-append_right older newer u)
      ∙ ap (get_elem? (older ++ newer)) q
]
