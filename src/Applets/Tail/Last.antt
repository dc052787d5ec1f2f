-- ===== src/Applets/Tail/Last.antt =====
-- The lines that are read out of the ring buffer.
use go_busybox.Prelude.{
  ℕ, suc, ◌+◌, ◌-◌, ◌%◌, ◌<◌, ◌≡◌, refl, sym, ap, subst, ◌∙◌, inl, inr, true, false, none, some,
  List, [], ◌∷◌, ◌++◌, arith, Bytes, ltb, leb, if◌then◌else◌, length, get_elem?, length-append,
  drop, replicate, get_elem?-append_left,
}
use native.Mathlib.Nat.{mod-eq_of_lt}
use go_busybox.Applets.Tail.Rotated.{collect-list, rotated}
use go_busybox.Applets.Tail.Store.{Holds, store_all-Holds}
use go_busybox.Applets.Tail.{Ring, store, store_all, collect, empty_ring, ring_lines, last_lines}

ring_lines-Holds :
    (n : ℕ) (read : List Bytes) (b : Ring)
    → Holds n read b
    → ring_lines n b ≡ some (drop (length read - n) read)
unfolding ring_lines
ring_lines-Holds n read b (inl (lt, e)) =
    let few : ltb (length read) n ≡ true = ground arith in
    let k : length read - n ≡ 0 = omega arith in
    rw e (rw few (rw k (collect-list n (read ++ replicate (n - length read) []) read 0 0 item)))
  where
    item :
        (t : ℕ)
        → t < length read
        → get_elem? (read ++ replicate (n - length read) []) ((0 + (0 + t)) % n) ≡ get_elem? read t
    item t h =
        let p : 0 + (0 + t) ≡ t = omega arith in
        let small : t < n = omega arith in
        ap (get_elem? (read ++ replicate (n - length read) []))
          (ap (λ m. m % n) p ∙ mod-eq_of_lt small)
        ∙ get_elem?-append_left read (replicate (n - length read) []) t h
ring_lines-Holds n read b (inr (newer, older, h, lt, le, d, e)) =
    let many : ltb (length read) n ≡ false = ground arith in
    let k : length (older ++ newer) ≡ n = omega (arith, length-append older newer) in
    rw e (
      rw many (
        rw (sym d) (
          subst (λ m. collect n (newer ++ older) (length newer) m 0 ≡ some (older ++ newer)) k
            (collect-list n (newer ++ older) (older ++ newer) (length newer) 0 (item k)))))
  where
    item :
        length (older ++ newer) ≡ n
        → (t : ℕ) → t < length (older ++ newer)
        → get_elem? (newer ++ older) ((length newer + (0 + t)) % n) ≡ get_elem? (older ++ newer) t
    item k t h' =
        let p : 0 + t ≡ t = omega arith in
        let small : t < n = omega arith in
        ap (λ m. get_elem? (newer ++ older) ((length newer + m) % n)) p
        ∙ rotated n newer older t h small

-- The ring of `tailLines` gives the last `n` lines of any input, in order, and all of them if there
-- are fewer; for n > 0 no place outside the ring is used.
pub last_lines-drop :
    (n : ℕ) (lines : List Bytes) → 0 < n → last_lines n lines ≡ some (drop (length lines - n) lines)
unfolding last_lines
last_lines-drop n lines pos =
    let same : n ≡ n - 0 = omega arith in
    let start : empty_ring n ≡ record { ring = replicate (n - 0) []; idx = 0; lines_read = 0 } =
      λ i. record { ring = replicate (same i) []; idx = 0; lines_read = 0 } in
    let (b, e, h) = store_all-Holds n lines [] (empty_ring n) (inl (pos, start)) in
    rw e (ring_lines-Holds n lines b h)

pub store_all-some :
    (n : ℕ) (lines : List Bytes) → 0 < n → (b : Ring) × (store_all n lines (empty_ring n) ≡ some b)
store_all-some n lines pos =
    let same : n ≡ n - 0 = omega arith in
    let start : empty_ring n ≡ record { ring = replicate (n - 0) []; idx = 0; lines_read = 0 } =
      λ i. record { ring = replicate (same i) []; idx = 0; lines_read = 0 } in
    let (b, e, h) = store_all-Holds n lines [] (empty_ring n) (inl (pos, start)) in (b, e)

-- `tail -n 0` panics on every input that has a line: the ring has no place for it. On an input with
-- no line it prints nothing.
pub last_lines-zero :
    (lines : List Bytes) → last_lines 0 lines ≡ (if leb (length lines) 0 then some [] else none)
unfolding last_lines store_all store ring_lines collect
last_lines-zero [] = refl
last_lines-zero (line ∷ lines) =
    let e : leb (suc (length lines)) 0 ≡ false = ground arith in rw e (refl)
