-- ===== src/Applets/Tail/Store.antt =====
-- What the ring buffer holds as the lines come in.
use go_busybox.Prelude.{
  ℕ, zero, suc, ◌+◌, ◌-◌, ◌%◌, ◌≤◌, ◌<◌, ◌≡◌, refl, sym, ap, subst, ◌∙◌, ◌⊎◌, inl, inr, true, some,
  List, [], ◌∷◌, ◌++◌, append-nil, append_assoc, arith, Bytes, ltb, length, length-append, drop,
  replicate, set-append, drop-snoc,
}
use native.Mathlib.Nat.{mod-eq_of_lt, mod_self}
use go_busybox.Applets.Tail.{Ring, store, store_all}

-- What the ring holds behind the lines `read`: all of them, while it fills up; then the last `n`,
-- the oldest at the place of the next line.
abbrev pub Filling : ℕ → List Bytes → Ring → Type 0
Filling n read b =
    (length read < n)
    × (b ≡ record {
      ring = read ++ replicate (n - length read) [];
      idx = length read;
      lines_read = length read;
    })

abbrev pub Full : ℕ → List Bytes → Ring → Type 0
Full n read b =
    (newer older : List Bytes) × (length newer + length older ≡ n)
    × (length newer < n)
    × (n ≤ length read)
    × (older ++ newer ≡ drop (length read - n) read)
    × (b ≡ record { ring = newer ++ older; idx = length newer; lines_read = length read })

abbrev pub Holds : ℕ → List Bytes → Ring → Type 0
Holds n read b = Filling n read b ⊎ Full n read b

-- A line in a place that is taken: the rest of a lap.
store_at :
    (n : ℕ) (newer : List Bytes) (l : Bytes) (older : List Bytes) (count : ℕ) (line : Bytes)
    → store n line (record { ring = newer ++ l ∷ older; idx = length newer; lines_read = count })
      ≡ some (record {
        ring = newer ++ line ∷ older;
        idx = (length newer + 1) % n;
        lines_read = count + 1;
      })
unfolding store
store_at n newer l older count line =
    let e : ltb (length newer) (length (newer ++ l ∷ older)) ≡ true =
      ground (arith, length-append newer (l ∷ older)) in
    rw e (rw (set-append newer l older line) refl)

length-snoc : (xs : List Bytes) (x : Bytes) → length (xs ++ x ∷ []) ≡ length xs + 1
length-snoc xs x = length-append xs (x ∷ [])

drop_count :
    (n : ℕ) (read : List Bytes) (line : Bytes)
    → drop (length read + 1 - n) (read ++ line ∷ [])
      ≡ drop (length (read ++ line ∷ []) - n) (read ++ line ∷ [])
drop_count n read line = ap (λ m. drop (m - n) (read ++ line ∷ [])) (sym (length-snoc read line))

-- The ring behind a line that closes a lap, and behind one that does not.
lap-Full :
    (n : ℕ) (read newer older : List Bytes) (line : Bytes)
    → length newer + suc (length older) ≡ n
    → n ≤ length read + 1
    → older ++ (newer ++ line ∷ []) ≡ drop (length read + 1 - n) (read ++ line ∷ [])
    → Full n (read ++ line ∷ []) (record {
      ring = newer ++ line ∷ older;
      idx = (length newer + 1) % n;
      lines_read = length read + 1;
    })
lap-Full n read newer [] line h le e =
    let p : length newer + 1 ≡ n = omega arith in
    let q : (length newer + 1) % n ≡ 0 = ap (λ m. m % n) p ∙ mod_self n in
    (
      [],
      newer ++ line ∷ [],
      omega (arith, length-snoc newer line),
      omega arith,
      omega (arith, length-snoc read line),
      append-nil (newer ++ line ∷ []) ∙ e ∙ drop_count n read line,
      λ i. record {
        ring = newer ++ line ∷ [];
        idx = q i;
        lines_read = sym (length-snoc read line) i;
      },
    )
lap-Full n read newer (o ∷ older) line h le e =
    let lt : length newer + 1 < n = omega arith in
    let q : (length newer + 1) % n ≡ length (newer ++ line ∷ []) =
      mod-eq_of_lt lt ∙ sym (length-snoc newer line) in
    (
      newer ++ line ∷ [],
      o ∷ older,
      omega (arith, length-snoc newer line),
      omega (arith, length-snoc newer line),
      omega (arith, length-snoc read line),
      e ∙ drop_count n read line,
      λ i. record {
        ring = sym (append_assoc newer (line ∷ []) (o ∷ older)) i;
        idx = q i;
        lines_read = sym (length-snoc read line) i;
      },
    )

store-Filling :
    (n : ℕ) (read : List Bytes) (line : Bytes) (b : Ring)
    → Filling n read b
    → (b' : Ring) × (store n line b ≡ some b') × Holds n (read ++ line ∷ []) b'
store-Filling n read line b (lt, e) = go (n - length read) (omega arith)
  where
    same_ring :
        {r r' : List Bytes}
        → r ≡ r'
        → let x : Ring = record { ring = r; idx = length read; lines_read = length read } in
          let y : Ring = record { ring = r'; idx = length read; lines_read = length read } in x ≡ y
    same_ring p i = record { ring = p i; idx = length read; lines_read = length read }

    go :
        (free : ℕ)
        → free ≡ n - length read
        → (b' : Ring) × (store n line b ≡ some b') × Holds n (read ++ line ∷ []) b'
    go zero h = absurd (omega arith)
    go (suc zero) h =
        let p : 0 ≡ length read + 1 - n = omega arith in
        (
          _,
          ap (store n line) (e ∙ same_ring (ap (λ k. read ++ replicate k []) (sym h)))
              ∙ store_at n read [] [] (length read) line,
          inr (
              lap-Full n read read [] line (omega arith) (omega arith)
                (ap (λ k. drop k (read ++ line ∷ [])) p)),
        )
    go (suc (suc m)) h =
        let small : length read + 1 < n = omega arith in
        let p : suc m ≡ n - length (read ++ line ∷ []) = omega (arith, length-snoc read line) in
        let q : (length read + 1) % n ≡ length (read ++ line ∷ []) =
          mod-eq_of_lt small ∙ sym (length-snoc read line) in
        let r : read ++ line ∷ replicate (suc m) []
            ≡ (read ++ line ∷ []) ++ replicate (n - length (read ++ line ∷ [])) [] =
          sym (append_assoc read (line ∷ []) (replicate (suc m) []))
          ∙ ap (λ k. (read ++ line ∷ []) ++ replicate k []) p in
        (
          _,
          ap (store n line) (e ∙ same_ring (ap (λ k. read ++ replicate k []) (sym h)))
              ∙ store_at n read [] (replicate (suc m) []) (length read) line,
          inl (
            omega (arith, length-snoc read line),
            λ i. record { ring = r i; idx = q i; lines_read = sym (length-snoc read line) i },
          ),
        )

store-Full :
    (n : ℕ) (read : List Bytes) (line : Bytes) (b : Ring)
    → Full n read b
    → (b' : Ring) × (store n line b ≡ some b') × Holds n (read ++ line ∷ []) b'
store-Full n read line b (newer, [], h, lt, le, d, e) = absurd (omega arith)
store-Full n read line b (newer, l ∷ older, h, lt, le, d, e) =
    let p : suc (length read - n) ≡ length read + 1 - n = omega arith in
    (
      _,
      ap (store n line) e ∙ store_at n newer l older (length read) line,
      inr (
          lap-Full n read newer older line h (omega arith) (
            sym (append_assoc older newer (line ∷ []))
            ∙ drop-snoc (length read - n) read l line (older ++ newer) d
            ∙ ap (λ k. drop k (read ++ line ∷ [])) p)),
    )

store-Holds :
    (n : ℕ) (read : List Bytes) (line : Bytes) (b : Ring)
    → Holds n read b
    → (b' : Ring) × (store n line b ≡ some b') × Holds n (read ++ line ∷ []) b'
store-Holds n read line b (inl h) = store-Filling n read line b h
store-Holds n read line b (inr h) = store-Full n read line b h

pub store_all-Holds :
    (n : ℕ) (lines read : List Bytes) (b : Ring)
    → Holds n read b
    → (b' : Ring) × (store_all n lines b ≡ some b') × Holds n (read ++ lines) b'
unfolding store_all
store_all-Holds n [] read b h = (b, refl, subst (λ l. Holds n l b) (sym (append-nil read)) h)
store_all-Holds n (line ∷ lines) read b h =
    let (b', e, h') = store-Holds n read line b h in
    let (b'', e', h'') = store_all-Holds n lines (read ++ line ∷ []) b' h' in
    (b'', rw e e', subst (λ l. Holds n l b'') (append_assoc read (line ∷ []) lines) h'')
