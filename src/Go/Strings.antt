-- ===== src/Go/Strings.antt =====
-- Functions of Go's package `strings` over bytes.
pub mod Split
pub mod Trim
use go_busybox.Prelude.{
  ℕ, zero, suc, ◌+◌, ◌-◌, ◌≡◌, refl, Bool, true, false, ◌&&◌, ◌||◌, Option, none, some, List, [],
  ◌∷◌, ◌++◌, Bytes, codes, length, drop, ltb, leb, ◌==◌, if◌then◌else◌,
}

-- `strings.HasPrefix`.
unfoldable pub has_prefix : Bytes → Bytes → Bool
has_prefix s [] = true
has_prefix [] (p ∷ ps) = false
has_prefix (c ∷ s) (p ∷ ps) = c == p && has_prefix s ps

-- `strings.TrimPrefix`.
unfoldable pub trim_prefix : Bytes → Bytes → Bytes
unfolding has_prefix
trim_prefix s p = if has_prefix s p then drop (length p) s else s

-- `strings.Contains` of one byte.
unfoldable pub contains_byte : Bytes → ℕ → Bool
contains_byte [] b = false
contains_byte (c ∷ s) b = c == b || contains_byte s b

-- The loop of `strings.Split`: `cur` is the part so far, and `skip` counts the bytes of a
-- separator that are still to be passed over.
split_loop : Bytes → Bytes → Bytes → ℕ → List Bytes
split_loop sep [] cur skip = cur ∷ []
split_loop sep (c ∷ s) cur (suc skip) = split_loop sep s cur skip
split_loop sep (c ∷ s) cur zero =
    let cut = cur ∷ split_loop sep s [] (length sep - 1) in
    let go = split_loop sep s (cur ++ c ∷ []) 0 in if has_prefix (c ∷ s) sep then cut else go

-- `strings.Split` at a separator that is not empty.
unfoldable pub split : Bytes → Bytes → List Bytes
unfolding split_loop has_prefix
split s sep = split_loop sep s [] 0

-- `strings.SplitN(s, b, 2)` at one byte: the text before it and, if it occurs, the text behind.
unfoldable pub split_2 : Bytes → ℕ → Bytes × Option Bytes
split_2 [] b = ([], none)
split_2 (c ∷ s) b = if c == b then ([], some s) else (c ∷ (split_2 s b).0, (split_2 s b).1)

-- `strings.Join`.
unfoldable pub join : List Bytes → Bytes → Bytes
join [] sep = []
join (p ∷ []) sep = p
join (p ∷ q ∷ ps) sep = p ++ (sep ++ join (q ∷ ps) sep)

split_runs :
    (split (codes "a,,b") (codes ",") ≡ codes "a" ∷ [] ∷ codes "b" ∷ [])
    × (split [] (codes ",") ≡ [] ∷ [])
    × (split (codes "x--y-z") (codes "--") ≡ codes "x" ∷ codes "y-z" ∷ [])
    × (split_2 (codes "3-5-") b'-' ≡ (codes "3", some (codes "5-")))
unfolding split split_2
split_runs = (refl, refl, refl, refl)
