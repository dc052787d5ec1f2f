-- ===== src/Sandbox/Verdict.antt =====
-- `checkAccess` against its specification: paths are lists of names, permissions are flags, and
-- the first rule whose folder holds the path and that settles the request decides.
use Prim.Native.Nat.{bit_and}
use go_busybox.Prelude.{
  ℕ, ◌<◌, ◌≡◌, ◌≢◌, refl, ap, Bool, true, false, not, ◌&&◌, Option, none, some, List, [], ◌∷◌, ◌++◌,
  map, Bytes, All, arith, if◌then◌else◌, str_eq, str_eq_iff, ◌==◌, &&-eq-true, Bool-ext, same,
  same-eq, holds_to, holds_to_sound,
}
use go_busybox.Go.FilePath.{rooted_text, abs}
use go_busybox.Go.FilePath.Parts.{Under}
use go_busybox.Go.FilePath.Clean.{IsName, IsClean, clean-IsClean_self}
use go_busybox.Sandbox.{
  Error, access_denied, read_only, PathRule, Sandbox, grants, lacks_write, covers, check_rules,
  check_abs, check_access, perm_read, perm_write,
}
use go_busybox.Sandbox.Covers.{covers_iff}

-- A rule by the names of its folder.
pub record Folder : Type 0 where
  pub names : List Bytes
  pub permission : ℕ

-- The first list begins the second.
abbrev pub begins : List Bytes → List Bytes → Bool
begins [] ds = true
begins (c ∷ cs) [] = false
begins (c ∷ cs) (d ∷ ds) = str_eq c d && begins cs ds

-- What one flag of a permission says.
abbrev pub can_read : ℕ → Bool
can_read p = not (bit_and p perm_read == 0)

abbrev pub can_write : ℕ → Bool
can_write p = not (bit_and p perm_write == 0)

-- A request to read, to write, or both.
pub data Request : Type 0 where
  reading writing updating : Request

abbrev pub flags : Request → ℕ
flags reading = perm_read
flags writing = perm_write
flags updating = 6

-- What one folder that holds the path says of a request, before the folders behind it.
abbrev pub answer : Request → ℕ → Option Error → Option Error
answer reading p rest = if can_read p then none else rest
answer writing p rest = if can_write p then none else some read_only
answer updating p rest = if can_write p then (if can_read p then none else rest) else some read_only

abbrev pub verdict : Request → List Bytes → List Folder → Option Error
verdict q ds [] = some access_denied
verdict q ds (f ∷ fs) =
    if begins f.names ds then answer q f.permission (verdict q ds fs) else verdict q ds fs

abbrev pub to_rule : Folder → PathRule
to_rule f = record { path = rooted_text f.names; permission = f.permission }

-- A folder below the root, with a permission that fits a byte.
pub record IsFolder (f : Folder) : Type 0 where
  pub below_root : f.names ≢ []
  pub are_names : All IsName f.names
  pub fits : f.permission < 256

begins→Under : (cs ds : List Bytes) → begins cs ds ≡ true → Under cs ds
begins→Under [] ds h = (ds, refl)
begins→Under (c ∷ cs) [] h = cc
begins→Under (c ∷ cs) (d ∷ ds) h =
    let (e, r) = &&-eq-true (str_eq c d) (begins cs ds) h in
    let u = begins→Under cs ds r in (u.0, cc (u.1, (str_eq_iff c d).0 e))

Under→begins : (cs ds : List Bytes) → Under cs ds → begins cs ds ≡ true
Under→begins [] ds u = refl
Under→begins (c ∷ cs) [] u = cc u.1
Under→begins (c ∷ cs) (d ∷ ds) u =
    let tails : cs ++ u.0 ≡ ds = cc u.1 in
    let heads : c ≡ d = cc u.1 in rw ((str_eq_iff c d).1 heads) (Under→begins cs ds (u.0, tails))

covers-begins :
    (cs ds : List Bytes)
    → cs ≢ []
    → All IsName cs
    → All IsName ds
    → covers (rooted_text cs) (rooted_text ds) ≡ begins cs ds
covers-begins cs ds n hc hd =
    Bool-ext _ _ (λ h. Under→begins cs ds ((covers_iff cs ds n hc hd).0 h))
      (λ h. (covers_iff cs ds n hc hd).1 (begins→Under cs ds h))

-- A permission is a byte, so each fact about its flags is a table.
module _ (f g : ℕ → Bool) (table : holds_to 256 (λ p. same (f p) (g p)) ≡ true) where
  by_table : (p : ℕ) → p < 256 → f p ≡ g p
  by_table p h = same-eq (f p) (g p) (holds_to_sound 256 (λ k. same (f k) (g k)) p table h)

grants-reading : (p : ℕ) → p < 256 → grants p 2 ≡ can_read p
unfolding grants holds_to
grants-reading = by_table (λ p. grants p 2) can_read refl

grants-writing : (p : ℕ) → p < 256 → grants p 4 ≡ can_write p
unfolding grants holds_to
grants-writing = by_table (λ p. grants p 4) can_write refl

grants-updating : (p : ℕ) → p < 256 → grants p 6 ≡ (can_write p && can_read p)
unfolding grants holds_to
grants-updating = by_table (λ p. grants p 6) (λ p. can_write p && can_read p) refl

decide_folder : ℕ → ℕ → Option Error → Option Error
decide_folder perm p rest =
    if grants p perm then none else if lacks_write p perm then some read_only else rest

decide_folder-answer :
    (q : Request) (p : ℕ) (rest : Option Error)
    → p < 256
    → decide_folder (flags q) p rest ≡ answer q p rest
unfolding decide_folder lacks_write
decide_folder-answer reading p rest h = rw (grants-reading p h) (ground arith)
decide_folder-answer writing p rest h = rw (grants-writing p h) (ground arith)
decide_folder-answer updating p rest h = rw (grants-updating p h) (ground arith)

-- The loop of `checkAccess` over texts gives the verdict over names, with its error.
check_rules-verdict :
    (q : Request) (ds : List Bytes) (fs : List Folder)
    → All IsName ds
    → All IsFolder fs
    → check_rules (rooted_text ds) (flags q) (map to_rule fs) ≡ verdict q ds fs
unfolding check_rules decide_folder
check_rules-verdict q ds [] hd hf = refl
check_rules-verdict q ds (f ∷ fs) hd (h, hf) =
    rw (covers-begins f.names ds h.below_root h.are_names hd, check_rules-verdict q ds fs hd hf)
      (ap (λ t. if begins f.names ds then t else verdict q ds fs)
        (decide_folder-answer q f.permission (verdict q ds fs) h.fits))

-- With the sandbox on and all rules below the root, `checkAccess` answers a request on a path as
-- the folders do by names: the folders are asked in order; one that does not hold the path is
-- passed over; one that holds it grants the request if it has its flags, refuses a request that
-- writes as read-only if it lacks the write flag, and leaves a reading request (or an update that
-- only lacks the read flag) to the folders behind; no answer is a denial.
pub check_access-verdict :
    (s : Sandbox) (wd : Option Bytes) (path : Bytes) (q : Request) (ds : List Bytes)
    (fs : List Folder)
    → s.enabled ≡ true
    → s.rules ≡ map to_rule fs
    → abs wd path ≡ some (rooted_text ds)
    → All IsName ds
    → All IsFolder fs
    → check_access s wd path (flags q) ≡ verdict q ds fs
unfolding check_access check_abs
check_access-verdict s wd path q ds fs on rules e hd hf =
    let k : IsClean (rooted_text ds) = record { through = ds; are_names = hd; spelled = refl } in
    simp (on, e, clean-IsClean_self (rooted_text ds) k, rules) (check_rules-verdict q ds fs hd hf)
