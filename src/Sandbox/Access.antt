-- ===== src/Sandbox/Access.antt =====
-- What `checkAccess` lets through, in terms of the names of paths.
use go_busybox.Prelude.{
  ℕ, ◌≡◌, refl, sym, ap, subst, ◌∙◌, ◌⊎◌, inl, inr, true, Option, none, some, List, [], ◌∷◌, Bytes,
  All, arith, Bool-cases,
}
use go_busybox.Go.FilePath.{rooted_text, abs}
use go_busybox.Go.FilePath.Parts.{Under}
use go_busybox.Go.FilePath.Clean.{IsName, IsClean, AbsoluteWd, abs-IsClean, clean-IsClean_self}
use go_busybox.Sandbox.{PathRule, Sandbox, grants, covers, check_rules, check_abs, check_access}
use go_busybox.Sandbox.Covers.{covers_iff}

-- Some element of the list satisfies `P`.
abbrev pub Any : (PathRule → Type 0) → List PathRule → Type 0
Any P [] = ⊥
Any P (x ∷ xs) = P x ⊎ Any P xs

-- Every rule holds an absolute path in the form that `Clean` leaves.
abbrev pub RulesClean : List PathRule → Type 0
RulesClean = All (λ r. IsClean r.path)

-- The rule's folder holds the path with the names `ds`, and the rule grants `perm`.
pub record Permits (perm : ℕ) (ds : List Bytes) (r : PathRule) : Type 0 where
  pub folder : List Bytes
  pub folder_names : All IsName folder
  pub folder_path : rooted_text folder ≡ r.path
  pub inside : Under folder ds
  pub granted : grants r.permission perm ≡ true

covers-Under :
    (r : PathRule) (k : IsClean r.path) (ds : List Bytes)
    → All IsName ds
    → covers r.path (rooted_text ds) ≡ true
    → Under k.through ds
covers-Under r k ds hd h = go k.through k.are_names k.spelled
  where
    go : (cs : List Bytes) → All IsName cs → rooted_text cs ≡ r.path → Under cs ds
    go [] hc e = (ds, refl)
    go (c ∷ cs) hc e =
        (covers_iff (c ∷ cs) ds (cc) hc hd).0
          (subst (λ p. covers p (rooted_text ds) ≡ true) (sym e) h)

check_rules-Any :
    (rs : List PathRule) (perm : ℕ) (ds : List Bytes)
    → RulesClean rs
    → All IsName ds
    → check_rules (rooted_text ds) perm rs ≡ none
    → Any (Permits perm ds) rs
unfolding check_rules
check_rules-Any [] perm ds hr hd h = cc
check_rules-Any (r ∷ rs) perm ds (k, hr) hd h = elim (Bool-cases (covers r.path (rooted_text ds))) [
  | inl c ↦ elim (Bool-cases (grants r.permission perm)) [
    | inl g ↦ inl (record {
      folder = k.through;
      folder_names = k.are_names;
      folder_path = k.spelled;
      inside = covers-Under r k ds hd c;
      granted = g;
    })
    | inr n ↦ inr (check_rules-Any rs perm ds hr hd (ground arith))
  ]
  | inr n ↦ inr (check_rules-Any rs perm ds hr hd (ground arith))
]

-- A path with no absolute form, or outside every rule, is refused.
pub check_access-Any :
    (s : Sandbox) (wd : Option Bytes) (path : Bytes) (perm : ℕ)
    → s.enabled ≡ true
    → AbsoluteWd wd
    → RulesClean s.rules
    → check_access s wd path perm ≡ none
    → (ds : List Bytes) × All IsName ds
      × (abs wd path ≡ some (rooted_text ds))
      × Any (Permits perm ds) s.rules
unfolding check_access check_abs
check_access-Any s wd path perm on hw hr h = go (abs wd path) refl (rw on at h)
  where
    go :
        (m : Option Bytes)
        → abs wd path ≡ m
        → check_abs s perm m ≡ none
        → (ds : List Bytes) × All IsName ds
          × (abs wd path ≡ some (rooted_text ds))
          × Any (Permits perm ds) s.rules
    go none e k = cc
    go (some a) e k =
        let c : IsClean a = abs-IsClean wd path hw e in
        (
          c.through,
          c.are_names,
          e ∙ ap some (sym c.spelled),
          check_rules-Any s.rules perm c.through hr c.are_names (
              subst (λ t. check_rules t perm s.rules ≡ none)
                (clean-IsClean_self a c ∙ sym c.spelled) k),
        )
