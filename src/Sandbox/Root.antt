-- ===== src/Sandbox/Root.antt =====
-- A sandbox in the root directory.
use go_busybox.Prelude.{
  ℕ, ◌≡◌, ◌≢◌, refl, subst, inl, inr, true, false, Option, some, List, [], ◌∷◌, append-nil, Bytes,
  All, Bool-cases,
}
use go_busybox.Go.FilePath.{slash, rooted_text, abs}
use go_busybox.Go.FilePath.Clean.{IsName, IsClean, clean-IsClean_self}
use go_busybox.Sandbox.{
  access_denied, PathRule, Sandbox, Config, found, init, cwd_rules, path_rules, covers, check_rules,
  check_abs, check_access,
}
use go_busybox.Sandbox.Covers.{covers-root}

check_rules-root :
    (rs : List PathRule) (perm : ℕ) (ds : List Bytes)
    → All (λ r. r.path ≡ slash ∷ []) rs
    → All IsName ds
    → ds ≢ []
    → check_rules (rooted_text ds) perm rs ≡ some access_denied
unfolding check_rules
check_rules-root [] perm ds hr hd n = refl
check_rules-root (r ∷ rs) perm ds (e, hr) hd n =
    rw (not-covers r.path e) (check_rules-root rs perm ds hr hd n)
  where
    not-covers : (p : Bytes) → p ≡ slash ∷ [] → covers p (rooted_text ds) ≡ false
    not-covers p e = elim (Bool-cases (covers p (rooted_text ds))) [
      | inl c ↦
          absurd (n ((covers-root ds hd).0 (subst (λ q. covers q (rooted_text ds) ≡ true) e c)))
      | inr m ↦ m
    ]

root-IsClean : IsClean (slash ∷ [])
unfolding rooted_text
root-IsClean = record { through = []; are_names = tt; spelled = refl }

cwd_rules-root : (cfg : Config) → All (λ r. r.path ≡ slash ∷ []) (cwd_rules cfg (slash ∷ []))
unfolding cwd_rules
cwd_rules-root cfg = elim (Bool-cases cfg.allow_cwd) [ inl y ↦ rw y (refl, tt) | inr n ↦ rw n tt ]

-- Where the current directory is the root directory and no other path is configured, every path
-- below the root is refused, whatever the permissions: the rule for `/` holds `/` alone.
pub init-root :
    (cfg : Config) (s : Sandbox) (wd : Option Bytes) (path : Bytes) (perm : ℕ) (ds : List Bytes)
    → cfg.allowed_paths ≡ []
    → All IsName ds
    → ds ≢ []
    → abs wd path ≡ some (rooted_text ds)
    → check_access (init (found (slash ∷ [])) cfg s).0 wd path perm ≡ some access_denied
unfolding init check_access check_abs path_rules cwd_rules
init-root cfg s wd path perm ds none_else hd n e =
    rw
      (
        e,
        clean-IsClean_self (rooted_text ds)
            (record { through = ds; are_names = hd; spelled = refl }),
        none_else,
        append-nil,
      )
      (check_rules-root (cwd_rules cfg (slash ∷ [])) perm ds (cwd_rules-root cfg) hd n)
