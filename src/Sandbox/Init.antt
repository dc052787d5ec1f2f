-- ===== src/Sandbox/Init.antt =====
-- What a sandbox lets through after `Init`, in terms of its configuration.
use go_busybox.Prelude.{
  ℕ, ◌≡◌, refl, sym, ap, ◌∙◌, ◌⊎◌, inl, inr, Bool, true, false, Option, none, some, List, [], ◌∷◌,
  ◌++◌, Bytes, All, All-append, Bool-cases, if◌then◌else◌,
}
use go_busybox.Go.FilePath.{rooted_text, abs}
use go_busybox.Go.FilePath.Parts.{Under}
use go_busybox.Go.FilePath.Clean.{IsName, IsClean, AbsoluteWd, abs-IsClean, IsClean-is_abs}
use go_busybox.Sandbox.{
  PathRule, Sandbox, Config, found, init, cwd_rules, path_rules, resolved, grants, check_access,
  cwd_permission_or_default,
}
use go_busybox.Sandbox.Access.{Any, RulesClean, Permits, check_access-Any}

cwd_rules-RulesClean : (cfg : Config) (cwd : Bytes) → IsClean cwd → RulesClean (cwd_rules cfg cwd)
unfolding cwd_rules
cwd_rules-RulesClean cfg cwd k = elim (Bool-cases cfg.allow_cwd) [
  | inl y ↦ rw y (k, tt)
  | inr n ↦ rw n tt
]

init-enabled :
    (cwd : Bytes) (cfg : Config) (s : Sandbox) → (init (found cwd) cfg s).0.enabled ≡ true
unfolding init
init-enabled cwd cfg s = refl

-- The names of an absolute path below a configured folder that grants `perm`.
pub record Allows (cwd : Bytes) (perm : ℕ) (ds : List Bytes) (r : PathRule) : Type 0 where
  pub folder : List Bytes
  pub folder_names : All IsName folder
  pub folder_path : abs (some cwd) r.path ≡ some (rooted_text folder)
  pub inside : Under folder ds
  pub granted : grants r.permission perm ≡ true

-- The same for the current directory, with its permission or the default one.
pub record CwdAllows (cfg : Config) (cwd : Bytes) (perm : ℕ) (ds : List Bytes) : Type 0 where
  pub allowed : cfg.allow_cwd ≡ true
  pub folder : List Bytes
  pub folder_names : All IsName folder
  pub folder_path : rooted_text folder ≡ cwd
  pub inside : Under folder ds
  pub granted : grants (cwd_permission_or_default cfg.cwd_permission) perm ≡ true

Any-append :
    (P : PathRule → Type 0) (xs ys : List PathRule) → Any P (xs ++ ys) → Any P xs ⊎ Any P ys
Any-append P [] ys h = inr h
Any-append P (x ∷ xs) ys (inl h) = inl (inl h)
Any-append P (x ∷ xs) ys (inr h) = elim (Any-append P xs ys h) [
  | inl a ↦ inl (inr a)
  | inr b ↦ inr b
]

module _ (cwd : Bytes) (k : IsClean cwd) where
  resolved-RulesClean :
      (m : Option Bytes) (path : Bytes) (perm : ℕ)
      → abs (some cwd) path ≡ m
      → RulesClean (resolved m perm)
  unfolding resolved
  resolved-RulesClean none path perm e = tt
  resolved-RulesClean (some a) path perm e =
      (abs-IsClean (some cwd) path (IsClean-is_abs cwd k) e, tt)

  path_rules-RulesClean : (rs : List PathRule) → RulesClean (path_rules (some cwd) rs)
  unfolding path_rules
  path_rules-RulesClean [] = tt
  path_rules-RulesClean (r ∷ rs) =
      All-append (λ (q : PathRule). IsClean q.path) (resolved (abs (some cwd) r.path) r.permission)
        (path_rules (some cwd) rs) (resolved-RulesClean _ r.path r.permission refl)
        (path_rules-RulesClean rs)

  -- Every rule that `Init` makes holds a clean absolute path, whatever paths are configured.
  pub init-RulesClean : (cfg : Config) (s : Sandbox) → RulesClean (init (found cwd) cfg s).0.rules
  unfolding init
  init-RulesClean cfg s =
      All-append (λ (q : PathRule). IsClean q.path) (cwd_rules cfg cwd)
        (path_rules (some cwd) cfg.allowed_paths) (cwd_rules-RulesClean cfg cwd k)
        (path_rules-RulesClean cfg.allowed_paths)

  resolved-Allows :
      (m : Option Bytes) (r : PathRule) (perm : ℕ) (ds : List Bytes)
      → abs (some cwd) r.path ≡ m
      → Any (Permits perm ds) (resolved m r.permission)
      → Allows cwd perm ds r
  unfolding resolved
  resolved-Allows none r perm ds e h = absurd h
  resolved-Allows (some a) r perm ds e (inl p) = record {
    folder = p.folder;
    folder_names = p.folder_names;
    folder_path = e ∙ ap some (sym p.folder_path);
    inside = p.inside;
    granted = p.granted;
  }
  resolved-Allows (some a) r perm ds e (inr h) = absurd h

  path_rules-Allows :
      (rs : List PathRule) (perm : ℕ) (ds : List Bytes)
      → Any (Permits perm ds) (path_rules (some cwd) rs)
      → Any (Allows cwd perm ds) rs
  unfolding path_rules
  path_rules-Allows [] perm ds h = absurd h
  path_rules-Allows (r ∷ rs) perm ds h =
      elim (Any-append (Permits perm ds) (resolved (abs (some cwd) r.path) r.permission) _ h) [
        | inl a ↦ inl (resolved-Allows _ r perm ds refl a)
        | inr b ↦ inr (path_rules-Allows rs perm ds b)
      ]

  cwd_rules-CwdAllows :
      (cfg : Config) (perm : ℕ) (ds : List Bytes)
      → Any (Permits perm ds) (cwd_rules cfg cwd)
      → CwdAllows cfg cwd perm ds
  unfolding cwd_rules
  cwd_rules-CwdAllows cfg perm ds h = go cfg.allow_cwd refl h
    where
      go :
          (b : Bool)
          → cfg.allow_cwd ≡ b
          → Any (Permits perm ds) (
              if b
              then record { path = cwd; permission = cwd_permission_or_default cfg.cwd_permission }
                ∷ []
              else [])
          → CwdAllows cfg cwd perm ds
      go true e (inl p) = record {
        allowed = e;
        folder = p.folder;
        folder_names = p.folder_names;
        folder_path = p.folder_path;
        inside = p.inside;
        granted = p.granted;
      }
      go true e (inr n) = absurd n
      go false e n = absurd n

  init-Allows :
      (cfg : Config) (s : Sandbox) (perm : ℕ) (ds : List Bytes)
      → Any (Permits perm ds) (init (found cwd) cfg s).0.rules
      → CwdAllows cfg cwd perm ds ⊎ Any (Allows cwd perm ds) cfg.allowed_paths
  unfolding init
  init-Allows cfg s perm ds h = elim (Any-append (Permits perm ds) (cwd_rules cfg cwd) _ h) [
    | inl a ↦ inl (cwd_rules-CwdAllows cfg perm ds a)
    | inr b ↦ inr (path_rules-Allows cfg.allowed_paths perm ds b)
  ]

-- After `Init` in the directory `cwd`, a path (resolved in the directory `wd`, if it is relative)
-- is let through only if its absolute form is made of names, with no `..` among them, that begin
-- with the names of the current directory or of a configured folder whose permission has the
-- wanted flags.
pub init-confines :
    (cwd : Bytes) (cfg : Config) (s : Sandbox) (wd : Option Bytes) (path : Bytes) (perm : ℕ)
    → IsClean cwd
    → AbsoluteWd wd
    → check_access (init (found cwd) cfg s).0 wd path perm ≡ none
    → (ds : List Bytes) × All IsName ds
      × (abs wd path ≡ some (rooted_text ds))
      × (CwdAllows cfg cwd perm ds ⊎ Any (Allows cwd perm ds) cfg.allowed_paths)
init-confines cwd cfg s wd path perm k hw h =
    let (ds, hd, e, any) =
      check_access-Any (init (found cwd) cfg s).0 wd path perm (init-enabled cwd cfg s) hw
        (init-RulesClean cwd k cfg s) h in
    (ds, hd, e, init-Allows cwd k cfg s perm ds any)
