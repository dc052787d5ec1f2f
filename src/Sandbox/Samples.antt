-- ===== src/Sandbox/Samples.antt =====
-- Runs of the sandbox, and its theorems at concrete inputs.
use go_busybox.Prelude.{
  ◌↔◌, ℕ, suc, ◌≡◌, refl, ◌⊎◌, true, false, none, some, List, [], ◌∷◌, map, Bytes, codes, All,
  arith,
}
use go_busybox.Go.FilePath.{slash, rooted_text, abs, clean, is_abs}
use go_busybox.Go.FilePath.Clean.{IsName, IsClean}
use go_busybox.Sandbox.{
  access_denied, read_only, Sandbox, Config, found, init, grants, lacks_write, covers, check_rules,
  check_access, global_sandbox, perm_read, perm_write, cwd_rules, path_rules, resolved,
  cwd_permission_or_default,
}
use go_busybox.Sandbox.Files.{ok, Os}
use go_busybox.Go.FilePath.Parts.{Under}
use go_busybox.Sandbox.Covers.{covers_iff}
use go_busybox.Sandbox.Access.{Any}
use go_busybox.Sandbox.Init.{Allows, CwdAllows, init-confines}
use go_busybox.Sandbox.Root.{init-root}
use go_busybox.Sandbox.Verdict.{Folder, writing, flags, to_rule, verdict, check_access-verdict}
use go_busybox.Sandbox.Confine.{call_rename, needs, refusal, settle, bare, perform, perform-settle}

abbrev home : List Bytes
home = codes "home" ∷ codes "u" ∷ []

abbrev notes : List Bytes
notes = codes "home" ∷ codes "u" ∷ codes "n" ∷ []

home-names : All IsName home
home-names = ground arith

notes-names : All IsName notes
notes-names = ground arith

abbrev home_config : Config
home_config = record {
  allowed_paths = record { path = codes "/srv/../data"; permission = perm_read } ∷ [];
  allow_cwd = true;
  cwd_permission = 0;
}

abbrev home_sandbox : Sandbox
home_sandbox = (init (found (codes "/home/u")) home_config global_sandbox).0

home-IsClean : IsClean (codes "/home/u")
unfolding rooted_text
home-IsClean = record { through = home; are_names = home-names; spelled = refl }

traversal_denied :
    check_access home_sandbox (some (codes "/home/u")) (codes "../../etc/passwd") perm_read
    ≡ some access_denied
unfolding init check_access covers grants lacks_write check_rules abs clean cwd_rules path_rules
    resolved
traversal_denied = refl

sibling_denied :
    check_access home_sandbox (some (codes "/home/u")) (codes "/home/u2/x") perm_read
    ≡ some access_denied
unfolding init check_access covers grants lacks_write check_rules abs clean cwd_rules path_rules
    resolved
sibling_denied = refl

read_only_data :
    check_access home_sandbox (some (codes "/home/u")) (codes "/data/t") perm_write ≡ some read_only
unfolding init check_access covers grants lacks_write check_rules abs clean cwd_rules path_rules
    resolved
read_only_data = refl

notes_allowed : check_access home_sandbox (some (codes "/home/u")) (codes "./n") perm_write ≡ none
unfolding init check_access covers grants lacks_write check_rules abs clean cwd_rules path_rules
    resolved cwd_permission_or_default
notes_allowed = refl

covers_iff_example : (covers (rooted_text home) (rooted_text notes) ≡ true) ↔ Under home notes
covers_iff_example = covers_iff home notes (cc) home-names notes-names

home-is_abs : is_abs (codes "/home/u") ≡ true
unfolding is_abs
home-is_abs = refl

init-confines_example :
    (ds : List Bytes) × All IsName ds
    × (abs (some (codes "/home/u")) (codes "./n") ≡ some (rooted_text ds))
    × (CwdAllows home_config (codes "/home/u") perm_write ds
        ⊎ Any (Allows (codes "/home/u") perm_write ds) home_config.allowed_paths)
init-confines_example =
    init-confines (codes "/home/u") home_config global_sandbox (some (codes "/home/u"))
      (codes "./n") perm_write home-IsClean home-is_abs notes_allowed

abs-notes : abs (some (codes "/")) (codes "home/u/n") ≡ some (rooted_text notes)
unfolding abs rooted_text
abs-notes = refl

abbrev root_config : Config
root_config = record { allowed_paths = []; allow_cwd = true; cwd_permission = 0 }

init-root_example :
    check_access
      (init (found (slash ∷ [])) root_config global_sandbox).0
      (some (codes "/"))
      (codes "home/u/n")
      perm_read
    ≡ some access_denied
init-root_example =
    init-root root_config global_sandbox (some (codes "/")) (codes "home/u/n") perm_read notes refl
      notes-names (cc) abs-notes

abbrev folders : List Folder
folders = record { names = home; permission = perm_read } ∷ []

abbrev folder_sandbox : Sandbox
folder_sandbox = record { rules = map to_rule folders; enabled = true; cwd = []; allow_cwd = false }

check_access-verdict_example :
    check_access folder_sandbox (some (codes "/")) (codes "home/u/n") (flags writing)
    ≡ verdict writing notes folders
check_access-verdict_example =
    check_access-verdict folder_sandbox (some (codes "/")) (codes "home/u/n") writing notes folders
      refl refl abs-notes notes-names
      (record { below_root = cc; are_names = home-names; fits = omega arith }, tt)

-- A system whose state counts the calls.
abbrev counter : Os ℕ (Unit {0}) (Unit {0}) (Unit {0})
counter = record {
  os_getwd = λ w. some (codes "/");
  os_open = λ p w. (suc w, ok tt);
  os_create = λ p w. (suc w, ok tt);
  os_open_file = λ p f m w. (suc w, ok tt);
  os_read_file = λ p w. (suc w, ok []);
  os_write_file = λ p t m w. (suc w, ok tt);
  os_stat = λ p w. (suc w, ok tt);
  os_lstat = λ p w. (suc w, ok tt);
  os_read_dir = λ p w. (suc w, ok []);
  os_mkdir = λ p m w. (suc w, ok tt);
  os_mkdir_all = λ p m w. (suc w, ok tt);
  os_remove = λ p w. (suc w, ok tt);
  os_remove_all = λ p w. (suc w, ok tt);
  os_rename = λ p q w. (suc w, ok tt);
  os_chdir = λ p w. (suc w, ok tt);
  file_stat = λ h w. (suc w, ok tt);
  file_close = λ h w. suc w;
  info_mode = λ i. 0;
  io_copy = λ d c w. (suc w, ok tt);
}

perform-settle_example :
    perform counter folder_sandbox (call_rename (codes "/home/u/a") (codes "/b")) 7
    ≡ settle
        (refusal folder_sandbox
          (some (codes "/"))
          (needs (call_rename (codes "/home/u/a") (codes "/b"))))
        7
        (bare counter folder_sandbox (call_rename (codes "/home/u/a") (codes "/b")) 7)
perform-settle_example =
    perform-settle counter folder_sandbox (call_rename (codes "/home/u/a") (codes "/b")) 7
