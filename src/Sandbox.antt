-- ===== src/Sandbox.antt =====
-- pkg/sandbox/sandbox.go: the rules of the sandbox and the check that every file operation makes.
-- The global instance with its lock is a state that is passed along; each function here holds the
-- lock from its first statement to its end.
pub mod Files
pub mod Covers
pub mod Access
pub mod Init
pub mod Root
pub mod Verdict
mod Flags
pub mod Confine
pub mod Samples
use Prim.Native.Nat.{bit_and, bit_or}
use go_busybox.Prelude.{
  ℕ, ◌≡◌, refl, Bool, true, false, not, ◌&&◌, ◌||◌, Option, none, some, List, [], ◌∷◌, ◌++◌, Bytes,
  codes, str_eq, ◌==◌, if◌then◌else◌,
}
use go_busybox.Go.Strings.{has_prefix, trim_prefix}
use go_busybox.Go.FilePath.{slash, abs, clean}

-- `os` carries the message of an error of package os.
pub data Error : Type 0 where
  access_denied not_initialized read_only : Error
  os : Bytes → Error

-- Permission is a uint8 of flags. PermRead stands at iota 1, so it is 1 << 1.
abbrev pub perm_none : ℕ
perm_none = 0

abbrev pub perm_read : ℕ
perm_read = 2

abbrev pub perm_write : ℕ
perm_write = 4

abbrev pub perm_exec : ℕ
perm_exec = 8

pub record PathRule : Type 0 where
  pub path : Bytes
  pub permission : ℕ

pub record Sandbox : Type 0 where
  pub rules : List PathRule
  pub enabled : Bool
  pub cwd : Bytes
  pub allow_cwd : Bool

pub record Config : Type 0 where
  pub allowed_paths : List PathRule
  pub allow_cwd : Bool
  pub cwd_permission : ℕ

-- `globalSandbox` as the program starts.
abbrev pub global_sandbox : Sandbox
global_sandbox = record { rules = []; enabled = false; cwd = []; allow_cwd = false }

-- The default for a current directory that is allowed with no permission named.
unfoldable pub cwd_permission_or_default : ℕ → ℕ
cwd_permission_or_default perm = if perm == perm_none then bit_or perm_read perm_write else perm

unfoldable pub cwd_rules : Config → Bytes → List PathRule
cwd_rules cfg cwd =
    if cfg.allow_cwd
    then record { path = cwd; permission = cwd_permission_or_default cfg.cwd_permission } ∷ []
    else []

-- A configured path that has no absolute form is passed over.
unfoldable pub resolved : Option Bytes → ℕ → List PathRule
resolved none perm = []
resolved (some a) perm = record { path = a; permission = perm } ∷ []

unfoldable pub path_rules : Option Bytes → List PathRule → List PathRule
path_rules wd [] = []
path_rules wd (r ∷ rs) = resolved (abs wd r.path) r.permission ++ path_rules wd rs

-- What `os.Getwd` returns: a directory, or an error with its message.
pub data Getwd : Type 0 where
  found failed : Bytes → Getwd

-- `Init`. On an error of `os.Getwd` the rules are gone and the sandbox is on.
unfoldable pub init : Getwd → Config → Sandbox → Sandbox × Option Error
init (failed message) cfg s =
    (record s { rules = []; enabled = true; allow_cwd = cfg.allow_cwd }, some (os message))
init (found cwd) cfg s = (
  record {
    rules = cwd_rules cfg cwd ++ path_rules (some cwd) cfg.allowed_paths;
    enabled = true;
    cwd = cwd;
    allow_cwd = cfg.allow_cwd;
  },
  none,
)

unfoldable pub disable : Sandbox → Sandbox
disable s = record s { enabled = false }

unfoldable pub enable : Sandbox → Sandbox
enable s = record s { enabled = true }

unfoldable pub is_enabled : Sandbox → Bool
is_enabled s = s.enabled

-- `rule.Permission&perm == perm`.
unfoldable pub grants : ℕ → ℕ → Bool
grants permission perm = bit_and permission perm == perm

-- `perm&PermWrite != 0 && rule.Permission&PermWrite == 0`.
unfoldable pub lacks_write : ℕ → ℕ → Bool
lacks_write permission perm =
    not (bit_and perm perm_write == 0) && bit_and permission perm_write == 0

-- The prefix test, and the test that the prefix ends where a name ends.
unfoldable pub covers : Bytes → Bytes → Bool
unfolding has_prefix trim_prefix
covers rule_path abs_path =
    (has_prefix abs_path rule_path || str_eq abs_path rule_path)
    && (let remainder = trim_prefix abs_path rule_path in
        str_eq remainder [] || has_prefix remainder (slash ∷ []))

-- The loop over the rules. `none` is the nil error.
unfoldable pub check_rules : Bytes → ℕ → List PathRule → Option Error
check_rules abs_path perm [] = some access_denied
check_rules abs_path perm (r ∷ rs) =
    let rest = check_rules abs_path perm rs in
    if covers r.path abs_path
    then (if grants r.permission perm
        then none
        else if lacks_write r.permission perm
        then some read_only
        else rest)
    else rest

unfoldable pub check_abs : Sandbox → ℕ → Option Bytes → Option Error
check_abs s perm none = some access_denied
check_abs s perm (some a) = check_rules (clean a) perm s.rules

unfoldable pub check_access : Sandbox → Option Bytes → Bytes → ℕ → Option Error
unfolding check_abs
check_access s wd path perm = if s.enabled then check_abs s perm (abs wd path) else none
