-- ===== src/Core.antt =====
-- pkg/core/core.go: exit codes, the standard streams, and errors of use. The streams are a state
-- that is passed along; what is printed is appended.
pub mod Lines
pub mod HeadTail
pub mod Inputs
pub mod BoolFlags
use go_busybox.Prelude.{ℕ, ◌+◌, Option, [], ◌∷◌, ◌++◌, Bytes, codes}

abbrev pub exit_success : ℕ
exit_success = 0

abbrev pub exit_failure : ℕ
exit_failure = 1

abbrev pub exit_usage : ℕ
exit_usage = 2

-- An input: its bytes, and then the end of the file, or an error with its message.
pub record Reader : Type 0 where
  pub content : Bytes
  pub failure : Option Bytes

pub record Stdio : Type 0 where
  pub input : Reader
  pub out : Bytes
  pub errors : Bytes

-- `Errorf`, on a message that is formatted already.
abbrev pub errorf : Bytes → Stdio → Stdio
errorf message s = record s { errors = s.errors ++ message }

-- `Printf` and `Print`.
abbrev pub print : Bytes → Stdio → Stdio
print text s = record s { out = s.out ++ text }

abbrev pub newline : Bytes
newline = 10 ∷ []

-- `Println` of one string.
abbrev pub println : Bytes → Stdio → Stdio
println text s = record s { out = s.out ++ (text ++ newline) }

-- `UsageError`.
unfoldable pub usage_error : Bytes → Bytes → Stdio → Stdio × ℕ
usage_error applet message s =
    (errorf (applet ++ (codes ": " ++ (message ++ newline))) s, exit_usage)

-- `FileError`.
unfoldable pub file_error : Bytes → Bytes → Bytes → Stdio → Stdio × ℕ
file_error applet path message s = (
  errorf (applet ++ (codes ": " ++ (path ++ (codes ": " ++ (message ++ newline))))) s,
  exit_failure,
)

-- What opening a file gives: its reader, or an error with its message.
pub data Opened : Type 0 where
  opened : Reader → Opened
  refused : Bytes → Opened

-- A reader that has been read to its end.
abbrev pub spent : Reader → Reader
spent r = record r { content = [] }
