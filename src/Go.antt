-- ===== src/Go.antt =====
-- The parts of Go's language and standard library that the program's code uses: strings as
-- bytes, UTF-8, decimal numbers, formats, file paths. None of it stands in the repository.
pub mod Int
pub mod Int64
pub mod Strings
pub mod Utf8
pub mod FilePath
pub mod Fmt
pub mod Lower
