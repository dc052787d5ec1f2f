-- ===== src/Lib.antt =====
-- go-busybox: the sandbox, the shared text functions, and applets that work on text.
--
-- The program is one binary of many applets. An applet gets its arguments and its streams
-- (pkg/core/core.go), opens files by pkg/core/fs, which passes every call on to the sandbox
-- (pkg/sandbox/sandbox.go), and returns an exit code. cut, tr, uniq and sort share the functions of
-- pkg/core/textutil/textutil.go; head and tail share the parsing of their arguments and the loop over
-- their files (pkg/core/headtail.go).
--
-- Which file models what:
--   Prelude         lists, tests and options over the native numbers, and their lemmas
--   Go              what the source uses of Go's library: ints, Atoi and Itoa (Go/Int), int64 and
--                   ParseInt (Go/Int64), strings (Go/Strings), UTF-8 and strings.Fields (Go/Utf8),
--                   path/filepath (Go/FilePath), fmt.Sprintf at one value (Go/Fmt)
--   Sandbox         pkg/sandbox/sandbox.go: the types, Init, the rules and checkAccess
--   Sandbox/Files   the same file: Open, Create, Rename, Copy and the other guarded operations
--   TextUtil        pkg/core/textutil/textutil.go: ParseRanges (Ranges), BuildFieldFunc (Fields),
--                   BuildCharFunc (Chars), NormalizeLine (Normalize), ParseKeySpec and ExtractKey
--                   (Keys), ParseSet and ComplementSet (Sets)
--   Core            pkg/core/core.go: the streams, exit codes, UsageError and FileError
--   Core/Lines      bufio.Scanner
--   Core/Inputs     how applets open their inputs
--   Core/HeadTail   pkg/core/headtail.go: ParseHeadTailArgs and RunHeadTail
--   Core/BoolFlags  pkg/core/headtail.go: ParseBoolFlags
--   Applets/Cut     pkg/applets/cut/cut.go
--   Applets/Echo    pkg/applets/echo/echo.go
--   Applets/Head    pkg/applets/head/head.go
--   Applets/Printf  pkg/applets/printf/printf.go: the escapes (Escapes), parseFormatSpec and buildFmtStr
--                   (Specs), the arguments (Values), printFormatted, processFormat and Run (Passes)
--   Applets/Seq     pkg/applets/seq/seq.go
--   Applets/Sort    pkg/applets/sort/sort.go
--   Applets/Tail    pkg/applets/tail/tail.go
--   Applets/Tr      pkg/applets/tr/tr.go
--   Applets/Uniq    pkg/applets/uniq/uniq.go
--   Applets/Wc      pkg/applets/wc/wc.go
--   Ash             arithmetic of the shell, pkg/applets/ash/ash.go: parseBaseNumber, powInt and the
--                   operations (Arith), the loops that look for an operator (Scan, Levels),
--                   parseArithExpr (Eval), the tests hasUnbalancedParens and so on (Guards),
--                   hasAssignmentAtTopLevel and the search of evalAssignment (Assignments),
--                   handlePostfixIncDec, expandSimpleVarsArith and expandBareVars (Pieces),
--                   evalArithmetic, evalAssignment and parseArithVar (Evaluate, over State)
-- A file stands for one component; the modules below it hold its proofs, and its Samples module holds
-- examples.
--
-- How the code is read. A text is a list of bytes, a rune a number. Streams are a state that is
-- passed along: the bytes still to be read, with the error that may stand behind them, and the bytes
-- printed so far. A result `(v, err)` is an option where the caller only asks whether it failed, and
-- a sum with the message where it prints it; a panic (an index out of range, a slice of negative
-- length) is `none`. Go's int has 64 bits: Atoi refuses what does not fit, and a negation that
-- overflows is written out. Loops are recursion on the list they run over; a rune's bytes are passed
-- over by a counter. Fuel is that of the loops of seq and of printf's passes, which need not end, of
-- Itoa (one more than the number, which is more than its digits), of the loop of a set's range (its
-- length) and of the 256 bytes of a complement, which the code counts too; of powInt (64 halvings of
-- an int64); of parseArithExpr, whose depth of calls is bounded by its text (each opening
-- parenthesis counts for 21 bytes, since the value that replaces a group may be 20 bytes long); and
-- of evalArithmetic and parseArithVar, which call each other and need not end. In the arithmetic of
-- the shell an int64 is its bit pattern, arithErr a state that every call hands on, and a negative
-- shift a panic; a loop that puts the values of variables into a text is its division into pieces,
-- which the values do not change, and the reading of the pieces in order.
--
-- Parameters: what the operating system does behind a permitted operation (Sandbox/Files); what
-- fs.Open gives for a path and what a bufio.Scanner that is dropped leaves in a stream, since how
-- far it reads ahead depends on the system (Core/Inputs); how reads divide an input (tail -c +N);
-- what os.Create gives and Unicode's lower case outside ASCII (uniq, sort); floating-point numbers
-- (sort -n, printf); Unicode's letters and digits above 0xFF and the process's number (ash).
-- sort.SliceStable is modelled as insertion sort, which is what it does on a block, and what every
-- stable sort gives if the comparison is an order. Memory is taken to be enough for every
-- allocation, and printing to succeed. An output of uniq that is also its input is not modelled.
--
-- Not modelled: of ash all but its arithmetic; the applets that start processes, talk to the network
-- or read the state of the system; those that wrap interpreters of other projects; the other applets
-- and helpers of pkg/core; the entry points of cmd, test data and scripts.
mod Prelude
pub mod Go
pub mod Sandbox
pub mod TextUtil
pub mod Core
pub mod Applets
pub mod Ash
