-- ===== src/Applets/Tail.antt =====
-- pkg/applets/tail/tail.go.
pub mod Rotated
pub mod Store
pub mod Last
pub mod Counts
pub mod Run
use go_busybox.Prelude.{
  ◌>>=◌, ℕ, zero, suc, ◌+◌, ◌-◌, ◌%◌, ◌≡◌, refl, Bool, true, false, Option, none, some, List, [],
  ◌∷◌, Bytes, codes, ltb, leb, if◌then◌else◌, str_eq, length, get_elem?, set, drop, replicate,
}
use go_busybox.Core.{Reader, Stdio, Opened, opened, refused, errorf, print, println, spent}
use go_busybox.Core.Lines.{scan, print_lines}
use go_busybox.Core.Inputs.{World, file_message}
use go_busybox.Core.HeadTail.{run_head_tail}
use go_busybox.Go.Int.{ℤ, pos, negsuc}

abbrev pub tail : Bytes
tail = codes "tail"

-- The ring buffer, the place of the next line in it, and the number of lines read.
pub record Ring : Type 0 where
  pub ring : List Bytes
  pub idx : ℕ
  pub lines_read : ℕ

-- One line; a place that is not in the ring is a panic, `none`.
unfoldable pub store : ℕ → Bytes → Ring → Option Ring
store n line b =
    if ltb b.idx (length b.ring)
    then some (record {
      ring = set b.ring b.idx line;
      idx = (b.idx + 1) % n;
      lines_read = b.lines_read + 1;
    })
    else none

unfoldable pub store_all : ℕ → List Bytes → Ring → Option Ring
store_all n [] b = some b
store_all n (line ∷ lines) b = do b' ← store n line b; store_all n lines b'

-- The last loop: `total` places from `start`, of which `i` are done.
unfoldable pub collect : ℕ → List Bytes → ℕ → ℕ → ℕ → Option (List Bytes)
collect n ring start zero i = some []
collect n ring start (suc total) i = do
  line ← get_elem? ring ((start + i) % n)
  rest ← collect n ring start total (i + 1)
  some (line ∷ rest)

abbrev pub empty_ring : ℕ → Ring
empty_ring n = record { ring = replicate n []; idx = 0; lines_read = 0 }

unfoldable pub ring_lines : ℕ → Ring → Option (List Bytes)
ring_lines n b =
    if ltb b.lines_read n then collect n b.ring 0 b.lines_read 0 else collect n b.ring b.idx n 0

-- What `tailLines` makes of the lines of its scanner, when there is no error.
unfoldable pub last_lines : ℕ → List Bytes → Option (List Bytes)
last_lines n lines = do b ← store_all n lines (empty_ring n); ring_lines n b

abbrev pub print_some : Option (List Bytes) → Stdio → Option (Stdio × Bool)
print_some none s = none
print_some (some lines) s = some (print_lines lines s, true)

-- The rest of `tailLines` behind its scanner: nothing is printed after an error.
unfoldable pub tail_scanned : ℕ → List Bytes → Option Bytes → Stdio → Option (Stdio × Bool)
tail_scanned n lines none s = print_some (last_lines n lines) s
tail_scanned n lines (some message) s = do b ← store_all n lines (empty_ring n); some (s, false)

-- `tailLines`. A ring of negative length is a panic.
unfoldable pub tail_lines : ℤ → Reader → Stdio → Option (Stdio × Bool)
tail_lines (pos n) r s = tail_scanned n (scan r).0 (scan r).1 s
tail_lines (negsuc n) r s = none

-- `lineNum >= start`.
abbrev pub reached : ℤ → ℕ → Bool
reached (pos n) line_num = leb n line_num
reached (negsuc n) line_num = true

unfoldable pub from_loop : ℤ → List Bytes → ℕ → Stdio → Stdio
from_loop start [] line_num s = s
from_loop start (line ∷ lines) line_num s =
    from_loop start lines (line_num + 1) (if reached start line_num then println line s else s)

abbrev pub is_none : Option Bytes → Bool
is_none none = true
is_none (some message) = false

-- `tailLinesFrom`.
unfoldable pub tail_lines_from : ℤ → Reader → Stdio → Stdio × Bool
tail_lines_from start r s = (from_loop start (scan r).0 1 s, is_none (scan r).1)

-- The loop of `tailBytesFrom` over what each `Read` gives.
unfoldable pub chunks_loop : List Bytes → ℕ → ℕ → Stdio → Stdio
chunks_loop [] start here s = s
chunks_loop (buf ∷ chunks) start here s =
    let end_pos = here + length buf - 1 in
    if ltb 0 (length buf)
    then if leb start end_pos
      then chunks_loop chunks (end_pos + 1) (end_pos + 1)
          (print (drop (if ltb here start then start - here else 0) buf) s)
      else chunks_loop chunks start (end_pos + 1) s
    else chunks_loop chunks start here s

-- `tailBytesFrom`, for a reader that delivers its content in `chunks`.
unfoldable pub tail_bytes_from : ℕ → List Bytes → Option Bytes → Stdio → Stdio × Bool
tail_bytes_from start chunks failure s =
    (chunks_loop chunks (if ltb start 1 then 1 else start) 1 s, is_none failure)

-- `tailBytes`.
unfoldable pub tail_bytes : Bytes → ℕ → Reader → Stdio → Stdio × Bool
tail_bytes path n r s = elim r.failure [
  | none ↦ (
    print (drop (if ltb n (length r.content) then length r.content - n else 0) r.content) s,
    true,
  )
  | some message ↦ (errorf (file_message tail path message) s, false)
]

-- `tailFile` behind its reader; `reads` divides a content into what each `Read` gives.
unfoldable pub tail_reader :
    (Bytes → List Bytes) → Bytes → ℤ → ℤ → Bool → Reader → Stdio → Option (Stdio × Bool)
tail_reader reads path lines (pos n) from_start r s =
    if from_start
    then some (tail_bytes_from n (reads r.content) r.failure s)
    else some (tail_bytes path n r s)
tail_reader reads path lines (negsuc n) from_start r s =
    if from_start then some (tail_lines_from lines r s) else tail_lines lines r s

unfoldable pub tail_opened :
    (Bytes → List Bytes) → Bytes → ℤ → ℤ → Bool → Opened → Stdio → Option (Stdio × Bool)
tail_opened reads path lines bytes from_start (refused message) s =
    some (errorf (file_message tail path message) s, false)
tail_opened reads path lines bytes from_start (opened r) s =
    tail_reader reads path lines bytes from_start r s

-- What is left of the standard input: nothing behind a read of its bytes, and what the scanner
-- leaves behind its last `Scan`.
abbrev pub read_on : (ℕ → Reader → Reader) → ℤ → Stdio → Stdio
read_on left (pos n) s = record s { input = spent s.input }
read_on left (negsuc n) s = record s { input = left (length (scan s.input).0 + 1) s.input }

module _ (w : World) (reads : Bytes → List Bytes) where
  -- `tailFile`.
  unfoldable pub tail_file : Stdio → Bytes → ℤ → ℤ → Bool → Option (Stdio × Bool)
  tail_file s path lines bytes from_start =
      if str_eq path (codes "-")
      then (do
        r ← tail_reader reads path lines bytes from_start s.input s
        some (read_on w.left bytes r.0, r.1))
      else tail_opened reads path lines bytes from_start (w.open_file path) s

  -- `Run`; `none` is a panic.
  unfoldable pub run : List Bytes → Stdio → Option (Stdio × ℕ)
  run args s = run_head_tail tail tail_file args s

last_lines_runs :
    (last_lines 2 (codes "a" ∷ codes "b" ∷ codes "c" ∷ []) ≡ some (codes "b" ∷ codes "c" ∷ []))
    × (last_lines 3 (codes "a" ∷ codes "b" ∷ []) ≡ some (codes "a" ∷ codes "b" ∷ []))
    × (last_lines 0 (codes "a" ∷ []) ≡ none)
    × (last_lines 0 [] ≡ some [])
unfolding last_lines store_all store ring_lines collect
last_lines_runs = (refl, refl, refl, refl)
