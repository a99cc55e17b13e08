-- ===== src/RingLog.antt =====
-- ringlogger/ringlogger.go: the ring of log lines in shared memory, its writer and its readers.
--
-- The ring's 2048 lines are a function of the slot. Times are nanoseconds, 0 for an empty line. A
-- write is one step here: the races that the source's comments name are not modelled.
pub mod Slots
pub mod Follow
use amneziawg_windows_client.Common.{
  ℕ, ◌-◌, ◌==◌, Bool, length, ◌&&◌, is_nil, ltb, some, ◌++◌, [], ◌∷◌, List, not, ◌+◌, suc, Option,
  take, zero, if◌then◌else◌, none, ◌%◌,
}
use amneziawg_windows_client.Common.Text.{Text, trim_space, cut_byte}

abbrev pub max_lines : ℕ
max_lines = 2048

-- maxLogLineLength
abbrev pub max_length : ℕ
max_length = 512

-- The numbers of uint32.
abbrev pub word : ℕ
word = 4294967296

-- logLine; `line` has `max_length` bytes.
pub record LogLine : Type 0 where
  pub time_ns : ℕ
  pub line : Text

-- logMem without the magic number.
pub record LogMem : Type 0 where
  pub next_index : ℕ
  pub lines : ℕ → LogLine

-- Ringlogger; `log` is nil after Close.
pub record RingLogger : Type 0 where
  pub tag : Text
  pub log : Option LogMem
  pub read_only : Bool

pub data WriteError : Type 0 where
  short_write eof : WriteError

-- The bytes, and zeros up to the length.
unfoldable pub pad : ℕ → Text → Text
pad zero s = []
pad (suc n) [] = 0 ∷ pad n []
pad (suc n) (c ∷ s) = c ∷ pad n s

-- The bytes of a line before its zeros, at a trimmed text: the tag in brackets, and as much of the
-- text as leaves room for a zero.
unfoldable pub line_text : Text → Text → Text
line_text tag p =
    let cut =
      if ltb (max_length - 1) (3 + length p + length tag)
      then take (max_length - 1 - 3 - length tag) p
      else p in
    b'[' ∷ (tag ++ b']' ∷ b' ' ∷ cut)

-- The line that is written to the slot of the next index.
unfoldable pub put_line : Text → Text → ℕ → LogMem → LogMem
unfolding pad line_text
put_line tag p ts mem = record {
  next_index = (mem.next_index + 1) % word;
  lines = λ slot.
      if slot == mem.next_index % max_lines
      then record { time_ns = ts; line = pad max_length (line_text tag p) }
      else mem.lines slot;
}

-- WriteWithTimestamp
unfoldable pub write_with_timestamp : Text → ℕ → RingLogger → RingLogger × ℕ × Option WriteError
unfolding put_line
write_with_timestamp p ts rl =
    if rl.read_only
    then (rl, 0, some short_write)
    else let p' = trim_space p in
      if is_nil p' then (rl, length p, none) else elim rl.log [
        | none ↦ (rl, 0, some eof)
        | some mem ↦ (record rl { log = some (put_line rl.tag p' ts mem) }, length p, none)
      ]

abbrev pub shown_of : Text × Option Text → Option Text
shown_of (text, none) = none
shown_of (text, some zeros) = if is_nil text then none else some text

-- `bytes.IndexByte(line, 0)` is positive: the bytes before the first zero.
unfoldable pub shown : Text → Option Text
unfolding cut_byte
shown line = shown_of (cut_byte 0 line)

-- FollowLine
pub record FollowLine : Type 0 where
  pub line : Text
  pub stamp : ℕ

abbrev pub cursor_all : ℕ
cursor_all = 4294967295

abbrev pub add_text : Option Text → ℕ → List FollowLine × ℕ → List FollowLine × ℕ
add_text none stamp later = later
add_text (some text) stamp (found, next) = (record { line = text; stamp = stamp } ∷ found, next)

-- The loop of FollowFromCursor, with the turns that are left, the index and the next cursor.
unfoldable pub follow_loop : ℕ → Bool → LogMem → ℕ → ℕ → List FollowLine × ℕ
unfolding shown
follow_loop zero from_start mem i next = ([], next)
follow_loop (suc n) from_start mem i next =
    let l = mem.lines (i % max_lines) in
    let i' = (i + 1) % word in
    let next' = if l.time_ns == 0 then next else i' % max_lines in
    let later = follow_loop n from_start mem i' next' in
    if not from_start && i % max_lines == mem.next_index % max_lines
    then ([], next)
    else if l.time_ns == 0
    then (if from_start then later else ([], next))
    else add_text (shown l.line) l.time_ns later

-- FollowFromCursor at a log, with the number of turns.
unfoldable pub follow_within : ℕ → ℕ → LogMem → List FollowLine × ℕ
unfolding follow_loop
follow_within turns cursor mem =
    follow_loop turns (cursor == cursor_all) mem
      (if cursor == cursor_all then mem.next_index else cursor) cursor

-- FollowFromCursor
unfoldable pub follow_from_cursor : ℕ → RingLogger → List FollowLine × ℕ
unfolding follow_within
follow_from_cursor cursor rl = elim rl.log [
  | none ↦ ([], cursor)
  | some mem ↦ follow_within max_lines cursor mem
]

-- The loop of WriteTo, with the turns that are left: the times and the texts that are printed.
unfoldable pub write_loop : ℕ → LogMem → ℕ → List FollowLine
unfolding shown
write_loop zero mem i = []
write_loop (suc n) mem i =
    let later = write_loop n mem (i + 1) in
    let l = mem.lines (i % word % max_lines) in
    if l.time_ns == 0 then later else elim (shown l.line) [
      | none ↦ later
      | some text ↦ record { line = text; stamp = l.time_ns } ∷ later
    ]

-- WriteTo, to a writer that takes everything; none is the error io.EOF.
unfoldable pub write_to : RingLogger → Option (List FollowLine)
unfolding write_loop
write_to rl = elim rl.log [
  | none ↦ none
  | some mem ↦ some (write_loop max_lines mem mem.next_index)
]

unfoldable pub close : RingLogger → RingLogger
close rl = record rl { log = none }
