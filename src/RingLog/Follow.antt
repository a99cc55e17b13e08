-- ===== src/RingLog/Follow.antt =====
-- ringlogger/ringlogger.go: what a reader that follows the log sees.
use amneziawg_windows_client.Common.{
  ℕ, arith, refl, ◌≤◌, ◌%◌, length, [], ◌≡◌, false, ◌∷◌, ◌∙◌, ◌==◌, ◌<◌, List, ◌+◌, map, suc, true,
  zero, some, ap, Option, All, sym, is_nil,
}
use amneziawg_windows_client.Common.Text.{Text, trim_space}
use amneziawg_windows_client.RingLog.{
  LogMem, put_line, word, line_text, LogLine, follow_loop, FollowLine, add_text, RingLogger,
  follow_from_cursor, cursor_all, follow_within, max_lines, write_with_timestamp,
}
use amneziawg_windows_client.RingLog.Slots.{
  put_lines, line_of, put_lines-Holds, Holds, shown-line_of, has_no_zero,
}
use mathlib.Core.Path.{subst}

-- What a reader gets of a text and its time.
abbrev pub follow_line : Text → Text × ℕ → FollowLine
follow_line tag (p, ts) = record { line = line_text tag p; stamp = ts }

-- The entries have a time, and texts without a zero.
abbrev pub IsEntry : Text × ℕ → Type 0
IsEntry (p, ts) = (0 < ts) × (has_no_zero p ≡ true)

follow_loop-Holds :
    (tag : Text) (ps : List (Text × ℕ)) (fuel : ℕ) (mem : LogMem) (i next : ℕ)
    → length tag ≤ 5
    → has_no_zero tag ≡ true
    → All IsEntry ps
    → length ps ≤ fuel
    → length ps < 2048
    → Holds mem i (map (line_of tag) ps)
    → (mem.next_index % 2048 ≡ (i + length ps) % 2048)
    → next ≡ i % 2048
    → follow_loop fuel false mem i next ≡ (map (follow_line tag) ps, (i + length ps) % 2048)
unfolding follow_loop
follow_loop-Holds tag [] zero mem i next t z es f l holds end start =
    ap (λ c. ([], c)) (omega arith)
follow_loop-Holds tag [] (suc fuel) mem i next t z es f l holds end start =
    let same : (i % 2048 == mem.next_index % 2048) ≡ true = ground arith in
    rw same (ap (λ c. ([], c)) (omega arith))
follow_loop-Holds tag (p ∷ ps) zero mem i next t z es f l holds end start = absurd (ground arith)
follow_loop-Holds tag ((p, ts) ∷ ps) (suc fuel) mem i next t z es f l holds end start =
    let i' = (i + 1) % word in
    let later =
      follow_loop-Holds tag ps fuel mem i' (i' % 2048) t z es.1 (omega arith) (omega arith) holds.1
        (omega arith) refl in
    let on : (i % 2048 == mem.next_index % 2048) ≡ false = ground arith in
    let timed : (ts == 0) ≡ false = let e = es.0.0 in ground arith in
    let text = shown-line_of tag p ts t z es.0.1 in
    let last : (i' + length ps) % 2048 ≡ (i + suc (length ps)) % 2048 = omega arith in
    let step : Option Text → List FollowLine × ℕ =
      λ found. add_text found ts (map (follow_line tag) ps, (i + suc (length ps)) % 2048) in
    rw on rw holds.0 rw timed rw later rw last (ap step text)

Holds-mod :
    (mem : LogMem) (i j : ℕ) (ls : List LogLine)
    → i % 2048 ≡ j % 2048
    → Holds mem i ls
    → Holds mem j ls
Holds-mod mem i j [] e h = tt
Holds-mod mem i j (l ∷ ls) e h = (
  subst (λ slot. mem.lines slot ≡ l) e h.0,
  Holds-mod mem ((i + 1) % word) ((j + 1) % word) ls (omega arith) h.1,
)

next_index-put_lines :
    (tag : Text) (ps : List (Text × ℕ)) (mem : LogMem)
    → (put_lines tag ps mem).next_index % 2048 ≡ (mem.next_index + length ps) % 2048
unfolding put_line
next_index-put_lines tag [] mem = ap (λ n. n % 2048) (omega arith)
next_index-put_lines tag ((p, ts) ∷ ps) mem =
    let later = next_index-put_lines tag ps (put_line tag p ts mem) in omega arith

follow_within-put_lines :
    (turns : ℕ) (tag : Text) (ps : List (Text × ℕ)) (mem : LogMem)
    → length tag ≤ 5
    → has_no_zero tag ≡ true
    → All IsEntry ps
    → length ps ≤ turns
    → length ps < 2048
    → follow_within turns (mem.next_index % 2048) (put_lines tag ps mem)
      ≡ (map (follow_line tag) ps, (put_lines tag ps mem).next_index % 2048)
unfolding follow_within
follow_within-put_lines turns tag ps mem t z es f l =
    let i = mem.next_index % 2048 in
    let mem' = put_lines tag ps mem in
    let known : (i == cursor_all) ≡ false = ground arith in
    let ended : mem'.next_index % 2048 ≡ (i + length ps) % 2048 =
      let e = next_index-put_lines tag ps mem in omega arith in
    let holds =
      Holds-mod mem' mem.next_index i (map (line_of tag) ps) (omega arith)
        (put_lines-Holds tag ps mem (omega arith)) in
    let read = follow_loop-Holds tag ps turns mem' i i t z es f l holds ended (omega arith) in
    rw known (read ∙ ap (λ n. (map (follow_line tag) ps, n)) (sym ended))

-- The ring of a writer.
abbrev pub writer : Text → LogMem → RingLogger
writer tag mem = record { tag = tag; log = some mem; read_only = false }

-- WriteWithTimestamp for one text after the other.
unfoldable pub write_all : List (Text × ℕ) → RingLogger → RingLogger
write_all [] rl = rl
write_all ((p, ts) ∷ ps) rl = write_all ps (write_with_timestamp p ts rl).0

abbrev pub trimmed : Text × ℕ → Text × ℕ
trimmed (p, ts) = (trim_space p, ts)

-- A text that is not blank and has no zero byte, and a time.
abbrev pub IsWritten : Text × ℕ → Type 0
IsWritten (p, ts) = (is_nil (trim_space p) ≡ false) × (0 < ts) × (has_no_zero (trim_space p) ≡ true)

write_all-put_lines :
    (tag : Text) (ps : List (Text × ℕ)) (mem : LogMem)
    → All IsWritten ps
    → (write_all ps (writer tag mem) ≡ writer tag (put_lines tag (map trimmed ps) mem))
      × All IsEntry (map trimmed ps)
      × (length (map trimmed ps) ≡ length ps)
unfolding write_all write_with_timestamp
write_all-put_lines tag [] mem h = (refl, tt, refl)
write_all-put_lines tag ((p, ts) ∷ ps) mem h =
    let p' = trim_space p in
    let later = write_all-put_lines tag ps (put_line tag p' ts mem) h.1 in
    let now = h.0.0 in (rw now later.0, ((h.0.1, h.0.2), later.1), ap (λ n. suc n) later.2)

-- A reader that has read everything, and then sees fewer texts written than the ring has lines, all
-- of them with something to show, gets exactly their lines and their times, in their order, trimmed
-- and cut where they are too long; its next cursor is behind them.
pub follow_from_cursor-write_all :
    (tag : Text) (ps : List (Text × ℕ)) (mem : LogMem)
    → length tag ≤ 5
    → has_no_zero tag ≡ true
    → All IsWritten ps
    → length ps < 2048
    → follow_from_cursor (mem.next_index % 2048) (write_all ps (writer tag mem))
      ≡ (map (follow_line tag) (map trimmed ps), (mem.next_index + length ps) % 2048)
unfolding follow_from_cursor
follow_from_cursor-write_all tag ps mem t z es l =
    let ps' = map trimmed ps in
    let (written, entries, same) = write_all-put_lines tag ps mem es in
    let next : (put_lines tag ps' mem).next_index % 2048 ≡ (mem.next_index + length ps) % 2048 =
      next_index-put_lines tag ps' mem ∙ ap (λ n. (mem.next_index + n) % 2048) same in
    ap (follow_from_cursor (mem.next_index % 2048)) written
    ∙ follow_within-put_lines max_lines tag ps' mem t z entries (omega arith) (omega arith)
    ∙ ap (λ n. (map (follow_line tag) ps', n)) next
