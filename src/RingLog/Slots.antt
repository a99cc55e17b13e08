-- ===== src/RingLog/Slots.antt =====
-- ringlogger/ringlogger.go: where the lines that are written lie in the ring, and how they are read.
use amneziawg_windows_client.Common.{
  ℕ, arith, refl, ◌≤◌, ◌%◌, length, [], ◌≡◌, ◌-◌, false, ◌∷◌, ◌∙◌, ◌==◌, ◌<◌, List, ◌+◌, map, suc,
  all, true, &&_iff, Bool, ==_self, take, zero, ◌++◌, some, not, ap, if_cases, Option, ltb,
  length-take, length-append, if_both,
}
use amneziawg_windows_client.Common.Text.{Text, cut_byte}
use amneziawg_windows_client.RingLog.{
  LogMem, put_line, word, pad, max_length, line_text, LogLine, shown, shown_of,
}

-- How far a slot is behind an index, around the ring.
abbrev ahead : ℕ → ℕ → ℕ
ahead slot i = (slot + 2048 - i % 2048) % 2048

-- A trimmed text and its time.
abbrev pub put_lines : Text → List (Text × ℕ) → LogMem → LogMem
put_lines tag [] mem = mem
put_lines tag ((p, ts) ∷ ps) mem = put_lines tag ps (put_line tag p ts mem)

abbrev pub line_of : Text → Text × ℕ → LogLine
line_of tag (p, ts) = record { time_ns = ts; line = pad max_length (line_text tag p) }

lines-put_line :
    (tag p : Text) (ts : ℕ) (mem : LogMem) (slot : ℕ)
    → ((slot == mem.next_index % 2048) ≡ false
        → (put_line tag p ts mem).lines slot ≡ mem.lines slot)
      × ((put_line tag p ts mem).lines (mem.next_index % 2048) ≡ line_of tag (p, ts))
unfolding put_line
lines-put_line tag p ts mem slot =
    let self = ==_self (mem.next_index % 2048) in ((λ e. rw e refl), rw self refl)

put_lines-other :
    (tag : Text) (ps : List (Text × ℕ)) (mem : LogMem) (slot : ℕ)
    → slot < 2048
    → length ps ≤ ahead slot mem.next_index
    → (put_lines tag ps mem).lines slot ≡ mem.lines slot
unfolding put_line
put_lines-other tag [] mem slot h k = refl
put_lines-other tag ((p, ts) ∷ ps) mem slot h k =
    let mem' = put_line tag p ts mem in
    let nearer : length ps ≤ ahead slot mem'.next_index = omega arith in
    let other : (slot == mem.next_index % 2048) ≡ false = ground arith in
    put_lines-other tag ps mem' slot h nearer ∙ (lines-put_line tag p ts mem slot).0 other

-- From an index on, the slots hold these lines.
abbrev pub Holds : LogMem → ℕ → List LogLine → Type 0
Holds mem i [] = Unit
Holds mem i (l ∷ ls) = (mem.lines (i % 2048) ≡ l) × Holds mem ((i + 1) % word) ls

pub put_lines-Holds :
    (tag : Text) (ps : List (Text × ℕ)) (mem : LogMem)
    → length ps ≤ 2048
    → Holds (put_lines tag ps mem) mem.next_index (map (line_of tag) ps)
unfolding put_line
put_lines-Holds tag [] mem h = tt
put_lines-Holds tag ((p, ts) ∷ ps) mem h =
    let mem' = put_line tag p ts mem in
    let slot = mem.next_index % 2048 in
    let kept = put_lines-other tag ps mem' slot (omega arith) (omega arith) in
    (kept ∙ (lines-put_line tag p ts mem slot).1, put_lines-Holds tag ps mem' (omega arith))

-- No byte of the text is zero.
abbrev pub has_no_zero : Text → Bool
has_no_zero s = all (λ c. not (c == 0)) s

cut_byte-pad :
    (n : ℕ) (s : Text)
    → length s < n
    → has_no_zero s ≡ true
    → (zeros : Text) × (cut_byte 0 (pad n s) ≡ (s, some zeros))
unfolding cut_byte pad
cut_byte-pad zero s h z = absurd (ground arith)
cut_byte-pad (suc n) [] h z = (pad n [], refl)
cut_byte-pad (suc n) (c ∷ s) h z =
    let (zeros, e) =
      cut_byte-pad n s (omega arith) ((&&_iff (not (c == 0)) (has_no_zero s)).0 z).1 in
    let other : (c == 0) ≡ false = ground (arith, z) in
    (zeros, rw other (ap (λ (r : Text × Option Text). (c ∷ r.0, r.1)) e))

take-has_no_zero : (n : ℕ) (s : Text) → has_no_zero s ≡ true → has_no_zero (take n s) ≡ true
take-has_no_zero zero s h = refl
take-has_no_zero (suc n) [] h = refl
take-has_no_zero (suc n) (c ∷ s) h = let later = take-has_no_zero n s in ground (arith, later)

append-has_no_zero :
    (s t : Text) → has_no_zero s ≡ true → has_no_zero t ≡ true → has_no_zero (s ++ t) ≡ true
append-has_no_zero [] t h k = k
append-has_no_zero (c ∷ s) t h k = let later = append-has_no_zero s t in ground (arith, later)

line_text-short : (tag p : Text) → length tag ≤ 5 → length (line_text tag p) < 512
unfolding line_text
line_text-short tag p small =
    let joined = length-append tag in
    let taken = length-take (508 - length tag) p in
    if_cases (λ cut. length (b'[' ∷ (tag ++ b']' ∷ b' ' ∷ cut)) < 512)
      (ltb 511 (3 + length p + length tag))
      (λ e. let sum = joined (b']' ∷ b' ' ∷ take (508 - length tag) p) in omega arith)
      (λ e. let sum = joined (b']' ∷ b' ' ∷ p) in ground arith)

line_text-has_no_zero :
    (tag p : Text)
    → has_no_zero tag ≡ true
    → has_no_zero p ≡ true
    → has_no_zero (line_text tag p) ≡ true
unfolding line_text
line_text-has_no_zero tag p z zp = append-has_no_zero tag _ z (
    if_both (λ cut. has_no_zero cut ≡ true) (ltb 511 (3 + length p + length tag))
      (take-has_no_zero (508 - length tag) p zp) zp)

-- A line is read as it was written.
pub shown-line_of :
    (tag p : Text) (ts : ℕ)
    → length tag ≤ 5
    → has_no_zero tag ≡ true
    → has_no_zero p ≡ true
    → shown (line_of tag (p, ts)).line ≡ some (line_text tag p)
unfolding shown line_text
shown-line_of tag p ts small z zp =
    let (zeros, e) =
      cut_byte-pad 512 (line_text tag p) (line_text-short tag p small)
        (line_text-has_no_zero tag p z zp) in
    ap shown_of e
