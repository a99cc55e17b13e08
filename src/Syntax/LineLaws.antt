-- ===== src/Syntax/LineLaws.antt =====
-- ui/syntax/highlighter.go: what holds while a configuration is read, and at the end of a line.
use amneziawg_windows_client.Common.{
  ℕ, ◌⊎◌, ◌≤◌, Option, ◌+◌, ◌≡◌, arith, ◌<◌, some, none, inl, ◌==◌, inr, Bool-cases,
}
use amneziawg_windows_client.Common.Text.{Text}
use amneziawg_windows_client.Syntax.{StringSpan}
use amneziawg_windows_client.Syntax.Config.{
  on_section, on_comment, on_none, finish, State, Scanner, on_key, on_value, trimmed, with_ret,
}
use amneziawg_windows_client.Syntax.Highlight.{Highlight, append, highlight_value, Spans}
use amneziawg_windows_client.Syntax.ValueLaws.{
  append-IsBelow, IsBelow-le, IsBelow, append-ne-nil, highlight_value-IsBelow, IsSomeBelow,
}

-- What each state knows of the span that is being read, and of the spans before it.
abbrev pub StateInv : Scanner → State → Type 0
StateInv m on_none = IsBelow m.current_span.s m.ret × (m.current_span.len ≡ 0)
StateInv m on_comment = IsBelow m.current_span.s m.ret
StateInv m on_key =
    IsBelow m.current_span.s m.ret
    × (0 < m.current_span.len)
    × (m.len_at_last_space ≤ m.current_span.len)
StateInv m on_section =
    IsBelow m.current_span.s m.ret
    × (0 < m.current_span.len)
    × (m.len_at_last_space ≤ m.current_span.len)
StateInv m on_value =
    IsBelow m.equals_location m.ret
    × (m.equals_location < m.current_span.s)
    × ((m.current_span.len ≡ 0) ⊎ (m.len_at_last_space ≤ m.current_span.len))

-- The span being read ends at the index.
abbrev pub Inv : ℕ → Scanner → Type 0
Inv i m = (m.current_span.s + m.current_span.len ≡ i) × StateInv m m.state

abbrev pub OptInv : ℕ → Option Scanner → Type 0
OptInv i none = ⊥
OptInv i (some m) = Inv i m

-- A result that is no panic, with its spans in front of `i`.
abbrev pub Finished : ℕ → Option Scanner → Type 0
Finished i none = ⊥
Finished i (some m) = IsBelow i m.ret

with_ret-Finished :
    (i : ℕ) (m : Scanner) {n : ℕ} (r : Option Spans)
    → n ≤ i
    → IsSomeBelow n r
    → Finished i (with_ret m r)
with_ret-Finished i m none h k = k
with_ret-Finished i m (some r) h k = IsBelow-le r h k

module _ (b : Text) where
  -- A value with at least a byte, and the `=` in front of it.
  finish_value :
      (i : ℕ) (m : Scanner)
      → m.current_span.s + m.current_span.len ≡ i
      → StateInv m on_value
      → 0 < m.current_span.len
      → Finished i (
          with_ret m (
            highlight_value b
              (trimmed b m)
              m.current_field
              (append (record { s = m.equals_location; len = 1 }) Highlight.delimiter m.ret)))
  finish_value i m e v h =
      let mark : StringSpan = record { s = m.equals_location; len = 1 } in
      let marked = append mark Highlight.delimiter m.ret in
      let before =
        append-IsBelow m.current_span.s mark Highlight.delimiter m.ret (omega arith) v.0 in
      let value =
        highlight_value-IsBelow b (trimmed b m) m.current_field marked
          (append-ne-nil mark Highlight.delimiter m.ret (omega arith)) before in
      let end : m.current_span.s + m.len_at_last_space ≤ i = omega arith in
      with_ret-Finished i m (highlight_value b (trimmed b m) m.current_field marked) end value

  pub finish-Finished :
      (i : ℕ) (s : State) (m : Scanner)
      → m.current_span.s + m.current_span.len ≡ i
      → StateInv m s
      → Finished i (finish b s m)
  unfolding finish
  finish-Finished i on_none m e v = IsBelow-le m.ret (omega arith) v.0
  finish-Finished i on_key m e v =
      append-IsBelow i (trimmed b m) Highlight.error m.ret (omega arith) v.0
  finish-Finished i on_section m e v = append-IsBelow i (trimmed b m) _ m.ret (omega arith) v.0
  finish-Finished i on_comment m e v =
      append-IsBelow i m.current_span Highlight.comment m.ret (omega arith) v
  finish-Finished i on_value m e v = elim (Bool-cases (m.current_span.len == 0)) [
    | inl none_read ↦ rw none_read (
        append-IsBelow i (record { s = m.equals_location; len = 1 }) Highlight.error m.ret
          (omega arith) v.0)
    | inr some_read ↦ rw some_read (finish_value i m e v (ground arith))
  ]
