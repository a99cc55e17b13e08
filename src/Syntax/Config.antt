-- ===== src/Syntax/Config.antt =====
-- ui/syntax/highlighter.go: highlightConfig, the state machine over the bytes of a configuration.
use amneziawg_windows_client.Common.{
  ◌&&◌, ◌==◌, ◌∷◌, ◌||◌, not, Bool, false, reverse, Option, if◌then◌else◌, true, some, [], ◌+◌, ℕ,
  none,
}
use amneziawg_windows_client.Common.Text.{Text}
use amneziawg_windows_client.Syntax.{StringSpan}
use amneziawg_windows_client.Syntax.Field.{
  Field, invalid, field_of, section_type, section_for_field, ◌=ᶠ◌,
}
use amneziawg_windows_client.Syntax.Highlight.{
  Spans, append, validate_highlight, highlight_value, Highlight,
}

pub data State : Type 0 where
  on_none on_key on_value on_comment on_section : State

-- The variables of the loop.
pub record Scanner : Type 0 where
  pub ret : Spans
  pub current_span : StringSpan
  pub current_section : Field
  pub current_field : Field
  pub state : State
  pub len_at_last_space : ℕ
  pub equals_location : ℕ

abbrev pub initial : Scanner
initial = record {
  ret = [];
  current_span = record { s = 0; len = 0 };
  current_section = invalid;
  current_field = invalid;
  state = on_none;
  len_at_last_space = 0;
  equals_location = 0;
}

abbrev pub is_on_comment : State → Bool
is_on_comment on_comment = true
is_on_comment _ = false

abbrev pub is_on_key : State → Bool
is_on_key on_key = true
is_on_key _ = false

-- The scanner behind a call that adds spans and may panic.
abbrev pub with_ret : Scanner → Option Spans → Option Scanner
with_ret m none = none
with_ret m (some ret') = some (record m { ret = ret' })

module _ (b : Text) where
  -- The current span cut behind its last byte that is no blank.
  abbrev pub trimmed : Scanner → StringSpan
  trimmed m = record { s = m.current_span.s; len = m.len_at_last_space }

  -- What the end of a line, or of the text, or a comment's start makes of the span that is read.
  unfoldable pub finish : State → Scanner → Option Scanner
  finish on_key m = some (record m { ret = append (trimmed m) Highlight.error m.ret })
  finish on_value m =
      let equals : StringSpan = record { s = m.equals_location; len = 1 } in
      if not (m.current_span.len == 0)
      then with_ret m
          (highlight_value b (trimmed m) m.current_field (append equals Highlight.delimiter m.ret))
      else some (record m { ret = append equals Highlight.error m.ret })
  finish on_section m =
      let section = section_type b (trimmed m) in
      some (record m {
        current_section = section;
        ret =
            append (trimmed m) (validate_highlight (not (section =ᶠ invalid)) Highlight.section)
              m.ret;
      })
  finish on_comment m = some (record m { ret = append m.current_span Highlight.comment m.ret })
  finish on_none m = some m

  -- The line's end at index `i`, or the start of a comment there.
  unfoldable pub next_line : ℕ → ℕ → Scanner → Scanner
  next_line i c m =
      if c == b'#'
      then record m {
        len_at_last_space = 0;
        current_field = invalid;
        current_span = record { s = i; len = 1 };
        state = on_comment;
      }
      else record m {
        len_at_last_space = 0;
        current_field = invalid;
        current_span = record { s = i + 1; len = 0 };
        state = on_none;
      }

  -- The state of a byte that is part of a key, a value or a section's name.
  unfoldable pub enter : State → ℕ → State
  enter on_none c = if c == b'[' then on_section else on_key
  enter s c = s

  -- A blank: skipped in front of the span, else counted.
  unfoldable pub blank : ℕ → Scanner → Scanner
  blank i m =
      if i == m.current_span.s && m.current_span.len == 0
      then record m { current_span = record { s = m.current_span.s + 1; len = m.current_span.len } }
      else record m { current_span = record { s = m.current_span.s; len = m.current_span.len + 1 } }

  -- The `=` behind a key.
  unfoldable pub equals : ℕ → Scanner → Scanner
  equals i m =
      let key = trimmed m in
      let found = field_of b key in
      let section = section_for_field found in
      record m {
        current_field = found;
        ret =
            if section =ᶠ invalid || found =ᶠ invalid || not (section =ᶠ m.current_section)
            then append key Highlight.error m.ret
            else append key Highlight.field m.ret;
        equals_location = i;
        current_span = record { s = i + 1; len = 0 };
        state = on_value;
      }

  -- The loop's body at index `i`, where the byte is `c` and the text has not ended.
  unfoldable pub step : ℕ → ℕ → Scanner → Option Scanner
  step i c m =
      let sp = m.current_span in
      if c == b'\n' || (not (is_on_comment m.state) && c == b'#')
      then elim (finish m.state m) [ none ↦ none | some m' ↦ some (next_line i c m') ]
      else if is_on_comment m.state
      then some (record m { current_span = record { s = sp.s; len = sp.len + 1 } })
      else if c == b' ' || c == b'\t'
      then some (blank i m)
      else if c == b'=' && is_on_key m.state
      then some (equals i m)
      else some (record m {
        state = enter m.state c;
        current_span = record { s = sp.s; len = sp.len + 1 };
        len_at_last_space = sp.len + 1;
      })

  -- The rounds from index `i` on, over the rest of the text.
  unfoldable pub scan : ℕ → Text → Scanner → Option Scanner
  scan i [] m = finish m.state m
  scan i (c ∷ rest) m = elim (step i c m) [ none ↦ none | some m' ↦ scan (i + 1) rest m' ]

-- `none` stands for a panic.
unfoldable pub highlight_config : Text → Option Spans
highlight_config config = elim (scan config 0 config initial) [
  | none ↦ none
  | some m ↦ some (reverse m.ret)
]
