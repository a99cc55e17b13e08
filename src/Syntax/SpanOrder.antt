-- ===== src/Syntax/SpanOrder.antt =====
-- ui/syntax/highlighter.go: the list that highlightConfig returns, in the order of the text.
use amneziawg_windows_client.Common.{
  ◌+◌, length, [], ◌∷◌, ℕ, ◌++◌, arith, ◌<◌, ◌≡◌, some, ◌≤◌, refl, reverse, none, Option,
}
use amneziawg_windows_client.Common.Text.{Text}
use amneziawg_windows_client.Syntax.Config.{initial, scan, highlight_config, Scanner}
use amneziawg_windows_client.Syntax.ConfigLaws.{scan-Finished}
use amneziawg_windows_client.Syntax.Highlight.{HighlightSpan, Spans}
use amneziawg_windows_client.Syntax.LineLaws.{Finished}
use amneziawg_windows_client.Syntax.ValueLaws.{IsBelow}
use mathlib.Core.List.{reverse-append}

-- From `lo` to `hi`, each span holds at least a byte and ends where or before the next begins.
abbrev pub IsAscending : ℕ → ℕ → Spans → Type 0
IsAscending lo hi [] = lo ≤ hi
IsAscending lo hi (x ∷ rest) = (lo ≤ x.s) × (0 < x.len) × IsAscending (x.s + x.len) hi rest

IsAscending-concat :
    (lo mid hi : ℕ) (hsa : Spans) (x : HighlightSpan)
    → IsAscending lo mid hsa
    → mid ≤ x.s
    → 0 < x.len
    → x.s + x.len ≤ hi
    → IsAscending lo hi (hsa ++ x ∷ [])
IsAscending-concat lo mid hi [] x a h p e = (omega arith, p, e)
IsAscending-concat lo mid hi (y ∷ hsa) x a h p e =
    (a.0, a.1, IsAscending-concat (y.s + y.len) mid hi hsa x a.2 h p e)

reverse-IsAscending : (n : ℕ) (hsa : Spans) → IsBelow n hsa → IsAscending 0 n (reverse hsa)
reverse-IsAscending n [] k = omega arith
reverse-IsAscending n (x ∷ hsa) k = rw (reverse-append (x ∷ []) hsa) (
    IsAscending-concat 0 x.s n (reverse hsa) x (reverse-IsAscending x.s hsa k.2) (omega arith) k.0
      k.1)

module _ (config : Text) where
  spans_of_scan :
      (r : Option Scanner)
      → Finished (length config) r
      → (spans : Spans) × ((elim r [ none ↦ none | some m ↦ some (reverse m.ret) ]) ≡ some spans)
        × IsAscending 0 (length config) spans
  spans_of_scan none h = absurd h
  spans_of_scan (some m) h = (reverse m.ret, refl, reverse-IsAscending (length config) m.ret h)

  -- highlightConfig returns for every text, without a panic, spans that lie within the text, hold
  -- at least a byte each, and come in order without overlap.
  pub highlight_config-IsAscending :
      (spans : Spans) × (highlight_config config ≡ some spans) × IsAscending 0 (length config) spans
  unfolding highlight_config
  highlight_config-IsAscending =
      spans_of_scan (scan config 0 config initial)
        (scan-Finished config 0 (length config) config initial (omega arith) (omega arith))
