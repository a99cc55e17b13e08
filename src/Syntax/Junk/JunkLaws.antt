-- ===== src/Syntax/Junk/JunkLaws.antt =====
-- ui/syntax/highlighter.go: both passes over a text.
use amneziawg_windows_client.Common.{
  Option, none, some, [], ◌∷◌, refl, ◌≡◌, ◌≤◌, ◌+◌, ℕ, length, leb, true, arith, take, All, if_both,
  drop, map,
}
use amneziawg_windows_client.Common.Text.{Text}
use amneziawg_windows_client.Syntax.Config.{highlight_config}
use amneziawg_windows_client.Syntax.Highlight.{HighlightSpan, Spans}
use amneziawg_windows_client.Syntax.Junk.{
  Junk, out_of_range, gather, returned, highlight_asec_config, gathered, is_warned, number,
  warn_all, panicked, is_number, number_of, set_number, no_number, warn, atoi, is_error,
  read_number, Gathered,
}
use amneziawg_windows_client.Syntax.SpanOrder.{IsAscending, highlight_config-IsAscending}

-- The span lies within the first `n` bytes.
abbrev pub IsWithin : ℕ → HighlightSpan → Type 0
IsWithin n x = x.s + x.len ≤ n

IsAscending-le : (lo hi : ℕ) (spans : Spans) → IsAscending lo hi spans → lo ≤ hi
IsAscending-le lo hi [] a = a
IsAscending-le lo hi (x ∷ spans) a =
    let later = IsAscending-le (x.s + x.len) hi spans a.2 in omega arith

IsAscending-IsWithin :
    (lo hi : ℕ) (spans : Spans) → IsAscending lo hi spans → All (IsWithin hi) spans
IsAscending-IsWithin lo hi [] a = tt
IsAscending-IsWithin lo hi (x ∷ spans) a =
    (IsAscending-le (x.s + x.len) hi spans a.2, IsAscending-IsWithin (x.s + x.len) hi spans a.2)

warn_same_place : (j : Junk) (x : HighlightSpan) → ((warn j x).s ≡ x.s) × ((warn j x).len ≡ x.len)
unfolding warn
warn_same_place j x =
    if_both (λ (y : HighlightSpan). (y.s ≡ x.s) × (y.len ≡ x.len)) (is_warned j x.t) (refl, refl)
      (refl, refl)

IsAscending-warn :
    (j : Junk) (lo hi : ℕ) (spans : Spans)
    → IsAscending lo hi spans
    → IsAscending lo hi (map (warn j) spans)
IsAscending-warn j lo hi [] a = a
IsAscending-warn j lo hi (x ∷ spans) a =
    let same = warn_same_place j x in
    rw (same.0, same.1) (a.0, a.1, IsAscending-warn j (x.s + x.len) hi spans a.2)

-- The first loop does not panic.
abbrev pub NoPanic : Gathered → Type 0
NoPanic panicked = ⊥
NoPanic _ = Unit

module _ (cfg : Text) where
  gather-NoPanic :
      (spans : Spans) (j : Junk) → All (IsWithin (length cfg)) spans → NoPanic (gather cfg spans j)
  unfolding gather read_number
  gather-NoPanic [] j h = tt
  gather-NoPanic (x ∷ spans) j h =
      let skipped = gather-NoPanic spans j h.1 in
      let in_range : leb (x.s + x.len) (length cfg) ≡ true = ground (arith, h.0) in
      if_both NoPanic (is_error x.t) tt (
        if_both NoPanic (is_number x.t)
          (rw in_range (
            by_number (atoi (take x.len (drop x.s cfg)))
              (λ n. gather-NoPanic spans (set_number x.t n j) h.1)))
          skipped)
    where
      by_number :
          (o : Option ℕ)
          → ((n : ℕ) → NoPanic (gather cfg spans (set_number x.t n j)))
          → NoPanic (elim (number_of o) [
            | out_of_range ↦ panicked
            | no_number ↦ returned
            | number n ↦ gather cfg spans (set_number x.t n j)
          ])
      by_number none k = tt
      by_number (some n) k = k n

  warn_all-IsAscending :
      (default_mtu hi : ℕ) (spans : Spans) (g : Gathered)
      → NoPanic g
      → IsAscending 0 hi spans
      → (spans' : Spans) × (warn_all default_mtu spans g ≡ some spans') × IsAscending 0 hi spans'
  warn_all-IsAscending default_mtu hi spans panicked n a = absurd n
  warn_all-IsAscending default_mtu hi spans returned n a = (spans, refl, a)
  warn_all-IsAscending default_mtu hi spans (gathered j) n a =
      (_, refl, IsAscending-warn _ 0 hi spans a)

  -- Both passes over a text return, without a panic, spans that lie within the text, hold at least a
  -- byte each, and come in order without overlap.
  pub highlight_asec_config-IsAscending :
      (default_mtu : ℕ)
      → (first : Spans) × (highlight_config cfg ≡ some first)
        × ((second : Spans) × (highlight_asec_config default_mtu cfg first ≡ some second)
            × IsAscending 0 (length cfg) second)
  unfolding highlight_asec_config
  highlight_asec_config-IsAscending default_mtu =
      let (first, e, a) = highlight_config-IsAscending cfg in
      (
        first,
        e,
        warn_all-IsAscending default_mtu (length cfg) first _
            (gather-NoPanic first _ (IsAscending-IsWithin 0 (length cfg) first a)) a,
      )
