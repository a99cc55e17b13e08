-- ===== src/Syntax/Junk.antt =====
-- ui/syntax/highlighter.go: the second pass over the spans, which marks numbers that do not fit
-- together. A slice out of the text's range would panic.
pub mod JunkLaws
use amneziawg_windows_client.Common.{
  Option, none, some, [], ◌∷◌, true, false, not, if◌then◌else◌, ◌+◌, ◌*◌, ◌-◌, ◌||◌, ◌&&◌, leb, ltb,
  ◌==◌, ℕ, is_nil, length, take, drop, Bool, List, map,
}
use amneziawg_windows_client.Common.Text.{Text}
use amneziawg_windows_client.Syntax.{is_decimal}
use amneziawg_windows_client.Syntax.Highlight.{
  HighlightSpan, Highlight, mtu, jc, jmin, jmax, error, warning,
}

-- The value of decimal digits, behind `n`.
unfoldable pub digits_value : ℕ → Text → Option ℕ
digits_value n [] = some n
digits_value n (c ∷ s) =
    let later = digits_value (10 * n + (c - 48)) s in if is_decimal c then later else none

-- strconv.Atoi of a text without a sign, as the spans of numbers are, which have ten digits at most.
unfoldable pub atoi : Text → Option ℕ
atoi s = if is_nil s then none else digits_value 0 s

pub data Number : Type 0 where
  out_of_range no_number : Number
  number : ℕ → Number

abbrev pub number_of : Option ℕ → Number
number_of none = no_number
number_of (some n) = number n

-- The variables of highlightASecConfig.
pub record Junk : Type 0 where
  pub mtu_value : ℕ
  pub jc_value : ℕ
  pub jmin_value : ℕ
  pub jmax_value : ℕ

-- What the first loop comes to.
pub data Gathered : Type 0 where
  panicked returned : Gathered
  gathered : Junk → Gathered

-- The case of a highlight in the first loop: the end of the pass, a number to be read and where it
-- goes, or nothing.
abbrev pub is_error : Highlight → Bool
is_error Highlight.error = true
is_error _ = false

abbrev pub is_number : Highlight → Bool
is_number Highlight.mtu = true
is_number Highlight.jc = true
is_number Highlight.jmin = true
is_number Highlight.jmax = true
is_number _ = false

abbrev pub set_number : Highlight → ℕ → Junk → Junk
set_number Highlight.mtu n j = record j { mtu_value = n }
set_number Highlight.jc n j = record j { jc_value = n }
set_number Highlight.jmin n j = record j { jmin_value = n }
set_number Highlight.jmax n j = record j { jmax_value = n }
set_number _ n j = j

module _ (cfg : Text) where
  -- strconv.Atoi(cfg[span.s : span.s+span.len])
  unfoldable pub read_number : HighlightSpan → Number
  read_number x =
      if leb (x.s + x.len) (length cfg)
      then number_of (atoi (take x.len (drop x.s cfg)))
      else out_of_range

  -- The first loop.
  unfoldable pub gather : List HighlightSpan → Junk → Gathered
  gather [] j = gathered j
  gather (x ∷ rest) j =
      let skipped = gather rest j in
      if is_error x.t
      then returned
      else if is_number x.t
      then elim (read_number x) [
        | out_of_range ↦ panicked
        | no_number ↦ returned
        | number n ↦ gather rest (set_number x.t n j)
      ]
      else skipped

-- The condition that the junk packets are used.
abbrev pub uses_junk : Junk → Bool
uses_junk j = not (j.jc_value == 0) || not (j.jmin_value == 0) || not (j.jmax_value == 0)

-- diffMTU and maxMTU
abbrev pub diff_mtu : ℕ
diff_mtu = 80

abbrev pub max_mtu : ℕ
max_mtu = 1500

-- Is a number out of its bounds, in the second loop?
unfoldable pub is_warned : Junk → Highlight → Bool
is_warned j Highlight.jc = ltb 128 j.jc_value
is_warned j Highlight.jmin =
    uses_junk j
    && (leb j.jmax_value j.jmin_value
        || leb (j.mtu_value + diff_mtu) j.jmin_value
        || leb max_mtu j.jmin_value)
is_warned j Highlight.jmax =
    uses_junk j
    && (leb j.jmax_value j.jmin_value
        || ltb (j.mtu_value + diff_mtu) j.jmax_value
        || ltb max_mtu j.jmax_value)
is_warned j _ = false

unfoldable pub warn : Junk → HighlightSpan → HighlightSpan
warn j x = if is_warned j x.t then record x { t = warning } else x

-- The second loop, behind the default of the MTU.
abbrev pub warn_all : ℕ → List HighlightSpan → Gathered → Option (List HighlightSpan)
warn_all default_mtu spans panicked = none
warn_all default_mtu spans returned = some spans
warn_all default_mtu spans (gathered j) =
    let mtu' = if j.mtu_value == 0 then default_mtu else j.mtu_value in
    some (map (warn (record j { mtu_value = mtu' })) spans)

-- highlightASecConfig, with device.DefaultMTU.
unfoldable pub highlight_asec_config : ℕ → Text → List HighlightSpan → Option (List HighlightSpan)
highlight_asec_config default_mtu cfg spans =
    warn_all default_mtu spans
      (gather cfg spans (record { mtu_value = 0; jc_value = 0; jmin_value = 0; jmax_value = 0 }))
