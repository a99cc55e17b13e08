-- ===== src/PortFirewall/Ranges.antt =====
-- manager/portfirewall.go: merging and complementing port ranges, and the ranges to block.
use amneziawg_windows_client.Common.{leb, List, ℕ, ◌-◌, ◌∷◌, [], ltb, ◌||◌, if◌then◌else◌, ◌+◌}
use amneziawg_windows_client.Common.Text.{◌=ᵗ◌, Text, codes}
use amneziawg_windows_client.PortFirewall.{PortFirewallMode, off, whitelist, blacklist, PortRule}

pub record PortRange : Type 0 where
  pub first : ℕ
  pub last : ℕ

-- sort.Slice by `first`. The order of ranges with the same `first` is left open there; here an
-- equal one stays behind those that came before it.
unfoldable pub insert_range : PortRange → List PortRange → List PortRange
insert_range r [] = r ∷ []
insert_range r (s ∷ rest) = if leb r.first s.first then r ∷ s ∷ rest else s ∷ insert_range r rest

unfoldable pub sort_ranges : List PortRange → List PortRange
unfolding insert_range
sort_ranges [] = []
sort_ranges (r ∷ rest) = insert_range r (sort_ranges rest)

-- The loop of mergeRanges; the first argument is the element that `last` points to.
unfoldable pub merge_loop : PortRange → List PortRange → List PortRange
merge_loop last [] = last ∷ []
merge_loop last (r ∷ rest) =
    let longer =
      merge_loop (if ltb last.last r.last then record last { last = r.last } else last) rest in
    let apart = last ∷ merge_loop r rest in if leb r.first (last.last + 1) then longer else apart

unfoldable pub merge_sorted : List PortRange → List PortRange
unfolding merge_loop
merge_sorted [] = []
merge_sorted (r ∷ rest) = merge_loop r rest

unfoldable pub merge_ranges : List PortRange → List PortRange
unfolding merge_sorted
merge_ranges ranges = merge_sorted (sort_ranges ranges)

-- The loop of complementRanges over the merged ranges, from `cursor` on.
unfoldable pub complement_loop : ℕ → List PortRange → List PortRange
complement_loop cursor [] =
    if leb cursor 65535 then record { first = cursor; last = 65535 } ∷ [] else []
complement_loop cursor (r ∷ rest) =
    let later = complement_loop (if ltb cursor (r.last + 1) then r.last + 1 else cursor) rest in
    if ltb cursor r.first then record { first = cursor; last = r.first - 1 } ∷ later else later

unfoldable pub complement_ranges : List PortRange → List PortRange
complement_ranges ranges = complement_loop 1 (merge_ranges ranges)

-- The two values that `r.Protocol == proto || r.Protocol == "both"` selects from `m.rules`.
unfoldable pub protocol_ranges : Text → List PortRule → List PortRange
protocol_ranges proto [] = []
protocol_ranges proto (r ∷ rest) =
    let later = protocol_ranges proto rest in
    if r.protocol =ᵗ proto || r.protocol =ᵗ codes "both"
    then record { first = r.first; last = r.last } ∷ later
    else later

-- The values of the map that effectiveBlockRangesLocked returns, at "TCP" and at "UDP".
pub record BlockRanges : Type 0 where
  pub tcp : List PortRange
  pub udp : List PortRange

unfoldable pub effective_block_ranges : PortFirewallMode → List PortRule → BlockRanges
effective_block_ranges blacklist rules = record {
  tcp = merge_ranges (protocol_ranges (codes "tcp") rules);
  udp = merge_ranges (protocol_ranges (codes "udp") rules);
}
effective_block_ranges whitelist rules = record {
  tcp = complement_ranges (protocol_ranges (codes "tcp") rules);
  udp = complement_ranges (protocol_ranges (codes "udp") rules);
}
effective_block_ranges off rules = record { tcp = []; udp = [] }
