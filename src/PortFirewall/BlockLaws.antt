-- ===== src/PortFirewall/BlockLaws.antt =====
-- Which ports the rules of manager/portfirewall.go block, in each mode.
use amneziawg_windows_client.Common.{
  ◌||◌, [], ◌⊎◌, arith, ℕ, ◌≤◌, not, Bool, false, ◌∷◌, any, ◌<◌, ◌∙◌, ap, All, ◌&&◌, ◌≡◌, leb, ◌+◌,
  refl, List,
}
use amneziawg_windows_client.Common.Text.{Text, trim_space, to_lower, ◌=ᵗ◌, codes}
use amneziawg_windows_client.Common.Text.Laws.{=ᵗ_iff}
use amneziawg_windows_client.PortFirewall.{
  PortFirewallMode, blacklist, PortRule, off, whitelist, normalize_port_rule, normalize_port_rules,
}
use amneziawg_windows_client.PortFirewall.RangeLaws.{
  merge_ranges-All_first, covers-merge_ranges, merge_ranges-IsSorted, covers, StartsFrom, IsSorted,
}
use amneziawg_windows_client.PortFirewall.Ranges.{
  effective_block_ranges, PortRange, complement_ranges, merge_ranges, protocol_ranges,
  complement_loop,
}

not-covers_before : (p n : ℕ) (rs : List PortRange) → StartsFrom n rs → p < n → covers p rs ≡ false
not-covers_before p n [] s h = refl
not-covers_before p n (r ∷ rs) s h = ground (arith, not-covers_before p n rs s.1 h)

-- The ports from `cursor` to 65535 that none of the ranges covers.
abbrev gap : ℕ → ℕ → List PortRange → Bool
gap p cursor rs = leb cursor p && leb p 65535 && not (covers p rs)

covers-complement_loop :
    (p cursor : ℕ) (rs : List PortRange)
    → IsSorted rs
    → All (λ r. r.first ≤ 65535) rs
    → covers p (complement_loop cursor rs) ≡ gap p cursor rs
unfolding complement_loop
covers-complement_loop p cursor [] s h = ground arith
covers-complement_loop p cursor (r ∷ rs) s h =
    let behind = covers-complement_loop p (r.last + 1) rs s.1 h.1 in
    let same = covers-complement_loop p cursor rs s.1 h.1 in
    let early = not-covers_before p r.first rs s.0 in ground (arith, behind, same, early)

covers-complement_ranges :
    (p : ℕ) (rs : List PortRange)
    → All (λ r. r.first ≤ 65535) rs
    → covers p (complement_ranges rs) ≡ gap p 1 rs
unfolding complement_ranges
covers-complement_ranges p rs h =
    covers-complement_loop p 1 (merge_ranges rs) (merge_ranges-IsSorted rs)
      (merge_ranges-All_first 65535 rs h)
    ∙ ap (λ b. leb 1 p && leb p 65535 && not b) (covers-merge_ranges p rs)

-- The rule is about the protocol, and its ports include `p`.
abbrev pub rule_matches : Text → ℕ → PortRule → Bool
rule_matches proto p r =
    (r.protocol =ᵗ proto || r.protocol =ᵗ codes "both") && leb r.first p && leb p r.last

-- The specification of the firewall: is traffic of the protocol to port `p` to be blocked?
abbrev pub is_blocked : PortFirewallMode → List PortRule → Text → ℕ → Bool
is_blocked off rules proto p = false
is_blocked blacklist rules proto p = any (rule_matches proto p) rules
is_blocked whitelist rules proto p =
    leb 1 p && leb p 65535 && not (any (rule_matches proto p) rules)

abbrev pub IsUint16 : PortRule → Type 0
IsUint16 r = (r.first ≤ 65535) × (r.last ≤ 65535)

covers-protocol_ranges :
    (proto : Text) (p : ℕ) (rules : List PortRule)
    → covers p (protocol_ranges proto rules) ≡ any (rule_matches proto p) rules
unfolding protocol_ranges
covers-protocol_ranges proto p [] = refl
covers-protocol_ranges proto p (r ∷ rules) = ground (arith, covers-protocol_ranges proto p rules)

protocol_ranges-All_first :
    (proto : Text) (rules : List PortRule)
    → All IsUint16 rules
    → All (λ r. r.first ≤ 65535) (protocol_ranges proto rules)
unfolding protocol_ranges
protocol_ranges-All_first proto [] h = tt
protocol_ranges-All_first proto (r ∷ rules) h =
    ground (arith, protocol_ranges-All_first proto rules h.1)

module _ (proto : Text) (p : ℕ) (rules : List PortRule) (h : All IsUint16 rules) where
  covers-block_list :
      covers p (merge_ranges (protocol_ranges proto rules)) ≡ is_blocked blacklist rules proto p
  covers-block_list =
      covers-merge_ranges p (protocol_ranges proto rules) ∙ covers-protocol_ranges proto p rules

  covers-allow_list :
      covers p (complement_ranges (protocol_ranges proto rules))
      ≡ is_blocked whitelist rules proto p
  covers-allow_list =
      covers-complement_ranges p (protocol_ranges proto rules)
        (protocol_ranges-All_first proto rules h)
      ∙ ap (λ b. leb 1 p && leb p 65535 && not b) (covers-protocol_ranges proto p rules)

-- For rules whose ports are 16-bit numbers and in every mode, the TCP and the UDP ranges that
-- effectiveBlockRangesLocked returns cover exactly the ports to be blocked for that protocol.
pub effective_block_ranges_exact :
    (mode : PortFirewallMode) (rules : List PortRule) (p : ℕ)
    → All IsUint16 rules
    → (covers p (effective_block_ranges mode rules).tcp ≡ is_blocked mode rules (codes "tcp") p)
      × (covers p (effective_block_ranges mode rules).udp ≡ is_blocked mode rules (codes "udp") p)
unfolding effective_block_ranges
effective_block_ranges_exact off rules p h = (refl, refl)
effective_block_ranges_exact blacklist rules p h =
    (covers-block_list (codes "tcp") p rules h, covers-block_list (codes "udp") p rules h)
effective_block_ranges_exact whitelist rules p h =
    (covers-allow_list (codes "tcp") p rules h, covers-allow_list (codes "udp") p rules h)

-- A normal form: a known protocol, no empty range, no port 0.
abbrev pub IsNormal : PortRule → Type 0
IsNormal r =
    ((r.protocol ≡ codes "tcp") ⊎ (r.protocol ≡ codes "udp") ⊎ (r.protocol ≡ codes "both"))
    × (1 ≤ r.first)
    × (r.first ≤ r.last)
    × (r.last ≤ 65535)

normalize_port_rule-IsNormal : (r : PortRule) → IsUint16 r → IsNormal (normalize_port_rule r)
unfolding normalize_port_rule
normalize_port_rule-IsNormal r h =
    let lowered = to_lower (trim_space r.protocol) in
    ground (arith, =ᵗ_iff lowered (codes "tcp"), =ᵗ_iff lowered (codes "udp"))

-- Whatever rules with 16-bit ports come in, normalizePortRules returns rules with a known protocol
-- and a non-empty range within 1 to 65535.
pub normalize_port_rules-IsNormal :
    (rules : List PortRule) → All IsUint16 rules → All IsNormal (normalize_port_rules rules)
unfolding normalize_port_rules
normalize_port_rules-IsNormal [] h = tt
normalize_port_rules-IsNormal (r ∷ rules) h =
    (normalize_port_rule-IsNormal r h.0, normalize_port_rules-IsNormal rules h.1)
