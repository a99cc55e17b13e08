-- ===== src/PortFirewall.antt =====
-- manager/portfirewall.go: modes, rules and their normal form.
pub mod Ranges
pub mod RangeLaws
pub mod BlockLaws
pub mod Script
pub mod Quoting
pub mod ScriptLaws
pub mod Manager
pub mod ManagerLaws
use amneziawg_windows_client.Common.{◌&&◌, List, map, ℕ, not, ◌==◌, ltb, if◌then◌else◌}
use amneziawg_windows_client.Common.Text.{to_lower, ◌=ᵗ◌, Text, trim_space, codes}

pub data PortFirewallMode : Type 0 where
  off whitelist blacklist : PortFirewallMode

-- PortFirewallMode.String
unfoldable pub mode_string : PortFirewallMode → Text
mode_string whitelist = codes "whitelist"
mode_string blacklist = codes "blacklist"
mode_string _ = codes "off"

unfoldable pub parse_port_firewall_mode : Text → PortFirewallMode
parse_port_firewall_mode s =
    let t = to_lower (trim_space s) in
    if t =ᵗ codes "whitelist" then whitelist else if t =ᵗ codes "blacklist" then blacklist else off

-- `first` and `last` are From and To, of type uint16.
pub record PortRule : Type 0 where
  pub protocol : Text
  pub first : ℕ
  pub last : ℕ

-- The loop body of normalizePortRules.
unfoldable pub normalize_port_rule : PortRule → PortRule
normalize_port_rule r =
    let lowered = to_lower (trim_space r.protocol) in
    let proto =
      if not (lowered =ᵗ codes "tcp") && not (lowered =ᵗ codes "udp")
      then codes "both"
      else lowered in
    let start = if r.first == 0 then 1 else r.first in
    let end = if r.last == 0 then start else r.last in
    if ltb end start
    then record { protocol = proto; first = end; last = start }
    else record { protocol = proto; first = start; last = end }

unfoldable pub normalize_port_rules : List PortRule → List PortRule
normalize_port_rules rules = map normalize_port_rule rules
