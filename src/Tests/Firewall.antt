-- ===== src/Tests/Firewall.antt =====
-- manager/portfirewall.go and ui/syntax/highlighter.go at concrete inputs.
use amneziawg_windows_client.Common.{
  refl, ◌∷◌, some, List, [], All, ◌≡◌, ℕ, arith, none, length, map,
}
use amneziawg_windows_client.Common.Text.{
  trim_space, ◌=ᵗ◌, Text, to_lower, is_space, codes, lower_byte,
}
use amneziawg_windows_client.PortFirewall.{
  off, whitelist, blacklist, PortRule, normalize_port_rule, normalize_port_rules,
}
use amneziawg_windows_client.PortFirewall.BlockLaws.{
  normalize_port_rules-IsNormal, effective_block_ranges_exact, is_blocked, IsNormal, IsUint16,
}
use amneziawg_windows_client.PortFirewall.Manager.{PortFirewallConfig, PortFirewallManager, System}
use amneziawg_windows_client.PortFirewall.ManagerLaws.{
  HasNormalRules, Event, set, run_events-IsGood, run_events, IsGoodEffect, change,
}
use amneziawg_windows_client.PortFirewall.Quoting.{outside, code_of}
use amneziawg_windows_client.PortFirewall.RangeLaws.{covers}
use amneziawg_windows_client.PortFirewall.Ranges.{
  merge_sorted, merge_ranges, effective_block_ranges, PortRange, merge_loop, sort_ranges,
  insert_range,
}
use amneziawg_windows_client.PortFirewall.Script.{apply_script}
use amneziawg_windows_client.PortFirewall.ScriptLaws.{apply_script-SameCode}
use amneziawg_windows_client.Syntax.Config.{highlight_config}
use amneziawg_windows_client.Syntax.Highlight.{jc, jmin, warning, Spans}
use amneziawg_windows_client.Syntax.Junk.{warn, is_warned, highlight_asec_config}
use amneziawg_windows_client.Syntax.Junk.JunkLaws.{highlight_asec_config-IsAscending}
use amneziawg_windows_client.Syntax.SpanOrder.{highlight_config-IsAscending, IsAscending}
use amneziawg_windows_client.Tunnel.{started, stopped}

abbrev rule : Text → ℕ → ℕ → PortRule
rule protocol first last = record { protocol = protocol; first = first; last = last }

abbrev range : ℕ → ℕ → PortRange
range first last = record { first = first; last = last }

abbrev wanted_rules : List PortRule
wanted_rules = rule (codes " TCP ") 443 80 ∷ rule (codes "icmp") 0 7 ∷ rule (codes "udp") 9 0 ∷ []

wanted_rules-IsUint16 : All IsUint16 wanted_rules
wanted_rules-IsUint16 =
    ((omega arith, omega arith), ((omega arith, omega arith), ((omega arith, omega arith), tt)))

abbrev three_ranges : List PortRange
three_ranges = range 20 30 ∷ range 5 8 ∷ range 9 12 ∷ []

merge-three_ranges : merge_ranges three_ranges ≡ range 5 12 ∷ range 20 30 ∷ []
unfolding merge_ranges sort_ranges insert_range merge_sorted merge_loop
merge-three_ranges = refl

effective_block_ranges_exact_example :
    (covers 100 (effective_block_ranges whitelist wanted_rules).tcp
      ≡ is_blocked whitelist wanted_rules (codes "tcp") 100)
    × (covers 100 (effective_block_ranges whitelist wanted_rules).udp
        ≡ is_blocked whitelist wanted_rules (codes "udp") 100)
effective_block_ranges_exact_example =
    effective_block_ranges_exact whitelist wanted_rules 100 wanted_rules-IsUint16

normalize-wanted_rules :
    normalize_port_rules wanted_rules
    ≡ rule (codes "tcp") 80 443 ∷ rule (codes "both") 1 7 ∷ rule (codes "udp") 9 9 ∷ []
unfolding normalize_port_rules normalize_port_rule trim_space to_lower lower_byte is_space ◌=ᵗ◌
normalize-wanted_rules = refl

normalize_port_rules-IsNormal_example : All IsNormal (normalize_port_rules wanted_rules)
normalize_port_rules-IsNormal_example =
    normalize_port_rules-IsNormal wanted_rules wanted_rules-IsUint16

apply_script-SameCode_example :
    code_of outside (apply_script blacklist wanted_rules (codes "home"))
    ≡ code_of outside (apply_script blacklist wanted_rules (codes "'; Stop-Computer; '"))
apply_script-SameCode_example =
    apply_script-SameCode blacklist wanted_rules (codes "home") (codes "'; Stop-Computer; '") refl
      refl

-- A system whose every call succeeds, with no configuration saved.
abbrev quiet : System
quiet = record {
  read_config = λ path cfg. none;
  mkdir_all = λ path. none;
  write = λ path cfg. none;
  run = λ script. none;
}

-- A system whose directories cannot be made.
abbrev read_only : System
read_only = record {
  read_config = λ path cfg. none;
  mkdir_all = λ path. some (codes "access denied");
  write = λ path cfg. none;
  run = λ script. none;
}

abbrev wanted : PortFirewallConfig
wanted = record { mode = codes "whitelist"; rules = wanted_rules }

abbrev idle : PortFirewallManager
idle = record {
  mode = off;
  rules = [];
  config = record { mode = codes "off"; rules = [] };
  config_path = codes "rules.json";
  active_tunnel = [];
}

abbrev busy : PortFirewallManager
busy = record idle { active_tunnel = codes "home" }

abbrev events : List Event
events = change (codes "home") started ∷ set wanted ∷ change (codes "home") stopped ∷ []

run_events-IsGood_example :
    HasNormalRules (run_events quiet events idle).0
    × All IsGoodEffect (run_events quiet events idle).1
run_events-IsGood_example =
    run_events-IsGood quiet events idle (tt, (wanted_rules-IsUint16, (tt, tt))) tt

abbrev small_config : Text
small_config = codes "[Peer]\nPersistentKeepalive = 25\n"

highlight_config-IsAscending_example :
    (spans : Spans) × (highlight_config small_config ≡ some spans)
    × IsAscending 0 (length small_config) spans
highlight_config-IsAscending_example = highlight_config-IsAscending small_config

abbrev junk_config : Text
junk_config = codes "[Interface]\nJc = 200\nJmin = 50\nJmax = 40\n"

highlight_asec_config-IsAscending_example :
    (first : Spans) × (highlight_config junk_config ≡ some first)
    × ((second : Spans) × (highlight_asec_config 1420 junk_config first ≡ some second)
        × IsAscending 0 (length junk_config) second)
highlight_asec_config-IsAscending_example = highlight_asec_config-IsAscending junk_config 1420

-- A number of junk packets above 128, and a least size that is not below the greatest.
junk_warnings :
    map
      (warn (record { mtu_value = 1420; jc_value = 200; jmin_value = 50; jmax_value = 40 }))
      (record { t = jc; s = 17; len = 3 } ∷ record { t = jmin; s = 28; len = 2 } ∷ [])
    ≡ record { t = warning; s = 17; len = 3 } ∷ record { t = warning; s = 28; len = 2 } ∷ []
unfolding warn is_warned
junk_warnings = refl
