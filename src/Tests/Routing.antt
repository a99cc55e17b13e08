-- ===== src/Tests/Routing.antt =====
-- manager/domainrouting.go at concrete inputs.
use Prim.Native.Nat.{max}
use amneziawg_windows_client.Common.{
  [], some, true, ◌≡◌, ◌∷◌, map, List, any, ◌||◌, ◌&&◌, arith, not, ◌+◌, ◌++◌, refl,
}
use amneziawg_windows_client.Common.Text.{
  to_lower, lower_byte, ◌=ᵗ◌, trim_space, trim_suffix, has_suffix, is_space, codes, Text,
}
use amneziawg_windows_client.DomainRouting.{
  strict, blacklist, normalize_domain, direct, tunnel, DomainRoutingRules, match_domain, decide,
}
use amneziawg_windows_client.DomainRouting.ConfigLaws.{
  restore_ips-exclude_ips, covers-exclude_loopback, others, covers_v6-exclude_loopback,
  covers_by_others,
}
use amneziawg_windows_client.DomainRouting.Loopback.{
  v4, v6, is_excluded, is_default, Peer, allowed_ips_excluding_loopback, exclude_ips, subnet,
  IpCidr, default_v4, is_unspecified, ◌=ᶜ◌, restore_ips,
}
use amneziawg_windows_client.DomainRouting.LoopbackLaws.{covers, is_loopback_address}
use amneziawg_windows_client.DomainRouting.RuleLaws.{decide-Policy, Policy}
use amneziawg_windows_client.Routes.{RouteTable, RouteEntry, added, RouteManager, add_route_for_ip}
use amneziawg_windows_client.Routes.Cleanup.{Recorded, add_route_for_ip-Recorded}

abbrev home_rules : List Text
home_rules = codes "example.com" ∷ codes "lan" ∷ []

some_rules : DomainRoutingRules
some_rules = record {
  domains = home_rules;
  tunnels = codes "cdn.org" ∷ [];
  directs = codes "local.net" ∷ [];
  blocks = codes "ads.org" ∷ [];
}

decide-Policy_example :
    Policy blacklist some_rules
      (normalize_domain (codes "WWW.Example.com."))
      (decide blacklist some_rules (codes "WWW.Example.com."))
unfolding normalize_domain to_lower lower_byte trim_space trim_suffix is_space has_suffix ◌=ᵗ◌
decide-Policy_example = decide-Policy blacklist some_rules (codes "WWW.Example.com.") refl

decide_example : decide blacklist some_rules (codes "WWW.Example.com.") ≡ direct
unfolding some_rules decide normalize_domain match_domain to_lower lower_byte trim_space trim_suffix
    is_space has_suffix ◌=ᵗ◌
decide_example = refl

-- 10.0.0.0/8, 0.0.0.0/0 and ::/0.
abbrev some_ips : List IpCidr
some_ips = subnet 10 0 0 0 8 ∷ subnet 0 0 0 0 0 ∷ record { ip = v6 0; cidr = 0 } ∷ []

covers-exclude_loopback_example : covers (v4 2130706433) (exclude_ips some_ips) ≡ (
    covers_by_others (v4 2130706433) some_ips
    || (any is_default some_ips && not (is_loopback_address 2130706433)))
covers-exclude_loopback_example = covers-exclude_loopback some_ips 2130706433 (omega arith)

covers_v6-exclude_loopback_example :
    covers (v6 5) (exclude_ips some_ips) ≡ covers_by_others (v6 5) some_ips
covers_v6-exclude_loopback_example = covers_v6-exclude_loopback some_ips 5

abbrev some_peers : List Peer
some_peers =
    record { allowed_ips = some_ips } ∷ record { allowed_ips = subnet 10 0 0 0 8 ∷ [] } ∷ []

restore_ips-exclude_ips_example :
    restore_ips (exclude_ips some_ips) ≡ others some_ips ++ default_v4 ∷ []
unfolding is_default is_excluded ◌=ᶜ◌ is_unspecified allowed_ips_excluding_loopback
restore_ips-exclude_ips_example = restore_ips-exclude_ips some_ips refl refl

-- A routing table that takes every entry and never loses one.
abbrev route_list : RouteTable
route_list = record {
  Table = List RouteEntry;
  add = λ entry t. (added, entry ∷ t);
  delete = λ entry t. t;
  is_386 = true;
  rows = λ t. some (map (λ e. record { prefix_length = 32; luid = e.luid; ip = some e.ip }) t);
}

abbrev cached : RouteEntry
cached = record { ip = 5; target = tunnel; luid = 7; next_hop = 0; metric = 0; expires = 400 }

abbrev routing : RouteManager
routing = record {
  mode = strict;
  active_tunnel = codes "home";
  tun_luid = 7;
  default_route = record { luid = 3; if_index = 4; next_hop = some 1; metric = 25 };
  route_entries = (5, some cached) ∷ [];
}

add_route_for_ip-Recorded_example :
    Recorded route_list 9 direct
      (100 + max 300 60)
      (add_route_for_ip route_list routing (some (v4 9)) direct 60 100 [])
add_route_for_ip-Recorded_example =
    add_route_for_ip-Recorded route_list routing 9 direct 60 100 [] (refl, refl) tt
      ((refl, omega arith, tt), tt)
