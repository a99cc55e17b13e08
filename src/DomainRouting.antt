-- ===== src/DomainRouting.antt =====
-- manager/domainrouting.go: modes, the normal form of domains and rules, and the decision which way
-- a domain's traffic goes.
pub mod RuleLaws
pub mod Loopback
pub mod LoopbackLaws
pub mod ConfigLaws
pub mod Ipv6Laws
use amneziawg_windows_client.Common.{
  true, [], if◌then◌else◌, ◌∷◌, List, false, is_nil, ◌||◌, Bool, not,
}
use amneziawg_windows_client.Common.Text.{
  trim_space, has_suffix, trim_prefix, to_lower, ◌=ᵗ◌, split, trim_suffix, Text, codes,
}

pub data DomainRoutingMode : Type 0 where
  off relaxed strict dns_only : DomainRoutingMode

-- DomainRoutingMode.String
unfoldable pub mode_string : DomainRoutingMode → Text
mode_string relaxed = codes "relaxed"
mode_string strict = codes "strict"
mode_string dns_only = codes "dnsonly"
mode_string off = codes "off"

unfoldable pub parse_domain_routing_mode : Text → DomainRoutingMode
parse_domain_routing_mode s =
    let t = to_lower (trim_space s) in
    if t =ᵗ codes "relaxed"
    then relaxed
    else if t =ᵗ codes "strict"
    then strict
    else if t =ᵗ codes "dnsonly"
    then dns_only
    else off

pub data DomainListMode : Type 0 where
  disabled whitelist blacklist : DomainListMode

-- DomainListMode.String
unfoldable pub list_mode_string : DomainListMode → Text
list_mode_string whitelist = codes "whitelist"
list_mode_string blacklist = codes "blacklist"
list_mode_string disabled = codes "disabled"

unfoldable pub parse_list_mode : Text → DomainListMode
parse_list_mode s =
    let t = to_lower (trim_space s) in
    if t =ᵗ codes "whitelist"
    then whitelist
    else if t =ᵗ codes "blacklist"
    then blacklist
    else disabled

pub data DnsRouteMode : Type 0 where
  route_direct route_tunnel : DnsRouteMode

-- DNSRouteMode.String
unfoldable pub dns_route_mode_string : DnsRouteMode → Text
dns_route_mode_string route_tunnel = codes "tunnel"
dns_route_mode_string route_direct = codes "direct"

unfoldable pub parse_dns_route_mode : Text → DnsRouteMode
parse_dns_route_mode s =
    if to_lower (trim_space s) =ᵗ codes "tunnel" then route_tunnel else route_direct

-- routeTarget
pub data RouteTarget : Type 0 where
  none_target tunnel direct block : RouteTarget

unfoldable pub route_target_to_string : RouteTarget → Text
route_target_to_string tunnel = codes "tunnel"
route_target_to_string direct = codes "direct"
route_target_to_string block = codes "blocked"
route_target_to_string none_target = codes "default"

-- domainRoutingRules
pub record DomainRoutingRules : Type 0 where
  pub domains : List Text
  pub tunnels : List Text
  pub directs : List Text
  pub blocks : List Text

unfoldable pub normalize_domain : Text → Text
normalize_domain name = trim_suffix (trim_space (to_lower name)) (codes ".")

unfoldable pub normalize_rules : List Text → List Text
normalize_rules [] = []
normalize_rules (rule ∷ rest) =
    let later = normalize_rules rest in
    let rule' = trim_prefix (normalize_domain rule) (codes "*.") in
    if is_nil rule' then later else rule' ∷ later

unfoldable pub match_domain : Text → List Text → Bool
match_domain domain [] = false
match_domain domain (rule ∷ rest) =
    let later = match_domain domain rest in
    if domain =ᵗ rule || has_suffix domain (b'.' ∷ rule) then true else later

-- decideRoute behind the reload of the configuration.
unfoldable pub decide : DomainListMode → DomainRoutingRules → Text → RouteTarget
decide mode rules domain =
    let d = normalize_domain domain in
    if is_nil d then none_target else if match_domain d rules.blocks then block else elim mode [
      | whitelist ↦ if match_domain d rules.domains then tunnel else direct
      | blacklist ↦ if match_domain d rules.domains then direct else tunnel
      | disabled ↦
          if match_domain d rules.directs
          then direct
          else if match_domain d rules.tunnels
          then tunnel
          else none_target
    ]

-- hasEffectiveRulesLocked
unfoldable pub has_effective_rules : DomainListMode → DomainRoutingRules → Bool
has_effective_rules whitelist rules = not (is_nil rules.domains)
has_effective_rules blacklist rules = true
has_effective_rules disabled rules = not (is_nil rules.tunnels) || not (is_nil rules.directs)

-- The loop of splitSearchList, sanitizeSearchList and sanitizeDNSUpstreams: trimmed, without the
-- empty ones.
unfoldable pub sanitize_list : List Text → List Text
sanitize_list [] = []
sanitize_list (v ∷ rest) =
    let later = sanitize_list rest in
    let v' = trim_space v in if is_nil v' then later else v' ∷ later

unfoldable pub split_search_list : Text → List Text
unfolding sanitize_list
split_search_list value = sanitize_list (split b',' value)
