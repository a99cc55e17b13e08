-- ===== src/Router/Settings.antt =====
-- manager/domainrouting.go: the settings of the domain router that the user changes and reads.
use amneziawg_windows_client.Common.{if◌then◌else◌, Bool, List, none, [], is_nil, ◌&&◌, some, not}
use amneziawg_windows_client.Common.Text.{Text, ◌=ᵗ◌, trim_space, equal_fold}
use amneziawg_windows_client.DomainRouting.{
  mode_string, DomainRoutingMode, list_mode_string, normalize_rules, sanitize_list, parse_list_mode,
  parse_dns_route_mode, dns_route_mode_string,
}
use amneziawg_windows_client.Router.{Router, Answers, World, System, Result}
use amneziawg_windows_client.Router.Lifecycle.{cleared, start_proxy, apply_rules_dns, switch_tunnel}
use amneziawg_windows_client.Router.Managed.{
  is_off, same_flag, update_all_tunnel_configs, sync_managed_route_tunnel,
}
use amneziawg_windows_client.Router.Saved.{save_config, clear_learned_routes}

-- DomainRoutingRulesData
pub record RulesData : Type 0 where
  pub list_mode : Text
  pub domains : List Text
  pub tunnels : List Text
  pub directs : List Text
  pub blocks : List Text

-- DomainRoutingDNSSettings
pub record DnsSettings : Type 0 where
  pub upstreams : List Text
  pub route_mode : Text
  pub selected : Text

-- GetRules
unfoldable pub get_rules : Router → RulesData
get_rules m = record {
  list_mode = list_mode_string m.list_mode;
  domains = m.config.domains;
  tunnels = m.config.tunnels;
  directs = m.config.directs;
  blocks = m.config.blocks;
}

-- GetDNSSettings
unfoldable pub get_dns_settings : Router → DnsSettings
get_dns_settings m = record {
  upstreams = m.config.dns_upstreams;
  route_mode = dns_route_mode_string m.dns_route_mode;
  selected = m.route_tunnel;
}

-- SetRules, the fields.
unfoldable pub adopt_rules : RulesData → Router → Router
unfolding normalize_rules parse_list_mode
adopt_rules wanted m = record m {
  list_mode = parse_list_mode wanted.list_mode;
  config = record m.config {
    list_mode = wanted.list_mode;
    domains = wanted.domains;
    tunnels = wanted.tunnels;
    directs = wanted.directs;
    blocks = wanted.blocks;
  };
  rules = record {
    domains = normalize_rules wanted.domains;
    tunnels = normalize_rules wanted.tunnels;
    directs = normalize_rules wanted.directs;
    blocks = normalize_rules wanted.blocks;
  };
}

-- SetDNSSettings, the fields.
unfoldable pub adopt_dns_settings : DnsSettings → Router → Router
unfolding sanitize_list
adopt_dns_settings settings m =
    let upstreams = sanitize_list settings.upstreams in
    let dns_mode = parse_dns_route_mode settings.route_mode in
    let selected' = trim_space settings.selected in
    record m {
      dns_upstreams = upstreams;
      dns_route_mode = dns_mode;
      route_tunnel = selected';
      config = record m.config {
        dns_upstreams = upstreams;
        dns_route_mode = dns_route_mode_string dns_mode;
        route_tunnel = selected';
      };
    }

unfoldable pub adopt_mode : DomainRoutingMode → Router → Router
adopt_mode mode m = record m {
  routes = record m.routes { mode = mode };
  config = record m.config { mode = mode_string mode };
}

module _ (sys : System) where
  -- applyModeLocked
  unfoldable pub apply_mode : Answers → Router → World sys → Result sys
  unfolding start_proxy apply_rules_dns
  apply_mode ans m w =
      if is_off m.routes.mode
      then cleared sys m w
      else if is_nil m.routes.active_tunnel
      then (m, w, none)
      else let (m', err) = start_proxy ans m in
        elim err [
          | some why ↦ (m', w, some why)
          | none ↦ let (m2, w2, dns_err) = apply_rules_dns sys ans m' w in (m2, w2, none)
        ]

  -- SetMode; modes are compared by their names.
  unfoldable pub set_mode : Answers → DomainRoutingMode → Router → World sys → Result sys
  unfolding clear_learned_routes adopt_mode sync_managed_route_tunnel save_config apply_mode
  set_mode ans mode m w =
      if mode_string mode =ᵗ mode_string m.routes.mode
      then (m, w, none)
      else let (m1, w1) = clear_learned_routes sys m w in
        let (m2, w2, sync_err) = sync_managed_route_tunnel sys (adopt_mode mode m1) w1 in
        let (m3, w3, err) = save_config sys ans m2 w2 in
        elim err [ some why ↦ (m3, w3, some why) | none ↦ apply_mode ans m3 w3 ]

  -- SetRules
  unfoldable pub set_rules : Answers → RulesData → Router → World sys → Result sys
  unfolding clear_learned_routes adopt_rules save_config
  set_rules ans wanted m w =
      let (m', w') = clear_learned_routes sys m w in save_config sys ans (adopt_rules wanted m') w'

  -- SetDNSSettings, the end: another tunnel than the active one is selected.
  unfoldable pub follow_selection : Answers → Router → World sys → Router × World sys
  unfolding switch_tunnel
  follow_selection ans m w =
      if not (is_nil m.route_tunnel)
        && not (is_nil m.routes.active_tunnel)
        && not (equal_fold m.routes.active_tunnel m.route_tunnel)
      then switch_tunnel sys ans [] m w
      else (m, w)

  -- SetDNSSettings
  unfoldable pub set_dns_settings : Answers → DnsSettings → Router → World sys → Result sys
  unfolding adopt_dns_settings sync_managed_route_tunnel follow_selection save_config
  set_dns_settings ans settings m w =
      let (m1, w1, sync_err) = sync_managed_route_tunnel sys (adopt_dns_settings settings m) w in
      let (m2, w2) = follow_selection ans m1 w1 in save_config sys ans m2 w2

  -- SetDisableIPv6
  unfoldable pub set_disable_ipv6 : Answers → Bool → Router → World sys → Result sys
  unfolding save_config
  set_disable_ipv6 ans disable m w =
      if same_flag disable m.config.disable_ipv6
      then (m, w, none)
      else save_config sys ans (record m { config = record m.config { disable_ipv6 = disable } }) w

  -- SetExcludeLoopback; updateAllTunnelConfigs is started behind it.
  unfoldable pub set_exclude_loopback : Answers → Bool → Router → World sys → Result sys
  unfolding save_config update_all_tunnel_configs
  set_exclude_loopback ans exclude m w =
      if same_flag exclude m.exclude_loopback
      then (m, w, none)
      else let m' : Router = record m {
        exclude_loopback = exclude;
        config = record m.config { exclude_loopback = exclude };
      } in
        let (m2, w2, err) = save_config sys ans m' w in
        elim err [
          | some why ↦ (m2, w2, some why)
          | none ↦ (m2, record w2 { store = update_all_tunnel_configs sys exclude w2.store }, none)
        ]
