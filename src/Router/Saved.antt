-- ===== src/Router/Saved.antt =====
-- manager/domainrouting.go: the saved configuration of the domain router.
use amneziawg_windows_client.Common.{if◌then◌else◌, true, is_nil, ltb, some, false, [], none}
use amneziawg_windows_client.Common.Text.{codes, trim_space}
use amneziawg_windows_client.DomainRouting.{
  off, parse_list_mode, route_direct, parse_domain_routing_mode, DomainRoutingRules, mode_string,
  dns_route_mode_string, parse_dns_route_mode, sanitize_list, normalize_rules,
}
use amneziawg_windows_client.Router.{DomainRoutingConfig, Router, Result, Answers, World, System}
use amneziawg_windows_client.Routes.Repair.{clear_routes}

unfoldable pub default_config : DomainRoutingConfig
default_config = record {
  mode = mode_string off;
  list_mode = [];
  domains = [];
  tunnels = [];
  directs = [];
  blocks = [];
  exclude_loopback = true;
  disable_ipv6 = true;
  dns_upstreams = [];
  dns_route_mode = dns_route_mode_string route_direct;
  route_tunnel = [];
  managed_route_tunnel = [];
  managed_route_tunnel_original_table_off = false;
}

unfoldable pub rules_of : DomainRoutingConfig → DomainRoutingRules
rules_of cfg = record {
  domains = normalize_rules cfg.domains;
  tunnels = normalize_rules cfg.tunnels;
  directs = normalize_rules cfg.directs;
  blocks = normalize_rules cfg.blocks;
}

-- loadConfigLocked behind the reading of the file.
unfoldable pub adopt_config : DomainRoutingConfig → Router → Router
unfolding rules_of
adopt_config cfg m =
    let dns_mode = parse_dns_route_mode cfg.dns_route_mode in
    let upstreams = sanitize_list cfg.dns_upstreams in
    let tunnel' = trim_space cfg.route_tunnel in
    record m {
      routes = record m.routes { mode = parse_domain_routing_mode cfg.mode };
      list_mode = parse_list_mode cfg.list_mode;
      exclude_loopback = cfg.exclude_loopback;
      dns_route_mode = dns_mode;
      route_tunnel = tunnel';
      dns_upstreams = upstreams;
      config = record cfg {
        dns_upstreams = upstreams;
        dns_route_mode = dns_route_mode_string dns_mode;
        route_tunnel = tunnel';
      };
      rules = rules_of cfg;
    }

module _ (sys : System) where
  -- loadConfigLocked; a file that can be told of can be read.
  unfoldable pub load_config : Router → World sys → Router
  unfolding adopt_config default_config
  load_config m w = elim w.file [
    | none ↦ adopt_config default_config m
    | some (data', time) ↦ record (adopt_config (sys.decode data' default_config) m) {
      config_mod_time = time;
    }
  ]

  -- refreshConfigIfNeededLocked
  unfoldable pub refresh_config : Router → World sys → Router
  refresh_config m w = if is_nil m.config_path then m else elim w.file [
    | none ↦ m
    | some (data', time) ↦ if ltb m.config_mod_time time then load_config m w else m
  ]

  -- saveConfigLocked
  unfoldable pub save_config : Answers → Router → World sys → Result sys
  unfolding rules_of
  save_config ans m w =
      if is_nil m.config_path
      then (m, w, some (codes "missing config path"))
      else elim (ans.mkdir_all m.config_path) [
        | some why ↦ (m, w, some why)
        | none ↦
            let (err, file') = ans.write_file m.config_path (sys.encode m.config) in
            let w' : World sys = record w { file = file' } in
            elim err [
              | some why ↦ (m, w', some why)
              | none ↦ (
                record m {
                  config_mod_time = elim file' [
                    | none ↦ m.config_mod_time
                    | some (data', time) ↦ time
                  ];
                  rules = rules_of m.config;
                },
                w',
                none,
              )
            ]
      ]

  -- clearRoutesLocked
  unfoldable pub clear_learned_routes : Router → World sys → Router × World sys
  clear_learned_routes m w =
      let (routes', table') = clear_routes sys.routing m.routes w.table in
      (record m { routes = routes' }, record w { table = table' })
