-- ===== src/Tests/Router.antt =====
-- manager/domainrouting.go, the manager as a whole, at concrete inputs.
use amneziawg_windows_client.DomainRouting
use amneziawg_windows_client.Tunnel
use amneziawg_windows_client.Routes
use amneziawg_windows_client.Common.{
  List, ◌≡◌, [], false, true, none, refl, some, ◌∷◌, ◌⊎◌, ◌<◌, ℕ, All, arith, any, Any, ◌≤◌,
}
use amneziawg_windows_client.Common.Text.{
  codes, trim_space, to_lower, ◌=ᵗ◌, lower_byte, is_space, equal_fold,
}
use amneziawg_windows_client.DomainRouting.{
  route_direct, route_tunnel, mode_string, parse_domain_routing_mode, has_effective_rules,
}
use amneziawg_windows_client.DomainRouting.Loopback.{v4}
use amneziawg_windows_client.Router.{
  System, World, returned, Adapter, TunnelConfig, RouteRow, Answers, Router,
}
use amneziawg_windows_client.Router.Choice.{
  is_candidate, find_default_route_and_dns_lem, is_eligible,
}
use amneziawg_windows_client.Router.Interfaces.{no_route, find_default_route_and_dns}
use amneziawg_windows_client.Router.Lifecycle.{on_tunnel_state_change, init, activate_tunnel}
use amneziawg_windows_client.Router.Managed.{is_off}
use amneziawg_windows_client.Router.Outcomes.{set_mode_off, on_tunnel_state_change-IsRestored}
use amneziawg_windows_client.Router.Redirect.{localhost}
use amneziawg_windows_client.Router.Run.{
  mode_changed, rules_changed, stepped, tunnel_changed, Reachable, state_of, State, rules_changed,
  started,
}
use amneziawg_windows_client.Router.RunLaws.{Reachable-IsSound}
use amneziawg_windows_client.Router.SafeTunnel.{IsRestored}
use amneziawg_windows_client.Router.Saved.{default_config, rules_of}
use amneziawg_windows_client.Router.Settings.{set_rules, set_mode, RulesData, set_mode}
use amneziawg_windows_client.Router.Sound.{IsSound, redirected}
use amneziawg_windows_client.Router.Started.{IsRedirected, activate_tunnel-IsActivated}
use amneziawg_windows_client.Routes.{RouteManager, RouteEntry, DefaultRoute, store}
use amneziawg_windows_client.Routes.Repair.{clear_routes}

-- A table that takes every route, a stored tunnel, and one text for every configuration.
abbrev pub home_config : TunnelConfig
home_config = record {
  name = codes "home";
  keys = codes "k" ∷ [];
  table_off = false;
  dns = v4 16843009 ∷ [];
  dns_search = [];
  peers = [];
}

abbrev pub home_system : System
home_system = record {
  routing = record {
    Table = List RouteEntry;
    add = λ entry t. (Routes.added, entry ∷ t);
    delete = λ entry t. t;
    is_386 = true;
    rows = λ t. some [];
  };
  Store = TunnelConfig;
  load_tunnel = λ name st. returned st;
  save_tunnel = λ cfg st. (none, cfg);
  list_tunnels = λ st. returned (codes "home" ∷ []);
  delete_allowed_ip = λ luid x hop t. t;
  encode = λ cfg. cfg.mode;
  decode = λ text cfg. record cfg { mode = text };
}

abbrev way_out : DefaultRoute
way_out = record { luid = 3; if_index = 4; next_hop = some 1; metric = 25 }

abbrev slow_way : DefaultRoute
slow_way = record { luid = 5; if_index = 6; next_hop = some 2; metric = 50 }

abbrev home_rows : List RouteRow
home_rows =
    record { prefix_length = 0; loopback = false; route = slow_way }
    ∷ record { prefix_length = 0; loopback = false; route = way_out }
    ∷ record { prefix_length = 24; loopback = false; route = record way_out { metric = 1 } }
    ∷ []

abbrev home_adapter : Adapter
home_adapter = record {
  friendly_name = codes "home";
  luid = 7;
  row_index = some 8;
  if_index = 8;
  if_type = 53;
  is_up = true;
  ipv4_metric = 5;
  dns_servers = [];
}

abbrev pub home_answers : Answers
home_answers = record {
  adapters = returned (home_adapter ∷ []);
  ipv4_adapters = returned (record home_adapter { luid = 1; if_type = 24 } ∷ []);
  all_adapters = returned [];
  forward_table = returned home_rows;
  dns_of = λ luid. returned (v4 134744072 ∷ []);
  registry_value = λ luid name. none;
  set_dns = λ luid servers search. none;
  mkdir_all = λ path. none;
  write_file = λ path text. (none, some (text, 1));
  bind_proxy = none;
  tracked = (codes "home", Tunnel.stopping) ∷ (codes "work", Tunnel.started) ∷ [];
}

abbrev pub new_manager : Router
new_manager = record {
  routes = record {
    mode = DomainRouting.off;
    active_tunnel = [];
    tun_luid = 0;
    default_route = no_route;
    route_entries = [];
  };
  list_mode = DomainRouting.disabled;
  dns_route_mode = route_direct;
  route_tunnel = [];
  config = default_config;
  rules = rules_of default_config;
  config_path = [];
  config_mod_time = 0;
  tun_if_index = 0;
  default_dns = [];
  tun_dns = [];
  tun_search = [];
  dns_upstreams = [];
  default_dns_state = none;
  tun_dns_state = none;
  cached_system_dns = [];
  cached_default_if_index = 0;
  exclude_loopback = false;
  loopback_route_added = false;
  proxy = false;
}

abbrev pub new_world : World home_system
new_world = record { table = []; dns_calls = []; store = home_config; file = none }

abbrev service : Router
service = init home_system home_answers (codes "c.json") new_manager new_world

abbrev strict_rules : RulesData
strict_rules = record {
  list_mode = codes "blacklist";
  domains = [];
  tunnels = [];
  directs = [];
  blocks = [];
}

-- A service whose rules and mode are set and whose tunnel starts.
abbrev with_rules : State home_system
with_rules =
    state_of home_system (set_rules home_system home_answers strict_rules service new_world)

abbrev with_mode : State home_system
with_mode =
    state_of home_system
      (set_mode home_system home_answers DomainRouting.strict with_rules.0 with_rules.1)

abbrev running : State home_system
running =
    on_tunnel_state_change home_system home_answers (codes "home") Tunnel.started with_mode.0
      with_mode.1

running-Reachable : Reachable home_system running
running-Reachable =
    stepped
      (stepped
        (stepped
          (started home_answers (codes "c.json") new_manager new_world
            (refl, refl, refl, refl, refl, refl))
          (rules_changed home_answers strict_rules service new_world))
        (mode_changed home_answers DomainRouting.strict with_rules.0 with_rules.1))
      (tunnel_changed home_answers (codes "home") Tunnel.started with_mode.0 with_mode.1 refl)

-- The tunnel is active, and its interface and the default route's are sent to the proxy.
running_dns : running.1.dns_calls ≡ (3, localhost) ∷ (7, localhost) ∷ []
unfolding set_rules set_mode on_tunnel_state_change init ◌=ᵗ◌ mode_string clear_routes
    parse_domain_routing_mode to_lower trim_space is_space lower_byte
running_dns = refl

running_active : running.0.routes.active_tunnel ≡ codes "home"
unfolding set_rules set_mode on_tunnel_state_change init ◌=ᵗ◌ mode_string clear_routes
    parse_domain_routing_mode to_lower trim_space is_space lower_byte
running_active = refl

running_is_on : is_off running.0.routes.mode ≡ false
unfolding set_rules set_mode on_tunnel_state_change init ◌=ᵗ◌ mode_string clear_routes
    parse_domain_routing_mode to_lower trim_space is_space lower_byte
running_is_on = refl

running_off : (set_mode home_system home_answers DomainRouting.off running.0 running.1).2 ≡ none
unfolding set_rules set_mode on_tunnel_state_change init ◌=ᵗ◌ mode_string clear_routes
    parse_domain_routing_mode to_lower trim_space is_space lower_byte
running_off = refl

-- No other tunnel is started.
abbrev alone : Answers
alone = record home_answers { tracked = (codes "home", Tunnel.stopping) ∷ [] }

running_alone : any (is_candidate running.0.route_tunnel (codes "home")) alone.tracked ≡ false
unfolding set_rules set_mode on_tunnel_state_change init ◌=ᵗ◌ mode_string clear_routes
    parse_domain_routing_mode to_lower trim_space is_space lower_byte equal_fold
running_alone = refl

Reachable-IsSound_example : IsSound running.0 running.1
Reachable-IsSound_example = Reachable-IsSound home_system running-Reachable

on_tunnel_state_change-IsRestored_example :
    IsRestored home_system alone
      (on_tunnel_state_change home_system alone (codes "home") Tunnel.stopped running.0 running.1).0
      (on_tunnel_state_change home_system alone (codes "home") Tunnel.stopped running.0 running.1).1
on_tunnel_state_change-IsRestored_example =
    on_tunnel_state_change-IsRestored home_system alone (codes "home") running.0 running.1
      running-Reachable running_active running_alone

set_mode_off_example :
    let (m', w', err) = set_mode home_system home_answers DomainRouting.off running.0 running.1 in
    (m'.routes.mode ≡ DomainRouting.off)
    × (m'.routes.route_entries ≡ [])
    × (m'.tun_dns_state ≡ none)
    × (m'.default_dns_state ≡ none)
    × ((luid : ℕ) → redirected luid w'.dns_calls ≡ false)
set_mode_off_example =
    set_mode_off home_system home_answers running.0 running.1 running-Reachable running_is_on
      running_off

find_default_route_and_dns_lem_example :
    let best = (find_default_route_and_dns home_answers 7).0 in
    All
      (λ (row : RouteRow).
        is_eligible 7 row ≡ true → (0 < best.luid) × (best.metric ≤ row.route.metric))
      home_rows
    × ((best ≡ no_route)
        ⊎ Any (λ (row : RouteRow). (is_eligible 7 row ≡ true) × (row.route ≡ best)) home_rows)
find_default_route_and_dns_lem_example =
    find_default_route_and_dns_lem home_answers 7 home_rows refl
      (omega arith, (omega arith, (omega arith, tt)))

with_mode_idle : (with_mode.0.routes.active_tunnel =ᵗ codes "home") ≡ false
unfolding set_rules set_mode on_tunnel_state_change init ◌=ᵗ◌ mode_string clear_routes
    parse_domain_routing_mode to_lower trim_space is_space lower_byte
with_mode_idle = refl

with_mode_proxy : with_mode.0.proxy ≡ true
unfolding set_rules set_mode on_tunnel_state_change init ◌=ᵗ◌ mode_string clear_routes
    parse_domain_routing_mode to_lower trim_space is_space lower_byte
with_mode_proxy = refl

with_mode_is_on : is_off with_mode.0.routes.mode ≡ false
unfolding set_rules set_mode on_tunnel_state_change init ◌=ᵗ◌ mode_string clear_routes
    parse_domain_routing_mode to_lower trim_space is_space lower_byte
with_mode_is_on = refl

with_mode_rules : has_effective_rules with_mode.0.list_mode with_mode.0.rules ≡ true
unfolding set_rules set_mode on_tunnel_state_change init ◌=ᵗ◌ mode_string clear_routes
    parse_domain_routing_mode to_lower trim_space is_space lower_byte
with_mode_rules = refl

with_mode_started :
    (activate_tunnel home_system home_answers (codes "home") with_mode.0 with_mode.1).2 ≡ none
unfolding set_rules set_mode on_tunnel_state_change init ◌=ᵗ◌ mode_string clear_routes
    parse_domain_routing_mode to_lower trim_space is_space lower_byte activate_tunnel
with_mode_started = refl

activate_tunnel-IsActivated_example :
    let (m', w', err) =
      activate_tunnel home_system home_answers (codes "home") with_mode.0 with_mode.1 in
    (m'.routes.active_tunnel ≡ codes "home") × IsRedirected home_system home_answers m'.routes w'
activate_tunnel-IsActivated_example =
    activate_tunnel-IsActivated home_system home_answers (codes "home") with_mode.0 with_mode.1 refl
      with_mode_idle with_mode_proxy with_mode_is_on with_mode_rules with_mode_started
