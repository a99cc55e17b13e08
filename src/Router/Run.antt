-- ===== src/Router/Run.antt =====
-- manager/domainrouting.go: the manager's life as a sequence of steps.
use amneziawg_windows_client.Common.{ℕ, [], is_nil, some, Option, Bool, ◌≡◌, none, false}
use amneziawg_windows_client.Common.Text.{Text}
use amneziawg_windows_client.DomainRouting.{RouteTarget, DomainRoutingMode}
use amneziawg_windows_client.DomainRouting.Loopback.{Ip}
use amneziawg_windows_client.Router.{Router, TunnelConfig, World, Result, Answers, System}
use amneziawg_windows_client.Router.Lifecycle.{init, on_tunnel_state_change}
use amneziawg_windows_client.Router.Managed.{prepare_tunnel_config_for_start}
use amneziawg_windows_client.Router.Saved.{refresh_config, clear_learned_routes}
use amneziawg_windows_client.Router.Settings.{
  set_mode, DnsSettings, set_dns_settings, RulesData, set_rules, set_exclude_loopback,
  set_disable_ipv6,
}
use amneziawg_windows_client.Routes.{
  RouteManager, Outcome, add_route_for_ip, cleanup_expired_routes,
}
use amneziawg_windows_client.Routes.Repair.{verify_and_repair_routes}
use amneziawg_windows_client.Routes.RouteLaws.{IsInstalled}
use amneziawg_windows_client.Tunnel.{TunnelState}

module _ (sys : System) where
  abbrev pub State : Type 0
  State = Router × World sys

  -- A method's result without its error.
  abbrev pub state_of : Result sys → State
  state_of (m, w, err) = (m, w)

  -- A method call, with the system's answers during it. A tunnel has a name; an address is resolved
  -- for the tunnel or for the direct way, or its route expires.
  pub data Step : State → State → Type 0 where
    tunnel_changed :
        (ans : Answers) (name : Text) (state : TunnelState) (m : Router) (w : World sys)
        → is_nil name ≡ false
        → Step (m, w) (on_tunnel_state_change sys ans name state m w)
    mode_changed :
        (ans : Answers) (mode : DomainRoutingMode) (m : Router) (w : World sys)
        → Step (m, w) (state_of (set_mode sys ans mode m w))
    rules_changed :
        (ans : Answers) (wanted : RulesData) (m : Router) (w : World sys)
        → Step (m, w) (state_of (set_rules sys ans wanted m w))
    dns_changed :
        (ans : Answers) (settings : DnsSettings) (m : Router) (w : World sys)
        → Step (m, w) (state_of (set_dns_settings sys ans settings m w))
    ipv6_changed :
        (ans : Answers) (disable : Bool) (m : Router) (w : World sys)
        → Step (m, w) (state_of (set_disable_ipv6 sys ans disable m w))
    loopback_changed :
        (ans : Answers) (exclude : Bool) (m : Router) (w : World sys)
        → Step (m, w) (state_of (set_exclude_loopback sys ans exclude m w))
    tunnel_prepared :
        (ans : Answers) (name : Text) (c : TunnelConfig) (m : Router) (w : World sys)
        → Step
            (m, w)
            (let (m', w', c', changed) = prepare_tunnel_config_for_start sys ans name c m w in
              (m', w'))
    config_refreshed : (m : Router) (w : World sys) → Step (m, w) (refresh_config sys m w, w)
    name_resolved :
        (ip : Option Ip) (target : RouteTarget) (ttl now : ℕ) (m : Router) (w : World sys)
        (o : Outcome sys.routing)
        → IsInstalled target
        → add_route_for_ip sys.routing m.routes ip target ttl now w.table ≡ some o
        → Step (m, w) (record m { routes = o.0 }, record w { table = o.1 })
    routes_expired :
        (now : ℕ) (m : Router) (w : World sys) (o : RouteManager × sys.routing.Table)
        → cleanup_expired_routes sys.routing now m.routes w.table ≡ some o
        → Step (m, w) (record m { routes = o.0 }, record w { table = o.1 })
    routes_repaired :
        (m : Router) (w : World sys)
        → Step
            (m, w)
            (m, record w { table = verify_and_repair_routes sys.routing m.routes w.table })
    routes_cleared : (m : Router) (w : World sys) → Step (m, w) (clear_learned_routes sys m w)

  -- A manager with no tunnel and nothing recorded, in a world where SetDNS was not called.
  abbrev pub IsFresh : State → Type 0
  IsFresh (m, w) =
      (m.routes.tun_luid ≡ 0)
      × (m.routes.default_route.luid ≡ 0)
      × (m.routes.route_entries ≡ [])
      × (m.tun_dns_state ≡ none)
      × (m.default_dns_state ≡ none)
      × (w.dns_calls ≡ [])

  -- The states of the service: init, at a configuration path, and then steps.
  pub data Reachable : State → Type 0 where
    started :
        (ans : Answers) (path : Text) (m : Router) (w : World sys)
        → IsFresh (m, w)
        → Reachable (init sys ans path m w, w)
    stepped : {s t : State} → Reachable s → Step s t → Reachable t
