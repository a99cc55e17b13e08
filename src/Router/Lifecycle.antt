-- ===== src/Router/Lifecycle.antt =====
-- manager/domainrouting.go: what starts with the manager, and with a tunnel, and what ends with it.
use amneziawg_windows_client.Tunnel
use amneziawg_windows_client.Common.{
  ℕ, Bool, none, not, List, some, if◌then◌else◌, Option, is_nil, [], ◌||◌, ◌&&◌, true, false, ◌∷◌,
}
use amneziawg_windows_client.Common.Text.{Text, equal_fold, ◌=ᵗ◌}
use amneziawg_windows_client.Dns.{filter_ipv4}
use amneziawg_windows_client.DomainRouting.{has_effective_rules, sanitize_list}
use amneziawg_windows_client.DomainRouting.Loopback.{Ip}
use amneziawg_windows_client.Router.{
  Router, Result, returned, TunnelConfig, System, Answers, raised, World,
}
use amneziawg_windows_client.Router.Interfaces.{
  no_route, get_system_dns_and_interface, add_loopback_route, remove_loopback_route,
  find_default_route_and_dns, find_tunnel_interface,
}
use amneziawg_windows_client.Router.Managed.{is_off}
use amneziawg_windows_client.Router.Redirect.{apply_dns, restore_dns}
use amneziawg_windows_client.Router.Saved.{load_config, clear_learned_routes}
use amneziawg_windows_client.Routes.{DefaultRoute}
use amneziawg_windows_client.Tunnel.{TunnelState}

abbrev pub is_started : TunnelState → Bool
is_started Tunnel.started = true
is_started _ = false

-- startProxyLocked
unfoldable pub start_proxy : Answers → Router → Router × Option Text
start_proxy ans m =
    if m.proxy
    then (m, none)
    else elim ans.bind_proxy [ some why ↦ (m, some why) | none ↦ (record m { proxy = true }, none) ]

-- pickFallbackTunnelLocked, over the tracked tunnels, with the selected tunnel and the excluded one.
unfoldable pub pick_fallback : Text → Text → List (Text × TunnelState) → Text
pick_fallback selected exclude [] = []
pick_fallback selected exclude ((name, state) ∷ rest) =
    let later = pick_fallback selected exclude rest in
    if (is_nil selected || equal_fold name selected)
      && not (equal_fold name exclude)
      && is_started state
    then name
    else later

-- pickFallbackTunnelLocked
unfoldable pub pick_fallback_tunnel : Answers → Text → Router → Text
unfolding pick_fallback
pick_fallback_tunnel ans exclude m = pick_fallback m.route_tunnel exclude ans.tracked

-- activateTunnelLocked, the new tunnel's fields.
unfoldable pub adopt_tunnel : Text → TunnelConfig → ℕ × ℕ → DefaultRoute × List Ip → Router → Router
unfolding sanitize_list filter_ipv4
adopt_tunnel name cfg (luid, index) (default', servers) m = record m {
  routes = record m.routes { active_tunnel = name; tun_luid = luid; default_route = default' };
  tun_if_index = index;
  default_dns = filter_ipv4 servers;
  tun_dns = filter_ipv4 cfg.dns;
  tun_search = sanitize_list cfg.dns_search;
}

-- deactivateTunnelLocked, the fields of a tunnel.
unfoldable pub forget_tunnel : Router → Router
forget_tunnel m = record m {
  routes = record m.routes { active_tunnel = []; tun_luid = 0; default_route = no_route };
  tun_if_index = 0;
  default_dns = [];
  tun_dns = [];
  tun_search = [];
}

module _ (sys : System) where
  -- clearRoutesLocked and then restoreDNSLocked
  unfoldable pub clear_all : Router → World sys → Router × World sys
  unfolding clear_learned_routes restore_dns
  clear_all m w = let (m', w') = clear_learned_routes sys m w in restore_dns sys m' w'

  -- clearRoutesLocked, restoreDNSLocked and `return nil`
  abbrev pub cleared : Router → World sys → Result sys
  cleared m w = let (m', w') = clear_all m w in (m', w', none)

  -- applyModeLocked and activateTunnelLocked, where routing is on and the proxy was started.
  unfoldable pub apply_rules_dns : Answers → Router → World sys → Result sys
  unfolding clear_all apply_dns has_effective_rules
  apply_rules_dns ans m w =
      if has_effective_rules m.list_mode m.rules then apply_dns sys ans m w else cleared m w

  -- activateTunnelLocked, where the tunnel and its interface were found.
  unfoldable pub enter_tunnel :
      Answers → Text → TunnelConfig → ℕ × ℕ → Router → World sys → Result sys
  unfolding adopt_tunnel apply_rules_dns add_loopback_route find_default_route_and_dns
  enter_tunnel ans name cfg (luid, index) m w =
      let m1 = adopt_tunnel name cfg (luid, index) (find_default_route_and_dns ans luid) m in
      let (m2, w2) = if m1.exclude_loopback then add_loopback_route sys ans m1 w else (m1, w) in
      if is_off m2.routes.mode then (m2, w2, none) else apply_rules_dns ans m2 w2

  -- activateTunnelLocked
  unfoldable pub activate_tunnel : Answers → Text → Router → World sys → Result sys
  unfolding clear_all enter_tunnel find_tunnel_interface
  activate_tunnel ans name m w =
      if m.routes.active_tunnel =ᵗ name
      then (m, w, none)
      else let (m', w') = clear_all m w in
        elim (sys.load_tunnel name w'.store) [
          | raised why ↦ (m', w', some why)
          | returned cfg ↦ elim (find_tunnel_interface ans cfg.name) [
            | raised why ↦ (m', w', some why)
            | returned found ↦ enter_tunnel ans name cfg found m' w'
          ]
        ]

  -- deactivateTunnelLocked
  unfoldable pub deactivate_tunnel : Answers → Router → World sys → Router × World sys
  unfolding clear_all remove_loopback_route forget_tunnel
  deactivate_tunnel ans m w =
      let (m1, w1) = clear_all m w in
      let (m2, w2) = remove_loopback_route sys ans m1 w1 in (forget_tunnel m2, w2)

  -- deactivateTunnelLocked and the choice of the next tunnel, in OnTunnelStateChange and
  -- SetDNSSettings. The error of the activation is only logged.
  unfoldable pub switch_tunnel : Answers → Text → Router → World sys → Router × World sys
  unfolding deactivate_tunnel activate_tunnel pick_fallback_tunnel
  switch_tunnel ans exclude m w =
      let (m', w') = deactivate_tunnel ans m w in
      let next = pick_fallback_tunnel ans exclude m' in
      if is_nil next
      then (m', w')
      else let (m2, w2, err) = activate_tunnel ans next m' w' in (m2, w2)

  -- OnTunnelStateChange
  unfoldable pub on_tunnel_state_change :
      Answers → Text → TunnelState → Router → World sys → Router × World sys
  unfolding switch_tunnel activate_tunnel
  on_tunnel_state_change ans name Tunnel.started m w =
      if not (is_nil m.route_tunnel) && not (equal_fold name m.route_tunnel)
      then (m, w)
      else let (m', w', err) = activate_tunnel ans name m w in (m', w')
  on_tunnel_state_change ans name Tunnel.stopped m w =
      if m.routes.active_tunnel =ᵗ name then switch_tunnel ans name m w else (m, w)
  on_tunnel_state_change ans name _ m w = (m, w)

  -- init, with the path that domainRoutingConfigPath computes; the errors are only logged.
  unfoldable pub init : Answers → Text → Router → World sys → Router
  unfolding load_config get_system_dns_and_interface start_proxy
  init ans path m w =
      let m1 = load_config sys (record m { config_path = path }) w in
      let (servers, index) = get_system_dns_and_interface ans in
      (start_proxy ans
        (record m1 { cached_system_dns = servers; cached_default_if_index = index })).0
