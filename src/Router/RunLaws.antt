-- ===== src/Router/RunLaws.antt =====
-- manager/domainrouting.go: what holds in every state of the service.
use amneziawg_windows_client.Common.{
  ℕ, arith, ◌≡◌, some, refl, true, Option, is_nil, none, none-ne-some, ap, if_cases, sym, ◌||◌, ◌∙◌,
}
use amneziawg_windows_client.Common.Assoc.{lookup}
use amneziawg_windows_client.DomainRouting.{RouteTarget}
use amneziawg_windows_client.DomainRouting.Loopback.{Ip, v6, v4}
use amneziawg_windows_client.Router.{Router, World, System}
use amneziawg_windows_client.Router.Run.{
  mode_changed, rules_changed, dns_changed, ipv6_changed, loopback_changed, tunnel_prepared,
  config_refreshed, name_resolved, routes_expired, routes_repaired, routes_cleared, started,
  stepped, Reachable, tunnel_prepared, routes_repaired, config_refreshed, routes_cleared,
  name_resolved, rules_changed, stepped, ipv6_changed, Step, State, dns_changed, loopback_changed,
  IsFresh, tunnel_changed, routes_expired,
}
use amneziawg_windows_client.Router.SafeSettings.{
  set_mode-IsSound, set_dns_settings-IsSound, set_disable_ipv6-IsSound, refresh_config-IsSound,
  clear_learned_routes-IsSound, init-IsSound, prepare_tunnel_config_for_start-IsSound,
  set_exclude_loopback-IsSound, set_rules-IsSound,
}
use amneziawg_windows_client.Router.SafeTunnel.{on_tunnel_state_change-IsSound}
use amneziawg_windows_client.Router.Sound.{IsSound, HasLuid, IsEmpty-IsSound, redirected}
use amneziawg_windows_client.Routes.{
  RouteManager, RouteEntry, known_or_new, built, install_built, add_route_for_ip, nothing, refresh,
  install, RouteTable, add_route, build_error, Built, build_route_entry, Outcome, is_disabled,
  DefaultRoute, expiry, cleanup_expired_routes,
}
use amneziawg_windows_client.Routes.Cleanup.{alive, cleanup_expired_routes-alive}
use amneziawg_windows_client.Routes.RouteLaws.{IsInstalled, add_route_for_ip-IsGood, KeepsGood}
use mathlib.Core.Option.{some-injective}
use mathlib.Core.Path.{subst}

-- Only the entries differ.
abbrev SameTunnel : RouteManager → RouteManager → Type 0
SameTunnel m m' =
    (m'.active_tunnel ≡ m.active_tunnel)
    × (m'.tun_luid ≡ m.tun_luid)
    × (m'.default_route ≡ m.default_route)

module _ (sys : RouteTable) where
  open sys use {Table}

  install_built-SameTunnel :
      (m : RouteManager) (a : ℕ) (b : Built) (t : Table)
      → SameTunnel m (install_built sys m a b t).0
  unfolding install add_route
  install_built-SameTunnel m a (built e) t = ground arith
  install_built-SameTunnel m a nothing t = ground arith
  install_built-SameTunnel m a (build_error why) t = (refl, refl, refl)

  known_or_new-SameTunnel :
      (m : RouteManager) (a : ℕ) (target : RouteTarget) (expires : ℕ) (t : Table)
      (found : Option (Option RouteEntry)) (o : Outcome sys)
      → known_or_new sys m a target expires t found ≡ some o
      → SameTunnel m o.0
  unfolding refresh
  known_or_new-SameTunnel m a target expires t none o e =
      subst (λ m'. SameTunnel m m'.0) (some-injective _ _ e)
        (install_built-SameTunnel m a (build_route_entry m a target expires) t)
  known_or_new-SameTunnel m a target expires t (some none) o e = absurd (none-ne-some _ e)
  known_or_new-SameTunnel m a target expires t (some (some entry)) o e =
      subst (λ m'. SameTunnel m m'.0) (some-injective _ _ e) (refl, refl, refl)

  -- The resolution of an address leaves the tunnel alone, and without one it does nothing.
  add_route_for_ip-SameTunnel :
      (m : RouteManager) (a : Option Ip) (target : RouteTarget) (ttl now : ℕ) (t : Table)
      (o : Outcome sys)
      → add_route_for_ip sys m a target ttl now t ≡ some o
      → SameTunnel m o.0 × (is_nil m.active_tunnel ≡ true → o.0.route_entries ≡ m.route_entries)
  unfolding add_route_for_ip
  add_route_for_ip-SameTunnel m none target ttl now t o = λ e. ground (arith, e)
  add_route_for_ip-SameTunnel m (some (v6 a)) target ttl now t o = λ e. ground (arith, e)
  add_route_for_ip-SameTunnel m (some (v4 a)) target ttl now t o =
      let P : Option (Outcome sys) → Type 0 = λ r.
        r ≡ some o
        → SameTunnel m o.0
          × (is_nil m.active_tunnel ≡ true → o.0.route_entries ≡ m.route_entries) in
      if_cases P (is_disabled m.mode || is_nil m.active_tunnel) (λ c e. ground (arith, e))
        (λ c e. (
          known_or_new-SameTunnel m a target (expiry sys.is_386 now ttl) t
              (lookup a m.route_entries) o e,
          λ idle. ground arith,
        ))

module _ (sys : System) where
  resolved-IsSound :
      (a : Option Ip) (target : RouteTarget) (ttl now : ℕ) (m : Router) (w : World sys)
      (o : Outcome sys.routing)
      → IsInstalled target
      → add_route_for_ip sys.routing m.routes a target ttl now w.table ≡ some o
      → IsSound m w
      → IsSound {sys = sys} (record m { routes = o.0 }) (record w { table = o.1 })
  resolved-IsSound a target ttl now m w o i e h =
      let (same, kept) =
        add_route_for_ip-SameTunnel sys.routing m.routes a target ttl now w.table o e in
      let good = add_route_for_ip-IsGood sys.routing m.routes a target ttl now w.table i h.2 in
      (
        (h.0.0, h.0.1, subst (λ l. HasLuid l m.tun_dns_state) (sym same.1) h.0.2, h.0.3),
        (λ idle.
            let idle' : is_nil m.routes.active_tunnel ≡ true =
              subst (λ n. is_nil n ≡ true) same.0 idle in
            let was = h.1 idle' in
            (
              same.1 ∙ was.0,
              ap (λ (r : DefaultRoute). r.luid) same.2 ∙ was.1,
              kept idle' ∙ was.2,
              was.3,
              was.4,
            )),
        subst (KeepsGood sys.routing) e good,
      )

  expired-IsSound :
      (now : ℕ) (m : Router) (w : World sys) (o : RouteManager × sys.routing.Table)
      → cleanup_expired_routes sys.routing now m.routes w.table ≡ some o
      → IsSound m w
      → IsSound {sys = sys} (record m { routes = o.0 }) (record w { table = o.1 })
  expired-IsSound now m w o e h =
      let (t', e', good) = cleanup_expired_routes-alive sys.routing now m.routes w.table h.2 in
      let o' : RouteManager × sys.routing.Table =
        (record m.routes { route_entries = alive now m.routes.route_entries }, t') in
      let same : o' ≡ o = some-injective _ _ (sym e' ∙ e) in
      subst
        (λ (r : RouteManager × sys.routing.Table).
          IsSound {sys = sys} (record m { routes = r.0 }) (record w { table = r.1 }))
        same
        (
          h.0,
          (λ idle. let was = h.1 idle in (was.0, was.1, ap (alive now) was.2, was.3, was.4)),
          good,
        )

  Step-IsSound : {s t : State sys} → Step sys s t → IsSound s.0 s.1 → IsSound t.0 t.1
  Step-IsSound (tunnel_changed ans name state m w n) h =
      on_tunnel_state_change-IsSound sys ans name state m w n h
  Step-IsSound (mode_changed ans mode m w) h = set_mode-IsSound sys ans mode m w h
  Step-IsSound (rules_changed ans wanted m w) h = set_rules-IsSound sys ans wanted m w h
  Step-IsSound (dns_changed ans settings m w) h = set_dns_settings-IsSound sys ans settings m w h
  Step-IsSound (ipv6_changed ans disable m w) h = set_disable_ipv6-IsSound sys ans disable m w h
  Step-IsSound (loopback_changed ans exclude m w) h =
      set_exclude_loopback-IsSound sys ans exclude m w h
  Step-IsSound (tunnel_prepared ans name c m w) h =
      prepare_tunnel_config_for_start-IsSound sys ans name c m w h
  Step-IsSound (config_refreshed m w) h = refresh_config-IsSound sys m w h
  Step-IsSound (name_resolved a target ttl now m w o i e) h =
      resolved-IsSound a target ttl now m w o i e h
  Step-IsSound (routes_expired now m w o e) h = expired-IsSound now m w o e h
  Step-IsSound (routes_repaired m w) h = h
  Step-IsSound (routes_cleared m w) h = clear_learned_routes-IsSound sys m w h

  IsFresh-IsSound : (m : Router) (w : World sys) → IsFresh sys (m, w) → IsSound m w
  unfolding redirected
  IsFresh-IsSound m w (l, d, es, t, d', calls) =
      IsEmpty-IsSound sys m w (l, d, es, t, d') (λ luid. ap (redirected luid) calls)

  -- In every state of the service, every interface whose newest call of SetDNS names the proxy has
  -- its previous servers recorded, the recorded servers are not the proxy's, every learned route has
  -- an entry about its address and an interface, and without an active tunnel there are no learned
  -- routes, no recorded settings and no interface.
  pub Reachable-IsSound : {s : State sys} → Reachable sys s → IsSound s.0 s.1
  Reachable-IsSound (started ans path m w fresh) =
      init-IsSound sys ans path m w (IsFresh-IsSound m w fresh)
  Reachable-IsSound (stepped r step) = Step-IsSound step (Reachable-IsSound r)
