-- ===== src/Router/Started.antt =====
-- manager/domainrouting.go: a tunnel that is activated without an error has its DNS server and the
-- default route's sent to the proxy.
use amneziawg_windows_client.Routes
use amneziawg_windows_client.Common.{
  ℕ, ◌≡◌, ◌==◌, false≢true, sym, not, false, some, ◌<◌, true, ap, option_both, arith, if_cases,
  none-ne-some, none, is_nil, ◌∙◌, ◌||◌, Option, refl, if◌then◌else◌, if_both,
}
use amneziawg_windows_client.Common.Text.{Text, ◌=ᵗ◌}
use amneziawg_windows_client.Dns.{is_loopback}
use amneziawg_windows_client.DomainRouting.{has_effective_rules}
use amneziawg_windows_client.Router.{
  Router, System, Answers, InterfaceDnsState, Result, World, TunnelConfig,
}
use amneziawg_windows_client.Router.Interfaces.{
  find_default_route_and_dns, find_tunnel_interface, loopback_added, find_loopback_luid,
  add_loopback_route, loopback_route,
}
use amneziawg_windows_client.Router.Lifecycle.{
  clear_all, adopt_tunnel, activate_tunnel, enter_tunnel, apply_rules_dns,
}
use amneziawg_windows_client.Router.Managed.{is_off}
use amneziawg_windows_client.Router.Redirect.{
  apply_dns, redirect_dns, remember_dns, localhost, set_dns, restore_dns,
}
use amneziawg_windows_client.Router.Saved.{clear_learned_routes}
use amneziawg_windows_client.Router.Sound.{redirected, fallible_both}
use amneziawg_windows_client.Routes.{RouteManager, already_exists, failed, AddResult}
use amneziawg_windows_client.Routes.Repair.{clear_routes}
use mathlib.Core.Option.{some-injective}
use mathlib.Core.Path.{subst}

-- The settings that applyDNSLocked has recorded for the tunnel.
recorded_tunnel :
    (t : Option InterfaceDnsState) (x : InterfaceDnsState)
    → (s : InterfaceDnsState) × ((elim t [ some s ↦ some s | none ↦ some x ]) ≡ some s)
recorded_tunnel (some s) x = (s, refl)
recorded_tunnel none x = (x, refl)

-- Those for the default route's interface, where there is one and nothing was recorded.
recorded_default :
    (d : Option InterfaceDnsState) (luid : ℕ) (x : InterfaceDnsState)
    → d ≡ none
    → x.luid ≡ luid
    → 0 < luid
    → (s : InterfaceDnsState) × ((elim d [
      | some s ↦ some s
      | none ↦ if luid == 0 then none else some x
    ])
        ≡ some s)
      × (s.luid ≡ luid)
recorded_default (some s) luid x e same above = absurd (none-ne-some _ (sym e))
recorded_default none luid x e same above =
    let nonzero : (luid == 0) ≡ false = ground arith in (x, rw nonzero refl, same)

module _ (sys : System) (ans : Answers) where
  redirect_dns-redirected :
      (s : InterfaceDnsState) (d : Option InterfaceDnsState) (tun luid : ℕ) (w : World sys)
      → (0 < luid → (s' : InterfaceDnsState) × (d ≡ some s') × (s'.luid ≡ luid))
      → let r = redirect_dns sys ans tun (some s) d w in
        r.1 ≡ none
        → (redirected tun r.0.dns_calls ≡ true) × (0 < luid → redirected luid r.0.dns_calls ≡ true)
  unfolding set_dns redirected is_loopback
  redirect_dns-redirected s none tun luid w h =
      let P : World sys × Option Text → Type 0 = λ r.
        r.1 ≡ none
        → (redirected tun r.0.dns_calls ≡ true)
          × (0 < luid → redirected luid r.0.dns_calls ≡ true) in
      option_both P (ans.set_dns tun localhost s.search)
        (λ e. (ground arith, λ pos. let (s', is, same) = h pos in absurd (none-ne-some _ is)))
        (λ why bad. absurd (none-ne-some _ (sym bad)))
  redirect_dns-redirected s (some d) tun luid w h =
      let P : World sys × Option Text → Type 0 = λ r.
        r.1 ≡ none
        → (redirected tun r.0.dns_calls ≡ true)
          × (0 < luid → redirected luid r.0.dns_calls ≡ true) in
      option_both P (ans.set_dns tun localhost s.search)
        (λ e. (
          ground arith,
          λ pos.
              let (s', is, same) = h pos in
              let here : d.luid ≡ luid =
                ap (λ (x : InterfaceDnsState). x.luid) (some-injective _ _ is) ∙ same in
              ground (arith, here),
        ))
        (λ why bad. absurd (none-ne-some _ (sym bad)))

  -- The interfaces of these routes are sent to the proxy.
  abbrev pub IsRedirected : RouteManager → World sys → Type 0
  IsRedirected routes w =
      (0 < routes.tun_luid)
      × (redirected routes.tun_luid w.dns_calls ≡ true)
      × (0 < routes.default_route.luid → redirected routes.default_route.luid w.dns_calls ≡ true)

  apply_dns-IsRedirected :
      (m : Router) (w : World sys)
      → is_nil m.routes.active_tunnel ≡ false
      → m.proxy ≡ true
      → m.tun_dns_state ≡ none
      → m.default_dns_state ≡ none
      → let (m', w', err) = apply_dns sys ans m w in
        err ≡ none → (m'.routes ≡ m.routes) × IsRedirected m.routes w'
  unfolding apply_dns remember_dns
  apply_dns-IsRedirected m w active proxy t d =
      let P : Result sys → Type 0 =
        λ (m', w', err). err ≡ none → (m'.routes ≡ m.routes) × IsRedirected m.routes w' in
      let tun = m.routes.tun_luid in
      let luid = m.routes.default_route.luid in
      let m' = remember_dns ans m in
      let on : (not m.proxy || is_nil m.routes.active_tunnel) ≡ false =
        ground (arith, active, proxy) in
      if_cases P (not m.proxy || is_nil m.routes.active_tunnel)
        (λ off. absurd (false≢true (sym on ∙ off)))
        (λ _.
          if_cases P (m.routes.tun_luid == 0) (λ _ bad. absurd (none-ne-some _ (sym bad)))
            (λ some_luid.
              let recorded : (s : InterfaceDnsState) × (m'.tun_dns_state ≡ some s) =
                recorded_tunnel m.tun_dns_state _ in
              let kept : 0 < luid
                  → (s' : InterfaceDnsState) × (m'.default_dns_state ≡ some s') × (s'.luid ≡ luid) =
                recorded_default m.default_dns_state luid _ d refl in
              let Q : Option InterfaceDnsState → Type 0 = λ t'.
                let (w', err) = redirect_dns sys ans tun t' m'.default_dns_state w in
                P (m', w', err) in
              let both : Q (some recorded.0) = λ e.
                let (tunnel', default') =
                  redirect_dns-redirected recorded.0 m'.default_dns_state tun luid w kept e in
                (refl, (ground arith, tunnel', default')) in
              subst Q (sym recorded.1) both))

  -- activateTunnelLocked, where the fields of the tunnel are set.
  abbrev IsEntered : Router → Router × World sys → Type 0
  IsEntered m1 (m', w') =
      (m'.routes ≡ m1.routes)
      × (m'.proxy ≡ m1.proxy)
      × (m'.tun_dns_state ≡ m1.tun_dns_state)
      × (m'.default_dns_state ≡ m1.default_dns_state)
      × (has_effective_rules m'.list_mode m'.rules ≡ has_effective_rules m1.list_mode m1.rules)

  add_loopback_route-IsEntered :
      (m : Router) (w : World sys) → IsEntered m (add_loopback_route sys ans m w)
  unfolding add_loopback_route
  add_loopback_route-IsEntered m w =
      let P = IsEntered m in
      if_both P m.loopback_route_added (refl, refl, refl, refl, refl)
        (option_both P (find_loopback_luid ans) (refl, refl, refl, refl, refl)
          (λ luid. added (sys.routing.add (loopback_route luid) w.table)))
    where
      added : (r : AddResult × sys.routing.Table) → IsEntered m (loopback_added sys m w r)
      added (Routes.added, t) = (refl, refl, refl, refl, refl)
      added (already_exists, t) = (refl, refl, refl, refl, refl)
      added (failed why, t) = (refl, refl, refl, refl, refl)

  -- What an activation of the tunnel has led to, unless there is an error.
  abbrev pub IsActivated : Text → Result sys → Type 0
  IsActivated name (m', w', err) =
      err ≡ none → (m'.routes.active_tunnel ≡ name) × IsRedirected m'.routes w'

  enter_tunnel-IsActivated :
      (name : Text) (cfg : TunnelConfig) (found : ℕ × ℕ) (m : Router) (w : World sys)
      → is_nil name ≡ false
      → m.proxy ≡ true
      → is_off m.routes.mode ≡ false
      → has_effective_rules m.list_mode m.rules ≡ true
      → m.tun_dns_state ≡ none
      → m.default_dns_state ≡ none
      → IsActivated name (enter_tunnel sys ans name cfg found m w)
  unfolding enter_tunnel adopt_tunnel apply_rules_dns
  enter_tunnel-IsActivated name cfg (luid, index) m w named proxy on rules t d =
      let m1 = adopt_tunnel name cfg (luid, index) (find_default_route_and_dns ans luid) m in
      let (m2, w2) = if m1.exclude_loopback then add_loopback_route sys ans m1 w else (m1, w) in
      let entered : IsEntered m1 (m2, w2) =
        if_both (IsEntered m1) m1.exclude_loopback (add_loopback_route-IsEntered m1 w)
          (refl, refl, refl, refl, refl) in
      let P = IsActivated name in
      let on' : is_off m2.routes.mode ≡ false =
        subst (λ (rs : RouteManager). is_off rs.mode ≡ false) (sym entered.0) on in
      let active : is_nil m2.routes.active_tunnel ≡ false =
        subst (λ (rs : RouteManager). is_nil rs.active_tunnel ≡ false) (sym entered.0) named in
      let applied : P (apply_dns sys ans m2 w2) = λ e.
        let (same, sent) =
          apply_dns-IsRedirected m2 w2 active (entered.1 ∙ proxy) (entered.2 ∙ t) (entered.3 ∙ d)
            e in
        (
          ap (λ (rs : RouteManager). rs.active_tunnel) (same ∙ entered.0),
          subst (λ (rs : RouteManager). IsRedirected rs (apply_dns sys ans m2 w2).1) (sym same)
              sent,
        ) in
      if_cases P (is_off m2.routes.mode) (λ e. absurd (false≢true (sym on' ∙ e)))
        (λ _.
          if_cases P (has_effective_rules m2.list_mode m2.rules) (λ _. applied)
            (λ e. absurd (false≢true (sym e ∙ entered.4 ∙ rules))))

  -- When another tunnel is activated without an error, with the routing on, rules to apply and the
  -- DNS server running, it is the active tunnel, it has an interface, and the newest call of SetDNS
  -- for this interface names the proxy, as does that for the default route's interface, if there is
  -- one.
  pub activate_tunnel-IsActivated :
      (name : Text) (m : Router) (w : World sys)
      → is_nil name ≡ false
      → (m.routes.active_tunnel =ᵗ name) ≡ false
      → m.proxy ≡ true
      → is_off m.routes.mode ≡ false
      → has_effective_rules m.list_mode m.rules ≡ true
      → (activate_tunnel sys ans name m w).2 ≡ none
      → let (m', w', err) = activate_tunnel sys ans name m w in
        (m'.routes.active_tunnel ≡ name) × IsRedirected m'.routes w'
  unfolding activate_tunnel clear_all restore_dns clear_learned_routes clear_routes
  activate_tunnel-IsActivated name m w named other proxy on rules =
      let P = IsActivated name in
      let (m', w') = clear_all sys m w in
      if_cases P (m.routes.active_tunnel =ᵗ name) (λ same e. absurd (false≢true (sym other ∙ same)))
        (λ _.
          fallible_both P (sys.load_tunnel name w'.store) (λ why e. absurd (none-ne-some _ (sym e)))
            (λ cfg.
              fallible_both P (find_tunnel_interface ans cfg.name)
                (λ why e. absurd (none-ne-some _ (sym e)))
                (λ found.
                  enter_tunnel-IsActivated name cfg found m' w' named proxy on rules refl refl)))
