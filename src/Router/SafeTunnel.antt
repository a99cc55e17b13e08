-- ===== src/Router/SafeTunnel.antt =====
-- manager/domainrouting.go: the state after a tunnel starts or stops.
use amneziawg_windows_client.Tunnel
use amneziawg_windows_client.Routes
use amneziawg_windows_client.Common.{
  ℕ, is_nil, not, if_both, option_both, if_cases, refl, ◌∙◌, none, false≢true, ◌≡◌, sym, ◌&&◌, [],
  false, if◌then◌else◌, arith,
}
use amneziawg_windows_client.Common.Text.{Text, ◌=ᵗ◌, equal_fold}
use amneziawg_windows_client.Router.{Router, Answers, System, TunnelConfig, World}
use amneziawg_windows_client.Router.Interfaces.{
  loopback_added, loopback_route, find_tunnel_interface, remove_loopback_route, find_loopback_luid,
  find_default_route_and_dns, add_loopback_route,
}
use amneziawg_windows_client.Router.Lifecycle.{
  clear_all, on_tunnel_state_change, pick_fallback_tunnel, enter_tunnel, switch_tunnel,
  deactivate_tunnel, forget_tunnel, adopt_tunnel, activate_tunnel,
}
use amneziawg_windows_client.Router.Managed.{is_off}
use amneziawg_windows_client.Router.Redirect.{restore_dns}
use amneziawg_windows_client.Router.SafeDns.{
  clear_all-IsSound, apply_rules_dns-IsSound, clear_all-redirected,
}
use amneziawg_windows_client.Router.Saved.{clear_learned_routes}
use amneziawg_windows_client.Router.Sound.{
  IsSound, HasLuid, IsSoundResult, IsSafe, fallible_both, redirected, IsEmpty-IsSound,
}
use amneziawg_windows_client.Routes.{RouteManager, already_exists, AddResult, failed}
use amneziawg_windows_client.Routes.Repair.{clear_routes}
use amneziawg_windows_client.Tunnel.{TunnelState}
use mathlib.Core.Path.{subst}

module _ (sys : System) (ans : Answers) where
  add_loopback_route-IsSound :
      (m : Router) (w : World sys)
      → IsSound m w
      → IsSound (add_loopback_route sys ans m w).0 (add_loopback_route sys ans m w).1
  unfolding add_loopback_route
  add_loopback_route-IsSound m w h =
      let P : Router × World sys → Type 0 = λ (m', w'). IsSound m' w' in
      if_both P m.loopback_route_added h (
        option_both P (find_loopback_luid ans) h
          (λ luid. added (sys.routing.add (loopback_route luid) w.table)))
    where
      added :
          (r : AddResult × sys.routing.Table)
          → IsSound (loopback_added sys m w r).0 (loopback_added sys m w r).1
      added (Routes.added, t) = h
      added (already_exists, t) = h
      added (failed why, t) = h

  -- A tunnel that is not empty is entered from a state without recorded settings.
  enter_tunnel-IsSound :
      (name : Text) (cfg : TunnelConfig) (found : ℕ × ℕ) (m : Router) (w : World sys)
      → is_nil name ≡ false
      → m.tun_dns_state ≡ none
      → m.default_dns_state ≡ none
      → IsSound m w
      → IsSoundResult sys (enter_tunnel sys ans name cfg found m w)
  unfolding enter_tunnel adopt_tunnel
  enter_tunnel-IsSound name cfg (luid, index) m w named t d h =
      let P : Router × World sys → Type 0 = λ (m', w'). IsSound m' w' in
      let m1 = adopt_tunnel name cfg (luid, index) (find_default_route_and_dns ans luid) m in
      let tun : HasLuid luid m.tun_dns_state = subst (HasLuid luid) (sym t) tt in
      let entered : IsSound m1 w =
        ((h.0.0, h.0.1, tun, h.0.3), (λ idle. absurd (false≢true (sym named ∙ idle))), h.2) in
      let (m2, w2) = if m1.exclude_loopback then add_loopback_route sys ans m1 w else (m1, w) in
      let added : IsSound m2 w2 =
        if_both P m1.exclude_loopback (add_loopback_route-IsSound m1 w entered) entered in
      if_both (IsSoundResult sys) (is_off m2.routes.mode) added
        (apply_rules_dns-IsSound sys ans m2 w2 added)

  pub activate_tunnel-IsSound :
      (name : Text) (m : Router) (w : World sys)
      → is_nil name ≡ false
      → IsSound m w
      → IsSoundResult sys (activate_tunnel sys ans name m w)
  unfolding activate_tunnel clear_all restore_dns
  activate_tunnel-IsSound name m w named h =
      let P = IsSoundResult sys in
      let (m', w') = clear_all sys m w in
      let clear = clear_all-IsSound sys ans m w h in
      if_both P (m.routes.active_tunnel =ᵗ name) h (
        fallible_both P (sys.load_tunnel name w'.store) (λ why. clear)
          (λ cfg.
            fallible_both P (find_tunnel_interface ans cfg.name) (λ why. clear)
              (λ found. enter_tunnel-IsSound name cfg found m' w' named refl refl clear)))

  -- Without a tunnel, nothing is recorded, redirected or learned.
  abbrev pub IsRestored : Router → World sys → Type 0
  IsRestored m w =
      (m.routes.active_tunnel ≡ [])
      × (m.routes.tun_luid ≡ 0)
      × (m.routes.default_route.luid ≡ 0)
      × (m.routes.route_entries ≡ [])
      × (m.loopback_route_added ≡ false)
      × (m.tun_dns_state ≡ none)
      × (m.default_dns_state ≡ none)
      × ((luid : ℕ) → redirected luid w.dns_calls ≡ false)

  pub deactivate_tunnel-IsRestored :
      (m : Router) (w : World sys)
      → IsSafe m w
      → IsRestored (deactivate_tunnel sys ans m w).0 (deactivate_tunnel sys ans m w).1
  unfolding deactivate_tunnel clear_all forget_tunnel remove_loopback_route clear_learned_routes
      clear_routes restore_dns
  deactivate_tunnel-IsRestored m w h =
      let P : Router × World sys → Type 0 = λ (m', w'). IsRestored (forget_tunnel m') w' in
      let (m1, w1) = clear_all sys m w in
      let calls : (luid : ℕ) → redirected luid w1.dns_calls ≡ false =
        λ luid. clear_all-redirected sys ans m w luid h in
      let without : Router = record m1 { loopback_route_added = false } in
      if_cases P (not m1.loopback_route_added)
        (λ e. (refl, refl, refl, refl, ground arith, refl, refl, calls))
        (λ e.
          option_both (λ (w' : World sys). P (without, w')) (find_loopback_luid ans)
            (refl, refl, refl, refl, refl, refl, refl, calls)
            (λ luid. (refl, refl, refl, refl, refl, refl, refl, calls)))

  pub deactivate_tunnel-IsSound :
      (m : Router) (w : World sys)
      → IsSafe m w
      → IsSound (deactivate_tunnel sys ans m w).0 (deactivate_tunnel sys ans m w).1
  deactivate_tunnel-IsSound m w h =
      let (m', w') = deactivate_tunnel sys ans m w in
      let r = deactivate_tunnel-IsRestored m w h in
      IsEmpty-IsSound sys m' w' (r.1, r.2, r.3, r.5, r.6) r.7

  pub switch_tunnel-IsSound :
      (exclude : Text) (m : Router) (w : World sys)
      → IsSafe m w
      → IsSound (switch_tunnel sys ans exclude m w).0 (switch_tunnel sys ans exclude m w).1
  unfolding switch_tunnel
  switch_tunnel-IsSound exclude m w h =
      let P : Router × World sys → Type 0 = λ (m', w'). IsSound m' w' in
      let (m', w') = deactivate_tunnel sys ans m w in
      let next = pick_fallback_tunnel ans exclude m' in
      let without = deactivate_tunnel-IsSound m w h in
      if_cases P (is_nil next) (λ e. without) (λ e. activate_tunnel-IsSound next m' w' e without)

  pub on_tunnel_state_change-IsSound :
      (name : Text) (state : TunnelState) (m : Router) (w : World sys)
      → is_nil name ≡ false
      → IsSound m w
      → IsSound
          (on_tunnel_state_change sys ans name state m w).0
          (on_tunnel_state_change sys ans name state m w).1
  unfolding on_tunnel_state_change
  on_tunnel_state_change-IsSound name Tunnel.started m w named h =
      let P : Router × World sys → Type 0 = λ (m', w'). IsSound m' w' in
      if_both P (not (is_nil m.route_tunnel) && not (equal_fold name m.route_tunnel)) h
        (activate_tunnel-IsSound name m w named h)
  on_tunnel_state_change-IsSound name Tunnel.stopped m w named h =
      let P : Router × World sys → Type 0 = λ (m', w'). IsSound m' w' in
      if_both P (m.routes.active_tunnel =ᵗ name) (switch_tunnel-IsSound name m w h.0) h
  on_tunnel_state_change-IsSound name Tunnel.starting m w named h = h
  on_tunnel_state_change-IsSound name Tunnel.stopping m w named h = h
  on_tunnel_state_change-IsSound name Tunnel.unknown m w named h = h
