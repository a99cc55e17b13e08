-- ===== src/Router/Outcomes.antt =====
-- manager/domainrouting.go: what a stop, a start and a change of mode lead to.
use amneziawg_windows_client.DomainRouting
use amneziawg_windows_client.Tunnel
use amneziawg_windows_client.Common.{
  ℕ, ◌||◌, true, false, none, is_nil, any, not, refl, [], ◌≡◌, if◌then◌else◌, ap, false≢true,
  if_both, ◌∙◌, option_both, if_cases, sym, none-ne-some,
}
use amneziawg_windows_client.Common.Text.{Text, equal_fold, trim_space, ◌=ᵗ◌}
use amneziawg_windows_client.Common.Text.Laws.{=ᵗ_self}
use amneziawg_windows_client.DomainRouting.{DomainRoutingMode, mode_string}
use amneziawg_windows_client.Router.{Router, System, Answers, World, Result}
use amneziawg_windows_client.Router.Choice.{pick_fallback_lem, is_candidate}
use amneziawg_windows_client.Router.Interfaces.{remove_loopback_route}
use amneziawg_windows_client.Router.Lifecycle.{
  clear_all, pick_fallback_tunnel, pick_fallback, switch_tunnel, on_tunnel_state_change,
  deactivate_tunnel, cleared, forget_tunnel,
}
use amneziawg_windows_client.Router.Managed.{
  is_off, restore_tunnel_table_off, sync_managed_route_tunnel, managed_target, manage_tunnel,
  release_tunnel,
}
use amneziawg_windows_client.Router.Redirect.{restore_dns}
use amneziawg_windows_client.Router.Run.{Reachable}
use amneziawg_windows_client.Router.RunLaws.{Reachable-IsSound}
use amneziawg_windows_client.Router.SafeDns.{clear_all-redirected}
use amneziawg_windows_client.Router.SafeSettings.{
  sync_managed_route_tunnel-IsSound, clear_learned_routes-IsSound,
}
use amneziawg_windows_client.Router.SafeTunnel.{IsRestored, deactivate_tunnel-IsRestored}
use amneziawg_windows_client.Router.Saved.{save_config, clear_learned_routes}
use amneziawg_windows_client.Router.Settings.{adopt_mode, apply_mode, set_mode}
use amneziawg_windows_client.Router.Sound.{redirected, fallible_both, save_config-IsSound}
use amneziawg_windows_client.Routes.{RouteManager}
use amneziawg_windows_client.Routes.Repair.{clear_routes}
use amneziawg_windows_client.Tunnel.{TunnelState}
use mathlib.Core.Path.{subst}

only_off :
    (mode : DomainRoutingMode)
    → is_off mode ≡ false
    → (mode_string DomainRouting.off =ᵗ mode_string mode) ≡ false
unfolding mode_string ◌=ᵗ◌
only_off DomainRouting.off e = absurd (false≢true (sym e))
only_off DomainRouting.relaxed e = refl
only_off DomainRouting.strict e = refl
only_off DomainRouting.dns_only e = refl

module _ (sys : System) where
  -- The settings' other parts do not change the mode.
  manage_tunnel-routes :
      (target : Text) (m : Router) (w : World sys)
      → (manage_tunnel sys target m w).0.routes ≡ m.routes
  unfolding manage_tunnel
  manage_tunnel-routes target m w =
      let P : Result sys → Type 0 = λ r. r.0.routes ≡ m.routes in
      fallible_both P (sys.load_tunnel target w.store) (λ why. refl)
        (λ cfg. if_both P cfg.table_off refl (
          option_both P (sys.save_tunnel (record cfg { table_off = true }) w.store).0 refl
            (λ why. refl)))

  release_tunnel-routes :
      (managed target : Text) (m : Router) (w : World sys)
      → (release_tunnel sys managed target m w).0.routes ≡ m.routes
  unfolding release_tunnel
  release_tunnel-routes managed target m w =
      let P : Result sys → Type 0 = λ r. r.0.routes ≡ m.routes in
      let original = m.config.managed_route_tunnel_original_table_off in
      if_both P (is_nil managed || equal_fold managed target) refl
        (option_both P (restore_tunnel_table_off sys managed original w.store).0 refl (λ why. refl))

  pub sync_managed_route_tunnel-routes :
      (m : Router) (w : World sys) → (sync_managed_route_tunnel sys m w).0.routes ≡ m.routes
  unfolding sync_managed_route_tunnel
  sync_managed_route_tunnel-routes m w =
      let P : Result sys → Type 0 = λ r. r.0.routes ≡ m.routes in
      let target = managed_target m in
      let managed = trim_space m.config.managed_route_tunnel in
      let (m', w', err) = release_tunnel sys managed target m w in
      let released = release_tunnel-routes managed target m w in
      option_both P err
        (if_both P (is_nil target || equal_fold managed target) released
          (manage_tunnel-routes target m' w' ∙ released))
        (λ why. released)

  pub save_config-routes :
      (ans : Answers) (m : Router) (w : World sys) → (save_config sys ans m w).0.routes ≡ m.routes
  unfolding save_config
  save_config-routes ans m w =
      let P : Result sys → Type 0 = λ r. r.0.routes ≡ m.routes in
      if_both P (is_nil m.config_path) refl (
        option_both P (ans.mkdir_all m.config_path)
          (option_both P (ans.write_file m.config_path (sys.encode m.config)).0 refl (λ why. refl))
          (λ why. refl))

  deactivate_tunnel-route_tunnel :
      (ans : Answers) (m : Router) (w : World sys)
      → (deactivate_tunnel sys ans m w).0.route_tunnel ≡ m.route_tunnel
  unfolding deactivate_tunnel remove_loopback_route clear_all restore_dns clear_learned_routes
      forget_tunnel
  deactivate_tunnel-route_tunnel ans m w =
      let P : Router × World sys → Type 0 = λ (m', w'). m'.route_tunnel ≡ m.route_tunnel in
      if_both P (not m.loopback_route_added) refl refl

module _ (sys : System) (ans : Answers) where
  -- In every state of the service: when the active tunnel stops and no tunnel can take over, there
  -- is no tunnel and no default route any more, no learned route, no note of a route for 127.0.0.1,
  -- no recorded settings, and no interface whose newest call of SetDNS names the proxy.
  pub on_tunnel_state_change-IsRestored :
      (name : Text) (m : Router) (w : World sys)
      → Reachable sys (m, w)
      → m.routes.active_tunnel ≡ name
      → any (is_candidate m.route_tunnel name) ans.tracked ≡ false
      → IsRestored sys ans
          (on_tunnel_state_change sys ans name Tunnel.stopped m w).0
          (on_tunnel_state_change sys ans name Tunnel.stopped m w).1
  unfolding on_tunnel_state_change switch_tunnel pick_fallback_tunnel
  on_tunnel_state_change-IsRestored name m w r active alone =
      let (m', w') = deactivate_tunnel sys ans m w in
      let chosen = pick_fallback m'.route_tunnel name ans.tracked in
      let P : Router × World sys → Type 0 = λ (m2, w2). IsRestored sys ans m2 w2 in
      let restored = deactivate_tunnel-IsRestored sys ans m w (Reachable-IsSound sys r).0 in
      let none' : chosen ≡ [] =
        subst (λ selected. pick_fallback selected name ans.tracked ≡ [])
          (sym (deactivate_tunnel-route_tunnel sys ans m w))
          ((pick_fallback_lem m.route_tunnel name ans.tracked).0 alone) in
      let same : (m.routes.active_tunnel =ᵗ name) ≡ true =
        subst (λ a. (a =ᵗ name) ≡ true) (sym active) (=ᵗ_self name) in
      subst (λ b. P (if b then switch_tunnel sys ans name m w else (m, w))) (sym same)
        (if_cases P (is_nil chosen) (λ e. restored)
          (λ e. absurd (false≢true (sym e ∙ ap (λ x. is_nil x) none'))))

  -- In every state of the service: turning the routing off, from another mode and without an error
  -- of saving the configuration, leaves no learned route, no recorded settings, and no interface
  -- whose newest call of SetDNS names the proxy.
  pub set_mode_off :
      (m : Router) (w : World sys)
      → Reachable sys (m, w)
      → is_off m.routes.mode ≡ false
      → (set_mode sys ans DomainRouting.off m w).2 ≡ none
      → let (m', w', err) = set_mode sys ans DomainRouting.off m w in
        (m'.routes.mode ≡ DomainRouting.off)
        × (m'.routes.route_entries ≡ [])
        × (m'.tun_dns_state ≡ none)
        × (m'.default_dns_state ≡ none)
        × ((luid : ℕ) → redirected luid w'.dns_calls ≡ false)
  unfolding set_mode apply_mode clear_all adopt_mode restore_dns clear_learned_routes clear_routes
  set_mode_off m w r on e =
      let (m1, w1) = clear_learned_routes sys m w in
      let cleared' = clear_learned_routes-IsSound sys m w (Reachable-IsSound sys r) in
      let turned = adopt_mode DomainRouting.off m1 in
      let (m2, w2, sync_err) = sync_managed_route_tunnel sys turned w1 in
      let synced = sync_managed_route_tunnel-IsSound sys turned w1 cleared' in
      let (m3, w3, err) = save_config sys ans m2 w2 in
      let saved' = save_config-IsSound sys ans m2 w2 synced in
      let kept : m3.routes ≡ turned.routes =
        save_config-routes sys ans m2 w2 ∙ sync_managed_route_tunnel-routes sys turned w1 in
      let P : Result sys → Type 0 = λ (r : Result sys).
        r.2 ≡ none
        → (r.0.routes.mode ≡ DomainRouting.off)
          × (r.0.routes.route_entries ≡ [])
          × (r.0.tun_dns_state ≡ none)
          × (r.0.default_dns_state ≡ none)
          × ((luid : ℕ) → redirected luid r.1.dns_calls ≡ false) in
      let is_off' : is_off m3.routes.mode ≡ true =
        subst (λ (rs : RouteManager). is_off rs.mode ≡ true) (sym kept) refl in
      let clear : P (cleared sys m3 w3) = λ _. (
        ap (λ (rs : RouteManager). rs.mode) kept,
        refl,
        refl,
        refl,
        (λ luid. clear_all-redirected sys ans m3 w3 luid saved'.0),
      ) in
      let applied : P (apply_mode sys ans m3 w3) =
        if_cases P (is_off m3.routes.mode) (λ _. clear)
          (λ no. absurd (false≢true (sym no ∙ is_off'))) in
      let finished : P (set_mode sys ans DomainRouting.off m w) =
        if_cases P (mode_string DomainRouting.off =ᵗ mode_string m.routes.mode)
          (λ same. absurd (false≢true (sym (only_off m.routes.mode on) ∙ same)))
          (λ _. option_both P err applied (λ why bad. absurd (none-ne-some _ (sym bad)))) in
      finished e
