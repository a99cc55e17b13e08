-- ===== src/Router/SafeSettings.antt =====
-- manager/domainrouting.go: the state after the settings change or the configuration is read again.
use amneziawg_windows_client.Common.{
  if_both, ltb, refl, is_nil, ◌==◌, ◌||◌, [], option_both, none, not, true, Bool, Option,
}
use amneziawg_windows_client.Common.Text.{Text, equal_fold, trim_space, ◌=ᵗ◌}
use amneziawg_windows_client.DomainRouting.{DomainRoutingMode, mode_string}
use amneziawg_windows_client.Router.{Router, System, TunnelConfig, Answers, World}
use amneziawg_windows_client.Router.Interfaces.{get_system_dns_and_interface}
use amneziawg_windows_client.Router.Lifecycle.{start_proxy, init}
use amneziawg_windows_client.Router.Managed.{
  is_off, set_managed, restore_tunnel_table_off, sync_managed_route_tunnel, managed_target,
  remove_allowed_ip_routes, manage_tunnel, same_flag, release_tunnel,
  prepare_tunnel_config_for_start,
}
use amneziawg_windows_client.Router.SafeDns.{clear_all-IsSound, apply_rules_dns-IsSound}
use amneziawg_windows_client.Router.SafeTunnel.{switch_tunnel-IsSound}
use amneziawg_windows_client.Router.Saved.{
  save_config, refresh_config, load_config, clear_learned_routes, adopt_config,
}
use amneziawg_windows_client.Router.Settings.{
  adopt_mode, DnsSettings, set_exclude_loopback, adopt_rules, RulesData, set_disable_ipv6,
  apply_mode, follow_selection, adopt_dns_settings, set_mode, set_rules, set_dns_settings,
}
use amneziawg_windows_client.Router.Sound.{
  IsSound, fallible_both, save_config-IsSound, IsSoundResult,
}
use amneziawg_windows_client.Routes.Repair.{clear_routes}

module _ (sys : System) where
  load_config-IsSound : (m : Router) (w : World sys) → IsSound m w → IsSound (load_config sys m w) w
  unfolding load_config adopt_config
  load_config-IsSound m w h = option_both (λ m'. IsSound m' w) w.file h (λ f. h)

  pub refresh_config-IsSound :
      (m : Router) (w : World sys) → IsSound m w → IsSound (refresh_config sys m w) w
  unfolding refresh_config
  refresh_config-IsSound m w h =
      let P : Router → Type 0 = λ m'. IsSound m' w in
      if_both P (is_nil m.config_path) h (
        option_both P w.file h
          (λ (text, time). if_both P (ltb m.config_mod_time time) (load_config-IsSound m w h) h))

  pub clear_learned_routes-IsSound :
      (m : Router) (w : World sys)
      → IsSound m w
      → IsSound (clear_learned_routes sys m w).0 (clear_learned_routes sys m w).1
  unfolding clear_learned_routes clear_routes
  clear_learned_routes-IsSound m w h =
      (h.0, (λ idle. let was = h.1 idle in (was.0, was.1, refl, was.3, was.4)), tt)

  manage_tunnel-IsSound :
      (target : Text) (m : Router) (w : World sys)
      → IsSound m w
      → IsSoundResult sys (manage_tunnel sys target m w)
  unfolding manage_tunnel remove_allowed_ip_routes
  manage_tunnel-IsSound target m w h =
      let P = IsSoundResult sys in
      fallible_both P (sys.load_tunnel target w.store) (λ why. h)
        (λ cfg.
          let cfg' : TunnelConfig = record cfg { table_off = true } in
          let m' = set_managed target cfg.table_off m in
          let (err, store') = sys.save_tunnel cfg' w.store in
          let w' : World sys = record w { store = store' } in
          if_both P cfg.table_off h (
            option_both P err
              (if_both (λ (w2 : World sys). IsSound m' w2)
                (equal_fold m.routes.active_tunnel target)
                (if_both (λ (w2 : World sys). IsSound m' w2) (m.routes.tun_luid == 0) h h) h)
              (λ why. h)))

  release_tunnel-IsSound :
      (managed target : Text) (m : Router) (w : World sys)
      → IsSound m w
      → IsSoundResult sys (release_tunnel sys managed target m w)
  unfolding release_tunnel
  release_tunnel-IsSound managed target m w h =
      let P = IsSoundResult sys in
      let original = m.config.managed_route_tunnel_original_table_off in
      let (err, store') = restore_tunnel_table_off sys managed original w.store in
      if_both P (is_nil managed || equal_fold managed target) h (option_both P err h (λ why. h))

  pub sync_managed_route_tunnel-IsSound :
      (m : Router) (w : World sys)
      → IsSound m w
      → IsSoundResult sys (sync_managed_route_tunnel sys m w)
  unfolding sync_managed_route_tunnel
  sync_managed_route_tunnel-IsSound m w h =
      let P = IsSoundResult sys in
      let target = managed_target m in
      let managed = trim_space m.config.managed_route_tunnel in
      let (m', w', err) = release_tunnel sys managed target m w in
      let released = release_tunnel-IsSound managed target m w h in
      option_both P err
        (if_both P (is_nil target || equal_fold managed target) released
          (manage_tunnel-IsSound target m' w' released))
        (λ why. released)

module _ (sys : System) (ans : Answers) where
  pub prepare_tunnel_config_for_start-IsSound :
      (name : Text) (c : TunnelConfig) (m : Router) (w : World sys)
      → IsSound m w
      → IsSound
          (prepare_tunnel_config_for_start sys ans name c m w).0
          (prepare_tunnel_config_for_start sys ans name c m w).1
  unfolding prepare_tunnel_config_for_start
  prepare_tunnel_config_for_start-IsSound name c m w h =
      let P : Router × World sys × TunnelConfig × Bool → Type 0 = λ r. IsSound r.0 r.1 in
      let m1 = refresh_config sys m w in
      let fresh = refresh_config-IsSound sys m w h in
      let known = equal_fold m1.config.managed_route_tunnel name in
      let saved =
        if_both (IsSoundResult sys) known {x = (m1, w, none)} fresh
          (save_config-IsSound sys ans (set_managed name c.table_off m1) w fresh) in
      if_both P (is_nil (managed_target m1) || not (equal_fold name (managed_target m1))) fresh
        (if_both P c.table_off saved saved)

  start_proxy-IsSound : (m : Router) (w : World sys) → IsSound m w → IsSound (start_proxy ans m).0 w
  unfolding start_proxy
  start_proxy-IsSound m w h =
      let P : Router × Option Text → Type 0 = λ (m', err). IsSound m' w in
      if_both P m.proxy h (option_both P ans.bind_proxy h (λ why. h))

  apply_mode-IsSound :
      (m : Router) (w : World sys) → IsSound m w → IsSoundResult sys (apply_mode sys ans m w)
  unfolding apply_mode
  apply_mode-IsSound m w h =
      let P = IsSoundResult sys in
      let (m', err) = start_proxy ans m in
      let proxied = start_proxy-IsSound m w h in
      if_both P (is_off m.routes.mode) (clear_all-IsSound sys ans m w h) (
        if_both P (is_nil m.routes.active_tunnel) h
          (option_both P err (apply_rules_dns-IsSound sys ans m' w proxied) (λ why. proxied)))

  pub set_mode-IsSound :
      (mode : DomainRoutingMode) (m : Router) (w : World sys)
      → IsSound m w
      → IsSoundResult sys (set_mode sys ans mode m w)
  unfolding set_mode adopt_mode
  set_mode-IsSound mode m w h =
      let P = IsSoundResult sys in
      let (m1, w1) = clear_learned_routes sys m w in
      let cleared' = clear_learned_routes-IsSound sys m w h in
      let (m2, w2, sync_err) = sync_managed_route_tunnel sys (adopt_mode mode m1) w1 in
      let synced = sync_managed_route_tunnel-IsSound sys (adopt_mode mode m1) w1 cleared' in
      let (m3, w3, err) = save_config sys ans m2 w2 in
      let saved = save_config-IsSound sys ans m2 w2 synced in
      if_both P (mode_string mode =ᵗ mode_string m.routes.mode) h
        (option_both P err (apply_mode-IsSound m3 w3 saved) (λ why. saved))

  pub set_rules-IsSound :
      (wanted : RulesData) (m : Router) (w : World sys)
      → IsSound m w
      → IsSoundResult sys (set_rules sys ans wanted m w)
  unfolding set_rules adopt_rules
  set_rules-IsSound wanted m w h =
      let (m', w') = clear_learned_routes sys m w in
      save_config-IsSound sys ans (adopt_rules wanted m') w'
        (clear_learned_routes-IsSound sys m w h)

  pub set_dns_settings-IsSound :
      (settings : DnsSettings) (m : Router) (w : World sys)
      → IsSound m w
      → IsSoundResult sys (set_dns_settings sys ans settings m w)
  unfolding set_dns_settings adopt_dns_settings follow_selection
  set_dns_settings-IsSound settings m w h =
      let P : Router × World sys → Type 0 = λ (m', w'). IsSound m' w' in
      let (m1, w1, sync_err) = sync_managed_route_tunnel sys (adopt_dns_settings settings m) w in
      let synced = sync_managed_route_tunnel-IsSound sys (adopt_dns_settings settings m) w h in
      let (m2, w2) = follow_selection sys ans m1 w1 in
      let followed : IsSound m2 w2 =
        if_both P _ (switch_tunnel-IsSound sys ans [] m1 w1 synced.0) synced in
      save_config-IsSound sys ans m2 w2 followed

  pub set_disable_ipv6-IsSound :
      (disable : Bool) (m : Router) (w : World sys)
      → IsSound m w
      → IsSoundResult sys (set_disable_ipv6 sys ans disable m w)
  unfolding set_disable_ipv6
  set_disable_ipv6-IsSound disable m w h =
      if_both (IsSoundResult sys) (same_flag disable m.config.disable_ipv6) h
        (save_config-IsSound sys ans _ w h)

  pub set_exclude_loopback-IsSound :
      (exclude : Bool) (m : Router) (w : World sys)
      → IsSound m w
      → IsSoundResult sys (set_exclude_loopback sys ans exclude m w)
  unfolding set_exclude_loopback
  set_exclude_loopback-IsSound exclude m w h =
      let P = IsSoundResult sys in
      let m' : Router = record m {
        exclude_loopback = exclude;
        config = record m.config { exclude_loopback = exclude };
      } in
      let (m2, w2, err) = save_config sys ans m' w in
      let saved = save_config-IsSound sys ans m' w h in
      if_both P (same_flag exclude m.exclude_loopback) h (option_both P err saved (λ why. saved))

  pub init-IsSound :
      (path : Text) (m : Router) (w : World sys) → IsSound m w → IsSound (init sys ans path m w) w
  unfolding init
  init-IsSound path m w h =
      let m1 = load_config sys (record m { config_path = path }) w in
      let loaded = load_config-IsSound sys (record m { config_path = path }) w h in
      let (servers, index) = get_system_dns_and_interface ans in
      let m2 : Router = record m1 {
        cached_system_dns = servers;
        cached_default_if_index = index;
      } in
      start_proxy-IsSound m2 w loaded
