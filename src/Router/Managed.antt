-- ===== src/Router/Managed.antt =====
-- manager/domainrouting.go: the tunnel that carries the routed domains has TableOff set in its
-- configuration, and gets the previous value back; and the AllowedIPs of all stored tunnels.
use amneziawg_windows_client.DomainRouting
use amneziawg_windows_client.Common.{
  ℕ, Bool, none, not, List, some, if◌then◌else◌, Option, is_nil, [], ◌||◌, true, false, ◌==◌, ◌∷◌,
}
use amneziawg_windows_client.Common.Text.{Text, trim_space, equal_fold}
use amneziawg_windows_client.DomainRouting.{DomainRoutingMode}
use amneziawg_windows_client.DomainRouting.Loopback.{
  Ip, Peer, v6, v4, IpCidr, restore_loopback, exclude_loopback_from_config,
}
use amneziawg_windows_client.Router.{
  Router, Result, returned, System, TunnelConfig, Answers, raised, World,
}
use amneziawg_windows_client.Router.Saved.{save_config, refresh_config}

abbrev pub is_off : DomainRoutingMode → Bool
is_off DomainRouting.off = true
is_off _ = false

-- strings.TrimSpace(m.routeTunnel), or nothing where routing is off.
unfoldable pub managed_target : Router → Text
managed_target m = if is_off m.routes.mode then [] else trim_space m.route_tunnel

abbrev pub set_managed : Text → Bool → Router → Router
set_managed name original m = record m {
  config = record m.config {
    managed_route_tunnel = name;
    managed_route_tunnel_original_table_off = original;
  };
}

abbrev pub same_flag : Bool → Bool → Bool
same_flag a b = if a then b else not b

abbrev pub zero_hop : Ip → Ip
zero_hop (v4 a) = v4 0
zero_hop (v6 a) = v6 0

module _ (sys : System) where
  -- restoreTunnelTableOff
  unfoldable pub restore_tunnel_table_off : Text → Bool → sys.Store → Option Text × sys.Store
  restore_tunnel_table_off name original st = elim (sys.load_tunnel name st) [
    | raised why ↦ (some why, st)
    | returned cfg ↦
        if same_flag cfg.table_off original
        then (none, st)
        else sys.save_tunnel (record cfg { table_off = original }) st
  ]

  -- PrepareTunnelConfigForStart, with the configuration that is started and whether it changed.
  unfoldable pub prepare_tunnel_config_for_start :
      Answers → Text → TunnelConfig → Router → World sys → Router × World sys × TunnelConfig × Bool
  unfolding managed_target
  prepare_tunnel_config_for_start ans name c m w =
      let m1 = refresh_config sys m w in
      let target = managed_target m1 in
      if is_nil target || not (equal_fold name target)
      then (m1, w, c, false)
      else let (m2, w2, err) =
          if equal_fold m1.config.managed_route_tunnel name
          then (m1, w, none)
          else save_config sys ans (set_managed name c.table_off m1) w in
        if c.table_off then (m2, w2, c, false) else (m2, w2, record c { table_off = true }, true)

  -- `allowedip.Bits() == 32` chooses the next hop.
  unfoldable pub remove_ips : ℕ → List IpCidr → sys.routing.Table → sys.routing.Table
  remove_ips luid [] t = t
  remove_ips luid (x ∷ xs) t = remove_ips luid xs (sys.delete_allowed_ip luid x (zero_hop x.ip) t)

  unfoldable pub remove_peers : ℕ → List Peer → sys.routing.Table → sys.routing.Table
  unfolding remove_ips
  remove_peers luid [] t = t
  remove_peers luid (p ∷ ps) t = remove_peers luid ps (remove_ips luid p.allowed_ips t)

  -- removeAllowedIPRoutesForConfigLocked
  unfoldable pub remove_allowed_ip_routes : TunnelConfig → Router → World sys → World sys
  unfolding remove_peers
  remove_allowed_ip_routes cfg m w =
      if m.routes.tun_luid == 0
      then w
      else record w { table = remove_peers m.routes.tun_luid cfg.peers w.table }

  -- The end of syncManagedRouteTunnelLocked: the target becomes the managed tunnel.
  unfoldable pub manage_tunnel : Text → Router → World sys → Result sys
  manage_tunnel target m w = elim (sys.load_tunnel target w.store) [
    | raised why ↦ (m, w, some why)
    | returned cfg ↦
        let m' = set_managed target cfg.table_off m in
        if cfg.table_off
        then (m', w, none)
        else let cfg' : TunnelConfig = record cfg { table_off = true } in
          let (err, store') = sys.save_tunnel cfg' w.store in
          let w' : World sys = record w { store = store' } in
          elim err [
            | some why ↦ (m', w', some why)
            | none ↦ (
              m',
              if equal_fold m.routes.active_tunnel target
                  then remove_allowed_ip_routes cfg' m w'
                  else w',
              none,
            )
          ]
  ]

  -- The start of syncManagedRouteTunnelLocked: a tunnel that is no longer the target is let go.
  unfoldable pub release_tunnel : Text → Text → Router → World sys → Result sys
  unfolding restore_tunnel_table_off
  release_tunnel managed target m w =
      if is_nil managed || equal_fold managed target
      then (m, w, none)
      else let original = m.config.managed_route_tunnel_original_table_off in
        let (err, store') = restore_tunnel_table_off managed original w.store in
        let w' : World sys = record w { store = store' } in
        elim err [ some why ↦ (m, w', some why) | none ↦ (set_managed [] false m, w', none) ]

  -- syncManagedRouteTunnelLocked
  unfoldable pub sync_managed_route_tunnel : Router → World sys → Result sys
  unfolding managed_target release_tunnel manage_tunnel
  sync_managed_route_tunnel m w =
      let target = managed_target m in
      let managed = trim_space m.config.managed_route_tunnel in
      let (m', w', err) = release_tunnel managed target m w in
      elim err [
        | some why ↦ (m', w', some why)
        | none ↦
            if is_nil target || equal_fold managed target
            then (m', w', none)
            else manage_tunnel target m' w'
      ]

  -- The loop of updateAllTunnelConfigs; the errors are only logged.
  unfoldable pub update_loop : Bool → List Text → sys.Store → sys.Store
  update_loop exclude [] st = st
  update_loop exclude (name ∷ names) st =
      update_loop exclude names (elim (sys.load_tunnel name st) [
        | raised why ↦ st
        | returned cfg ↦
            let (peers', modified) =
              if exclude
              then exclude_loopback_from_config false cfg.peers
              else restore_loopback cfg.peers in
            if modified then (sys.save_tunnel (record cfg { peers = peers' }) st).1 else st
      ])

  -- updateAllTunnelConfigs
  unfoldable pub update_all_tunnel_configs : Bool → sys.Store → sys.Store
  unfolding update_loop
  update_all_tunnel_configs exclude st = elim (sys.list_tunnels st) [
    | raised why ↦ st
    | returned names ↦ update_loop exclude names st
  ]
