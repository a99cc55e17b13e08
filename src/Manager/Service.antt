-- ===== src/Manager/Service.antt =====
-- manager/ipc_server.go: the methods of a ManagerService.
use amneziawg_windows_client.Tunnel
use amneziawg_windows_client.Common.{
  if◌then◌else◌, ◌||◌, [], ◌==◌, Bool, false, List, none, some, ℕ, is_nil, not, ◌∷◌, ◌+◌, Option,
  ◌++◌, ◌&&◌, true,
}
use amneziawg_windows_client.Common.Text.{Text, codes}
use amneziawg_windows_client.DomainRouting.Loopback.{
  disable_ipv6_from_config, exclude_loopback_from_allowed_ips,
}
use amneziawg_windows_client.Manager.{
  message, is_errno, is_error, errno, Failure, stop_tunnels, Manager, Host, relay_update,
  ManagerService,
}
use amneziawg_windows_client.Manager.Install.{
  uninstall_tunnel, service_manager, install_tunnel, wait_until_gone, service_does_not_exist,
  still_there, panicked, gone, access_denied,
}
use amneziawg_windows_client.Router.{System, raised, returned, Fallible, World, TunnelConfig}
use amneziawg_windows_client.Router.Managed.{prepare_tunnel_config_for_start}
use amneziawg_windows_client.Tunnel.{TunnelState}

-- The cases of svc.State from 1: Stopped, StartPending, StopPending, Running.
unfoldable pub tunnel_state_of : ℕ → TunnelState
tunnel_state_of n =
    if n == 1
    then Tunnel.stopped
    else if n == 3
    then Tunnel.stopping
    else if n == 4
    then Tunnel.started
    else if n == 2
    then Tunnel.starting
    else Tunnel.unknown

-- trackedTunnels names a tunnel that is not settled.
abbrev pub is_in_transition : TunnelState → Bool
is_in_transition Tunnel.starting = true
is_in_transition Tunnel.unknown = true
is_in_transition _ = false

-- The test of the goroutine of Start.
abbrev pub is_zombie : Fallible TunnelState → Bool
is_zombie (returned Tunnel.started) = true
is_zombie (returned Tunnel.starting) = true
is_zombie _ = false

abbrev pub without_service : ℕ → List ManagerService → List ManagerService
without_service id [] = []
without_service id (s ∷ rest) =
    let later = without_service id rest in if s.id == id then later else s ∷ later

-- The message of Start, with the name in typographic quotes.
unfoldable pub in_transition : Text → Text
in_transition name =
    codes "Please allow the tunnel "
    ++ (226 ∷ 128 ∷ 152 ∷ name ++ 226 ∷ 128 ∷ 153 ∷ codes " to finish activating")

-- err.Error() where a method of the router or of the package conf fails.
abbrev pub as_failure : Option Text → Option Failure
as_failure none = none
as_failure (some why) = some (message why)

module _ {sys : System} (host : Host sys) where
  -- Stop
  unfoldable pub stop : Text → Manager host → Option Failure × Manager host
  unfolding uninstall_tunnel
  stop name m =
      let (err, m') = uninstall_tunnel host name m in
      elim (sys.load_tunnel name m'.world.store) [
        | raised why ↦ (err, m')
        | returned c ↦ (if is_errno service_does_not_exist err then none else err, m')
      ]

  -- The tunnel's configuration is there, and intersects with c.
  abbrev pub is_intersecting : TunnelConfig → sys.Store → Text → Bool
  is_intersecting c st t = elim (sys.load_tunnel t st) [
    | raised why ↦ false
    | returned c2 ↦ host.intersects c c2
  ]

  -- The loop of Start over trackedTunnels: the tunnels to stop, and the one in transition.
  unfoldable pub find_intersecting :
      TunnelConfig → sys.Store → List (Text × TunnelState) → List Text × Text
  find_intersecting c st [] = ([], [])
  find_intersecting c st ((t, state) ∷ rest) =
      let (tt, waiting) = find_intersecting c st rest in
      if not (is_intersecting c st t)
      then (tt, waiting)
      else if not (is_nil t) && is_in_transition state
      then (t ∷ [], t)
      else (t ∷ tt, waiting)

  -- The start of Start: the options of the domain router change the configuration, which is saved.
  unfoldable pub prepare_start : Text → TunnelConfig → Manager host → TunnelConfig × Manager host
  unfolding exclude_loopback_from_allowed_ips disable_ipv6_from_config
      prepare_tunnel_config_for_start
  prepare_start name c m =
      let (peers1, modified1) =
        exclude_loopback_from_allowed_ips m.router.exclude_loopback c.peers in
      let (peers2, modified2) = disable_ipv6_from_config m.router.config.disable_ipv6 peers1 in
      let (router', world', c', modified3) =
        prepare_tunnel_config_for_start sys (host.outside m.requests).answers name
          (record c { peers = peers2 }) m.router m.world in
      let saved = sys.save_tunnel c' world'.store in
      let world2 : World sys =
        if modified1 || (modified2 || modified3)
        then record world' { store = saved.1 }
        else world' in
      (c', record m { router = router'; world = world2 })

  -- The end of Start.
  unfoldable pub launch :
      TunnelConfig → List Text × Text → Manager host → Option (Option Failure) × Manager host
  unfolding install_tunnel in_transition
  launch c (tt, waiting) m =
      if not (is_nil waiting)
      then (some (some (message (in_transition waiting))), m)
      else let m' : Manager host = record m { jobs = m.jobs ++ stop_tunnels tt ∷ [] } in
        elim (host.path_of c) [
          | raised why ↦ (some (some (message why)), m')
          | returned path ↦ install_tunnel host path m'
        ]

  -- Start; no result where InstallTunnel still waits, or has panicked.
  unfoldable pub start : Text → Manager host → Option (Option Failure) × Manager host
  unfolding prepare_start find_intersecting launch
  start name m = elim (sys.load_tunnel name m.world.store) [
    | raised why ↦ (some (some (message why)), m)
    | returned c ↦
        let (c', m') = prepare_start name c m in
        launch c' (find_intersecting c' m'.world.store m'.tracked) m'
  ]

  -- WaitForStop; no result where the rounds do not suffice, or it has panicked.
  unfoldable pub wait_for_stop : Text → Manager host → Option (Option Failure) × Manager host
  unfolding service_manager
  wait_for_stop name m = elim (host.service_name name) [
    | raised why ↦ (some (some (message why)), m)
    | returned service ↦
        let (err, m') = service_manager host m in
        elim err [
          | some why ↦ (some (some why), m')
          | none ↦ elim (wait_until_gone host host.patience service m'.services) [
            | still_there ↦ (none, m')
            | panicked ↦ (none, m')
            | gone s ↦ (some none, record m' { services = s })
          ]
        ]
  ]

  -- Delete
  unfoldable pub delete : Bool → Text → Manager host → Option Failure × Manager host
  unfolding stop
  delete elevated name m =
      if not elevated
      then (some (errno access_denied), m)
      else let (err, m') = stop name m in
        let (failed, store') = host.delete_name name m'.world.store in
        elim err [
          | some why ↦ (some why, m')
          | none ↦ (as_failure failed, record m' { world = record m'.world { store = store' } })
        ]

  -- State; the state is TunnelUnknown where there is an error.
  unfoldable pub state : Text → Manager host → Option Failure × TunnelState × Manager host
  unfolding service_manager tunnel_state_of
  state name m = elim (host.service_name name) [
    | raised why ↦ (some (message why), Tunnel.unknown, m)
    | returned service ↦
        let (err, m') = service_manager host m in
        elim err [
          | some why ↦ (some why, Tunnel.unknown, m')
          | none ↦ elim (host.open_service service m'.services) [
            | some why ↦ (none, Tunnel.stopped, m')
            | none ↦
                let (query_err, n) = host.query_service service m'.services in
                (none, if is_error query_err then Tunnel.unknown else tunnel_state_of n, m')
          ]
        ]
  ]

  -- The first loop of the goroutine of Start.
  unfoldable pub stop_all : List Text → Manager host → Manager host
  unfolding stop
  stop_all [] m = m
  stop_all (t ∷ rest) m = stop_all rest (stop t m).1

  -- Its second loop.
  unfoldable pub stop_zombies : List Text → Manager host → Manager host
  unfolding stop state
  stop_zombies [] m = m
  stop_zombies (t ∷ rest) m =
      let (err, found, m1) = state t m in
      let m2 = (stop t m1).1 in
      let again = not (is_error err) && is_zombie (returned found) in
      stop_zombies rest (if again then record m2 { services = host.sleep m2.services } else m1)

  -- The goroutine of Start.
  unfoldable pub run_stops : List Text → Manager host → Manager host
  unfolding stop_all stop_zombies
  run_stops tt m = stop_zombies tt (stop_all tt m)

  -- Create
  unfoldable pub create : Bool → TunnelConfig → Manager host → Option Failure × Manager host
  create elevated c m =
      if not elevated
      then (some (errno access_denied), m)
      else let (failed, store') = sys.save_tunnel c m.world.store in
        (as_failure failed, record m { world = record m.world { store = store' } })

  -- The loop of Quit.
  unfoldable pub uninstall_all : List Text → Manager host → Manager host
  unfolding uninstall_tunnel
  uninstall_all [] m = m
  uninstall_all (name ∷ rest) m = uninstall_all rest (uninstall_tunnel host name m).1

  -- Quit, by the service with this id: alreadyQuit and the error.
  unfoldable pub quit :
      ManagerService → Bool → Manager host → (Bool × Option Failure) × Manager host
  unfolding uninstall_all
  quit s stop_tunnels_on_quit m =
      if not s.is_elevated
      then ((false, some (errno access_denied)), m)
      else if m.have_quit
      then ((true, none), m)
      else let m1 : Manager host = record m {
        have_quit = true;
        listeners = without_service s.id m.listeners;
      } in
        if not stop_tunnels_on_quit
        then ((false, none), record m1 { quits = m1.quits + 1 })
        else elim (sys.list_tunnels m1.world.store) [
          | raised why ↦ ((false, some (message why)), m1)
          | returned names ↦
              let m2 = uninstall_all names m1 in ((false, none), record m2 { quits = m2.quits + 1 })
        ]

  -- Update: the goroutine is started, for the elevated only.
  unfoldable pub update : Bool → Manager host → Manager host
  update elevated m = if not elevated then m else record m { jobs = m.jobs ++ relay_update ∷ [] }
