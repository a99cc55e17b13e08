-- ===== src/Manager/Install.antt =====
-- manager/install.go: the services of the tunnels.
use amneziawg_windows_client.Common.{
  suc, [], ℕ, some, ◌++◌, none, zero, ◌∷◌, ◌==◌, Option, if◌then◌else◌, not, true, ◌&&◌,
}
use amneziawg_windows_client.Common.Text.{Text, codes}
use amneziawg_windows_client.Manager.{
  message, Host, Failure, is_error, Manager, track_tunnel, is_errno,
}
use amneziawg_windows_client.Router.{System, raised, returned, raised}

-- The constants of Windows that the manager tells apart.
abbrev pub access_denied : ℕ
access_denied = 5

abbrev pub service_does_not_exist : ℕ
service_does_not_exist = 1060

abbrev pub service_marked_for_delete : ℕ
service_marked_for_delete = 1072

-- How the wait for a service ends: with the services once it is gone, or with a panic, which ends the
-- manager. `still_there` is a wait that is not over after the rounds.
pub data Waited (S : Type 0) : Type 0 where
  still_there panicked : Waited S
  gone : S → Waited S

module _ {sys : System} (host : Host sys) where
  -- serviceManager
  unfoldable pub service_manager : Manager host → Option Failure × Manager host
  service_manager m = if m.is_connected then (none, m) else elim (host.connect m.services) [
    | some why ↦ (some why, m)
    | none ↦ (none, record m { is_connected = true })
  ]

  -- The loops that open a service again until that fails. At ERROR_SERVICE_MARKED_FOR_DELETE they
  -- close the nil service that came with the error.
  unfoldable pub wait_until_gone : ℕ → Text → host.Services → Waited host.Services
  wait_until_gone zero name s = still_there
  wait_until_gone (suc rounds) name s =
      let later = wait_until_gone rounds name (host.sleep s) in
      let found = host.open_service name s in
      if is_errno service_marked_for_delete found
      then panicked
      else if is_error found
      then gone s
      else later

  -- An old service that is there: its query, its deletion and the wait. None where the wait does not
  -- end, or panics.
  unfoldable pub remove_old_service : Text → host.Services → Option (Option Failure × host.Services)
  unfolding wait_until_gone
  remove_old_service name s =
      let (query_err, state) = host.query_service name s in
      let marked = is_errno service_marked_for_delete query_err in
      let (delete_err, s1) = host.delete_service name s in
      if is_error query_err && not marked
      then some (query_err, s)
      else if not (state == 1) && not marked
      then some (some (message (codes "Tunnel already installed and running")), s)
      else if is_error delete_err && not (is_errno service_marked_for_delete delete_err)
      then some (delete_err, s1)
      else elim (wait_until_gone host.patience name s1) [
        | still_there ↦ none
        | panicked ↦ none
        | gone s2 ↦ some (none, s2)
      ]

  -- CreateService, Start and the goroutine that tracks the tunnel.
  unfoldable pub create_tunnel_service :
      Text → Text → Text → Manager host → Option Failure × Manager host
  create_tunnel_service name service config_path m =
      let (create_err, s1) = host.create_service service config_path m.services in
      let (start_err, s2) = host.start_service service s1 in
      elim create_err [
        | some why ↦ (some why, record m { services = s1 })
        | none ↦ (start_err, record m { services = s2; jobs = m.jobs ++ track_tunnel name ∷ [] })
      ]

  abbrev pub behind_removal :
      Text
      → Text
      → Text
      → Manager host
      → Option (Option Failure × host.Services)
      → Option (Option Failure) × Manager host
  behind_removal name service path m none = (none, m)
  behind_removal name service path m (some (some why, s)) =
      (some (some why), record m { services = s })
  behind_removal name service path m (some (none, s)) =
      let (err, m') = create_tunnel_service name service path (record m { services = s }) in
      (some err, m')

  -- InstallTunnel behind the names.
  unfoldable pub install_service :
      Text → Text → Text → Manager host → Option (Option Failure) × Manager host
  unfolding remove_old_service create_tunnel_service
  install_service name service path m = elim (host.open_service service m.services) [
    | none ↦ behind_removal name service path m (remove_old_service service m.services)
    | some why ↦ behind_removal name service path m (some (none, m.services))
  ]

  -- InstallTunnel; no result where it still waits, or has panicked.
  unfoldable pub install_tunnel : Text → Manager host → Option (Option Failure) × Manager host
  unfolding service_manager install_service
  install_tunnel path m =
      let (err, m') = service_manager m in
      elim err [
        | some why ↦ (some (some why), m')
        | none ↦ elim host.executable [
          | none ↦ (some none, m')
          | some exe ↦ elim (host.name_from_path path) [
            | raised why ↦ (some (some (message why)), m')
            | returned name ↦ elim (host.service_name name) [
              | raised why ↦ (some (some (message why)), m')
              | returned service ↦ install_service name service path m'
            ]
          ]
        ]
      ]

  -- UninstallTunnel behind OpenService.
  unfoldable pub remove_service : Text → Manager host → Option Failure × Manager host
  remove_service service m =
      let (delete_err, s) = host.delete_service service (host.control_stop service m.services) in
      let close_err = host.close_service service s in
      (
        if is_error delete_err && not (is_errno service_marked_for_delete delete_err)
            then delete_err
            else close_err,
        record m { services = s },
      )

  -- UninstallTunnel
  unfoldable pub uninstall_tunnel : Text → Manager host → Option Failure × Manager host
  unfolding service_manager remove_service
  uninstall_tunnel name m =
      let (err, m') = service_manager m in
      elim err [
        | some why ↦ (some why, m')
        | none ↦ elim (host.service_name name) [
          | raised why ↦ (some (message why), m')
          | returned service ↦ elim (host.open_service service m'.services) [
            | some why ↦ (some why, m')
            | none ↦ remove_service service m'
          ]
        ]
      ]
