-- ===== src/Manager/Notify.antt =====
-- manager/ipc_server.go: what the manager service tells its windows.
--
-- A goroutine of notifyAll writes at some later time, and its write may end early, at its deadline.
use amneziawg_windows_client.Common.{
  if◌then◌else◌, true, none, ◌&&◌, List, some, Option, false, ◌∷◌, map, ◌++◌, not, [], Bool, ◌||◌,
  take, ℕ, ◌==◌,
}
use amneziawg_windows_client.Common.Text.{Text}
use amneziawg_windows_client.Ipc.{
  state_value, UpdateState, uint_value, Value, update_value, text_value,
  update_found_notification_type, bool_value, tunnel_change_notification_type,
  update_progress_notification_type, manager_stopping_notification_type, type_value,
  tunnels_change_notification_type, notification_number,
}
use amneziawg_windows_client.Ipc.Events.{
  update_found, manager_stopping, Notification, DownloadProgress, tunnel_changed, tunnels_changed,
  update_progressed,
}
use amneziawg_windows_client.Manager.{Manager, Failure, ManagerService, Host, Job, write_events}
use amneziawg_windows_client.Manager.Configs.{now}
use amneziawg_windows_client.Manager.Server.{err_to_string}
use amneziawg_windows_client.PortFirewall.Manager.{on_tunnel_state_change as on_ports_state_change}
use amneziawg_windows_client.Router.{System}
use amneziawg_windows_client.Router.Lifecycle.{on_tunnel_state_change}
use amneziawg_windows_client.Tracker.{tracked_tunnels_global_state}
use amneziawg_windows_client.Tunnel.{TunnelState}

-- The text of an error on the stream.
abbrev pub error_string : Option Text → Text
error_string none = []
error_string (some why) = why

-- What notifyAll encodes: the type and what comes with it.
unfoldable pub notification_values : Notification → List Value
unfolding notification_number
notification_values (tunnel_changed name now global_state err) =
    type_value (notification_number tunnel_change_notification_type)
    ∷ text_value name
    ∷ state_value now
    ∷ state_value global_state
    ∷ text_value (error_string err)
    ∷ []
notification_values tunnels_changed =
    type_value (notification_number tunnels_change_notification_type) ∷ []
notification_values manager_stopping =
    type_value (notification_number manager_stopping_notification_type) ∷ []
notification_values (update_found result) =
    type_value (notification_number update_found_notification_type) ∷ update_value result ∷ []
notification_values (update_progressed dp) =
    type_value (notification_number update_progress_notification_type)
    ∷ text_value dp.activity
    ∷ uint_value dp.bytes_downloaded
    ∷ uint_value dp.bytes_total
    ∷ text_value (error_string dp.error)
    ∷ bool_value dp.complete
    ∷ []

-- `dp.Complete || dp.Error != nil`
abbrev pub is_final : DownloadProgress → Bool
is_final dp = dp.complete || elim dp.error [ none ↦ false | some why ↦ true ]

-- The goroutine of notifyAll on its service. So many of the values are written; the error of a write
-- that ends early is dropped.
unfoldable pub write_event : ℕ → List Value → ManagerService → ManagerService
write_event written vs s = elim s.events [
  | none ↦ s
  | some writes ↦ record s { events = some (writes ++ take written vs ∷ []) }
]

-- The loop of notifyAll: a goroutine for each service, but for those that are not elevated where the
-- notification is for the elevated only.
unfoldable pub start_writes : Bool → List Value → List ManagerService → List Job
start_writes admin_only vs [] = []
start_writes admin_only vs (s ∷ rest) =
    let later = start_writes admin_only vs rest in
    if not s.is_elevated && admin_only then later else write_events s.id vs ∷ later

module _ {sys : System} (host : Host sys) where
  -- notifyAll
  unfoldable pub notify_all : Notification → Bool → Manager host → Manager host
  unfolding start_writes notification_values
  notify_all n admin_only m = record m {
    jobs = m.jobs ++ start_writes admin_only (notification_values n) m.listeners;
  }

  -- A goroutine of notifyAll runs: the services that are still listed. What it writes to one that has
  -- left managerServices meanwhile is left out.
  unfoldable pub run_write : ℕ → ℕ → List Value → Manager host → Manager host
  unfolding write_event
  run_write id written vs m = record m {
    listeners = map (λ s. if s.id == id then write_event written vs s else s) m.listeners;
  }

  -- IPCServerNotifyTunnelChange
  unfoldable pub notify_tunnel_change :
      Text → TunnelState → Option Failure → Manager host → Manager host
  unfolding on_tunnel_state_change on_ports_state_change notify_all err_to_string
  notify_tunnel_change name now err m =
      let (router', world') =
        on_tunnel_state_change sys (host.outside m.requests).answers name now m.router m.world in
      let (firewall', done) =
        on_ports_state_change (host.outside m.requests).ports name now m.firewall in
      notify_all
        (tunnel_changed name now (tracked_tunnels_global_state m.tracked)
          (some (err_to_string host err)))
        false
        (record m {
          router = router';
          world = world';
          firewall = firewall';
          effects = m.effects ++ done;
        })

  -- IPCServerNotifyTunnelsChange
  unfoldable pub notify_tunnels_change : Manager host → Manager host
  unfolding notify_all
  notify_tunnels_change m = notify_all tunnels_changed false m

  -- IPCServerNotifyUpdateFound
  unfoldable pub notify_update_found : UpdateState → Manager host → Manager host
  unfolding notify_all
  notify_update_found result m = notify_all (update_found result) false m

  -- IPCServerNotifyUpdateProgress, for the elevated only.
  unfoldable pub notify_update_progress : DownloadProgress → Manager host → Manager host
  unfolding notify_all
  notify_update_progress dp m = notify_all (update_progressed dp) true m

  -- IPCServerNotifyManagerStopping
  unfoldable pub notify_manager_stopping : Manager host → Manager host
  unfolding notify_all
  notify_manager_stopping m = notify_all manager_stopping false m

  -- The goroutine of Update, on what it receives.
  unfoldable pub relay : List DownloadProgress → Manager host → Manager host
  unfolding notify_update_progress
  relay [] m = m
  relay (dp ∷ rest) m =
      let m' = notify_update_progress dp m in
      let later = relay rest m' in if is_final dp then m' else later
