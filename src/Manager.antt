-- ===== src/Manager.antt =====
-- manager/ipc_server.go: the state of the manager service, and what it asks of Windows.
pub mod Install
pub mod Configs
pub mod Service
pub mod Requests
pub mod Server
pub mod Notify
pub mod Updates
pub mod Sessions
pub mod Link
pub mod LinkLaws
pub mod CallLaws
pub mod StreamLaws
pub mod ServeLaws
pub mod KeptServices
pub mod KeptLaws
pub mod QuitLaws
pub mod ShownLaws
pub mod NotifyLaws
pub mod StartLaws
pub mod UpdateLaws
use amneziawg_windows_client.PortFirewall
use amneziawg_windows_client.Common.{List, ℕ, none, ◌==◌, some, false, Bool, true, Option}
use amneziawg_windows_client.Common.Text.{Text}
use amneziawg_windows_client.DnsLog.{DnsLogger}
use amneziawg_windows_client.Ipc.{Value, UpdateState}
use amneziawg_windows_client.PortFirewall.Manager.{PortFirewallManager, Effect}
use amneziawg_windows_client.Router.{System, Router, Answers, World, Fallible, TunnelConfig}
use amneziawg_windows_client.Syntax.Highlight.{host}
use amneziawg_windows_client.Tunnel.{TunnelState}

-- An error: a number of Windows, or a text.
pub data Failure : Type 0 where
  errno : ℕ → Failure
  message : Text → Failure

-- What the system says during the handling of one request: to the domain router and to the port
-- firewall; net.ParseIP; services.SetUserKeyString; and the pipe of the tunnel's service, where the
-- argument tells whether it is asked for the second time: DialTimeout with what comes before it,
-- Write, and conf.FromUAPI.
pub record Outside : Type 0 where
  pub answers : Answers
  pub ports : PortFirewall.Manager.System
  pub is_ip : Text → Bool
  pub set_user_key : Text → Option Text
  pub dial : Bool → Option Text
  pub write_pipe : Bool → Option Failure
  pub from_uapi : TunnelConfig → Fallible TunnelConfig

-- The service control manager of Windows, its state a type of its own, with what the packages mgr and
-- services of other repositories do: mgr.Connect, ServiceNameOfTunnel, OpenService, Query with the
-- state's number, Control(svc.Stop), Delete, Close, CreateService with the path of the tunnel's
-- configuration, Start, os.Executable, and time.Sleep. The package conf: Redact, IntersectsWith, Path,
-- NameFromPath, DeleteName. The texts of Windows' errors. `outside` is numbered by the requests that
-- were handled before, and `patience` bounds the rounds of a loop that waits for a service to go away.
pub record Host (sys : System) : Type 1 where
  pub Services : Type 0
  pub connect : Services → Option Failure
  pub service_name : Text → Fallible Text
  pub open_service : Text → Services → Option Failure
  pub query_service : Text → Services → Option Failure × ℕ
  pub control_stop : Text → Services → Services
  pub delete_service : Text → Services → Option Failure × Services
  pub close_service : Text → Services → Option Failure
  pub create_service : Text → Text → Services → Option Failure × Services
  pub start_service : Text → Services → Option Failure × Services
  pub executable : Option Text
  pub sleep : Services → Services
  pub redact : TunnelConfig → TunnelConfig
  pub intersects : TunnelConfig → TunnelConfig → Bool
  pub path_of : TunnelConfig → Fallible Text
  pub name_from_path : Text → Fallible Text
  pub delete_name : Text → sys.Store → Option Text × sys.Store
  pub error_text : ℕ → Text
  pub outside : ℕ → Outside
  pub patience : ℕ

-- A ManagerService: whether elevatedToken is not 0, and what was written to its events, the newest
-- last, none once events is nil.
pub record ManagerService : Type 0 where
  pub id : ℕ
  pub is_elevated : Bool
  pub events : Option (List (List Value))

-- A goroutine that was started: that of Start, which stops tunnels, the tracking of a new tunnel
-- service, an update with the relay of its progress, or that of notifyAll, which writes to the events
-- of a service.
pub data Job : Type 0 where
  stop_tunnels : List Text → Job
  track_tunnel : Text → Job
  relay_update : Job
  write_events : ℕ → List Value → Job

-- The variables of the package: domainRouting with the outside world, portFirewall with what it did,
-- the saved local records, dnsLogger, trackedTunnels, the services of Windows, whether serviceManager
-- is cached, the names of connectedTunnelServicePipes, haveQuit, the values sent to quitManagersChan,
-- updateState, managerServices, the goroutines, and the number of requests.
pub record Manager {sys : System} (host : Host sys) : Type 0 where
  pub router : Router
  pub world : World sys
  pub firewall : PortFirewallManager
  pub effects : List Effect
  pub local_records : Text
  pub dns_log : DnsLogger
  pub tracked : List (Text × TunnelState)
  pub services : host.Services
  pub is_connected : Bool
  pub pipes : List Text
  pub have_quit : Bool
  pub quits : ℕ
  pub update_state : UpdateState
  pub listeners : List ManagerService
  pub jobs : List Job
  pub requests : ℕ

abbrev pub is_errno : ℕ → Option Failure → Bool
is_errno n none = false
is_errno n (some (message text)) = false
is_errno n (some (errno k)) = k == n

abbrev pub is_error : Option Failure → Bool
is_error none = false
is_error (some why) = true
