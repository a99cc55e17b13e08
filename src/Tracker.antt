-- ===== src/Tracker.antt =====
-- manager/tunneltracker.go: the states of the services of tunnels, and what a change of them leads to.
pub mod TrackerLaws
use amneziawg_windows_client.Tunnel
use amneziawg_windows_client.Common.{
  ℕ, List, ◌%◌, Bool, false, if◌then◌else◌, ◌/◌, ◌+◌, ◌∷◌, none, ◌==◌, true, ◌||◌, [], some, Option,
}
use amneziawg_windows_client.Common.Text.{Text}
use amneziawg_windows_client.Tunnel.{TunnelState}

-- Is this bit of the number set?
abbrev bit : ℕ → ℕ → Bool
bit s value = (s / value) % 2 == 1

-- svcStateToNotifyState, at the constants SERVICE_STOPPED = 1 to SERVICE_PAUSED = 7 of Windows: the
-- bits of SERVICE_NOTIFY_STOPPED and so on.
unfoldable pub svc_state_to_notify_state : ℕ → ℕ
svc_state_to_notify_state s =
    if s == 1
    then 1
    else if s == 2
    then 2
    else if s == 3
    then 4
    else if s == 4
    then 8
    else if s == 5
    then 16
    else if s == 6
    then 32
    else if s == 7
    then 64
    else 0

-- notifyStateToTunState: SERVICE_NOTIFY_DELETED is 256, SERVICE_NOTIFY_DELETE_PENDING 512.
unfoldable pub notify_state_to_tun_state : ℕ → TunnelState
notify_state_to_tun_state s =
    if bit s 1 || bit s 256
    then Tunnel.stopped
    else if bit s 512 || bit s 4
    then Tunnel.stopping
    else if bit s 8
    then Tunnel.started
    else if bit s 2
    then Tunnel.starting
    else Tunnel.unknown

-- trackedTunnelsGlobalState, over the tracked tunnels and with the state so far.
unfoldable pub global_loop : TunnelState → List (Text × TunnelState) → TunnelState
global_loop state [] = state
global_loop state ((name, Tunnel.starting) ∷ rest) = Tunnel.starting
global_loop state ((name, Tunnel.stopping) ∷ rest) = Tunnel.stopping
global_loop state ((name, Tunnel.started) ∷ rest) = global_loop Tunnel.started rest
global_loop state ((name, Tunnel.unknown) ∷ rest) = global_loop Tunnel.started rest
global_loop state ((name, Tunnel.stopped) ∷ rest) = global_loop state rest

unfoldable pub tracked_tunnels_global_state : List (Text × TunnelState) → TunnelState
unfolding global_loop
tracked_tunnels_global_state tracked = global_loop Tunnel.stopped tracked

-- svc.Status, where service.Query has no error.
pub record ServiceStatus : Type 0 where
  pub win32_exit_code : ℕ
  pub specific_exit_code : ℕ

pub data TunnelError : Type 0 where
  service_error errno : ℕ → TunnelError

-- Why the service has stopped. ERROR_SERVICE_SPECIFIC_ERROR is 1066, ERROR_SERVICE_NEVER_STARTED
-- 1077, ErrorSuccess 0.
unfoldable pub tunnel_error : Option ServiceStatus → Option TunnelError
tunnel_error none = none
tunnel_error (some status) =
    if status.win32_exit_code == 1066
    then (if status.specific_exit_code == 0
        then none
        else some (service_error status.specific_exit_code))
    else if status.win32_exit_code == 0 || status.win32_exit_code == 1077
    then none
    else some (errno status.win32_exit_code)

-- A call of IPCServerNotifyTunnelChange for the tunnel.
pub record Notice : Type 0 where
  pub state : TunnelState
  pub error : Option TunnelError

-- One tunnel's tracker: its entry in trackedTunnels, lastState, the notices so far, the newest first,
-- and how often service.Delete was called.
pub record Tracker : Type 0 where
  pub tracked : TunnelState
  pub last_state : TunnelState
  pub notices : List Notice
  pub deletions : ℕ

-- What Windows says during one callback: the status that is reported, service.Query, and whether
-- service.Config shows a service that is deleted or disabled.
pub record Report : Type 0 where
  pub status : ℕ
  pub query : Option ServiceStatus
  pub is_disabled : Bool

abbrev pub same_state : TunnelState → TunnelState → Bool
same_state Tunnel.unknown Tunnel.unknown = true
same_state Tunnel.started Tunnel.started = true
same_state Tunnel.stopped Tunnel.stopped = true
same_state Tunnel.starting Tunnel.starting = true
same_state Tunnel.stopping Tunnel.stopping = true
same_state _ _ = false

-- checkForDisabled
unfoldable pub check_for_disabled : Bool → Tracker → Tracker × Bool
check_for_disabled found t =
    if found
    then (
      record t {
        tracked = Tunnel.stopped;
        notices = record { state = Tunnel.stopped; error = none } ∷ t.notices;
        deletions = t.deletions + 1;
      },
      true,
    )
    else (t, false)

-- The error, where the service has stopped.
abbrev pub error_at : TunnelState → Option ServiceStatus → Option TunnelError
error_at Tunnel.stopped query = tunnel_error query
error_at _ query = none

abbrev pub deletion : Option TunnelError → ℕ
deletion none = 0
deletion (some why) = 1

-- The callback of trackTunnelService, and whether the tracking ends.
unfoldable pub on_status : Report → Tracker → Tracker × Bool
unfolding notify_state_to_tun_state tunnel_error check_for_disabled
on_status report t =
    let state' = notify_state_to_tun_state report.status in
    let err = error_at state' report.query in
    let t1 : Tracker = record t { deletions = t.deletions + deletion err } in
    let t2 : Tracker = if same_state state' t.last_state then t1 else record t1 {
      tracked = state';
      last_state = state';
      notices = record { state = state'; error = err } ∷ t1.notices;
    } in
    let (t3, ended) =
      if same_state state' Tunnel.unknown
      then check_for_disabled report.is_disabled t2
      else (t2, false) in
    (t3, ended || same_state state' Tunnel.stopped)

-- The callbacks of trackService, until one ends the tracking.
unfoldable pub on_statuses : List Report → Tracker → Tracker × Bool
unfolding on_status
on_statuses [] t = (t, false)
on_statuses (report ∷ reports) t =
    let (t', ended) = on_status report t in
    let later = on_statuses reports t' in if ended then (t', true) else later

-- A tracker that begins.
abbrev pub new_tracker : Tracker
new_tracker = record {
  tracked = Tunnel.unknown;
  last_state = Tunnel.unknown;
  notices = [];
  deletions = 0;
}
