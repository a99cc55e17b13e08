-- ===== src/Ipc/Events.antt =====
-- manager/ipc_client.go: the notifications, and the goroutine of InitializeIPCClient that reads them.
use amneziawg_windows_client.Tunnel
use amneziawg_windows_client.Common.{
  ◌∷◌, get_elem?, [], zero, some, none, suc, if◌then◌else◌, List, ◌==◌, ℕ, Bool, Option, is_nil,
  length,
}
use amneziawg_windows_client.Common.Text.{Text}
use amneziawg_windows_client.Ipc.{
  tunnel_change_notification_type, tunnels_change_notification_type,
  manager_stopping_notification_type, update_found_notification_type,
  update_progress_notification_type, type_value, notification_types, decoded_error, UpdateState,
  Value, NotificationType, uint_value,
}
use amneziawg_windows_client.Ipc.Client.{as_state, as_bool, as_text, as_update}
use amneziawg_windows_client.Manager.Service.{state}
use amneziawg_windows_client.Tunnel.{TunnelState}

-- updater.DownloadProgress, the error by its text.
pub record DownloadProgress : Type 0 where
  pub activity : Text
  pub bytes_downloaded : ℕ
  pub bytes_total : ℕ
  pub error : Option Text
  pub complete : Bool

-- A notification with what it carries.
pub data Notification : Type 0 where
  tunnel_changed : Text → TunnelState → TunnelState → Option Text → Notification
  tunnels_changed manager_stopping : Notification
  update_found : UpdateState → Notification
  update_progressed : DownloadProgress → Notification

-- decoder.Decode into a variable: a value of another type is used up.
abbrev pub field : {A : Type 0} → (Value → Option A) → List Value → Option A × List Value
field read [] = (none, [])
field read (v ∷ rest) = (read v, rest)

abbrev pub as_uint : Value → Option ℕ
as_uint (uint_value n) = some n
as_uint _ = none

-- A part of a notification, where the rest goes on with what was read.
abbrev pub behind :
    {A : Type 0}
    → Option A × List Value
    → (A → List Value → Option Notification × List Value)
    → Option Notification × List Value
behind (none, rest) f = (none, rest)
behind (some a, rest) f = f a rest

-- A TunnelUnknown is not told.
abbrev pub told_change : Text → TunnelState → TunnelState → Option Text → Option Notification
told_change name Tunnel.unknown global_state err = none
told_change name state global_state err = some (tunnel_changed name state global_state err)

-- The cases of the goroutine: the notification, none where the loop continues without it.
unfoldable pub read_notification : NotificationType → List Value → Option Notification × List Value
unfolding decoded_error
read_notification tunnel_change_notification_type vs = behind (field as_text vs) (λ name r1.
    if is_nil name
    then (none, r1)
    else behind (field as_state r1) (λ state r2. behind (field as_state r2) (λ global_state r3.
      behind (field as_text r3)
        (λ err_str r4. (told_change name state global_state (decoded_error err_str), r4)))))
read_notification tunnels_change_notification_type vs = (some tunnels_changed, vs)
read_notification manager_stopping_notification_type vs = (some manager_stopping, vs)
read_notification update_found_notification_type vs =
    behind (field as_update vs) (λ state rest. (some (update_found state), rest))
read_notification update_progress_notification_type vs = behind (field as_text vs) (λ activity r1.
    behind (field as_uint r1) (λ downloaded r2. behind (field as_uint r2) (λ total r3.
      behind (field as_text r3) (λ err_str r4. behind (field as_bool r4) (λ complete r5. (
        some (
            update_progressed (record {
              activity = activity;
              bytes_downloaded = downloaded;
              bytes_total = total;
              error = decoded_error err_str;
              complete = complete;
            })),
        r5,
      ))))))

-- A number that is no constant has no case.
abbrev pub read_known : Option NotificationType → List Value → Option Notification × List Value
read_known none vs = (none, vs)
read_known (some kind) vs = read_notification kind vs

-- One round: none where the type cannot be decoded, which ends the goroutine.
unfoldable pub next_notification : List Value → Option (Option Notification × List Value)
unfolding read_notification notification_types
next_notification (type_value n ∷ vs) = some (read_known (get_elem? notification_types n) vs)
next_notification _ = none

abbrev pub heard : Option Notification → List Notification → List Notification
heard none rest = rest
heard (some n) rest = n ∷ rest

-- The goroutine, with the notifications that it passes on. Each round uses up a value.
unfoldable pub read_events : ℕ → List Value → List Notification
unfolding next_notification
read_events zero vs = []
read_events (suc rounds) vs = elim (next_notification vs) [
  | none ↦ []
  | some (found, rest) ↦ heard found (read_events rounds rest)
]

-- InitializeIPCClient's goroutine on all that it reads.
unfoldable pub initialize_ipc_client : List Value → List Notification
unfolding read_events
initialize_ipc_client vs = read_events (length vs) vs

-- The maps of callbacks, by the callbacks' numbers.
pub record Callbacks : Type 0 where
  pub tunnel_change : List ℕ
  pub tunnels_change : List ℕ
  pub manager_stopping : List ℕ
  pub update_found : List ℕ
  pub update_progress : List ℕ

-- IPCClientRegister..., into one of the maps: a new callback has a number of its own.
unfoldable pub register : ℕ → List ℕ → List ℕ
register cb cbs = cb ∷ cbs

-- Unregister
unfoldable pub unregister : ℕ → List ℕ → List ℕ
unregister cb [] = []
unregister cb (x ∷ xs) = let rest = unregister cb xs in if x == cb then rest else x ∷ rest

-- The callbacks that a notification is passed on to.
unfoldable pub callbacks_of : Notification → Callbacks → List ℕ
callbacks_of (tunnel_changed name state global_state err) cbs = cbs.tunnel_change
callbacks_of tunnels_changed cbs = cbs.tunnels_change
callbacks_of manager_stopping cbs = cbs.manager_stopping
callbacks_of (update_found state) cbs = cbs.update_found
callbacks_of (update_progressed dp) cbs = cbs.update_progress
