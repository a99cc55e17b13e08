-- ===== src/Ipc/Calls.antt =====
-- manager/ipc_client.go: the calls about tunnels, the manager and updates.
use amneziawg_windows_client.Tunnel
use amneziawg_windows_client.Common.{false, [], Bool, List, ◌∷◌, Option, none, some}
use amneziawg_windows_client.Common.Text.{Text}
use amneziawg_windows_client.Ipc.{
  method_number, runtime_config_method_type, method_value, state_method_type,
  stored_config_method_type, text_value, create_method_type, UpdateState, config_value,
  update_unknown, tunnels_method_type, delete_method_type, start_method_type,
  global_state_method_type, update_method_type, quit_method_type, bool_value, no_config,
  update_state_method_type, stop_method_type, wait_for_stop_method_type,
}
use amneziawg_windows_client.Ipc.Client.{
  as_tunnels, as_tunnel, as_state, ask, Transport, as_config, ask_error, as_update, as_bool,
  ask_both,
}
use amneziawg_windows_client.Router.{TunnelConfig}
use amneziawg_windows_client.Tunnel.{TunnelState}

module _ {S : Type 0} (rpc : Transport S) where
  -- Tunnel.StoredConfig
  unfoldable pub tunnel_stored_config : Text → S → (TunnelConfig × Option Text) × S
  unfolding ask_both method_number
  tunnel_stored_config name s =
      ask_both rpc as_config no_config
        (method_value stored_config_method_type ∷ text_value name ∷ []) s

  -- Tunnel.RuntimeConfig
  unfoldable pub tunnel_runtime_config : Text → S → (TunnelConfig × Option Text) × S
  unfolding ask_both method_number
  tunnel_runtime_config name s =
      ask_both rpc as_config no_config
        (method_value runtime_config_method_type ∷ text_value name ∷ []) s

  -- Tunnel.Start
  unfoldable pub tunnel_start : Text → S → Option Text × S
  unfolding ask_error method_number
  tunnel_start name s = ask_error rpc (method_value start_method_type ∷ text_value name ∷ []) s

  -- Tunnel.Stop
  unfoldable pub tunnel_stop : Text → S → Option Text × S
  unfolding ask_error method_number
  tunnel_stop name s = ask_error rpc (method_value stop_method_type ∷ text_value name ∷ []) s

  -- Tunnel.WaitForStop
  unfoldable pub tunnel_wait_for_stop : Text → S → Option Text × S
  unfolding ask_error method_number
  tunnel_wait_for_stop name s =
      ask_error rpc (method_value wait_for_stop_method_type ∷ text_value name ∷ []) s

  -- Tunnel.Delete
  unfoldable pub tunnel_delete : Text → S → Option Text × S
  unfolding ask_error method_number
  tunnel_delete name s = ask_error rpc (method_value delete_method_type ∷ text_value name ∷ []) s

  -- Tunnel.State
  unfoldable pub tunnel_state : Text → S → (TunnelState × Option Text) × S
  unfolding ask_both method_number
  tunnel_state name s =
      ask_both rpc as_state Tunnel.unknown (method_value state_method_type ∷ text_value name ∷ []) s

  -- IPCClientGlobalState
  unfoldable pub ipc_client_global_state : S → (TunnelState × Option Text) × S
  unfolding ask method_number
  ipc_client_global_state s =
      ask rpc as_state Tunnel.unknown (method_value global_state_method_type ∷ []) s

  -- IPCClientNewTunnel
  unfoldable pub ipc_client_new_tunnel : TunnelConfig → S → (Text × Option Text) × S
  unfolding ask_both method_number
  ipc_client_new_tunnel config s =
      ask_both rpc as_tunnel [] (method_value create_method_type ∷ config_value config ∷ []) s

  -- IPCClientTunnels
  unfoldable pub ipc_client_tunnels : S → (List Text × Option Text) × S
  unfolding ask_both method_number
  ipc_client_tunnels s = ask_both rpc as_tunnels [] (method_value tunnels_method_type ∷ []) s

  -- IPCClientQuit
  unfoldable pub ipc_client_quit : Bool → S → (Bool × Option Text) × S
  unfolding ask_both method_number
  ipc_client_quit stop_tunnels_on_quit s =
      ask_both rpc as_bool false
        (method_value quit_method_type ∷ bool_value stop_tunnels_on_quit ∷ []) s

  -- IPCClientUpdateState
  unfoldable pub ipc_client_update_state : S → (UpdateState × Option Text) × S
  unfolding ask method_number
  ipc_client_update_state s =
      ask rpc as_update update_unknown (method_value update_state_method_type ∷ []) s

  -- IPCClientUpdate
  unfoldable pub ipc_client_update : S → Option Text × S
  unfolding method_number
  ipc_client_update s = rpc.encode (method_value update_method_type ∷ []) s

  -- The end of Toggle, at what Stop and Start would do.
  abbrev pub toggle_end :
      TunnelState → Option Text × S → Option Text × S → S → (TunnelState × Option Text) × S
  toggle_end Tunnel.started (err, s) began s0 = ((Tunnel.started, err), s)
  toggle_end Tunnel.stopped ended (err, s) s0 = ((Tunnel.stopped, err), s)
  toggle_end old_state ended began s0 = ((old_state, none), s0)

  -- Tunnel.Toggle
  unfoldable pub tunnel_toggle : Text → S → (TunnelState × Option Text) × S
  unfolding tunnel_state tunnel_start tunnel_stop
  tunnel_toggle name s =
      let ((old_state, err), s1) = tunnel_state name s in
      elim err [
        | some why ↦ ((Tunnel.unknown, some why), s1)
        | none ↦ toggle_end old_state (tunnel_stop name s1) (tunnel_start name s1) s1
      ]
