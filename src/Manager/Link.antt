-- ===== src/Manager/Link.antt =====
-- manager/ipc_client.go and ipc_server.go: a window that is connected to its ManagerService.
use amneziawg_windows_client.Common.{
  if◌then◌else◌, none, some, Option, Bool, not, ◌++◌, [], List, ℕ, ◌∷◌,
}
use amneziawg_windows_client.Common.Text.{Text}
use amneziawg_windows_client.Ipc.{
  mode_value, config_value, records_value, tunnels_value, ports_value, update_value, bool_value,
  Value, entries_value, decoded_error, int_value, rules_value, tunnel_value, state_value, dns_value,
}
use amneziawg_windows_client.Ipc.Calls.{
  tunnel_wait_for_stop, ipc_client_new_tunnel, ipc_client_update, ipc_client_global_state,
  tunnel_delete, ipc_client_update_state, tunnel_state, tunnel_stored_config, tunnel_stop,
  ipc_client_quit, tunnel_runtime_config, tunnel_start, ipc_client_tunnels,
}
use amneziawg_windows_client.Ipc.Client.{Transport}
use amneziawg_windows_client.Ipc.RoutingCalls.{
  ipc_client_dns_log_set_enabled, ipc_client_set_domain_routing_dns_settings,
  ipc_client_set_domain_routing_mode, ipc_client_local_dns_add_record,
  ipc_client_set_domain_routing_disable_ipv6, ipc_client_dns_log_get_entries,
  ipc_client_domain_routing_mode, ipc_client_set_port_firewall_rules,
  ipc_client_domain_routing_rules, ipc_client_domain_routing_exclude_loopback,
  ipc_client_domain_routing_dns_settings, ipc_client_port_firewall_rules,
  ipc_client_dns_log_get_entries_since_index, ipc_client_dns_log_get_count,
  ipc_client_set_domain_routing_rules, ipc_client_local_dns_remove_record,
  ipc_client_set_domain_routing_exclude_loopback, ipc_client_domain_routing_disable_ipv6,
  ipc_client_dns_log_clear, ipc_client_local_dns_get_records,
}
use amneziawg_windows_client.Manager.{ManagerService, Manager, Host}
use amneziawg_windows_client.Manager.Requests.{
  ask_delete, Request, ask_set_ports, ask_exclude_loopback, ask_tunnels, ask_state, ask_start,
  ask_entries_since, ask_set_exclude_loopback, ask_stored_config, ask_records, ask_set_disable_ipv6,
  ask_disable_ipv6, ask_clear, ask_add_record, ask_set_rules, ask_create, ask_set_dns_settings,
  ask_wait_for_stop, ask_remove_record, ask_ports, ask_stop, ask_rules, ask_update,
  ask_dns_settings, ask_entries, ask_set_enabled, ask_set_mode, ask_quit, ask_mode, ask_count,
  ask_global_state, ask_update_state, ask_runtime_config,
}
use amneziawg_windows_client.Manager.Server.{
  serve_conn, only_value, err_to_string, nothing, Reply, only_error, handle, both,
}
use amneziawg_windows_client.Router.{System, raised, returned, Fallible}

-- What a call brings a window: a value, and the text of an error.
abbrev pub Seen : Type 0
Seen = Option Value × Option Text

abbrev pub seen_value : {A S : Type 0} → (A → Value) → (A × Option Text) × S → Seen × S
seen_value f result = let ((a, err), s) = result in ((some (f a), err), s)

abbrev pub seen_error : {S : Type 0} → Option Text × S → Seen × S
seen_error result = let (err, s) = result in ((none, err), s)

-- The window's call of each method.
unfoldable pub call : {S : Type 0} (rpc : Transport S) → Request → S → Seen × S
call rpc (ask_stored_config name) s = seen_value config_value (tunnel_stored_config rpc name s)
call rpc (ask_runtime_config name) s = seen_value config_value (tunnel_runtime_config rpc name s)
call rpc (ask_start name) s = seen_error (tunnel_start rpc name s)
call rpc (ask_stop name) s = seen_error (tunnel_stop rpc name s)
call rpc (ask_wait_for_stop name) s = seen_error (tunnel_wait_for_stop rpc name s)
call rpc (ask_delete name) s = seen_error (tunnel_delete rpc name s)
call rpc (ask_state name) s = seen_value state_value (tunnel_state rpc name s)
call rpc ask_global_state s = seen_value state_value (ipc_client_global_state rpc s)
call rpc (ask_create config) s = seen_value tunnel_value (ipc_client_new_tunnel rpc config s)
call rpc ask_tunnels s = seen_value tunnels_value (ipc_client_tunnels rpc s)
call rpc (ask_quit stop_tunnels_on_quit) s =
    seen_value bool_value (ipc_client_quit rpc stop_tunnels_on_quit s)
call rpc ask_update_state s = seen_value update_value (ipc_client_update_state rpc s)
call rpc ask_update s = seen_error (ipc_client_update rpc s)
call rpc ask_mode s = seen_value mode_value (ipc_client_domain_routing_mode rpc s)
call rpc (ask_set_mode mode) s = seen_error (ipc_client_set_domain_routing_mode rpc mode s)
call rpc ask_rules s = seen_value rules_value (ipc_client_domain_routing_rules rpc s)
call rpc (ask_set_rules rules) s = seen_error (ipc_client_set_domain_routing_rules rpc rules s)
call rpc ask_exclude_loopback s =
    seen_value bool_value (ipc_client_domain_routing_exclude_loopback rpc s)
call rpc (ask_set_exclude_loopback exclude) s =
    seen_error (ipc_client_set_domain_routing_exclude_loopback rpc exclude s)
call rpc ask_disable_ipv6 s = seen_value bool_value (ipc_client_domain_routing_disable_ipv6 rpc s)
call rpc (ask_set_disable_ipv6 disable) s =
    seen_error (ipc_client_set_domain_routing_disable_ipv6 rpc disable s)
call rpc ask_dns_settings s = seen_value dns_value (ipc_client_domain_routing_dns_settings rpc s)
call rpc (ask_set_dns_settings settings) s =
    seen_error (ipc_client_set_domain_routing_dns_settings rpc settings s)
call rpc ask_records s = seen_value records_value (ipc_client_local_dns_get_records rpc s)
call rpc (ask_add_record domain record_ip) s =
    seen_error (ipc_client_local_dns_add_record rpc domain record_ip s)
call rpc (ask_remove_record domain) s = seen_error (ipc_client_local_dns_remove_record rpc domain s)
call rpc ask_entries s = seen_value entries_value (ipc_client_dns_log_get_entries rpc s)
call rpc ask_clear s = seen_error (ipc_client_dns_log_clear rpc s)
call rpc (ask_set_enabled enabled) s = seen_error (ipc_client_dns_log_set_enabled rpc enabled s)
call rpc ask_count s = seen_value int_value (ipc_client_dns_log_get_count rpc s)
call rpc (ask_entries_since from_index) s =
    seen_value entries_value (ipc_client_dns_log_get_entries_since_index rpc from_index s)
call rpc ask_ports s = seen_value ports_value (ipc_client_port_firewall_rules rpc s)
call rpc (ask_set_ports data_wanted) s =
    seen_error (ipc_client_set_port_firewall_rules rpc data_wanted s)

-- A connection: the manager, what was written and is not yet read, and whether it is served.
pub record Link {sys : System} (host : Host sys) : Type 0 where
  pub manager : Manager host
  pub incoming : List Value
  pub is_open : Bool

module _ {sys : System} (host : Host sys) where
  -- The next value that the window decodes; a read that would wait is an error.
  abbrev pub take_value : Text → Link host → List Value → Fallible Value × Link host
  take_value broken l [] = (raised broken, l)
  take_value broken l (v ∷ rest) = (returned v, record l { incoming = rest })

  -- The pipes between a window and ServeConn of a service. What one function encodes is served at
  -- once; a pipe takes `room` values until they are read. `broken` is the error of a pipe that is no
  -- longer served, and of a value of another type.
  unfoldable pub pipes : ManagerService → ℕ → Text → Transport (Link host)
  pipes s room broken = record {
    encode = λ vs l.
        if l.is_open
        then (let served = serve_conn host s room vs l.manager in
            (
              none,
              record {
                manager = served.manager;
                incoming = l.incoming ++ served.written;
                is_open = not served.has_ended;
              },
            ))
        else (some broken, l);
    decode = λ l. take_value broken l l.incoming;
    wrong_type = broken;
  }

  -- A reply as the window sees it: an error by its text, which is none where it is empty.
  unfoldable pub seen : Reply → Seen
  seen nothing = (none, none)
  seen (only_value v) = (some v, none)
  seen (only_error err) = (none, decoded_error (err_to_string host err))
  seen (both v err) = (some v, decoded_error (err_to_string host err))

  -- The window's calls one after another, through the pipes.
  unfoldable pub call_all : Transport (Link host) → List Request → Link host → List Seen × Link host
  unfolding call
  call_all rpc [] l = ([], l)
  call_all rpc (r ∷ rs) l =
      let (result, l1) = call rpc r l in
      let (results, l2) = call_all rpc rs l1 in (result ∷ results, l2)

  abbrev pub run_next :
      Option Reply → Option (List Seen × Manager host) → Option (List Seen × Manager host)
  run_next none later = none
  run_next (some reply) none = none
  run_next (some reply) (some (results, m)) = some (seen reply ∷ results, m)

  -- The methods one after another, without the pipes; none where one of them still waits.
  unfoldable pub run_all :
      ManagerService → List Request → Manager host → Option (List Seen × Manager host)
  unfolding seen
  run_all s [] m = some ([], m)
  run_all s (r ∷ rs) m = let (reply, m1) = handle host s r m in run_next reply (run_all s rs m1)
