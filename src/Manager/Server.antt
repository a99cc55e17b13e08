-- ===== src/Manager/Server.antt =====
-- manager/ipc_server.go: ServeConn calls the method of a request and encodes the reply.
use amneziawg_windows_client.DnsLog
use amneziawg_windows_client.Common.{
  ◌+◌, ltb, suc, true, ◌∷◌, false, some, Bool, zero, [], take, Option, ℕ, none, length, ◌-◌,
  if◌then◌else◌, ◌++◌, List,
}
use amneziawg_windows_client.Common.Text.{Text}
use amneziawg_windows_client.DnsLog.{clear, get_entries_since_index, set_enabled, count}
use amneziawg_windows_client.Ipc.{
  mode_value, text_value, config_value, tunnel_value, int_value, records_value, rules_value,
  update_value, state_value, bool_value, tunnels_value, Value, ports_value, entries_value,
  dns_value, no_config,
}
use amneziawg_windows_client.LocalRecords.{
  remove_local_dns_record, saved, add_local_dns_record, refused, Change, load_local_records,
  unchanged,
}
use amneziawg_windows_client.Manager.{
  errno, is_error, Host, Failure, ManagerService, Manager, message,
}
use amneziawg_windows_client.Manager.Configs.{runtime_config, stored_config}
use amneziawg_windows_client.Manager.Requests.{
  ask_set_dns_settings, ask_set_enabled, ask_start, ask_records, ask_wait_for_stop,
  ask_disable_ipv6, ask_quit, ask_tunnels, ask_exclude_loopback, ask_update, ask_runtime_config,
  ask_remove_record, ask_clear, ask_entries, ask_ports, Request, ask_set_exclude_loopback,
  ask_set_mode, ask_global_state, ask_stop, ask_add_record, ask_set_ports, ask_rules,
  ask_dns_settings, ask_set_disable_ipv6, ask_stored_config, ask_entries_since, ask_mode,
  read_request, ask_create, ask_delete, ask_state, ask_count, ask_set_rules, ask_update_state,
}
use amneziawg_windows_client.Manager.Service.{
  start, stop, without_service, quit, update, state, create, as_failure, delete, wait_for_stop,
}
use amneziawg_windows_client.PortFirewall.Manager.{
  set_rules as set_port_rules, get_rules as get_port_rules,
}
use amneziawg_windows_client.Router.{System, raised, returned, Fallible, TunnelConfig, Result}
use amneziawg_windows_client.Router.Settings.{
  get_rules, set_rules, get_dns_settings, set_dns_settings, set_mode, set_exclude_loopback,
  set_disable_ipv6, set_rules,
}
use amneziawg_windows_client.Tracker.{tracked_tunnels_global_state}

-- A nil configuration is replaced by an empty one.
abbrev pub or_no_config : Option TunnelConfig → TunnelConfig
or_no_config none = no_config
or_no_config (some c) = c

-- What was saved, and the error, when SetUserKeyString answers with `write`.
unfoldable pub settle_change : (Text → Option Text) → Change → Text → Option Failure × Text
settle_change write (refused why) stored = (some (message why), stored)
settle_change write unchanged stored = (none, stored)
settle_change write (saved text) stored = elim (write text) [
  | some why ↦ (some (message why), stored)
  | none ↦ (none, text)
]

-- What a method returns: a value, an error, both or neither.
pub data Reply : Type 0 where
  nothing : Reply
  only_value : Value → Reply
  only_error : Option Failure → Reply
  both : Value → Option Failure → Reply

-- No reply while the method waits.
abbrev pub when_done : Option (Option Failure) → Option Reply
when_done none = none
when_done (some err) = some (only_error err)

abbrev pub value_or : {A : Type 0} → A → Fallible A → A
value_or other (raised why) = other
value_or other (returned a) = a

abbrev pub error_of : {A : Type 0} → Fallible A → Option Failure
error_of (raised why) = some (message why)
error_of (returned a) = none

module _ {sys : System} (host : Host sys) where
  -- errToString
  unfoldable pub err_to_string : Option Failure → Text
  err_to_string none = []
  err_to_string (some (errno n)) = host.error_text n
  err_to_string (some (message text)) = text

  -- What ServeConn encodes.
  unfoldable pub encode_reply : Reply → List Value
  unfolding err_to_string
  encode_reply nothing = []
  encode_reply (only_value v) = v ∷ []
  encode_reply (only_error err) = text_value (err_to_string err) ∷ []
  encode_reply (both v err) = v ∷ text_value (err_to_string err) ∷ []

  abbrev pub stored_reply : Fallible TunnelConfig → Reply
  stored_reply found = both (config_value (value_or no_config found)) (error_of found)

  abbrev pub tunnels_reply : Fallible (List Text) → Reply
  tunnels_reply found = both (tunnels_value (value_or [] found)) (error_of found)

  -- A method of the domain router that changes it.
  abbrev pub routed : Result sys → Manager host → Option Reply × Manager host
  routed result m =
      let (router', world', err) = result in
      (some (only_error (as_failure err)), record m { router = router'; world = world' })

  abbrev pub with_records : Option Failure × Text → Manager host → Option Reply × Manager host
  with_records change m =
      let (err, text) = change in (some (only_error err), record m { local_records = text })

  -- The cases of ServeConn from the call on: the reply, none while the method waits, and the state.
  unfoldable pub answer : ManagerService → Request → Manager host → Option Reply × Manager host
  answer s (ask_stored_config name) m =
      (some (stored_reply (stored_config host s.is_elevated name m)), m)
  answer s (ask_runtime_config name) m =
      let (err, config, m') = runtime_config host s.is_elevated name m in
      (some (both (config_value (or_no_config config)) err), m')
  answer s (ask_start name) m = let (err, m') = start host name m in (when_done err, m')
  answer s (ask_stop name) m = let (err, m') = stop host name m in (some (only_error err), m')
  answer s (ask_wait_for_stop name) m =
      let (err, m') = wait_for_stop host name m in (when_done err, m')
  answer s (ask_delete name) m =
      let (err, m') = delete host s.is_elevated name m in (some (only_error err), m')
  answer s (ask_state name) m =
      let (err, found, m') = state host name m in (some (both (state_value found) err), m')
  answer s ask_global_state m =
      (some (only_value (state_value (tracked_tunnels_global_state m.tracked))), m)
  answer s (ask_create config) m =
      let (err, m') = create host s.is_elevated config m in
      let name = if is_error err then [] else config.name in
      (some (both (tunnel_value name) err), m')
  answer s ask_tunnels m = (some (tunnels_reply (sys.list_tunnels m.world.store)), m)
  answer s (ask_quit stop_tunnels_on_quit) m =
      let ((already_quit, err), m') = quit host s stop_tunnels_on_quit m in
      (some (both (bool_value already_quit) err), m')
  answer s ask_update_state m = (some (only_value (update_value m.update_state)), m)
  answer s ask_update m = (some nothing, update host s.is_elevated m)
  answer s ask_mode m = (some (only_value (mode_value m.router.routes.mode)), m)
  answer s (ask_set_mode mode) m =
      routed (set_mode sys (host.outside m.requests).answers mode m.router m.world) m
  answer s ask_rules m = (some (only_value (rules_value (get_rules m.router))), m)
  answer s (ask_set_rules rules) m =
      routed (set_rules sys (host.outside m.requests).answers rules m.router m.world) m
  answer s ask_exclude_loopback m = (some (only_value (bool_value m.router.exclude_loopback)), m)
  answer s (ask_set_exclude_loopback exclude) m =
      routed (set_exclude_loopback sys (host.outside m.requests).answers exclude m.router m.world) m
  answer s ask_disable_ipv6 m = (some (only_value (bool_value m.router.config.disable_ipv6)), m)
  answer s (ask_set_disable_ipv6 disable) m =
      routed (set_disable_ipv6 sys (host.outside m.requests).answers disable m.router m.world) m
  answer s ask_dns_settings m = (some (only_value (dns_value (get_dns_settings m.router))), m)
  answer s (ask_set_dns_settings settings) m =
      routed (set_dns_settings sys (host.outside m.requests).answers settings m.router m.world) m
  answer s ask_records m =
      (some (only_value (records_value (load_local_records m.local_records))), m)
  answer s (ask_add_record domain record_ip) m =
      let change =
        add_local_dns_record (host.outside m.requests).is_ip domain record_ip m.local_records in
      with_records (settle_change (host.outside m.requests).set_user_key change m.local_records) m
  answer s (ask_remove_record domain) m =
      let change = remove_local_dns_record domain m.local_records in
      with_records (settle_change (host.outside m.requests).set_user_key change m.local_records) m
  answer s ask_entries m = (some (only_value (entries_value m.dns_log.entries)), m)
  answer s ask_clear m = (some nothing, record m { dns_log = clear m.dns_log })
  answer s (ask_set_enabled enabled) m =
      (some nothing, record m { dns_log = set_enabled enabled m.dns_log })
  answer s ask_count m = (some (only_value (int_value (DnsLog.pos (count m.dns_log)))), m)
  answer s (ask_entries_since from_index) m =
      (some (only_value (entries_value (get_entries_since_index from_index m.dns_log))), m)
  answer s ask_ports m = (some (only_value (ports_value (get_port_rules m.firewall))), m)
  answer s (ask_set_ports wanted) m =
      let (firewall', done, err) =
        set_port_rules (host.outside m.requests).ports wanted m.firewall in
      (
        some (only_error (as_failure err)),
        record m { firewall = firewall'; effects = m.effects ++ done },
      )

  -- The case of a method, counted.
  unfoldable pub handle : ManagerService → Request → Manager host → Option Reply × Manager host
  handle s request m =
      let (reply, m') = answer s request m in (reply, record m' { requests = m'.requests + 1 })

  -- How ServeConn is left: the state, what was written, and whether it ended with an error: what it
  -- could not decode or encode, or a method that still waits. Otherwise it waits for a next request.
  pub record Served : Type 0 where
    pub manager : Manager host
    pub written : List Value
    pub has_ended : Bool

  -- The values behind those that were written before.
  abbrev pub put : List Value → Served → Served
  put out served = record served { written = out ++ served.written }

  -- The loop of ServeConn; the writer takes `room` more values. The number of rounds is at least that
  -- of the values that are read.
  unfoldable pub serve_loop : ℕ → ManagerService → ℕ → List Value → Manager host → Served
  serve_loop rounds s room [] m = record { manager = m; written = []; has_ended = false }
  serve_loop zero s room (v ∷ vs) m = record { manager = m; written = []; has_ended = true }
  serve_loop (suc rounds) s room (v ∷ vs) m = elim (read_request (v ∷ vs)) [
    | none ↦ record { manager = m; written = []; has_ended = true }
    | some (request, rest) ↦
        let (reply, m') = handle s request m in
        elim reply [
          | none ↦ record { manager = m'; written = []; has_ended = true }
          | some result ↦
              let out = encode_reply result in
              if ltb room (length out)
              then record { manager = m'; written = take room out; has_ended = true }
              else put out (serve_loop rounds s (room - length out) rest m')
        ]
  ]

  -- ServeConn on all that is read.
  unfoldable pub serve_conn : ManagerService → ℕ → List Value → Manager host → Served
  unfolding serve_loop
  serve_conn s room vs m = serve_loop (length vs) s room vs m

  -- IPCServerListen: the service is known while its connection is served.
  unfoldable pub listen : ManagerService → ℕ → List Value → Manager host → Served
  unfolding serve_conn
  listen s room vs m =
      let served = serve_conn s room vs (record m { listeners = s ∷ m.listeners }) in
      if served.has_ended
      then record served {
        manager = record served.manager {
          listeners = without_service s.id served.manager.listeners;
        };
      }
      else served
