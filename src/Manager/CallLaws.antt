-- ===== src/Manager/CallLaws.antt =====
-- manager/ipc_client.go and ipc_server.go: each of a window's calls, and all of them one after another.
use amneziawg_windows_client.DomainRouting
use amneziawg_windows_client.Tunnel
use amneziawg_windows_client.DnsLog
use amneziawg_windows_client.Common.{
  false, ◌≡◌, [], Option, ℕ, refl, ◌≤◌, ap, some, none, ◌∷◌, List, none-ne-some, sym,
}
use amneziawg_windows_client.Common.Text.{Text}
use amneziawg_windows_client.Ipc.{
  mode_value, entries_value, config_value, method_types, bool_value, update_unknown, method_number,
  state_value, no_config, tunnels_value, update_value, ports_value, int_value, dns_value,
  tunnel_value, rules_value, records_value, stored_config_method_type, state_method_type,
  domain_routing_set_disable_ipv6_method_type, update_state_method_type, create_method_type,
  domain_routing_set_dns_settings_method_type, domain_routing_get_dns_settings_method_type,
  tunnels_method_type, domain_routing_set_rules_method_type, domain_routing_get_rules_method_type,
  dns_log_set_enabled_method_type, quit_method_type, local_dns_get_records_method_type,
  stop_method_type, delete_method_type, domain_routing_get_exclude_loopback_method_type,
  port_firewall_set_rules_method_type, method_value, port_firewall_get_rules_method_type,
  update_method_type, wait_for_stop_method_type, dns_log_get_entries_since_index_method_type,
  local_dns_remove_record_method_type, domain_routing_get_mode_method_type,
  local_dns_add_record_method_type, dns_log_clear_method_type,
  domain_routing_set_exclude_loopback_method_type, text_value, domain_routing_set_mode_method_type,
  runtime_config_method_type, domain_routing_get_disable_ipv6_method_type,
  dns_log_get_count_method_type, start_method_type, global_state_method_type,
  dns_log_get_entries_method_type,
}
use amneziawg_windows_client.Ipc.Calls.{
  tunnel_start, tunnel_state, ipc_client_update_state, tunnel_stored_config, tunnel_delete,
  tunnel_runtime_config, tunnel_wait_for_stop, tunnel_stop, ipc_client_quit,
  ipc_client_global_state, ipc_client_new_tunnel, ipc_client_update, ipc_client_tunnels,
}
use amneziawg_windows_client.Ipc.Client.{
  as_ports, as_dns, as_tunnel, as_tunnels, as_bool, as_mode, as_update, as_rules, as_int, as_state,
  Transport, as_records, as_entries, as_config,
}
use amneziawg_windows_client.Ipc.RoutingCalls.{
  no_dns_settings, no_rules, no_ports, ipc_client_local_dns_get_records,
  ipc_client_domain_routing_rules, ipc_client_local_dns_add_record, ipc_client_dns_log_get_entries,
  ipc_client_set_domain_routing_disable_ipv6, ipc_client_set_port_firewall_rules,
  ipc_client_set_domain_routing_dns_settings, ipc_client_local_dns_remove_record,
  ipc_client_dns_log_clear, ipc_client_dns_log_get_count, ipc_client_port_firewall_rules,
  ipc_client_set_domain_routing_rules, ipc_client_dns_log_set_enabled,
  ipc_client_set_domain_routing_exclude_loopback, ipc_client_set_domain_routing_mode,
  ipc_client_dns_log_get_entries_since_index, ipc_client_domain_routing_exclude_loopback,
  ipc_client_domain_routing_disable_ipv6, ipc_client_domain_routing_dns_settings,
  ipc_client_domain_routing_mode,
}
use amneziawg_windows_client.Manager.{ManagerService, Manager, Host, Failure}
use amneziawg_windows_client.Manager.Link.{
  call, seen_value, seen_error, seen, Seen, Link, pipes, call_all, run_all, run_next,
}
use amneziawg_windows_client.Manager.LinkLaws.{
  ask_both-link, ask-link, link, encode-one, ask_error-link,
}
use amneziawg_windows_client.Manager.Requests.{
  ask_set_rules, ask_count, ask_set_ports, ask_set_dns_settings, ask_entries_since,
  ask_set_disable_ipv6, ask_clear, ask_set_mode, ask_update_state, ask_delete, ask_stored_config,
  ask_records, ask_remove_record, ask_set_enabled, ask_mode, ask_start, ask_stop, ask_disable_ipv6,
  ask_exclude_loopback, ask_add_record, ask_dns_settings, ask_wait_for_stop, ask_entries, ask_state,
  ask_create, ask_ports, ask_quit, read_arguments, read_request, ask_rules, ask_update, ask_tunnels,
  ask_global_state, ask_runtime_config, Request, ask_set_exclude_loopback,
}
use amneziawg_windows_client.Manager.Server.{
  when_done, handle, nothing, answer, Reply, only_error, encode_reply,
}
use amneziawg_windows_client.Manager.Service.{wait_for_stop, start}
use amneziawg_windows_client.Router.{System}
use mathlib.Core.Option.{some-injective}
use mathlib.Core.Path.{subst}

module _ {sys : System} (host : Host sys) (s : ManagerService) (room : ℕ) (broken : Text) where
  abbrev pipe : Transport (Link host)
  pipe = pipes host s room broken

  abbrev at : Manager host → Link host
  at m = link host s room broken m

  -- A call brings what the method returned, and the connection is as before.
  abbrev Agrees : Seen × Link host → Option Reply × Manager host → Type 0
  Agrees result (none, m) = Unit
  Agrees result (some rep, m) = result ≡ (seen host rep, at m)

  when_done-Agrees :
      (result : Seen × Link host) (err : Option (Option Failure)) (m : Manager host)
      → ((why : Option Failure) → err ≡ some why → Agrees result (some (only_error why), m))
      → Agrees result (when_done err, m)
  when_done-Agrees result none m f = tt
  when_done-Agrees result (some why) m f = f why refl

  call-Agrees :
      (r : Request) (m : Manager host) → 2 ≤ room → Agrees (call pipe r (at m)) (handle host s r m)
  unfolding call handle answer read_request read_arguments method_types method_number seen no_config
      tunnel_stored_config tunnel_runtime_config tunnel_start tunnel_stop tunnel_wait_for_stop
      tunnel_delete tunnel_state ipc_client_global_state ipc_client_new_tunnel ipc_client_tunnels
      ipc_client_quit ipc_client_update_state ipc_client_update ipc_client_domain_routing_mode
      ipc_client_set_domain_routing_mode ipc_client_domain_routing_rules
      ipc_client_set_domain_routing_rules ipc_client_domain_routing_exclude_loopback
      ipc_client_set_domain_routing_exclude_loopback ipc_client_domain_routing_disable_ipv6
      ipc_client_set_domain_routing_disable_ipv6 ipc_client_domain_routing_dns_settings
      ipc_client_set_domain_routing_dns_settings ipc_client_local_dns_get_records
      ipc_client_local_dns_add_record ipc_client_local_dns_remove_record
      ipc_client_dns_log_get_entries ipc_client_dns_log_clear ipc_client_dns_log_set_enabled
      ipc_client_dns_log_get_count ipc_client_dns_log_get_entries_since_index
      ipc_client_port_firewall_rules ipc_client_set_port_firewall_rules encode_reply
  call-Agrees (ask_stored_config name) m enough = ap (seen_value config_value) (
      ask_both-link host s room broken (method_value stored_config_method_type)
        (text_value name ∷ []) (ask_stored_config name) m _ enough refl as_config no_config _ _ _
        refl refl)
  call-Agrees (ask_runtime_config name) m enough = ap (seen_value config_value) (
      ask_both-link host s room broken (method_value runtime_config_method_type)
        (text_value name ∷ []) (ask_runtime_config name) m _ enough refl as_config no_config _ _ _
        refl refl)
  call-Agrees (ask_start name) m enough = when_done-Agrees _ (start host name m).0 _ (λ why e.
      ap seen_error (
        ask_error-link host s room broken (method_value start_method_type) (text_value name ∷ [])
          (ask_start name) m _ enough refl why (rw e refl)))
  call-Agrees (ask_stop name) m enough = ap seen_error (
      ask_error-link host s room broken (method_value stop_method_type) (text_value name ∷ [])
        (ask_stop name) m _ enough refl _ refl)
  call-Agrees (ask_wait_for_stop name) m enough =
      when_done-Agrees _ (wait_for_stop host name m).0 _ (λ why e. ap seen_error (
        ask_error-link host s room broken (method_value wait_for_stop_method_type)
          (text_value name ∷ []) (ask_wait_for_stop name) m _ enough refl why (rw e refl)))
  call-Agrees (ask_delete name) m enough = ap seen_error (
      ask_error-link host s room broken (method_value delete_method_type) (text_value name ∷ [])
        (ask_delete name) m _ enough refl _ refl)
  call-Agrees (ask_state name) m enough = ap (seen_value state_value) (
      ask_both-link host s room broken (method_value state_method_type) (text_value name ∷ [])
        (ask_state name) m _ enough refl as_state Tunnel.unknown _ _ _ refl refl)
  call-Agrees ask_global_state m enough = ap (seen_value state_value) (
      ask-link host s room broken (method_value global_state_method_type) ([]) ask_global_state m _
        enough refl as_state Tunnel.unknown _ _ refl refl)
  call-Agrees (ask_create config) m enough = ap (seen_value tunnel_value) (
      ask_both-link host s room broken (method_value create_method_type) (config_value config ∷ [])
        (ask_create config) m _ enough refl as_tunnel [] _ _ _ refl refl)
  call-Agrees ask_tunnels m enough = ap (seen_value tunnels_value) (
      ask_both-link host s room broken (method_value tunnels_method_type) ([]) ask_tunnels m _
        enough refl as_tunnels [] _ _ _ refl refl)
  call-Agrees (ask_quit stop_tunnels_on_quit) m enough = ap (seen_value bool_value) (
      ask_both-link host s room broken (method_value quit_method_type)
        (bool_value stop_tunnels_on_quit ∷ []) (ask_quit stop_tunnels_on_quit) m _ enough refl
        as_bool false _ _ _ refl refl)
  call-Agrees ask_update_state m enough = ap (seen_value update_value) (
      ask-link host s room broken (method_value update_state_method_type) ([]) ask_update_state m _
        enough refl as_update update_unknown _ _ refl refl)
  call-Agrees ask_update m enough = ap seen_error (
      encode-one host s room broken (method_value update_method_type) ([]) ask_update nothing m _
        enough refl refl)
  call-Agrees ask_mode m enough = ap (seen_value mode_value) (
      ask-link host s room broken (method_value domain_routing_get_mode_method_type) ([]) ask_mode m
        _ enough refl as_mode DomainRouting.off _ _ refl refl)
  call-Agrees (ask_set_mode mode) m enough = ap seen_error (
      ask_error-link host s room broken (method_value domain_routing_set_mode_method_type)
        (mode_value mode ∷ []) (ask_set_mode mode) m _ enough refl _ refl)
  call-Agrees ask_rules m enough = ap (seen_value rules_value) (
      ask-link host s room broken (method_value domain_routing_get_rules_method_type) ([]) ask_rules
        m _ enough refl as_rules no_rules _ _ refl refl)
  call-Agrees (ask_set_rules rules) m enough = ap seen_error (
      ask_error-link host s room broken (method_value domain_routing_set_rules_method_type)
        (rules_value rules ∷ []) (ask_set_rules rules) m _ enough refl _ refl)
  call-Agrees ask_exclude_loopback m enough = ap (seen_value bool_value) (
      ask-link host s room broken (method_value domain_routing_get_exclude_loopback_method_type)
        ([]) ask_exclude_loopback m _ enough refl as_bool false _ _ refl refl)
  call-Agrees (ask_set_exclude_loopback exclude) m enough = ap seen_error (
      ask_error-link host s room broken
        (method_value domain_routing_set_exclude_loopback_method_type) (bool_value exclude ∷ [])
        (ask_set_exclude_loopback exclude) m _ enough refl _ refl)
  call-Agrees ask_disable_ipv6 m enough = ap (seen_value bool_value) (
      ask-link host s room broken (method_value domain_routing_get_disable_ipv6_method_type) ([])
        ask_disable_ipv6 m _ enough refl as_bool false _ _ refl refl)
  call-Agrees (ask_set_disable_ipv6 disable) m enough = ap seen_error (
      ask_error-link host s room broken (method_value domain_routing_set_disable_ipv6_method_type)
        (bool_value disable ∷ []) (ask_set_disable_ipv6 disable) m _ enough refl _ refl)
  call-Agrees ask_dns_settings m enough = ap (seen_value dns_value) (
      ask-link host s room broken (method_value domain_routing_get_dns_settings_method_type) ([])
        ask_dns_settings m _ enough refl as_dns no_dns_settings _ _ refl refl)
  call-Agrees (ask_set_dns_settings settings) m enough = ap seen_error (
      ask_error-link host s room broken (method_value domain_routing_set_dns_settings_method_type)
        (dns_value settings ∷ []) (ask_set_dns_settings settings) m _ enough refl _ refl)
  call-Agrees ask_records m enough = ap (seen_value records_value) (
      ask-link host s room broken (method_value local_dns_get_records_method_type) ([]) ask_records
        m _ enough refl as_records [] _ _ refl refl)
  call-Agrees (ask_add_record domain record_ip) m enough = ap seen_error (
      ask_error-link host s room broken (method_value local_dns_add_record_method_type)
        (text_value domain ∷ text_value record_ip ∷ []) (ask_add_record domain record_ip) m _ enough
        refl _ refl)
  call-Agrees (ask_remove_record domain) m enough = ap seen_error (
      ask_error-link host s room broken (method_value local_dns_remove_record_method_type)
        (text_value domain ∷ []) (ask_remove_record domain) m _ enough refl _ refl)
  call-Agrees ask_entries m enough = ap (seen_value entries_value) (
      ask-link host s room broken (method_value dns_log_get_entries_method_type) ([]) ask_entries m
        _ enough refl as_entries [] _ _ refl refl)
  call-Agrees ask_clear m enough = ap seen_error (
      encode-one host s room broken (method_value dns_log_clear_method_type) ([]) ask_clear nothing
        m _ enough refl refl)
  call-Agrees (ask_set_enabled enabled) m enough = ap seen_error (
      encode-one host s room broken (method_value dns_log_set_enabled_method_type)
        (bool_value enabled ∷ []) (ask_set_enabled enabled) nothing m _ enough refl refl)
  call-Agrees ask_count m enough = ap (seen_value int_value) (
      ask-link host s room broken (method_value dns_log_get_count_method_type) ([]) ask_count m _
        enough refl as_int (DnsLog.pos 0) _ _ refl refl)
  call-Agrees (ask_entries_since from_index) m enough = ap (seen_value entries_value) (
      ask-link host s room broken (method_value dns_log_get_entries_since_index_method_type)
        (int_value from_index ∷ []) (ask_entries_since from_index) m _ enough refl as_entries [] _ _
        refl refl)
  call-Agrees ask_ports m enough = ap (seen_value ports_value) (
      ask-link host s room broken (method_value port_firewall_get_rules_method_type) ([]) ask_ports
        m _ enough refl as_ports no_ports _ _ refl refl)
  call-Agrees (ask_set_ports data_wanted) m enough = ap seen_error (
      ask_error-link host s room broken (method_value port_firewall_set_rules_method_type)
        (ports_value data_wanted ∷ []) (ask_set_ports data_wanted) m _ enough refl _ refl)

  abbrev followed : List Request → Seen × Link host → List Seen × Link host
  followed rs result = let (others, l) = call_all host pipe rs result.1 in (result.0 ∷ others, l)

  -- The first call and the others.
  then-run_all :
      (rs : List Request) (result : Seen × Link host) (reply : Option Reply) (m m' : Manager host)
      (later : Option (List Seen × Manager host)) (results : List Seen)
      → Agrees result (reply, m)
      → ((last : Manager host) (others : List Seen)
          → later ≡ some (others, last)
          → call_all host pipe rs (at m) ≡ (others, at last))
      → run_next host reply later ≡ some (results, m')
      → followed rs result ≡ (results, at m')
  then-run_all rs result none m m' later results agrees ih e = absurd (none-ne-some _ e)
  then-run_all rs result (some rep) m m' none results agrees ih e = absurd (none-ne-some _ e)
  then-run_all rs result (some rep) m m' (some (others, last)) results agrees ih e =
      let same : (seen host rep ∷ others, last) ≡ (results, m') = some-injective _ _ e in
      subst (λ x. followed rs x ≡ (results, at m')) (sym agrees)
        (rw (ih last others refl) (ap (λ x. (x.0, at x.1)) same))

  -- A window's calls, one after another, through the pipes, bring the values and the texts of errors
  -- that the methods return when they are called directly, in the same order, and leave the manager
  -- as the methods leave it, with nothing unread. This is where the pipes take a reply, and no method
  -- waits for ever.
  pub call_all-run_all :
      (rs : List Request) (m m' : Manager host) (results : List Seen)
      → 2 ≤ room
      → run_all host s rs m ≡ some (results, m')
      → call_all host (pipes host s room broken) rs (link host s room broken m)
        ≡ (results, link host s room broken m')
  unfolding call_all run_all
  call_all-run_all [] m m' results enough e =
      let same : ([], m) ≡ (results, m') = some-injective _ _ e in ap (λ x. (x.0, at x.1)) same
  call_all-run_all (r ∷ rs) m m' results enough e =
      let (reply, m1) = handle host s r m in
      then-run_all rs _ reply m1 m' (run_all host s rs m1) results (call-Agrees r m enough)
        (λ last others ran. call_all-run_all rs m1 last others enough ran) e
