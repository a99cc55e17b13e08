-- ===== src/Manager/Requests.antt =====
-- manager/ipc_server.go: the requests, as ServeConn decodes them.
use amneziawg_windows_client.Common.{some, ◌∷◌, Option, none, Bool, get_elem?, List}
use amneziawg_windows_client.Common.Text.{Text}
use amneziawg_windows_client.DnsLog.{ℤ}
use amneziawg_windows_client.DomainRouting.{DomainRoutingMode}
use amneziawg_windows_client.Ipc.{
  mode_value, int_value, domain_routing_get_exclude_loopback_method_type,
  domain_routing_set_dns_settings_method_type, config_value, stored_config_method_type,
  local_dns_get_records_method_type, dns_log_set_enabled_method_type, update_state_method_type,
  wait_for_stop_method_type, method_types, text_value, start_method_type,
  domain_routing_set_disable_ipv6_method_type, quit_method_type, update_method_type,
  dns_log_clear_method_type, tunnels_method_type, type_value,
  dns_log_get_entries_since_index_method_type, state_method_type, dns_value, Value,
  dns_log_get_count_method_type, delete_method_type, domain_routing_get_dns_settings_method_type,
  port_firewall_set_rules_method_type, bool_value, create_method_type, stop_method_type,
  rules_value, domain_routing_get_list_mode_method_type, MethodType,
  domain_routing_set_mode_method_type, domain_routing_set_rules_method_type,
  domain_routing_set_list_mode_method_type, local_dns_add_record_method_type,
  port_firewall_get_rules_method_type, domain_routing_get_disable_ipv6_method_type,
  runtime_config_method_type, global_state_method_type,
  domain_routing_set_exclude_loopback_method_type, dns_log_get_entries_method_type,
  local_dns_remove_record_method_type, domain_routing_get_mode_method_type, ports_value,
  domain_routing_get_rules_method_type,
}
use amneziawg_windows_client.PortFirewall.Manager.{PortFirewallConfig}
use amneziawg_windows_client.Router.{TunnelConfig}
use amneziawg_windows_client.Router.Settings.{DnsSettings, RulesData}

-- A method with its arguments.
pub data Request : Type 0 where
  ask_stored_config ask_runtime_config ask_start ask_stop : Text → Request
  ask_wait_for_stop ask_delete ask_state : Text → Request
  ask_global_state ask_tunnels ask_update_state ask_update : Request
  ask_create : TunnelConfig → Request
  ask_quit : Bool → Request
  ask_mode ask_rules ask_exclude_loopback ask_disable_ipv6 ask_dns_settings : Request
  ask_set_mode : DomainRoutingMode → Request
  ask_set_rules : RulesData → Request
  ask_set_exclude_loopback ask_set_disable_ipv6 : Bool → Request
  ask_set_dns_settings : DnsSettings → Request
  ask_records : Request
  ask_add_record : Text → Text → Request
  ask_remove_record : Text → Request
  ask_entries ask_clear ask_count : Request
  ask_set_enabled : Bool → Request
  ask_entries_since : ℤ → Request
  ask_ports : Request
  ask_set_ports : PortFirewallConfig → Request

-- decoder.Decode, into a variable of each type.
abbrev pub next_text : List Value → Option (Text × List Value)
next_text (text_value s ∷ rest) = some (s, rest)
next_text _ = none

abbrev pub next_bool : List Value → Option (Bool × List Value)
next_bool (bool_value b ∷ rest) = some (b, rest)
next_bool _ = none

abbrev pub next_int : List Value → Option (ℤ × List Value)
next_int (int_value n ∷ rest) = some (n, rest)
next_int _ = none

abbrev pub next_config : List Value → Option (TunnelConfig × List Value)
next_config (config_value c ∷ rest) = some (c, rest)
next_config _ = none

abbrev pub next_mode : List Value → Option (DomainRoutingMode × List Value)
next_mode (mode_value mode ∷ rest) = some (mode, rest)
next_mode _ = none

abbrev pub next_rules : List Value → Option (RulesData × List Value)
next_rules (rules_value rules ∷ rest) = some (rules, rest)
next_rules _ = none

abbrev pub next_dns : List Value → Option (DnsSettings × List Value)
next_dns (dns_value settings ∷ rest) = some (settings, rest)
next_dns _ = none

abbrev pub next_ports : List Value → Option (PortFirewallConfig × List Value)
next_ports (ports_value rules ∷ rest) = some (rules, rest)
next_ports _ = none

-- The first value is an argument of the request.
abbrev pub with_arg :
    {A : Type 0} → (A → Request) → Option (A × List Value) → Option (Request × List Value)
with_arg f none = none
with_arg f (some (a, rest)) = some (f a, rest)

abbrev pub two_texts : Option (Text × List Value) → Option (Request × List Value)
two_texts none = none
two_texts (some (domain, rest)) = with_arg (ask_add_record domain) (next_text rest)

-- The cases of ServeConn up to the call: the arguments that a method reads. The two methods of the
-- list mode have no case.
unfoldable pub read_arguments : MethodType → List Value → Option (Request × List Value)
read_arguments stored_config_method_type vs = with_arg ask_stored_config (next_text vs)
read_arguments runtime_config_method_type vs = with_arg ask_runtime_config (next_text vs)
read_arguments start_method_type vs = with_arg ask_start (next_text vs)
read_arguments stop_method_type vs = with_arg ask_stop (next_text vs)
read_arguments wait_for_stop_method_type vs = with_arg ask_wait_for_stop (next_text vs)
read_arguments delete_method_type vs = with_arg ask_delete (next_text vs)
read_arguments state_method_type vs = with_arg ask_state (next_text vs)
read_arguments global_state_method_type vs = some (ask_global_state, vs)
read_arguments create_method_type vs = with_arg ask_create (next_config vs)
read_arguments tunnels_method_type vs = some (ask_tunnels, vs)
read_arguments quit_method_type vs = with_arg ask_quit (next_bool vs)
read_arguments update_state_method_type vs = some (ask_update_state, vs)
read_arguments update_method_type vs = some (ask_update, vs)
read_arguments domain_routing_get_mode_method_type vs = some (ask_mode, vs)
read_arguments domain_routing_set_mode_method_type vs = with_arg ask_set_mode (next_mode vs)
read_arguments domain_routing_get_rules_method_type vs = some (ask_rules, vs)
read_arguments domain_routing_set_rules_method_type vs = with_arg ask_set_rules (next_rules vs)
read_arguments domain_routing_get_list_mode_method_type vs = none
read_arguments domain_routing_set_list_mode_method_type vs = none
read_arguments domain_routing_get_exclude_loopback_method_type vs = some (ask_exclude_loopback, vs)
read_arguments domain_routing_set_exclude_loopback_method_type vs =
    with_arg ask_set_exclude_loopback (next_bool vs)
read_arguments domain_routing_get_disable_ipv6_method_type vs = some (ask_disable_ipv6, vs)
read_arguments domain_routing_set_disable_ipv6_method_type vs =
    with_arg ask_set_disable_ipv6 (next_bool vs)
read_arguments domain_routing_get_dns_settings_method_type vs = some (ask_dns_settings, vs)
read_arguments domain_routing_set_dns_settings_method_type vs =
    with_arg ask_set_dns_settings (next_dns vs)
read_arguments local_dns_get_records_method_type vs = some (ask_records, vs)
read_arguments local_dns_add_record_method_type vs = two_texts (next_text vs)
read_arguments local_dns_remove_record_method_type vs = with_arg ask_remove_record (next_text vs)
read_arguments dns_log_get_entries_method_type vs = some (ask_entries, vs)
read_arguments dns_log_clear_method_type vs = some (ask_clear, vs)
read_arguments dns_log_set_enabled_method_type vs = with_arg ask_set_enabled (next_bool vs)
read_arguments dns_log_get_count_method_type vs = some (ask_count, vs)
read_arguments dns_log_get_entries_since_index_method_type vs =
    with_arg ask_entries_since (next_int vs)
read_arguments port_firewall_get_rules_method_type vs = some (ask_ports, vs)
read_arguments port_firewall_set_rules_method_type vs = with_arg ask_set_ports (next_ports vs)

abbrev pub read_method : List Value → Option MethodType → Option (Request × List Value)
read_method rest none = none
read_method rest (some method) = read_arguments method rest

-- The start of a round of ServeConn: the method type, by its number, and the arguments.
unfoldable pub read_request : List Value → Option (Request × List Value)
unfolding read_arguments
read_request (type_value n ∷ rest) = read_method rest (get_elem? method_types n)
read_request _ = none
