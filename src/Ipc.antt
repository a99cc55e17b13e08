-- ===== src/Ipc.antt =====
-- manager/ipc_client.go: the messages between the manager service and its windows.
--
-- encoding/gob carries typed values in order: a stream is a list of values, and a value is decoded
-- only as what it was encoded as. The numbers of the enumerations other than their constants are left
-- out, except for those of MethodType and NotificationType.
pub mod Client
pub mod Calls
pub mod RoutingCalls
pub mod Events
use amneziawg_windows_client.Common.{
  none, Option, [], Bool, List, some, ◌∷◌, ℕ, is_nil, if◌then◌else◌, false,
}
use amneziawg_windows_client.Common.Text.{Text}
use amneziawg_windows_client.DnsLog.{ℤ, Stamped}
use amneziawg_windows_client.DomainRouting.{DomainRoutingMode}
use amneziawg_windows_client.LocalRecords.{LocalDnsRecord}
use amneziawg_windows_client.PortFirewall.Manager.{PortFirewallConfig}
use amneziawg_windows_client.Router.{TunnelConfig}
use amneziawg_windows_client.Router.Settings.{DnsSettings, RulesData}
use amneziawg_windows_client.Syntax.Field.{dns}
use amneziawg_windows_client.Tunnel.{TunnelState}

-- MethodType
pub data MethodType : Type 0 where
  stored_config_method_type : MethodType
  runtime_config_method_type : MethodType
  start_method_type : MethodType
  stop_method_type : MethodType
  wait_for_stop_method_type : MethodType
  delete_method_type : MethodType
  state_method_type : MethodType
  global_state_method_type : MethodType
  create_method_type : MethodType
  tunnels_method_type : MethodType
  quit_method_type : MethodType
  update_state_method_type : MethodType
  update_method_type : MethodType
  domain_routing_get_mode_method_type : MethodType
  domain_routing_set_mode_method_type : MethodType
  domain_routing_get_rules_method_type : MethodType
  domain_routing_set_rules_method_type : MethodType
  domain_routing_get_list_mode_method_type : MethodType
  domain_routing_set_list_mode_method_type : MethodType
  domain_routing_get_exclude_loopback_method_type : MethodType
  domain_routing_set_exclude_loopback_method_type : MethodType
  domain_routing_get_disable_ipv6_method_type : MethodType
  domain_routing_set_disable_ipv6_method_type : MethodType
  domain_routing_get_dns_settings_method_type : MethodType
  domain_routing_set_dns_settings_method_type : MethodType
  local_dns_get_records_method_type : MethodType
  local_dns_add_record_method_type : MethodType
  local_dns_remove_record_method_type : MethodType
  dns_log_get_entries_method_type : MethodType
  dns_log_clear_method_type : MethodType
  dns_log_set_enabled_method_type : MethodType
  dns_log_get_count_method_type : MethodType
  dns_log_get_entries_since_index_method_type : MethodType
  port_firewall_get_rules_method_type : MethodType
  port_firewall_set_rules_method_type : MethodType

-- The constants of MethodType in order, which iota numbers from 0.
unfoldable pub method_types : List MethodType
method_types =
    stored_config_method_type ∷ runtime_config_method_type ∷ start_method_type ∷ stop_method_type
    ∷ wait_for_stop_method_type ∷ delete_method_type ∷ state_method_type ∷ global_state_method_type
    ∷ create_method_type ∷ tunnels_method_type ∷ quit_method_type ∷ update_state_method_type
    ∷ update_method_type ∷ domain_routing_get_mode_method_type ∷ domain_routing_set_mode_method_type
    ∷ domain_routing_get_rules_method_type ∷ domain_routing_set_rules_method_type
    ∷ domain_routing_get_list_mode_method_type ∷ domain_routing_set_list_mode_method_type
    ∷ domain_routing_get_exclude_loopback_method_type
    ∷ domain_routing_set_exclude_loopback_method_type ∷ domain_routing_get_disable_ipv6_method_type
    ∷ domain_routing_set_disable_ipv6_method_type ∷ domain_routing_get_dns_settings_method_type
    ∷ domain_routing_set_dns_settings_method_type ∷ local_dns_get_records_method_type
    ∷ local_dns_add_record_method_type ∷ local_dns_remove_record_method_type
    ∷ dns_log_get_entries_method_type ∷ dns_log_clear_method_type ∷ dns_log_set_enabled_method_type
    ∷ dns_log_get_count_method_type ∷ dns_log_get_entries_since_index_method_type
    ∷ port_firewall_get_rules_method_type ∷ port_firewall_set_rules_method_type ∷ []

-- The constants of NotificationType in order: tunnel change, tunnels change, manager stopping, update
-- found, update progress.
pub data NotificationType : Type 0 where
  tunnel_change_notification_type : NotificationType
  tunnels_change_notification_type : NotificationType
  manager_stopping_notification_type : NotificationType
  update_found_notification_type : NotificationType
  update_progress_notification_type : NotificationType

unfoldable pub notification_types : List NotificationType
notification_types =
    tunnel_change_notification_type ∷ tunnels_change_notification_type
    ∷ manager_stopping_notification_type ∷ update_found_notification_type
    ∷ update_progress_notification_type ∷ []

-- manager/updatestate.go: UpdateState
pub data UpdateState : Type 0 where
  update_unknown found_update updates_disabled : UpdateState

-- A value on a stream. A tunnel is its name.
pub data Value : Type 0 where
  type_value : ℕ → Value
  text_value : Text → Value
  bool_value : Bool → Value
  int_value : ℤ → Value
  uint_value : ℕ → Value
  config_value : TunnelConfig → Value
  tunnel_value : Text → Value
  tunnels_value : List Text → Value
  state_value : TunnelState → Value
  update_value : UpdateState → Value
  mode_value : DomainRoutingMode → Value
  rules_value : RulesData → Value
  dns_value : DnsSettings → Value
  records_value : List LocalDnsRecord → Value
  entries_value : List Stamped → Value
  ports_value : PortFirewallConfig → Value

-- The number that iota gives a constant.
unfoldable pub method_number : MethodType → ℕ
method_number stored_config_method_type = 0
method_number runtime_config_method_type = 1
method_number start_method_type = 2
method_number stop_method_type = 3
method_number wait_for_stop_method_type = 4
method_number delete_method_type = 5
method_number state_method_type = 6
method_number global_state_method_type = 7
method_number create_method_type = 8
method_number tunnels_method_type = 9
method_number quit_method_type = 10
method_number update_state_method_type = 11
method_number update_method_type = 12
method_number domain_routing_get_mode_method_type = 13
method_number domain_routing_set_mode_method_type = 14
method_number domain_routing_get_rules_method_type = 15
method_number domain_routing_set_rules_method_type = 16
method_number domain_routing_get_list_mode_method_type = 17
method_number domain_routing_set_list_mode_method_type = 18
method_number domain_routing_get_exclude_loopback_method_type = 19
method_number domain_routing_set_exclude_loopback_method_type = 20
method_number domain_routing_get_disable_ipv6_method_type = 21
method_number domain_routing_set_disable_ipv6_method_type = 22
method_number domain_routing_get_dns_settings_method_type = 23
method_number domain_routing_set_dns_settings_method_type = 24
method_number local_dns_get_records_method_type = 25
method_number local_dns_add_record_method_type = 26
method_number local_dns_remove_record_method_type = 27
method_number dns_log_get_entries_method_type = 28
method_number dns_log_clear_method_type = 29
method_number dns_log_set_enabled_method_type = 30
method_number dns_log_get_count_method_type = 31
method_number dns_log_get_entries_since_index_method_type = 32
method_number port_firewall_get_rules_method_type = 33
method_number port_firewall_set_rules_method_type = 34

unfoldable pub notification_number : NotificationType → ℕ
notification_number tunnel_change_notification_type = 0
notification_number tunnels_change_notification_type = 1
notification_number manager_stopping_notification_type = 2
notification_number update_found_notification_type = 3
notification_number update_progress_notification_type = 4

-- rpcEncoder.Encode of a method type.
abbrev pub method_value : MethodType → Value
method_value method = type_value (method_number method)

-- errToString and rpcDecodeError pass no error as the empty text.
unfoldable pub decoded_error : Text → Option Text
decoded_error s = if is_nil s then none else some s

-- conf.Config{}
unfoldable pub no_config : TunnelConfig
no_config = record {
  name = [];
  keys = [];
  table_off = false;
  dns = [];
  dns_search = [];
  peers = [];
}
