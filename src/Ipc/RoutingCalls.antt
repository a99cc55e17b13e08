-- ===== src/Ipc/RoutingCalls.antt =====
-- manager/ipc_client.go: the calls about domain routing, local DNS records, the DNS log and the port
-- firewall.
use amneziawg_windows_client.DomainRouting
use amneziawg_windows_client.DnsLog
use amneziawg_windows_client.Common.{Bool, [], false, Option, List, ◌∷◌}
use amneziawg_windows_client.Common.Text.{Text}
use amneziawg_windows_client.DnsLog.{ℤ, Stamped}
use amneziawg_windows_client.DomainRouting.{DomainRoutingMode}
use amneziawg_windows_client.Ipc.{
  mode_value, dns_log_get_entries_since_index_method_type, domain_routing_set_rules_method_type,
  local_dns_remove_record_method_type, local_dns_add_record_method_type,
  port_firewall_set_rules_method_type, domain_routing_set_disable_ipv6_method_type, method_value,
  dns_value, domain_routing_get_dns_settings_method_type, local_dns_get_records_method_type,
  dns_log_get_entries_method_type, domain_routing_set_mode_method_type, rules_value,
  port_firewall_get_rules_method_type, domain_routing_set_dns_settings_method_type,
  dns_log_set_enabled_method_type, domain_routing_get_mode_method_type, bool_value, text_value,
  method_number, int_value, dns_log_get_count_method_type,
  domain_routing_get_disable_ipv6_method_type, ports_value, domain_routing_get_rules_method_type,
  domain_routing_set_exclude_loopback_method_type, domain_routing_get_exclude_loopback_method_type,
  dns_log_clear_method_type,
}
use amneziawg_windows_client.Ipc.Client.{
  as_int, as_ports, ask_error, as_dns, Transport, as_mode, as_entries, as_bool, as_records,
  as_rules, ask,
}
use amneziawg_windows_client.LocalRecords.{LocalDnsRecord}
use amneziawg_windows_client.PortFirewall.Manager.{PortFirewallConfig}
use amneziawg_windows_client.Router.Settings.{RulesData, DnsSettings}

-- The zero values.
abbrev pub no_rules : RulesData
no_rules = record { list_mode = []; domains = []; tunnels = []; directs = []; blocks = [] }

abbrev pub no_dns_settings : DnsSettings
no_dns_settings = record { upstreams = []; route_mode = []; selected = [] }

abbrev pub no_ports : PortFirewallConfig
no_ports = record { mode = []; rules = [] }

module _ {S : Type 0} (rpc : Transport S) where
  -- IPCClientDomainRoutingMode
  unfoldable pub ipc_client_domain_routing_mode : S → (DomainRoutingMode × Option Text) × S
  unfolding ask method_number
  ipc_client_domain_routing_mode s =
      ask rpc as_mode DomainRouting.off (method_value domain_routing_get_mode_method_type ∷ []) s

  -- IPCClientSetDomainRoutingMode
  unfoldable pub ipc_client_set_domain_routing_mode : DomainRoutingMode → S → Option Text × S
  unfolding ask_error method_number
  ipc_client_set_domain_routing_mode mode s =
      ask_error rpc (method_value domain_routing_set_mode_method_type ∷ mode_value mode ∷ []) s

  -- IPCClientDomainRoutingRules
  unfoldable pub ipc_client_domain_routing_rules : S → (RulesData × Option Text) × S
  unfolding ask method_number
  ipc_client_domain_routing_rules s =
      ask rpc as_rules no_rules (method_value domain_routing_get_rules_method_type ∷ []) s

  -- IPCClientSetDomainRoutingRules
  unfoldable pub ipc_client_set_domain_routing_rules : RulesData → S → Option Text × S
  unfolding ask_error method_number
  ipc_client_set_domain_routing_rules rules s =
      ask_error rpc (method_value domain_routing_set_rules_method_type ∷ rules_value rules ∷ []) s

  -- IPCClientDomainRoutingExcludeLoopback
  unfoldable pub ipc_client_domain_routing_exclude_loopback : S → (Bool × Option Text) × S
  unfolding ask method_number
  ipc_client_domain_routing_exclude_loopback s =
      ask rpc as_bool false (method_value domain_routing_get_exclude_loopback_method_type ∷ []) s

  -- IPCClientSetDomainRoutingExcludeLoopback
  unfoldable pub ipc_client_set_domain_routing_exclude_loopback : Bool → S → Option Text × S
  unfolding ask_error method_number
  ipc_client_set_domain_routing_exclude_loopback exclude s =
      ask_error rpc
        (method_value domain_routing_set_exclude_loopback_method_type ∷ bool_value exclude ∷ []) s

  -- IPCClientDomainRoutingDisableIPv6
  unfoldable pub ipc_client_domain_routing_disable_ipv6 : S → (Bool × Option Text) × S
  unfolding ask method_number
  ipc_client_domain_routing_disable_ipv6 s =
      ask rpc as_bool false (method_value domain_routing_get_disable_ipv6_method_type ∷ []) s

  -- IPCClientSetDomainRoutingDisableIPv6
  unfoldable pub ipc_client_set_domain_routing_disable_ipv6 : Bool → S → Option Text × S
  unfolding ask_error method_number
  ipc_client_set_domain_routing_disable_ipv6 disable s =
      ask_error rpc
        (method_value domain_routing_set_disable_ipv6_method_type ∷ bool_value disable ∷ []) s

  -- IPCClientDomainRoutingDNSSettings
  unfoldable pub ipc_client_domain_routing_dns_settings : S → (DnsSettings × Option Text) × S
  unfolding ask method_number
  ipc_client_domain_routing_dns_settings s =
      ask rpc as_dns no_dns_settings (method_value domain_routing_get_dns_settings_method_type ∷ [])
        s

  -- IPCClientSetDomainRoutingDNSSettings
  unfoldable pub ipc_client_set_domain_routing_dns_settings : DnsSettings → S → Option Text × S
  unfolding ask_error method_number
  ipc_client_set_domain_routing_dns_settings settings s =
      ask_error rpc
        (method_value domain_routing_set_dns_settings_method_type ∷ dns_value settings ∷ []) s

  -- IPCClientLocalDNSGetRecords
  unfoldable pub ipc_client_local_dns_get_records : S → (List LocalDnsRecord × Option Text) × S
  unfolding ask method_number
  ipc_client_local_dns_get_records s =
      ask rpc as_records [] (method_value local_dns_get_records_method_type ∷ []) s

  -- IPCClientLocalDNSAddRecord
  unfoldable pub ipc_client_local_dns_add_record : Text → Text → S → Option Text × S
  unfolding ask_error method_number
  ipc_client_local_dns_add_record domain record_ip s =
      ask_error rpc
        (method_value local_dns_add_record_method_type
          ∷ text_value domain
          ∷ text_value record_ip
          ∷ [])
        s

  -- IPCClientLocalDNSRemoveRecord
  unfoldable pub ipc_client_local_dns_remove_record : Text → S → Option Text × S
  unfolding ask_error method_number
  ipc_client_local_dns_remove_record domain s =
      ask_error rpc (method_value local_dns_remove_record_method_type ∷ text_value domain ∷ []) s

  -- IPCClientDNSLogGetEntries
  unfoldable pub ipc_client_dns_log_get_entries : S → (List Stamped × Option Text) × S
  unfolding ask method_number
  ipc_client_dns_log_get_entries s =
      ask rpc as_entries [] (method_value dns_log_get_entries_method_type ∷ []) s

  -- IPCClientDNSLogClear
  unfoldable pub ipc_client_dns_log_clear : S → Option Text × S
  unfolding method_number
  ipc_client_dns_log_clear s = rpc.encode (method_value dns_log_clear_method_type ∷ []) s

  -- IPCClientDNSLogSetEnabled
  unfoldable pub ipc_client_dns_log_set_enabled : Bool → S → Option Text × S
  unfolding method_number
  ipc_client_dns_log_set_enabled enabled s =
      rpc.encode (method_value dns_log_set_enabled_method_type ∷ bool_value enabled ∷ []) s

  -- IPCClientDNSLogGetCount
  unfoldable pub ipc_client_dns_log_get_count : S → (ℤ × Option Text) × S
  unfolding ask method_number
  ipc_client_dns_log_get_count s =
      ask rpc as_int (DnsLog.pos 0) (method_value dns_log_get_count_method_type ∷ []) s

  -- IPCClientDNSLogGetEntriesSinceIndex
  unfoldable pub ipc_client_dns_log_get_entries_since_index :
      ℤ → S → (List Stamped × Option Text) × S
  unfolding ask method_number
  ipc_client_dns_log_get_entries_since_index from_index s =
      ask rpc as_entries []
        (method_value dns_log_get_entries_since_index_method_type ∷ int_value from_index ∷ []) s

  -- IPCClientPortFirewallRules
  unfoldable pub ipc_client_port_firewall_rules : S → (PortFirewallConfig × Option Text) × S
  unfolding ask method_number
  ipc_client_port_firewall_rules s =
      ask rpc as_ports no_ports (method_value port_firewall_get_rules_method_type ∷ []) s

  -- IPCClientSetPortFirewallRules
  unfoldable pub ipc_client_set_port_firewall_rules : PortFirewallConfig → S → Option Text × S
  unfolding ask_error method_number
  ipc_client_set_port_firewall_rules data_wanted s =
      ask_error rpc
        (method_value port_firewall_set_rules_method_type ∷ ports_value data_wanted ∷ []) s
