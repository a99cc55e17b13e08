-- ===== src/Manager/StreamLaws.antt =====
-- manager/ipc_server.go: ServeConn uses up the stream that it reads.
use amneziawg_windows_client.Common.{
  none, some, arith, ◌∷◌, [], length, ◌≤◌, ℕ, List, get_elem?, Option,
}
use amneziawg_windows_client.Common.Text.{Text}
use amneziawg_windows_client.Ipc.{
  mode_value, stored_config_method_type, rules_value, dns_log_get_entries_method_type,
  state_method_type, port_firewall_get_rules_method_type, domain_routing_set_rules_method_type,
  domain_routing_get_rules_method_type, dns_log_set_enabled_method_type,
  dns_log_get_entries_since_index_method_type, domain_routing_get_disable_ipv6_method_type,
  MethodType, delete_method_type, domain_routing_get_list_mode_method_type,
  domain_routing_get_dns_settings_method_type, local_dns_add_record_method_type,
  update_state_method_type, domain_routing_set_dns_settings_method_type,
  local_dns_remove_record_method_type, text_value, start_method_type, dns_log_get_count_method_type,
  domain_routing_set_disable_ipv6_method_type, Value,
  domain_routing_set_exclude_loopback_method_type, port_firewall_set_rules_method_type,
  global_state_method_type, int_value, quit_method_type, ports_value, bool_value,
  dns_log_clear_method_type, domain_routing_get_exclude_loopback_method_type,
  domain_routing_get_mode_method_type, config_value, domain_routing_set_list_mode_method_type,
  type_value, method_types, create_method_type, tunnels_method_type, update_method_type,
  domain_routing_set_mode_method_type, runtime_config_method_type, wait_for_stop_method_type,
  stop_method_type, local_dns_get_records_method_type, dns_value,
}
use amneziawg_windows_client.Manager.Requests.{
  ask_delete, read_method, ask_remove_record, with_arg, ask_set_dns_settings, ask_stored_config,
  read_arguments, next_mode, ask_stop, ask_state, ask_runtime_config, ask_set_exclude_loopback,
  next_bool, ask_wait_for_stop, read_request, ask_entries_since, ask_set_rules, ask_create,
  next_rules, Request, ask_add_record, ask_set_disable_ipv6, ask_set_mode, ask_set_enabled,
  next_dns, next_int, next_config, next_ports, ask_start, ask_quit, two_texts, ask_set_ports,
  next_text,
}

-- What is left of the stream is not longer.
abbrev pub Within : {A : Type 0} → ℕ → Option (A × List Value) → Type 0
Within n none = Unit
Within n (some (a, rest)) = length rest ≤ n

with_arg-Within :
    {A : Type 0} (f : A → Request) (n : ℕ) (o : Option (A × List Value))
    → Within n o
    → Within n (with_arg f o)
with_arg-Within f n none h = tt
with_arg-Within f n (some (a, rest)) h = h

next_text-Within : (vs : List Value) → Within (length vs) (next_text vs)
next_text-Within [] = tt
next_text-Within (text_value a ∷ rest) = omega arith
next_text-Within (_ ∷ rest) = tt

next_bool-Within : (vs : List Value) → Within (length vs) (next_bool vs)
next_bool-Within [] = tt
next_bool-Within (bool_value a ∷ rest) = omega arith
next_bool-Within (_ ∷ rest) = tt

next_int-Within : (vs : List Value) → Within (length vs) (next_int vs)
next_int-Within [] = tt
next_int-Within (int_value a ∷ rest) = omega arith
next_int-Within (_ ∷ rest) = tt

next_config-Within : (vs : List Value) → Within (length vs) (next_config vs)
next_config-Within [] = tt
next_config-Within (config_value a ∷ rest) = omega arith
next_config-Within (_ ∷ rest) = tt

next_mode-Within : (vs : List Value) → Within (length vs) (next_mode vs)
next_mode-Within [] = tt
next_mode-Within (mode_value a ∷ rest) = omega arith
next_mode-Within (_ ∷ rest) = tt

next_rules-Within : (vs : List Value) → Within (length vs) (next_rules vs)
next_rules-Within [] = tt
next_rules-Within (rules_value a ∷ rest) = omega arith
next_rules-Within (_ ∷ rest) = tt

next_dns-Within : (vs : List Value) → Within (length vs) (next_dns vs)
next_dns-Within [] = tt
next_dns-Within (dns_value a ∷ rest) = omega arith
next_dns-Within (_ ∷ rest) = tt

next_ports-Within : (vs : List Value) → Within (length vs) (next_ports vs)
next_ports-Within [] = tt
next_ports-Within (ports_value a ∷ rest) = omega arith
next_ports-Within (_ ∷ rest) = tt

short_le : {A : Type 0} (k n : ℕ) (o : Option (A × List Value)) → k ≤ n → Within k o → Within n o
short_le k n none le h = tt
short_le k n (some (a, rest)) le h = omega (arith, le, h)

two_texts-Within : (n : ℕ) (o : Option (Text × List Value)) → Within n o → Within n (two_texts o)
two_texts-Within n none h = tt
two_texts-Within n (some (domain, rest)) h =
    let second = with_arg-Within (ask_add_record domain) (length rest) _ (next_text-Within rest) in
    short_le _ _ _ h second

read_arguments-Within :
    (method : MethodType) (vs : List Value) → Within (length vs) (read_arguments method vs)
unfolding read_arguments
read_arguments-Within stored_config_method_type vs =
    with_arg-Within ask_stored_config _ _ (next_text-Within vs)
read_arguments-Within runtime_config_method_type vs =
    with_arg-Within ask_runtime_config _ _ (next_text-Within vs)
read_arguments-Within start_method_type vs = with_arg-Within ask_start _ _ (next_text-Within vs)
read_arguments-Within stop_method_type vs = with_arg-Within ask_stop _ _ (next_text-Within vs)
read_arguments-Within wait_for_stop_method_type vs =
    with_arg-Within ask_wait_for_stop _ _ (next_text-Within vs)
read_arguments-Within delete_method_type vs = with_arg-Within ask_delete _ _ (next_text-Within vs)
read_arguments-Within state_method_type vs = with_arg-Within ask_state _ _ (next_text-Within vs)
read_arguments-Within global_state_method_type vs = omega arith
read_arguments-Within create_method_type vs = with_arg-Within ask_create _ _ (next_config-Within vs)
read_arguments-Within tunnels_method_type vs = omega arith
read_arguments-Within quit_method_type vs = with_arg-Within ask_quit _ _ (next_bool-Within vs)
read_arguments-Within update_state_method_type vs = omega arith
read_arguments-Within update_method_type vs = omega arith
read_arguments-Within domain_routing_get_mode_method_type vs = omega arith
read_arguments-Within domain_routing_set_mode_method_type vs =
    with_arg-Within ask_set_mode _ _ (next_mode-Within vs)
read_arguments-Within domain_routing_get_rules_method_type vs = omega arith
read_arguments-Within domain_routing_set_rules_method_type vs =
    with_arg-Within ask_set_rules _ _ (next_rules-Within vs)
read_arguments-Within domain_routing_get_list_mode_method_type vs = tt
read_arguments-Within domain_routing_set_list_mode_method_type vs = tt
read_arguments-Within domain_routing_get_exclude_loopback_method_type vs = omega arith
read_arguments-Within domain_routing_set_exclude_loopback_method_type vs =
    with_arg-Within ask_set_exclude_loopback _ _ (next_bool-Within vs)
read_arguments-Within domain_routing_get_disable_ipv6_method_type vs = omega arith
read_arguments-Within domain_routing_set_disable_ipv6_method_type vs =
    with_arg-Within ask_set_disable_ipv6 _ _ (next_bool-Within vs)
read_arguments-Within domain_routing_get_dns_settings_method_type vs = omega arith
read_arguments-Within domain_routing_set_dns_settings_method_type vs =
    with_arg-Within ask_set_dns_settings _ _ (next_dns-Within vs)
read_arguments-Within local_dns_get_records_method_type vs = omega arith
read_arguments-Within local_dns_add_record_method_type vs =
    two_texts-Within _ _ (next_text-Within vs)
read_arguments-Within local_dns_remove_record_method_type vs =
    with_arg-Within ask_remove_record _ _ (next_text-Within vs)
read_arguments-Within dns_log_get_entries_method_type vs = omega arith
read_arguments-Within dns_log_clear_method_type vs = omega arith
read_arguments-Within dns_log_set_enabled_method_type vs =
    with_arg-Within ask_set_enabled _ _ (next_bool-Within vs)
read_arguments-Within dns_log_get_count_method_type vs = omega arith
read_arguments-Within dns_log_get_entries_since_index_method_type vs =
    with_arg-Within ask_entries_since _ _ (next_int-Within vs)
read_arguments-Within port_firewall_get_rules_method_type vs = omega arith
read_arguments-Within port_firewall_set_rules_method_type vs =
    with_arg-Within ask_set_ports _ _ (next_ports-Within vs)

read_method-Within :
    (vs : List Value) (method : Option MethodType) → Within (length vs) (read_method vs method)
read_method-Within vs none = tt
read_method-Within vs (some method) = read_arguments-Within method vs

-- A request uses up a value at least.
pub read_request-Within : (v : Value) (vs : List Value) → Within (length vs) (read_request (v ∷ vs))
unfolding read_request
read_request-Within (type_value n) vs = read_method-Within vs (get_elem? method_types n)
read_request-Within _ vs = tt
