-- ===== src/Ipc/Client.antt =====
-- manager/ipc_client.go: the calls that a window makes of the manager service.
--
-- The connection is an interface: the calls of rpcEncoder.Encode of one function, with the first
-- error, and rpcDecoder.Decode. rpcMutex keeps the functions apart from one another, so that one
-- function's encodings stand together. An error is its text.
use amneziawg_windows_client.Common.{Option, some, Bool, List, [], none}
use amneziawg_windows_client.Common.Text.{Text}
use amneziawg_windows_client.DnsLog.{ℤ, Stamped}
use amneziawg_windows_client.DomainRouting.{DomainRoutingMode}
use amneziawg_windows_client.Ipc.{
  mode_value, dns_value, entries_value, bool_value, update_value, tunnels_value, tunnel_value,
  Value, decoded_error, ports_value, text_value, int_value, records_value, config_value,
  rules_value, UpdateState, state_value,
}
use amneziawg_windows_client.LocalRecords.{LocalDnsRecord}
use amneziawg_windows_client.Manager.Service.{state}
use amneziawg_windows_client.PortFirewall.Manager.{PortFirewallConfig}
use amneziawg_windows_client.Router.{raised, returned, Fallible, TunnelConfig}
use amneziawg_windows_client.Router.Settings.{RulesData, DnsSettings}
use amneziawg_windows_client.Router.Sound.{records}
use amneziawg_windows_client.Tunnel.{TunnelState}

pub record Transport (S : Type 0) : Type 0 where
  pub encode : List Value → S → Option Text × S
  pub decode : S → Fallible Value × S
  pub wrong_type : Text

-- What Decode takes from a value into a variable of each type.
abbrev pub as_text : Value → Option Text
as_text (text_value s) = some s
as_text _ = none

abbrev pub as_bool : Value → Option Bool
as_bool (bool_value b) = some b
as_bool _ = none

abbrev pub as_int : Value → Option ℤ
as_int (int_value n) = some n
as_int _ = none

abbrev pub as_config : Value → Option TunnelConfig
as_config (config_value c) = some c
as_config _ = none

abbrev pub as_tunnel : Value → Option Text
as_tunnel (tunnel_value name) = some name
as_tunnel _ = none

abbrev pub as_tunnels : Value → Option (List Text)
as_tunnels (tunnels_value names) = some names
as_tunnels _ = none

abbrev pub as_state : Value → Option TunnelState
as_state (state_value state) = some state
as_state _ = none

abbrev pub as_update : Value → Option UpdateState
as_update (update_value state) = some state
as_update _ = none

abbrev pub as_mode : Value → Option DomainRoutingMode
as_mode (mode_value mode) = some mode
as_mode _ = none

abbrev pub as_rules : Value → Option RulesData
as_rules (rules_value rules) = some rules
as_rules _ = none

abbrev pub as_dns : Value → Option DnsSettings
as_dns (dns_value settings) = some settings
as_dns _ = none

abbrev pub as_records : Value → Option (List LocalDnsRecord)
as_records (records_value records) = some records
as_records _ = none

abbrev pub as_entries : Value → Option (List Stamped)
as_entries (entries_value entries) = some entries
as_entries _ = none

abbrev pub as_ports : Value → Option PortFirewallConfig
as_ports (ports_value rules) = some rules
as_ports _ = none

module _ {S : Type 0} (rpc : Transport S) where
  -- rpcDecoder.Decode into a variable that has a first value, with the error.
  unfoldable pub decode_into : {A : Type 0} → (Value → Option A) → A → S → (A × Option Text) × S
  decode_into read zero_value s =
      let (found, s') = rpc.decode s in
      (
        elim found [
          | raised why ↦ (zero_value, some why)
          | returned v ↦ elim (read v) [
            | none ↦ (zero_value, some rpc.wrong_type)
            | some a ↦ (a, none)
          ]
        ],
        s',
      )

  -- What rpcDecodeError makes of the text.
  abbrev pub error_behind : (Text × Option Text) × S → Option Text × S
  error_behind ((str, some why), s) = (some why, s)
  error_behind ((str, none), s) = (decoded_error str, s)

  -- rpcDecodeError
  unfoldable pub rpc_decode_error : S → Option Text × S
  unfolding decode_into decoded_error
  rpc_decode_error s = error_behind (decode_into as_text [] s)

  abbrev pub value_behind :
      {A : Type 0} → (Value → Option A) → A → Option Text × S → (A × Option Text) × S
  value_behind read zero_value (some why, s) = ((zero_value, some why), s)
  value_behind read zero_value (none, s) = decode_into read zero_value s

  abbrev pub status_behind : Option Text × S → Option Text × S
  status_behind (some why, s) = (some why, s)
  status_behind (none, s) = rpc_decode_error s

  abbrev pub with_status : {A : Type 0} → A → Option Text × S → (A × Option Text) × S
  with_status a (err, s) = ((a, err), s)

  abbrev pub both_behind : {A : Type 0} → (A × Option Text) × S → (A × Option Text) × S
  both_behind ((a, some why), s) = ((a, some why), s)
  both_behind ((a, none), s) = with_status a (rpc_decode_error s)

  -- The bodies of the functions: encode, then decode a value, or the error, or both.
  unfoldable pub ask :
      {A : Type 0} → (Value → Option A) → A → List Value → S → (A × Option Text) × S
  unfolding decode_into
  ask read zero_value vs s = value_behind read zero_value (rpc.encode vs s)

  unfoldable pub ask_error : List Value → S → Option Text × S
  unfolding rpc_decode_error
  ask_error vs s = status_behind (rpc.encode vs s)

  unfoldable pub ask_both :
      {A : Type 0} → (Value → Option A) → A → List Value → S → (A × Option Text) × S
  unfolding ask rpc_decode_error
  ask_both read zero_value vs s = both_behind (ask read zero_value vs s)
