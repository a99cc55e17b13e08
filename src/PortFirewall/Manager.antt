-- ===== src/PortFirewall/Manager.antt =====
-- manager/portfirewall.go: the manager's state and its methods. Each method returns the new state,
-- the calls that it makes of the file system and of PowerShell, in order, and its error.
use amneziawg_windows_client.Common.{◌∷◌, if◌then◌else◌, List, is_nil, some, none, [], ◌++◌, Option}
use amneziawg_windows_client.Common.Text.{Text, codes, ◌=ᵗ◌}
use amneziawg_windows_client.PortFirewall.{
  normalize_port_rules, mode_string, parse_port_firewall_mode, off, PortRule, PortFirewallMode,
}
use amneziawg_windows_client.PortFirewall.Script.{apply_script, remove_script, remove_all_script}
use amneziawg_windows_client.Tunnel.{TunnelState, started, stopped}

pub record PortFirewallConfig : Type 0 where
  pub mode : Text
  pub rules : List PortRule

pub record PortFirewallManager : Type 0 where
  pub mode : PortFirewallMode
  pub rules : List PortRule
  pub config : PortFirewallConfig
  pub config_path : Text
  pub active_tunnel : Text

pub data Effect : Type 0 where
  write_file : Text → PortFirewallConfig → Effect
  power_shell : Text → Effect

-- What the system answers. `read_config path` is what json.Unmarshal makes of the file over the
-- configuration that it is given, or `none` where the file cannot be read. `mkdir_all path` makes the
-- directory of the file. Errors are texts.
pub record System : Type 0 where
  pub read_config : Text → PortFirewallConfig → Option PortFirewallConfig
  pub mkdir_all : Text → Option Text
  pub write : Text → PortFirewallConfig → Option Text
  pub run : Text → Option Text

-- GetRules
unfoldable pub get_rules : PortFirewallManager → PortFirewallConfig
get_rules m = record { mode = mode_string m.mode; rules = m.rules }

module _ (sys : System) where
  unfoldable pub load_config : PortFirewallManager → PortFirewallManager
  load_config m =
      let default : PortFirewallConfig = record { mode = mode_string off; rules = [] } in
      let cfg : PortFirewallConfig = elim (sys.read_config m.config_path default) [
        | none ↦ default
        | some c ↦ c
      ] in
      record m {
        config = cfg;
        mode = parse_port_firewall_mode cfg.mode;
        rules = normalize_port_rules cfg.rules;
      }

  -- init, with the path that portFirewallConfigPath computed; it cannot fail.
  unfoldable pub init : Text → PortFirewallManager → PortFirewallManager × List Effect
  unfolding load_config
  init path m = (load_config (record m { config_path = path }), power_shell remove_all_script ∷ [])

  unfoldable pub save_config : PortFirewallManager → List Effect × Option Text
  save_config m =
      if is_nil m.config_path
      then ([], some (codes "missing config path"))
      else elim (sys.mkdir_all m.config_path) [
        | some e ↦ ([], some e)
        | none ↦ (write_file m.config_path m.config ∷ [], sys.write m.config_path m.config)
      ]

  unfoldable pub apply_rules : PortFirewallManager → List Effect × Option Text
  apply_rules m =
      if is_nil m.active_tunnel
      then ([], none)
      else let script = apply_script m.mode m.rules m.active_tunnel in
        (power_shell script ∷ [], sys.run script)

  -- What SetRules does once the rules are stored.
  unfoldable pub save_and_apply : PortFirewallManager → List Effect × Option Text
  save_and_apply m =
      let (saved, error) = save_config m in
      let (applied, error') = apply_rules m in
      elim error [ some e ↦ (saved, some e) | none ↦ (saved ++ applied, error') ]

  unfoldable pub set_rules :
      PortFirewallConfig → PortFirewallManager → PortFirewallManager × List Effect × Option Text
  unfolding save_and_apply
  set_rules wanted m =
      let mode' = parse_port_firewall_mode wanted.mode in
      let rules' = normalize_port_rules wanted.rules in
      let m' = record m {
        mode = mode';
        rules = rules';
        config = record { mode = mode_string mode'; rules = rules' };
      } in
      let (effects, error) = save_and_apply m' in (m', effects, error)

  -- OnTunnelStateChange; errors of the scripts are only logged.
  unfoldable pub on_tunnel_state_change :
      Text → TunnelState → PortFirewallManager → PortFirewallManager × List Effect
  unfolding apply_rules
  on_tunnel_state_change name started m =
      let m' = record m { active_tunnel = name } in (m', (apply_rules m').0)
  on_tunnel_state_change name stopped m =
      if m.active_tunnel =ᵗ name
      then (record m { active_tunnel = [] }, power_shell (remove_script name) ∷ [])
      else (m, [])
  on_tunnel_state_change name _ m = (m, [])
