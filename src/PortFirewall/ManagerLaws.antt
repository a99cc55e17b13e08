-- ===== src/PortFirewall/ManagerLaws.antt =====
-- Invariants of the manager of manager/portfirewall.go over any run of its methods.
use amneziawg_windows_client.Common.{
  ◌∷◌, ◌⊎◌, inr, All, List, refl, inl, is_nil, ◌≡◌, [], ◌++◌, Bool-cases, arith, none, some, ◌≢◌,
}
use amneziawg_windows_client.Common.Text.{Text, ◌=ᵗ◌}
use amneziawg_windows_client.PortFirewall.{
  PortRule, PortFirewallMode, parse_port_firewall_mode, normalize_port_rules, mode_string,
}
use amneziawg_windows_client.PortFirewall.BlockLaws.{
  IsNormal, normalize_port_rules-IsNormal, IsUint16,
}
use amneziawg_windows_client.PortFirewall.Manager.{
  save_and_apply, set_rules, on_tunnel_state_change, write_file, System, power_shell, Effect,
  PortFirewallConfig, save_config, apply_rules, PortFirewallManager, get_rules,
}
use amneziawg_windows_client.PortFirewall.Script.{apply_script, remove_script}
use amneziawg_windows_client.Tunnel.{TunnelState, started, stopped}

-- What a client or the tunnel tracker may ask for; IPC carries the ports as 16-bit numbers.
pub data Event : Type 0 where
  set : PortFirewallConfig → Event
  change : Text → TunnelState → Event

abbrev pub IsEvent : Event → Type 0
IsEvent (set wanted) = All IsUint16 wanted.rules
IsEvent (change name state) = Unit

module _ (sys : System) where
  unfoldable pub handle : Event → PortFirewallManager → PortFirewallManager × List Effect
  handle (set wanted) m = let (m', effects, error) = set_rules sys wanted m in (m', effects)
  handle (change name state) m = on_tunnel_state_change sys name state m

  -- The state after the events, and all the calls made.
  unfoldable pub run_events : List Event → PortFirewallManager → PortFirewallManager × List Effect
  run_events [] m = (m, [])
  run_events (e ∷ es) m =
      let (m', effects) = handle e m in
      let (m'', later) = run_events es m' in (m'', effects ++ later)

-- The rules are in normal form.
abbrev pub HasNormalRules : PortFirewallManager → Type 0
HasNormalRules m = All IsNormal m.rules

-- Every script that is run either removes a tunnel's rules or carries out rules in normal form.
abbrev pub IsGoodEffect : Effect → Type 0
IsGoodEffect (write_file path cfg) = All IsNormal cfg.rules
IsGoodEffect (power_shell script) =
    ((t : Text) × (script ≡ remove_script t))
    ⊎ ((mode : PortFirewallMode) × (rules : List PortRule) × (t : Text) × (script
          ≡ apply_script mode rules t)
        × All IsNormal rules)

All-append : (P : Effect → Type 0) (xs ys : List Effect) → All P xs → All P ys → All P (xs ++ ys)
All-append P [] ys h k = k
All-append P (x ∷ xs) ys h k = (h.0, All-append P xs ys h.1 k)

module _ (sys : System) where
  apply_rules-IsGoodEffect :
      (m : PortFirewallManager) → HasNormalRules m → All IsGoodEffect (apply_rules sys m).0
  unfolding apply_rules
  apply_rules-IsGoodEffect m h = elim (Bool-cases (is_nil m.active_tunnel)) [
    | inl e ↦ rw e tt
    | inr e ↦ rw e (inr (m.mode, m.rules, m.active_tunnel, refl, h), tt)
  ]

  save_config-IsGoodEffect :
      (m : PortFirewallManager)
      → All IsNormal m.config.rules
      → All IsGoodEffect (save_config sys m).0
  unfolding save_config
  save_config-IsGoodEffect m h = ground arith

  save_and_apply-IsGoodEffect :
      (m : PortFirewallManager)
      → HasNormalRules m
      → All IsNormal m.config.rules
      → All IsGoodEffect (save_and_apply sys m).0
  unfolding save_and_apply
  save_and_apply-IsGoodEffect m h k =
      let saved = save_config-IsGoodEffect m k in
      let applied = apply_rules-IsGoodEffect m h in
      let both =
        All-append IsGoodEffect (save_config sys m).0 (apply_rules sys m).0 saved applied in
      ground (arith, saved, both)

  handle-IsGood :
      (e : Event) (m : PortFirewallManager)
      → IsEvent e
      → HasNormalRules m
      → HasNormalRules (handle sys e m).0 × All IsGoodEffect (handle sys e m).1
  unfolding handle
  handle-IsGood (set wanted) m i h =
      unfold set_rules in
      let normal = normalize_port_rules-IsNormal wanted.rules i in
      (normal, save_and_apply-IsGoodEffect _ normal normal)
  handle-IsGood (change name started) m i h =
      unfold on_tunnel_state_change in
      (h, apply_rules-IsGoodEffect (record m { active_tunnel = name }) h)
  handle-IsGood (change name stopped) m i h = elim (Bool-cases (m.active_tunnel =ᵗ name)) [
    | inl e ↦ unfold on_tunnel_state_change in rw e (h, (inl (name, refl), tt))
    | inr e ↦ unfold on_tunnel_state_change in rw e (h, tt)
  ]
  handle-IsGood (change name _) m i h = unfold on_tunnel_state_change in (h, tt)

  run_events_from :
      (es : List Event) (m : PortFirewallManager)
      → All IsEvent es
      → HasNormalRules m
      → HasNormalRules (run_events sys es m).0 × All IsGoodEffect (run_events sys es m).1
  unfolding run_events
  run_events_from [] m i h = (h, tt)
  run_events_from (e ∷ es) m i h =
      let now = handle-IsGood e m i.0 h in
      let later = run_events_from es (handle sys e m).0 i.1 now.0 in
      (later.0, All-append IsGoodEffect (handle sys e m).1 _ now.1 later.1)

  -- From a state whose rules are in normal form and whatever requests and tunnel changes come, the
  -- rules stay in normal form, every saved configuration holds rules in normal form, and every
  -- script that is run either removes the rules of one tunnel or carries out rules in normal form.
  pub run_events-IsGood :
      (es : List Event) (m : PortFirewallManager)
      → All IsEvent es
      → HasNormalRules m
      → HasNormalRules (run_events sys es m).0 × All IsGoodEffect (run_events sys es m).1
  run_events-IsGood = run_events_from

  -- SetRules with a tunnel active, a configuration path and a system that makes no error saves the
  -- normalized rules, then runs the script for them and for that tunnel, and nothing else.
  set_rules_lem :
      (wanted : PortFirewallConfig) (m : PortFirewallManager)
      → m.active_tunnel ≢ []
      → m.config_path ≢ []
      → ((path : Text) → sys.mkdir_all path ≡ none)
      → ((path : Text) (cfg : PortFirewallConfig) → sys.write path cfg ≡ none)
      → let m' = (set_rules sys wanted m).0 in
        (set_rules sys wanted m).1
        ≡ write_file m.config_path (get_rules m')
          ∷ power_shell (
              apply_script
                (parse_port_firewall_mode wanted.mode)
                (normalize_port_rules wanted.rules)
                m.active_tunnel)
          ∷ []
  unfolding set_rules save_and_apply save_config apply_rules get_rules
  set_rules_lem wanted m active path mkdir write =
      let cfg : PortFirewallConfig = record {
        mode = mode_string (parse_port_firewall_mode wanted.mode);
        rules = normalize_port_rules wanted.rules;
      } in
      let written = write m.config_path cfg in ground (arith, mkdir m.config_path, written)

  -- Where the configuration cannot be saved, SetRules returns the error and runs no script, but the
  -- rules in memory are already the new ones.
  set_rules_unsaved :
      (wanted : PortFirewallConfig) (m : PortFirewallManager) (why : Text)
      → m.config_path ≢ []
      → ((path : Text) → sys.mkdir_all path ≡ some why)
      → ((set_rules sys wanted m).1 ≡ [])
        × ((set_rules sys wanted m).2 ≡ some why)
        × ((set_rules sys wanted m).0.rules ≡ normalize_port_rules wanted.rules)
  unfolding set_rules save_and_apply save_config apply_rules
  set_rules_unsaved wanted m why path mkdir = ground (arith, mkdir m.config_path)
