-- ===== src/Manager/Configs.antt =====
-- manager/ipc_server.go and ipc_uapi.go: the configurations that a ManagerService shows.
use amneziawg_windows_client.Common.{
  true, Bool, if◌then◌else◌, any, List, [], false, Option, none, ◌∷◌, some,
}
use amneziawg_windows_client.Common.Text.{◌=ᵗ◌, Text}
use amneziawg_windows_client.Manager.{Host, Failure, message, Outside, Manager, is_errno, is_error}
use amneziawg_windows_client.Router.{System, raised, returned, Fallible, TunnelConfig}

abbrev pub without_pipe : Text → List Text → List Text
without_pipe name [] = []
without_pipe name (x ∷ xs) = let rest = without_pipe name xs in if x =ᵗ name then rest else x ∷ rest

module _ {sys : System} (host : Host sys) where
  abbrev pub now : Manager host → Outside
  now m = host.outside m.requests

  -- The redaction for a window that is not elevated.
  abbrev pub shown_config : Bool → TunnelConfig → TunnelConfig
  shown_config elevated c = if elevated then c else host.redact c

  -- StoredConfig
  unfoldable pub stored_config : Bool → Text → Manager host → Fallible TunnelConfig
  stored_config elevated name m = elim (sys.load_tunnel name m.world.store) [
    | raised why ↦ raised why
    | returned c ↦ returned (shown_config elevated c)
  ]

  -- connectTunnelServicePipe
  unfoldable pub connect_pipe : Bool → Text → Manager host → Option Text × Manager host
  connect_pipe again name m =
      if any (λ x. x =ᵗ name) m.pipes then (none, m) else elim ((now m).dial again) [
        | some why ↦ (some why, m)
        | none ↦ (none, record m { pipes = name ∷ m.pipes })
      ]

  -- disconnectTunnelServicePipe
  unfoldable pub disconnect_pipe : Text → Manager host → Manager host
  disconnect_pipe name m = record m { pipes = without_pipe name m.pipes }

  -- The end of RuntimeConfig, at the outcome of the last Write.
  unfoldable pub read_pipe :
      Bool
      → Text
      → TunnelConfig
      → Option Failure
      → Manager host
      → Option Failure × TunnelConfig × Manager host
  unfolding disconnect_pipe
  read_pipe elevated name c (some why) m = (some why, c, disconnect_pipe name m)
  read_pipe elevated name c none m = elim ((now m).from_uapi c) [
    | raised why ↦ (some (message why), c, m)
    | returned c' ↦ (none, shown_config elevated c', m)
  ]

  -- ERROR_NO_DATA is 232: the pipe is opened again.
  unfoldable pub write_pipe :
      Bool → Text → TunnelConfig → Manager host → Option Failure × TunnelConfig × Manager host
  unfolding connect_pipe disconnect_pipe read_pipe
  write_pipe elevated name c m =
      let first = (now m).write_pipe false in
      if is_errno 232 first
      then (let (err, m') = connect_pipe true name (disconnect_pipe name m) in
          elim err [
            | some why ↦ (some (message why), c, m')
            | none ↦ read_pipe elevated name c ((now m').write_pipe true) m'
          ])
      else read_pipe elevated name c first m

  -- RuntimeConfig; the configuration counts where there is no error.
  unfoldable pub runtime_config :
      Bool → Text → Manager host → Option Failure × Option TunnelConfig × Manager host
  unfolding connect_pipe write_pipe
  runtime_config elevated name m = elim (sys.load_tunnel name m.world.store) [
    | raised why ↦ (some (message why), none, m)
    | returned stored ↦
        let (err, m1) = connect_pipe false name m in
        elim err [
          | some why ↦ (some (message why), none, m1)
          | none ↦
              let (err2, c, m2) = write_pipe elevated name stored m1 in
              (err2, if is_error err2 then none else some c, m2)
        ]
  ]
