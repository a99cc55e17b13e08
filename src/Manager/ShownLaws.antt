-- ===== src/Manager/ShownLaws.antt =====
-- manager/ipc_server.go: what a window that is not elevated can see and do.
use amneziawg_windows_client.Common.{
  Option, if_both, option_both, All, List, refl, inr, ◌≡◌, none, arith, sym, false, some,
  false≢true, ◌⊎◌, if_cases, ℕ, inl, true,
}
use amneziawg_windows_client.Common.Text.{Text}
use amneziawg_windows_client.Ipc.{no_config, config_value, Value}
use amneziawg_windows_client.Manager.{is_errno, Manager, ManagerService, Failure, Host, is_error}
use amneziawg_windows_client.Manager.Configs.{
  runtime_config, connect_pipe, read_pipe, write_pipe, now, stored_config, disconnect_pipe,
}
use amneziawg_windows_client.Manager.KeptLaws.{answer-Keeps, IsPassedOver}
use amneziawg_windows_client.Manager.KeptServices.{Keeps, kept_after}
use amneziawg_windows_client.Manager.Requests.{
  ask_state, ask_stop, ask_remove_record, ask_global_state, Request, ask_set_ports, ask_set_enabled,
  ask_delete, ask_set_exclude_loopback, ask_wait_for_stop, ask_update, ask_exclude_loopback,
  ask_records, ask_mode, ask_set_rules, ask_tunnels, ask_start, ask_stored_config, ask_count,
  ask_add_record, ask_runtime_config, ask_disable_ipv6, ask_create, ask_set_disable_ipv6,
  ask_entries, ask_entries_since, ask_update_state, ask_dns_settings, ask_set_mode, ask_rules,
  ask_ports, ask_set_dns_settings, ask_quit, ask_clear,
}
use amneziawg_windows_client.Manager.ServeLaws.{EachOf, serve_conn-keeps}
use amneziawg_windows_client.Manager.Server.{
  handle, serve_conn, when_done, or_no_config, value_or, answer, encode_reply, Reply,
}
use amneziawg_windows_client.Manager.Service.{wait_for_stop, start}
use amneziawg_windows_client.Router.{System, TunnelConfig, Fallible}
use amneziawg_windows_client.Router.Sound.{fallible_both}

module _ {sys : System} (host : Host sys) where
  -- A configuration that was redacted, or the empty one.
  abbrev pub IsRedacted : TunnelConfig → Type 0
  IsRedacted c = (c ≡ no_config) ⊎ ((c' : TunnelConfig) × (c ≡ host.redact c'))

  -- A value that shows no configuration but such ones.
  abbrev pub IsShown : Value → Type 0
  IsShown (config_value c) = IsRedacted c
  IsShown v = Unit

  stored_config-IsRedacted :
      (name : Text) (m : Manager host)
      → IsRedacted (value_or no_config (stored_config host false name m))
  unfolding stored_config
  stored_config-IsRedacted name m =
      let P : Fallible TunnelConfig → Type 0 = λ x. IsRedacted (value_or no_config x) in
      fallible_both P (sys.load_tunnel name m.world.store) (λ why. inl refl) (λ c. inr (c, refl))

  -- Without an error, the configuration is redacted.
  abbrev Hides : Option Failure × TunnelConfig × Manager host → Type 0
  Hides (err, c, m) = is_error err ≡ false → IsRedacted c

  read_pipe-Hides :
      (name : Text) (c : TunnelConfig) (err : Option Failure) (m : Manager host)
      → Hides (read_pipe host false name c err m)
  unfolding read_pipe
  read_pipe-Hides name c (some why) m = λ e. absurd (false≢true (sym e))
  read_pipe-Hides name c none m =
      let P : Option Failure × TunnelConfig × Manager host → Type 0 = λ x. Hides x in
      fallible_both P ((now host m).from_uapi c) (λ why e. absurd (false≢true (sym e)))
        (λ c' e. inr (c', refl))

  write_pipe-Hides :
      (name : Text) (c : TunnelConfig) (m : Manager host) → Hides (write_pipe host false name c m)
  unfolding write_pipe
  write_pipe-Hides name c m =
      let P : Option Failure × TunnelConfig × Manager host → Type 0 = λ x. Hides x in
      let (err, m1) = connect_pipe host true name (disconnect_pipe host name m) in
      if_both P (is_errno 232 ((now host m).write_pipe false))
        (option_both P err (read_pipe-Hides name c ((now host m1).write_pipe true) m1)
          (λ why e. absurd (false≢true (sym e))))
        (read_pipe-Hides name c ((now host m).write_pipe false) m)

  abbrev HidesOption : Option Failure × Option TunnelConfig × Manager host → Type 0
  HidesOption (err, c, m) = IsRedacted (or_no_config c)

  runtime_config-Hides :
      (name : Text) (m : Manager host) → HidesOption (runtime_config host false name m)
  unfolding runtime_config
  runtime_config-Hides name m =
      let P : Option Failure × Option TunnelConfig × Manager host → Type 0 = λ x. HidesOption x in
      let Q : Option TunnelConfig → Type 0 = λ c. IsRedacted (or_no_config c) in
      fallible_both P (sys.load_tunnel name m.world.store) (λ why. inl refl)
        (λ stored.
          let (err, m1) = connect_pipe host false name m in
          let (err2, c, m2) = write_pipe host false name stored m1 in
          let hidden : is_error err2 ≡ false → IsRedacted c = write_pipe-Hides name stored m1 in
          option_both P err (if_cases Q (is_error err2) (λ e. inl refl) hidden) (λ why. inl refl))

  -- Each value of a reply.
  abbrev Shows : Option Reply → Type 0
  Shows o = EachOf host IsShown o

  when_done-Shows : (err : Option (Option Failure)) → Shows (when_done err)
  unfolding encode_reply
  when_done-Shows none = tt
  when_done-Shows (some err) = (tt, tt)

  answer-Shows :
      (s : ManagerService) (r : Request) (m : Manager host)
      → s.is_elevated ≡ false
      → Shows (answer host s r m).0
  unfolding answer encode_reply
  answer-Shows s (ask_stored_config name) m h = rw h (stored_config-IsRedacted name m, (tt, tt))
  answer-Shows s (ask_runtime_config name) m h = rw h (runtime_config-Hides name m, (tt, tt))
  answer-Shows s (ask_start name) m h = when_done-Shows (start host name m).0
  answer-Shows s (ask_wait_for_stop name) m h = when_done-Shows (wait_for_stop host name m).0
  answer-Shows s ask_update m h = tt
  answer-Shows s ask_clear m h = tt
  answer-Shows s (ask_set_enabled flag) m h = tt
  answer-Shows s (ask_stop name) m h = (tt, tt)
  answer-Shows s (ask_delete name) m h = (tt, tt)
  answer-Shows s (ask_state name) m h = (tt, (tt, tt))
  answer-Shows s ask_global_state m h = (tt, tt)
  answer-Shows s ask_tunnels m h = (tt, (tt, tt))
  answer-Shows s ask_update_state m h = (tt, tt)
  answer-Shows s (ask_create config) m h = (tt, (tt, tt))
  answer-Shows s (ask_quit flag) m h = (tt, (tt, tt))
  answer-Shows s ask_mode m h = (tt, tt)
  answer-Shows s ask_rules m h = (tt, tt)
  answer-Shows s ask_exclude_loopback m h = (tt, tt)
  answer-Shows s ask_disable_ipv6 m h = (tt, tt)
  answer-Shows s ask_dns_settings m h = (tt, tt)
  answer-Shows s (ask_set_mode mode) m h = (tt, tt)
  answer-Shows s (ask_set_rules rules) m h = (tt, tt)
  answer-Shows s (ask_set_exclude_loopback flag) m h = (tt, tt)
  answer-Shows s (ask_set_disable_ipv6 flag) m h = (tt, tt)
  answer-Shows s (ask_set_dns_settings settings) m h = (tt, tt)
  answer-Shows s ask_records m h = (tt, tt)
  answer-Shows s (ask_add_record domain record_ip) m h = (tt, tt)
  answer-Shows s (ask_remove_record domain) m h = (tt, tt)
  answer-Shows s ask_entries m h = (tt, tt)
  answer-Shows s ask_count m h = (tt, tt)
  answer-Shows s (ask_entries_since from_index) m h = (tt, tt)
  answer-Shows s ask_ports m h = (tt, tt)
  answer-Shows s (ask_set_ports wanted) m h = (tt, tt)

  unelevated-IsPassedOver :
      (s : ManagerService) (r : Request) (m : Manager host)
      → s.is_elevated ≡ false
      → IsPassedOver host s r m
  unelevated-IsPassedOver s (ask_quit flag) m h = ground (arith, h)
  unelevated-IsPassedOver s r m h = tt

  -- A window that is not elevated is shown no configuration but redacted and empty ones, whatever it
  -- sends, and neither sets haveQuit nor sends anything to quitManagersChan.
  pub serve_conn-unelevated :
      (s : ManagerService) (room : ℕ) (vs : List Value) (m : Manager host)
      → s.is_elevated ≡ false
      → All IsShown (serve_conn host s room vs m).written
        × ((serve_conn host s room vs m).manager.quits ≡ m.quits)
        × ((serve_conn host s room vs m).manager.have_quit ≡ m.have_quit)
  unfolding handle
  serve_conn-unelevated s room vs m h =
      let (kept, shown') =
        serve_conn-keeps host s (λ x. Keeps host m x) IsShown
          (λ r k before. (
            kept_after host m k (answer host s r k).1 before
                (answer-Keeps host s r k (unelevated-IsPassedOver s r k h)),
            answer-Shows s r k h,
          ))
          room vs m (refl, refl) in
      (shown', kept.1, kept.0)
