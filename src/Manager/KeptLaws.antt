-- ===== src/Manager/KeptLaws.antt =====
-- manager/ipc_server.go: the methods that leave haveQuit and quitManagersChan alone.
use amneziawg_windows_client.Common.{
  refl, Bool, Option, not, true, is_nil, false, ◌≡◌, option_both, if_both, [], ◌++◌, ◌∷◌, List,
  if_cases, arith, ◌||◌,
}
use amneziawg_windows_client.Common.Text.{Text}
use amneziawg_windows_client.Manager.{Failure, Manager, Host, stop_tunnels, ManagerService}
use amneziawg_windows_client.Manager.Configs.{write_pipe, connect_pipe, runtime_config}
use amneziawg_windows_client.Manager.Install.{
  service_manager, wait_until_gone, uninstall_tunnel, Waited, still_there, panicked, gone,
}
use amneziawg_windows_client.Manager.KeptServices.{
  uninstall_tunnel-Keeps, kept_after, KeepsResult, connect_pipe-Keeps, Keeps, write_pipe-Keeps,
  service_manager-Keeps, install_tunnel-Keeps,
}
use amneziawg_windows_client.Manager.Requests.{
  ask_count, ask_update, ask_runtime_config, ask_update_state, ask_set_enabled, ask_dns_settings,
  ask_tunnels, ask_start, ask_rules, ask_quit, ask_exclude_loopback, ask_entries, ask_wait_for_stop,
  ask_set_mode, ask_add_record, ask_stored_config, Request, ask_set_ports, ask_state, ask_delete,
  ask_stop, ask_set_rules, ask_global_state, ask_mode, ask_remove_record, ask_set_disable_ipv6,
  ask_set_exclude_loopback, ask_create, ask_entries_since, ask_set_dns_settings, ask_clear,
  ask_ports, ask_records, ask_disable_ipv6,
}
use amneziawg_windows_client.Manager.Server.{answer}
use amneziawg_windows_client.Manager.Service.{
  launch, prepare_start, start, state, wait_for_stop, stop, delete, find_intersecting, update, quit,
  create, uninstall_all,
}
use amneziawg_windows_client.Router.{System, TunnelConfig}
use amneziawg_windows_client.Router.Sound.{fallible_both}
use amneziawg_windows_client.Tunnel.{TunnelState}

waited_both :
    {S B : Type 0} (P : B → Type 0) (w : Waited S) {x : B} {f : S → B}
    → P x
    → ((s : S) → P (f s))
    → P (elim w [ still_there ↦ x | panicked ↦ x | gone s ↦ f s ])
waited_both P still_there h k = h
waited_both P panicked h k = h
waited_both P (gone s) h k = k s

module _ {sys : System} (host : Host sys) where
  pub stop-Keeps : (name : Text) (m : Manager host) → KeepsResult host m (stop host name m)
  unfolding stop
  stop-Keeps name m =
      let P : Option Failure × Manager host → Type 0 = λ x. KeepsResult host m x in
      let (err, m1) = uninstall_tunnel host name m in
      let kept : Keeps host m m1 = uninstall_tunnel-Keeps host name m in
      fallible_both P (sys.load_tunnel name m1.world.store) (λ why. kept) (λ c. kept)

  launch-Keeps :
      (c : TunnelConfig) (tt' : List Text) (waiting : Text) (m : Manager host)
      → KeepsResult host m (launch host c (tt', waiting) m)
  unfolding launch
  launch-Keeps c tt' waiting m =
      let P : Option (Option Failure) × Manager host → Type 0 = λ x. KeepsResult host m x in
      let m1 : Manager host = record m { jobs = m.jobs ++ stop_tunnels tt' ∷ [] } in
      if_both P (not (is_nil waiting)) (refl, refl)
        (fallible_both P (host.path_of c) (λ why. (refl, refl))
          (λ path. install_tunnel-Keeps host path m1))

  start-Keeps : (name : Text) (m : Manager host) → KeepsResult host m (start host name m)
  unfolding start prepare_start
  start-Keeps name m =
      let P : Option (Option Failure) × Manager host → Type 0 = λ x. KeepsResult host m x in
      fallible_both P (sys.load_tunnel name m.world.store) (λ why. (refl, refl))
        (λ c.
          let (c', m1) = prepare_start host name c m in
          let (names, waiting) = find_intersecting host c' m1.world.store m1.tracked in
          launch-Keeps c' names waiting m1)

  wait_for_stop-Keeps :
      (name : Text) (m : Manager host) → KeepsResult host m (wait_for_stop host name m)
  unfolding wait_for_stop
  wait_for_stop-Keeps name m =
      let P : Option (Option Failure) × Manager host → Type 0 = λ x. KeepsResult host m x in
      fallible_both P (host.service_name name) (λ why. (refl, refl))
        (λ service.
          let (err, m1) = service_manager host m in
          let kept : Keeps host m m1 = service_manager-Keeps host m in
          option_both P err
            (waited_both P (wait_until_gone host host.patience service m1.services) kept
              (λ s. kept))
            (λ why. kept))

  delete-Keeps :
      (elevated : Bool) (name : Text) (m : Manager host)
      → KeepsResult host m (delete host elevated name m)
  unfolding delete
  delete-Keeps elevated name m =
      let P : Option Failure × Manager host → Type 0 = λ x. KeepsResult host m x in
      let (err, m1) = stop host name m in
      let kept : Keeps host m m1 = stop-Keeps name m in
      if_both P (not elevated) (refl, refl) (option_both P err kept (λ why. kept))

  pub state-Keeps : (name : Text) (m : Manager host) → Keeps host m (state host name m).2
  unfolding state
  state-Keeps name m =
      let P : Option Failure × TunnelState × Manager host → Type 0 =
        λ (err, found, m'). Keeps host m m' in
      fallible_both P (host.service_name name) (λ why. (refl, refl))
        (λ service.
          let (err, m1) = service_manager host m in
          let kept : Keeps host m m1 = service_manager-Keeps host m in
          option_both P err
            (option_both P (host.open_service service m1.services) kept (λ why. kept))
            (λ why. kept))

  runtime_config-Keeps :
      (elevated : Bool) (name : Text) (m : Manager host)
      → Keeps host m (runtime_config host elevated name m).2
  unfolding runtime_config
  runtime_config-Keeps elevated name m =
      let P : Option Failure × Option TunnelConfig × Manager host → Type 0 =
        λ (err, c', m'). Keeps host m m' in
      fallible_both P (sys.load_tunnel name m.world.store) (λ why. (refl, refl))
        (λ c.
          let (err, m1) = connect_pipe host false name m in
          let kept : Keeps host m m1 = connect_pipe-Keeps host false name m in
          option_both P err
            (kept_after host m m1 (write_pipe host elevated name c m1).2 kept
              (write_pipe-Keeps host elevated name c m1))
            (λ why. kept))

  pub uninstall_all-Keeps :
      (names : List Text) (m : Manager host) → Keeps host m (uninstall_all host names m)
  unfolding uninstall_all
  uninstall_all-Keeps [] m = (refl, refl)
  uninstall_all-Keeps (name ∷ names) m =
      let m1 = (uninstall_tunnel host name m).1 in
      kept_after host m m1 (uninstall_all host names m1) (uninstall_tunnel-Keeps host name m)
        (uninstall_all-Keeps names m1)

  -- A quit that is not carried out.
  pub quit-Keeps :
      (s : ManagerService) (stop_tunnels_on_quit : Bool) (m : Manager host)
      → (not s.is_elevated || m.have_quit) ≡ true
      → KeepsResult host m (quit host s stop_tunnels_on_quit m)
  unfolding quit
  quit-Keeps s stop_tunnels_on_quit m h =
      let P : (Bool × Option Failure) × Manager host → Type 0 = λ x. KeepsResult host m x in
      if_cases P (not s.is_elevated) (λ e. (refl, refl))
        (λ e. if_cases P m.have_quit (λ e'. (refl, refl)) (λ e'. absurd (ground (arith, h, e, e'))))

  update-Keeps : (elevated : Bool) (m : Manager host) → Keeps host m (update host elevated m)
  unfolding update
  update-Keeps elevated m =
      let P : Manager host → Type 0 = λ m'. Keeps host m m' in
      if_both P (not elevated) (refl, refl) (refl, refl)

  create-Keeps :
      (elevated : Bool) (c : TunnelConfig) (m : Manager host)
      → KeepsResult host m (create host elevated c m)
  unfolding create
  create-Keeps elevated c m =
      let P : Option Failure × Manager host → Type 0 = λ x. KeepsResult host m x in
      if_both P (not elevated) (refl, refl) (refl, refl)

  abbrev pub IsPassedOver : ManagerService → Request → Manager host → Type 0
  IsPassedOver s (ask_quit b) m = (not s.is_elevated || m.have_quit) ≡ true
  IsPassedOver s _ m = Unit

  pub answer-Keeps :
      (s : ManagerService) (r : Request) (m : Manager host)
      → IsPassedOver s r m
      → KeepsResult host m (answer host s r m)
  unfolding answer
  answer-Keeps s (ask_stored_config name) m h = (refl, refl)
  answer-Keeps s (ask_runtime_config name) m h = runtime_config-Keeps s.is_elevated name m
  answer-Keeps s (ask_start name) m h = start-Keeps name m
  answer-Keeps s (ask_stop name) m h = stop-Keeps name m
  answer-Keeps s (ask_wait_for_stop name) m h = wait_for_stop-Keeps name m
  answer-Keeps s (ask_delete name) m h = delete-Keeps s.is_elevated name m
  answer-Keeps s (ask_state name) m h = state-Keeps name m
  answer-Keeps s ask_global_state m h = (refl, refl)
  answer-Keeps s ask_tunnels m h = (refl, refl)
  answer-Keeps s ask_update_state m h = (refl, refl)
  answer-Keeps s ask_update m h = update-Keeps s.is_elevated m
  answer-Keeps s (ask_create config) m h = create-Keeps s.is_elevated config m
  answer-Keeps s (ask_quit flag) m h = quit-Keeps s flag m h
  answer-Keeps s ask_mode m h = (refl, refl)
  answer-Keeps s ask_rules m h = (refl, refl)
  answer-Keeps s ask_exclude_loopback m h = (refl, refl)
  answer-Keeps s ask_disable_ipv6 m h = (refl, refl)
  answer-Keeps s ask_dns_settings m h = (refl, refl)
  answer-Keeps s (ask_set_mode mode) m h = (refl, refl)
  answer-Keeps s (ask_set_rules rules) m h = (refl, refl)
  answer-Keeps s (ask_set_exclude_loopback flag) m h = (refl, refl)
  answer-Keeps s (ask_set_disable_ipv6 flag) m h = (refl, refl)
  answer-Keeps s (ask_set_dns_settings settings) m h = (refl, refl)
  answer-Keeps s ask_records m h = (refl, refl)
  answer-Keeps s (ask_add_record domain record_ip) m h = (refl, refl)
  answer-Keeps s (ask_remove_record domain) m h = (refl, refl)
  answer-Keeps s ask_entries m h = (refl, refl)
  answer-Keeps s ask_clear m h = (refl, refl)
  answer-Keeps s ask_count m h = (refl, refl)
  answer-Keeps s (ask_set_enabled flag) m h = (refl, refl)
  answer-Keeps s (ask_entries_since from_index) m h = (refl, refl)
  answer-Keeps s ask_ports m h = (refl, refl)
  answer-Keeps s (ask_set_ports wanted) m h = (refl, refl)
