-- ===== src/Manager/KeptServices.antt =====
-- manager/install.go and ipc_uapi.go: the services and the pipes of tunnels leave haveQuit and
-- quitManagersChan alone.
use amneziawg_windows_client.Common.{
  some, refl, Bool, Option, true, none, any, false, ◌≡◌, option_both, if_both, ◌∙◌,
}
use amneziawg_windows_client.Common.Text.{◌=ᵗ◌, Text}
use amneziawg_windows_client.Manager.{is_errno, Failure, Manager, Host}
use amneziawg_windows_client.Manager.Configs.{
  write_pipe, read_pipe, connect_pipe, disconnect_pipe, now,
}
use amneziawg_windows_client.Manager.Install.{
  install_service, behind_removal, service_manager, remove_service, install_tunnel,
  create_tunnel_service, uninstall_tunnel, remove_old_service,
}
use amneziawg_windows_client.Router.{System, TunnelConfig}
use amneziawg_windows_client.Router.Sound.{fallible_both}

module _ {sys : System} (host : Host sys) where
  -- A method that has nothing to do with quitting.
  abbrev pub Keeps : Manager host → Manager host → Type 0
  Keeps m m' = (m'.have_quit ≡ m.have_quit) × (m'.quits ≡ m.quits)

  pub kept_after : (m m1 m2 : Manager host) → Keeps m m1 → Keeps m1 m2 → Keeps m m2
  kept_after m m1 m2 h k = (k.0 ∙ h.0, k.1 ∙ h.1)

  -- What keeps the one keeps the other, where nothing else was done before.
  abbrev pub KeepsResult : {A : Type 0} → Manager host → A × Manager host → Type 0
  KeepsResult m result = Keeps m result.1

  pub service_manager-Keeps : (m : Manager host) → KeepsResult m (service_manager host m)
  unfolding service_manager
  service_manager-Keeps m =
      let P : Option Failure × Manager host → Type 0 = λ x. KeepsResult m x in
      if_both P m.is_connected (refl, refl)
        (option_both P (host.connect m.services) (refl, refl) (λ why. (refl, refl)))

  pub create_tunnel_service-Keeps :
      (name service path : Text) (m : Manager host)
      → KeepsResult m (create_tunnel_service host name service path m)
  unfolding create_tunnel_service
  create_tunnel_service-Keeps name service path m =
      let P : Option Failure × Manager host → Type 0 = λ x. KeepsResult m x in
      let (err, s1) = host.create_service service path m.services in
      option_both P err (refl, refl) (λ why. (refl, refl))

  pub behind_removal-Keeps :
      (name service path : Text) (m : Manager host) (o : Option (Option Failure × host.Services))
      → KeepsResult m (behind_removal host name service path m o)
  behind_removal-Keeps name service path m none = (refl, refl)
  behind_removal-Keeps name service path m (some (some why, s)) = (refl, refl)
  behind_removal-Keeps name service path m (some (none, s)) =
      create_tunnel_service-Keeps name service path (record m { services = s })

  pub install_service-Keeps :
      (name service path : Text) (m : Manager host)
      → KeepsResult m (install_service host name service path m)
  unfolding install_service
  install_service-Keeps name service path m =
      let P : Option (Option Failure) × Manager host → Type 0 = λ x. KeepsResult m x in
      option_both P (host.open_service service m.services)
        (behind_removal-Keeps name service path m (remove_old_service host service m.services))
        (λ why. behind_removal-Keeps name service path m (some (none, m.services)))

  pub install_tunnel-Keeps :
      (path : Text) (m : Manager host) → KeepsResult m (install_tunnel host path m)
  unfolding install_tunnel
  install_tunnel-Keeps path m =
      let P : Option (Option Failure) × Manager host → Type 0 = λ x. KeepsResult m x in
      let (err, m1) = service_manager host m in
      let kept : Keeps m m1 = service_manager-Keeps m in
      option_both P err
        (option_both P host.executable kept (λ exe.
          fallible_both P (host.name_from_path path) (λ why. kept)
            (λ name.
              fallible_both P (host.service_name name) (λ why. kept)
                (λ service.
                  kept_after m m1 (install_service host name service path m1).1 kept
                    (install_service-Keeps name service path m1)))))
        (λ why. kept)

  pub uninstall_tunnel-Keeps :
      (name : Text) (m : Manager host) → KeepsResult m (uninstall_tunnel host name m)
  unfolding uninstall_tunnel remove_service
  uninstall_tunnel-Keeps name m =
      let P : Option Failure × Manager host → Type 0 = λ x. KeepsResult m x in
      let (err, m1) = service_manager host m in
      let kept : Keeps m m1 = service_manager-Keeps m in
      option_both P err
        (fallible_both P (host.service_name name) (λ why. kept)
          (λ service. option_both P (host.open_service service m1.services) kept (λ why. kept)))
        (λ why. kept)

  pub connect_pipe-Keeps :
      (again : Bool) (name : Text) (m : Manager host)
      → KeepsResult m (connect_pipe host again name m)
  unfolding connect_pipe
  connect_pipe-Keeps again name m =
      let P : Option Text × Manager host → Type 0 = λ x. KeepsResult m x in
      if_both P (any (λ x. x =ᵗ name) m.pipes) (refl, refl)
        (option_both P ((now host m).dial again) (refl, refl) (λ why. (refl, refl)))

  pub read_pipe-Keeps :
      (elevated : Bool) (name : Text) (c : TunnelConfig) (err : Option Failure) (m : Manager host)
      → Keeps m (read_pipe host elevated name c err m).2
  unfolding read_pipe disconnect_pipe
  read_pipe-Keeps elevated name c (some why) m = (refl, refl)
  read_pipe-Keeps elevated name c none m =
      let P : Option Failure × TunnelConfig × Manager host → Type 0 = λ (err, c', m'). Keeps m m' in
      fallible_both P ((now host m).from_uapi c) (λ why. (refl, refl)) (λ c'. (refl, refl))

  pub write_pipe-Keeps :
      (elevated : Bool) (name : Text) (c : TunnelConfig) (m : Manager host)
      → Keeps m (write_pipe host elevated name c m).2
  unfolding write_pipe disconnect_pipe
  write_pipe-Keeps elevated name c m =
      let P : Option Failure × TunnelConfig × Manager host → Type 0 = λ (err, c', m'). Keeps m m' in
      let (err, m1) = connect_pipe host true name (disconnect_pipe host name m) in
      let kept : Keeps m m1 = connect_pipe-Keeps true name (disconnect_pipe host name m) in
      if_both P (is_errno 232 ((now host m).write_pipe false))
        (option_both P err
          (kept_after m m1 (read_pipe host elevated name c ((now host m1).write_pipe true) m1).2
            kept (read_pipe-Keeps elevated name c ((now host m1).write_pipe true) m1))
          (λ why. kept))
        (read_pipe-Keeps elevated name c ((now host m).write_pipe false) m)
