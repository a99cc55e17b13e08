-- ===== src/Manager/QuitLaws.antt =====
-- manager/ipc_server.go: the manager is told to quit at most once.
--
-- The requests of the connections, the notifications, the goroutines that write them and those of Start
-- follow one another in any order.
use amneziawg_windows_client.Common.{
  refl, sym, List, Bool, [], ◌∙◌, ◌≤◌, ◌≡◌, ◌&&◌, Option, ◌∷◌, false, if_both, if◌then◌else◌, not,
  false≢true, ◌+◌, arith, true, if_cases, some, ap, ℕ,
}
use amneziawg_windows_client.Common.Text.{Text}
use amneziawg_windows_client.Ipc.{Value}
use amneziawg_windows_client.Ipc.Events.{Notification}
use amneziawg_windows_client.Manager.{is_error, ManagerService, Manager, Failure, Host, message}
use amneziawg_windows_client.Manager.KeptLaws.{
  stop-Keeps, answer-Keeps, state-Keeps, IsPassedOver, uninstall_all-Keeps,
}
use amneziawg_windows_client.Manager.KeptServices.{Keeps, kept_after}
use amneziawg_windows_client.Manager.Notify.{notify_all, run_write, notify_tunnel_change}
use amneziawg_windows_client.Manager.Requests.{ask_quit, Request}
use amneziawg_windows_client.Manager.Server.{handle, answer}
use amneziawg_windows_client.Manager.Service.{
  stop_zombies, run_stops, state, stop_all, is_zombie, quit, stop, uninstall_all, without_service,
}
use amneziawg_windows_client.Router.{returned, System, raised}
use amneziawg_windows_client.Router.Sound.{fallible_both}
use amneziawg_windows_client.Tunnel.{TunnelState}
use mathlib.Core.Path.{subst}

module _ {sys : System} (host : Host sys) where
  -- What the manager does after a state, step by step.
  pub data Run (m0 : Manager host) : Manager host → Type 0 where
    begun : Run m0 m0
    asked :
        {m : Manager host} (s : ManagerService) (r : Request)
        → Run m0 m
        → Run m0 (handle host s r m).1
    changed :
        {m : Manager host} (name : Text) (now : TunnelState) (err : Option Failure)
        → Run m0 m
        → Run m0 (notify_tunnel_change host name now err m)
    notified :
        {m : Manager host} (n : Notification) (admin_only : Bool)
        → Run m0 m
        → Run m0 (notify_all host n admin_only m)
    written :
        {m : Manager host} (id amount : ℕ) (vs : List Value)
        → Run m0 m
        → Run m0 (run_write host id amount vs m)
    stopped : {m : Manager host} (names : List Text) → Run m0 m → Run m0 (run_stops host names m)
    listened :
        {m : Manager host} (s : ManagerService)
        → Run m0 m
        → Run m0 (record m { listeners = s ∷ m.listeners })

  stop_all-Keeps : (names : List Text) (m : Manager host) → Keeps host m (stop_all host names m)
  unfolding stop_all
  stop_all-Keeps [] m = (refl, refl)
  stop_all-Keeps (name ∷ names) m =
      let m1 = (stop host name m).1 in
      kept_after host m m1 (stop_all host names m1) (stop-Keeps host name m)
        (stop_all-Keeps names m1)

  stop_zombies-Keeps :
      (names : List Text) (m : Manager host) → Keeps host m (stop_zombies host names m)
  unfolding stop_zombies
  stop_zombies-Keeps [] m = (refl, refl)
  stop_zombies-Keeps (name ∷ names) m =
      let (err, found, m1) = state host name m in
      let m2 = (stop host name m1).1 in
      let kept : Keeps host m m1 = state-Keeps host name m in
      let slept : Manager host = record m2 { services = host.sleep m2.services } in
      let next : Manager host =
        if not (is_error err) && is_zombie (returned found) then slept else m1 in
      let kept' : Keeps host m next =
        if_both (λ x. Keeps host m x) (not (is_error err) && is_zombie (returned found))
          (kept_after host m m1 slept kept (stop-Keeps host name m1)) kept in
      kept_after host m next (stop_zombies host names next) kept' (stop_zombies-Keeps names next)

  run_stops-Keeps : (names : List Text) (m : Manager host) → Keeps host m (run_stops host names m)
  unfolding run_stops
  run_stops-Keeps names m =
      let m1 = stop_all host names m in
      kept_after host m m1 (stop_zombies host names m1) (stop_all-Keeps names m)
        (stop_zombies-Keeps names m1)

  -- At most one quit was sent, and none before haveQuit was set.
  abbrev IsOnce : Manager host → Type 0
  IsOnce m = (m.quits ≤ 1) × (m.have_quit ≡ false → m.quits ≡ 0)

  kept-IsOnce : (m m' : Manager host) → Keeps host m m' → IsOnce m → IsOnce m'
  kept-IsOnce m m' kept once =
      (subst (λ n. n ≤ 1) (sym kept.1) once.0, λ e. kept.1 ∙ once.1 (sym kept.0 ∙ e))

  sent-IsOnce : (m : Manager host) → m.quits ≡ 0 → m.quits + 1 ≤ 1
  sent-IsOnce m e = omega (arith, e)

  quit-IsOnce :
      (s : ManagerService) (flag : Bool) (m : Manager host)
      → IsOnce m
      → IsOnce (quit host s flag m).1
  unfolding quit
  quit-IsOnce s flag m once =
      let P : (Bool × Option Failure) × Manager host → Type 0 = λ x. IsOnce x.1 in
      let later : true ≡ false → m.quits ≡ 0 = λ e. absurd (false≢true (sym e)) in
      let m1 : Manager host = record m {
        have_quit = true;
        listeners = without_service s.id m.listeners;
      } in
      if_both P (not s.is_elevated) once (
        if_cases P m.have_quit (λ e. once)
          (λ e.
            let none_sent : m.quits ≡ 0 = once.1 e in
            if_both P (not flag) (sent-IsOnce m none_sent, λ e'. absurd (false≢true (sym e')))
              (fallible_both P (sys.list_tunnels m.world.store) (λ why. (once.0, later))
                (λ names.
                  let kept = uninstall_all-Keeps host names m1 in
                  (
                    sent-IsOnce (uninstall_all host names m1) (kept.1 ∙ none_sent),
                    λ e'. absurd (false≢true (sym e' ∙ kept.0)),
                  )))))

  handle-IsOnce :
      (s : ManagerService) (r : Request) (m : Manager host)
      → IsOnce m
      → IsOnce (handle host s r m).1
  unfolding handle answer
  handle-IsOnce s (ask_quit flag) m once = quit-IsOnce s flag m once
  handle-IsOnce s r m once = kept-IsOnce m (answer host s r m).1 (answer-Keeps host s r m tt) once

  -- However the windows of the manager use it, at most one value is sent to quitManagersChan, which has
  -- room for one: Quit never waits. The manager starts with haveQuit unset.
  pub Run-quits :
      (m0 m : Manager host) → m0.have_quit ≡ false → m0.quits ≡ 0 → Run m0 m → m.quits ≤ 1
  unfolding notify_tunnel_change run_write
  Run-quits m0 m fresh empty run = (Run-IsOnce m run).0
    where
      start-IsOnce : IsOnce m0
      start-IsOnce = (omega (arith, empty), λ e. empty)

      Run-IsOnce : (last : Manager host) → Run m0 last → IsOnce last
      Run-IsOnce last begun = start-IsOnce
      Run-IsOnce _ (asked {m = k} s r before) = handle-IsOnce s r k (Run-IsOnce k before)
      Run-IsOnce _ (changed {m = k} name found err before) = Run-IsOnce k before
      Run-IsOnce _ (notified {m = k} n admin_only before) = Run-IsOnce k before
      Run-IsOnce _ (written {m = k} id amount vs before) = Run-IsOnce k before
      Run-IsOnce _ (stopped {m = k} names before) =
          kept-IsOnce k (run_stops host names k) (run_stops-Keeps names k) (Run-IsOnce k before)
      Run-IsOnce _ (listened {m = k} s before) = Run-IsOnce k before

  quits-IsPassedOver :
      (s : ManagerService) (r : Request) (m : Manager host)
      → m.have_quit ≡ true
      → IsPassedOver host s r m
  quits-IsPassedOver s (ask_quit flag) m h = ground (arith, h)
  quits-IsPassedOver s r m h = tt

  -- Once haveQuit is set, the manager is not told to quit any more.
  Run-Keeps : (m0 m : Manager host) → m0.have_quit ≡ true → Run m0 m → Keeps host m0 m
  unfolding handle notify_tunnel_change run_write
  Run-Keeps m0 m h begun = (refl, refl)
  Run-Keeps m0 _ h (asked {m = k} s r before) =
      let kept = Run-Keeps m0 k h before in
      kept_after host m0 k (answer host s r k).1 kept
        (answer-Keeps host s r k (quits-IsPassedOver s r k (kept.0 ∙ h)))
  Run-Keeps m0 _ h (changed {m = k} name found err before) = Run-Keeps m0 k h before
  Run-Keeps m0 _ h (notified {m = k} n admin_only before) = Run-Keeps m0 k h before
  Run-Keeps m0 _ h (written {m = k} id amount vs before) = Run-Keeps m0 k h before
  Run-Keeps m0 _ h (stopped {m = k} names before) =
      kept_after host m0 k (run_stops host names k) (Run-Keeps m0 k h before)
        (run_stops-Keeps names k)
  Run-Keeps m0 _ h (listened {m = k} s before) = Run-Keeps m0 k h before

  -- Where the tunnels cannot be listed, the first Quit of an elevated window that is to stop them
  -- returns the error, and however the manager goes on, no Quit sends anything to quitManagersChan.
  pub quit_fails :
      (s : ManagerService) (m last : Manager host) (why : Text)
      → s.is_elevated ≡ true
      → m.have_quit ≡ false
      → sys.list_tunnels m.world.store ≡ raised why
      → Run (quit host s true m).1 last
      → ((quit host s true m).0 ≡ (false, some (message why))) × (last.quits ≡ m.quits)
  unfolding quit
  quit_fails s m last why elevated fresh fails run =
      let m1 : Manager host = record m {
        have_quit = true;
        listeners = without_service s.id m.listeners;
      } in
      let result : quit host s true m ≡ ((false, some (message why)), m1) =
        rw (elevated, quit) rw fresh rw fails refl in
      (ap (λ x. x.0) result, (Run-Keeps m1 last refl (subst (λ x. Run x.1 last) result run)).1)
