-- ===== src/Manager/StartLaws.antt =====
-- manager/ipc_server.go: Start beside the tunnels that are tracked, and the end of WaitForStop.
use amneziawg_windows_client.Common.{
  any, false, not, if◌then◌else◌, true, ◌≡◌, is_nil, [], ◌&&◌, ◌∷◌, List, Bool, refl, ◌∙◌, Option,
  sym, inl, inr, ap, Bool-cases, false≢true, some, arith, zero, none, ◌<◌, suc, ℕ,
}
use amneziawg_windows_client.Common.Text.{Text}
use amneziawg_windows_client.Manager.{Host, Manager, Failure, message, is_errno}
use amneziawg_windows_client.Manager.Install.{
  service_marked_for_delete, service_manager, wait_until_gone, panicked, gone,
}
use amneziawg_windows_client.Manager.Service.{
  find_intersecting, is_in_transition, in_transition, is_intersecting, launch, prepare_start, start,
  wait_for_stop,
}
use amneziawg_windows_client.Router.{System, TunnelConfig, returned}
use amneziawg_windows_client.Tunnel.{TunnelState}
use mathlib.Core.Path.{subst}

module _ {sys : System} (host : Host sys) where
  -- A tracked tunnel that intersects and is not settled.
  abbrev pub is_blocking : TunnelConfig → sys.Store → Text × TunnelState → Bool
  is_blocking c st (t, state) =
      is_intersecting host c st t && (not (is_nil t) && is_in_transition state)

  -- The name of the first such tunnel, empty where there is none.
  abbrev pub first_blocking : TunnelConfig → sys.Store → List (Text × TunnelState) → Text
  first_blocking c st [] = []
  first_blocking c st ((t, state) ∷ rest) =
      let later = first_blocking c st rest in if is_blocking c st (t, state) then t else later

  first_blocking-named :
      (c : TunnelConfig) (st : sys.Store) (tracked : List (Text × TunnelState))
      → any (is_blocking c st) tracked ≡ true
      → is_nil (first_blocking c st tracked) ≡ false
  first_blocking-named c st [] h = absurd (false≢true h)
  first_blocking-named c st ((t, state) ∷ rest) h =
      elim (Bool-cases (is_blocking c st (t, state))) [
        | inl e ↦ rw e (ground (arith, e))
        | inr e ↦ rw e (first_blocking-named c st rest (ground (arith, e, h)))
      ]

  -- The loop over trackedTunnels stops at the first tunnel in transition that intersects.
  find_intersecting-first :
      (c : TunnelConfig) (st : sys.Store) (tracked : List (Text × TunnelState))
      → (find_intersecting host c st tracked).1 ≡ first_blocking c st tracked
  unfolding find_intersecting
  find_intersecting-first c st [] = refl
  find_intersecting-first c st ((t, state) ∷ rest) =
      let ih = find_intersecting-first c st rest in
      elim (Bool-cases (is_intersecting host c st t)) [
        | inl e ↦ elim (Bool-cases (not (is_nil t) && is_in_transition state)) [
          | inl e' ↦ rw e rw e' refl
          | inr e' ↦ rw e rw e' ih
        ]
        | inr e ↦ rw e ih
      ]

  -- The error is about this tunnel, and no service and no goroutine has changed.
  abbrev pub IsRefused : Text → Manager host → Option (Option Failure) × Manager host → Type 0
  IsRefused waiting m (err, m') =
      (err ≡ some (some (message (in_transition waiting))))
      × (m'.services ≡ m.services)
      × (m'.jobs ≡ m.jobs)

  -- Start of a tunnel whose prepared configuration intersects with that of a tracked tunnel that has a
  -- name and is starting, or whose state is unknown, is refused: the services of Windows are as they
  -- were, no goroutine is started that stops tunnels, and the error names the first such tunnel in the
  -- order in which the loop meets the tracked tunnels.
  pub start-IsRefused :
      (name : Text) (m : Manager host) (c : TunnelConfig)
      → sys.load_tunnel name m.world.store ≡ returned c
      → (let (c', m') = prepare_start host name c m in
          any (is_blocking c' m'.world.store) m'.tracked ≡ true)
      → (let (c', m') = prepare_start host name c m in
          IsRefused (first_blocking c' m'.world.store m'.tracked) m (start host name m))
  unfolding start prepare_start launch
  start-IsRefused name m c loaded blocked =
      let (c', m1) = prepare_start host name c m in
      let found = find_intersecting host c' m1.world.store m1.tracked in
      let first : Text = first_blocking c' m1.world.store m1.tracked in
      let same : found.1 ≡ first = find_intersecting-first c' m1.world.store m1.tracked in
      let named : is_nil found.1 ≡ false =
        ap is_nil same ∙ first_blocking-named c' m1.world.store m1.tracked blocked in
      let started' : start host name m ≡ launch host c' found m1 = rw (loaded, start) refl in
      let refused : launch host c' found m1 ≡ (some (some (message (in_transition found.1))), m1) =
        rw (named, launch) refl in
      let told : IsRefused found.1 m (start host name m) =
        subst (IsRefused found.1 m) (sym (started' ∙ refused)) (refl, refl, refl) in
      subst (λ w. IsRefused w m (start host name m)) same told

  -- The services after some sleeps.
  abbrev pub after_sleeps : ℕ → host.Services → host.Services
  after_sleeps zero s = s
  after_sleeps (suc n) s = after_sleeps n (host.sleep s)

  -- Before each of so many sleeps the service can be opened.
  abbrev pub Stays : ℕ → Text → host.Services → Type 0
  Stays zero service s = Unit
  Stays (suc n) service s = (host.open_service service s ≡ none) × Stays n service (host.sleep s)

  abbrev pub is_marked : Failure → Bool
  is_marked why = is_errno service_marked_for_delete (some why)

  wait_until_gone_lem :
      (rounds n : ℕ) (service : Text) (s : host.Services) (why : Failure)
      → n < rounds
      → Stays n service s
      → host.open_service service (after_sleeps n s) ≡ some why
      → wait_until_gone host rounds service s
        ≡ (if is_marked why then panicked else gone (after_sleeps n s))
  unfolding wait_until_gone
  wait_until_gone_lem zero n service s why h stays found = absurd (omega (arith, h))
  wait_until_gone_lem (suc rounds) zero service s why h stays found = rw found refl
  wait_until_gone_lem (suc rounds) (suc n) service s why h stays found =
      rw (stays.0)
        (wait_until_gone_lem rounds n service (host.sleep s) why (omega (arith, h)) stays.1 found)

  -- WaitForStop of a tunnel that has a name for its service, with the service manager connected,
  -- returns without an error as soon as the service cannot be opened, and has done nothing but sleep:
  -- where the service can be opened before each of n sleeps, n below the rounds of the model, and
  -- cannot be opened after them, with another error than ERROR_SERVICE_MARKED_FOR_DELETE.
  pub wait_for_stop-ends :
      (n : ℕ) (name service : Text) (m : Manager host) (why : Failure)
      → host.service_name name ≡ returned service
      → m.is_connected ≡ true
      → n < host.patience
      → Stays n service m.services
      → host.open_service service (after_sleeps n m.services) ≡ some why
      → is_marked why ≡ false
      → wait_for_stop host name m ≡ (some none, record m { services = after_sleeps n m.services })
  unfolding wait_for_stop service_manager
  wait_for_stop-ends n name service m why named connected h stays found other =
      let ended : wait_until_gone host host.patience service m.services
          ≡ gone (after_sleeps n m.services) =
        wait_until_gone_lem host.patience n service m.services why h stays found
        ∙ ap (λ b. if b then panicked else gone (after_sleeps n m.services)) other in
      let ready : service_manager host m ≡ (none, m) = rw (connected, service_manager) refl in
      let cached : (service_manager host m).1 ≡ m = ap (λ x. x.1) ready in
      let opened : (service_manager host m).0 ≡ none = ap (λ x. x.0) ready in
      let ends : Manager host → Option (Option Failure) × Manager host =
        λ k. (some none, record k { services = after_sleeps n m.services }) in
      rw (named, wait_for_stop) rw opened rw cached rw ended (ap ends cached)
