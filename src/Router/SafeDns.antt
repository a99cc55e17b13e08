-- ===== src/Router/SafeDns.antt =====
-- manager/domainrouting.go: the state after applyDNSLocked, restoreDNSLocked and
-- clearRoutesLocked.
use amneziawg_windows_client.Common.{
  ℕ, if_both, ◌∙◌, Option, some, sym, ◌||◌, arith, none, List, false, false≢true, option_both, ◌==◌,
  if◌then◌else◌, is_nil, ◌≡◌, not, refl, if_cases,
}
use amneziawg_windows_client.Common.Text.{Text}
use amneziawg_windows_client.Dns.{filter_ipv4}
use amneziawg_windows_client.DomainRouting.{sanitize_list, has_effective_rules}
use amneziawg_windows_client.DomainRouting.Loopback.{Ip}
use amneziawg_windows_client.Router.{Router, System, InterfaceDnsState, World, Answers}
use amneziawg_windows_client.Router.Interfaces.{read_search_list}
use amneziawg_windows_client.Router.Lifecycle.{clear_all, apply_rules_dns}
use amneziawg_windows_client.Router.Redirect.{
  apply_dns, localhost, remember_dns, set_dns, redirect_dns, restore_dns,
}
use amneziawg_windows_client.Router.Saved.{clear_learned_routes}
use amneziawg_windows_client.Router.Sound.{
  IsSound, redirected, filter_ipv4-loopback, IsSoundResult, IsSafe, IsSafeAt, put_back-redirected,
}
use amneziawg_windows_client.Routes.Repair.{clear_routes}
use mathlib.Core.Path.{subst}

module _ (sys : System) (ans : Answers) where
  -- What is recorded for the tunnel, at what was recorded before.
  remember_tunnel-IsSafe :
      (t d : Option InterfaceDnsState) (tun_luid : ℕ) (tun_dns : List Ip) (search : List Text)
      (calls : List (ℕ × List Ip))
      → IsSafeAt t d tun_luid calls
      → (s : InterfaceDnsState) × ((elim t [
        | some s ↦ some s
        | none ↦ some (record { luid = tun_luid; servers = filter_ipv4 tun_dns; search = search })
      ])
          ≡ some s)
        × IsSafeAt (some s) d tun_luid calls
  remember_tunnel-IsSafe (some s) d tun_luid tun_dns search calls h = (s, refl, h)
  remember_tunnel-IsSafe none d tun_luid tun_dns search calls h =
      (_, refl, (filter_ipv4-loopback tun_dns, h.1, refl, λ luid e. ground (arith, h.3 luid e)))

  -- What is recorded for the default route's interface.
  remember_default-IsSafe :
      (s : InterfaceDnsState) (d : Option InterfaceDnsState) (tun_luid luid : ℕ) (servers : List Ip)
      (search : List Text) (calls : List (ℕ × List Ip))
      → IsSafeAt (some s) d tun_luid calls
      → IsSafeAt
          (some s)
          (elim d [
            | some s ↦ some s
            | none ↦
                if luid == 0
                then none
                else some (record { luid = luid; servers = filter_ipv4 servers; search = search })
          ])
          tun_luid
          calls
  remember_default-IsSafe s (some d) tun_luid luid servers search calls h = h
  remember_default-IsSafe s none tun_luid luid servers search calls h =
      if_both (λ d. IsSafeAt (some s) d tun_luid calls) (luid == 0) h
        (h.0, filter_ipv4-loopback servers, h.2, λ other e. ground (arith, h.3 other e))

  redirect_dns-IsSafe :
      (s : InterfaceDnsState) (d : Option InterfaceDnsState) (tun_luid : ℕ) (w : World sys)
      → IsSafeAt (some s) d tun_luid w.dns_calls
      → IsSafeAt (some s) d tun_luid (redirect_dns sys ans tun_luid (some s) d w).0.dns_calls
  unfolding set_dns redirected
  redirect_dns-IsSafe s none tun_luid w h =
      option_both (λ (r : World sys × Option Text). IsSafeAt (some s) none tun_luid r.0.dns_calls)
        (ans.set_dns tun_luid localhost s.search)
        (h.0, h.1, h.2, λ luid e. ground (arith, h.2, h.3 luid))
        (λ why. (h.0, h.1, h.2, λ luid e. ground (arith, h.2, h.3 luid)))
  redirect_dns-IsSafe s (some d) tun_luid w h =
      option_both
        (λ (r : World sys × Option Text). IsSafeAt (some s) (some d) tun_luid r.0.dns_calls)
        (ans.set_dns tun_luid localhost s.search)
        (h.0, h.1, h.2, λ luid e. ground (arith, h.2, h.3 luid))
        (λ why. (h.0, h.1, h.2, λ luid e. ground (arith, h.2, h.3 luid)))

  -- Sent to the proxy and recorded, at a tunnel that is active.
  redirected-IsSafe :
      (m : Router) (w : World sys)
      → IsSafe m w
      → let m' = remember_dns ans m in
        IsSafeAt m'.tun_dns_state m'.default_dns_state m.routes.tun_luid
          (redirect_dns sys ans m.routes.tun_luid m'.tun_dns_state m'.default_dns_state
            w).0.dns_calls
  unfolding remember_dns
  redirected-IsSafe m w h =
      let d' = (remember_dns ans m).default_dns_state in
      let tun_luid = m.routes.tun_luid in
      let (s, e, safe) =
        remember_tunnel-IsSafe m.tun_dns_state m.default_dns_state tun_luid m.tun_dns
          (sanitize_list m.tun_search) w.dns_calls h in
      let safe' =
        remember_default-IsSafe s m.default_dns_state tun_luid m.routes.default_route.luid
          m.default_dns (sanitize_list (read_search_list ans m.routes.default_route.luid))
          w.dns_calls safe in
      subst (λ t. IsSafeAt t d' tun_luid (redirect_dns sys ans tun_luid t d' w).0.dns_calls) (sym e)
        (redirect_dns-IsSafe s d' tun_luid w safe')

  pub apply_dns-IsSound :
      (m : Router) (w : World sys) → IsSound m w → IsSoundResult sys (apply_dns sys ans m w)
  unfolding apply_dns
  apply_dns-IsSound m w h =
      let P = IsSoundResult sys in
      if_cases P (not m.proxy || is_nil m.routes.active_tunnel) (λ e. h)
        (λ e.
          let active : is_nil m.routes.active_tunnel ≡ false = ground (arith, e) in
          if_both P (m.routes.tun_luid == 0) h
            (redirected-IsSafe m w h.0, (λ idle. absurd (false≢true (sym active ∙ idle))), h.2))

  pub clear_all-redirected :
      (m : Router) (w : World sys) (luid : ℕ)
      → IsSafe m w
      → redirected luid (clear_all sys m w).1.dns_calls ≡ false
  unfolding clear_all restore_dns clear_learned_routes
  clear_all-redirected m w luid h =
      let w' = (clear_learned_routes sys m w).1 in
      put_back-redirected sys m.tun_dns_state m.default_dns_state m.routes.tun_luid w' luid h

  pub clear_all-IsSound :
      (m : Router) (w : World sys)
      → IsSound m w
      → IsSound (clear_all sys m w).0 (clear_all sys m w).1
  unfolding clear_all restore_dns clear_learned_routes clear_routes
  clear_all-IsSound m w h = (
    (tt, tt, tt, λ luid e. absurd (false≢true (sym (clear_all-redirected m w luid h.0) ∙ e))),
    (λ idle. let was = h.1 idle in (was.0, was.1, refl, refl, refl)),
    tt,
  )

  pub apply_rules_dns-IsSound :
      (m : Router) (w : World sys) → IsSound m w → IsSoundResult sys (apply_rules_dns sys ans m w)
  unfolding apply_rules_dns
  apply_rules_dns-IsSound m w h =
      if_both (IsSoundResult sys) (has_effective_rules m.list_mode m.rules)
        (apply_dns-IsSound m w h) (clear_all-IsSound m w h)
