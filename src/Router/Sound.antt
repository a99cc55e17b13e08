-- ===== src/Router/Sound.antt =====
-- manager/domainrouting.go: no interface is left with 127.0.0.1 as its DNS server unless its
-- previous servers are recorded, and without a tunnel there is nothing to undo.
use amneziawg_windows_client.Common.{
  ℕ, if_both, ◌∷◌, any, Bool, Option, inr, ◌||◌, ◌≡◌, none, some, ◌==◌, refl, if◌then◌else◌, [],
  inl, false, is_nil, true, Bool-cases, List, arith, option_both, ◌∙◌, sym, false≢true, All,
}
use amneziawg_windows_client.Common.Text.{Text}
use amneziawg_windows_client.Dns.{is_loopback, filter_ipv4}
use amneziawg_windows_client.DomainRouting.Loopback.{Ip, v4, v6, is_unspecified}
use amneziawg_windows_client.Router.{
  Router, World, System, Answers, InterfaceDnsState, Result, Fallible, returned, raised,
}
use amneziawg_windows_client.Router.Redirect.{put_back, set_dns}
use amneziawg_windows_client.Router.Saved.{save_config}
use amneziawg_windows_client.Routes.RouteLaws.{IsGood, IsGoodEntry}
use mathlib.Core.Path.{subst}

-- The newest call of SetDNS for the interface, if there is one, names a loopback address.
unfoldable pub redirected : ℕ → List (ℕ × List Ip) → Bool
redirected luid [] = false
redirected luid ((i, servers) ∷ calls) =
    let older = redirected luid calls in if i == luid then any is_loopback servers else older

-- The recorded servers, if any, are not loopback addresses.
abbrev pub HasServers : Option InterfaceDnsState → Type 0
HasServers none = Unit
HasServers (some s) = any is_loopback s.servers ≡ false

abbrev pub HasLuid : ℕ → Option InterfaceDnsState → Type 0
HasLuid luid none = Unit
HasLuid luid (some s) = s.luid ≡ luid

abbrev pub records : Option InterfaceDnsState → ℕ → Bool
records none luid = false
records (some s) luid = s.luid == luid

abbrev pub IsSafeAt :
    Option InterfaceDnsState → Option InterfaceDnsState → ℕ → List (ℕ × List Ip) → Type 0
IsSafeAt tun default' tun_luid calls =
    HasServers tun
    × HasServers default'
    × HasLuid tun_luid tun
    × ((luid : ℕ)
        → redirected luid calls ≡ true
        → (records tun luid || records default' luid) ≡ true)

-- Every interface that was sent to the proxy is recorded, with servers that are not the proxy.
abbrev pub IsSafe : {sys : System} → Router → World sys → Type 0
IsSafe m w = IsSafeAt m.tun_dns_state m.default_dns_state m.routes.tun_luid w.dns_calls

-- Without an active tunnel, no interface, no route and no recorded settings are left.
abbrev pub IsIdle : Router → Type 0
IsIdle m =
    is_nil m.routes.active_tunnel ≡ true
    → (m.routes.tun_luid ≡ 0)
      × (m.routes.default_route.luid ≡ 0)
      × (m.routes.route_entries ≡ [])
      × (m.tun_dns_state ≡ none)
      × (m.default_dns_state ≡ none)

abbrev pub IsSound : {sys : System} → Router → World sys → Type 0
IsSound m w = IsSafe m w × IsIdle m × IsGood m.routes

pub filter_ipv4-loopback : (ips : List Ip) → any is_loopback (filter_ipv4 ips) ≡ false
unfolding filter_ipv4
filter_ipv4-loopback [] = refl
filter_ipv4-loopback (v4 a ∷ ips) =
    let rest = filter_ipv4-loopback ips in
    elim (Bool-cases (is_unspecified (v4 a) || is_loopback (v4 a))) [
      | inl e ↦ rw e rest
      | inr e ↦ let no : is_loopback (v4 a) ≡ false = ground (arith, e) in rw e rw no rest
    ]
filter_ipv4-loopback (v6 a ∷ ips) = filter_ipv4-loopback ips

-- What holds of both branches holds of a case distinction on a fallible result.
pub fallible_both :
    {A B : Type 0} (P : B → Type 0) (x : Fallible A) {f : Text → B} {g : A → B}
    → ((why : Text) → P (f why))
    → ((a : A) → P (g a))
    → P (elim x [ raised why ↦ f why | returned a ↦ g a ])
fallible_both P (raised why) p q = p why
fallible_both P (returned a) p q = q a

module _ (sys : System) where
  -- The errors are not part of the state.
  abbrev pub IsSoundResult : Result sys → Type 0
  IsSoundResult (m, w, err) = IsSound m w

  pub put_back-redirected :
      (tun default' : Option InterfaceDnsState) (tun_luid : ℕ) (w : World sys) (luid : ℕ)
      → IsSafeAt tun default' tun_luid w.dns_calls
      → redirected luid (put_back sys default' (put_back sys tun w)).dns_calls ≡ false
  unfolding set_dns redirected
  put_back-redirected none none tun_luid w luid h = ground (arith, h.3 luid)
  put_back-redirected none (some d) tun_luid w luid h = ground (arith, h.1, h.3 luid)
  put_back-redirected (some t) none tun_luid w luid h = ground (arith, h.0, h.3 luid)
  put_back-redirected (some t) (some d) tun_luid w luid h = ground (arith, h.0, h.1, h.3 luid)

  -- What IsIdle says of a state without a tunnel, of any state.
  abbrev pub IsEmpty : Router → Type 0
  IsEmpty m =
      (m.routes.tun_luid ≡ 0)
      × (m.routes.default_route.luid ≡ 0)
      × (m.routes.route_entries ≡ [])
      × (m.tun_dns_state ≡ none)
      × (m.default_dns_state ≡ none)

  pub IsEmpty-IsSound :
      (m : Router) (w : World sys)
      → IsEmpty m
      → ((luid : ℕ) → redirected luid w.dns_calls ≡ false)
      → IsSound m w
  IsEmpty-IsSound m w h calls = (
    subst (λ t. IsSafeAt t m.default_dns_state m.routes.tun_luid w.dns_calls) (sym h.3)
        (subst (λ d. IsSafeAt none d m.routes.tun_luid w.dns_calls) (sym h.4)
          (tt, tt, tt, λ luid e. absurd (false≢true (sym (calls luid) ∙ e)))),
    (λ idle. h),
    subst (λ es. All IsGoodEntry es) (sym h.2) tt,
  )

module _ (sys : System) (ans : Answers) where
  pub save_config-IsSound :
      (m : Router) (w : World sys)
      → IsSound m w
      → IsSound (save_config sys ans m w).0 (save_config sys ans m w).1
  unfolding save_config
  save_config-IsSound m w h =
      let P = IsSoundResult sys in
      if_both P (is_nil m.config_path) h (
        option_both P (ans.mkdir_all m.config_path)
          (option_both P (ans.write_file m.config_path (sys.encode m.config)).0 h (λ why. h))
          (λ why. h))
