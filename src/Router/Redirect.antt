-- ===== src/Router/Redirect.antt =====
-- manager/domainrouting.go: an interface's DNS servers become 127.0.0.1, and are put back.
use amneziawg_windows_client.Common.{
  ℕ, List, if◌then◌else◌, Option, is_nil, [], not, ◌∷◌, ◌||◌, ◌==◌, none, some,
}
use amneziawg_windows_client.Common.Text.{Text, codes}
use amneziawg_windows_client.Dns.{filter_ipv4}
use amneziawg_windows_client.DomainRouting.{sanitize_list}
use amneziawg_windows_client.DomainRouting.Loopback.{Ip, v4}
use amneziawg_windows_client.Router.{Router, InterfaceDnsState, World, Answers, Result, System}
use amneziawg_windows_client.Router.Interfaces.{read_search_list}

-- net.IPv4(127, 0, 0, 1)
abbrev pub localhost : List Ip
localhost = v4 2130706433 ∷ []

-- applyDNSLocked, where the settings that it replaces are recorded.
unfoldable pub remember_dns : Answers → Router → Router
unfolding sanitize_list filter_ipv4 read_search_list
remember_dns ans m = record m {
  tun_dns_state = elim m.tun_dns_state [
    | some s ↦ some s
    | none ↦ some (record {
      luid = m.routes.tun_luid;
      servers = filter_ipv4 m.tun_dns;
      search = sanitize_list m.tun_search;
    })
  ];
  default_dns_state = elim m.default_dns_state [
    | some s ↦ some s
    | none ↦
        if m.routes.default_route.luid == 0
        then none
        else some (record {
          luid = m.routes.default_route.luid;
          servers = filter_ipv4 m.default_dns;
          search = sanitize_list (read_search_list ans m.routes.default_route.luid);
        })
  ];
}

module _ (sys : System) where
  -- LUID.SetDNS
  unfoldable pub set_dns : ℕ → List Ip → World sys → World sys
  set_dns luid servers w = record w { dns_calls = (luid, servers) ∷ w.dns_calls }

  -- The end of applyDNSLocked, at the recorded settings of the default route's interface.
  abbrev pub redirect_default :
      Answers → Option InterfaceDnsState → World sys → World sys × Option Text
  redirect_default ans none w = (w, none)
  redirect_default ans (some s) w =
      (set_dns s.luid localhost w, ans.set_dns s.luid localhost s.search)

  -- applyDNSLocked, where the settings are recorded; those of the tunnel come first.
  abbrev pub redirect_dns :
      Answers
      → ℕ
      → Option InterfaceDnsState
      → Option InterfaceDnsState
      → World sys
      → World sys × Option Text
  redirect_dns ans tun none default' w = (w, none)
  redirect_dns ans tun (some s) default' w =
      let w' = set_dns tun localhost w in
      elim (ans.set_dns tun localhost s.search) [
        | some why ↦ (w', some why)
        | none ↦ redirect_default ans default' w'
      ]

  -- applyDNSLocked
  unfoldable pub apply_dns : Answers → Router → World sys → Result sys
  unfolding remember_dns set_dns
  apply_dns ans m w =
      if not m.proxy || is_nil m.routes.active_tunnel
      then (m, w, none)
      else if m.routes.tun_luid == 0
      then (m, w, some (codes "missing tunnel interface"))
      else let m' = remember_dns ans m in
        let (w', err) =
          redirect_dns ans m.routes.tun_luid m'.tun_dns_state m'.default_dns_state w in
        (m', w', err)

  -- restoreDNSLocked, for one interface; the errors of SetDNS are dropped.
  abbrev pub put_back : Option InterfaceDnsState → World sys → World sys
  put_back none w = w
  put_back (some s) w = set_dns s.luid s.servers w

  -- restoreDNSLocked
  unfoldable pub restore_dns : Router → World sys → Router × World sys
  unfolding set_dns
  restore_dns m w = (
    record m { tun_dns_state = none; default_dns_state = none },
    put_back m.default_dns_state (put_back m.tun_dns_state w),
  )
