-- ===== src/Router/Interfaces.antt =====
-- manager/domainrouting.go and domainrouting_dnsproxy.go: how the router finds its interfaces and
-- their DNS settings, and the route that keeps 127.0.0.1 out of the tunnel.
use amneziawg_windows_client.Common.{
  ℕ, List, if◌then◌else◌, false, ◌&&◌, Option, is_nil, [], not, true, ◌∷◌, ◌||◌, ltb, ◌==◌, ◌++◌,
  none, some,
}
use amneziawg_windows_client.Common.Text.{Text, codes, ◌=ᵗ◌}
use amneziawg_windows_client.Dns.{filter_ipv4}
use amneziawg_windows_client.DomainRouting.{direct, split_search_list}
use amneziawg_windows_client.DomainRouting.Loopback.{Ip}
use amneziawg_windows_client.Router.{
  Router, Adapter, RouteRow, returned, Fallible, World, Answers, System, raised,
}
use amneziawg_windows_client.Routes.{failed, DefaultRoute, AddResult, RouteEntry}

unfoldable pub adapter_named : Text → List Adapter → Fallible (ℕ × ℕ)
adapter_named name [] = raised (codes "tunnel interface not found")
adapter_named name (adapter ∷ rest) =
    let later = adapter_named name rest in
    if adapter.friendly_name =ᵗ name
    then elim adapter.row_index [
      | none ↦ returned (adapter.luid, 0)
      | some i ↦ returned (adapter.luid, i)
    ]
    else later

-- findTunnelInterface
unfoldable pub find_tunnel_interface : Answers → Text → Fallible (ℕ × ℕ)
unfolding adapter_named
find_tunnel_interface ans name = elim ans.adapters [
  | raised why ↦ raised why
  | returned found ↦ adapter_named name found
]

-- winipcfg.MibIPforwardRow2{}
abbrev pub no_route : DefaultRoute
no_route = record { luid = 0; if_index = 0; next_hop = none; metric = 0 }

-- The body of the loop of findDefaultRouteAndDNS, with the best route so far.
abbrev pub better_route : ℕ → DefaultRoute → RouteRow → DefaultRoute
better_route tun best row =
    if not (row.prefix_length == 0)
    then best
    else if row.route.luid == tun || row.loopback
    then best
    else if best.luid == 0 || ltb row.route.metric best.metric
    then row.route
    else best

unfoldable pub best_route : ℕ → DefaultRoute → List RouteRow → DefaultRoute
best_route tun best [] = best
best_route tun best (row ∷ rest) = best_route tun (better_route tun best row) rest

-- findDefaultRouteAndDNS; its caller logs the error.
unfoldable pub find_default_route_and_dns : Answers → ℕ → DefaultRoute × List Ip
unfolding best_route
find_default_route_and_dns ans tun = elim ans.forward_table [
  | raised why ↦ (no_route, [])
  | returned rows ↦
      let best = best_route tun no_route rows in
      if best.luid == 0 then (no_route, []) else elim (ans.dns_of best.luid) [
        | raised why ↦ (best, [])
        | returned servers ↦ (best, servers)
      ]
]

-- `err == nil && v != ""`
abbrev pub or_when_absent : Option Text → (Text → List Text) → List Text → List Text
or_when_absent none f other = other
or_when_absent (some v) f other = if is_nil v then other else f v

-- readSearchListForInterface; a key that cannot be opened has no value.
unfoldable pub read_search_list : Answers → ℕ → List Text
unfolding split_search_list
read_search_list ans luid =
    let value = ans.registry_value luid in
    or_when_absent (value (codes "SearchList")) split_search_list (
      or_when_absent (value (codes "Domain")) (λ v. v ∷ [])
        (or_when_absent (value (codes "DhcpSearchList")) split_search_list
          (or_when_absent (value (codes "DhcpDomain")) (λ v. v ∷ []) [])))

-- The loop of getSystemDNSAndInterface, with the servers, the interface and its metric so far.
unfoldable pub system_dns_loop : List Adapter → List Ip → ℕ → ℕ → List Ip × ℕ
system_dns_loop [] servers index metric = (servers, index)
system_dns_loop (iface ∷ rest) servers index metric =
    let skipped = not iface.is_up || iface.if_type == 131 in
    let better = not skipped && ltb iface.ipv4_metric metric in
    system_dns_loop rest (if skipped then servers else servers ++ filter_ipv4 iface.dns_servers)
      (if better then iface.if_index else index) (if better then iface.ipv4_metric else metric)

-- getSystemDNSAndInterface; the largest uint32 is the first metric.
unfoldable pub get_system_dns_and_interface : Answers → List Ip × ℕ
unfolding system_dns_loop
get_system_dns_and_interface ans = elim ans.all_adapters [
  | raised why ↦ ([], 0)
  | returned found ↦ system_dns_loop found [] 0 4294967295
]

unfoldable pub loopback_adapter : List Adapter → Option ℕ
loopback_adapter [] = none
loopback_adapter (adapter ∷ rest) =
    let later = loopback_adapter rest in if adapter.if_type == 24 then some adapter.luid else later

-- findLoopbackLUID
unfoldable pub find_loopback_luid : Answers → Option ℕ
unfolding loopback_adapter
find_loopback_luid ans = elim ans.ipv4_adapters [
  | raised why ↦ none
  | returned found ↦ loopback_adapter found
]

-- The /32 for 127.0.0.1 through an interface. Its target and its time are not used.
abbrev pub loopback_route : ℕ → RouteEntry
loopback_route luid = record {
  ip = 2130706433;
  target = direct;
  luid = luid;
  next_hop = 2130706433;
  metric = 1;
  expires = 0;
}

module _ (sys : System) where
  -- The end of addLoopbackRouteLocked, at the outcome of LUID.AddRoute.
  abbrev pub loopback_added :
      Router → World sys → AddResult × sys.routing.Table → Router × World sys
  loopback_added m w (failed why, t) = (m, record w { table = t })
  loopback_added m w (_, t) = (record m { loopback_route_added = true }, record w { table = t })

  -- addLoopbackRouteLocked
  unfoldable pub add_loopback_route : Answers → Router → World sys → Router × World sys
  unfolding find_loopback_luid
  add_loopback_route ans m w =
      if m.loopback_route_added then (m, w) else elim (find_loopback_luid ans) [
        | none ↦ (m, w)
        | some luid ↦ loopback_added m w (sys.routing.add (loopback_route luid) w.table)
      ]

  -- removeLoopbackRouteLocked
  unfoldable pub remove_loopback_route : Answers → Router → World sys → Router × World sys
  unfolding find_loopback_luid
  remove_loopback_route ans m w = if not m.loopback_route_added then (m, w) else (
    record m { loopback_route_added = false },
    elim (find_loopback_luid ans) [
      | none ↦ w
      | some luid ↦ record w { table = sys.routing.delete (loopback_route luid) w.table }
    ],
  )
