-- ===== src/Routes/Repair.antt =====
-- manager/domainrouting.go: routes that are cleared, and routes that the system lost.
use amneziawg_windows_client.DomainRouting
use amneziawg_windows_client.Common.{
  if◌then◌else◌, ◌||◌, ◌&&◌, ◌==◌, ◌∷◌, ℕ, none, not, false, any, some, Bool, [], is_nil, true,
}
use amneziawg_windows_client.DomainRouting.{DomainRoutingMode}
use amneziawg_windows_client.Routes.{
  RouteTable, add_route, Entries, row_has, RouteManager, delete_route,
}

module _ (sys : RouteTable) where
  open sys use {Table, rows}

  clear_loop : Entries → Table → Table
  unfolding delete_route
  clear_loop [] t = t
  clear_loop ((ip, entry) ∷ rest) t = clear_loop rest (delete_route sys entry t)

  -- clearRoutesLocked and clearAllRoutes
  unfoldable pub clear_routes : RouteManager → Table → RouteManager × Table
  unfolding clear_loop
  clear_routes m t = (record m { route_entries = [] }, clear_loop m.route_entries t)

  -- getSystemRouteSet: is there a /32 through the tunnel's or the default route's interface?
  unfoldable pub in_system_route_set : RouteManager → Table → ℕ → Bool
  in_system_route_set m t ip = elim (rows t) [
    | none ↦ false
    | some rs ↦
        any
          (λ r.
            r.prefix_length == 32
            && (r.luid == m.tun_luid || r.luid == m.default_route.luid)
            && row_has ip r)
          rs
  ]

  -- The loop of verifyAndRepairRoutes; `present` is the set that was read before it.
  unfoldable pub repair_loop : (ℕ → Bool) → Entries → Table → Table
  unfolding add_route
  repair_loop present [] t = t
  repair_loop present ((ip, entry) ∷ rest) t =
      repair_loop present rest (if not (present ip) then (add_route sys entry t).1 else t)

  abbrev routes_domains : DomainRoutingMode → Bool
  routes_domains DomainRouting.off = false
  routes_domains DomainRouting.dns_only = false
  routes_domains _ = true

  -- verifyAndRepairRoutes
  unfoldable pub verify_and_repair_routes : RouteManager → Table → Table
  unfolding repair_loop
  verify_and_repair_routes m t =
      if is_nil m.active_tunnel || not (routes_domains m.mode)
      then t
      else repair_loop (in_system_route_set m t) m.route_entries t
