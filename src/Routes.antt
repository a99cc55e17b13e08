-- ===== src/Routes.antt =====
-- manager/domainrouting.go: the routes that the manager installs for resolved addresses.
--
-- Addresses are IPv4 numbers, and the keys of routeEntries too, which are their texts there. A map
-- value is a pointer: `none` is nil. Times are in seconds.
pub mod RouteLaws
pub mod Cleanup
pub mod Repair
use amneziawg_windows_client.DomainRouting
use amneziawg_windows_client.Common.{
  ◌+◌, any, ◌||◌, ltb, leb, none, ◌∷◌, Bool, is_nil, not, if◌then◌else◌, ◌&&◌, some, true, Option,
  ℕ, [], List, ◌==◌, false,
}
use amneziawg_windows_client.Common.Assoc.{insert, lookup}
use amneziawg_windows_client.Common.Text.{codes, Text}
use amneziawg_windows_client.DomainRouting.{DomainRoutingMode, RouteTarget, tunnel, direct}
use amneziawg_windows_client.DomainRouting.Loopback.{Ip, v4, v6}

pub record RouteEntry : Type 0 where
  pub ip : ℕ
  pub target : RouteTarget
  pub luid : ℕ
  pub next_hop : ℕ
  pub metric : ℕ
  pub expires : ℕ

abbrev pub Entries : Type 0
Entries = List (ℕ × Option RouteEntry)

-- winipcfg.MibIPforwardRow2, as far as it is read. `next_hop` is none where NextHop.IP() is nil.
pub record DefaultRoute : Type 0 where
  pub luid : ℕ
  pub if_index : ℕ
  pub next_hop : Option ℕ
  pub metric : ℕ

-- The fields of domainRoutingManager that the routes depend on.
pub record RouteManager : Type 0 where
  pub mode : DomainRoutingMode
  pub active_tunnel : Text
  pub tun_luid : ℕ
  pub default_route : DefaultRoute
  pub route_entries : Entries

pub data AddResult : Type 0 where
  added already_exists : AddResult
  failed : Text → AddResult

-- A row of the table that GetIPForwardTable2 returns.
pub record ForwardRow : Type 0 where
  pub prefix_length : ℕ
  pub luid : ℕ
  pub ip : Option ℕ

-- Whether the program is the build for GOARCH=386, where an int has 32 bits and not 64; and the routing
-- table behind winipcfg: LUID.AddRoute and LUID.DeleteRoute for a /32, whose errors at a deletion are
-- only logged, and GetIPForwardTable2.
pub record RouteTable : Type 1 where
  pub is_386 : Bool
  pub Table : Type 0
  pub add : RouteEntry → Table → AddResult × Table
  pub delete : RouteEntry → Table → Table
  pub rows : Table → Option (List ForwardRow)

-- What buildRouteEntry returns: an entry, nil with no error, or an error.
pub data Built : Type 0 where
  built : RouteEntry → Built
  nothing : Built
  build_error : Text → Built

abbrev pub min_ttl : ℕ
min_ttl = 300

-- `int(ttl) < 0`, for a uint32.
abbrev pub int_is_negative : Bool → ℕ → Bool
int_is_negative is_386 ttl = is_386 && leb 2147483648 ttl

-- When a route expires. `int(ttl) < minTTL` holds for a negative number too.
unfoldable pub expiry : Bool → ℕ → ℕ → ℕ
expiry is_386 now ttl =
    now + (if int_is_negative is_386 ttl || ltb ttl min_ttl then min_ttl else ttl)

abbrev pub next_hop_of : RouteEntry → Option ℕ → Built
next_hop_of entry none = build_error (codes "missing default route next hop")
next_hop_of entry (some hop) = built (record entry { next_hop = hop })

unfoldable pub build_route_entry : RouteManager → ℕ → RouteTarget → ℕ → Built
build_route_entry m ip tunnel expires =
    if m.tun_luid == 0
    then build_error (codes "missing tunnel interface")
    else built (record {
      ip = ip;
      target = tunnel;
      luid = m.tun_luid;
      next_hop = 0;
      metric = 0;
      expires = expires;
    })
build_route_entry m ip direct expires =
    if m.default_route.luid == 0
    then build_error (codes "missing default route interface")
    else next_hop_of
        (record {
          ip = ip;
          target = direct;
          luid = m.default_route.luid;
          next_hop = 0;
          metric = m.default_route.metric;
          expires = expires;
        })
        m.default_route.next_hop
build_route_entry m ip _ expires = nothing

-- `rip != nil && rip.Equal(targetIP)`
abbrev pub row_has : ℕ → ForwardRow → Bool
row_has ip row = elim row.ip [ none ↦ false | some rip ↦ rip == ip ]

abbrev pub is_disabled : DomainRoutingMode → Bool
is_disabled DomainRouting.off = true
is_disabled _ = false

module _ (sys : RouteTable) where
  open sys use {Table, add, delete, rows}

  -- addRoute, which does nothing at nil.
  unfoldable pub add_route : Option RouteEntry → Table → AddResult × Table
  add_route none t = (added, t)
  add_route (some entry) t = add entry t

  unfoldable pub delete_route : Option RouteEntry → Table → Table
  delete_route none t = t
  delete_route (some entry) t = delete entry t

  -- routeExistsInSystemLocked; a table that cannot be read counts as holding the route.
  unfoldable pub route_exists_in_system : ℕ → ℕ → Table → Bool
  route_exists_in_system ip luid t = elim (rows t) [
    | none ↦ true
    | some rs ↦ any (λ r. r.prefix_length == 32 && r.luid == luid && row_has ip r) rs
  ]

  abbrev pub store : ℕ → Option RouteEntry → RouteManager → RouteManager
  store ip e m = record m { route_entries = insert ip e m.route_entries }

  -- What the manager, the table and the caller see: an error text, or none.
  abbrev pub Outcome : Type 0
  Outcome = RouteManager × Table × Option Text

  -- The branch of addRouteForIP for an address that has an entry.
  unfoldable pub refresh : RouteManager → ℕ → RouteTarget → ℕ → RouteEntry → Table → Outcome
  refresh m ip target expires entry t =
      let entry' = record entry { expires = expires; target = target } in
      let t' =
        if not (route_exists_in_system ip entry.luid t) then (add_route (some entry') t).1 else t in
      (store ip (some entry') m, t', none)

  -- The end of addRouteForIP, at a route to be installed.
  unfoldable pub install : RouteManager → ℕ → Option RouteEntry → Table → Outcome
  install m ip entry t =
      let (result, t') = add_route entry t in
      elim result [
        | added ↦ (store ip entry m, t', none)
        | already_exists ↦ (store ip entry m, t', none)
        | failed why ↦ (m, t', some why)
      ]

  abbrev pub install_built : RouteManager → ℕ → Built → Table → Outcome
  install_built m ip (built entry) t = install m ip (some entry) t
  install_built m ip nothing t = install m ip none t
  install_built m ip (build_error why) t = (m, t, some why)

  -- The lookup in the map, and what it leads to. A nil entry is dereferenced: a panic, `none`.
  abbrev pub known_or_new :
      RouteManager → ℕ → RouteTarget → ℕ → Table → Option (Option RouteEntry) → Option Outcome
  known_or_new m ip target expires t none =
      some (install_built m ip (build_route_entry m ip target expires) t)
  known_or_new m ip target expires t (some none) = none
  known_or_new m ip target expires t (some (some entry)) =
      some (refresh m ip target expires entry t)

  -- addRouteForIP at the time `now`.
  unfoldable pub add_route_for_ip :
      RouteManager → Option Ip → RouteTarget → ℕ → ℕ → Table → Option Outcome
  add_route_for_ip m (some (v4 ip)) target ttl now t =
      if is_disabled m.mode || is_nil m.active_tunnel
      then some (m, t, none)
      else known_or_new m ip target (expiry sys.is_386 now ttl) t (lookup ip m.route_entries)
  add_route_for_ip m _ target ttl now t = some (m, t, none)

  -- applyRoutesFromResponse over the addresses of the A records, with their TTLs; the first error is
  -- returned.
  unfoldable pub apply_routes :
      RouteManager → List (Option Ip × ℕ) → RouteTarget → ℕ → Table → Option Text → Option Outcome
  apply_routes m [] target now t err = some (m, t, err)
  apply_routes m ((ip, ttl) ∷ rest) target now t err =
      elim (add_route_for_ip m ip target ttl now t) [
        | none ↦ none
        | some (m', t', err') ↦
            apply_routes m' rest target now t' (elim err [ none ↦ err' | some e ↦ some e ])
      ]

  -- The loop of cleanupExpiredRoutes.
  unfoldable pub cleanup_loop : ℕ → Entries → Table → Option (Entries × Table)
  cleanup_loop now [] t = some ([], t)
  cleanup_loop now ((ip, none) ∷ rest) t = none
  cleanup_loop now ((ip, some entry) ∷ rest) t =
      if ltb now entry.expires
      then elim (cleanup_loop now rest t) [
        | none ↦ none
        | some (rest', t') ↦ some ((ip, some entry) ∷ rest', t')
      ]
      else cleanup_loop now rest (delete entry t)

  -- cleanupExpiredRoutes
  unfoldable pub cleanup_expired_routes : ℕ → RouteManager → Table → Option (RouteManager × Table)
  cleanup_expired_routes now m t = elim (cleanup_loop now m.route_entries t) [
    | none ↦ none
    | some (entries, t') ↦ some (record m { route_entries = entries }, t')
  ]
