-- ===== src/Routes/RouteLaws.antt =====
-- manager/domainrouting.go: what addRouteForIP leaves in the map of routes.
use amneziawg_windows_client.Common.{
  ◌==◌, arith, refl, ◌≡◌, ◌<◌, inr, none, is_nil, Option, All, ◌||◌, some, ℕ, sym, inl, Bool-cases,
}
use amneziawg_windows_client.Common.Assoc.{insert-All, insert, lookup-All, lookup}
use amneziawg_windows_client.DomainRouting.{RouteTarget, tunnel, direct, block, none_target}
use amneziawg_windows_client.DomainRouting.Loopback.{Ip, v4, v6}
use amneziawg_windows_client.Routes.{
  refresh, nothing, install, RouteManager, add_route_for_ip, RouteEntry, Outcome, built, Built,
  build_error, build_route_entry, add_route, is_disabled, RouteTable, expiry, install_built,
  known_or_new,
}
use mathlib.Core.Path.{subst}

-- The targets that the resolver installs routes for.
abbrev pub IsInstalled : RouteTarget → Type 0
IsInstalled tunnel = Unit
IsInstalled direct = Unit
IsInstalled _ = ⊥

-- The pointer is not nil, and the entry is about its key, an interface and an installed target.
abbrev pub IsGoodEntry : ℕ × Option RouteEntry → Type 0
IsGoodEntry (ip, none) = ⊥
IsGoodEntry (ip, some e) = (e.ip ≡ ip) × (0 < e.luid) × IsInstalled e.target

abbrev pub IsGood : RouteManager → Type 0
IsGood m = All IsGoodEntry m.route_entries

-- What is built is an entry for the address, or an error: never nil.
abbrev pub IsGoodBuilt : ℕ → RouteTarget → ℕ → Built → Type 0
IsGoodBuilt ip target expires (built e) =
    (e.ip ≡ ip) × (0 < e.luid) × (e.target ≡ target) × (e.expires ≡ expires)
IsGoodBuilt ip target expires nothing = ⊥
IsGoodBuilt ip target expires (build_error why) = Unit

pub build_route_entry-IsGoodBuilt :
    (m : RouteManager) (ip : ℕ) (target : RouteTarget) (expires : ℕ)
    → IsInstalled target
    → IsGoodBuilt ip target expires (build_route_entry m ip target expires)
unfolding build_route_entry
build_route_entry-IsGoodBuilt m ip tunnel expires h = elim (Bool-cases (m.tun_luid == 0)) [
  | inl e ↦ rw e tt
  | inr e ↦ rw e (refl, ground arith, refl, refl)
]
build_route_entry-IsGoodBuilt m ip direct expires h = direct_built m.default_route.next_hop
  where
    direct_built :
        (hop : Option ℕ)
        → IsGoodBuilt ip direct expires (
            build_route_entry
              (record m { default_route = record m.default_route { next_hop = hop } })
              ip
              direct
              expires)
    direct_built none = ground arith
    direct_built (some hop) = elim (Bool-cases (m.default_route.luid == 0)) [
      | inl e ↦ rw e tt
      | inr e ↦ rw e (refl, ground arith, refl, refl)
    ]
build_route_entry-IsGoodBuilt m ip block expires h = h
build_route_entry-IsGoodBuilt m ip none_target expires h = h

module _ (sys : RouteTable) where
  open sys use {Table}

  -- No panic, and the entries are good afterwards.
  abbrev pub KeepsGood : Option (Outcome sys) → Type 0
  KeepsGood none = ⊥
  KeepsGood (some (m, t, err)) = IsGood m

  store-IsGood :
      (m : RouteManager) (ip : ℕ) (e : RouteEntry)
      → IsGoodEntry (ip, some e)
      → IsGood m
      → All IsGoodEntry (insert ip (some e) m.route_entries)
  store-IsGood m ip e h g = insert-All IsGoodEntry ip (some e) m.route_entries h g

  install_built-IsGood :
      (m : RouteManager) (ip : ℕ) (target : RouteTarget) (expires : ℕ) (b : Built) (t : Table)
      → IsInstalled target
      → IsGoodBuilt ip target expires b
      → IsGood m
      → KeepsGood (some (install_built sys m ip b t))
  unfolding install add_route
  install_built-IsGood m ip target expires (built e) t i h g =
      let good : IsGoodEntry (ip, some e) = (h.0, h.1, subst IsInstalled (sym h.2) i) in
      ground (arith, store-IsGood m ip e good g)
  install_built-IsGood m ip target expires nothing t i h g = absurd h
  install_built-IsGood m ip target expires (build_error why) t i h g = g

  known_or_new-IsGood :
      (m : RouteManager) (ip : ℕ) (target : RouteTarget) (expires : ℕ) (t : Table)
      (found : Option (Option RouteEntry))
      → lookup ip m.route_entries ≡ found
      → IsInstalled target
      → IsGood m
      → KeepsGood (known_or_new sys m ip target expires t found)
  unfolding refresh
  known_or_new-IsGood m ip target expires t none e i g =
      install_built-IsGood m ip target expires (build_route_entry m ip target expires) t i
        (build_route_entry-IsGoodBuilt m ip target expires i) g
  known_or_new-IsGood m ip target expires t (some none) e i g =
      lookup-All IsGoodEntry ip m.route_entries e g
  known_or_new-IsGood m ip target expires t (some (some entry)) e i g =
      let old = lookup-All IsGoodEntry ip m.route_entries e g in
      store-IsGood m ip (record entry { expires = expires; target = target }) (old.0, old.1, i) g

  -- From a map without nil entries, resolving an address for the tunnel or for the direct way never
  -- panics and leaves a map without nil entries, whose entries are about their keys, an interface
  -- and one of the two ways.
  pub add_route_for_ip-IsGood :
      (m : RouteManager) (ip : Option Ip) (target : RouteTarget) (ttl now : ℕ) (t : Table)
      → IsInstalled target
      → IsGood m
      → KeepsGood (add_route_for_ip sys m ip target ttl now t)
  unfolding add_route_for_ip
  add_route_for_ip-IsGood m none target ttl now t i g = g
  add_route_for_ip-IsGood m (some (v6 ip)) target ttl now t i g = g
  add_route_for_ip-IsGood m (some (v4 ip)) target ttl now t i g =
      elim (Bool-cases (is_disabled m.mode || is_nil m.active_tunnel)) [
        | inl e ↦ rw e g
        | inr e ↦ rw e (
            known_or_new-IsGood m ip target (expiry sys.is_386 now ttl) t
              (lookup ip m.route_entries) refl i g)
      ]
