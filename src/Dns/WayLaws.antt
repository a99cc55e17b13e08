-- ===== src/Dns/WayLaws.antt =====
-- manager/domainrouting_dnsproxy.go: by which interface the entries of a response's addresses go.
use amneziawg_windows_client.Common.{
  List, [], ◌∷◌, ◌≡◌, refl, Option, none, some, is_nil, ◌||◌, ℕ, if_both, sym, All, Bool, false,
  ◌==◌,
}
use amneziawg_windows_client.Common.Assoc.{lookup, lookup-All, insert-All}
use amneziawg_windows_client.Common.Text.{Text}
use amneziawg_windows_client.Dns.HandlerLaws.{Outcome-cases, apply_routes_step}
use amneziawg_windows_client.DomainRouting.{RouteTarget, tunnel, direct, block, none_target}
use amneziawg_windows_client.DomainRouting.Loopback.{Ip, v4, v6}
use amneziawg_windows_client.Routes.{
  RouteTable, build_route_entry, install_built, is_disabled, store, install, refresh, nothing,
  added, Outcome, Built, built, expiry, apply_routes, already_exists, add_route, RouteEntry,
  add_route_for_ip, AddResult, failed, RouteManager, known_or_new, build_error, next_hop_of,
}
use amneziawg_windows_client.Routes.RouteLaws.{IsGood, IsInstalled, add_route_for_ip-IsGood}
use mathlib.Core.Path.{subst}

-- The interface of a way: the tunnel's, or the default route's.
abbrev pub interface_of : RouteManager → RouteTarget → ℕ
interface_of m tunnel = m.tun_luid
interface_of m _ = m.default_route.luid

-- The entry goes by the interface, unless its address is one of the others.
abbrev pub GoesBy : (ℕ → Bool) → ℕ → ℕ × Option RouteEntry → Type 0
GoesBy other luid (ip, none) = Unit
GoesBy other luid (ip, some e) = other ip ≡ false → e.luid ≡ luid

-- Every entry of the map does, and the interface is that of the way.
abbrev pub AllGoBy : (ℕ → Bool) → RouteTarget → ℕ → RouteManager → Type 0
AllGoBy other target luid m =
    All (GoesBy other luid) m.route_entries × (interface_of m target ≡ luid)

abbrev BuiltBy : ℕ → Built → Type 0
BuiltBy luid (built e) = e.luid ≡ luid
BuiltBy luid _ = Unit

build_route_entry-BuiltBy :
    (m : RouteManager) (ip : ℕ) (target : RouteTarget) (expires : ℕ)
    → BuiltBy (interface_of m target) (build_route_entry m ip target expires)
unfolding build_route_entry
build_route_entry-BuiltBy m ip tunnel expires =
    if_both (BuiltBy m.tun_luid) (m.tun_luid == 0) tt refl
build_route_entry-BuiltBy m ip direct expires =
    if_both (BuiltBy m.default_route.luid) (m.default_route.luid == 0) tt
      (hopped m.default_route.next_hop)
  where
    hopped :
        (hop : Option ℕ)
        → BuiltBy m.default_route.luid (
            next_hop_of
              (record {
                ip = ip;
                target = direct;
                luid = m.default_route.luid;
                next_hop = 0;
                metric = m.default_route.metric;
                expires = expires;
              })
              hop)
    hopped none = tt
    hopped (some hop) = refl
build_route_entry-BuiltBy m ip block expires = tt
build_route_entry-BuiltBy m ip none_target expires = tt

module _ (sys : RouteTable) (other : ℕ → Bool) (target : RouteTarget) (luid : ℕ) where
  open sys use {Table}

  -- The outcome's map goes by the interface, where there is an outcome.
  abbrev pub LeavesGoing : Option (Outcome sys) → Type 0
  LeavesGoing none = Unit
  LeavesGoing (some (m, t, err)) = AllGoBy other target luid m

  store-AllGoBy :
      (m : RouteManager) (ip : ℕ) (e : RouteEntry)
      → GoesBy other luid (ip, some e)
      → AllGoBy other target luid m
      → AllGoBy other target luid (store sys ip (some e) m)
  store-AllGoBy m ip e h a = (insert-All (GoesBy other luid) ip (some e) m.route_entries h a.0, a.1)

  install-LeavesGoing :
      (m : RouteManager) (ip : ℕ) (e : RouteEntry) (t : Table)
      → e.luid ≡ luid
      → AllGoBy other target luid m
      → LeavesGoing (some (install sys m ip (some e) t))
  unfolding install
  install-LeavesGoing m ip e t h a =
      result_of (add_route sys (some e) t).0 (add_route sys (some e) t).1
    where
      result_of :
          (r : AddResult) (t' : Table)
          → LeavesGoing (
              some (elim r [
                | added ↦ (store sys ip (some e) m, t', none)
                | already_exists ↦ (store sys ip (some e) m, t', none)
                | failed why ↦ (m, t', some why)
              ]))
      result_of added t' = store-AllGoBy m ip e (λ o. h) a
      result_of already_exists t' = store-AllGoBy m ip e (λ o. h) a
      result_of (failed why) t' = a

  install_built-LeavesGoing :
      (m : RouteManager) (ip : ℕ) (b : Built) (t : Table)
      → BuiltBy luid b
      → AllGoBy other target luid m
      → LeavesGoing (some (install_built sys m ip b t))
  unfolding install add_route
  install_built-LeavesGoing m ip (built e) t h a = install-LeavesGoing m ip e t h a
  install_built-LeavesGoing m ip nothing t h a =
      (insert-All (GoesBy other luid) ip none m.route_entries tt a.0, a.1)
  install_built-LeavesGoing m ip (build_error why) t h a = a

  known_or_new-LeavesGoing :
      (m : RouteManager) (ip expires : ℕ) (t : Table) (found : Option (Option RouteEntry))
      → lookup ip m.route_entries ≡ found
      → AllGoBy other target luid m
      → LeavesGoing (known_or_new sys m ip target expires t found)
  unfolding refresh
  known_or_new-LeavesGoing m ip expires t none e a =
      install_built-LeavesGoing m ip (build_route_entry m ip target expires) t
        (subst (λ l. BuiltBy l (build_route_entry m ip target expires)) a.1
          (build_route_entry-BuiltBy m ip target expires))
        a
  known_or_new-LeavesGoing m ip expires t (some none) e a = tt
  known_or_new-LeavesGoing m ip expires t (some (some entry)) e a =
      store-AllGoBy m ip (record entry { expires = expires; target = target })
        (lookup-All (GoesBy other luid) ip m.route_entries e a.0) a

  add_route_for_ip-LeavesGoing :
      (m : RouteManager) (ip : Option Ip) (ttl now : ℕ) (t : Table)
      → AllGoBy other target luid m
      → LeavesGoing (add_route_for_ip sys m ip target ttl now t)
  unfolding add_route_for_ip
  add_route_for_ip-LeavesGoing m none ttl now t a = a
  add_route_for_ip-LeavesGoing m (some (v6 ip)) ttl now t a = a
  add_route_for_ip-LeavesGoing m (some (v4 ip)) ttl now t a =
      if_both LeavesGoing (is_disabled m.mode || is_nil m.active_tunnel) a (
        known_or_new-LeavesGoing m ip (expiry sys.is_386 now ttl) t (lookup ip m.route_entries) refl
          a)

  -- The routes of a response leave every entry on the interface of the way that was on it, and put new
  -- ones there.
  pub apply_routes-LeavesGoing :
      (m : RouteManager) (found : List (Option Ip × ℕ)) (now : ℕ) (t : Table) (err : Option Text)
      → IsInstalled target
      → IsGood m
      → AllGoBy other target luid m
      → LeavesGoing (apply_routes sys m found target now t err)
  unfolding apply_routes
  apply_routes-LeavesGoing m [] now t err i g a = a
  apply_routes-LeavesGoing m ((ip, ttl) ∷ rest) now t err i g a =
      let (m', t', err', e, g') =
        Outcome-cases sys (add_route_for_ip sys m ip target ttl now t)
          (add_route_for_ip-IsGood sys m ip target ttl now t i g) in
      let kept : AllGoBy other target luid m' =
        subst LeavesGoing e (add_route_for_ip-LeavesGoing m ip ttl now t a) in
      subst LeavesGoing (sym (apply_routes_step sys m m' ip ttl rest target now t t' err err' e))
        (apply_routes-LeavesGoing m' rest now t' _ i g' kept)
