-- ===== src/Dns/StrictLaws.antt =====
-- manager/domainrouting_dnsproxy.go: the addresses of a response have routes before it is passed on.
use amneziawg_windows_client.Common.{
  List, [], ◌∷◌, ◌≡◌, refl, Option, none, some, is_nil, ◌||◌, ℕ, if_both, ◌∙◌, sym, ◌==◌,
  Bool-cases, inl, none-ne-some, inr, All,
}
use amneziawg_windows_client.Common.Assoc.{lookup, lookup-insert}
use amneziawg_windows_client.Common.Text.{Text}
use amneziawg_windows_client.Dns.HandlerLaws.{Outcome-cases, apply_routes_step}
use amneziawg_windows_client.DomainRouting.{RouteTarget}
use amneziawg_windows_client.DomainRouting.Loopback.{Ip, v4, v6}
use amneziawg_windows_client.Routes.{
  RouteTable, build_route_entry, install_built, is_disabled, store, install, refresh, nothing,
  added, Outcome, Built, built, expiry, apply_routes, already_exists, add_route, RouteEntry,
  add_route_for_ip, AddResult, failed, RouteManager, known_or_new, build_error,
}
use amneziawg_windows_client.Routes.Cleanup.{IsActive, add_route_for_ip-Recorded, Recorded}
use amneziawg_windows_client.Routes.RouteLaws.{
  IsGood, IsGoodBuilt, IsInstalled, add_route_for_ip-IsGood, build_route_entry-IsGoodBuilt,
}
use mathlib.Core.Path.{subst}

-- The map holds an entry of the target for the address.
abbrev pub HasRoute : RouteTarget → RouteManager → ℕ → Type 0
HasRoute target m ip =
    (e : RouteEntry) × (lookup ip m.route_entries ≡ some (some e)) × (e.target ≡ target)

-- What had a route for the target still has one, and the manager is as active as before.
abbrev pub Kept : RouteTarget → RouteManager → RouteManager → Type 0
Kept target m m' =
    (m'.mode ≡ m.mode)
    × (m'.active_tunnel ≡ m.active_tunnel)
    × ((ip : ℕ) → HasRoute target m ip → HasRoute target m' ip)

-- An A record with an IPv4 address has a route.
abbrev pub IsRouted : RouteTarget → RouteManager → Option Ip × ℕ → Type 0
IsRouted target m (some (v4 ip), ttl) = HasRoute target m ip
IsRouted target m (_, ttl) = Unit

IsRouted-Kept :
    (target : RouteTarget) (m m' : RouteManager) (r : Option Ip × ℕ)
    → Kept target m m'
    → IsRouted target m r
    → IsRouted target m' r
IsRouted-Kept target m m' (some (v4 ip), ttl) k h = k.2 ip h
IsRouted-Kept target m m' (some (v6 ip), ttl) k h = tt
IsRouted-Kept target m m' (none, ttl) k h = tt

module _ (sys : RouteTable) where
  open sys use {Table}

  store-Kept :
      (m : RouteManager) (key : ℕ) (e : RouteEntry) → Kept e.target m (store sys key (some e) m)
  store-Kept m key e = (refl, refl, found)
    where
      found : (ip : ℕ) → HasRoute e.target m ip → HasRoute e.target (store sys key (some e) m) ip
      found ip h = elim (Bool-cases (key == ip)) [
        | inl same ↦ (e, rw lookup-insert (rw same refl), refl)
        | inr other ↦ (h.0, rw lookup-insert (rw other h.1), h.2)
      ]

  -- The outcome keeps the routes, where there is one.
  abbrev pub Keeps : RouteTarget → RouteManager → Option (Outcome sys) → Type 0
  Keeps target m none = Unit
  Keeps target m (some (m', t, err)) = Kept target m m'

  install-Keeps :
      (m : RouteManager) (ip : ℕ) (e : RouteEntry) (t : Table)
      → Keeps e.target m (some (install sys m ip (some e) t))
  unfolding install
  install-Keeps m ip e t = result_of (add_route sys (some e) t).0 (add_route sys (some e) t).1
    where
      result_of :
          (r : AddResult) (t' : Table)
          → Keeps e.target m (
              some (elim r [
                | added ↦ (store sys ip (some e) m, t', none)
                | already_exists ↦ (store sys ip (some e) m, t', none)
                | failed why ↦ (m, t', some why)
              ]))
      result_of added t' = store-Kept m ip e
      result_of already_exists t' = store-Kept m ip e
      result_of (failed why) t' = (refl, refl, λ ip h. h)

  install_built-Keeps :
      (m : RouteManager) (ip : ℕ) (target : RouteTarget) (expires : ℕ) (b : Built) (t : Table)
      → IsGoodBuilt ip target expires b
      → Keeps target m (some (install_built sys m ip b t))
  install_built-Keeps m ip target expires (built e) t h =
      subst (λ x. Keeps x m (some (install sys m ip (some e) t))) h.2 (install-Keeps m ip e t)
  install_built-Keeps m ip target expires nothing t h = absurd h
  install_built-Keeps m ip target expires (build_error why) t h = (refl, refl, λ ip h. h)

  known_or_new-Keeps :
      (m : RouteManager) (ip : ℕ) (target : RouteTarget) (expires : ℕ) (t : Table)
      (found : Option (Option RouteEntry))
      → IsInstalled target
      → Keeps target m (known_or_new sys m ip target expires t found)
  unfolding refresh
  known_or_new-Keeps m ip target expires t none i =
      install_built-Keeps m ip target expires (build_route_entry m ip target expires) t
        (build_route_entry-IsGoodBuilt m ip target expires i)
  known_or_new-Keeps m ip target expires t (some none) i = tt
  known_or_new-Keeps m ip target expires t (some (some entry)) i =
      store-Kept m ip (record entry { expires = expires; target = target })

  add_route_for_ip-Keeps :
      (m : RouteManager) (ip : Option Ip) (target : RouteTarget) (ttl now : ℕ) (t : Table)
      → IsInstalled target
      → Keeps target m (add_route_for_ip sys m ip target ttl now t)
  unfolding add_route_for_ip
  add_route_for_ip-Keeps m none target ttl now t i = (refl, refl, λ ip h. h)
  add_route_for_ip-Keeps m (some (v6 ip)) target ttl now t i = (refl, refl, λ ip h. h)
  add_route_for_ip-Keeps m (some (v4 ip)) target ttl now t i =
      if_both (Keeps target m) (is_disabled m.mode || is_nil m.active_tunnel)
        (refl, refl, λ ip h. h)
        (known_or_new-Keeps m ip target (expiry sys.is_386 now ttl) t (lookup ip m.route_entries) i)

  -- Where no error came back, the record has a route.
  abbrev pub RecordRouted : RouteTarget → Option Ip × ℕ → Option (Outcome sys) → Type 0
  RecordRouted target r none = Unit
  RecordRouted target r (some (m, t, some why)) = Unit
  RecordRouted target r (some (m, t, none)) = IsRouted target m r

  Recorded-routed :
      (target : RouteTarget) (ip ttl expires : ℕ) (o : Option (Outcome sys))
      → Recorded sys ip target expires o
      → RecordRouted target (some (v4 ip), ttl) o
  Recorded-routed target ip ttl expires none h = tt
  Recorded-routed target ip ttl expires (some (m, t, some why)) h = tt
  Recorded-routed target ip ttl expires (some (m, t, none)) h = (h.0, h.1, h.2)

  add_route_for_ip-RecordRouted :
      (m : RouteManager) (ip : Option Ip) (target : RouteTarget) (ttl now : ℕ) (t : Table)
      → IsActive m
      → IsInstalled target
      → IsGood m
      → RecordRouted target (ip, ttl) (add_route_for_ip sys m ip target ttl now t)
  unfolding add_route_for_ip
  add_route_for_ip-RecordRouted m none target ttl now t a i g = tt
  add_route_for_ip-RecordRouted m (some (v6 ip)) target ttl now t a i g = tt
  add_route_for_ip-RecordRouted m (some (v4 ip)) target ttl now t a i g =
      Recorded-routed target ip ttl _ _ (add_route_for_ip-Recorded sys m ip target ttl now t a i g)

  -- Where no error comes back, there was none before, every record has a route, and what had one
  -- still has it.
  abbrev pub AllRouted :
      RouteTarget
      → RouteManager
      → List (Option Ip × ℕ)
      → Option Text
      → Option (Outcome sys)
      → Type 0
  AllRouted target m found err none = ⊥
  AllRouted target m found err (some (m', t, some why)) = Unit
  AllRouted target m found err (some (m', t, none)) =
      (err ≡ none) × All (IsRouted target m') found × Kept target m m'

  abbrev first_error : Option Text → Option Text → Option Text
  first_error err err' = elim err [ none ↦ err' | some e ↦ some e ]

  AllRouted-step :
      (target : RouteTarget) (m m' : RouteManager) (r : Option Ip × ℕ) (rest : List (Option Ip × ℕ))
      (err err' : Option Text) (t' : Table) (o : Option (Outcome sys))
      → Kept target m m'
      → RecordRouted target r (some (m', t', err'))
      → AllRouted target m' rest (first_error err err') o
      → AllRouted target m (r ∷ rest) err o
  AllRouted-step target m m' r rest err err' t' none k h a = absurd a
  AllRouted-step target m m' r rest err err' t' (some (m'', t, some why)) k h a = tt
  AllRouted-step target m m' r rest (some e) err' t' (some (m'', t, none)) k h a =
      absurd (none-ne-some e (sym a.0))
  AllRouted-step target m m' r rest none (some e) t' (some (m'', t, none)) k h a =
      absurd (none-ne-some e (sym a.0))
  AllRouted-step target m m' r rest none none t' (some (m'', t, none)) k h a = (
    refl,
    (IsRouted-Kept target m' m'' r a.2 h, a.1),
    (a.2.0 ∙ k.0, a.2.1 ∙ k.1, λ ip x. a.2.2 ip (k.2 ip x)),
  )

  pub apply_routes-AllRouted :
      (m : RouteManager) (found : List (Option Ip × ℕ)) (target : RouteTarget) (now : ℕ) (t : Table)
      (err : Option Text)
      → IsActive m
      → IsInstalled target
      → IsGood m
      → AllRouted target m found err (apply_routes sys m found target now t err)
  unfolding apply_routes
  apply_routes-AllRouted m [] target now t none a i g = (refl, tt, (refl, refl, λ ip h. h))
  apply_routes-AllRouted m [] target now t (some why) a i g = tt
  apply_routes-AllRouted m ((ip, ttl) ∷ rest) target now t err a i g =
      let (m', t', err', e, g') =
        Outcome-cases sys (add_route_for_ip sys m ip target ttl now t)
          (add_route_for_ip-IsGood sys m ip target ttl now t i g) in
      let kept : Kept target m m' =
        subst (Keeps target m) e (add_route_for_ip-Keeps m ip target ttl now t i) in
      let routed : RecordRouted target (ip, ttl) (some (m', t', err')) =
        subst (RecordRouted target (ip, ttl)) e
          (add_route_for_ip-RecordRouted m ip target ttl now t a i g) in
      let active : IsActive m' = (rw (kept.0) a.0, rw (kept.1) a.1) in
      subst (AllRouted target m ((ip, ttl) ∷ rest) err)
        (sym (apply_routes_step sys m m' ip ttl rest target now t t' err err' e))
        (AllRouted-step target m m' (ip, ttl) rest err err' t' _ kept routed
          (apply_routes-AllRouted m' rest target now t' (first_error err err') active i g'))
