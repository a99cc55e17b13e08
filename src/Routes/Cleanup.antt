-- ===== src/Routes/Cleanup.antt =====
-- manager/domainrouting.go: when routes are recorded, refreshed and dropped.
use Prim.Native.Nat.{max}
use amneziawg_windows_client.Common.{
  ◌+◌, ◌≡◌, ltb, ◌∷◌, if◌then◌else◌, Option, is_nil, ==_self, false, refl, none, not, arith, [], ℕ,
  Bool-cases, if_both, List, All, some, inl, inr, Bool,
}
use amneziawg_windows_client.Common.Assoc.{lookup-insert, insert, lookup, lookup-All}
use amneziawg_windows_client.DomainRouting.{RouteTarget}
use amneziawg_windows_client.DomainRouting.Loopback.{v4}
use amneziawg_windows_client.Routes.{
  RouteTable, expiry, int_is_negative, failed, add_route_for_ip, AddResult, route_exists_in_system,
  nothing, Entries, RouteManager, built, RouteEntry, cleanup_loop, build_route_entry, install,
  add_route, already_exists, install_built, cleanup_expired_routes, Built, Outcome, store,
  build_error, added, known_or_new, refresh, is_disabled,
}
use amneziawg_windows_client.Routes.RouteLaws.{
  IsInstalled, build_route_entry-IsGoodBuilt, IsGoodBuilt, IsGoodEntry, IsGood,
}
use mathlib.Core.Path.{subst}

-- The entries that expire later than `now`.
abbrev pub alive : ℕ → Entries → Entries
alive now [] = []
alive now ((ip, none) ∷ rest) = alive now rest
alive now ((ip, some e) ∷ rest) =
    if ltb now e.expires then (ip, some e) ∷ alive now rest else alive now rest

-- A route that was asked for and is not yet in the map, or is to be refreshed.
abbrev pub IsActive : RouteManager → Type 0
IsActive m = (is_disabled m.mode ≡ false) × (is_nil m.active_tunnel ≡ false)

lookup-insert_same {ℓ} :
    {V : Type ℓ} (ip : ℕ) (v : V) (m : List (ℕ × V)) → lookup ip (insert ip v m) ≡ some v
lookup-insert_same ip v m = rw lookup-insert (rw (==_self ip))

expiry_lem :
    (is_386 : Bool) (now ttl : ℕ)
    → expiry is_386 now ttl ≡ now + (if int_is_negative is_386 ttl then 300 else max 300 ttl)
unfolding expiry
expiry_lem is_386 now ttl = ground arith

module _ (sys : RouteTable) where
  open sys use {Table, delete}

  -- What the map holds about the address afterwards, where no error came back.
  abbrev pub Recorded : ℕ → RouteTarget → ℕ → Option (Outcome sys) → Type 0
  Recorded ip target expires none = ⊥
  Recorded ip target expires (some (m, t, some why)) = Unit
  Recorded ip target expires (some (m, t, none)) =
      (e : RouteEntry) × (lookup ip m.route_entries ≡ some (some e))
      × (e.target ≡ target)
      × (e.expires ≡ expires)

  install-Recorded :
      (m : RouteManager) (ip : ℕ) (e : RouteEntry) (t : Table)
      → Recorded ip e.target e.expires (some (install sys m ip (some e) t))
  unfolding install
  install-Recorded m ip e t = result_of (add_route sys (some e) t).0 (add_route sys (some e) t).1
    where
      kept :
          (t' : Table) → Recorded ip e.target e.expires (some (store sys ip (some e) m, t', none))
      kept t' = (e, lookup-insert_same ip (some e) m.route_entries, refl, refl)

      result_of :
          (r : AddResult) (t' : Table)
          → Recorded ip e.target e.expires (
              some (elim r [
                | added ↦ (store sys ip (some e) m, t', none)
                | already_exists ↦ (store sys ip (some e) m, t', none)
                | failed why ↦ (m, t', some why)
              ]))
      result_of added t' = kept t'
      result_of already_exists t' = kept t'
      result_of (failed why) t' = tt

  install_built-Recorded :
      (m : RouteManager) (ip : ℕ) (target : RouteTarget) (expires : ℕ) (b : Built) (t : Table)
      → IsGoodBuilt ip target expires b
      → Recorded ip target expires (some (install_built sys m ip b t))
  install_built-Recorded m ip target expires (built e) t h =
      subst (λ x. Recorded ip x expires (some (install sys m ip (some e) t))) h.2
        (subst (λ x. Recorded ip e.target x (some (install sys m ip (some e) t))) h.3
          (install-Recorded m ip e t))
  install_built-Recorded m ip target expires nothing t h = absurd h
  install_built-Recorded m ip target expires (build_error why) t h = tt

  known_or_new-Recorded :
      (m : RouteManager) (ip : ℕ) (target : RouteTarget) (expires : ℕ) (t : Table)
      (found : Option (Option RouteEntry))
      → lookup ip m.route_entries ≡ found
      → IsInstalled target
      → IsGood m
      → Recorded ip target expires (known_or_new sys m ip target expires t found)
  unfolding refresh
  known_or_new-Recorded m ip target expires t none e i g =
      install_built-Recorded m ip target expires (build_route_entry m ip target expires) t
        (build_route_entry-IsGoodBuilt m ip target expires i)
  known_or_new-Recorded m ip target expires t (some none) e i g =
      absurd (lookup-All IsGoodEntry ip m.route_entries e g)
  known_or_new-Recorded m ip target expires t (some (some entry)) e i g = (
    record entry { expires = expires; target = target },
    lookup-insert_same ip _ m.route_entries,
    refl,
    refl,
  )

  -- With a tunnel active, the mode not off and no error, the map holds an entry for the resolved
  -- IPv4 address afterwards, with the target asked for, that expires after the TTL, or after five
  -- minutes if the TTL is shorter, or if it has the highest of its 32 bits set and the program is the
  -- build for GOARCH=386.
  pub add_route_for_ip-Recorded :
      (m : RouteManager) (ip : ℕ) (target : RouteTarget) (ttl now : ℕ) (t : Table)
      → IsActive m
      → IsInstalled target
      → IsGood m
      → Recorded ip target
          (now + (if int_is_negative sys.is_386 ttl then 300 else max 300 ttl))
          (add_route_for_ip sys m (some (v4 ip)) target ttl now t)
  unfolding add_route_for_ip
  add_route_for_ip-Recorded m ip target ttl now t active i g =
      let lasts : expiry sys.is_386 now ttl
          ≡ now + (if int_is_negative sys.is_386 ttl then 300 else max 300 ttl) =
        expiry_lem sys.is_386 now ttl in
      rw (active.0, active.1)
        (subst
          (λ x. Recorded ip target x (
            known_or_new sys m ip target (expiry sys.is_386 now ttl) t (lookup ip m.route_entries)))
          lasts
          (known_or_new-Recorded m ip target (expiry sys.is_386 now ttl) t
            (lookup ip m.route_entries) refl i g))

  -- An address that already has an entry keeps the entry's interface and next hop, whichever way is
  -- now asked for: only the target and the expiry of the entry change, so that a target other than
  -- the entry's is recorded without a route that goes there.
  add_route_for_ip_refresh :
      (m : RouteManager) (ip : ℕ) (target : RouteTarget) (ttl now : ℕ) (t : Table) (e : RouteEntry)
      → IsActive m
      → lookup ip m.route_entries ≡ some (some e)
      → (t' : Table) × (add_route_for_ip sys m (some (v4 ip)) target ttl now t
          ≡ some (
            store sys ip
                (some (record e { expires = expiry sys.is_386 now ttl; target = target }))
                m,
            t',
            none,
          ))
  unfolding add_route_for_ip refresh
  add_route_for_ip_refresh m ip target ttl now t e active found = (
    if not (route_exists_in_system sys ip e.luid t)
        then (add_route sys
            (some (record e { expires = expiry sys.is_386 now ttl; target = target })) t).1
        else t,
    rw (active.0, active.1) (rw found),
  )

  cleanup_loop-alive :
      (now : ℕ) (entries : Entries) (t : Table)
      → All IsGoodEntry entries
      → (t' : Table) × (cleanup_loop sys now entries t ≡ some (alive now entries, t'))
  unfolding cleanup_loop
  cleanup_loop-alive now [] t g = (t, refl)
  cleanup_loop-alive now ((ip, none) ∷ rest) t g = absurd g.0
  cleanup_loop-alive now ((ip, some e) ∷ rest) t g = elim (Bool-cases (ltb now e.expires)) [
    | inl lasts ↦ let (t', later) = cleanup_loop-alive now rest t g.1 in (t', rw lasts (rw later))
    | inr over ↦
        let (t', later) = cleanup_loop-alive now rest (delete e t) g.1 in (t', rw over (rw later))
  ]

  alive-IsGood :
      (now : ℕ) (entries : Entries) → All IsGoodEntry entries → All IsGoodEntry (alive now entries)
  alive-IsGood now [] g = tt
  alive-IsGood now ((ip, none) ∷ rest) g = absurd g.0
  alive-IsGood now ((ip, some e) ∷ rest) g =
      if_both (All IsGoodEntry) (ltb now e.expires) (g.0, alive-IsGood now rest g.1)
        (alive-IsGood now rest g.1)

  -- The cleanup never panics on a map without nil entries, keeps exactly the entries that expire
  -- later than now, changes nothing else of the manager, and the map stays without nil entries.
  pub cleanup_expired_routes-alive :
      (now : ℕ) (m : RouteManager) (t : Table)
      → IsGood m
      → (t' : Table) × (cleanup_expired_routes sys now m t
          ≡ some (record m { route_entries = alive now m.route_entries }, t'))
        × IsGood (record m { route_entries = alive now m.route_entries })
  unfolding cleanup_expired_routes
  cleanup_expired_routes-alive now m t g =
      let (t', e) = cleanup_loop-alive now m.route_entries t g in
      (t', ground (arith, e), alive-IsGood now m.route_entries g)
