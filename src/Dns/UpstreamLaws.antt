-- ===== src/Dns/UpstreamLaws.antt =====
-- manager/domainrouting_dnsproxy.go: which servers are asked.
use amneziawg_windows_client.Common.{
  refl, if_both, ◌∷◌, ℕ, All, [], ◌<◌, map, ◌≢◌, ◌≡◌, ap, false, is_nil, List, arith, ◌*◌, ◌+◌,
}
use amneziawg_windows_client.Common.Text.{Text, codes}
use amneziawg_windows_client.Dns.{
  NetText, server_upstreams, is_loopback, or_public, htonl, preferred_servers, automatic_upstreams,
  pick_upstreams, filter_ipv4, Resolver, or_else, normalize_upstream_list,
}
use amneziawg_windows_client.DomainRouting.{RouteTarget, tunnel, direct, none_target}
use amneziawg_windows_client.DomainRouting.Loopback.{Ip, v4, v6, is_unspecified}

-- Of four bytes, htonl gives the number that has them in the other order.
htonl-bytes :
    (a b c d : ℕ)
    → a < 256
    → b < 256
    → c < 256
    → d < 256
    → htonl (((a * 256 + b) * 256 + c) * 256 + d) ≡ ((d * 256 + c) * 256 + b) * 256 + a
unfolding htonl
htonl-bytes a b c d ha hb hc hd = omega arith

-- A server may be asked: an IPv4 address that is neither 0.0.0.0 nor loopback.
abbrev pub IsUsable : Ip → Type 0
IsUsable (v4 a) = (is_unspecified (v4 a) ≡ false) × (is_loopback (v4 a) ≡ false)
IsUsable (v6 a) = ⊥

filter_ipv4-IsUsable : (ips : List Ip) → All IsUsable (filter_ipv4 ips)
unfolding filter_ipv4
filter_ipv4-IsUsable [] = tt
filter_ipv4-IsUsable (v4 a ∷ ips) = ground (arith, filter_ipv4-IsUsable ips)
filter_ipv4-IsUsable (v6 a ∷ ips) = filter_ipv4-IsUsable ips

module _ (net : NetText) where
  open net use {ip_string, join_host_port}

  or_public-ne-nil : (xs : List Text) → or_public net xs ≢ []
  or_public-ne-nil [] h = cc
  or_public-ne-nil (x ∷ xs) h = cc

  automatic_upstreams-ne-nil :
      (m : Resolver) (target : RouteTarget) → automatic_upstreams net m target ≢ []
  unfolding automatic_upstreams
  automatic_upstreams-ne-nil m target =
      if_both (λ l. l ≢ []) (is_nil m.active_tunnel) (λ h. cc)
        (or_public-ne-nil (server_upstreams net (preferred_servers net m target)))

  -- There is always an upstream server to ask, whatever is configured.
  pick_upstreams-ne-nil : (m : Resolver) (target : RouteTarget) → pick_upstreams net m target ≢ []
  unfolding pick_upstreams
  pick_upstreams-ne-nil m target = ground (arith, automatic_upstreams-ne-nil m target)

  abbrev pub upstream_of : Ip → Text
  upstream_of ip = join_host_port (ip_string ip) (codes "53")

  server_upstreams-usable :
      (ips : List Ip) → All IsUsable ips → server_upstreams net ips ≡ map upstream_of ips
  unfolding server_upstreams
  server_upstreams-usable [] h = refl
  server_upstreams-usable (v4 a ∷ ips) h =
      rw (h.0.1) (ap (◌∷◌ (upstream_of (v4 a))) (server_upstreams-usable ips h.1))
  server_upstreams-usable (v6 a ∷ ips) h = absurd h.0

  filtered-usable :
      (ips : List Ip) → server_upstreams net (filter_ipv4 ips) ≡ map upstream_of (filter_ipv4 ips)
  filtered-usable ips = server_upstreams-usable (filter_ipv4 ips) (filter_ipv4-IsUsable ips)

  or_else-ne-nil : (xs ys : List Ip) → xs ≢ [] → or_else xs ys ≡ xs
  or_else-ne-nil [] ys h = absurd (h refl)
  or_else-ne-nil (x ∷ xs) ys h = refl

  or_public-map : (xs : List Ip) → xs ≢ [] → or_public net (map upstream_of xs) ≡ map upstream_of xs
  or_public-map [] h = absurd (h refl)
  or_public-map (x ∷ xs) h = refl

  preferred-first :
      (xs ys zs : List Ip)
      → filter_ipv4 xs ≢ []
      → or_public net (server_upstreams net (or_else (or_else (filter_ipv4 xs) ys) zs))
        ≡ map upstream_of (filter_ipv4 xs)
  preferred-first xs ys zs h = rw (or_else-ne-nil (filter_ipv4 xs) ys h) (
      rw (or_else-ne-nil (filter_ipv4 xs) zs h)
        (rw (filtered-usable xs) (or_public-map (filter_ipv4 xs) h)))

  -- With a tunnel active, no custom servers and a usable server of its own, a domain for the tunnel
  -- is resolved by the tunnel's usable servers and by no other, and any other domain by those of
  -- the system where it has one.
  pick_upstreams_by_target :
      (m : Resolver)
      → is_nil m.active_tunnel ≡ false
      → m.dns_upstreams ≡ []
      → filter_ipv4 m.tun_dns ≢ []
      → filter_ipv4 m.default_dns ≢ []
      → (pick_upstreams net m tunnel ≡ map upstream_of (filter_ipv4 m.tun_dns))
        × (pick_upstreams net m direct ≡ map upstream_of (filter_ipv4 m.default_dns))
        × (pick_upstreams net m none_target ≡ map upstream_of (filter_ipv4 m.default_dns))
  unfolding pick_upstreams automatic_upstreams preferred_servers normalize_upstream_list
  pick_upstreams_by_target m active custom tun sys =
      rw (custom, active)
        (
          preferred-first m.tun_dns (filter_ipv4 m.default_dns) m.cached_system_dns tun,
          preferred-first m.default_dns (filter_ipv4 m.tun_dns) m.cached_system_dns sys,
          preferred-first m.default_dns (filter_ipv4 m.tun_dns) m.cached_system_dns sys,
        )
