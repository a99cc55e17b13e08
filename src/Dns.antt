-- ===== src/Dns.antt =====
-- manager/domainrouting_dnsproxy.go: the upstream servers of a query and the interface it leaves by.
--
-- Addresses of the package net are `Ip`; its text functions (ParseIP, IP.String, SplitHostPort,
-- JoinHostPort) are the fields of `NetText`.
pub mod UpstreamLaws
pub mod Query
pub mod Handler
pub mod QueryLaws
pub mod HandlerLaws
pub mod StrictLaws
pub mod WayLaws
pub mod StrictReply
use amneziawg_windows_client.Common.{
  true, if◌then◌else◌, ◌%◌, ◌||◌, ◌∷◌, Option, ℕ, Bool, ◌/◌, [], false, some, ◌+◌, is_nil, ◌^◌,
  ◌==◌, ◌*◌, List, none,
}
use amneziawg_windows_client.Common.Text.{trim_space, Text, codes, contains_byte}
use amneziawg_windows_client.DomainRouting.{
  RouteTarget, tunnel, none_target, DnsRouteMode, route_tunnel,
}
use amneziawg_windows_client.DomainRouting.Loopback.{Ip, v4, v6, is_unspecified}

pub record NetText : Type 0 where
  pub parse_ip : Text → Option Ip
  pub ip_string : Ip → Text
  -- Host and port, or none at an error.
  pub split_host_port : Text → Option (Text × Text)
  pub join_host_port : Text → Text → Text

-- The fields of domainRoutingManager that the resolver reads.
pub record Resolver : Type 0 where
  pub dns_upstreams : List Text
  pub active_tunnel : Text
  pub tun_dns : List Ip
  pub default_dns : List Ip
  pub cached_system_dns : List Ip
  pub dns_route_mode : DnsRouteMode
  pub tun_if_index : ℕ
  pub default_if_index : ℕ

-- IP.IsLoopback: 127.0.0.0/8, and ::1.
unfoldable pub is_loopback : Ip → Bool
is_loopback (v4 a) = a / 2 ^ 24 == 127
is_loopback (v6 a) = a == 1

unfoldable pub filter_ipv4 : List Ip → List Ip
filter_ipv4 [] = []
filter_ipv4 (v4 a ∷ ips) =
    let rest = filter_ipv4 ips in
    if is_unspecified (v4 a) || is_loopback (v4 a) then rest else v4 a ∷ rest
filter_ipv4 (v6 a ∷ ips) = filter_ipv4 ips

-- The first list, or the second where the first is empty.
abbrev pub or_else : List Ip → List Ip → List Ip
or_else [] other = other
or_else (x ∷ xs) other = x ∷ xs

module _ (net : NetText) where
  open net use {parse_ip, ip_string, split_host_port, join_host_port}

  -- The end of normalizeUpstream: an IPv4 host, joined with its port.
  unfoldable pub join_ipv4 : Option Ip → Text → Option Text
  join_ipv4 (some (v4 a)) port = some (join_host_port (ip_string (v4 a)) port)
  join_ipv4 _ port = none

  abbrev pub host_and_port : Option (Text × Text) → Option Text
  host_and_port none = none
  host_and_port (some (host, port)) = elim (parse_ip host) [
    | none ↦ none
    | some ip ↦ if is_nil port then none else join_ipv4 (some ip) port
  ]

  unfoldable pub normalize_upstream : Text → Option Text
  unfolding join_ipv4
  normalize_upstream server =
      let server' = trim_space server in
      if is_nil server'
      then none
      else if contains_byte server' b':'
      then host_and_port (split_host_port server')
      else join_ipv4 (parse_ip server') (codes "53")

  unfoldable pub normalize_upstream_list : List Text → List Text
  normalize_upstream_list [] = []
  normalize_upstream_list (server ∷ rest) =
      let later = normalize_upstream_list rest in
      elim (normalize_upstream server) [ none ↦ later | some upstream ↦ upstream ∷ later ]

  abbrev pub public_dns : List Text
  public_dns = codes "8.8.8.8:53" ∷ codes "1.1.1.1:53" ∷ []

  -- The servers that are not loopback, with the port of DNS.
  unfoldable pub server_upstreams : List Ip → List Text
  server_upstreams [] = []
  server_upstreams (ip ∷ rest) =
      let later = server_upstreams rest in
      if is_loopback ip then later else join_host_port (ip_string ip) (codes "53") ∷ later

  abbrev pub or_public : List Text → List Text
  or_public [] = public_dns
  or_public (x ∷ xs) = x ∷ xs

  -- The servers that pickUpstreams chooses for a target: those of the tunnel first for the tunnel,
  -- those of the system first otherwise, and the cached ones where neither has any.
  unfoldable pub preferred_servers : Resolver → RouteTarget → List Ip
  preferred_servers m tunnel =
      or_else (or_else (filter_ipv4 m.tun_dns) (filter_ipv4 m.default_dns)) m.cached_system_dns
  preferred_servers m _ =
      or_else (or_else (filter_ipv4 m.default_dns) (filter_ipv4 m.tun_dns)) m.cached_system_dns

  -- The part of pickUpstreams behind the custom servers.
  unfoldable pub automatic_upstreams : Resolver → RouteTarget → List Text
  unfolding server_upstreams preferred_servers
  automatic_upstreams m target =
      if is_nil m.active_tunnel
      then public_dns
      else or_public (server_upstreams (preferred_servers m target))

  unfoldable pub pick_upstreams : Resolver → RouteTarget → List Text
  pick_upstreams m target = elim (normalize_upstream_list m.dns_upstreams) [
    | [] ↦ automatic_upstreams m target
    | u ∷ us ↦ u ∷ us
  ]

-- htonl: the four bytes in the other order.
unfoldable pub htonl : ℕ → ℕ
htonl value =
    value % 256 * 16777216
    + value / 256 % 256 * 65536
    + value / 65536 % 256 * 256
    + value / 16777216 % 256

abbrev pub to_tunnel : RouteTarget → DnsRouteMode → Bool
to_tunnel tunnel mode = true
to_tunnel none_target route_tunnel = true
to_tunnel _ mode = false

-- dialerForTarget: nil, or a dialer whose sockets are bound by IP_UNICAST_IF to the value.
unfoldable pub dialer_for_target : Resolver → RouteTarget → Option ℕ
dialer_for_target m target =
    if is_nil m.active_tunnel
    then none
    else let if_index =
        if to_tunnel target m.dns_route_mode then m.tun_if_index else m.default_if_index in
      if if_index == 0 then none else some (htonl if_index)
