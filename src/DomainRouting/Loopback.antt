-- ===== src/DomainRouting/Loopback.antt =====
-- manager/domainrouting.go: the AllowedIPs of a configuration with 127.0.0.1 taken out and put back,
-- and with IPv6 taken out.
use amneziawg_windows_client.Common.{
  any, not, if◌then◌else◌, true, ◌+◌, ◌&&◌, List, ◌==◌, ◌∷◌, Bool, ◌++◌, ℕ, ◌||◌, ◌*◌, false, [],
}

-- net.IP that is an address: the number of its 32 or 128 bits. An IPv4 address in 16 bytes is `v4`.
pub data Ip : Type 0 where
  v4 v6 : ℕ → Ip

-- conf.IPCidr
pub record IpCidr : Type 0 where
  pub ip : Ip
  pub cidr : ℕ

-- The AllowedIPs of one peer, the only part of conf.Config that is read and written here.
pub record Peer : Type 0 where
  pub allowed_ips : List IpCidr

unfoldable pub is_unspecified : Ip → Bool
is_unspecified (v4 a) = a == 0
is_unspecified (v6 a) = a == 0

abbrev pub same_ip : Ip → Ip → Bool
same_ip (v4 a) (v4 b) = a == b
same_ip (v6 a) (v6 b) = a == b
same_ip _ _ = false

-- Equality of the texts that IPCidr.String gives, which name the address and the length.
infix 50 ◌=ᶜ◌
unfoldable pub ◌=ᶜ◌ : IpCidr → IpCidr → Bool
x =ᶜ y = same_ip x.ip y.ip && x.cidr == y.cidr

-- The test of `0.0.0.0/0`.
unfoldable pub is_default : IpCidr → Bool
is_default x = is_unspecified x.ip && x.cidr == 0

abbrev pub subnet : ℕ → ℕ → ℕ → ℕ → ℕ → IpCidr
subnet a b c d cidr = record { ip = v4 (((a * 256 + b) * 256 + c) * 256 + d); cidr = cidr }

abbrev pub below_loopback : List IpCidr
below_loopback =
    subnet 0 0 0 0 2
    ∷ subnet 64 0 0 0 3
    ∷ subnet 96 0 0 0 4
    ∷ subnet 112 0 0 0 5
    ∷ subnet 120 0 0 0 6
    ∷ subnet 124 0 0 0 7
    ∷ subnet 126 0 0 0 8
    ∷ subnet 127 0 0 0 32
    ∷ []

abbrev pub above_loopback : List IpCidr
above_loopback =
    subnet 127 0 0 2 31
    ∷ subnet 127 0 0 4 30
    ∷ subnet 127 0 0 8 29
    ∷ subnet 127 0 0 16 28
    ∷ subnet 127 0 0 32 27
    ∷ subnet 127 0 0 64 26
    ∷ subnet 127 0 0 128 25
    ∷ subnet 127 0 1 0 24
    ∷ subnet 127 0 2 0 23
    ∷ subnet 127 0 4 0 22
    ∷ subnet 127 0 8 0 21
    ∷ subnet 127 0 16 0 20
    ∷ subnet 127 0 32 0 19
    ∷ subnet 127 0 64 0 18
    ∷ subnet 127 0 128 0 17
    ∷ subnet 127 1 0 0 16
    ∷ subnet 127 2 0 0 15
    ∷ subnet 127 4 0 0 14
    ∷ subnet 127 8 0 0 13
    ∷ subnet 127 16 0 0 12
    ∷ subnet 127 32 0 0 11
    ∷ subnet 127 64 0 0 10
    ∷ subnet 127 128 0 0 9
    ∷ subnet 128 0 0 0 1
    ∷ []

-- allowedIPsExcludingLoopback, and the members of makeExcludedSet
unfoldable pub allowed_ips_excluding_loopback : List IpCidr
allowed_ips_excluding_loopback = below_loopback ++ above_loopback

-- The loop over one peer's AllowedIPs in excludeLoopbackFromConfig.
unfoldable pub exclude_ips : List IpCidr → List IpCidr
exclude_ips [] = []
exclude_ips (x ∷ rest) =
    let later = exclude_ips rest in
    if is_default x then allowed_ips_excluding_loopback ++ later else x ∷ later

-- excludeLoopbackFromConfig; `modified` is not reset between peers.
unfoldable pub exclude_loopback_from_config : Bool → List Peer → List Peer × Bool
exclude_loopback_from_config modified [] = ([], modified)
exclude_loopback_from_config modified (p ∷ rest) =
    let modified' = modified || any is_default p.allowed_ips in
    let (rest', result) = exclude_loopback_from_config modified' rest in
    (
      if modified' then record { allowed_ips = exclude_ips p.allowed_ips } ∷ rest' else p ∷ rest',
      result,
    )

-- ExcludeLoopbackFromAllowedIPs, with the manager's option.
unfoldable pub exclude_loopback_from_allowed_ips : Bool → List Peer → List Peer × Bool
unfolding exclude_loopback_from_config
exclude_loopback_from_allowed_ips option peers =
    if not option then (peers, false) else exclude_loopback_from_config false peers

unfoldable pub has_loopback_excluded_pattern : List IpCidr → Bool
has_loopback_excluded_pattern ips =
    any (λ x. x =ᶜ subnet 0 0 0 0 2) ips && any (λ x. x =ᶜ subnet 128 0 0 0 1) ips

unfoldable pub is_excluded : IpCidr → Bool
is_excluded x = any (λ y. x =ᶜ y) allowed_ips_excluding_loopback

unfoldable pub without_excluded : List IpCidr → List IpCidr
without_excluded [] = []
without_excluded (x ∷ rest) =
    let later = without_excluded rest in if is_excluded x then later else x ∷ later

abbrev pub default_v4 : IpCidr
default_v4 = subnet 0 0 0 0 0

unfoldable pub restore_ips : List IpCidr → List IpCidr
restore_ips ips =
    if has_loopback_excluded_pattern ips then without_excluded ips ++ default_v4 ∷ [] else ips

-- RestoreLoopbackToAllowedIPs
unfoldable pub restore_loopback : List Peer → List Peer × Bool
unfolding restore_ips
restore_loopback [] = ([], false)
restore_loopback (p ∷ rest) =
    let (rest', modified) = restore_loopback rest in
    (
      record { allowed_ips = restore_ips p.allowed_ips } ∷ rest',
      has_loopback_excluded_pattern p.allowed_ips || modified,
    )

abbrev pub is_v4 : Ip → Bool
is_v4 (v4 a) = true
is_v4 (v6 a) = false

unfoldable pub keep_v4 : List IpCidr → List IpCidr
keep_v4 [] = []
keep_v4 (x ∷ rest) = let later = keep_v4 rest in if is_v4 x.ip then x ∷ later else later

unfoldable pub disable_loop : Bool → List Peer → List Peer × Bool
unfolding keep_v4
disable_loop modified [] = ([], modified)
disable_loop modified (p ∷ rest) =
    let modified' = modified || any (λ x. not (is_v4 x.ip)) p.allowed_ips in
    let (rest', result) = disable_loop modified' rest in
    (
      if modified' then record { allowed_ips = keep_v4 p.allowed_ips } ∷ rest' else p ∷ rest',
      result,
    )

-- DisableIPv6FromConfig, with the manager's option.
unfoldable pub disable_ipv6_from_config : Bool → List Peer → List Peer × Bool
unfolding disable_loop
disable_ipv6_from_config option peers =
    if not option then (peers, false) else disable_loop false peers
