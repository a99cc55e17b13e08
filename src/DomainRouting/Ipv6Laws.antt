-- ===== src/DomainRouting/Ipv6Laws.antt =====
-- manager/domainrouting.go: configurations with IPv6 taken out of them.
use amneziawg_windows_client.Common.{
  ◌≡◌, ◌∷◌, true, false, refl, ◌||◌, any, not, ℕ, inr, [], List, Bool, Bool-cases, arith, map, inl,
  sym, false≢true,
}
use amneziawg_windows_client.DomainRouting.Loopback.{
  v4, v6, disable_loop, IpCidr, keep_v4, disable_ipv6_from_config, Peer, Ip, is_v4,
}
use amneziawg_windows_client.DomainRouting.LoopbackLaws.{covers, same_prefix, contains}

-- The peer has an IPv6 network among its AllowedIPs.
abbrev pub has_v6 : Peer → Bool
has_v6 p = any (λ x. not (is_v4 x.ip)) p.allowed_ips

-- The peer with its IPv4 networks alone.
abbrev pub only_v4 : Peer → Peer
only_v4 p = record { allowed_ips = keep_v4 p.allowed_ips }

keep_v4_same : (xs : List IpCidr) → any (λ x. not (is_v4 x.ip)) xs ≡ false → keep_v4 xs ≡ xs
unfolding keep_v4
keep_v4_same [] h = refl
keep_v4_same (x ∷ xs) h = ground (arith, keep_v4_same xs)

disable_loop_lem :
    (modified : Bool) (peers : List Peer)
    → disable_loop modified peers ≡ (map only_v4 peers, (modified || any has_v6 peers))
unfolding disable_loop
disable_loop_lem modified [] = ground arith
disable_loop_lem modified (p ∷ peers) =
    let later = disable_loop_lem (modified || has_v6 p) peers in
    elim (Bool-cases (modified || has_v6 p)) [
      | inl e ↦ rw e (ground (arith, rw e at later))
      | inr e ↦
          let none_here = keep_v4_same p.allowed_ips (ground arith) in
          rw e (ground (arith, rw e at later, none_here))
    ]

-- With the option set, every peer keeps its IPv4 networks alone, though the flag that says that
-- something changed is shared by the peers, and a change is reported exactly if a peer had an IPv6
-- network.
disable_ipv6_from_config_lem :
    (peers : List Peer)
    → disable_ipv6_from_config true peers ≡ (map only_v4 peers, any has_v6 peers)
unfolding disable_ipv6_from_config
disable_ipv6_from_config_lem peers = disable_loop_lem false peers

v4_network : (cidr a : ℕ) (i : Ip) → is_v4 i ≡ true → same_prefix cidr i (v6 a) ≡ false
v4_network cidr a (v4 b) h = refl
v4_network cidr a (v6 b) h = absurd (false≢true h)

v6_network : (cidr a : ℕ) (i : Ip) → is_v4 i ≡ false → same_prefix cidr i (v4 a) ≡ false
v6_network cidr a (v4 b) h = absurd (false≢true (sym h))
v6_network cidr a (v6 b) h = refl

-- Of the networks that are kept, none covers an IPv6 address, and they cover the same IPv4 addresses
-- as before.
covers-keep_v4 :
    (a : ℕ) (xs : List IpCidr)
    → (covers (v6 a) (keep_v4 xs) ≡ false) × (covers (v4 a) (keep_v4 xs) ≡ covers (v4 a) xs)
unfolding keep_v4 contains
covers-keep_v4 a [] = (refl, refl)
covers-keep_v4 a (x ∷ xs) =
    let later = covers-keep_v4 a xs in
    elim (Bool-cases (is_v4 x.ip)) [
      | inl e ↦ let apart = v4_network x.cidr a x.ip e in ground (arith, e, later.0, later.1, apart)
      | inr e ↦ let apart = v6_network x.cidr a x.ip e in ground (arith, e, later.0, later.1, apart)
    ]
