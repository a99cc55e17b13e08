-- ===== src/DomainRouting/ConfigLaws.antt =====
-- manager/domainrouting.go: whole configurations with 127.0.0.1 or IPv6 taken out of them.
use amneziawg_windows_client.Common.{
  List, ◌&&◌, any, all, ap, ℕ, not, arith, ◌≡◌, ◌∷◌, [], ◌||◌, false, map, Bool, true, ◌∙◌, ◌<◌,
  ◌^◌, refl, inr, &&_iff, inl, ◌++◌, Bool-cases, false≢true, if◌then◌else◌,
}
use amneziawg_windows_client.DomainRouting.Loopback.{
  Ip, v6, v4, exclude_ips, IpCidr, is_v4, is_default, exclude_loopback_from_config,
  allowed_ips_excluding_loopback, Peer, below_loopback, above_loopback, is_excluded, restore_ips,
  default_v4, without_excluded, subnet, ◌=ᶜ◌, has_loopback_excluded_pattern,
}
use amneziawg_windows_client.DomainRouting.LoopbackLaws.{
  covers-append, contains, is_loopback_address, covers, covers-allowed_ips_excluding_loopback,
  same_prefix,
}

-- The address lies in one of the networks that are not the default.
abbrev pub covers_by_others : Ip → List IpCidr → Bool
covers_by_others ip xs = any (λ x. not (is_default x) && contains ip x) xs

covers-exclude_ips :
    (ip : Ip) (xs : List IpCidr)
    → covers ip (exclude_ips xs)
      ≡ (covers_by_others ip xs || (any is_default xs && covers ip allowed_ips_excluding_loopback))
unfolding exclude_ips
covers-exclude_ips ip [] = refl
covers-exclude_ips ip (x ∷ xs) = ground (
  arith,
  covers-exclude_ips ip xs,
  covers-append ip allowed_ips_excluding_loopback (exclude_ips xs),
)

same_prefix_v4 : (cidr a : ℕ) (i : Ip) → is_v4 i ≡ true → same_prefix cidr i (v6 a) ≡ false
same_prefix_v4 cidr a (v4 b) h = refl
same_prefix_v4 cidr a (v6 b) h = absurd (false≢true h)

-- IPv4 networks hold no IPv6 address.
no_v6_below :
    (a : ℕ) (xs : List IpCidr) → all (λ x. is_v4 x.ip) xs ≡ true → covers (v6 a) xs ≡ false
unfolding contains
no_v6_below a [] h = refl
no_v6_below a (x ∷ xs) h =
    let both = (&&_iff (is_v4 x.ip) (all (λ y. is_v4 y.ip) xs)).0 h in
    rw (same_prefix_v4 x.cidr a x.ip both.0) (no_v6_below a xs both.1)

no_v6_in_excluding : (a : ℕ) → covers (v6 a) allowed_ips_excluding_loopback ≡ false
unfolding allowed_ips_excluding_loopback
no_v6_in_excluding a = no_v6_below a (below_loopback ++ above_loopback) refl

drop_last : (p q r : Bool) → r ≡ false → (p || (q && r)) ≡ p
drop_last p q r h = ground arith

-- Taking 127.0.0.1 out of AllowedIPs: an IPv4 address is covered afterwards exactly if a network that is
-- no default covers it, or a default was there and the address is not 127.0.0.1. A default is
-- `0.0.0.0/0`, and also `::/0`, which the code takes for it: with `::/0` alone, every other IPv4 address
-- becomes covered.
pub covers-exclude_loopback :
    (xs : List IpCidr) (a : ℕ)
    → a < 2 ^ 32
    → covers (v4 a) (exclude_ips xs)
      ≡ (covers_by_others (v4 a) xs || (any is_default xs && not (is_loopback_address a)))
covers-exclude_loopback xs a h =
    covers-exclude_ips (v4 a) xs
    ∙ ap (λ b. covers_by_others (v4 a) xs || (any is_default xs && b))
        (covers-allowed_ips_excluding_loopback a h)

-- Taking 127.0.0.1 out of AllowedIPs: an IPv6 address is covered afterwards exactly if a network
-- other than a default covers it, so that what `::/0` covered is lost.
pub covers_v6-exclude_loopback :
    (xs : List IpCidr) (a : ℕ) → covers (v6 a) (exclude_ips xs) ≡ covers_by_others (v6 a) xs
covers_v6-exclude_loopback xs a =
    covers-exclude_ips (v6 a) xs
    ∙ drop_last (covers_by_others (v6 a) xs) (any is_default xs) _ (no_v6_in_excluding a)

exclude_ips_same : (xs : List IpCidr) → any is_default xs ≡ false → exclude_ips xs ≡ xs
unfolding exclude_ips
exclude_ips_same [] h = refl
exclude_ips_same (x ∷ xs) h = ground (arith, exclude_ips_same xs)

abbrev pub has_default : Peer → Bool
has_default p = any is_default p.allowed_ips

abbrev pub excluded : Peer → Peer
excluded p = record { allowed_ips = exclude_ips p.allowed_ips }

exclude_loop :
    (modified : Bool) (peers : List Peer)
    → exclude_loopback_from_config modified peers
      ≡ (map excluded peers, modified || any has_default peers)
unfolding exclude_loopback_from_config
exclude_loop modified [] = ground arith
exclude_loop modified (p ∷ peers) =
    let later = exclude_loop (modified || has_default p) peers in
    elim (Bool-cases (modified || has_default p)) [
      | inl e ↦ rw e (ground (arith, rw e at later))
      | inr e ↦
          let none_here = exclude_ips_same p.allowed_ips (ground arith) in
          rw e (ground (arith, rw e at later, none_here))
    ]

-- Taking 127.0.0.1 out of a configuration changes every peer by itself, though the flag that says
-- so is shared by the peers, and reports a change exactly if a peer had the default network.
exclude_loopback_from_config_lem :
    (peers : List Peer)
    → exclude_loopback_from_config false peers ≡ (map excluded peers, any has_default peers)
exclude_loopback_from_config_lem peers = exclude_loop false peers

abbrev pub others : List IpCidr → List IpCidr
others [] = []
others (x ∷ xs) = if is_default x then others xs else x ∷ others xs

without_excluded-append :
    (xs ys : List IpCidr) → without_excluded (xs ++ ys) ≡ without_excluded xs ++ without_excluded ys
unfolding without_excluded
without_excluded-append [] ys = refl
without_excluded-append (x ∷ xs) ys = ground (arith, without_excluded-append xs ys)

without_excluded_keep :
    (x : IpCidr) (xs : List IpCidr)
    → not (is_excluded x) ≡ true
    → without_excluded (x ∷ xs) ≡ x ∷ without_excluded xs
unfolding without_excluded
without_excluded_keep x xs h = ground arith

without_excluded-subnets : without_excluded allowed_ips_excluding_loopback ≡ []
unfolding without_excluded is_excluded allowed_ips_excluding_loopback ◌=ᶜ◌
without_excluded-subnets = refl

without_excluded-exclude_ips :
    (xs : List IpCidr)
    → all (λ x. not (is_excluded x)) xs ≡ true
    → without_excluded (exclude_ips xs) ≡ others xs
unfolding exclude_ips
without_excluded-exclude_ips [] h = unfold without_excluded in refl
without_excluded-exclude_ips (x ∷ xs) h =
    let both = (&&_iff (not (is_excluded x)) (all (λ y. not (is_excluded y)) xs)).0 h in
    let later = without_excluded-exclude_ips xs both.1 in
    elim (Bool-cases (is_default x)) [
      | inl e ↦ rw e (
          without_excluded-append allowed_ips_excluding_loopback (exclude_ips xs)
          ∙ rw without_excluded-subnets later)
      | inr e ↦ rw e (without_excluded_keep x (exclude_ips xs) both.0 ∙ ap (◌∷◌ x) later)
    ]

any-append : (p : IpCidr → Bool) (xs ys : List IpCidr) → any p (xs ++ ys) ≡ (any p xs || any p ys)
any-append p [] ys = refl
any-append p (x ∷ xs) ys = ground (arith, any-append p xs ys)

any-exclude_ips :
    (p : IpCidr → Bool) (xs : List IpCidr)
    → any p allowed_ips_excluding_loopback ≡ true
    → any is_default xs ≡ true
    → any p (exclude_ips xs) ≡ true
unfolding exclude_ips
any-exclude_ips p [] s h = cc
any-exclude_ips p (x ∷ xs) s h =
    ground (
      arith,
      s,
      any-exclude_ips p xs s,
      any-append p allowed_ips_excluding_loopback (exclude_ips xs),
    )

pattern_of_subnets :
    (any (λ x. x =ᶜ subnet 0 0 0 0 2) allowed_ips_excluding_loopback ≡ true)
    × (any (λ x. x =ᶜ subnet 128 0 0 0 1) allowed_ips_excluding_loopback ≡ true)
unfolding allowed_ips_excluding_loopback ◌=ᶜ◌
pattern_of_subnets = (refl, refl)

-- What putting 127.0.0.1 back makes of AllowedIPs from which it was taken out: where they had a default,
-- `0.0.0.0/0` or `::/0`, and none of the 32 subnets, the networks that are no default come back in
-- their order, with one `0.0.0.0/0` behind them. A `::/0` does not come back.
pub restore_ips-exclude_ips :
    (xs : List IpCidr)
    → any is_default xs ≡ true
    → all (λ x. not (is_excluded x)) xs ≡ true
    → restore_ips (exclude_ips xs) ≡ others xs ++ default_v4 ∷ []
unfolding restore_ips has_loopback_excluded_pattern
restore_ips-exclude_ips xs h k =
    let first = any-exclude_ips (λ x. x =ᶜ subnet 0 0 0 0 2) xs pattern_of_subnets.0 h in
    let second = any-exclude_ips (λ x. x =ᶜ subnet 128 0 0 0 1) xs pattern_of_subnets.1 h in
    let found = (&&_iff _ _).1 (first, second) in
    let kept = without_excluded-exclude_ips xs k in rw found (rw kept)
