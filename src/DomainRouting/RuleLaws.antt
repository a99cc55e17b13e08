-- ===== src/DomainRouting/RuleLaws.antt =====
-- manager/domainrouting.go: which domains a rule catches, and where their traffic goes.
use amneziawg_windows_client.Common.{
  inl, true, ◌++◌, [], ◌⊎◌, Bool-cases, sym, ◌↔◌, ◌∙◌, ◌∷◌, List, Any, false, refl, is_nil, ◌||◌,
  ||_iff, ◌≡◌, inr, false≢true, if◌then◌else◌,
}
use amneziawg_windows_client.Common.Text.{
  has_suffix, ◌=ᵗ◌, Text, to_lower, is_space, lower_byte, trim_space,
}
use amneziawg_windows_client.Common.Text.Laws.{has_of_suffix, =ᵗ_iff, suffix_of_has}
use amneziawg_windows_client.DomainRouting.{
  disabled, decide, match_domain, tunnel, blacklist, DomainListMode, normalize_domain, direct,
  DomainRoutingRules, block, none_target, RouteTarget, whitelist, strict, DomainRoutingMode,
  parse_domain_routing_mode, route_direct, off, DnsRouteMode, relaxed, dns_only, mode_string,
  parse_dns_route_mode, route_tunnel, dns_route_mode_string, parse_list_mode, list_mode_string,
}

-- `domain` is `rule`, or a name below it.
abbrev pub IsUnder : Text → Text → Type 0
IsUnder domain rule = (domain ≡ rule) ⊎ ((p : Text) × (domain ≡ p ++ b'.' ∷ rule))

-- Some rule catches the domain.
abbrev pub Caught : Text → List Text → Type 0
Caught domain rules = Any (IsUnder domain) rules

rule_test_iff :
    (domain rule : Text)
    → ((domain =ᵗ rule || has_suffix domain (b'.' ∷ rule)) ≡ true) ↔ IsUnder domain rule
rule_test_iff domain rule = (
  λ h. elim ((||_iff (domain =ᵗ rule) (has_suffix domain (b'.' ∷ rule))).0 h) [
    | inl e ↦ inl ((=ᵗ_iff domain rule).0 e)
    | inr e ↦ inr (suffix_of_has domain (b'.' ∷ rule) e)
  ],
  λ h. (||_iff (domain =ᵗ rule) (has_suffix domain (b'.' ∷ rule))).1 (elim h [
    | inl e ↦ inl ((=ᵗ_iff domain rule).1 e)
    | inr (p, e) ↦ inr (rw e (has_of_suffix p (b'.' ∷ rule)))
  ]),
)

-- matchDomain answers true exactly when a rule equals the domain or the domain ends in a dot and
-- the rule: labels are matched whole.
pub match_domain_iff :
    (domain : Text) (rules : List Text) → (match_domain domain rules ≡ true) ↔ Caught domain rules
unfolding match_domain
match_domain_iff domain [] = (λ h. cc, λ h. absurd h)
match_domain_iff domain (rule ∷ rest) =
    let later = match_domain_iff domain rest in
    let here = rule_test_iff domain rule in
    elim (Bool-cases (domain =ᵗ rule || has_suffix domain (b'.' ∷ rule))) [
      | inl e ↦ rw e (λ h. inl (here.0 e), λ h. refl)
      | inr e ↦ rw e (
        λ h. inr (later.0 h),
        λ h. elim h [ inl x ↦ absurd (false≢true (sym e ∙ here.1 x)) | inr x ↦ later.1 x ],
      )
    ]

-- The policy, with the domain in normal form and not empty: blocked domains first; then the list of
-- the mode, or the direct rules before those for the tunnel.
abbrev pub Policy : DomainListMode → DomainRoutingRules → Text → RouteTarget → Type 0
Policy mode rules d block = Caught d rules.blocks
Policy whitelist rules d tunnel = ¬ (Caught d rules.blocks) × Caught d rules.domains
Policy whitelist rules d direct = ¬ (Caught d rules.blocks) × ¬ (Caught d rules.domains)
Policy whitelist rules d none_target = ⊥
Policy blacklist rules d tunnel = ¬ (Caught d rules.blocks) × ¬ (Caught d rules.domains)
Policy blacklist rules d direct = ¬ (Caught d rules.blocks) × Caught d rules.domains
Policy blacklist rules d none_target = ⊥
Policy disabled rules d direct = ¬ (Caught d rules.blocks) × Caught d rules.directs
Policy disabled rules d tunnel =
    ¬ (Caught d rules.blocks) × ¬ (Caught d rules.directs) × Caught d rules.tunnels
Policy disabled rules d none_target =
    ¬ (Caught d rules.blocks) × ¬ (Caught d rules.directs) × ¬ (Caught d rules.tunnels)

match_domain-false :
    (d : Text) (rules : List Text) → match_domain d rules ≡ false → ¬ (Caught d rules)
match_domain-false d rules e h = false≢true (sym e ∙ (match_domain_iff d rules).1 h)

Caught-cases :
    (d : Text) (rules : List Text)
    → ((match_domain d rules ≡ true) × Caught d rules)
      ⊎ ((match_domain d rules ≡ false) × ¬ (Caught d rules))
Caught-cases d rules = elim (Bool-cases (match_domain d rules)) [
  | inl e ↦ inl (e, (match_domain_iff d rules).0 e)
  | inr e ↦ inr (e, match_domain-false d rules e)
]

-- What is decided about a domain in normal form that no rule blocks.
unfoldable allowed : DomainListMode → DomainRoutingRules → Text → RouteTarget
allowed whitelist rules d = if match_domain d rules.domains then tunnel else direct
allowed blacklist rules d = if match_domain d rules.domains then direct else tunnel
allowed disabled rules d =
    if match_domain d rules.directs
    then direct
    else if match_domain d rules.tunnels
    then tunnel
    else none_target

allowed-Policy :
    (mode : DomainListMode) (rules : DomainRoutingRules) (d : Text)
    → ¬ (Caught d rules.blocks)
    → Policy mode rules d (allowed mode rules d)
unfolding allowed
allowed-Policy whitelist rules d free = elim (Caught-cases d rules.domains) [
  | inl (e, c) ↦ rw e (free, c)
  | inr (e, c) ↦ rw e (free, c)
]
allowed-Policy blacklist rules d free = elim (Caught-cases d rules.domains) [
  | inl (e, c) ↦ rw e (free, c)
  | inr (e, c) ↦ rw e (free, c)
]
allowed-Policy disabled rules d free = elim (Caught-cases d rules.directs) [
  | inl (e, c) ↦ rw e (free, c)
  | inr (e, c) ↦ rw e (elim (Caught-cases d rules.tunnels) [
    | inl (e', c') ↦ rw e' (free, c, c')
    | inr (e', c') ↦ rw e' (free, c, c')
  ])
]

decide-allowed :
    (mode : DomainListMode) (rules : DomainRoutingRules) (domain : Text)
    → is_nil (normalize_domain domain) ≡ false
    → match_domain (normalize_domain domain) rules.blocks ≡ false
    → decide mode rules domain ≡ allowed mode rules (normalize_domain domain)
unfolding decide allowed
decide-allowed whitelist rules domain h e = rw h (rw e)
decide-allowed blacklist rules domain h e = rw h (rw e)
decide-allowed disabled rules domain h e = rw h (rw e)

pub decide-blocked :
    (mode : DomainListMode) (rules : DomainRoutingRules) (domain : Text)
    → is_nil (normalize_domain domain) ≡ false
    → match_domain (normalize_domain domain) rules.blocks ≡ true
    → decide mode rules domain ≡ block
unfolding decide
decide-blocked mode rules domain h e = rw h (rw e)

Policy-block :
    (mode : DomainListMode) (rules : DomainRoutingRules) (d : Text)
    → Caught d rules.blocks
    → Policy mode rules d block
Policy-block whitelist rules d c = c
Policy-block blacklist rules d c = c
Policy-block disabled rules d c = c

-- For every domain that is not empty in normal form, decideRoute gives the target of the policy.
pub decide-Policy :
    (mode : DomainListMode) (rules : DomainRoutingRules) (domain : Text)
    → is_nil (normalize_domain domain) ≡ false
    → Policy mode rules (normalize_domain domain) (decide mode rules domain)
decide-Policy mode rules domain h = elim (Caught-cases (normalize_domain domain) rules.blocks) [
  | inl (e, c) ↦
      rw (decide-blocked mode rules domain h e)
        (Policy-block mode rules (normalize_domain domain) c)
  | inr (e, c) ↦
      rw (decide-allowed mode rules domain h e)
        (allowed-Policy mode rules (normalize_domain domain) c)
]

modes : (mode : DomainRoutingMode) → parse_domain_routing_mode (mode_string mode) ≡ mode
unfolding parse_domain_routing_mode mode_string to_lower lower_byte trim_space is_space ◌=ᵗ◌
modes off = refl
modes relaxed = refl
modes strict = refl
modes dns_only = refl

lists : (list : DomainListMode) → parse_list_mode (list_mode_string list) ≡ list
unfolding parse_list_mode list_mode_string to_lower lower_byte trim_space is_space ◌=ᵗ◌
lists disabled = refl
lists whitelist = refl
lists blacklist = refl

routes : (dns : DnsRouteMode) → parse_dns_route_mode (dns_route_mode_string dns) ≡ dns
unfolding parse_dns_route_mode dns_route_mode_string to_lower lower_byte trim_space is_space ◌=ᵗ◌
routes route_direct = refl
routes route_tunnel = refl

-- Every mode is read back from its name, so a saved configuration keeps its modes.
parse-mode_string :
    (mode : DomainRoutingMode) (list : DomainListMode) (dns : DnsRouteMode)
    → (parse_domain_routing_mode (mode_string mode) ≡ mode)
      × (parse_list_mode (list_mode_string list) ≡ list)
      × (parse_dns_route_mode (dns_route_mode_string dns) ≡ dns)
parse-mode_string mode list dns = (modes mode, lists list, routes dns)
