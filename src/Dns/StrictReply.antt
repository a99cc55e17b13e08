-- ===== src/Dns/StrictReply.antt =====
-- manager/domainrouting_dnsproxy.go: what reaches the client in strict mode, and for blocked domains.
use amneziawg_windows_client.Common.{
  List, [], ◌∷◌, ◌≡◌, refl, true, false, Option, none, some, is_nil, ◌==◌, ◌&&◌, ◌≢◌, ℕ, if_both,
  All, All-map, Bool, if◌then◌else◌, ap, not,
}
use amneziawg_windows_client.Common.Assoc.{lookup, lookup-All}
use amneziawg_windows_client.Common.Text.{to_lower, codes, trim_suffix, Text}
use amneziawg_windows_client.Dns.{NetText}
use amneziawg_windows_client.Dns.Handler.{
  Proxy, authoritative, type_aaaa, set_rcode, forwarded, reply_after_routes, handle_dns_query,
  resolve, answer_name, a_records, entry_for, Handled, handle_reply, installs_routes, name_error,
  Question, ask_upstreams, Written, local_address, local_answers,
}
use amneziawg_windows_client.Dns.Query.{DnsClient, answered, no_answer, Message, Asked, Exchange}
use amneziawg_windows_client.Dns.StrictLaws.{IsRouted, apply_routes-AllRouted, AllRouted}
use amneziawg_windows_client.Dns.WayLaws.{
  interface_of, AllGoBy, GoesBy, apply_routes-LeavesGoing, LeavesGoing,
}
use amneziawg_windows_client.DnsLog.{DnsLogEntry}
use amneziawg_windows_client.DomainRouting.{
  strict, block, none_target, direct, tunnel, RouteTarget, normalize_domain, decide,
  DomainRoutingMode,
}
use amneziawg_windows_client.DomainRouting.Loopback.{Ip, v4, v6}
use amneziawg_windows_client.DomainRouting.RuleLaws.{Caught, decide-blocked, match_domain_iff}
use amneziawg_windows_client.Routes.{RouteTable, RouteManager, Outcome, RouteEntry}
use amneziawg_windows_client.Routes.Cleanup.{IsActive}
use amneziawg_windows_client.Routes.RouteLaws.{IsGood, IsInstalled}

-- The domain's name in the form that the handler uses.
abbrev pub query_name : Question → Text
query_name q = trim_suffix (to_lower q.name) (codes ".")

-- The way of the domain by the user's rules.
abbrev pub way_of : Proxy → Question → RouteTarget
way_of p q = decide p.list_mode p.rules (query_name q)

-- The map holds an entry of the target for the IPv4 address of an A record, which goes by the
-- interface, unless the address is one of the others.
abbrev pub RoutedBy : (ℕ → Bool) → ℕ → RouteTarget → RouteManager → Option Ip × ℕ → Type 0
RoutedBy other luid target m (some (v4 ip), ttl) =
    (e : RouteEntry) × (lookup ip m.route_entries ≡ some (some e))
    × (e.target ≡ target)
    × (other ip ≡ false → e.luid ≡ luid)
RoutedBy other luid target m (_, ttl) = Unit

IsRouted-by :
    (other : ℕ → Bool) (luid : ℕ) (target : RouteTarget) (m : RouteManager) (r : Option Ip × ℕ)
    → AllGoBy other target luid m
    → IsRouted target m r
    → RoutedBy other luid target m r
IsRouted-by other luid target m (some (v4 ip), ttl) a h =
    (h.0, h.1, h.2, lookup-All (GoesBy other luid) ip m.route_entries h.1 a.0)
IsRouted-by other luid target m (some (v6 ip), ttl) a h = tt
IsRouted-by other luid target m (none, ttl) a h = tt

module _ (net : NetText) (client : DnsClient) (sys : RouteTable) (type_name : ℕ → Text) where
  open sys use {Table}

  -- No panic, and if the reply is an upstream server's response, every IPv4 address in it is routed.
  abbrev pub FullyRouted :
      (ℕ → Bool) → ℕ → RouteTarget → Option (Handled net client sys type_name) → Type 0
  FullyRouted other luid target none = ⊥
  FullyRouted other luid target (some (m, t, forwarded resp, entry, asked)) =
      All (RoutedBy other luid target m) (a_records resp.answers)
  FullyRouted other luid target (some (m, t, _, entry, asked)) = Unit

  module _ (other : ℕ → Bool) (luid : ℕ) (target : RouteTarget) where
    strict_reply-FullyRouted :
        (m : RouteManager) (mode : DomainRoutingMode) (resp : Message) (entry : DnsLogEntry)
        (asked : List Exchange) (o : Option (Outcome sys))
        → mode ≡ strict
        → AllRouted sys target m (a_records resp.answers) none o
        → LeavesGoing sys other target luid o
        → FullyRouted other luid target
            (reply_after_routes net client sys type_name mode resp entry asked o)
    strict_reply-FullyRouted m mode resp entry asked none e a k = absurd a
    strict_reply-FullyRouted m mode resp entry asked (some (m', t, none)) e a k =
        All-map (λ r. IsRouted-by other luid target m' r k) (a_records resp.answers) a.1
    strict_reply-FullyRouted m mode resp entry asked (some (m', t, some why)) e a k = rw e tt

    strict-installs :
        (mode : DomainRoutingMode) (later : RouteManager)
        → mode ≡ strict
        → IsActive later
        → IsInstalled target
        → installs_routes mode later.active_tunnel target ≡ true
    unfolding installs_routes
    strict-installs mode later s a i = by target i
      where
        by :
            (way : RouteTarget)
            → IsInstalled way
            → installs_routes mode later.active_tunnel way ≡ true
        by tunnel i = rw s (ap not a.1)
        by direct i = rw s (ap not a.1)
        by block i = absurd i
        by none_target i = absurd i

    handle_reply-FullyRouted :
        (mode : DomainRoutingMode) (later : RouteManager) (now : ℕ) (t : Table)
        (entry : DnsLogEntry) (r : Asked client)
        → mode ≡ strict
        → IsActive later
        → IsInstalled target
        → IsGood later
        → AllGoBy other target luid later
        → FullyRouted other luid target
            (handle_reply net client sys type_name mode later target now t entry r)
    handle_reply-FullyRouted mode later now t entry (no_answer why, asked) s a i g k = tt
    handle_reply-FullyRouted mode later now t entry (answered resp, asked) s a i g k =
        let found = a_records resp.answers in
        rw (strict-installs mode later s a i) (
          strict_reply-FullyRouted later mode resp _ asked _ s
            (apply_routes-AllRouted sys later found target now t none a i g)
            (apply_routes-LeavesGoing sys other target luid later found now t none i g k))

  asked-FullyRouted :
      (other : ℕ → Bool) (p : Proxy) (later : RouteManager) (req : client.Request)
      (target : RouteTarget) (now : ℕ) (t : Table) (entry : DnsLogEntry) (us : List Text)
      → p.routes.mode ≡ strict
      → IsActive later
      → IsInstalled target
      → IsGood later
      → AllGoBy other target (interface_of later target) later
      → FullyRouted other
          (interface_of later target)
          target
          (ask_upstreams net client sys type_name p later req target now t entry us)
  asked-FullyRouted other p later req target now t entry [] s a i g k = tt
  asked-FullyRouted other p later req target now t entry (u ∷ us) s a i g k =
      handle_reply-FullyRouted other (interface_of later target) target p.routes.mode later now t
        entry _ s a i g k

  resolve-FullyRouted :
      (other : ℕ → Bool) (p : Proxy) (later : RouteManager) (req : client.Request)
      (target : RouteTarget) (now : ℕ) (t : Table) (entry : DnsLogEntry)
      → p.routes.mode ≡ strict
      → IsActive later
      → target ≢ none_target
      → IsGood later
      → All (GoesBy other (interface_of later target)) later.route_entries
      → FullyRouted other
          (interface_of later target)
          target
          (resolve net client sys type_name p later req target now t entry)
  resolve-FullyRouted other p later req block now t entry s a h g k = tt
  resolve-FullyRouted other p later req none_target now t entry s a h g k = absurd (h refl)
  resolve-FullyRouted other p later req tunnel now t entry s a h g k =
      asked-FullyRouted other p later req tunnel now t entry _ s a tt g (k, refl)
  resolve-FullyRouted other p later req direct now t entry s a h g k =
      asked-FullyRouted other p later req direct now t entry _ s a tt g (k, refl)

  answer_name-FullyRouted :
      (other : ℕ → Bool) (p : Proxy) (later : RouteManager) (req : client.Request) (q : Question)
      (now : ℕ) (t : Table) (local : Option Ip)
      → p.routes.mode ≡ strict
      → IsActive later
      → way_of p q ≢ none_target
      → IsGood later
      → All (GoesBy other (interface_of later (way_of p q))) later.route_entries
      → FullyRouted other (interface_of later (way_of p q)) (way_of p q) (
          answer_name net client sys type_name p later req q now t
            (entry_for net client sys type_name q)
            local)
  unfolding answer_name
  answer_name-FullyRouted other p later req q now t (some ip) s a h g k = tt
  answer_name-FullyRouted other p later req q now t none s a h g k =
      resolve-FullyRouted other p later req (way_of p q) now t _ s a h g k

  -- A query in strict mode for a domain that the rules send through the tunnel or past it, where a
  -- tunnel is active and the mode is not off when the servers have answered: it does not panic, and an
  -- upstream server's response reaches the client only if the map holds, for every IPv4 address in it,
  -- an entry for the way of the domain. The entry goes by the interface of that way, unless its address
  -- is among those (`other`) whose entries went by another interface before.
  pub handle_dns_query-FullyRouted :
      (other : ℕ → Bool) (p : Proxy) (later : RouteManager) (req : client.Request) (q : Question)
      (now : ℕ) (t : Table)
      → p.routes.mode ≡ strict
      → IsActive later
      → way_of p q ≢ none_target
      → IsGood later
      → All (GoesBy other (interface_of later (way_of p q))) later.route_entries
      → FullyRouted other
          (interface_of later (way_of p q))
          (way_of p q)
          (handle_dns_query net client sys type_name p later req (some (some q)) now t)
  unfolding handle_dns_query
  handle_dns_query-FullyRouted other p later req q now t s a h g k =
      if_both (FullyRouted other (interface_of later (way_of p q)) (way_of p q))
        (q.qtype == type_aaaa && p.disable_ipv6) tt
        (answer_name-FullyRouted other p later req q now t _ s a h g k)

  -- What the program writes by itself where the domain is blocked.
  abbrev pub blocked_reply : Proxy → Question → Written
  blocked_reply p q =
      if q.qtype == type_aaaa && p.disable_ipv6
      then authoritative []
      else elim (local_address net client sys type_name (query_name q) p.local_records) [
        | none ↦ set_rcode name_error
        | some ip ↦ authoritative (local_answers ip q.qtype)
      ]

  -- The manager and the routing table are as they were, this is written, and no server was asked.
  abbrev pub IsRefused :
      RouteManager → Table → Written → Option (Handled net client sys type_name) → Type 0
  IsRefused m t written none = ⊥
  IsRefused m t written (some (m', t', written', entry, asked)) =
      (m' ≡ m) × (t' ≡ t) × (written' ≡ written) × (asked ≡ [])

  answer_name-IsRefused :
      (p : Proxy) (later : RouteManager) (req : client.Request) (q : Question) (now : ℕ) (t : Table)
      (entry : DnsLogEntry) (local : Option Ip)
      → decide p.list_mode p.rules entry.domain ≡ block
      → IsRefused p.routes t
          (elim local [
            | none ↦ set_rcode name_error
            | some ip ↦ authoritative (local_answers ip q.qtype)
          ])
          (answer_name net client sys type_name p later req q now t entry local)
  unfolding answer_name
  answer_name-IsRefused p later req q now t entry (some ip) h = (refl, refl, refl, refl)
  answer_name-IsRefused p later req q now t entry none h = rw h (refl, refl, refl, refl)

  -- A query for a domain that a blocking rule catches is not passed on: no exchange with an upstream
  -- server is made, the manager and the routing table stay as they are, and the reply is the code for a
  -- name that does not exist, unless it is a query for IPv6 with IPv6 switched off, which is answered
  -- with no addresses, or the name has a local record with an address, which is answered with that.
  pub handle_dns_query-IsRefused :
      (p : Proxy) (later : RouteManager) (req : client.Request) (q : Question) (now : ℕ) (t : Table)
      → is_nil (normalize_domain (query_name q)) ≡ false
      → Caught (normalize_domain (query_name q)) p.rules.blocks
      → IsRefused p.routes t
          (blocked_reply p q)
          (handle_dns_query net client sys type_name p later req (some (some q)) now t)
  unfolding handle_dns_query
  handle_dns_query-IsRefused p later req q now t h c =
      let blocked =
        decide-blocked p.list_mode p.rules (query_name q) h
          ((match_domain_iff (normalize_domain (query_name q)) p.rules.blocks).1 c) in
      refused (q.qtype == type_aaaa && p.disable_ipv6)
        (answer_name-IsRefused p later req q now t entry local blocked)
    where
      entry : DnsLogEntry
      entry = entry_for net client sys type_name q

      local : Option Ip
      local = local_address net client sys type_name (query_name q) p.local_records

      by_record : Written
      by_record = elim local [
        | none ↦ set_rcode name_error
        | some ip ↦ authoritative (local_answers ip q.qtype)
      ]

      refused :
          (without_ipv6 : Bool)
          → IsRefused p.routes t by_record
              (answer_name net client sys type_name p later req q now t entry local)
          → IsRefused p.routes t (if without_ipv6 then authoritative [] else by_record) (
              if without_ipv6
              then some (
                p.routes,
                t,
                authoritative [],
                record entry { target = codes "blocked (ipv6)" },
                [],
              )
              else answer_name net client sys type_name p later req q now t entry local)
      refused true k = (refl, refl, refl, refl)
      refused false k = k
