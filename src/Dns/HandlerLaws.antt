-- ===== src/Dns/HandlerLaws.antt =====
-- manager/domainrouting_dnsproxy.go: what a DNS query does to the routes.
use amneziawg_windows_client.Common.{
  List, [], ◌∷◌, ◌≡◌, refl, Option, none, some, if_both, ◌≢◌, ℕ, sym, ◌&&◌, ◌==◌, arith,
}
use amneziawg_windows_client.Common.Text.{Text}
use amneziawg_windows_client.Dns.{NetText}
use amneziawg_windows_client.Dns.Handler.{
  Proxy, installs_routes, a_records, handle_reply, is_strict, Handled, reply_after_routes, resolve,
  ask_upstreams, entry_for, handle_dns_query, Question, answer_name, type_aaaa,
}
use amneziawg_windows_client.Dns.Query.{DnsClient, answered, Message, no_answer, Asked, Exchange}
use amneziawg_windows_client.DnsLog.{DnsLogEntry}
use amneziawg_windows_client.DomainRouting.{
  block, none_target, direct, tunnel, DomainRoutingMode, RouteTarget, decide,
}
use amneziawg_windows_client.DomainRouting.Loopback.{Ip}
use amneziawg_windows_client.Routes.{
  RouteTable, apply_routes, Outcome, RouteManager, add_route_for_ip,
}
use amneziawg_windows_client.Routes.RouteLaws.{
  IsGood, KeepsGood, add_route_for_ip-IsGood, IsInstalled,
}
use mathlib.Core.Path.{subst}

module _ (sys : RouteTable) where
  open sys use {Table}

  pub Outcome-cases :
      (o : Option (Outcome sys))
      → KeepsGood sys o
      → (m : RouteManager) × (t : Table) × (err : Option Text) × (o ≡ some (m, t, err)) × IsGood m
  Outcome-cases none g = absurd g
  Outcome-cases (some (m, t, err)) g = (m, t, err, refl, g)

  -- One record of a response.
  pub apply_routes_step :
      (m m' : RouteManager) (ip : Option Ip) (ttl : ℕ) (rest : List (Option Ip × ℕ))
      (target : RouteTarget) (now : ℕ) (t t' : Table) (err err' : Option Text)
      → add_route_for_ip sys m ip target ttl now t ≡ some (m', t', err')
      → apply_routes sys m ((ip, ttl) ∷ rest) target now t err
        ≡ apply_routes sys m' rest target now t' (elim err [ none ↦ err' | some e ↦ some e ])
  unfolding apply_routes
  apply_routes_step m m' ip ttl rest target now t t' err err' e = ground (arith, e)

  pub apply_routes-IsGood :
      (m : RouteManager) (found : List (Option Ip × ℕ)) (target : RouteTarget) (now : ℕ) (t : Table)
      (err : Option Text)
      → IsInstalled target
      → IsGood m
      → KeepsGood sys (apply_routes sys m found target now t err)
  unfolding apply_routes
  apply_routes-IsGood m [] target now t err i g = g
  apply_routes-IsGood m ((ip, ttl) ∷ rest) target now t err i g =
      let (m', t', err', e, g') =
        Outcome-cases (add_route_for_ip sys m ip target ttl now t)
          (add_route_for_ip-IsGood sys m ip target ttl now t i g) in
      subst (KeepsGood sys) (sym (apply_routes_step m m' ip ttl rest target now t t' err err' e))
        (apply_routes-IsGood m' rest target now t' _ i g')

module _ (net : NetText) (client : DnsClient) (sys : RouteTable) (type_name : ℕ → Text) where
  open sys use {Table}

  -- No panic, and the map of routes is good afterwards.
  abbrev pub LeavesGood : Option (Handled net client sys type_name) → Type 0
  LeavesGood none = ⊥
  LeavesGood (some (m, t, written, entry, asked)) = IsGood m

  reply_after_routes-IsGood :
      (mode : DomainRoutingMode) (resp : Message) (entry : DnsLogEntry) (asked : List Exchange)
      (o : Option (Outcome sys))
      → KeepsGood sys o
      → LeavesGood (reply_after_routes net client sys type_name mode resp entry asked o)
  reply_after_routes-IsGood mode resp entry asked none g = absurd g
  reply_after_routes-IsGood mode resp entry asked (some (m, t, none)) g = g
  reply_after_routes-IsGood mode resp entry asked (some (m, t, some why)) g =
      if_both LeavesGood (is_strict mode) g g

  -- A response for one of the two ways.
  routed-IsGood :
      (mode : DomainRoutingMode) (later : RouteManager) (target : RouteTarget) (now : ℕ) (t : Table)
      (entry : DnsLogEntry) (resp : Message) (asked : List Exchange)
      → IsInstalled target
      → IsGood later
      → LeavesGood (
          handle_reply net client sys type_name mode later target now t entry
            (answered resp, asked))
  routed-IsGood mode later target now t entry resp asked i g =
      if_both LeavesGood (installs_routes mode later.active_tunnel target)
        (reply_after_routes-IsGood mode resp _ asked _
          (apply_routes-IsGood sys later (a_records resp.answers) target now t none i g))
        g

  handle_reply-IsGood :
      (mode : DomainRoutingMode) (later : RouteManager) (target : RouteTarget) (now : ℕ) (t : Table)
      (entry : DnsLogEntry) (r : Asked client)
      → target ≢ block
      → IsGood later
      → LeavesGood (handle_reply net client sys type_name mode later target now t entry r)
  unfolding installs_routes
  handle_reply-IsGood mode later target now t entry (no_answer why, asked) h g = g
  handle_reply-IsGood mode later none_target now t entry (answered resp, asked) h g = g
  handle_reply-IsGood mode later block now t entry (answered resp, asked) h g = absurd (h refl)
  handle_reply-IsGood mode later tunnel now t entry (answered resp, asked) h g =
      routed-IsGood mode later tunnel now t entry resp asked tt g
  handle_reply-IsGood mode later direct now t entry (answered resp, asked) h g =
      routed-IsGood mode later direct now t entry resp asked tt g

  -- What is asked of the chosen servers, where the domain is not blocked.
  asked-IsGood :
      (p : Proxy) (later : RouteManager) (req : client.Request) (target : RouteTarget) (now : ℕ)
      (t : Table) (entry : DnsLogEntry) (us : List Text)
      → target ≢ block
      → IsGood p.routes
      → IsGood later
      → LeavesGood (ask_upstreams net client sys type_name p later req target now t entry us)
  asked-IsGood p later req target now t entry [] h g g' = g
  asked-IsGood p later req target now t entry (u ∷ us) h g g' =
      handle_reply-IsGood p.routes.mode later target now t entry _ h g'

  resolve-IsGood :
      (p : Proxy) (later : RouteManager) (req : client.Request) (target : RouteTarget) (now : ℕ)
      (t : Table) (entry : DnsLogEntry)
      → IsGood p.routes
      → IsGood later
      → LeavesGood (resolve net client sys type_name p later req target now t entry)
  resolve-IsGood p later req block now t entry g g' = g
  resolve-IsGood p later req none_target now t entry g g' =
      asked-IsGood p later req none_target now t entry _ (λ e. cc) g g'
  resolve-IsGood p later req tunnel now t entry g g' =
      asked-IsGood p later req tunnel now t entry _ (λ e. cc) g g'
  resolve-IsGood p later req direct now t entry g g' =
      asked-IsGood p later req direct now t entry _ (λ e. cc) g g'

  answer_name-IsGood :
      (p : Proxy) (later : RouteManager) (req : client.Request) (q : Question) (now : ℕ) (t : Table)
      (entry : DnsLogEntry) (local : Option Ip)
      → IsGood p.routes
      → IsGood later
      → LeavesGood (answer_name net client sys type_name p later req q now t entry local)
  unfolding answer_name
  answer_name-IsGood p later req q now t entry (some ip) g g' = g
  answer_name-IsGood p later req q now t entry none g g' =
      resolve-IsGood p later req (decide p.list_mode p.rules entry.domain) now t _ g g'

  -- A request that is not nil, with a question or without one, never makes the program panic, whatever is
  -- asked and whatever the servers, the local records and the routing table answer. The map of routes
  -- is left without nil entries, and its entries are about their keys, an interface and one of the two
  -- ways, if that held when the query came and when the servers had answered.
  pub handle_dns_query-IsGood :
      (p : Proxy) (later : RouteManager) (req : client.Request) (q : Option Question) (now : ℕ)
      (t : Table)
      → IsGood p.routes
      → IsGood later
      → LeavesGood (handle_dns_query net client sys type_name p later req (some q) now t)
  unfolding handle_dns_query
  handle_dns_query-IsGood p later req none now t g g' = g
  handle_dns_query-IsGood p later req (some q) now t g g' =
      if_both LeavesGood (q.qtype == type_aaaa && p.disable_ipv6) g
        (answer_name-IsGood p later req q now t (entry_for net client sys type_name q) _ g g')
