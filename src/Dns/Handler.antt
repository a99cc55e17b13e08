-- ===== src/Dns/Handler.antt =====
-- manager/domainrouting_dnsproxy.go: handleDNSQuery, from the question to the reply, with the log
-- entry and the routes that it leaves.
--
-- A request is nil, or its first question where it has one. The handler reads the manager before it asks
-- the upstream servers, and again when their answer is there: other methods may take the mutex in the
-- meantime, so that these are two states. Before the exchange, and behind it, the reads and the routes
-- of one response are one step.
use amneziawg_windows_client.Common.{
  List, [], ◌∷◌, ◌++◌, Bool, true, false, not, Option, none, some, if◌then◌else◌, is_nil, ◌||◌,
  ◌&&◌, ◌==◌, ℕ,
}
use amneziawg_windows_client.Common.Text.{trim_suffix, codes, to_lower, Text}
use amneziawg_windows_client.Dns.{NetText, Resolver, pick_upstreams, dialer_for_target}
use amneziawg_windows_client.Dns.Query.{
  DnsClient, Message, a_record, answered, exchange_with_upstreams, Answer, no_answer, Asked,
  Exchange, other_record, aaaa_record,
}
use amneziawg_windows_client.DnsLog.{DnsLogEntry}
use amneziawg_windows_client.DomainRouting.{
  off, strict, dns_only, block, none_target, decide, DomainRoutingMode, route_target_to_string,
  DomainRoutingRules, DomainListMode, RouteTarget, DnsRouteMode,
}
use amneziawg_windows_client.DomainRouting.Loopback.{Ip, v4, v6}
use amneziawg_windows_client.LocalRecords.{lookup_local_dns}
use amneziawg_windows_client.Routes.{RouteTable, apply_routes, RouteManager, Outcome}

-- The fields of domainRoutingManager that a query depends on, and the text of the local records.
pub record Proxy : Type 0 where
  pub routes : RouteManager
  pub list_mode : DomainListMode
  pub rules : DomainRoutingRules
  pub disable_ipv6 : Bool
  pub dns_upstreams : List Text
  pub tun_dns : List Ip
  pub default_dns : List Ip
  pub cached_system_dns : List Ip
  pub dns_route_mode : DnsRouteMode
  pub tun_if_index : ℕ
  pub local_records : Text

unfoldable pub resolver_of : Proxy → Resolver
resolver_of p = record {
  dns_upstreams = p.dns_upstreams;
  active_tunnel = p.routes.active_tunnel;
  tun_dns = p.tun_dns;
  default_dns = p.default_dns;
  cached_system_dns = p.cached_system_dns;
  dns_route_mode = p.dns_route_mode;
  tun_if_index = p.tun_if_index;
  default_if_index = p.routes.default_route.if_index;
}

pub record Question : Type 0 where
  pub name : Text
  pub qtype : ℕ

pub data Rcode : Type 0 where
  format_error name_error server_failure : Rcode

-- What WriteMsg is given: a reply with a code and no answers, an authoritative one with answers of
-- this program, or an upstream server's response.
pub data Written : Type 0 where
  set_rcode : Rcode → Written
  authoritative : List Answer → Written
  forwarded : Message → Written

-- dns.TypeA, dns.TypeAAAA and dns.TypeANY
abbrev pub type_a : ℕ
type_a = 1

abbrev pub type_aaaa : ℕ
type_aaaa = 28

abbrev pub type_any : ℕ
type_any = 255

-- The answers of a local record, with its address and the type that is asked for.
unfoldable pub local_answers : Ip → ℕ → List Answer
local_answers (v4 a) qtype =
    if qtype == type_a || qtype == type_any then a_record (some (v4 a)) 300 ∷ [] else []
local_answers (v6 a) qtype =
    if qtype == type_aaaa || qtype == type_any then aaaa_record (some (v6 a)) ∷ [] else []

-- The A records with their TTLs, over which applyRoutesFromResponse runs.
unfoldable pub a_records : List Answer → List (Option Ip × ℕ)
a_records [] = []
a_records (a_record ip ttl ∷ rest) = (ip, ttl) ∷ a_records rest
a_records (_ ∷ rest) = a_records rest

-- IP.String, whose text for a nil address is "<nil>".
abbrev pub text_of : (Ip → Text) → Option Ip → Text
text_of string none = codes "<nil>"
text_of string (some ip) = string ip

unfoldable pub response_ips_of : (Ip → Text) → List Answer → List Text
response_ips_of string [] = []
response_ips_of string (a_record ip ttl ∷ rest) = text_of string ip ∷ response_ips_of string rest
response_ips_of string (aaaa_record ip ∷ rest) = text_of string ip ∷ response_ips_of string rest
response_ips_of string (other_record ∷ rest) = response_ips_of string rest

-- Routes are installed for a target, where the mode was relaxed or strict before the exchange, and a
-- tunnel is active behind it.
unfoldable pub installs_routes : DomainRoutingMode → Text → RouteTarget → Bool
installs_routes mode active none_target = false
installs_routes mode active _ = elim mode [
  | off ↦ false
  | dns_only ↦ false
  | _ ↦ not (is_nil active)
]

abbrev pub is_strict : DomainRoutingMode → Bool
is_strict strict = true
is_strict _ = false

module _ (net : NetText) (client : DnsClient) (sys : RouteTable) (type_name : ℕ → Text) where
  open sys use {Table}

  -- The exchanges with upstream servers are the last part.
  abbrev pub Handled : Type 0
  Handled = RouteManager × Table × Written × DnsLogEntry × List Exchange

  -- The end of handleDNSQuery, with what applyRoutesFromResponse came to.
  abbrev pub reply_after_routes :
      DomainRoutingMode
      → Message
      → DnsLogEntry
      → List Exchange
      → Option (Outcome sys)
      → Option Handled
  reply_after_routes mode resp entry asked none = none
  reply_after_routes mode resp entry asked (some (m, t, none)) =
      some (m, t, forwarded resp, entry, asked)
  reply_after_routes mode resp entry asked (some (m, t, some why)) =
      if is_strict mode
      then some (
        m,
        t,
        set_rcode server_failure,
        record entry { error = codes "route error: " ++ why },
        asked,
      )
      else some (m, t, forwarded resp, entry, asked)

  -- What handleDNSQuery does with what exchangeWithUpstreams gave, the manager as it is by then.
  abbrev pub handle_reply :
      DomainRoutingMode
      → RouteManager
      → RouteTarget
      → ℕ
      → Table
      → DnsLogEntry
      → Asked client
      → Option Handled
  handle_reply mode later target now t entry (no_answer why, asked) =
      some (later, t, set_rcode server_failure, record entry { error = why }, asked)
  handle_reply mode later target now t entry (answered resp, asked) =
      let ips = response_ips_of (net.ip_string) resp.answers in
      let entry' = record entry { response_ips = ips } in
      if installs_routes mode later.active_tunnel target
      then reply_after_routes mode resp entry' asked
          (apply_routes sys later (a_records resp.answers) target now t none)
      else some (later, t, forwarded resp, entry', asked)

  -- The query of the servers that pickUpstreams chose.
  abbrev pub ask_upstreams :
      Proxy
      → RouteManager
      → client.Request
      → RouteTarget
      → ℕ
      → Table
      → DnsLogEntry
      → List Text
      → Option Handled
  ask_upstreams p later req target now t entry [] =
      some
        (p.routes, t, set_rcode server_failure, record entry { error = codes "no upstreams" }, [])
  ask_upstreams p later req target now t entry (u ∷ us) =
      handle_reply p.routes.mode later target now t entry
        (exchange_with_upstreams client req (u ∷ us) (dialer_for_target (resolver_of p) target))

  -- The part behind the local records, with the target decided.
  abbrev pub resolve :
      Proxy → RouteManager → client.Request → RouteTarget → ℕ → Table → DnsLogEntry → Option Handled
  resolve p later req block now t entry = some (
    p.routes,
    t,
    set_rcode name_error,
    record entry { error = codes "blocked (blacklisted)" },
    [],
  )
  resolve p later req target now t entry =
      ask_upstreams p later req target now t entry (pick_upstreams net (resolver_of p) target)

  -- The part behind the check of AAAA queries: local records, and then the upstream servers.
  unfoldable pub answer_name :
      Proxy
      → RouteManager
      → client.Request
      → Question
      → ℕ
      → Table
      → DnsLogEntry
      → Option Ip
      → Option Handled
  answer_name p later req q now t entry (some ip) = some (
    p.routes,
    t,
    authoritative (local_answers ip q.qtype),
    record entry {
      target = codes "local";
      response_ips = lookup_local_dns entry.domain p.local_records ∷ [];
    },
    [],
  )
  answer_name p later req q now t entry none =
      let target = decide p.list_mode p.rules entry.domain in
      resolve p later req target now t (record entry { target = route_target_to_string target })

  -- The address of a local record: none where there is no record, or its text is no address.
  unfoldable pub local_address : Text → Text → Option Ip
  local_address name stored =
      let local_ip = lookup_local_dns name stored in
      if is_nil local_ip then none else net.parse_ip local_ip

  abbrev pub entry_for : Question → DnsLogEntry
  entry_for q = record {
    domain = trim_suffix (to_lower q.name) (codes ".");
    query_type = type_name q.qtype;
    target = [];
    response_ips = [];
    error = [];
  }

  -- handleDNSQuery behind the check of the request.
  unfoldable pub handle_question :
      Proxy → RouteManager → client.Request → Question → ℕ → Table → Option Handled
  unfolding answer_name local_address
  handle_question p later req q now t =
      let entry = entry_for q in
      if q.qtype == type_aaaa && p.disable_ipv6
      then some
          (p.routes, t, authoritative [], record entry { target = codes "blocked (ipv6)" }, [])
      else answer_name p later req q now t entry (local_address entry.domain p.local_records)

  -- handleDNSQuery of a request: nil, without a question, or with one. `p` is the manager before the
  -- exchange with the upstream servers; `later`, `now` and the table are behind it. `none` stands for a
  -- panic: SetRcode reads the nil request.
  unfoldable pub handle_dns_query :
      Proxy → RouteManager → client.Request → Option (Option Question) → ℕ → Table → Option Handled
  unfolding handle_question
  handle_dns_query p later req none now t = none
  handle_dns_query p later req (some none) now t = some (
    p.routes,
    t,
    set_rcode format_error,
    record {
      domain = [];
      query_type = [];
      target = [];
      response_ips = [];
      error = codes "empty question";
    },
    [],
  )
  handle_dns_query p later req (some (some q)) now t = handle_question p later req q now t
