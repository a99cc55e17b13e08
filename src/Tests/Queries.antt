-- ===== src/Tests/Queries.antt =====
-- manager/domainrouting_dnsproxy.go and manager/blocklist.go at concrete inputs.
use amneziawg_windows_client.Common.{
  List, refl, ◌≡◌, if◌then◌else◌, ℕ, some, none, true, [], ◌∷◌, false, inr, arith, ◌==◌, inl, ◌++◌,
  All,
}
use amneziawg_windows_client.Common.Text.{
  Text, ◌=ᵗ◌, lower_byte, has_suffix, is_space, trim_space, trim_suffix, to_lower, codes,
  has_prefix, split, equal_fold, trim_prefix, cut_byte,
}
use amneziawg_windows_client.Dns.{htonl, NetText}
use amneziawg_windows_client.Dns.Handler.{Proxy, handle_dns_query, Question}
use amneziawg_windows_client.Dns.HandlerLaws.{handle_dns_query-IsGood, LeavesGood}
use amneziawg_windows_client.Dns.Query.{
  DnsClient, exchange_dns, exchange_with_upstreams, ask, Message, no_answer, exchange_loop,
  a_record, answered,
}
use amneziawg_windows_client.Dns.QueryLaws.{IsFirst, exchange_with_upstreams-IsFirst}
use amneziawg_windows_client.Dns.StrictReply.{
  handle_dns_query-FullyRouted, way_of, FullyRouted, query_name, IsRefused,
  handle_dns_query-IsRefused, blocked_reply,
}
use amneziawg_windows_client.Dns.WayLaws.{interface_of}
use amneziawg_windows_client.DomainRouting.{
  strict, direct, whitelist, tunnel, route_direct, match_domain, decide, normalize_domain,
}
use amneziawg_windows_client.DomainRouting.Loopback.{v4, v6}
use amneziawg_windows_client.DomainRouting.RuleLaws.{Caught}
use amneziawg_windows_client.LocalRecords.{
  record_domain, save_local_records, parse_item, load_local_records, LocalDnsRecord, find_record,
  parse_items, lookup_local_dns, remove_local_dns_record, saved, add_local_dns_record,
}
use amneziawg_windows_client.LocalRecords.LookupLaws.{
  lookup-add_local_dns_record, lookup-remove_local_dns_record,
}
use amneziawg_windows_client.LocalRecords.SavedLaws.{load-save_local_records, IsStored}
use amneziawg_windows_client.Routes.{RouteTable, added, RouteEntry, RouteManager}

-- 9.9.9.9 as a number.
abbrev response : Message
response = record { truncated = false; answers = a_record (some (v4 151587081)) 60 ∷ [] }

-- A network in which only the server `two:53` answers, and only at interface 12.
abbrev network_client : DnsClient
network_client = record {
  Request = Text;
  dial_udp = λ if_index upstream. if if_index == 12 then none else some (codes "no route");
  exchange_with_conn = λ req if_index upstream.
      if upstream =ᵗ codes "two:53" then answered response else no_answer (codes "timeout");
  exchange = λ req upstream dialer tcp. no_answer (codes "timeout");
}

abbrev servers : List Text
servers = codes "one:53" ∷ codes "two:53" ∷ []

exchange_with_upstreams-IsFirst_example :
    IsFirst network_client
      (codes "query")
      (some 12)
      servers
      (exchange_with_upstreams network_client (codes "query") servers (some 12)).0
exchange_with_upstreams-IsFirst_example =
    exchange_with_upstreams-IsFirst network_client (codes "query") (some 12) servers

exchange-second :
    exchange_with_upstreams network_client (codes "query") servers (some (htonl (htonl 12))) ≡ (
      answered response,
      record { upstream = codes "one:53"; dialer = some 12; tcp = false }
          ∷ record { upstream = codes "two:53"; dialer = some 12; tcp = false }
          ∷ [],
    )
unfolding exchange_with_upstreams exchange_loop ask exchange_dns htonl ◌=ᵗ◌
exchange-second = refl

-- Every IPv4 address is printed as `two`, and a text is the address of its first byte.
abbrev byte_net : NetText
byte_net = record {
  parse_ip = λ s. elim s [ [] ↦ none | c ∷ rest ↦ some (v4 c) ];
  ip_string = λ ip. elim ip [ v4 a ↦ codes "two" | v6 a ↦ codes "six" ];
  split_host_port = λ s. none;
  join_host_port = λ host port. host ++ (b':' ∷ port);
}

-- A routing table that takes every entry and never loses one.
abbrev entry_list : RouteTable
entry_list = record {
  Table = List RouteEntry;
  add = λ entry t. (added, entry ∷ t);
  delete = λ entry t. t;
  is_386 = true;
  rows = λ t. some [];
}

abbrev proxy : Proxy
proxy = record {
  routes = record {
    mode = strict;
    active_tunnel = codes "home";
    tun_luid = 7;
    default_route = record { luid = 3; if_index = 4; next_hop = some 1; metric = 25 };
    route_entries = [];
  };
  list_mode = whitelist;
  rules = record {
    domains = codes "example.com" ∷ [];
    tunnels = [];
    directs = [];
    blocks = codes "ads.org" ∷ [];
  };
  disable_ipv6 = true;
  dns_upstreams = [];
  tun_dns = v4 167772161 ∷ [];
  default_dns = v4 3232235777 ∷ [];
  cached_system_dns = [];
  dns_route_mode = route_direct;
  tun_if_index = 201326592;
  local_records = codes "nas.lan=P";
}

abbrev question : Text → Question
question name = record { name = name; qtype = 1 }

abbrev no_name : ℕ → Text
no_name qtype = []

-- While the servers were asked, 9.9.9.9 was resolved for another domain, past the tunnel.
abbrev later : RouteManager
later = record proxy.routes {
  route_entries =
      (
        151587081,
        some (record {
          ip = 151587081;
          target = direct;
          luid = 3;
          next_hop = 1;
          metric = 25;
          expires = 900;
        }),
      )
      ∷ [];
}

handle_dns_query-IsGood_example : LeavesGood byte_net network_client entry_list no_name (
    handle_dns_query byte_net network_client entry_list no_name proxy later
      (codes "query")
      (some (some (question (codes "www.Example.com."))))
      1000
      [])
handle_dns_query-IsGood_example =
    handle_dns_query-IsGood byte_net network_client entry_list no_name proxy later (codes "query")
      (some (question (codes "www.Example.com."))) 1000 [] tt ((refl, omega arith, tt), tt)

way-www : way_of proxy (question (codes "www.Example.com.")) ≡ tunnel
unfolding decide normalize_domain match_domain to_lower lower_byte trim_space trim_suffix is_space
    has_suffix ◌=ᵗ◌
way-www = refl

handle_dns_query-FullyRouted_example :
    FullyRouted byte_net network_client entry_list no_name
      (λ ip. ip == 151587081)
      (interface_of later (way_of proxy (question (codes "www.Example.com."))))
      (way_of proxy (question (codes "www.Example.com.")))
      (handle_dns_query byte_net network_client entry_list no_name proxy later
        (codes "query")
        (some (some (question (codes "www.Example.com."))))
        1000
        [])
handle_dns_query-FullyRouted_example =
    handle_dns_query-FullyRouted byte_net network_client entry_list no_name (λ ip. ip == 151587081)
      proxy later (codes "query") (question (codes "www.Example.com.")) 1000 [] refl (refl, refl)
      (λ e. cc (e, way-www)) ((refl, omega arith, tt), tt) (λ e. cc, tt)

ads-Caught :
    Caught (normalize_domain (query_name (question (codes "x.ads.org.")))) (codes "ads.org" ∷ [])
unfolding normalize_domain to_lower lower_byte trim_space trim_suffix is_space has_suffix ◌=ᵗ◌
ads-Caught = inl (inr (codes "x", refl))

handle_dns_query-IsRefused_example :
    IsRefused byte_net network_client entry_list no_name proxy.routes []
      (blocked_reply byte_net network_client entry_list no_name proxy
        (question (codes "x.ads.org.")))
      (handle_dns_query byte_net network_client entry_list no_name proxy later
        (codes "query")
        (some (some (question (codes "x.ads.org."))))
        1000
        [])
unfolding normalize_domain to_lower lower_byte trim_space trim_suffix is_space has_suffix ◌=ᵗ◌
handle_dns_query-IsRefused_example =
    handle_dns_query-IsRefused byte_net network_client entry_list no_name proxy later
      (codes "query") (question (codes "x.ads.org.")) 1000 [] refl ads-Caught

abbrev some_records : List LocalDnsRecord
some_records =
    record { domain = codes "nas.lan"; ip = codes "10.0.0.2" }
    ∷ record { domain = codes "six"; ip = codes "fe80::1" }
    ∷ []

some_records-IsStored : All IsStored some_records
unfolding is_space
some_records-IsStored = ((refl, refl, refl, refl), ((refl, refl, refl, refl), tt))

load-save_local_records_example :
    load_local_records (save_local_records some_records) ≡ some_records
load-save_local_records_example = load-save_local_records some_records some_records-IsStored

-- A record for a domain answers for the names below it.
lookup-below :
    lookup_local_dns (codes "Disk.nas.LAN.") (codes " nas.lan = 10.0.0.2 ;x") ≡ codes "10.0.0.2"
unfolding lookup_local_dns find_record record_domain load_local_records parse_items parse_item split
    trim_space to_lower lower_byte trim_prefix trim_suffix has_prefix has_suffix is_space cut_byte
    equal_fold ◌=ᵗ◌
lookup-below = refl

abbrev saved_text : Text
saved_text = codes "nas.lan=10.0.0.2;six=fe80::1"

-- What the saved text holds.
saved_text-IsStored : All IsStored (load_local_records saved_text)
unfolding load_local_records parse_items parse_item split trim_space is_space cut_byte
saved_text-IsStored = some_records-IsStored

lookup-add_local_dns_record_example :
    (s : Text) × (add_local_dns_record
        (λ ip. true)
        (codes "*.Disk.org.")
        (codes " 10.0.0.3")
        saved_text
      ≡ saved s)
    × (lookup_local_dns (codes "*.Disk.org.") s ≡ trim_space (codes " 10.0.0.3"))
unfolding load_local_records parse_items parse_item split trim_space is_space cut_byte record_domain
    to_lower lower_byte trim_prefix trim_suffix has_prefix has_suffix ◌=ᵗ◌
lookup-add_local_dns_record_example =
    lookup-add_local_dns_record (λ ip. true) (codes "*.Disk.org.") (codes " 10.0.0.3") saved_text
      saved_text-IsStored (refl, refl, refl, refl) refl (refl, (refl, tt))

lookup-remove_local_dns_record_example :
    (s : Text) × (remove_local_dns_record (codes "NAS.lan") saved_text ≡ saved s)
    × (lookup_local_dns (codes "NAS.lan") s ≡ [])
unfolding load_local_records parse_items parse_item split trim_space is_space cut_byte record_domain
    to_lower lower_byte trim_prefix trim_suffix has_prefix has_suffix ◌=ᵗ◌
lookup-remove_local_dns_record_example =
    lookup-remove_local_dns_record (codes "NAS.lan") saved_text saved_text-IsStored refl
      (refl, (refl, tt))
