-- ===== src/Dns/Query.antt =====
-- manager/domainrouting_dnsproxy.go: a DNS query from the request to the reply, with the log entry and
-- the routes that it leaves.
use amneziawg_windows_client.Common.{
  List, [], ◌∷◌, ◌++◌, Bool, true, false, Option, none, some, if◌then◌else◌, ℕ,
}
use amneziawg_windows_client.Common.Text.{Text, codes}
use amneziawg_windows_client.DomainRouting.Loopback.{Ip}

-- The resource records that the program tells apart; the address of a record is none where it is nil.
pub data Answer : Type 0 where
  a_record : Option Ip → ℕ → Answer
  aaaa_record : Option Ip → Answer
  other_record : Answer

-- dns.Msg as a response, as far as it is read.
pub record Message : Type 0 where
  pub truncated : Bool
  pub answers : List Answer

pub data Reply : Type 0 where
  answered : Message → Reply
  no_answer : Text → Reply

-- An exchange that was made: the server, the interface that the dialer binds to, and whether it was over
-- TCP.
pub record Exchange : Type 0 where
  pub upstream : Text
  pub dialer : Option ℕ
  pub tcp : Bool

-- The client of the package dns during one query: dialing UDP through an interface, which may fail,
-- an exchange over that connection, and an exchange by the client itself, over TCP or UDP.
pub record DnsClient : Type 1 where
  pub Request : Type 0
  pub dial_udp : ℕ → Text → Option Text
  pub exchange_with_conn : Request → ℕ → Text → Reply
  pub exchange : Request → Text → Option ℕ → Bool → Reply

module _ (client : DnsClient) where
  open client use {Request, dial_udp, exchange_with_conn, exchange}

  -- A reply with the exchanges that were made for it, the first first.
  abbrev pub Asked : Type 0
  Asked = Reply × List Exchange

  abbrev pub exchange_of : Text → Option ℕ → Bool → List Exchange
  exchange_of upstream dialer tcp = record { upstream = upstream; dialer = dialer; tcp = tcp } ∷ []

  -- exchangeDNS; the dialer is the interface that dialerForTarget binds to.
  unfoldable pub exchange_dns : Request → Text → Option ℕ → Bool → Asked
  exchange_dns req upstream dialer true =
      (exchange req upstream dialer true, exchange_of upstream dialer true)
  exchange_dns req upstream none false =
      (exchange req upstream none false, exchange_of upstream none false)
  exchange_dns req upstream (some if_index) false = elim (dial_udp if_index upstream) [
    | some why ↦ (no_answer why, [])
    | none ↦ (exchange_with_conn req if_index upstream, exchange_of upstream (some if_index) false)
  ]

  -- The second exchange of a round, over TCP, where the first response is truncated.
  abbrev pub behind_udp : Request → Option ℕ → Text → Asked → Asked
  behind_udp req dialer upstream (no_answer why, asked) = (no_answer why, asked)
  behind_udp req dialer upstream (answered resp, asked) =
      let (again, more) = exchange_dns req upstream dialer true in
      if resp.truncated then (again, asked ++ more) else (answered resp, asked)

  -- One round of exchangeWithUpstreams: over UDP, and again over TCP if the response is truncated.
  unfoldable pub ask : Request → Option ℕ → Text → Asked
  ask req dialer upstream = behind_udp req dialer upstream (exchange_dns req upstream dialer false)

  -- The loop of exchangeWithUpstreams; `last` is lastErr, with the exchanges so far.
  unfoldable pub exchange_loop :
      Request → Option ℕ → List Text → Option Text → List Exchange → Asked
  exchange_loop req dialer [] last asked =
      (no_answer (elim last [ none ↦ codes "no upstream response" | some why ↦ why ]), asked)
  exchange_loop req dialer (upstream ∷ rest) last asked =
      let (reply, more) = ask req dialer upstream in
      elim reply [
        | answered resp ↦ (answered resp, asked ++ more)
        | no_answer why ↦ exchange_loop req dialer rest (some why) (asked ++ more)
      ]

  unfoldable pub exchange_with_upstreams : Request → List Text → Option ℕ → Asked
  unfolding exchange_loop
  exchange_with_upstreams req upstreams dialer = exchange_loop req dialer upstreams none []
