-- ===== src/Dns/QueryLaws.antt =====
-- manager/domainrouting_dnsproxy.go: which upstream server's response is taken.
use amneziawg_windows_client.Common.{
  List, [], ◌∷◌, ◌++◌, ◌≡◌, refl, ap, Option, none, some, All, inl, inr, ◌⊎◌, ℕ, sym, true, false,
  if_cases, arith,
}
use amneziawg_windows_client.Common.Text.{Text}
use amneziawg_windows_client.Dns.Query.{
  DnsClient, exchange_with_upstreams, answered, Message, Reply, no_answer, ask, exchange_loop,
  exchange_dns, Asked, behind_udp, Exchange,
}

module _ (client : DnsClient) (req : client.Request) (dialer : Option ℕ) where
  -- What the server says over UDP: over a connection through the dialer's interface, where that can be
  -- dialed, and by the client itself without a dialer.
  abbrev pub over_udp : Text → Reply
  over_udp upstream = elim dialer [
    | none ↦ client.exchange req upstream none false
    | some if_index ↦ elim (client.dial_udp if_index upstream) [
      | some why ↦ no_answer why
      | none ↦ client.exchange_with_conn req if_index upstream
    ]
  ]

  -- What it says over TCP.
  abbrev pub over_tcp : Text → Reply
  over_tcp upstream = client.exchange req upstream dialer true

  -- The server gives this response: over UDP, whole, or over TCP after a truncated one over UDP.
  abbrev pub Gives : Text → Message → Type 0
  Gives upstream resp =
      ((over_udp upstream ≡ answered resp) × (resp.truncated ≡ false))
      ⊎ ((cut : Message) × (over_udp upstream ≡ answered cut)
          × (cut.truncated ≡ true)
          × (over_tcp upstream ≡ answered resp))

  -- The server gives no response over UDP, or a truncated one and then none over TCP.
  abbrev pub Fails : Text → Type 0
  Fails upstream =
      ((why : Text) × (over_udp upstream ≡ no_answer why))
      ⊎ ((cut : Message) × (why : Text) × (over_udp upstream ≡ answered cut)
          × (cut.truncated ≡ true)
          × (over_tcp upstream ≡ no_answer why))

  exchange_dns_udp :
      (upstream : Text) → (exchange_dns client req upstream dialer false).0 ≡ over_udp upstream
  unfolding exchange_dns
  exchange_dns_udp upstream = udp dialer
    where
      udp :
          (d : Option ℕ)
          → (exchange_dns client req upstream d false).0 ≡ elim d [
            | none ↦ client.exchange req upstream none false
            | some if_index ↦ elim (client.dial_udp if_index upstream) [
              | some why ↦ no_answer why
              | none ↦ client.exchange_with_conn req if_index upstream
            ]
          ]
      udp none = refl
      udp (some if_index) = ground arith

  exchange_dns_tcp :
      (upstream : Text) → (exchange_dns client req upstream dialer true).0 ≡ over_tcp upstream
  unfolding exchange_dns
  exchange_dns_tcp upstream = refl

  -- How a round ends.
  abbrev Ends : Text → Reply → Type 0
  Ends upstream (answered resp) = Gives upstream resp
  Ends upstream (no_answer why) = Fails upstream

  tcp-Ends :
      (upstream : Text) (cut : Message) (r : Reply)
      → over_udp upstream ≡ answered cut
      → cut.truncated ≡ true
      → over_tcp upstream ≡ r
      → Ends upstream r
  tcp-Ends upstream cut (answered resp) e h k = inr (cut, e, h, k)
  tcp-Ends upstream cut (no_answer why) e h k = inr (cut, why, e, h, k)

  behind_udp-Ends :
      (upstream : Text) (first : Asked client)
      → over_udp upstream ≡ first.0
      → Ends upstream (behind_udp client req dialer upstream first).0
  behind_udp-Ends upstream (no_answer why, asked) e = inl (why, e)
  behind_udp-Ends upstream (answered cut, asked) e =
      if_cases (λ (r : Asked client). Ends upstream r.0) cut.truncated
        (λ h. tcp-Ends upstream cut _ e h (sym (exchange_dns_tcp upstream))) (λ h. inl (e, h))

  ask-Ends : (upstream : Text) → Ends upstream (ask client req dialer upstream).0
  unfolding ask
  ask-Ends upstream =
      behind_udp-Ends upstream (exchange_dns client req upstream dialer false)
        (sym (exchange_dns_udp upstream))

  -- A response is one that a server gives behind servers that all fail; an error means that all fail.
  abbrev pub IsFirst : List Text → Reply → Type 0
  IsFirst upstreams (answered resp) =
      (before : List Text) × (upstream : Text) × (after : List Text) × (upstreams
        ≡ before ++ upstream ∷ after)
      × All Fails before
      × Gives upstream resp
  IsFirst upstreams (no_answer why) = All Fails upstreams

  IsFirst-behind :
      (upstream : Text) (rest : List Text) (r : Reply)
      → Fails upstream
      → IsFirst rest r
      → IsFirst (upstream ∷ rest) r
  IsFirst-behind upstream rest (answered resp) f (before, u, after, e, failed, found) =
      (upstream ∷ before, u, after, ap (◌∷◌ upstream) e, (f, failed), found)
  IsFirst-behind upstream rest (no_answer why) f failed = (f, failed)

  -- One round and the rounds behind it.
  round-IsFirst :
      (upstream : Text) (rest : List Text) (asked : List Exchange) (first : Asked client)
      → Ends upstream first.0
      → ((last : Option Text) (before : List Exchange)
          → IsFirst rest (exchange_loop client req dialer rest last before).0)
      → (let ended : Asked client = elim first.0 [
        | answered resp ↦ (answered resp, asked ++ first.1)
        | no_answer why ↦ exchange_loop client req dialer rest (some why) (asked ++ first.1)
      ] in
          IsFirst (upstream ∷ rest) ended.0)
  round-IsFirst upstream rest asked (answered resp, more) e ih = ([], upstream, rest, refl, tt, e)
  round-IsFirst upstream rest asked (no_answer why, more) e ih =
      IsFirst-behind upstream rest _ e (ih (some why) (asked ++ more))

  exchange_loop-IsFirst :
      (upstreams : List Text) (last : Option Text) (asked : List Exchange)
      → IsFirst upstreams (exchange_loop client req dialer upstreams last asked).0
  unfolding exchange_loop
  exchange_loop-IsFirst [] last asked = tt
  exchange_loop-IsFirst (upstream ∷ rest) last asked =
      round-IsFirst upstream rest asked (ask client req dialer upstream) (ask-Ends upstream)
        (exchange_loop-IsFirst rest)

  -- The response that is taken is that of the first server in the list that gives one, over UDP or,
  -- where that is truncated, over TCP; an error comes back exactly where no server gives one.
  pub exchange_with_upstreams-IsFirst :
      (upstreams : List Text)
      → IsFirst upstreams (exchange_with_upstreams client req upstreams dialer).0
  unfolding exchange_with_upstreams
  exchange_with_upstreams-IsFirst upstreams = exchange_loop-IsFirst upstreams none []
