-- ===== src/Router/Choice.antt =====
-- manager/domainrouting.go: which tunnel takes over, and which route is the default route.
use amneziawg_windows_client.Common.{
  ℕ, sym, not, false≢true, refl, ◌≤◌, ◌∷◌, [], Any, inl, ◌∙◌, ◌⊎◌, true, List, Bool, ◌||◌, arith,
  All, inr, false, ◌==◌, is_nil, any, Bool-cases, ◌≡◌, ◌&&◌, ◌<◌, All-map, if_cases,
}
use amneziawg_windows_client.Common.Text.{Text, equal_fold}
use amneziawg_windows_client.DomainRouting.Loopback.{Ip}
use amneziawg_windows_client.Router.{RouteRow, Answers, returned}
use amneziawg_windows_client.Router.Interfaces.{
  best_route, better_route, find_default_route_and_dns, no_route,
}
use amneziawg_windows_client.Router.Lifecycle.{pick_fallback, is_started}
use amneziawg_windows_client.Router.Sound.{fallible_both}
use amneziawg_windows_client.Routes.{DefaultRoute}
use amneziawg_windows_client.Tunnel.{TunnelState}
use mathlib.Core.Path.{subst}

-- A tunnel that may take over: the selected one, where one is selected, not the excluded one, started.
abbrev pub is_candidate : Text → Text → Text × TunnelState → Bool
is_candidate selected exclude (name, state) =
    (is_nil selected || equal_fold name selected)
    && not (equal_fold name exclude)
    && is_started state

-- The tunnel that takes over is a tracked one that may do so, if there is any, and otherwise there is
-- none.
pub pick_fallback_lem :
    (selected exclude : Text) (tracked : List (Text × TunnelState))
    → (any (is_candidate selected exclude) tracked ≡ false
        → pick_fallback selected exclude tracked ≡ [])
      × (any (is_candidate selected exclude) tracked ≡ true
          → Any
              (λ t.
                (t.0 ≡ pick_fallback selected exclude tracked)
                × (is_candidate selected exclude t ≡ true))
              tracked)
unfolding pick_fallback
pick_fallback_lem selected exclude [] = ((λ e. refl), λ e. absurd (false≢true e))
pick_fallback_lem selected exclude (t ∷ rest) =
    let later = pick_fallback_lem selected exclude rest in
    elim (Bool-cases (is_candidate selected exclude t)) [
      | inl e ↦
          let here : pick_fallback selected exclude (t ∷ rest) ≡ t.0 = ground (arith, e) in
          ((λ no. ground (arith, e, no)), λ yes. inl (sym here, e))
      | inr e ↦
          let skip : pick_fallback selected exclude (t ∷ rest)
              ≡ pick_fallback selected exclude rest =
            ground (arith, e) in
          let P : Text → Type 0 =
            λ c. Any (λ u. (u.0 ≡ c) × (is_candidate selected exclude u ≡ true)) rest in
          (
            (λ no. skip ∙ later.0 (ground (arith, e, no))),
            λ yes. inr (subst P (sym skip) (later.1 (ground (arith, e, yes)))),
          )
    ]

-- A route to everything, not through the tunnel and not a loopback route.
abbrev pub is_eligible : ℕ → RouteRow → Bool
is_eligible tun row = row.prefix_length == 0 && not (row.route.luid == tun || row.loopback)

abbrev IsBelow : DefaultRoute → ℕ → Type 0
IsBelow best metric = (0 < best.luid) × (best.metric ≤ metric)

better_route_lem :
    (tun : ℕ) (best : DefaultRoute) (row : RouteRow)
    → 0 < row.route.luid
    → let best' = better_route tun best row in
      (is_eligible tun row ≡ true → IsBelow best' row.route.metric)
      × (0 < best.luid → IsBelow best' best.metric)
      × ((best' ≡ best) ⊎ ((is_eligible tun row ≡ true) × (row.route ≡ best')))
better_route_lem tun best row h = ground arith

best_route_lem :
    (tun : ℕ) (best : DefaultRoute) (rows : List RouteRow)
    → All (λ (row : RouteRow). 0 < row.route.luid) rows
    → let chosen = best_route tun best rows in
      All (λ (row : RouteRow). is_eligible tun row ≡ true → IsBelow chosen row.route.metric) rows
      × (0 < best.luid → IsBelow chosen best.metric)
      × ((chosen ≡ best)
          ⊎ Any (λ (row : RouteRow). (is_eligible tun row ≡ true) × (row.route ≡ chosen)) rows)
unfolding best_route
best_route_lem tun best [] h = (tt, (λ e. (e, omega arith)), inl refl)
best_route_lem tun best (row ∷ rest) h =
    let best' = better_route tun best row in
    let chosen = best_route tun best' rest in
    let now = better_route_lem tun best row h.0 in
    let later = best_route_lem tun best' rest h.1 in
    let through : (metric : ℕ) → IsBelow best' metric → IsBelow chosen metric =
      λ metric below. let c = later.1 below.0 in (c.0, omega arith) in
    let P : DefaultRoute → Type 0 = λ b.
      (chosen ≡ b) ⊎ Any (λ (r : RouteRow). (is_eligible tun r ≡ true) × (r.route ≡ chosen)) rest in
    (
      ((λ e. through row.route.metric (now.0 e)), later.0),
      (λ e. through best.metric (now.1 e)),
      elim now.2 [
        | inl same ↦ elim (subst P same later.2) [ inl e ↦ inl e | inr found ↦ inr (inr found) ]
        | inr taken ↦ elim later.2 [
          | inl e ↦ inr (inl (taken.0, taken.1 ∙ sym e))
          | inr found ↦ inr (inr found)
        ]
      ],
    )

-- The default route that findDefaultRouteAndDNS finds in a table whose interfaces have an LUID is
-- one of the routes to everything that are neither the tunnel's nor loopback routes, and none of
-- those has a smaller metric; it is missing only where there is no such route.
pub find_default_route_and_dns_lem :
    (ans : Answers) (tun : ℕ) (rows : List RouteRow)
    → ans.forward_table ≡ returned rows
    → All (λ (row : RouteRow). 0 < row.route.luid) rows
    → let best = (find_default_route_and_dns ans tun).0 in
      All
        (λ (row : RouteRow).
          is_eligible tun row ≡ true → (0 < best.luid) × (best.metric ≤ row.route.metric))
        rows
      × ((best ≡ no_route)
          ⊎ Any (λ (row : RouteRow). (is_eligible tun row ≡ true) × (row.route ≡ best)) rows)
unfolding find_default_route_and_dns
find_default_route_and_dns_lem ans tun rows table h =
    let best = best_route tun no_route rows in
    let chosen = best_route_lem tun no_route rows h in
    let Claim : DefaultRoute × List Ip → Type 0 = λ (b, servers).
      All (λ (row : RouteRow). is_eligible tun row ≡ true → IsBelow b row.route.metric) rows
      × ((b ≡ no_route)
          ⊎ Any (λ (row : RouteRow). (is_eligible tun row ≡ true) × (row.route ≡ b)) rows) in
    let some_found : (servers : List Ip) → Claim (best, servers) =
      λ servers. (chosen.0, chosen.2) in
    let none_found : best.luid == 0 ≡ true → Claim (no_route, []) =
      λ zero. (All-map (λ row below e. let b = below e in ground arith) rows chosen.0, inl refl) in
    let found : Claim
        (find_default_route_and_dns (record ans { forward_table = returned rows }) tun) =
      if_cases Claim (best.luid == 0) none_found
        (λ e. fallible_both Claim (ans.dns_of best.luid) (λ why. some_found []) some_found) in
    subst (λ t. Claim (find_default_route_and_dns (record ans { forward_table = t }) tun))
      (sym table) found
