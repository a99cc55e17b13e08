-- ===== src/PortFirewall/ScriptLaws.antt =====
-- What a tunnel's name can do to the scripts of manager/portfirewall.go.
use amneziawg_windows_client.Common.{
  refl, ◌++◌, ◌∷◌, arith, map, ◌≡◌, List, ◌∙◌, ap, [], ℕ, ◌<◌, All,
}
use amneziawg_windows_client.Common.Text.{join, codes, decimal, Text}
use amneziawg_windows_client.Common.Text.Laws.{decimal-digits}
use amneziawg_windows_client.PortFirewall.{PortRule, off, PortFirewallMode}
use amneziawg_windows_client.PortFirewall.Quoting.{
  outside, ending, SameCode, Place, place_after, place_after-append, SameCode-ps_quote,
  place_after-ps_quote, code_of, SameCode-append, Plain, Plain-append,
}
use amneziawg_windows_client.PortFirewall.Ranges.{PortRange, effective_block_ranges, BlockRanges}
use amneziawg_windows_client.PortFirewall.Script.{
  block_command, port_token, ps_quote, apply_script, remove_command, block_commands, group_name,
  display_name,
}

-- Digits are no quotes.
All-Plain : (s : Text) → All (λ c. c < 58) s → Plain s
All-Plain [] h = refl
All-Plain (c ∷ s) h = ground (arith, h.0, All-Plain s h.1)

decimal-Plain : (n : ℕ) → Plain (decimal n)
decimal-Plain n = All-Plain (decimal n) (decimal-digits n)

place_after-port_token : (r : PortRange) → place_after outside (port_token r) ≡ ending
unfolding port_token
place_after-port_token r = ground (
  arith,
  place_after-ps_quote (decimal r.first) (decimal-Plain r.first),
  place_after-ps_quote (decimal r.first ++ (codes "-" ++ decimal r.last)) (
      Plain-append (decimal r.first) (codes "-" ++ decimal r.last) (decimal-Plain r.first)
        (decimal-Plain r.last)),
)

place_after-tokens :
    (r : PortRange) (rest : List PortRange)
    → place_after outside (join b',' (map port_token (r ∷ rest))) ≡ ending
unfolding join place_after
place_after-tokens r [] = place_after-port_token r
place_after-tokens r (s ∷ rest) =
    place_after-append outside (port_token r) (b',' ∷ join b',' (map port_token (s ∷ rest)))
    ∙ ap (λ p. place_after p (b',' ∷ join b',' (map port_token (s ∷ rest))))
        (place_after-port_token r)
    ∙ place_after-tokens s rest

SameCode-refl : (p : Place) (a : Text) → SameCode p a a
SameCode-refl p a = (refl, refl)

-- A common text in front.
SameCode-front :
    (p q : Place) (a b c : Text)
    → place_after p a ≡ q
    → SameCode q b c
    → SameCode p (a ++ b) (a ++ c)
SameCode-front p q a b c e h = SameCode-append p a a b c (SameCode-refl p a) (rw e h)

-- A quoted text in front, with code behind it.
SameCode-quoted :
    (s t a b : Text)
    → Plain s
    → Plain t
    → SameCode ending a b
    → SameCode outside (ps_quote s ++ a) (ps_quote t ++ b)
SameCode-quoted s t a b p q h =
    SameCode-append outside (ps_quote s) (ps_quote t) a b (SameCode-ps_quote s t p q)
      (rw (place_after-ps_quote s p) h)

-- The texts that hold a tunnel's name.
group_name-Plain : (t : Text) → Plain t → Plain (group_name t)
unfolding group_name
group_name-Plain t h = Plain-append (codes "AmneziaWG-PortFW-") t refl h

display_name-Plain : (t proto : Text) → Plain t → Plain proto → Plain (display_name t proto)
unfolding display_name
display_name-Plain t proto h k =
    let last = Plain-append proto (codes ")") k refl in
    let middle = Plain-append (codes ", ") (proto ++ codes ")") refl last in
    let named = Plain-append t (codes ", " ++ (proto ++ codes ")")) h middle in
    Plain-append (codes "AmneziaWG port firewall (") (t ++ (codes ", " ++ (proto ++ codes ")")))
      refl named

-- The pieces of code of a block command, each from the place that it starts at.
place_after_pieces :
    (place_after outside (codes "New-NetFirewallRule -DisplayName ") ≡ outside)
    × (place_after ending (codes " -Group ") ≡ outside)
    × (place_after ending (codes " -Direction Outbound -Action Block -Protocol ") ≡ outside)
    × (place_after outside (codes " -RemotePort @(") ≡ outside)
    × (place_after ending (codes ") -InterfaceAlias ") ≡ outside)
    × (place_after ending (codes " -Profile Any | Out-Null; ") ≡ outside)
unfolding place_after
place_after_pieces = (refl, refl, refl, refl, refl, refl)

-- A block command leaves the lexer outside of any literal.
place_after-block_command :
    (t proto : Text) (ranges : List PortRange)
    → Plain t
    → Plain proto
    → place_after outside proto ≡ outside
    → place_after outside (block_command t proto ranges) ≡ outside
unfolding block_command
place_after-block_command t proto [] p q h = unfold place_after in refl
place_after-block_command t proto (r ∷ rest) p q h =
    let l = place_after_pieces in
    let tokens = place_after-tokens r rest in
    let shown = place_after-ps_quote (display_name t proto) (display_name-Plain t proto p q) in
    let grouped = place_after-ps_quote (group_name t) (group_name-Plain t p) in
    let named = place_after-ps_quote t p in
    simp (place_after-append, shown, grouped, named, tokens, h, l.0, l.1, l.2, l.3, l.4, l.5)

module _ (t u : Text) (plain_t : Plain t) (plain_u : Plain u) where
  block_command-SameCode :
      (proto : Text) (ranges : List PortRange)
      → Plain proto
      → place_after outside proto ≡ outside
      → SameCode outside (block_command t proto ranges) (block_command u proto ranges)
  unfolding block_command place_after
  block_command-SameCode proto [] q h = SameCode-refl outside []
  block_command-SameCode proto (r ∷ rest) q h =
      SameCode-front outside outside (codes "New-NetFirewallRule -DisplayName ") _ _ refl (
        SameCode-quoted _ _ _ _ (display_name-Plain t proto plain_t q)
          (display_name-Plain u proto plain_u q)
          (SameCode-front ending outside (codes " -Group ") _ _ refl (
            SameCode-quoted _ _ _ _ (group_name-Plain t plain_t) (group_name-Plain u plain_u) (
              SameCode-front ending outside (codes " -Direction Outbound -Action Block -Protocol ")
                _ _ refl
                (SameCode-front outside outside proto _ _ h (
                  SameCode-front outside outside (codes " -RemotePort @(") _ _ refl (
                    SameCode-front outside ending _ _ _ (place_after-tokens r rest) (
                      SameCode-front ending outside (codes ") -InterfaceAlias ") _ _ refl
                        (SameCode-quoted _ _ _ _ plain_t plain_u (SameCode-refl ending _))))))))))

  remove_command-SameCode :
      (a b : Text)
      → SameCode outside a b
      → SameCode outside (remove_command t a) (remove_command u b)
  unfolding remove_command place_after
  remove_command-SameCode a b h =
      SameCode-front outside outside
        (codes "$ErrorActionPreference = 'SilentlyContinue'; Get-NetFirewallRule | ") _ _ refl
        (SameCode-front outside outside (codes "Where-Object { $_.Group -eq ") _ _ refl (
          SameCode-quoted _ _ _ _ (group_name-Plain t plain_t) (group_name-Plain u plain_u)
            (SameCode-front ending outside (codes " } | Remove-NetFirewallRule") _ _ refl h)))

  block_commands-SameCode :
      (mode : PortFirewallMode) (ranges : BlockRanges)
      → SameCode outside (block_commands mode t ranges) (block_commands mode u ranges)
  unfolding block_commands place_after
  block_commands-SameCode off ranges = SameCode-refl outside []
  block_commands-SameCode _ ranges = both ranges
    where
      both :
          (ranges : BlockRanges)
          → SameCode outside
              (block_command t (codes "TCP") ranges.tcp ++ block_command t (codes "UDP") ranges.udp)
              (block_command u (codes "TCP") ranges.tcp ++ block_command u (codes "UDP") ranges.udp)
      both ranges =
          SameCode-append outside _ _ _ _
            (block_command-SameCode (codes "TCP") ranges.tcp refl refl)
            (rw (place_after-block_command t (codes "TCP") ranges.tcp plain_t refl refl)
              (block_command-SameCode (codes "UDP") ranges.udp refl refl))

-- Outside its string literals the script is the same for any two tunnel names that hold no typographic
-- single quote, whatever else they hold, ASCII quotes included: such a name never becomes code.
pub apply_script-SameCode :
    (mode : PortFirewallMode) (rules : List PortRule) (t u : Text)
    → Plain t
    → Plain u
    → code_of outside (apply_script mode rules t) ≡ code_of outside (apply_script mode rules u)
unfolding apply_script place_after
apply_script-SameCode mode rules t u p q =
    (remove_command-SameCode t u p q _ _ (
      SameCode-front outside outside (codes "; ") _ _ refl
        (block_commands-SameCode t u p q mode (effective_block_ranges mode rules)))).0
