-- ===== src/PortFirewall/Script.antt =====
-- manager/portfirewall.go: the PowerShell commands that carry out the rules.
use amneziawg_windows_client.Common.{List, [], ◌++◌, map, ◌∷◌, if◌then◌else◌, ◌==◌}
use amneziawg_windows_client.Common.Text.{codes, Text, replace_byte, decimal, join}
use amneziawg_windows_client.PortFirewall.{PortRule, off, PortFirewallMode}
use amneziawg_windows_client.PortFirewall.Ranges.{BlockRanges, PortRange, effective_block_ranges}

-- psQuote
unfoldable pub ps_quote : Text → Text
ps_quote s = codes "'" ++ (replace_byte b'\'' (codes "''") s ++ codes "'")

-- portFirewallGroupName
unfoldable pub group_name : Text → Text
group_name tunnel = codes "AmneziaWG-PortFW-" ++ tunnel

unfoldable pub port_token : PortRange → Text
port_token r =
    if r.first == r.last
    then ps_quote (decimal r.first)
    else ps_quote (decimal r.first ++ (codes "-" ++ decimal r.last))

unfoldable pub display_name : Text → Text → Text
display_name tunnel proto =
    codes "AmneziaWG port firewall (" ++ (tunnel ++ (codes ", " ++ (proto ++ codes ")")))

-- One round of the loop over the protocols.
unfoldable pub block_command : Text → Text → List PortRange → Text
block_command tunnel proto [] = []
block_command tunnel proto (r ∷ rest) =
    codes "New-NetFirewallRule -DisplayName "
    ++ (ps_quote (display_name tunnel proto)
        ++ (codes " -Group "
            ++ (ps_quote (group_name tunnel)
                ++ (codes " -Direction Outbound -Action Block -Protocol "
                    ++ (proto
                        ++ (codes " -RemotePort @("
                            ++ (join b',' (map port_token (r ∷ rest))
                                ++ (codes ") -InterfaceAlias "
                                    ++ (ps_quote tunnel
                                        ++ codes " -Profile Any | Out-Null; ")))))))))

-- The command that both scripts begin with, up to its last blank.
unfoldable pub remove_command : Text → Text → Text
remove_command tunnel rest =
    codes "$ErrorActionPreference = 'SilentlyContinue'; Get-NetFirewallRule | "
    ++ (codes "Where-Object { $_.Group -eq "
        ++ (ps_quote (group_name tunnel) ++ (codes " } | Remove-NetFirewallRule" ++ rest)))

unfoldable pub block_commands : PortFirewallMode → Text → BlockRanges → Text
block_commands off tunnel ranges = []
block_commands _ tunnel ranges =
    block_command tunnel (codes "TCP") ranges.tcp ++ block_command tunnel (codes "UDP") ranges.udp

-- The script that applyRulesLocked builds for the active tunnel.
unfoldable pub apply_script : PortFirewallMode → List PortRule → Text → Text
apply_script mode rules tunnel =
    remove_command tunnel
      (codes "; " ++ block_commands mode tunnel (effective_block_ranges mode rules))

-- The script of removePortFirewallRulesForTunnel.
unfoldable pub remove_script : Text → Text
remove_script tunnel = remove_command tunnel []

-- The script of removeAllPortFirewallRules.
unfoldable pub remove_all_script : Text
remove_all_script =
    codes "$ErrorActionPreference = 'SilentlyContinue'; Get-NetFirewallRule | "
    ++ codes "Where-Object { $_.Group -like 'AmneziaWG-PortFW-*' } | Remove-NetFirewallRule"
