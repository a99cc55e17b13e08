-- ===== src/Router.antt =====
-- manager/domainrouting.go: the state of the domain router, and what it asks of the system.
--
-- `Answers` holds what the system says during one call of a method. What a method changes outside
-- the manager is in `World`.
pub mod Saved
pub mod Interfaces
pub mod Redirect
pub mod Managed
pub mod Lifecycle
pub mod Settings
pub mod Sound
pub mod SafeDns
pub mod SafeTunnel
pub mod SafeSettings
pub mod Run
pub mod RunLaws
pub mod Choice
pub mod Outcomes
pub mod Started
use amneziawg_windows_client.Common.{List, Bool, Option, ℕ}
use amneziawg_windows_client.Common.Text.{Text}
use amneziawg_windows_client.DomainRouting.{DomainListMode, DomainRoutingRules, DnsRouteMode}
use amneziawg_windows_client.DomainRouting.Loopback.{Ip, IpCidr, Peer}
use amneziawg_windows_client.Routes.{RouteTable, DefaultRoute, RouteManager}
use amneziawg_windows_client.Tunnel.{TunnelState}

-- domainRoutingConfig
pub record DomainRoutingConfig : Type 0 where
  pub mode : Text
  pub list_mode : Text
  pub domains : List Text
  pub tunnels : List Text
  pub directs : List Text
  pub blocks : List Text
  pub exclude_loopback : Bool
  pub disable_ipv6 : Bool
  pub dns_upstreams : List Text
  pub dns_route_mode : Text
  pub route_tunnel : Text
  pub managed_route_tunnel : Text
  pub managed_route_tunnel_original_table_off : Bool

-- interfaceDNSState
pub record InterfaceDnsState : Type 0 where
  pub luid : ℕ
  pub servers : List Ip
  pub search : List Text

-- domainRoutingManager; `proxy` tells whether the DNS server runs.
pub record Router : Type 0 where
  pub routes : RouteManager
  pub list_mode : DomainListMode
  pub dns_route_mode : DnsRouteMode
  pub route_tunnel : Text
  pub config : DomainRoutingConfig
  pub rules : DomainRoutingRules
  pub config_path : Text
  pub config_mod_time : ℕ
  pub tun_if_index : ℕ
  pub default_dns : List Ip
  pub tun_dns : List Ip
  pub tun_search : List Text
  pub dns_upstreams : List Text
  pub default_dns_state : Option InterfaceDnsState
  pub tun_dns_state : Option InterfaceDnsState
  pub cached_system_dns : List Ip
  pub cached_default_if_index : ℕ
  pub exclude_loopback : Bool
  pub loopback_route_added : Bool
  pub proxy : Bool

-- conf.Config, as far as it is read and written here; `keys` are the private key and the keys of the
-- peers, which only the package conf reads.
pub record TunnelConfig : Type 0 where
  pub name : Text
  pub keys : List Text
  pub table_off : Bool
  pub dns : List Ip
  pub dns_search : List Text
  pub peers : List Peer

-- A value, or the text of an error.
pub data Fallible (A : Type 0) : Type 0 where
  returned : A → Fallible A
  raised : Text → Fallible A

-- winipcfg.IPAdapterAddresses. `row_index` is the InterfaceIndex of the row that LUID.Interface
-- reads, none where it fails.
pub record Adapter : Type 0 where
  pub friendly_name : Text
  pub luid : ℕ
  pub row_index : Option ℕ
  pub if_index : ℕ
  pub if_type : ℕ
  pub is_up : Bool
  pub ipv4_metric : ℕ
  pub dns_servers : List Ip

-- The other columns of a row of GetIPForwardTable2.
pub record RouteRow : Type 0 where
  pub prefix_length : ℕ
  pub loopback : Bool
  pub route : DefaultRoute

-- The routing table of winipcfg, the stored tunnel configurations of the package conf with
-- LoadFromName, Save and ListConfigNames, and encoding/json. `delete_allowed_ip` is LUID.DeleteRoute
-- for a masked network and a next hop, whose errors are only logged.
pub record System : Type 1 where
  pub routing : RouteTable
  pub Store : Type 0
  pub load_tunnel : Text → Store → Fallible TunnelConfig
  pub save_tunnel : TunnelConfig → Store → Option Text × Store
  pub list_tunnels : Store → Fallible (List Text)
  pub delete_allowed_ip : ℕ → IpCidr → Ip → routing.Table → routing.Table
  pub encode : DomainRoutingConfig → Text
  pub decode : Text → DomainRoutingConfig → DomainRoutingConfig

-- The adapters of GetAdaptersAddresses for AF_UNSPEC, for AF_INET, and for AF_INET with
-- GAAFlagIncludeAll; the routing table, LUID.DNS, an interface's registry values, LUID.SetDNS;
-- os.MkdirAll; os.WriteFile with the error, and the file and its time that os.Stat sees behind it;
-- the error of newDNSProxy; and trackedTunnels in the order in which a loop visits it.
pub record Answers : Type 0 where
  pub adapters : Fallible (List Adapter)
  pub ipv4_adapters : Fallible (List Adapter)
  pub all_adapters : Fallible (List Adapter)
  pub forward_table : Fallible (List RouteRow)
  pub dns_of : ℕ → Fallible (List Ip)
  pub registry_value : ℕ → Text → Option Text
  pub set_dns : ℕ → List Ip → List Text → Option Text
  pub mkdir_all : Text → Option Text
  pub write_file : Text → Text → Option Text × Option (Text × ℕ)
  pub bind_proxy : Option Text
  pub tracked : List (Text × TunnelState)

-- The routing table, the calls of LUID.SetDNS, the newest first, with the interface and its servers,
-- the stored tunnels, and the configuration file with its time.
pub record World (sys : System) : Type 0 where
  pub table : sys.routing.Table
  pub dns_calls : List (ℕ × List Ip)
  pub store : sys.Store
  pub file : Option (Text × ℕ)

-- A method's new state, the new world, and its error.
abbrev pub Result : System → Type 0
Result sys = Router × World sys × Option Text
