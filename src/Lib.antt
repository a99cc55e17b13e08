-- ===== src/Lib.antt =====
-- The AmneziaWG client for Windows: a model of its firewall, its domain routing and its
-- editor's highlighter, and of the manager service and its windows, and what they guarantee.
--
-- The parts and how they interact. The manager service keeps a port firewall
-- (manager/portfirewall.go) and a domain router (manager/domainrouting.go) that answers DNS
-- queries (manager/domainrouting_dnsproxy.go); the tunnel tracker tells both of every change
-- of a tunnel's state. Its windows are processes of their own, which call its methods and
-- hear its notifications through pipes (manager/ipc_client.go, manager/ipc_server.go). Its
-- log is a ring of lines in shared memory (ringlogger), which the window follows, and its
-- updater (updater) believes a signed list of files. The firewall turns the user's port
-- rules into PowerShell scripts for the tunnel's interface. The router decides from the
-- user's rules which way a domain goes, asks the upstream servers of that way, and installs
-- a route for each address that is resolved; it also rewrites the AllowedIPs of tunnels. The
-- editor (ui/syntax) colours a configuration text as it is typed.
--
-- The files:
-- - Common, with Common/Tests, Lists, Text, Text/Laws and Assoc: tests, lists, Go's strings and
--   maps.
-- - Tunnel: the states of a tunnel (TunnelState of manager/ipc_client.go).
-- - PortFirewall: modes and rules (parsePortFirewallMode, normalizePortRules).
--   PortFirewall/Ranges: mergeRanges, complementRanges, effectiveBlockRangesLocked.
--   PortFirewall/Script: psQuote, applyRulesLocked, removePortFirewallRulesForTunnel.
--   PortFirewall/Manager: portFirewallManager and its methods. PortFirewall/Quoting says how
--   PowerShell reads single-quoted strings, by its documentation: four typographic quotes count. RangeLaws, BlockLaws, ScriptLaws and ManagerLaws hold
--   the proofs.
-- - Syntax: byte tests and most validators of ui/syntax/highlighter.go. Syntax/Address: networks,
--   endpoints, addresses. Syntax/Field: names and sections. Syntax/Highlight: highlightValue and
--   highlightMultivalue. Syntax/Config: highlightConfig. Syntax/Junk: highlightASecConfig.
--   ValueLaws, LineLaws, ConfigLaws, SpanOrder and Junk/JunkLaws hold the proofs.
-- - DomainRouting: modes, rules, matchDomain, decideRoute. DomainRouting/Loopback: the functions
--   on AllowedIPs. RuleLaws, LoopbackLaws, ConfigLaws and Ipv6Laws hold the proofs.
-- - Routes: addRouteForIP, buildRouteEntry, cleanupExpiredRoutes and their helpers. Routes/Repair:
--   verifyAndRepairRoutes, clearAllRoutes. RouteLaws and Cleanup hold the proofs.
-- - Router: domainRoutingManager, and what it asks of the system. Router/Saved: the configuration
--   file. Router/Interfaces: findTunnelInterface, findDefaultRouteAndDNS, readSearchListForInterface,
--   getSystemDNSAndInterface, the route for 127.0.0.1. Router/Redirect: applyDNSLocked,
--   restoreDNSLocked. Router/Managed: the managed tunnel's TableOff, updateAllTunnelConfigs.
--   Router/Lifecycle: init, OnTunnelStateChange, activateTunnelLocked, deactivateTunnelLocked.
--   Router/Settings: SetMode, SetRules, SetDNSSettings and the other settings. Router/Run: the
--   steps of the service. Sound, SafeDns, SafeTunnel, SafeSettings, RunLaws, Choice, Outcomes
--   and Started hold the proofs.
-- - RingLog: the ring of lines of ringlogger/ringlogger.go, WriteWithTimestamp, WriteTo and
--   FollowFromCursor. RingLog/Slots and RingLog/Follow hold the proofs.
-- - Tracker: manager/tunneltracker.go: the states of services, trackedTunnelsGlobalState, the
--   callback of trackTunnelService. Tracker/TrackerLaws holds the proofs.
-- - Updater: versionNewerThanUs and findCandidate of updater/versions.go, readFileList of
--   updater/signify.go. Updater/VersionLaws and Updater/ListLaws hold the proofs.
-- - Ipc: the values on the pipes, MethodType, NotificationType and UpdateState. Ipc/Client: what
--   the calls share, rpcDecodeError. Ipc/Calls and Ipc/RoutingCalls: the calls of a window, from
--   Tunnel.StoredConfig to IPCClientSetPortFirewallRules. Ipc/Events: the goroutine of
--   InitializeIPCClient and the callbacks.
-- - Manager: the variables of the package, and what it asks of Windows. Manager/Install: the
--   services of tunnels (manager/install.go). Manager/Configs: StoredConfig, RuntimeConfig and
--   manager/ipc_uapi.go. Manager/Service: Start, Stop, WaitForStop, Delete, State, Create, Quit,
--   Update. Manager/Requests and Manager/Server: ServeConn, IPCServerListen. Manager/Notify:
--   notifyAll and the notifications. Manager/Updates: checkForUpdates. Manager/Sessions: the
--   sessions of Execute (manager/service.go). Manager/Link: a window that is connected to its
--   service. LinkLaws, CallLaws, StreamLaws, ServeLaws, KeptServices, KeptLaws, QuitLaws,
--   ShownLaws, NotifyLaws, StartLaws and UpdateLaws hold the proofs.
-- - LocalRecords: the local DNS records of manager/blocklist.go, with the proofs in SavedLaws and
--   LookupLaws.
-- - DnsLog: DNSLogger of manager/dnslog.go, and Reads with the proofs.
-- - Dns: pickUpstreams, normalizeUpstream, dialerForTarget, htonl. Dns/Query: exchangeDNS and
--   exchangeWithUpstreams. Dns/Handler: handleDNSQuery, from the request to the reply, the log
--   entry and the routes. UpstreamLaws, QueryLaws, HandlerLaws, StrictLaws, WayLaws and
--   StrictReply hold the proofs.
-- - Tests: the theorems at concrete inputs.
--
-- How the code is written here. A text is the list of its bytes, which are ASCII where a
-- function of the packages strings or unicode looks at them. A pointer into the editor's
-- text is an index, and the byte behind the text is 0, as in the source. A Go map is an
-- association list, and a range over it follows the list. sort.Slice is insertion at the
-- front of equal elements. The methods of the manager objects hold a mutex from end to end,
-- so each is one step. A DNS query, which takes the mutex several times, reads the manager
-- before it asks the upstream servers and again behind that, two states between which other
-- methods may come; the reads before, and the routes of one response, are one step each. Log
-- lines are left out. A panic is `none` where the code could index an empty slice or
-- follow a nil pointer. IPv4 and IPv6 addresses are their numbers, and two networks are
-- equal where their texts are. The TTL of a route is converted to an int, which has 32 bits in the build for
-- GOARCH=386. Unsigned bytes wrap around at 256; the ports of a rule are
-- 16-bit numbers, and sums of ports stay far below the width of Go's int, as do the digits
-- that the validators add up, whose number is bounded by their guards.
--
-- Code outside the repository is a parameter: `System` of PortFirewall/Manager for the file
-- system and PowerShell, `RouteTable` of Routes for winipcfg's routing table, `NetText` of
-- Dns for the text functions of the package net, `DnsClient` of Dns/Query for the client of
-- the package dns, whose exchanges are recorded, `System` of Router for winipcfg, the stored tunnels of the package conf
-- and encoding/json, and `Answers` for what the system says during one call: adapters,
-- routes, the registry, errors; `Host` of Manager for the service control manager, the rest
-- of the package conf, and the answers during each request; `Crypto` of Updater for base64,
-- hexadecimal digits and ed25519. The default MTU of the package device is an argument.
-- Nothing is assumed of them but what a theorem names.
--
-- The stream of encoding/gob is a list of typed values, and a value of an enumeration is one
-- of its constants. The interface `Transport` of Ipc/Client is the connection as a window
-- sees it; `pipes` of Manager/Link fills it with ServeConn. rpcMutex keeps the calls apart,
-- so that the values of one call are served together, and a read that would wait is an
-- error. The goroutines of notifyAll and of Start are jobs that are recorded, and run as steps of
-- their own, in any order, in Manager/QuitLaws. A write to a window's events may end early.
--
-- The mutable state of the router is passed from call to call: its fields, and a `World`
-- with the routing table, the calls of SetDNS, the stored tunnels and the configuration
-- file. The goroutines that call its methods, the timers and the DNS server are the steps of
-- Router/Run, in any order. The log's lines are a function of the slot, uint32 indices wrap
-- around at 2^32, and a write is one step: two writers at the same time are not modelled.
--
-- Fuel. The loop of ServeConn takes a round for each value at most, and the loop that reads
-- notifications too. The loops that wait for a service to go away take `patience` rounds, an
-- argument; without enough of them the method has not answered. A panic there ends the
-- manager: the method has no answer, and what the model does behind it is beside the point. The loops over the log's
-- slots take 2048 turns, as in the source. The loop of isValidIPv6 runs on the length of the
-- span and one: every round that goes on moves forward by a byte at least. Printing a number
-- runs on the number and one: each digit divides by ten.
--
-- Not modelled: the start and the stop of the DNS server; the subscriptions of the tunnel
-- tracker and the table of all its tunnels; the mapping of the log's memory; the tokens and
-- processes of the manager's windows, the installation of the manager itself; widgets, the
-- downloads of the updater, translations and installers, which are calls of Windows or of
-- other libraries.
pub mod Common
pub mod Ipc
pub mod Manager
pub mod Tunnel
pub mod PortFirewall
pub mod Syntax
pub mod DomainRouting
pub mod Routes
pub mod LocalRecords
pub mod DnsLog
pub mod Dns
pub mod Tracker
pub mod Updater
pub mod RingLog
pub mod Router
mod Tests
